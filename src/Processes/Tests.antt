-- ===== src/Processes/Tests.antt =====
-- A suspicious process, its switch and its announcements.
use vps_monitor.Common.{
  ℕ, Text, codes, Option, some, none, List, [], ◌∷◌, Bool, true, ◌≡◌, refl, inl, inr, any, count,
  number,
}
use vps_monitor.Common.Sets.{has}
use vps_monitor.Processes.{
  ProcessInfo, replied, timer_fired, handle, is_kill_on_sight, handle_toggle_kill_on_sight, refused,
}
use vps_monitor.Processes.Announced.{fresh, replies, times, times-replies}

abbrev process : ℕ → Text → Option Text → ProcessInfo
process pid name suggested = record {
  pid = pid;
  ppid = some 1;
  name = name;
  parent_name = none;
  cpu_percent = 90;
  memory_bytes = 0;
  suspicious = true;
  suspicious_reason = none;
  process_type = codes "User/unknown task";
  kill_error = none;
  suggested_kill_on_sight_name = suggested;
  exe_path = none;
  cmdline = none;
  source_hint = none;
  systemd_unit = none;
}

abbrev miner : ProcessInfo
miner = process 70 (codes "xmrig-7") (some (codes "xmrig"))

abbrev both : List (Text)
both = codes "xmrig-7" ∷ codes "xmrig" ∷ codes "kdevtmp" ∷ []

-- A name that is on the list cannot be taken off it without a suggestion: the switch is on and refuses.
abbrev server : ProcessInfo
server = process 80 (codes "nginx") none

stuck_on :
    (is_kill_on_sight (some (codes "nginx" ∷ [])) server ≡ true)
    × (handle_toggle_kill_on_sight (some (codes "nginx" ∷ [])) server ≡ refused (codes "nginx"))
unfolding is_kill_on_sight handle_toggle_kill_on_sight has vps_monitor.Common.text_eq
stuck_on = (refl, refl)

abbrev reported : List (List Text)
reported = (codes "x" ∷ []) ∷ [] ∷ (codes "x" ∷ codes "y" ∷ []) ∷ []

times-replies_example :
    times (codes "x") (replies reported fresh) ≡ number (any (has (codes "x")) reported)
times-replies_example = times-replies (codes "x") reported

-- A reply without kills stops the timer, and the name is not announced again when it is killed later.
forgotten :
    (handle
      (replied (codes "x" ∷ []))
      (handle timer_fired (handle (replied []) (handle (replied (codes "x" ∷ [])) fresh)))).toasts
    ≡ codes "x" ∷ []
unfolding handle has vps_monitor.Common.Sets.add vps_monitor.Common.text_eq
forgotten = refl
