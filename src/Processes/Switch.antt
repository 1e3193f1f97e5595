-- ===== src/Processes/Switch.antt =====
-- The switch of a suspicious process, with the list that the server keeps.
use vps_monitor.Common.{Text, text_eq, some, List, false, ◌&&◌, ◌||◌, ◌≡◌, arith}
use vps_monitor.Common.Sets.{has, add, delete, has-add, has-delete}
use vps_monitor.Processes.{
  ProcessInfo, kill_on_sight_name, can_use_kill_on_sight, active_kill_on_sight_name, Effect,
  kill_on_sight_added, kill_on_sight_removed, handle_toggle_kill_on_sight,
}

-- What the server makes of its list.
abbrev pub served : Effect → List Text → List Text
served (kill_on_sight_added name) names = add name names
served (kill_on_sight_removed name) names = delete name names
served _ names = names

-- The list after the switch is pressed and loaded again.
abbrev pub pressed : ProcessInfo → List Text → List Text
pressed proc names = served (handle_toggle_kill_on_sight (some names) proc) names

-- Pressing the switch adds or removes no name on the server's list but the one suggested for the process and
-- the process's own, and none at all where no name is suggested.
pub others_kept :
    (proc : ProcessInfo) (names : List Text) (k : Text)
    → (can_use_kill_on_sight proc && (text_eq k (kill_on_sight_name proc) || text_eq k proc.name))
      ≡ false
    → has k (pressed proc names) ≡ has k names
unfolding handle_toggle_kill_on_sight active_kill_on_sight_name
others_kept proc names k h = ground (
  arith,
  h,
  has-add k (kill_on_sight_name proc) names,
  has-delete k (kill_on_sight_name proc) names,
  has-delete k proc.name names,
)
