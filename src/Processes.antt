-- ===== src/Processes.antt =====
-- The processes of frontend/src/features/processes/components/processes-page.tsx: the row of a
-- suspicious process and the announcements of kills, with ProcessInfo and ProcessKillFailure of
-- api/get-processes.ts. Lower case and the text of a number are the runtime's, parameters.
pub mod Switch
pub mod Announced
mod Tests
use vps_monitor.Common.{
  ℕ, Text, codes, truthy, text_eq, or_text, Option, none, some, List, [], ◌∷◌, ◌++◌, map, Bool,
  true, false, not, ◌&&◌, ◌||◌, if◌then◌else◌, ltb, or_else, filter, ◌==◌, is_some,
}
use vps_monitor.Common.Sets.{has, add, delete}

pub record ProcessInfo : Type 0 where
  pub pid : ℕ
  pub ppid : Option ℕ
  pub name : Text
  pub parent_name : Option Text
  -- In a unit of its own.
  pub cpu_percent : ℕ
  pub memory_bytes : ℕ
  pub suspicious : Bool
  pub suspicious_reason : Option Text
  pub process_type : Text
  pub kill_error : Option Text
  pub suggested_kill_on_sight_name : Option Text
  pub exe_path : Option Text
  pub cmdline : Option Text
  pub source_hint : Option Text
  pub systemd_unit : Option Text

pub record ProcessKillFailure : Type 0 where
  pub pid : ℕ
  pub name : Text
  pub error : Text

abbrev protected_service_names : List Text
protected_service_names =
    codes "apache2"
    ∷ codes "caddy"
    ∷ codes "haproxy"
    ∷ codes "httpd"
    ∷ codes "nginx"
    ∷ codes "mysql"
    ∷ codes "mysqld"
    ∷ codes "postgres"
    ∷ codes "redis-server"
    ∷ []

unfoldable pub is_protected_service_name : (Text → Text) → Text → Bool
is_protected_service_name to_lower name = has (to_lower name) protected_service_names

unfoldable pub suspicious_processes : List ProcessInfo → List ProcessInfo
suspicious_processes = filter (λ p. p.suspicious)

-- The names that the row works with. A suggested name that is empty counts as none.
unfoldable pub kill_on_sight_name : ProcessInfo → Text
kill_on_sight_name proc = or_text (or_else proc.suggested_kill_on_sight_name []) proc.name

unfoldable pub can_use_kill_on_sight : ProcessInfo → Bool
can_use_kill_on_sight proc = truthy (or_else proc.suggested_kill_on_sight_name [])

-- The list of names that are killed on sight, where `none` is that it is not loaded.
unfoldable pub active_kill_on_sight_name : Option (List Text) → ProcessInfo → Text
unfolding kill_on_sight_name
active_kill_on_sight_name none proc = proc.name
active_kill_on_sight_name (some names) proc =
    if has (kill_on_sight_name proc) names then kill_on_sight_name proc else proc.name

unfoldable pub is_kill_on_sight : Option (List Text) → ProcessInfo → Bool
unfolding kill_on_sight_name
is_kill_on_sight none proc = false
is_kill_on_sight (some names) proc = has (kill_on_sight_name proc) names || has proc.name names

pub data Effect : Type 0 where
  killed : ℕ → Effect
  kill_on_sight_added kill_on_sight_removed : Text → Effect
  -- The toast that the name is protected.
  refused : Text → Effect

unfoldable pub handle_toggle_kill_on_sight : Option (List Text) → ProcessInfo → Effect
unfolding can_use_kill_on_sight is_kill_on_sight active_kill_on_sight_name kill_on_sight_name
handle_toggle_kill_on_sight names proc =
    if not (can_use_kill_on_sight proc)
    then refused proc.name
    else if is_kill_on_sight names proc
    then kill_on_sight_removed (active_kill_on_sight_name names proc)
    else kill_on_sight_added (kill_on_sight_name proc)

unfoldable pub handle_kill : ProcessInfo → List Effect
handle_kill proc = killed proc.pid ∷ []

abbrev kill_at : Option ℕ → List Effect
kill_at none = []
kill_at (some ppid) = if ppid == 0 then [] else killed ppid ∷ []

unfoldable pub handle_kill_parent : ProcessInfo → List Effect
handle_kill_parent proc = kill_at proc.ppid

-- Whether the row has the button for the parent.
abbrev above_one : Option ℕ → Bool
above_one none = false
above_one (some ppid) = ltb 1 ppid

unfoldable pub has_kill_parent : ProcessInfo → Bool
has_kill_parent proc = above_one proc.ppid

-- One of the two announcements: the names or keys that were announced, whether the timer runs that
-- forgets them, and the toasts.
pub record Announcer : Type 0 where
  pub announced : List Text
  pub timer : Bool
  pub toasts : List Text

-- One turn of the loop over the kills, each with its key.
unfoldable pub announce : Text → Announcer → Announcer
announce key s =
    if has key s.announced
    then s
    else record s { announced = add key s.announced; toasts = s.toasts ++ key ∷ [] }

unfoldable pub announce_all : List Text → Announcer → Announcer
unfolding announce
announce_all [] s = s
announce_all (key ∷ keys) s = announce_all keys (announce key s)

pub data Input : Type 0 where
  -- The reply has another array, or none, which is taken as an empty one.
  replied : List Text → Input
  timer_fired : Input

-- The effect, after the one before it was cleaned up; and its timer.
unfoldable pub handle : Input → Announcer → Announcer
unfolding announce_all
handle (replied []) s = record s { timer = false }
handle (replied (key ∷ keys)) s = record (announce_all (key ∷ keys) s) { timer = true }
handle timer_fired s = if s.timer then record s { announced = []; timer = false } else s

-- The key of a failure.
unfoldable pub failure_key : (ℕ → Text) → ProcessKillFailure → Text
failure_key print f = print f.pid ++ 58 ∷ f.error
