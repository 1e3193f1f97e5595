-- ===== src/Settings.antt =====
-- The settings' list of docker hosts, frontend/src/features/settings/components/docker-hosts-section.tsx,
-- with the types of features/settings/types.ts.
pub mod Names
pub mod Valid
pub mod Changes
pub mod Auth
mod Tests
use vps_monitor.Common.{
  ℕ, zero, suc, Text, codes, truthy, text_eq, trim, Option, none, some, List, [], ◌∷◌, ◌++◌, map,
  Bool, true, false, not, ◌&&◌, ◌||◌, if◌then◌else◌, ◌==◌, any, filter, length, get_elem?, is_some,
}
use vps_monitor.Common.Dict.{set, erase}
use vps_monitor.Common.Sets.{add, delete}

pub data ConfigSource : Type 0 where
  file env default mixed : ConfigSource

pub record DockerHost : Type 0 where
  pub name : Text
  pub host : Text
  pub source : ConfigSource

pub record EditingHost : Type 0 where
  pub name : Text
  pub host : Text

pub record TestResult : Type 0 where
  pub success : Bool
  pub message : Text

pub data Effect : Type 0 where
  required_toast : Effect
  -- The name is one of the environment's, or of the list's.
  env_toast exists_toast : Text → Effect
  hosts_sent : List EditingHost → Effect
  test_sent : Text → Text → Effect

-- `config` is `config.hosts` of the props.
pub record Section : Type 0 where
  pub config : List DockerHost
  pub file_hosts : List EditingHost
  pub editing_index : Option ℕ
  pub editing_host : EditingHost
  pub is_adding : Bool
  pub new_host : EditingHost
  pub test_results : List (Text × TestResult)
  pub testing_keys : List Text
  pub effects : List Effect

abbrev pub is_env : ConfigSource → Bool
is_env env = true
is_env _ = false

abbrev pub blank : EditingHost
blank = record { name = []; host = [] }

unfoldable pub env_hosts : List DockerHost → List DockerHost
env_hosts = filter (λ h. is_env h.source)

unfoldable pub original_file_hosts : List DockerHost → List EditingHost
original_file_hosts hosts =
    map (λ h. record { name = h.name; host = h.host }) (filter (λ h. not (is_env h.source)) hosts)

-- Whether a host has the name, also where one is left out by its position.
abbrev pub has_name : Text → List EditingHost → Bool
has_name name = any (λ h. text_eq h.name name)

abbrev pub has_env : Text → List DockerHost → Bool
has_env name = any (λ h. text_eq h.name name)

abbrev pub has_other : ℕ → Text → List EditingHost → Bool
has_other i name [] = false
has_other zero name (h ∷ hs) = has_name name hs
has_other (suc i) name (h ∷ hs) = text_eq h.name name || has_other i name hs

-- `prev.filter((_, i) => i !== index)`.
unfoldable pub remove_at : ℕ → List EditingHost → List EditingHost
remove_at i [] = []
remove_at zero (h ∷ hs) = hs
remove_at (suc i) (h ∷ hs) = h ∷ remove_at i hs

-- `next[i] = h`; an index past the end, which would leave a hole in the array, is not modelled.
unfoldable pub set_at : ℕ → EditingHost → List EditingHost → List EditingHost
set_at zero g [] = g ∷ []
set_at (suc i) g [] = []
set_at zero g (h ∷ hs) = g ∷ hs
set_at (suc i) g (h ∷ hs) = h ∷ set_at i g hs

abbrev pub differ : List EditingHost → List EditingHost → Bool
differ [] os = false
differ (h ∷ hs) [] = true
differ (h ∷ hs) (o ∷ os) =
    not (text_eq h.name o.name) || not (text_eq h.host o.host) || differ hs os

unfoldable pub has_changes : Section → Bool
unfolding original_file_hosts
has_changes s =
    not (length s.file_hosts == length (original_file_hosts s.config))
    || differ s.file_hosts (original_file_hosts s.config)

-- The state when the props' hosts are new, and their effect.
unfoldable pub reset : List DockerHost → Section → Section
unfolding original_file_hosts
reset hosts s = record s {
  config = hosts;
  file_hosts = original_file_hosts hosts;
  editing_index = none;
  editing_host = blank;
  is_adding = false;
  new_host = blank;
  test_results = [];
  testing_keys = [];
}

abbrev pub toasted : Effect → Section → Section
toasted e s = record s { effects = s.effects ++ e ∷ [] }

abbrev pub proper_name : EditingHost → Bool
proper_name h = truthy (trim h.name) && truthy (trim h.host)

abbrev pub trimmed : EditingHost → EditingHost
trimmed h = record { name = trim h.name; host = trim h.host }

unfoldable pub save_edit_at : Option ℕ → Section → Section
unfolding env_hosts set_at
save_edit_at none s = s
save_edit_at (some i) s =
    if not (proper_name s.editing_host)
    then toasted required_toast s
    else if has_env (trim s.editing_host.name) (env_hosts s.config)
    then toasted (env_toast (trim s.editing_host.name)) s
    else if has_other i (trim s.editing_host.name) s.file_hosts
    then toasted (exists_toast (trim s.editing_host.name)) s
    else record s {
      file_hosts = set_at i (trimmed s.editing_host) s.file_hosts;
      editing_index = none;
      editing_host = blank;
      test_results = [];
    }

unfoldable pub handle_add_host : Section → Section
unfolding env_hosts
handle_add_host s =
    if not (proper_name s.new_host)
    then toasted required_toast s
    else if has_env (trim s.new_host.name) (env_hosts s.config)
    then toasted (env_toast (trim s.new_host.name)) s
    else if has_name (trim s.new_host.name) s.file_hosts
    then toasted (exists_toast (trim s.new_host.name)) s
    else record s {
      file_hosts = s.file_hosts ++ trimmed s.new_host ∷ [];
      new_host = blank;
      is_adding = false;
      test_results = [];
    }

abbrev pub edit_at : Option EditingHost → ℕ → Section → Section
edit_at none i s = s
edit_at (some h) i s = record s { editing_index = some i; editing_host = h }

pub data Input : Type 0 where
  config_loaded : List DockerHost → Input
  -- The buttons of a row, which are off while a row is edited.
  remove_pressed edit_pressed : ℕ → Input
  edited : EditingHost → Input
  edit_cancelled edit_done : Input
  add_opened add_closed : Input
  typed : EditingHost → Input
  add_pressed save_pressed : Input
  test_pressed : Text → Text → Input
  test_replied : Text → TestResult → Input

unfoldable pub handle : Input → Section → Section
unfolding reset remove_at save_edit_at handle_add_host
handle (config_loaded hosts) s = reset hosts s
handle (remove_pressed i) s =
    if is_some s.editing_index
    then s
    else record s { file_hosts = remove_at i s.file_hosts; test_results = [] }
handle (edit_pressed i) s =
    if is_some s.editing_index then s else edit_at (get_elem? s.file_hosts i) i s
handle (edited h) s = record s { editing_host = h }
handle edit_cancelled s = record s { editing_index = none; editing_host = blank }
handle edit_done s = save_edit_at s.editing_index s
handle add_opened s = record s { is_adding = true }
handle add_closed s = record s { is_adding = false; new_host = blank }
handle (typed h) s = record s { new_host = h }
handle add_pressed s = handle_add_host s
handle save_pressed s = toasted (hosts_sent s.file_hosts) s
handle (test_pressed key host) s = record s {
  testing_keys = add key s.testing_keys;
  test_results = erase key s.test_results;
  effects = s.effects ++ test_sent key host ∷ [];
}
handle (test_replied key result) s = record s {
  test_results = set key result s.test_results;
  testing_keys = delete key s.testing_keys;
}
