-- ===== src/Databases.antt =====
-- The database browser of frontend/src/features/databases/components/databases-page.tsx, with
-- DatabaseInstance and DatabaseTable of features/databases/types.ts. Lower case is the runtime's, a
-- parameter. What the queries have loaded is a parameter too, a `Cache`.
pub mod Settled
mod Tests
use mathlib.Core.Option
use vps_monitor.Common.{
  ℕ, Text, codes, truthy, text_eq, includes, Option, none, some, List, [], ◌∷◌, ◌++◌, Bool, true,
  false, not, ◌&&◌, ◌||◌, if◌then◌else◌, ◌==◌, get_elem?, length, filter, find, or_else, is_some,
}
use vps_monitor.Common.Sets.{has}
use vps_monitor.Containers.{ContainerInfo}

pub data DatabaseEngine : Type 0 where
  postgres mysql : DatabaseEngine

pub record DatabaseInstance : Type 0 where
  pub id : Text
  pub host : Text
  pub name : Text
  pub image : Text
  pub state : Text
  pub status : Text
  pub engine : DatabaseEngine
  pub container : ContainerInfo

pub record DatabaseTable : Type 0 where
  pub schema : Option Text
  pub name : Text
  pub type : Option Text

-- The text up to the first such unit, and the rest after it if there is one.
unfoldable pub split_at : ℕ → Text → Text × Option Text
split_at c [] = ([], none)
split_at c (d ∷ s) =
    let (before, after) = split_at c s in if d == c then ([], some s) else (d ∷ before, after)

abbrev second_part : Option Text → Text
unfolding split_at
second_part none = []
second_part (some rest) = (split_at 58 rest).0

-- The part after the first colon, up to its first dash.
unfoldable pub version_from_image : Text → Text
unfolding second_part
version_from_image image = (split_at 45 (second_part (split_at 58 image).1)).0

pub data Tone : Type 0 where
  ok warn bad : Tone

module _ (to_lower : Text → Text) where
  unfoldable pub state_tone : Text → Tone
  state_tone state =
      let s = to_lower state in
      if text_eq s (codes "running")
      then ok
      else if text_eq s (codes "exited") || text_eq s (codes "stopped") || text_eq s (codes "dead")
      then bad
      else warn

  abbrev tone_label : Tone → Text
  tone_label ok = codes "ok"
  tone_label bad = codes "down"
  tone_label warn = codes "warn"

  -- The label of a pill, and the tone of its colour.
  unfoldable pub state_pill : Text → Text → Text × Tone
  unfolding state_tone
  state_pill state status =
      if includes (to_lower status) (codes "unhealthy")
      then (codes "warn", warn)
      else (tone_label (state_tone state), state_tone state)

unfoldable pub instance_key : DatabaseInstance → Text
instance_key i = i.host ++ 58 ∷ i.id

unfoldable pub table_key : DatabaseTable → Text
table_key t = or_else t.schema [] ++ 46 ∷ t.name

-- What the queries have loaded: nothing is an empty list.
pub record Cache : Type 0 where
  pub instances : List DatabaseInstance
  pub databases : DatabaseInstance → List Text
  pub tables : DatabaseInstance → Text → List DatabaseTable

pub record Selection : Type 0 where
  pub selected_instance_key : Text
  pub selected_database : Text
  pub selected_table_key : Text

-- `xs.find((x) => key(x) === k) ?? xs[0]`.
abbrev pub chosen {ℓ} : {A : Type ℓ} → (A → Text) → List A → Text → Option A
chosen key xs k = elim (find (λ x. text_eq (key x) k) xs) [
  | some x ↦ some x
  | none ↦ get_elem? xs 0
]

-- The effect on a selected thing, by its key, and the key: the value that the key is set to.
abbrev pub key_set : Option Text → Text → Option Text
key_set none [] = none
key_set none (c ∷ k) = some []
key_set (some wanted) [] = some wanted
key_set (some wanted) (c ∷ k) = none

module _ (cache : Cache) where
  unfoldable pub selected_instance : Selection → Option DatabaseInstance
  unfolding instance_key
  selected_instance s = chosen instance_key cache.instances s.selected_instance_key

  abbrev pub databases_at : Option DatabaseInstance → List Text
  databases_at none = []
  databases_at (some target) = cache.databases target

  abbrev pub tables_at : Option DatabaseInstance → Text → List DatabaseTable
  tables_at none database = []
  tables_at (some target) [] = []
  tables_at (some target) (c ∷ database) = cache.tables target (c ∷ database)

  unfoldable pub databases : Selection → List Text
  unfolding selected_instance
  databases s = databases_at (selected_instance s)

  -- The tables are asked for where there is an instance and a database.
  unfoldable pub tables : Selection → List DatabaseTable
  unfolding selected_instance
  tables s = tables_at (selected_instance s) s.selected_database

  unfoldable pub selected_table : Selection → Option DatabaseTable
  unfolding tables table_key
  selected_table s = chosen table_key (tables s) s.selected_table_key

  unfoldable pub instance_effect : Selection → Selection → Selection
  unfolding selected_instance instance_key
  instance_effect seen s = record s {
    selected_instance_key =
        or_else
          (key_set (Option.map instance_key (selected_instance seen)) seen.selected_instance_key)
          s.selected_instance_key;
  }

  unfoldable pub database_effect : Selection → Selection → Selection
  unfolding databases
  database_effect seen s = if has seen.selected_database (databases seen) then s else record s {
    selected_database = or_else (get_elem? (databases seen) 0) [];
    selected_table_key = [];
  }

  unfoldable pub table_effect : Selection → Selection → Selection
  unfolding selected_table table_key
  table_effect seen s = record s {
    selected_table_key =
        or_else (key_set (Option.map table_key (selected_table seen)) seen.selected_table_key)
          s.selected_table_key;
  }

  -- The three effects after a render: each reads what was rendered, and sets the state after the one
  -- before it.
  unfoldable pub render : Selection → Selection
  unfolding instance_effect database_effect table_effect
  render s = table_effect s (database_effect s (instance_effect s s))

pub data Input : Type 0 where
  instance_picked : DatabaseInstance → Input
  database_picked : Text → Input
  table_picked : DatabaseTable → Input

unfoldable pub handle : Input → Selection → Selection
unfolding instance_key table_key
handle (instance_picked i) s = record {
  selected_instance_key = instance_key i;
  selected_database = [];
  selected_table_key = [];
}
handle (database_picked db) s = record s { selected_database = db; selected_table_key = [] }
handle (table_picked t) s = record s { selected_table_key = table_key t }

-- The counts on the page.
abbrev pub same_engine : DatabaseEngine → DatabaseEngine → Bool
same_engine postgres postgres = true
same_engine postgres mysql = false
same_engine mysql postgres = false
same_engine mysql mysql = true

unfoldable pub pg_count : List DatabaseInstance → ℕ
pg_count instances = length (filter (λ i. same_engine i.engine postgres) instances)

unfoldable pub mysql_count : List DatabaseInstance → ℕ
mysql_count instances = length (filter (λ i. same_engine i.engine mysql) instances)

unfoldable pub running_count : List DatabaseInstance → ℕ
running_count instances = length (filter (λ i. text_eq i.state (codes "running")) instances)
