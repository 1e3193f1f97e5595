-- ===== src/Environment.antt =====
-- Environment variables: frontend/src/features/containers/components/environment-variables.tsx, the
-- parser of .env files and the editing session. What the server answers comes in as an input.
pub mod Parse
pub mod Session
mod Tests
use vps_monitor.Common.{
  ℕ, ◌+◌, ◌-◌, Text, codes, truthy, text_eq, trim, starts_with, index_of, Option, none, some, List,
  [], ◌∷◌, ◌++◌, Bool, true, false, not, ◌&&◌, ◌||◌, if◌then◌else◌, length, take, drop, filter, any,
}
use mathlib.Core.List.{reverse}
use vps_monitor.Common.Sets.{has, add, add_all}
use vps_monitor.Common.Dict.{get, set, set_all, erase_all, keys}
use vps_monitor.Logs.Stream.{split}

-- `Record<string, string>`.
abbrev pub Env : Type 0
Env = List (Text × Text)

-- The value starts and ends with the quote; a single quote character does both.
unfoldable pub is_quoted : ℕ → Text → Bool
is_quoted q value = starts_with value (q ∷ []) && starts_with (reverse value) (q ∷ [])

-- `value.slice(1, -1)` if it is quoted.
unfoldable pub unquote : Text → Text
unfolding is_quoted
unquote value =
    if is_quoted 34 value || is_quoted 39 value
    then take (length value - 2) (drop 1 value)
    else value

-- The key, which may be empty, and the value of a trimmed line that holds an assignment.
unfoldable pub parse_trimmed : Text → Option (Text × Text)
unfolding unquote
parse_trimmed trimmed =
    if not (truthy trimmed) || starts_with trimmed (codes "#")
    then none
    else elim (index_of trimmed (codes "=")) [
      | none ↦ none
      | some i ↦ some (trim (take i trimmed), unquote (trim (drop (i + 1) trimmed)))
    ]

unfoldable pub parse_line : Text → Option (Text × Text)
unfolding parse_trimmed
parse_line line = parse_trimmed (trim line)

-- `env[key] = value`, where a string is not accepted as a prototype.
unfoldable pub assign : Text → Text → Env → Env
assign key value env =
    if not (truthy key) || text_eq key (codes "__proto__") then env else set key value env

abbrev pub assign_line : Option (Text × Text) → Env → Env
assign_line none env = env
assign_line (some (key, value)) env = assign key value env

unfoldable pub parse_lines : List Text → Env → Env
parse_lines [] env = env
parse_lines (line ∷ lines) env = parse_lines lines (assign_line (parse_line line) env)

unfoldable pub parse_env_file : Text → Env
parse_env_file content = parse_lines (split false content) []

-- The names that every object inherits, all with values that are truthy.
abbrev pub inherited : List Text
inherited =
    codes "constructor"
    ∷ codes "hasOwnProperty"
    ∷ codes "isPrototypeOf"
    ∷ codes "propertyIsEnumerable"
    ∷ codes "toLocaleString"
    ∷ codes "toString"
    ∷ codes "valueOf"
    ∷ codes "__proto__"
    ∷ codes "__defineGetter__"
    ∷ codes "__defineSetter__"
    ∷ codes "__lookupGetter__"
    ∷ codes "__lookupSetter__"
    ∷ []

-- The truth value of `env[key]`.
unfoldable pub is_set : Text → Env → Bool
is_set key env = elim (get key env) [ none ↦ has key inherited | some value ↦ truthy value ]

-- What the component does outside itself.
pub data Effect : Type 0 where
  updated : Env → Effect
  invalidated : Text → Effect
  id_changed : Text → Effect
  -- The title and the description.
  toasted_success toasted_error : Text → Option Text → Effect
  -- `Imported ${n} variables from .env file`.
  toasted_imported : ℕ → Effect

pub record Editor : Type 0 where
  pub is_editing : Bool
  pub edited_env : Env
  pub deleted_keys : List Text
  pub new_key : Text
  pub new_value : Text
  pub show_add_new : Bool
  pub show_confirm_dialog : Bool
  pub modified_keys : List Text
  pub show_upload_preview : Bool
  pub parsed_env_file : Env
  pub effects : List Effect

-- The handlers, the inputs of the form and the answers of the server.
pub data Input : Type 0 where
  edit cancel save confirm_update add_new confirm_upload cancel_upload : Input
  -- The button that opens the form for a new variable, and the one that closes it.
  open_new close_new : Input
  -- The dialog is closed without an answer.
  dismiss : Input
  delete : Text → Input
  value_change : Text → Text → Input
  key_typed value_typed : Text → Input
  file_upload : Text → Input
  update_success update_error : Text → Input

-- What is sent: the edited variables without the deleted keys.
unfoldable pub final_env : Editor → Env
final_env s = erase_all s.deleted_keys s.edited_env

abbrev emit : List Effect → Editor → Editor
emit es s = record s { effects = s.effects ++ es }

-- The end of an editing session.
abbrev closed : Editor → Editor
closed s = record s { is_editing = false; edited_env = []; deleted_keys = []; modified_keys = [] }

unfoldable pub handle_add_new : Editor → Editor
handle_add_new s =
    if truthy (trim s.new_key) && not (is_set s.new_key s.edited_env)
    then record s {
      edited_env = set s.new_key s.new_value s.edited_env;
      modified_keys = add s.new_key s.modified_keys;
      new_key = [];
      new_value = [];
      show_add_new = false;
    }
    else if is_set s.new_key s.edited_env
    then emit (toasted_error (codes "Key already exists") none ∷ []) s
    else emit (toasted_error (codes "Key cannot be empty") none ∷ []) s

handle_success : Text → Text → Editor → Editor
handle_success container_id id s = closed (
    emit
      (invalidated container_id
        ∷ invalidated id
        ∷ invalidated (codes "containers")
        ∷ id_changed id
        ∷ toasted_success (codes "Environment variables updated successfully")
            (some (codes "The container has been recreated with the new environment variables."))
        ∷ [])
      s)

module _ (container_id : Text) (env_variables : Env) where
  unfoldable pub handle : Input → Editor → Editor
  unfolding handle_add_new handle_success
  handle edit s = record s {
    is_editing = true;
    edited_env = env_variables;
    deleted_keys = [];
    modified_keys = [];
  }
  handle cancel s = record (closed s) { show_add_new = false; new_key = []; new_value = [] }
  handle save s = record s { show_confirm_dialog = true }
  handle confirm_update s = record (emit (updated (final_env s) ∷ []) s) {
    show_confirm_dialog = false;
  }
  handle open_new s = record s { show_add_new = true }
  handle close_new s = record s { show_add_new = false; new_key = []; new_value = [] }
  handle dismiss s = record s { show_confirm_dialog = false }
  handle (delete key) s = record s { deleted_keys = add key s.deleted_keys }
  handle (value_change key value) s = record s { edited_env = set key value s.edited_env }
  handle (key_typed key) s = record s { new_key = key }
  handle (value_typed value) s = record s { new_value = value }
  handle add_new s = handle_add_new s
  handle (file_upload content) s = record s {
    parsed_env_file = parse_env_file content;
    show_upload_preview = true;
  }
  handle confirm_upload s =
      record (emit (toasted_imported (length (keys s.parsed_env_file)) ∷ []) s) {
        edited_env = set_all s.parsed_env_file s.edited_env;
        modified_keys = add_all (keys s.parsed_env_file) s.modified_keys;
        show_upload_preview = false;
        parsed_env_file = [];
      }
  handle cancel_upload s = record s { show_upload_preview = false; parsed_env_file = [] }
  handle (update_success id) s = handle_success container_id id s
  handle (update_error message) s =
      emit (toasted_error (codes "Failed to update environment variables") (some message) ∷ []) s

  abbrev pub handle_inputs : List Input → Editor → Editor
  handle_inputs [] s = s
  handle_inputs (i ∷ is) s = handle_inputs is (handle i s)
