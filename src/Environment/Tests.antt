-- ===== src/Environment/Tests.antt =====
-- The parser of .env files and an editing session on a few variables.
use vps_monitor.Environment.Session.{final_env-deleted, deletes, last_value, final_env-inputs}
use vps_monitor.Environment.{
  is_quoted, unquote, Env, Editor, Input, edit, confirm_upload, delete, value_change, add_new,
  file_upload, key_typed, parse_env_file, final_env, handle, handle_inputs,
}
use vps_monitor.Common.{
  trim, codes, text_eq, starts_with, none, List, [], ◌∷◌, false, if◌then◌else◌, any, ◌≡◌, refl,
}
use vps_monitor.Common.Sets.{has}
use vps_monitor.Common.Dict.{get, keys, IsDict}
use vps_monitor.Environment.Parse.{print_env, IsPlain, parse_env_file-print_env}

abbrev two_variables : Env
two_variables = (codes "PORT", codes "80") ∷ (codes "HOST", codes "a b") ∷ []

two_variables-IsDict : IsDict two_variables
unfolding has keys text_eq
two_variables-IsDict = (refl, (refl, tt))

port-IsPlain : IsPlain (codes "PORT", codes "80")
unfolding trim unquote is_quoted starts_with text_eq
port-IsPlain = record {
  named = refl;
  no_comment = refl;
  no_prototype = refl;
  no_sign = refl;
  no_newline = refl;
  line_trimmed = refl;
  key_trimmed = refl;
  value_trimmed = refl;
  unquoted = refl;
}

host-IsPlain : IsPlain (codes "HOST", codes "a b")
unfolding trim unquote is_quoted starts_with text_eq
host-IsPlain = record {
  named = refl;
  no_comment = refl;
  no_prototype = refl;
  no_sign = refl;
  no_newline = refl;
  line_trimmed = refl;
  key_trimmed = refl;
  value_trimmed = refl;
  unquoted = refl;
}

parse_env_file-print_env_example :
    get (codes "HOST") (parse_env_file (print_env two_variables)) ≡ get (codes "HOST") two_variables
parse_env_file-print_env_example =
    parse_env_file-print_env two_variables (codes "HOST") two_variables-IsDict
      (port-IsPlain, (host-IsPlain, tt))

abbrev closed_editor : Editor
closed_editor = record {
  is_editing = false;
  edited_env = [];
  deleted_keys = [];
  new_key = [];
  new_value = [];
  show_add_new = false;
  show_confirm_dialog = false;
  modified_keys = [];
  show_upload_preview = false;
  parsed_env_file = [];
  effects = [];
}

abbrev changes : List Input
changes = value_change (codes "PORT") (codes "81") ∷ delete (codes "HOST") ∷ []

final_env-inputs_example :
    get (codes "PORT") (
      final_env (
        handle_inputs
          (codes "c1")
          two_variables
          changes
          (handle (codes "c1") two_variables edit closed_editor)))
    ≡ (if any (deletes (codes "PORT")) changes
        then none
        else last_value (codes "PORT") changes (get (codes "PORT") two_variables))
final_env-inputs_example =
    final_env-inputs (codes "c1") two_variables (codes "PORT") changes closed_editor refl

abbrev added_again : List Input
added_again = key_typed (codes "PORT") ∷ add_new ∷ value_change (codes "PORT") (codes "82") ∷ []

final_env-deleted_example :
    get (codes "PORT") (
      final_env (
        handle_inputs
          (codes "c1")
          two_variables
          added_again
          (handle (codes "c1") two_variables (delete (codes "PORT")) closed_editor)))
    ≡ none
final_env-deleted_example =
    final_env-deleted (codes "c1") two_variables (codes "PORT") added_again closed_editor refl

abbrev uploaded : Editor
uploaded =
    handle (codes "c1") two_variables confirm_upload
      (handle (codes "c1") two_variables (file_upload (codes "PORT=9")) closed_editor)
