-- ===== src/Environment/Session.antt =====
-- What an editing session sends: the values last given, without the names deleted.
use vps_monitor.Common.{
  subst, text_eq_refl, ℕ, Text, truthy, text_eq, trim, Option, none, some, List, [], ◌∷◌, Bool,
  true, false, not, ◌&&◌, ◌||◌, if◌then◌else◌, any, all, ◌≡◌, refl, sym, ap, ◌∙◌, arith,
  text_eq_iff,
}
use vps_monitor.Environment.{
  handle_add_new, Env, Editor, Input, edit, cancel, add_new, confirm_upload, cancel_upload, delete,
  value_change, file_upload, update_success, final_env, handle, handle_inputs, parse_env_file,
  is_set,
}
use vps_monitor.Common.Sets.{has-add_all, has, has-add}
use vps_monitor.Common.Dict.{
  get, set, set_all, keys, IsDict, set-IsDict, get-set, get-set_all, get-erase_all,
}
use vps_monitor.Environment.Parse.{parse_env_file-IsDict}

-- The input is none that starts or ends a session.
abbrev pub within_session : Input → Bool
within_session edit = false
within_session cancel = false
within_session (update_success id) = false
within_session _ = true

-- The input changes the variables at most by a deletion or by a new value.
abbrev pub changes_values : Input → Bool
changes_values add_new = false
changes_values confirm_upload = false
changes_values i = within_session i

-- Whether the name is deleted, and the value it is given last.
abbrev pub deletes : Text → Input → Bool
deletes k (delete j) = text_eq k j
deletes k _ = false

abbrev pub last_value : Text → List Input → Option Text → Option Text
last_value k [] v = v
last_value k (value_change j w ∷ is) v = last_value k is (if text_eq j k then some w else v)
last_value k (_ ∷ is) v = last_value k is v

pub get-final_env :
    (k : Text) (s : Editor)
    → get k (final_env s) ≡ (if has k s.deleted_keys then none else get k s.edited_env)
unfolding final_env
get-final_env k s = get-erase_all s.deleted_keys k s.edited_env

set_all-IsDict : (e m : Env) → IsDict m → IsDict (set_all e m)
unfolding set_all
set_all-IsDict [] m d = d
set_all-IsDict ((k, v) ∷ e) m d = set_all-IsDict e (set k v m) (set-IsDict k v m d)

-- What adding a variable does to the variables.
abbrev added : Editor → Env
added s =
    if truthy (trim s.new_key) && not (is_set s.new_key s.edited_env)
    then set s.new_key s.new_value s.edited_env
    else s.edited_env

handle_add_new_lem :
    (s : Editor)
    → ((handle_add_new s).edited_env ≡ added s)
      × ((handle_add_new s).parsed_env_file ≡ s.parsed_env_file)
unfolding handle_add_new
handle_add_new_lem s = ground arith

add_new-IsDict : (s : Editor) → IsDict s.edited_env → IsDict (handle_add_new s).edited_env
add_new-IsDict s d =
    subst IsDict (sym (handle_add_new_lem s).0)
      (ground (arith, set-IsDict s.new_key s.new_value s.edited_env d))

module _ (container_id : Text) (env_variables : Env) where
  edited-step :
      (k : Text) (i : Input) (is : List Input) (s : Editor)
      → changes_values i ≡ true
      → last_value k (i ∷ is) (get k s.edited_env)
        ≡ last_value k is (get k (handle container_id env_variables i s).edited_env)
  unfolding handle
  edited-step k (value_change j w) is s h = ap (last_value k is) (sym (get-set j k w s.edited_env))
  edited-step k i is s h = ground arith

  deleted-step :
      (k : Text) (i : Input) (s : Editor)
      → within_session i ≡ true
      → has k (handle container_id env_variables i s).deleted_keys
        ≡ (deletes k i || has k s.deleted_keys)
  unfolding handle
  deleted-step k (delete j) s h = has-add k j s.deleted_keys
  deleted-step k i s h = ground arith

  edited-inputs :
      (k : Text) (is : List Input) (s : Editor)
      → all changes_values is ≡ true
      → get k (handle_inputs container_id env_variables is s).edited_env
        ≡ last_value k is (get k s.edited_env)
  edited-inputs k [] s h = refl
  edited-inputs k (i ∷ is) s h =
      let now : changes_values i ≡ true = ground (arith, h) in
      let later : all changes_values is ≡ true = ground (arith, h) in
      edited-inputs k is (handle container_id env_variables i s) later
      ∙ sym (edited-step k i is s now)

  deleted-inputs :
      (k : Text) (is : List Input) (s : Editor)
      → all within_session is ≡ true
      → has k (handle_inputs container_id env_variables is s).deleted_keys
        ≡ (any (deletes k) is || has k s.deleted_keys)
  deleted-inputs k [] s h = refl
  deleted-inputs k (i ∷ is) s h =
      let now : within_session i ≡ true = ground (arith, h) in
      let later : all within_session is ≡ true = ground (arith, h) in
      ground (
        arith,
        deleted-inputs k is (handle container_id env_variables i s) later,
        deleted-step k i s now,
      )

  changes→within : (i : Input) → changes_values i ≡ true → within_session i ≡ true
  changes→within add_new h = refl
  changes→within confirm_upload h = refl
  changes→within i h = h

  all_within : (is : List Input) → all changes_values is ≡ true → all within_session is ≡ true
  all_within [] h = refl
  all_within (i ∷ is) h = ground (arith, all_within is, changes→within i)

  -- After a session was started and the variables were edited by deletions and new values, in any
  -- order and among other inputs of the session, but no addition and no import, what is sent has no
  -- name that was deleted, and every other name with the value it was given last, or else the
  -- server's.
  pub final_env-inputs :
      (k : Text) (is : List Input) (s : Editor)
      → all changes_values is ≡ true
      → get k (
          final_env (
            handle_inputs container_id env_variables is (handle container_id env_variables edit s)))
        ≡ (if any (deletes k) is then none else last_value k is (get k env_variables))
  final_env-inputs k is s h =
      let started = handle container_id env_variables edit s in
      let none_deleted : has k started.deleted_keys ≡ false = unfold handle has in refl in
      let values : get k started.edited_env ≡ get k env_variables = unfold handle in refl in
      ground (
        arith,
        get-final_env k (handle_inputs container_id env_variables is started),
        deleted-inputs k is started (all_within is h),
        edited-inputs k is started h,
        none_deleted,
        values,
      )

  -- A name that is deleted is not sent, whatever inputs follow within the session: adding it again or
  -- importing it from a file does not bring it back.
  pub final_env-deleted :
      (k : Text) (is : List Input) (s : Editor)
      → all within_session is ≡ true
      → get k (
          final_env (
            handle_inputs container_id env_variables is
              (handle container_id env_variables (delete k) s)))
        ≡ none
  final_env-deleted k is s h =
      let t = handle container_id env_variables (delete k) s in
      let deleted : has k t.deleted_keys ≡ true =
        ground (arith, deleted-step k (delete k) s refl, text_eq_refl k) in
      ground (
        arith,
        get-final_env k (handle_inputs container_id env_variables is t),
        deleted-inputs k is t h,
        deleted,
      )

  -- An uploaded file that is confirmed gives its names its values, keeps the other variables, and marks
  -- exactly its names as modified in addition to the ones before.
  pub confirm_upload-file_upload :
      (content k : Text) (s : Editor)
      → let imported = parse_env_file content in
        let after =
          handle container_id env_variables confirm_upload
            (handle container_id env_variables (file_upload content) s) in
        (get k after.edited_env
          ≡ (if has k (keys imported) then get k imported else get k s.edited_env))
        × (has k after.modified_keys ≡ (has k (keys imported) || has k s.modified_keys))
  unfolding handle
  confirm_upload-file_upload content k s = (
    get-set_all (parse_env_file content) k s.edited_env (parse_env_file-IsDict content),
    has-add_all k (keys (parse_env_file content)) s.modified_keys,
  )

  -- Adding a variable changes no value that is there and is not empty.
  pub get-add_new :
      (k : Text) (c : ℕ) (v : Text) (s : Editor)
      → get k s.edited_env ≡ some (c ∷ v)
      → get k (handle container_id env_variables add_new s).edited_env ≡ some (c ∷ v)
  unfolding handle is_set
  get-add_new k c v s h =
      ap (get k) (handle_add_new_lem s).0
      ∙ ground (arith, get-set s.new_key k s.new_value s.edited_env, text_eq_iff s.new_key k)

  -- The edited variables and the imported ones have distinct names.
  abbrev pub IsTidy : Editor → Type 0
  IsTidy s = IsDict s.edited_env × IsDict s.parsed_env_file

  handle-IsTidy :
      (i : Input) (s : Editor)
      → IsDict env_variables
      → IsTidy s
      → IsTidy (handle container_id env_variables i s)
  unfolding handle
  handle-IsTidy edit s d t = (d, t.1)
  handle-IsTidy cancel s d t = (tt, t.1)
  handle-IsTidy (update_success id) s d t = (tt, t.1)
  handle-IsTidy (value_change k v) s d t = (set-IsDict k v s.edited_env t.0, t.1)
  handle-IsTidy (file_upload c) s d t = (t.0, parse_env_file-IsDict c)
  handle-IsTidy confirm_upload s d t = (set_all-IsDict s.parsed_env_file s.edited_env t.0, tt)
  handle-IsTidy cancel_upload s d t = (t.0, tt)
  handle-IsTidy add_new s d t =
      (add_new-IsDict s t.0, subst IsDict (sym (handle_add_new_lem s).1) t.1)
  handle-IsTidy i s d t = t

  -- Whatever the inputs, the edited variables keep distinct names, and so do the imported ones.
  pub handle_inputs-IsTidy :
      (is : List Input) (s : Editor)
      → IsDict env_variables
      → IsTidy s
      → IsTidy (handle_inputs container_id env_variables is s)
  handle_inputs-IsTidy [] s d t = t
  handle_inputs-IsTidy (i ∷ is) s d t =
      handle_inputs-IsTidy is (handle container_id env_variables i s) d (handle-IsTidy i s d t)
