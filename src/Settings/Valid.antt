-- ===== src/Settings/Valid.antt =====
-- Sessions with the settings' list of docker hosts keep it valid.
use vps_monitor.Common.{
  ℕ, trim, Option, none, some, List, [], ◌∷◌, ◌++◌, false, not, length, get_elem?, is_some, All,
  All-append, ◌≡◌, refl, arith, if_holds, length-append,
}
use vps_monitor.Settings.{
  DockerHost, EditingHost, Section, env_hosts, has_name, has_env, has_other, remove_at, reset,
  toasted, proper_name, trimmed, save_edit_at, handle_add_host, edit_at, Input, config_loaded,
  remove_pressed, edit_pressed, edited, edit_cancelled, edit_done, add_opened, add_closed, typed,
  add_pressed, save_pressed, test_pressed, test_replied, handle, Effect,
}
use vps_monitor.Settings.Names.{
  IsProper, InRange, IsValid, IsGood, remove_at-AreDistinct, set_at-AreDistinct, append-AreDistinct,
  get_elem?-InRange, All-remove_at, All-set_at,
}

-- A valid state stays so if the list, the configuration and the edited row stay as they are.
same_lists :
    (s t : Section)
    → IsValid s
    → s.file_hosts ≡ t.file_hosts
    → s.config ≡ t.config
    → s.editing_index ≡ t.editing_index
    → IsValid t
same_lists s t h f c e = record {
  distinct = rw (← f) h.distinct;
  proper = rw (← f, ← c) h.proper;
  editing = rw (← f, ← e) h.editing;
}

toasted-IsValid : (e : Effect) (s : Section) → IsValid s → IsValid (toasted e s)
toasted-IsValid e s h = same_lists s _ h refl refl refl

-- A host that passes the tests of the form.
trimmed-IsProper :
    (envs : List DockerHost) (h : EditingHost)
    → not (proper_name h) ≡ false
    → has_env (trim h.name) envs ≡ false
    → IsProper envs (trimmed h)
trimmed-IsProper envs h p e = ground (arith, p, e)

save_edit_at-IsValid : (o : Option ℕ) (s : Section) → IsValid s → IsValid (save_edit_at o s)
unfolding save_edit_at
save_edit_at-IsValid none s h = h
save_edit_at-IsValid (some i) s h =
    let name = trim s.editing_host.name in
    let envs = env_hosts s.config in
    if_holds IsValid (not (proper_name s.editing_host)) (λ _. toasted-IsValid _ s h)
      (λ p.
        if_holds IsValid (has_env name envs) (λ _. toasted-IsValid _ s h)
          (λ e.
            if_holds IsValid (has_other i name s.file_hosts) (λ _. toasted-IsValid _ s h)
              (λ o. record {
                distinct = set_at-AreDistinct i (trimmed s.editing_host) s.file_hosts o h.distinct;
                proper =
                    All-set_at (IsProper envs) i (trimmed s.editing_host) s.file_hosts
                      (trimmed-IsProper envs s.editing_host p e) h.proper;
                editing = tt;
              })))

InRange-add :
    (o : Option ℕ) (hs : List EditingHost) (g : EditingHost)
    → InRange o (length hs)
    → InRange o (length (hs ++ g ∷ []))
InRange-add none hs g h = tt
InRange-add (some i) hs g h = omega (arith, length-append hs (g ∷ []))

handle_add_host-IsValid : (s : Section) → IsValid s → IsValid (handle_add_host s)
unfolding handle_add_host
handle_add_host-IsValid s h =
    let name = trim s.new_host.name in
    let envs = env_hosts s.config in
    if_holds IsValid (not (proper_name s.new_host)) (λ _. toasted-IsValid _ s h)
      (λ p.
        if_holds IsValid (has_env name envs) (λ _. toasted-IsValid _ s h)
          (λ e.
            if_holds IsValid (has_name name s.file_hosts) (λ _. toasted-IsValid _ s h)
              (λ o. record {
                distinct = append-AreDistinct s.file_hosts (trimmed s.new_host) o h.distinct;
                proper =
                    All-append (IsProper envs) s.file_hosts (trimmed s.new_host ∷ []) h.proper
                      (trimmed-IsProper envs s.new_host p e, tt);
                editing = InRange-add s.editing_index s.file_hosts (trimmed s.new_host) h.editing;
              })))

edit_at-IsValid :
    (o : Option EditingHost) (i : ℕ) (s : Section)
    → get_elem? s.file_hosts i ≡ o
    → IsValid s
    → IsValid (edit_at o i s)
edit_at-IsValid none i s e h = h
edit_at-IsValid (some g) i s e h = record {
  distinct = h.distinct;
  proper = h.proper;
  editing = get_elem?-InRange s.file_hosts i g e;
}

not_editing : (o : Option ℕ) (n : ℕ) → is_some o ≡ false → InRange o n
not_editing none n h = tt
not_editing (some i) n h = ground (arith, h)

handle-IsValid : (i : Input) (s : Section) → IsGood i → IsValid s → IsValid (handle i s)
unfolding handle
handle-IsValid (config_loaded hosts) s g h =
    unfold reset in record { distinct = g.0; proper = g.1; editing = tt }
handle-IsValid (remove_pressed i) s g h =
    if_holds IsValid (is_some s.editing_index) (λ _. h)
      (λ n. record {
        distinct = remove_at-AreDistinct i s.file_hosts h.distinct;
        proper = All-remove_at (IsProper (env_hosts s.config)) i s.file_hosts h.proper;
        editing = not_editing s.editing_index (length (remove_at i s.file_hosts)) n;
      })
handle-IsValid (edit_pressed i) s g h =
    if_holds IsValid (is_some s.editing_index) (λ _. h)
      (λ _. edit_at-IsValid (get_elem? s.file_hosts i) i s refl h)
handle-IsValid (edited x) s g h = same_lists s _ h refl refl refl
handle-IsValid edit_cancelled s g h = record {
  distinct = h.distinct;
  proper = h.proper;
  editing = tt;
}
handle-IsValid edit_done s g h = save_edit_at-IsValid s.editing_index s h
handle-IsValid add_opened s g h = same_lists s _ h refl refl refl
handle-IsValid add_closed s g h = same_lists s _ h refl refl refl
handle-IsValid (typed x) s g h = same_lists s _ h refl refl refl
handle-IsValid add_pressed s g h = handle_add_host-IsValid s h
handle-IsValid save_pressed s g h = toasted-IsValid _ s h
handle-IsValid (test_pressed key host) s g h = same_lists s _ h refl refl refl
handle-IsValid (test_replied key result) s g h = same_lists s _ h refl refl refl

abbrev pub handle_all : List Input → Section → Section
handle_all [] s = s
handle_all (i ∷ is) s = handle_all is (handle i s)

-- Whatever is done in the section, in whatever order, the list stays one that can be saved: the names are
-- distinct and none of them is the environment's, no name and no address is empty, and the row that is
-- edited is a row of the list, so that an edit replaces a host and leaves no hole. This takes that
-- each configuration that the server sends is of this kind.
pub handle_all-IsValid :
    (is : List Input) (s : Section) → All IsGood is → IsValid s → IsValid (handle_all is s)
handle_all-IsValid [] s g h = h
handle_all-IsValid (i ∷ is) s g h =
    handle_all-IsValid is (handle i s) g.1 (handle-IsValid i s g.0 h)
