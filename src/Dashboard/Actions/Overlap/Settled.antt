-- ===== src/Dashboard/Actions/Overlap/Settled.antt =====
-- What holds of the dashboard's actions however gestures and answers come:
-- frontend/src/features/containers/components/containers-dashboard.tsx.
use vps_monitor.Common.{
  ℕ, zero, suc, Option, Option-cases, inl, inr, none, some, List, [], ◌∷◌, ◌++◌, Bool, true, false,
  not, ◌&&◌, ◌||◌, length, ltb, get_elem?, is_some, All, All-append, ◌≡◌, refl, arith,
}
use vps_monitor.Containers.{ContainerInfo, ContainerActionType, start, stop, restart, remove}
use vps_monitor.Dashboard.Actions.{
  Answer, ConfirmAction, unwired, chosen, action_sent, action_answered, Gesture, start_container,
  stop_container, restart_container, delete_container, toggle_select, select_all, batch_action,
  confirm, dialog_open_change,
}
use vps_monitor.Dashboard.Actions.Confirmed.{ends}
use vps_monitor.Dashboard.Actions.Overlap.{
  Finish, alone, batch, dialog, Task, Live, Event, gesture, answered, finished, advance,
  remove_task, resume, confirm_all, batch_of, handle_gesture, handle_event,
}

-- An open dialog asks about stopping or removing, and about at least one container.
abbrev pub Asks : Option ConfirmAction → Type 0
Asks none = Unit
Asks (some k) = (ends k.type && ltb 0 (length k.containers)) ≡ true

abbrev pub is_confirmed : Finish → Bool
is_confirmed (dialog b) = true
is_confirmed _ = false

-- Only a task of a confirmation stops or removes.
abbrev pub IsAllowed : Task → Type 0
IsAllowed t = (not (ends t.action) || is_confirmed t.finish) ≡ true

abbrev pub is_out : List Task → Bool
is_out [] = false
is_out (t ∷ ts) = true

pub record IsSettled (p : Live) : Type 0 where
  pub pending : (not (is_some p.state.pending_action) || is_out p.tasks) ≡ true
  pub dialog : Asks p.state.confirm_action
  pub allowed : All IsAllowed p.tasks

is_out-append : (ts : List Task) (t : Task) → is_out (ts ++ t ∷ []) ≡ true
is_out-append [] t = refl
is_out-append (u ∷ ts) t = refl

finished-IsSettled :
    (f : Finish) (p : Live) → IsSettled p → IsSettled (record p { state = finished f p.state })
finished-IsSettled alone p h = h
finished-IsSettled batch p h = record {
  pending = h.pending;
  dialog = h.dialog;
  allowed = h.allowed;
}
finished-IsSettled (dialog true) p h = record {
  pending = h.pending;
  dialog = tt;
  allowed = h.allowed;
}
finished-IsSettled (dialog false) p h = record {
  pending = h.pending;
  dialog = tt;
  allowed = h.allowed;
}

or_true : (b c : Bool) → c ≡ true → (b || c) ≡ true
or_true b c h = ground (arith, h)

advance-IsSettled :
    (action : ContainerActionType) (cs : List ContainerInfo) (f : Finish) (p : Live)
    → (not (ends action) || is_confirmed f) ≡ true
    → IsSettled p
    → IsSettled (advance action cs f p)
unfolding advance action_sent
advance-IsSettled action [] f p a h = finished-IsSettled f p h
advance-IsSettled action (c ∷ cs) f p a h = elim (Option-cases (unwired c.runtime)) [
  | inl e ↦
      rw (advance, e)
        (record {
          pending = or_true false _ (is_out-append p.tasks _);
          dialog = h.dialog;
          allowed = All-append IsAllowed p.tasks _ h.allowed (a, tt);
        })
  | inr (m, e) ↦
      rw (advance, e)
        (advance-IsSettled action cs f _ a
          (record { pending = h.pending; dialog = h.dialog; allowed = h.allowed }))
]

All-remove_task : (i : ℕ) (ts : List Task) → All IsAllowed ts → All IsAllowed (remove_task i ts)
All-remove_task i [] h = tt
All-remove_task zero (t ∷ ts) h = h.1
All-remove_task (suc i) (t ∷ ts) h = (h.0, All-remove_task i ts h.1)

All-get_elem? :
    (ts : List Task) (i : ℕ) (t : Task) → get_elem? ts i ≡ some t → All IsAllowed ts → IsAllowed t
All-get_elem? [] i t e h = ground (arith, e)
All-get_elem? (u ∷ ts) zero t e h = ground (arith, e, h.0)
All-get_elem? (u ∷ ts) (suc i) t e h = All-get_elem? ts i t e h.1

resume-IsSettled :
    (o : Option Task) (i : ℕ) (a : Answer) (p : Live)
    → get_elem? p.tasks i ≡ o
    → IsSettled p
    → IsSettled (resume o i a p)
unfolding action_answered resume
resume-IsSettled none i a p e h = h
resume-IsSettled (some t) i a p e h =
    advance-IsSettled t.action t.rest t.finish
      (record { state = action_answered a p.state; tasks = remove_task i p.tasks })
      (All-get_elem? p.tasks i t e h.allowed)
      (record { pending = refl; dialog = h.dialog; allowed = All-remove_task i p.tasks h.allowed })

confirm_all-IsSettled :
    (o : Option ConfirmAction) (p : Live) → IsSettled p → IsSettled (confirm_all o p)
unfolding confirm_all
confirm_all-IsSettled none p h = h
confirm_all-IsSettled (some k) p h =
    advance-IsSettled k.type k.containers (dialog k.clear_selection_on_confirm) p
      (or_true (not (ends k.type)) true refl) h

-- The guard lets no other action through, and stops the ones that end a container.
batch_of-IsSettled :
    (action : ContainerActionType) (cs : List ContainerInfo) (p : Live)
    → IsSettled p
    → IsSettled (batch_of action cs p)
unfolding batch_of advance
batch_of-IsSettled start cs p h = advance-IsSettled start cs batch p refl h
batch_of-IsSettled restart cs p h = advance-IsSettled restart cs batch p refl h
batch_of-IsSettled stop [] p h = record {
  pending = h.pending;
  dialog = h.dialog;
  allowed = h.allowed;
}
batch_of-IsSettled stop (c ∷ cs) p h =
    let e : ltb 0 (length (c ∷ cs)) ≡ true = ground arith in
    rw (batch_of, e) (record { pending = h.pending; dialog = ground arith; allowed = h.allowed })
batch_of-IsSettled remove [] p h = record {
  pending = h.pending;
  dialog = h.dialog;
  allowed = h.allowed;
}
batch_of-IsSettled remove (c ∷ cs) p h =
    let e : ltb 0 (length (c ∷ cs)) ≡ true = ground arith in
    rw (batch_of, e) (record { pending = h.pending; dialog = ground arith; allowed = h.allowed })

module _ (containers page : List ContainerInfo) where
  handle_gesture-IsSettled :
      (g : Gesture) (p : Live) → IsSettled p → IsSettled (handle_gesture containers page g p)
  unfolding handle_gesture
  handle_gesture-IsSettled (start_container c) p h = advance-IsSettled start (c ∷ []) alone p refl h
  handle_gesture-IsSettled (restart_container c) p h =
      advance-IsSettled restart (c ∷ []) alone p refl h
  handle_gesture-IsSettled (stop_container c) p h = record {
    pending = h.pending;
    dialog = ground arith;
    allowed = h.allowed;
  }
  handle_gesture-IsSettled (delete_container c) p h = record {
    pending = h.pending;
    dialog = ground arith;
    allowed = h.allowed;
  }
  handle_gesture-IsSettled (toggle_select id) p h = record {
    pending = h.pending;
    dialog = h.dialog;
    allowed = h.allowed;
  }
  handle_gesture-IsSettled select_all p h = record {
    pending = h.pending;
    dialog = h.dialog;
    allowed = h.allowed;
  }
  handle_gesture-IsSettled (batch_action action) p h =
      batch_of-IsSettled action (chosen containers p.state) p h
  handle_gesture-IsSettled confirm p h = confirm_all-IsSettled p.state.confirm_action p h
  handle_gesture-IsSettled (dialog_open_change true) p h = h
  handle_gesture-IsSettled (dialog_open_change false) p h = record {
    pending = h.pending;
    dialog = tt;
    allowed = h.allowed;
  }

  handle_event-IsSettled :
      (e : Event) (p : Live) → IsSettled p → IsSettled (handle_event containers page e p)
  unfolding handle_event
  handle_event-IsSettled (gesture g) p h = handle_gesture-IsSettled g p h
  handle_event-IsSettled (answered i a) p h = resume-IsSettled (get_elem? p.tasks i) i a p refl h

  abbrev pub handle_events : List Event → Live → Live
  handle_events [] p = p
  handle_events (e ∷ es) p = handle_events es (handle_event containers page e p)

  -- From such a state, whatever gestures are made while requests are out, and in whatever order the answers
  -- come: where no request is out no action is pending; an open dialog asks about stopping or
  -- removing, and about at least one container; and of the handlers that wait for an answer only those
  -- of a confirmation stop or remove.
  pub handle_events-IsSettled :
      (es : List Event) (p : Live) → IsSettled p → IsSettled (handle_events es p)
  handle_events-IsSettled [] p h = h
  handle_events-IsSettled (e ∷ es) p h =
      handle_events-IsSettled es (handle_event containers page e p) (handle_event-IsSettled e p h)
