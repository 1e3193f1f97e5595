-- ===== src/Dashboard/Actions/Confirmed.antt =====
-- Which calls reach the server: the actions of
-- frontend/src/features/containers/components/containers-dashboard.tsx.
use vps_monitor.Dashboard.Actions.{
  chosen, info, Toast, Effect, called, refetched, toasted, Answer, result, failed, thrown,
  ConfirmAction, ActionState, Gesture, start_container, restart_container, batch_action, confirm,
  dialog_open_change, execute_action, action_sent, action_answered, execute_all, handle,
  after_answer, handle_batch_action,
}
use vps_monitor.Common.{
  filter-append, codes, Text, Option, none, some, List, [], ◌∷◌, ◌++◌, Bool, true, false,
  if◌then◌else◌, filter, ◌≡◌, ◌≢◌, refl, sym, ap, ◌∙◌, arith, append-nil, append_assoc,
}
use vps_monitor.Containers.{
  ContainerInfo, ContainerActionType, start, stop, restart, remove, Runtime, docker, pm2, process,
}

pub record Call : Type 0 where
  pub action : ContainerActionType
  pub id : Text
  pub host : Text

-- The calls among the effects, in their order.
abbrev pub calls : List Effect → List Call
calls [] = []
calls (called a i h ∷ es) = record { action = a; id = i; host = h } ∷ calls es
calls (refetched ∷ es) = calls es
calls (toasted t ∷ es) = calls es

calls-append : (xs ys : List Effect) → calls (xs ++ ys) ≡ calls xs ++ calls ys
calls-append [] ys = refl
calls-append (called a i h ∷ xs) ys =
    ap (◌∷◌ (record { action = a; id = i; host = h })) (calls-append xs ys)
calls-append (refetched ∷ xs) ys = calls-append xs ys
calls-append (toasted t ∷ xs) ys = calls-append xs ys

-- The container runs under docker.
abbrev pub is_docker : Option Runtime → Bool
is_docker none = true
is_docker (some docker) = true
is_docker (some pm2) = false
is_docker (some process) = false

-- The calls for a list of containers: one for each that runs under docker.
abbrev pub calls_for : ContainerActionType → List ContainerInfo → List Call
calls_for action [] = []
calls_for action (c ∷ cs) =
    if is_docker c.runtime
    then record { action = action; id = c.id; host = c.host } ∷ calls_for action cs
    else calls_for action cs

calls-after_answer : (a : Answer) → calls (after_answer a) ≡ []
unfolding after_answer
calls-after_answer (result [] p) = refl
calls-after_answer (result (c ∷ m) true) = refl
calls-after_answer (result (c ∷ m) false) = refl
calls-after_answer (failed m) = refl
calls-after_answer thrown = refl

calls_for-cons :
    (action : ContainerActionType) (c : ContainerInfo) (cs : List ContainerInfo)
    → calls_for action (c ∷ cs) ≡ calls_for action (c ∷ []) ++ calls_for action cs
calls_for-cons action c cs = ground arith

-- The actions after which a container does not run.
abbrev pub ends : ContainerActionType → Bool
ends start = false
ends restart = false
ends stop = true
ends remove = true

-- The call stops or removes a container.
abbrev pub is_destructive : Call → Bool
is_destructive call = ends call.action

gentle_calls :
    (action : ContainerActionType) (cs : List ContainerInfo)
    → ends action ≡ false
    → filter is_destructive (calls_for action cs) ≡ []
gentle_calls action [] h = refl
gentle_calls action (c ∷ cs) h = ground (arith, gentle_calls action cs h)

-- A toast alone is no call.
quiet_append : (s : ActionState) (t : Toast) → calls (s.effects ++ toasted t ∷ []) ≡ calls s.effects
quiet_append s t = calls-append s.effects (toasted t ∷ []) ∙ append-nil (calls s.effects)

module _ (server : ContainerActionType → Text → Text → Answer) where
  calls-execute_action :
      (action : ContainerActionType) (c : ContainerInfo) (s : ActionState)
      → calls (execute_action server action c s).effects
        ≡ calls s.effects ++ calls_for action (c ∷ [])
  unfolding execute_action action_sent action_answered
  calls-execute_action action c s = ground (
    arith,
    calls-append (s.effects ++ called action c.id c.host ∷ [])
        (after_answer (server action c.id c.host)),
    calls-append s.effects (called action c.id c.host ∷ []),
    append-nil (calls s.effects ++ calls_for action (c ∷ [])),
    calls-after_answer (server action c.id c.host),
    append-nil (calls s.effects),
    quiet_append s (info (codes "PM2 actions are not wired yet.")),
    quiet_append s (info (codes "PROCESS actions are not wired yet.")),
  )

  calls-execute_all :
      (action : ContainerActionType) (cs : List ContainerInfo) (s : ActionState)
      → calls (execute_all server action cs s).effects ≡ calls s.effects ++ calls_for action cs
  unfolding execute_all
  calls-execute_all action [] s = sym (append-nil (calls s.effects))
  calls-execute_all action (c ∷ cs) s =
      calls-execute_all action cs (execute_action server action c s)
      ∙ rw (
        calls-execute_action action c s,
        append_assoc (calls s.effects) (calls_for action (c ∷ [])) (calls_for action cs),
        calls_for-cons action c cs,
      )

  -- Where a dialog is open, confirming makes one call for each docker container of the dialog, in order,
  -- and no other, and closes the dialog.
  pub handle-confirm :
      (containers page : List ContainerInfo) (s : ActionState) (k : ConfirmAction)
      → s.confirm_action ≡ some k
      → (calls (handle server containers page confirm s).effects
          ≡ calls s.effects ++ calls_for k.type k.containers)
        × ((handle server containers page confirm s).confirm_action ≡ none)
  unfolding handle
  handle-confirm containers page s k e =
      rw e (ground (arith, calls-execute_all k.type k.containers s))

  -- The calls before stay, and only gentle ones are added.
  gentle_batch :
      (action : ContainerActionType) (cs : List ContainerInfo) (s : ActionState)
      → ends action ≡ false
      → filter is_destructive (calls (execute_all server action cs s).effects)
        ≡ filter is_destructive (calls s.effects)
  gentle_batch action cs s h =
      rw
        (
          calls-execute_all action cs s,
          filter-append is_destructive (calls s.effects) (calls_for action cs),
          gentle_calls action cs h,
        )
        (append-nil _)

  gentle_batch_action :
      (containers : List ContainerInfo) (action : ContainerActionType) (s : ActionState)
      → filter is_destructive (calls (handle_batch_action server containers action s).effects)
        ≡ filter is_destructive (calls s.effects)
  unfolding handle_batch_action
  gentle_batch_action containers start s = gentle_batch start (chosen containers s) s refl
  gentle_batch_action containers restart s = gentle_batch restart (chosen containers s) s refl
  gentle_batch_action containers action s = ground arith

  -- No gesture but a confirmation stops or removes a container.
  pub handle_gentle :
      (containers page : List ContainerInfo) (g : Gesture) (s : ActionState)
      → g ≢ confirm
      → filter is_destructive (calls (handle server containers page g s).effects)
        ≡ filter is_destructive (calls s.effects)
  unfolding handle execute_all
  handle_gentle containers page (start_container c) s h = gentle_batch start (c ∷ []) s refl
  handle_gentle containers page (restart_container c) s h = gentle_batch restart (c ∷ []) s refl
  handle_gentle containers page (batch_action action) s h = gentle_batch_action containers action s
  handle_gentle containers page confirm s h = absurd (h refl)
  handle_gentle containers page (dialog_open_change true) s h = refl
  handle_gentle containers page (dialog_open_change false) s h = refl
  handle_gentle containers page g s h = refl
