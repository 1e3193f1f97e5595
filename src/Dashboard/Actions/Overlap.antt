-- ===== src/Dashboard/Actions/Overlap.antt =====
-- The actions of frontend/src/features/containers/components/containers-dashboard.tsx with gestures while
-- requests are out: the loops of handleConfirmAction and handleBatchAction stop at each request, and go on
-- where its answer comes.
pub mod Settled
use vps_monitor.Common.{
  ℕ, zero, suc, Text, Option, none, some, List, [], ◌∷◌, ◌++◌, Bool, true, false, ◌&&◌,
  if◌then◌else◌, length, ltb, get_elem?,
}
use vps_monitor.Containers.{ContainerInfo, ContainerActionType, start, stop, restart, remove}
use vps_monitor.Dashboard.Actions.{
  info, toasted, Answer, ConfirmAction, ActionState, emit, unwired, chosen, asks_first, action_sent,
  action_answered, ask, ask_all, selected_toggled, page_selected, Gesture, start_container,
  stop_container, restart_container, delete_container, toggle_select, select_all, batch_action,
  confirm, dialog_open_change,
}

-- What follows the last container: nothing, or the end of handleBatchAction or of handleConfirmAction,
-- with its clearSelectionOnConfirm.
pub data Finish : Type 0 where
  alone batch : Finish
  dialog : Bool → Finish

-- A handler that waits for the answer to its request, with the containers after that one.
pub record Task : Type 0 where
  pub action : ContainerActionType
  pub rest : List ContainerInfo
  pub finish : Finish

pub record Live : Type 0 where
  pub state : ActionState
  pub tasks : List Task

pub data Event : Type 0 where
  gesture : Gesture → Event
  -- The end of what the task at the position awaits: the request, and the refetch where it succeeded.
  answered : ℕ → Answer → Event

abbrev pub finished : Finish → ActionState → ActionState
finished alone s = s
finished batch s = record s { selected_container_ids = [] }
finished (dialog true) s = record s { selected_container_ids = []; confirm_action = none }
finished (dialog false) s = record s { confirm_action = none }

-- The loop up to its next request, or to its end.
unfoldable pub advance : ContainerActionType → List ContainerInfo → Finish → Live → Live
unfolding unwired action_sent
advance action [] f p = record p { state = finished f p.state }
advance action (c ∷ cs) f p = elim (unwired c.runtime) [
  | some message ↦
      advance action cs f (record p { state = emit (toasted (info message) ∷ []) p.state })
  | none ↦ record p {
    state = action_sent action c p.state;
    tasks = p.tasks ++ record { action = action; rest = cs; finish = f } ∷ [];
  }
]

abbrev pub remove_task : ℕ → List Task → List Task
remove_task i [] = []
remove_task zero (t ∷ ts) = ts
remove_task (suc i) (t ∷ ts) = t ∷ remove_task i ts

abbrev pub resume : Option Task → ℕ → Answer → Live → Live
unfolding advance action_answered
resume none i a p = p
resume (some t) i a p =
    advance t.action t.rest t.finish
      (record { state = action_answered a p.state; tasks = remove_task i p.tasks })

abbrev pub confirm_all : Option ConfirmAction → Live → Live
unfolding advance
confirm_all none p = p
confirm_all (some k) p = advance k.type k.containers (dialog k.clear_selection_on_confirm) p

abbrev pub batch_of : ContainerActionType → List ContainerInfo → Live → Live
unfolding advance
batch_of action cs p =
    if asks_first action && ltb 0 (length cs)
    then record p { state = ask_all action cs p.state }
    else advance action cs batch p

unfoldable pub handle_gesture : List ContainerInfo → List ContainerInfo → Gesture → Live → Live
unfolding advance confirm_all batch_of
handle_gesture containers page (start_container c) p = advance start (c ∷ []) alone p
handle_gesture containers page (stop_container c) p = record p { state = ask stop c p.state }
handle_gesture containers page (restart_container c) p = advance restart (c ∷ []) alone p
handle_gesture containers page (delete_container c) p = record p { state = ask remove c p.state }
handle_gesture containers page (toggle_select id) p = record p {
  state = selected_toggled id p.state;
}
handle_gesture containers page select_all p = record p { state = page_selected page p.state }
handle_gesture containers page (batch_action action) p =
    batch_of action (chosen containers p.state) p
handle_gesture containers page confirm p = confirm_all p.state.confirm_action p
handle_gesture containers page (dialog_open_change true) p = p
handle_gesture containers page (dialog_open_change false) p = record p {
  state = record p.state { confirm_action = none };
}

unfoldable pub handle_event : List ContainerInfo → List ContainerInfo → Event → Live → Live
unfolding handle_gesture resume
handle_event containers page (gesture g) p = handle_gesture containers page g p
handle_event containers page (answered i a) p = resume (get_elem? p.tasks i) i a p
