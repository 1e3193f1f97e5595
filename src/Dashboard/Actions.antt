-- ===== src/Dashboard/Actions.antt =====
-- The actions of frontend/src/features/containers/components/containers-dashboard.tsx: selection,
-- confirmation and the calls to the server. What the server answers is a parameter. `handle` is a gesture
-- whose requests are all answered before the next gesture; Overlap has gestures and answers in any order.
pub mod Confirmed
pub mod Overlap
pub mod Selection
use vps_monitor.Common.{
  ℕ, Text, codes, text_eq, truthy, Option, none, some, List, [], ◌∷◌, ◌++◌, map, Bool, true, false,
  if◌then◌else◌, filter, any, length, ◌==◌, ltb,
}
use vps_monitor.Common.Sets.{has, delete}
use vps_monitor.Containers.{
  ContainerInfo, ContainerActionType, start, stop, restart, remove, Runtime, docker, pm2, process,
}

pub data Toast : Type 0 where
  info success error : Text → Toast

-- What a handler does outside the component.
pub data Effect : Type 0 where
  called : ContainerActionType → Text → Text → Effect
  refetched : Effect
  toasted : Toast → Effect

-- The outcome of a call: a result, a thrown Error, or another thrown value.
pub data Answer : Type 0 where
  result : Text → Bool → Answer
  failed : Text → Answer
  thrown : Answer

pub record ConfirmAction : Type 0 where
  pub type : ContainerActionType
  pub containers : List ContainerInfo
  pub clear_selection_on_confirm : Bool

pub record ActionState : Type 0 where
  pub selected_container_ids : List Text
  pub pending_action : Option (Text × ContainerActionType)
  pub confirm_action : Option ConfirmAction
  pub effects : List Effect

abbrev pub emit : List Effect → ActionState → ActionState
emit es s = record s { effects = s.effects ++ es }

-- The toast for a container that is not docker's, if it is none.
unfoldable pub unwired : Option Runtime → Option Text
unwired none = none
unwired (some docker) = none
unwired (some pm2) = some (codes "PM2 actions are not wired yet.")
unwired (some process) = some (codes "PROCESS actions are not wired yet.")

-- What follows the call.
after_answer : Answer → List Effect
after_answer (result [] pending) = refetched ∷ []
after_answer (result (c ∷ message) true) = toasted (info (c ∷ message)) ∷ refetched ∷ []
after_answer (result (c ∷ message) false) = toasted (success (c ∷ message)) ∷ refetched ∷ []
after_answer (failed message) = toasted (error message) ∷ []
after_answer thrown =
    toasted (error (codes "Unexpected error while performing container action.")) ∷ []

-- What the user does on the dashboard.
pub data Gesture : Type 0 where
  start_container stop_container restart_container delete_container : ContainerInfo → Gesture
  toggle_select : Text → Gesture
  select_all : Gesture
  batch_action : ContainerActionType → Gesture
  confirm : Gesture
  dialog_open_change : Bool → Gesture

-- The guard of handleBatchAction.
abbrev pub asks_first : ContainerActionType → Bool
asks_first stop = true
asks_first remove = true
asks_first start = false
asks_first restart = false

-- The selected ones among the containers.
abbrev pub chosen : List ContainerInfo → ActionState → List ContainerInfo
chosen containers s = filter (λ c. has c.id s.selected_container_ids) containers

-- executeAction for docker's containers, up to the request, and from the end of what it awaits on.
unfoldable pub action_sent : ContainerActionType → ContainerInfo → ActionState → ActionState
action_sent action c s =
    emit (called action c.id c.host ∷ []) (record s { pending_action = some (c.id, action) })

unfoldable pub action_answered : Answer → ActionState → ActionState
unfolding after_answer
action_answered a s = record (emit (after_answer a) s) { pending_action = none }

abbrev pub selected_toggled : Text → ActionState → ActionState
selected_toggled id s = record s {
  selected_container_ids =
      if has id s.selected_container_ids
      then delete id s.selected_container_ids
      else s.selected_container_ids ++ id ∷ [];
}

abbrev pub page_selected : List ContainerInfo → ActionState → ActionState
page_selected page s = record s {
  selected_container_ids =
      if length s.selected_container_ids == length page then [] else map (λ c. c.id) page;
}

abbrev pub ask : ContainerActionType → ContainerInfo → ActionState → ActionState
ask action c s = record s {
  confirm_action =
      some (record { type = action; containers = c ∷ []; clear_selection_on_confirm = false });
}

-- The dialog of a batch.
abbrev pub ask_all : ContainerActionType → List ContainerInfo → ActionState → ActionState
ask_all action cs s = record s {
  confirm_action =
      some (record { type = action; containers = cs; clear_selection_on_confirm = true });
}

module _ (server : ContainerActionType → Text → Text → Answer) where
  -- executeAction.
  unfoldable pub execute_action : ContainerActionType → ContainerInfo → ActionState → ActionState
  unfolding unwired action_sent action_answered
  execute_action action c s = elim (unwired c.runtime) [
    | some message ↦ emit (toasted (info message) ∷ []) s
    | none ↦ action_answered (server action c.id c.host) (action_sent action c s)
  ]

  -- The loops over the containers of a batch.
  unfoldable pub execute_all : ContainerActionType → List ContainerInfo → ActionState → ActionState
  unfolding execute_action
  execute_all action [] s = s
  execute_all action (c ∷ cs) s = execute_all action cs (execute_action action c s)

  confirmed : ConfirmAction → ActionState → ActionState
  unfolding execute_all
  confirmed k s =
      let done = execute_all k.type k.containers s in
      let cleared =
        if k.clear_selection_on_confirm
        then record done { selected_container_ids = [] }
        else done in
      record cleared { confirm_action = none }

  handle_confirm_action : ActionState → ActionState
  unfolding confirmed
  handle_confirm_action s = elim s.confirm_action [ none ↦ s | some k ↦ confirmed k s ]

  handle_batch_action : List ContainerInfo → ContainerActionType → ActionState → ActionState
  unfolding execute_all
  handle_batch_action containers action s =
      if asks_first action
      then if ltb 0 (length (chosen containers s))
        then ask_all action (chosen containers s) s
        else record s { selected_container_ids = [] }
      else record (execute_all action (chosen containers s) s) { selected_container_ids = [] }

  -- The handler of each gesture, over the containers and those on the page.
  unfoldable pub handle :
      List ContainerInfo → List ContainerInfo → Gesture → ActionState → ActionState
  unfolding execute_action handle_confirm_action handle_batch_action
  handle containers page (start_container c) s = execute_action start c s
  handle containers page (stop_container c) s = ask stop c s
  handle containers page (restart_container c) s = execute_action restart c s
  handle containers page (delete_container c) s = ask remove c s
  handle containers page (toggle_select id) s = selected_toggled id s
  handle containers page select_all s = page_selected page s
  handle containers page (batch_action action) s = handle_batch_action containers action s
  handle containers page confirm s = handle_confirm_action s
  handle containers page (dialog_open_change true) s = s
  handle containers page (dialog_open_change false) s = record s { confirm_action = none }

-- The effect that drops the selected containers that are not on the page.
unfoldable pub keep_on_page : List ContainerInfo → ActionState → ActionState
keep_on_page page s =
    let next = filter (λ id. any (λ c. text_eq c.id id) page) s.selected_container_ids in
    if length next == length s.selected_container_ids
    then s
    else record s { selected_container_ids = next }
