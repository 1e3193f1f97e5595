-- ===== src/Dashboard/Tests.antt =====
-- The dashboard on a few containers.
use vps_monitor.Dashboard.Actions.{
  thrown, restart_container, Answer, failed, ActionState, ConfirmAction, Gesture, confirm,
  batch_action, start_container, stop_container, keep_on_page,
}
use vps_monitor.Containers.Samples.{db, web, three, by_length, no_filters}
use vps_monitor.Common.{
  List, text_eq_iff, text_eq, pos, Text, codes, length, none, some, [], ◌∷◌, ◌++◌, Bool, true,
  false, filter, ◌≡◌, ◌≢◌, ◌↔◌, refl, arith, compare,
}
use vps_monitor.Dashboard.Listing.{
  get_sort_value, compare_values, compare_containers, filtered_containers,
}
use vps_monitor.Containers.{ContainerActionType, ContainerInfo, asc, desc, hour_1, stop, SortColumn}
use vps_monitor.Common.Sort.{IsConsistent, is_gt, on-IsConsistent, compare-IsConsistent}
use vps_monitor.Dashboard.UrlState.{
  Updates, no_updates, default_params, has_dashboard_param_changes, set_params,
}
use vps_monitor.Dashboard.UrlState.Laws.{has_dashboard_param_changes-eq-false, IsPositive}
use vps_monitor.Dashboard.Listing.Order.{IsListing, filtered_containers-IsListing}
use vps_monitor.Dashboard.Paging.{finite, total_pages}
use vps_monitor.Dashboard.Paging.Laws.{pages, pages_cover}
use vps_monitor.Dashboard.Buttons.{
  IsRow, first, number, stands, render_pagination_numbers, render_pagination_numbers-IsRow,
}
use vps_monitor.Dashboard.Actions.Confirmed.{
  calls, calls_for, is_destructive, handle-confirm, handle_gentle,
}
use vps_monitor.Dashboard.Actions.Overlap.{Live, Event, gesture, answered, handle_event}
use vps_monitor.Dashboard.Actions.Overlap.Settled.{
  IsSettled, handle_events, handle_events-IsSettled,
}
use vps_monitor.Dashboard.Actions

by_length-IsConsistent : IsConsistent by_length.compare
by_length-IsConsistent = on-IsConsistent compare length compare-IsConsistent

abbrev searching : Updates
searching = record no_updates { search = some (codes "web") }

changes_example :
    (has_dashboard_param_changes default_params searching ≡ false)
    ↔ (set_params default_params searching ≡ default_params)
changes_example = has_dashboard_param_changes-eq-false default_params searching

default-IsPositive : IsPositive default_params
default-IsPositive = record { page = ground arith; page_size = ground arith }

filtered_containers-IsListing_example :
    IsListing by_length
      (pos 0)
      hour_1
      no_filters
      SortColumn.name
      asc
      three
      (filtered_containers by_length no_filters (pos 0) hour_1 SortColumn.name asc three)
filtered_containers-IsListing_example =
    filtered_containers-IsListing by_length (pos 0) hour_1 no_filters SortColumn.name asc three
      by_length-IsConsistent

abbrev is_running : ContainerInfo → Bool
is_running c = text_eq c.state (codes "running")

running-IsTied :
    (a b : ContainerInfo)
    → is_running a ≡ true
    → is_running b ≡ true
    → is_gt (compare_containers by_length (pos 0) hour_1 SortColumn.state desc a b) ≡ false
unfolding compare_containers compare_values get_sort_value
running-IsTied a b h k =
    rw ((text_eq_iff a.state (codes "running")).0 h, (text_eq_iff b.state (codes "running")).0 k)
      refl

running-ne-all : codes "running" ≢ codes "all"
running-ne-all = λ h. ground arith

two_pages : total_pages (length three) (pos 2) ≡ finite (pos 2)
unfolding total_pages
two_pages = refl

pages_cover_example : pages three 2 0 2 ≡ three
pages_cover_example = pages_cover three 2 2 (omega arith) two_pages

-- A server that answers every call with an error.
abbrev refusing : ContainerActionType → Text → Text → Answer
refusing action id host = failed (codes "no")

abbrev asked : ConfirmAction
asked = record { type = stop; containers = three; clear_selection_on_confirm = true }

abbrev asking : ActionState
asking = record {
  selected_container_ids = codes "web" ∷ codes "db" ∷ [];
  pending_action = none;
  confirm_action = some asked;
  effects = [];
}

handle-confirm_example :
    (calls (Actions.handle refusing three three confirm asking).effects
      ≡ calls [] ++ calls_for stop three)
    × ((Actions.handle refusing three three confirm asking).confirm_action ≡ none)
handle-confirm_example = handle-confirm refusing three three asking asked refl

not_confirm : start_container web ≢ confirm
not_confirm = λ h. cc

handle_gentle_example :
    filter is_destructive
      (calls (Actions.handle refusing three three (start_container web) asking).effects)
    ≡ filter is_destructive (calls [])
handle_gentle_example = handle_gentle refusing three three (start_container web) asking not_confirm

abbrev idle : Live
idle = record { state = asking; tasks = [] }

idle-IsSettled : IsSettled idle
idle-IsSettled = record { pending = refl; dialog = refl; allowed = tt }

-- Two containers are restarted one over the other, and a batch is confirmed meanwhile.
abbrev overlapping : List Event
overlapping =
    gesture (restart_container web)
    ∷ gesture (restart_container db)
    ∷ gesture (batch_action stop)
    ∷ gesture confirm
    ∷ answered 0 thrown
    ∷ answered 1 (failed (codes "no"))
    ∷ []

handle_events-IsSettled_example : IsSettled (handle_events three three overlapping idle)
handle_events-IsSettled_example =
    handle_events-IsSettled three three overlapping idle idle-IsSettled

-- The first answer takes the mark of a pending action away, though another request is out.
unmarked :
    (handle_events three three
      (gesture (restart_container web) ∷ gesture (restart_container db) ∷ answered 0 thrown ∷ [])
      idle).state.pending_action
    ≡ none
unfolding handle_event
unmarked = refl

render_pagination_numbers_example :
    (first (render_pagination_numbers 5 9) ≡ some (number 1))
    × (IsRow 9 0 (render_pagination_numbers 5 9)
        × (stands 5 (render_pagination_numbers 5 9) ≡ true))
render_pagination_numbers_example = render_pagination_numbers-IsRow 5 9 (omega arith) (omega arith)
