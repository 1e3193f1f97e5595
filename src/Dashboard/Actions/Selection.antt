-- ===== src/Dashboard/Actions/Selection.antt =====
-- The selected containers.
use vps_monitor.Common.{
  Text, text_eq, text_eq_iff, List, [], ◌∷◌, Bool, not, ◌&&◌, if◌then◌else◌, filter, any, length,
  length-filter-le, ◌≡◌, refl, arith,
}
use vps_monitor.Common.Sets.{has, has-append, has-delete, has-filter}
use vps_monitor.Containers.{ContainerInfo, ContainerActionType}
use vps_monitor.Dashboard.Actions.{ActionState, Answer, toggle_select, handle, keep_on_page}

module _ (server : ContainerActionType → Text → Text → Answer)
    (containers page : List ContainerInfo) where
  has-toggle :
      (id j : Text) (s : ActionState)
      → has j (handle server containers page (toggle_select id) s).selected_container_ids ≡ (
          if text_eq j id
          then not (has j s.selected_container_ids)
          else has j s.selected_container_ids)
  unfolding handle has
  has-toggle id j s = ground (
    arith,
    has-append j s.selected_container_ids (id ∷ []),
    has-delete j id s.selected_container_ids,
    text_eq_iff j id,
  )

  -- Toggling a container twice selects what was selected before.
  pub toggle_select_twice :
      (id j : Text) (s : ActionState)
      → has j
          (handle server containers page
            (toggle_select id)
            (handle server containers page (toggle_select id) s)).selected_container_ids
        ≡ has j s.selected_container_ids
  toggle_select_twice id j s = ground (
    arith,
    has-toggle id j s,
    has-toggle id j (handle server containers page (toggle_select id) s),
  )

filter_all {ℓ} :
    {A : Type ℓ} (p : A → Bool) (xs : List A) → length (filter p xs) ≡ length xs → filter p xs ≡ xs
filter_all p [] h = refl
filter_all p (x ∷ xs) h = ground (arith, filter_all p xs, length-filter-le p xs)

-- A container with the id stands on the page.
abbrev pub on_page : List ContainerInfo → Text → Bool
on_page page id = any (λ c. text_eq c.id id) page

-- A new page keeps exactly the selected containers that stand on it.
pub has-keep_on_page :
    (page : List ContainerInfo) (s : ActionState) (id : Text)
    → has id (keep_on_page page s).selected_container_ids
      ≡ (on_page page id && has id s.selected_container_ids)
unfolding keep_on_page
has-keep_on_page page s id = ground (
  arith,
  has-filter id (on_page page) s.selected_container_ids,
  filter_all (on_page page) s.selected_container_ids,
)
