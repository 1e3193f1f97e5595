-- ===== src/Dashboard/UrlState/Laws.antt =====
-- That the URL state is written exactly when it changes, and which page a call leaves.
use vps_monitor.Common.{
  ℤ, pos, Text, or_else, text_eq, text_eq_iff, Option, none, some, List, [], ◌∷◌, Bool, true, false,
  ◌||◌, ◌≤ℤ◌, eqb_ℤ, eqb_ℤ_iff, max_ℤ, ◌≡◌, ◌↔◌, refl, sym, inl, inr, ap, arith, length, Bool-cases,
  if◌then◌else◌,
}
use vps_monitor.Dashboard.UrlState.{
  DashboardUrlParams, Updates, every_equal, are_string_arrays_equal, are_dates_equal,
  same_direction, same_group, same_interval, same_column, changed, has_dashboard_param_changes,
  set_params, update_params, Request, set_sort_direction, set_sort_by, set_stats_interval, set_page,
  set_expanded_groups, updates_of, handle,
}

every_equal_iff :
    (xs ys : List Text) → length xs ≡ length ys → (every_equal xs ys ≡ true) ↔ (xs ≡ ys)
unfolding every_equal
every_equal_iff [] [] h = ground arith
every_equal_iff [] (y ∷ ys) h = absurd (omega arith)
every_equal_iff (x ∷ xs) [] h = absurd (omega arith)
every_equal_iff (x ∷ xs) (y ∷ ys) h =
    ground (arith, text_eq_iff x y, every_equal_iff xs ys (omega arith))

-- A comparison that holds of equal values only.
abbrev Decides : {A : Type 0} → (A → A → Bool) → Type 0
Decides {A} same = (x y : A) → (same x y ≡ true) ↔ (x ≡ y)

arrays-Decides : Decides are_string_arrays_equal
unfolding are_string_arrays_equal
arrays-Decides xs ys = (
  λ h. ground (arith, every_equal_iff xs ys),
  λ e. rw e (ground (arith, every_equal_iff ys ys refl)),
)

dates-Decides : Decides are_dates_equal
unfolding are_dates_equal
dates-Decides none none = ground arith
dates-Decides none (some b) = ground arith
dates-Decides (some a) none = ground arith
dates-Decides (some a) (some b) = ground (arith, eqb_ℤ_iff a b)

direction-Decides : Decides same_direction
unfolding same_direction
direction-Decides x y = ground arith

group-Decides : Decides same_group
unfolding same_group
group-Decides x y = ground arith

interval-Decides : Decides same_interval
unfolding same_interval
interval-Decides x y = ground arith

column-Decides : Decides same_column
unfolding same_column
column-Decides x y = ground arith

-- An entry that is not counted as a change is absent or the current value.
changed-eq-false :
    {A : Type 0} (same : A → A → Bool) (current : A) (next : Option A)
    → Decides same
    → (changed same current next ≡ false) ↔ (or_else next current ≡ current)
changed-eq-false same current none d = ground arith
changed-eq-false same current (some next) d = ground (arith, d current next)

or-eq-false : (a b : Bool) → ((a || b) ≡ false) ↔ ((a ≡ false) × (b ≡ false))
or-eq-false a b = ground arith

module _ (p : DashboardUrlParams) (u : Updates) where
  -- Each key of the updates is absent or holds the current value.
  record IsIdle : Type 0 where
    search : or_else u.search p.search ≡ p.search
    state : or_else u.state p.state ≡ p.state
    host : or_else u.host p.host ≡ p.host
    sort : or_else u.sort p.sort ≡ p.sort
    sort_by : or_else u.sort_by p.sort_by ≡ p.sort_by
    group : or_else u.group p.group ≡ p.group
    interval : or_else u.interval p.interval ≡ p.interval
    page : or_else u.page p.page ≡ p.page
    page_size : or_else u.page_size p.page_size ≡ p.page_size
    from : or_else u.from p.from ≡ p.from
    to : or_else u.to p.to ≡ p.to
    expanded : or_else u.expanded p.expanded ≡ p.expanded

  idle_of_unchanged : has_dashboard_param_changes p u ≡ false → IsIdle
  unfolding has_dashboard_param_changes
  idle_of_unchanged h0 =
      let (h1, expanded_same) = (or-eq-false _ _).0 h0 in
      let (h2, to_same) = (or-eq-false _ _).0 h1 in
      let (h3, from_same) = (or-eq-false _ _).0 h2 in
      let (h4, page_size_same) = (or-eq-false _ _).0 h3 in
      let (h5, page_same) = (or-eq-false _ _).0 h4 in
      let (h6, interval_same) = (or-eq-false _ _).0 h5 in
      let (h7, group_same) = (or-eq-false _ _).0 h6 in
      let (h8, sort_by_same) = (or-eq-false _ _).0 h7 in
      let (h9, sort_same) = (or-eq-false _ _).0 h8 in
      let (h10, host_same) = (or-eq-false _ _).0 h9 in
      let (h11, state_same) = (or-eq-false _ _).0 h10 in
      record {
        search = (changed-eq-false text_eq p.search u.search text_eq_iff).0 h11;
        state = (changed-eq-false text_eq p.state u.state text_eq_iff).0 state_same;
        host = (changed-eq-false text_eq p.host u.host text_eq_iff).0 host_same;
        sort = (changed-eq-false same_direction p.sort u.sort direction-Decides).0 sort_same;
        sort_by = (changed-eq-false same_column p.sort_by u.sort_by column-Decides).0 sort_by_same;
        group = (changed-eq-false same_group p.group u.group group-Decides).0 group_same;
        interval =
            (changed-eq-false same_interval p.interval u.interval interval-Decides).0 interval_same;
        page = (changed-eq-false eqb_ℤ p.page u.page eqb_ℤ_iff).0 page_same;
        page_size = (changed-eq-false eqb_ℤ p.page_size u.page_size eqb_ℤ_iff).0 page_size_same;
        from = (changed-eq-false are_dates_equal p.from u.from dates-Decides).0 from_same;
        to = (changed-eq-false are_dates_equal p.to u.to dates-Decides).0 to_same;
        expanded =
            (changed-eq-false are_string_arrays_equal p.expanded u.expanded arrays-Decides).0
              expanded_same;
      }

  unchanged_of_idle : IsIdle → has_dashboard_param_changes p u ≡ false
  unfolding has_dashboard_param_changes
  unchanged_of_idle d = rw (
    (changed-eq-false text_eq p.search u.search text_eq_iff).1 d.search,
    (changed-eq-false text_eq p.state u.state text_eq_iff).1 d.state,
    (changed-eq-false text_eq p.host u.host text_eq_iff).1 d.host,
    (changed-eq-false same_direction p.sort u.sort direction-Decides).1 d.sort,
    (changed-eq-false same_column p.sort_by u.sort_by column-Decides).1 d.sort_by,
    (changed-eq-false same_group p.group u.group group-Decides).1 d.group,
    (changed-eq-false same_interval p.interval u.interval interval-Decides).1 d.interval,
    (changed-eq-false eqb_ℤ p.page u.page eqb_ℤ_iff).1 d.page,
    (changed-eq-false eqb_ℤ p.page_size u.page_size eqb_ℤ_iff).1 d.page_size,
    (changed-eq-false are_dates_equal p.from u.from dates-Decides).1 d.from,
    (changed-eq-false are_dates_equal p.to u.to dates-Decides).1 d.to,
    (changed-eq-false are_string_arrays_equal p.expanded u.expanded arrays-Decides).1 d.expanded,
  )

  merged_of_idle : IsIdle → set_params p u ≡ p
  unfolding set_params
  merged_of_idle d = λ i. record {
    search = d.search i;
    state = d.state i;
    host = d.host i;
    sort = d.sort i;
    sort_by = d.sort_by i;
    group = d.group i;
    interval = d.interval i;
    page = d.page i;
    page_size = d.page_size i;
    from = d.from i;
    to = d.to i;
    expanded = d.expanded i;
  }

  idle_of_merged : set_params p u ≡ p → IsIdle
  unfolding set_params
  idle_of_merged e = record {
    search = ap (λ q. q.search) e;
    state = ap (λ q. q.state) e;
    host = ap (λ q. q.host) e;
    sort = ap (λ q. q.sort) e;
    sort_by = ap (λ q. q.sort_by) e;
    group = ap (λ q. q.group) e;
    interval = ap (λ q. q.interval) e;
    page = ap (λ q. q.page) e;
    page_size = ap (λ q. q.page_size) e;
    from = ap (λ q. q.from) e;
    to = ap (λ q. q.to) e;
    expanded = ap (λ q. q.expanded) e;
  }

  -- An update counts as no change exactly when the parameters merged with it are the current ones.
  pub has_dashboard_param_changes-eq-false :
      (has_dashboard_param_changes p u ≡ false) ↔ (set_params p u ≡ p)
  has_dashboard_param_changes-eq-false =
      (λ h. merged_of_idle (idle_of_unchanged h), λ e. unchanged_of_idle (idle_of_merged e))

  -- Updating the parameters gives the merged ones, also where the write is skipped.
  pub update_params-set_params : update_params p u ≡ set_params p u
  unfolding update_params
  update_params-set_params = elim (Bool-cases (has_dashboard_param_changes p u)) [
    | inl differs ↦ rw differs refl
    | inr same ↦ rw same (sym (has_dashboard_param_changes-eq-false.0 same))
  ]

-- The call changes which containers are listed, or how many stand on a page.
abbrev pub resets_page : Request → Bool
resets_page (set_sort_direction v) = false
resets_page (set_sort_by v) = false
resets_page (set_stats_interval v) = false
resets_page (set_expanded_groups v) = false
resets_page (set_page v) = false
resets_page _ = true

-- The page that a call leaves: the first one, the one asked for (at least 1), or the current one.
abbrev pub page_after : ℤ → Request → ℤ
page_after current (set_page v) = max_ℤ (pos 1) v
page_after current r = if resets_page r then pos 1 else current

-- A call leaves the page at 1 if it changes which containers are listed or how many stand on a page, at
-- the one asked for, but at least 1, if it asks for a page, and unchanged otherwise.
pub handle-page : (p : DashboardUrlParams) (r : Request) → (handle p r).page ≡ page_after p.page r
unfolding handle set_params
handle-page p (set_page v) = rw (update_params-set_params p (updates_of (set_page v))) refl
handle-page p r = rw (update_params-set_params p (updates_of r)) refl

-- The page and the page size are positive.
pub record IsPositive (p : DashboardUrlParams) : Type 0 where
  pub page : pos 1 ≤ℤ p.page
  pub page_size : pos 1 ≤ℤ p.page_size

pub handle-IsPositive :
    (p : DashboardUrlParams) (r : Request) → IsPositive p → IsPositive (handle p r)
unfolding handle set_params
handle-IsPositive p (set_page v) h =
    rw (update_params-set_params p (updates_of (set_page v))) (ground arith)
handle-IsPositive p r h = rw (update_params-set_params p (updates_of r)) (ground arith)

-- A session: the calls in their order.
unfoldable pub handle_all : DashboardUrlParams → List Request → DashboardUrlParams
handle_all p [] = p
handle_all p (r ∷ rs) = handle_all (handle p r) rs

-- From a page and a page size that are positive, no sequence of calls makes either less than 1.
pub handle_all-IsPositive :
    (p : DashboardUrlParams) (rs : List Request) → IsPositive p → IsPositive (handle_all p rs)
unfolding handle_all
handle_all-IsPositive p [] h = h
handle_all-IsPositive p (r ∷ rs) h = handle_all-IsPositive (handle p r) rs (handle-IsPositive p r h)

or_else_idem : {A : Type 0} (o : Option A) (a : A) → or_else o (or_else o a) ≡ or_else o a
or_else_idem none a = refl
or_else_idem (some b) a = refl

set_params_idem :
    (p : DashboardUrlParams) (u : Updates) → set_params (set_params p u) u ≡ set_params p u
unfolding set_params
set_params_idem p u = λ i. record {
  search = or_else_idem u.search p.search i;
  state = or_else_idem u.state p.state i;
  host = or_else_idem u.host p.host i;
  sort = or_else_idem u.sort p.sort i;
  sort_by = or_else_idem u.sort_by p.sort_by i;
  group = or_else_idem u.group p.group i;
  interval = or_else_idem u.interval p.interval i;
  page = or_else_idem u.page p.page i;
  page_size = or_else_idem u.page_size p.page_size i;
  from = or_else_idem u.from p.from i;
  to = or_else_idem u.to p.to i;
  expanded = or_else_idem u.expanded p.expanded i;
}

handle-set_params :
    (p : DashboardUrlParams) (r : Request) → handle p r ≡ set_params p (updates_of r)
unfolding handle
handle-set_params p r = update_params-set_params p (updates_of r)

-- Making the same call twice is making it once.
pub handle_idem : (p : DashboardUrlParams) (r : Request) → handle (handle p r) r ≡ handle p r
handle_idem p r = simp (handle-set_params, set_params_idem)
