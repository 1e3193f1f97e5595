-- ===== src/Dashboard/Listing/Counts.antt =====
-- The counts by state against the list.
use vps_monitor.Common.{
  length-perm, count-cons, count_ext, ℕ, ℤ, suc, ◌+◌, Text, codes, text_eq, text_eq_iff, List, [],
  ◌∷◌, Bool, true, false, ◌&&◌, ◌||◌, not, count, length, length-filter, ◌≡◌, ◌≢◌, ◌∙◌, arith,
  if◌then◌else◌,
}
use vps_monitor.Common.Sort.{sort-perm}
use vps_monitor.Dashboard.Listing.{
  compare_containers, Locale, Filters, matches_filters, filtered_containers, count_state,
  count_states, state_counts,
}
use vps_monitor.Containers.{
  ContainerInfo, SortColumn, SortDirection, StatsInterval, StateCounts, get_initial_state_counts,
}

module _ (l : Locale) (f : Filters) where
  -- The containers in a state that match all filters but the state's.
  abbrev pub in_state : Text → ContainerInfo → Bool
  in_state s c = matches_filters l f false c && text_eq (l.to_lower c.state) s

  abbrev is_listed : ContainerInfo → Bool
  is_listed c =
      text_eq (l.to_lower c.state) (codes "running")
      || text_eq (l.to_lower c.state) (codes "exited")
      || text_eq (l.to_lower c.state) (codes "paused")
      || text_eq (l.to_lower c.state) (codes "restarting")
      || text_eq (l.to_lower c.state) (codes "dead")

  abbrev in_other : ContainerInfo → Bool
  in_other c = matches_filters l f false c && not (is_listed c)

  -- Each number counts the containers in its state; `other` counts the rest.
  pub record IsCount (k : StateCounts) (cs : List ContainerInfo) (r : StateCounts) : Type 0 where
    pub running : r.running ≡ k.running + count (in_state (codes "running")) cs
    pub exited : r.exited ≡ k.exited + count (in_state (codes "exited")) cs
    pub paused : r.paused ≡ k.paused + count (in_state (codes "paused")) cs
    pub restarting : r.restarting ≡ k.restarting + count (in_state (codes "restarting")) cs
    pub dead : r.dead ≡ k.dead + count (in_state (codes "dead")) cs
    pub other : r.other ≡ k.other + count in_other cs

  count_state-IsCount :
      (k : StateCounts) (c : ContainerInfo)
      → IsCount k
          (c ∷ [])
          (if matches_filters l f false c then count_state l (l.to_lower c.state) k else k)
  unfolding count_state
  count_state-IsCount k c = ground (
    arith,
    text_eq_iff (l.to_lower c.state) (codes "running"),
    text_eq_iff (l.to_lower c.state) (codes "exited"),
    text_eq_iff (l.to_lower c.state) (codes "paused"),
    text_eq_iff (l.to_lower c.state) (codes "restarting"),
    text_eq_iff (l.to_lower c.state) (codes "dead"),
  )

  IsCount-cons :
      {k m r : StateCounts} (c : ContainerInfo) (cs : List ContainerInfo)
      → IsCount k (c ∷ []) m
      → IsCount m cs r
      → IsCount k (c ∷ cs) r
  IsCount-cons c cs a b = record {
    running = omega (arith, a.running, b.running, count-cons (in_state (codes "running")) c cs);
    exited = omega (arith, a.exited, b.exited, count-cons (in_state (codes "exited")) c cs);
    paused = omega (arith, a.paused, b.paused, count-cons (in_state (codes "paused")) c cs);
    restarting =
        omega (arith, a.restarting, b.restarting, count-cons (in_state (codes "restarting")) c cs);
    dead = omega (arith, a.dead, b.dead, count-cons (in_state (codes "dead")) c cs);
    other = omega (arith, a.other, b.other, count-cons in_other c cs);
  }

  count_states-IsCount :
      (k : StateCounts) (cs : List ContainerInfo) → IsCount k cs (count_states l f k cs)
  unfolding count_states
  count_states-IsCount k [] = omega arith
  count_states-IsCount k (c ∷ cs) = IsCount-cons c cs (count_state-IsCount k c) (
      count_states-IsCount
        (if matches_filters l f false c then count_state l (l.to_lower c.state) k else k) cs)

  -- The count of each of the five states is the number of containers in it that match all filters
  -- but the state's, and the count of the others is the number of those that match them and are in
  -- none of the five.
  pub state_counts-IsCount :
      (cs : List ContainerInfo) → IsCount get_initial_state_counts cs (state_counts l f cs)
  unfolding state_counts
  state_counts-IsCount cs = count_states-IsCount get_initial_state_counts cs

  abbrev pub total : StateCounts → ℕ
  total k = k.running + k.exited + k.paused + k.restarting + k.dead + k.other

  total-count_state : (s : Text) (k : StateCounts) → total (count_state l s k) ≡ suc (total k)
  unfolding count_state
  total-count_state s k = ground arith

  total-count_states :
      (k : StateCounts) (cs : List ContainerInfo)
      → total (count_states l f k cs) ≡ total k + count (matches_filters l f false) cs
  unfolding count_states
  total-count_states k [] = omega arith
  total-count_states k (c ∷ cs) = ground (
    arith,
    total-count_state (l.to_lower c.state) k,
    total-count_states k cs,
    total-count_states (count_state l (l.to_lower c.state) k) cs,
  )

  -- The counts add up to the containers that match all filters but the state's.
  pub total-state_counts :
      (cs : List ContainerInfo) → total (state_counts l f cs) ≡ count (matches_filters l f false) cs
  unfolding get_initial_state_counts state_counts
  total-state_counts cs = omega (arith, total-count_states get_initial_state_counts cs)

-- For a state other than "all", as many rows are listed under the state's filter as containers
-- match the other filters and are in that state.
pub length-filtered_containers :
    (l : Locale) (f : Filters) (s : Text) (now : ℤ) (interval : StatsInterval) (column : SortColumn)
    (direction : SortDirection) (cs : List ContainerInfo)
    → s ≢ codes "all"
    → length
        (filtered_containers l (record f { state_filter = s }) now interval column direction cs)
      ≡ count (in_state l f s) cs
unfolding filtered_containers matches_filters
length-filtered_containers l f s now interval column direction cs h =
    length-perm (sort-perm (compare_containers l now interval column direction) _)
    ∙ length-filter (matches_filters l (record f { state_filter = s }) true) cs
    ∙ count_ext (matches_filters l (record f { state_filter = s }) true) (in_state l f s)
        (λ c. ground (arith, text_eq_iff s (codes "all"))) cs
