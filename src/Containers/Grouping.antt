-- ===== src/Containers/Grouping.antt =====
-- groupByCompose of frontend/src/features/containers/components/container-utils.ts, and that it
-- partitions the containers.
use vps_monitor.Common.Sort.{
  compare-IsConsistent, on-IsConsistent, sort-IsSorted, IsSorted-map, flip-IsConsistent,
  IsConsistent, IsSorted, sort, sort-perm, sort-All,
}
use vps_monitor.Common.{
  text_eq_refl, inr, inl, Option-cases, flat_map-perm, Bool-cases, ℕ, max, compare, Ordering, Text,
  codes, trim, or_text, or_else, text_eq, text_eq_iff, Option, none, some, List, [], ◌∷◌, ◌++◌, map,
  Bool, if◌then◌else◌, is_some, filter, flat_map, All, ◌≡◌, ◌≢◌, refl, sym, ap, ◌∙◌, arith,
  append_assoc, append-nil,
}
use mathlib.Core.List.{Perm, perm_middle}
use vps_monitor.Common.Dict.{get, set, IsDict, get-set, set-IsDict, IsDict-All_get}
use vps_monitor.Containers.{ContainerInfo, Pm2Info, SortDirection, asc, desc, is_pm2}
use mathlib.Core.List.Perm

pub record GroupedContainers : Type 0 where
  pub project : Text
  pub items : List ContainerInfo

-- The group of a pm2 process: its name space, if it has one that is not empty.
abbrev pm2_suffix : Option Text → Text
pm2_suffix none = []
pm2_suffix (some []) = []
pm2_suffix (some (c ∷ s)) = codes " / " ++ c ∷ s

abbrev pm2_namespace : Option Pm2Info → Option Text
pm2_namespace none = none
pm2_namespace (some info) = info.namespace

abbrev label : Option (List (Text × Text)) → Text → Text
label none k = []
label (some m) k = or_else (get k m) []

unfoldable pub group_key : ContainerInfo → Text
group_key c =
    if is_pm2 c.runtime
    then codes "PM2" ++ pm2_suffix (pm2_namespace c.pm2)
    else or_text (trim (label c.labels (codes "com.docker.compose.project"))) (codes "Standalone")

abbrev Groups : Type 0
Groups = List (Text × List ContainerInfo)

-- One round of the forEach.
place : ContainerInfo → Groups → Groups
place c m =
    let key = group_key c in
    let ready = if is_some (get key m) then m else set key [] m in
    set key (or_else (get key ready) [] ++ c ∷ []) ready

place_all : List ContainerInfo → Groups → Groups
unfolding place
place_all [] m = m
place_all (c ∷ cs) m = place_all cs (place c m)

-- Math.max over the creation times; no group is empty.
abbrev pub newest : List ContainerInfo → ℕ
newest [] = 0
newest (c ∷ cs) = max c.created (newest cs)

abbrev pub by_newest : SortDirection → List ContainerInfo → List ContainerInfo → Ordering
by_newest desc a b = compare (newest b) (newest a)
by_newest asc a b = compare (newest a) (newest b)

abbrev entry_by_newest :
    SortDirection → (Text × List ContainerInfo) → (Text × List ContainerInfo) → Ordering
entry_by_newest direction a b = by_newest direction a.1 b.1

abbrev to_group : Text × List ContainerInfo → GroupedContainers
to_group e = record { project = e.0; items = e.1 }

unfoldable pub group_by_compose : List ContainerInfo → SortDirection → List GroupedContainers
unfolding place_all
group_by_compose cs direction = map to_group (sort (entry_by_newest direction) (place_all cs []))

abbrev in_group : Text → ContainerInfo → Bool
in_group key c = text_eq (group_key c) key

-- The containers with a key in their order, or nothing if there are none.
abbrev non_empty : List ContainerInfo → Option (List ContainerInfo)
non_empty [] = none
non_empty (c ∷ cs) = some (c ∷ cs)

get-place :
    (c : ContainerInfo) (j : Text) (m : Groups)
    → get j (place c m)
      ≡ (if text_eq (group_key c) j then some (or_else (get j m) [] ++ c ∷ []) else get j m)
unfolding place
get-place c j m = ground (
  arith,
  text_eq_iff (group_key c) j,
  get-set (group_key c) j (or_else (get (group_key c) m) [] ++ c ∷ []) m,
  get-set (group_key c) j ([] ++ c ∷ []) (set (group_key c) [] m),
  get-set (group_key c) (group_key c) [] m,
  get-set (group_key c) j [] m,
  text_eq_iff (group_key c) (group_key c),
)

non_empty-append :
    (xs : List ContainerInfo) (c : ContainerInfo) → non_empty (xs ++ c ∷ []) ≡ some (xs ++ c ∷ [])
non_empty-append [] c = refl
non_empty-append (x ∷ xs) c = refl

get-place_all :
    (cs : List ContainerInfo) (j : Text) (m : Groups)
    → non_empty (or_else (get j m) []) ≡ get j m
    → get j (place_all cs m) ≡ non_empty (or_else (get j m) [] ++ filter (in_group j) cs)
unfolding place_all
get-place_all [] j m h = rw (append-nil (or_else (get j m) [])) (sym h)
get-place_all (c ∷ cs) j m h = ground (
  arith,
  get-place c j m,
  get-place_all cs j (place c m),
  non_empty-append (or_else (get j m) []) c,
  append_assoc (or_else (get j m) []) (c ∷ []) (filter (in_group j) cs),
)

place-IsDict : (c : ContainerInfo) (m : Groups) → IsDict m → IsDict (place c m)
unfolding place
place-IsDict c m d = ground (
  arith,
  set-IsDict (group_key c) [] m d,
  set-IsDict (group_key c) (or_else (get (group_key c) m) [] ++ c ∷ []) m d,
  set-IsDict (group_key c) (or_else (get (group_key c) (set (group_key c) [] m)) [] ++ c ∷ [])
      (set (group_key c) [] m),
)

place_all-IsDict : (cs : List ContainerInfo) (m : Groups) → IsDict m → IsDict (place_all cs m)
unfolding place_all
place_all-IsDict [] m d = d
place_all-IsDict (c ∷ cs) m d = place_all-IsDict cs (place c m) (place-IsDict c m d)

abbrev members : Groups → List ContainerInfo
members = flat_map (λ e. e.1)

members-set-none :
    (k : Text) (v : List ContainerInfo) (m : Groups)
    → get k m ≡ none
    → members (set k v m) ≡ members m ++ v
unfolding get set
members-set-none k v [] h = append-nil v
members-set-none k v ((j, w) ∷ m) h =
    ground (arith, members-set-none k v m, append_assoc w (members m) v)

members-set_some :
    (k : Text) (c : ContainerInfo) (old : List ContainerInfo) (m : Groups)
    → get k m ≡ some old
    → Perm (members (set k (old ++ c ∷ []) m)) (c ∷ members m)
unfolding get set
members-set_some k c old [] h = cc
members-set_some k c old ((j, w) ∷ m) h = elim (Bool-cases (text_eq j k)) [
  | inl same ↦
      let e : w ≡ old = ground arith in
      rw (same, e, append_assoc old (c ∷ []) (members m)) (perm_middle old (members m))
  | inr other ↦ rw other (
      Perm.trans (Perm.append_left w (members-set_some k c old m (ground arith)))
        (perm_middle w (members m)))
]

-- Placing a container adds it to the members, and nothing else.
place-perm : (c : ContainerInfo) (m : Groups) → Perm (members (place c m)) (c ∷ members m)
unfolding place
place-perm c m = elim (Option-cases (get (group_key c) m)) [
  | inl new ↦
      let ready = set (group_key c) [] m in
      let e : get (group_key c) ready ≡ some [] =
        rw (get-set (group_key c) (group_key c) [] m, text_eq_refl (group_key c)) refl in
      rw (new, e)
        (Perm.trans (members-set_some (group_key c) c [] ready e)
          (rw (members-set-none (group_key c) [] m new, append-nil (members m)) (Perm.refl _)))
  | inr (old, e) ↦ rw (e, e) (members-set_some (group_key c) c old m e)
]

place_all-perm :
    (cs : List ContainerInfo) (m : Groups) → Perm (members (place_all cs m)) (members m ++ cs)
unfolding place_all
place_all-perm [] m = rw (append-nil (members m)) (Perm.refl _)
place_all-perm (c ∷ cs) m =
    Perm.trans (place_all-perm cs (place c m))
      (Perm.trans (Perm.append_right cs (place-perm c m)) (Perm.symm (perm_middle (members m) cs)))

-- What the grouping promises: a group holds, in their order, exactly the containers with its key,
-- and none is empty; together the groups hold each container once.
pub record IsPartition (cs : List ContainerInfo) (gs : List GroupedContainers) : Type 0 where
  pub whole : All (λ g. (g.items ≡ filter (in_group g.project) cs) × (g.items ≢ [])) gs
  pub cover : Perm (flat_map (λ g. g.items) gs) cs

non_empty_inv : (xs ys : List ContainerInfo) → some ys ≡ non_empty xs → (ys ≡ xs) × (ys ≢ [])
non_empty_inv [] ys h = cc
non_empty_inv (x ∷ xs) ys h = ground arith

abbrev IsWhole : List ContainerInfo → Text × List ContainerInfo → Type 0
IsWhole cs e = (e.1 ≡ filter (in_group e.0) cs) × (e.1 ≢ [])

All-IsWhole :
    (cs : List ContainerInfo) (m : Groups)
    → All (λ e. get e.0 (place_all cs []) ≡ some e.1) m
    → All (IsWhole cs) m
unfolding get
All-IsWhole cs [] a = tt
All-IsWhole cs (e ∷ m) a =
    (non_empty_inv _ e.1 (sym (a.0) ∙ get-place_all cs e.0 [] refl), All-IsWhole cs m a.1)

All_groups :
    (cs : List ContainerInfo) (m : Groups)
    → All (IsWhole cs) m
    → All (λ g. (g.items ≡ filter (in_group g.project) cs) × (g.items ≢ [])) (map to_group m)
All_groups cs [] a = tt
All_groups cs (e ∷ m) a = (a.0, All_groups cs m a.1)

items-map : (m : Groups) → flat_map (λ g. g.items) (map to_group m) ≡ members m
items-map [] = refl
items-map (e ∷ m) = ap (◌++◌ e.1) (items-map m)

-- For either direction, grouping by compose project gives groups that are not empty and hold, in their
-- order, exactly the containers with their key; together they hold each container once.
pub group_by_compose-IsPartition :
    (cs : List ContainerInfo) (direction : SortDirection)
    → IsPartition cs (group_by_compose cs direction)
unfolding group_by_compose
group_by_compose-IsPartition cs direction =
    let m = place_all cs [] in
    let sorted = sort (entry_by_newest direction) m in
    record {
      whole = All_groups cs sorted (
          sort-All (entry_by_newest direction) (IsWhole cs) m
            (All-IsWhole cs m (IsDict-All_get m (place_all-IsDict cs [] tt))));
      cover = rw (items-map sorted) (
          Perm.trans (flat_map-perm (λ e. e.1) (sort-perm (entry_by_newest direction) m))
            (place_all-perm cs []));
    }

by_newest-IsConsistent : (direction : SortDirection) → IsConsistent (by_newest direction)
by_newest-IsConsistent desc =
    flip-IsConsistent (λ a b. compare (newest a) (newest b))
      (on-IsConsistent compare newest compare-IsConsistent)
by_newest-IsConsistent asc = on-IsConsistent compare newest compare-IsConsistent

-- The groups are in the order of their newest container, in the direction asked for.
pub group_by_compose-IsSorted :
    (cs : List ContainerInfo) (direction : SortDirection)
    → IsSorted (λ g h. by_newest direction g.items h.items) (group_by_compose cs direction)
unfolding group_by_compose
group_by_compose-IsSorted cs direction =
    IsSorted-map (λ g h. by_newest direction g.items h.items) to_group _
      (sort-IsSorted (entry_by_newest direction)
        (on-IsConsistent (by_newest direction) (λ e. e.1) (by_newest-IsConsistent direction))
        (place_all cs []))
