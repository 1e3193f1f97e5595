-- ===== src/Logs/Search/Matches.antt =====
-- The matches of the search and the navigation between them.
use vps_monitor.Common.{
  or_text, if_holds, fun_ext, Bool, includes, inr, inl, leb, Bool-cases, if◌then◌else◌, ℕ, zero,
  suc, ◌+◌, ◌-◌, ◌<◌, ◌≤◌, Text, truthy, some, List, [], ◌∷◌, ◌++◌, map, filter, length, get_elem?,
  ◌≡◌, ◌≢◌, refl, ap, ◌∙◌, arith, length-append, append_assoc,
}
use vps_monitor.Logs.{LogEntry}
use vps_monitor.Logs.Search.{
  Viewer, next, previous, is_match, matches_from, search_matches, filtered_logs, handle, next_index,
  previous_index,
}

get_elem?-append {ℓ} :
    {A : Type ℓ} (xs : List A) (y : A) (ys : List A) → get_elem? (xs ++ y ∷ ys) (length xs) ≡ some y
get_elem?-append [] y ys = refl
get_elem?-append (x ∷ xs) y ys = get_elem?-append xs y ys

matches_from_lem :
    (to_lower : Text → Text) (search : Text) (before entries : List LogEntry)
    → map (get_elem? (before ++ entries)) (matches_from to_lower search (length before) entries)
      ≡ map some (filter (is_match to_lower search) entries)
unfolding matches_from
matches_from_lem to_lower search before [] = refl
matches_from_lem to_lower search before (e ∷ es) =
    let step : map (get_elem? (before ++ e ∷ es))
          (matches_from to_lower search (suc (length before)) es)
        ≡ map some (filter (is_match to_lower search) es) =
      let n : length (before ++ e ∷ []) ≡ suc (length before) =
        omega (arith, length-append before (e ∷ [])) in
      rw (← n, ← append_assoc before (e ∷ []) es)
        (matches_from_lem to_lower search (before ++ e ∷ []) es) in
    ground (arith, step, get_elem?-append before e es)

-- The text of an entry: its message, or where that is empty the line as it came.
abbrev pub text_of : Text → Text → Text
text_of [] raw = raw
text_of (c ∷ message) raw = c ∷ message

-- The search text stands in the entry's, whatever the case.
abbrev pub mentions : (Text → Text) → Text → LogEntry → Bool
mentions to_lower search e = includes (to_lower (text_of e.message e.raw)) (to_lower search)

mentions_lem :
    (to_lower : Text → Text) (search message raw : Text)
    → includes (to_lower (or_text message raw)) (to_lower search)
      ≡ includes (to_lower (text_of message raw)) (to_lower search)
mentions_lem to_lower search [] raw = refl
mentions_lem to_lower search (c ∷ message) raw = refl

is_match-mentions :
    (to_lower : Text → Text) (search : Text) → is_match to_lower search ≡ mentions to_lower search
unfolding is_match
is_match-mentions to_lower search = fun_ext (λ e. mentions_lem to_lower search e.message e.raw)

-- Each position is the given one or later, and later than the one before it.
abbrev pub AreAscending : ℕ → List ℕ → Type 0
AreAscending n [] = Unit
AreAscending n (i ∷ is) = (n ≤ i) × AreAscending (suc i) is

AreAscending-later : (n m : ℕ) (is : List ℕ) → n ≤ m → AreAscending m is → AreAscending n is
AreAscending-later n m [] le h = tt
AreAscending-later n m (i ∷ is) le h = (omega (arith, le, h.0), h.1)

matches_from-AreAscending :
    (to_lower : Text → Text) (search : Text) (n : ℕ) (entries : List LogEntry)
    → AreAscending n (matches_from to_lower search n entries)
unfolding matches_from
matches_from-AreAscending to_lower search n [] = tt
matches_from-AreAscending to_lower search n (e ∷ es) =
    let rest = matches_from-AreAscending to_lower search (suc n) es in
    if_holds (AreAscending n) (is_match to_lower search e) (λ _. (omega arith, rest))
      (λ _.
        AreAscending-later n (suc n) (matches_from to_lower search (suc n) es) (omega arith) rest)

-- The matches are the positions of the shown entries that mention the search text, each once and in order:
-- they ascend, what stands at them is exactly those entries, and an empty search has no match.
pub search_matches_lem :
    (to_lower : Text → Text) (s : Viewer)
    → AreAscending 0 (search_matches to_lower s)
      × (map (get_elem? (filtered_logs s)) (search_matches to_lower s) ≡ (
          if truthy s.search_text
          then map some (filter (mentions to_lower s.search_text) (filtered_logs s))
          else []))
unfolding search_matches
search_matches_lem to_lower s = (
  if_holds (AreAscending 0) (truthy s.search_text)
      (λ _. matches_from-AreAscending to_lower s.search_text 0 (filtered_logs s)) (λ _. tt),
  rw (← is_match-mentions to_lower s.search_text)
      (ground (arith, matches_from_lem to_lower s.search_text [] (filtered_logs s))),
)

get_elem?-lt {ℓ} :
    {A : Type ℓ} (xs : List A) (i : ℕ) → i < length xs → (x : A) × (get_elem? xs i ≡ some x)
get_elem?-lt [] i h = absurd (omega arith)
get_elem?-lt (x ∷ xs) zero h = (x, refl)
get_elem?-lt (x ∷ xs) (suc i) h = get_elem?-lt xs i (omega arith)

module _ (to_lower : Text → Text) where
  current-next :
      (s : Viewer)
      → length (search_matches to_lower s) ≢ 0
      → (handle to_lower next s).current_match_index
        ≡ next_index (length (search_matches to_lower s)) s.current_match_index
  unfolding handle
  current-next s h = ground arith

  current-previous :
      (s : Viewer)
      → length (search_matches to_lower s) ≢ 0
      → (handle to_lower previous s).current_match_index
        ≡ previous_index (length (search_matches to_lower s)) s.current_match_index
  unfolding handle
  current-previous s h = ground arith

  -- Navigation does not change the matches.
  search_matches-next :
      (s : Viewer) → search_matches to_lower (handle to_lower next s) ≡ search_matches to_lower s
  unfolding handle search_matches filtered_logs
  search_matches-next s = ground arith

  search_matches-previous :
      (s : Viewer)
      → search_matches to_lower (handle to_lower previous s) ≡ search_matches to_lower s
  unfolding handle search_matches filtered_logs
  search_matches-previous s = ground arith

  -- From a current match, the previous match of the next one and the next match of the previous one
  -- are the current match again, also around the ends.
  pub previous_next :
      (s : Viewer)
      → s.current_match_index < length (search_matches to_lower s)
      → ((handle to_lower previous (handle to_lower next s)).current_match_index
          ≡ s.current_match_index)
        × ((handle to_lower next (handle to_lower previous s)).current_match_index
            ≡ s.current_match_index)
  unfolding next_index previous_index
  previous_next s h = ground (
    arith,
    current-previous (handle to_lower next s),
    current-next (handle to_lower previous s),
    current-next s,
    current-previous s,
    search_matches-next s,
    search_matches-previous s,
  )

  -- Whatever the current index, where there is a match the next one is a match: the new index is in
  -- range and the list is scrolled to the entry at it.
  pub handle-next :
      (s : Viewer)
      → length (search_matches to_lower s) ≢ 0
      → ((handle to_lower next s).current_match_index < length (search_matches to_lower s))
        × ((i : ℕ) × (get_elem?
                (search_matches to_lower s)
                (handle to_lower next s).current_match_index
              ≡ some i)
            × ((handle to_lower next s).scrolled_to ≡ s.scrolled_to ++ some i ∷ []))
  unfolding handle next_index
  handle-next s h =
      let n = length (search_matches to_lower s) in
      let lt : next_index n s.current_match_index < n = ground arith in
      let (i, e) =
        get_elem?-lt (search_matches to_lower s) (next_index n s.current_match_index) lt in
      ground (arith, lt, e)

  -- The next match, several times.
  abbrev pub presses : ℕ → Viewer → Viewer
  presses zero s = s
  presses (suc k) s = presses k (handle to_lower next s)

  current-presses :
      (k : ℕ) (s : Viewer)
      → s.current_match_index + k < length (search_matches to_lower s)
      → (presses k s).current_match_index ≡ s.current_match_index + k
  unfolding next_index
  current-presses zero s h = omega arith
  current-presses (suc k) s h =
      ground
        (arith, current-presses k (handle to_lower next s), current-next s, search_matches-next s)

  presses-add : (j k : ℕ) (s : Viewer) → presses (j + k) s ≡ presses k (presses j s)
  presses-add zero k s = let e : 0 + k ≡ k = omega arith in ap (λ n. presses n s) e
  presses-add (suc j) k s =
      let e : suc j + k ≡ suc (j + k) = omega arith in
      ap (λ n. presses n s) e ∙ presses-add j k (handle to_lower next s)

  search_matches-presses :
      (k : ℕ) (s : Viewer) → search_matches to_lower (presses k s) ≡ search_matches to_lower s
  search_matches-presses zero s = refl
  search_matches-presses (suc k) s =
      search_matches-presses k (handle to_lower next s) ∙ search_matches-next s

  -- From the last match the next one is the first.
  next_last :
      (s : Viewer)
      → s.current_match_index + 1 ≡ length (search_matches to_lower s)
      → (handle to_lower next s).current_match_index ≡ 0
  unfolding next_index
  next_last s h = ground (arith, current-next s)

  presses_around :
      (j k : ℕ) (s : Viewer)
      → s.current_match_index + j + 1 ≡ length (search_matches to_lower s)
      → k < length (search_matches to_lower s)
      → (presses (j + suc k) s).current_match_index ≡ k
  presses_around j k s h hk = ground (
    arith,
    presses-add j (suc k) s,
    current-presses j s,
    search_matches-presses j s,
    search_matches-next (presses j s),
    next_last (presses j s),
    current-presses k (handle to_lower next (presses j s)),
  )

  -- From a current match, every match is reached by going to the next match at most as often as there
  -- are matches.
  pub presses_reach :
      (s : Viewer) (i : ℕ)
      → s.current_match_index < length (search_matches to_lower s)
      → i < length (search_matches to_lower s)
      → (k : ℕ) × (k ≤ length (search_matches to_lower s)) × ((presses k s).current_match_index ≡ i)
  presses_reach s i h hi =
      let n = length (search_matches to_lower s) in
      let c = s.current_match_index in
      elim (Bool-cases (leb c i)) [
        | inl e ↦ (i - c, omega arith, ground (arith, current-presses (i - c) s))
        | inr e ↦
            let le : i < c = ground arith in
            ((n - 1 - c) + suc i, omega arith, presses_around (n - 1 - c) i s (omega arith) hi)
      ]
