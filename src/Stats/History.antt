-- ===== src/Stats/History.antt =====
-- The history holds the last statistics received.
use vps_monitor.Common.{
  inr, inl, leb, Bool-cases, drop-nil, ℕ, zero, suc, ◌-◌, ◌≤◌, ◌+◌, Option, none, some, List, [],
  ◌∷◌, ◌++◌, length, drop, ◌≡◌, ◌≢◌, refl, sym, ap, ◌∙◌, arith, length-append, length-drop,
  drop-drop,
}
use vps_monitor.Stats.{
  Event, Connection, pushed, connected, Socket, handle, handle_events, connect, clear_history,
  message, slice_last,
}

module _ {ℓ} {Stats : Type ℓ} where
  -- The last elements, at most as many as the limit.
  abbrev pub last : ℕ → List Stats → List Stats
  last n xs = drop (length xs - n) xs

  abbrev pub receive : Event Stats → List Stats → List Stats
  receive (message (some item)) before = before ++ item ∷ []
  receive clear_history before = []
  receive _ before = before

  -- The statistics received since the history was cleared last, after the ones before.
  abbrev pub received : List (Event Stats) → List Stats → List Stats
  received [] before = before
  received (e ∷ es) before = received es (receive e before)

  history-connect : (o : Option Socket) (s : Connection Stats) → (connected o s).history ≡ s.history
  unfolding connected
  history-connect none s = refl
  history-connect (some w) s = ground arith

  drop-append_le :
      (k : ℕ) (xs ys : List Stats) → k ≤ length xs → drop k (xs ++ ys) ≡ drop k xs ++ ys
  drop-append_le zero xs ys h = refl
  drop-append_le (suc k) [] ys h = absurd (omega arith)
  drop-append_le (suc k) (x ∷ xs) ys h = drop-append_le k xs ys (omega arith)

  pushed_short :
      (n : ℕ) (x : Stats) (xs : List Stats)
      → length xs + 1 ≤ n
      → pushed n x (last n xs) ≡ last n (xs ++ x ∷ [])
  unfolding pushed slice_last
  pushed_short n x xs h =
      let all : length xs - n ≡ 0 = omega arith in
      let more : length (xs ++ x ∷ []) - n ≡ 0 = omega (arith, length-append xs (x ∷ [])) in
      rw (all, more) (ground (arith, length-append xs (x ∷ [])))

  pushed_full :
      (n : ℕ) (x : Stats) (xs : List Stats)
      → n ≢ 0
      → n ≤ length xs
      → pushed n x (last n xs) ≡ last n (xs ++ x ∷ [])
  unfolding pushed slice_last
  pushed_full n x xs h le =
      let k = length xs - n in
      let kept : drop k xs ++ x ∷ [] ≡ drop k (xs ++ x ∷ []) =
        sym (drop-append_le k xs (x ∷ []) (omega arith)) in
      let size : length (drop k xs ++ x ∷ []) ≡ n + 1 =
        omega (arith, length-append (drop k xs) (x ∷ []), length-drop k xs) in
      let one : n + 1 - n ≡ 1 = omega arith in
      let next : length (xs ++ x ∷ []) - n ≡ k + 1 = omega (arith, length-append xs (x ∷ [])) in
      let sliced : drop (length (drop k xs ++ x ∷ []) - n) (drop k xs ++ x ∷ [])
          ≡ drop (length (xs ++ x ∷ []) - n) (xs ++ x ∷ []) =
        ap (λ m. drop (m - n) (drop k xs ++ x ∷ [])) size
        ∙ ap (λ m. drop m (drop k xs ++ x ∷ [])) one
        ∙ ap (drop 1) kept
        ∙ drop-drop 1 k (xs ++ x ∷ [])
        ∙ ap (λ m. drop m (xs ++ x ∷ [])) (sym next) in
      ground (arith, size, sliced)

  -- Keeping the last of the kept ones and a new one keeps the last of all.
  pushed-last :
      (n : ℕ) (x : Stats) (xs : List Stats) → n ≢ 0 → pushed n x (last n xs) ≡ last n (xs ++ x ∷ [])
  pushed-last n x xs h = elim (Bool-cases (leb n (length xs))) [
    | inl le ↦ pushed_full n x xs h (ground arith)
    | inr gt ↦ pushed_short n x xs (ground arith)
  ]

  history-handle :
      (n : ℕ) (i : Event Stats) (before : List Stats) (s : Connection Stats)
      → n ≢ 0
      → s.history ≡ last n before
      → (handle n i s).history ≡ last n (receive i before)
  unfolding handle
  history-handle n (message (some item)) before s h e =
      ap (pushed n item) e ∙ pushed-last n item before h
  history-handle n clear_history before s h e = sym (drop-nil (0 - n))
  history-handle n connect before s h e = history-connect s.socket s ∙ e
  history-handle n i before s h e = e

  -- If the limit is not 0 and the history is the last of some statistics, at most as many as the
  -- limit, then after any events it is the last of those statistics and the ones received since, or
  -- of the ones received since the history was cleared last, at most as many as the limit.
  pub history-handle_events :
      (n : ℕ) (es : List (Event Stats)) (before : List Stats) (s : Connection Stats)
      → n ≢ 0
      → s.history ≡ last n before
      → (handle_events n es s).history ≡ last n (received es before)
  history-handle_events n [] before s h e = e
  history-handle_events n (i ∷ es) before s h e =
      history-handle_events n es (receive i before) (handle n i s) h
        (history-handle n i before s h e)
