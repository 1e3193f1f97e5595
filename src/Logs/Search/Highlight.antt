-- ===== src/Logs/Search/Highlight.antt =====
-- Highlighting of the search text in a message: the pieces make up the message, and each marked piece
-- is an occurrence of the search text.
use vps_monitor.Common.{
  Bool, ℕ, zero, suc, ◌+◌, ◌<◌, Text, some, List, [], ◌∷◌, ◌++◌, map, true, false, length, take,
  drop, ◌≡◌, refl, sym, ap, ◌∙◌, arith, index_of, starts_with, inl, inr, take-append-drop, All,
  flat_map, length-drop, Option-cases, drop-drop, append-nil, length-map,
}
use vps_monitor.Logs.Search.{Piece, piece, highlight_search_text}

-- The text of the pieces.
abbrev pub joined : List Piece → Text
joined = flat_map (λ p. p.text)

-- `index + search.length` splits the text in three.
three_parts : (i n : ℕ) (t : Text) → take i t ++ (take n (drop i t) ++ drop (i + n) t) ≡ t
three_parts i n t =
    ap (λ r. take i t ++ (take n (drop i t) ++ r)) (sym (drop-drop n i t))
    ∙ ap (λ r. take i t ++ r) (take-append-drop n (drop i t))
    ∙ take-append-drop i t

-- A message in which the term is found is cut in three.
found :
    (to_lower : Text → Text) (c d i : ℕ) (term text : Text) (fuel : ℕ) (pieces : List Piece)
    → index_of (to_lower (d ∷ text)) (to_lower (c ∷ term)) ≡ some i
    → highlight_search_text to_lower (c ∷ term) fuel (drop (i + length (c ∷ term)) (d ∷ text))
      ≡ some pieces
    → highlight_search_text to_lower (c ∷ term) (suc fuel) (d ∷ text)
      ≡ some (
          piece false (take i (d ∷ text))
          ∷ piece true (take (length (c ∷ term)) (drop i (d ∷ text)))
          ∷ pieces)
unfolding highlight_search_text
found to_lower c d i term text fuel pieces e r = rw (e, r) refl

-- With fuel for one call more than the message is long, highlighting ends, and the pieces joined are
-- the message: nothing of it is lost, repeated or changed.
pub joined-highlight_search_text :
    (to_lower : Text → Text) (term text : Text) (fuel : ℕ)
    → length text < fuel
    → (pieces : List Piece) × (highlight_search_text to_lower term fuel text ≡ some pieces)
      × (joined pieces ≡ text)
joined-highlight_search_text to_lower term text zero h = absurd (omega arith)
joined-highlight_search_text to_lower [] text (suc fuel) h =
    (piece false text ∷ [], unfold highlight_search_text in refl, append-nil text)
joined-highlight_search_text to_lower (c ∷ term) [] (suc fuel) h =
    (piece false [] ∷ [], unfold highlight_search_text in refl, refl)
joined-highlight_search_text to_lower (c ∷ term) (d ∷ text) (suc fuel) h =
    elim (Option-cases (index_of (to_lower (d ∷ text)) (to_lower (c ∷ term)))) [
      | inl e ↦ (
        piece false (d ∷ text) ∷ [],
        unfold highlight_search_text in rw e refl,
        append-nil (d ∷ text),
      )
      | inr (i, e) ↦
          let n = length (c ∷ term) in
          let shorter : length (drop (i + n) (d ∷ text)) < fuel =
            omega (arith, length-drop (i + n) (d ∷ text)) in
          let (pieces, r, k) =
            joined-highlight_search_text to_lower (c ∷ term) (drop (i + n) (d ∷ text)) fuel
              shorter in
          (
            piece false (take i (d ∷ text)) ∷ piece true (take n (drop i (d ∷ text))) ∷ pieces,
            found to_lower c d i term text fuel pieces e r,
            ap (λ w. take i (d ∷ text) ++ (take n (drop i (d ∷ text)) ++ w)) k
                ∙ three_parts i n (d ∷ text),
          )
    ]

take-starts_with : (s p : Text) → starts_with s p ≡ true → take (length p) s ≡ p
unfolding starts_with
take-starts_with s [] h = refl
take-starts_with [] (d ∷ p) h = cc
take-starts_with (c ∷ s) (d ∷ p) h = ground (arith, take-starts_with s p)

-- What stands at the index that `index_of` finds.
take-index_of : (s p : Text) (i : ℕ) → index_of s p ≡ some i → take (length p) (drop i s) ≡ p
unfolding index_of
take-index_of [] p zero h = ground (arith, take-starts_with [] p)
take-index_of [] p (suc i) h = ground arith
take-index_of (c ∷ s) p zero h = elim (Option-cases (index_of s p)) [
  | inl e ↦ ground (arith, take-starts_with (c ∷ s) p, e)
  | inr (j, e) ↦ ground (arith, take-starts_with (c ∷ s) p, e)
]
take-index_of (c ∷ s) p (suc i) h = elim (Option-cases (index_of s p)) [
  | inl e ↦ ground (arith, e)
  | inr (j, e) ↦ ground (arith, take-index_of s p i, e)
]

map-take {ℓ κ} :
    {A : Type ℓ} {B : Type κ} (f : A → B) (n : ℕ) (xs : List A)
    → map f (take n xs) ≡ take n (map f xs)
map-take f zero xs = refl
map-take f (suc n) [] = refl
map-take f (suc n) (x ∷ xs) = ap (◌∷◌ (f x)) (map-take f n xs)

map-drop {ℓ κ} :
    {A : Type ℓ} {B : Type κ} (f : A → B) (n : ℕ) (xs : List A)
    → map f (drop n xs) ≡ drop n (map f xs)
map-drop f zero xs = refl
map-drop f (suc n) [] = refl
map-drop f (suc n) (x ∷ xs) = map-drop f n xs

module _ (lower : ℕ → ℕ) where
  -- A marked text is the term, but for the case.
  abbrev pub IsMarked : Bool → Text → Text → Type 0
  IsMarked true text term = map lower text ≡ map lower term
  IsMarked false text term = Unit

  abbrev pub IsOccurrence : Text → Piece → Type 0
  IsOccurrence term p = IsMarked p.marked p.text term

  occurrence :
      (i : ℕ) (term text : Text)
      → index_of (map lower text) (map lower term) ≡ some i
      → map lower (take (length term) (drop i text)) ≡ map lower term
  occurrence i term text h =
      map-take lower (length term) (drop i text)
      ∙ ap (take (length term)) (map-drop lower i text)
      ∙ ap (λ n. take n (drop i (map lower text))) (sym (length-map lower term))
      ∙ take-index_of (map lower text) (map lower term) i h

  -- Where lower case maps each code unit, what is marked in the pieces is the search text, but for the
  -- case.
  pub All-highlight_search_text :
      (term text : Text) (fuel : ℕ) (pieces : List Piece)
      → highlight_search_text (map lower) term fuel text ≡ some pieces
      → All (IsOccurrence term) pieces
  All-highlight_search_text term text zero pieces h = unfold highlight_search_text in cc
  All-highlight_search_text [] text (suc fuel) pieces h =
      let e : pieces ≡ piece false text ∷ [] = unfold highlight_search_text in ground arith in
      rw e (tt, tt)
  All-highlight_search_text (c ∷ term) [] (suc fuel) pieces h =
      let e : pieces ≡ piece false [] ∷ [] = unfold highlight_search_text in ground arith in
      rw e (tt, tt)
  All-highlight_search_text (c ∷ term) (d ∷ text) (suc fuel) pieces h =
      elim (Option-cases (index_of (map lower (d ∷ text)) (map lower (c ∷ term)))) [
        | inl n ↦
            let e : pieces ≡ piece false (d ∷ text) ∷ [] =
              unfold highlight_search_text in ground (arith, n) in
            rw e (tt, tt)
        | inr (i, n) ↦
            let rest = drop (i + length (c ∷ term)) (d ∷ text) in
            elim (Option-cases (highlight_search_text (map lower) (c ∷ term) fuel rest)) [
              | inl r ↦ unfold highlight_search_text in ground (arith, n, r)
              | inr (more, r) ↦
                  let e : pieces
                      ≡ piece false (take i (d ∷ text))
                        ∷ piece true (take (length (c ∷ term)) (drop i (d ∷ text)))
                        ∷ more =
                    unfold highlight_search_text in ground (arith, n, r) in
                  rw e (
                    tt,
                    (
                      occurrence i (c ∷ term) (d ∷ text) n,
                      All-highlight_search_text (c ∷ term) rest fuel more r,
                    ),
                  )
            ]
      ]
