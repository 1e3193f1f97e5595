-- ===== src/Logs/Stream/Split.antt =====
-- Splitting a text piece by piece: what the buffer carries over.
use mathlib.Core.List.{append_cancel_left}
use vps_monitor.Common.{
  append-nil, ℕ, Text, starts_with, List, [], ◌∷◌, ◌++◌, Bool, true, false, ◌&&◌, ◌==◌, ◌≡◌, ◌≢◌,
  refl, sym, ap, ◌∙◌, arith, inl, inr, Bool-cases,
}
use vps_monitor.Logs.Stream.{cons_head, split, pop}

-- There is always a first line.
pub split-cons : (crlf : Bool) (s : Text) → (l : Text) × (ls : List Text) × (split crlf s ≡ l ∷ ls)
unfolding split
split-cons crlf [] = ([], [], refl)
split-cons crlf (c ∷ s) =
    let (l, ls, e) = split-cons crlf s in
    elim (Bool-cases (c == 10)) [
      | inl end ↦ ([], split crlf s, rw end refl)
      | inr other ↦ elim (Bool-cases (crlf && c == 13 && starts_with s (10 ∷ []))) [
        | inl return ↦ (l, ls, rw (other, return) e)
        | inr inside ↦ (c ∷ l, ls, rw (other, inside, e) refl)
      ]
    ]

-- A text that starts with a line feed has an empty first line, and another one.
split_feed : (crlf : Bool) (s l : Text) → starts_with s (10 ∷ []) ≡ true → split crlf s ≢ l ∷ []
unfolding split starts_with
split_feed crlf [] l h e = cc
split_feed crlf (c ∷ s) l h e = let (m, ms, k) = split-cons crlf s in ground arith

-- A text without a line end is its only line.
split_one : (crlf : Bool) (s l : Text) → split crlf s ≡ l ∷ [] → s ≡ l
unfolding split
split_one crlf [] l h = ground arith
split_one crlf (c ∷ s) l h =
    let (m, ms, k) = split-cons crlf s in ground (arith, split_one crlf s m, split_feed crlf s l)

pop-cons : (l : Text) (ls : List Text) → ls ≢ [] → pop (l ∷ ls) ≡ (l ∷ (pop ls).0, (pop ls).1)
unfolding pop
pop-cons l [] h = absurd (h refl)
pop-cons l (m ∷ ls) h = refl

module _ (crlf : Bool) (c : ℕ) (s : Text) where
  split_end : (c == 10) ≡ true → split crlf (c ∷ s) ≡ [] ∷ split crlf s
  unfolding split
  split_end end = rw end refl

  split_return :
      (c == 10) ≡ false
      → (crlf && c == 13 && starts_with s (10 ∷ [])) ≡ true
      → split crlf (c ∷ s) ≡ split crlf s
  unfolding split
  split_return other return = rw (other, return) refl

  split_inside :
      (c == 10) ≡ false
      → (crlf && c == 13 && starts_with s (10 ∷ [])) ≡ false
      → split crlf (c ∷ s) ≡ cons_head c (split crlf s)
  unfolding split
  split_inside other inside = rw (other, inside) refl

module _ (crlf : Bool) (t : Text) where
  -- What splitting says when the text is continued.
  abbrev Continues : Text → Type 0
  Continues s =
      split crlf (s ++ t) ≡ (pop (split crlf s)).0 ++ split crlf ((pop (split crlf s)).1 ++ t)

  Continues-end : (c : ℕ) (s : Text) → (c == 10) ≡ true → Continues s → Continues (c ∷ s)
  Continues-end c s end ih =
      let (l, ls, e) = split-cons crlf s in
      let more : split crlf s ≢ [] = λ k. cc in
      rw (split_end crlf c s end, split_end crlf c (s ++ t) end, pop-cons [] (split crlf s) more)
        (ap (◌∷◌ []) ih)

  Continues-return :
      (c x : ℕ) (s : Text)
      → (c == 10) ≡ false
      → (crlf && c == 13 && starts_with (x ∷ s) (10 ∷ [])) ≡ true
      → Continues (x ∷ s)
      → Continues (c ∷ x ∷ s)
  unfolding starts_with
  Continues-return c x s other return ih =
      rw (split_return crlf c (x ∷ s) other return, split_return crlf c (x ∷ (s ++ t)) other return)
        ih

  Continues-inside :
      (c x : ℕ) (s l : Text) (ls : List Text)
      → (c == 10) ≡ false
      → (crlf && c == 13 && starts_with (x ∷ s) (10 ∷ [])) ≡ false
      → split crlf (x ∷ s) ≡ l ∷ ls
      → Continues (x ∷ s)
      → Continues (c ∷ x ∷ s)
  unfolding starts_with pop
  Continues-inside c x s l [] other inside e ih =
      let same = split_one crlf (x ∷ s) l e in
      rw (split_inside crlf c (x ∷ s) other inside, e, ← same) refl
  Continues-inside c x s l (m ∷ ls) other inside e ih =
      rw
        (
          split_inside crlf c (x ∷ s) other inside,
          split_inside crlf c (x ∷ (s ++ t)) other inside,
          ih,
          e,
        )
        refl

-- The lines of a text are those that end in its first part, and those of what was left over followed
-- by its second part.
pub split-append :
    (crlf : Bool) (s t : Text)
    → split crlf (s ++ t) ≡ (pop (split crlf s)).0 ++ split crlf ((pop (split crlf s)).1 ++ t)
split-append crlf [] t = unfold split pop in refl
split-append crlf (c ∷ []) t = unfold split pop starts_with in ground arith
split-append crlf (c ∷ x ∷ s) t =
    let (l, ls, e) = split-cons crlf (x ∷ s) in
    let ih = split-append crlf (x ∷ s) t in
    elim (Bool-cases (c == 10)) [
      | inl end ↦ Continues-end crlf t c (x ∷ s) end ih
      | inr other ↦ elim (Bool-cases (crlf && c == 13 && starts_with (x ∷ s) (10 ∷ []))) [
        | inl return ↦ Continues-return crlf t c x s other return ih
        | inr inside ↦ Continues-inside crlf t c x s l ls other inside e ih
      ]
    ]

pop-append : (ls : List Text) → ls ≢ [] → (pop ls).0 ++ (pop ls).1 ∷ [] ≡ ls
unfolding pop
pop-append [] h = absurd (h refl)
pop-append (l ∷ []) h = refl
pop-append (l ∷ m ∷ ls) h = ap (◌∷◌ l) (pop-append (m ∷ ls) (λ e. cc))

-- What is left over holds no line end.
pub split_last :
    (crlf : Bool) (s : Text) → split crlf (pop (split crlf s)).1 ≡ (pop (split crlf s)).1 ∷ []
split_last crlf s =
    let (l, ls, e) = split-cons crlf s in
    let more : split crlf s ≢ [] = λ k. cc in
    append_cancel_left (pop (split crlf s)).0 _ _ (
      ap (λ r. (pop (split crlf s)).0 ++ split crlf r) (sym (append-nil (pop (split crlf s)).1))
      ∙ sym (split-append crlf s [])
      ∙ ap (split crlf) (append-nil s)
      ∙ sym (pop-append (split crlf s) more))

append_ne_nil : (xs ys : List Text) → ys ≢ [] → xs ++ ys ≢ []
append_ne_nil [] ys h = h
append_ne_nil (x ∷ xs) ys h = λ e. cc

pub split-ne-nil : (crlf : Bool) (s : Text) → split crlf s ≢ []
split-ne-nil crlf s = let (l, ls, e) = split-cons crlf s in λ k. cc

pub pop-append_right :
    (xs ys : List Text) → ys ≢ [] → pop (xs ++ ys) ≡ (xs ++ (pop ys).0, (pop ys).1)
pop-append_right [] ys h = refl
pop-append_right (x ∷ xs) ys h =
    let more : xs ++ ys ≢ [] = append_ne_nil xs ys h in
    pop-cons x (xs ++ ys) more ∙ ap (λ r. (x ∷ r.0, r.1)) (pop-append_right xs ys h)
