-- ===== src/Logs/Line.antt =====
-- parseContainerLogLine of frontend/src/features/containers/api/get-container-logs.ts: the pattern
-- `^(\d{4}-\d{2}-\d{2}T[0-9:.+\-Z]+)\s+(.*)$` takes as many units of each class as there are, and a rest
-- without line ends.
use vps_monitor.Common.{
  trim_start, ℕ, Text, truthy, Option, none, some, List, [], ◌∷◌, ◌++◌, Bool, true, false, not,
  ◌&&◌, ◌||◌, if◌then◌else◌, ◌==◌, leb, any, All, is_space, ◌≡◌, refl, ap, ◌∙◌, arith, append_assoc,
  ◌⊎◌, inl, inr, if_holds,
}

pub record ParsedContainerLogEntry : Type 0 where
  pub raw : Text
  pub timestamp : Option Text
  pub message : Text

-- `[0-9]`, `[0-9:.+\-Z]`, and the units that `.` does not match.
abbrev pub is_digit : ℕ → Bool
is_digit c = leb 48 c && leb c 57

abbrev pub is_clock : ℕ → Bool
is_clock c = is_digit c || c == 58 || c == 46 || c == 43 || c == 45 || c == 90

abbrev pub is_line_end : ℕ → Bool
is_line_end c = c == 10 || c == 13 || c == 0x2028 || c == 0x2029

-- The longest start of units of a class, and the rest.
unfoldable pub span : (ℕ → Bool) → Text → Text × Text
span p [] = ([], [])
span p (c ∷ s) = let (run, rest) = span p s in if p c then (c ∷ run, rest) else ([], c ∷ s)

-- A date, given as the classes of its units: the rest after it, or none.
abbrev pub date : List (ℕ → Bool)
date =
    is_digit
    ∷ is_digit
    ∷ is_digit
    ∷ is_digit
    ∷ (λ c. c == 45)
    ∷ is_digit
    ∷ is_digit
    ∷ (λ c. c == 45)
    ∷ is_digit
    ∷ is_digit
    ∷ (λ c. c == 84)
    ∷ []

abbrev prefixed : Bool → ℕ → Option (Text × Text) → Option (Text × Text)
prefixed true c (some (start, rest)) = some (c ∷ start, rest)
prefixed _ c _ = none

unfoldable pub cut : List (ℕ → Bool) → Text → Option (Text × Text)
cut [] s = some ([], s)
cut (p ∷ ps) [] = none
cut (p ∷ ps) (c ∷ s) = prefixed (p c) c (cut ps s)

abbrev unmatched : Text → ParsedContainerLogEntry
unmatched line = record { raw = line; timestamp = none; message = line }

-- The time, the white space and the message after a date, if each of the first two is not empty.
abbrev pub matched : Text → Text → Text × Text → ParsedContainerLogEntry
unfolding span is_space
matched line day (time, rest) =
    let (space, message) = span is_space rest in
    if truthy time && truthy space && not (any is_line_end message)
    then record { raw = line; timestamp = some (day ++ time); message = message }
    else unmatched line

abbrev after_date : Text → Option (Text × Text) → ParsedContainerLogEntry
unfolding span matched
after_date line none = unmatched line
after_date line (some (day, rest)) = matched line day (span is_clock rest)

unfoldable pub parse_container_log_line : Text → ParsedContainerLogEntry
unfolding after_date cut
parse_container_log_line line = after_date line (cut date line)

span-append : (p : ℕ → Bool) (s : Text) → (span p s).0 ++ (span p s).1 ≡ s
unfolding span
span-append p [] = refl
span-append p (c ∷ s) = ground (arith, span-append p s)

All-span : (p : ℕ → Bool) (s : Text) → All (λ c. p c ≡ true) (span p s).0
unfolding span
All-span p [] = tt
All-span p (c ∷ s) = ground (arith, All-span p s)

-- A part that was cut off and the rest are the text.
abbrev Joins : Text → Option (Text × Text) → Type 0
Joins s none = Unit
Joins s (some (start, rest)) = start ++ rest ≡ s

prefixed-Joins :
    (b : Bool) (c : ℕ) (s : Text) (o : Option (Text × Text))
    → Joins s o
    → Joins (c ∷ s) (prefixed b c o)
prefixed-Joins true c s none h = tt
prefixed-Joins true c s (some (start, rest)) h = ap (◌∷◌ c) h
prefixed-Joins false c s o h = tt

cut-Joins : (ps : List (ℕ → Bool)) (s : Text) → Joins s (cut ps s)
unfolding cut
cut-Joins [] s = refl
cut-Joins (p ∷ ps) [] = tt
cut-Joins (p ∷ ps) (c ∷ s) = prefixed-Joins (p c) c s (cut ps s) (cut-Joins ps s)

-- An entry of a line: the line as it is, or its time, white space, and its message without line ends.
abbrev pub IsSplit : Text → ParsedContainerLogEntry → Type 0
IsSplit line e =
    (e.raw ≡ line)
    × (((e.timestamp ≡ none) × (e.message ≡ line))
        ⊎ ((time : Text) × ((space : Text) × ((e.timestamp ≡ some time)
                × ((time ++ (space ++ e.message) ≡ line)
                    × ((truthy space ≡ true)
                        × (All (λ c. is_space c ≡ true) space
                            × (any is_line_end e.message ≡ false))))))))

matched-IsSplit :
    (line day time rest : Text)
    → day ++ (time ++ rest) ≡ line
    → IsSplit line (matched line day (time, rest))
unfolding matched
matched-IsSplit line day time rest e =
    let whole = span-append is_space rest in
    let joined : (day ++ time) ++ ((span is_space rest).0 ++ (span is_space rest).1) ≡ line =
      rw whole (append_assoc day time rest ∙ e) in
    if_holds (IsSplit line)
      (truthy time && truthy (span is_space rest).0 && not (any is_line_end (span is_space rest).1))
      (λ t. (
        refl,
        inr (
          day ++ time,
          (
            (span is_space rest).0,
            (refl, (joined, (ground (arith, t), (All-span is_space rest, ground (arith, t))))),
          ),
        ),
      ))
      (λ _. (refl, inl (refl, refl)))

after_date-IsSplit :
    (line : Text) (o : Option (Text × Text)) → Joins line o → IsSplit line (after_date line o)
unfolding after_date
after_date-IsSplit line none h = (refl, inl (refl, refl))
after_date-IsSplit line (some (day, rest)) h =
    matched-IsSplit line day (span is_clock rest).0 (span is_clock rest).1
      (rw (span-append is_clock rest) h)

-- Nothing of a line is lost or made up: an entry keeps its line, and has either no time and the line
-- as its message, or a time, then white space that is not empty, then a message without line ends,
-- which one after the other are the line.
pub parse_container_log_line-IsSplit : (line : Text) → IsSplit line (parse_container_log_line line)
unfolding parse_container_log_line
parse_container_log_line-IsSplit line =
    after_date-IsSplit line (cut date line) (cut-Joins date line)

-- A text whose units are of the classes one by one.
abbrev pub IsOf : List (ℕ → Bool) → Text → Type 0
IsOf [] [] = Unit
IsOf [] (c ∷ s) = ⊥
IsOf (p ∷ ps) [] = ⊥
IsOf (p ∷ ps) (c ∷ s) = (p c ≡ true) × IsOf ps s

cut-append : (ps : List (ℕ → Bool)) (s r : Text) → IsOf ps s → cut ps (s ++ r) ≡ some (s, r)
unfolding cut
cut-append [] [] r h = refl
cut-append [] (c ∷ s) r h = absurd h
cut-append (p ∷ ps) [] r h = absurd h
cut-append (p ∷ ps) (c ∷ s) r h =
    ap (λ b. prefixed b c (cut ps (s ++ r))) h.0 ∙ ap (prefixed true c) (cut-append ps s r h.1)

span_stop :
    (p : ℕ → Bool) (s : Text) (c : ℕ) (r : Text)
    → All (λ d. p d ≡ true) s
    → p c ≡ false
    → span p (s ++ c ∷ r) ≡ (s, c ∷ r)
unfolding span
span_stop p [] c r h e = ground (arith, e)
span_stop p (d ∷ s) c r h e = ground (arith, h.0, span_stop p s c r h.1 e)

span-trim_start : (s : Text) → (span is_space s).1 ≡ trim_start s
unfolding span trim_start
span-trim_start [] = refl
span-trim_start (c ∷ s) = ground (arith, span-trim_start s)

any-trim_start : (p : ℕ → Bool) (s : Text) → any p s ≡ false → any p (trim_start s) ≡ false
unfolding trim_start
any-trim_start p [] h = refl
any-trim_start p (c ∷ s) h = ground (arith, h, any-trim_start p s)

-- A line that docker writes, a date, a time, a space and a message without line ends, is parsed to the date
-- with the time and the message, which loses the white space that it starts with.
pub parse_container_log_line_lem :
    (day time m : Text)
    → IsOf date day
    → All (λ c. is_clock c ≡ true) time
    → truthy time ≡ true
    → any is_line_end m ≡ false
    → parse_container_log_line (day ++ (time ++ 32 ∷ m)) ≡ record {
      raw = day ++ (time ++ 32 ∷ m);
      timestamp = some (day ++ time);
      message = trim_start m;
    }
unfolding parse_container_log_line after_date matched span is_space
parse_container_log_line_lem day time m d t n l =
    let line = day ++ (time ++ 32 ∷ m) in
    ap (after_date line) (cut-append date day (time ++ 32 ∷ m) d)
    ∙ ap (matched line day) (span_stop is_clock time 32 m t refl)
    ∙ ground (arith, n, span-trim_start m, any-trim_start is_line_end m l)
