-- ===== src/Scanner/Export.antt =====
-- The CSV export of frontend/src/features/scanner/components/scan-results-export.tsx.
use vps_monitor.Common.{
  drop, ◌<◌, ℕ, zero, suc, Text, codes, or_else, List, [], ◌∷◌, ◌++◌, map, Bool, true, false, ◌||◌,
  if◌then◌else◌, ◌==◌, length, ◌≡◌, refl, ap, ◌∙◌, arith, append_assoc, starts_with,
}
use vps_monitor.Scanner.{Vulnerability, severity_text}

-- `/^[=+\-@\t]/`.
unfoldable pub is_formula : Text → Bool
is_formula [] = false
is_formula (c ∷ s) = c == 61 || c == 43 || c == 45 || c == 64 || c == 9

unfoldable pub guarded : Text → Text
unfolding is_formula
guarded s = if is_formula s then 39 ∷ s else s

-- `str.replace(/"/g, '""')`.
unfoldable pub doubled : Text → Text
doubled [] = []
doubled (c ∷ s) = if c == 34 then 34 ∷ 34 ∷ doubled s else c ∷ doubled s

unfoldable pub csv_cell : Text → Text
unfolding guarded doubled
csv_cell s = 34 ∷ (doubled (guarded s) ++ 34 ∷ [])

-- `texts.join(c)`, for one code unit.
unfoldable pub join : ℕ → List Text → Text
join c [] = []
join c (s ∷ []) = s
join c (s ∷ t ∷ ts) = s ++ c ∷ join c (t ∷ ts)

unfoldable pub csv_row : List Text → Text
unfolding csv_cell join
csv_row cells = join 44 (map csv_cell cells)

abbrev pub headers : List Text
headers =
    codes "CVE ID"
    ∷ codes "Severity"
    ∷ codes "Package"
    ∷ codes "Installed Version"
    ∷ codes "Fixed Version"
    ∷ []

abbrev pub row_of : Vulnerability → List Text
row_of v =
    v.id
    ∷ severity_text v.severity
    ∷ v.package_name
    ∷ v.installed_version
    ∷ or_else v.fixed_version []
    ∷ []

unfoldable pub csv : List Vulnerability → Text
unfolding csv_row
csv vulnerabilities = join 10 (map csv_row (headers ∷ map row_of vulnerabilities))

-- No exported cell starts like a formula.
pub guarded_safe : (s : Text) → is_formula (guarded s) ≡ false
unfolding guarded is_formula
guarded_safe [] = refl
guarded_safe (c ∷ s) = ground arith

abbrev pub onto : ℕ → Text × Text → Text × Text
onto c (s, rest) = (c ∷ s, rest)

-- A reader of quoted cells, after the first quote: a quote that another follows stands for one, and any
-- other ends the cell. The flag is that a quote was read.
unfoldable pub read_quoted : Bool → Text → Text × Text
read_quoted b [] = ([], [])
read_quoted false (c ∷ s) =
    let quote = read_quoted true s in
    let other = read_quoted false s in if c == 34 then quote else onto c other
read_quoted true (c ∷ s) =
    let more = read_quoted false s in if c == 34 then onto 34 more else ([], c ∷ s)

read_quoted-doubled :
    (s rest : Text)
    → starts_with rest (34 ∷ []) ≡ false
    → read_quoted false (doubled s ++ 34 ∷ rest) ≡ (s, rest)
unfolding read_quoted doubled starts_with
read_quoted-doubled [] [] h = refl
read_quoted-doubled [] (d ∷ rest) h = ground arith
read_quoted-doubled (c ∷ s) rest h = ground (arith, read_quoted-doubled s rest h)

-- A reader of the cells of a row, up to a number of them: cells in quotes, parted by commas.
unfoldable pub read_row : ℕ → Text → List Text × Text
unfolding read_quoted starts_with
read_row zero s = ([], s)
read_row (suc n) s =
    let (cell, rest) = read_quoted false (drop 1 s) in
    let (cells, end) = read_row n (drop 1 rest) in
    if starts_with rest (44 ∷ []) then (cell ∷ cells, end) else (cell ∷ [], rest)

csv_cell_more : (s rest : Text) → csv_cell s ++ rest ≡ 34 ∷ (doubled (guarded s) ++ 34 ∷ rest)
unfolding csv_cell
csv_cell_more s rest = ap (◌∷◌ 34) (append_assoc (doubled (guarded s)) (34 ∷ []) rest)

read_row-csv_cell :
    (n : ℕ) (s rest : Text)
    → starts_with rest (34 ∷ []) ≡ false
    → read_row (suc n) (csv_cell s ++ rest) ≡ (
        if starts_with rest (44 ∷ [])
        then (guarded s ∷ (read_row n (drop 1 rest)).0, (read_row n (drop 1 rest)).1)
        else (guarded s ∷ [], rest))
unfolding read_row
read_row-csv_cell n s rest h =
    rw (csv_cell_more s rest, read_quoted-doubled (guarded s) rest h) refl

-- A reader that goes on for enough cells reads a row back cell by cell, each as it was but for the
-- guard against formulas, whatever quotes, commas and line ends the cells hold; what follows the
-- row is left, if it goes on with neither a quote nor a comma.
pub read_row-csv_row :
    (cell : Text) (cells : List Text) (rest : Text) (n : ℕ)
    → length cells < n
    → starts_with rest (34 ∷ []) ≡ false
    → starts_with rest (44 ∷ []) ≡ false
    → read_row n (csv_row (cell ∷ cells) ++ rest) ≡ (map guarded (cell ∷ cells), rest)
unfolding csv_row join starts_with
read_row-csv_row cell cells rest zero lt q c = absurd (omega arith)
read_row-csv_row cell [] rest (suc n) lt q c = read_row-csv_cell n cell rest q ∙ rw c refl
read_row-csv_row cell (next ∷ cells) rest (suc n) lt q c =
    let tail = csv_row (next ∷ cells) ++ rest in
    let parted : csv_row (cell ∷ next ∷ cells) ++ rest ≡ csv_cell cell ++ 44 ∷ tail =
      append_assoc (csv_cell cell) (44 ∷ csv_row (next ∷ cells)) rest in
    ap (read_row (suc n)) parted
    ∙ read_row-csv_cell n cell (44 ∷ tail) refl
    ∙ ap (λ r. (guarded cell ∷ r.0, r.1)) (read_row-csv_row next cells rest n (omega arith) q c)
