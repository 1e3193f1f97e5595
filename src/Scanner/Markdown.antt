-- ===== src/Scanner/Markdown.antt =====
-- The Markdown export of frontend/src/features/scanner/components/scan-results-export.tsx, with ScanResult and
-- SeveritySummary of features/scanner/types.ts. The texts of numbers, durations and dates are the
-- runtime's, parameters.
use vps_monitor.Common.{
  ℕ, zero, suc, Text, codes, or_text, or_else, Option, List, [], ◌∷◌, ◌++◌, map, Bool, true, false,
  ◌||◌, if◌then◌else◌, ◌==◌, length, drop, ◌≡◌, refl, ap, ◌∙◌, arith,
}
use vps_monitor.Scanner.{Vulnerability, severity_text}
use vps_monitor.Scanner.Export.{join, onto}

pub record SeveritySummary : Type 0 where
  pub critical : ℕ
  pub high : ℕ
  pub medium : ℕ
  pub low : ℕ
  pub negligible : ℕ
  pub unknown : ℕ
  pub total : ℕ

pub data ScannerType : Type 0 where
  grype trivy : ScannerType

pub record ScanResult : Type 0 where
  pub id : Text
  pub image_ref : Text
  pub host : Text
  pub scanner : ScannerType
  pub vulnerabilities : List Vulnerability
  pub summary : SeveritySummary
  pub started_at : ℕ
  pub completed_at : ℕ
  pub duration_ms : ℕ
  pub error : Option Text

abbrev scanner_text : ScannerType → Text
scanner_text grype = codes "grype"
scanner_text trivy = codes "trivy"

-- A global replacement of a unit by a backslash and the unit.
unfoldable pub preceded : ℕ → Text → Text
preceded d [] = []
preceded d (c ∷ s) = let rest = preceded d s in if c == d then 92 ∷ c ∷ rest else c ∷ rest

-- `ep`.
unfoldable pub escaped : Text → Text
unfolding preceded
escaped s = preceded 124 (preceded 92 s)

unfoldable pub cells_text : List Text → Text
unfolding escaped
cells_text [] = []
cells_text (c ∷ cs) = 32 ∷ (escaped c ++ 32 ∷ 124 ∷ cells_text cs)

-- `| ${ep(...)} | ... |`.
unfoldable pub markdown_row : List Text → Text
unfolding cells_text
markdown_row cells = 124 ∷ cells_text cells

abbrev pub markdown_cells : Vulnerability → List Text
markdown_cells v =
    v.id
    ∷ severity_text v.severity
    ∷ v.package_name
    ∷ v.installed_version
    ∷ or_text (or_else v.fixed_version []) (codes "-")
    ∷ []

module _ (print seconds date : ℕ → Text) where
  abbrev counted : Text → ℕ → Text
  counted label n = codes "| " ++ (label ++ (codes " | " ++ (print n ++ codes " |")))

  unfoldable pub markdown : ScanResult → Text
  unfolding markdown_row
  markdown r = join 10 (
      (codes "# Vulnerability Scan Report"
        ∷ []
        ∷ (codes "**Image:** " ++ r.image_ref)
        ∷ (codes "**Host:** " ++ r.host)
        ∷ (codes "**Scanner:** " ++ scanner_text r.scanner)
        ∷ (codes "**Duration:** " ++ (seconds r.duration_ms ++ codes "s"))
        ∷ (codes "**Date:** " ++ date r.completed_at)
        ∷ []
        ∷ codes "## Summary"
        ∷ []
        ∷ codes "| Severity | Count |"
        ∷ codes "|----------|-------|"
        ∷ counted (codes "Critical") r.summary.critical
        ∷ counted (codes "High") r.summary.high
        ∷ counted (codes "Medium") r.summary.medium
        ∷ counted (codes "Low") r.summary.low
        ∷ counted (codes "Negligible") r.summary.negligible
        ∷ counted (codes "Unknown") r.summary.unknown
        ∷ (codes "| **Total** | **" ++ (print r.summary.total ++ codes "** |"))
        ∷ []
        ∷ codes "## Vulnerabilities"
        ∷ []
        ∷ codes "| CVE ID | Severity | Package | Installed | Fixed In |"
        ∷ codes "|--------|----------|---------|-----------|----------|"
        ∷ [])
      ++ map (λ v. markdown_row (markdown_cells v)) r.vulnerabilities)

-- A reader of table cells: a backslash gives the next unit, and a bar ends the cell. The flag is that a
-- backslash was read.
unfoldable pub read_bar : Bool → Text → Text × Text
read_bar b [] = ([], [])
read_bar true (c ∷ s) = onto c (read_bar false s)
read_bar false (c ∷ s) =
    let next = read_bar true s in
    let more = read_bar false s in
    if c == 92 then next else if c == 124 then ([], s) else onto c more

unfoldable pub read_bars : ℕ → Text → List Text × Text
unfolding read_bar
read_bars zero s = ([], s)
read_bars (suc n) s =
    let (cell, rest) = read_bar false s in
    let (cells, end) = read_bars n rest in (cell ∷ cells, end)

-- What a cell is escaped to, unit by unit.
abbrev escapes : Text → Text
escapes [] = []
escapes (c ∷ s) = if c == 92 || c == 124 then 92 ∷ c ∷ escapes s else c ∷ escapes s

escaped_lem : (s : Text) → escaped s ≡ escapes s
unfolding escaped preceded
escaped_lem [] = refl
escaped_lem (c ∷ s) = ground (arith, escaped_lem s)

read_bar-escapes :
    (s rest : Text) → read_bar false (escapes s ++ 32 ∷ 124 ∷ rest) ≡ (s ++ 32 ∷ [], rest)
unfolding read_bar
read_bar-escapes [] rest = refl
read_bar-escapes (c ∷ s) rest = ground (arith, read_bar-escapes s rest)

abbrev pub padded : Text → Text
padded s = 32 ∷ (s ++ 32 ∷ [])

read_bar-cell :
    (c rest : Text) → read_bar false (32 ∷ (escaped c ++ 32 ∷ 124 ∷ rest)) ≡ (padded c, rest)
unfolding read_bar
read_bar-cell c rest = ground (arith, escaped_lem c, read_bar-escapes c rest)

read_bars-cells_text :
    (cells : List Text) → read_bars (length cells) (cells_text cells) ≡ (map padded cells, [])
unfolding read_bars cells_text
read_bars-cells_text [] = refl
read_bars-cells_text (c ∷ cs) =
    ap (λ q. (q.0 ∷ (read_bars (length cs) q.1).0, (read_bars (length cs) q.1).1))
      (read_bar-cell c (cells_text cs))
    ∙ ap (λ q. (padded c ∷ q.0, q.1)) (read_bars-cells_text cs)

-- A table reader reads the cells of a row back, after its first bar, whatever bars and backslashes they
-- have: each as it was, between its two spaces, and nothing is left over.
pub read_bars-markdown_row :
    (cells : List Text)
    → read_bars (length cells) (drop 1 (markdown_row cells)) ≡ (map padded cells, [])
unfolding markdown_row
read_bars-markdown_row cells = read_bars-cells_text cells
