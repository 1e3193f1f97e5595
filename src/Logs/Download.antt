-- ===== src/Logs/Download.antt =====
-- Downloading the shown entries: handleDownloadLogs of
-- frontend/src/features/containers/components/containers-logs-sheet.tsx, and the file name that the page of
-- routes/containers/$containerId/logs.tsx gives. The time, its text and JSON are the runtime's, parameters.
use vps_monitor.Common.{
  ℕ, Text, codes, truthy, or_text, Option, none, some, List, [], ◌∷◌, ◌++◌, map, Bool, true, false,
  ◌&&◌, ◌||◌, if◌then◌else◌, ◌==◌, All, ◌≡◌, refl, arith, All-append, leb,
}
use vps_monitor.Containers.{strip_slash}
use vps_monitor.Logs.{
  LogEntry, LogLevel, trace, debug, info, warn, warning, error, fatal, panic, unknown,
}

abbrev pub level_text : LogLevel → Text
level_text trace = codes "TRACE"
level_text debug = codes "DEBUG"
level_text info = codes "INFO"
level_text warn = codes "WARN"
level_text warning = codes "WARNING"
level_text error = codes "ERROR"
level_text fatal = codes "FATAL"
level_text panic = codes "PANIC"
level_text unknown = codes "UNKNOWN"

-- `text.replace(/[...]/g, "-")` for a class of units.
unfoldable pub dashed : (ℕ → Bool) → Text → Text
dashed p [] = []
dashed p (c ∷ s) = (if p c then 45 else c) ∷ dashed p s

-- `text.replace(/\..+/, "")` on a text of one line: a point with something after it goes, with the rest.
unfoldable pub before_point : Text → Text
before_point [] = []
before_point (c ∷ s) = let rest = before_point s in if c == 46 && truthy s then [] else c ∷ rest

-- The units of the class `[/\\:*?"<>|]`.
abbrev pub is_reserved : ℕ → Bool
is_reserved c =
    c == 47 || c == 92 || c == 58 || c == 42 || c == 63 || c == 34 || c == 60 || c == 62 || c == 124

abbrev pub first_name : List Text → Text
first_name [] = codes "container"
first_name (n ∷ names) = or_text n (codes "container")

-- The file name in the sheet, of the container's names, the time and the format.
unfoldable pub file_name : List Text → Text → Text → Text
unfolding dashed before_point
file_name names iso format =
    dashed is_reserved (strip_slash (first_name names))
    ++ (codes "-logs-" ++ (before_point (dashed (λ c. c == 58) iso) ++ 46 ∷ format))

-- The file name on the page.
unfoldable pub page_file_name : List Text → Text → Text → Text
page_file_name names iso format = first_name names ++ (codes "-logs-" ++ (iso ++ 46 ∷ format))

module _ (iso_of : Text → Text) where
  abbrev time_text : Text → Text
  time_text [] = []
  time_text (c ∷ s) = iso_of (c ∷ s)

  unfoldable pub text_line : LogEntry → Text
  text_line entry =
      (91 ∷ time_text entry.timestamp)
      ++ (codes "] ["
          ++ (level_text entry.level ++ (codes "] " ++ or_text entry.message entry.raw)))

  -- `lines.join("\n")`.
  unfoldable pub joined_lines : List Text → Text
  joined_lines [] = []
  joined_lines (l ∷ []) = l
  joined_lines (l ∷ m ∷ ls) = l ++ 10 ∷ joined_lines (m ∷ ls)

  pub data Format : Type 0 where
    json txt : Format

  abbrev format_text : Format → Text
  format_text json = codes "json"
  format_text txt = codes "txt"

  -- The file that is saved, by its name and content, or none where no entry is shown.
  unfoldable pub handle_download_logs :
      (List LogEntry → Text) → Format → List Text → Text → List LogEntry → Option (Text × Text)
  unfolding file_name text_line joined_lines
  handle_download_logs stringify format names iso [] = none
  handle_download_logs stringify json names iso (e ∷ es) =
      some (file_name names iso (codes "json"), stringify (e ∷ es))
  handle_download_logs stringify txt names iso (e ∷ es) =
      some (file_name names iso (codes "txt"), joined_lines (map text_line (e ∷ es)))

-- A unit that a file name may have.
abbrev pub IsPlain : ℕ → Type 0
IsPlain c = is_reserved c ≡ false

-- What toISOString writes: digits, signs, the letters T and Z, colons and a point.
abbrev pub IsTimeUnit : ℕ → Type 0
IsTimeUnit c = (leb 48 c && leb c 58 || c == 43 || c == 45 || c == 46 || c == 84 || c == 90) ≡ true

All-dashed : (s : Text) → All IsPlain (dashed is_reserved s)
unfolding dashed
All-dashed [] = tt
All-dashed (c ∷ s) = (ground arith, All-dashed s)

All-dashed_time : (s : Text) → All IsTimeUnit s → All IsPlain (dashed (λ c. c == 58) s)
unfolding dashed
All-dashed_time [] h = tt
All-dashed_time (c ∷ s) h = (ground (arith, h.0), All-dashed_time s h.1)

All-before_point : (s : Text) → All IsPlain s → All IsPlain (before_point s)
unfolding before_point
All-before_point [] h = tt
All-before_point (c ∷ s) h = ground (arith, h, All-before_point s h.1)

-- Whatever the container's names are, the file name of the sheet has none of the characters / \ : * ? " < > |,
-- if the time is written with digits, signs, T, Z, colons and points and the format has none of them.
pub All-file_name :
    (names : List Text) (iso format : Text)
    → All IsTimeUnit iso
    → All IsPlain format
    → All IsPlain (file_name names iso format)
unfolding file_name
All-file_name names iso format t f =
    let name = dashed is_reserved (strip_slash (first_name names)) in
    let time = before_point (dashed (λ c. c == 58) iso) in
    All-append IsPlain name _ (All-dashed (strip_slash (first_name names))) (
      All-append IsPlain (codes "-logs-") _ (refl, (refl, (refl, (refl, (refl, (refl, tt))))))
        (All-append IsPlain time (46 ∷ format)
          (All-before_point (dashed (λ c. c == 58) iso) (All-dashed_time iso t)) (refl, f)))
