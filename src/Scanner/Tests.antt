-- ===== src/Scanner/Tests.antt =====
-- The scanner's table, export and jobs on a few values.
use vps_monitor.Common.{
  drop, number, starts_with, text_eq, ◌+◌, Text, codes, length, none, some, List, [], ◌∷◌, ◌++◌,
  map, if◌then◌else◌, count, any, ◌≡◌, refl, arith, compare,
}
use vps_monitor.Common.Sets.{has}
use vps_monitor.Common.Sort.{on-IsConsistent, compare-IsConsistent}
use vps_monitor.Containers.{desc}
use vps_monitor.Containers.Samples.{by_length}
use vps_monitor.Scanner.{Vulnerability, high, complete, scanning}
use vps_monitor.Scanner.Table.{
  SortField, TableState, filtered, IsCollation, IsTable, filtered-IsTable,
}
use vps_monitor.Scanner.Export.{csv_row, guarded, read_row, read_row-csv_row}
use vps_monitor.Scanner.Jobs.{Observed, renders, seen_done, calls, calls-renders}
use vps_monitor.Scanner.Markdown.{markdown_row, read_bars, padded, read_bars-markdown_row}

abbrev finding : Text → Vulnerability
finding id = record {
  id = id;
  severity = high;
  package_name = codes "openssl";
  installed_version = codes "1.1";
  fixed_version = none;
  description = none;
  data_source = none;
}

by_length-IsCollation : IsCollation by_length
by_length-IsCollation = record {
  consistent = on-IsConsistent compare length compare-IsConsistent;
  symmetric = λ a b. ground arith;
}

abbrev by_id : TableState
by_id = record { search_text = codes "CVE"; sort_field = SortField.id; sort_dir = desc }

abbrev findings : List Vulnerability
findings = finding (codes "CVE-1") ∷ finding (codes "GHSA-2") ∷ finding (codes "CVE-10") ∷ []

filtered-IsTable_example : IsTable by_length by_id findings (filtered by_length by_id findings)
filtered-IsTable_example = filtered-IsTable by_length by_id findings by_length-IsCollation

read_row_example :
    read_row 3 (csv_row (codes "=1" ∷ codes "a,b" ∷ []) ++ 10 ∷ [])
    ≡ (map guarded (codes "=1" ∷ codes "a,b" ∷ []), 10 ∷ [])
unfolding starts_with
read_row_example =
    read_row-csv_row (codes "=1") (codes "a,b" ∷ []) (10 ∷ []) 3 (omega arith) refl refl

abbrev job_at_end : Observed
job_at_end = record { id = codes "j1"; status = some complete }

abbrev running_job : Observed
running_job = record { id = codes "j1"; status = some scanning }

abbrev seen : List (List Observed)
seen = (running_job ∷ []) ∷ (job_at_end ∷ []) ∷ (job_at_end ∷ []) ∷ []

calls-renders_example :
    count (calls (codes "j1")) (renders seen ([], [])).1
    ≡ 0 + (if has (codes "j1") [] then 0 else number (any (seen_done (codes "j1")) seen))
unfolding text_eq
calls-renders_example = calls-renders (codes "j1") seen ([], []) refl refl

abbrev barred : List Text
barred = codes "a|b" ∷ codes "c:\\\\|" ∷ []

read_bars_example : read_bars 2 (drop 1 (markdown_row barred)) ≡ (map padded barred, [])
read_bars_example = read_bars-markdown_row barred
