-- ===== src/Logs/Tests.antt =====
-- The log filter, the streams and the viewer on a few entries.
use vps_monitor.Common.{
  trim_start, ℕ, Text, codes, includes, index_of, starts_with, length, get_elem?, none, some, List,
  [], ◌∷◌, ◌++◌, map, true, false, filter, ◌≡◌, ◌≢◌, ◌<◌, ◌≤◌, refl, arith, flat_map, if◌then◌else◌,
  truthy,
}
use vps_monitor.Logs.{LogEntry, LogFilterOptions, LogLevel, stdout, level, only}
use vps_monitor.Logs.Stream.{Decoder, chunk, split, entry_of, iterate_ndjson_stream}
use vps_monitor.Logs.Stream.Laws.{
  IsStreaming, decoded, iterate_ndjson_stream_lem, iterate_ndjson_stream_chunks,
}
use vps_monitor.Logs.Search.{
  Viewer, filtered_logs, search_matches, Piece, piece, highlight_search_text,
}
use vps_monitor.Logs.Search.Matches.{
  AreAscending, mentions, search_matches_lem, presses, presses_reach,
}
use vps_monitor.Logs.Search.Highlight.{joined, joined-highlight_search_text}
use vps_monitor.Logs.Line.{parse_container_log_line, parse_container_log_line_lem}

abbrev same : Text → Text
same s = s

abbrev same_unit : ℕ → ℕ
same_unit c = c

abbrev entry : LogLevel → Text → LogEntry
entry v message = record { timestamp = []; level = v; message = message; stream = stdout; raw = [] }

abbrev two_logs : List LogEntry
two_logs = entry LogLevel.error (codes "no disk") ∷ entry LogLevel.info (codes "on disk") ∷ []

abbrev errors_only : LogFilterOptions
errors_only = record {
  level = level LogLevel.error;
  search_term = codes "disk";
  since = none;
  until = none;
  stream = some (only stdout);
}

-- One byte for each character.
abbrev bytes : Decoder
bytes = record { State = Unit; start = tt; decode = λ s b. (b, s); flush = λ s. [] }

bytes-IsStreaming : IsStreaming bytes
bytes-IsStreaming = record { nothing = λ s. refl; both = λ s a b. refl }

abbrev parts : List (List ℕ)
parts = codes "a" ∷ (10 ∷ codes "b") ∷ (codes "c" ++ 10 ∷ []) ∷ []

abbrev whole : List (List ℕ)
whole = (codes "a" ++ 10 ∷ codes "bc" ++ 10 ∷ []) ∷ []

iterate_ndjson_stream_example :
    iterate_ndjson_stream some bytes (map chunk parts)
    ≡ (flat_map (entry_of some) (split false (decoded bytes tt parts).0), false)
iterate_ndjson_stream_example = iterate_ndjson_stream_lem bytes some parts

iterate_ndjson_stream_chunks_example :
    iterate_ndjson_stream some bytes (map chunk parts)
    ≡ iterate_ndjson_stream some bytes (map chunk whole)
iterate_ndjson_stream_chunks_example =
    iterate_ndjson_stream_chunks bytes some parts whole bytes-IsStreaming refl

abbrev viewer : Viewer
viewer = record {
  logs = two_logs;
  search_text = codes "disk";
  selected_levels = [];
  current_match_index = 1;
  scrolled_to = [];
}

two_matches : search_matches same viewer ≡ 0 ∷ 1 ∷ []
unfolding search_matches filtered_logs includes
two_matches = refl

second_match : 1 < length (search_matches same viewer)
second_match = rw two_matches (omega arith)

matches-ne-zero : length (search_matches same viewer) ≢ 0
matches-ne-zero = λ h. omega (arith, second_match, h)

search_matches_example :
    AreAscending 0 (search_matches same viewer)
    × (map (get_elem? (filtered_logs viewer)) (search_matches same viewer) ≡ (
        if truthy viewer.search_text
        then map some (filter (mentions same viewer.search_text) (filtered_logs viewer))
        else []))
search_matches_example = search_matches_lem same viewer

first_match : 0 < length (search_matches same viewer)
first_match = rw two_matches (omega arith)

presses_reach_example :
    (k : ℕ) × (k ≤ length (search_matches same viewer))
    × ((presses same k viewer).current_match_index ≡ 0)
presses_reach_example = presses_reach same viewer 0 second_match first_match

joined_example :
    (pieces : List Piece) × (highlight_search_text same (codes "a") 7 (codes "banana")
      ≡ some pieces)
    × (joined pieces ≡ codes "banana")
joined_example = joined-highlight_search_text same (codes "a") (codes "banana") 7 (omega arith)

abbrev banana_pieces : List Piece
banana_pieces = piece false [] ∷ piece true (codes "ban") ∷ piece false (codes "ana") ∷ []

banana_highlighted :
    highlight_search_text (map same_unit) (codes "ban") 7 (codes "banana") ≡ some banana_pieces
unfolding highlight_search_text index_of starts_with
banana_highlighted = refl

abbrev day : Text
day = codes "2024-01-02T"

abbrev line : Text
line = day ++ (codes "03:04:05.6Z" ++ 32 ∷ codes "  at main")

-- The message was indented.
parse_container_log_line_example : parse_container_log_line line ≡ record {
  raw = line;
  timestamp = some (day ++ codes "03:04:05.6Z");
  message = trim_start (codes "  at main");
}
parse_container_log_line_example =
    parse_container_log_line_lem day (codes "03:04:05.6Z") (codes "  at main")
      (refl, (refl, (refl, (refl, (refl, (refl, (refl, (refl, (refl, (refl, (refl, tt)))))))))))
      (refl, (refl, (refl, (refl, (refl, (refl, (refl, (refl, (refl, (refl, (refl, tt)))))))))))
      refl refl
