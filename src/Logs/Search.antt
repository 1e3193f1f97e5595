-- ===== src/Logs/Search.antt =====
-- The log viewer of frontend/src/features/containers/components/containers-logs-sheet.tsx: the level
-- filter, the search and its matches. Lower case is the runtime's, a parameter.
pub mod Matches
pub mod Highlight
use mathlib.Core.Option
use vps_monitor.Common.{
  ◌==◌, text_eq, ℕ, zero, suc, ◌+◌, ◌-◌, Text, truthy, or_text, index_of, includes, Option, none,
  some, List, [], ◌∷◌, ◌++◌, Bool, true, false, not, ◌&&◌, ◌||◌, if◌then◌else◌, filter, any, length,
  ltb, get_elem?, take, drop,
}
use vps_monitor.Logs.{LogEntry, LogLevel, same_level}

pub record Viewer : Type 0 where
  pub logs : List LogEntry
  pub search_text : Text
  pub selected_levels : List LogLevel
  pub current_match_index : ℕ
  -- The arguments of scrollToIndex; `none` is undefined.
  pub scrolled_to : List (Option ℕ)

unfoldable pub has_level : LogLevel → List LogLevel → Bool
has_level v = any (same_level v)

-- The set without the level if it has it, and with it otherwise.
unfoldable pub toggled : LogLevel → List LogLevel → List LogLevel
unfolding has_level
toggled v levels =
    if has_level v levels then filter (λ w. not (same_level v w)) levels else levels ++ v ∷ []

-- Every entry's level is a string that is not empty.
unfoldable pub filtered_logs : Viewer → List LogEntry
unfolding has_level
filtered_logs s =
    filter
      (λ entry.
        not (ltb 0 (length s.selected_levels) && not (has_level entry.level s.selected_levels)))
      s.logs

module _ (to_lower : Text → Text) where
  -- `entry.message || entry.raw || ""`, and whether it has the search text.
  unfoldable pub is_match : Text → LogEntry → Bool
  is_match search entry = includes (to_lower (or_text entry.message entry.raw)) (to_lower search)

  matches_from : Text → ℕ → List LogEntry → List ℕ
  unfolding is_match
  matches_from search i [] = []
  matches_from search i (entry ∷ entries) =
      let rest = matches_from search (suc i) entries in
      if is_match search entry then i ∷ rest else rest

  unfoldable pub search_matches : Viewer → List ℕ
  unfolding matches_from
  search_matches s =
      if truthy s.search_text then matches_from s.search_text 0 (filtered_logs s) else []

unfoldable pub previous_index : ℕ → ℕ → ℕ
previous_index n i = if ltb 0 i then i - 1 else n - 1

unfoldable pub next_index : ℕ → ℕ → ℕ
next_index n i = if ltb i (n - 1) then i + 1 else 0

-- The current match is set, and the list is scrolled to it.
go_to : List ℕ → ℕ → Viewer → Viewer
go_to matches i s = record s {
  current_match_index = i;
  scrolled_to = s.scrolled_to ++ get_elem? matches i ∷ [];
}

-- What the user does in the viewer, and an entry that comes in.
pub data Input : Type 0 where
  received : LogEntry → Input
  cleared : Input
  typed : Text → Input
  level_toggled : LogLevel → Input
  previous next : Input

-- Typing runs the effect that resets the match if the text is another one.
unfoldable pub handle : (Text → Text) → Input → Viewer → Viewer
unfolding toggled previous_index next_index go_to
handle to_lower (received entry) s = record s { logs = s.logs ++ entry ∷ [] }
handle to_lower cleared s = record s { logs = [] }
handle to_lower (typed t) s =
    if text_eq t s.search_text then s else record s { search_text = t; current_match_index = 0 }
handle to_lower (level_toggled v) s = record s { selected_levels = toggled v s.selected_levels }
handle to_lower previous s =
    let matches = search_matches to_lower s in
    if length matches == 0
    then s
    else go_to matches (previous_index (length matches) s.current_match_index) s
handle to_lower next s =
    let matches = search_matches to_lower s in
    if length matches == 0
    then s
    else go_to matches (next_index (length matches) s.current_match_index) s

-- A piece of a message: `<mark>` or plain.
pub record Piece : Type 0 where
  pub marked : Bool
  pub text : Text

abbrev pub piece : Bool → Text → Piece
piece m t = record { marked = m; text = t }

-- `highlightSearchText`, on fuel; `none` where the fuel is used up.
unfoldable pub highlight_search_text : (Text → Text) → Text → ℕ → Text → Option (List Piece)
highlight_search_text to_lower term zero text = none
highlight_search_text to_lower term (suc fuel) text =
    if not (truthy term) || not (truthy text)
    then some (piece false text ∷ [])
    else elim (index_of (to_lower text) (to_lower term)) [
      | none ↦ some (piece false text ∷ [])
      | some i ↦
          let rest = highlight_search_text to_lower term fuel (drop (i + length term) text) in
          Option.map
            (λ pieces.
              piece false (take i text) ∷ piece true (take (length term) (drop i text)) ∷ pieces)
            rest
    ]
