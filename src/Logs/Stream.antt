-- ===== src/Logs/Stream.antt =====
-- The log and progress streams: iterateNDJSONStream of
-- frontend/src/features/containers/api/get-container-logs-parsed.ts, iterateLinesFromStream of
-- get-container-logs.ts beside it, and pullImage of frontend/src/features/images/api/pull-image.ts.
-- The text decoder and the JSON parser are the runtime's, parameters.
pub mod Split
pub mod Laws
use vps_monitor.Common.{
  ℕ, Text, trim, truthy, starts_with, Option, none, some, List, [], ◌∷◌, ◌++◌, Bool, true, false,
  ◌&&◌, if◌then◌else◌, flat_map, ◌==◌,
}

-- TextDecoder with `{ stream: true }`: it keeps the bytes of an unfinished character. `flush` is the
-- last call, without an argument.
pub record Decoder : Type 1 where
  pub State : Type 0
  pub start : State
  pub decode : State → List ℕ → Text × State
  pub flush : State → Text

abbrev cons_head : ℕ → List Text → List Text
cons_head c [] = (c ∷ []) ∷ []
cons_head c (l ∷ ls) = (c ∷ l) ∷ ls

-- `s.split("\n")`, or `s.split(/\r?\n/)` if the flag is set.
unfoldable pub split : Bool → Text → List Text
split crlf [] = [] ∷ []
split crlf (c ∷ s) =
    let rest = split crlf s in
    if c == 10
    then [] ∷ rest
    else if crlf && c == 13 && starts_with s (10 ∷ [])
    then rest
    else cons_head c rest

-- `lines.pop() ?? ""`: the lines without the last one, and the last one.
unfoldable pub pop : List Text → List Text × Text
pop [] = ([], [])
pop (l ∷ []) = ([], l)
pop (l ∷ m ∷ ls) = let (before, last) = pop (m ∷ ls) in (l ∷ before, last)

-- One step of the reading loop: the signal was aborted, a chunk came, or the read failed.
pub data Round : Type 0 where
  aborted : Round
  chunk : List ℕ → Round
  broken : Round

module _ {ℓ} {Entry : Type ℓ} (parse : Text → Option Entry) where
  abbrev parsed : Option Entry → List Entry
  parsed none = []
  parsed (some e) = e ∷ []

  -- A line that is not blank is parsed, and skipped if that fails.
  unfoldable pub entry_of : Text → List Entry
  entry_of line = if truthy (trim line) then parsed (parse line) else []

  module _ (d : Decoder) where
    open d use {State, start, decode, flush}

    -- The entries that are yielded, and whether an error is thrown at the end.
    ndjson_from : State → Text → List Round → List Entry × Bool
    ndjson_from state buffer [] = (entry_of buffer, false)
    ndjson_from state buffer (aborted ∷ rounds) = (entry_of buffer, false)
    ndjson_from state buffer (broken ∷ rounds) = ([], true)
    ndjson_from state buffer (chunk bytes ∷ rounds) =
        let (text, next) = decode state bytes in
        let (lines, rest) = pop (split false (buffer ++ text)) in
        let (later, threw) = ndjson_from next rest rounds in
        (flat_map entry_of lines ++ later, threw)

    unfoldable pub iterate_ndjson_stream : List Round → List Entry × Bool
    unfolding ndjson_from
    iterate_ndjson_stream rounds = ndjson_from start [] rounds

module _ (d : Decoder) where
  open d use {State, start, decode, flush}

  -- The loop over the chunks of a stream that ends; the lines that are yielded.
  lines_from : State → Text → List (List ℕ) → List Text
  lines_from state buffer [] =
      let last = buffer ++ flush state in if truthy last then last ∷ [] else []
  lines_from state buffer (bytes ∷ chunks) =
      let (text, next) = decode state bytes in
      let (segments, rest) = pop (split true (buffer ++ text)) in
      segments ++ lines_from next rest chunks

  unfoldable pub iterate_lines_from_stream : List (List ℕ) → List Text
  unfolding lines_from
  iterate_lines_from_stream chunks = lines_from start [] chunks
