-- ===== src/Logs/Stream/Laws.antt =====
-- What a stream yields depends on its text, and not on how the text was cut into chunks.
use vps_monitor.Common.{
  ℕ, Text, truthy, Option, List, [], ◌∷◌, ◌++◌, map, true, false, if◌then◌else◌, flat_map,
  flat_map-append, ◌≡◌, refl, sym, ap, append-nil, append_assoc,
}
use vps_monitor.Logs.Stream.{
  Decoder, split, pop, Round, aborted, chunk, entry_of, ndjson_from, iterate_ndjson_stream,
  lines_from, iterate_lines_from_stream,
}
use vps_monitor.Logs.Stream.Split.{split-append, split_last, pop-append_right, split-ne-nil}

-- The arrays of bytes one after the other.
abbrev pub concat : List (List ℕ) → List ℕ
concat [] = []
concat (b ∷ bs) = b ++ concat bs

module _ (d : Decoder) where
  open d use {State, start, decode, flush}

  -- The text of the chunks, and the state that the decoder is left in.
  abbrev pub decoded : State → List (List ℕ) → Text × State
  decoded state [] = ([], state)
  decoded state (b ∷ bs) =
      let (text, next) = decode state b in
      let (more, last) = decoded next bs in (text ++ more, last)

  -- Decoding in two steps is decoding at once.
  pub record IsStreaming : Type 0 where
    pub nothing : (s : State) → decode s [] ≡ ([], s)
    pub both :
        (s : State) (a b : List ℕ)
        → decode s (a ++ b)
          ≡ ((decode s a).0 ++ (decode (decode s a).1 b).0, (decode (decode s a).1 b).1)

  decoded-concat :
      IsStreaming → (s : State) (bs : List (List ℕ)) → decoded s bs ≡ decode s (concat bs)
  decoded-concat k s [] = sym (k.nothing s)
  decoded-concat k s (b ∷ bs) =
      rw (k.both s b (concat bs), ← decoded-concat k (decode s b).1 bs) refl

  module _ {ℓ} {Entry : Type ℓ} (parse : Text → Option Entry) where
    ndjson_from_lem :
        (state : State) (buffer : Text) (bs : List (List ℕ))
        → split false buffer ≡ buffer ∷ []
        → ndjson_from parse d state buffer (map chunk bs)
          ≡ (flat_map (entry_of parse) (split false (buffer ++ (decoded state bs).0)), false)
    unfolding ndjson_from
    ndjson_from_lem state buffer [] h =
        rw (append-nil buffer, h) (rw (append-nil (entry_of parse buffer)) refl)
    ndjson_from_lem state buffer (b ∷ bs) h =
        let text = (decode state b).0 in
        let next = (decode state b).1 in
        let lines = split false (buffer ++ text) in
        rw
          (
            ndjson_from_lem next (pop lines).1 bs (split_last false (buffer ++ text)),
            ← append_assoc buffer text (decoded next bs).0,
            split-append false (buffer ++ text) (decoded next bs).0,
            flat_map-append (entry_of parse) (pop lines).0
                (split false ((pop lines).1 ++ (decoded next bs).0)),
          )
          refl

    -- A stream that ends yields, in order, an entry for each line of its text that is not blank and parses,
    -- the last line included, and throws nothing.
    pub iterate_ndjson_stream_lem :
        (bs : List (List ℕ))
        → iterate_ndjson_stream parse d (map chunk bs)
          ≡ (flat_map (entry_of parse) (split false (decoded start bs).0), false)
    unfolding iterate_ndjson_stream
    iterate_ndjson_stream_lem bs = ndjson_from_lem start [] bs (unfold split in refl)

    -- If decoding in two steps is decoding at once, the entries of a stream that ends depend on the bytes
    -- alone, and not on the chunks in which they came.
    pub iterate_ndjson_stream_chunks :
        (bs cs : List (List ℕ))
        → IsStreaming
        → concat bs ≡ concat cs
        → iterate_ndjson_stream parse d (map chunk bs)
          ≡ iterate_ndjson_stream parse d (map chunk cs)
    iterate_ndjson_stream_chunks bs cs k e =
        rw
          (
            iterate_ndjson_stream_lem bs,
            iterate_ndjson_stream_lem cs,
            decoded-concat k start bs,
            decoded-concat k start cs,
            e,
          )
          refl

    ndjson_from_aborted :
        (state : State) (buffer : Text) (bs : List (List ℕ)) (rest : List Round)
        → ndjson_from parse d state buffer (map chunk bs ++ aborted ∷ rest)
          ≡ ndjson_from parse d state buffer (map chunk bs)
    unfolding ndjson_from
    ndjson_from_aborted state buffer [] rest = refl
    ndjson_from_aborted state buffer (b ∷ bs) rest =
        ap
          (λ r. (
            flat_map (entry_of parse) (pop (split false (buffer ++ (decode state b).0))).0 ++ r.0,
            r.1,
          ))
          (ndjson_from_aborted (decode state b).1
            (pop (split false (buffer ++ (decode state b).0))).1 bs rest)

    -- Aborting ends the stream as if it had ended there, whatever would still have come.
    pub iterate_ndjson_stream_aborted :
        (bs : List (List ℕ)) (rest : List Round)
        → iterate_ndjson_stream parse d (map chunk bs ++ aborted ∷ rest)
          ≡ iterate_ndjson_stream parse d (map chunk bs)
    unfolding iterate_ndjson_stream
    iterate_ndjson_stream_aborted bs rest = ndjson_from_aborted start [] bs rest

  -- A last line that is not empty is a line.
  abbrev pub last_line : Text → List Text
  last_line [] = []
  last_line (c ∷ s) = (c ∷ s) ∷ []

  last_line_lem : (s : Text) → (if truthy s then s ∷ [] else []) ≡ last_line s
  last_line_lem [] = refl
  last_line_lem (c ∷ s) = refl

  -- The lines of a text: those that end in it, and what is left over if that is not empty.
  abbrev pub lines_of : Text → Text → List Text
  lines_of text end = let lines = pop (split true text) in lines.0 ++ last_line (lines.1 ++ end)

  lines_from_lem :
      (state : State) (buffer : Text) (bs : List (List ℕ))
      → split true buffer ≡ buffer ∷ []
      → lines_from d state buffer bs
        ≡ lines_of (buffer ++ (decoded state bs).0) (flush (decoded state bs).1)
  unfolding lines_from
  lines_from_lem state buffer [] h =
      rw (append-nil buffer, h) (unfold pop in last_line_lem (buffer ++ flush state))
  lines_from_lem state buffer (b ∷ bs) h =
      let text = (decode state b).0 in
      let next = (decode state b).1 in
      let lines = split true (buffer ++ text) in
      let rest = split true ((pop lines).1 ++ (decoded next bs).0) in
      rw
        (
          lines_from_lem next (pop lines).1 bs (split_last true (buffer ++ text)),
          ← append_assoc buffer text (decoded next bs).0,
          split-append true (buffer ++ text) (decoded next bs).0,
          pop-append_right (pop lines).0 rest (split-ne-nil true _),
        )
        (sym (append_assoc (pop lines).0 (pop rest).0 _))

  -- A plain stream that ends yields the lines of its text, cut at a line feed with or without a
  -- carriage return; the decoder's remainder belongs to the last line.
  pub iterate_lines_from_stream_lem :
      (bs : List (List ℕ))
      → iterate_lines_from_stream d bs ≡ lines_of (decoded start bs).0 (flush (decoded start bs).1)
  unfolding iterate_lines_from_stream
  iterate_lines_from_stream_lem bs = lines_from_lem start [] bs (unfold split in refl)

  -- If decoding in two steps is decoding at once, the lines of a plain stream that ends depend on the
  -- bytes alone, and not on the chunks in which they came.
  pub iterate_lines_from_stream_chunks :
      (bs cs : List (List ℕ))
      → IsStreaming
      → concat bs ≡ concat cs
      → iterate_lines_from_stream d bs ≡ iterate_lines_from_stream d cs
  iterate_lines_from_stream_chunks bs cs k e =
      rw
        (
          iterate_lines_from_stream_lem bs,
          iterate_lines_from_stream_lem cs,
          decoded-concat k start bs,
          decoded-concat k start cs,
          e,
        )
        refl
