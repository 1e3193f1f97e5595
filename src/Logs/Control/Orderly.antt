-- ===== src/Logs/Control/Orderly.antt =====
-- Sessions with the log sheet in which no stream is started before the earlier one has come to its end.
use vps_monitor.Common.{
  ℕ, Text, Option, none, some, List, [], ◌∷◌, true, false, not, ◌&&◌, ◌==◌, ◌≡◌, refl, ◌∙◌, arith,
  ◌⊎◌, inl, inr, ltb, ap, subst, if_holds,
}
use vps_monitor.Logs.Control.{
  Target, Event, received, ended, threw, Input, chosen, open_changed, stream_toggled, refreshed,
  lines_typed, fetched, fetch_threw, event, Sheet, member, without, mounted, stop_streaming,
  start_at, start_streaming, fetch_at, follow, close, handle_toggle_stream, handle_refresh,
  handle_log_lines_change, handle_fetched, handle_fetch_threw, deliver_running, deliver, handle,
  deliver_all, with_controller, cleared,
}
use vps_monitor.Logs.Control.Runs.{Silent, logs-deliver_all-Silent}

pub member-nil : (n : ℕ) (ns : List ℕ) → ns ≡ [] → member n ns ≡ false
member-nil n [] h = refl
member-nil n (m ∷ ns) h = ground (arith, h)

member-one : (n r : ℕ) (ns : List ℕ) → ns ≡ r ∷ [] → member n ns ≡ true → member n (r ∷ []) ≡ true
member-one n r ns e m = subst (λ ms. member n ms ≡ true) e m

with_controller_lem :
    (r : ℕ) (o : Option ℕ) (aborted : List ℕ)
    → (member r aborted ≡ true) ⊎ (o ≡ some r)
    → member r (with_controller o aborted) ≡ true
with_controller_lem r none aborted h = ground (arith, h)
with_controller_lem r (some n) aborted h = ground (arith, h)

module _ {ℓ} {Entry : Type ℓ} where
  -- A stream that runs was aborted, or the viewer shows that it streams and can abort it.
  abbrev pub IsKnown : ℕ → Sheet Entry → Type 0
  IsKnown r s = (member r s.aborted ≡ true) ⊎ ((s.controller ≡ some r) × (s.is_streaming ≡ true))

  -- At most one stream runs.
  abbrev pub IsTracked : Sheet Entry → Type 0
  IsTracked s = (s.running ≡ []) ⊎ ((r : ℕ) × ((s.running ≡ r ∷ []) × IsKnown r s))

  module _ (to_lower : Text → Text) where
    -- The states of such sessions: an input may start a stream only where none runs.
    pub data Orderly : Sheet Entry → Type ℓ where
      begun : Orderly mounted
      step :
          {s : Sheet Entry} (i : Input Entry)
          → Orderly s
          → (s.running ≡ []) ⊎ ((handle to_lower i s).started ≡ s.started)
          → Orderly (handle to_lower i s)

  -- At most one stream runs, and it was aborted.
  abbrev IsQuiet : Sheet Entry → Type 0
  IsQuiet s = (s.running ≡ []) ⊎ ((r : ℕ) × ((s.running ≡ r ∷ []) × (member r s.aborted ≡ true)))

  stop_streaming-IsQuiet : (s : Sheet Entry) → IsTracked s → IsQuiet (stop_streaming s)
  unfolding stop_streaming
  stop_streaming-IsQuiet s (inl h) = inl h
  stop_streaming-IsQuiet s (inr (r, (e, inl a))) =
      inr (r, (e, with_controller_lem r s.controller s.aborted (inl a)))
  stop_streaming-IsQuiet s (inr (r, (e, inr k))) =
      inr (r, (e, with_controller_lem r s.controller s.aborted (inr k.0)))

  IsQuiet-IsTracked : (s : Sheet Entry) → IsQuiet s → IsTracked s
  IsQuiet-IsTracked s (inl h) = inl h
  IsQuiet-IsTracked s (inr (r, (e, a))) = inr (r, (e, inl a))

  IsQuiet-Silent : (s : Sheet Entry) → IsQuiet s → Silent [] s
  IsQuiet-Silent s (inl h) n m = ground (arith, member-nil n s.running h, m)
  IsQuiet-Silent s (inr (r, (e, a))) n m =
      let same = member-one n r s.running e m in ground (arith, a, same)

  -- A state reached from the one before: if it starts a stream, none ran.
  abbrev Kept : Sheet Entry → Sheet Entry → Type 0
  Kept s t = (s.running ≡ []) ⊎ (t.started ≡ s.started) → IsTracked t

  start_at-Kept : (o : Option Target) (s : Sheet Entry) → IsTracked s → Kept s (start_at o s)
  unfolding start_at
  start_at-Kept none s h c = h
  start_at-Kept (some t) s h (inl e) = inr (s.started, (ap (◌∷◌ s.started) e, inr (refl, refl)))
  start_at-Kept (some t) s h (inr n) = absurd (omega arith)

  follow-Kept : (s : Sheet Entry) → IsTracked s → Kept s (follow s)
  unfolding follow start_streaming stop_streaming
  follow-Kept s h =
      let quiet = IsQuiet-IsTracked (stop_streaming s) (stop_streaming-IsQuiet s h) in
      if_holds (Kept s) s.is_open
        (λ _. start_at-Kept s.container (cleared (stop_streaming s)) quiet) (λ _ _. quiet)

  pub emptied :
      (n : ℕ) (s : Sheet Entry) → member n s.running ≡ true → IsTracked s → without n s.running ≡ []
  emptied n s m (inl e) = ground (arith, member-nil n s.running e, m)
  emptied n s m (inr (r, (e, k))) =
      let same = member-one n r s.running e m in
      let gone : without n (r ∷ []) ≡ [] = ground (arith, same) in ap (without n) e ∙ gone

  fetch_at-IsTracked :
      (o : Option Target) (s : Sheet Entry) → IsTracked s → IsTracked (fetch_at o s)
  unfolding fetch_at
  fetch_at-IsTracked none s h = h
  fetch_at-IsTracked (some t) s h = h

  module _ (to_lower : Text → Text) where
    deliver-IsTracked :
        (e : Event Entry) (s : Sheet Entry) → IsTracked s → IsTracked (deliver to_lower e s)
    unfolding deliver deliver_running
    deliver-IsTracked (received r entry) s h =
        if_holds IsTracked (member r s.running)
          (λ m. if_holds IsTracked (member r s.aborted) (λ _. inl (emptied r s m h)) (λ _. h))
          (λ _. h)
    deliver-IsTracked (ended r) s h =
        if_holds IsTracked (member r s.running) (λ m. inl (emptied r s m h)) (λ _. h)
    deliver-IsTracked (threw r error) s h =
        if_holds IsTracked (member r s.running) (λ m. inl (emptied r s m h)) (λ _. h)

    handle-Kept : (i : Input Entry) (s : Sheet Entry) → IsTracked s → Kept s (handle to_lower i s)
    unfolding handle
    handle-Kept (chosen container) s h c = follow-Kept (record s { container = container }) h c
    handle-Kept open_changed s h c =
        unfold close stop_streaming in
        let flipped = record s { is_open = not s.is_open } in
        if_holds (λ t. Kept s (follow t)) (not s.is_open) (λ _. follow-Kept flipped h)
          (λ _.
            follow-Kept (cleared (stop_streaming flipped))
              (IsQuiet-IsTracked (stop_streaming flipped) (stop_streaming-IsQuiet flipped h)))
          c
    handle-Kept stream_toggled s h c =
        unfold handle_toggle_stream start_streaming in
        if_holds (Kept s) s.is_streaming
          (λ _ _. IsQuiet-IsTracked (stop_streaming s) (stop_streaming-IsQuiet s h))
          (λ _. start_at-Kept s.container s h) c
    handle-Kept refreshed s h c =
        unfold handle_refresh in
        if_holds IsTracked s.is_streaming (λ _. h) (λ _. fetch_at-IsTracked s.container s h)
    handle-Kept (lines_typed none) s h c = unfold handle_log_lines_change in h
    handle-Kept (lines_typed (some n)) s h c =
        unfold handle_log_lines_change in
        if_holds (Kept s) (ltb 0 n && not (n == s.log_lines))
          (λ _. follow-Kept (record s { log_lines = n }) h) (λ _ _. h) c
    handle-Kept (fetched entries) s h c =
        unfold handle_fetched in if_holds IsTracked (ltb 0 s.pending) (λ _. h) (λ _. h)
    handle-Kept (fetch_threw error) s h c =
        unfold handle_fetch_threw in if_holds IsTracked (ltb 0 s.pending) (λ _. h) (λ _. h)
    handle-Kept (event e) s h c = deliver-IsTracked e s h

    pub Orderly-IsTracked : (s : Sheet Entry) → Orderly to_lower s → IsTracked s
    Orderly-IsTracked _ begun = inl refl
    Orderly-IsTracked _ (step {s} i o c) = handle-Kept i s (Orderly-IsTracked s o) c

    -- In an orderly session, in which a stream is started only while none runs, a stream that still runs and
    -- was not aborted is the one that the viewer's controller aborts, and the viewer shows that it streams.
    pub live_lem :
        (s : Sheet Entry) (r : ℕ)
        → Orderly to_lower s
        → member r s.running ≡ true
        → member r s.aborted ≡ false
        → (s.controller ≡ some r) × (s.is_streaming ≡ true)
    live_lem s r o m a = elim (Orderly-IsTracked s o) [
      | inl e ↦ ground (arith, member-nil r s.running e, m)
      | inr (n, (e, k)) ↦ let same = member-one r n s.running e m in ground (arith, same, k, a)
    ]

    closed :
        (s : Sheet Entry)
        → s.is_open ≡ false
        → follow (close s) ≡ cleared (stop_streaming (cleared (stop_streaming s)))
    unfolding follow close
    closed s h = ground (arith, h)

    -- In an orderly session, in which a stream is started only while none runs, stopping silences it: after the toggle is pressed while the viewer
    -- streams, no event of any stream, whatever comes and in whatever order, changes the logs, and
    -- after an open sheet is closed the logs stay empty.
    pub stopped_lem :
        (s : Sheet Entry) (es : List (Event Entry))
        → Orderly to_lower s
        → s.is_streaming ≡ true
        → s.is_open ≡ true
        → ((deliver_all to_lower es (handle to_lower stream_toggled s)).logs ≡ s.logs)
          × ((deliver_all to_lower es (handle to_lower open_changed s)).logs ≡ [])
    unfolding handle handle_toggle_stream close follow stop_streaming
    stopped_lem s es o h p =
        let quiet = stop_streaming-IsQuiet s (Orderly-IsTracked s o) in
        let flipped : Sheet Entry = record s { is_open = not s.is_open } in
        let stopped : Sheet Entry = cleared (stop_streaming flipped) in
        let twice : IsQuiet (stop_streaming stopped) =
          stop_streaming-IsQuiet stopped (IsQuiet-IsTracked stopped quiet) in
        (
          rw h (
              logs-deliver_all-Silent to_lower es (stop_streaming s)
                (IsQuiet-Silent (stop_streaming s) quiet)),
          rw (closed flipped (ground (arith, p))) (
              logs-deliver_all-Silent to_lower es (cleared (stop_streaming stopped))
                (IsQuiet-Silent (stop_streaming stopped) twice)),
        )
