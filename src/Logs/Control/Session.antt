-- ===== src/Logs/Control/Session.antt =====
-- Sessions with the log sheet: what holds after any inputs, and what holds as long as a stream is
-- started only when the earlier ones have come to their end.
use vps_monitor.Common.{
  ℕ, Text, Option, none, some, List, [], ◌∷◌, ◌++◌, true, false, not, ◌&&◌, ◌==◌, ◌≡◌, refl, arith,
  ◌<◌, ltb, if_holds,
}
use vps_monitor.Logs.Control.{
  Target, Event, received, ended, threw, Input, chosen, open_changed, stream_toggled, refreshed,
  lines_typed, fetched, fetch_threw, event, Sheet, member, mounted, stop_streaming, start_at,
  start_streaming, fetch_at, follow, close, handle_toggle_stream, handle_refresh,
  handle_log_lines_change, handle_fetched, handle_fetch_threw, deliver_running, deliver, handle,
  deliver_all, left, reported,
}
use vps_monitor.Logs.Control.Runs.{Silent, sent, member-without, logs-deliver_all}

abbrev Below : Option ℕ → ℕ → Type 0
Below none n = Unit
Below (some r) n = r < n

module _ {ℓ} {Entry : Type ℓ} where
  -- The numbers in use are those of streams that were started.
  pub record IsNumbered (s : Sheet Entry) : Type 0 where
    pub running_below : (n : ℕ) → member n s.running ≡ true → n < s.started
    pub aborted_below : (n : ℕ) → member n s.aborted ≡ true → n < s.started
    pub controller_below : Below s.controller s.started

  pub mounted-IsNumbered : IsNumbered mounted
  mounted-IsNumbered = record {
    running_below = λ n m. ground (arith, m);
    aborted_below = λ n m. ground (arith, m);
    controller_below = tt;
  }

  stop_with-IsNumbered :
      (o : Option ℕ) (s : Sheet Entry)
      → IsNumbered (record s { controller = o })
      → IsNumbered (stop_streaming (record s { controller = o }))
  unfolding stop_streaming
  stop_with-IsNumbered none s h = record {
    running_below = h.running_below;
    aborted_below = h.aborted_below;
    controller_below = tt;
  }
  stop_with-IsNumbered (some r) s h = record {
    running_below = h.running_below;
    aborted_below = λ n m. ground (arith, h.aborted_below n, h.controller_below, m);
    controller_below = tt;
  }

  stop_streaming-IsNumbered : (s : Sheet Entry) → IsNumbered s → IsNumbered (stop_streaming s)
  stop_streaming-IsNumbered s h = stop_with-IsNumbered s.controller s h

  start_at-IsNumbered :
      (o : Option Target) (s : Sheet Entry) → IsNumbered s → IsNumbered (start_at o s)
  unfolding start_at
  start_at-IsNumbered none s h = h
  start_at-IsNumbered (some t) s h = record {
    running_below = λ n m. ground (arith, h.running_below n, m);
    aborted_below = λ n m. omega (arith, h.aborted_below n m);
    controller_below = omega arith;
  }

  left-IsNumbered : (r : ℕ) (s : Sheet Entry) → IsNumbered s → IsNumbered (left r s)
  left-IsNumbered r s h = record {
    running_below = λ n m. ground (arith, h.running_below n, member-without n r s.running, m);
    aborted_below = h.aborted_below;
    controller_below = tt;
  }

  cleared-IsNumbered :
      (es : List Entry) (s : Sheet Entry) → IsNumbered s → IsNumbered (record s { logs = es })
  cleared-IsNumbered es s h = record {
    running_below = h.running_below;
    aborted_below = h.aborted_below;
    controller_below = h.controller_below;
  }

  follow-IsNumbered : (s : Sheet Entry) → IsNumbered s → IsNumbered (follow s)
  unfolding follow start_streaming
  follow-IsNumbered s h =
      let stopped = cleared-IsNumbered [] (stop_streaming s) (stop_streaming-IsNumbered s h) in
      if_holds IsNumbered s.is_open
        (λ _. start_at-IsNumbered s.container (record (stop_streaming s) { logs = [] }) stopped)
        (λ _. stopped)

  renumbered :
      (s t : Sheet Entry)
      → IsNumbered s
      → s.running ≡ t.running
      → s.aborted ≡ t.aborted
      → s.started ≡ t.started
      → s.controller ≡ t.controller
      → IsNumbered t
  renumbered s t h r a n c = record {
    running_below = λ k m. rw (← n) (h.running_below k (rw r m));
    aborted_below = λ k m. rw (← n) (h.aborted_below k (rw a m));
    controller_below = rw (← n, ← c) h.controller_below;
  }

  fetch_at-IsNumbered :
      (o : Option Target) (s : Sheet Entry) → IsNumbered s → IsNumbered (fetch_at o s)
  unfolding fetch_at
  fetch_at-IsNumbered none s h = h
  fetch_at-IsNumbered (some t) s h = renumbered s _ h refl refl refl refl

  module _ (to_lower : Text → Text) where
    deliver-IsNumbered :
        (e : Event Entry) (s : Sheet Entry) → IsNumbered s → IsNumbered (deliver to_lower e s)
    unfolding deliver deliver_running
    deliver-IsNumbered (received r entry) s h =
        if_holds IsNumbered (member r s.running)
          (λ _.
            if_holds IsNumbered (member r s.aborted) (λ _. left-IsNumbered r s h)
              (λ _. cleared-IsNumbered (s.logs ++ entry ∷ []) s h))
          (λ _. h)
    deliver-IsNumbered (ended r) s h =
        if_holds IsNumbered (member r s.running) (λ _. left-IsNumbered r s h) (λ _. h)
    deliver-IsNumbered (threw r error) s h =
        let stopped : IsNumbered
            (record s { is_streaming = false; effects = s.effects ++ reported to_lower error }) =
          renumbered s _ h refl refl refl refl in
        if_holds IsNumbered (member r s.running)
          (λ _.
            left-IsNumbered r
              (record s { is_streaming = false; effects = s.effects ++ reported to_lower error })
              stopped)
          (λ _. h)

    pub handle-IsNumbered :
        (i : Input Entry) (s : Sheet Entry) → IsNumbered s → IsNumbered (handle to_lower i s)
    unfolding handle
    handle-IsNumbered (chosen c) s h =
        follow-IsNumbered (record s { container = c }) (renumbered s _ h refl refl refl refl)
    handle-IsNumbered open_changed s h =
        unfold close in
        let flipped : IsNumbered (record s { is_open = not s.is_open }) =
          renumbered s _ h refl refl refl refl in
        follow-IsNumbered _ (
          if_holds IsNumbered (not s.is_open) (λ _. flipped)
            (λ _. cleared-IsNumbered [] _ (stop_streaming-IsNumbered _ flipped)))
    handle-IsNumbered stream_toggled s h =
        unfold handle_toggle_stream start_streaming in
        if_holds IsNumbered s.is_streaming (λ _. stop_streaming-IsNumbered s h)
          (λ _. start_at-IsNumbered s.container s h)
    handle-IsNumbered refreshed s h =
        unfold handle_refresh in
        if_holds IsNumbered s.is_streaming (λ _. h) (λ _. fetch_at-IsNumbered s.container s h)
    handle-IsNumbered (lines_typed none) s h = unfold handle_log_lines_change in h
    handle-IsNumbered (lines_typed (some n)) s h =
        unfold handle_log_lines_change in
        if_holds IsNumbered (ltb 0 n && not (n == s.log_lines))
          (λ _.
            follow-IsNumbered (record s { log_lines = n }) (renumbered s _ h refl refl refl refl))
          (λ _. h)
    handle-IsNumbered (fetched entries) s h =
        unfold handle_fetched in
        if_holds IsNumbered (ltb 0 s.pending) (λ _. renumbered s _ h refl refl refl refl) (λ _. h)
    handle-IsNumbered (fetch_threw error) s h =
        unfold handle_fetch_threw in
        if_holds IsNumbered (ltb 0 s.pending) (λ _. renumbered s _ h refl refl refl refl) (λ _. h)
    handle-IsNumbered (event e) s h = deliver-IsNumbered e s h

    abbrev pub handle_all : List (Input Entry) → Sheet Entry → Sheet Entry
    handle_all [] s = s
    handle_all (i ∷ is) s = handle_all is (handle to_lower i s)

    handle_all-IsNumbered :
        (is : List (Input Entry)) (s : Sheet Entry) → IsNumbered s → IsNumbered (handle_all is s)
    handle_all-IsNumbered [] s h = h
    handle_all-IsNumbered (i ∷ is) s h =
        handle_all-IsNumbered is (handle to_lower i s) (handle-IsNumbered i s h)

    fresh : (s : Sheet Entry) → IsNumbered s → member s.started s.aborted ≡ false
    fresh s h = ground (arith, h.aborted_below s.started)

    pub logs-start_at :
        (t : Target) (s : Sheet Entry) (es : List (Event Entry))
        → IsNumbered s
        → Silent [] s
        → (deliver_all to_lower es (start_at (some t) s)).logs ≡ sent s.started es
    unfolding start_at
    logs-start_at t s es h silent =
        logs-deliver_all to_lower s.started es (start_at (some t) s) (ground arith) (fresh s h)
          (λ n r. ground (arith, silent n, r))

    -- In any session, if a stream of a container is started when every stream that still runs was
    -- aborted, then whatever events of the old streams and the new one follow in whatever order, the
    -- logs are the entries that the new stream sends before it ends or throws, each once and in order.
    pub logs-start_streaming :
        (is : List (Input Entry)) (t : Target) (es : List (Event Entry))
        → (handle_all is mounted).container ≡ some t
        → Silent [] (handle_all is mounted)
        → (deliver_all to_lower es (start_streaming (handle_all is mounted))).logs
          ≡ sent (handle_all is mounted).started es
    unfolding start_streaming
    logs-start_streaming is t es c silent =
        let s = handle_all is mounted in
        let n : IsNumbered s = handle_all-IsNumbered is mounted mounted-IsNumbered in
        rw c (logs-start_at t s es n silent)
