-- ===== src/Logs/Control/Recovery.antt =====
-- The log sheet after a stream has failed.
use vps_monitor.Common.{
  if◌then◌else◌, text_eq, includes, codes, ◌||◌, ℕ, Text, some, List, [], ◌∷◌, ◌++◌, true, false,
  ◌≡◌, refl, arith,
}
use vps_monitor.Logs.Control.{
  Target, Event, threw, stream_toggled, event, stream_opened, Sheet, member, left, start_at,
  start_streaming, handle_toggle_stream, deliver_running, deliver, handle, deliver_all, Failure,
  reported, is_abort, Effect, stream_error,
}
use vps_monitor.Logs.Control.Runs.{Silent, sent}
use vps_monitor.Logs.Control.Session.{
  IsNumbered, handle-IsNumbered, mounted-IsNumbered, logs-start_at,
}
use vps_monitor.Logs.Control.Orderly.{Orderly, begun, step, Orderly-IsTracked, emptied, member-nil}

-- What the user is told of an error: nothing of an abort, which has the name AbortError or the word in its
-- message, and the message of any other error.
abbrev pub told : (Text → Text) → Failure → List Effect
told to_lower error =
    if text_eq error.name (codes "AbortError")
      || includes (to_lower error.message) (codes "aborted")
    then []
    else stream_error error.message ∷ []

module _ {ℓ} {Entry : Type ℓ} (to_lower : Text → Text) where
  Orderly-IsNumbered : (s : Sheet Entry) → Orderly to_lower s → IsNumbered s
  Orderly-IsNumbered _ begun = mounted-IsNumbered
  Orderly-IsNumbered _ (step {s} i o c) = handle-IsNumbered to_lower i s (Orderly-IsNumbered s o)

  -- The state after a running stream threw.
  abbrev failed : ℕ → Failure → Sheet Entry → Sheet Entry
  failed r error s =
      left r
        (record s { is_streaming = false; effects = s.effects ++ reported to_lower (some error) })

  handle-threw :
      (r : ℕ) (error : Failure) (s : Sheet Entry)
      → member r s.running ≡ true
      → handle to_lower (event (threw r (some error))) s ≡ failed r error s
  unfolding handle deliver deliver_running
  handle-threw r error s m = ground (arith, m)

  handle-toggled :
      (s : Sheet Entry) (t : Target)
      → s.container ≡ some t
      → s.is_streaming ≡ false
      → handle to_lower stream_toggled s ≡ start_at (some t) s
  unfolding handle handle_toggle_stream start_streaming
  handle-toggled s t c h = rw (c, h) refl

  effects-start_at :
      (t : Target) (s : Sheet Entry)
      → (start_at (some t) s).effects ≡ s.effects ++ stream_opened t s.log_lines ∷ []
  unfolding start_at
  effects-start_at t s = refl

  -- In an orderly session, in which a stream is started only while none runs, a stream that throws an error while a container is shown is reported by its
  -- message unless the error is an abort, and the viewer recovers: pressing the toggle opens a new
  -- stream, and the logs are what that one sends, whatever events follow.
  pub recovery :
      (s : Sheet Entry) (r : ℕ) (error : Failure) (t : Target) (es : List (Event Entry))
      → Orderly to_lower s
      → member r s.running ≡ true
      → s.container ≡ some t
      → ((handle to_lower stream_toggled (handle to_lower (event (threw r (some error))) s)).effects
          ≡ (s.effects ++ told to_lower error) ++ stream_opened t s.log_lines ∷ [])
        × ((deliver_all to_lower es (
              handle to_lower stream_toggled
                (handle to_lower (event (threw r (some error))) s))).logs
            ≡ sent s.started es)
  unfolding reported is_abort
  recovery s r error t es o m c =
      let after : Sheet Entry = failed r error s in
      let numbered : IsNumbered after =
        rw (← handle-threw r error s m)
          (handle-IsNumbered to_lower (event (threw r (some error))) s (Orderly-IsNumbered s o)) in
      let silent : Silent [] after = λ n h.
        ground
          (arith, member-nil n after.running (emptied r s m (Orderly-IsTracked to_lower s o)), h) in
      rw (handle-threw r error s m, handle-toggled after t c refl)
        (effects-start_at t after, logs-start_at to_lower t after es numbered silent)
