-- ===== src/Logs/Control/Tests.antt =====
-- Sessions with the log sheet, with texts as entries.
use vps_monitor.Common.{
  Text, codes, none, some, List, [], ◌∷◌, ◌++◌, true, false, ◌≡◌, refl, inl, inr, arith,
}
use vps_monitor.Logs.Control.{
  Target, Event, received, ended, threw, Input, chosen, open_changed, stream_toggled, refreshed,
  lines_typed, fetched, event, stream_opened, Sheet, mounted, start_streaming, handle, deliver_all,
  Failure,
}
use vps_monitor.Logs.Control.Runs.{sent}
use vps_monitor.Logs.Control.Session.{handle_all, logs-start_streaming}
use vps_monitor.Logs.Control.Orderly.{Orderly, begun, step, live_lem, stopped_lem}
use vps_monitor.Logs.Control.Recovery.{told, recovery}

abbrev same : Text → Text
same s = s

abbrev web : Target
web = record { id = codes "4f1a"; host = codes "local" }

abbrev abort : Failure
abort = record { name = codes "AbortError"; message = codes "signal is aborted" }

abbrev reset : Failure
reset = record { name = codes "TypeError"; message = codes "network error" }

-- The sheet is opened, its stream sends a line and is stopped.
abbrev stopped : List (Input Text)
stopped = chosen (some web) ∷ open_changed ∷ event (received 0 (codes "up")) ∷ stream_toggled ∷ []

abbrev late : List (Event Text)
late = received 1 (codes "a") ∷ threw 0 (some abort) ∷ received 1 (codes "b") ∷ ended 1 ∷ []

logs-start_streaming_example :
    (deliver_all same late (start_streaming (handle_all same stopped mounted))).logs
    ≡ sent (handle_all same stopped mounted).started late
unfolding handle
logs-start_streaming_example =
    logs-start_streaming same stopped web late refl (λ n r. ground (arith, r))

-- The sheet is open and its stream has sent a line.
abbrev streaming : Sheet Text
streaming =
    handle same (event (received 0 (codes "up")))
      (handle same open_changed (handle same (chosen (some web)) mounted))

streaming-Orderly : Orderly same streaming
unfolding handle
streaming-Orderly =
    step (event (received 0 (codes "up")))
      (step open_changed (step (chosen (some web)) begun (inl refl)) (inl refl)) (inr refl)

live_example : (streaming.controller ≡ some 0) × (streaming.is_streaming ≡ true)
unfolding handle
live_example = live_lem same streaming 0 streaming-Orderly refl refl

stopped_example :
    ((deliver_all same late (handle same stream_toggled streaming)).logs ≡ streaming.logs)
    × ((deliver_all same late (handle same open_changed streaming)).logs ≡ [])
unfolding handle
stopped_example = stopped_lem same streaming late streaming-Orderly refl refl

recovery_example :
    ((handle same stream_toggled (handle same (event (threw 0 (some reset))) streaming)).effects
      ≡ (streaming.effects ++ told same reset) ++ stream_opened web streaming.log_lines ∷ [])
    × ((deliver_all same late
          (handle same stream_toggled (handle same (event (threw 0 (some reset))) streaming))).logs
        ≡ sent streaming.started late)
unfolding handle
recovery_example = recovery same streaming 0 reset web late streaming-Orderly refl refl

-- Another number of lines restarts the stream; the abort of the old one then loses the new one, which goes on
-- while the viewer shows that it does not stream, and pressing the toggle opens a third beside it.
abbrev restarted : List (Input Text)
restarted =
    chosen (some web) ∷ open_changed ∷ lines_typed (some 50) ∷ event (threw 0 (some abort)) ∷ []

restarted_lost :
    ((handle_all same restarted mounted).is_streaming ≡ false)
    × (((handle_all same restarted mounted).controller ≡ none)
        × (((handle_all same (restarted ++ stream_toggled ∷ []) mounted).running ≡ 2 ∷ 1 ∷ [])
            × ((handle_all same (restarted ++ stream_toggled ∷ []) mounted).aborted ≡ 0 ∷ [])))
unfolding handle
restarted_lost = (refl, (refl, (refl, refl)))

-- The reply to a refresh replaces what a stream started meanwhile has sent.
refreshed_over :
    (handle_all same
      (stopped
        ++ event (ended 0)
          ∷ refreshed
          ∷ stream_toggled
          ∷ event (received 1 (codes "a"))
          ∷ fetched (codes "old" ∷ [])
          ∷ [])
      mounted).logs
    ≡ codes "old" ∷ []
unfolding handle
refreshed_over = refl

-- A stream that ends leaves the viewer showing that it streams.
ended_shown : (handle same (event (ended 0)) streaming).is_streaming ≡ true
unfolding handle
ended_shown = refl
