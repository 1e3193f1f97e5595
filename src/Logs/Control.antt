-- ===== src/Logs/Control.antt =====
-- How the log sheet follows a container: fetchLogs, startStreaming, stopStreaming, the toggle, the
-- refresh and the effects of frontend/src/features/containers/components/containers-logs-sheet.tsx.
-- A stream runs beside the others that were started: each has a number, which stands for its
-- AbortController, and what it does next is an event of its own. Lower case is the runtime's, a
-- parameter.
pub mod Runs
pub mod Session
pub mod Orderly
pub mod Recovery
mod Tests
use vps_monitor.Common.{
  ℕ, suc, ◌+◌, Text, codes, text_eq, includes, Option, none, some, List, [], ◌∷◌, ◌++◌, Bool, true,
  false, not, ◌&&◌, ◌||◌, if◌then◌else◌, ◌==◌, any, filter, ◌-◌, ltb,
}

-- The container of the props, as far as the requests name it.
pub record Target : Type 0 where
  pub id : Text
  pub host : Text

-- A thrown Error.
pub record Failure : Type 0 where
  pub name : Text
  pub message : Text

pub data Effect : Type 0 where
  -- The requests, with `tail`.
  stream_opened : Target → ℕ → Effect
  logs_requested : Target → ℕ → Effect
  fetch_error : Text → Effect
  stream_error : Text → Effect

-- What a stream's loop meets: an entry, the end, or something thrown, where `none` is no Error.
pub data Event {ℓ} (Entry : Type ℓ) : Type ℓ where
  received : ℕ → Entry → Event Entry
  ended : ℕ → Event Entry
  threw : ℕ → Option Failure → Event Entry

pub data Input {ℓ} (Entry : Type ℓ) : Type ℓ where
  -- New props: another container object, or the other `isOpen`.
  chosen : Option Target → Input Entry
  open_changed : Input Entry
  stream_toggled refreshed : Input Entry
  -- The number that parseInt reads, where `none` is NaN or below 0.
  lines_typed : Option ℕ → Input Entry
  fetched : List Entry → Input Entry
  fetch_threw : Option Failure → Input Entry
  event : Event Entry → Input Entry

-- `running` has the streams whose loop is not left, `aborted` the aborted controllers, `started` is how
-- many streams were started, `pending` how many requests of fetchLogs are out.
pub record Sheet {ℓ} (Entry : Type ℓ) : Type ℓ where
  pub container : Option Target
  pub is_open : Bool
  pub log_lines : ℕ
  pub is_streaming : Bool
  pub is_loading_logs : Bool
  pub logs : List Entry
  pub controller : Option ℕ
  pub running : List ℕ
  pub aborted : List ℕ
  pub started : ℕ
  pub pending : ℕ
  pub effects : List Effect

abbrev pub member : ℕ → List ℕ → Bool
member n = any (λ m. m == n)

abbrev pub without : ℕ → List ℕ → List ℕ
without n = filter (λ m. not (m == n))

abbrev pub with_controller : Option ℕ → List ℕ → List ℕ
with_controller none aborted = aborted
with_controller (some n) aborted = n ∷ aborted

unfoldable pub is_abort : (Text → Text) → Failure → Bool
is_abort to_lower error =
    text_eq error.name (codes "AbortError") || includes (to_lower error.message) (codes "aborted")

-- The toast for what a stream threw.
unfoldable pub reported : (Text → Text) → Option Failure → List Effect
unfolding is_abort
reported to_lower none = []
reported to_lower (some error) =
    if is_abort to_lower error then [] else stream_error error.message ∷ []

-- The toast for what a request of fetchLogs threw.
abbrev pub fetch_reported : Option Failure → List Effect
fetch_reported none = []
fetch_reported (some error) = fetch_error error.message ∷ []

module _ {ℓ} {Entry : Type ℓ} where
  abbrev pub mounted : Sheet Entry
  mounted = record {
    container = none;
    is_open = false;
    log_lines = 100;
    is_streaming = false;
    is_loading_logs = false;
    logs = [];
    controller = none;
    running = [];
    aborted = [];
    started = 0;
    pending = 0;
    effects = [];
  }

  unfoldable pub stop_streaming : Sheet Entry → Sheet Entry
  stop_streaming s = record s {
    aborted = with_controller s.controller s.aborted;
    controller = none;
    is_streaming = false;
  }

  -- `startStreaming`, up to where its loop waits for the first entry.
  unfoldable pub start_at : Option Target → Sheet Entry → Sheet Entry
  start_at none s = s
  start_at (some target) s = record s {
    is_streaming = true;
    is_loading_logs = false;
    logs = [];
    controller = some s.started;
    running = s.started ∷ s.running;
    started = suc s.started;
    effects = s.effects ++ stream_opened target s.log_lines ∷ [];
  }

  unfoldable pub start_streaming : Sheet Entry → Sheet Entry
  unfolding start_at
  start_streaming s = start_at s.container s

  -- `fetchLogs`, up to the reply.
  unfoldable pub fetch_at : Option Target → Sheet Entry → Sheet Entry
  fetch_at none s = s
  fetch_at (some target) s = record s {
    is_loading_logs = true;
    pending = suc s.pending;
    effects = s.effects ++ logs_requested target s.log_lines ∷ [];
  }

  abbrev cleared : Sheet Entry → Sheet Entry
  cleared s = record s { logs = [] }

  -- The effect on the container, `isOpen` and `startStreaming`.
  unfoldable pub follow : Sheet Entry → Sheet Entry
  unfolding stop_streaming start_streaming
  follow s =
      let stopped = cleared (stop_streaming s) in
      if s.is_open then start_streaming stopped else stopped

  -- The effect on `isOpen`.
  unfoldable pub close : Sheet Entry → Sheet Entry
  unfolding stop_streaming
  close s = if s.is_open then s else cleared (stop_streaming s)

  unfoldable pub handle_toggle_stream : Sheet Entry → Sheet Entry
  unfolding stop_streaming start_streaming
  handle_toggle_stream s = if s.is_streaming then stop_streaming s else start_streaming s

  unfoldable pub handle_refresh : Sheet Entry → Sheet Entry
  unfolding fetch_at
  handle_refresh s = if s.is_streaming then s else fetch_at s.container s

  -- With another number of lines, `startStreaming` is another function and its effect runs.
  unfoldable pub handle_log_lines_change : Option ℕ → Sheet Entry → Sheet Entry
  unfolding follow
  handle_log_lines_change none s = s
  handle_log_lines_change (some n) s =
      if ltb 0 n && not (n == s.log_lines) then follow (record s { log_lines = n }) else s

  -- The reply to a request of fetchLogs, if one is out.
  unfoldable pub handle_fetched : List Entry → Sheet Entry → Sheet Entry
  handle_fetched entries s =
      if ltb 0 s.pending
      then record s { logs = entries; is_loading_logs = false; pending = s.pending - 1 }
      else s

  unfoldable pub handle_fetch_threw : Option Failure → Sheet Entry → Sheet Entry
  handle_fetch_threw error s =
      if ltb 0 s.pending
      then record s {
        logs = [];
        is_loading_logs = false;
        pending = s.pending - 1;
        effects = s.effects ++ fetch_reported error;
      }
      else s

  -- `finally` of a stream.
  abbrev pub left : ℕ → Sheet Entry → Sheet Entry
  left run s = record s {
    is_loading_logs = false;
    controller = none;
    running = without run s.running;
  }

  abbrev pub run_of : Event Entry → ℕ
  run_of (received run entry) = run
  run_of (ended run) = run
  run_of (threw run error) = run

  module _ (to_lower : Text → Text) where
    -- The next event of a stream that runs.
    unfoldable pub deliver_running : Event Entry → Sheet Entry → Sheet Entry
    unfolding reported
    deliver_running (received run entry) s =
        if member run s.aborted then left run s else record s { logs = s.logs ++ entry ∷ [] }
    deliver_running (ended run) s = left run s
    deliver_running (threw run error) s =
        left run (record s { is_streaming = false; effects = s.effects ++ reported to_lower error })

    -- A stream whose loop is left does nothing more.
    unfoldable pub deliver : Event Entry → Sheet Entry → Sheet Entry
    unfolding deliver_running
    deliver e s = if member (run_of e) s.running then deliver_running e s else s

    unfoldable pub handle : Input Entry → Sheet Entry → Sheet Entry
    unfolding follow close handle_toggle_stream handle_refresh handle_log_lines_change deliver
        handle_fetched handle_fetch_threw
    handle (chosen container) s = follow (record s { container = container })
    handle open_changed s = follow (close (record s { is_open = not s.is_open }))
    handle stream_toggled s = handle_toggle_stream s
    handle refreshed s = handle_refresh s
    handle (lines_typed n) s = handle_log_lines_change n s
    handle (fetched entries) s = handle_fetched entries s
    handle (fetch_threw error) s = handle_fetch_threw error s
    handle (event e) s = deliver e s

    abbrev pub deliver_all : List (Event Entry) → Sheet Entry → Sheet Entry
    deliver_all [] s = s
    deliver_all (e ∷ es) s = deliver_all es (deliver e s)
