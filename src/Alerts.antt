-- ===== src/Alerts.antt =====
-- The alerts: frontend/src/features/alerts: components/alerts-list.tsx and alert-badge.tsx, types.ts and
-- api/get-alerts.ts. The text of a number is the runtime's, a parameter.
pub mod Counts
use vps_monitor.Common.{
  ℕ, ◌+◌, ◌-◌, ◌/◌, Text, codes, truthy, or_text, or_else, Option, none, some, List, [], ◌∷◌, ◌++◌,
  Bool, true, false, not, if◌then◌else◌, filter, length, ltb, ◌==◌,
}
use vps_monitor.Auth.{ok}

pub data AlertType : Type 0 where
  container_stopped cpu_threshold memory_threshold : AlertType

-- `value` and `threshold`, which are only shown, are left out.
pub record Alert : Type 0 where
  pub id : Text
  pub alert_type : AlertType
  pub container_id : Text
  pub container_name : Text
  pub host : Text
  pub message : Text
  pub timestamp : ℕ
  pub acknowledged : Bool

pub record AlertsList : Type 0 where
  pub data_alerts : Option (List Alert)
  pub show_acknowledged : Bool

abbrev pub all_alerts : AlertsList → List Alert
all_alerts s = or_else s.data_alerts []

unfoldable pub filtered_alerts : AlertsList → List Alert
filtered_alerts s =
    if s.show_acknowledged then all_alerts s else filter (λ a. not a.acknowledged) (all_alerts s)

abbrev pub is_type : AlertType → AlertType → Bool
is_type container_stopped container_stopped = true
is_type cpu_threshold cpu_threshold = true
is_type memory_threshold memory_threshold = true
is_type _ _ = false

unfoldable pub unacknowledged_count : AlertsList → ℕ
unacknowledged_count s = length (filter (λ a. not a.acknowledged) (all_alerts s))

-- `cpuCount`, `memCount` and `stoppedCount`.
unfoldable pub type_count : AlertType → AlertsList → ℕ
type_count t s = length (filter (λ a. is_type a.alert_type t) (all_alerts s))

-- The number of acknowledged ones on the first card, and the number on the third.
unfoldable pub acknowledged_shown : AlertsList → ℕ
unfolding unacknowledged_count
acknowledged_shown s = length (all_alerts s) - unacknowledged_count s

unfoldable pub usage_shown : AlertsList → ℕ
unfolding type_count
usage_shown s = type_count cpu_threshold s + type_count memory_threshold s

abbrev pub format_alert_type : AlertType → Text
format_alert_type container_stopped = codes "Container Stopped"
format_alert_type cpu_threshold = codes "CPU Threshold"
format_alert_type memory_threshold = codes "Memory Threshold"

-- The text where the list is empty.
unfoldable pub empty_text : AlertsList → Text
empty_text s =
    if s.show_acknowledged
    then codes "No alerts have been triggered"
    else codes "All alerts have been acknowledged"

-- What the badge shows, for a number that is not 0.
unfoldable pub badge_text : (ℕ → Text) → Option (List Alert) → Option Text
badge_text print alerts =
    let n = length (filter (λ a. not a.acknowledged) (or_else alerts [])) in
    if n == 0 then none else if ltb 9 n then some (codes "9+") else some (print n)

-- A failed request, or the status, the text, and the parsed JSON: whether it is an object, and its
-- `alerts` if that is an array.
pub record AlertsReply : Type 0 where
  pub status : ℕ
  pub body : Text
  pub is_object : Bool
  pub alerts : Option (List Alert)

pub data AlertsResult : Type 0 where
  alerts_of : List Alert → AlertsResult
  thrown : Text → AlertsResult

unfoldable pub get_alerts : (ℕ → Text) → AlertsReply → AlertsResult
get_alerts print r =
    if not (ok r.status)
    then thrown (or_text r.body (codes "Request failed with status " ++ print r.status))
    else if not r.is_object
    then thrown (codes "Unexpected response format")
    else alerts_of (or_else r.alerts [])

pub data AlertEffect : Type 0 where
  acknowledged_toast : AlertEffect
  failed_toast : Option Text → AlertEffect
  alerts_invalidated : AlertEffect

-- The reply to the request that acknowledges an alert; `none` is that it succeeded, and a text the
-- message of the error, if it is one.
unfoldable pub handle_acknowledge : Option (Option Text) → List AlertEffect
handle_acknowledge none = alerts_invalidated ∷ acknowledged_toast ∷ []
handle_acknowledge (some message) = failed_toast message ∷ []
