-- ===== src/Alerts/Counts.antt =====
-- The numbers that the page of alerts shows: frontend/src/features/alerts/components/alerts-list.tsx.
use vps_monitor.Common.{number, ◌+◌, List, [], ◌∷◌, not, filter, length, ◌≡◌, refl, arith}
use vps_monitor.Alerts.{
  AlertType, container_stopped, cpu_threshold, memory_threshold, Alert, AlertsList, all_alerts,
  is_type, unacknowledged_count, type_count, acknowledged_shown, usage_shown,
}

by_type :
    (t : AlertType)
    → number (is_type t cpu_threshold)
        + number (is_type t memory_threshold)
        + number (is_type t container_stopped)
      ≡ 1
by_type container_stopped = refl
by_type cpu_threshold = refl
by_type memory_threshold = refl

of_types :
    (xs : List Alert)
    → length (filter (λ a. is_type a.alert_type cpu_threshold) xs)
        + length (filter (λ a. is_type a.alert_type memory_threshold) xs)
        + length (filter (λ a. is_type a.alert_type container_stopped) xs)
      ≡ length xs
of_types [] = refl
of_types (a ∷ xs) = ground (arith, of_types xs, by_type a.alert_type)

of_flags :
    (xs : List Alert)
    → length (filter (λ a. not a.acknowledged) xs) + length (filter (λ a. a.acknowledged) xs)
      ≡ length xs
of_flags [] = refl
of_flags (a ∷ xs) = ground (arith, of_flags xs)

-- The numbers of the cards add up: the alerts for CPU and memory and those for stopped containers are all alerts,
-- and the number shown xs acknowledged is that of the acknowledged alerts.
pub shown_numbers :
    (s : AlertsList)
    → (usage_shown s + type_count container_stopped s ≡ length (all_alerts s))
      × (acknowledged_shown s ≡ length (filter (λ a. a.acknowledged) (all_alerts s)))
unfolding usage_shown type_count acknowledged_shown unacknowledged_count
shown_numbers s = (of_types (all_alerts s), omega (arith, of_flags (all_alerts s)))
