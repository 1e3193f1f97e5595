-- ===== src/Containers/Tests.antt =====
-- The grouping of a few containers.

use vps_monitor.Containers.{desc}
use vps_monitor.Containers.Samples.{three}
use vps_monitor.Containers.Grouping.{group_by_compose, IsPartition, group_by_compose-IsPartition}
use vps_monitor.Common.{ℕ, ◌+◌, ◌*◌, ◌≤◌, ◌<◌, ◌⊎◌, ◌≡◌, refl}
use vps_monitor.Containers.Uptime.{uptime_of, seconds_in, week, uptime_of_bounds}

group_by_compose-IsPartition_example : IsPartition three (group_by_compose three desc)
group_by_compose-IsPartition_example = group_by_compose-IsPartition three desc

abbrev idle : ℕ
idle = 100000

uptime_of_bounds_example :
    ((uptime_of idle).0 * seconds_in (uptime_of idle).1 ≤ idle)
    × ((idle < ((uptime_of idle).0 + 1) * seconds_in (uptime_of idle).1)
        × (((1 ≤ (uptime_of idle).0) ⊎ (idle ≡ 0))
            × ((seconds_in week ≤ seconds_in (uptime_of idle).1) ⊎ (idle < seconds_in week))))
uptime_of_bounds_example = uptime_of_bounds idle week

-- Four weeks and two days short of a month.
in_weeks : uptime_of 2500000 ≡ (4, week)
unfolding uptime_of
in_weeks = refl
