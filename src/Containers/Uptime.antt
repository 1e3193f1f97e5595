-- ===== src/Containers/Uptime.antt =====
-- formatUptime of frontend/src/features/containers/components/container-utils.ts. The time is in milliseconds;
-- the text of a number is the runtime's, a parameter.
use vps_monitor.Common.{
  ℕ, ◌+◌, ◌-◌, ◌*◌, ◌/◌, ◌≤◌, ◌<◌, Text, codes, [], ◌∷◌, ◌++◌, if◌then◌else◌, ltb, leb, ◌==◌, ◌≡◌,
  arith, ◌⊎◌, ℤ, pos, negsuc,
}

pub data TimeUnit : Type 0 where
  second minute hour day week month year : TimeUnit

abbrev pub unit_text : TimeUnit → Text
unit_text second = codes "second"
unit_text minute = codes "minute"
unit_text hour = codes "hour"
unit_text day = codes "day"
unit_text week = codes "week"
unit_text month = codes "month"
unit_text year = codes "year"

-- The number and its unit, of a number of seconds.
unfoldable pub uptime_of : ℕ → ℕ × TimeUnit
uptime_of seconds =
    let minutes = seconds / 60 in
    let hours = minutes / 60 in
    let days = hours / 24 in
    if ltb 0 (days / 365)
    then (days / 365, year)
    else if ltb 0 (days / 30)
    then (days / 30, month)
    else if ltb 0 (days / 7)
    then (days / 7, week)
    else if ltb 0 days
    then (days, day)
    else if ltb 0 hours
    then (hours, hour)
    else if ltb 0 minutes
    then (minutes, minute)
    else (seconds, second)

-- The whole seconds between two times in milliseconds, rounded down.
unfoldable pub seconds_between : ℕ → ℕ → ℤ
seconds_between created now =
    if leb created now then pos ((now - created) / 1000) else negsuc ((created - now - 1) / 1000)

abbrev pub plural : ℕ → TimeUnit → Text
plural n second = if n == 1 then [] else codes "s"
plural n _ = if ltb 1 n then codes "s" else []

-- A time in the future is a negative number of seconds.
abbrev uptime_text : (ℤ → Text) → ℤ → Text
unfolding uptime_of
uptime_text print (negsuc n) = print (negsuc n) ++ codes " seconds"
uptime_text print (pos n) =
    let (amount, unit) = uptime_of n in
    print (pos amount) ++ 32 ∷ (unit_text unit ++ plural amount unit)

unfoldable pub format_uptime : (ℤ → Text) → ℕ → ℕ → Text
unfolding uptime_text seconds_between
format_uptime print created_seconds now =
    uptime_text print (seconds_between (created_seconds * 1000) now)

abbrev pub seconds_in : TimeUnit → ℕ
seconds_in second = 1
seconds_in minute = 60
seconds_in hour = 3600
seconds_in day = 86400
seconds_in week = 604800
seconds_in month = 2592000
seconds_in year = 31536000

-- The amount shown is the whole number of its units that the seconds have: not more, and not one more would
-- fit; the amount is 0 only where there is no second; and no larger unit would do, since of every unit that
-- is larger than the one shown the seconds are less than one.
pub uptime_of_bounds :
    (s : ℕ) (u : TimeUnit)
    → ((uptime_of s).0 * seconds_in (uptime_of s).1 ≤ s)
      × ((s < ((uptime_of s).0 + 1) * seconds_in (uptime_of s).1)
          × (((1 ≤ (uptime_of s).0) ⊎ (s ≡ 0))
              × ((seconds_in u ≤ seconds_in (uptime_of s).1) ⊎ (s < seconds_in u))))
unfolding uptime_of
uptime_of_bounds s second = ground arith
uptime_of_bounds s minute = ground arith
uptime_of_bounds s hour = ground arith
uptime_of_bounds s day = ground arith
uptime_of_bounds s week = ground arith
uptime_of_bounds s month = ground arith
uptime_of_bounds s year = ground arith
