-- ===== src/Tests/ChunkTests.antt =====
-- Chunks and their interpolation.
use flexiv_control.Common.{◌≡◌, none, some, length, last_or, map}
use flexiv_control.Common.Int.{ℤ}
use flexiv_control.Number.Fixed.{fixed, fixed-IsOrdered, fixed-IsExact}
use flexiv_control.Interpolation.{Rates, setpoints}
use flexiv_control.Interpolation.Ticks.{planned_ticks, commands, commands_of, setpoints_lem}
use flexiv_control.Interpolation.Reach.{destination, position_of, setpoints-destination}
use flexiv_control.Tests.Numbers.{whole, middle, two_waypoints, fixed-IsEased}

abbrev rates : Rates ℤ
rates = record { hz = whole 10; max_linear_speed = some (whole 1); max_angular_speed = none }

setpoints_lem_example :
    (length (setpoints rates two_waypoints middle)
      ≡ planned_ticks rates middle two_waypoints.waypoints)
    × (commands (setpoints rates two_waypoints middle) ≡ commands_of two_waypoints.waypoints)
setpoints_lem_example = setpoints_lem rates two_waypoints middle

setpoints-destination_example :
    last_or middle.position (map position_of (setpoints rates two_waypoints middle))
    ≡ destination middle two_waypoints.waypoints
setpoints-destination_example =
    setpoints-destination fixed-IsOrdered fixed-IsExact fixed-IsEased rates two_waypoints middle
