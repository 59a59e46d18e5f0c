-- ===== src/Safety/Watchdog.antt =====
-- The two age checks of the filter.
use package.flexiv_control.Safety.Profile.{SafetyResult, SafetyFilter, rejected, passed}
use flexiv_control.Common.{◌&&◌, if◌then◌else◌}
use flexiv_control.Number.{Number}
use flexiv_control.Types.{StopReason}

module _ {F : Type 0} ⦃n : Number F⦄ where
  unfoldable pub check_command_age : F → SafetyFilter F → SafetyResult F
  check_command_age age_ms f =
      if f.p.stop_on_stale_command && n.lt f.p.command_timeout_ms age_ms
      then rejected StopReason.stale_command
      else passed

  unfoldable pub check_state_age : F → SafetyFilter F → SafetyResult F
  check_state_age age_ms f =
      if f.p.stop_on_state_stale && n.lt f.p.state_timeout_ms age_ms
      then rejected StopReason.stale_state
      else passed
