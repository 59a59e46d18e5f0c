-- ===== src/Safety.antt =====
-- src/flexiv_control/safety.py: the safety profile, and the filter that every setpoint passes on its
-- way to the robot. The filter is the state; each method returns its result beside it.
pub mod Profile
pub mod Cartesian
pub mod Joint
pub mod Watchdog
