-- ===== src/Tests.antt =====
-- The theorems at concrete inputs, over the fixed-point numbers.
mod Numbers
mod SafetyTests
mod LeaseTests
mod ChunkTests
mod RobotTests
mod MoveTests
mod ServerTests
mod ProtocolTests
mod PreviewTests
mod ClientTests
mod RdkTests
mod TeleopTests
mod EnvTests
use flexiv_control.Common.{ℕ}
