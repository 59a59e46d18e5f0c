-- ===== src/Tests/ProtocolTests.antt =====
-- The protocol.
use flexiv_control.Common.{◌≡◌, some, [], ◌∷◌}
use flexiv_control.Common.Int.{ℤ}
use flexiv_control.Common.Result.{err, value_error}
use flexiv_control.Number.Fixed.{fixed}
use flexiv_control.Types.{ControlMode, RobotState}
use flexiv_control.ActionChunk.{CartesianChunk}
use flexiv_control.Protocol.{chunk_to_dict}
use flexiv_control.Protocol.Wire.{Builtins}
use flexiv_control.Protocol.Decode.{chunk_from_dict}
use flexiv_control.Protocol.RoundTrip.{rebuilt, chunk_from_dict-chunk_to_dict}
use flexiv_control.Tests.Numbers.{whole, middle, state_at, stiff, chunk_of, waypoint}

-- An interpreter that converts no text.
abbrev pub builtins : Builtins ℤ
builtins = record {
  float_of_text = λ t. err value_error;
  int_of_text = λ t. err value_error;
  int_of_float = λ x. err value_error;
}

abbrev pub state : RobotState ℤ
state = state_at middle ControlMode.rt_joint_torque

-- A waypoint with a quaternion that is not of unit length, and one without.
abbrev turning : CartesianChunk ℤ
turning = chunk_of (
    record (waypoint 500 500 400) {
      quaternion = some (record { w = whole 2; x = whole 0; y = whole 0; z = whole 1 });
    }
    ∷ waypoint 500 500 300
    ∷ [])

chunk_from_dict-chunk_to_dict_example :
    chunk_from_dict builtins stiff (chunk_to_dict turning) ≡ rebuilt turning
chunk_from_dict-chunk_to_dict_example = chunk_from_dict-chunk_to_dict builtins stiff turning
