-- ===== src/Client/Methods.antt =====
-- The methods of `RemoteRobot` that mirror those of `Robot`. A chunk and a result cross the wire as
-- JSON values; the other arguments are what the server's handler reads from theirs.
use package.flexiv_control.Client.{Remote, Passage, call}
use flexiv_control.Common.{
  String, Bool, not, ◌&&◌, Option, none, some, get_or_else, List, if◌then◌else◌,
}
use flexiv_control.Common.Result.{Result, err, key_error, chunk_stopped}
use flexiv_control.Common.Exec.{Exec, return, raise, attempt, gets, ◌>>=◌, ◌>>◌}
use flexiv_control.Number.{Number}
use flexiv_control.Types.{Vec3, Vec6, Pose, RobotState, ImpedanceParams, GripperCommand}
use flexiv_control.ActionChunk.{CartesianChunk, JointChunk}
use flexiv_control.Safety.Profile.{SafetyProfile}
use flexiv_control.Backend.{Backend}
use flexiv_control.Protocol.{state_to_dict, chunk_to_dict, joint_chunk_to_dict}
use flexiv_control.Protocol.Wire.{Json, Builtins}
use flexiv_control.Protocol.Decode.{state_from_dict, chunk_from_dict, joint_chunk_from_dict}
use flexiv_control.Protocol.Outcome.{ReceivedResult, result_to_dict, result_from_dict}
use flexiv_control.Robot.Report.{ExecutionLog}
use flexiv_control.Robot.Gripper.{Grip}
use flexiv_control.Server.Motion.{Reply, Motion}
use flexiv_control.Server.Dispatch.{Request}

-- What both ends know of the wire: the builtins of Python, how a log is written, and ImpedanceParams().
pub record Codec (F : Type 0) : Type 0 where
  pub py : Builtins F
  pub logs : ExecutionLog F → Json F
  pub default_impedance : ImpedanceParams F

module _ {F : Type 0} ⦃n : Number F⦄ where
  -- The server makes an impedance of a stiffness only, with 0.7 for a damping ratio that is not sent.
  unfoldable pub impedance_of :
      (stiffness damping_ratio : Option (Vec6 F)) → Option (ImpedanceParams F)
  impedance_of none damping = none
  impedance_of (some stiffness) damping =
      let mild = n.lit 7 1 in
      let axis : Vec3 F = record { x = mild; y = mild; z = mild } in
      some (record {
        stiffness = stiffness;
        damping_ratio = get_or_else (record { linear = axis; angular = axis }) damping;
      })

  module _ (codec : Codec F) where
    -- P.result_from_dict(r["result"])
    unfoldable pub result_in : Reply F → Result (ReceivedResult F)
    result_in (Reply.result r) = result_from_dict codec.py (result_to_dict codec.logs r)
    result_in (Reply.homed h) = result_from_dict codec.py (result_to_dict codec.logs h.result)
    result_in _ = err key_error

    -- P.state_from_dict(...["state"])
    unfoldable pub state_in : Reply F → Result (RobotState F)
    state_in (Reply.state s) = state_from_dict codec.py (state_to_dict s)
    state_in _ = err key_error

    abbrev width_in : Reply F → Option (Grip F)
    width_in (Reply.final_width g) = some g
    width_in _ = none

    module _ {B : Type 0} (ops : Backend F B) where
      -- A motion in the client's name.
      unfoldable pub ask : Motion F → Passage F → Exec (Remote F B) (Reply F)
      ask m p = do c ← gets (λ c. c); call ops p (Request.motion c.owner m)

      unfoldable pub asked : Motion F → Passage F → Exec (Remote F B) (ReceivedResult F)
      asked m p = ask m p >>= λ r. attempt (result_in r)

      unfoldable pub raised_if : Bool → ReceivedResult F → Exec (Remote F B) (ReceivedResult F)
      raised_if raise_on_stop r =
          if raise_on_stop && not r.success then raise chunk_stopped else return r

      unfoldable pub execute_cartesian_chunk :
          CartesianChunk F
          → (raise_on_stop : Bool) → Passage F
          → Exec (Remote F B) (ReceivedResult F)
      execute_cartesian_chunk chunk raise_on_stop p = do
        r ←
            asked
              (Motion.cartesian_chunk
                (chunk_from_dict codec.py codec.default_impedance (chunk_to_dict chunk)))
              p
        raised_if raise_on_stop r

      unfoldable pub execute_joint_chunk :
          JointChunk F → (raise_on_stop : Bool) → Passage F → Exec (Remote F B) (ReceivedResult F)
      execute_joint_chunk chunk raise_on_stop p = do
        r ←
            asked (Motion.joint_chunk (joint_chunk_from_dict codec.py (joint_chunk_to_dict chunk)))
              p
        raised_if raise_on_stop r

      unfoldable pub servo_cartesian_delta :
          Vec6 F
          → (duration : Option F) → (frame : String) → Option (GripperCommand F)
          → Passage F
          → Exec (Remote F B) (ReceivedResult F)
      servo_cartesian_delta delta duration frame gripper p =
          asked (Motion.servo_delta delta duration frame gripper) p

      unfoldable pub servo_cartesian_pose :
          Pose F → F → Option (GripperCommand F) → Passage F → Exec (Remote F B) (ReceivedResult F)
      servo_cartesian_pose pose duration gripper p =
          asked (Motion.servo_pose pose duration gripper) p

      unfoldable pub move_joint :
          List F
          → (duration max_joint_speed : Option F) → (realtime : Bool) → Passage F
          → Exec (Remote F B) (ReceivedResult F)
      move_joint q duration max_joint_speed realtime p =
          asked (Motion.joint_target q duration max_joint_speed realtime) p

      unfoldable pub go_home_safe :
          Option (List F)
          → F
          → Option F
          → (max_tcp_speed max_joint_speed : F) → Passage F
          → Exec (Remote F B) (ReceivedResult F)
      go_home_safe q_home lift_m open_gripper_width max_tcp_speed max_joint_speed p =
          asked (Motion.going_home q_home lift_m open_gripper_width max_tcp_speed max_joint_speed) p

      unfoldable pub command_gripper :
          GripperCommand F → Bool → F → Passage F → Exec (Remote F B) (Option (Grip F))
      command_gripper cmd wait timeout p =
          ask (Motion.gripper (some cmd) wait timeout) p >>= λ r. return (width_in r)

      unfoldable pub home :
          Option (List F)
          → (duration max_joint_speed : Option F) → Passage F
          → Exec (Remote F B) (Unit {0})
      home q duration max_joint_speed p =
          ask (Motion.homing q duration max_joint_speed) p >>= λ r. return tt

      unfoldable pub zero_ft_sensor : Passage F → Exec (Remote F B) (Unit {0})
      zero_ft_sensor p = ask Motion.zeroing p >>= λ r. return tt

      unfoldable pub start_cartesian_impedance :
          Bool
          → (stiffness damping_ratio : Option (Vec6 F)) → Option (List F)
          → Passage F
          → Exec (Remote F B) (Unit {0})
      start_cartesian_impedance realtime stiffness damping_ratio nullspace_q p =
          ask
            (Motion.cartesian_impedance (impedance_of stiffness damping_ratio) realtime nullspace_q)
            p
          >>= λ r. return tt

      unfoldable pub start_joint_impedance : Bool → Passage F → Exec (Remote F B) (Unit {0})
      start_joint_impedance realtime p = ask (Motion.joint_impedance realtime) p >>= λ r. return tt

      unfoldable pub get_state : Passage F → Exec (Remote F B) (RobotState F)
      get_state p = call ops p Request.get_state >>= λ r. attempt (state_in r)

      unfoldable pub stop : Passage F → Exec (Remote F B) (Unit {0})
      stop p = call ops p Request.stop >>= λ r. return tt

      -- `loaded` is the profile of that name as the server loads it.
      unfoldable pub set_safety_profile :
          Result (SafetyProfile F) → Passage F → Exec (Remote F B) (Unit {0})
      set_safety_profile loaded p = do
        c ← gets (λ c. c)
        call ops p (Request.set_safety_profile c.owner loaded)
        return tt

      unfoldable pub start_servo_loop : Option F → Passage F → Exec (Remote F B) (Unit {0})
      start_servo_loop control_hz p = do
        c ← gets (λ c. c)
        call ops p (Request.start_servo_loop c.owner control_hz)
        return tt

      unfoldable pub servo_stream :
          Pose F → Option (GripperCommand F) → Passage F → Exec (Remote F B) (Unit {0})
      servo_stream pose gripper p = do
        c ← gets (λ c. c)
        call ops p (Request.servo_stream c.owner pose gripper)
        return tt

      unfoldable pub servo_stream_joint : List F → Passage F → Exec (Remote F B) (Unit {0})
      servo_stream_joint q p = do
        c ← gets (λ c. c)
        call ops p (Request.servo_stream_joint c.owner q)
        return tt

      unfoldable pub stop_servo_loop : Passage F → Exec (Remote F B) (Unit {0})
      stop_servo_loop p = do
        c ← gets (λ c. c)
        call ops p (Request.stop_servo_loop c.owner)
        return tt
