-- ===== src/Server/Motion.antt =====
-- The requests that make the robot move or change its mode: they need the lease and run under the
-- lock. The parameters are decoded already; what `protocol.py` raised on a chunk is its error.
use package.flexiv_control.Server.{Server, Times, require_lease, motion_lock}
use flexiv_control.Common.{ℕ, String, Bool, false, Option, none, List, get_or_else}
use flexiv_control.Common.Result.{Result}
use flexiv_control.Common.Exec.{Exec, return, attempt, ◌>>=◌, ◌>>◌}
use flexiv_control.Number.{Number, zero_num}
use flexiv_control.Types.{Vec6, Pose, RobotState, ImpedanceParams, GripperCommand}
use flexiv_control.ActionChunk.{CartesianChunk, JointChunk}
use flexiv_control.Safety.Profile.{SafetyProfile}
use flexiv_control.Backend.{Backend}
use flexiv_control.Robot.{Robot, start_cartesian_impedance, start_joint_impedance, zero_ft_sensor}
use flexiv_control.Robot.Report.{ExecutionResult}
use flexiv_control.Robot.Cartesian.Method.{execute_cartesian_chunk}
use flexiv_control.Robot.Joint.{execute_joint_chunk}
use flexiv_control.Robot.Gripper.{Grip, command_gripper}
use flexiv_control.Robot.Moves.{
  open_to, servo_cartesian_delta, servo_cartesian_pose, move_joint, home,
}
use flexiv_control.Robot.GoHome.{World, HomeResult, go_home_safe}
use flexiv_control.Lease.{LeaseInfo}
use flexiv_control.Lease.Sections.{Section}

-- What a handler returns.
pub data Reply (F : Type 0) : Type 0 where
  pong released started done stopped : Reply F
  granted : LeaseInfo → Reply F
  owned_by : String → Reply F
  expires_at : Option ℕ → Reply F
  profile_name : String → Reply F
  profile : SafetyProfile F → Reply F
  state : RobotState F → Reply F
  result : ExecutionResult F → Reply F
  final_width : Grip F → Reply F
  homed : HomeResult F → Reply F

pub data Motion (F : Type 0) : Type 0 where
  cartesian_impedance : Option (ImpedanceParams F) → Bool → Option (List F) → Motion F
  joint_impedance : Bool → Motion F
  servo_delta : Vec6 F → Option F → String → Option (GripperCommand F) → Motion F
  servo_pose : Pose F → F → Option (GripperCommand F) → Motion F
  cartesian_chunk : Result (CartesianChunk F) → Motion F
  joint_chunk : Result (JointChunk F) → Motion F
  joint_target : List F → (duration max_joint_speed : Option F) → Bool → Motion F
  gripper : Option (GripperCommand F) → Bool → F → Motion F
  homing : Option (List F) → (duration max_joint_speed : Option F) → Motion F
  going_home : Option (List F) → F → Option F → (max_tcp_speed max_joint_speed : F) → Motion F
  zeroing : Motion F

-- What goes on around a motion: the world of the robot, and the lease in other threads.
pub record Scene (F : Type 0) : Type 0 where
  pub world : World F
  pub others : List Section
  pub times : Times

-- What is decoded after the lease was checked and before the lock is taken.
abbrev pub decoded : {F : Type 0} → Motion F → Result (Unit {0})
decoded (cartesian_chunk (Result.err e)) = Result.err e
decoded (joint_chunk (Result.err e)) = Result.err e
decoded _ = Result.ok tt

module _ {F : Type 0} ⦃n : Number F⦄ {B : Type 0} (ops : Backend F B) where
  -- The robot's method that a request calls, and the reply made of what it returns.
  unfoldable pub motion_body : World F → Motion F → Exec (Robot F B) (Reply F)
  motion_body w (cartesian_impedance impedance realtime nullspace) =
      start_cartesian_impedance ops impedance realtime none nullspace >>= λ u. return started
  motion_body w (joint_impedance realtime) =
      start_joint_impedance ops none realtime >>= λ u. return started
  motion_body w (servo_delta delta duration frame grip) =
      servo_cartesian_delta ops delta duration frame grip w.moving >>= λ r. return (result r)
  motion_body w (servo_pose pose duration grip) =
      servo_cartesian_pose ops pose duration grip w.moving >>= λ r. return (result r)
  motion_body w (cartesian_chunk decoded) = attempt decoded >>= λ c.
      execute_cartesian_chunk ops c false false w.moving >>= λ r. return (result r)
  motion_body w (joint_chunk decoded) =
      attempt decoded >>= λ c. execute_joint_chunk ops c false w.moving >>= λ r. return (result r)
  motion_body w (joint_target q duration limit realtime) =
      move_joint ops q duration limit realtime w.moving >>= λ r. return (result r)
  motion_body w (gripper cmd wait timeout) =
      command_gripper ops (get_or_else (open_to zero_num) cmd) wait timeout w.waiting.t0
        w.waiting.glances w.waiting.fuel
      >>= λ g. return (final_width g)
  motion_body w (homing q duration limit) =
      home ops q duration limit w.moving w.waiting >>= λ u. return done
  motion_body w (going_home q lift width tcp_speed joint_speed) =
      go_home_safe ops q lift width tcp_speed joint_speed w >>= λ h. return (homed h)
  motion_body w zeroing = zero_ft_sensor ops >>= λ u. return done

  -- The handler of a motion request of `owner`.
  unfoldable pub handle_motion : String → Scene F → Motion F → Exec (Server F B) (Reply F)
  unfolding ◌>>=◌ require_lease motion_lock
  handle_motion owner scene m = do
    o ← require_lease owner scene.times
    attempt (decoded m)
    motion_lock o scene.times scene.others (motion_body scene.world m)
