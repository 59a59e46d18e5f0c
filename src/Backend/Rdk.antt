-- ===== src/Backend/Rdk.antt =====
-- src/flexiv_control/backends/flexiv_rdk.py: `FlexivRdkBackend`, which drives the arm through the
-- vendor's package `flexivrdk`. The package is a parameter, `Sdk`, whose object stands for the arm
-- with its gripper; each of its calls may raise.
pub mod Connect
pub mod Methods
pub mod Records
pub mod Kept
pub mod Torque
pub mod Leftover
use flexiv_control.Common.{
  ℕ, zero, suc, String, Bool, true, false, Option, none, some, List, [], ◌∷◌, if◌then◌else◌,
}
use flexiv_control.Common.Result.{Result, ok, err, attribute_error, runtime_error}
use flexiv_control.Common.Exec.{Exec, return, raise, recover}
use flexiv_control.Number.{Number, zero_num}
use flexiv_control.Types.{ControlMode, Vec6, Pose, ForceControlParams}

-- The calls that command the arm and the gripper.
pub data Command (F : Type 0) : Type 0 where
  enable stop gripper_init : Command F
  switch_mode : ControlMode → Command F
  execute_primitive gripper_enable : String → Command F
  set_cartesian_impedance : (stiffness damping_ratio : Vec6 F) → Command F
  set_joint_impedance : (stiffness damping_ratio : List F) → Command F
  set_max_contact_wrench : Vec6 F → Command F
  set_force_control_axis : Vec6 Bool → Command F
  -- `CoordType.TCP`, or `CoordType.WORLD`
  set_force_control_frame : (tcp : Bool) → Command F
  set_null_space_posture : List F → Command F
  stream_cartesian_motion_force send_cartesian_motion_force : Pose F → Vec6 F → Command F
  stream_joint_position : (position velocity acceleration : List F) → Command F
  send_joint_position :
      (position velocity acceleration max_velocity max_acceleration : List F) → Command F
  gripper_grasp : F → Command F
  gripper_move : (width velocity force : F) → Command F

-- `states()`: the attributes that this version of the package has.
pub record Reading (F : Type 0) : Type 0 where
  pub q : Option (List F)
  pub dq : Option (List F)
  pub tau : Option (List F)
  pub tcp_pose : Option (Pose F)
  pub tcp_vel : Option (Vec6 F)
  pub wrench : Option (Vec6 F)

pub record GripperReading (F : Type 0) : Type 0 where
  pub width : F
  pub force : F

-- The package, over the object `V` of the arm.
pub record Sdk (F V : Type 0) : Type 0 where
  -- whether its enumeration of modes has the member
  pub exposes : ControlMode → Bool
  -- the constructors of its classes `Robot` and `Gripper`
  pub open_robot : Exec V (Unit {0})
  pub open_gripper : Exec V (Unit {0})
  pub call : Command F → Exec V (Unit {0})
  -- whether the object has a method `fault`, and what it returns
  pub has_fault : Bool
  pub fault : Exec V Bool
  -- `ClearFault`: false only if it returned False
  pub clear_fault : Exec V Bool
  pub operational : Exec V Bool
  -- mode() == Mode.IDLE
  pub mode_is_idle : Exec V Bool
  pub states : Exec V (Reading F)
  pub busy : Exec V Bool
  -- the entry of `primitive_states()` as a Boolean, if there is one
  pub reached_target : Exec V (Option Bool)
  pub gripper_states : Exec V (GripperReading F)
  -- `moving()`, or the field of that name
  pub gripper_moving : Exec V Bool
  -- Python's str.lower
  pub lower : String → String

-- The object. `attached` says whether `_robot` is set, and `gripper` whether `_gripper` is.
pub record FlexivRdk (F V : Type 0) : Type 0 where
  pub sdk : V
  pub attached : Bool
  pub n_joints : ℕ
  pub gripper_name : Option String
  pub allow_torque : Bool
  pub gripper : Bool
  pub mode : ControlMode
  pub connected : Bool
  pub force_control : Option (ForceControlParams F)

-- `[x] * n`
unfoldable pub replicate : {A : Type 0} → ℕ → A → List A
replicate zero x = []
replicate (suc n) x = x ∷ replicate n x

module _ {F V : Type 0} where
  -- A call of `self._robot` or of the gripper. `None` has no methods.
  unfoldable pub on_sdk : {A : Type 0} → Exec V A → Exec (FlexivRdk F V) A
  on_sdk m b =
      if b.attached
      then (let (a, v) = m b.sdk in (a, record b { sdk = v }))
      else (err attribute_error, b)

  -- `self._robot = flexivrdk.Robot(...)`
  abbrev pub made : Result (Unit {0}) × V → FlexivRdk F V → Result (Unit {0}) × FlexivRdk F V
  made (ok u, v) b = (ok u, record b { sdk = v; attached = true })
  made (err e, v) b = (err e, record b { sdk = v })

  unfoldable pub attach : Sdk F V → Exec (FlexivRdk F V) (Unit {0})
  attach sdk b = made (sdk.open_robot b.sdk) b

  -- `_rdk_mode`, and the mode that it finds handed to `SwitchMode`.
  unfoldable pub switched : Sdk F V → ControlMode → Exec V (Unit {0})
  switched sdk mode = if sdk.exposes mode then sdk.call (switch_mode mode) else raise runtime_error

  unfoldable pub switch : Sdk F V → ControlMode → Exec (FlexivRdk F V) (Unit {0})
  switch sdk mode = on_sdk (switched sdk mode)

  unfoldable pub in_fault : Sdk F V → Exec (FlexivRdk F V) Bool
  in_fault sdk b =
      if b.attached
      then (if sdk.has_fault then recover false (on_sdk sdk.fault) b else (ok false, b))
      else (ok false, b)
