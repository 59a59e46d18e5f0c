-- ===== src/Backend/Fake.antt =====
-- src/flexiv_control/backends/fake.py: the kinematic backend. The clock's reading at a call of
-- `read_state` is an argument. The logs stand newest first.
use package.flexiv_control.Backend.{ModeRequest, Backend}
use flexiv_control.Common.{
  Bool, true, false, ◌||◌, Option, List, [], ◌∷◌, get_or_else, if◌then◌else◌,
}
use flexiv_control.Common.Result.{ok, err, runtime_error}
use flexiv_control.Common.Exec.{Exec, return, modify}
use flexiv_control.Number.{Number, ◌⊕◌, ◌⊖◌, ◌⊗◌, zero_num, one_num, clip}
use flexiv_control.Types.{
  ControlMode, is_cartesian, is_idle, SafetyStatus, StopReason, Vec6, Pose, RobotState,
  ImpedanceParams, GripperCommand,
}
use flexiv_control.Transforms.{vec3, quat_normalize, quat_slerp}

pub record FakeBackend (F : Type 0) : Type 0 where
  pub connected : Bool
  pub mode : ControlMode
  pub alpha : F
  pub pose : Pose F
  pub q : List F
  pub gripper_width : F
  pub gripper_force : F
  pub gripper_moving : Bool
  pub impedance : ImpedanceParams F
  pub max_wrench : Vec6 F
  pub fault : Bool
  pub cartesian_log : List (Pose F)
  pub joint_log : List (List F)
  pub gripper_log : List (GripperCommand F)
  pub mode_log : List ControlMode

module _ {F : Type 0} ⦃n : Number F⦄ where
  abbrev zero_vec6 : Vec6 F
  zero_vec6 = record {
    linear = vec3 zero_num zero_num zero_num;
    angular = vec3 zero_num zero_num zero_num;
  }

  abbrev zeros : List F → List F
  zeros [] = []
  zeros (x ∷ xs) = zero_num ∷ zeros xs

  unfoldable pub read_state : F → Exec (FakeBackend F) (RobotState F)
  read_state now b = (
    ok (record {
      stamp = now;
      q = b.q;
      dq = zeros b.q;
      tau = zeros b.q;
      tcp_pose = b.pose;
      tcp_vel = zero_vec6;
      wrench = zero_vec6;
      gripper_width = b.gripper_width;
      gripper_force = b.gripper_force;
      gripper_is_moving = b.gripper_moving;
      control_mode = b.mode;
      safety_status = if b.fault then SafetyStatus.fault else SafetyStatus.ok;
      stop_reason = if b.fault then StopReason.backend_fault else StopReason.nothing;
      active_owner = "";
      command_latency_ms = zero_num;
      loop_period_ms = zero_num;
      loop_jitter_us = zero_num;
      missed_cycles = 0;
    }),
    b,
  )

  unfoldable pub in_fault : Exec (FakeBackend F) Bool
  in_fault b = (ok b.fault, b)

  unfoldable pub set_mode : ModeRequest F → Exec (FakeBackend F) (Unit {0})
  set_mode m = modify λ b. record b {
    mode = m.mode;
    mode_log = m.mode ∷ b.mode_log;
    impedance = get_or_else b.impedance m.impedance;
    max_wrench = get_or_else b.max_wrench m.max_contact_wrench;
  }

  -- (1 - a) * old + a * new
  abbrev blend : F → F → F → F
  blend a old new = (one_num ⊖ a) ⊗ old ⊕ a ⊗ new

  abbrev tracked : F → Pose F → Pose F → Pose F
  tracked a old new = record {
    position =
        vec3 (blend a old.position.x new.position.x) (blend a old.position.y new.position.y)
          (blend a old.position.z new.position.z);
    quat = quat_slerp old.quat (quat_normalize new.quat) a;
  }

  unfoldable pub stream_cartesian : Pose F → Option (Vec6 F) → Exec (FakeBackend F) (Unit {0})
  stream_cartesian pose wrench b =
      if is_cartesian b.mode
      then (
        ok tt,
        record b { cartesian_log = pose ∷ b.cartesian_log; pose = tracked b.alpha b.pose pose },
      )
      else (err runtime_error, b)

  abbrev tracked_joints : F → List F → List F → List F
  tracked_joints a (x ∷ xs) (y ∷ ys) = blend a x y ∷ tracked_joints a xs ys
  tracked_joints a _ _ = []

  unfoldable pub stream_joint : List F → Exec (FakeBackend F) (Unit {0})
  stream_joint q b =
      if is_cartesian b.mode || is_idle b.mode
      then (err runtime_error, b)
      else (ok tt, record b { joint_log = q ∷ b.joint_log; q = tracked_joints b.alpha b.q q })

  unfoldable pub set_contact_wrench_limit : Vec6 F → Exec (FakeBackend F) (Unit {0})
  set_contact_wrench_limit w = modify λ b. record b { max_wrench = w }

  unfoldable pub move_gripper : GripperCommand F → Exec (FakeBackend F) (Unit {0})
  move_gripper cmd = modify λ b. record b {
    gripper_log = cmd ∷ b.gripper_log;
    gripper_width = clip cmd.width zero_num (n.lit 1 1);
    gripper_force = if cmd.grasp then cmd.force else zero_num;
    gripper_moving = false;
  }

  unfoldable pub stop : Exec (FakeBackend F) (Unit {0})
  stop = modify λ b. record b { mode = ControlMode.idle }

  abbrev default_home : List F
  default_home =
      zero_num ∷ n.neg (n.lit 7 1) ∷ zero_num ∷ n.lit 16 1 ∷ zero_num ∷ n.lit 9 1 ∷ zero_num ∷ []

  unfoldable pub home : Option (List F) → Exec (FakeBackend F) (Unit {0})
  home q_home = modify λ b. record b {
    q = get_or_else default_home q_home;
    mode = ControlMode.nrt_primitive;
    mode_log = ControlMode.nrt_primitive ∷ b.mode_log;
  }

  -- The fake as a backend, read at one time.
  abbrev pub fake_backend : F → Backend F (FakeBackend F)
  fake_backend now = record {
    connect = modify λ b. record b { connected = true };
    disconnect = modify λ b. record b { connected = false };
    read_state = read_state now;
    in_fault = in_fault;
    set_mode = set_mode;
    stream_cartesian = stream_cartesian;
    stream_joint = stream_joint;
    move_gripper = move_gripper;
    set_contact_wrench_limit = set_contact_wrench_limit;
    zero_ft_sensor = return tt;
    stop = stop;
    home = home;
  }
