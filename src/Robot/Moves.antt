-- ===== src/Robot/Moves.antt =====
-- The methods of `Robot` that make one motion: the servo steps, the joint move and `home`.
use package.flexiv_control.Robot.{Robot, on_backend, check_lease, get_state, start_joint_impedance}
use package.flexiv_control.Robot.Cartesian.Method.{execute_cartesian_chunk}
use package.flexiv_control.Robot.Joint.{execute_joint_chunk}
use package.flexiv_control.Robot.Gripper.{Glance, Grip, command_gripper}
use flexiv_control.Common.{
  ℕ, String, Bool, true, false, ◌||◌, Option, none, some, List, [], ◌∷◌, is_some, get_or_else,
  if◌then◌else◌,
}
use flexiv_control.Common.Result.{Result, Error, ok, err, not_implemented}
use flexiv_control.Common.Exec.{Exec, return, attempt, gets, ◌>>=◌, ◌>>◌}
use flexiv_control.Number.{Number, ◌⊘◌, zero_num, one_num, num_max}
use flexiv_control.Types.{Vec3, Quat, Vec6, Pose, ImpedanceParams, GripperCommand}
use flexiv_control.ActionChunk.{
  CartesianWaypoint, CartesianChunk, absolute, make_waypoint, make_chunk, make_joint_waypoint,
  make_joint_chunk,
}
use flexiv_control.Interpolation.{delta_to_target_pose}
use flexiv_control.Interpolation.Joints.{largest_move}
use flexiv_control.Backend.{Backend}
use flexiv_control.Robot.Report.{ExecutionResult}

-- What the world does during a wait for the fingers.
pub record Waiting (F : Type 0) : Type 0 where
  pub t0 : F
  pub glances : ℕ → Glance F
  pub fuel : ℕ

module _ {F : Type 0} ⦃n : Number F⦄ where
  -- `CartesianWaypoint(position=..., quaternion=..., gripper=..., duration=..., frame=...)`
  abbrev pub timed :
      Vec3 F → Option (Quat F) → Option (GripperCommand F) → F → String → CartesianWaypoint F
  timed position quat gripper duration frame = record {
    position = position;
    quaternion = quat;
    gripper = gripper;
    n_frames = none;
    duration = some duration;
    frame = frame;
  }

  -- `CartesianChunk(waypoints=[wp])` with its other defaults, of which the impedance is given.
  unfoldable pub default_chunk : ImpedanceParams F → CartesianWaypoint F → CartesianChunk F
  default_chunk impedance wp = record {
    waypoints = wp ∷ [];
    impedance = impedance;
    force_control = none;
    max_tcp_linear_speed = n.lit 25 2;
    max_tcp_angular_speed = n.lit 60 2;
    max_tcp_linear_acc = one_num;
    max_tcp_angular_acc = n.of_nat 2;
    max_contact_wrench = none;
    contact_wrench_allowance = none;
    grip_tracking_gate_m = none;
    safety_profile = "";
    frame = "base";
    representation = absolute;
    n_execute = none;
  }

  -- A `duration` that is zero is as good as none.
  abbrev duration_or : F → Option F → F
  duration_or dt none = dt
  duration_or dt (some d) = if n.lt d zero_num || n.lt zero_num d then d else dt

  -- `GripperCommand(width=width)`
  abbrev pub open_to : F → GripperCommand F
  open_to width = record { width = width; force = n.of_nat 20; velocity = n.lit 1 1; grasp = false }

  module _ {B : Type 0} (ops : Backend F B) where
    -- A chunk of one waypoint under the active profile.
    unfoldable pub servo_to :
        CartesianWaypoint F → String → (ℕ → Bool) → Exec (Robot F B) (ExecutionResult F)
    unfolding ◌>>=◌ make_waypoint default_chunk make_chunk execute_cartesian_chunk
    servo_to wp frame requests = do
      r ← gets (λ r. r)
      wp' ← attempt (make_waypoint wp)
      let whole = default_chunk r.default_impedance wp'
      chunk ← attempt (make_chunk (record whole { frame = frame; safety_profile = r.profile.name }))
      execute_cartesian_chunk ops chunk false false requests

    -- `servo_cartesian_delta` with a vector `delta`.
    unfoldable pub servo_cartesian_delta :
        Vec6 F
        → (duration : Option F) → (frame : String) → Option (GripperCommand F)
        → (ℕ → Bool)
        → Exec (Robot F B) (ExecutionResult F)
    unfolding ◌>>=◌ check_lease get_state delta_to_target_pose servo_to
    servo_cartesian_delta delta duration frame gripper requests = do
      check_lease
      r ← gets (λ r. r)
      let d = duration_or r.dt duration
      state ← get_state ops
      target ← attempt (
          delta_to_target_pose
            (record { delta = delta; gripper = gripper; duration = d; frame = frame })
            state.tcp_pose)
      servo_to (timed target.position (some target.quat) gripper d frame) frame requests

    unfoldable pub servo_cartesian_pose :
        Pose F → F → Option (GripperCommand F) → (ℕ → Bool) → Exec (Robot F B) (ExecutionResult F)
    unfolding servo_to
    servo_cartesian_pose pose duration gripper requests =
        servo_to (timed pose.position (some pose.quat) gripper duration "base") "base" requests

    -- `_joint_move_duration`, with its `default` and `floor`.
    unfoldable pub joint_move_duration : List F → List F → (duration cap : Option F) → F
    unfolding largest_move
    joint_move_duration q_now q_target (some d) cap = d
    joint_move_duration q_now q_target none none = n.of_nat 3
    joint_move_duration q_now q_target none (some cap) =
        if n.lt zero_num cap
        then num_max one_num (largest_move q_now q_target ⊘ cap)
        else n.of_nat 3

    unfoldable pub move_joint :
        List F
        → (duration max_joint_speed : Option F) → (realtime : Bool) → (ℕ → Bool)
        → Exec (Robot F B) (ExecutionResult F)
    unfolding ◌>>=◌ check_lease get_state joint_move_duration start_joint_impedance
        make_joint_waypoint make_joint_chunk execute_joint_chunk
    move_joint q_target duration max_joint_speed realtime requests = do
      check_lease
      state ← get_state ops
      start_joint_impedance ops none realtime
      wp ← attempt (
          make_joint_waypoint (record {
            positions = q_target;
            n_frames = none;
            duration = some (joint_move_duration state.q q_target duration max_joint_speed);
          }))
      p ← gets (λ r. r.profile)
      chunk ← attempt (
          make_joint_chunk (record {
            waypoints = wp ∷ [];
            max_joint_speed_scale = n.lit 3 1;
            safety_profile = p.name;
          }))
      execute_joint_chunk ops chunk false requests

    abbrev is_not_implemented : Error → Bool
    is_not_implemented not_implemented = true
    is_not_implemented _ = false

    -- `except NotImplementedError: handler`
    abbrev or_else :
        Result (Unit {0}) × Robot F B → Exec (Robot F B) (Unit {0}) → Result (Unit {0}) × Robot F B
    or_else (ok u, r) handler = (ok u, r)
    or_else (err e, r) handler = if is_not_implemented e then handler r else (err e, r)

    -- The motion of `home`: the backend's, or an interpolated move when the caller asks for a target
    -- or a timing, or when the backend has none.
    unfoldable pub home_motion :
        List F
        → (explicit : Bool) → (duration max_joint_speed : Option F) → (ℕ → Bool)
        → Exec (Robot F B) (Unit {0})
    unfolding ◌>>=◌ on_backend move_joint
    home_motion q_home explicit duration max_joint_speed requests r =
        or_else
          (if explicit then (err not_implemented, r) else on_backend (ops.home (some q_home)) r)
          (move_joint q_home duration (some (get_or_else (n.lit 3 1) max_joint_speed)) false
              requests
            >>= λ res. return tt)

    -- `command_gripper(GripperCommand(width=width), wait=True)`
    unfoldable pub open_gripper : F → Waiting F → Exec (Robot F B) (Grip F)
    unfolding command_gripper
    open_gripper width w =
        command_gripper ops (open_to width) true (n.of_nat 5) w.t0 w.glances w.fuel

    abbrev open_if : Option F → Waiting F → Exec (Robot F B) (Unit {0})
    open_if none w = return tt
    open_if (some width) w = open_gripper width w >>= λ g. return tt

    unfoldable pub home :
        Option (List F)
        → (duration max_joint_speed : Option F) → (ℕ → Bool)
        → Waiting F
        → Exec (Robot F B) (Unit {0})
    unfolding ◌>>=◌ check_lease home_motion open_gripper
    home q duration max_joint_speed requests w = do
      check_lease
      r ← gets (λ r. r)
      home_motion (get_or_else r.q_home q)
          (is_some q || is_some duration || is_some max_joint_speed) duration max_joint_speed
          requests
      open_if r.gripper_home_width w
