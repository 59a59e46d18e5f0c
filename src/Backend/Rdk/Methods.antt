-- ===== src/Backend/Rdk/Methods.antt =====
-- The other methods of the hardware backend, and the backend that they make up.
use package.flexiv_control.Backend.{ModeRequest, Backend}
use package.flexiv_control.Backend.Rdk.{
  Command, GripperReading, Sdk, FlexivRdk, replicate, on_sdk, switch, in_fault,
}
use package.flexiv_control.Backend.Rdk.Connect.{connect, zero_ft_sensor}
use flexiv_control.Common.{
  String, Bool, true, false, not, ◌&&◌, ◌||◌, str_eq, Option, none, some, List, [], ◌∷◌,
  get_or_else, if◌then◌else◌,
}
use flexiv_control.Common.Result.{err, runtime_error, not_implemented}
use flexiv_control.Common.Exec.{Exec, return, raise, gets, modify, recover, ◌>>=◌, ◌>>◌}
use flexiv_control.Number.{Number, zero_num, one_num}
use flexiv_control.Types.{
  ControlMode, is_cartesian, is_realtime, is_idle, SafetyStatus, StopReason, Vec3, Vec6, Pose,
  RobotState, ForceControlParams, GripperCommand,
}

-- mode == ControlMode.RT_JOINT_TORQUE
abbrev pub is_torque : ControlMode → Bool
is_torque ControlMode.rt_joint_torque = true
is_torque _ = false

-- `if x is not None and test:`
abbrev pub given : {S A : Type 0} → Bool → Option A → (A → Exec S (Unit {0})) → Exec S (Unit {0})
given false o f = return tt
given true none f = return tt
given true (some a) f = f a

abbrev zero_vec3 : {F : Type 0} ⦃n : Number F⦄ → Vec3 F
zero_vec3 = record { x = zero_num; y = zero_num; z = zero_num }

abbrev pub zero_wrench : {F : Type 0} ⦃n : Number F⦄ → Vec6 F
zero_wrench = record { linear = zero_vec3; angular = zero_vec3 }

-- The pose where the package reports none.
abbrev identity_pose : {F : Type 0} ⦃n : Number F⦄ → Pose F
identity_pose = record {
  position = zero_vec3;
  quat = record { w = one_num; x = zero_num; y = zero_num; z = zero_num };
}

-- The wrench of a tick: its own, else that of the mode, else none.
abbrev pub wrench_of :
    {F : Type 0} ⦃n : Number F⦄ → Option (Vec6 F) → Option (ForceControlParams F) → Vec6 F
wrench_of (some w) fc = w
wrench_of none (some fc) = fc.target_wrench
wrench_of none none = zero_wrench

abbrev pub motion_force : {F : Type 0} → Bool → Pose F → Vec6 F → Command F
motion_force true pose w = Command.stream_cartesian_motion_force pose w
motion_force false pose w = Command.send_cartesian_motion_force pose w

module _ {F V : Type 0} ⦃n : Number F⦄ (sdk : Sdk F V) where
  unfoldable pub disconnect : Exec (FlexivRdk F V) (Unit {0})
  disconnect = do
    recover tt (on_sdk (sdk.call Command.stop))
    modify (λ b. record b { connected = false })

  -- An arm that went idle by itself is noticed here.
  unfoldable pub sync_mode : Exec (FlexivRdk F V) (Unit {0})
  sync_mode = do
    b ← gets (λ b. b)
    if is_idle b.mode then return tt else (do
      idle ← recover false (do
        idle ← on_sdk sdk.mode_is_idle
        if sdk.exposes ControlMode.idle then return idle else raise runtime_error)
      if idle then modify (λ b. record b { mode = ControlMode.idle }) else return tt)

  abbrev no_gripper : GripperReading F
  no_gripper = record { width = zero_num; force = zero_num }

  unfoldable pub read_gripper : Exec (FlexivRdk F V) (GripperReading F × Bool)
  read_gripper = do
    b ← gets (λ b. b)
    if b.gripper
        then recover (no_gripper, false)
            (do
              g ← on_sdk sdk.gripper_states
              moving ← recover false (on_sdk sdk.gripper_moving)
              return (g, moving))
        else return (no_gripper, false)

  unfoldable pub read_state : F → Exec (FlexivRdk F V) (RobotState F)
  read_state now = do
    sync_mode
    s ← on_sdk sdk.states
    g ← read_gripper
    let moving = g.1
    faulted ← in_fault sdk
    b ← gets (λ b. b)
    let zeros = replicate b.n_joints zero_num
    return (record {
      stamp = now;
      q = get_or_else zeros s.q;
      dq = get_or_else zeros s.dq;
      tau = get_or_else zeros s.tau;
      tcp_pose = get_or_else identity_pose s.tcp_pose;
      tcp_vel = get_or_else zero_wrench s.tcp_vel;
      wrench = get_or_else zero_wrench s.wrench;
      gripper_width = g.0.width;
      gripper_force = g.0.force;
      gripper_is_moving = moving;
      control_mode = b.mode;
      safety_status = if faulted then SafetyStatus.fault else SafetyStatus.ok;
      stop_reason = if faulted then StopReason.backend_fault else StopReason.nothing;
      active_owner = "";
      command_latency_ms = zero_num;
      loop_period_ms = zero_num;
      loop_jitter_us = zero_num;
      missed_cycles = 0;
    })

  -- `_rdk_coord`
  unfoldable pub is_tcp_frame : String → Bool
  is_tcp_frame frame =
      let f = sdk.lower frame in str_eq f "tcp" || str_eq f "flange" || str_eq f "ee"

  unfoldable pub set_force_control : ForceControlParams F → Exec (FlexivRdk F V) (Unit {0})
  set_force_control fc = do
    modify (λ b. record b { force_control = some fc })
    on_sdk (sdk.call (Command.set_force_control_axis fc.enabled_axes))
    on_sdk (sdk.call (Command.set_force_control_frame (is_tcp_frame fc.frame)))

  -- The parameters of a mode that was just entered.
  unfoldable pub configure : ModeRequest F → Exec (FlexivRdk F V) (Unit {0})
  configure m = do
    let cart = is_cartesian m.mode
    given cart m.impedance
        λ i. on_sdk (sdk.call (Command.set_cartesian_impedance i.stiffness i.damping_ratio))
    given (not cart) m.joint_impedance
        λ i. on_sdk (sdk.call (Command.set_joint_impedance i.stiffness i.damping_ratio))
    given cart m.max_contact_wrench λ w. on_sdk (sdk.call (Command.set_max_contact_wrench w))
    if cart
        then given true m.force_control set_force_control
        else modify (λ b. record b { force_control = none })
    given cart m.nullspace_q λ q. on_sdk (sdk.call (Command.set_null_space_posture q))

  unfoldable pub set_mode : ModeRequest F → Exec (FlexivRdk F V) (Unit {0})
  set_mode m b =
      if is_torque m.mode && not b.allow_torque
      then (err runtime_error, b)
      else (do switch sdk m.mode; modify (λ b. record b { mode = m.mode }); configure m) b

  unfoldable pub set_contact_wrench_limit : Vec6 F → Exec (FlexivRdk F V) (Unit {0})
  set_contact_wrench_limit w = do
    b ← gets (λ b. b)
    given (is_cartesian b.mode) (some w) λ w. on_sdk (sdk.call (Command.set_max_contact_wrench w))

  unfoldable pub stream_cartesian : Pose F → Option (Vec6 F) → Exec (FlexivRdk F V) (Unit {0})
  stream_cartesian pose wrench = do
    b ← gets (λ b. b)
    on_sdk (sdk.call (motion_force (is_realtime b.mode) pose (wrench_of wrench b.force_control)))

  unfoldable pub stream_joint : List F → Exec (FlexivRdk F V) (Unit {0})
  stream_joint q = do
    b ← gets (λ b. b)
    let zeros = replicate b.n_joints zero_num
    let ones = replicate b.n_joints one_num
    on_sdk (
        sdk.call (
          if is_realtime b.mode
          then Command.stream_joint_position q zeros zeros
          else Command.send_joint_position q zeros zeros ones ones))

  -- A gripper that was configured and did not come up refuses its commands.
  unfoldable pub move_gripper : GripperCommand F → Exec (FlexivRdk F V) (Unit {0})
  move_gripper g = do
    b ← gets (λ b. b)
    if b.gripper
        then on_sdk (
            sdk.call (
              if g.grasp
              then Command.gripper_grasp g.force
              else Command.gripper_move g.width g.velocity g.force))
        else (if str_eq (get_or_else "" b.gripper_name) "" then return tt else raise runtime_error)

  unfoldable pub stop : Exec (FlexivRdk F V) (Unit {0})
  stop = do on_sdk (sdk.call Command.stop); modify (λ b. record b { mode = ControlMode.idle })

  -- `_primitive_running`
  unfoldable pub primitive_running : Exec (FlexivRdk F V) Bool
  primitive_running = do
    reached ← recover none (on_sdk sdk.reached_target)
    elim reached [ none ↦ recover false (on_sdk sdk.busy) | some done ↦ return (not done) ]

  unfoldable pub wait_primitive : List F → Exec (FlexivRdk F V) (Unit {0})
  wait_primitive [] = return tt
  wait_primitive (elapsed ∷ rest) =
      if n.lt elapsed (n.of_nat 30)
      then (do running ← primitive_running; if running then wait_primitive rest else return tt)
      else return tt

  -- The primitive knows only the factory's posture.
  unfoldable pub home : List F → Option (List F) → Exec (FlexivRdk F V) (Unit {0})
  home times (some q) = raise not_implemented
  home times none = do
    switch sdk ControlMode.nrt_primitive
    on_sdk (sdk.call (Command.execute_primitive "Home"))
    wait_primitive times
    modify (λ b. record b { mode = ControlMode.nrt_primitive })

  -- The backend, with the readings of the clock.
  abbrev pub rdk_backend : (now : F) → (waiting zeroing homing : List F) → Backend F (FlexivRdk F V)
  rdk_backend now waiting zeroing homing = record {
    connect = connect sdk waiting zeroing;
    disconnect = disconnect;
    read_state = read_state now;
    in_fault = in_fault sdk;
    set_mode = set_mode;
    stream_cartesian = stream_cartesian;
    stream_joint = stream_joint;
    move_gripper = move_gripper;
    set_contact_wrench_limit = set_contact_wrench_limit;
    zero_ft_sensor = zero_ft_sensor sdk zeroing;
    stop = stop;
    home = home homing;
  }
