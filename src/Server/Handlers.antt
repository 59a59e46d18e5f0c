-- ===== src/Server/Handlers.antt =====
-- The other handlers of the server, with its `start` and `shutdown`.
use package.flexiv_control.Server.{
  Server, Times, on_robot, on_lease, on_loop, require_lease, stop_loop,
}
use package.flexiv_control.Server.Motion.{Reply, Scene}
use flexiv_control.Common.{
  ℕ, String, Bool, true, false, not, ◌||◌, ◌&&◌, Option, none, some, List, str_eq, if◌then◌else◌,
}
use flexiv_control.Common.Result.{Result, ok, err, runtime_error}
use flexiv_control.Common.Exec.{Exec, return, gets, modify, ◌>>=◌, ◌>>◌}
use flexiv_control.Number.{Number, zero_num}
use flexiv_control.Types.{SafetyStatus, StopReason, Pose, RobotState, GripperCommand}
use flexiv_control.Safety.Profile.{SafetyProfile}
use flexiv_control.Backend.{Backend}
use flexiv_control.Robot.{
  Robot, set_safety_profile, peek_state, request_stop, clear_stop, get_state, connect, disconnect,
}
use flexiv_control.Robot
use flexiv_control.Lease.{LeaseInfo, owner, acquire, release, heartbeat}
use flexiv_control.ServoLoop.{ServoLoop, set_cartesian_target, set_joint_target}
use flexiv_control.ServoLoop

-- What the threads around a handler do: who holds the robot's lock when `get_state` and `stop` try
-- it, and the clock and the period as the loop measures them.
pub record Surroundings (F : Type 0) : Type 0 where
  pub scene : Scene F
  pub busy : Bool
  pub first_lock : Bool
  pub second_lock : Bool
  pub now : F
  pub period : F
  pub jitter : F
  pub missed : ℕ

abbrev expiry_of : Option LeaseInfo → Option ℕ
expiry_of none = none
expiry_of (some i) = some i.expires_at

module _ {F B : Type 0} where
  -- A stop for the motion of an owner who was robbed, and a clean start for a fresh one.
  unfoldable pub settle_stop : (force : Bool) → (prev now : String) → Exec (Robot F B) (Unit {0})
  settle_stop force prev now =
      if force && not (str_eq prev "") && not (str_eq prev now)
      then request_stop
      else if not (str_eq prev now)
      then clear_stop
      else return tt

  unfoldable pub handle_acquire_lease : String → Bool → Times → Exec (Server F B) (Reply F)
  unfolding ◌>>=◌ on_lease on_robot owner acquire
  handle_acquire_lease o force t = do
    prev ← on_lease (λ l. let (p, l') = owner t.owned l in (ok p, l'))
    info ← on_lease (acquire o force t.expired t.granted)
    on_robot (settle_stop force prev info.owner)
    return (Reply.granted info)

  unfoldable pub handle_heartbeat : String → Times → Exec (Server F B) (Reply F)
  unfolding ◌>>=◌ on_lease heartbeat
  handle_heartbeat o t = do
    on_lease (heartbeat o t.beaten)
    s ← gets (λ s. s)
    return (Reply.expires_at (expiry_of s.lease.info))

  unfoldable pub handle_get_lease : Times → Exec (Server F B) (Reply F)
  unfolding ◌>>=◌ on_lease owner
  handle_get_lease t =
      on_lease (λ l. let (p, l') = owner t.owned l in (ok p, l')) >>= λ p. return (Reply.owned_by p)

  unfoldable pub handle_set_safety_profile :
      String → Result (SafetyProfile F) → Times → Exec (Server F B) (Reply F)
  unfolding ◌>>=◌ require_lease on_robot set_safety_profile
  handle_set_safety_profile o loaded t = do
    require_lease o t
    on_robot (set_safety_profile loaded)
    s ← gets (λ s. s)
    return (Reply.profile_name s.robot.profile.name)

  -- A loop that runs.
  abbrev live_loop : Exec (Server F B) (ServoLoop F B)
  live_loop s = elim s.servo [
    | none ↦ (err runtime_error, s)
    | some loop ↦ if loop.running then (ok loop, s) else (err runtime_error, s)
  ]

  unfoldable pub handle_servo_stream :
      String → Pose F → Option (GripperCommand F) → Times → F → Exec (Server F B) (Reply F)
  unfolding ◌>>=◌ require_lease on_loop set_cartesian_target
  handle_servo_stream o pose grip t now = do
    require_lease o t
    loop ← live_loop
    on_loop loop (set_cartesian_target pose grip now)
    return Reply.done

  unfoldable pub handle_servo_stream_joint :
      String → List F → Times → F → Exec (Server F B) (Reply F)
  unfolding ◌>>=◌ require_lease on_loop set_joint_target
  handle_servo_stream_joint o q t now = do
    require_lease o t
    loop ← live_loop
    on_loop loop (set_joint_target q now)
    return Reply.done

module _ {F : Type 0} ⦃n : Number F⦄ {B : Type 0} (ops : Backend F B) where
  unfoldable pub handle_release_lease : String → Exec (Server F B) (Reply F)
  unfolding ◌>>=◌ on_lease on_robot release stop_loop Robot.stop
  handle_release_lease o = do
    on_lease (release o)
    stop_loop ops
    on_robot (Robot.stop ops)
    return Reply.released

  -- With the robot's lock free, a read of the loop or of the robot; else what was read last.
  unfoldable pub read_state : (busy : Bool) → Surroundings F → Exec (Server F B) (RobotState F)
  unfolding ◌>>=◌ on_robot on_loop ServoLoop.get_state get_state
  read_state busy w s = elim s.servo [
    | some loop ↦ on_loop loop (ServoLoop.get_state ops w.period w.jitter w.missed) s
    | none ↦
        if busy
        then elim (peek_state s.robot) [
          | none ↦ on_robot (get_state ops) s
          | some state ↦ (ok state, s)
        ]
        else on_robot (get_state ops) s
  ]

  unfoldable pub handle_get_state : Surroundings F → Exec (Server F B) (Reply F)
  unfolding ◌>>=◌ read_state on_lease owner
  handle_get_state w = do
    state ← read_state w.busy w
    p ← on_lease (λ l. let (p, l') = owner w.scene.times.owned l in (ok p, l'))
    return (Reply.state (record state { active_owner = p }))

  -- No lease is needed. The event is set first, for a motion that holds the lock.
  unfoldable pub handle_stop : (first_lock second_lock : Bool) → Exec (Server F B) (Reply F)
  unfolding ◌>>=◌ on_robot request_stop stop_loop Robot.stop
  handle_stop first_lock second_lock = do
    on_robot request_stop
    if first_lock
        then (do
          stop_loop ops
          if second_lock then on_robot (Robot.stop ops) else on_robot request_stop)
        else on_robot request_stop
    return Reply.stopped

  -- `control_hz or robot.control_hz`
  abbrev rate_or : F → Option F → F
  rate_or hz none = hz
  rate_or hz (some x) = if n.lt x zero_num || n.lt zero_num x then x else hz

  -- `ReactiveServoLoop(robot, control_hz=...)`
  unfoldable pub new_loop : Robot F B → Option F → ServoLoop F B
  new_loop r hz = record {
    robot = r;
    hz = rate_or r.control_hz hz;
    cartesian = true;
    target_pose = none;
    target_q = none;
    target_gripper = none;
    cmd_stamp = zero_num;
    chunk_iter = none;
    running = false;
    latest_state = none;
    command_age_ms = zero_num;
    last_clipped = false;
    last_status = SafetyStatus.ok;
    last_stop_reason = StopReason.nothing;
  }

  -- The loop is installed when its start raised nothing.
  unfoldable pub install : Option F → F → Exec (Server F B) (Unit {0})
  unfolding new_loop ServoLoop.start
  install hz now s =
      let (a, loop) = ServoLoop.start ops now (new_loop s.robot hz) in
      elim a [
        | err e ↦ (err e, record s { robot = loop.robot })
        | ok u ↦ (ok tt, record s { robot = loop.robot; servo = some loop })
      ]

  unfoldable pub handle_start_servo_loop :
      String → Option F → Times → F → Exec (Server F B) (Reply F)
  unfolding ◌>>=◌ require_lease install
  handle_start_servo_loop o hz t now = do
    require_lease o t
    s ← gets (λ s. s)
    elim s.servo [ some loop ↦ return tt | none ↦ install hz now ]
    return Reply.started

  unfoldable pub handle_stop_servo_loop : String → Times → Exec (Server F B) (Reply F)
  unfolding ◌>>=◌ require_lease stop_loop
  handle_stop_servo_loop o t = do require_lease o t; stop_loop ops; return Reply.stopped

  -- `start` and `shutdown`, but for the socket and the host's lock.
  unfoldable pub start : Exec (Server F B) (Unit {0})
  unfolding ◌>>=◌ on_robot connect
  start = do
    on_robot (connect ops)
    modify (λ s. record s { robot = record s.robot { owner = none } })

  unfoldable pub shutdown : Exec (Server F B) (Unit {0})
  unfolding ◌>>=◌ stop_loop on_robot Robot.stop disconnect
  shutdown = do
    stop_loop ops
    λ s.
        let (a, s') = on_robot (Robot.stop ops) s in
        let (d, s'') = on_robot (disconnect ops) s' in
        elim d [ err e ↦ (err e, s'') | ok u ↦ (a, s'') ]
