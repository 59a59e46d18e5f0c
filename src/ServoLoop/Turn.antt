-- ===== src/ServoLoop/Turn.antt =====
-- src/flexiv_control/server/control_loop.py: a turn of the loop, `_run` and `_run_inner`. It is
-- `observe`, which ends with the snapshot of the command buffer, and `decide`, which runs under the
-- writer lock; another thread may act in between. `observe` is one step here, although the code
-- releases the lock between the parts of it; ServoLoop.Interrupted has calls that come in between.
use flexiv_control.Common.{
  [], ◌∷◌, Bool, true, false, not, ◌&&◌, Option, none, some, List, if◌then◌else◌,
}
use flexiv_control.Common.Result.{Result, Error, ok, err, runtime_error}
use flexiv_control.Common.Exec.{Exec, return, raise, gets, modify, ◌>>=◌, ◌>>◌}
use flexiv_control.Number.{Number, ◌⊖◌, ◌⊗◌, ◌⊘◌}
use flexiv_control.Types.{SafetyStatus, StopReason, Pose, RobotState, GripperCommand}
use flexiv_control.Safety.Profile.{SafetyProfile, SafetyResult, primary_clip_reason, reset}
use flexiv_control.Safety.Cartesian.{filter_cartesian}
use flexiv_control.Safety.Joint.{filter_joint}
use flexiv_control.Safety.Watchdog.{check_state_age}
use flexiv_control.Backend.{Backend}
use flexiv_control.Robot.{on_backend}
use package.flexiv_control.ServoLoop.{
  ServoLoop, on_robot, report, advance_chunk, ensure_stream_mode,
}

-- What a turn reads before it takes the writer lock.
pub record Snapshot (F : Type 0) : Type 0 where
  pub state : RobotState F
  pub state_age_ms : F
  pub cartesian : Bool
  pub target_pose : Option (Pose F)
  pub target_q : Option (List F)
  pub gripper : Option (GripperCommand F)
  pub age : F
  pub faulted : Bool

module _ {F B : Type 0} ⦃n : Number F⦄ (ops : Backend F B) where
  -- A turn before the writer lock: three readings of the clock.
  unfoldable pub observe : (at_state at_pull at_snapshot : F) → Exec (ServoLoop F B) (Snapshot F)
  observe at_state at_pull at_snapshot = do
    state ← on_robot (on_backend ops.read_state)
    modify (λ l. record l { latest_state = some state })
    advance_chunk at_pull
    l ← gets (λ l. l)
    let age = at_snapshot ⊖ l.cmd_stamp
    modify (λ l. record l { command_age_ms = age ⊗ n.of_nat 1000 })
    faulted ← on_robot (on_backend ops.in_fault)
    return (record {
      state = state;
      state_age_ms = (at_state ⊖ state.stamp) ⊗ n.of_nat 1000;
      cartesian = l.cartesian;
      target_pose = l.target_pose;
      target_q = l.target_q;
      gripper = l.target_gripper;
      age = age;
      faulted = faulted;
    })

  unfoldable pub halt : SafetyStatus → StopReason → Exec (ServoLoop F B) (Unit {0})
  halt status reason = do on_robot (on_backend ops.stop); report status reason

  -- Streams where the robot was measured, from where the filter goes on.
  unfoldable pub hold : Snapshot F → Exec (ServoLoop F B) (Unit {0})
  hold sn = do
    modify (λ l. record l {
      last_status = SafetyStatus.holding;
      robot = record l.robot { filter = reset (some sn.state) none none l.robot.filter };
    })
    ensure_stream_mode ops sn.state sn.cartesian
    if sn.cartesian
        then on_robot (on_backend (ops.stream_cartesian sn.state.tcp_pose none))
        else on_robot (on_backend (ops.stream_joint sn.state.q))

  abbrev status_of : Bool → SafetyStatus
  status_of clipped = if clipped then SafetyStatus.clipped else SafetyStatus.ok

  unfoldable pub streamed : SafetyResult F → Exec (ServoLoop F B) (Unit {0})
  streamed sr = modify λ l. record l {
    last_clipped = sr.clipped;
    last_status = status_of sr.clipped;
    last_stop_reason = primary_clip_reason sr;
  }

  unfoldable pub grip : Option (GripperCommand F) → Exec (ServoLoop F B) (Unit {0})
  grip none = return tt
  grip (some g) = do
    on_robot (on_backend (ops.move_gripper g))
    modify (λ l. record l { target_gripper = none })

  -- An accepted result has a pose, or the joints.
  unfoldable pub stream_pose : Snapshot F → SafetyResult F → Exec (ServoLoop F B) (Unit {0})
  stream_pose sn sr = elim sr.pose [
    | none ↦ raise runtime_error
    | some pose ↦ (do
      ensure_stream_mode ops sn.state true
      on_robot (on_backend (ops.stream_cartesian pose none))
      grip sn.gripper
      streamed sr)
  ]

  unfoldable pub stream_joints : Snapshot F → SafetyResult F → Exec (ServoLoop F B) (Unit {0})
  stream_joints sn sr = elim sr.q [
    | none ↦ raise runtime_error
    | some q ↦ (do
      ensure_stream_mode ops sn.state false
      on_robot (on_backend (ops.stream_joint q))
      streamed sr)
  ]

  unfoldable pub follow_pose : Snapshot F → Pose F → Exec (ServoLoop F B) (Unit {0})
  follow_pose sn target l =
      let (sr, f) = filter_cartesian target sn.state none l.robot.filter in
      let l' = record l { robot = record l.robot { filter = f } } in
      if sr.ok then stream_pose sn sr l' else halt SafetyStatus.stopped sr.reason l'

  unfoldable pub follow_joints : Snapshot F → List F → Exec (ServoLoop F B) (Unit {0})
  follow_joints sn target l =
      let (sr, f) = filter_joint target sn.state l.robot.filter in
      let l' = record l { robot = record l.robot { filter = f } } in
      if sr.ok then stream_joints sn sr l' else halt SafetyStatus.stopped sr.reason l'

  abbrev over_hold : Option F → F → Bool
  over_hold none age = false
  over_hold (some limit) age = n.lt (limit ⊘ n.of_nat 1000) age

  unfoldable pub follow : Snapshot F → Exec (ServoLoop F B) (Unit {0})
  follow sn =
      if sn.cartesian
      then elim sn.target_pose [ none ↦ return tt | some pose ↦ follow_pose sn pose ]
      else elim sn.target_q [ none ↦ return tt | some q ↦ follow_joints sn q ]

  unfoldable pub is_stale : SafetyProfile F → F → Bool
  is_stale p age = n.lt (p.command_timeout_ms ⊘ n.of_nat 1000) age && p.stop_on_stale_command

  unfoldable pub is_held_long : SafetyProfile F → F → Bool
  is_held_long p age = over_hold p.hold_timeout_ms age

  -- A turn under the writer lock.
  unfoldable pub decide : Snapshot F → Exec (ServoLoop F B) (Unit {0})
  decide sn l =
      let p = l.robot.filter.p in
      if sn.faulted
      then halt SafetyStatus.fault StopReason.backend_fault l
      else if not (check_state_age sn.state_age_ms l.robot.filter).ok
      then halt SafetyStatus.stopped StopReason.stale_state l
      else if is_stale p sn.age
      then if is_held_long p sn.age
        then halt SafetyStatus.stopped StopReason.stale_command l
        else hold sn l
      else follow sn l

  -- The handler of `_run`: the backend is stopped as well as it goes, and the exception goes on.
  unfoldable pub crash : Error → Exec (ServoLoop F B) (Unit {0})
  crash e l =
      let (ignored, l') = on_robot (on_backend ops.stop) l in
      (
        err e,
        record l' {
          last_status = SafetyStatus.fault;
          last_stop_reason = StopReason.backend_fault;
          running = false;
        },
      )

  abbrev pub handled : Result (Unit {0}) × ServoLoop F B → Result (Unit {0}) × ServoLoop F B
  handled (ok u, l) = (ok u, l)
  handled (err e, l) = crash e l

  -- A turn as the thread runs it.
  unfoldable pub turn : (at_state at_pull at_snapshot : F) → Exec (ServoLoop F B) (Unit {0})
  turn at_state at_pull at_snapshot l =
      handled ((observe at_state at_pull at_snapshot >>= λ sn. decide sn) l)

  -- The loop of `_run`, with the readings of the clock of each turn. An exception ends it.
  unfoldable pub turns : List (F × F × F) → Exec (ServoLoop F B) (Unit {0})
  turns [] = return tt
  turns (t ∷ rest) = let (s, p, o) = t in turn s p o >> turns rest
