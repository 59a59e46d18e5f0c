-- ===== src/Tests/ServerTests.antt =====
-- The server.
use mathlib.Core.Option.{some-injective}
use flexiv_control.Common.{
  ◌≡◌, ◌≢◌, ◌⊎◌, inr, refl, true, false, none, some, [], ◌∷◌, arith, str_eq_iff, false≢true,
}
use flexiv_control.Common.Int.{ℤ}
use flexiv_control.Common.Result.{ok, lease_error}
use flexiv_control.Common.Exec.{Post}
use flexiv_control.Number.Fixed.{fixed}
use flexiv_control.Types.{ControlMode, SafetyStatus, StopReason}
use flexiv_control.Backend.Fake.{FakeBackend, fake_backend}
use flexiv_control.Lease.{
  LeaseInfo, Lease, check, heartbeat, hold_enter, expire_if_stale, acquire_locked, hold_up,
}
use flexiv_control.Lease.Holder.{holder}
use flexiv_control.Lease.Sections.{run, step, expires, acquires}
use flexiv_control.ServoLoop.{ServoLoop}
use flexiv_control.Server.{Server, Times}
use flexiv_control.Server.Motion.{Reply, Motion, Scene, handle_motion}
use flexiv_control.Server.Handlers.{
  Surroundings, handle_stop, handle_release_lease, handle_acquire_lease,
}
use flexiv_control.Server.Dispatch.{failed, Request, dispatch}
use flexiv_control.Server.Writer.{Untouched, handle_motion-Untouched, dispatch-refused}
use flexiv_control.Server.Session.{IsStopped, under_way, handle_motion-holder, handle_stop_lem}
use flexiv_control.Server.Fresh.{release_then_acquire}
use flexiv_control.Tests.Numbers.{mm, whole, at, robot, two_waypoints}
use flexiv_control.Tests.MoveTests.{world}

-- "teleop" has the lease until time 10.
abbrev teleop_lease : Lease
teleop_lease = record {
  ttl = 5;
  info = some (record { owner = "teleop"; acquired_at = 5; expires_at = 10 });
  holds = 0;
}

abbrev pub times : Times
times = record {
  owned = 6;
  checked = 6;
  beaten = 7;
  entered = 7;
  left = 30;
  expired = 6;
  granted = 6;
}

-- Meanwhile another thread finds the lease past its term, and "planner" asks for it.
abbrev pub scene : Scene ℤ
scene = record {
  world = world;
  others = expires 20 ∷ acquires "planner" false 20 ∷ [];
  times = times;
}

abbrev pub server : Server ℤ (FakeBackend ℤ)
server = record { robot = robot; lease = teleop_lease; servo = none }

abbrev loop : ServoLoop ℤ (FakeBackend ℤ)
loop = record {
  robot = robot;
  hz = whole 10;
  cartesian = true;
  target_pose = some (at 500 500 450);
  target_q = none;
  target_gripper = none;
  cmd_stamp = whole 0;
  chunk_iter = none;
  running = true;
  latest_state = none;
  command_age_ms = whole 0;
  last_clipped = false;
  last_status = SafetyStatus.ok;
  last_stop_reason = StopReason.nothing;
}

abbrev streaming : Server ℤ (FakeBackend ℤ)
streaming = record server { servo = some loop }

abbrev pub motion : Motion ℤ
motion = Motion.cartesian_chunk (ok two_waypoints)

handle_motion-Untouched_example :
    Post
      (λ a s'. ⊥)
      (λ s'. Untouched streaming s')
      (handle_motion (fake_backend (whole 0)) "teleop" scene motion streaming)
handle_motion-Untouched_example =
    handle_motion-Untouched (fake_backend (whole 0)) streaming loop "teleop" scene motion refl

abbrev pub surroundings : Surroundings ℤ
surroundings = record {
  scene = scene;
  busy = false;
  first_lock = true;
  second_lock = true;
  now = whole 0;
  period = mm 10;
  jitter = whole 0;
  missed = 0;
}

not_planner : holder 6 teleop_lease ≢ some "planner"
unfolding holder
not_planner e = false≢true ((str_eq_iff "teleop" "planner").1 (some-injective "teleop" "planner" e))

dispatch-refused_example :
    let (a, s') =
      dispatch
        (fake_backend (whole 0))
        surroundings
        (some (Request.motion "planner" motion))
        server in
    (a ≡ failed lease_error) × Untouched server s'
dispatch-refused_example =
    dispatch-refused (fake_backend (whole 0)) surroundings server "planner" not_planner
      (Request.motion "planner" motion) refl

handle_motion-holder_example :
    let (a, s') = handle_motion (fake_backend (whole 0)) "teleop" scene motion server in
    (a ≡ (under_way (fake_backend (whole 0)) "teleop" scene motion server).0)
    × (s'.robot ≡ (under_way (fake_backend (whole 0)) "teleop" scene motion server).1)
    × (holder 34 s'.lease ≡ some "teleop")
unfolding holder run step check heartbeat hold_enter expire_if_stale acquire_locked hold_up
handle_motion-holder_example =
    handle_motion-holder (fake_backend (whole 0)) "teleop" scene motion server 34
      (λ e. false≢true ((str_eq_iff "teleop" "").1 e)) refl (omega arith) refl refl
      (omega arith, tt, (omega arith, inr refl, tt)) (omega arith)

handle_stop_lem_example :
    let (a, s') = handle_stop (fake_backend (whole 0)) true true streaming in
    (a ≡ ok Reply.stopped)
    × (s'.robot.cancel ≡ true)
    × (s'.lease ≡ teleop_lease)
    × (((true ≡ false) × (s'.robot ≡ record robot { cancel = true }) × (s'.servo ≡ some loop))
        ⊎ ((true ≡ true) × (s'.servo ≡ none) × ((true ≡ false) ⊎ IsStopped (whole 0) s')))
handle_stop_lem_example = handle_stop_lem (whole 0) true true streaming

release_then_acquire_example :
    let s1 = (handle_release_lease (fake_backend (whole 0)) "teleop" streaming).1 in
    let (a, s2) = handle_acquire_lease "planner" false times s1 in
    ((i : LeaseInfo) × (a ≡ ok (Reply.granted i)) × (i.owner ≡ "planner"))
    × (s2.servo ≡ none)
    × (s2.robot.backend.mode ≡ ControlMode.idle)
    × (s2.robot.cancel ≡ false)
release_then_acquire_example =
    release_then_acquire (whole 0) "teleop" "planner" false times streaming refl
      (λ e. false≢true ((str_eq_iff "planner" "").1 e))
