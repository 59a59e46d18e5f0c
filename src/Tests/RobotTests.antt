-- ===== src/Tests/RobotTests.antt =====
-- The executor and the servo loop.
use flexiv_control.Common.{◌≡◌, ◌⊎◌, inl, inr, refl, true, false, none, some, List, [], ◌∷◌, All}
use flexiv_control.Common.Int.{ℤ}
use flexiv_control.Common.Exec.{Post, ◌>>=◌, ◌>>◌}
use flexiv_control.Number.{clip, num_max, num_min}
use flexiv_control.Number.Fixed.{fixed, fixed-IsOrdered, fixed-IsExact}
use flexiv_control.Types.{ControlMode, SafetyStatus, StopReason, Pose}
use flexiv_control.Safety.Cartesian.Stages.{all_close, clip_position}
use flexiv_control.Interpolation.{Tick}
use flexiv_control.Backend.Fake.{FakeBackend, fake_backend}
use flexiv_control.Robot.{Robot}
use flexiv_control.Robot.Gate.{Orders, Run}
use flexiv_control.Robot.Cartesian.{run_ticks}
use flexiv_control.Robot.Cartesian.Method.{first_run, execute_cartesian_chunk}
use flexiv_control.Robot.Cartesian.Box.{Emits, IsReady, run_ticks-Told}
use flexiv_control.Robot.Cartesian.Limit.{execute_cartesian_chunk-limit}
use flexiv_control.ServoLoop.{ServoLoop, pull, put, set_cartesian_target, enqueue_chunk}
use flexiv_control.ServoLoop.Interrupted.{
  later, set_cartesian_target-overwritten, enqueue_chunk-dropped,
}
use flexiv_control.ServoLoop.Turn.{Snapshot, observe, decide, turns, is_stale}
use flexiv_control.ServoLoop.Manual.{IsAimed, Sees, set_cartesian_target-Sees}
use flexiv_control.ServoLoop.Decisions.{Outcome, Stops, Holds, decide_lem}
use flexiv_control.Tests.Numbers.{mm, whole, at, six, state_at, metre, middle, robot, two_waypoints}
use flexiv_control.Tests.SafetyTests.{metre-IsSound}

abbrev pub orders : Orders ℤ
orders = record {
  chunk = two_waypoints;
  wrench_cap = six (whole 20);
  recorded = true;
  requests = λ k. false;
}

abbrev tick_at : Pose ℤ → Tick ℤ
tick_at pose = record { pose = pose; grip = none; segment = 0; segment_ticks = 2 }

-- A setpoint in the box, and one clearly above it.
abbrev pub ticks : List (Tick ℤ)
ticks = tick_at (at 500 500 450) ∷ tick_at (at 500 500 1400) ∷ []

abbrev pub run : Run ℤ
run = first_run (state_at middle ControlMode.nrt_cartesian_motion_force)

run_ticks-Told_example :
    Post
      (λ run' (r' : Robot ℤ (FakeBackend ℤ)).
        (All (Emits metre) r'.backend.cartesian_log × IsReady metre r'.filter)
        × ((run'.stopped ≡ none) ⊎ (r'.backend.mode ≡ ControlMode.idle)))
      (λ r'. All (Emits metre) r'.backend.cartesian_log × IsReady metre r'.filter)
      (run_ticks (fake_backend (whole 0)) orders ticks run robot)
unfolding first_run all_close clip_position clip num_max num_min
run_ticks-Told_example =
    run_ticks-Told metre fixed-IsOrdered fixed-IsExact metre-IsSound refl (whole 0) orders ticks run
      robot (inl ((refl, refl), (refl, refl), (refl, refl)), (inr refl, tt)) refl tt
      (refl, refl, (middle, refl, ((refl, refl), (refl, refl), (refl, refl))))

execute_cartesian_chunk-limit_example :
    let (res, r') =
      execute_cartesian_chunk (fake_backend (whole 0)) two_waypoints true true (λ k. false) robot in
    (r'.backend.max_wrench ≡ metre.max_contact_wrench) × (r'.profile ≡ metre)
execute_cartesian_chunk-limit_example =
    execute_cartesian_chunk-limit (whole 0) two_waypoints true true (λ k. false) robot refl

-- The target is 300 ms old.
abbrev silent : Snapshot ℤ
silent = record {
  state = state_at middle ControlMode.nrt_cartesian_motion_force;
  state_age_ms = whole 0;
  cartesian = true;
  target_pose = some (at 500 500 450);
  target_q = none;
  gripper = none;
  age = mm 300;
  faulted = false;
}

abbrev loop : ServoLoop ℤ (FakeBackend ℤ)
loop = record {
  robot = robot;
  hz = whole 10;
  cartesian = true;
  target_pose = some (at 500 500 450);
  target_q = none;
  target_gripper = none;
  cmd_stamp = whole 0;
  chunk_iter = none;
  running = true;
  latest_state = none;
  command_age_ms = whole 0;
  last_clipped = false;
  last_status = SafetyStatus.ok;
  last_stop_reason = StopReason.nothing;
}

decide_lem_example :
    let l' = (decide (fake_backend (whole 0)) silent loop).1 in
    Outcome (whole 0) silent loop l'
    × ((false ≡ false) ⊎ Stops (whole 0) loop l')
    × ((is_stale (fake_backend (whole 0)) metre (mm 300) ≡ false)
        ⊎ Stops (whole 0) loop l'
        ⊎ Holds (whole 0) silent loop l')
decide_lem_example = decide_lem (whole 0) silent loop refl refl

abbrev with_chunk : ServoLoop ℤ (FakeBackend ℤ)
with_chunk = record loop { chunk_iter = some [] }

abbrev two_turns : List (ℤ × ℤ × ℤ)
two_turns = (mm 1, mm 1, mm 2) ∷ (mm 101, mm 101, mm 102) ∷ []

set_cartesian_target-Sees_example :
    let ops = fake_backend (whole 0) in
    Post
      (λ sn l. Sees ops (at 400 400 400) (mm 0) (mm 202) sn × IsAimed (at 400 400 400) (mm 0) l)
      (IsAimed (at 400 400 400) (mm 0))
      ((set_cartesian_target (at 400 400 400) none (mm 0)
          >> (turns ops two_turns >> observe ops (mm 201) (mm 201) (mm 202)))
        with_chunk)
set_cartesian_target-Sees_example =
    set_cartesian_target-Sees (fake_backend (whole 0)) (at 400 400 400) none (mm 0) (mm 201)
      (mm 201) (mm 202) two_turns with_chunk

abbrev with_setpoint : ServoLoop ℤ (FakeBackend ℤ)
with_setpoint = record loop { chunk_iter = some (tick_at (at 500 500 480) ∷ []) }

set_cartesian_target-overwritten_example :
    let ops = fake_backend (whole 0) in
    Post
      (λ sn l. Sees ops (at 500 500 480) (mm 1) (mm 202) sn × IsAimed (at 500 500 480) (mm 1) l)
      (IsAimed (at 500 500 480) (mm 1))
      ((pull >>= λ x.
          set_cartesian_target (at 400 400 400) none (mm 0)
          >> (put (mm 1) x >> later ops two_turns (mm 201) (mm 201) (mm 202)))
        with_setpoint)
set_cartesian_target-overwritten_example =
    set_cartesian_target-overwritten (fake_backend (whole 0)) (at 400 400 400) none (mm 0) (mm 1)
      (mm 201) (mm 201) (mm 202) two_turns (tick_at (at 500 500 480)) [] with_setpoint refl

enqueue_chunk-dropped_example :
    let ops = fake_backend (whole 0) in
    Post
      (λ u l'.
        IsAimed (at 500 500 450) (mm 0) l'
        × Post
            (λ sn l''.
              Sees ops (at 500 500 450) (mm 0) (mm 202) sn × IsAimed (at 500 500 450) (mm 0) l'')
            (IsAimed (at 500 500 450) (mm 0))
            (later ops two_turns (mm 201) (mm 201) (mm 202) l'))
      (λ l'. Unit {0})
      ((pull >>= λ x. enqueue_chunk ops two_waypoints (mm 0) >> put (mm 1) x) with_chunk)
enqueue_chunk-dropped_example =
    enqueue_chunk-dropped (fake_backend (whole 0)) two_waypoints (mm 0) (mm 1) (mm 201) (mm 201)
      (mm 202) two_turns (at 500 500 450) with_chunk refl refl
