-- ===== src/Tests/PreviewTests.antt =====
-- The preview and the runner.
use flexiv_control.Common.{ℕ, ◌≡◌, refl, true, false, none, some, [], ◌∷◌, map, arith}
use flexiv_control.Common.Int.{ℤ}
use flexiv_control.Common.Result.{ok}
use flexiv_control.Common.Exec.{Post}
use flexiv_control.Number.Fixed.{fixed, fixed-IsOrdered, fixed_linear}
use flexiv_control.ActionChunk.{CartesianChunk, for_execution, resolve_to_absolute, make_chunk}
use flexiv_control.Backend.Fake.{FakeBackend, fake_backend}
use flexiv_control.Robot.{Robot}
use flexiv_control.Robot.Cartesian.Method.{envelope_of}
use flexiv_control.Preview.{ChunkPreview, plan_chunk_preview}
use flexiv_control.Preview.Stream.{executor_ticks, plan_chunk_preview-executor}
use flexiv_control.Recede.{Runner, Callbacks, run}
use flexiv_control.Recede.Limit.{Within, run-Within}
use flexiv_control.Tests.Numbers.{whole, middle, metre, robot, chunk_of, waypoint, two_waypoints}

-- The first waypoint alone, as `two_waypoints` is executed.
abbrev first_waypoint : CartesianChunk ℤ
first_waypoint = record (chunk_of (waypoint 500 500 400 ∷ [])) { n_execute = none }

plan_chunk_preview-executor_example :
    (v : ChunkPreview ℤ) × (plan_chunk_preview two_waypoints middle (some metre) (whole 10) ≡ ok v)
    × (v.setpoints ≡ map (λ t. t.pose) (executor_ticks metre first_waypoint middle (whole 10)))
    × (v.linear_speed_cap ≡ some (envelope_of metre first_waypoint).linear_speed_cap)
    × (v.angular_speed_cap ≡ some (envelope_of metre first_waypoint).angular_speed_cap)
unfolding for_execution resolve_to_absolute make_chunk
plan_chunk_preview-executor_example =
    plan_chunk_preview-executor fixed-IsOrdered fixed_linear metre two_waypoints first_waypoint
      middle (whole 10) refl refl refl

-- A policy that always has another chunk.
abbrev runner : Runner ℤ ℕ
runner = record { policy = λ k obs. some two_waypoints; max_steps = some 2; observe = none }

abbrev callbacks : Callbacks ℤ
callbacks = record {
  approves = λ k chunk. true;
  ends = λ k chunk result. false;
  requests = λ k tick. false;
}

run-Within_example :
    Post
      (λ s (r' : Robot ℤ (FakeBackend ℤ)). Within 2 s)
      (λ r'. Unit)
      (run (fake_backend (whole 0)) runner callbacks 3 robot)
run-Within_example =
    run-Within (fake_backend (whole 0)) runner callbacks 2 3 robot refl (omega arith)
