-- ===== src/Tests/ClientTests.antt =====
-- The client over a connection to the server.
use flexiv_control.Common.{◌≡◌, refl, inr, true, some, List, [], ◌∷◌, arith, str_eq_iff, false≢true}
use flexiv_control.Common.Int.{ℤ}
use flexiv_control.Number.Fixed.{fixed}
use flexiv_control.Backend.Fake.{FakeBackend, fake_backend}
use flexiv_control.ActionChunk.{make_waypoint, make_chunk}
use flexiv_control.Lease.{check, heartbeat, hold_enter, expire_if_stale, acquire_locked, hold_up}
use flexiv_control.Lease.Holder.{holder}
use flexiv_control.Lease.Sections.{run, step}
use flexiv_control.Server.Dispatch.{Request}
use flexiv_control.Server.Handlers.{handle_release_lease}
use flexiv_control.Client.{opened, Fate, arrives, fails, Remote, Passage, call}
use flexiv_control.Client.Methods.{Codec, execute_cartesian_chunk}
use flexiv_control.Client.Heartbeat.{Beat, beat}
use flexiv_control.Client.Answers.{Turn, Answered, IsSilent, calls-Answered, missed-IsSilent}
use flexiv_control.Client.Renewal.{Renews, beat-Renews}
use flexiv_control.Client.Chunk.{locally, seen_remotely, execute_cartesian_chunk-locally}
use flexiv_control.Tests.Numbers.{whole, stiff, two_waypoints}
use flexiv_control.Tests.ProtocolTests.{builtins}
use flexiv_control.Tests.ServerTests.{server, surroundings, motion}
use flexiv_control.Protocol.RoundTrip.{rebuilt}
use flexiv_control.Protocol.Wire.{text, dict, decode_all}

abbrev remote : Remote ℤ (FakeBackend ℤ)
remote = record {
  owner = "teleop";
  link = opened;
  next_id = 4;
  has_lease = true;
  hb_running = true;
  server = server;
  queue = [];
}

abbrev passage : Fate → Passage ℤ
passage fate = record { around = surroundings; fate = fate }

abbrev turn : Fate → Request ℤ → Turn (fake_backend (whole 0))
turn fate req = record { others = λ s. s; passage = passage fate; request = req }

-- A motion whose reply is not read in time, and two calls of the heartbeat, between which the lease is
-- released.
abbrev turns : List (Turn (fake_backend (whole 0)))
turns =
    turn fails (Request.motion "teleop" motion)
    ∷ turn arrives (Request.heartbeat "teleop")
    ∷ record (turn arrives (Request.heartbeat "teleop")) {
      others = λ s. (handle_release_lease (fake_backend (whole 0)) "teleop" s).1;
    }
    ∷ []

calls-Answered_example : Answered (fake_backend (whole 0)) turns remote
calls-Answered_example = calls-Answered (fake_backend (whole 0)) turns remote refl

missed-IsSilent_example :
    IsSilent
      (fake_backend (whole 0))
      turns
      (call (fake_backend (whole 0)) (passage fails) Request.ping remote).1
missed-IsSilent_example =
    missed-IsSilent (fake_backend (whole 0)) (passage fails) Request.ping turns remote refl refl
      refl

abbrev calls : Beat ℤ
calls = record { beating = passage arrives; acquiring = passage arrives }

-- "planner" has the lease.
abbrev robbed : Remote ℤ (FakeBackend ℤ)
robbed = record remote { owner = "planner" }

beat-Renews_example :
    let (failures', c') = beat (fake_backend (whole 0)) 3 calls 1 robbed in
    Renews (fake_backend (whole 0)) 3 11 6 robbed failures' c'
beat-Renews_example =
    beat-Renews (fake_backend (whole 0)) 3 calls 1 11 robbed refl refl refl refl
      (λ e. false≢true ((str_eq_iff "planner" "").1 e)) (omega arith) (omega arith) (omega arith)
      (omega arith)

abbrev codec : Codec ℤ
codec = record {
  py = builtins;
  logs = λ log. dict (("active_profile", text log.active_profile) ∷ []);
  default_impedance = stiff;
}

execute_cartesian_chunk-locally_example :
    let there =
      locally codec
        (fake_backend (whole 0))
        two_waypoints
        two_waypoints
        true
        (passage arrives)
        remote
        34 in
    let (a, c') =
      execute_cartesian_chunk codec
        (fake_backend (whole 0))
        two_waypoints
        true
        (passage arrives)
        remote in
    (a ≡ seen_remotely codec.logs true there.0)
    × (c'.server.robot ≡ there.1)
    × (holder 34 c'.server.lease ≡ some "teleop")
unfolding rebuilt decode_all make_waypoint make_chunk holder run step check heartbeat hold_enter
    expire_if_stale acquire_locked hold_up
execute_cartesian_chunk-locally_example =
    execute_cartesian_chunk-locally codec (fake_backend (whole 0)) two_waypoints two_waypoints true
      (passage arrives) remote 34 refl refl refl refl
      (λ e. false≢true ((str_eq_iff "teleop" "").1 e)) refl (omega arith) refl
      (omega arith, tt, (omega arith, inr refl, tt)) (omega arith)
