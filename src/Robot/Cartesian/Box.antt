-- ===== src/Robot/Cartesian/Box.antt =====
-- What the Cartesian loop tells the backend: poses of the workspace box only, and a stop whenever
-- the run stops.
use package.flexiv_control.Robot.{Robot}
use package.flexiv_control.Robot.Gate.{Orders, Run}
use package.flexiv_control.Robot.Cartesian.{run_ticks}
use package.flexiv_control.Robot.Rules.{Respects}
use package.flexiv_control.Robot.Cartesian.Rule.{Filters, run_ticks-After}
use flexiv_control.Common.{
  true, false, Option, none, some, List, All, ◌≡◌, ◌⊎◌, inl, inr, refl, sym, ◌∙◌, subst, Bool-cases,
}
use flexiv_control.Common.Exec.{Post}
use flexiv_control.Number.{Number, IsOrdered, IsExact, zero_num}
use flexiv_control.Types.{ControlMode, Vec6, Pose, RobotState, is_cartesian}
use flexiv_control.Safety.Profile.{SafetyProfile, SafetyFilter}
use flexiv_control.Safety.Cartesian.{filter_cartesian}
use flexiv_control.Safety.Cartesian.Stages.{all_close, clip_position}
use flexiv_control.Safety.Cartesian.Verdict.{filter_cartesian_lem}
use flexiv_control.Safety.Cartesian.Workspace.{InBox, IsSound, filter_cartesian-InBox}
use flexiv_control.Interpolation.{Tick}
use flexiv_control.Backend.{Backend}
use flexiv_control.Backend.Fake.{
  FakeBackend, fake_backend, read_state, in_fault, stream_cartesian, move_gripper, stop,
}

module _ {F : Type 0} ⦃n : Number F⦄ (p : SafetyProfile F) where
  -- A target that the box lets through, or that is far enough outside to be clipped.
  abbrev pub Fits : Pose F → Type 0
  Fits t = InBox p t.position ⊎ (all_close (clip_position p t.position) t.position ≡ false)

  abbrev pub Emits : Pose F → Type 0
  Emits t = InBox p t.position

  -- The filter works with this profile, and its previous command lies in the box.
  abbrev pub IsReady : SafetyFilter F → Type 0
  IsReady f =
      (f.p ≡ p)
      × (n.lt zero_num f.dt ≡ true)
      × ((pose : Pose F) × (f.prev_pose ≡ some pose) × InBox p pose.position)

  module _ (order : IsOrdered F) (exact : IsExact F) (sound : IsSound p)
      (plain : p.max_linear_accel ≡ none) where
    emits :
        (target : Pose F) (state : RobotState F) (limit : Vec6 F) (f : SafetyFilter F)
        → Fits target
        → IsReady f
        → (pose : Pose F) → (filter_cartesian target state (some limit) f).0.pose ≡ some pose
        → Emits pose
    emits target state limit f fits (same, positive, (prev, recorded, inside)) pose out =
        subst (λ (q : SafetyProfile F). InBox q pose.position) same
          (filter_cartesian-InBox order exact target state (some limit) f pose
            (subst IsSound (sym same) sound) positive (rw same plain) (rw (recorded, same) inside)
            (rw same fits) out)

    stays_ready :
        (target : Pose F) (state : RobotState F) (limit : Vec6 F) (f : SafetyFilter F)
        → Fits target
        → IsReady f
        → IsReady (filter_cartesian target state (some limit) f).1
    stays_ready target state limit f fits ready =
        elim (filter_cartesian_lem target state (some limit) f) [
          | inl (over, said, kept) ↦ rw kept ready
          | inr (inl (free, acts, outside, said, kept)) ↦ rw kept ready
          | inr (inr (under, accepted)) ↦ (
            accepted.same_profile ∙ ready.0,
            rw accepted.same_dt ready.1,
            (
              accepted.pose,
              accepted.recorded,
              emits target state limit f fits ready accepted.pose accepted.emitted,
            ),
          )
        ]

    filters : Filters (λ q f. IsReady f) Fits Emits
    filters = record {
      keeps = λ target state limit q f. stays_ready target state limit f;
      accepts = λ target state limit q f fits ready pose accepted.
          emits target state limit f fits ready pose;
    }

    pub loop :
        {B : Type 0} (ops : Backend F B) (P Stopped : B → Type 0)
        → Respects ops P Emits Stopped
        → (o : Orders F) (ts : List (Tick F)) (run : Run F) → All (λ t. Fits t.pose) ts
        → run.stopped ≡ none
        → (r : Robot F B) → P r.backend
        → IsReady r.filter
        → Post
            (λ run' r'.
              (P r'.backend × IsReady r'.filter) × ((run'.stopped ≡ none) ⊎ Stopped r'.backend))
            (λ r'. P r'.backend × IsReady r'.filter)
            (run_ticks ops o ts run r)
    loop ops P Stopped respects o ts run fits live r b ready =
        (run_ticks-After ops o P Stopped Emits Fits (λ q f. IsReady f) respects filters ts run fits
            live).at
          r (b, ready)

    -- The fake backend: what it was told, and its mode after a stop.
    abbrev Told : FakeBackend F → Type 0
    Told b = All Emits b.cartesian_log

    streamed :
        (pose : Pose F) (w : Option (Vec6 F))
        → Emits pose
        → (b : FakeBackend F) → Told b
        → Post (λ _. Told) Told (stream_cartesian pose w b)
    unfolding stream_cartesian
    streamed pose w good b h = elim (Bool-cases (is_cartesian b.mode)) [
      | inl e ↦ rw e (good, h)
      | inr e ↦ rw e h
    ]

    fake-Respects :
        (now : F) → Respects (fake_backend now) Told Emits (λ b. b.mode ≡ ControlMode.idle)
    unfolding read_state in_fault move_gripper stop
    fake-Respects now = record {
      read_state = record { at = λ b h. h };
      in_fault = record { at = λ b h. h };
      stop = record { at = λ b h. (h, refl) };
      stream_cartesian = λ pose w good. record { at = λ b h. streamed pose w good b h };
      move_gripper = λ g. record { at = λ b h. h };
    }

    -- In exact arithmetic, under a profile with sound limits and no acceleration cap, for a filter
    -- with a positive period whose previous command lies in the box, a run that is not stopped, and a
    -- backend to which no pose outside the box was streamed before: whatever setpoints, each inside
    -- the box or not `allclose` to its clipped version, and whatever stop requests the loop is given,
    -- every pose that was streamed to the backend lies in the box, also if a call raised, and a
    -- run that stopped early has left the backend idle.
    pub run_ticks-Told :
        (now : F) (o : Orders F) (ts : List (Tick F)) (run : Run F) (r : Robot F (FakeBackend F))
        → All (λ t. Fits t.pose) ts
        → run.stopped ≡ none
        → All Emits r.backend.cartesian_log
        → IsReady r.filter
        → Post
            (λ run' r'.
              (All Emits r'.backend.cartesian_log × IsReady r'.filter)
              × ((run'.stopped ≡ none) ⊎ (r'.backend.mode ≡ ControlMode.idle)))
            (λ r'. All Emits r'.backend.cartesian_log × IsReady r'.filter)
            (run_ticks (fake_backend now) o ts run r)
    run_ticks-Told now o ts run r fits live told ready =
        loop (fake_backend now) Told (λ b. b.mode ≡ ControlMode.idle) (fake-Respects now) o ts run
          fits live r told ready
