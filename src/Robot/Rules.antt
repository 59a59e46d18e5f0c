-- ===== src/Robot/Rules.antt =====
-- Rules for the robot's methods: an invariant that speaks of the backend on the one side and of the
-- profile and the filter on the other.
use package.flexiv_control.Robot.{Robot, on_backend, take_cancel, get_state}
use flexiv_control.Common.{Bool, Option, arith}
use flexiv_control.Common.Result.{Result, ok, err}
use flexiv_control.Common.Exec.{Exec, Hoare, Hoare-bind, Post, ◌>>=◌}
use flexiv_control.Types.{Vec6, Pose, GripperCommand}
use flexiv_control.Safety.Profile.{SafetyProfile, SafetyFilter}
use flexiv_control.Backend.{Backend}

-- What the methods of a backend that the Cartesian executor calls do to an invariant `P` of its
-- object, when it is told to stream poses of `Good` only. A stop establishes `Stopped`.
pub record Respects {F B : Type 0} (ops : Backend F B) (P : B → Type 0) (Good : Pose F → Type 0)
    (Stopped : B → Type 0) : Type 0 where
  pub read_state : Hoare P ops.read_state (λ _. P) P
  pub in_fault : Hoare P ops.in_fault (λ _. P) P
  pub stop : Hoare P ops.stop (λ _ b. P b × Stopped b) P
  pub stream_cartesian :
      (pose : Pose F) (w : Option (Vec6 F))
      → Good pose
      → Hoare P (ops.stream_cartesian pose w) (λ _. P) P
  pub move_gripper : (g : GripperCommand F) → Hoare P (ops.move_gripper g) (λ _. P) P

module _ {F B : Type 0} (P : B → Type 0) (J : SafetyProfile F → SafetyFilter F → Type 0) where
  abbrev pub Framed : Robot F B → Type 0
  Framed r = P r.backend × J r.profile r.filter

  lift :
      {A : Type 0} (Q : A → B → Type 0) (r : Robot F B)
      → J r.profile r.filter
      → (a : Result A) (b : B) → Post Q P (a, b)
      → Post (λ a r. Q a r.backend × J r.profile r.filter) Framed (a, record r { backend = b })
  lift Q r j (ok a) b k = (k, j)
  lift Q r j (err e) b k = (k, j)

  pub on_backend-Framed :
      {A : Type 0} (m : Exec B A) (Q : A → B → Type 0)
      → Hoare P m Q P
      → Hoare Framed (on_backend m) (λ a r. Q a r.backend × J r.profile r.filter) Framed
  unfolding on_backend
  on_backend-Framed m Q h = record {
    at = λ r i. let (a, b) = m r.backend in lift Q r i.1 a b (h.at r.backend i.0);
  }

  pub get_state-Framed :
      (ops : Backend F B)
      → Hoare P ops.read_state (λ _. P) P
      → Hoare Framed (get_state ops) (λ _. Framed) Framed
  unfolding get_state ◌>>=◌
  get_state-Framed ops h =
      Hoare-bind _ _ (on_backend-Framed ops.read_state (λ _. P) h) λ s. record { at = λ r i. i }

  pub take_cancel-Framed : (c : Bool) → Hoare Framed (take_cancel c) (λ _. Framed) Framed
  unfolding take_cancel
  take_cancel-Framed c = record { at = λ r i. ground arith }
