-- ===== src/ServoLoop/Manual.antt =====
-- A target that a caller sets while the loop runs, over the turns that come after it.
use package.flexiv_control.ServoLoop.{
  ServoLoop, on_robot, report, set_cartesian_target, pull, put, advance_chunk, ensure_stream_mode,
}
use package.flexiv_control.ServoLoop.Turn.{
  Snapshot, handled, observe, halt, hold, streamed, grip, stream_pose, follow_pose, follow_joints,
  follow, decide, crash, turn, turns, is_stale, is_held_long,
}
use flexiv_control.Common.{
  ap, false≢true, Bool, true, false, not, ◌||◌, Option, none, some, List, [], ◌∷◌, ◌≡◌, refl,
  if◌then◌else◌,
}
use flexiv_control.Common.Result.{Result, ok, err, runtime_error}
use flexiv_control.Common.Exec.{
  Exec, return, raise, ◌>>=◌, ◌>>◌, Post, Hoare, Hoare-return, Hoare-bind, Hoare-if, Invariant,
  Invariant-bind,
}
use flexiv_control.Number.{Number, ◌⊖◌}
use flexiv_control.Types.{
  Pose, GripperCommand, SafetyStatus, StopReason, RobotState, is_cartesian, is_idle,
}
use flexiv_control.Safety.Cartesian.{filter_cartesian}
use flexiv_control.Safety.Profile.{SafetyResult}
use flexiv_control.Safety.Watchdog.{check_state_age}
use flexiv_control.Backend.{Backend}
use flexiv_control.Robot.{Robot, on_backend}

-- The buffer follows a pose that was set at this time, and no chunk.
abbrev pub IsAimed : {F B : Type 0} → Pose F → F → ServoLoop F B → Type 0
IsAimed pose at_set l =
    (l.cartesian ≡ true)
    × (l.target_pose ≡ some pose)
    × (l.chunk_iter ≡ none)
    × (l.cmd_stamp ≡ at_set)

module _ {F : Type 0} ⦃n : Number F⦄ {B : Type 0} (ops : Backend F B) where
  module _ (pose : Pose F) (at_set : F) where
    abbrev pub Aimed : ServoLoop F B → Type 0
    Aimed = IsAimed pose at_set

    -- The method leaves the target as it is, however it ends.
    abbrev pub Keeps : {A : Type 0} → Exec (ServoLoop F B) A → Type 0
    Keeps m = Invariant Aimed m

    -- What a turn then reads.
    abbrev pub Sees : F → Snapshot F → Type 0
    Sees at_snapshot sn =
        (sn.cartesian ≡ true) × (sn.target_pose ≡ some pose) × (sn.age ≡ at_snapshot ⊖ at_set)

    on_robot-Keeps : {A : Type 0} (m : Exec (Robot F B) A) → Keeps (on_robot m)
    unfolding on_robot
    on_robot-Keeps {A = A} m = record { at = λ l i. either (m l.robot) l i }
      where
        either :
            (o : Result A × Robot F B) (l : ServoLoop F B)
            → IsAimed pose at_set l
            → Post (λ a. IsAimed pose at_set) (IsAimed pose at_set) (o.0, record l { robot = o.1 })
        either (ok a, r) l i = i
        either (err e, r) l i = i

    halt-Keeps : (status : SafetyStatus) (reason : StopReason) → Keeps (halt ops status reason)
    unfolding halt report
    halt-Keeps status reason = Invariant-bind (on_robot-Keeps _) λ u. record { at = λ l i. i }

    ensure_stream_mode-Keeps : (s : RobotState F) (c : Bool) → Keeps (ensure_stream_mode ops s c)
    unfolding ensure_stream_mode
    ensure_stream_mode-Keeps s c =
        Hoare-if c _ _
          (λ e.
            Hoare-if (is_cartesian s.control_mode) _ _ (λ e. record { at = λ l i. i })
              λ e. on_robot-Keeps _)
          λ e.
            Hoare-if (is_cartesian s.control_mode || is_idle s.control_mode) _ _
              (λ e. on_robot-Keeps _) λ e. record { at = λ l i. i }

    hold-Keeps : (sn : Snapshot F) → Keeps (hold ops sn)
    unfolding hold
    hold-Keeps sn =
        Invariant-bind (record { at = λ l i. i })
          λ u.
            Invariant-bind (ensure_stream_mode-Keeps sn.state sn.cartesian)
              λ u. Hoare-if sn.cartesian _ _ (λ e. on_robot-Keeps _) λ e. on_robot-Keeps _

    streamed-Keeps : (sr : SafetyResult F) → Keeps (streamed ops sr)
    unfolding streamed
    streamed-Keeps sr = record { at = λ l i. i }

    grip-Keeps : (g : Option (GripperCommand F)) → Keeps (grip ops g)
    unfolding grip
    grip-Keeps none = record { at = λ l i. i }
    grip-Keeps (some g) = Invariant-bind (on_robot-Keeps _) λ u. record { at = λ l i. i }

    stream_pose-Keeps :
        (sn : Snapshot F) (sr : SafetyResult F) (p : Option (Pose F))
        → Keeps {A = Unit {0}} (elim p [
          | none ↦ raise runtime_error
          | some p ↦ (do
            ensure_stream_mode ops sn.state true
            on_robot (on_backend (ops.stream_cartesian p none))
            grip ops sn.gripper
            streamed ops sr)
        ])
    stream_pose-Keeps sn sr none = record { at = λ l i. i }
    stream_pose-Keeps sn sr (some p) = Invariant-bind (ensure_stream_mode-Keeps sn.state true) λ u.
        Invariant-bind (on_robot-Keeps _)
          λ u. Invariant-bind (grip-Keeps sn.gripper) λ u. streamed-Keeps sr

    if-Aimed :
        (b : Bool) (x y : Result (Unit {0}) × ServoLoop F B)
        → Post (λ a. Aimed) Aimed x
        → Post (λ a. Aimed) Aimed y
        → Post (λ a. Aimed) Aimed (if b then x else y)
    if-Aimed true x y i k = i
    if-Aimed false x y i k = k

    -- A turn whose snapshot is Cartesian.
    follow_pose-Keeps : (sn : Snapshot F) (target : Pose F) → Keeps (follow_pose ops sn target)
    unfolding follow_pose stream_pose
    follow_pose-Keeps sn target = record {
      at = λ l i.
          let (sr, f) = filter_cartesian target sn.state none l.robot.filter in
          let l' = record l { robot = record l.robot { filter = f } } in
          if-Aimed sr.ok _ _ ((stream_pose-Keeps sn sr sr.pose).at l' i)
            ((halt-Keeps SafetyStatus.stopped sr.reason).at l' i);
    }

    decide-Keeps : (sn : Snapshot F) → sn.cartesian ≡ true → Keeps (decide ops sn)
    unfolding decide follow
    decide-Keeps sn cart = record {
      at = λ l i. if-Aimed sn.faulted _ _ ((halt-Keeps _ _).at l i) (
          if-Aimed (not (check_state_age sn.state_age_ms l.robot.filter).ok) _ _
            ((halt-Keeps _ _).at l i)
            (if-Aimed (is_stale ops l.robot.filter.p sn.age) _ _
              (if-Aimed (is_held_long ops l.robot.filter.p sn.age) _ _ ((halt-Keeps _ _).at l i)
                ((hold-Keeps sn).at l i))
              ((followed sn.cartesian sn.target_pose cart).at l i)));
    }
      where
        followed :
            (c : Bool) (t : Option (Pose F))
            → c ≡ true
            → Keeps {A = Unit {0}} (
                if c
                then elim t [ none ↦ return tt | some p ↦ follow_pose ops sn p ]
                else elim sn.target_q [ none ↦ return tt | some q ↦ follow_joints ops sn q ])
        followed true none e = record { at = λ l i. i }
        followed true (some p) e = follow_pose-Keeps sn p
        followed false t e = absurd (false≢true e)

    carry :
        {A C : Type 0} {m : Exec (ServoLoop F B) A}
        → Keeps m
        → Hoare (λ l. C × Aimed l) m (λ a l. C × Aimed l) Aimed
    carry {A = A} {C = C} {m = m} h = record { at = λ l i. more i.0 (m l) (h.at l i.1) }
      where
        more :
            C
            → (o : Result A × ServoLoop F B) → Post (λ a. Aimed) Aimed o
            → Post (λ a l. C × Aimed l) Aimed o
        more c (ok a, l) i = (c, i)
        more c (err e, l) i = i

    advance_chunk-Keeps : (p : F) → Keeps (advance_chunk p)
    unfolding advance_chunk pull put ◌>>=◌
    advance_chunk-Keeps p = record {
      at = λ l i. let (c, t, none_left, st) = i in rw none_left (c, t, refl, st);
    }

    pub observe-Sees :
        (s p o : F) → Hoare Aimed (observe ops s p o) (λ sn l. Sees o sn × Aimed l) Aimed
    unfolding observe
    observe-Sees s p o = Hoare-bind _ _ (on_robot-Keeps _) λ state.
        Hoare-bind {Q = λ u. Aimed} _ _ (record { at = λ l i. i })
          λ u. Hoare-bind _ _ (advance_chunk-Keeps p) λ u.
            Hoare-bind {Q = λ l l'. Aimed l × Aimed l'} _ _ (record { at = λ l i. (i, i) })
              λ l.
                Hoare-bind {Q = λ u l'. Aimed l × Aimed l'} _ _ (record { at = λ l' i. i })
                  λ u. Hoare-bind _ _ (carry (on_robot-Keeps _)) λ faulted.
                    Hoare-return _
                      λ l' i. let (c, t, none_left, st) = i.0 in ((c, t, ap (λ x. o ⊖ x) st), i.1)

    turn-Keeps : (s p o : F) → Keeps (turn ops s p o)
    unfolding turn crash on_robot
    turn-Keeps s p o = record {
      at = λ l i. done ((observe ops s p o >>= λ sn. decide ops sn) l) ((whole s p o).at l i);
    }
      where
        whole : (s p o : F) → Keeps (observe ops s p o >>= λ sn. decide ops sn)
        whole s p o =
            Hoare-bind _ _ (observe-Sees s p o)
              λ sn. record { at = λ l i. (decide-Keeps sn i.0.0).at l i.1 }

        done :
            (o : Result (Unit {0}) × ServoLoop F B)
            → Post (λ a. Aimed) Aimed o
            → Post (λ a. Aimed) Aimed (handled ops o)
        done (ok u, l) i = i
        done (err e, l) i = i

    pub turns-Keeps : (times : List (F × F × F)) → Keeps (turns ops times)
    unfolding turns
    turns-Keeps [] = record { at = λ l i. i }
    turns-Keeps (t ∷ rest) =
        let (s, p, o) = t in Invariant-bind (turn-Keeps s p o) λ u. turns-Keeps rest

  -- A pose that a caller sets preempts an active chunk and is what every later turn follows, on any
  -- backend: however many turns follow the call, with no other call in between, the turn after them
  -- reads that pose, with no chunk active, and the age that it reads is the time since the call, so
  -- that no turn refreshes the stamp of a target. An exception that ends the loop leaves the
  -- target in the buffer.
  pub set_cartesian_target-Sees :
      (pose : Pose F) (g : Option (GripperCommand F)) (at_set s p o : F) (times : List (F × F × F))
      (l : ServoLoop F B)
      → Post
          (λ sn l'. Sees pose at_set o sn × IsAimed pose at_set l')
          (IsAimed pose at_set)
          ((set_cartesian_target pose g at_set >> (turns ops times >> observe ops s p o)) l)
  unfolding set_cartesian_target ◌>>=◌
  set_cartesian_target-Sees pose g at_set s p o times l =
      (Hoare-bind _ _ (turns-Keeps pose at_set times) λ u. observe-Sees pose at_set s p o).at
        (set_cartesian_target pose g at_set l).1 (refl, refl, refl, refl)
