-- ===== src/Safety/Cartesian/Verdict.antt =====
-- What the result of `filter_cartesian` says, on every branch.
use package.flexiv_control.Safety.Profile.{
  rejects, SafetyProfile, SafetyResult, SafetyFilter, rejected,
}
use flexiv_control.Safety.Cartesian.Stages.{
  Work, exceeds, all_close, clip_position, workspace_stage, jump_linear_stage, jump_angular_stage,
  speed_linear_stage, speed_angular_stage, accel_stage, linear_step, angular_step,
}
use package.flexiv_control.Safety.Cartesian.{limited, finish, filter_cartesian}
use flexiv_control.Common.{
  ◌≡◌, ◌≢◌, ◌⊎◌, inl, inr, refl, ap, ◌∙◌, Bool, true, false, not, ◌&&◌, if◌then◌else◌, Option, none,
  some, List, [], ◌∷◌, ◌++◌, get_or_else, arith, Bool-cases,
}
use flexiv_control.Number.{Number, ◌≼◌, ◌⊗◌, ◌⊘◌, zero_num, num_max}
use flexiv_control.Transforms.{vec3, vec_entries, vec_sub, vec_over, eps}
use flexiv_control.Types.{StopReason, Vec3, Vec6, Pose, RobotState}

append-ne-nil {ℓ} : {A : Type ℓ} (xs : List A) (x : A) → xs ++ x ∷ [] ≢ []
append-ne-nil [] x e = cc
append-ne-nil (y ∷ ys) x e = cc

module _ {F : Type 0} ⦃n : Number F⦄ where
  -- No entry of the wrench is above its cap.
  abbrev pub IsUnder : Vec6 F → Vec6 F → Type 0
  IsUnder w cap =
      (n.abs w.linear.x ≼ cap.linear.x)
      × (n.abs w.linear.y ≼ cap.linear.y)
      × (n.abs w.linear.z ≼ cap.linear.z)
      × (n.abs w.angular.x ≼ cap.angular.x)
      × (n.abs w.angular.y ≼ cap.angular.y)
      × (n.abs w.angular.z ≼ cap.angular.z)

  pub exceeds-IsUnder : (w cap : Vec6 F) → exceeds w cap ≡ false → IsUnder w cap
  unfolding exceeds
  exceeds-IsUnder w cap h = ground arith

  -- The limits as they stand for the target itself: the box up to the tolerance, and the jump, speed
  -- and acceleration limits of the step from the reference.
  abbrev pub in_box : SafetyProfile F → Pose F → Bool
  in_box p target = all_close (clip_position p target.position) target.position

  abbrev pub under_accel : SafetyProfile F → F → Option (Vec3 F) → Pose F → Pose F → Bool
  under_accel p dt prev_lin_vel ref target = elim p.max_linear_accel [
    | none ↦ true
    | some accel ↦
        (let v = vec_over (vec_sub target.position ref.position) (num_max dt eps) in
          let v_prev = get_or_else (vec3 zero_num zero_num zero_num) prev_lin_vel in
          not (n.lt (accel ⊗ dt) (n.norm (vec_entries (vec_sub v v_prev)))))
  ]

  abbrev pub is_within : SafetyFilter F → Pose F → Pose F → Bool
  is_within f ref target =
      in_box f.p target
      && not (n.lt f.p.max_pose_jump_linear (linear_step ref target))
      && not (n.lt f.p.max_pose_jump_angular (angular_step ref target))
      && not (n.lt f.p.max_linear_speed (linear_step ref target ⊘ num_max f.dt eps))
      && not (n.lt f.p.max_angular_speed (angular_step ref target ⊘ num_max f.dt eps))
      && under_accel f.p f.dt f.prev_lin_vel ref target

  -- Either the target is within the limits so far, nothing was changed and no reason is given, or it
  -- is not, and a reason is given.
  abbrev IsReported : Bool → Pose F → Work F → Type 0
  IsReported within target w =
      ((w.clipped ≡ false) × (w.reasons ≡ []) × (w.pose ≡ target) × (within ≡ true))
      ⊎ ((w.clipped ≡ true) × (w.reasons ≢ []) × (within ≡ false))

  workspace-IsReported :
      (p : SafetyProfile F) (target : Pose F) {w : Work F}
      → workspace_stage p target ≡ some w
      → IsReported (in_box p target) target w
  unfolding workspace_stage
  workspace-IsReported p target e = ground arith

  -- A stage that changes the work when a test of its pose succeeds.
  stage-IsReported :
      (within : Bool) (target : Pose F) (w moved : Work F) (over : Pose F → Bool)
      → moved.clipped ≡ true
      → moved.reasons ≢ []
      → IsReported within target w
      → IsReported (within && not (over target)) target (if over w.pose then moved else w)
  stage-IsReported within target w moved over marked said (inr (c, r, b)) =
      elim (Bool-cases (over w.pose)) [
        | inl e ↦ rw (e, b) (inr (marked, said, refl))
        | inr e ↦ rw (e, b) (inr (c, r, refl))
      ]
  stage-IsReported within target w moved over marked said (inl (c, r, same, b)) =
      elim (Bool-cases (over target)) [
        | inl e ↦ rw (ap over same ∙ e, e, b) (inr (marked, said, refl))
        | inr e ↦ rw (ap over same ∙ e, e, b) (inl (c, r, same, refl))
      ]

  module _ (p : SafetyProfile F) (dt : F) (ref target : Pose F) (within : Bool) (w : Work F)
      (h : IsReported within target w) where
    jump_linear-IsReported :
        IsReported
          (within && not (n.lt p.max_pose_jump_linear (linear_step ref target)))
          target
          (jump_linear_stage p ref w)
    unfolding jump_linear_stage
    jump_linear-IsReported =
        stage-IsReported within target w _ (λ x. n.lt p.max_pose_jump_linear (linear_step ref x))
          refl (append-ne-nil w.reasons StopReason.pose_jump) h

    jump_angular-IsReported :
        IsReported
          (within && not (n.lt p.max_pose_jump_angular (angular_step ref target)))
          target
          (jump_angular_stage p ref w)
    unfolding jump_angular_stage
    jump_angular-IsReported =
        stage-IsReported within target w _ (λ x. n.lt p.max_pose_jump_angular (angular_step ref x))
          refl (append-ne-nil w.reasons StopReason.pose_jump) h

    speed_linear-IsReported :
        IsReported
          (within && not (n.lt p.max_linear_speed (linear_step ref target ⊘ num_max dt eps)))
          target
          (speed_linear_stage p dt ref w)
    unfolding speed_linear_stage
    speed_linear-IsReported =
        stage-IsReported within target w _
          (λ x. n.lt p.max_linear_speed (linear_step ref x ⊘ num_max dt eps)) refl
          (append-ne-nil w.reasons StopReason.tcp_speed) h

    speed_angular-IsReported :
        IsReported
          (within && not (n.lt p.max_angular_speed (angular_step ref target ⊘ num_max dt eps)))
          target
          (speed_angular_stage p dt ref w)
    unfolding speed_angular_stage
    speed_angular-IsReported =
        stage-IsReported within target w _
          (λ x. n.lt p.max_angular_speed (angular_step ref x ⊘ num_max dt eps)) refl
          (append-ne-nil w.reasons StopReason.tcp_speed) h

    accel-IsReported :
        (v : Option (Vec3 F))
        → IsReported (within && under_accel p dt v ref target) target (accel_stage p dt v ref w).0
    unfolding accel_stage
    accel-IsReported v = by_cap p.max_linear_accel refl h
      where
        by_cap :
            (cap : Option F)
            → p.max_linear_accel ≡ cap
            → IsReported within target w
            → IsReported
                (within && under_accel p dt v ref target)
                target
                (accel_stage p dt v ref w).0
        by_cap none e h = ground arith
        by_cap (some a) e h = ground (arith, append-ne-nil w.reasons StopReason.tcp_speed)

  limited-IsReported :
      (f : SafetyFilter F) (ref target : Pose F) (w : Work F)
      → IsReported (in_box f.p target) target w
      → let (w', vel) = accel_stage f.p f.dt f.prev_lin_vel ref (limited f ref w) in
        IsReported (is_within f ref target) target w'
  unfolding limited
  limited-IsReported f ref target w h =
      accel-IsReported f.p f.dt ref target _ _
        (speed_angular-IsReported f.p f.dt ref target _ _ (
          speed_linear-IsReported f.p f.dt ref target _ _ (
            jump_angular-IsReported f.p f.dt ref target _ _
              (jump_linear-IsReported f.p f.dt ref target _ w h))))
        f.prev_lin_vel

  -- What an accepted setpoint comes with: it is recorded as the previous command; if the
  -- target is within all limits of the step from `ref`, it is the target itself and nothing is
  -- reported as clipped, and else it is reported as clipped, with a reason.
  pub record IsAccepted (ref target : Pose F) (f f' : SafetyFilter F) (r : SafetyResult F)
      : Type 0 where
    pub is_ok : r.ok ≡ true
    pub pose : Pose F
    pub emitted : r.pose ≡ some pose
    pub recorded : f'.prev_pose ≡ some pose
    pub report :
        ((r.clipped ≡ false)
          × (r.clip_reasons ≡ [])
          × (pose ≡ target)
          × (is_within f ref target ≡ true))
        ⊎ ((r.clipped ≡ true) × (r.clip_reasons ≢ []) × (is_within f ref target ≡ false))
    pub same_profile : f'.p ≡ f.p
    pub same_dt : f'.dt ≡ f.dt
    pub same_joints : f'.prev_q ≡ f.prev_q

  finish-IsAccepted :
      (f : SafetyFilter F) (ref target : Pose F) (w : Work F)
      → IsReported (in_box f.p target) target w
      → let (r, f') = finish f ref (limited f ref w) in IsAccepted ref target f f' r
  unfolding finish
  finish-IsAccepted f ref target w h = record {
    is_ok = refl;
    pose = (accel_stage f.p f.dt f.prev_lin_vel ref (limited f ref w)).0.pose;
    emitted = refl;
    recorded = refl;
    report = limited-IsReported f ref target w h;
    same_profile = refl;
    same_dt = refl;
    same_joints = refl;
  }

  module _ (target : Pose F) (state : RobotState F) (cap : Option (Vec6 F))
      (f : SafetyFilter F) where
    -- The previous command, or else the measured pose.
    abbrev pub reference : Pose F
    reference = get_or_else state.tcp_pose f.prev_pose

    abbrev pub over_cap : Bool
    over_cap = exceeds state.wrench (get_or_else f.p.max_contact_wrench cap)

    after_contact :
        over_cap ≡ false
        → (o : Option (Work F)) → workspace_stage f.p target ≡ o
        → let (r, f') = filter_cartesian target state cap f in
          ((f.p.workspace_action ≡ rejects)
            × (all_close (clip_position f.p target.position) target.position ≡ false)
            × (r ≡ rejected StopReason.workspace)
            × (f' ≡ f))
          ⊎ IsAccepted reference target f f' r
    unfolding filter_cartesian workspace_stage
    after_contact free none e = inl (ground arith)
    after_contact free (some w) e =
        inr (
          rw (free, e) (finish-IsAccepted f reference target w (workspace-IsReported f.p target e)))

    contact :
        over_cap ≡ true
        → let (r, f') = filter_cartesian target state cap f in
          (r ≡ rejected StopReason.contact_wrench) × (f' ≡ f)
    unfolding filter_cartesian
    contact over = rw over (refl, refl)

    -- Every setpoint ends in one of three ways. Over the contact cap, and outside the box of a
    -- profile that rejects, it is refused with that reason and the filter is unchanged. Any other
    -- is accepted and recorded: unchanged and with nothing reported if it is within the limits of the
    -- box, the jump, the speed and the acceleration, and reported as clipped, with a reason, if not.
    pub filter_cartesian_lem :
        let (r, f') = filter_cartesian target state cap f in
        ((over_cap ≡ true) × (r ≡ rejected StopReason.contact_wrench) × (f' ≡ f))
        ⊎ ((over_cap ≡ false)
            × (f.p.workspace_action ≡ rejects)
            × (all_close (clip_position f.p target.position) target.position ≡ false)
            × (r ≡ rejected StopReason.workspace)
            × (f' ≡ f))
        ⊎ (IsUnder state.wrench (get_or_else f.p.max_contact_wrench cap)
            × IsAccepted reference target f f' r)
    filter_cartesian_lem = elim (Bool-cases over_cap) [
      | inl over ↦ inl (over, (contact over).0, (contact over).1)
      | inr free ↦ elim (after_contact free (workspace_stage f.p target) refl) [
        | inl (acts, outside, said, kept) ↦ inr (inl (free, acts, outside, said, kept))
        | inr go ↦ inr (inr (exceeds-IsUnder state.wrench _ free, go))
      ]
    ]
