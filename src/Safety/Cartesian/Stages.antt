-- ===== src/Safety/Cartesian/Stages.antt =====
-- The stages of `filter_cartesian`, in the order of its body.
use flexiv_control.Safety.Profile.{clips, rejects, Range, SafetyProfile}
use flexiv_control.Common.{
  Bool, true, false, ◌&&◌, ◌||◌, Option, none, some, List, [], ◌∷◌, ◌++◌, get_or_else,
  if◌then◌else◌,
}
use flexiv_control.Number.{Number, ◌⊗◌, ◌⊘◌, zero_num, num_max, clip}
use flexiv_control.Types.{StopReason, Vec3, Vec6, Pose}
use flexiv_control.Transforms.{
  vec3, vec_entries, vec_add, vec_sub, vec_scale, vec_over, eps, quat_angle, quat_slerp,
}

pub record Work (F : Type 0) : Type 0 where
  pub pose : Pose F
  pub clipped : Bool
  pub reasons : List StopReason

module _ {F : Type 0} ⦃n : Number F⦄ where
  -- np.any(np.abs(wrench) > cap)
  unfoldable pub exceeds : Vec6 F → Vec6 F → Bool
  exceeds w cap =
      n.lt cap.linear.x (n.abs w.linear.x)
      || n.lt cap.linear.y (n.abs w.linear.y)
      || n.lt cap.linear.z (n.abs w.linear.z)
      || n.lt cap.angular.x (n.abs w.angular.x)
      || n.lt cap.angular.y (n.abs w.angular.y)
      || n.lt cap.angular.z (n.abs w.angular.z)

  abbrev pub clip_range : F → Range F → F
  clip_range x r = clip x r.low r.high

  unfoldable pub clip_position : SafetyProfile F → Vec3 F → Vec3 F
  clip_position p v = vec3 (clip_range v.x p.ws_x) (clip_range v.y p.ws_y) (clip_range v.z p.ws_z)

  -- np.allclose on arrays of three
  unfoldable pub all_close : Vec3 F → Vec3 F → Bool
  all_close a b = n.close a.x b.x && n.close a.y b.y && n.close a.z b.z

  abbrev moved_to : Vec3 F → Work F → StopReason → Work F
  moved_to v w r = record {
    pose = record w.pose { position = v };
    clipped = true;
    reasons = w.reasons ++ r ∷ [];
  }

  -- 2. The workspace box; `none` is the protective stop of a profile that rejects.
  unfoldable pub workspace_stage : SafetyProfile F → Pose F → Option (Work F)
  workspace_stage p target =
      let clipped_pos = clip_position p target.position in
      let w : Work F = record { pose = target; clipped = false; reasons = [] } in
      if all_close clipped_pos target.position then some w else elim p.workspace_action [
        | rejects ↦ none
        | clips ↦ some (moved_to clipped_pos w StopReason.workspace)
      ]

  -- The step from the reference, and the point at a part of it.
  abbrev pub linear_step : Pose F → Pose F → F
  linear_step ref pose = n.norm (vec_entries (vec_sub pose.position ref.position))

  abbrev pub along : Vec3 F → Vec3 F → F → Vec3 F
  along ref target scale = vec_add ref (vec_scale (vec_sub target ref) scale)

  abbrev pub angular_step : Pose F → Pose F → F
  angular_step ref pose = quat_angle ref.quat pose.quat

  abbrev shortened : Pose F → F → StopReason → Work F → Work F
  shortened ref scale r w = moved_to (along ref.position w.pose.position scale) w r

  abbrev turned_less : Pose F → F → StopReason → Work F → Work F
  turned_less ref t r w = record {
    pose = record w.pose { quat = quat_slerp ref.quat w.pose.quat t };
    clipped = true;
    reasons = w.reasons ++ r ∷ [];
  }

  -- 3. The jump limits.
  unfoldable pub jump_linear_stage : SafetyProfile F → Pose F → Work F → Work F
  jump_linear_stage p ref w =
      let lin_step = linear_step ref w.pose in
      if n.lt p.max_pose_jump_linear lin_step
      then shortened ref (p.max_pose_jump_linear ⊘ num_max lin_step eps) StopReason.pose_jump w
      else w

  unfoldable pub jump_angular_stage : SafetyProfile F → Pose F → Work F → Work F
  jump_angular_stage p ref w =
      let ang_step = angular_step ref w.pose in
      if n.lt p.max_pose_jump_angular ang_step
      then turned_less ref (p.max_pose_jump_angular ⊘ num_max ang_step eps) StopReason.pose_jump w
      else w

  -- 4. The speed limits.
  unfoldable pub speed_linear_stage : SafetyProfile F → F → Pose F → Work F → Work F
  speed_linear_stage p dt ref w =
      let lin_step = linear_step ref w.pose in
      if n.lt p.max_linear_speed (lin_step ⊘ num_max dt eps)
      then shortened ref ((p.max_linear_speed ⊗ dt) ⊘ num_max lin_step eps) StopReason.tcp_speed w
      else w

  unfoldable pub speed_angular_stage : SafetyProfile F → F → Pose F → Work F → Work F
  speed_angular_stage p dt ref w =
      let ang_step = angular_step ref w.pose in
      if n.lt p.max_angular_speed (ang_step ⊘ num_max dt eps)
      then turned_less ref ((p.max_angular_speed ⊗ dt) ⊘ num_max ang_step eps) StopReason.tcp_speed
          w
      else w

  -- 4c. The acceleration cap, and the commanded velocity that the filter keeps.
  unfoldable pub accel_stage :
      SafetyProfile F → F → Option (Vec3 F) → Pose F → Work F → Work F × Vec3 F
  accel_stage p dt prev_lin_vel ref w =
      let v_new = vec_over (vec_sub w.pose.position ref.position) (num_max dt eps) in
      elim p.max_linear_accel [
        | none ↦ (w, v_new)
        | some accel ↦
            (let v_prev = get_or_else (vec3 zero_num zero_num zero_num) prev_lin_vel in
              let dv = vec_sub v_new v_prev in
              let dv_norm = n.norm (vec_entries dv) in
              let max_dv = accel ⊗ dt in
              let v_capped = vec_add v_prev (vec_scale dv (max_dv ⊘ num_max dv_norm eps)) in
              if n.lt max_dv dv_norm
              then (
                moved_to (vec_add ref.position (vec_scale v_capped dt)) w StopReason.tcp_speed,
                v_capped,
              )
              else (w, v_new))
      ]
