-- ===== src/Tests/SafetyTests.antt =====
-- The safety filter.
use flexiv_control.Common.{◌≡◌, ◌⊎◌, inr, refl, true, false, none, [], ◌∷◌}
use flexiv_control.Common.Int.{ℤ}
use flexiv_control.Number.{clip, num_max, num_min}
use flexiv_control.Number.Fixed.{fixed, fixed-IsOrdered, fixed-IsExact}
use flexiv_control.Types.{StopReason, ControlMode, Pose}
use flexiv_control.Transforms.{quat_angle, quat_normalize}
use flexiv_control.Safety.Profile.{rejects, rejected}
use flexiv_control.Safety.Cartesian.{filter_cartesian, limited}
use flexiv_control.Safety.Cartesian.Stages.{
  exceeds, all_close, clip_position, workspace_stage, jump_linear_stage, jump_angular_stage,
  speed_linear_stage, speed_angular_stage, accel_stage,
}
use flexiv_control.Safety.Cartesian.Workspace.{InBox, IsSound, filter_cartesian-InBox}
use flexiv_control.Safety.Cartesian.Verdict.{over_cap, IsUnder, IsAccepted, filter_cartesian_lem}
use flexiv_control.Safety.Joint.{
  filter_joint, clip_joints, joints_close, any_big, limit_steps, max_joint_step,
}
use flexiv_control.Safety.Joint.Limits.{filter_joint-InLimits, InLimits, InReach}
use flexiv_control.Tests.Numbers.{mm, whole, at, state_at, metre, middle, filter}

pub metre-IsSound : IsSound metre
metre-IsSound = record {
  range_x = refl;
  range_y = refl;
  range_z = refl;
  jump_nonneg = refl;
  speed_nonneg = refl;
}

-- A target above the box: it is clipped to the box, and then shortened by the jump limit.
abbrev high : Pose ℤ
high = at 500 500 1200

filter_cartesian-InBox_example : InBox metre (at 500 500 600).position
unfolding filter_cartesian exceeds workspace_stage all_close clip_position clip num_min num_max
    limited jump_linear_stage jump_angular_stage speed_linear_stage speed_angular_stage accel_stage
    quat_angle quat_normalize
filter_cartesian-InBox_example =
    filter_cartesian-InBox fixed-IsOrdered fixed-IsExact high
      (state_at middle ControlMode.nrt_cartesian_motion_force) none filter (at 500 500 600)
      metre-IsSound refl refl ((refl, refl), (refl, refl), (refl, refl)) (inr refl) refl

-- What `filter_cartesian_lem` says at one input.
abbrev HighVerdict : Type 0
HighVerdict =
    let state = state_at middle ControlMode.nrt_cartesian_motion_force in
    let (r, f') = filter_cartesian high state none filter in
    ((over_cap high state none filter ≡ true)
      × (r ≡ rejected StopReason.contact_wrench)
      × (f' ≡ filter))
    ⊎ ((over_cap high state none filter ≡ false)
        × (metre.workspace_action ≡ rejects)
        × (all_close (clip_position metre high.position) high.position ≡ false)
        × (r ≡ rejected StopReason.workspace)
        × (f' ≡ filter))
    ⊎ (IsUnder state.wrench metre.max_contact_wrench × IsAccepted middle high filter f' r)

filter_cartesian_lem_example : HighVerdict
filter_cartesian_lem_example =
    filter_cartesian_lem high (state_at middle ControlMode.nrt_cartesian_motion_force) none filter

-- Two joints, the first beyond its limit less the margin.
filter_joint-InLimits_example :
    let q = mm 1200 ∷ mm 800 ∷ [] in
    InLimits (mm 50) metre.joint_lower metre.joint_upper q
    × InReach (max_joint_step filter) (whole 1 ∷ whole 1 ∷ []) q
unfolding filter_joint clip_joints joints_close any_big limit_steps clip num_min num_max
filter_joint-InLimits_example =
    filter_joint-InLimits fixed-IsOrdered fixed-IsExact (whole 2 ∷ mm 800 ∷ [])
      (state_at middle ControlMode.nrt_joint_impedance) filter (mm 1200 ∷ mm 800 ∷ [])
      (refl, (refl, tt)) refl (refl, refl, (refl, refl, tt)) (inr refl) refl
