-- ===== src/Preview.antt =====
-- src/flexiv_control/viz/preview.py and `SafetyProfile.validate_chunk`: what a chunk would command. The
-- cap `inf` is `none`, and the warnings are values in place of texts.
pub mod Stream
pub mod Clean
use flexiv_control.Common.{
  ℕ, suc, ◌+◌, Bool, true, false, not, ◌||◌, ◌&&◌, Option, none, some, List, [], ◌∷◌, ◌++◌, map,
  length, if◌then◌else◌,
}
use flexiv_control.Common.Result.{Result, ok, ◌>>=◌}
use flexiv_control.Number.{Number, ◌⊕◌, ◌⊖◌, ◌⊗◌, ◌⊘◌, zero_num, num_min}
use flexiv_control.Types.{Vec3, Quat, Pose, GripperCommand}
use flexiv_control.Transforms.{vec_entries, vec_sub, quat_angle}
use flexiv_control.Safety.Profile.{SafetyProfile}
use flexiv_control.ActionChunk.{CartesianWaypoint, CartesianChunk, for_execution, total_duration}
use flexiv_control.Interpolation.{Tick, setpoints}

pub record GripperEvent (F : Type 0) : Type 0 where
  pub tick : ℕ
  pub position : Vec3 F
  pub command : GripperCommand F
  pub closing : Bool

-- What is wrong with the waypoint of a number: its position, or a peak speed.
pub data Problem : Type 0 where
  outside too_fast turns_too_fast : ℕ → Problem

pub record ChunkPreview (F : Type 0) : Type 0 where
  pub setpoints : List (Pose F)
  pub gripper_events : List (GripperEvent F)
  pub waypoints : List (Vec3 F)
  pub warnings : List Problem
  pub duration_s : F
  pub nominal_duration_s : F
  pub linear_speed_cap : Option F
  pub angular_speed_cap : Option F
  pub start_pose : Pose F

abbrev pub problem_if : Bool → Problem → List Problem
problem_if b p = if b then p ∷ [] else []

module _ {F : Type 0} ⦃n : Number F⦄ where
  unfoldable pub is_outside : SafetyProfile F → Vec3 F → Bool
  is_outside p v =
      n.lt v.x p.ws_x.low
      || n.lt v.y p.ws_y.low
      || n.lt v.z p.ws_z.low
      || n.lt p.ws_x.high v.x
      || n.lt p.ws_y.high v.y
      || n.lt p.ws_z.high v.z

  -- (pi / 2) * distance / duration
  abbrev peak_speed : F → F → F
  peak_speed distance duration = (n.pi ⊘ n.of_nat 2) ⊗ distance ⊘ duration

  abbrev turn_problem : ℕ → F → F → Option (Quat F) → Option (Quat F) → List Problem
  turn_problem i ang_cap dur (some a) (some b) =
      problem_if (n.lt ang_cap (peak_speed (quat_angle a b) dur)) (turns_too_fast i)
  turn_problem i ang_cap dur _ _ = []

  abbrev speed_problems :
      ℕ → F → F → Option (Vec3 F) → Option (Quat F) → CartesianWaypoint F → Option F → List Problem
  speed_problems i lin_cap ang_cap (some prev) prev_quat w (some dur) =
      if n.lt zero_num dur
      then problem_if
          (n.lt lin_cap (peak_speed (n.norm (vec_entries (vec_sub w.position prev))) dur))
          (too_fast i)
        ++ turn_problem i ang_cap dur prev_quat w.quaternion
      else []
  speed_problems i lin_cap ang_cap _ prev_quat w _ = []

  abbrev latest : Option (Quat F) → Option (Quat F) → Option (Quat F)
  latest prev none = prev
  latest prev (some q) = some q

  -- The loop of `validate_chunk` from waypoint `i` on.
  unfoldable pub problems_from :
      SafetyProfile F
      → (lin_cap ang_cap : F) → ℕ
      → Option (Vec3 F)
      → Option (Quat F)
      → List (CartesianWaypoint F)
      → List Problem
  problems_from p lin_cap ang_cap i prev prev_quat [] = []
  problems_from p lin_cap ang_cap i prev prev_quat (w ∷ ws) =
      problem_if (is_outside p w.position) (outside i)
      ++ (speed_problems i lin_cap ang_cap prev prev_quat w w.duration
          ++ problems_from p lin_cap ang_cap (i + 1) (some w.position)
              (latest prev_quat w.quaternion) ws)

  abbrev lowered : F → F → F
  lowered cap limit = if n.lt zero_num limit then num_min cap limit else cap

  unfoldable pub validate_chunk : SafetyProfile F → CartesianChunk F → List Problem
  validate_chunk p c =
      problems_from p (lowered p.max_linear_speed c.max_tcp_linear_speed)
        (lowered p.max_angular_speed c.max_tcp_angular_speed) 0 none none c.waypoints

  -- float(cap) if cap else float("inf")
  abbrev cap_or_inf : F → Option F
  cap_or_inf x = if n.lt x zero_num || n.lt zero_num x then some x else none

  -- min(cap, limit)
  abbrev min_cap : Option F → F → Option F
  min_cap none limit = some limit
  min_cap (some x) limit = some (num_min x limit)

  unfoldable pub effective_cap : F → Option F → Option F
  effective_cap cap none = cap_or_inf cap
  effective_cap cap (some limit) = min_cap (cap_or_inf cap) limit

  abbrev of_profile : (SafetyProfile F → F) → Option (SafetyProfile F) → Option F
  of_profile field none = none
  of_profile field (some p) = some (field p)

  unfoldable pub effective_caps : CartesianChunk F → Option (SafetyProfile F) → Option F × Option F
  effective_caps c profile = (
    effective_cap c.max_tcp_linear_speed (of_profile (λ p. p.max_linear_speed) profile),
    effective_cap c.max_tcp_angular_speed (of_profile (λ p. p.max_angular_speed) profile),
  )

  abbrev event_width : GripperCommand F → F
  event_width g = if g.grasp then zero_num else g.width

  abbrev narrows : Option F → F → Bool
  narrows none width = false
  narrows (some prev) width = n.lt width (prev ⊖ n.lit 1 6)

  -- The gripper commands among the ticks from number `k` on.
  unfoldable pub events_from : ℕ → Option F → List (Tick F) → List (GripperEvent F)
  events_from k prev [] = []
  events_from k prev (t ∷ ts) = elim t.grip [
    | none ↦ events_from (k + 1) prev ts
    | some g ↦
        record {
          tick = k;
          position = t.pose.position;
          command = g;
          closing = g.grasp || narrows prev (event_width g);
        }
        ∷ events_from (k + 1) (some (event_width g)) ts
  ]

  abbrev warnings_of : Option (SafetyProfile F) → CartesianChunk F → List Problem
  warnings_of none c = []
  warnings_of (some p) c = validate_chunk p c

  unfoldable pub preview_of :
      CartesianChunk F → Pose F → Option (SafetyProfile F) → F → ChunkPreview F
  preview_of resolved start profile hz =
      let (linear, angular) = effective_caps resolved profile in
      let ticks =
        setpoints (record { hz = hz; max_linear_speed = linear; max_angular_speed = angular })
          resolved start in
      record {
        setpoints = map (λ t. t.pose) ticks;
        gripper_events = events_from 0 none ticks;
        waypoints = map (λ w. w.position) resolved.waypoints;
        warnings = warnings_of profile resolved;
        duration_s = n.of_nat (length ticks) ⊘ hz;
        nominal_duration_s = total_duration resolved hz;
        linear_speed_cap = linear;
        angular_speed_cap = angular;
        start_pose = start;
      }

  unfoldable pub plan_chunk_preview :
      CartesianChunk F → Pose F → Option (SafetyProfile F) → F → Result (ChunkPreview F)
  plan_chunk_preview chunk start profile hz =
      for_execution chunk start >>= λ resolved. ok (preview_of resolved start profile hz)

  unfoldable pub pose_distance : Pose F → Pose F → F × F
  pose_distance a b =
      (n.norm (vec_entries (vec_sub a.position b.position)), quat_angle a.quat b.quat)

  unfoldable pub time_stretched : ChunkPreview F → Bool
  time_stretched v = n.lt (v.nominal_duration_s ⊕ n.lit 1 6) v.duration_s

  abbrev last_or : Pose F → List (Pose F) → Pose F
  last_or p [] = p
  last_or p (q ∷ qs) = last_or q qs

  unfoldable pub terminal_pose : ChunkPreview F → Pose F
  terminal_pose v = last_or v.start_pose v.setpoints
