-- ===== src/Adapter/Replay.antt =====
-- What is recorded of an action.
use package.flexiv_control.Adapter.{
  LeRobotFlexivAdapter, clipped, clip_action, commanded, tell, send_action,
}
use flexiv_control.Common.{none, ◌≡◌, refl}
use flexiv_control.Common.Result.{Result, ok, err}
use flexiv_control.Common.Exec.{Post, return, proceed, ◌>>=◌}
use flexiv_control.Number.{Number, IsOrdered, ◌≼◌, one_num, clip_bounds, clip_inside}
use flexiv_control.Types.{Vec3}
use flexiv_control.Teleop.{Action}
use flexiv_control.Teleop.Intervene.{IsNormal, InUnit, InUnits}
use flexiv_control.Env.{Controlled, FlexivRealEnv, scale_action}

returned :
    {S A C : Type 0} (o : Result A × S) (c : C) (P : C → Type 0)
    → P c
    → Post (λ out s. P out) (λ s. Unit {0}) (proceed o.0 (λ r. return c) o.1)
returned (ok r, s) c P h = h
returned (err e, s) c P h = tt

module _ {F : Type 0} ⦃n : Number F⦄ where
  -- An environment with the settings of the adapter.
  abbrev pub as_env : {R : Type 0} → LeRobotFlexivAdapter F R → FlexivRealEnv F R
  as_env e = record {
    robot = e.robot;
    step_duration = e.step_duration;
    max_episode_steps = 200;
    pos_scale = e.pos_scale;
    rot_scale = e.rot_scale;
    gripper_open_width = e.gripper_open_width;
    gripper_force = n.of_nat 20;
    home_pose = none;
    owner = e.owner;
    connected = e.connected;
    elapsed = 0;
  }

  as_in_env :
      {R : Type 0} (e : LeRobotFlexivAdapter F R) (a : Action F)
      → commanded e (clip_action a) ≡ scale_action (as_env e) a
  unfolding commanded clip_action scale_action
  as_in_env e a = refl

  module _ (order : IsOrdered F) (unit : n.neg one_num ≼ one_num) where
    in_unit : (x : F) → InUnit (clipped x)
    in_unit x = clip_bounds order x (n.neg one_num) one_num unit

    in_units : (v : Vec3 F) → InUnits (record { x = clipped v.x; y = clipped v.y; z = clipped v.z })
    in_units v = (in_unit v.x, in_unit v.y, in_unit v.z)

    again : (x : F) → clipped (clipped x) ≡ clipped x
    again x =
        let (low, high) = in_unit x in
        clip_inside order (clipped x) (n.neg one_num) one_num low high

    clip_action-IsNormal : (a : Action F) → IsNormal (clip_action a)
    unfolding clip_action
    clip_action-IsNormal a =
        (in_units a.motion.linear, in_units a.motion.angular, in_unit a.gripper)

    clip_action-clip_action : (a : Action F) → clip_action (clip_action a) ≡ clip_action a
    unfolding clip_action
    clip_action-clip_action a = simp (again) refl

    -- What the adapter records of an action is what it had the robot do. If the robot's motion raises
    -- nothing, the action that is returned has all seven entries from -1 to 1; to send it in place of
    -- the first one would have done the same and been recorded the same, from any state and
    -- settings of the adapter; and its command is the one that an environment with these
    -- settings, and a gripper force of 20, makes of the action.
    pub send_action-IsNormal :
        {R : Type 0} (robot : Controlled F R) (a : Action F) (e x : LeRobotFlexivAdapter F R)
        → Post
            (λ out e'.
              IsNormal out
              × (send_action robot out x ≡ send_action robot a x)
              × (commanded e out ≡ scale_action (as_env e) a))
            (λ e'. Unit {0})
            (send_action robot a e)
    unfolding send_action tell ◌>>=◌
    send_action-IsNormal robot a e x =
        returned _ (clip_action a)
          (λ out.
            IsNormal out
            × (send_action robot out x ≡ send_action robot a x)
            × (commanded e out ≡ scale_action (as_env e) a))
          (clip_action-IsNormal a, rw (clip_action-clip_action a) refl, as_in_env e a)
