-- ===== src/Teleop.antt =====
-- src/flexiv_control/teleop/spacemouse.py: `SpaceMouseTeleop`. What the device reads is an argument,
-- and the robot, a `Robot` or a `RemoteRobot`, is an interface of the methods that are called.
pub mod Gripper
pub mod Deadman
pub mod Intervene
use flexiv_control.Common.{
  ℕ, zero, suc, ◌+◌, leb, ◌==◌, String, Bool, true, false, not, ◌&&◌, ◌||◌, Option, none, some,
  List, [], ◌∷◌, is_some, if◌then◌else◌,
}
use flexiv_control.Common.Result.{Result, Error, ok, err, type_error}
use flexiv_control.Common.Exec.{Exec, return, gets, modify, recover, catching, ◌>>=◌, ◌>>◌}
use flexiv_control.Number.{Number, ◌⊗◌, zero_num, one_num, clip}
use flexiv_control.Types.{Vec3, Vec6, GripperCommand}
use flexiv_control.Robot.Report.{ExecutionResult}

pub record SpaceMouseState (F : Type 0) : Type 0 where
  pub translation : Vec3 F
  pub rotation : Vec3 F
  pub buttons : List ℕ

abbrev pub is_type_error : Error → Bool
is_type_error Error.type_error = true
is_type_error _ = false

-- The robot as the teleoperation uses it.
pub record Driven (F R : Type 0) : Type 0 where
  -- with the owner's name, and without
  pub acquire_lease : String → Exec R (Unit {0})
  pub acquire_unnamed : Exec R (Unit {0})
  pub start_cartesian_impedance : Exec R (Unit {0})
  -- get_state().gripper_width
  pub gripper_width : Exec R F
  pub servo_cartesian_delta :
      Vec6 F → F → String → Option (GripperCommand F) → Exec R (ExecutionResult F)

-- The object without the robot. `signs` holds ones if none were given.
pub record SpaceMouseTeleop (F : Type 0) : Type 0 where
  pub dt : F
  pub pos_scale : F
  pub rot_scale : F
  pub deadband : F
  pub deadman_button : Option ℕ
  pub gripper_button : ℕ
  pub gripper_open_width : F
  pub gripper_close_width : F
  pub signs : Vec6 F
  pub frame : String
  pub owner : String
  pub gripper_open : Option Bool
  pub prev_pressed : Bool

pub record Session (F R : Type 0) : Type 0 where
  pub teleop : SpaceMouseTeleop F
  pub robot : R

-- A 7-vector [dx, dy, dz, drx, dry, drz, gripper].
pub record Action (F : Type 0) : Type 0 where
  pub motion : Vec6 F
  pub gripper : F

-- len(buttons) > i and bool(buttons[i])
unfoldable pub is_pressed : List ℕ → ℕ → Bool
is_pressed [] i = false
is_pressed (b ∷ bs) zero = not (b == 0)
is_pressed (b ∷ bs) (suc i) = is_pressed bs i

module _ {F R : Type 0} where
  unfoldable pub on_robot : {A : Type 0} → Exec R A → Exec (Session F R) A
  on_robot m s = let (a, r) = m s.robot in (a, record s { robot = r })

  abbrev pub update : (SpaceMouseTeleop F → SpaceMouseTeleop F) → Exec (Session F R) (Unit {0})
  update f = modify (λ s. record s { teleop = f s.teleop })

module _ {F : Type 0} ⦃n : Number F⦄ where
  abbrev zero_vec3 : Vec3 F
  zero_vec3 = record { x = zero_num; y = zero_num; z = zero_num }

  abbrev pub no_motion : Vec6 F
  no_motion = record { linear = zero_vec3; angular = zero_vec3 }

  abbrev each_axis : (F → F) → Vec3 F → Vec3 F
  each_axis f v = record { x = f v.x; y = f v.y; z = f v.z }

  abbrev scaled : F → F → Vec3 F → Vec3 F → Vec3 F
  scaled scale dt v s = record {
    x = v.x ⊗ s.x ⊗ scale ⊗ dt;
    y = v.y ⊗ s.y ⊗ scale ⊗ dt;
    z = v.z ⊗ s.z ⊗ scale ⊗ dt;
  }

  unfoldable pub magnitude : SpaceMouseState F → F
  magnitude st =
      let t = st.translation in
      let r = st.rotation in n.norm (t.x ∷ t.y ∷ t.z ∷ r.x ∷ r.y ∷ r.z ∷ [])

  unfoldable pub apply_deadband : F → Vec3 F → Vec3 F
  apply_deadband deadband v = each_axis (λ x. if n.lt (n.abs x) deadband then zero_num else x) v

  unfoldable pub to_delta : SpaceMouseTeleop F → SpaceMouseState F → Vec6 F
  to_delta t st = record {
    linear = scaled t.pos_scale t.dt (apply_deadband t.deadband st.translation) t.signs.linear;
    angular = scaled t.rot_scale t.dt (apply_deadband t.deadband st.rotation) t.signs.angular;
  }

  unfoldable pub deadman_ok : Option ℕ → SpaceMouseState F → Bool
  deadman_ok none st = true
  deadman_ok (some i) st = is_pressed st.buttons i

  -- GripperCommand(width=..., force=20.0, grasp=not open)
  unfoldable pub toggle_command : SpaceMouseTeleop F → Bool → GripperCommand F
  toggle_command t is_open = record {
    width = if is_open then t.gripper_open_width else t.gripper_close_width;
    force = n.of_nat 20;
    velocity = n.lit 1 1;
    grasp = not is_open;
  }

  -- np.clip(v, -1, 1)
  abbrev unit_box : Vec3 F → Vec3 F
  unit_box v = each_axis (λ x. clip x (n.neg one_num) one_num) v

  module _ {R : Type 0} (driven : Driven F R) where
    -- The width decides, if nothing was said before; a state that cannot be read counts as closed.
    unfoldable pub infer_open : Option Bool → Exec (Session F R) Bool
    infer_open (some known) = return known
    infer_open none = do
      wide ← recover false (on_robot driven.gripper_width >>= λ w. return (n.lt (n.lit 4 2) w))
      update (λ t. record t { gripper_open = some wide })
      return wide

    -- `_gripper_is_open`
    unfoldable pub gripper_is_open : Exec (Session F R) Bool
    gripper_is_open = gets (λ s. s.teleop.gripper_open) >>= infer_open

    unfoldable pub toggle : SpaceMouseTeleop F → Exec (Session F R) (Option (GripperCommand F))
    toggle t = do
      was_open ← gripper_is_open
      update (λ t. record t { gripper_open = some (not was_open) })
      return (some (toggle_command t (not was_open)))

    -- `_gripper_from_buttons`
    unfoldable pub gripper_from_buttons :
        SpaceMouseState F → Exec (Session F R) (Option (GripperCommand F))
    gripper_from_buttons st = do
      t ← gets (λ s. s.teleop)
      let pressed = is_pressed st.buttons t.gripper_button
      update (λ t. record t { prev_pressed = pressed })
      if pressed && not t.prev_pressed then toggle t else return none

    -- The operator's action.
    unfoldable pub taken_over :
        SpaceMouseTeleop F → SpaceMouseState F → Exec (Session F R) (Action F × Bool)
    taken_over t st = do
      wide ← gripper_is_open
      return (
        record {
          motion = record {
            linear = unit_box (apply_deadband t.deadband st.translation);
            angular = unit_box (apply_deadband t.deadband st.rotation);
          };
          gripper = if wide then one_num else n.neg one_num;
        },
        true,
      )

    unfoldable pub intervention :
        SpaceMouseState F → Action F → Exec (Session F R) (Action F × Bool)
    intervention st policy_action = do
      gripper_from_buttons st
      t ← gets (λ s. s.teleop)
      if n.lt t.deadband (magnitude st) && deadman_ok t.deadman_button st
          then taken_over t st
          else return (policy_action, false)

    unfoldable pub servo :
        SpaceMouseTeleop F → Vec6 F → Option (GripperCommand F) → Exec (Session F R) (Unit {0})
    servo t delta grip =
        on_robot (driven.servo_cartesian_delta delta t.dt t.frame grip) >> return tt

    -- The body of the loop of `run`.
    unfoldable pub tick : SpaceMouseState F → Exec (Session F R) (Unit {0})
    tick st = do
      grip ← gripper_from_buttons st
      t ← gets (λ s. s.teleop)
      if deadman_ok t.deadman_button st
          then servo t (to_delta t st) grip
          else (if is_some grip then servo t no_motion grip else return tt)

    abbrev is_over : (duration : Option F) → (max_ticks : Option ℕ) → F → ℕ → Bool
    is_over duration max_ticks elapsed ticks =
        elim duration [ none ↦ false | some d ↦ not (n.lt elapsed d) ]
        || elim max_ticks [ none ↦ false | some k ↦ leb k ticks ]

    -- The loop, with the time since its start and what the device reads in each round, as far as these
    -- readings go.
    unfoldable pub run_from :
        (duration : Option F)
        → (max_ticks : Option ℕ) → List (F × SpaceMouseState F)
        → ℕ
        → Exec (Session F R) ℕ
    run_from duration max_ticks [] ticks = return ticks
    run_from duration max_ticks ((elapsed, st) ∷ rest) ticks =
        if is_over duration max_ticks elapsed ticks
        then return ticks
        else tick st >> run_from duration max_ticks rest (ticks + 1)

    -- `_lease`
    unfoldable pub lease : Exec (Session F R) (Unit {0})
    lease = do
      s ← gets (λ s. s)
      on_robot (catching is_type_error driven.acquire_unnamed (driven.acquire_lease s.teleop.owner))

    unfoldable pub run :
        (duration : Option F)
        → (max_ticks : Option ℕ) → List (F × SpaceMouseState F)
        → Exec (Session F R) ℕ
    run duration max_ticks readings = do
      lease
      on_robot driven.start_cartesian_impedance
      run_from duration max_ticks readings 0
