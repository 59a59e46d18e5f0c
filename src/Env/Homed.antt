-- ===== src/Env/Homed.antt =====
-- `reset` on an in-process `Robot` with the fake backend.
use package.flexiv_control.Env.{
  Controlled, FlexivRealEnv, on_robot, ensure_connected, observe, go_to_start, begin, reset,
}
use flexiv_control.Common.{false, none, some, ◌≡◌, refl}
use flexiv_control.Common.Result.{Result, ok, err, type_error}
use flexiv_control.Common.Exec.{Exec, Post, Hoare, Hoare-bind, Hoare-if, raise, ◌>>=◌}
use flexiv_control.Number.{Number}
use flexiv_control.Types.{ControlMode}
use flexiv_control.Safety.Profile.{SafetyProfile}
use flexiv_control.Backend.{Backend}
use flexiv_control.Backend.Fake.{FakeBackend, fake_backend, read_state, set_mode}
use flexiv_control.Robot.{
  Robot, on_backend, acquire_lease, release_lease, set_safety_profile, connect, disconnect,
  get_state, start_cartesian_impedance, stop,
}
use flexiv_control.Robot.GoHome.{World}
use flexiv_control.Robot.Moves.{servo_cartesian_delta, servo_cartesian_pose, home}

module _ {F : Type 0} ⦃n : Number F⦄ {B : Type 0} (ops : Backend F B)
    (loaded : Result (SafetyProfile F)) (w : World F) where
  -- The methods of an in-process robot. Its `acquire_lease` wants a name, and a call without one
  -- raises.
  abbrev pub in_process : Controlled F (Robot F B)
  in_process = record {
    connect = connect ops;
    acquire_lease = acquire_lease;
    acquire_unnamed = raise type_error;
    set_safety_profile = set_safety_profile loaded;
    start_cartesian_impedance = start_cartesian_impedance ops none false none none;
    servo_cartesian_pose = λ pose duration. servo_cartesian_pose ops pose duration none w.moving;
    servo_cartesian_delta =
        λ delta duration g. servo_cartesian_delta ops delta (some duration) "base" g w.moving;
    home = home ops none none none w.moving w.waiting;
    get_state = get_state ops;
    stop = stop ops;
    release_lease = release_lease;
    disconnect = disconnect ops;
  }

module _ {F : Type 0} ⦃n : Number F⦄ (now : F) (loaded : Result (SafetyProfile F))
    (w : World F) where
  abbrev OnFake : Type 0
  OnFake = FlexivRealEnv F (Robot F (FakeBackend F))

  abbrev InMode : OnFake → Type 0
  InMode e = e.robot.backend.mode ≡ ControlMode.nrt_cartesian_motion_force

  abbrev robot_ops : Controlled F (Robot F (FakeBackend F))
  robot_ops = in_process (fake_backend now) loaded w

  abbrev Homes : OnFake → Type 0
  Homes e = e.home_pose ≡ none

  either :
      {A : Type 0} (o : Result A × Robot F (FakeBackend F)) (e : OnFake)
      → Homes e
      → Post (λ _. Homes) (λ _. Unit {0}) (o.0, record e { robot = o.1 })
  either (ok a, r) e h = h
  either (err x, r) e h = tt

  on_robot-Homes :
      {A : Type 0} (m : Exec (Robot F (FakeBackend F)) A)
      → Hoare Homes (on_robot m) (λ _. Homes) (λ _. Unit {0})
  unfolding on_robot
  on_robot-Homes m = record { at = λ e h. either (m e.robot) e h }

  ensure_connected-Homes : Hoare Homes (ensure_connected robot_ops) (λ _. Homes) (λ _. Unit {0})
  unfolding ensure_connected
  ensure_connected-Homes =
      Hoare-bind {Q = λ _. Homes} _ _ (record { at = λ e h. h })
        λ e0.
          Hoare-if e0.connected _ _ (λ c. record { at = λ e h. h })
            λ c. Hoare-bind _ _ (on_robot-Homes _) λ u.
              Hoare-bind _ _ (on_robot-Homes _)
                λ u. Hoare-bind _ _ (on_robot-Homes _) λ u. record { at = λ e h. h }

  start-InMode :
      Hoare Homes
        (on_robot (start_cartesian_impedance (fake_backend now) none false none none))
        (λ _. InMode)
        (λ _. Unit {0})
  unfolding on_robot start_cartesian_impedance on_backend set_mode
  start-InMode = record { at = λ e h. refl }

  observe-InMode :
      Hoare
        (λ e. InMode e × (e.elapsed ≡ 0))
        (observe robot_ops)
        (λ _ e. InMode e × (e.elapsed ≡ 0))
        (λ _. Unit {0})
  unfolding observe on_robot get_state on_backend read_state ◌>>=◌
  observe-InMode = record { at = λ e h. h }

  begin-InMode :
      Hoare Homes (begin robot_ops none) (λ _ e. InMode e × (e.elapsed ≡ 0)) (λ _. Unit {0})
  unfolding begin go_to_start
  begin-InMode = Hoare-bind _ _ (Hoare-bind _ _ (on_robot-Homes _) λ u. start-InMode) λ u.
      Hoare-bind {Q = λ u e. InMode e × (e.elapsed ≡ 0)} _ _ (record { at = λ e h. (h, refl) })
        λ u. observe-InMode

  -- An episode starts in the mode that its steps need. On the fake backend, with no home pose, a reset
  -- that raises nothing ends in the Cartesian motion-force mode, although the homing before it
  -- leaves another mode, and at step 0, from whatever state it was called in.
  pub reset-InMode :
      (e : OnFake)
      → e.home_pose ≡ none
      → Post (λ _ e'. InMode e' × (e'.elapsed ≡ 0)) (λ e'. Unit {0}) (reset robot_ops e)
  unfolding reset
  reset-InMode e homes =
      (Hoare-bind {R = λ _ e'. InMode e' × (e'.elapsed ≡ 0)} _ _ ensure_connected-Homes λ u.
          Hoare-bind {Q = λ pose e. (pose ≡ none) × Homes e} _ _ (record { at = λ e h. (h, h) })
            λ pose. record { at = λ e h. rw h.0 (begin-InMode.at e h.1) }).at
        e homes
