-- ===== src/Backend/Rdk/Kept.antt =====
-- The methods of the hardware backend and an invariant of the log: one lemma for each method. Those of
-- `connect` and `zero_ft_sensor` are in Backend.Rdk.Kept.Bringup.
pub mod Bringup
use package.flexiv_control.Backend.{ModeRequest}
use package.flexiv_control.Backend.Rdk.{Command, Sdk, FlexivRdk, on_sdk, switch}
use package.flexiv_control.Backend.Rdk.Connect.{
  clear_fault, wait_operational, adopt_joints, wait_idle, run_zero, zero_ft_sensor, bring_up,
  connect,
}
use package.flexiv_control.Backend.Rdk.Methods.{
  is_torque, given, disconnect, sync_mode, read_gripper, read_state, set_force_control,
  is_tcp_frame, configure, set_mode, set_contact_wrench_limit, motion_force, wrench_of,
  stream_cartesian, stream_joint, move_gripper, stop, primitive_running, wait_primitive, home,
}
use package.flexiv_control.Backend.Rdk.Records.{
  Records, Gated, Keeps, asks-Keeps, call-Keeps, switch-Keeps, given-Keeps, in_fault-Keeps,
  attach-Keeps,
}
use flexiv_control.Common.{
  String, Bool, true, false, not, ◌&&◌, ◌==◌, str_eq, Option, none, some, List, [], ◌∷◌, ◌≡◌, inl,
  inr, refl, get_or_else, arith, Bool-cases,
}
use flexiv_control.Common.Exec.{
  Exec, Hoare, Hoare-if, Hoare-bind, Hoare-catching, Invariant-bind, Invariant-recover, return,
  modify, recover, ◌>>=◌, ◌>>◌,
}
use flexiv_control.Number.{Number}
use flexiv_control.Types.{
  ControlMode, is_cartesian, is_idle, is_realtime, Vec6, Pose, ForceControlParams, GripperCommand,
}

-- The commands that the invariants of this file's clients speak about.
abbrev pub is_special : {F : Type 0} → Command F → Bool
is_special (Command.switch_mode m) = is_torque m
is_special (Command.stream_cartesian_motion_force pose w) = true
is_special (Command.send_cartesian_motion_force pose w) = true
is_special _ = false

module _ {F V : Type 0} ⦃n : Number F⦄ (sdk : Sdk F V) (log : V → List (Command F))
    (records : Records sdk log) (Allowed : Command F → Type 0)
    (plain : (c : Command F) → is_special c ≡ false → Allowed c) where
  abbrev pub Kept : {A : Type 0} → Exec (FlexivRdk F V) A → Type 0
  Kept m = Keeps sdk log records Allowed m

  pub call : (c : Command F) → is_special c ≡ false → Kept (on_sdk (sdk.call c))
  call c e = call-Keeps sdk log records Allowed c (plain c e)

  pub asks : {A : Type 0} (m : Exec V A) → ((v : V) → log (m v).1 ≡ log v) → Kept (on_sdk m)
  asks m same = asks-Keeps sdk log records Allowed m same

  pub disconnect-Kept : Kept (disconnect sdk)
  unfolding disconnect
  disconnect-Kept =
      Invariant-bind (Invariant-recover _ (call Command.stop refl)) λ u. record { at = λ b i. i }

  sync_mode-Kept : Kept (sync_mode sdk)
  unfolding sync_mode
  sync_mode-Kept =
      Invariant-bind (record { at = λ b i. i })
        λ b.
          Hoare-if (is_idle b.mode) _ _ (λ e. record { at = λ b i. i })
            λ e.
              Invariant-bind
                (Invariant-recover _ (
                  Invariant-bind (asks sdk.mode_is_idle records.mode_is_idle) λ idle.
                    Hoare-if (sdk.exposes ControlMode.idle) _ _ (λ e. record { at = λ b i. i })
                      λ e. record { at = λ b i. i }))
                λ idle.
                  Hoare-if idle _ _ (λ e. record { at = λ b i. i }) λ e. record { at = λ b i. i }

  read_gripper-Kept : Kept (read_gripper sdk)
  unfolding read_gripper
  read_gripper-Kept =
      Invariant-bind (record { at = λ b i. i })
        λ b.
          Hoare-if b.gripper _ _
            (λ e. Invariant-recover _ (
              Invariant-bind (asks sdk.gripper_states records.gripper_states) λ g.
                Invariant-bind
                  (Invariant-recover _ (asks sdk.gripper_moving records.gripper_moving))
                  λ moving. record { at = λ b i. i }))
            λ e. record { at = λ b i. i }

  pub read_state-Kept : (now : F) → Kept (read_state sdk now)
  unfolding read_state
  read_state-Kept now = Invariant-bind sync_mode-Kept λ u.
      Invariant-bind (asks sdk.states records.states) λ s. Invariant-bind read_gripper-Kept λ g.
        Invariant-bind (in_fault-Keeps sdk log records Allowed)
          λ faulted. Invariant-bind (record { at = λ b i. i }) λ b. record { at = λ b i. i }

  set_force_control-Kept : (fc : ForceControlParams F) → Kept (set_force_control sdk fc)
  unfolding set_force_control
  set_force_control-Kept fc =
      Invariant-bind (record { at = λ b i. i })
        λ u.
          Invariant-bind (call (Command.set_force_control_axis fc.enabled_axes) refl)
            λ u. call (Command.set_force_control_frame (is_tcp_frame sdk fc.frame)) refl

  given-Kept :
      {A : Type 0} (t : Bool) (o : Option A) (c : A → Command F)
      → ((a : A) → is_special (c a) ≡ false)
      → Kept (given t o λ a. on_sdk (sdk.call (c a)))
  given-Kept t o c e = given-Keeps sdk log records Allowed t o _ λ a. call (c a) (e a)

  configure-Kept : (m : ModeRequest F) → Kept (configure sdk m)
  unfolding configure
  configure-Kept m =
      let cart = is_cartesian m.mode in
      Invariant-bind
        (given-Kept cart m.impedance
          (λ i. Command.set_cartesian_impedance i.stiffness i.damping_ratio) λ i. refl)
        λ u.
          Invariant-bind
            (given-Kept (not cart) m.joint_impedance
              (λ i. Command.set_joint_impedance i.stiffness i.damping_ratio) λ i. refl)
            λ u.
              Invariant-bind
                (given-Kept cart m.max_contact_wrench Command.set_max_contact_wrench λ w. refl)
                λ u.
                  Invariant-bind
                    (Hoare-if cart _ _
                      (λ e.
                        given-Keeps sdk log records Allowed true m.force_control _
                          set_force_control-Kept)
                      λ e. record { at = λ b i. i })
                    λ u. given-Kept cart m.nullspace_q Command.set_null_space_posture λ q. refl

  -- The gate: the torque mode is entered only by a backend that was made for it.
  pub set_mode-Kept : (m : ModeRequest F) → Kept (set_mode sdk m)
  unfolding set_mode
  set_mode-Kept m = record {
    at = λ b i. elim (Bool-cases (is_torque m.mode && not b.allow_torque)) [
      | inl refused ↦ rw refused i
      | inr passed ↦ rw passed ((entered (allowed i.0 passed)).at b i)
    ];
  }
    where
      allowed : {t a : Bool} → a ≡ false → (t && not a) ≡ false → t ≡ false
      allowed shut passed = ground arith

      entered :
          is_torque m.mode ≡ false
          → Kept
              (switch sdk m.mode >> (modify (λ b. record b { mode = m.mode }) >> configure sdk m))
      entered usual =
          Invariant-bind
            (switch-Keeps sdk log records Allowed m.mode (plain (Command.switch_mode m.mode) usual))
            λ u. Invariant-bind (record { at = λ b i. i }) λ u. configure-Kept m

  pub set_contact_wrench_limit-Kept : (w : Vec6 F) → Kept (set_contact_wrench_limit sdk w)
  unfolding set_contact_wrench_limit
  set_contact_wrench_limit-Kept w =
      Invariant-bind (record { at = λ b i. i })
        λ b. given-Kept (is_cartesian b.mode) (some w) Command.set_max_contact_wrench λ w. refl

  pub stream_cartesian-Kept :
      (pose : Pose F) (w : Option (Vec6 F))
      → ((realtime : Bool) (v : Vec6 F) → Allowed (motion_force realtime pose v))
      → Kept (stream_cartesian sdk pose w)
  unfolding stream_cartesian
  stream_cartesian-Kept pose w good =
      Invariant-bind (record { at = λ b i. i })
        λ b.
          call-Keeps sdk log records Allowed _
            (good (is_realtime b.mode) (wrench_of w b.force_control))

  pub stream_joint-Kept : (q : List F) → Kept (stream_joint sdk q)
  unfolding stream_joint
  stream_joint-Kept q =
      Invariant-bind (record { at = λ b i. i })
        λ b. elim (Bool-cases (is_realtime b.mode)) [
          | inl e ↦ rw e (call _ refl)
          | inr e ↦ rw e (call _ refl)
        ]

  pub move_gripper-Kept : (g : GripperCommand F) → Kept (move_gripper sdk g)
  unfolding move_gripper
  move_gripper-Kept g =
      Invariant-bind (record { at = λ b i. i })
        λ b.
          Hoare-if b.gripper _ _
            (λ e. elim (Bool-cases g.grasp) [
              | inl e ↦ rw e (call (Command.gripper_grasp g.force) refl)
              | inr e ↦ rw e (call (Command.gripper_move g.width g.velocity g.force) refl)
            ])
            λ e.
              Hoare-if (str_eq (get_or_else "" b.gripper_name) "") _ _
                (λ e. record { at = λ b i. i }) λ e. record { at = λ b i. i }

  pub stop-Kept :
      Hoare
        (Gated sdk log records Allowed)
        (stop sdk)
        (λ u b. Gated sdk log records Allowed b × (b.mode ≡ ControlMode.idle))
        (Gated sdk log records Allowed)
  unfolding stop
  stop-Kept = Hoare-bind _ _ (call Command.stop refl) λ u. record { at = λ b i. (i, refl) }

  primitive_running-Kept : Kept (primitive_running sdk)
  unfolding primitive_running
  primitive_running-Kept =
      Invariant-bind (Invariant-recover _ (asks sdk.reached_target records.reached_target)) ends
    where
      ends :
          (reached : Option Bool)
          → Kept (elim reached [
            | none ↦ recover false (on_sdk sdk.busy)
            | some done ↦ return (not done)
          ])
      ends none = Invariant-recover _ (asks sdk.busy records.busy)
      ends (some done) = record { at = λ b i. i }

  wait_primitive-Kept : (times : List F) → Kept (wait_primitive sdk times)
  unfolding wait_primitive
  wait_primitive-Kept [] = record { at = λ b i. i }
  wait_primitive-Kept (t ∷ rest) =
      Hoare-if (n.lt t (n.of_nat 30)) _ _
        (λ e. Invariant-bind primitive_running-Kept λ running.
          Hoare-if running _ _ (λ e. wait_primitive-Kept rest) λ e. record { at = λ b i. i })
        λ e. record { at = λ b i. i }

  pub home-Kept : (times : List F) (q : Option (List F)) → Kept (home sdk times q)
  unfolding home
  home-Kept times (some q) = record { at = λ b i. i }
  home-Kept times none =
      Invariant-bind
        (switch-Keeps sdk log records Allowed ControlMode.nrt_primitive
          (plain (Command.switch_mode ControlMode.nrt_primitive) refl))
        λ u.
          Invariant-bind (call (Command.execute_primitive "Home") refl)
            λ u. Invariant-bind (wait_primitive-Kept times) λ u. record { at = λ b i. i }
