-- ===== src/Backend/Rdk/Leftover.antt =====
-- Force control that a stop leaves behind.
use package.flexiv_control.Backend.{ModeRequest}
use package.flexiv_control.Backend.Rdk.{Command, Sdk, FlexivRdk, on_sdk, switch}
use package.flexiv_control.Backend.Rdk.Methods.{
  given, is_torque, motion_force, wrench_of, set_mode, configure, stop, stream_cartesian,
}
use flexiv_control.Common.{
  Bool, true, false, not, ◌&&◌, Option, none, some, ap, ◌≡◌, Bool-cases, inl, inr, if◌then◌else◌,
}
use flexiv_control.Common.Result.{Result, ok, err, attribute_error}
use flexiv_control.Common.Exec.{Exec, Post, Hoare, Hoare-bind, Hoare-post, ◌>>=◌, ◌>>◌}
use flexiv_control.Number.{Number}
use flexiv_control.Types.{is_cartesian, is_realtime, Pose, ForceControlParams}

module _ {F V : Type 0} ⦃n : Number F⦄ (sdk : Sdk F V) (fc : ForceControlParams F) where
  abbrev Left : FlexivRdk F V → Type 0
  Left b = b.force_control ≡ some fc

  abbrev Leaves : {A : Type 0} → Exec (FlexivRdk F V) A → Type 0
  Leaves m = Hoare Left m (λ _. Left) (λ _. Unit {0})

  either :
      {A : Type 0} (o : Result A × V) (b : FlexivRdk F V)
      → Left b
      → Post (λ _. Left) (λ _. Unit {0}) (o.0, record b { sdk = o.1 })
  either (ok a, v) b h = h
  either (err e, v) b h = tt

  on_sdk-Leaves : {A : Type 0} (m : Exec V A) → Leaves (on_sdk m)
  unfolding on_sdk
  on_sdk-Leaves {A} m = record { at = λ b i. branch b.attached b i }
    where
      branch :
          (attached : Bool) (b : FlexivRdk F V)
          → b.force_control ≡ some fc
          → Post
              (λ _ b. b.force_control ≡ some fc)
              (λ _. Unit {0})
              (if attached
                then ((m b.sdk).0, record b { sdk = (m b.sdk).1 })
                else (err attribute_error, b))
      branch true b i = either (m b.sdk) b i
      branch false b i = tt

  given-Leaves :
      {A : Type 0} (t : Bool) (o : Option A) (c : A → Command F)
      → Leaves (given t o λ a. on_sdk (sdk.call (c a)))
  given-Leaves false o c = record { at = λ b i. i }
  given-Leaves true none c = record { at = λ b i. i }
  given-Leaves true (some a) c = on_sdk-Leaves (sdk.call (c a))

  configure-Leaves :
      (m : ModeRequest F)
      → is_cartesian m.mode ≡ true
      → m.force_control ≡ none
      → Leaves (configure sdk m)
  unfolding configure
  configure-Leaves m cart plain = Hoare-bind _ _ (given-Leaves _ m.impedance _) λ u.
      Hoare-bind _ _ (given-Leaves _ m.joint_impedance _) λ u.
        Hoare-bind _ _ (given-Leaves _ m.max_contact_wrench _) λ u.
          Hoare-bind {Q = λ _. Left} _ _ (rw (cart, plain) (record { at = λ b i. i }))
            λ u. given-Leaves _ m.nullspace_q _

  set_mode-Leaves :
      (m : ModeRequest F)
      → is_cartesian m.mode ≡ true
      → m.force_control ≡ none
      → Leaves (set_mode sdk m)
  unfolding set_mode switch
  set_mode-Leaves m cart plain = record {
    at = λ b i. elim (Bool-cases (is_torque m.mode && not b.allow_torque)) [
      | inl refused ↦ rw refused tt
      | inr passed ↦ rw passed (
          (Hoare-bind {R = λ _. Left} _ _ (on_sdk-Leaves _) λ u.
              Hoare-bind {Q = λ _. Left} _ _ (record { at = λ b i. i })
                λ u. configure-Leaves m cart plain).at
            b i)
    ];
  }

  stop-Leaves : Leaves (stop sdk)
  unfolding stop
  stop-Leaves = Hoare-bind {Q = λ _. Left} _ _ (on_sdk-Leaves _) λ u. record { at = λ b i. i }

  sends :
      (pose : Pose F) (b : FlexivRdk F V)
      → Left b
      → stream_cartesian sdk pose none b
        ≡ on_sdk (sdk.call (motion_force (is_realtime b.mode) pose fc.target_wrench)) b
  unfolding stream_cartesian ◌>>=◌
  sends pose b h =
      ap
        (λ (o : Option (ForceControlParams F)).
          on_sdk (sdk.call (motion_force (is_realtime b.mode) pose (wrench_of none o))) b)
        h

  -- A stop does not end force control. After a stop and a return to a Cartesian mode for which no
  -- force control is asked, the wrench of the force control from before the stop is still sent with
  -- every pose that comes without a wrench of its own, on any package and in every case in
  -- which the two calls return.
  pub stop_restart-wrench :
      (m : ModeRequest F) (pose : Pose F) (b : FlexivRdk F V)
      → b.force_control ≡ some fc
      → is_cartesian m.mode ≡ true
      → m.force_control ≡ none
      → Post
          (λ _ b'.
            stream_cartesian sdk pose none b'
            ≡ on_sdk (sdk.call (motion_force (is_realtime b'.mode) pose fc.target_wrench)) b')
          (λ _. Unit {0})
          ((stop sdk >> set_mode sdk m) b)
  stop_restart-wrench m pose b h cart plain =
      (Hoare-post {R = λ _. Left} (λ u b' left. sends pose b' left)
          (Hoare-bind _ _ stop-Leaves λ u. set_mode-Leaves m cart plain)).at
        b h
