-- ===== src/Backend/Rdk/Records.antt =====
-- What the package was told: a log of the commands, and the rule for an invariant that every command
-- of a kind keeps.
use package.flexiv_control.Backend.Rdk.{
  Command, Sdk, FlexivRdk, on_sdk, made, attach, switched, switch, in_fault,
}
use package.flexiv_control.Backend.Rdk.Methods.{given}
use flexiv_control.Common.{
  Bool, true, false, Option, none, some, List, ◌∷◌, All, ◌≡◌, sym, subst, if◌then◌else◌,
}
use flexiv_control.Common.Result.{Result, ok, err, runtime_error}
use flexiv_control.Common.Exec.{Invariant, Invariant-recover, Exec, raise, Post}
use flexiv_control.Types.{ControlMode}

-- The log of a package: a command is logged whether it was obeyed or raised, and what only asks logs
-- nothing.
pub record Records {F V : Type 0} (sdk : Sdk F V) (log : V → List (Command F)) : Type 0 where
  pub call : (c : Command F) (v : V) → log (sdk.call c v).1 ≡ c ∷ log v
  pub open_robot : (v : V) → log (sdk.open_robot v).1 ≡ log v
  pub open_gripper : (v : V) → log (sdk.open_gripper v).1 ≡ log v
  pub fault : (v : V) → log (sdk.fault v).1 ≡ log v
  pub clear_fault : (v : V) → log (sdk.clear_fault v).1 ≡ log v
  pub operational : (v : V) → log (sdk.operational v).1 ≡ log v
  pub mode_is_idle : (v : V) → log (sdk.mode_is_idle v).1 ≡ log v
  pub states : (v : V) → log (sdk.states v).1 ≡ log v
  pub busy : (v : V) → log (sdk.busy v).1 ≡ log v
  pub reached_target : (v : V) → log (sdk.reached_target v).1 ≡ log v
  pub gripper_states : (v : V) → log (sdk.gripper_states v).1 ≡ log v
  pub gripper_moving : (v : V) → log (sdk.gripper_moving v).1 ≡ log v

module _ {F V : Type 0} (sdk : Sdk F V) (log : V → List (Command F)) (records : Records sdk log)
    (Allowed : Command F → Type 0) where
  -- Only allowed commands were given, and the torque mode is not opted into.
  abbrev pub Gated : FlexivRdk F V → Type 0
  Gated b = (b.allow_torque ≡ false) × All Allowed (log b.sdk)

  abbrev pub Keeps : {A : Type 0} → Exec (FlexivRdk F V) A → Type 0
  Keeps m = Invariant Gated m

  -- A state in which a call ended.
  abbrev pub Ends : {A : Type 0} → Result A × FlexivRdk F V → Type 0
  Ends o = Post (λ _. Gated) Gated o

  either :
      {A : Type 0} (o : Result A × V) (b : FlexivRdk F V)
      → b.allow_torque ≡ false
      → All Allowed (log o.1)
      → Ends (o.0, record b { sdk = o.1 })
  either (ok a, v) b gate h = (gate, h)
  either (err e, v) b gate h = (gate, h)

  pub if-Ends :
      {A : Type 0} (t : Bool) (x y : Result A × FlexivRdk F V)
      → Ends x
      → Ends y
      → Ends (if t then x else y)
  if-Ends true x y h k = h
  if-Ends false x y h k = k

  lifted :
      {A : Type 0} (m : Exec V A)
      → ((v : V) → All Allowed (log v) → All Allowed (log (m v).1))
      → Keeps (on_sdk m)
  unfolding on_sdk
  lifted m h = record {
    at = λ b i. if-Ends b.attached _ _ (either (m b.sdk) b i.0 (h b.sdk i.1)) i;
  }

  attached :
      (o : Result (Unit {0}) × V) (b : FlexivRdk F V)
      → b.allow_torque ≡ false
      → All Allowed (log o.1)
      → Ends (made o b)
  attached (ok u, v) b gate h = (gate, h)
  attached (err e, v) b gate h = (gate, h)

  pub attach-Keeps : Keeps (attach sdk)
  unfolding attach
  attach-Keeps = record {
    at = λ b i.
        attached (sdk.open_robot b.sdk) b i.0
          (subst (All Allowed) (sym (records.open_robot b.sdk)) i.1);
  }

  pub asks-Keeps : {A : Type 0} (m : Exec V A) → ((v : V) → log (m v).1 ≡ log v) → Keeps (on_sdk m)
  asks-Keeps m same = lifted m λ v h. subst (All Allowed) (sym (same v)) h

  pub call-Keeps : (c : Command F) → Allowed c → Keeps (on_sdk (sdk.call c))
  call-Keeps c good =
      lifted (sdk.call c) λ v h. subst (All Allowed) (sym (records.call c v)) (good, h)

  switched-Allowed :
      (exposed : Bool) (m : ControlMode) (v : V)
      → Allowed (Command.switch_mode m)
      → All Allowed (log v)
      → All Allowed
          (log ((if exposed then sdk.call (Command.switch_mode m) else raise runtime_error) v).1)
  switched-Allowed true m v good h =
      subst (All Allowed) (sym (records.call (Command.switch_mode m) v)) (good, h)
  switched-Allowed false m v good h = h

  pub switch-Keeps : (m : ControlMode) → Allowed (Command.switch_mode m) → Keeps (switch sdk m)
  unfolding switch switched
  switch-Keeps m good = lifted (switched sdk m) λ v h. switched-Allowed (sdk.exposes m) m v good h

  pub given-Keeps :
      {A : Type 0} (t : Bool) (o : Option A) (f : A → Exec (FlexivRdk F V) (Unit {0}))
      → ((a : A) → Keeps (f a))
      → Keeps (given t o f)
  given-Keeps false o f h = record { at = λ b i. i }
  given-Keeps true none f h = record { at = λ b i. i }
  given-Keeps true (some a) f h = h a

  pub in_fault-Keeps : Keeps (in_fault sdk)
  unfolding in_fault
  in_fault-Keeps = record {
    at = λ b i.
        if-Ends b.attached _ _
          (if-Ends sdk.has_fault _ _
            ((Invariant-recover false (asks-Keeps sdk.fault records.fault)).at b i) i)
          i;
  }
