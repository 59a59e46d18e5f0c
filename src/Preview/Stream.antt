-- ===== src/Preview/Stream.antt =====
-- The preview's stream beside the executor's, and the gripper events in it.
use package.flexiv_control.Preview.{
  GripperEvent, ChunkPreview, effective_cap, effective_caps, events_from, preview_of,
  plan_chunk_preview,
}
use flexiv_control.Common.{
  if◌then◌else◌, ℕ, ◌+◌, ◌<◌, ◌≤◌, ◌≡◌, refl, Option, none, some, List, [], ◌∷◌, map, length, arith,
  inl, inr, sym, suc, subst, length-map, Option-cases,
}
use flexiv_control.Common.Result.{ok}
use flexiv_control.Number.{Number, ◌≼◌, zero_num, num_min, IsOrdered}
use flexiv_control.Types.{Pose}
use flexiv_control.Safety.Profile.{SafetyProfile}
use flexiv_control.ActionChunk.{CartesianChunk, for_execution}
use flexiv_control.Interpolation.{Tick, setpoints}
use flexiv_control.Robot.Cartesian.Method.{envelope_of}

-- The order of the floats without the pair 0.0 and -0.0: what is neither above nor below is equal.
abbrev pub IsLinear : (F : Type 0) ⦃n : Number F⦄ → Type 0
IsLinear F = (a b : F) → a ≼ b → b ≼ a → a ≡ b

the_end : (k l : ℕ) → k + 1 + l ≡ k + suc l
the_end k l = omega arith

module _ {F : Type 0} ⦃n : Number F⦄ where
  effective_cap-tightened :
      IsOrdered F
      → IsLinear F
      → (limit x : F) → zero_num ≼ x
      → effective_cap x (some limit) ≡ some (if n.lt zero_num x then num_min limit x else limit)
  unfolding effective_cap num_min
  effective_cap-tightened order linear limit x h =
      ground (arith, linear x limit, order.asym x limit, order.asym limit x)

  -- The ticks that `run_chunk` gives to the loop of the executor.
  abbrev pub executor_ticks : SafetyProfile F → CartesianChunk F → Pose F → F → List (Tick F)
  executor_ticks p chunk start hz =
      let e = envelope_of p chunk in
      setpoints
        (record {
          hz = hz;
          max_linear_speed = some e.linear_speed_cap;
          max_angular_speed = some e.angular_speed_cap;
        })
        chunk start

  -- Under a profile, for a chunk that resolves and whose speed caps are not negative, and in an order
  -- without a second zero: the preview's setpoints are the poses of the very ticks that the
  -- executor takes from its interpolator, and its caps are the executor's.
  pub plan_chunk_preview-executor :
      IsOrdered F
      → IsLinear F
      → (p : SafetyProfile F) (chunk resolved : CartesianChunk F) (start : Pose F) (hz : F)
      → for_execution chunk start ≡ ok resolved
      → zero_num ≼ resolved.max_tcp_linear_speed
      → zero_num ≼ resolved.max_tcp_angular_speed
      → (v : ChunkPreview F) × (plan_chunk_preview chunk start (some p) hz ≡ ok v)
        × (v.setpoints ≡ map (λ t. t.pose) (executor_ticks p resolved start hz))
        × (v.linear_speed_cap ≡ some (envelope_of p resolved).linear_speed_cap)
        × (v.angular_speed_cap ≡ some (envelope_of p resolved).angular_speed_cap)
  unfolding plan_chunk_preview preview_of effective_caps envelope_of
  plan_chunk_preview-executor order linear p chunk resolved start hz resolves low_linear
        low_angular =
      let l =
        effective_cap-tightened order linear p.max_linear_speed resolved.max_tcp_linear_speed
          low_linear in
      let a =
        effective_cap-tightened order linear p.max_angular_speed resolved.max_tcp_angular_speed
          low_angular in
      (preview_of resolved start (some p) hz, rw resolves refl, rw (l, a) refl, l, a)

  -- Each gripper event stands at a tick of the stream, and no two at one tick.
  abbrev pub Later : ℕ → ℕ → List (GripperEvent F) → Type 0
  Later k end [] = Unit
  Later k end (e ∷ es) = (k ≤ e.tick) × (e.tick < end) × Later (e.tick + 1) end es

  Later-le : (j k end : ℕ) (es : List (GripperEvent F)) → j ≤ k → Later k end es → Later j end es
  Later-le j k end [] h es = tt
  Later-le j k end (e ∷ es) h (low, high, rest) = (omega arith, high, rest)

  -- The end of the rest of a stream.
  shift :
      (k : ℕ) (prev : Option F) (ts : List (Tick F))
      → Later (k + 1) (k + 1 + length ts) (events_from (k + 1) prev ts)
      → Later (k + 1) (k + suc (length ts)) (events_from (k + 1) prev ts)
  shift k prev ts =
      subst (λ end. Later (k + 1) end (events_from (k + 1) prev ts)) (the_end k (length ts))

  events_from-Later :
      (k : ℕ) (prev : Option F) (ts : List (Tick F))
      → Later k (k + length ts) (events_from k prev ts)
  unfolding events_from
  events_from-Later k prev [] = tt
  events_from-Later k prev (t ∷ ts) = elim (Option-cases t.grip) [
    | inl e ↦
        rw e (
          Later-le k (k + 1) _ _ (omega arith)
            (shift k prev ts (events_from-Later (k + 1) prev ts)))
    | inr (g, e) ↦ rw e (omega arith, omega arith, shift k _ ts (events_from-Later (k + 1) _ ts))
  ]

  same_length : (ts : List (Tick F)) → length (map (λ t. t.pose) ts) ≡ 0 + length ts
  same_length ts = omega (arith, length-map (λ (t : Tick F). t.pose) ts)

  -- Each gripper event of a preview stands at a tick of its setpoints, in order, and no two
  -- stand at one tick.
  pub preview_of-Later :
      (resolved : CartesianChunk F) (start : Pose F) (profile : Option (SafetyProfile F)) (hz : F)
      → let v = preview_of resolved start profile hz in
        Later 0 (length v.setpoints) v.gripper_events
  unfolding preview_of
  preview_of-Later resolved start profile hz =
      let (linear, angular) = effective_caps resolved profile in
      let ts =
        setpoints (record { hz = hz; max_linear_speed = linear; max_angular_speed = angular })
          resolved start in
      subst (λ end. Later 0 end (events_from 0 none ts)) (sym (same_length ts))
        (events_from-Later 0 none ts)
