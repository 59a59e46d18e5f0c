-- ===== src/ActionChunk/Arrays.antt =====
-- The constructors of chunks from a planner's array: `from_waypoint_array`, `from_pose_array` and
-- `from_topdown_array`. A row of the array is a record, so that the checks of its shape pass. The
-- keyword arguments that go to `CartesianChunk` are the function `fill` from waypoints to a chunk.
use package.flexiv_control.ActionChunk.{
  CartesianWaypoint, CartesianChunk, make_waypoint, make_chunk,
}
use flexiv_control.Common.{
  ℕ, suc, ◌∙◌, inl, inr, ◌≡◌, ◌≢◌, refl, ap, Bool, false, not, Option, none, some, List, [], ◌∷◌,
  length, nat_max, arith, Bool-cases, All, if◌then◌else◌,
}
use flexiv_control.Common.Result.{Result, ok, err, value_error, ◌>>=◌, >>=-returned}
use flexiv_control.Number.{Number, ◌⊘◌, zero_num}
use flexiv_control.Types.{Vec3, Quat, from_normalized}
use flexiv_control.Transforms.{top_down_quat}

-- A row of any of the three formats: where to, how to turn, the gripper `w` and the frames `n`.
pub record Row (F : Type 0) (A : Type 0) : Type 0 where
  pub position : Vec3 F
  pub turn : A
  pub grip : F
  pub frames : F

pub record Timing (F : Type 0) : Type 0 where
  pub n_frames : Option ℕ
  pub duration : Option F

module _ {F : Type 0} ⦃n : Number F⦄ where
  abbrev pub timing : Option F → F → Timing F
  timing none frames = record { n_frames = some (nat_max 1 (n.round_nat frames)); duration = none }
  timing (some hz) frames = record {
    n_frames = none;
    duration = some (n.of_nat (nat_max 1 (n.round_nat frames)) ⊘ hz);
  }

  -- `frames_hz is not None and frames_hz <= 0`
  abbrev bad_rate : Option F → Bool
  bad_rate none = false
  bad_rate (some hz) = not (n.lt zero_num hz)

  module _ {A : Type 0} (to_quat : A → Option (Quat F)) (span force : F)
      (frames_hz : Option F) where
    unfoldable pub row_waypoint : Row F A → Result (CartesianWaypoint F)
    row_waypoint r =
        let t = timing frames_hz r.frames in
        make_waypoint (record {
          position = r.position;
          quaternion = to_quat r.turn;
          gripper = some (from_normalized r.grip span zero_num force (n.lit 1 1));
          n_frames = t.n_frames;
          duration = t.duration;
          frame = "base";
        })

    unfoldable pub rows_waypoints : List (Row F A) → Result (List (CartesianWaypoint F))
    rows_waypoints [] = ok []
    rows_waypoints (r ∷ rs) = do w ← row_waypoint r; ws ← rows_waypoints rs; ok (w ∷ ws)

    unfoldable pub chunk_of_rows :
        (List (CartesianWaypoint F) → CartesianChunk F) → List (Row F A) → Result (CartesianChunk F)
    chunk_of_rows fill rs =
        if bad_rate frames_hz
        then err value_error
        else do ws ← rows_waypoints rs; make_chunk (fill ws)

  unfoldable pub from_waypoint_array :
      (span force : F)
      → Bool
      → Option F
      → (List (CartesianWaypoint F) → CartesianChunk F)
      → List (Row F (Unit {0}))
      → Result (CartesianChunk F)
  unfolding chunk_of_rows
  from_waypoint_array span force hold_orientation frames_hz fill rs =
      if bad_rate frames_hz
      then err value_error
      else if not hold_orientation
      then err value_error
      else chunk_of_rows (λ _. none) span force frames_hz fill rs

  unfoldable pub from_pose_array :
      (span force : F)
      → Option F
      → (List (CartesianWaypoint F) → CartesianChunk F)
      → List (Row F (Quat F))
      → Result (CartesianChunk F)
  unfolding chunk_of_rows
  from_pose_array = chunk_of_rows some

  unfoldable pub from_topdown_array :
      Quat F
      → (span force : F) → Option F
      → (List (CartesianWaypoint F) → CartesianChunk F)
      → List (Row F F)
      → Result (CartesianChunk F)
  unfolding chunk_of_rows
  from_topdown_array down_quat = chunk_of_rows (λ yaw. some (top_down_quat yaw down_quat))

  make_chunk_lem :
      (c : CartesianChunk F) {c' : CartesianChunk F}
      → make_chunk c ≡ ok c'
      → (c' ≡ c) × (c.waypoints ≢ [])
  unfolding make_chunk
  make_chunk_lem c h = ground arith

  -- Not a count of no frames.
  abbrev pub IsTimed : CartesianWaypoint F → Type 0
  IsTimed w = w.n_frames ≢ some 0

  module _ {A : Type 0} (to_quat : A → Option (Quat F)) (span force : F)
      (frames_hz : Option F) where
    empty_of_length : (ws : List (CartesianWaypoint F)) → length ws ≡ 0 → ws ≡ []
    empty_of_length [] e = refl
    empty_of_length (w ∷ ws) e = absurd (omega arith)

    row-IsTimed :
        (r : Row F A) {w : CartesianWaypoint F}
        → row_waypoint to_quat span force frames_hz r ≡ ok w
        → IsTimed w
    unfolding row_waypoint make_waypoint
    row-IsTimed r h e = ground arith

    rows_lem :
        (rs : List (Row F A)) {ws : List (CartesianWaypoint F)}
        → rows_waypoints to_quat span force frames_hz rs ≡ ok ws
        → (length ws ≡ length rs) × All IsTimed ws
    unfolding rows_waypoints
    rows_lem [] {ws} h = let e : ws ≡ [] = ground arith in rw e (refl, tt)
    rows_lem (r ∷ rs) {ws} h =
        let (v, e, h') = >>=-returned (row_waypoint to_quat span force frames_hz r) _ h in
        let (vs, e', h'') = >>=-returned (rows_waypoints to_quat span force frames_hz rs) _ h' in
        let (count, timed) = rows_lem rs e' in
        let same : ws ≡ v ∷ vs = ground arith in rw same (ap suc count, (row-IsTimed r e, timed))

    -- A chunk that is built from an array has a waypoint for each row, in which every count of frames
    -- is at least one; from an array with no rows none is built. `fill` puts the waypoints in place.
    pub chunk_of_rows_lem :
        (fill : List (CartesianWaypoint F) → CartesianChunk F) (rs : List (Row F A))
        {c : CartesianChunk F}
        → ((ws : List (CartesianWaypoint F)) → (fill ws).waypoints ≡ ws)
        → chunk_of_rows to_quat span force frames_hz fill rs ≡ ok c
        → (length c.waypoints ≡ length rs) × All IsTimed c.waypoints × (rs ≢ [])
    unfolding chunk_of_rows
    chunk_of_rows_lem fill rs {c} fills h = elim (Bool-cases (bad_rate frames_hz)) [
      | inl bad ↦ absurd (ground (arith, rw bad at h))
      | inr good ↦
          (let (ws, e, made) =
              >>=-returned (rows_waypoints to_quat span force frames_hz rs) _ (rw good at h) in
            let (count, timed) = rows_lem rs e in
            let (same, filled) = make_chunk_lem (fill ws) made in
            let all : c.waypoints ≡ ws =
              ap (λ (d : CartesianChunk F). d.waypoints) same ∙ fills ws in
            rw all (
              count,
              timed,
              λ none_given. filled (fills ws ∙ empty_of_length ws (count ∙ ap length none_given)),
            ))
    ]
