-- ===== src/ActionChunk/Horizon.antt =====
-- What `for_execution` hands to the executor.
use package.flexiv_control.ActionChunk.{
  CartesianWaypoint, CartesianChunk, ChunkRepresentation, absolute, relative_to_start,
  make_waypoint, make_chunk, horizon_exec, resolve_waypoint, resolve_waypoints, resolve_to_absolute,
  for_execution,
}
use flexiv_control.Common.{
  ℕ, ◌≤◌, ◌≡◌, ◌≢◌, inl, inr, refl, true, none, some, List, [], ◌∷◌, length, take, length-take, leb,
  nat_max, nat_min, arith, Bool-cases, is_some, ◌||◌, if◌then◌else◌, get_or_else,
}
use flexiv_control.Common.Result.{ok, >>=-returned}
use flexiv_control.Number.{Number}
use flexiv_control.Types.{Pose}

module _ {F : Type 0} ⦃n : Number F⦄ where
  -- A waypoint that can be constructed has a timing, and a positive one if it counts frames.
  pub make_waypoint-timed :
      (w : CartesianWaypoint F) {v : CartesianWaypoint F}
      → make_waypoint w ≡ ok v
      → ((is_some v.n_frames || is_some v.duration) ≡ true) × (v.n_frames ≢ some 0)
  unfolding make_waypoint
  make_waypoint-timed w h = ground arith

  horizon_exec_bounds :
      (c : CartesianChunk F)
      → c.waypoints ≢ []
      → (1 ≤ horizon_exec c) × (horizon_exec c ≤ length c.waypoints)
  unfolding horizon_exec
  horizon_exec_bounds c h = positive c.waypoints h
    where
      positive :
          (ws : List (CartesianWaypoint F))
          → ws ≢ []
          → let m = nat_max 1 (nat_min (get_or_else (length ws) c.n_execute) (length ws)) in
            (1 ≤ m) × (m ≤ length ws)
      positive [] h = absurd (h refl)
      positive (w ∷ ws) h = ground arith

  length-resolve_waypoints :
      (start : Pose F) (ws : List (CartesianWaypoint F)) {vs : List (CartesianWaypoint F)}
      → resolve_waypoints start ws ≡ ok vs
      → length vs ≡ length ws
  unfolding resolve_waypoints
  length-resolve_waypoints start [] h = ground arith
  length-resolve_waypoints start (w ∷ ws) h =
      let (v, e, h') = >>=-returned (resolve_waypoint start w) _ h in
      let (vs', e', h'') = >>=-returned (resolve_waypoints start ws) _ h' in
      ground (arith, length-resolve_waypoints start ws e', h'')

  make_chunk-id : (c : CartesianChunk F) {c' : CartesianChunk F} → make_chunk c ≡ ok c' → c' ≡ c
  unfolding make_chunk
  make_chunk-id c h = ground arith

  resolve_lem :
      (c : CartesianChunk F) (start : Pose F) (r : ChunkRepresentation) {c' : CartesianChunk F}
      → c.representation ≡ r
      → resolve_to_absolute c start ≡ ok c'
      → (length c'.waypoints ≡ length c.waypoints)
        × (c'.representation ≡ absolute)
        × (c'.n_execute ≡ c.n_execute)
  unfolding resolve_to_absolute
  resolve_lem c start absolute e h = ground arith
  resolve_lem c start relative_to_start e h =
      let h' = rw e at h in
      let (ws, e', made) = >>=-returned (resolve_waypoints start c.waypoints) _ h' in
      ground (arith, make_chunk-id _ made, length-resolve_waypoints start c.waypoints e')

  -- A chunk in absolute poses that runs all its waypoints is run as it is, from any pose.
  runs_whole :
      (c : CartesianChunk F)
      → c.representation ≡ absolute
      → length c.waypoints ≤ horizon_exec c
      → (pose : Pose F) → for_execution c pose ≡ ok c
  unfolding for_execution resolve_to_absolute
  runs_whole c a h pose = rw (a, resolve_to_absolute) (ground arith)

  same_horizon :
      (c d : CartesianChunk F)
      → length d.waypoints ≡ length c.waypoints
      → d.n_execute ≡ c.n_execute
      → horizon_exec d ≡ horizon_exec c
  unfolding horizon_exec
  same_horizon c d l e = rw (l, e)

  whole_horizon : (c : CartesianChunk F) → c.n_execute ≡ none → length c.waypoints ≤ horizon_exec c
  unfolding horizon_exec
  whole_horizon c e = rw e (ground arith)

  sliced_chunk : CartesianChunk F → ℕ → CartesianChunk F
  sliced_chunk d he = record d { waypoints = take he d.waypoints; n_execute = none }

  slice_lem :
      (c d c' : CartesianChunk F)
      → (1 ≤ horizon_exec c) × (horizon_exec c ≤ length c.waypoints)
      → length d.waypoints ≡ length c.waypoints
      → d.representation ≡ absolute
      → d.n_execute ≡ c.n_execute
      → (if leb (length d.waypoints) (horizon_exec c)
          then ok d
          else make_chunk (sliced_chunk d (horizon_exec c)))
        ≡ ok c'
      → (length c'.waypoints ≡ horizon_exec c)
        × (c'.representation ≡ absolute)
        × (length c'.waypoints ≤ horizon_exec c')
  unfolding sliced_chunk
  slice_lem c d c' bounds l a e h = elim (Bool-cases (leb (length d.waypoints) (horizon_exec c))) [
    | inl whole ↦
        (let same : c' ≡ d = ground (arith, rw whole at h) in
          rw same (ground (arith, same_horizon c d l e)))
    | inr sliced ↦
        (let same = make_chunk-id (sliced_chunk d (horizon_exec c)) (rw sliced at h) in
          let fits = whole_horizon (sliced_chunk d (horizon_exec c)) refl in
          rw same (omega (arith, length-take (horizon_exec c) d.waypoints), a, fits))
  ]

  -- What the executor gets is an absolute chunk of exactly H_exec waypoints, between one and all of
  -- them, and resolving and slicing it again, from whatever pose, changes nothing.
  pub for_execution_lem :
      (c : CartesianChunk F) (start pose : Pose F) {c' : CartesianChunk F}
      → c.waypoints ≢ []
      → for_execution c start ≡ ok c'
      → (length c'.waypoints ≡ horizon_exec c)
        × (1 ≤ length c'.waypoints)
        × (length c'.waypoints ≤ length c.waypoints)
        × (c'.representation ≡ absolute)
        × (for_execution c' pose ≡ ok c')
  unfolding for_execution sliced_chunk
  for_execution_lem c start pose {c'} some_waypoint h =
      let (d, e, h') = >>=-returned (resolve_to_absolute c start) _ h in
      let (l, a, same) = resolve_lem c start c.representation refl e in
      let bounds = horizon_exec_bounds c some_waypoint in
      let (count, absolute', fits) = slice_lem c d c' bounds l a same h' in
      (count, omega arith, omega arith, absolute', runs_whole c' absolute' fits pose)
