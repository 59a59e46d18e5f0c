-- ===== src/Transforms.antt =====
-- src/flexiv_control/transforms.py: quaternions (w, x, y, z) and poses.
use flexiv_control.Common.{String, [], ◌∷◌, List, str_eq, if◌then◌else◌}
use flexiv_control.Common.Result.{Result, ok, err, value_error}
use flexiv_control.Number.{Number, ◌⊕◌, ◌⊖◌, ◌⊗◌, ◌⊘◌, zero_num, one_num, num_max, num_min}
use flexiv_control.Types.{Vec3, Quat, Pose, Vec6}

module _ {F : Type 0} where
  abbrev pub vec3 : F → F → F → Vec3 F
  vec3 a b c = record { x = a; y = b; z = c }

  abbrev pub quat : F → F → F → F → Quat F
  quat a b c d = record { w = a; x = b; y = c; z = d }

  abbrev pub vec_entries : Vec3 F → List F
  vec_entries v = v.x ∷ v.y ∷ v.z ∷ []

  abbrev pub quat_entries : Quat F → List F
  quat_entries q = q.w ∷ q.x ∷ q.y ∷ q.z ∷ []

module _ {F : Type 0} ⦃n : Number F⦄ where
  -- The elementwise operations of numpy on arrays of three and of four.
  abbrev pub vec_add : Vec3 F → Vec3 F → Vec3 F
  vec_add a b = vec3 (a.x ⊕ b.x) (a.y ⊕ b.y) (a.z ⊕ b.z)

  abbrev pub vec_sub : Vec3 F → Vec3 F → Vec3 F
  vec_sub a b = vec3 (a.x ⊖ b.x) (a.y ⊖ b.y) (a.z ⊖ b.z)

  abbrev pub vec_scale : Vec3 F → F → Vec3 F
  vec_scale a s = vec3 (a.x ⊗ s) (a.y ⊗ s) (a.z ⊗ s)

  abbrev pub vec_over : Vec3 F → F → Vec3 F
  vec_over a s = vec3 (a.x ⊘ s) (a.y ⊘ s) (a.z ⊘ s)

  abbrev pub quat_add : Quat F → Quat F → Quat F
  quat_add a b = quat (a.w ⊕ b.w) (a.x ⊕ b.x) (a.y ⊕ b.y) (a.z ⊕ b.z)

  abbrev pub quat_sub : Quat F → Quat F → Quat F
  quat_sub a b = quat (a.w ⊖ b.w) (a.x ⊖ b.x) (a.y ⊖ b.y) (a.z ⊖ b.z)

  abbrev pub quat_scale : F → Quat F → Quat F
  quat_scale s a = quat (s ⊗ a.w) (s ⊗ a.x) (s ⊗ a.y) (s ⊗ a.z)

  abbrev pub quat_neg : Quat F → Quat F
  quat_neg a = quat (n.neg a.w) (n.neg a.x) (n.neg a.y) (n.neg a.z)

  abbrev pub eps : F
  eps = n.lit 1 9

  abbrev pub unit_quat : Quat F
  unit_quat = quat one_num zero_num zero_num zero_num

  abbrev pub quat_over : Quat F → F → Quat F
  quat_over a s = quat (a.w ⊘ s) (a.x ⊘ s) (a.y ⊘ s) (a.z ⊘ s)

  unfoldable pub quat_normalize : Quat F → Quat F
  quat_normalize q =
      let m = n.norm (quat_entries q) in
      let u = quat_over q m in
      if n.lt m eps then unit_quat else if n.lt u.w zero_num then quat_neg u else u

  unfoldable pub quat_mul : Quat F → Quat F → Quat F
  quat_mul a b =
      quat (a.w ⊗ b.w ⊖ a.x ⊗ b.x ⊖ a.y ⊗ b.y ⊖ a.z ⊗ b.z)
        (a.w ⊗ b.x ⊕ a.x ⊗ b.w ⊕ a.y ⊗ b.z ⊖ a.z ⊗ b.y)
        (a.w ⊗ b.y ⊖ a.x ⊗ b.z ⊕ a.y ⊗ b.w ⊕ a.z ⊗ b.x)
        (a.w ⊗ b.z ⊕ a.x ⊗ b.y ⊖ a.y ⊗ b.x ⊕ a.z ⊗ b.w)

  unfoldable pub quat_conj : Quat F → Quat F
  quat_conj q = quat q.w (n.neg q.x) (n.neg q.y) (n.neg q.z)

  -- min(1.0, max(-1.0, d))
  abbrev unit_range : F → F
  unit_range d = num_min one_num (num_max (n.neg one_num) d)

  unfoldable pub quat_angle : Quat F → Quat F → F
  quat_angle a b =
      let d = n.abs (n.dot (quat_entries (quat_normalize a)) (quat_entries (quat_normalize b))) in
      n.of_nat 2 ⊗ n.arccos (unit_range d)

  -- `quat_slerp` of normalised arguments with a dot product that is not negative.
  slerp_aligned : Quat F → Quat F → F → F → Quat F
  slerp_aligned a b d t =
      let theta_0 = n.arccos (unit_range d) in
      let sin_0 = n.sin theta_0 in
      let theta = theta_0 ⊗ t in
      let s0 = n.sin (theta_0 ⊖ theta) ⊘ sin_0 in
      let s1 = n.sin theta ⊘ sin_0 in
      if n.lt (n.lit 9995 4) d
      then quat_normalize (quat_add a (quat_scale t (quat_sub b a)))
      else quat_normalize (quat_add (quat_scale s0 a) (quat_scale s1 b))

  unfoldable pub quat_slerp : Quat F → Quat F → F → Quat F
  unfolding slerp_aligned
  quat_slerp a b t =
      let a' = quat_normalize a in
      let b' = quat_normalize b in
      let d = n.dot (quat_entries a') (quat_entries b') in
      if n.lt d zero_num
      then slerp_aligned a' (quat_neg b') (n.neg d) t
      else slerp_aligned a' b' d t

  unfoldable pub quat_to_rotvec : Quat F → Vec3 F
  quat_to_rotvec q =
      let u = quat_normalize q in
      let c = unit_range u.w in
      let angle = n.of_nat 2 ⊗ n.arccos c in
      let s = n.sqrt (num_max zero_num (one_num ⊖ c ⊗ c)) in
      if n.lt s eps
      then vec3 zero_num zero_num zero_num
      else vec_scale (vec_over (vec3 u.x u.y u.z) s) angle

  unfoldable pub rotvec_to_quat : Vec3 F → Quat F
  rotvec_to_quat rv =
      let angle = n.norm (vec_entries rv) in
      let axis = vec_over rv angle in
      let h = angle ⊘ n.of_nat 2 in
      if n.lt angle eps
      then unit_quat
      else quat (n.cos h) (n.sin h ⊗ axis.x) (n.sin h ⊗ axis.y) (n.sin h ⊗ axis.z)

  unfoldable pub quat_rotate : Quat F → Vec3 F → Vec3 F
  unfolding quat_mul quat_conj
  quat_rotate q v =
      let u = quat_normalize q in
      let r = quat_mul (quat_mul u (quat zero_num v.x v.y v.z)) (quat_conj u) in vec3 r.x r.y r.z

  unfoldable pub top_down_quat : F → Quat F → Quat F
  unfolding quat_mul
  top_down_quat yaw base =
      let half = n.lit 5 1 ⊗ yaw in
      quat_normalize (quat_mul (quat (n.cos half) zero_num zero_num (n.sin half)) base)

  abbrev moved : Pose F → Vec3 F → Vec3 F → Pose F
  moved pose d_trans rotation = record {
    position = vec_add pose.position d_trans;
    quat = quat_normalize (quat_mul pose.quat (rotvec_to_quat rotation));
  }

  unfoldable pub integrate_pose : Pose F → Vec6 F → String → Result (Pose F)
  unfolding quat_mul rotvec_to_quat quat_rotate
  integrate_pose pose delta frame =
      if str_eq frame "tcp"
      then ok (moved pose (quat_rotate pose.quat delta.linear) delta.angular)
      else if str_eq frame "base"
      then ok (moved pose delta.linear delta.angular)
      else err value_error
