-- ===== src/Number.antt =====
-- Python's `float` and the functions of `math` and `numpy` that the code calls on floats. Neither
-- is part of the repository, so they are a parameter: a type of numbers with operations. A value
-- of it stands for a float that is not NaN.
pub mod Fixed
use flexiv_control.Common.{ℕ, ◌≡◌, ◌⊎◌, Bool, true, false, List, arith, if◌then◌else◌}

pub record Number (F : Type 0) : Type 0 where
  -- the decimal literal m * 10 ^ -k, as `1e-9` is `lit 1 9`
  pub lit : ℕ → ℕ → F
  -- float(n) of a count
  pub of_nat : ℕ → F
  pub add : F → F → F
  pub sub : F → F → F
  pub mul : F → F → F
  pub div : F → F → F
  pub neg : F → F
  -- abs, np.abs
  pub abs : F → F
  -- the tests a < b and b > a
  pub lt : F → F → Bool
  -- np.isclose, of which np.allclose is the conjunction
  pub close : F → F → Bool
  -- np.linalg.norm and np.dot
  pub norm : List F → F
  pub dot : List F → List F → F
  -- np.sign
  pub sign : F → F
  pub sqrt : F → F
  pub sin : F → F
  pub cos : F → F
  pub arccos : F → F
  pub pi : F
  -- int(round(x)) and int(np.ceil(x)), with 0 for what is below
  pub round_nat : F → ℕ
  pub ceil_nat : F → ℕ

module _ {F : Type 0} ⦃n : Number F⦄ where
  infixl 65 ◌⊕◌ ◌⊖◌
  infixl 70 ◌⊗◌ ◌⊘◌
  infix 50 ◌≼◌
  abbrev pub ◌⊕◌ : F → F → F
  ◌⊕◌ = n.add

  abbrev pub ◌⊖◌ : F → F → F
  ◌⊖◌ = n.sub

  abbrev pub ◌⊗◌ : F → F → F
  ◌⊗◌ = n.mul

  abbrev pub ◌⊘◌ : F → F → F
  ◌⊘◌ = n.div

  -- `a <= b` between numbers that are not NaN.
  abbrev pub ◌≼◌ : F → F → Type 0
  a ≼ b = n.lt b a ≡ false

  abbrev pub zero_num : F
  zero_num = n.of_nat 0

  abbrev pub one_num : F
  one_num = n.of_nat 1

  -- max(a, b), min(a, b), and np.minimum, np.maximum away from NaN
  unfoldable pub num_max : F → F → F
  num_max a b = if n.lt a b then b else a

  unfoldable pub num_min : F → F → F
  num_min a b = if n.lt b a then b else a

  -- np.clip(x, lo, hi) is np.minimum(np.maximum(x, lo), hi).
  unfoldable pub clip : F → F → F → F
  unfolding num_max num_min
  clip x lo hi = num_min (num_max x lo) hi

-- What the code relies on: `<` is a strict weak order (0.0 and -0.0 are neither below the other),
-- a number is close to itself, and an absolute value has the size of its argument.
pub record IsOrdered (F : Type 0) ⦃n : Number F⦄ : Type 0 where
  pub asym : (a b : F) → n.lt a b ≡ true → n.lt b a ≡ false
  pub weak : (a b c : F) → n.lt a c ≡ true → (n.lt a b ≡ true) ⊎ (n.lt b c ≡ true)
  pub close_refl : (a : F) → n.close a a ≡ true

-- Arithmetic without rounding, as far as a theorem needs it: the order under sums, products with a
-- factor from 0 to 1 and quotients. Floats obey these laws up to their last digit.
pub record IsExact (F : Type 0) ⦃n : Number F⦄ : Type 0 where
  pub add_mono : (a b c : F) → b ≼ c → a ⊕ b ≼ a ⊕ c
  pub add_zero : (a : F) → a ⊕ zero_num ≡ a
  pub add_sub : (a b : F) → a ⊕ (b ⊖ a) ≡ b
  pub shrink_pos :
      (d s : F) → zero_num ≼ s → s ≼ one_num → zero_num ≼ d → (zero_num ≼ d ⊗ s) × (d ⊗ s ≼ d)
  pub shrink_neg :
      (d s : F) → zero_num ≼ s → s ≼ one_num → d ≼ zero_num → (d ≼ d ⊗ s) × (d ⊗ s ≼ zero_num)
  pub mul_mono : (c a b : F) → zero_num ≼ c → a ≼ b → c ⊗ a ≼ c ⊗ b
  pub mul_zero : (c : F) → c ⊗ zero_num ≡ zero_num
  pub ratio_unit :
      (a b : F)
      → zero_num ≼ a
      → a ≼ b
      → n.lt zero_num b ≡ true
      → (zero_num ≼ a ⊘ b) × (a ⊘ b ≼ one_num)
  pub ratio_lt :
      (a b c : F)
      → n.lt zero_num b ≡ true
      → zero_num ≼ c
      → n.lt c (a ⊘ b) ≡ true
      → n.lt (c ⊗ b) a ≡ true
  pub sign_pos : (a b : F) → n.lt zero_num a ≡ true → n.sign a ⊗ b ≡ b
  pub sign_neg : (a b : F) → n.lt a zero_num ≡ true → n.sign a ⊗ b ≡ n.neg b
  pub abs_pos : (a : F) → zero_num ≼ a → n.abs a ≡ a
  pub abs_neg : (a : F) → n.lt a zero_num ≡ true → n.abs a ≡ n.neg a
  pub abs-neg : (a : F) → n.abs (n.neg a) ≡ n.abs a
  pub neg_anti : (a b : F) → a ≼ n.neg b → b ≼ n.neg a
  pub neg_nonpos : (a : F) → zero_num ≼ a → n.neg a ≼ zero_num

module _ {F : Type 0} ⦃n : Number F⦄ (laws : IsOrdered F) where
  open laws use {asym, weak}

  pub ≼_trans : (a b c : F) → a ≼ b → b ≼ c → a ≼ c
  ≼_trans a b c h k = ground (arith, weak c b a)

  -- A clipped number lies in the range.
  pub clip_bounds : (x lo hi : F) → lo ≼ hi → (lo ≼ clip x lo hi) × (clip x lo hi ≼ hi)
  unfolding clip
  clip_bounds x lo hi h =
      ground (arith, asym x lo, asym lo x, asym hi hi, asym lo lo, asym hi lo, weak hi x lo)

  -- A number in the range is not changed.
  pub clip_inside : (x lo hi : F) → lo ≼ x → x ≼ hi → clip x lo hi ≡ x
  unfolding clip
  clip_inside x lo hi h k = ground arith

  pub num_min-le : (a b : F) → (num_min a b ≼ a) × (num_min a b ≼ b)
  unfolding num_min
  num_min-le a b = ground (arith, asym a b, asym a a, asym b b, asym b a)

  pub num_max-le : (a b : F) → a ≼ num_max a b
  unfolding num_max
  num_max-le a b = ground (arith, asym a b, asym a a)
