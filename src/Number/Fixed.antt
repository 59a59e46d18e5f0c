-- ===== src/Number/Fixed.antt =====
-- A concrete type of numbers, on which the definitions run: fixed-point numbers with nine decimals,
-- held as integers. The trigonometric functions are linear stand-ins, with 2 for pi, and the
-- norm is the sum of the absolute values.
use flexiv_control.Common.{
  ℕ, zero, suc, true, ◌≡◌, ◌+◌, ◌≤◌, ◌<◌, ◌*◌, ◌/◌, ◌^◌, List, [], ◌∷◌, arith, leb, if◌then◌else◌,
}
use flexiv_control.Common.Int.{ℤ, pos, negsuc, pos_part, neg_part, sub_ℕ, ◌+ℤ◌, ◌-ℤ◌, ◌*ℤ◌, ltb_ℤ}
use native.Mathlib.Nat.{mul-le-mul, le_refl, le-div_iff_mul-le, div-lt_iff_lt-mul}
use package.flexiv_control.Number.{◌≼◌, zero_num, one_num, Number, IsOrdered, IsExact}

abbrev scale : ℕ
scale = 1_000_000_000

-- The integer quotient, towards zero.
abbrev quot : ℤ → ℕ → ℤ
quot a n = sub_ℕ (pos_part a / n) (neg_part a / n)

abbrev size : ℤ → ℕ
size a = pos_part a + neg_part a

abbrev over : ℤ → ℤ → ℤ
over a (pos b) = quot (a *ℤ pos scale) b
over a (negsuc b) = quot (pos 0 -ℤ a *ℤ pos scale) (b + 1)

abbrev sum_of_sizes : List ℤ → ℤ
sum_of_sizes [] = pos 0
sum_of_sizes (x ∷ xs) = pos (size x) +ℤ sum_of_sizes xs

abbrev sum_of_products : List ℤ → List ℤ → ℤ
sum_of_products (x ∷ xs) (y ∷ ys) = quot (x *ℤ y) scale +ℤ sum_of_products xs ys
sum_of_products _ _ = pos 0

instance abbrev pub fixed : Number ℤ
fixed = record {
  lit = λ m k. pos (m * scale / 10 ^ k);
  of_nat = λ m. pos (m * scale);
  add = ◌+ℤ◌;
  sub = ◌-ℤ◌;
  mul = λ a b. quot (a *ℤ b) scale;
  div = over;
  neg = λ a. pos 0 -ℤ a;
  abs = λ a. pos (size a);
  lt = ltb_ℤ;
  close = λ a b. leb (size (a -ℤ b)) 10_000;
  norm = sum_of_sizes;
  dot = sum_of_products;
  sign = λ a.
      if ltb_ℤ (pos 0) a then pos scale else if ltb_ℤ a (pos 0) then pos 0 -ℤ pos scale else pos 0;
  sqrt = λ a. a;
  sin = λ a. a;
  cos = λ a. pos scale -ℤ a;
  arccos = λ a. pos scale -ℤ a;
  pi = pos 2_000_000_000;
  round_nat = λ a. (pos_part a + 500_000_000) / scale;
  ceil_nat = λ a. (pos_part a + 999_999_999) / scale;
}

-- The laws can be met.
pub fixed-IsOrdered : IsOrdered ℤ
fixed-IsOrdered = record {
  asym = λ a b h. ground arith;
  weak = λ a b c h. ground arith;
  close_refl = λ a. ground arith;
}

-- There is one zero.
pub fixed_linear : (a b : ℤ) → a ≼ b → b ≼ a → a ≡ b
fixed_linear a b h k = ground arith

-- Products and quotients of naturals at the scale.
part_le : (m k : ℕ) → k ≤ scale → m * k / scale ≤ m
part_le m k h = omega (arith, mul-le-mul (le_refl m) h)

ratio_le : (a b : ℕ) → a ≤ b → 0 < b → a * scale / b ≤ scale
ratio_le a b h p = grind (arith, mul-le-mul h (le_refl scale))

ratio_below : (a b c : ℕ) → 0 < b → c < a * scale / b → c * b / scale < a
ratio_below a b c p h =
    let above : suc c * b ≤ a * scale = (le-div_iff_mul-le p).0 h in
    (div-lt_iff_lt-mul {k = scale} (omega arith)).1 (grind arith)

mul_part_mono : (c a b : ℕ) → a ≤ b → c * a / scale ≤ c * b / scale
mul_part_mono c a b h = omega (arith, mul-le-mul (le_refl c) h)

abbrev shrunk : ℤ → ℤ → ℤ
shrunk = fixed.mul

shrink_pos :
    (d s : ℤ)
    → zero_num ≼ s
    → s ≼ one_num
    → zero_num ≼ d
    → (zero_num ≼ shrunk d s) × (shrunk d s ≼ d)
shrink_pos (pos m) (pos k) h g e = ground (arith, part_le m k)
shrink_pos (pos m) (negsuc k) h g e = ground arith
shrink_pos (negsuc m) s h g e = ground arith

shrink_neg :
    (d s : ℤ)
    → zero_num ≼ s
    → s ≼ one_num
    → d ≼ zero_num
    → (d ≼ shrunk d s) × (shrunk d s ≼ zero_num)
shrink_neg (pos zero) (pos k) h g e = ground arith
shrink_neg (pos (suc m)) s h g e = ground arith
shrink_neg (negsuc m) (pos k) h g e = ground (arith, part_le (suc m) k)
shrink_neg (negsuc m) (negsuc k) h g e = ground arith
shrink_neg (pos zero) (negsuc k) h g e = ground arith

mul_mono : (c a b : ℤ) → zero_num ≼ c → a ≼ b → shrunk c a ≼ shrunk c b
mul_mono (pos c) (pos a) (pos b) h k = ground (arith, mul_part_mono c a b)
mul_mono (pos c) (negsuc a) (pos b) h k = ground arith
mul_mono (pos c) (pos a) (negsuc b) h k = ground arith
mul_mono (pos c) (negsuc a) (negsuc b) h k = ground (arith, mul_part_mono c (suc b) (suc a))
mul_mono (negsuc c) a b h k = ground arith

ratio_unit :
    (a b : ℤ)
    → zero_num ≼ a
    → a ≼ b
    → fixed.lt zero_num b ≡ true
    → (zero_num ≼ fixed.div a b) × (fixed.div a b ≼ one_num)
ratio_unit (pos a) (pos b) h k g = ground (arith, ratio_le a b)
ratio_unit (negsuc a) b h k g = ground arith
ratio_unit (pos a) (negsuc b) h k g = ground arith

ratio_lt :
    (a b c : ℤ)
    → fixed.lt zero_num b ≡ true
    → zero_num ≼ c
    → fixed.lt c (fixed.div a b) ≡ true
    → fixed.lt (fixed.mul c b) a ≡ true
ratio_lt (pos a) (pos b) (pos c) h k g = ground (arith, ratio_below a b c)
ratio_lt (negsuc a) (pos b) (pos c) h k g = ground arith
ratio_lt a (negsuc b) c h k g = ground arith
ratio_lt a (pos b) (negsuc c) h k g = ground arith

sign_pos : (a b : ℤ) → fixed.lt zero_num a ≡ true → fixed.mul (fixed.sign a) b ≡ b
sign_pos a (pos b) h = rw h (ground arith)
sign_pos a (negsuc b) h = rw h (ground arith)

sign_neg : (a b : ℤ) → fixed.lt a zero_num ≡ true → fixed.mul (fixed.sign a) b ≡ fixed.neg b
sign_neg (pos a) b h = ground arith
sign_neg (negsuc a) (pos b) h = ground arith
sign_neg (negsuc a) (negsuc b) h = ground arith

pub fixed-IsExact : IsExact ℤ
fixed-IsExact = record {
  add_mono = λ a b c h. ground arith;
  add_zero = λ a. ground arith;
  add_sub = λ a b. ground arith;
  shrink_pos = λ d s h k g. shrink_pos d s h k g;
  shrink_neg = λ d s h k g. shrink_neg d s h k g;
  mul_mono = λ c a b h k. mul_mono c a b h k;
  mul_zero = λ c. ground arith;
  ratio_unit = λ a b h k g. ratio_unit a b h k g;
  ratio_lt = λ a b c h k g. ratio_lt a b c h k g;
  sign_pos = λ a b h. sign_pos a b h;
  sign_neg = λ a b h. sign_neg a b h;
  abs_pos = λ a h. ground arith;
  abs_neg = λ a h. ground arith;
  abs-neg = λ a. ground arith;
  neg_anti = λ a b h. ground arith;
  neg_nonpos = λ a h. ground arith;
}
