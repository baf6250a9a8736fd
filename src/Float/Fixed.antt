-- ===== src/Float/Fixed.antt =====
-- A concrete float64 for running the model: fixed point in millionths, with NaN and infinities.
-- It rounds towards zero; `sqrt`, `log` and `log1p` are rough stand-ins. It meets the laws.
use ai_trading_v.Prelude.{
  ℕ, suc, ◌+◌, ◌*◌, ◌/◌, ◌≤◌, ◌<◌, ◌==◌, ◌≡◌, refl, ap, Bool, true, false, not, if◌then◌else◌,
  arith, ℤ, pos, negsuc, pos_part, neg_part, sub_ℕ, leb_ℤ, ltb,
}
use native.Mathlib.Nat.{mul-le-mul, le_refl, le-div_iff_mul-le, div-eq_of_eq-mul_left}
use ai_trading_v.Float.{Float64, num, ◌≼◌, ◌≺◌, valid}
use ai_trading_v.Float.Laws.{Ieee}

pub data Fixed : Type 0 where
  fin : ℤ → Fixed
  inf : Bool → Fixed  -- `true` is negative
  not_a_number : Fixed

abbrev pub is_neg : ℤ → Bool
is_neg (pos _) = false
is_neg (negsuc _) = true

abbrev pub magnitude : ℤ → ℕ
magnitude (pos n) = n
magnitude (negsuc n) = suc n

abbrev pub signed : Bool → ℕ → ℤ
signed true n = sub_ℕ 0 n
signed false n = pos n

abbrev pub differ : Bool → Bool → Bool
differ true b = not b
differ false b = b

abbrev pub fixed_le : Fixed → Fixed → Bool
fixed_le (fin a) (fin b) = leb_ℤ a b
fixed_le (fin a) (inf n) = not n
fixed_le (inf n) (fin a) = n
fixed_le (inf true) (inf m) = true
fixed_le (inf false) (inf m) = not m
fixed_le _ _ = false

abbrev pub fixed_neg : Fixed → Fixed
fixed_neg (fin a) = fin (sub_ℕ (neg_part a) (pos_part a))
fixed_neg (inf n) = inf (not n)
fixed_neg not_a_number = not_a_number

abbrev pub fixed_add : Fixed → Fixed → Fixed
fixed_add (fin a) (fin b) = fin (sub_ℕ (pos_part a + pos_part b) (neg_part a + neg_part b))
fixed_add (fin a) (inf n) = inf n
fixed_add (inf n) (fin a) = inf n
fixed_add (inf n) (inf m) = if differ n m then not_a_number else inf n
fixed_add _ _ = not_a_number

abbrev pub fixed_mul : Fixed → Fixed → Fixed
fixed_mul (fin a) (fin b) =
    fin (signed (differ (is_neg a) (is_neg b)) (magnitude a * magnitude b / 1_000_000))
fixed_mul (fin a) (inf n) = if magnitude a == 0 then not_a_number else inf (differ (is_neg a) n)
fixed_mul (inf n) (fin a) = if magnitude a == 0 then not_a_number else inf (differ (is_neg a) n)
fixed_mul (inf n) (inf m) = inf (differ n m)
fixed_mul _ _ = not_a_number

abbrev pub fixed_div : Fixed → Fixed → Fixed
fixed_div (fin a) (fin b) =
    if magnitude b == 0
    then (if magnitude a == 0 then not_a_number else inf (is_neg a))
    else fin (signed (differ (is_neg a) (is_neg b)) (magnitude a * 1_000_000 / magnitude b))
fixed_div (fin a) (inf n) = fin (pos 0)
fixed_div (inf n) (fin b) = inf (differ n (is_neg b))
fixed_div _ _ = not_a_number

abbrev pub fixed_abs : Fixed → Fixed
fixed_abs (fin a) = fin (pos (magnitude a))
fixed_abs (inf n) = inf false
fixed_abs not_a_number = not_a_number

-- Two terms of Newton's iteration from 1, which keep the sign and the zero.
abbrev pub fixed_sqrt : Fixed → Fixed
fixed_sqrt (fin (pos n)) =
    fin (pos (if n == 0 then 0 else (let y = (n + 1_000_000) / 2 in (y + n * 1_000_000 / y) / 2)))
fixed_sqrt (inf false) = inf false
fixed_sqrt _ = not_a_number

abbrev pub fixed_log1p : Fixed → Fixed
fixed_log1p (fin (pos n)) = fin (pos n)
fixed_log1p (fin (negsuc n)) = if ltb n 999_999 then fin (negsuc n) else not_a_number
fixed_log1p (inf false) = inf false
fixed_log1p _ = not_a_number

abbrev pub is_inf : Fixed → Bool
is_inf (inf _) = true
is_inf _ = false

instance abbrev pub fixed_float : Float64 Fixed
fixed_float = record {
  lit = λ n. fin (pos n);
  nan = not_a_number;
  is_inf = is_inf;
  le = fixed_le;
  neg = fixed_neg;
  add = fixed_add;
  sub = λ x y. fixed_add x (fixed_neg y);
  mul = fixed_mul;
  div = fixed_div;
  abs = fixed_abs;
  sqrt = fixed_sqrt;
  log = λ x. fixed_log1p (fixed_add x (fin (negsuc 999_999)));
  log1p = fixed_log1p;
}

-- A finite value that is not negative holds a natural number of millionths.
nonneg_form : (x : Fixed) → valid x ≡ true → num 0 ≼ x → (n : ℕ) × (x ≡ fin (pos n))
nonneg_form (fin (pos n)) v h = (n, refl)
nonneg_form (fin (negsuc n)) v h = absurd (ground arith)
nonneg_form (inf n) v h = absurd (ground arith)
nonneg_form not_a_number v h = absurd (ground arith)

le_of_fixed : (m n : ℕ) → fin (pos m) ≼ fin (pos n) → m ≤ n
le_of_fixed m n h = ground arith

fixed_trans : (x y z : Fixed) → x ≼ y → y ≼ z → x ≼ z
fixed_trans x y z h k = ground arith

mul_pos_mono :
    (a b c d : ℕ) → a ≤ b → c ≤ d → fin (pos (a * c / 1_000_000)) ≼ fin (pos (b * d / 1_000_000))
mul_pos_mono a b c d h k = ground (arith, mul-le-mul h k)

div_pos_mono :
    (a b c d : ℕ)
    → a ≤ b
    → 0 < d
    → d ≤ c
    → fixed_div (fin (pos a)) (fin (pos c)) ≼ fixed_div (fin (pos b)) (fin (pos d))
div_pos_mono a b c d h p k =
    let c_pos : 0 < c = omega arith in
    let quotient = a * 1_000_000 / c in
    let scaled = mul-le-mul (le_refl quotient) k in
    let back = (le-div_iff_mul-le {x = quotient} {y = a * 1_000_000} c_pos).0 (le_refl _) in
    let goal = (le-div_iff_mul-le {x = quotient} {y = b * 1_000_000} p).1 (omega arith) in
    ground arith

fixed-mul_mono :
    (a b c d : Fixed)
    → valid a ≡ true
    → valid b ≡ true
    → valid c ≡ true
    → valid d ≡ true
    → num 0 ≼ a
    → a ≼ b
    → num 0 ≼ c
    → c ≼ d
    → fixed_mul a c ≼ fixed_mul b d
fixed-mul_mono a b c d va vb vc vd a0 ab c0 cd =
    let (k, ea) = nonneg_form a va a0 in
    let (l, eb) = nonneg_form b vb (fixed_trans (num 0) a b a0 ab) in
    let (m, ec) = nonneg_form c vc c0 in
    let (n, ed) = nonneg_form d vd (fixed_trans (num 0) c d c0 cd) in
    rw (ea, eb, ec, ed)
      (mul_pos_mono k l m n (le_of_fixed k l (rw (ea, eb) at ab))
        (le_of_fixed m n (rw (ec, ed) at cd)))

fixed-div_mono :
    (a b c d : Fixed)
    → valid a ≡ true
    → valid b ≡ true
    → valid c ≡ true
    → valid d ≡ true
    → num 0 ≼ a
    → a ≼ b
    → num 0 ≺ d
    → d ≼ c
    → fixed_div a c ≼ fixed_div b d
fixed-div_mono a b c d va vb vc vd a0 ab d0 dc =
    let d_nonneg : num 0 ≼ d = ground arith in
    let (k, ea) = nonneg_form a va a0 in
    let (l, eb) = nonneg_form b vb (fixed_trans (num 0) a b a0 ab) in
    let (m, ec) = nonneg_form c vc (fixed_trans (num 0) d c d_nonneg dc) in
    let (n, ed) = nonneg_form d vd d_nonneg in
    rw (ea, eb, ec, ed)
      (div_pos_mono k l m n (le_of_fixed k l (rw (ea, eb) at ab)) (ground arith)
        (le_of_fixed n m (rw (ec, ed) at dc)))

fixed-num_mul : (m n : ℕ) → m * 1_000_000 * (n * 1_000_000) / 1_000_000 ≡ m * n * 1_000_000
fixed-num_mul m n = div-eq_of_eq-mul_left (omega arith) (omega arith)

fixed-num_div : (m n : ℕ) → 0 < n → m * n * 1_000_000 * 1_000_000 / (n * 1_000_000) ≡ m * 1_000_000
fixed-num_div m n p = div-eq_of_eq-mul_left (omega arith) (omega arith)

fixed-quarter_mul : (m n : ℕ) → m * 250_000 * (n * 250_000) / 1_000_000 ≡ m * n * 62_500
fixed-quarter_mul m n = div-eq_of_eq-mul_left (omega arith) (omega arith)

million_cancel : (n : ℕ) → n * 1_000_000 / 1_000_000 ≡ n
million_cancel n = div-eq_of_eq-mul_left (omega arith) (omega arith)

fixed-mul_one : (x : Fixed) → valid x ≡ true → fixed_mul x (fin (pos 1_000_000)) ≡ x
fixed-mul_one (fin (pos n)) v = ap (λ k. fin (pos k)) (million_cancel n)
fixed-mul_one (fin (negsuc n)) v = ground (arith, million_cancel (suc n))
fixed-mul_one (inf b) v = absurd (ground arith)
fixed-mul_one not_a_number v = absurd (ground arith)

shrink_pos :
    (a b : ℕ)
    → 1_000_000 ≤ b
    → (num 0 ≼ fixed_div (fin (pos a)) (fin (pos b)))
      × (fixed_div (fin (pos a)) (fin (pos b)) ≼ fin (pos a))
shrink_pos a b h =
    let less = div_pos_mono a a b 1_000_000 (le_refl a) (omega arith) h in
    ground (arith, less, million_cancel a)

fixed-div_shrink :
    (a b : Fixed)
    → valid a ≡ true
    → num 0 ≼ a
    → num 1 ≼ b
    → (num 0 ≼ fixed_div a b) × (fixed_div a b ≼ a)
fixed-div_shrink a (fin (pos n)) v h k =
    let (m, e) = nonneg_form a v h in rw (e) (shrink_pos m n (le_of_fixed 1_000_000 n k))
fixed-div_shrink a (fin (negsuc n)) v h k = absurd (ground arith)
fixed-div_shrink a (inf b) v h k = let (m, e) = nonneg_form a v h in rw (e) (ground arith)
fixed-div_shrink a not_a_number v h k = absurd (ground arith)

-- The fixed-point numbers satisfy every law that the proofs use.
pub fixed-Ieee : Ieee Fixed
fixed-Ieee = record {
  refl_of_le = λ x y h. ground arith;
  le_trans = fixed_trans;
  le_total = λ x y h k. ground arith;
  lit_mono = λ m n h. ground arith;
  lit_strict = λ m n h s. ground arith;
  lit_valid = λ n h. ground arith;
  squeeze = λ x y z h k p q. ground arith;
  add_mono = λ a b c d p q r s h k. ground arith;
  sub_mono = λ a b c d p q r s h k. ground arith;
  mul_mono = fixed-mul_mono;
  add_nonpos = λ a b v h. ground arith;
  add_comm = λ a b v w. ground arith;
  le_add = λ a b v h. ground arith;
  div_shrink = fixed-div_shrink;
  sub_le = λ a b v h. ground arith;
  sub_nonneg = λ a b v h. ground arith;
  sub_nonpos = λ a b v h. ground arith;
  mul_nonneg = λ a b v p h. ground arith;
  mul_nonpos = λ a b v p h. ground arith;
  div_nonneg = λ a b v p h. ground arith;
  log1p_nonneg = λ a h. ground arith;
  add_num = λ a b v h. ground arith;
  sub_num = λ a b v h. ground arith;
  mul_num = λ a b v w. ground arith;
  mul_shrink = λ a b v p h. ground arith;
  sub_bounded = λ a b v w p q. ground arith;
  div_bounded = λ a b v p h k. ground arith;
  add_close = λ m n h. ground arith;
  sub_close = λ m n h k. ground arith;
  mul_close = λ m n h k l. ground arith;
  div_close = λ m n p h k l. ground arith;
  div_mono = fixed-div_mono;
  num_add = λ m n s. ground arith;
  num_sub = λ m n h s. ground arith;
  num_mul = λ m n s p q. ap (λ k. fin (pos k)) (fixed-num_mul m n);
  mul_one = fixed-mul_one;
  quarter_mul = λ m n s t. ap (λ k. fin (pos k)) (fixed-quarter_mul m n);
  num_div = λ m n p s. ground (arith, fixed-num_div m n p);
}
