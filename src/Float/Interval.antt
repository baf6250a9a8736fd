-- ===== src/Float/Interval.antt =====
-- Interval arithmetic with whole bounds: what the scorers' formulas stay between.
use ai_trading_v.Prelude.{ℕ, ◌+◌, ◌-◌, ◌*◌, ◌≤◌, ◌<◌, ◌≡◌, true, false, arith}
use ai_trading_v.Float.{
  Float64, num, ◌⊕◌, ◌⊖◌, ◌⊗◌, ◌⊘◌, ◌≤?◌, ◌≼◌, ◌≺◌, valid, cap, clamp, floor_at,
}
use ai_trading_v.Float.Laws.{Ieee, max_num}

-- `x` is a number from `a` to `b`.
pub record In {F : Type 0} ⦃f : Float64 F⦄ (a b : ℕ) (x : F) : Type 0 where
  pub ordered : a ≤ b
  pub small : b < max_num
  pub lower : num a ≼ x
  pub upper : x ≼ num b

module _ {F : Type 0} ⦃f : Float64 F⦄ (ieee : Ieee F) where
  open ieee use {
    refl_of_le, le_trans, le_total, lit_mono, lit_strict, lit_valid, squeeze, add_mono, sub_mono,
    mul_mono, div_mono, num_add, num_sub, num_mul, num_div,
  }

  pub num-valid : (n : ℕ) → n < max_num → valid (num {F = F} n) ≡ true
  num-valid n h = lit_valid (n * 1_000_000) (omega arith)

  pub num_mono : (m n : ℕ) → m ≤ n → num {F = F} m ≼ num n
  num_mono m n h = lit_mono (m * 1_000_000) (n * 1_000_000) (omega arith)

  pub num_lt : (m n : ℕ) → m < n → n < max_num → num {F = F} m ≺ num n
  num_lt m n h s =
      rw (num_mono m n (omega arith))
        (rw (lit_strict (m * 1_000_000) (n * 1_000_000) (omega arith) (omega arith)))

  pub le_of_not_le : (x y : F) → valid x ≡ true → valid y ≡ true → (x ≤? y) ≡ false → y ≼ x
  le_of_not_le x y vx vy h = ground (arith, le_total x y)

  pub In-valid : {a b : ℕ} {x : F} → In a b x → valid x ≡ true
  In-valid {a} {b} {x} h =
      squeeze (num a) x (num b) h.lower h.upper (num-valid a (omega arith)) (num-valid b h.small)

  pub In-num : (n : ℕ) → n < max_num → In n n (num {F = F} n)
  In-num n h = record {
    ordered = omega arith;
    small = h;
    lower = num_mono n n (omega arith);
    upper = num_mono n n (omega arith);
  }

  -- The exact result of a rounded operation on whole bounds bounds the operation.
  pub In-add :
      {a b c d : ℕ} {x y : F} → In a b x → In c d y → b + d < max_num → In (a + c) (b + d) (x ⊕ y)
  In-add {a} {b} {c} {d} {x} {y} h k s =
      let va = num-valid a (omega arith) in
      let vb = num-valid b (omega arith) in
      let vc = num-valid c (omega arith) in
      let vd = num-valid d (omega arith) in
      let vx = In-valid h in
      let vy = In-valid k in
      record {
        ordered = omega arith;
        small = s;
        lower =
            rw (← num_add a c (omega arith))
              (add_mono (num a) x (num c) y va vx vc vy h.lower k.lower);
        upper = rw (← num_add b d s) (add_mono x (num b) y (num d) vx vb vy vd h.upper k.upper);
      }

  pub In-sub : {a b c d : ℕ} {x y : F} → In a b x → In c d y → d ≤ a → In (a - d) (b - c) (x ⊖ y)
  In-sub {a} {b} {c} {d} {x} {y} h k s =
      let va = num-valid a (omega arith) in
      let vb = num-valid b (omega arith) in
      let vc = num-valid c (omega arith) in
      let vd = num-valid d (omega arith) in
      let vx = In-valid h in
      let vy = In-valid k in
      record {
        ordered = omega arith;
        small = omega arith;
        lower =
            rw (← num_sub a d s (omega arith))
              (sub_mono (num a) x (num d) y va vx vd vy h.lower k.upper);
        upper =
            rw (← num_sub b c (omega arith) (omega arith))
              (sub_mono x (num b) y (num c) vx vb vy vc h.upper k.lower);
      }

  -- Multiplication by a whole constant.
  pub In-mul :
      {a b : ℕ} {x : F} (k : ℕ)
      → In a b x
      → b * k < max_num
      → k < max_num
      → In (a * k) (b * k) (x ⊗ num k)
  In-mul {a} {b} {x} k h s t =
      let va = num-valid a (omega arith) in
      let vb = num-valid b (omega arith) in
      let vk = num-valid k t in
      let vx = In-valid h in
      let zero_le = num_mono 0 a (omega arith) in
      let mul_le : a * k ≤ b * k = grind arith in
      record {
        ordered = mul_le;
        small = s;
        lower = rw (← num_mul a k (omega arith) (omega arith) t) (
            mul_mono (num a) x (num k) (num k) va vx vk vk zero_le h.lower
              (num_mono 0 k (omega arith)) (num_mono k k (omega arith)));
        upper = rw (← num_mul b k s (omega arith) t) (
            mul_mono x (num b) (num k) (num k) vx vb vk vk (le_trans _ _ _ zero_le h.lower) h.upper
              (num_mono 0 k (omega arith)) (num_mono k k (omega arith)));
      }

  -- Division by a whole constant that divides the bounds.
  pub In-div :
      {x : F} (a b k : ℕ)
      → In (a * k) (b * k) x
      → a ≤ b
      → b < max_num
      → 0 < k
      → k < max_num
      → In a b (x ⊘ num k)
  In-div {x} a b k h o s p t =
      let va = num-valid (a * k) (omega arith) in
      let vb = num-valid (b * k) (omega arith) in
      let vk = num-valid k t in
      let vx = In-valid h in
      let zero_le = num_mono 0 (a * k) (omega arith) in
      let k_le = num_mono k k (omega arith) in
      let k_pos = num_lt 0 k p t in
      record {
        ordered = o;
        small = s;
        lower =
            rw (← num_div a k p (omega arith))
              (div_mono (num (a * k)) x (num k) (num k) va vx vk vk zero_le h.lower k_pos k_le);
        upper = rw (← num_div b k p h.small) (
            div_mono x (num (b * k)) (num k) (num k) vx vb vk vk (le_trans _ _ _ zero_le h.lower)
              h.upper k_pos k_le);
      }

  pub In-widen : {a b : ℕ} {x : F} (c d : ℕ) → In a b x → c ≤ a → b ≤ d → d < max_num → In c d x
  In-widen {a} {b} {x} c d h p q s = record {
    ordered = omega arith;
    small = s;
    lower = le_trans (num c) (num a) x (num_mono c a p) h.lower;
    upper = le_trans x (num b) (num d) h.upper (num_mono b d q);
  }

  -- A number, however large, is clamped into the interval.
  pub In-clamp : (c : ℕ) (x : F) → x ≼ x → c < max_num → In 0 c (clamp (num c) x)
  In-clamp c x n s = record {
    ordered = omega arith;
    small = s;
    lower =
        ground
          (arith, le_total x (num c), le_total x (num 0), num_mono 0 c, num_mono c c, num_mono 0 0);
    upper =
        ground
          (arith, le_total x (num c), le_total x (num 0), num_mono 0 c, num_mono c c, num_mono 0 0);
  }

  -- Raised to its floor, a value above the floor's interval keeps its upper end.
  pub In-floor_at :
      {b : ℕ} {x : F} (c : ℕ)
      → x ≼ x
      → x ≼ num b
      → c ≤ b
      → b < max_num
      → In c b (floor_at (num c) x)
  In-floor_at {b} {x} c n u p s = record {
    ordered = p;
    small = s;
    lower = ground (arith, le_total x (num c), num_mono c b, num_mono c c);
    upper = ground (arith, le_total x (num c), num_mono c b, num_mono c c);
  }

  pub In_self : {a b : ℕ} {x : F} → In a b x → x ≼ x
  In_self h = (refl_of_le _ _ h.lower).1

  pub In-cap : {a b : ℕ} {x : F} → In a b x → In a b (cap (num b) x)
  In-cap h = record {
    ordered = h.ordered;
    small = h.small;
    lower = ground (arith, h.lower, h.upper);
    upper = ground (arith, h.lower, h.upper);
  }

  -- A whole constant inside the interval.
  pub In-const : (a b n : ℕ) → a ≤ n → n ≤ b → b < max_num → In a b (num {F = F} n)
  In-const a b n p q s = In-widen a b (In-num n (omega arith)) p q s

  -- A value that passed the tests of both ends.
  pub In-tested : {x : F} (a b : ℕ) → num a ≼ x → x ≼ num b → a ≤ b → b < max_num → In a b x
  In-tested a b p q o s = record { ordered = o; small = s; lower = p; upper = q }

module _ {F : Type 0} ⦃f : Float64 F⦄ (ieee : Ieee F) where
  open ieee use {le_trans, lit_mono, lit_strict}

  pub above_zero : (x : F) → num 1 ≼ x → num 0 ≺ x
  above_zero x h =
      let strict = lit_strict 0 1_000_000 (omega arith) (omega arith) in
      let up = le_trans (num 0) (num 1) x (lit_mono 0 1_000_000 (omega arith)) h in
      let back = λ (down : x ≼ num 0). le_trans (num 1) x (num 0) h down in
      ground (arith, strict, up, back)
