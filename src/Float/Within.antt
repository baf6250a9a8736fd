-- ===== src/Float/Within.antt =====
-- Interval arithmetic with bounds in millionths, for formulas whose constants are no whole numbers:
-- each step widens the interval by a rounding slack of at most two millionths.
use ai_trading_v.Prelude.{ℕ, ◌+◌, ◌-◌, ◌*◌, ◌/◌, ◌≤◌, ◌<◌, ◌≡◌, true, arith}
use ai_trading_v.Float.{Float64, lit, num, ◌⊕◌, ◌⊖◌, ◌⊗◌, ◌⊘◌, ◌≼◌, ◌≺◌, valid}
use ai_trading_v.Float.Laws.{Ieee, max_close, max_num}
use ai_trading_v.Float.Interval.{In}
use native.Mathlib.Nat.{mul-le-mul_right, le-div_iff_mul-le, le_refl}

pub record Within {F : Type 0} ⦃f : Float64 F⦄ (a b : ℕ) (x : F) : Type 0 where
  pub ordered : a ≤ b
  pub small : b < max_close
  pub lower : lit a ≼ x
  pub upper : x ≼ lit b

pub quotient_mono : (m n k : ℕ) → 0 < k → m ≤ n → m / k ≤ n / k
quotient_mono m n k p h =
    let floor = (le-div_iff_mul-le {x = m / k} {y = m} p).0 (le_refl _) in
    (le-div_iff_mul-le {x = m / k} {y = n} p).1 (omega arith)

module _ {F : Type 0} ⦃f : Float64 F⦄ (ieee : Ieee F) where
  open ieee use {
    le_trans, lit_mono, lit_strict, lit_valid, squeeze, add_mono, sub_mono, mul_mono, div_mono,
    add_close, sub_close, mul_close, div_close,
  }

  pub lit_lt : (m n : ℕ) → m < n → n < max_close → lit {F = F} m ≺ lit n
  lit_lt m n h s = rw (lit_mono m n (omega arith), lit_strict m n h (omega arith))

  pub Within-valid : {a b : ℕ} {x : F} → Within a b x → valid x ≡ true
  Within-valid {a} {b} {x} h =
      squeeze (lit a) x (lit b) h.lower h.upper (lit_valid a (omega arith))
        (lit_valid b (omega arith))

  pub Within-of_In :
      {a b : ℕ} {x : F} → In a b x → b < 1_000_000 → Within (a * 1_000_000) (b * 1_000_000) x
  Within-of_In h s = record {
    ordered = omega arith;
    small = omega arith;
    lower = h.lower;
    upper = h.upper;
  }

  pub In-of_Within :
      {a b : ℕ} {x : F} (c d : ℕ)
      → Within a b x
      → c * 1_000_000 ≤ a
      → b ≤ d * 1_000_000
      → d < max_num
      → In c d x
  In-of_Within {a} {b} {x} c d h p q s = record {
    ordered = omega arith;
    small = s;
    lower = le_trans (num c) (lit a) x (lit_mono (c * 1_000_000) a p) h.lower;
    upper = le_trans x (lit b) (num d) h.upper (lit_mono b (d * 1_000_000) q);
  }

  pub Within-add :
      {a b c d : ℕ} {x y : F}
      → Within a b x
      → Within c d y
      → b + d + 1 < max_close
      → Within (a + c - 1) (b + d + 1) (x ⊕ y)
  Within-add {a} {b} {c} {d} {x} {y} h k s =
      let va = lit_valid a (omega arith) in
      let vb = lit_valid b (omega arith) in
      let vc = lit_valid c (omega arith) in
      let vd = lit_valid d (omega arith) in
      let vx = Within-valid h in
      let vy = Within-valid k in
      record {
        ordered = omega arith;
        small = s;
        lower =
            le_trans _ (lit a ⊕ lit c) _ (add_close a c (omega arith)).0
              (add_mono (lit a) x (lit c) y va vx vc vy h.lower k.lower);
        upper =
            le_trans _ (lit b ⊕ lit d) _ (add_mono x (lit b) y (lit d) vx vb vy vd h.upper k.upper)
              (add_close b d (omega arith)).1;
      }

  pub Within-sub :
      {a b c d : ℕ} {x y : F}
      → Within a b x
      → Within c d y
      → d ≤ a
      → b + 1 < max_close
      → Within (a - d - 1) (b - c + 1) (x ⊖ y)
  Within-sub {a} {b} {c} {d} {x} {y} h k p s =
      let va = lit_valid a (omega arith) in
      let vb = lit_valid b (omega arith) in
      let vc = lit_valid c (omega arith) in
      let vd = lit_valid d (omega arith) in
      let vx = Within-valid h in
      let vy = Within-valid k in
      record {
        ordered = omega arith;
        small = omega arith;
        lower =
            le_trans _ (lit a ⊖ lit d) _ (sub_close a d p (omega arith)).0
              (sub_mono (lit a) x (lit d) y va vx vd vy h.lower k.upper);
        upper =
            le_trans _ (lit b ⊖ lit c) _ (sub_mono x (lit b) y (lit c) vx vb vy vc h.upper k.lower)
              (sub_close b c (omega arith) h.small).1;
      }

  pub Within-mul :
      {a b : ℕ} {x : F} (k : ℕ)
      → Within a b x
      → k < max_close
      → b * k / 1_000_000 + 2 < max_close
      → Within (a * k / 1_000_000 - 1) (b * k / 1_000_000 + 2) (x ⊗ lit k)
  Within-mul {a} {b} {x} k h t s =
      let va = lit_valid a (omega arith) in
      let vb = lit_valid b (omega arith) in
      let vk = lit_valid k (omega arith) in
      let vx = Within-valid h in
      let zero_le = lit_mono 0 a (omega arith) in
      let k_nonneg = lit_mono 0 k (omega arith) in
      let k_refl = lit_mono k k (omega arith) in
      let grows =
        quotient_mono (a * k) (b * k) 1_000_000 (omega arith) (mul-le-mul_right k h.ordered) in
      record {
        ordered = omega arith;
        small = s;
        lower =
            le_trans _ (lit a ⊗ lit k) _ (mul_close a k (omega arith) t (omega arith)).0
              (mul_mono (lit a) x (lit k) (lit k) va vx vk vk zero_le h.lower k_nonneg k_refl);
        upper =
            le_trans _ (lit b ⊗ lit k) _
              (mul_mono x (lit b) (lit k) (lit k) vx vb vk vk (le_trans _ _ _ zero_le h.lower)
                h.upper k_nonneg k_refl)
              (mul_close b k h.small t (omega arith)).1;
      }

  pub Within-div :
      {a b : ℕ} {x : F} (k : ℕ)
      → Within a b x
      → 0 < k
      → k < max_close
      → b * 1_000_000 / k + 2 < max_close
      → Within (a * 1_000_000 / k - 1) (b * 1_000_000 / k + 2) (x ⊘ lit k)
  Within-div {a} {b} {x} k h p t s =
      let va = lit_valid a (omega arith) in
      let vb = lit_valid b (omega arith) in
      let vk = lit_valid k (omega arith) in
      let vx = Within-valid h in
      let zero_le = lit_mono 0 a (omega arith) in
      let k_refl = lit_mono k k (omega arith) in
      let k_pos = lit_lt 0 k p t in
      let grows =
        quotient_mono (a * 1_000_000) (b * 1_000_000) k p (mul-le-mul_right 1_000_000 h.ordered) in
      record {
        ordered = omega arith;
        small = s;
        lower =
            le_trans _ (lit a ⊘ lit k) _ (div_close a k p (omega arith) t (omega arith)).0
              (div_mono (lit a) x (lit k) (lit k) va vx vk vk zero_le h.lower k_pos k_refl);
        upper =
            le_trans _ (lit b ⊘ lit k) _
              (div_mono x (lit b) (lit k) (lit k) vx vb vk vk (le_trans _ _ _ zero_le h.lower)
                h.upper k_pos k_refl)
              (div_close b k p h.small t (omega arith)).1;
      }
