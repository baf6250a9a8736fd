-- ===== src/Float.antt =====
-- Go's float64: its constants, operations and comparisons, over a type of values.
pub mod Laws
pub mod Interval
pub mod Within
pub mod Fixed
use ai_trading_v.Prelude.{ℕ, ◌*◌, ◌≡◌, Bool, true, not, ◌&&◌, if◌then◌else◌}

-- `lit n` is the float64 nearest to n millionths, which is how every constant of the source reads.
pub record Float64 (F : Type 0) : Type 0 where
  pub lit : ℕ → F
  pub nan : F
  pub is_inf : F → Bool
  pub le : F → F → Bool
  pub neg : F → F
  pub add : F → F → F
  pub sub : F → F → F
  pub mul : F → F → F
  pub div : F → F → F
  pub abs : F → F
  pub sqrt : F → F
  pub log : F → F
  pub log1p : F → F

module _ {F : Type 0} ⦃f : Float64 F⦄ where
  infixl 65 ◌⊕◌ ◌⊖◌
  infixl 70 ◌⊗◌ ◌⊘◌
  infix 50 ◌≤?◌ ◌<?◌ ◌=?◌
  infix 4 ◌≼◌ ◌≺◌
  abbrev pub lit : ℕ → F
  lit n = f.lit n

  -- The whole number `n`.
  abbrev pub num : ℕ → F
  num n = f.lit (n * 1_000_000)

  abbrev pub ◌⊕◌ : F → F → F
  x ⊕ y = f.add x y

  abbrev pub ◌⊖◌ : F → F → F
  x ⊖ y = f.sub x y

  abbrev pub ◌⊗◌ : F → F → F
  x ⊗ y = f.mul x y

  abbrev pub ◌⊘◌ : F → F → F
  x ⊘ y = f.div x y

  abbrev pub minus : F → F
  minus x = f.neg x

  -- `x <= y`; a comparison with NaN is false, so `x < y` and `x == y` follow from it.
  abbrev pub ◌≤?◌ : F → F → Bool
  x ≤? y = f.le x y

  abbrev pub ◌<?◌ : F → F → Bool
  x <? y = f.le x y && not (f.le y x)

  abbrev pub ◌=?◌ : F → F → Bool
  x =? y = f.le x y && f.le y x

  abbrev pub ◌≼◌ : F → F → Type 0
  x ≼ y = f.le x y ≡ true

  abbrev pub ◌≺◌ : F → F → Type 0
  x ≺ y = (x <? y) ≡ true

  -- math.IsNaN
  abbrev pub is_nan : F → Bool
  is_nan x = not (f.le x x)

  -- The agents' and the gate's `valid`: neither NaN nor infinite.
  abbrev pub valid : F → Bool
  valid x = not (is_nan x) && not (f.is_inf x)

  abbrev pub is_pos_inf : F → Bool
  is_pos_inf x = f.is_inf x && num 0 ≤? x

  abbrev pub is_neg_inf : F → Bool
  is_neg_inf x = f.is_inf x && x ≤? num 0

  -- math.Max and math.Min, up to the sign of a zero: an infinity on the winning side goes first,
  -- then NaN.
  abbrev pub fmax : F → F → F
  fmax x y =
      if is_pos_inf x
      then x
      else if is_pos_inf y
      then y
      else if is_nan x
      then x
      else if is_nan y
      then y
      else if y ≤? x
      then x
      else y

  abbrev pub fmin : F → F → F
  fmin x y =
      if is_neg_inf x
      then x
      else if is_neg_inf y
      then y
      else if is_nan x
      then x
      else if is_nan y
      then y
      else if x ≤? y
      then x
      else y

  -- `if x > hi { x = hi }; if x < 0 { x = 0 }`
  abbrev pub cap : F → F → F
  cap hi x = if hi <? x then hi else x

  abbrev pub floor_at : F → F → F
  floor_at lo x = if x <? lo then lo else x

  abbrev pub clamp : F → F → F
  clamp hi x = floor_at (num 0) (cap hi x)
