-- ===== src/Float/Laws.antt =====
-- What the proofs use of IEEE 754 binary64 arithmetic with rounding to nearest: the order away from
-- NaN, monotone rounding on finite values, and exact arithmetic on whole numbers below 2^53.
use ai_trading_v.Prelude.{ℕ, ◌+◌, ◌-◌, ◌*◌, ◌/◌, ◌≤◌, ◌<◌, ◌≡◌, ◌⊎◌, true, false}
use ai_trading_v.Float.{Float64, lit, num, minus, ◌⊕◌, ◌⊖◌, ◌⊗◌, ◌⊘◌, ◌≤?◌, ◌≼◌, ◌≺◌, valid}

-- Every literal below this many millionths has at most 15 digits, so distinct ones stay distinct.
abbrev pub max_lit : ℕ
max_lit = 1_000_000_000_000_000

-- Whole numbers below this are literals in that range, and far below 2^53.
abbrev pub max_num : ℕ
max_num = 1_000_000_000

abbrev pub max_close : ℕ
max_close = 1_000_000_000_000

pub record Ieee (F : Type 0) ⦃f : Float64 F⦄ : Type 0 where
  pub refl_of_le : (x y : F) → x ≼ y → (x ≼ x) × (y ≼ y)
  pub le_trans : (x y z : F) → x ≼ y → y ≼ z → x ≼ z
  pub le_total : (x y : F) → x ≼ x → y ≼ y → (x ≼ y) ⊎ (y ≼ x)
  pub lit_mono : (m n : ℕ) → m ≤ n → lit {F = F} m ≼ lit n
  pub lit_strict : (m n : ℕ) → m < n → n < max_lit → (lit {F = F} n ≤? lit m) ≡ false
  pub lit_valid : (n : ℕ) → n < max_lit → valid (lit {F = F} n) ≡ true
  pub squeeze : (x y z : F) → x ≼ y → y ≼ z → valid x ≡ true → valid z ≡ true → valid y ≡ true
  pub add_mono :
      (a b c d : F)
      → valid a ≡ true
      → valid b ≡ true
      → valid c ≡ true
      → valid d ≡ true
      → a ≼ b
      → c ≼ d
      → a ⊕ c ≼ b ⊕ d
  pub sub_mono :
      (a b c d : F)
      → valid a ≡ true
      → valid b ≡ true
      → valid c ≡ true
      → valid d ≡ true
      → a ≼ b
      → d ≼ c
      → a ⊖ c ≼ b ⊖ d
  pub mul_mono :
      (a b c d : F)
      → valid a ≡ true
      → valid b ≡ true
      → valid c ≡ true
      → valid d ≡ true
      → num 0 ≼ a
      → a ≼ b
      → num 0 ≼ c
      → c ≼ d
      → a ⊗ c ≼ b ⊗ d
  pub div_mono :
      (a b c d : F)
      → valid a ≡ true
      → valid b ≡ true
      → valid c ≡ true
      → valid d ≡ true
      → num 0 ≼ a
      → a ≼ b
      → num 0 ≺ d
      → d ≼ c
      → a ⊘ c ≼ b ⊘ d
  pub num_add : (m n : ℕ) → m + n < max_num → num {F = F} m ⊕ num n ≡ num (m + n)
  pub num_sub : (m n : ℕ) → n ≤ m → m < max_num → num {F = F} m ⊖ num n ≡ num (m - n)
  pub num_mul :
      (m n : ℕ) → m * n < max_num → m < max_num → n < max_num → num {F = F} m ⊗ num n ≡ num (m * n)
  pub num_div : (m n : ℕ) → 0 < n → m * n < max_num → num {F = F} (m * n) ⊘ num n ≡ num m
  pub mul_one : (x : F) → valid x ≡ true → x ⊗ num 1 ≡ x
  pub quarter_mul :
      (m n : ℕ)
      → m < 1000
      → n < 1000
      → lit {F = F} (m * 250_000) ⊗ lit (n * 250_000) ≡ lit (m * n * 62_500)
  -- Signs, infinite operands included where no NaN can arise.
  pub add_nonpos : (a b : F) → valid a ≡ true → b ≼ num 0 → a ⊕ b ≼ a
  pub add_comm : (a b : F) → valid a ≡ true → valid b ≡ true → a ⊕ b ≡ b ⊕ a
  pub le_add : (a b : F) → valid a ≡ true → num 0 ≼ b → a ≼ a ⊕ b
  pub sub_le : (a b : F) → valid a ≡ true → num 0 ≼ b → a ⊖ b ≼ a
  pub sub_nonneg : (a b : F) → valid b ≡ true → b ≼ a → num 0 ≼ a ⊖ b
  pub sub_nonpos : (a b : F) → valid a ≡ true → a ≼ b → a ⊖ b ≼ num 0
  pub mul_nonneg : (a b : F) → valid b ≡ true → num 0 ≺ b → num 0 ≼ a → num 0 ≼ a ⊗ b
  pub mul_nonpos :
      (a b : F) → valid a ≡ true → num 0 ≺ a → b ≼ num 0 → (a ⊗ b ≼ num 0) × (b ⊗ a ≼ num 0)
  pub div_nonneg : (a b : F) → valid b ≡ true → num 0 ≺ b → num 0 ≼ a → num 0 ≼ a ⊘ b
  pub div_shrink :
      (a b : F) → valid a ≡ true → num 0 ≼ a → num 1 ≼ b → (num 0 ≼ a ⊘ b) × (a ⊘ b ≼ a)
  pub log1p_nonneg : (a : F) → num 0 ≼ a → num 0 ≼ f.log1p a
  -- Where no NaN and no overflow can arise.
  pub add_num : (a b : F) → valid a ≡ true → b ≼ b → (a ⊕ b ≼ a ⊕ b) × (b ⊕ a ≼ b ⊕ a)
  pub sub_num : (a b : F) → valid a ≡ true → b ≼ b → a ⊖ b ≼ a ⊖ b
  pub mul_num : (a b : F) → valid a ≡ true → valid b ≡ true → a ⊗ b ≼ a ⊗ b
  pub mul_shrink : (a b : F) → valid a ≡ true → num 0 ≼ b → b ≼ num 1 → valid (a ⊗ b) ≡ true
  pub sub_bounded :
      (a b : F)
      → valid a ≡ true
      → valid b ≡ true
      → num 0 ≼ a
      → num 0 ≼ b
      → (valid (b ⊖ a) ≡ true) × (b ⊖ a ≼ a ⊕ b) × (minus (a ⊕ b) ≼ b ⊖ a)
  pub div_bounded :
      (a b : F) → valid a ≡ true → num 0 ≺ b → a ≼ b → minus b ≼ a → valid (a ⊘ b) ≡ true
  -- Arithmetic on literals of at most a million is exact to two millionths.
  pub add_close :
      (m n : ℕ)
      → m + n < max_close
      → (lit {F = F} (m + n - 1) ≼ lit m ⊕ lit n) × (lit {F = F} m ⊕ lit n ≼ lit (m + n + 1))
  pub sub_close :
      (m n : ℕ)
      → n ≤ m
      → m < max_close
      → (lit {F = F} (m - n - 1) ≼ lit m ⊖ lit n) × (lit {F = F} m ⊖ lit n ≼ lit (m - n + 1))
  pub mul_close :
      (m n : ℕ)
      → m < max_close
      → n < max_close
      → m * n / 1_000_000 < max_close
      → (lit {F = F} (m * n / 1_000_000 - 1) ≼ lit m ⊗ lit n)
        × (lit {F = F} m ⊗ lit n ≼ lit (m * n / 1_000_000 + 2))
  pub div_close :
      (m n : ℕ)
      → 0 < n
      → m < max_close
      → n < max_close
      → m * 1_000_000 / n < max_close
      → (lit {F = F} (m * 1_000_000 / n - 1) ≼ lit m ⊘ lit n)
        × (lit {F = F} m ⊘ lit n ≼ lit (m * 1_000_000 / n + 2))
