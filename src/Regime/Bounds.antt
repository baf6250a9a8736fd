-- ===== src/Regime/Bounds.antt =====
-- The ranges of the regime score, and which regimes are labelled (internal/agent/regime/scorer.go).
use ai_trading_v.Prelude.{ℕ, ◌+◌, ◌-◌, ◌*◌, ◌/◌, ◌≤◌, ◌<◌, ◌≡◌, ◌⊎◌, true, false, arith}
use ai_trading_v.Float.{Float64, lit, num, ◌⊕◌, ◌⊖◌, ◌⊗◌, ◌⊘◌, ◌≼◌, ◌≺◌, valid}
use ai_trading_v.Float.Laws.{Ieee, max_close}
use ai_trading_v.Float.Interval.{
  In, num-valid, num_mono, num_lt, le_of_not_le, In-num, In-add, In-sub, In-mul, In-div, In-clamp,
  In-const, In-tested, In_self,
}
use ai_trading_v.Float.Within.{
  Within, Within-of_In, In-of_Within, Within-add, Within-sub, Within-mul, Within-div,
}
use ai_trading_v.Regime.{
  Input, Score, calc_trend_score, atr_ladder, calc_vol_from_atr, calc_vol_from_feature,
  classify_regime, calculate,
}

module _ {F : Type 0} ⦃f : Float64 F⦄ where
  -- The ranges of a regime score and of its parts.
  pub record InRange (s : Score F) : Type 0 where
    pub trend_in : In 0 50 s.components.trend_score
    pub vol_in : In 0 50 s.components.vol_score
    pub total_in : In 0 100 s.regime_score

module _ {F : Type 0} ⦃f : Float64 F⦄ (ieee : Ieee F) where
  open ieee use {refl_of_le, le_trans, le_total, lit_valid, lit_mono, mul_nonneg, div_nonneg}

  const : (n : ℕ) → n ≤ 50 → In 0 50 (num {F = F} n)
  const n h = In-const ieee 0 50 n (omega arith) h (omega arith)

  trend_ramp : (adx : F) → num 20 ≼ adx → adx ≼ num 35 → In 0 50 ((adx ⊖ num 20) ⊘ num 15 ⊗ num 50)
  trend_ramp adx h k =
      let r = In-tested ieee 20 35 h k (omega arith) (omega arith) in
      let shifted = In-sub ieee r (In-num ieee 20 (omega arith)) (omega arith) in
      let ratio =
        In-div ieee 0 1 15 shifted (omega arith) (omega arith) (omega arith) (omega arith) in
      In-mul ieee 50 ratio (omega arith) (omega arith)

  calc_trend_score-In : (adx : F) → In 0 50 (calc_trend_score adx)
  unfolding calc_trend_score
  calc_trend_score-In adx = ground (
    arith,
    const 0 (omega arith),
    const 25 (omega arith),
    const 50 (omega arith),
    trend_ramp adx,
    le_total adx (num 35),
    le_total adx (num 20),
    num_mono ieee 20 20 (omega arith),
    num_mono ieee 35 35 (omega arith),
  )

  -- A value between two literals, on the ramp `(x - lo) / width * scale`.
  ramp :
      {x : F} {lo hi : ℕ} (width scale : ℕ)
      → Within lo hi x
      → 0 < width
      → width < max_close
      → scale < 1_000_000
      → (hi - lo + 1) * 1_000_000 / width + 2 < max_close
      → ((hi - lo + 1) * 1_000_000 / width + 2) * (scale * 1_000_000) / 1_000_000 + 2 < max_close
      → hi + 1 < max_close
      → Within 0
          (((hi - lo + 1) * 1_000_000 / width + 2) * (scale * 1_000_000) / 1_000_000 + 2)
          ((x ⊖ lit lo) ⊘ lit width ⊗ num scale)
  ramp {x} {lo} {hi} width scale r p w c q t s =
      let l : Within lo lo (lit {F = F} lo) = record {
        ordered = omega arith;
        small = omega arith;
        lower = lit_mono lo lo (omega arith);
        upper = lit_mono lo lo (omega arith);
      } in
      let shifted = Within-sub ieee r l (omega arith) s in
      let ratio = Within-div ieee width shifted p w q in
      let product = Within-mul ieee (scale * 1_000_000) ratio (omega arith) t in
      record {
        ordered = omega arith;
        small = t;
        lower = le_trans _ _ _ (lit_mono 0 _ (omega arith)) product.lower;
        upper = product.upper;
      }

  rising :
      {x : F} {b : ℕ} (base : ℕ)
      → base ≤ 25
      → b < 25_000_000
      → Within 0 b x
      → In 0 50 (num base ⊕ x)
  rising base p q r =
      let start = Within-of_In ieee (In-num ieee base (omega arith)) (omega arith) in
      In-of_Within ieee 0 50 (Within-add ieee start r (omega arith)) (omega arith) (omega arith)
        (omega arith)

  falling :
      {x : F} {b : ℕ} (base : ℕ)
      → base ≤ 45
      → b ≤ base * 1_000_000
      → Within 0 b x
      → In 0 50 (num base ⊖ x)
  falling base p q r =
      let start = Within-of_In ieee (In-num ieee base (omega arith)) (omega arith) in
      In-of_Within ieee 0 50 (Within-sub ieee start r q (omega arith)) (omega arith) (omega arith)
        (omega arith)

  tested : {x : F} (lo hi : ℕ) → lit lo ≼ x → x ≼ lit hi → lo ≤ hi → hi < max_close → Within lo hi x
  tested lo hi h k o s = record { ordered = o; small = s; lower = h; upper = k }

  atr_ladder-In : (x : F) → x ≼ x → In 0 50 (atr_ladder x)
  unfolding atr_ladder
  atr_ladder-In x n =
      let low = λ (h : lit 500_000 ≼ x) (k : x ≼ lit 1_500_000).
        rising 5 (omega arith) (omega arith) (
          ramp 1_000_000 20 (tested 500_000 1_500_000 h k (omega arith) (omega arith)) (omega arith)
            (omega arith) (omega arith) (omega arith) (omega arith) (omega arith)) in
      let middle = λ (h : lit 1_500_000 ≼ x) (k : x ≼ lit 3_000_000).
        rising 25 (omega arith) (omega arith) (
          ramp 1_500_000 20 (tested 1_500_000 3_000_000 h k (omega arith) (omega arith))
            (omega arith) (omega arith) (omega arith) (omega arith) (omega arith) (omega arith)) in
      let high = λ (h : lit 3_000_000 ≼ x) (k : x ≼ lit 5_000_000).
        falling 45 (omega arith) (omega arith) (
          ramp 2_000_000 20 (tested 3_000_000 5_000_000 h k (omega arith) (omega arith))
            (omega arith) (omega arith) (omega arith) (omega arith) (omega arith) (omega arith)) in
      ground (
        arith,
        low,
        middle,
        high,
        const 5 (omega arith),
        const 15 (omega arith),
        le_total x (lit 500_000),
        le_total x (lit 1_500_000),
        le_total x (num 3),
        le_total x (num 5),
        lit_mono 500_000 500_000 (omega arith),
        lit_mono 1_500_000 1_500_000 (omega arith),
        lit_mono 3_000_000 3_000_000 (omega arith),
        lit_mono 5_000_000 5_000_000 (omega arith),
      )

  calc_vol_from_atr-In : (atr price : F) → In 0 50 (calc_vol_from_atr atr price)
  unfolding calc_vol_from_atr
  calc_vol_from_atr-In atr price =
      let v100 = num-valid ieee 100 (omega arith) in
      let pos100 = num_lt ieee 0 100 (omega arith) (omega arith) in
      let v0 = num-valid ieee 0 (omega arith) in
      let ladder = λ (v : valid price ≡ true) (p : num 0 ≺ price) (h : num 0 ≼ atr).
        atr_ladder-In (atr ⊘ price ⊗ num 100)
          (refl_of_le _ _
            (mul_nonneg (atr ⊘ price) (num 100) v100 pos100 (div_nonneg atr price v p h))).1 in
      ground (
        arith,
        const 25 (omega arith),
        ladder,
        le_of_not_le ieee price (num 0),
        le_of_not_le ieee atr (num 0),
        v0,
      )

  calc_vol_from_feature-In : (x : F) → In 0 50 (calc_vol_from_feature x)
  unfolding calc_vol_from_feature
  calc_vol_from_feature-In x =
      let low = λ (h : lit 300_000 ≼ x) (k : x ≼ lit 1_000_000).
        rising 5 (omega arith) (omega arith) (
          ramp 700_000 20 (tested 300_000 1_000_000 h k (omega arith) (omega arith)) (omega arith)
            (omega arith) (omega arith) (omega arith) (omega arith) (omega arith)) in
      let middle = λ (h : lit 1_000_000 ≼ x) (k : x ≼ lit 2_500_000).
        rising 25 (omega arith) (omega arith) (
          ramp 1_500_000 20 (tested 1_000_000 2_500_000 h k (omega arith) (omega arith))
            (omega arith) (omega arith) (omega arith) (omega arith) (omega arith) (omega arith)) in
      let high = λ (h : lit 2_500_000 ≼ x) (k : x ≼ lit 4_000_000).
        falling 45 (omega arith) (omega arith) (
          ramp 1_500_000 15 (tested 2_500_000 4_000_000 h k (omega arith) (omega arith))
            (omega arith) (omega arith) (omega arith) (omega arith) (omega arith) (omega arith)) in
      ground (
        arith,
        low,
        middle,
        high,
        const 5 (omega arith),
        const 20 (omega arith),
        const 25 (omega arith),
        le_total x (lit 300_000),
        le_total x (num 1),
        le_total x (lit 2_500_000),
        le_total x (num 4),
        lit_mono 300_000 300_000 (omega arith),
        lit_mono 1_000_000 1_000_000 (omega arith),
        lit_mono 2_500_000 2_500_000 (omega arith),
        lit_mono 4_000_000 4_000_000 (omega arith),
      )

  -- For every input at all the regime score is a number from 0 to 100, and its two parts are numbers
  -- from 0 to 50.
  pub regime_score-InRange : (input : Input F) → InRange (calculate input)
  unfolding calculate
  regime_score-InRange input =
      let t = calc_trend_score-In input.adx14 in
      let both =
        In-add ieee (calc_vol_from_atr-In input.atr14 input.price)
          (calc_vol_from_feature-In input.volatility) (omega arith) in
      let v = In-div ieee 0 50 2 both (omega arith) (omega arith) (omega arith) (omega arith) in
      let sum = In-add ieee t v (omega arith) in
      ground (
        arith,
        const 25 (omega arith),
        In-const ieee 0 100 50 (omega arith) (omega arith) (omega arith),
        v,
        In-clamp ieee 100 _ (In_self ieee sum) (omega arith),
      )

module _ {F : Type 0} ⦃f : Float64 F⦄ where
  -- What the label says of the trend strength and of the volatility score.
  pub Labelled : Input F → Score F → Type 0
  Labelled input s =
      let adx = input.adx14 in
      let vol = s.components.vol_score in
      ((s.regime ≡ "unknown") × (valid adx ≡ false))
      ⊎ ((s.regime ≡ "trending_high_vol") × (valid adx ≡ true) × (num 25 ≼ adx) × (num 25 ≼ vol))
      ⊎ ((s.regime ≡ "trending_low_vol") × (valid adx ≡ true) × (num 25 ≼ adx) × ¬ (num 25 ≼ vol))
      ⊎ ((s.regime ≡ "ranging_high_vol") × (valid adx ≡ true) × ¬ (num 25 ≼ adx) × (num 25 ≼ vol))
      ⊎ ((s.regime ≡ "ranging_low_vol") × (valid adx ≡ true) × ¬ (num 25 ≼ adx) × ¬ (num 25 ≼ vol))

  -- The label is one of five, and each says what it names: "unknown" that the ADX is NaN or infinite
  -- (whatever the other inputs are), "trending" that it is 25 or more, "high_vol" that the volatility
  -- score is 25 or more.
  pub regime-Labelled : (input : Input F) → Labelled input (calculate input)
  unfolding Labelled calculate classify_regime
  regime-Labelled input = ground arith
