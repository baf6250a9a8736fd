-- ===== src/Technical/Bounds.antt =====
-- The ranges of the technical score and its components (internal/agent/technical/scorer.go).
use ai_trading_v.Prelude.{ℕ, ◌≤◌, ◌<◌, ◌≡◌, true, arith}
use ai_trading_v.Float.{Float64, num, ◌⊕◌, ◌⊖◌, ◌⊗◌, ◌⊘◌, ◌≼◌, ◌≺◌, valid, clamp, floor_at}
use ai_trading_v.Float.Laws.{Ieee, max_num}
use ai_trading_v.Float.Interval.{
  In, num-valid, num_lt, le_of_not_le, In-num, In-add, In-sub, In-mul, In-div, In-widen, In-clamp,
  In-floor_at, In-cap, In-const, In-tested, In_self,
}
use ai_trading_v.Technical.{
  Input, Score, trend_base, alignment, calc_trend, calc_momentum, calc_volume, calc_volatility,
  calc_adx_bonus, calculate,
}

module _ {F : Type 0} ⦃f : Float64 F⦄ where
  -- The ranges of a score and of its parts.
  pub record InRange (s : Score F) : Type 0 where
    pub trend_in : In 0 35 s.components.trend
    pub momentum_in : In 0 30 s.components.momentum
    pub volume_in : In 0 20 s.components.volume
    pub volatility_in : In 0 10 s.components.volatility
    pub adx_in : In 0 10 s.components.adx_bonus
    pub total_in : In 0 100 s.technical_score

module _ {F : Type 0} ⦃f : Float64 F⦄ (ieee : Ieee F) where
  open ieee use {
    refl_of_le, le_trans, le_total, sub_le, sub_nonneg, mul_nonneg, div_nonneg, log1p_nonneg,
  }

  const : (a b n : ℕ) → a ≤ n → n ≤ b → b < max_num → In a b (num {F = F} n)
  const a b n p q s = In-const ieee a b n p q s

  trend_base-In : (price e20 e50 e200 : F) → In 0 30 (trend_base price e20 e50 e200)
  unfolding trend_base
  trend_base-In price e20 e50 e200 =
      let k30 = const 0 30 30 (omega arith) (omega arith) (omega arith) in
      let k25 = const 0 30 25 (omega arith) (omega arith) (omega arith) in
      let k20 = const 0 30 20 (omega arith) (omega arith) (omega arith) in
      let k15 = const 0 30 15 (omega arith) (omega arith) (omega arith) in
      let k10 = const 0 30 10 (omega arith) (omega arith) (omega arith) in
      let k0 = const 0 30 0 (omega arith) (omega arith) (omega arith) in ground arith

  alignment-In : (e20 e50 e200 : F) → In 0 5 (alignment e20 e50 e200)
  unfolding alignment
  alignment-In e20 e50 e200 =
      let k5 = const 0 5 5 (omega arith) (omega arith) (omega arith) in
      let k0 = const 0 5 0 (omega arith) (omega arith) (omega arith) in ground arith

  calc_trend-In : (input : Input F) → In 0 35 (calc_trend input)
  unfolding calc_trend
  calc_trend-In input =
      let none_ = const 0 35 0 (omega arith) (omega arith) (omega arith) in
      let sum = In-cap ieee (
        In-add ieee (trend_base-In input.price input.ema20 input.ema50 input.ema200)
          (alignment-In input.ema20 input.ema50 input.ema200) (omega arith)) in
      ground (arith, none_, sum)

  calc_volatility-In : (atr price : F) → In 0 10 (calc_volatility atr price)
  unfolding calc_volatility
  calc_volatility-In atr price =
      let k0 = const 0 10 0 (omega arith) (omega arith) (omega arith) in
      let k3 = const 0 10 3 (omega arith) (omega arith) (omega arith) in
      let k4 = const 0 10 4 (omega arith) (omega arith) (omega arith) in
      let k5 = const 0 10 5 (omega arith) (omega arith) (omega arith) in
      let k7 = const 0 10 7 (omega arith) (omega arith) (omega arith) in
      let k10 = const 0 10 10 (omega arith) (omega arith) (omega arith) in ground arith

  calc_adx_bonus-In : (adx : F) → In 0 10 (calc_adx_bonus adx)
  unfolding calc_adx_bonus
  calc_adx_bonus-In adx =
      let k0 = const 0 10 0 (omega arith) (omega arith) (omega arith) in
      let k3 = const 0 10 3 (omega arith) (omega arith) (omega arith) in
      let k7 = const 0 10 7 (omega arith) (omega arith) (omega arith) in
      let k10 = const 0 10 10 (omega arith) (omega arith) (omega arith) in ground arith

  -- The sweet spot, 45 to 65, and the two ramps beside it.
  momentum_mid :
      (rsi : F) → num 45 ≼ rsi → rsi ≼ num 65 → In 0 30 (num 22 ⊕ (rsi ⊖ num 45) ⊘ num 20 ⊗ num 8)
  momentum_mid rsi h k =
      let r = In-tested ieee 45 65 h k (omega arith) (omega arith) in
      let shifted = In-sub ieee r (In-num ieee 45 (omega arith)) (omega arith) in
      let ratio =
        In-div ieee 0 1 20 shifted (omega arith) (omega arith) (omega arith) (omega arith) in
      let ramp = In-mul ieee 8 ratio (omega arith) (omega arith) in
      let sum = In-add ieee (In-num ieee 22 (omega arith)) ramp (omega arith) in
      In-widen ieee 0 30 sum (omega arith) (omega arith) (omega arith)

  momentum_weak :
      (rsi : F) → num 30 ≼ rsi → rsi ≼ num 45 → In 0 30 (num 15 ⊕ (rsi ⊖ num 30) ⊘ num 15 ⊗ num 7)
  momentum_weak rsi h k =
      let r = In-tested ieee 30 45 h k (omega arith) (omega arith) in
      let shifted = In-sub ieee r (In-num ieee 30 (omega arith)) (omega arith) in
      let ratio =
        In-div ieee 0 1 15 shifted (omega arith) (omega arith) (omega arith) (omega arith) in
      let ramp = In-mul ieee 7 ratio (omega arith) (omega arith) in
      let sum = In-add ieee (In-num ieee 15 (omega arith)) ramp (omega arith) in
      In-widen ieee 0 30 sum (omega arith) (omega arith) (omega arith)

  momentum_strong :
      (rsi : F) → num 65 ≼ rsi → rsi ≼ num 75 → In 0 30 (num 22 ⊖ (rsi ⊖ num 65) ⊘ num 10 ⊗ num 7)
  momentum_strong rsi h k =
      let r = In-tested ieee 65 75 h k (omega arith) (omega arith) in
      let shifted = In-sub ieee r (In-num ieee 65 (omega arith)) (omega arith) in
      let ratio =
        In-div ieee 0 1 10 shifted (omega arith) (omega arith) (omega arith) (omega arith) in
      let ramp = In-mul ieee 7 ratio (omega arith) (omega arith) in
      let sum = In-sub ieee (In-num ieee 22 (omega arith)) ramp (omega arith) in
      In-widen ieee 0 30 sum (omega arith) (omega arith) (omega arith)

  -- Above 75 the score falls to its floor, however large the RSI.
  momentum_top :
      (rsi : F)
      → num 75 ≼ rsi
      → In 0 30 (floor_at (num 0) (num 15 ⊖ (rsi ⊖ num 75) ⊘ num 25 ⊗ num 15))
  momentum_top rsi h =
      let v75 = num-valid ieee 75 (omega arith) in
      let v25 = num-valid ieee 25 (omega arith) in
      let v15 = num-valid ieee 15 (omega arith) in
      let shifted = sub_nonneg rsi (num 75) v75 h in
      let ratio =
        div_nonneg (rsi ⊖ num 75) (num 25) v25 (num_lt ieee 0 25 (omega arith) (omega arith))
          shifted in
      let ramp =
        mul_nonneg ((rsi ⊖ num 75) ⊘ num 25) (num 15) v15
          (num_lt ieee 0 15 (omega arith) (omega arith)) ratio in
      let below = sub_le (num 15) ((rsi ⊖ num 75) ⊘ num 25 ⊗ num 15) v15 ramp in
      let floored =
        In-floor_at ieee {b = 15} 0 (refl_of_le _ _ below).0 below (omega arith) (omega arith) in
      In-widen ieee 0 30 floored (omega arith) (omega arith) (omega arith)

  momentum_low : (rsi : F) → num 0 ≼ rsi → rsi ≼ num 30 → In 0 30 (num 5 ⊕ rsi ⊘ num 30 ⊗ num 10)
  momentum_low rsi h k =
      let r = In-tested ieee 0 30 h k (omega arith) (omega arith) in
      let ratio = In-div ieee 0 1 30 r (omega arith) (omega arith) (omega arith) (omega arith) in
      let ramp = In-mul ieee 10 ratio (omega arith) (omega arith) in
      let sum = In-add ieee (In-num ieee 5 (omega arith)) ramp (omega arith) in
      In-widen ieee 0 30 sum (omega arith) (omega arith) (omega arith)

  calc_momentum-In : (rsi : F) → In 0 30 (calc_momentum rsi)
  unfolding calc_momentum
  calc_momentum-In rsi = ground (
    arith,
    const 0 30 0 (omega arith) (omega arith) (omega arith),
    momentum_mid rsi,
    momentum_weak rsi,
    momentum_strong rsi,
    momentum_top rsi,
    momentum_low rsi,
  )

  calc_volume-In : (volume vol_ema20 : F) → num 0 ≼ volume → In 0 20 (calc_volume volume vol_ema20)
  unfolding calc_volume
  calc_volume-In volume vol_ema20 h =
      let v12 = num-valid ieee 12 (omega arith) in
      let pos12 = num_lt ieee 0 12 (omega arith) (omega arith) in
      let ratio = volume ⊘ vol_ema20 in
      let score = f.log1p ratio ⊗ num 12 in
      let nonneg = λ (v : valid vol_ema20 ≡ true) (p : num 0 ≺ vol_ema20).
        mul_nonneg (f.log1p ratio) (num 12) v12 pos12
          (log1p_nonneg ratio (div_nonneg volume vol_ema20 v p h)) in
      let bound = λ (v : valid vol_ema20 ≡ true) (p : num 0 ≺ vol_ema20).
        In-clamp ieee 20 score (refl_of_le _ _ (nonneg v p)).1 (omega arith) in
      ground (
        arith,
        const 0 20 0 (omega arith) (omega arith) (omega arith),
        bound,
        le_of_not_le ieee vol_ema20 (num 0),
        num-valid ieee 0 (omega arith),
      )

  total-In :
      {a b c d e : F}
      → In 0 35 a
      → In 0 30 b
      → In 0 20 c
      → In 0 10 d
      → In 0 10 e
      → In 0 100 (clamp (num 100) (a ⊕ b ⊕ c ⊕ d ⊕ e))
  total-In {a} {b} {c} {d} {e} p q r s t =
      let two = In-add ieee p q (omega arith) in
      let three = In-add ieee two r (omega arith) in
      let four = In-add ieee three s (omega arith) in
      let five = In-add ieee four t (omega arith) in
      In-clamp ieee 100 (a ⊕ b ⊕ c ⊕ d ⊕ e) (In_self ieee five) (omega arith)

  -- For every input whose volume is not negative, NaN and infinities in any other field included, the
  -- technical score is a number from 0 to 100, and its parts are numbers: trend up to 35, momentum up
  -- to 30, volume up to 20, volatility and the ADX bonus up to 10 each.
  pub technical_score-InRange : (input : Input F) → num 0 ≼ input.volume → InRange (calculate input)
  unfolding calculate
  technical_score-InRange input h =
      let t = calc_trend-In input in
      let m = calc_momentum-In input.rsi14 in
      let v = calc_volume-In input.volume input.vol_ema20 h in
      let w = calc_volatility-In input.atr14 input.price in
      let x = calc_adx_bonus-In input.adx14 in
      ground (
        arith,
        const 0 35 0 (omega arith) (omega arith) (omega arith),
        const 0 30 0 (omega arith) (omega arith) (omega arith),
        const 0 20 0 (omega arith) (omega arith) (omega arith),
        const 0 10 0 (omega arith) (omega arith) (omega arith),
        const 0 100 0 (omega arith) (omega arith) (omega arith),
        total-In t m v w x,
      )
