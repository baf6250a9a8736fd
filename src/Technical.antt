-- ===== src/Technical.antt =====
-- internal/agent/technical/scorer.go: the technical score of a bar.
pub mod Bounds
mod Tests
use ai_trading_v.Prelude.{Bool, not, ◌&&◌, ◌||◌, if◌then◌else◌}
use ai_trading_v.Float.{
  Float64, lit, num, ◌⊕◌, ◌⊖◌, ◌⊗◌, ◌⊘◌, ◌≤?◌, ◌<?◌, valid, cap, floor_at, clamp,
}

pub record Input (F : Type 0) : Type 0 where
  pub price : F
  pub ema20 : F
  pub ema50 : F
  pub ema200 : F
  pub rsi14 : F
  pub atr14 : F
  pub volume : F
  pub vol_ema20 : F
  pub adx14 : F

pub record Components (F : Type 0) : Type 0 where
  pub trend : F
  pub momentum : F
  pub volume : F
  pub volatility : F
  pub adx_bonus : F

pub record Score (F : Type 0) : Type 0 where
  pub technical_score : F
  pub components : Components F

module _ {F : Type 0} ⦃f : Float64 F⦄ where
  trend_base : F → F → F → F → F
  trend_base price e20 e50 e200 =
      if e20 <? price && e50 <? e20 && e200 <? e50
      then num 30
      else if e20 <? price && e50 <? e20
      then num 25
      else if e20 <? price
      then num 20
      else if price <? e20 && e50 <? e20 && e200 <? e50
      then num 20
      else if e50 <? price
      then num 15
      else if e200 <? price
      then num 10
      else num 0

  alignment : F → F → F → F
  alignment e20 e50 e200 = if e50 <? e20 && e200 <? e50 then num 5 else num 0

  unfoldable pub calc_trend : Input F → F
  unfolding trend_base alignment
  calc_trend input =
      if not (valid input.ema20) || not (valid input.ema50) || not (valid input.ema200)
      then num 0
      else cap (num 35) (
          trend_base input.price input.ema20 input.ema50 input.ema200
          ⊕ alignment input.ema20 input.ema50 input.ema200)

  unfoldable pub calc_momentum : F → F
  calc_momentum rsi =
      if not (valid rsi)
      then num 0
      else if num 45 ≤? rsi && rsi ≤? num 65
      then num 22 ⊕ (rsi ⊖ num 45) ⊘ num 20 ⊗ num 8
      else if num 30 ≤? rsi && rsi <? num 45
      then num 15 ⊕ (rsi ⊖ num 30) ⊘ num 15 ⊗ num 7
      else if num 65 <? rsi && rsi ≤? num 75
      then num 22 ⊖ (rsi ⊖ num 65) ⊘ num 10 ⊗ num 7
      else if num 75 <? rsi
      then floor_at (num 0) (num 15 ⊖ (rsi ⊖ num 75) ⊘ num 25 ⊗ num 15)
      else if num 0 ≤? rsi && rsi <? num 30
      then num 5 ⊕ rsi ⊘ num 30 ⊗ num 10
      else num 0

  unfoldable pub calc_volume : F → F → F
  calc_volume volume vol_ema20 =
      if not (valid volume) || not (valid vol_ema20) || vol_ema20 ≤? num 0
      then num 0
      else clamp (num 20) (f.log1p (volume ⊘ vol_ema20) ⊗ num 12)

  unfoldable pub calc_volatility : F → F → F
  calc_volatility atr price =
      let atr_pct = atr ⊘ price ⊗ num 100 in
      if not (valid atr) || not (valid price) || price ≤? num 0 || atr ≤? num 0
      then num 0
      else if atr_pct <? num 1
      then num 3
      else if atr_pct <? num 2
      then num 5
      else if atr_pct <? lit 3_500_000
      then num 10
      else if atr_pct <? num 5
      then num 7
      else num 4

  unfoldable pub calc_adx_bonus : F → F
  calc_adx_bonus adx =
      if not (valid adx) || adx ≤? num 0
      then num 0
      else if num 35 ≤? adx
      then num 10
      else if num 25 ≤? adx
      then num 7
      else if num 20 ≤? adx
      then num 3
      else num 0

  unfoldable pub calculate : Input F → Score F
  calculate input =
      let trend = calc_trend input in
      let momentum = calc_momentum input.rsi14 in
      let volume = calc_volume input.volume input.vol_ema20 in
      let volatility = calc_volatility input.atr14 input.price in
      let adx_bonus = calc_adx_bonus input.adx14 in
      if not (valid input.price)
      then record {
        technical_score = num 0;
        components = record {
          trend = num 0;
          momentum = num 0;
          volume = num 0;
          volatility = num 0;
          adx_bonus = num 0;
        };
      }
      else record {
        technical_score = clamp (num 100) (trend ⊕ momentum ⊕ volume ⊕ volatility ⊕ adx_bonus);
        components = record {
          trend = trend;
          momentum = momentum;
          volume = volume;
          volatility = volatility;
          adx_bonus = adx_bonus;
        };
      }
