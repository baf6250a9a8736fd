-- ===== src/Regime.antt =====
-- internal/agent/regime/scorer.go: the regime score and label of a bar.
pub mod Bounds
mod Tests
use ai_trading_v.Prelude.{Bool, not, ◌&&◌, ◌||◌, if◌then◌else◌, String}
use ai_trading_v.Float.{Float64, lit, num, ◌⊕◌, ◌⊖◌, ◌⊗◌, ◌⊘◌, ◌≤?◌, ◌<?◌, valid, clamp}

pub record Input (F : Type 0) : Type 0 where
  pub adx14 : F
  pub atr14 : F
  pub price : F
  pub volatility : F

pub record Components (F : Type 0) : Type 0 where
  pub trend_score : F
  pub vol_score : F

pub record Score (F : Type 0) : Type 0 where
  pub regime_score : F
  pub regime : String
  pub components : Components F

module _ {F : Type 0} ⦃f : Float64 F⦄ where
  unfoldable pub calc_trend_score : F → F
  calc_trend_score adx =
      if not (valid adx)
      then num 25
      else if adx <? num 20
      then num 0
      else if num 35 ≤? adx
      then num 50
      else (adx ⊖ num 20) ⊘ num 15 ⊗ num 50

  -- The ladder of `calcVolFromATR`, at the ATR as a percentage of the price.
  atr_ladder : F → F
  atr_ladder atr_pct =
      if atr_pct <? lit 500_000
      then num 5
      else if atr_pct <? lit 1_500_000
      then num 5 ⊕ (atr_pct ⊖ lit 500_000) ⊘ num 1 ⊗ num 20
      else if atr_pct <? num 3
      then num 25 ⊕ (atr_pct ⊖ lit 1_500_000) ⊘ lit 1_500_000 ⊗ num 20
      else if atr_pct <? num 5
      then num 45 ⊖ (atr_pct ⊖ num 3) ⊘ num 2 ⊗ num 20
      else num 15

  unfoldable pub calc_vol_from_atr : F → F → F
  unfolding atr_ladder
  calc_vol_from_atr atr price =
      if not (valid atr) || not (valid price) || price ≤? num 0 || atr ≤? num 0
      then num 25
      else atr_ladder (atr ⊘ price ⊗ num 100)

  unfoldable pub calc_vol_from_feature : F → F
  calc_vol_from_feature vol =
      if not (valid vol) || vol ≤? num 0
      then num 25
      else if vol <? lit 300_000
      then num 5
      else if vol <? num 1
      then num 5 ⊕ (vol ⊖ lit 300_000) ⊘ lit 700_000 ⊗ num 20
      else if vol <? lit 2_500_000
      then num 25 ⊕ (vol ⊖ num 1) ⊘ lit 1_500_000 ⊗ num 20
      else if vol <? num 4
      then num 45 ⊖ (vol ⊖ lit 2_500_000) ⊘ lit 1_500_000 ⊗ num 15
      else num 20

  unfoldable pub classify_regime : F → F → String
  classify_regime adx vol_score =
      let is_trending = num 25 ≤? adx in
      let is_high_vol = num 25 ≤? vol_score in
      if not (valid adx)
      then "unknown"
      else if is_trending && is_high_vol
      then "trending_high_vol"
      else if is_trending && not is_high_vol
      then "trending_low_vol"
      else if not is_trending && is_high_vol
      then "ranging_high_vol"
      else "ranging_low_vol"

  unfoldable pub calculate : Input F → Score F
  calculate input =
      let trend_score = calc_trend_score input.adx14 in
      let vol_score =
        (calc_vol_from_atr input.atr14 input.price ⊕ calc_vol_from_feature input.volatility)
        ⊘ num 2 in
      if not (valid input.adx14)
        && not (valid input.atr14)
        && not (valid input.price)
        && not (valid input.volatility)
      then record {
        regime_score = num 50;
        regime = "unknown";
        components = record { trend_score = num 25; vol_score = num 25 };
      }
      else record {
        regime_score = clamp (num 100) (trend_score ⊕ vol_score);
        regime = classify_regime input.adx14 vol_score;
        components = record { trend_score = trend_score; vol_score = vol_score };
      }
