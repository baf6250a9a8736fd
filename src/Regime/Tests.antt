-- ===== src/Regime/Tests.antt =====
-- The regime score (internal/agent/regime/scorer.go) on concrete bars.
use ai_trading_v.Prelude.{◌≡◌, refl}
use ai_trading_v.Float.{num}
use ai_trading_v.Float.Fixed.{Fixed, not_a_number, fixed_float, fixed-Ieee}
use ai_trading_v.Regime.{
  Input, calculate, calc_trend_score, calc_vol_from_atr, calc_vol_from_feature, classify_regime,
}
use ai_trading_v.Regime.Bounds.{InRange, Labelled, regime_score-InRange, regime-Labelled}

abbrev trending : Input Fixed
trending = record { adx14 = num 30; atr14 = num 2; price = num 100; volatility = num 2 }

trending_label : (calculate trending).regime ≡ "trending_high_vol"
unfolding calculate calc_trend_score calc_vol_from_atr calc_vol_from_feature classify_regime
trending_label = refl

-- One invalid input is enough for "unknown", although the others are fine.
nan_adx : (calculate (record trending { adx14 = not_a_number })).regime ≡ "unknown"
unfolding calculate classify_regime
nan_adx = refl

regime_score-InRange_example : InRange (calculate trending)
regime_score-InRange_example = regime_score-InRange fixed-Ieee trending

regime-Labelled_example : Labelled trending (calculate trending)
regime-Labelled_example = regime-Labelled trending
