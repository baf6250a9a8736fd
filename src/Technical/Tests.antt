-- ===== src/Technical/Tests.antt =====
-- The technical score (internal/agent/technical/scorer.go) on concrete bars.
use ai_trading_v.Prelude.{◌≡◌, refl}
use ai_trading_v.Float.{num}
use ai_trading_v.Float.Fixed.{Fixed, not_a_number, fixed_float, fixed-Ieee}
use ai_trading_v.Technical.{
  Input, calculate, calc_trend, calc_momentum, calc_volume, calc_volatility, calc_adx_bonus,
}
use ai_trading_v.Technical.Bounds.{InRange, technical_score-InRange}

abbrev uptrend : Input Fixed
uptrend = record {
  price = num 110;
  ema20 = num 105;
  ema50 = num 100;
  ema200 = num 90;
  rsi14 = num 55;
  atr14 = num 3;
  volume = num 200;
  vol_ema20 = num 100;
  adx14 = num 40;
}

-- 35 + 26 + 20 + 10 + 10, capped.
uptrend_score : (calculate uptrend).technical_score ≡ num 100
unfolding calculate calc_trend calc_momentum calc_volume calc_volatility calc_adx_bonus
uptrend_score = refl

nan_rsi : (calculate (record uptrend { rsi14 = not_a_number })).components.momentum ≡ num 0
unfolding calculate calc_momentum
nan_rsi = refl

technical_score-InRange_example : InRange (calculate uptrend)
technical_score-InRange_example = technical_score-InRange fixed-Ieee uptrend refl
