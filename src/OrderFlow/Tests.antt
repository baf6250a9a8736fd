-- ===== src/OrderFlow/Tests.antt =====
-- The order flow score (internal/agent/orderflow/scorer.go) on concrete bars.
use ai_trading_v.Prelude.{◌≡◌, refl}
use ai_trading_v.Float.{lit, num}
use ai_trading_v.Float.Fixed.{Fixed, fixed_float, fixed-Ieee}
use ai_trading_v.OrderFlow.{
  Input, calculate, calc_funding_score, calc_oi_score, calc_ls_score, calc_liq_score,
}
use ai_trading_v.OrderFlow.Bounds.{InRange, order_flow_score-InRange}

abbrev bullish : Input Fixed
bullish = record {
  funding_rate = lit 200;
  oi_delta_pct = num 1;
  ls_ratio = lit 1_300_000;
  long_liq_usd = num 50_000_000;
  short_liq_usd = num 0;
}

-- 20 + 25 + 18 + 25: the largest score of the four formulas.
bullish_score : (calculate bullish).order_flow_score ≡ num 88
unfolding calculate calc_funding_score calc_oi_score calc_ls_score calc_liq_score
bullish_score = refl

order_flow_score-InRange_example : InRange (calculate bullish)
order_flow_score-InRange_example =
    order_flow_score-InRange fixed-Ieee bullish (λ v. refl) (λ v. refl)
