-- ===== src/Backtest/Signal.antt =====
-- The signal of a bar in `Engine.Run` of internal/backtest/engine.go. The model's probabilities come
-- from an HTTP service: they are a parameter, `none` where the service is not configured or fails.
use ai_trading_v.Prelude.{Bool, true, false, not, if◌then◌else◌, Option, none, some, String, str_eq}
use ai_trading_v.Float.{Float64, num}
use ai_trading_v.Model.{Time, Candle, FeatureRow}
use ai_trading_v.Technical
use ai_trading_v.OrderFlow
use ai_trading_v.Regime
use ai_trading_v.Gate
use ai_trading_v.Gate.{Gate, Output, no_trade}
use ai_trading_v.Backtest.{Direction, long, short, Config, decide_dir}

-- The scores of one bar, and the gate's answer.
pub record Signal (F : Type 0) : Type 0 where
  pub tech_score : F
  pub of_score : F
  pub regime_score : F
  pub regime_label : String
  pub decision : Output F
  pub dir : Direction

abbrev pub is_none {ℓ} : {A : Type ℓ} → Option A → Bool
is_none none = true
is_none (some _) = false

abbrev pub is_no_trade : Gate.Decision → Bool
is_no_trade no_trade = true
is_no_trade _ = false

abbrev pub is_long : Direction → Bool
is_long long = true
is_long _ = false

abbrev pub is_short : Direction → Bool
is_short short = true
is_short _ = false

-- The direction filter: the bar is left by `continue`.
abbrev pub filtered : String → Direction → Bool
filtered wanted dir =
    if str_eq wanted "long"
    then not (is_long dir)
    else if str_eq wanted "short"
    then not (is_short dir)
    else false

module _ {F : Type 0} ⦃f : Float64 F⦄ where
  ml_prob_at : Option (Time → Option F) → Time → F
  ml_prob_at none t = num 1
  ml_prob_at (some probs) t = elim (probs t) [ none ↦ num 1 | some p ↦ p ]

  unfoldable pub signal_of :
      Config F → Option (Time → Option F) → Gate F → Candle F → FeatureRow F → Signal F
  unfolding ml_prob_at
  signal_of cfg probs gate c r =
      let tech = Technical.calculate (record {
        price = c.close;
        ema20 = r.ema20;
        ema50 = r.ema50;
        ema200 = r.ema200;
        rsi14 = r.rsi14;
        atr14 = r.atr14;
        volume = c.volume;
        vol_ema20 = r.volume_ema20;
        adx14 = r.adx14;
      }) in
      let flow = OrderFlow.calculate (record {
        funding_rate = r.funding_rate;
        oi_delta_pct = r.oi_delta1_pct;
        ls_ratio = r.ls_ratio_raw;
        long_liq_usd = r.liq_long_usd;
        short_liq_usd = r.liq_short_usd;
      }) in
      let regime = Regime.calculate (record {
        adx14 = r.adx14;
        atr14 = r.atr14;
        price = c.close;
        volatility = r.volatility14;
      }) in
      record {
        tech_score = tech.technical_score;
        of_score = flow.order_flow_score;
        regime_score = regime.regime_score;
        regime_label = regime.regime;
        decision = Gate.evaluate gate (record {
          technical_score = tech.technical_score;
          order_flow_score = flow.order_flow_score;
          regime_score = regime.regime_score;
          regime_label = regime.regime;
          meta_model_prob = ml_prob_at probs c.time;
        });
        dir = decide_dir tech.technical_score cfg.long_threshold cfg.short_threshold;
      }
