-- ===== src/Gate/Tests.antt =====
-- The gate (internal/agent/tradegate/gate.go) on concrete inputs.
use ai_trading_v.Prelude.{◌≡◌, refl, ◌≢◌, ◌↔◌, ◌*◌, pos, String, [], ◌∷◌}
use ai_trading_v.Float.{lit, num, minus}
use ai_trading_v.Float.Fixed.{Fixed, not_a_number, fixed_float, fixed-Ieee}
use ai_trading_v.Gate.{
  size_from_confidence, decision_from_size, apply_regime_override, Gate, Input, no_trade, full_size,
  idle, stopped, new, default_config, evaluate, on_trade_closed, update_pnl,
}
use ai_trading_v.Gate.Decide.{
  Clear, quarters, label_quarters, evaluate_trades_iff, evaluate_multiplier,
}
use ai_trading_v.Gate.Cooldown.{
  bar, placed, realised, bars, run_events, cooldown_length, stop_lost, stop_holds,
}

abbrev fresh : Gate Fixed
fresh = record {
  cfg = record {
    cooldown_bars = pos 2;
    max_trades_per_day = pos 5;
    drawdown_limit = minus (lit 50_000);
    starting_capital = num 10_000;
    meta_model_threshold = lit 450_000;
    tech_weight = lit 400_000;
    of_weight = lit 400_000;
    regime_weight = lit 200_000;
  };
  state = idle;
  cooldown_bars_remaining = pos 0;
  trade_count = 0;
  day_pnl = num 0;
  current_day = "";
}

fresh-default : new default_config ≡ fresh
unfolding new default_config
fresh-default = refl

abbrev scores : Fixed → String → Input Fixed
scores s label = record {
  technical_score = s;
  order_flow_score = s;
  regime_score = s;
  regime_label = label;
  meta_model_prob = num 1;
}

strong_trades : (evaluate fresh (scores (num 85) "trending_high_vol")).decision ≡ full_size
unfolding evaluate size_from_confidence decision_from_size apply_regime_override
strong_trades = refl

strong_size : (evaluate fresh (scores (num 85) "trending_high_vol")).size_multiplier ≡ lit 750_000
unfolding evaluate size_from_confidence decision_from_size apply_regime_override
strong_size = refl

nan_refused : (evaluate fresh (scores not_a_number "trending_high_vol")).decision ≡ no_trade
unfolding evaluate
nan_refused = refl

evaluate_trades_iff_example :
    let input = scores (num 85) "trending_high_vol" in
    ((evaluate fresh input).decision ≢ no_trade) ↔ Clear fresh input
evaluate_trades_iff_example =
    evaluate_trades_iff fixed-Ieee fresh (scores (num 85) "trending_high_vol")

evaluate_multiplier_example :
    let out = evaluate fresh (scores (num 65) "ranging_high_vol") in
    out.size_multiplier ≡ lit (quarters out.decision * label_quarters "ranging_high_vol" * 62_500)
evaluate_multiplier_example =
    evaluate_multiplier fixed-Ieee fresh (scores (num 65) "ranging_high_vol")

cooldown_length_example : (bars 2 (on_trade_closed fresh)).state ≡ idle
cooldown_length_example = cooldown_length fresh 2

stop_lost_example :
    let later = bars 2 (on_trade_closed (update_pnl (minus (num 600)) fresh)) in
    let good = scores (num 85) "trending_high_vol" in
    ((evaluate (update_pnl (minus (num 600)) fresh) good).decision ≡ no_trade)
    × (later.state ≡ idle)
    × ((evaluate later good).decision ≡ (evaluate fresh good).decision)
stop_lost_example = stop_lost fresh (minus (num 600)) 2 (scores (num 85) "trending_high_vol") refl

abbrev halted : Gate Fixed
halted = record fresh { state = stopped }

stop_holds_example :
    (evaluate
      (run_events (bar ∷ placed ∷ realised (num 100) ∷ []) halted)
      (scores (num 85) "trending_high_vol")).decision
    ≡ no_trade
stop_holds_example =
    stop_holds (bar ∷ placed ∷ realised (num 100) ∷ []) halted (scores (num 85) "trending_high_vol")
      (tt, (tt, (tt, tt))) refl
