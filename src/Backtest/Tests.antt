-- ===== src/Backtest/Tests.antt =====
-- A run of internal/backtest/engine.go over five bars.
use ai_trading_v.Prelude.{
  ℕ, ◌+◌, ◌-◌, ◌*◌, ◌<◌, ◌↔◌, ◌≤◌, ◌≡◌, ◌≢◌, true, str_eq, eq_iff, ◌+ℤ◌, ◌-ℤ◌, refl, pos, List, [],
  ◌∷◌, length, All, none, String,
}
use ai_trading_v.Float.{lit, num, minus}
use ai_trading_v.Float.Fixed.{Fixed, fixed_float, fixed-Ieee}
use ai_trading_v.Model.{Time, hour, Candle, FeatureRow}
use ai_trading_v.Technical
use ai_trading_v.OrderFlow
use ai_trading_v.Regime
use ai_trading_v.Gate
use ai_trading_v.Backtest.{
  Config, Trade, long, stop, decide_dir, entry_price_for_dir, exit_price_for_dir,
  stop_price_for_dir, gross_pnl, close_trade,
}
use ai_trading_v.Backtest.Signal.{signal_of}
use ai_trading_v.Backtest.Engine.{
  schedule, execute, check_exit, check_trade, exit_of, settle, finish_bar, equity_at, settle_bar,
  step_bar, next_candle, run_bars, start, force_close,
}
use ai_trading_v.Backtest.Run.{
  RunResult, Summary, failed, finished, panicked, mismatch_at, last_candle, close_all, live_loop,
  summarise, run,
}
use ai_trading_v.Backtest.Cap.{run_capped}
use ai_trading_v.Backtest.Curve.{run_curve_length}
use ai_trading_v.Backtest.Inputs.{Accepted, run_finishes_iff}
use ai_trading_v.Backtest.Figures.{trades_within_days}
use ai_trading_v.Backtest.Days.{calc_trade_distribution, span_loop, span_step}
use ai_trading_v.Backtest.Metrics.{Metrics, calculate_metrics}
use ai_trading_v.Backtest.Position.{Sound}
use ai_trading_v.Backtest.Sound.{run_trades-Sound}

abbrev day : Time → String
day t = "2026-01-01"

abbrev config : Config Fixed
config = record {
  initial_capital = num 10_000;
  commission = lit 1_000;
  slippage = lit 500;
  holding_bars = pos 2;
  direction = "both";
  atr_multiplier = num 2;
  warmup_bars = 1;
  long_threshold = num 60;
  short_threshold = num 40;
  gate_config = record {
    cooldown_bars = pos 2;
    max_trades_per_day = pos 5;
    drawdown_limit = minus (lit 50_000);
    starting_capital = num 10_000;
    meta_model_threshold = lit 450_000;
    tech_weight = lit 400_000;
    of_weight = lit 400_000;
    regime_weight = lit 200_000;
  };
}

abbrev candle : Time → ℕ → Candle Fixed
candle t p = record {
  time = t;
  symbol = "BTCUSDT";
  timeframe = "15m";
  open_price = num p;
  high = num (p + 1);
  low = num (p - 1);
  close = num p;
  volume = num 200;
}

abbrev row : Time → FeatureRow Fixed
row t = record {
  symbol = "BTCUSDT";
  timeframe = "15m";
  ts = t;
  feature_set_id = 1;
  ema20 = num 105;
  ema50 = num 100;
  ema200 = num 90;
  rsi14 = num 55;
  atr14 = num 3;
  adx14 = num 40;
  volume_ema20 = num 100;
  price_above_ema20 = 1;
  price_above_ema50 = 1;
  price_above_ema200 = 1;
  oi_delta1_pct = num 1;
  oi_delta4_pct = num 1;
  oi_delta12_pct = num 1;
  oi_z_score30 = num 0;
  funding_rate = lit 200;
  funding_z_score30 = num 0;
  ls_ratio_raw = lit 1_300_000;
  ls_ratio_normalized = lit 130_000;
  liq_long_usd = num 0;
  liq_short_usd = num 0;
  liq_imbalance = num 0;
  return1 = num 0;
  return4 = num 0;
  return12 = num 0;
  volatility14 = num 2;
  volatility50 = num 2;
}

abbrev candles : List (Candle Fixed)
candles = candle 1 110 ∷ candle 2 110 ∷ candle 3 111 ∷ candle 4 112 ∷ candle 5 113 ∷ []

abbrev rows : List (FeatureRow Fixed)
rows = row 1 ∷ row 2 ∷ row 3 ∷ row 4 ∷ row 5 ∷ []

abbrev outcome : RunResult Fixed → ℕ × ℕ
outcome (failed e) = (0, 0)
outcome panicked = (0, 0)
outcome (finished s) = (length s.trades, length s.equity_curve)

-- One trade, entered at bar 2 and closed at bar 3; four points of the curve.
one_trade : outcome (run day config none candles rows) ≡ (1, 4)
unfolding run mismatch_at live_loop run_bars next_candle step_bar signal_of schedule execute
    check_exit check_trade exit_of settle finish_bar equity_at settle_bar start close_all
    last_candle force_close summarise decide_dir entry_price_for_dir exit_price_for_dir
    stop_price_for_dir gross_pnl close_trade Gate.new Gate.evaluate Gate.size_from_confidence
    Gate.decision_from_size Gate.apply_regime_override Gate.on_trade_placed Gate.on_trade_closed
    Gate.on_bar Gate.update_pnl Technical.calculate Technical.calc_trend Technical.calc_momentum
    Technical.calc_volume Technical.calc_volatility Technical.calc_adx_bonus OrderFlow.calculate
    OrderFlow.calc_funding_score OrderFlow.calc_oi_score OrderFlow.calc_ls_score
    OrderFlow.calc_liq_score Regime.calculate Regime.calc_trend_score Regime.calc_vol_from_atr
    Regime.calc_vol_from_feature Regime.classify_regime ◌+ℤ◌ ◌-ℤ◌
one_trade = refl

abbrev summary : Summary Fixed
summary =
    summarise day config candles
      (close_all day config candles (live_loop day config none candles rows))

run_finishes : run day config none candles rows ≡ finished summary
unfolding run mismatch_at ◌+ℤ◌
run_finishes = refl

both_ne_long : config.direction ≢ "long"
both_ne_long e = let bad : str_eq "both" "long" ≡ true = (eq_iff "both" "long").1 e in cc

both_ne_short : config.direction ≢ "short"
both_ne_short e = let bad : str_eq "both" "short" ≡ true = (eq_iff "both" "short").1 e in cc

run_capped_example : length summary.trades ≤ 5
run_capped_example = run_capped day config none candles rows run_finishes

run_curve_length_example : length summary.equity_curve ≡ 4
run_curve_length_example =
    run_curve_length day config none candles rows both_ne_long both_ne_short run_finishes

run_trades-Sound_example : All (Sound config) summary.trades
run_trades-Sound_example = run_trades-Sound fixed-Ieee day config none candles rows run_finishes

run_finishes_iff_example :
    (((s : Summary Fixed) × (run day config none candles rows ≡ finished s))
      ↔ (Accepted config candles rows × (config.warmup_bars ≤ length candles)))
    × ((run day config none candles rows ≡ panicked)
        ↔ (Accepted config candles rows × (length candles < config.warmup_bars)))
run_finishes_iff_example = run_finishes_iff day config none candles rows

abbrev trade : Time → Time → ℕ → Trade Fixed
trade entry exit gain = record {
  entry_time = entry;
  exit_time = exit;
  direction = long;
  entry_price = num 100;
  exit_price = num (100 + gain);
  size = num 100;
  pnl = num gain;
  return_pct = num gain;
  holding_bars = pos 1;
  exit_reason = stop;
  technical_score = num 70;
  order_flow_score = num 70;
  regime_score = num 70;
  confidence = num 70;
  regime_label = "trending_low_vol";
  stop_price = num 90;
}

abbrev trades : List (Trade Fixed)
trades = trade 1 9 2 ∷ trade 20 100_000_000_000_000 0 ∷ []

abbrev metrics : Metrics Fixed
metrics = calculate_metrics day trades (num 10_000) 5 (pos 2) (num 1)

two_days : (calc_trade_distribution day trades).1 ≡ 2
unfolding calc_trade_distribution span_loop span_step
two_days = refl

trades_within_days_example :
    (20 < 1 + (calc_trade_distribution day trades).1 * (24 * hour))
    × (100_000_000_000_000 < 1 + (calc_trade_distribution day trades).1 * (24 * hour))
trades_within_days_example = trades_within_days day trades 1 0 refl refl
