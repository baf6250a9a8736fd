-- ===== src/Paper/Tests.antt =====
-- The paper trading engine (internal/papertrade) on concrete ticks.
use ai_trading_v.Prelude.{
  ℕ, ◌+◌, ◌-◌, ◌≤◌, ◌<◌, ◌≡◌, ◌≢◌, ◌↔◌, ◌⊎◌, refl, true, false, str_eq, eq_iff, arith, pos,
  if◌then◌else◌, ltb, List, [], ◌∷◌, get_elem?, All, Option, none, some, String,
}
use ai_trading_v.Float.{lit, num, minus, ◌≼◌, ◌⊕◌, ◌⊗◌, ◌⊘◌}
use ai_trading_v.Float.Fixed.{Fixed, fixed_float, fixed-Ieee}
use ai_trading_v.Model.{Time, Candle, FeatureRow}
use ai_trading_v.Technical
use ai_trading_v.OrderFlow
use ai_trading_v.Regime
use ai_trading_v.Gate
use ai_trading_v.Paper.{EngineConfig, Position, long, running, stopped, stop_loss, no_trade}
use ai_trading_v.Paper.Executor.{
  entry_slippage, entry_fill, simulate_entry, calc_position_size, decide_direction,
}
use ai_trading_v.Paper.Engine.{
  Store, Engine, new_engine, call, record_snapshot, trade_row, settle, reset_engine_day,
  recover_account, recover_state,
}
use ai_trading_v.Paper.Orders.{
  later_row, best_row, load_features_at, fetch_ml_prob, candle_atr, exit_of, trail, check_exit,
  stop_distance, entry_stop, order_of, fill_of, position_of, open_position,
}
use ai_trading_v.Paper.Tick.{
  signal_at, gate_input, age_position, turn_day, arrive, base_size, sized_entry, enter, act_on, act,
  on_row, on_candle, process_tick,
}
use ai_trading_v.Paper.Account.{Answers, ticks, flat_equity}
use ai_trading_v.Paper.Entry.{Opened, entry_guarded}
use ai_trading_v.Paper.Rows.{features_latest}
use ai_trading_v.Paper.Halt.{Halted, drawdown_stops, halt_holds, halt_lifted}
use ai_trading_v.Paper.Stops.{stop_never_trails}
use ai_trading_v.Paper.Cash.{close_credits_quantity}

abbrev day : Time → String
day t = if ltb t 100 then "2026-01-01" else "2026-01-02"

abbrev predict : Time → Option Fixed
predict t = none

abbrev store : Store Fixed
store = record {
  order_id = λ o. some 7;
  position_id = λ p. some 8;
  daily_stats = λ d. some (num 0, 0);
  open_position = some none;
  total_pnl = some (num 0);
}

abbrev config : EngineConfig Fixed
config = record {
  symbol = "BTCUSDT";
  timeframe = "15m";
  initial_capital = num 10_000;
  commission = lit 1_000;
  slippage = lit 500;
  atr_multiplier = num 2;
  holding_bars = pos 24;
  risk_per_trade_pct = num 1;
  max_daily_drawdown_pct = num 5;
  max_total_drawdown_pct = num 15;
  long_threshold = num 60;
  short_threshold = num 40;
  gate_config = record {
    cooldown_bars = pos 2;
    max_trades_per_day = pos 5;
    drawdown_limit = minus (lit 50_000);
    starting_capital = num 10_000;
    meta_model_threshold = lit 450_000;
    tech_weight = lit 400_000;
    of_weight = lit 400_000;
    regime_weight = lit 200_000;
  };
  ml_api_url = "";
}

abbrev candle : Time → ℕ → Candle Fixed
candle t p = record {
  time = t;
  symbol = "BTCUSDT";
  timeframe = "15m";
  open_price = num p;
  high = num (p + 1);
  low = num (p - 1);
  close = num p;
  volume = num 200;
}

abbrev row : Time → FeatureRow Fixed
row t = record {
  symbol = "BTCUSDT";
  timeframe = "15m";
  ts = t;
  feature_set_id = 1;
  ema20 = num 105;
  ema50 = num 100;
  ema200 = num 90;
  rsi14 = num 55;
  atr14 = num 3;
  adx14 = num 40;
  volume_ema20 = num 100;
  price_above_ema20 = 1;
  price_above_ema50 = 1;
  price_above_ema200 = 1;
  oi_delta1_pct = num 1;
  oi_delta4_pct = num 1;
  oi_delta12_pct = num 1;
  oi_z_score30 = num 0;
  funding_rate = lit 200;
  funding_z_score30 = num 0;
  ls_ratio_raw = lit 1_300_000;
  ls_ratio_normalized = lit 130_000;
  liq_long_usd = num 0;
  liq_short_usd = num 0;
  liq_imbalance = num 0;
  return1 = num 0;
  return4 = num 0;
  return12 = num 0;
  volatility14 = num 2;
  volatility50 = num 2;
}

abbrev rows : List (FeatureRow Fixed)
rows = row 1 ∷ row 2 ∷ row 9 ∷ []

-- An engine on the first day, with one candle seen.
abbrev seen : Engine Fixed
seen = record {
  cfg = config;
  gate = record {
    cfg = config.gate_config;
    state = Gate.idle;
    cooldown_bars_remaining = pos 0;
    trade_count = 0;
    day_pnl = num 0;
    current_day = "2026-01-01";
  };
  state = running;
  position = none;
  last_bar_ts = 1;
  equity = num 10_000;
  balance = num 10_000;
  total_pnl = num 0;
  day_pnl = num 0;
  day_trades = 0;
  current_day = "2026-01-01";
  bar_count = 1;
  called = [];
}

abbrev bought : Position Fixed
bought = record {
  id = 8;
  symbol = "BTCUSDT";
  timeframe = "15m";
  direction = long;
  entry_order_id = 7;
  quantity = lit 12_499_000;
  entry_price = lit 110_165_000;
  entry_fee = lit 12_499;
  stop_price = lit 104_165_000;
  open_ts = 2;
  bars_held = 0;
}

opens :
    (process_tick store day predict (some (candle 2 110)) (some rows) seen).position ≡ some bought
unfolding process_tick on_candle on_row act act_on arrive turn_day age_position reset_engine_day
    call record_snapshot load_features_at best_row later_row signal_at gate_input enter base_size
    sized_entry simulate_entry entry_slippage entry_fill calc_position_size decide_direction
    fetch_ml_prob open_position order_of fill_of position_of stop_distance entry_stop Gate.evaluate
    Gate.size_from_confidence Gate.decision_from_size Gate.apply_regime_override
    Gate.on_trade_placed Gate.on_bar Gate.reset_day Technical.calculate Technical.calc_trend
    Technical.calc_momentum Technical.calc_volume Technical.calc_volatility Technical.calc_adx_bonus
    OrderFlow.calculate OrderFlow.calc_funding_score OrderFlow.calc_oi_score OrderFlow.calc_ls_score
    OrderFlow.calc_liq_score Regime.calculate Regime.calc_trend_score Regime.calc_vol_from_atr
    Regime.calc_vol_from_feature Regime.classify_regime
opens = refl

entry_guarded_example : Opened store day predict (some (candle 2 110)) (some rows) seen bought
entry_guarded_example =
    entry_guarded store day predict (some (candle 2 110)) (some rows) seen refl opens

picks : load_features_at 2 (some rows) ≡ some (row 2)
unfolding load_features_at best_row later_row
picks = refl

features_latest_example :
    (2 ≤ 2)
    × ((i : ℕ) × (get_elem? rows i ≡ some (row 2)))
    × All (λ r. (2 < r.ts) ⊎ (r.ts ≤ 2)) rows
features_latest_example = features_latest 2 rows picks

abbrev answers : List (Answers Fixed)
answers =
    record { candle = some (candle 1 110); rows = some rows }
    ∷ record { candle = some (candle 2 110); rows = none }
    ∷ []

stays_flat :
    (ticks store day predict answers
      (recover_state store "2026-01-01" (new_engine config)).0).position
    ≡ none
unfolding ticks recover_state recover_account new_engine process_tick on_candle on_row act act_on
    arrive turn_day age_position reset_engine_day call record_snapshot load_features_at best_row
    later_row Gate.new Gate.on_bar Gate.reset_day
stays_flat = refl

flat_equity_example :
    (ticks store day predict answers
      (recover_state store "2026-01-01" (new_engine config)).0).equity
    ≡ (ticks store day predict answers
        (recover_state store "2026-01-01" (new_engine config)).0).balance
flat_equity_example = flat_equity config store day predict "2026-01-01" answers stays_flat

abbrev holding : Engine Fixed
holding = record seen { position = some bought; equity = num 10_000; day_pnl = minus (num 600) }

drawdown_stops_example :
    (settle (candle 3 100) (num 100) stop_loss bought holding).state ≡ stopped ↔ (
      (((holding.day_pnl ⊕ (trade_row config (candle 3 100) (num 100) stop_loss bought).net_pnl)
          ⊘ config.initial_capital
          ⊗ num 100)
        ≼ minus config.max_daily_drawdown_pct)
      ⊎ (((holding.total_pnl ⊕ (trade_row config (candle 3 100) (num 100) stop_loss bought).net_pnl)
            ⊘ config.initial_capital
            ⊗ num 100)
          ≼ minus config.max_total_drawdown_pct)
      ⊎ (holding.state ≡ stopped))
drawdown_stops_example = drawdown_stops (candle 3 100) (num 100) stop_loss bought holding

abbrev halted : Engine Fixed
halted = record seen { state = stopped; day_pnl = minus (num 600); total_pnl = minus (num 1_600) }

abbrev later : List (Answers Fixed)
later =
    record { candle = some (candle 2 110); rows = some rows }
    ∷ record { candle = some (candle 3 111); rows = some rows }
    ∷ record { candle = none; rows = none }
    ∷ []

of_day :
    (t p : ℕ)
    → ltb t 100 ≡ true
    → (c : Candle Fixed) → some (candle t p) ≡ some c
    → day c.time ≡ "2026-01-01"
of_day t p h c e = ground (arith, h, e)

none_of_day : (c : Candle Fixed) → none ≡ some c → day c.time ≡ "2026-01-01"
none_of_day c e = ground (arith, e)

halt_holds_example : Halted "2026-01-01" (ticks store day predict later halted)
halt_holds_example =
    halt_holds store day predict later "2026-01-01" halted
      (of_day 2 110 refl, (of_day 3 111 refl, (none_of_day, tt)))
      (record { is_stopped = refl; flat = refl; today = refl })

abbrev second_day : String
second_day = "2026-01-02"

turned : second_day ≢ "2026-01-01"
turned e =
    let bad : str_eq second_day "2026-01-01" ≡ true = (eq_iff second_day "2026-01-01").1 e in cc

halt_lifted_example :
    (process_tick store day predict (some (candle 200 110)) (some rows) halted).state ≡ running
halt_lifted_example =
    halt_lifted store day predict (candle 200 110) (some rows) halted refl (omega arith)
      (omega arith) turned

keeps : (check_exit (candle 3 112) no_trade bought holding).1 ≡ false
unfolding check_exit exit_of trail candle_atr
keeps = refl

stop_never_trails_example :
    (check_exit (candle 3 112) no_trade bought holding).0.position ≡ some bought
stop_never_trails_example =
    stop_never_trails fixed-Ieee (candle 3 112) no_trade bought holding refl refl refl refl refl
      refl keeps

abbrev price : Fixed
price = num 110

abbrev free_config : EngineConfig Fixed
free_config = record config { commission = num 0; slippage = num 0 }

abbrev free_position : Position Fixed
free_position = record bought { quantity = num 12; entry_price = num 110; entry_fee = num 0 }

abbrev free_engine : Engine Fixed
free_engine = record seen { cfg = free_config; position = some free_position }

close_credits_quantity_example :
    let after = settle (candle 3 110) (num 220) stop_loss free_position free_engine in
    (after.total_pnl ≡ num 12)
    × (after.balance ≡ num 10_024)
    × (after.balance ≡ free_config.initial_capital ⊕ after.total_pnl ⊕ num 12)
close_credits_quantity_example =
    close_credits_quantity fixed-Ieee (candle 3 110) stop_loss free_position free_engine 110 220 12
      1 10_000 0 0
      (record {
        no_commission = refl;
        no_slippage = refl;
        is_long = refl;
        bought_at = refl;
        holds = refl;
        no_fee = refl;
      })
      (omega arith) (omega arith) (omega arith) (omega arith) refl refl refl (omega arith)
