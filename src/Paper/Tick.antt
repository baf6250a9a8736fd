-- ===== src/Paper/Tick.antt =====
-- internal/papertrade/engine.go: `processTick`. A tick's candle and feature rows are what the
-- database answers, `none` where it fails or has none.
use ai_trading_v.Prelude.{
  ◌+◌, ◌==◌, Bool, true, false, not, ◌&&◌, ◌||◌, if◌then◌else◌, List, Option, none, some, String,
  str_eq,
}
use ai_trading_v.Float.{Float64, lit, num, ◌⊗◌, ◌≤?◌}
use ai_trading_v.Model.{Time, is_zero_time, Candle, FeatureRow}
use ai_trading_v.Technical
use ai_trading_v.OrderFlow
use ai_trading_v.Regime
use ai_trading_v.Gate
use ai_trading_v.Gate.{Input, Output}
use ai_trading_v.Paper.{EngineConfig, Position, is_stopped, is_no_trade}
use ai_trading_v.Paper.Executor.{FillResult, simulate_entry, calc_position_size, decide_direction}
use ai_trading_v.Paper.Engine.{
  Store, Engine, update_bars_held, call, record_snapshot, update_unrealized, reset_engine_day,
}
use ai_trading_v.Paper.Orders.{
  Signal, is_skip, load_features_at, fetch_ml_prob, check_exit, open_position,
}

module _ {F : Type 0} ⦃f : Float64 F⦄ where
  unfoldable pub signal_at : EngineConfig F → Candle F → FeatureRow F → Signal F
  signal_at cfg c r =
      let tech = Technical.calculate (record {
        price = c.close;
        ema20 = r.ema20;
        ema50 = r.ema50;
        ema200 = r.ema200;
        rsi14 = r.rsi14;
        atr14 = r.atr14;
        volume = c.volume;
        vol_ema20 = r.volume_ema20;
        adx14 = r.adx14;
      }) in
      let flow = OrderFlow.calculate (record {
        funding_rate = r.funding_rate;
        oi_delta_pct = r.oi_delta1_pct;
        ls_ratio = r.ls_ratio_raw;
        long_liq_usd = r.liq_long_usd;
        short_liq_usd = r.liq_short_usd;
      }) in
      let regime = Regime.calculate (record {
        adx14 = r.adx14;
        atr14 = r.atr14;
        price = c.close;
        volatility = r.volatility14;
      }) in
      record {
        tech_score = tech.technical_score;
        of_score = flow.order_flow_score;
        regime_score = regime.regime_score;
        regime_label = regime.regime;
        dir = decide_direction tech.technical_score cfg.long_threshold cfg.short_threshold;
      }

  unfoldable pub gate_input : Signal F → F → Input F
  gate_input sig ml_prob = record {
    technical_score = sig.tech_score;
    order_flow_score = sig.of_score;
    regime_score = sig.regime_score;
    regime_label = sig.regime_label;
    meta_model_prob = ml_prob;
  }

  -- The bar counters and the day, before the features are loaded.
  unfoldable pub age_position : Engine F → Engine F
  unfolding call
  age_position e = go e.position
    where
      go : Option (Position F) → Engine F
      go none = e
      go (some p) = record (call (update_bars_held p.id (p.bars_held + 1)) e) {
        position = some (record p { bars_held = p.bars_held + 1 });
      }

  abbrev pub is_flat : Option (Position F) → Bool
  is_flat none = true
  is_flat (some _) = false

  unfoldable pub turn_day : Store F → String → Engine F → Engine F
  turn_day store day e =
      let reset = reset_engine_day store day e in
      if not (str_eq day e.current_day) && is_flat e.position then reset else e

  unfoldable pub arrive : Store F → (Time → String) → Candle F → Engine F → Engine F
  arrive store day_of c e =
      let seen = record e { last_bar_ts = c.time; bar_count = e.bar_count + 1 } in
      let aged = age_position (record seen { gate = Gate.on_bar e.gate }) in
      if is_zero_time e.last_bar_ts then seen else turn_day store (day_of c.time) aged

  -- The size of an entry before the gate's multiplier, and the simulated fill at the full size.
  unfoldable pub base_size : Candle F → FeatureRow F → Engine F → F
  base_size c r e =
      calc_position_size e.equity c.close
        (if r.atr14 ≤? num 0 then c.close ⊗ lit 10_000 else r.atr14) e.cfg.atr_multiplier
        e.cfg.risk_per_trade_pct

  unfoldable pub sized_entry :
      Candle F → FeatureRow F → Signal F → Output F → Engine F → FillResult F
  sized_entry c r sig out e =
      simulate_entry c.close (base_size c r e ⊗ out.size_multiplier) sig.dir e.cfg c.volume

  -- The last part of `processTick`, where a signal meets a flat engine.
  unfoldable pub enter : Store F → Candle F → FeatureRow F → Signal F → F → Engine F → Engine F
  enter store c r sig ml_prob e =
      let out = Gate.evaluate e.gate (gate_input sig ml_prob) in
      let placed = open_position store c r (sized_entry c r sig out e) sig out e in
      if is_skip out.decision
      then record_snapshot c.time e
      else if base_size c r e ≤? num 0
      then record_snapshot c.time e
      else placed

  -- `processTick` where a position is open.
  unfoldable pub manage : Candle F → Signal F → Position F → Engine F → Engine F
  manage c sig p e =
      let (after, closed) = check_exit c sig.dir p e in
      if closed
      then record_snapshot c.time after
      else record_snapshot c.time (update_unrealized c.close after)

  -- From the feature row on; the last argument is the position.
  unfoldable pub act_on :
      Store F
      → (Time → Option F)
      → Candle F
      → Bool
      → FeatureRow F
      → Engine F
      → Option (Position F)
      → Engine F
  act_on store predict c is_new_bar r e (some p) = manage c (signal_at e.cfg c r) p e
  act_on store predict c is_new_bar r e none =
      let sig = signal_at e.cfg c r in
      let entered = enter store c r sig (fetch_ml_prob e.cfg predict c.time) e in
      if not is_new_bar || is_stopped e.state || is_no_trade sig.dir
      then record_snapshot c.time e
      else entered

  unfoldable pub act :
      Store F → (Time → Option F) → Candle F → Bool → FeatureRow F → Engine F → Engine F
  act store predict c is_new_bar r e = act_on store predict c is_new_bar r e e.position

  unfoldable pub on_row :
      Store F → (Time → Option F) → Candle F → Bool → Option (FeatureRow F) → Engine F → Engine F
  on_row store predict c is_new_bar none e = record_snapshot c.time e
  on_row store predict c is_new_bar (some r) e = act store predict c is_new_bar r e

  unfoldable pub on_candle :
      Store F
      → (Time → String)
      → (Time → Option F)
      → Candle F
      → Option (List (FeatureRow F))
      → Engine F
      → Engine F
  on_candle store day_of predict c rows e =
      on_row store predict c (not (is_zero_time e.last_bar_ts)) (load_features_at c.time rows)
        (arrive store day_of c e)

  unfoldable pub process_tick :
      Store F
      → (Time → String)
      → (Time → Option F)
      → Option (Candle F)
      → Option (List (FeatureRow F))
      → Engine F
      → Engine F
  process_tick store day_of predict none rows e = e
  process_tick store day_of predict (some c) rows e =
      let next = on_candle store day_of predict c rows e in
      if c.time == e.last_bar_ts then e else next
