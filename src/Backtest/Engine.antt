-- ===== src/Backtest/Engine.antt =====
-- `Engine.Run` of internal/backtest/engine.go, from the signal of a bar to its equity point, and the
-- loop over the bars.
use ai_trading_v.Prelude.{
  ℕ, suc, ◌+◌, ◌==◌, Bool, not, ◌&&◌, ◌||◌, if◌then◌else◌, ℤ, pos, negsuc, ◌+ℤ◌, ◌-ℤ◌, ltb_ℤ, leb_ℤ,
  List, [], ◌∷◌, ◌++◌, Option, none, some,
}
use ai_trading_v.Float.{Float64, lit, num, ◌⊕◌, ◌⊗◌, ◌≤?◌}
use ai_trading_v.Model.{Time, Candle, FeatureRow}
use ai_trading_v.Gate
use ai_trading_v.Gate.{Gate, Output, no_trade}
use ai_trading_v.Backtest.{
  still_open, stop, expiry, end_of_data, Config, Trade, PendingInfo, entry_price_for_dir,
  exit_price_for_dir, stop_price_for_dir, gross_pnl, close_trade,
}
use ai_trading_v.Backtest.Signal.{
  Signal, is_none, is_no_trade, is_long, is_short, filtered, signal_of,
}

-- The variables of the loop. `pending_bar` and `entry_bar` start at -1.
pub record Loop (F : Type 0) : Type 0 where
  pub gate : Gate F
  pub equity_curve : List F
  pub cumulative_pnl : F
  pub total_fees : F
  pub trades : List (Trade F)
  pub position : Option (Trade F)
  pub entry_bar : ℤ
  pub pending_bar : ℤ
  pub pending : Option (PendingInfo F)
  pub bars_in_market : ℤ

module _ {F : Type 0} ⦃f : Float64 F⦄ where
  -- Schedules the entry for the next bar, at its opening price.
  unfoldable pub schedule : Config F → ℕ → FeatureRow F → Candle F → Signal F → Loop F → Loop F
  schedule cfg i r next sig s =
      let entry_price = entry_price_for_dir next.open_price sig.dir cfg.slippage in
      let atr = if r.atr14 ≤? num 0 then entry_price ⊗ lit 10_000 else r.atr14 in
      let multiplier = sig.decision.size_multiplier in
      let size_frac = if multiplier ≤? num 0 then lit 250_000 else multiplier in
      record s {
        pending_bar = pos (i + 1);
        pending = some (record {
          entry_bar = i + 1;
          entry_price = entry_price;
          stop_price = stop_price_for_dir entry_price sig.dir atr cfg.atr_multiplier;
          size = cfg.initial_capital ⊗ size_frac;
          direction = sig.dir;
          tech_score = sig.tech_score;
          of_score = sig.of_score;
          regime_score = sig.regime_score;
          regime_label = sig.regime_label;
          confidence = sig.decision.raw_confidence;
        });
        gate = Gate.on_trade_placed s.gate;
      }

  unfoldable pub opened : Candle F → PendingInfo F → Trade F
  opened c p = record {
    entry_time = c.time;
    exit_time = 0;
    direction = p.direction;
    entry_price = p.entry_price;
    exit_price = num 0;
    size = p.size;
    pnl = num 0;
    return_pct = num 0;
    holding_bars = pos 0;
    exit_reason = still_open;
    technical_score = p.tech_score;
    order_flow_score = p.of_score;
    regime_score = p.regime_score;
    confidence = p.confidence;
    regime_label = p.regime_label;
    stop_price = p.stop_price;
  }

  -- Executes a pending entry at its bar.
  unfoldable pub execute : ℕ → Candle F → Loop F → Loop F
  unfolding opened
  execute i c s = elim s.pending [
    | none ↦ s
    | some p ↦
        if is_none s.position && i == p.entry_bar
        then record s {
          position = some (opened c p);
          entry_bar = pos i;
          pending_bar = negsuc 0;
          pending = none;
        }
        else s
  ]

  unfoldable pub stop_hit : Candle F → Trade F → Bool
  stop_hit c t =
      is_long t.direction && c.low ≤? t.stop_price || is_short t.direction && t.stop_price ≤? c.high

  -- Settles a trade that has its exit: the profit, the lists and the gate.
  unfoldable pub settle : Config F → Trade F → Loop F → Loop F
  settle cfg t s =
      let (done, fee) = close_trade t cfg in
      record s {
        total_fees = s.total_fees ⊕ fee;
        trades = s.trades ++ (done ∷ []);
        cumulative_pnl = s.cumulative_pnl ⊕ done.pnl;
        bars_in_market = s.bars_in_market +ℤ done.holding_bars;
        gate = Gate.on_trade_closed (Gate.update_pnl done.pnl s.gate);
        position = none;
      }

  -- The trade with its exit at this bar, if it has one: the stop first, then the holding period.
  unfoldable pub exit_of : Config F → Candle F → Trade F → Option (Trade F)
  unfolding stop_hit
  exit_of cfg c t =
      if stop_hit c t
      then some (record t { exit_price = t.stop_price; exit_time = c.time; exit_reason = stop })
      else if leb_ℤ cfg.holding_bars t.holding_bars
      then some (record t {
        exit_price = exit_price_for_dir c.close t.direction cfg.slippage;
        exit_time = c.time;
        exit_reason = expiry;
      })
      else none

  unfoldable pub check_trade : Config F → Candle F → Trade F → Loop F → Loop F
  check_trade cfg c t s = elim (exit_of cfg c t) [
    | none ↦ record s { position = some t }
    | some t' ↦ settle cfg t' s
  ]

  unfoldable pub check_exit : Config F → ℕ → Candle F → Loop F → Loop F
  check_exit cfg i c s = elim s.position [
    | none ↦ s
    | some t ↦ check_trade cfg c (record t { holding_bars = pos i -ℤ s.entry_bar +ℤ pos 1 }) s
  ]

  unfoldable pub equity_at : Config F → Candle F → Loop F → F
  equity_at cfg c s =
      let equity = cfg.initial_capital ⊕ s.cumulative_pnl in
      elim s.position [
        | none ↦ equity
        | some t ↦ equity ⊕ gross_pnl t.direction t.entry_price c.close t.size
      ]

  -- The end of a bar.
  unfoldable pub finish_bar : Config F → Candle F → Loop F → Loop F
  unfolding equity_at
  finish_bar cfg c s = record s {
    gate = Gate.on_bar s.gate;
    equity_curve = s.equity_curve ++ (equity_at cfg c s ∷ []);
  }

  -- From the execution of the pending entry to the end of the bar.
  unfoldable pub settle_bar : Config F → ℕ → Candle F → Loop F → Loop F
  settle_bar cfg i c s = finish_bar cfg c (check_exit cfg i c (execute i c s))

  -- One round of the loop; `next` is the next candle, if this bar is not the last.
  unfoldable pub step_bar :
      Config F → Signal F → ℕ → Candle F → FeatureRow F → Option (Candle F) → Loop F → Loop F
  step_bar cfg sig i c r none s = settle_bar cfg i c s
  step_bar cfg sig i c r (some next) s =
      if not (is_no_trade sig.decision.decision)
        && is_none s.position
        && ltb_ℤ s.pending_bar (pos 0)
      then (if filtered cfg.direction sig.dir
          then s
          else settle_bar cfg i c (schedule cfg i r next sig s))
      else settle_bar cfg i c s

  unfoldable pub next_candle : List (Candle F × FeatureRow F) → Option (Candle F)
  next_candle [] = none
  next_candle ((c, _) ∷ _) = some c

  unfoldable pub run_bars :
      Config F → Option (Time → Option F) → ℕ → List (Candle F × FeatureRow F) → Loop F → Loop F
  run_bars cfg probs i [] s = s
  run_bars cfg probs i ((c, r) ∷ rest) s =
      run_bars cfg probs (suc i) rest
        (step_bar cfg (signal_of cfg probs s.gate c r) i c r (next_candle rest) s)

  unfoldable pub start : Config F → Loop F
  start cfg = record {
    gate = Gate.new cfg.gate_config;
    equity_curve = [];
    cumulative_pnl = num 0;
    total_fees = num 0;
    trades = [];
    position = none;
    entry_bar = negsuc 0;
    pending_bar = negsuc 0;
    pending = none;
    bars_in_market = pos 0;
  }

  -- Closes what is still open, at the last candle.
  unfoldable pub at_end : Config F → Candle F → Trade F → Trade F
  at_end cfg last t = record t {
    exit_price = exit_price_for_dir last.close t.direction cfg.slippage;
    exit_time = last.time;
    exit_reason = end_of_data;
  }

  unfoldable pub force_close : Config F → Candle F → Loop F → Loop F
  unfolding at_end
  force_close cfg last s = elim s.position [
    | none ↦ s
    | some t ↦
        let (done, fee) = close_trade (at_end cfg last t) cfg in
        record s {
          total_fees = s.total_fees ⊕ fee;
          trades = s.trades ++ (done ∷ []);
          cumulative_pnl = s.cumulative_pnl ⊕ done.pnl;
          bars_in_market = s.bars_in_market +ℤ done.holding_bars;
        }
  ]
