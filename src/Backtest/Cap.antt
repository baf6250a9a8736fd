-- ===== src/Backtest/Cap.antt =====
-- How many trades a run of internal/backtest/engine.go can take, and in what state it leaves them.
use ai_trading_v.Prelude.{
  ℕ, suc, ◌≤◌, ◌<◌, ◌≡◌, ◌≢◌, inl, inr, arith, pos_part, List, [], ◌∷◌, length, drop, length-append,
  Option-cases, Option, none, some, String,
}
use ai_trading_v.Float.{Float64}
use ai_trading_v.Model.{Time, Candle, FeatureRow}
use ai_trading_v.Gate
use ai_trading_v.Gate.{Gate, no_trade, Input}
use ai_trading_v.Backtest.{Config, close_trade}
use ai_trading_v.Backtest.Signal.{Signal, signal_of}
use ai_trading_v.Backtest.Engine.{Loop, step_bar, next_candle, run_bars, start, at_end, force_close}
use ai_trading_v.Backtest.Run.{
  Summary, finished, zip_bars, last_candle, close_all, summarise, live_loop, run,
}
use ai_trading_v.Backtest.Count.{
  Counted, signal_room, settle_bar-Counted, later-Counted, scheduled_bar-Counted,
}

module _ {F : Type 0} ⦃f : Float64 F⦄ where
  -- What the last bar leaves: nothing pending.
  abbrev pub Leaves : Option (Candle F) → Loop F → Type 0
  Leaves none s = s.pending ≡ none
  Leaves (some _) s = Unit {0}

  Leaves-of_clear : (next : Option (Candle F)) (s : Loop F) → s.pending ≡ none → Leaves next s
  Leaves-of_clear none s e = e
  Leaves-of_clear (some _) s e = tt

  step_bar-Counted :
      (cfg : Config F) (i : ℕ) (c : Candle F) (r : FeatureRow F) (next : Option (Candle F))
      (sig : Signal F) (s : Loop F)
      → (sig.decision.decision ≢ no_trade
          → s.gate.trade_count < pos_part s.gate.cfg.max_trades_per_day)
      → Counted cfg i s
      → Counted cfg (suc i) (step_bar cfg sig i c r next s)
        × Leaves next (step_bar cfg sig i c r next s)
  unfolding step_bar
  step_bar-Counted cfg i c r none sig s room h = settle_bar-Counted cfg i c s h
  step_bar-Counted cfg i c r (some next) sig s room h =
      let plain = settle_bar-Counted cfg i c s h in
      let planned = scheduled_bar-Counted cfg i c r next sig s in
      let skipped = later-Counted cfg i (suc i) s in
      (ground (arith, plain, planned, skipped, room), tt)

  run_bars-Counted :
      (cfg : Config F) (probs : Option (Time → Option F)) (i : ℕ)
      (rest : List (Candle F × FeatureRow F)) (s : Loop F)
      → Counted cfg i s
      → Leaves (next_candle rest) s
      → Counted cfg 0 (run_bars cfg probs i rest s) × ((run_bars cfg probs i rest s).pending ≡ none)
  unfolding run_bars next_candle
  run_bars-Counted cfg probs i [] s h e = (later-Counted cfg i 0 s e h, e)
  run_bars-Counted cfg probs i ((c, r) ∷ rest) s h e =
      let sig = signal_of cfg probs s.gate c r in
      let (kept, leaves) =
        step_bar-Counted cfg i c r (next_candle rest) sig s (signal_room cfg probs s.gate c r) h in
      run_bars-Counted cfg probs (suc i) rest (step_bar cfg sig i c r (next_candle rest) s) kept
        leaves

  start-Counted :
      (cfg : Config F) (i : ℕ) → Counted cfg i (start cfg) × ((start cfg).pending ≡ none)
  unfolding start Gate.new
  start-Counted cfg i = ground arith

  -- With the last position closed, the trades are all that the gate has counted.
  force_close-length :
      (cfg : Config F) (c : Candle F) (s : Loop F)
      → Counted cfg 0 s
      → s.pending ≡ none
      → length (force_close cfg c s).trades ≤ pos_part cfg.gate_config.max_trades_per_day
  unfolding force_close
  force_close-length cfg c s h e = elim (Option-cases s.position) [
    | inl shut ↦ rw (shut, force_close) (ground arith)
    | inr (t, open_at) ↦
        let one_more = length-append s.trades ((close_trade (at_end cfg c t) cfg).0 ∷ []) in
        rw (open_at, force_close) (ground arith)
  ]

module _ {F : Type 0} ⦃f : Float64 F⦄ (day_of : Time → String) where
  close_all-length :
      (cfg : Config F) (candles : List (Candle F)) (s : Loop F)
      → Counted cfg 0 s
      → s.pending ≡ none
      → length (close_all day_of cfg candles s).trades ≤ pos_part cfg.gate_config.max_trades_per_day
  unfolding close_all
  close_all-length cfg [] s h e = ground arith
  close_all-length cfg (c ∷ cs) s h e = force_close-length cfg (last_candle c cs) s h e

  live_loop-Counted :
      (cfg : Config F) (probs : Option (Time → Option F)) (candles : List (Candle F))
      (features : List (FeatureRow F))
      → Counted cfg 0 (live_loop day_of cfg probs candles features)
        × ((live_loop day_of cfg probs candles features).pending ≡ none)
  unfolding live_loop
  live_loop-Counted cfg probs candles features =
      let bars = drop cfg.warmup_bars (zip_bars candles features) in
      let (counted, clear) = start-Counted cfg cfg.warmup_bars in
      run_bars-Counted cfg probs cfg.warmup_bars bars (start cfg) counted
        (Leaves-of_clear (next_candle bars) (start cfg) clear)

  -- A whole run, however many days it spans, takes at most the gate's maximum of trades per day:
  -- nothing in it resets the gate's count.
  pub run_capped :
      (cfg : Config F) (probs : Option (Time → Option F)) (candles : List (Candle F))
      (features : List (FeatureRow F)) {out : Summary F}
      → run day_of cfg probs candles features ≡ finished out
      → length out.trades ≤ pos_part cfg.gate_config.max_trades_per_day
  unfolding run summarise
  run_capped cfg probs candles features {out} e =
      let final = live_loop day_of cfg probs candles features in
      let (counted, clear) = live_loop-Counted cfg probs candles features in
      ground (arith, close_all-length cfg candles final counted clear)
