-- ===== src/Backtest/Sound.antt =====
-- What every trade of a run of internal/backtest/engine.go looks like.
use ai_trading_v.Prelude.{
  ℕ, suc, ◌-◌, ◌≤◌, ◌≡◌, refl, ◌⊎◌, inl, inr, true, Option-cases, arith, pos, ◌≤ℤ◌, List, [], ◌∷◌,
  drop, drop-nil, All, All-append, Option, none, some, String,
}
use ai_trading_v.Float.{Float64, valid}
use ai_trading_v.Float.Laws.{Ieee}
use ai_trading_v.Float.Interval.{num-valid}
use ai_trading_v.Model.{Time, Candle, FeatureRow}
use ai_trading_v.Backtest.{Config, Trade, close_trade}
use ai_trading_v.Backtest.Signal.{Signal, signal_of}
use ai_trading_v.Backtest.Engine.{
  Loop, schedule, opened, execute, exit_of, check_trade, check_exit, finish_bar, settle_bar,
  step_bar, next_candle, run_bars, start, at_end, force_close,
}
use ai_trading_v.Backtest.Run.{
  Summary, finished, zip_bars, last_candle, close_all, summarise, live_loop, run,
}
use ai_trading_v.Backtest.Position.{
  Sound, Open, Entered, Good, exit_of-closes, exit_of-stays, close_trade-Sound, settle-Good, age,
  at_end-closes, flat-Good, schedule-Good,
}

module _ {F : Type 0} ⦃f : Float64 F⦄ where
  module _ (ieee : Ieee F) where
    check_trade-Good :
        (cfg : Config F) (i entered : ℕ) (c : Candle F) (t : Trade F) (s : Loop F)
        → All (Sound cfg) s.trades
        → s.entry_bar ≡ pos entered
        → entered ≤ i
        → (entered ≡ i) ⊎ ¬ (cfg.holding_bars ≤ℤ pos (i - entered))
        → t.holding_bars ≡ pos (suc i - entered)
        → valid t.pnl ≡ true
        → Good cfg (suc i) (check_trade cfg c t s)
    unfolding check_trade
    check_trade-Good cfg i entered c t s a e b o g v = elim (Option-cases (exit_of cfg c t)) [
      | inl stays ↦
          rw (stays, check_trade)
            (record {
              sound = a;
              running = record {
                entered = entered;
                entry_at = e;
                before = omega arith;
                aged = g;
                short_of = λ h. exit_of-stays cfg c t stays (rw g h);
                unsettled = v;
              };
            })
      | inr (u, exits) ↦
          let (reason, held, pnl) = exit_of-closes cfg c t exits in
          rw (exits, check_trade)
            (settle-Good cfg (suc i) u s a (
              close_trade-Sound ieee u cfg reason (rw (held, g) (omega arith))
                (rw (held, g) (ground arith)) (rw pnl v)))
    ]

    execute-Entered :
        (cfg : Config F) (i : ℕ) (c : Candle F) (s : Loop F)
        → Good cfg i s
        → All (Sound cfg) (execute i c s).trades
          × Entered cfg i (execute i c s).entry_bar (execute i c s).position
    unfolding execute opened
    execute-Entered cfg i c s h = ground (arith, h.sound, h.running, num-valid ieee 0 (omega arith))

    check_exit-Good :
        (cfg : Config F) (i : ℕ) (c : Candle F) (s : Loop F)
        → All (Sound cfg) s.trades
        → Entered cfg i s.entry_bar s.position
        → Good cfg (suc i) (check_exit cfg i c s)
    unfolding check_exit
    check_exit-Good cfg i c s a h = go s.position refl
      where
        go : (o : Option (Trade F)) → s.position ≡ o → Good cfg (suc i) (check_exit cfg i c s)
        go none e = rw (e, check_exit) (record { sound = a; running = rw e tt })
        go (some t) e = elim (rw e at h) [
          | inl r ↦
              rw (e, check_exit)
                (check_trade-Good cfg i r.entered c _ s a r.entry_at (omega arith) (inr r.short_of)
                  (rw r.entry_at (age i r.entered (omega arith))) r.unsettled)
          | inr (now, v) ↦
              rw (e, check_exit)
                (check_trade-Good cfg i i c _ s a now (omega arith) (inl refl)
                  (rw now (age i i (omega arith))) v)
        ]

    settle_bar-Good :
        (cfg : Config F) (i : ℕ) (c : Candle F) (s : Loop F)
        → Good cfg i s
        → Good cfg (suc i) (settle_bar cfg i c s)
    unfolding settle_bar finish_bar
    settle_bar-Good cfg i c s h =
        let (sound, entered) = execute-Entered cfg i c s h in
        let good = check_exit-Good cfg i c (execute i c s) sound entered in
        record { sound = good.sound; running = good.running }

    step_bar-Good :
        (cfg : Config F) (sig : Signal F) (i : ℕ) (c : Candle F) (r : FeatureRow F)
        (next : Option (Candle F)) (s : Loop F)
        → Good cfg i s
        → Good cfg (suc i) (step_bar cfg sig i c r next s)
    unfolding step_bar
    step_bar-Good cfg sig i c r none s h = settle_bar-Good cfg i c s h
    step_bar-Good cfg sig i c r (some next) s h =
        let plain = settle_bar-Good cfg i c s h in
        let planned =
          settle_bar-Good cfg i c (schedule cfg i r next sig s)
            (schedule-Good cfg i r next sig s h) in
        let skipped = λ (e : s.position ≡ none). flat-Good cfg i (suc i) s e h in
        ground (arith, plain, planned, skipped)

    run_bars-Good :
        (cfg : Config F) (probs : Option (Time → Option F)) (i : ℕ)
        (rest : List (Candle F × FeatureRow F)) (s : Loop F)
        → Good cfg i s
        → (j : ℕ) × Good cfg j (run_bars cfg probs i rest s)
    unfolding run_bars
    run_bars-Good cfg probs i [] s h = (i, h)
    run_bars-Good cfg probs i ((c, r) ∷ rest) s h =
        let sig = signal_of cfg probs s.gate c r in
        run_bars-Good cfg probs (suc i) rest _ (step_bar-Good cfg sig i c r (next_candle rest) s h)

    force_close-Sound :
        (cfg : Config F) (i : ℕ) (c : Candle F) (s : Loop F)
        → Good cfg i s
        → All (Sound cfg) (force_close cfg c s).trades
    unfolding force_close at_end
    force_close-Sound cfg i c s h = go s.position refl h.running
      where
        go :
            (o : Option (Trade F))
            → s.position ≡ o
            → Open cfg i s.entry_bar o
            → All (Sound cfg) (force_close cfg c s).trades
        go none e r = rw (e, force_close) h.sound
        go (some t) e r =
            rw (e, force_close)
              (All-append (Sound cfg) s.trades ((close_trade (at_end cfg c t) cfg).0 ∷ []) h.sound (
                close_trade-Sound ieee (at_end cfg c t) cfg (at_end-closes cfg c t)
                    (rw r.aged (omega arith)) (rw r.aged (ground (arith, r.short_of))) r.unsettled,
                tt,
              ))

    start-Good : (cfg : Config F) (i : ℕ) → Good cfg i (start cfg)
    unfolding start
    start-Good cfg i = record { sound = tt; running = tt }

module _ {F : Type 0} ⦃f : Float64 F⦄ (ieee : Ieee F) (day_of : Time → String) where
  close_all-Sound :
      (cfg : Config F) (i : ℕ) (c : Candle F) (cs : List (Candle F)) (s : Loop F)
      → Good cfg i s
      → All (Sound cfg) (close_all day_of cfg (c ∷ cs) s).trades
  unfolding close_all
  close_all-Sound cfg i c cs s h = force_close-Sound ieee cfg i (last_candle c cs) s h

  All-closed :
      (cfg : Config F) (probs : Option (Time → Option F)) (candles : List (Candle F))
      (features : List (FeatureRow F))
      → All
          (Sound cfg)
          (close_all day_of cfg candles (live_loop day_of cfg probs candles features)).trades
  unfolding live_loop close_all run_bars start
  All-closed cfg probs [] features = rw (drop-nil cfg.warmup_bars) tt
  All-closed cfg probs (c ∷ cs) features =
      let bars = drop cfg.warmup_bars (zip_bars (c ∷ cs) features) in
      let (j, good) =
        run_bars-Good ieee cfg probs cfg.warmup_bars bars (start cfg)
          (start-Good ieee cfg cfg.warmup_bars) in
      close_all-Sound cfg j c cs _ good

  -- Every trade of a finished run is closed, was held for at least one bar and for no longer than the
  -- holding period (one bar, if that is shorter), and has a finite profit or loss.
  pub run_trades-Sound :
      (cfg : Config F) (probs : Option (Time → Option F)) (candles : List (Candle F))
      (features : List (FeatureRow F)) {out : Summary F}
      → run day_of cfg probs candles features ≡ finished out
      → All (Sound cfg) out.trades
  unfolding run summarise
  run_trades-Sound cfg probs candles features {out} e =
      ground (arith, All-closed cfg probs candles features)
