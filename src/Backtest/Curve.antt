-- ===== src/Backtest/Curve.antt =====
-- The length of the equity curve that internal/backtest/engine.go records.
use ai_trading_v.Prelude.{
  ℕ, zero, suc, ◌+◌, ◌-◌, ◌≤◌, ◌≡◌, refl, inl, inr, ◌≢◌, Option-cases, arith, List, [], ◌∷◌, length,
  drop, length-append, Option, none, some, String, eq_iff,
}
use ai_trading_v.Float.{Float64}
use ai_trading_v.Model.{Time, Candle, FeatureRow}
use ai_trading_v.Backtest.{Config, Trade}
use ai_trading_v.Backtest.Signal.{Signal, signal_of}
use ai_trading_v.Backtest.Engine.{
  Loop, schedule, execute, settle, exit_of, check_trade, check_exit, equity_at, finish_bar,
  settle_bar, step_bar, next_candle, run_bars, start, force_close,
}
use ai_trading_v.Backtest.Run.{Summary, finished, zip_bars, close_all, summarise, live_loop, run}

length-drop {ℓ} : {A : Type ℓ} (n : ℕ) (xs : List A) → length (drop n xs) ≡ length xs - n
length-drop zero xs = omega arith
length-drop (suc n) [] = omega arith
length-drop (suc n) (x ∷ xs) = omega (arith, length-drop n xs)

length-zip_bars :
    {F : Type 0} (cs : List (Candle F)) (rs : List (FeatureRow F))
    → length cs ≡ length rs
    → length (zip_bars cs rs) ≡ length cs
length-zip_bars [] rs e = refl
length-zip_bars (c ∷ cs) [] e = absurd (omega arith)
length-zip_bars (c ∷ cs) (r ∷ rs) e = omega (arith, length-zip_bars cs rs (omega arith))

module _ {F : Type 0} ⦃f : Float64 F⦄ where
  abbrev curve_length : Loop F → ℕ
  curve_length s = length s.equity_curve

  execute-curve :
      (i : ℕ) (c : Candle F) (s : Loop F) → curve_length (execute i c s) ≡ curve_length s
  unfolding execute
  execute-curve i c s = ground arith

  check_trade-curve :
      (cfg : Config F) (c : Candle F) (t : Trade F) (s : Loop F)
      → curve_length (check_trade cfg c t s) ≡ curve_length s
  unfolding check_trade settle
  check_trade-curve cfg c t s = elim (Option-cases (exit_of cfg c t)) [
    | inl stays ↦ rw (stays, check_trade)
    | inr (u, exits) ↦ rw (exits, check_trade)
  ]

  check_exit-curve :
      (cfg : Config F) (i : ℕ) (c : Candle F) (s : Loop F)
      → curve_length (check_exit cfg i c s) ≡ curve_length s
  unfolding check_exit
  check_exit-curve cfg i c s = elim (Option-cases s.position) [
    | inl e ↦ ground arith
    | inr (t, e) ↦ rw (e, check_exit) (check_trade-curve cfg c _ s)
  ]

  settle_bar-curve :
      (cfg : Config F) (i : ℕ) (c : Candle F) (s : Loop F)
      → curve_length (settle_bar cfg i c s) ≡ curve_length s + 1
  unfolding settle_bar finish_bar
  settle_bar-curve cfg i c s =
      let after = check_exit cfg i c (execute i c s) in
      omega (
        arith,
        length-append after.equity_curve (equity_at cfg c after ∷ []),
        check_exit-curve cfg i c (execute i c s),
        execute-curve i c s,
      )

  step_bar-curve_le :
      (cfg : Config F) (sig : Signal F) (i : ℕ) (c : Candle F) (r : FeatureRow F)
      (next : Option (Candle F)) (s : Loop F)
      → curve_length (step_bar cfg sig i c r next s) ≤ curve_length s + 1
  unfolding step_bar schedule
  step_bar-curve_le cfg sig i c r none s = omega (arith, settle_bar-curve cfg i c s)
  step_bar-curve_le cfg sig i c r (some next) s =
      ground
        (arith, settle_bar-curve cfg i c s, settle_bar-curve cfg i c (schedule cfg i r next sig s))

  step_bar-curve :
      (cfg : Config F) (sig : Signal F) (i : ℕ) (c : Candle F) (r : FeatureRow F)
      (next : Option (Candle F)) (s : Loop F)
      → cfg.direction ≢ "long"
      → cfg.direction ≢ "short"
      → curve_length (step_bar cfg sig i c r next s) ≡ curve_length s + 1
  unfolding step_bar schedule
  step_bar-curve cfg sig i c r none s l h = settle_bar-curve cfg i c s
  step_bar-curve cfg sig i c r (some next) s l h = ground (
    arith,
    eq_iff cfg.direction "long",
    eq_iff cfg.direction "short",
    settle_bar-curve cfg i c s,
    settle_bar-curve cfg i c (schedule cfg i r next sig s),
  )

  run_bars-curve :
      (cfg : Config F) (probs : Option (Time → Option F)) (i : ℕ)
      (rest : List (Candle F × FeatureRow F)) (s : Loop F)
      → cfg.direction ≢ "long"
      → cfg.direction ≢ "short"
      → curve_length (run_bars cfg probs i rest s) ≡ curve_length s + length rest
  unfolding run_bars
  run_bars-curve cfg probs i [] s l h = omega arith
  run_bars-curve cfg probs i ((c, r) ∷ rest) s l h =
      let sig = signal_of cfg probs s.gate c r in
      let s' = step_bar cfg sig i c r (next_candle rest) s in
      omega (
        arith,
        run_bars-curve cfg probs (suc i) rest s' l h,
        step_bar-curve cfg sig i c r (next_candle rest) s l h,
      )

  run_bars-curve_le :
      (cfg : Config F) (probs : Option (Time → Option F)) (i : ℕ)
      (rest : List (Candle F × FeatureRow F)) (s : Loop F)
      → curve_length (run_bars cfg probs i rest s) ≤ curve_length s + length rest
  unfolding run_bars
  run_bars-curve_le cfg probs i [] s = omega arith
  run_bars-curve_le cfg probs i ((c, r) ∷ rest) s =
      let sig = signal_of cfg probs s.gate c r in
      let s' = step_bar cfg sig i c r (next_candle rest) s in
      omega (
        arith,
        run_bars-curve_le cfg probs (suc i) rest s',
        step_bar-curve_le cfg sig i c r (next_candle rest) s,
      )

module _ {F : Type 0} ⦃f : Float64 F⦄ (day_of : Time → String) where
  close_all-curve :
      (cfg : Config F) (candles : List (Candle F)) (s : Loop F)
      → (close_all day_of cfg candles s).equity_curve ≡ s.equity_curve
  unfolding close_all force_close
  close_all-curve cfg [] s = refl
  close_all-curve cfg (c ∷ cs) s = ground arith

  live_loop-curve :
      (cfg : Config F) (probs : Option (Time → Option F)) (candles : List (Candle F))
      (features : List (FeatureRow F))
      → cfg.direction ≢ "long"
      → cfg.direction ≢ "short"
      → length candles ≡ length features
      → length (live_loop day_of cfg probs candles features).equity_curve
        ≡ length candles - cfg.warmup_bars
  unfolding live_loop start
  live_loop-curve cfg probs candles features l h e =
      let bars = drop cfg.warmup_bars (zip_bars candles features) in
      omega (
        arith,
        run_bars-curve cfg probs cfg.warmup_bars bars (start cfg) l h,
        length-drop cfg.warmup_bars (zip_bars candles features),
        length-zip_bars candles features e,
      )

  -- A finished run whose configuration has no direction filter (neither "long" nor "short") records
  -- one point of the equity curve for every bar after the warm-up.
  pub run_curve_length :
      (cfg : Config F) (probs : Option (Time → Option F)) (candles : List (Candle F))
      (features : List (FeatureRow F)) {out : Summary F}
      → cfg.direction ≢ "long"
      → cfg.direction ≢ "short"
      → run day_of cfg probs candles features ≡ finished out
      → length out.equity_curve ≡ length candles - cfg.warmup_bars
  unfolding run summarise
  run_curve_length cfg probs candles features {out} l h e =
      let final = live_loop day_of cfg probs candles features in
      ground
        (arith, live_loop-curve cfg probs candles features l h, close_all-curve cfg candles final)
