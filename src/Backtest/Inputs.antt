-- ===== src/Backtest/Inputs.antt =====
-- Which inputs `Engine.Run` of internal/backtest/engine.go accepts.
use ai_trading_v.Prelude.{
  ℕ, suc, ◌+◌, ◌≤◌, ◌<◌, ltb, if◌then◌else◌, ◌≡◌, ◌∙◌, ◌↔◌, refl, Option-cases, inl, inr, arith,
  pos, ◌+ℤ◌, ◌≤ℤ◌, List, [], ◌∷◌, length, All, Option, none, String,
}
use ai_trading_v.Float.{Float64}
use ai_trading_v.Model.{Time, Candle, FeatureRow}
use ai_trading_v.Backtest.{Config}
use ai_trading_v.Backtest.Run.{
  RunResult, Summary, failed, finished, panicked, zip_bars, mismatch_at, close_all, summarise,
  live_loop, run,
}

module _ {F : Type 0} where
  -- A candle and its features have one time.
  abbrev pub Aligned : Candle F × FeatureRow F → Type 0
  Aligned b = b.0.time ≡ b.1.ts

  mismatch_at-none :
      (i : ℕ) (bars : List (Candle F × FeatureRow F))
      → (mismatch_at i bars ≡ none) ↔ All Aligned bars
  unfolding mismatch_at
  mismatch_at-none i [] = (λ h. tt, λ h. refl)
  mismatch_at-none i ((c, r) ∷ rest) =
      let (to, from) = mismatch_at-none (suc i) rest in
      (λ h. ground (arith, h, to), λ h. ground (arith, h, from))

-- What an input must meet.
pub record Accepted {F : Type 0} (cfg : Config F) (candles : List (Candle F))
    (features : List (FeatureRow F)) : Type 0 where
  pub same_length : length candles ≡ length features
  pub enough : pos (cfg.warmup_bars + 2) +ℤ cfg.holding_bars ≤ℤ pos (length candles)
  pub aligned : All Aligned (zip_bars candles features)

module _ {F : Type 0} ⦃f : Float64 F⦄ (day_of : Time → String) where
  -- What `run` returns on an input that passes the checks.
  after_checks :
      (cfg : Config F) (probs : Option (Time → Option F)) (candles : List (Candle F))
      (features : List (FeatureRow F))
      → RunResult F
  after_checks cfg probs candles features =
      if ltb (length candles) cfg.warmup_bars
      then panicked
      else finished (
          summarise day_of cfg candles
            (close_all day_of cfg candles (live_loop day_of cfg probs candles features)))

  run-Accepted :
      (cfg : Config F) (probs : Option (Time → Option F)) (candles : List (Candle F))
      (features : List (FeatureRow F))
      → Accepted cfg candles features
      → run day_of cfg probs candles features ≡ after_checks cfg probs candles features
  unfolding run after_checks
  run-Accepted cfg probs candles features h =
      let none_found = (mismatch_at-none 0 (zip_bars candles features)).1 h.aligned in
      ground (arith, none_found, h.same_length, h.enough)

  -- A run that returns no error.
  abbrev pub Passed : RunResult F → Type 0
  Passed (failed e) = ⊥
  Passed _ = Unit {0}

  Accepted-of_Passed :
      (cfg : Config F) (probs : Option (Time → Option F)) (candles : List (Candle F))
      (features : List (FeatureRow F))
      → Passed (run day_of cfg probs candles features)
      → Accepted cfg candles features
  unfolding run
  Accepted-of_Passed cfg probs candles features e =
      elim (Option-cases (mismatch_at 0 (zip_bars candles features))) [
        | inl none_found ↦
            let (to, _) = mismatch_at-none 0 (zip_bars candles features) in
            record {
              same_length = ground (arith, e, none_found);
              enough = ground (arith, e, none_found);
              aligned = to none_found;
            }
        | inr (i, found) ↦ absurd (ground (arith, e, found))
      ]

  finished_warm :
      (cfg : Config F) (probs : Option (Time → Option F)) (candles : List (Candle F))
      (features : List (FeatureRow F))
      → Accepted cfg candles features
      → ((s : Summary F) × (run day_of cfg probs candles features ≡ finished s))
        ↔ (cfg.warmup_bars ≤ length candles)
  unfolding after_checks
  finished_warm cfg probs candles features h =
      let same = run-Accepted cfg probs candles features h in
      (
        λ (s, e). ground (arith, e, same),
        λ warm. (
          summarise day_of cfg candles
              (close_all day_of cfg candles (live_loop day_of cfg probs candles features)),
          same ∙ ground (arith, warm),
        ),
      )

  panicked_cold :
      (cfg : Config F) (probs : Option (Time → Option F)) (candles : List (Candle F))
      (features : List (FeatureRow F))
      → Accepted cfg candles features
      → (run day_of cfg probs candles features ≡ panicked) ↔ (length candles < cfg.warmup_bars)
  unfolding after_checks
  panicked_cold cfg probs candles features h =
      let same = run-Accepted cfg probs candles features h in
      (λ e. ground (arith, e, same), λ cold. same ∙ ground (arith, cold))

  -- A backtest returns no error exactly where there are as many feature rows as candles, enough bars
  -- for the warm-up, a holding period and two more, and each row has the time of its candle. It then
  -- finishes with a summary where the candles are at least as many as the bars of the warm-up, and
  -- panics where they are fewer, which a negative holding period lets through.
  pub run_finishes_iff :
      (cfg : Config F) (probs : Option (Time → Option F)) (candles : List (Candle F))
      (features : List (FeatureRow F))
      → (((s : Summary F) × (run day_of cfg probs candles features ≡ finished s))
          ↔ (Accepted cfg candles features × (cfg.warmup_bars ≤ length candles)))
        × ((run day_of cfg probs candles features ≡ panicked)
            ↔ (Accepted cfg candles features × (length candles < cfg.warmup_bars)))
  run_finishes_iff cfg probs candles features = (
    (
      λ (s, e).
          let h = Accepted-of_Passed cfg probs candles features (rw (e) tt) in
          (h, (finished_warm cfg probs candles features h).0 (s, e)),
      λ (h, warm). (finished_warm cfg probs candles features h).1 warm,
    ),
    (
      λ e.
          let h = Accepted-of_Passed cfg probs candles features (rw (e) tt) in
          (h, (panicked_cold cfg probs candles features h).0 e),
      λ (h, cold). (panicked_cold cfg probs candles features h).1 cold,
    ),
  )
