-- ===== src/Backtest/Run.antt =====
-- `Engine.Run` of internal/backtest/engine.go as a whole: the checks of the input, the loop, the last
-- close and the summary.
use ai_trading_v.Prelude.{
  ℕ, suc, ◌+◌, ◌-◌, ◌==◌, not, ltb, if◌then◌else◌, ℤ, pos, ◌+ℤ◌, ltb_ℤ, List, [], ◌∷◌, length, drop,
  Option, none, some, String,
}
use ai_trading_v.Float.{Float64}
use ai_trading_v.Model.{Time, Candle, FeatureRow}
use ai_trading_v.Backtest.{Config, Trade}
use ai_trading_v.Backtest.Engine.{Loop, run_bars, start, force_close}
use ai_trading_v.Backtest.Metrics.{Metrics, calculate_metrics}

pub data RunError : Type 0 where
  length_mismatch : ℕ → ℕ → RunError
  too_few_bars : ℤ → ℕ → RunError
  timestamp_mismatch : ℕ → RunError

pub record Summary (F : Type 0) : Type 0 where
  pub config : Config F
  pub trades : List (Trade F)
  pub metrics : Metrics F
  pub equity_curve : List F

-- `panicked` is the capacity of the equity curve, `len(candles) - WarmupBars`, below zero.
pub data RunResult (F : Type 0) : Type 0 where
  failed : RunError → RunResult F
  finished : Summary F → RunResult F
  panicked : RunResult F

module _ {F : Type 0} where
  abbrev pub zip_bars : List (Candle F) → List (FeatureRow F) → List (Candle F × FeatureRow F)
  zip_bars (c ∷ cs) (r ∷ rs) = (c, r) ∷ zip_bars cs rs
  zip_bars _ _ = []

  -- The first bar whose candle and features differ in time.
  unfoldable pub mismatch_at : ℕ → List (Candle F × FeatureRow F) → Option ℕ
  mismatch_at i [] = none
  mismatch_at i ((c, r) ∷ rest) =
      let later = mismatch_at (suc i) rest in if not (c.time == r.ts) then some i else later

  unfoldable pub last_candle : Candle F → List (Candle F) → Candle F
  last_candle c [] = c
  last_candle c (d ∷ ds) = last_candle d ds

module _ {F : Type 0} ⦃f : Float64 F⦄ (day_of : Time → String) where
  -- After the loop: what is still open is closed at the last candle.
  unfoldable pub close_all : Config F → List (Candle F) → Loop F → Loop F
  close_all cfg [] s = s
  close_all cfg (c ∷ cs) s = force_close cfg (last_candle c cs) s

  unfoldable pub summarise : Config F → List (Candle F) → Loop F → Summary F
  summarise cfg candles s = record {
    config = cfg;
    trades = s.trades;
    metrics =
        calculate_metrics day_of s.trades cfg.initial_capital (length candles - cfg.warmup_bars)
          s.bars_in_market s.total_fees;
    equity_curve = s.equity_curve;
  }

  -- The bars from the end of the warm-up, with the position of the first.
  unfoldable pub live_loop :
      Config F → Option (Time → Option F) → List (Candle F) → List (FeatureRow F) → Loop F
  live_loop cfg probs candles features =
      run_bars cfg probs cfg.warmup_bars (drop cfg.warmup_bars (zip_bars candles features))
        (start cfg)

  unfoldable pub run :
      Config F → Option (Time → Option F) → List (Candle F) → List (FeatureRow F) → RunResult F
  run cfg probs candles features =
      let n = length candles in
      let min_bars = pos (cfg.warmup_bars + 2) +ℤ cfg.holding_bars in
      if not (n == length features)
      then failed (length_mismatch n (length features))
      else if ltb_ℤ (pos n) min_bars
      then failed (too_few_bars min_bars n)
      else elim (mismatch_at 0 (zip_bars candles features)) [
        | some i ↦ failed (timestamp_mismatch i)
        | none ↦
            if ltb n cfg.warmup_bars
            then panicked
            else finished (
                summarise cfg candles
                  (close_all cfg candles (live_loop cfg probs candles features)))
      ]
