-- ===== src/Collector/Scan.antt =====
-- The loops of internal/collector/recovery over symbols and timeframes: Run of detector.go, Fill of
-- filler.go and runOnce of scheduler.go.
use ai_trading_v.Prelude.{
  ℕ, suc, not, if◌then◌else◌, String, str_eq, List, [], ◌∷◌, ◌++◌, Bool, Option, none, some,
}
use ai_trading_v.Model.{Time, Candle, bybit_interval}
use ai_trading_v.Collector.Mapper.{Parser}
use ai_trading_v.Collector.Paging.{Exchange, to_milli}
use ai_trading_v.Collector.Recovery.{GapReport, detect_gap, Filled, filled, fill_loop}

-- The timeframes of NewDetector.
abbrev pub timeframes : List String
timeframes = "15m" ∷ "1h" ∷ []

-- The answers to LatestTime, by symbol and timeframe, and to LatestCandleTime, by symbol and interval.
pub record Latest : Type 0 where
  pub stored : String → String → Option Time
  pub listed : String → String → Option Time

-- The report of one timeframe, if it has a gap. An error is logged and passed over.
unfoldable pub report_of : ℕ → Latest → String → String → List GapReport
report_of gap_bars latest symbol tf =
    elim (detect_gap gap_bars symbol tf (latest.stored symbol tf)
      (latest.listed symbol (bybit_interval tf))) [
        | none ↦ []
        | some report ↦ if report.has_gap then report ∷ [] else []
      ]

unfoldable pub detect_timeframes : ℕ → Latest → String → List String → List GapReport
detect_timeframes gap_bars latest symbol [] = []
detect_timeframes gap_bars latest symbol (tf ∷ tfs) =
    report_of gap_bars latest symbol tf ++ detect_timeframes gap_bars latest symbol tfs

unfoldable pub detector_run : ℕ → Latest → List String → List GapReport
detector_run gap_bars latest [] = []
detector_run gap_bars latest (symbol ∷ symbols) =
    detect_timeframes gap_bars latest symbol timeframes ++ detector_run gap_bars latest symbols

unfoldable pub interval_to_bybit : String → String
interval_to_bybit tf = if str_eq tf "15m" then "15" else if str_eq tf "1h" then "60" else tf

module _ {F : Type 0} (parser : Parser F) (exchanges : String → String → Exchange)
    (insert_ok : List (Candle F) → Bool) where
  -- The cursor rises in every round, so the milliseconds of the end are fuel enough.
  unfoldable pub fill : GapReport → Filled F
  fill report =
      if not report.has_gap
      then filled []
      else fill_loop parser (exchanges report.symbol (interval_to_bybit report.timeframe)) insert_ok
          report.symbol report.timeframe (suc (suc (to_milli report.gap_end)))
          (to_milli report.gap_start) (to_milli report.gap_end) []

  unfoldable pub fill_all : List GapReport → List (Filled F)
  fill_all [] = []
  fill_all (report ∷ reports) = fill report ∷ fill_all reports

  -- `runOnce`: what became of each gap.
  unfoldable pub run_once : ℕ → Latest → List String → List (Filled F)
  run_once gap_bars latest symbols = fill_all (detector_run gap_bars latest symbols)
