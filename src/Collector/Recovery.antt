-- ===== src/Collector/Recovery.antt =====
-- internal/collector/recovery: the gap between the table and the exchange, and its filling.
use ai_trading_v.Prelude.{
  ℕ, zero, suc, ◌+◌, ◌-◌, ◌*◌, ◌/◌, ◌==◌, ltb, Bool, true, false, not, if◌then◌else◌, String, List,
  [], ◌∷◌, ◌++◌, length, Option, none, some,
}
use ai_trading_v.Model.{Time, Candle, is_zero_time, timeframe_duration}
use ai_trading_v.Collector.Mapper.{Parser, rest_klines_to_candles}
use ai_trading_v.Collector.Paging.{page, rate_limited, refused, Exchange, to_milli}

pub record GapReport : Type 0 where
  pub symbol : String
  pub timeframe : String
  pub gap_start : Time
  pub gap_end : Time
  pub missing_bars : ℕ
  pub has_gap : Bool

unfoldable pub no_gap : GapReport
no_gap = record {
  symbol = "";
  timeframe = "";
  gap_start = 0;
  gap_end = 0;
  missing_bars = 0;
  has_gap = false;
}

-- The times are those that the table and the exchange answer, `none` for an error.
unfoldable pub detect_gap : ℕ → String → String → Option Time → Option Time → Option GapReport
detect_gap gap_bars symbol tf none exchange_latest = none
detect_gap gap_bars symbol tf (some db_latest) none =
    if is_zero_time db_latest then some no_gap else none
detect_gap gap_bars symbol tf (some db_latest) (some exchange_latest) =
    let diff = exchange_latest - db_latest in
    if is_zero_time db_latest
    then some no_gap
    else if ltb (timeframe_duration tf * gap_bars) diff
    then some (record {
      symbol = symbol;
      timeframe = tf;
      gap_start = db_latest;
      gap_end = exchange_latest;
      missing_bars = diff / timeframe_duration tf;
      has_gap = true;
    })
    else some no_gap

-- How Fill ends, with the candles it stored. An error is skipped.
pub data Filled (F : Type 0) : Type 0 where
  filled : List (Candle F) → Filled F
  skipped : List (Candle F) → Filled F
  out_of_fuel : Filled F

pub data Step (F : Type 0) : Type 0 where
  onward : ℕ → List (Candle F) → Step F
  finish : Filled F → Step F

module _ {F : Type 0} where
  unfoldable pub last_time : List (Candle F) → Time
  last_time [] = 0
  last_time (c ∷ []) = c.time
  last_time (c ∷ d ∷ cs) = last_time (d ∷ cs)

  module _ (parser : Parser F) (exchange : Exchange) (insert_ok : List (Candle F) → Bool)
      (symbol timeframe : String) where
    unfoldable pub fill_page : List (Candle F) → List (List String) → Step F
    fill_page stored items =
        let candles = rest_klines_to_candles parser items symbol timeframe in
        if length items == 0
        then finish (filled stored)
        else if not (insert_ok candles)
        then finish (skipped stored)
        else if ltb (length candles) 200
        then finish (filled (stored ++ candles))
        else onward (to_milli (last_time candles) + 1) (stored ++ candles)

    unfoldable pub fill_step : ℕ → ℕ → List (Candle F) → Step F
    fill_step cursor end stored =
        if not (ltb cursor end) then finish (filled stored) else (elim (exchange cursor end 200 0) [
          | page items ↦ fill_page stored items
          | rate_limited ↦ finish (skipped stored)
          | refused ↦ finish (skipped stored)
        ])

    unfoldable pub fill_loop : ℕ → ℕ → ℕ → List (Candle F) → Filled F
    fill_loop zero cursor end stored = out_of_fuel
    fill_loop (suc fuel) cursor end stored = elim (fill_step cursor end stored) [
      | onward later all ↦ fill_loop fuel later end all
      | finish o ↦ o
    ]
