-- ===== src/Backfill/Flow.antt =====
-- LoadCandlesAfter and LoadOrderFlow of internal/db/feature_store.go over the tables of one symbol.
use ai_trading_v.Prelude.{
  ℕ, ◌-◌, ◌*◌, ◌%◌, ◌==◌, ltb, leb, ◌&&◌, if◌then◌else◌, List, [], ◌∷◌, length, take, get_or,
  Option, none, some, String, str_eq,
}
use ai_trading_v.Float.{Float64, num}
use ai_trading_v.Model.{
  Time, Candle, OiRecord, FundingRate, LsRatio, OrderFlowSnapshot, minute, hour,
}

pub record LiqSnapshot (F : Type 0) : Type 0 where
  pub long_usd : F
  pub short_usd : F

-- The rows of one symbol and timeframe, each table in the order of its time, and the grouped sums of
-- the liquidations between two times, which the database computes and may fail to. A cut is the number
-- of rows after which the query of a table breaks, 0 where it fails at once, and `none` where it does
-- not; a row that arrives scans.
pub record Tables (F : Type 0) : Type 0 where
  pub candles : List (Candle F)
  pub open_interest : List (OiRecord F)
  pub funding_rates : List (FundingRate F)
  pub ls_ratios : List (LsRatio F)
  pub oi_cut : Option ℕ
  pub funding_cut : Option ℕ
  pub ls_cut : Option ℕ
  pub liq_aggregated : Time → Time → ℕ → Option (List (Time × LiqSnapshot F))

unfoldable pub parse_duration : String → ℕ
parse_duration t =
    if str_eq t "15m"
    then 15 * minute
    else if str_eq t "1h"
    then hour
    else if str_eq t "4h"
    then 4 * hour
    else if str_eq t "1d"
    then 24 * hour
    else 0

unfoldable pub bucket_length : String → ℕ
bucket_length timeframe =
    if parse_duration timeframe == 0 then 15 * minute else parse_duration timeframe

module _ {F : Type 0} where
  unfoldable pub after : Time → List (Candle F) → List (Candle F)
  after t [] = []
  after t (c ∷ cs) = let rest = after t cs in if ltb t c.time then c ∷ rest else rest

  unfoldable pub load_candles_after : List (Candle F) → Time → ℕ → List (Candle F)
  load_candles_after candles t limit = take limit (after t candles)

module _ {R : Type 0} where
  -- `time BETWEEN start AND end`, of a table whose rows have the time `time`.
  unfoldable pub between : (R → Time) → Time → Time → List R → List R
  between time start end [] = []
  between time start end (r ∷ rs) =
      let rest = between time start end rs in
      if leb start (time r) && leb (time r) end then r ∷ rest else rest

  -- The rows that loadOI, loadFunding or loadLS returns: it drops the errors of its query, so a query
  -- that breaks gives the rows up to there.
  unfoldable pub delivered : Option ℕ → List R → List R
  delivered none rs = rs
  delivered (some n) rs = take n rs

  -- One of the three inner loops: the last row up to `ts`, if any is left, and the rows after it.
  unfoldable pub advance : (R → Time) → Time → Option R → List R → Option R × List R
  advance time ts last [] = (last, [])
  advance time ts last (r ∷ rs) =
      let rest = advance time ts (some r) rs in if leb (time r) ts then rest else (last, r ∷ rs)

module _ {F : Type 0} ⦃f : Float64 F⦄ where
  unfoldable pub value_of : {R : Type 0} → (R → F) → Option R → F
  value_of field none = num 0
  value_of field (some r) = field r

  unfoldable pub liq_at : List (Time × LiqSnapshot F) → Time → LiqSnapshot F
  liq_at [] bucket = record { long_usd = num 0; short_usd = num 0 }
  liq_at (b ∷ bs) bucket = if b.0 == bucket then b.1 else liq_at bs bucket

  unfoldable pub snapshot :
      ℕ
      → List (Time × LiqSnapshot F)
      → Time
      → Option (OiRecord F)
      → Option (FundingRate F)
      → Option (LsRatio F)
      → OrderFlowSnapshot F
  snapshot duration liq ts oi fr ls =
      let bucket = liq_at liq (ts - ts % duration) in
      record {
        ts = ts;
        oi = value_of (λ r. r.oi) oi;
        funding_rate = value_of (λ r. r.rate) fr;
        ls_buy_ratio = value_of (λ r. r.buy_ratio) ls;
        ls_sell_ratio = value_of (λ r. r.sell_ratio) ls;
        liq_long_usd = bucket.long_usd;
        liq_short_usd = bucket.short_usd;
      }

  -- The loop over the timestamps, with the rows that are left of each table.
  unfoldable pub join_flow :
      ℕ
      → List (Time × LiqSnapshot F)
      → List (OiRecord F)
      → List (FundingRate F)
      → List (LsRatio F)
      → List Time
      → List (OrderFlowSnapshot F)
  join_flow duration liq ois frs lss [] = []
  join_flow duration liq ois frs lss (ts ∷ timestamps) =
      let oi = advance (λ r. r.time) ts none ois in
      let fr = advance (λ r. r.time) ts none frs in
      let ls = advance (λ r. r.time) ts none lss in
      snapshot duration liq ts oi.0 fr.0 ls.0 ∷ join_flow duration liq oi.1 fr.1 ls.1 timestamps

  -- `none` is an error of the query for liquidations, the only one that is not dropped.
  unfoldable pub load_order_flow :
      Tables F → String → List Time → Option (List (OrderFlowSnapshot F))
  load_order_flow tables timeframe [] = some []
  load_order_flow tables timeframe (start ∷ later) =
      let end = get_or (start ∷ later) (length later) start in
      let duration = bucket_length timeframe in
      elim (tables.liq_aggregated start end duration) [
        | none ↦ none
        | some liq ↦ some (
            join_flow duration liq
              (delivered tables.oi_cut (between (λ r. r.time) start end tables.open_interest))
              (delivered tables.funding_cut (between (λ r. r.time) start end tables.funding_rates))
              (delivered tables.ls_cut (between (λ r. r.time) start end tables.ls_ratios))
              (start ∷ later))
      ]
