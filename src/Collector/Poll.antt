-- ===== src/Collector/Poll.antt =====
-- The funding rates of internal/collector/poll/backfill.go and the poller of poll/ls_ratio.go.
use ai_trading_v.Prelude.{
  ℕ, zero, suc, ◌-◌, ◌==◌, ltb, leb, Bool, ◌||◌, if◌then◌else◌, true, false, String, List, [], ◌∷◌,
  ◌++◌, length, Option, none, some,
}
use ai_trading_v.Float.{Float64}
use ai_trading_v.Model.{FundingRate, LsRatio}
use ai_trading_v.Collector.Mapper.{Parser, unix_milli, LsRatioItem, rest_to_ls_ratio}
use ai_trading_v.Collector.Validate.{validate_ls_ratio}

pub record FundingRateItem : Type 0 where
  pub symbol : String
  pub funding_rate : String
  pub funding_time : ℕ

module _ {F : Type 0} where
  unfoldable pub rest_to_funding_rate : Parser F → FundingRateItem → FundingRate F
  rest_to_funding_rate parser item = record {
    time = unix_milli item.funding_time;
    symbol = item.symbol;
    rate = parser.parse_float item.funding_rate;
    interval_h = 0;
  }

  -- The items from 2020 on, under the symbol asked for, as far as the store takes them: a row that it
  -- refuses is logged and passed over.
  unfoldable pub funding_rows :
      Parser F → (FundingRate F → Bool) → String → List FundingRateItem → List (FundingRate F)
  funding_rows parser insert_ok symbol [] = []
  funding_rows parser insert_ok symbol (item ∷ items) =
      let rest = funding_rows parser insert_ok symbol items in
      let row = record (rest_to_funding_rate parser item) { symbol = symbol } in
      if ltb item.funding_time 1_577_836_800_000
      then rest
      else if insert_ok row
      then row ∷ rest
      else rest

unfoldable pub last_funding_time : List FundingRateItem → ℕ
last_funding_time [] = 0
last_funding_time (item ∷ []) = item.funding_time
last_funding_time (item ∷ next ∷ items) = last_funding_time (next ∷ items)

-- How the loop ends, with the rows stored.
pub data Funded (F : Type 0) : Type 0 where
  funded : List (FundingRate F) → Funded F
  failed : List (FundingRate F) → Funded F
  out_of_fuel : Funded F

module _ {F : Type 0} (parser : Parser F) (insert_ok : FundingRate F → Bool)
    (ask : ℕ → ℕ → Option (List FundingRateItem)) (symbol : String) where
  -- The loop of backfillFundingRates. `ask` is the answer of the exchange for a start and an end.
  unfoldable pub backfill_funding_rates : ℕ → ℕ → ℕ → List (FundingRate F) → Funded F
  backfill_funding_rates zero start end stored = out_of_fuel
  backfill_funding_rates (suc fuel) start end stored = elim (ask start end) [
    | none ↦ failed stored
    | some items ↦
        elim (length items == 0
          || leb (last_funding_time items - 1) start
          || ltb (length items) 200) [
            | true ↦ funded (stored ++ funding_rows parser insert_ok symbol items)
            | false ↦
                backfill_funding_rates fuel start (last_funding_time items - 1)
                  (stored ++ funding_rows parser insert_ok symbol items)
          ]
  ]

-- The end of a poll with the rows stored: all symbols, or an error of the store.
pub data Polled (F : Type 0) : Type 0 where
  polled : List (LsRatio F) → Polled F
  store_failed : List (LsRatio F) → Polled F

module _ {F : Type 0} ⦃f : Float64 F⦄ where
  -- The items of one symbol. A row that fails its check is passed over; an error of the store ends the poll.
  unfoldable pub poll_items :
      Parser F → (LsRatio F → Bool) → String → List LsRatioItem → List (LsRatio F) → Polled F
  poll_items parser insert_ok symbol [] stored = polled stored
  poll_items parser insert_ok symbol (item ∷ items) stored =
      let row : LsRatio F = rest_to_ls_ratio parser item symbol "15min" in
      let skip = poll_items parser insert_ok symbol items stored in
      let take = poll_items parser insert_ok symbol items (stored ++ (row ∷ [])) in
      elim (validate_ls_ratio row) [
        | some reason ↦ skip
        | none ↦ if insert_ok row then take else store_failed stored
      ]

  -- `ask` is the answer of the exchange for a symbol, `none` for an error, which is logged.
  unfoldable pub poll :
      Parser F
      → (LsRatio F → Bool)
      → (String → Option (List LsRatioItem))
      → List String
      → List (LsRatio F)
      → Polled F
  poll parser insert_ok ask [] stored = polled stored
  poll parser insert_ok ask (symbol ∷ symbols) stored = elim (ask symbol) [
    | none ↦ poll parser insert_ok ask symbols stored
    | some items ↦ elim (poll_items parser insert_ok symbol items stored) [
      | polled rows ↦ poll parser insert_ok ask symbols rows
      | store_failed rows ↦ store_failed rows
    ]
  ]
