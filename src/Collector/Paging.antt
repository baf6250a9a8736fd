-- ===== src/Collector/Paging.antt =====
-- internal/collector/poll/backfill.go: the history of a pair, page by page into the past. The context is
-- never cancelled, and the waits between attempts are left out.
use ai_trading_v.Prelude.{
  ℕ, zero, suc, ◌+◌, ◌-◌, ◌/◌, ◌==◌, ltb, leb, Bool, false, not, ◌||◌, if◌then◌else◌, List, [], ◌∷◌,
  ◌++◌, length, Option, none, some, String,
}
use ai_trading_v.Model.{Time, Candle}
use ai_trading_v.Collector.Mapper.{Parser, unix_epoch, rest_klines_to_candles}

abbrev pub max_retries : ℕ
max_retries = 3

abbrev pub batch_size : ℕ
batch_size = 1000

-- Time.UnixMilli, from 1970 on.
unfoldable pub to_milli : Time → ℕ
to_milli t = (t - unix_epoch) / 1_000_000

-- An answer to a request for klines: the items, the error with code 10006, or another error.
pub data Reply : Type 0 where
  page : List (List String) → Reply
  rate_limited : Reply
  refused : Reply

-- The exchange: its answer to a request from `start` to `end` for at most `limit` klines, by the attempt.
abbrev pub Exchange : Type 0
Exchange = ℕ → ℕ → ℕ → ℕ → Reply

-- The loop over the attempts, with the number of those left.
unfoldable pub get_page : ℕ → (ℕ → Reply) → ℕ → Option (List (List String))
get_page zero ask attempt = none
get_page (suc left) ask attempt = elim (ask attempt) [
  | page items ↦ some items
  | rate_limited ↦ get_page left ask (attempt + 1)
  | refused ↦ none
]

pub data Outcome (F : Type 0) : Type 0 where
  done : List (Candle F) → Outcome F
  stopped : List (Candle F) → Outcome F  -- by an error
  out_of_fuel : Outcome F

-- What one round comes to: a cursor and the candles stored, or the end.
pub data Turn (F : Type 0) : Type 0 where
  next : ℕ → List (Candle F) → Turn F
  finish : Outcome F → Turn F

module _ {F : Type 0} where
  -- sort.Slice by the time.
  unfoldable pub insert_by_time : Candle F → List (Candle F) → List (Candle F)
  insert_by_time c [] = c ∷ []
  insert_by_time c (d ∷ ds) =
      let rest = insert_by_time c ds in if leb c.time d.time then c ∷ d ∷ ds else d ∷ rest

  unfoldable pub sort_by_time : List (Candle F) → List (Candle F)
  sort_by_time [] = []
  sort_by_time (c ∷ cs) = insert_by_time c (sort_by_time cs)

  unfoldable pub first_time : List (Candle F) → Time
  first_time [] = 0
  first_time (c ∷ cs) = c.time

  -- Whether a candle opens at a time, in milliseconds.
  unfoldable pub has_time : ℕ → List (Candle F) → Bool
  has_time t [] = false
  has_time t (c ∷ cs) = to_milli c.time == t || has_time t cs

  module _ (parser : Parser F) (exchange : Exchange) (insert_ok : List (Candle F) → Bool)
      (symbol timeframe : String) where
    -- `insert_ok` says which batches the store takes.
    unfoldable pub turn_page : List (Candle F) → List (List String) → Turn F
    turn_page stored items =
        let candles = sort_by_time (rest_klines_to_candles parser items symbol timeframe) in
        if length items == 0
        then finish (done stored)
        else if not (insert_ok candles)
        then finish (stopped stored)
        else if ltb (length candles) batch_size
        then finish (done (stored ++ candles))
        else next (to_milli (first_time candles) - 1) (stored ++ candles)

    unfoldable pub turn : ℕ → ℕ → List (Candle F) → Turn F
    turn start cursor stored =
        if not (ltb start cursor)
        then finish (done stored)
        else (elim (get_page max_retries (exchange start cursor batch_size) 0) [
          | none ↦ finish (stopped stored)
          | some items ↦ turn_page stored items
        ])

    -- The loop of backfillSymbol, with the candles stored so far.
    unfoldable pub backfill_symbol : ℕ → ℕ → ℕ → List (Candle F) → Outcome F
    backfill_symbol zero start cursor stored = out_of_fuel
    backfill_symbol (suc fuel) start cursor stored = elim (turn start cursor stored) [
      | next later all ↦ backfill_symbol fuel start later all
      | finish o ↦ o
    ]
