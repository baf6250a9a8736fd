-- ===== src/Backfill/Windows.antt =====
-- The order flow that LoadOrderFlow of internal/db/feature_store.go gives each timestamp.
use ai_trading_v.Prelude.{ℕ, ◌-◌, ◌%◌, ◌≡◌, List, [], ◌∷◌, length, get_or, Option, some, String}
use ai_trading_v.Float.{Float64}
use ai_trading_v.Model.{Time, OiRecord, FundingRate, LsRatio, OrderFlowSnapshot}
use ai_trading_v.Backfill.Flow.{LiqSnapshot, Tables, value_of, liq_at, bucket_length}
use ai_trading_v.Backfill.Join.{last_within}

module _ {F : Type 0} ⦃f : Float64 F⦄ where
  -- The values of a snapshot are those of the last rows after `low` and up to `high`, and 0 for a table
  -- without such a row. Its liquidations are the sums of the bucket of length `d` that `high` is in.
  pub record FromWindow (d : ℕ) (liq : List (Time × LiqSnapshot F)) (low high : ℕ)
      (ois : List (OiRecord F)) (frs : List (FundingRate F)) (lss : List (LsRatio F))
      (snap : OrderFlowSnapshot F) : Type 0 where
    pub at : snap.ts ≡ high
    pub oi : snap.oi ≡ value_of (λ r. r.oi) (last_within (λ r. r.time) low high ois)
    pub funding :
        snap.funding_rate ≡ value_of (λ r. r.rate) (last_within (λ r. r.time) low high frs)
    pub buy :
        snap.ls_buy_ratio ≡ value_of (λ r. r.buy_ratio) (last_within (λ r. r.time) low high lss)
    pub sell :
        snap.ls_sell_ratio ≡ value_of (λ r. r.sell_ratio) (last_within (λ r. r.time) low high lss)
    pub liq_long : snap.liq_long_usd ≡ (liq_at liq (high - high % d)).long_usd
    pub liq_short : snap.liq_short_usd ≡ (liq_at liq (high - high % d)).short_usd

  -- The grouped sums that the database gives for all timestamps.
  pub sums_of : Tables F → String → List Time → Option (List (Time × LiqSnapshot F))
  sums_of tables tf [] = some []
  sums_of tables tf (start ∷ later) =
      tables.liq_aggregated start (get_or (start ∷ later) (length later) start) (bucket_length tf)
