-- ===== src/Collector/Polled.antt =====
-- How the loops of internal/collector/poll end, and what they store.
use ai_trading_v.Prelude.{
  ℕ, zero, suc, ◌-◌, ◌≤◌, ◌<◌, ◌≡◌, ◌⊎◌, inl, inr, refl, arith, ◌==◌, ltb, leb, Bool, false, ◌||◌,
  String, List, [], ◌∷◌, length, All, All-append, Option, none, some, Option-cases, Bool-cases,
}
use ai_trading_v.Float.{Float64}
use ai_trading_v.Model.{FundingRate, LsRatio}
use ai_trading_v.Collector.Mapper.{Parser, LsRatioItem, rest_to_ls_ratio}
use ai_trading_v.Collector.Validate.{validate_ls_ratio}
use ai_trading_v.Collector.Poll.{
  FundingRateItem, last_funding_time, funded, failed, backfill_funding_rates, Polled, polled,
  store_failed, poll_items, poll,
}

module _ {F : Type 0} (parser : Parser F) (insert_ok : FundingRate F → Bool)
    (ask : ℕ → ℕ → Option (List FundingRateItem)) (symbol : String)
    (within : (start end : ℕ) (items : List FundingRateItem)
      → ask start end ≡ some items
      → last_funding_time items ≤ end) where
  -- Where the exchange answers with nothing after the end asked for, the funding rates are paged to an
  -- end, with more fuel than the milliseconds of the first end.
  pub backfill_funding_rates_ends :
      (fuel start end : ℕ) (stored : List (FundingRate F))
      → end < fuel
      → ((rows : List (FundingRate F)) × (backfill_funding_rates parser insert_ok ask symbol fuel
              start end stored
            ≡ funded rows))
        ⊎ ((rows : List (FundingRate F)) × (backfill_funding_rates parser insert_ok ask symbol fuel
                start end stored
              ≡ failed rows))
  unfolding backfill_funding_rates
  backfill_funding_rates_ends zero start end stored h = absurd (omega arith)
  backfill_funding_rates_ends (suc fuel) start end stored h = elim (Option-cases (ask start end)) [
    | inl bad ↦ rw (bad, backfill_funding_rates) (inr (stored, refl))
    | inr items ↦
        rw (items.1, backfill_funding_rates)
          (elim (Bool-cases (
            length items.0 == 0
            || leb (last_funding_time items.0 - 1) start
            || ltb (length items.0) 200)) [
              | inl over ↦ rw (over) (inl (_, refl))
              | inr more ↦ rw (more) (
                  backfill_funding_rates_ends fuel start (last_funding_time items.0 - 1) _
                    (below start end fuel items.0 (within start end items.0 items.1) h more))
            ])
  ]
    where
      below :
          (start end fuel : ℕ) (items : List FundingRateItem)
          → last_funding_time items ≤ end
          → end < suc fuel
          → (length items == 0 || leb (last_funding_time items - 1) start || ltb (length items) 200)
            ≡ false
          → last_funding_time items - 1 < fuel
      below start end fuel items le lt more = ground (arith, le, lt, more)

module _ {F : Type 0} ⦃f : Float64 F⦄ where
  Valid : List (LsRatio F) → Type 0
  Valid rows = All (λ r. validate_ls_ratio r ≡ none) rows

  Passed : Polled F → Type 0
  Passed (polled rows) = Valid rows
  Passed (store_failed rows) = Valid rows

  poll_items-Valid :
      (parser : Parser F) (insert_ok : LsRatio F → Bool) (symbol : String)
      (items : List LsRatioItem) (stored : List (LsRatio F))
      → Valid stored
      → Passed (poll_items parser insert_ok symbol items stored)
  unfolding poll_items Passed Valid
  poll_items-Valid parser insert_ok symbol [] stored h = h
  poll_items-Valid parser insert_ok symbol (item ∷ items) stored h =
      let row : LsRatio F = rest_to_ls_ratio parser item symbol "15min" in
      elim (Option-cases (validate_ls_ratio row)) [
        | inr bad ↦ rw (bad.1, poll_items) (poll_items-Valid parser insert_ok symbol items stored h)
        | inl good ↦
            rw (good, poll_items)
              (elim (Bool-cases (insert_ok row)) [
                | inr refused ↦ rw (refused) h
                | inl ok ↦ rw (ok) (
                    poll_items-Valid parser insert_ok symbol items _
                      (All-append (λ r. validate_ls_ratio r ≡ none) stored (row ∷ []) h (good, tt)))
              ])
      ]

  poll-Valid :
      (parser : Parser F) (insert_ok : LsRatio F → Bool) (ask : String → Option (List LsRatioItem))
      (symbols : List String) (stored : List (LsRatio F))
      → Valid stored
      → Passed (poll parser insert_ok ask symbols stored)
  unfolding poll Valid Passed
  poll-Valid parser insert_ok ask [] stored h = h
  poll-Valid parser insert_ok ask (symbol ∷ symbols) stored h = elim (Option-cases (ask symbol)) [
    | inl bad ↦ rw (bad, poll) (poll-Valid parser insert_ok ask symbols stored h)
    | inr items ↦
        rw (items.1, poll)
          (go (poll_items parser insert_ok symbol items.0 stored)
            (poll_items-Valid parser insert_ok symbol items.0 stored h)
            (λ rows g. poll-Valid parser insert_ok ask symbols rows g))
  ]
    where
      go :
          (r : Polled F)
          → Passed r
          → ((rows : List (LsRatio F))
              → Valid rows
              → Passed (poll parser insert_ok ask symbols rows))
          → Passed (elim r [
            | polled rows ↦ poll parser insert_ok ask symbols rows
            | store_failed rows ↦ store_failed rows
          ])
      go (polled rows) g more = more rows g
      go (store_failed rows) g more = g
