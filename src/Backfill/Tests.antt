-- ===== src/Backfill/Tests.antt =====
-- The backfill of cmd/feature-backfill/main.go on concrete tables.
use ai_trading_v.Prelude.{
  none, ℕ, zero, suc, ◌+◌, ◌≡◌, ◌⊎◌, refl, true, List, [], ◌∷◌, length, take, drop, map, some,
}
use mathlib.Core.Option as Opt
use ai_trading_v.Float.{num}
use ai_trading_v.Float.Fixed.{Fixed, fixed_float}
use ai_trading_v.Model.{Candle, OiRecord, OrderFlowSnapshot}
use ai_trading_v.Backfill.Flow.{
  Tables, advance, between, value_of, liq_at, snapshot, join_flow, delivered, bucket_length,
  parse_duration, load_order_flow,
}
use ai_trading_v.Backfill.Pair.{Stage, Answers, Pair, done, error, process_pair}
use ai_trading_v.Backfill.Segments.{increasing}
use ai_trading_v.Backfill.Covers.{process_pair_covers}
use ai_trading_v.Backfill.Errors.{Reported, process_pair-Reported}

abbrev bar : ℕ → Candle Fixed
bar t = record {
  time = t;
  symbol = "BTCUSDT";
  timeframe = "15m";
  open_price = num 10;
  high = num 11;
  low = num 9;
  close = num 10;
  volume = num 1;
}

-- `n` bars from the time `t` on.
abbrev bars : ℕ → ℕ → List (Candle Fixed)
bars zero t = []
bars (suc n) t = bar t ∷ bars n (t + 1)

abbrev interest : ℕ → Fixed → OiRecord Fixed
interest t oi = record { time = t; symbol = "BTCUSDT"; oi = oi; oi_value_usd = oi }

abbrev tables : Tables Fixed
tables = record {
  candles = bars 203 1;
  open_interest = interest 4 (num 70) ∷ interest 9 (num 80) ∷ [];
  funding_rates = [];
  ls_ratios = [];
  oi_cut = none;
  funding_cut = none;
  ls_cut = none;
  liq_aggregated = λ start end bucket. some [];
}

abbrev willing : Answers Fixed
willing = record {
  create_ok = true;
  start_ok = true;
  load_ok = λ t. true;
  upsert_ok = λ rows. true;
  progress_ok = λ n. true;
  labels_ok = λ rows. true;
  complete_ok = λ n. true;
  fail_ok = true;
}

-- The open interest at 4 is not seen at 6.
interest_lost :
    Opt.map
      (map (λ (s : OrderFlowSnapshot Fixed). s.oi))
      (load_order_flow tables "15m" (2 ∷ 4 ∷ 6 ∷ 9 ∷ []))
    ≡ some (num 0 ∷ num 70 ∷ num 0 ∷ num 80 ∷ [])
unfolding load_order_flow delivered join_flow between advance snapshot value_of liq_at bucket_length
    parse_duration
interest_lost = refl

process_pair_covers_example :
    ((s : Pair Fixed) × (process_pair willing tables "15m" 1 ≡ done s)
      × (map (λ w. w.ts) s.written ≡ map (λ c. c.time) (drop 200 tables.candles))
      × (s.job.processed_rows ≡ length s.written))
    ⊎ ((stage : Stage) × (s : Pair Fixed) × (p : ℕ) × (process_pair willing tables "15m" 1
          ≡ error stage s)
        × (map (λ w. w.ts) s.written ≡ map (λ c. c.time) (take p (drop 200 tables.candles))))
unfolding increasing
process_pair_covers_example = process_pair_covers willing tables "15m" 1 refl

process_pair-Reported_example : Reported willing (process_pair willing tables "15m" 1)
unfolding increasing
process_pair-Reported_example = process_pair-Reported willing tables "15m" 1 refl

abbrev snaps : List (OrderFlowSnapshot Fixed)
snaps = join_flow (bucket_length "15m") [] tables.open_interest [] [] (2 ∷ 4 ∷ 6 ∷ 9 ∷ [])
