-- ===== src/Backfill/Pair.antt =====
-- `processPair` of cmd/feature-backfill/main.go, with the job row of internal/db/jobs.go.
use ai_trading_v.Prelude.{
  ℕ, zero, suc, ◌+◌, ◌-◌, ◌==◌, ltb, Bool, not, if◌then◌else◌, List, [], ◌∷◌, ◌++◌, length, drop,
  get_or, map, none, some, String,
}
use ai_trading_v.Float.{Float64, lit}
use ai_trading_v.Model.{Time, Candle, FeatureRow, LabelRow}
use ai_trading_v.Feature.Compute.{compute_features}
use ai_trading_v.Label.{compute_labels}
use ai_trading_v.Backfill.Quality.{Fault, validate_feature_rows}
use ai_trading_v.Backfill.Flow.{Tables, load_candles_after, load_order_flow}

abbrev pub chunk_size : ℕ
chunk_size = 2200

abbrev pub warmup_bars : ℕ
warmup_bars = 200

-- `absent` is a job without a row: Create has not succeeded.
pub data Status : Type 0 where
  absent : Status
  pending : Status
  running : Status
  completed : Status
  failed : Status

-- The row of the job.
pub record Job : Type 0 where
  pub status : Status
  pub processed_rows : ℕ

-- Where processPair returns an error.
pub data Stage : Type 0 where
  create_job : Stage
  start_job : Stage
  load_candles : Stage
  load_flow : Stage
  validation : Fault → Stage
  upsert_features : Stage
  upsert_labels : Stage
  complete_job : Stage

-- Which statements the database carries out.
pub record Answers (F : Type 0) : Type 0 where
  pub create_ok : Bool
  pub start_ok : Bool
  pub load_ok : Time → Bool
  pub upsert_ok : List (FeatureRow F) → Bool
  pub progress_ok : ℕ → Bool
  pub labels_ok : List (LabelRow F) → Bool
  pub complete_ok : ℕ → Bool
  pub fail_ok : Bool

-- The variables of processPair and what it has stored: the feature rows and the labels in the order of
-- the upserts.
pub record Pair (F : Type 0) : Type 0 where
  pub all_candles : List (Candle F)
  pub last_time : Time
  pub total_written : ℕ
  pub job : Job
  pub written : List (FeatureRow F)
  pub labels : List (LabelRow F)

-- What one round of the loop comes to: another round, the end of the loop, or an error.
pub data Round (F : Type 0) : Type 0 where
  again : Pair F → Round F
  leave : Pair F → Round F
  give_up : Stage → Pair F → Round F

pub data Result (F : Type 0) : Type 0 where
  done : Pair F → Result F
  error : Stage → Pair F → Result F
  out_of_fuel : Result F

module _ {F : Type 0} where
  unfoldable pub new_pair : Pair F
  new_pair = record {
    all_candles = [];
    last_time = 0;
    total_written = 0;
    job = record { status = absent; processed_rows = 0 };
    written = [];
    labels = [];
  }

  unfoldable pub fail_job : Answers F → Pair F → Pair F
  fail_job db p = if db.fail_ok then record p { job = record p.job { status = failed } } else p

  unfoldable pub give_up_with : Answers F → Stage → Pair F → Round F
  give_up_with db stage p = give_up stage (fail_job db p)

  unfoldable pub update_progress : Answers F → ℕ → Pair F → Pair F
  update_progress db total p =
      if db.progress_ok total then record p { job = record p.job { processed_rows = total } } else p

  -- The end of a round whose rows are stored.
  unfoldable pub next_chunk : Answers F → List (Candle F) → List (FeatureRow F) → Pair F → Round F
  next_chunk db chunk valid p =
      let total = p.total_written + length valid in
      let q =
        update_progress db total
          (record p { total_written = total; written = p.written ++ valid }) in
      if ltb (length chunk) chunk_size
      then leave q
      else again (record q {
        last_time = get_or (map (λ c. c.time) chunk) (length chunk - warmup_bars - 1) 0;
      })

module _ {F : Type 0} ⦃f : Float64 F⦄ where
  unfoldable pub store_rows : Answers F → List (Candle F) → List (FeatureRow F) → Pair F → Round F
  store_rows db chunk valid p =
      if length valid == 0 then leave p else (elim (validate_feature_rows valid) [
        | some fault ↦ give_up_with db (validation fault) p
        | none ↦
            if db.upsert_ok valid
            then next_chunk db chunk valid p
            else give_up_with db upsert_features p
      ])

  unfoldable pub on_chunk : Answers F → Tables F → String → ℕ → List (Candle F) → Pair F → Round F
  on_chunk db tables timeframe id chunk p =
      let q = record p { all_candles = p.all_candles ++ chunk } in
      if length chunk == 0
      then leave p
      else if ltb (length chunk) warmup_bars
      then leave q
      else (elim (load_order_flow tables timeframe (map (λ c. c.time) chunk)) [
        | none ↦ give_up_with db load_flow q
        | some flow ↦ store_rows db chunk (drop warmup_bars (compute_features chunk flow id)) q
      ])

  unfoldable pub round : Answers F → Tables F → String → ℕ → Pair F → Round F
  round db tables timeframe id p =
      if db.load_ok p.last_time
      then on_chunk db tables timeframe id
          (load_candles_after tables.candles p.last_time chunk_size) p
      else give_up_with db load_candles p

  unfoldable pub complete : Answers F → Pair F → Result F
  complete db p =
      if db.complete_ok p.total_written
      then done (record p { job = record { status = completed; processed_rows = p.total_written } })
      else error complete_job p

  -- After the loop: the labels of all candles read.
  unfoldable pub write_labels : Answers F → Pair F → Result F
  write_labels db p =
      let labels = compute_labels p.all_candles (4 ∷ 12 ∷ 24 ∷ []) (lit 250_000) in
      if ltb (length p.all_candles) 200
      then complete db p
      else if db.labels_ok labels
      then complete db (record p { labels = labels })
      else error upsert_labels (fail_job db p)

  unfoldable pub process_chunks : ℕ → Answers F → Tables F → String → ℕ → Pair F → Result F
  process_chunks zero db tables timeframe id p = out_of_fuel
  process_chunks (suc fuel) db tables timeframe id p = elim (round db tables timeframe id p) [
    | again q ↦ process_chunks fuel db tables timeframe id q
    | leave q ↦ write_labels db q
    | give_up stage q ↦ error stage q
  ]

  -- The rounds need no more fuel than the pair has candles, and one.
  unfoldable pub process_pair : Answers F → Tables F → String → ℕ → Result F
  process_pair db tables timeframe id =
      if not db.create_ok
      then error create_job new_pair
      else if not db.start_ok
      then error start_job
          (record new_pair { job = record { status = pending; processed_rows = 0 } })
      else process_chunks (suc (length tables.candles)) db tables timeframe id
          (record new_pair { job = record { status = running; processed_rows = 0 } })
