-- ===== src/Backfill/Errors.antt =====
-- The job row of cmd/feature-backfill/main.go when processPair returns.
use ai_trading_v.Prelude.{
  ℕ, zero, suc, ◌≡◌, refl, arith, Bool, true, false, not, ltb, ◌==◌, if◌then◌else◌, List, [], ◌∷◌,
  ◌++◌, length, map, Option-cases, Bool-cases, inl, inr, String,
}
use ai_trading_v.Float.{Float64, lit}
use ai_trading_v.Model.{Candle, FeatureRow}
use ai_trading_v.Label.{compute_labels}
use ai_trading_v.Backfill.Flow.{Tables, load_order_flow}
use ai_trading_v.Backfill.Segments.{increasing}
use ai_trading_v.Backfill.Covers.{Ends, process_pair-Ends}
use ai_trading_v.Backfill.Pair.{
  Status, absent, pending, running, completed, failed, Stage, create_job, start_job, complete_job,
  Answers, Pair, Round, again, leave, give_up, Result, done, error, out_of_fuel, fail_job,
  give_up_with, update_progress, next_chunk, store_rows, on_chunk, round, complete, write_labels,
  process_chunks, new_pair, process_pair,
}

module _ {F : Type 0} ⦃f : Float64 F⦄ where
  -- The status of the job row after an error at a stage, where the last update may fail too.
  pub status_after : Answers F → Stage → Status
  status_after db create_job = absent
  status_after db start_job = pending
  status_after db complete_job = running
  status_after db stage = if db.fail_ok then failed else running

  Told : Answers F → Round F → Type 0
  Told db (again q) = q.job.status ≡ running
  Told db (leave q) = q.job.status ≡ running
  Told db (give_up stage q) = q.job.status ≡ status_after db stage

  next_chunk-Told :
      (db : Answers F) (s : Pair F) (chunk : List (Candle F)) (vs : List (FeatureRow F))
      → s.job.status ≡ running
      → Told db (next_chunk db chunk vs s)
  unfolding next_chunk update_progress Told
  next_chunk-Told db s chunk vs h = ground arith

  fail_job-Told :
      (db : Answers F) (s : Pair F)
      → s.job.status ≡ running
      → (fail_job db s).job.status ≡ (if db.fail_ok then failed else running)
  unfolding fail_job
  fail_job-Told db s h = ground (arith, h)

  store_rows-Told :
      (db : Answers F) (s : Pair F) (chunk : List (Candle F)) (vs : List (FeatureRow F))
      → s.job.status ≡ running
      → Told db (store_rows db chunk vs s)
  unfolding store_rows give_up_with Told status_after
  store_rows-Told db s chunk vs h =
      ground (arith, h, fail_job-Told db s h, next_chunk-Told db s chunk vs h)

  on_chunk-Told :
      (db : Answers F) (tables : Tables F) (tf : String) (id : ℕ) (s : Pair F)
      (chunk : List (Candle F))
      → s.job.status ≡ running
      → Told db (on_chunk db tables tf id chunk s)
  unfolding on_chunk give_up_with Told status_after
  on_chunk-Told db tables tf id s chunk h = elim (Bool-cases (length chunk == 0)) [
    | inl empty ↦ rw (empty) h
    | inr full ↦ rw (full) (elim (Bool-cases (ltb (length chunk) 200)) [
      | inl short ↦ rw (short) h
      | inr long ↦
          rw (long) (elim (Option-cases (load_order_flow tables tf (map (λ c. c.time) chunk))) [
            | inl no_flow ↦ rw (no_flow) (fail_job-Told db (read chunk s) h)
            | inr flow ↦ rw (flow.1) (store_rows-Told db (read chunk s) chunk _ h)
          ])
    ])
  ]
    where
      read : List (Candle F) → Pair F → Pair F
      read chunk s = record s { all_candles = s.all_candles ++ chunk }

  round-Told :
      (db : Answers F) (tables : Tables F) (tf : String) (id : ℕ) (s : Pair F)
      → s.job.status ≡ running
      → Told db (round db tables tf id s)
  unfolding round give_up_with Told status_after
  round-Told db tables tf id s h = elim (Bool-cases (db.load_ok s.last_time)) [
    | inl ok ↦ rw (ok) (on_chunk-Told db tables tf id s _ h)
    | inr no_chunk ↦ rw (no_chunk) (fail_job-Told db s h)
  ]

  -- The job row says how processPair ended.
  Noted : Answers F → Result F → Type 0
  Noted db (done s) = (s.job.status ≡ completed) × (s.job.processed_rows ≡ s.total_written)
  Noted db (error stage s) = s.job.status ≡ status_after db stage
  Noted db out_of_fuel = Unit

  write_labels-Noted :
      (db : Answers F) (s : Pair F) → s.job.status ≡ running → Noted db (write_labels db s)
  unfolding write_labels complete Noted status_after
  write_labels-Noted db s h =
      let rows = compute_labels s.all_candles (4 ∷ 12 ∷ 24 ∷ []) (lit 250_000) in
      elim (Bool-cases (ltb (length s.all_candles) 200)) [
        | inl few ↦ rw (few) (ground (arith, h))
        | inr many ↦ rw (many) (elim (Bool-cases (db.labels_ok rows)) [
          | inl ok ↦ rw (ok) (ground (arith, h))
          | inr refused ↦ rw (refused) (fail_job-Told db s h)
        ])
      ]

  process_chunks-Noted :
      (fuel : ℕ) (db : Answers F) (tables : Tables F) (tf : String) (id : ℕ) (s : Pair F)
      → s.job.status ≡ running
      → Noted db (process_chunks fuel db tables tf id s)
  unfolding process_chunks Told Noted
  process_chunks-Noted zero db tables tf id s h = tt
  process_chunks-Noted (suc fuel) db tables tf id s h =
      go (round db tables tf id s) (round-Told db tables tf id s h)
        (λ q g. process_chunks-Noted fuel db tables tf id q g)
    where
      go :
          (r : Round F)
          → Told db r
          → ((q : Pair F)
              → q.job.status ≡ running
              → Noted db (process_chunks fuel db tables tf id q))
          → Noted db (elim r [
            | again q ↦ process_chunks fuel db tables tf id q
            | leave q ↦ write_labels db q
            | give_up stage q ↦ error stage q
          ])
      go (again q) g more = more q g
      go (leave q) g more = write_labels-Noted db q g
      go (give_up stage q) g more = g

  process_pair-Noted :
      (db : Answers F) (tables : Tables F) (tf : String) (id : ℕ)
      → Noted db (process_pair db tables tf id)
  unfolding process_pair Noted new_pair status_after
  process_pair-Noted db tables tf id = either db.create_ok db.start_ok
    where
      either :
          (made started : Bool)
          → Noted db (
              if not made
              then error create_job new_pair
              else if not started
              then error start_job
                  (record new_pair { job = record { status = pending; processed_rows = 0 } })
              else process_chunks
                  (suc (length tables.candles))
                  db
                  tables
                  tf
                  id
                  (record new_pair { job = record { status = running; processed_rows = 0 } }))
      either false started = refl
      either true false = refl
      either true true = process_chunks-Noted _ db tables tf id _ refl

  -- The loop has ended, and the job row says how: completed with the rows written, or the status that
  -- belongs to the stage of the error.
  pub Reported : Answers F → Result F → Type 0
  Reported db (done s) = (s.job.status ≡ completed) × (s.job.processed_rows ≡ length s.written)
  Reported db (error stage s) = s.job.status ≡ status_after db stage
  Reported db out_of_fuel = ⊥

  both-Reported :
      (db : Answers F) (cs : List (Candle F)) (r : Result F)
      → Noted db r
      → Ends cs r
      → Reported db r
  unfolding Noted Ends Reported
  both-Reported db cs (done s) h e = (h.0, e.1)
  both-Reported db cs (error stage s) h e = h
  both-Reported db cs out_of_fuel h e = e

  -- For candles with strictly increasing times, the backfill of a pair returns, and the status of its job
  -- row says how: completed with the number of rows written, or, after an error, the status that
  -- belongs to the stage of the error; there is no row where its creation failed.
  pub process_pair-Reported :
      (db : Answers F) (tables : Tables F) (tf : String) (id : ℕ)
      → increasing 0 tables.candles ≡ true
      → Reported db (process_pair db tables tf id)
  process_pair-Reported db tables tf id up =
      both-Reported db tables.candles _ (process_pair-Noted db tables tf id)
        (process_pair-Ends tables db tf id up)
