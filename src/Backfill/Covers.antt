-- ===== src/Backfill/Covers.antt =====
-- The rounds of cmd/feature-backfill/main.go end, and together they store a row for every candle after
-- the warm-up.
use ai_trading_v.Prelude.{
  ℕ, zero, suc, ◌+◌, ◌<◌, ◌≡◌, ◌⊎◌, inl, inr, refl, sym, ap, ◌∙◌, arith, Bool, true, false, not,
  ltb, if◌then◌else◌, List, [], ◌∷◌, length, take, drop, map, Bool-cases, String,
}
use ai_trading_v.Float.{Float64, lit}
use ai_trading_v.Model.{Candle}
use ai_trading_v.Label.{compute_labels}
use ai_trading_v.Backfill.Flow.{Tables, after}
use ai_trading_v.Backfill.Pair.{
  pending, Stage, running, create_job, start_job, Answers, Pair, Round, again, leave, give_up,
  Result, done, error, out_of_fuel, round, complete, write_labels, process_chunks, new_pair,
  process_pair,
}
use ai_trading_v.Backfill.Segments.{take-all, increasing, after_all}
use ai_trading_v.Backfill.Stamps.{times, stamps, warm}
use ai_trading_v.Backfill.Rounds.{At, Whole, Good, round-Good, fail_job-written}

module _ {F : Type 0} ⦃f : Float64 F⦄ where
  -- How processPair ends: the rows of all candles after the warm-up and a completed job, or an error
  -- and the rows of the first of them.
  unfoldable pub Ends : List (Candle F) → Result F → Type 0
  Ends cs (done s) =
      (stamps s.written ≡ times (warm cs)) × (s.job.processed_rows ≡ length s.written)
  Ends cs (error stage s) = (p : ℕ) × (stamps s.written ≡ times (take p (warm cs)))
  Ends cs out_of_fuel = ⊥

  wrote_all :
      (cs : List (Candle F)) (s : Pair F)
      → Whole cs s
      → (p : ℕ) × (stamps s.written ≡ times (take p (warm cs)))
  wrote_all cs s h =
      let size = length (warm cs) in
      (size, h.wrote ∙ ap times (sym (take-all size (warm cs) (omega arith))))

  complete-Ends :
      (cs : List (Candle F)) (db : Answers F) (s : Pair F) → Whole cs s → Ends cs (complete db s)
  unfolding complete Ends
  complete-Ends cs db s h = elim (Bool-cases (db.complete_ok s.total_written)) [
    | inl ok ↦ rw (ok) (h.wrote, h.count)
    | inr failed ↦ rw (failed) (wrote_all cs s h)
  ]

  write_labels-Ends :
      (cs : List (Candle F)) (db : Answers F) (s : Pair F)
      → Whole cs s
      → Ends cs (write_labels db s)
  unfolding write_labels Ends
  write_labels-Ends cs db s h =
      let rows = compute_labels s.all_candles (4 ∷ 12 ∷ 24 ∷ []) (lit 250_000) in
      elim (Bool-cases (ltb (length s.all_candles) 200)) [
        | inl few ↦ rw (few) (complete-Ends cs db s h)
        | inr many ↦ rw (many) (elim (Bool-cases (db.labels_ok rows)) [
          | inl ok ↦ rw (ok) (
              complete-Ends cs db (record s { labels = rows })
                (record { wrote = h.wrote; count = h.count }))
          | inr failed ↦
              rw (failed)
                ((wrote_all cs s h).0, ap stamps (fail_job-written db s) ∙ (wrote_all cs s h).1)
        ])
      ]

  process_chunks-Ends :
      (fuel p : ℕ) (tables : Tables F) (db : Answers F) (tf : String) (id : ℕ) (s : Pair F)
      → increasing 0 tables.candles ≡ true
      → At tables.candles p s
      → length tables.candles < fuel + p
      → Ends tables.candles (process_chunks fuel db tables tf id s)
  unfolding process_chunks Good Ends
  process_chunks-Ends zero p tables db tf id s up h enough = absurd (omega (arith, h.inside))
  process_chunks-Ends (suc fuel) p tables db tf id s up h enough =
      go (round db tables tf id s) (round-Good tables p db tf id s up h)
        (λ q g. process_chunks-Ends fuel (p + 2000) tables db tf id q up g.0 (omega arith))
    where
      go :
          (r : Round F)
          → Good tables.candles p r
          → ((q : Pair F)
              → Good tables.candles p (again q)
              → Ends tables.candles (process_chunks fuel db tables tf id q))
          → Ends tables.candles (elim r [
            | again q ↦ process_chunks fuel db tables tf id q
            | leave q ↦ write_labels db q
            | give_up stage q ↦ error stage q
          ])
      go (again q) g more = more q g
      go (leave q) g more = write_labels-Ends tables.candles db q g
      go (give_up stage q) g more = (p, g)

  start-At :
      (cs : List (Candle F)) (s : Pair F)
      → increasing 0 cs ≡ true
      → s ≡ record new_pair { job = record { status = running; processed_rows = 0 } }
      → At cs 0 s
  unfolding new_pair stamps times
  start-At cs s up e = record {
    rest = ap (λ p. after p.last_time cs) e ∙ after_all 0 0 cs up (omega arith);
    wrote = ap (λ p. stamps p.written) e;
    count = rw (e) refl;
    inside = omega arith;
  }

  pub process_pair-Ends :
      (tables : Tables F) (db : Answers F) (tf : String) (id : ℕ)
      → increasing 0 tables.candles ≡ true
      → Ends tables.candles (process_pair db tables tf id)
  unfolding process_pair Ends new_pair stamps times
  process_pair-Ends tables db tf id up = either db.create_ok db.start_ok
    where
      either :
          (made started : Bool)
          → Ends tables.candles (
              if not made
              then error create_job new_pair
              else if not started
              then error start_job
                  (record new_pair { job = record { status = pending; processed_rows = 0 } })
              else process_chunks
                  (suc (length tables.candles))
                  db
                  tables
                  tf
                  id
                  (record new_pair { job = record { status = running; processed_rows = 0 } }))
      either false started = (0, refl)
      either true false = (0, refl)
      either true true =
          process_chunks-Ends (suc (length tables.candles)) 0 tables db tf id _ up
            (start-At tables.candles _ up refl) (omega arith)

  cases-Ends :
      (cs : List (Candle F)) (r : Result F)
      → Ends cs r
      → ((s : Pair F) × (r ≡ done s)
          × (map (λ w. w.ts) s.written ≡ map (λ c. c.time) (drop 200 cs))
          × (s.job.processed_rows ≡ length s.written))
        ⊎ ((stage : Stage) × (s : Pair F) × (p : ℕ) × (r ≡ error stage s)
            × (map (λ w. w.ts) s.written ≡ map (λ c. c.time) (take p (drop 200 cs))))
  unfolding Ends stamps times warm
  cases-Ends cs (done s) h = inl (s, refl, h.0, h.1)
  cases-Ends cs (error stage s) h = inr (stage, s, h.0, refl, h.1)
  cases-Ends cs out_of_fuel h = absurd h

  -- For candles with strictly increasing times, the backfill of a pair ends, whatever the database
  -- answers. Either it is done: it has stored exactly one row for each candle after the first 200, in
  -- their order, and the job counts them. Or it ends with an error, and has stored the rows of the first
  -- few of those candles without a gap.
  pub process_pair_covers :
      (db : Answers F) (tables : Tables F) (tf : String) (id : ℕ)
      → increasing 0 tables.candles ≡ true
      → ((s : Pair F) × (process_pair db tables tf id ≡ done s)
          × (map (λ w. w.ts) s.written ≡ map (λ c. c.time) (drop 200 tables.candles))
          × (s.job.processed_rows ≡ length s.written))
        ⊎ ((stage : Stage) × (s : Pair F) × (p : ℕ) × (process_pair db tables tf id ≡ error stage s)
            × (map (λ w. w.ts) s.written ≡ map (λ c. c.time) (take p (drop 200 tables.candles))))
  process_pair_covers db tables tf id up = cases-Ends _ _ (process_pair-Ends tables db tf id up)
