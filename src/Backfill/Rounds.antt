-- ===== src/Backfill/Rounds.antt =====
-- One round of the loop of cmd/feature-backfill/main.go.
use ai_trading_v.Prelude.{
  ℕ, suc, ◌+◌, ◌-◌, ◌≤◌, ◌<◌, ◌==◌, ◌≡◌, inl, inr, refl, sym, ap, ◌∙◌, arith, true, ltb, List, [],
  ◌++◌, length, take, drop, get_or, map, length-map, length-append, Option-cases, Bool-cases,
  String,
}
use ai_trading_v.Float.{Float64}
use ai_trading_v.Model.{Candle, FeatureRow, OrderFlowSnapshot}
use ai_trading_v.Feature.Windows.{take-map, get_or-take, length-take_bound}
use ai_trading_v.Feature.Compute.{compute_features}
use ai_trading_v.Backfill.Quality.{validate_feature_rows}
use ai_trading_v.Backfill.Flow.{Tables, after, load_candles_after, load_order_flow}
use ai_trading_v.Backfill.Pair.{
  Answers, Pair, Round, again, leave, give_up, fail_job, give_up_with, update_progress, next_chunk,
  store_rows, on_chunk, round,
}
use ai_trading_v.Backfill.Segments.{
  lt_of_ltb, le_of_ltb, eq_of_test, drop_all, append_nil, take_short, take_full, length-drop,
  get_or-drop, map-drop, increasing, after_at,
}
use ai_trading_v.Backfill.Stamps.{
  times, stamps, warm, compute_features-stamps, wrote_last, wrote_next,
}

module _ {F : Type 0} ⦃f : Float64 F⦄ where
  -- The rows stored when the rounds have passed `p` candles.
  pub record At (cs : List (Candle F)) (p : ℕ) (s : Pair F) : Type 0 where
    pub rest : after s.last_time cs ≡ drop p cs
    pub wrote : stamps s.written ≡ times (take p (warm cs))
    pub count : s.total_written ≡ length s.written
    pub inside : p ≤ length cs

  pub record Whole (cs : List (Candle F)) (s : Pair F) : Type 0 where
    pub wrote : stamps s.written ≡ times (warm cs)
    pub count : s.total_written ≡ length s.written

  cut_time :
      (cs : List (Candle F)) (p : ℕ)
      → 2200 ≤ length (take 2200 (drop p cs))
      → get_or (times (take 2200 (drop p cs))) (length (take 2200 (drop p cs)) - 200 - 1) 0
        ≡ get_or (times cs) (p + 1999) 0
  unfolding times
  cut_time cs p h =
      let exact : length (take 2200 (drop p cs)) - 200 - 1 ≡ 1999 =
        omega (arith, h, length-take_bound 2200 (drop p cs)) in
      rw
        (
          exact,
          ← take-map 2200 (λ (c : Candle F). c.time) (drop p cs),
          map-drop p (λ (c : Candle F). c.time) cs,
        )
        (get_or-take 2200 1999 (drop p (map (λ c. c.time) cs)) 0 (omega arith)
          ∙ get_or-drop p 1999 (p + 1999) (map (λ c. c.time) cs) 0 refl)

  -- What a round promises.
  unfoldable pub Good : List (Candle F) → ℕ → Round F → Type 0
  Good cs p (again q) = At cs (p + 2000) q × (p + 2200 ≤ length cs)
  Good cs p (leave q) = Whole cs q
  Good cs p (give_up stage q) = stamps q.written ≡ times (take p (warm cs))

  -- The state after the rows are stored and the progress is noted.
  stored : Answers F → List (FeatureRow F) → Pair F → Pair F
  stored db vs s =
      update_progress db (s.total_written + length vs)
        (record s { total_written = s.total_written + length vs; written = s.written ++ vs })

  stored_lem :
      (db : Answers F) (vs : List (FeatureRow F)) (s : Pair F)
      → ((stored db vs s).written ≡ s.written ++ vs)
        × ((stored db vs s).total_written ≡ s.total_written + length vs)
  unfolding stored update_progress
  stored_lem db vs s = ground arith

  last-Whole :
      (cs : List (Candle F)) (p : ℕ) (db : Answers F) (vs : List (FeatureRow F)) (s : Pair F)
      → At cs p s
      → stamps vs ≡ times (drop 200 (take 2200 (drop p cs)))
      → length (take 2200 (drop p cs)) < 2200
      → Whole cs (stored db vs s)
  last-Whole cs p db vs s h k short =
      let whole : take 2200 (drop p cs) ≡ drop p cs = take_short 2200 (drop p cs) short in
      let kept = stored_lem db vs s in
      record {
        wrote =
            ap stamps kept.0
            ∙ wrote_last cs p s.written vs h.wrote (k ∙ ap (λ r. times (drop 200 r)) whole);
        count = rw (kept.0, kept.1) (omega (arith, h.count, length-append s.written vs));
      }

  next-At :
      (cs : List (Candle F)) (p : ℕ) (db : Answers F) (vs : List (FeatureRow F)) (s : Pair F)
      → increasing 0 cs ≡ true
      → At cs p s
      → stamps vs ≡ times (drop 200 (take 2200 (drop p cs)))
      → 2200 ≤ length (take 2200 (drop p cs))
      → At cs (p + 2000) (record (stored db vs s) {
        last_time =
            get_or (times (take 2200 (drop p cs))) (length (take 2200 (drop p cs)) - 200 - 1) 0;
      })
        × (p + 2200 ≤ length cs)
  unfolding times
  next-At cs p db vs s up h k full =
      let enough : p + 2200 ≤ length cs =
        omega (arith, take_full 2200 (drop p cs) full, length-drop p cs) in
      let kept = stored_lem db vs s in
      let next : suc (p + 1999) ≡ p + 2000 = omega arith in
      (
        record {
          rest =
              ap (λ t. after t cs) (cut_time cs p full)
              ∙ (after_at 0 (p + 1999) cs up (omega arith)).1
              ∙ ap (λ n. drop n cs) next;
          wrote = ap stamps kept.0 ∙ wrote_next cs p s.written vs h.wrote k;
          count = rw (kept.0, kept.1) (omega (arith, h.count, length-append s.written vs));
          inside = omega arith;
        },
        enough,
      )

  again-Good :
      (cs : List (Candle F)) (p : ℕ) (db : Answers F) (vs : List (FeatureRow F)) (s : Pair F)
      → increasing 0 cs ≡ true
      → At cs p s
      → stamps vs ≡ times (drop 200 (take 2200 (drop p cs)))
      → Good cs p (next_chunk db (take 2200 (drop p cs)) vs s)
  unfolding next_chunk Good stored times
  again-Good cs p db vs s up h k = elim (Bool-cases (ltb (length (take 2200 (drop p cs))) 2200)) [
    | inl short ↦ rw (short) (last-Whole cs p db vs s h k (lt_of_ltb _ _ short))
    | inr full ↦ rw (full) (next-At cs p db vs s up h k (le_of_ltb _ _ full))
  ]

  pub fail_job-written : (db : Answers F) (s : Pair F) → (fail_job db s).written ≡ s.written
  unfolding fail_job
  fail_job-written db s = ground arith

  fail_job-At :
      (cs : List (Candle F)) (p : ℕ) (db : Answers F) (s : Pair F)
      → At cs p s
      → stamps (fail_job db s).written ≡ times (take p (warm cs))
  fail_job-At cs p db s h = ap stamps (fail_job-written db s) ∙ h.wrote

  -- A chunk of at most the warm-up is the last, and all rows are stored before it.
  leave-Whole :
      (cs : List (Candle F)) (p : ℕ) (s : Pair F)
      → At cs p s
      → length (take 2200 (drop p cs)) ≤ 200
      → Whole cs s
  unfolding stamps times
  leave-Whole cs p s h short =
      let all : take 2200 (drop p cs) ≡ drop p cs = take_short 2200 (drop p cs) (omega arith) in
      let none_left : drop 200 (drop p cs) ≡ [] =
        drop_all 200 (drop p cs) (omega (arith, short, ap length all)) in
      let empty : stamps {F = F} [] ≡ times (drop 200 (drop p cs)) = rw (none_left) refl in
      record {
        wrote = ap stamps (sym (append_nil s.written)) ∙ wrote_last cs p s.written [] h.wrote empty;
        count = h.count;
      }

  no_rows :
      (chunk : List (Candle F)) (vs : List (FeatureRow F))
      → stamps vs ≡ times (drop 200 chunk)
      → length vs ≡ 0
      → length chunk ≤ 200
  unfolding stamps times
  no_rows chunk vs k empty =
      let same = ap length k in
      omega (
        arith,
        empty,
        same,
        length-map vs (λ (r : FeatureRow F). r.ts),
        length-map (drop 200 chunk) (λ (c : Candle F). c.time),
        length-drop 200 chunk,
      )

  store_rows-Good :
      (cs : List (Candle F)) (p : ℕ) (db : Answers F) (vs : List (FeatureRow F)) (s : Pair F)
      → increasing 0 cs ≡ true
      → At cs p s
      → stamps vs ≡ times (drop 200 (take 2200 (drop p cs)))
      → Good cs p (store_rows db (take 2200 (drop p cs)) vs s)
  unfolding store_rows give_up_with Good
  store_rows-Good cs p db vs s up h k = elim (Bool-cases (length vs == 0)) [
    | inl empty ↦ rw (empty) (leave-Whole cs p s h (no_rows _ vs k (eq_of_test _ _ empty)))
    | inr some_rows ↦ rw (some_rows) (elim (Option-cases (validate_feature_rows vs)) [
      | inr bad ↦ rw (bad.1) (fail_job-At cs p db s h)
      | inl good ↦ rw (good) (elim (Bool-cases (db.upsert_ok vs)) [
        | inl ok ↦ rw (ok) (again-Good cs p db vs s up h k)
        | inr refused ↦ rw (refused) (fail_job-At cs p db s h)
      ])
    ])
  ]

  candles-At :
      (cs : List (Candle F)) (p : ℕ) (s : Pair F) (read : List (Candle F))
      → At cs p s
      → At cs p (record s { all_candles = read })
  candles-At cs p s read h = record {
    rest = h.rest;
    wrote = h.wrote;
    count = h.count;
    inside = h.inside;
  }

  rows_at :
      (chunk : List (Candle F)) (flow : List (OrderFlowSnapshot F)) (id : ℕ)
      → 200 ≤ length chunk
      → stamps (drop 200 (compute_features chunk flow id)) ≡ times (drop 200 chunk)
  unfolding stamps times
  rows_at chunk flow id long =
      map-drop 200 (λ (r : FeatureRow F). r.ts) (compute_features chunk flow id)
      ∙ ap (drop 200) (compute_features-stamps chunk flow id long)
      ∙ sym (map-drop 200 (λ (c : Candle F). c.time) chunk)

  on_chunk-Good :
      (cs : List (Candle F)) (p : ℕ) (db : Answers F) (tables : Tables F) (tf : String) (id : ℕ)
      (s : Pair F)
      → increasing 0 cs ≡ true
      → At cs p s
      → Good cs p (on_chunk db tables tf id (take 2200 (drop p cs)) s)
  unfolding on_chunk give_up_with Good
  on_chunk-Good cs p db tables tf id s up h =
      let chunk = take 2200 (drop p cs) in
      let read = candles-At cs p s (s.all_candles ++ chunk) h in
      elim (Bool-cases (length chunk == 0)) [
        | inl empty ↦ rw (empty) (leave-Whole cs p s h (omega (arith, eq_of_test _ _ empty)))
        | inr full ↦ rw (full) (elim (Bool-cases (ltb (length chunk) 200)) [
          | inl short ↦ rw (short) (leave-Whole cs p _ read (omega (arith, lt_of_ltb _ _ short)))
          | inr long ↦
              rw (long) (elim (Option-cases (load_order_flow tables tf (map (λ c. c.time) chunk))) [
                | inl failed ↦ rw (failed) (fail_job-At cs p db _ read)
                | inr flow ↦ rw (flow.1) (
                    store_rows-Good cs p db _ _ up read
                      (rows_at chunk flow.0 id (le_of_ltb _ _ long)))
              ])
        ])
      ]

  pub round-Good :
      (tables : Tables F) (p : ℕ) (db : Answers F) (tf : String) (id : ℕ) (s : Pair F)
      → increasing 0 tables.candles ≡ true
      → At tables.candles p s
      → Good tables.candles p (round db tables tf id s)
  unfolding round load_candles_after give_up_with Good
  round-Good tables p db tf id s up h = elim (Bool-cases (db.load_ok s.last_time)) [
    | inl ok ↦ rw (ok, h.rest) (on_chunk-Good tables.candles p db tables tf id s up h)
    | inr failed ↦ rw (failed) (fail_job-At tables.candles p db s h)
  ]
