-- ===== src/Collector/Complete.antt =====
-- The history that internal/collector/poll/backfill.go stores.
use ai_trading_v.Prelude.{
  ℕ, zero, suc, ◌+◌, ◌-◌, ◌≤◌, ◌<◌, ◌≡◌, ◌⊎◌, inl, inr, refl, ap, ◌∙◌, arith, ◌==◌, ltb, Bool, true,
  List, [], ◌++◌, length, length-map, none, some, Option-cases, Bool-cases, String,
}
use ai_trading_v.Model.{Candle}
use ai_trading_v.Backfill.Segments.{lt_of_ltb, le_of_ltb, eq_of_test}
use ai_trading_v.Collector.Mapper.{Parser, rest_klines_to_candles}
use ai_trading_v.Collector.Paging.{
  max_retries, batch_size, to_milli, Reply, page, rate_limited, refused, Exchange, get_page,
  Outcome, done, stopped, out_of_fuel, sort_by_time, first_time, has_time, Turn, next, finish,
  turn_page, turn, backfill_symbol,
}
use ai_trading_v.Collector.Pages.{
  Serves, some_inj, has_time-append, first-has_time, no_time, has_time-either, length-sort,
}

module _ {F : Type 0} where
  module _ (hist : ℕ → Bool) (parser : Parser F) (exchange : Exchange)
      (insert_ok : List (Candle F) → Bool) (symbol timeframe : String)
      (serves : Serves hist parser exchange symbol timeframe) (b : ℕ) (known : hist b ≡ true) where
    -- The bar is stored, or still ahead of the cursor.
    Ahead : ℕ → List (Candle F) → Type 0
    Ahead cursor stored = (b ≤ cursor) ⊎ (has_time b stored ≡ true)

    Good : ℕ → Turn F → Type 0
    Good cursor (next later all) = (later < cursor) × Ahead later all
    Good cursor (finish (done all)) = has_time b all ≡ true
    Good cursor (finish (stopped all)) = Unit
    Good cursor (finish out_of_fuel) = ⊥

    candles_of : List (List String) → List (Candle F)
    candles_of items = rest_klines_to_candles parser items symbol timeframe

    length-candles_of : (items : List (List String)) → length (candles_of items) ≡ length items
    unfolding candles_of rest_klines_to_candles
    length-candles_of items = length-map items _

    -- The bar is stored once a page has all bars down to it.
    reached :
        (start cursor attempt s : ℕ) (stored : List (Candle F)) (items : List (List String))
        → start < b
        → exchange start cursor batch_size attempt ≡ page items
        → Ahead cursor stored
        → (length items < batch_size) ⊎ ((has_time s (candles_of items) ≡ true) × (s ≤ b))
        → has_time b (stored ++ sort_by_time (candles_of items)) ≡ true
    unfolding Ahead candles_of
    reached start cursor attempt s stored items late answer (inr had) down =
        has_time-either b stored _ (inl had)
    reached start cursor attempt s stored items late answer (inl ahead) down =
        has_time-either b stored _ (
          inr (
            serves.newest start cursor batch_size attempt s b items answer known (omega arith) ahead
              down))

    -- A page without items has stored the bar before.
    empty_page :
        (start cursor attempt : ℕ) (stored : List (Candle F)) (items : List (List String))
        → start < b
        → exchange start cursor batch_size attempt ≡ page items
        → Ahead cursor stored
        → length items ≡ 0
        → has_time b stored ≡ true
    unfolding candles_of
    empty_page start cursor attempt stored items late answer ahead empty =
        let all =
          reached start cursor attempt 0 stored items late answer ahead (inl (omega arith)) in
        let sorted = sort_by_time (candles_of items) in
        let nothing =
          no_time b sorted
            (omega (arith, length-sort (candles_of items), length-candles_of items)) in
        ground (arith, all, nothing, has_time-append b stored sorted)

    next_cursor :
        (start cursor attempt : ℕ) (stored : List (Candle F)) (items : List (List String))
        → start < b
        → start < cursor
        → exchange start cursor batch_size attempt ≡ page items
        → Ahead cursor stored
        → 0 < length items
        → Good cursor (
            next
              (to_milli (first_time (sort_by_time (candles_of items))) - 1)
              (stored ++ sort_by_time (candles_of items)))
    unfolding Good Ahead candles_of
    next_cursor start cursor attempt stored items late more answer ahead some_items =
        let oldest = to_milli (first_time (sort_by_time (candles_of items))) in
        let there = first-has_time (candles_of items) (omega (arith, length-candles_of items)) in
        let inside = serves.within start cursor batch_size attempt oldest items answer there in
        (
          omega (arith, inside.0, inside.1),
          (elim (Bool-cases (ltb b oldest)) [
            | inl before ↦ inl (omega (arith, lt_of_ltb _ _ before))
            | inr after ↦ inr (
                reached start cursor attempt oldest stored items late answer ahead
                  (inr (there, le_of_ltb _ _ after)))
          ]),
        )

    turn_page-Good :
        (start cursor attempt : ℕ) (stored : List (Candle F)) (items : List (List String))
        → start < b
        → start < cursor
        → exchange start cursor batch_size attempt ≡ page items
        → Ahead cursor stored
        → Good cursor (turn_page parser exchange insert_ok symbol timeframe stored items)
    unfolding turn_page Good candles_of
    turn_page-Good start cursor attempt stored items late more answer ahead =
        let sorted = sort_by_time (candles_of items) in
        elim (Bool-cases (length items == 0)) [
          | inl empty ↦ rw (empty) (
              empty_page start cursor attempt stored items late answer ahead (eq_of_test _ _ empty))
          | inr full ↦ rw (full) (elim (Bool-cases (insert_ok sorted)) [
            | inr failed ↦ rw (failed) tt
            | inl ok ↦ rw (ok) (elim (Bool-cases (ltb (length sorted) batch_size)) [
              | inl short ↦ rw (short) (
                  reached start cursor attempt 0 stored items late answer ahead (
                    inl (
                      omega (
                        arith,
                        lt_of_ltb _ _ short,
                        length-sort (candles_of items),
                        length-candles_of items,
                      ))))
              | inr long ↦ rw (long) (
                  next_cursor start cursor attempt stored items late more answer ahead (
                    omega (
                      arith,
                      le_of_ltb _ _ long,
                      length-sort (candles_of items),
                      length-candles_of items,
                    )))
            ])
          ])
        ]

    get_page-answer :
        (left attempt start cursor : ℕ) (items : List (List String))
        → get_page left (exchange start cursor batch_size) attempt ≡ some items
        → (n : ℕ) × (exchange start cursor batch_size n ≡ page items)
    unfolding get_page
    get_page-answer zero attempt start cursor items h = ground (arith, h)
    get_page-answer (suc left) attempt start cursor items h =
        go (exchange start cursor batch_size attempt) refl h
          (get_page-answer left (attempt + 1) start cursor items)
      where
        go :
            (r : Reply)
            → exchange start cursor batch_size attempt ≡ r
            → (elim r [
              | page found ↦ some found
              | rate_limited ↦ get_page left (exchange start cursor batch_size) (attempt + 1)
              | refused ↦ none
            ])
              ≡ some items
            → (get_page left (exchange start cursor batch_size) (attempt + 1) ≡ some items
                → (n : ℕ) × (exchange start cursor batch_size n ≡ page items))
            → (n : ℕ) × (exchange start cursor batch_size n ≡ page items)
        go (page found) e k more = (attempt, e ∙ ap page (some_inj k))
        go rate_limited e k more = more k
        go refused e k more = ground (arith, k)

    turn-Good :
        (start cursor : ℕ) (stored : List (Candle F))
        → start < b
        → Ahead cursor stored
        → Good cursor (turn parser exchange insert_ok symbol timeframe start cursor stored)
    unfolding turn Good Ahead
    turn-Good start cursor stored late ahead = elim (Bool-cases (ltb start cursor)) [
      | inr over ↦ rw (over) (passed start cursor stored late ahead (le_of_ltb _ _ over))
      | inl more ↦
          rw (more)
            (elim (Option-cases (get_page max_retries (exchange start cursor batch_size) 0)) [
              | inl failed ↦ rw (failed) tt
              | inr items ↦ rw (items.1) (
                  let answer = get_page-answer max_retries 0 start cursor items.0 items.1 in
                  turn_page-Good start cursor answer.0 stored items.0 late (lt_of_ltb _ _ more)
                    answer.1 ahead)
            ])
    ]
      where
        passed :
            (start cursor : ℕ) (stored : List (Candle F))
            → start < b
            → Ahead cursor stored
            → cursor ≤ start
            → has_time b stored ≡ true
        passed start cursor stored late (inr had) over = had
        passed start cursor stored late (inl ahead) over = absurd (omega arith)

    -- The end of the backfill: by an error, or with the bar stored.
    Ends : Outcome F → Type 0
    Ends o =
        ((all : List (Candle F)) × (o ≡ stopped all))
        ⊎ ((all : List (Candle F)) × (o ≡ done all) × (has_time b all ≡ true))

    backfill_symbol-Ends :
        (fuel start cursor : ℕ) (stored : List (Candle F))
        → start < b
        → cursor < fuel
        → Ahead cursor stored
        → Ends (backfill_symbol parser exchange insert_ok symbol timeframe fuel start cursor stored)
    unfolding backfill_symbol Good Ends
    backfill_symbol-Ends zero start cursor stored late enough ahead = absurd (omega arith)
    backfill_symbol-Ends (suc fuel) start cursor stored late enough ahead =
        go (turn parser exchange insert_ok symbol timeframe start cursor stored)
          (turn-Good start cursor stored late ahead)
          (λ later all g. backfill_symbol-Ends fuel start later all late (omega (arith, g.0)) g.1)
      where
        go :
            (t : Turn F)
            → Good cursor t
            → ((later : ℕ) (all : List (Candle F))
                → (later < cursor) × Ahead later all
                → Ends (
                    backfill_symbol parser exchange insert_ok symbol timeframe fuel start later
                      all))
            → Ends (elim t [
              | next later all ↦
                  backfill_symbol parser exchange insert_ok symbol timeframe fuel start later all
              | finish o ↦ o
            ])
        go (next later all) g more = more later all g
        go (finish (done all)) g more = inr (all, refl, g)
        go (finish (stopped all)) g more = inl (all, refl)
        go (finish out_of_fuel) g more = absurd g

    -- Where the exchange answers with the newest bars of the range, the backfill of a pair ends, with
    -- more fuel than the milliseconds of its first cursor; and unless an error stops it, every bar of
    -- the exchange after the start and up to the cursor is stored.
    pub backfill_symbol_complete :
        (fuel start cursor : ℕ)
        → start < b
        → b ≤ cursor
        → cursor < fuel
        → ((all : List (Candle F)) × (backfill_symbol parser exchange insert_ok symbol timeframe
                fuel start cursor []
              ≡ stopped all))
          ⊎ ((all : List (Candle F)) × (backfill_symbol parser exchange insert_ok symbol timeframe
                  fuel start cursor []
                ≡ done all)
              × (has_time b all ≡ true))
    unfolding Ends Ahead
    backfill_symbol_complete fuel start cursor late known_range enough =
        backfill_symbol-Ends fuel start cursor [] late enough (inl known_range)
