-- ===== src/Collector/Missed.antt =====
-- The bars that the filling of internal/collector/recovery/filler.go leaves out.
use ai_trading_v.Prelude.{
  ℕ, zero, suc, ◌+◌, ◌≤◌, ◌<◌, ◌≡◌, ◌⊎◌, inl, inr, refl, arith, ◌==◌, ltb, Bool, true, false, List,
  [], length, length-map, Bool-cases, String,
}
use ai_trading_v.Model.{Candle}
use ai_trading_v.Backfill.Segments.{lt_of_ltb, le_of_ltb}
use ai_trading_v.Collector.Mapper.{Parser, rest_klines_to_candles}
use ai_trading_v.Collector.Paging.{
  to_milli, Reply, page, rate_limited, refused, Exchange, out_of_fuel, has_time,
}
use ai_trading_v.Collector.Pages.{Serves, has_time-append, last-has_time}
use ai_trading_v.Collector.Recovery.{
  Filled, filled, skipped, out_of_fuel, Step, onward, finish, last_time, fill_page, fill_step,
  fill_loop,
}

module _ {F : Type 0} where
  module _ (hist : ℕ → Bool) (parser : Parser F) (exchange : Exchange)
      (insert_ok : List (Candle F) → Bool) (symbol timeframe : String)
      (serves : Serves hist parser exchange symbol timeframe) (b : ℕ) where
    candles_of : List (List String) → List (Candle F)
    candles_of items = rest_klines_to_candles parser items symbol timeframe

    length-candles_of : (items : List (List String)) → length (candles_of items) ≡ length items
    unfolding candles_of rest_klines_to_candles
    length-candles_of items = length-map items _

    -- The bar is not stored, and the cursor has gone past it.
    Missing : ℕ → ℕ → Step F → Type 0
    Missing cursor end (onward later all) =
        (b < later) × (cursor < later) × (cursor < end) × (has_time b all ≡ false)
    Missing cursor end (finish (filled all)) = has_time b all ≡ false
    Missing cursor end (finish (skipped all)) = has_time b all ≡ false
    Missing cursor end (finish out_of_fuel) = ⊥

    -- A page that leaves the bar out and ends after it.
    page_without :
        (cursor end : ℕ) (stored : List (Candle F)) (items : List (List String))
        → cursor < end
        → exchange cursor end 200 0 ≡ page items
        → has_time b (candles_of items) ≡ false
        → (0 < length items → b < suc (to_milli (last_time (candles_of items))))
        → has_time b stored ≡ false
        → Missing cursor end (fill_page parser exchange insert_ok symbol timeframe stored items)
    unfolding fill_page Missing candles_of
    page_without cursor end stored items more answer out after lacking =
        let joined = has_time-append b stored (candles_of items) in
        elim (Bool-cases (length items == 0)) [
          | inl empty ↦ rw (empty) lacking
          | inr full ↦ rw (full) (elim (Bool-cases (insert_ok (candles_of items))) [
            | inr failed ↦ rw (failed) lacking
            | inl ok ↦ rw (ok) (elim (Bool-cases (ltb (length (candles_of items)) 200)) [
              | inl short ↦ rw (short) (ground (arith, joined, out, lacking))
              | inr long ↦ rw (long) (
                  let many : 0 < length (candles_of items) = omega (arith, le_of_ltb _ _ long) in
                  let there = last-has_time (candles_of items) many in
                  let inside = serves.within cursor end 200 0 _ items answer there in
                  (
                    omega (arith, after (omega (arith, length-candles_of items))),
                    omega (arith, inside.0),
                    more,
                    ground (arith, joined, out, lacking),
                  ))
            ])
          ])
        ]

    fill_step-Missing :
        (cursor end : ℕ) (stored : List (Candle F))
        → b < cursor
        → has_time b stored ≡ false
        → Missing cursor end
            (fill_step parser exchange insert_ok symbol timeframe cursor end stored)
    unfolding fill_step Missing candles_of
    fill_step-Missing cursor end stored past lacking = elim (Bool-cases (ltb cursor end)) [
      | inr over ↦ rw (over) lacking
      | inl more ↦ rw (more) (go (lt_of_ltb _ _ more) (exchange cursor end 200 0) refl)
    ]
      where
        out :
            (items : List (List String))
            → exchange cursor end 200 0 ≡ page items
            → has_time b (candles_of items) ≡ false
        out items answer = elim (Bool-cases (has_time b (candles_of items))) [
          | inr none_there ↦ none_there
          | inl there ↦
              absurd (omega (arith, (serves.within cursor end 200 0 b items answer there).0))
        ]

        after :
            (items : List (List String))
            → exchange cursor end 200 0 ≡ page items
            → 0 < length items
            → b < suc (to_milli (last_time (candles_of items)))
        after items answer many =
            let there = last-has_time (candles_of items) (omega (arith, length-candles_of items)) in
            omega (arith, (serves.within cursor end 200 0 _ items answer there).0)

        go :
            cursor < end
            → (r : Reply) → exchange cursor end 200 0 ≡ r
            → Missing cursor end (elim r [
              | page items ↦ fill_page parser exchange insert_ok symbol timeframe stored items
              | rate_limited ↦ finish (skipped stored)
              | refused ↦ finish (skipped stored)
            ])
        go more (page items) e =
            page_without cursor end stored items more e (out items e) (after items e) lacking
        go more rate_limited e = lacking
        go more refused e = lacking

    -- The filling has ended, and the bar is not stored.
    EndsWithout : Filled F → Type 0
    EndsWithout o =
        ((all : List (Candle F)) × (o ≡ filled all) × (has_time b all ≡ false))
        ⊎ ((all : List (Candle F)) × (o ≡ skipped all) × (has_time b all ≡ false))

    finish-EndsWithout :
        (cursor end : ℕ) (o : Filled F) → Missing cursor end (finish o) → EndsWithout o
    unfolding Missing EndsWithout
    finish-EndsWithout cursor end (filled all) g = inl (all, refl, g)
    finish-EndsWithout cursor end (skipped all) g = inr (all, refl, g)
    finish-EndsWithout cursor end out_of_fuel g = absurd g

    -- The loop after a round.
    after_step :
        (fuel cursor end : ℕ) (stored : List (Candle F)) (t : Step F)
        → fill_step parser exchange insert_ok symbol timeframe cursor end stored ≡ t
        → Missing cursor end t
        → ((later : ℕ) (all : List (Candle F))
            → Missing cursor end (onward later all)
            → EndsWithout (fill_loop parser exchange insert_ok symbol timeframe fuel later end all))
        → EndsWithout
            (fill_loop parser exchange insert_ok symbol timeframe (suc fuel) cursor end stored)
    unfolding fill_loop
    after_step fuel cursor end stored (onward later all) e g more =
        rw (e, fill_loop) (more later all g)
    after_step fuel cursor end stored (finish o) e g more =
        rw (e, fill_loop) (finish-EndsWithout cursor end o g)

    loop-EndsWithout :
        (fuel cursor end : ℕ) (stored : List (Candle F))
        → end < fuel + cursor
        → 0 < fuel
        → b < cursor
        → has_time b stored ≡ false
        → EndsWithout (fill_loop parser exchange insert_ok symbol timeframe fuel cursor end stored)
    unfolding Missing
    loop-EndsWithout zero cursor end stored enough some_fuel past lacking = absurd (omega arith)
    loop-EndsWithout (suc fuel) cursor end stored enough some_fuel past lacking =
        after_step fuel cursor end stored _ refl (fill_step-Missing cursor end stored past lacking)
          (λ later all g.
            loop-EndsWithout fuel later end all (omega (arith, g.1)) (omega (arith, g.2)) g.0 g.3)

    first_step :
        (start end : ℕ) (items : List (List String))
        → start < end
        → exchange start end 200 0 ≡ page items
        → has_time b (candles_of items) ≡ false
        → b ≤ to_milli (last_time (candles_of items))
        → Missing start end (fill_step parser exchange insert_ok symbol timeframe start end [])
    unfolding fill_step has_time
    first_step start end items more answer out before =
        let under : ltb start end ≡ true = ground (arith, more) in
        rw (under, answer)
          (page_without start end [] items more answer out (λ many. omega arith) refl)

    -- Where the exchange answers with bars of the range alone, a bar that the first page of a gap leaves
    -- out, and that is older than the last candle of this page, is never stored: the filling goes on
    -- after the last candle of a page, which is the oldest when the newest come first.
    pub fill_misses :
        (fuel start end : ℕ) (items : List (List String))
        → start < end
        → end < fuel + start
        → exchange start end 200 0 ≡ page items
        → has_time b (rest_klines_to_candles parser items symbol timeframe) ≡ false
        → b ≤ to_milli (last_time (rest_klines_to_candles parser items symbol timeframe))
        → ((all : List (Candle F)) × (fill_loop parser exchange insert_ok symbol timeframe fuel
                start end []
              ≡ filled all)
            × (has_time b all ≡ false))
          ⊎ ((all : List (Candle F)) × (fill_loop parser exchange insert_ok symbol timeframe fuel
                  start end []
                ≡ skipped all)
              × (has_time b all ≡ false))
    unfolding EndsWithout candles_of has_time Missing
    fill_misses zero start end items more enough answer out before = absurd (omega arith)
    fill_misses (suc fuel) start end items more enough answer out before =
        after_step fuel start end [] _ refl (first_step start end items more answer out before)
          (λ later all g.
            loop-EndsWithout fuel later end all (omega (arith, g.1)) (omega (arith, g.2)) g.0 g.3)
