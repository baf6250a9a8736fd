-- ===== src/Collector/Pages.antt =====
-- Pages of candles and what they hold, for internal/collector/poll and internal/collector/recovery.
use ai_trading_v.Prelude.{
  ℕ, suc, ◌≤◌, ◌<◌, ◌≡◌, ◌⊎◌, refl, sym, ◌∙◌, arith, ◌==◌, Bool, true, false, ◌||◌, List, [], ◌∷◌,
  ◌++◌, length, some, String,
}
use ai_trading_v.Model.{Candle}
use ai_trading_v.Collector.Mapper.{Parser, rest_klines_to_candles}
use ai_trading_v.Collector.Recovery.{last_time}
use ai_trading_v.Collector.Paging.{
  to_milli, page, Exchange, insert_by_time, sort_by_time, first_time, has_time,
}

-- What the exchange documents: a page has bars of the range alone, the newest `limit` of them.
pub record Serves {F : Type 0} (hist : ℕ → Bool) (parser : Parser F) (exchange : Exchange)
    (symbol timeframe : String) : Type 0 where
  pub within :
      (start end limit attempt t : ℕ) (items : List (List String))
      → exchange start end limit attempt ≡ page items
      → has_time t (rest_klines_to_candles parser items symbol timeframe) ≡ true
      → (start ≤ t) × (t ≤ end)
  pub newest :
      (start end limit attempt s t : ℕ) (items : List (List String))
      → exchange start end limit attempt ≡ page items
      → hist t ≡ true
      → start ≤ t
      → t ≤ end
      → (length items < limit)
        ⊎ ((has_time s (rest_klines_to_candles parser items symbol timeframe) ≡ true) × (s ≤ t))
      → has_time t (rest_klines_to_candles parser items symbol timeframe) ≡ true

pub some_inj : {A : Type 0} {x y : A} → some x ≡ some y → x ≡ y
some_inj h = ground (arith, h)

module _ {F : Type 0} where
  pub has_time-append :
      (t : ℕ) (xs ys : List (Candle F)) → has_time t (xs ++ ys) ≡ has_time t xs || has_time t ys
  unfolding has_time
  has_time-append t [] ys = refl
  has_time-append t (x ∷ xs) ys = ground (arith, has_time-append t xs ys)

  has_time-insert :
      (t : ℕ) (c : Candle F) (cs : List (Candle F))
      → has_time t (insert_by_time c cs) ≡ (to_milli c.time == t) || has_time t cs
  unfolding has_time insert_by_time
  has_time-insert t c [] = refl
  has_time-insert t c (d ∷ ds) = ground (arith, has_time-insert t c ds)

  pub has_time-sort : (t : ℕ) (cs : List (Candle F)) → has_time t (sort_by_time cs) ≡ has_time t cs
  unfolding has_time sort_by_time
  has_time-sort t [] = refl
  has_time-sort t (c ∷ cs) =
      ground (arith, has_time-insert t c (sort_by_time cs), has_time-sort t cs)

  has_time-first :
      (c : Candle F) (cs : List (Candle F))
      → has_time (to_milli (first_time (c ∷ cs))) (c ∷ cs) ≡ true
  unfolding has_time first_time
  has_time-first c cs = ground arith

  length-insert :
      (c : Candle F) (cs : List (Candle F)) → length (insert_by_time c cs) ≡ suc (length cs)
  unfolding insert_by_time
  length-insert c [] = refl
  length-insert c (d ∷ ds) = ground (arith, length-insert c ds)

  pub length-sort : (cs : List (Candle F)) → length (sort_by_time cs) ≡ length cs
  unfolding sort_by_time
  length-sort [] = refl
  length-sort (c ∷ cs) = omega (arith, length-insert c (sort_by_time cs), length-sort cs)

  pub first-has_time :
      (cs : List (Candle F))
      → 0 < length cs
      → has_time (to_milli (first_time (sort_by_time cs))) cs ≡ true
  first-has_time cs h =
      sym (has_time-sort (to_milli (first_time (sort_by_time cs))) cs)
      ∙ of_sorted (sort_by_time cs) (omega (arith, length-sort cs))
    where
      of_sorted :
          (ds : List (Candle F)) → 0 < length ds → has_time (to_milli (first_time ds)) ds ≡ true
      of_sorted [] g = absurd (omega arith)
      of_sorted (d ∷ ds) g = has_time-first d ds

  pub last-has_time :
      (cs : List (Candle F)) → 0 < length cs → has_time (to_milli (last_time cs)) cs ≡ true
  unfolding has_time last_time
  last-has_time [] h = absurd (omega arith)
  last-has_time (c ∷ []) h = ground arith
  last-has_time (c ∷ d ∷ cs) h = ground (arith, last-has_time (d ∷ cs))

  pub no_time : (t : ℕ) (cs : List (Candle F)) → length cs ≡ 0 → has_time t cs ≡ false
  unfolding has_time
  no_time t [] h = refl
  no_time t (c ∷ cs) h = absurd (omega arith)

  pub has_time-either :
      (t : ℕ) (xs ys : List (Candle F))
      → (has_time t xs ≡ true) ⊎ (has_time t ys ≡ true)
      → has_time t (xs ++ sort_by_time ys) ≡ true
  has_time-either t xs ys h =
      ground (arith, h, has_time-append t xs (sort_by_time ys), has_time-sort t ys)
