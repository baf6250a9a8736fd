-- ===== src/Label/Future.antt =====
-- What the labels of internal/label/label.go say of the future.
use ai_trading_v.Prelude.{
  ℕ, zero, suc, ◌+◌, ◌≤◌, ◌<◌, ◌≡◌, refl, arith, ltb, if◌then◌else◌, List, [], ◌∷◌, length,
  get_elem?, get_or, map, length-map, none, some, Option,
}
use ai_trading_v.Float.{Float64, lit, num, ◌⊖◌, ◌⊗◌, ◌⊘◌, ◌≤?◌, ◌<?◌}
use ai_trading_v.Model.{Candle, LabelRow}
use ai_trading_v.Label.{
  set_label, future_return, label_horizon, label_horizons, blank_label, label_rows, compute_labels,
}

module _ {F : Type 0} ⦃f : Float64 F⦄ where
  -- The return in percent from one candle's close to another's, or 0 where one of them is missing.
  pub percent : Option (Candle F) → Option (Candle F) → F
  percent (some now) (some future) = (future.close ⊖ now.close) ⊘ now.close ⊗ num 100
  percent _ _ = num 0

  pub return_over : List (Candle F) → ℕ → ℕ → F
  return_over candles i h = percent (get_elem? candles i) (get_elem? candles (i + h))

  -- 1 where bar `i` has a close `h` bars later and the return to it is above the threshold.
  pub beats : List (Candle F) → F → ℕ → ℕ → ℕ
  beats candles threshold i h =
      if ltb (i + h) (length candles)
      then (if threshold <? return_over candles i h then 1 else 0)
      else 0

  -- The threshold, or the default for one that is not positive.
  pub used_threshold : F → F
  used_threshold pct = if pct ≤? num 0 then lit 250_000 else pct

  -- A label that is right in every horizon.
  pub record Right (candles : List (Candle F)) (threshold : F) (i : ℕ) (c : Candle F)
      (r : LabelRow F) : Type 0 where
    pub at : r.ts ≡ c.time
    pub return4 : r.future_return4 ≡ return_over candles i 4
    pub return12 : r.future_return12 ≡ return_over candles i 12
    pub return24 : r.future_return24 ≡ return_over candles i 24
    pub success4 : r.success4 ≡ beats candles threshold i 4
    pub success12 : r.success12 ≡ beats candles threshold i 12
    pub success24 : r.success24 ≡ beats candles threshold i 24

  close_at :
      (cs : List (Candle F)) (i : ℕ) {c : Candle F}
      → get_elem? cs i ≡ some c
      → get_or (map (λ c. c.close) cs) i f.nan ≡ c.close
  close_at [] i e = ground (arith, e)
  close_at (d ∷ ds) zero e = ground (arith, e)
  close_at (d ∷ ds) (suc i) e = close_at ds i e

  -- The bar is in the list, or its index is at least its length.
  found :
      (cs : List (Candle F)) (i : ℕ) → i < length cs → (c : Candle F) × (get_elem? cs i ≡ some c)
  found [] i h = ground (arith, h)
  found (c ∷ cs) zero h = (c, refl)
  found (c ∷ cs) (suc i) h = found cs i (omega arith)

  beyond : (cs : List (Candle F)) (i : ℕ) → length cs ≤ i → get_elem? cs i ≡ none
  beyond [] i h = refl
  beyond (c ∷ cs) zero h = ground (arith, h)
  beyond (c ∷ cs) (suc i) h = beyond cs i (omega arith)

  future_return-over :
      (cs : List (Candle F)) (i h : ℕ)
      → i + h < length cs
      → future_return (map (λ c. c.close) cs) i h ≡ return_over cs i h
  unfolding future_return return_over percent
  future_return-over cs i h lt =
      let now = found cs i (omega arith) in
      let later = found cs (i + h) lt in
      rw (close_at cs i now.1, close_at cs (i + h) later.1, future_return)
        (rw (now.1, later.1, return_over) refl)

  percent-none : (now : Option (Candle F)) → percent now none ≡ num 0
  unfolding percent
  percent-none none = refl
  percent-none (some now) = refl

  return_over-none :
      (cs : List (Candle F)) (i h : ℕ) → length cs ≤ i + h → return_over cs i h ≡ num 0
  unfolding return_over
  return_over-none cs i h le = rw (beyond cs (i + h) le) (percent-none (get_elem? cs i))

  label-Right :
      (cs : List (Candle F)) (threshold : F) (i : ℕ) (c : Candle F)
      → Right cs threshold i c
          (label_horizons (map (λ c. c.close) cs) threshold i (4 ∷ 12 ∷ 24 ∷ []) (blank_label c))
  unfolding label_horizons label_horizon set_label blank_label beats
  label-Right cs threshold i c = ground (
    arith,
    length-map cs (λ c. c.close),
    future_return-over cs i 4,
    future_return-over cs i 12,
    future_return-over cs i 24,
    return_over-none cs i 4,
    return_over-none cs i 12,
    return_over-none cs i 24,
  )

  rows-Right :
      (all : List (Candle F)) (threshold : F) (i j k : ℕ) (cs : List (Candle F)) {c : Candle F}
      → i + j ≡ k
      → get_elem? cs j ≡ some c
      → (r : LabelRow F) × (get_elem?
            (label_rows (map (λ c. c.close) all) threshold (4 ∷ 12 ∷ 24 ∷ []) i cs)
            j
          ≡ some r)
        × Right all threshold k c r
  unfolding label_rows
  rows-Right all threshold i j k [] at e = ground arith
  rows-Right all threshold i zero k (c ∷ cs) at e =
      let here : i ≡ k = omega arith in
      (_, refl, ground (arith, here, e, label-Right all threshold i c))
  rows-Right all threshold i (suc j) k (c ∷ cs) at e =
      rows-Right all threshold (suc i) j k cs (omega arith) e

  -- With the horizons 4, 12 and 24, ComputeLabels gives one row for each candle, in the order of the
  -- candles. Its returns are those of the closes 4, 12 and 24 bars later and its successes say which
  -- returns are above the threshold, 0.25 if the one given is not positive; where the candles end
  -- before, both are 0.
  pub compute_labels-Right :
      (candles : List (Candle F)) (pct : F) (j : ℕ) {c : Candle F}
      → get_elem? candles j ≡ some c
      → (r : LabelRow F) × (get_elem? (compute_labels candles (4 ∷ 12 ∷ 24 ∷ []) pct) j ≡ some r)
        × Right candles (used_threshold pct) j c r
  unfolding compute_labels used_threshold
  compute_labels-Right candles pct j e = rows-Right _ _ 0 j j candles (omega arith) e
