-- ===== src/Feature/Flow.antt =====
-- What internal/feature/orderflow.go and market.go promise: an imbalance is a finite number, and each
-- result has one value per input.
use ai_trading_v.Prelude.{◌≡◌, true, arith, List, [], ◌∷◌, length, All}
use ai_trading_v.Float.{Float64, num, ◌⊕◌, ◌⊖◌, ◌≼◌, ◌≺◌, valid}
use ai_trading_v.Float.Laws.{Ieee}
use ai_trading_v.Float.Interval.{num-valid}
use ai_trading_v.Feature.Market.{imbalance, imbalance_loop, normalized_imbalance}

module _ {F : Type 0} ⦃f : Float64 F⦄ (ieee : Ieee F) where
  open ieee use {add_mono, num_add, add_comm, sub_bounded, div_bounded, lit_mono}

  -- A volume: a finite number that is not negative.
  abbrev pub Volume : F → Type 0
  Volume x = (valid x ≡ true) × (num 0 ≼ x)

  imbalance-finite : (a b : F) → Volume a → Volume b → valid (imbalance a b) ≡ true
  unfolding imbalance
  imbalance-finite a b (va, na) (vb, nb) =
      let zero = num-valid ieee 0 (omega arith) in
      let (ok, upper, lower) = sub_bounded b a vb va nb na in
      let swap = add_comm b a vb va in
      let sum = add_mono (num 0) a (num 0) b zero va zero vb na nb in
      let total : num 0 ≼ a ⊕ b = rw (num_add 0 0 (omega arith)) at sum in
      let upper' = rw swap at upper in
      let lower' = rw swap at lower in
      let divided = λ (p : num 0 ≺ a ⊕ b). div_bounded (a ⊖ b) (a ⊕ b) ok p upper' lower' in
      ground (arith, total, zero, divided)

  imbalance_loop-finite :
      (xs bs : List F)
      → All Volume xs
      → All Volume bs
      → All (λ x. valid x ≡ true) (imbalance_loop xs bs)
  unfolding imbalance_loop
  imbalance_loop-finite [] bs ha hb = tt
  imbalance_loop-finite (a ∷ xs) [] ha hb = tt
  imbalance_loop-finite (a ∷ xs) (b ∷ bs) ha hb =
      (imbalance-finite a b ha.0 hb.0, imbalance_loop-finite xs bs ha.1 hb.1)

  -- For two lists of volumes of one length the imbalances are finite, also where both volumes are zero.
  pub imbalance_valid :
      (xs bs : List F)
      → length xs ≡ length bs
      → All Volume xs
      → All Volume bs
      → All (λ x. valid x ≡ true) (normalized_imbalance xs bs)
  unfolding normalized_imbalance
  imbalance_valid xs bs same ha hb = ground (arith, same, imbalance_loop-finite xs bs ha hb)
