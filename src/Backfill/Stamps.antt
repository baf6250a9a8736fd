-- ===== src/Backfill/Stamps.antt =====
-- The timestamps of the feature rows of internal/feature/feature.go, chunk by chunk.
use ai_trading_v.Prelude.{
  ℕ, suc, ◌+◌, ◌≤◌, ◌≡◌, refl, sym, ap, ◌∙◌, arith, List, [], ◌∷◌, ◌++◌, length, take, drop, map,
}
use ai_trading_v.Float.{Float64}
use ai_trading_v.Model.{Candle, FeatureRow, OrderFlowSnapshot}
use ai_trading_v.Feature.Compute.{
  Columns, FlowColumns, columns_of, base_row, base_rows, flow_row, flow_rows, flow_columns_of,
  compute_features,
}
use ai_trading_v.Backfill.Segments.{drop-drop, take-add, drop-take, take-append_drop, map-append}

module _ {F : Type 0} where
  unfoldable pub times : List (Candle F) → List ℕ
  times cs = map (λ c. c.time) cs

  unfoldable pub stamps : List (FeatureRow F) → List ℕ
  stamps rs = map (λ r. r.ts) rs

  -- The candles that get a row.
  unfoldable pub warm : List (Candle F) → List (Candle F)
  warm cs = drop 200 cs

module _ {F : Type 0} ⦃f : Float64 F⦄ where
  base_rows-stamps :
      (cols : Columns F) (id i : ℕ) (cs : List (Candle F))
      → stamps (base_rows cols id i cs) ≡ times cs
  unfolding base_rows base_row stamps times
  base_rows-stamps cols id i [] = refl
  base_rows-stamps cols id i (c ∷ cs) = ap (λ r. c.time ∷ r) (base_rows-stamps cols id (suc i) cs)

  flow_rows-stamps :
      (cols : FlowColumns F) (i : ℕ) (rs : List (FeatureRow F))
      → stamps (flow_rows cols i rs) ≡ stamps rs
  unfolding flow_rows flow_row stamps
  flow_rows-stamps cols i [] = refl
  flow_rows-stamps cols i (r ∷ rs) = ap (λ rest. r.ts ∷ rest) (flow_rows-stamps cols (suc i) rs)

  pub compute_features-stamps :
      (cs : List (Candle F)) (flow : List (OrderFlowSnapshot F)) (id : ℕ)
      → 200 ≤ length cs
      → stamps (compute_features cs flow id) ≡ times cs
  unfolding compute_features
  compute_features-stamps cs flow id h =
      let base = base_rows-stamps (columns_of cs) id 0 cs in
      let mixed = flow_rows-stamps (flow_columns_of flow) 0 (base_rows (columns_of cs) id 0 cs) in
      ground (arith, h, base, mixed)

  stamps-append :
      (rs vs : List (FeatureRow F)) (cs ds : List (Candle F))
      → stamps rs ≡ times cs
      → stamps vs ≡ times ds
      → stamps (rs ++ vs) ≡ times (cs ++ ds)
  unfolding stamps times
  stamps-append rs vs cs ds h k =
      rw
        (
          map-append (λ (r : FeatureRow F). r.ts) rs vs,
          map-append (λ (c : Candle F). c.time) cs ds,
          h,
          k,
        )
        refl

  pub wrote_last :
      (cs : List (Candle F)) (p : ℕ) (rs vs : List (FeatureRow F))
      → stamps rs ≡ times (take p (warm cs))
      → stamps vs ≡ times (drop 200 (drop p cs))
      → stamps (rs ++ vs) ≡ times (warm cs)
  unfolding warm
  wrote_last cs p rs vs h k =
      let swap : drop 200 (drop p cs) ≡ drop p (drop 200 cs) =
        drop-drop 200 p (p + 200) cs (omega arith) ∙ sym (drop-drop p 200 (p + 200) cs refl) in
      stamps-append rs vs (take p (drop 200 cs)) (drop 200 (drop p cs)) h k
      ∙ ap times (ap (λ r. take p (drop 200 cs) ++ r) swap ∙ take-append_drop p (drop 200 cs))

  pub wrote_next :
      (cs : List (Candle F)) (p : ℕ) (rs vs : List (FeatureRow F))
      → stamps rs ≡ times (take p (warm cs))
      → stamps vs ≡ times (drop 200 (take 2200 (drop p cs)))
      → stamps (rs ++ vs) ≡ times (take (p + 2000) (warm cs))
  unfolding warm
  wrote_next cs p rs vs h k =
      let swap : drop 200 (drop p cs) ≡ drop p (drop 200 cs) =
        drop-drop 200 p (p + 200) cs (omega arith) ∙ sym (drop-drop p 200 (p + 200) cs refl) in
      let piece : drop 200 (take 2200 (drop p cs)) ≡ take 2000 (drop p (drop 200 cs)) =
        drop-take 200 2000 2200 (drop p cs) refl ∙ ap (take 2000) swap in
      stamps-append rs vs (take p (drop 200 cs)) _ h k
      ∙ ap times (
          ap (λ r. take p (drop 200 cs) ++ r) piece
          ∙ sym (take-add p 2000 (p + 2000) (drop 200 cs) refl))
