-- ===== src/Paper/Rows.antt =====
-- Which feature row internal/papertrade/engine.go trades on.
use ai_trading_v.Prelude.{
  ℕ, suc, ◌≤◌, ◌<◌, ◌≡◌, refl, ◌⊎◌, inl, inr, arith, List, [], ◌∷◌, get_elem?, All, Option, none,
  some,
}
use ai_trading_v.Float.{Float64}
use ai_trading_v.Model.{Time, FeatureRow}
use ai_trading_v.Paper.Orders.{later_row, best_row, load_features_at}

-- The choice `best` covers a row that is later than the candle, or not later than the choice.
abbrev pub Covered : {F : Type 0} → Time → Option (FeatureRow F) → FeatureRow F → Type 0
Covered ts none r = ts < r.ts
Covered ts (some best) r = (ts < r.ts) ⊎ (r.ts ≤ best.ts)

abbrev pub Early : {F : Type 0} → Time → Option (FeatureRow F) → Type 0
Early ts none = Unit {0}
Early ts (some best) = best.ts ≤ ts

module _ {F : Type 0} ⦃f : Float64 F⦄ where
  later_row-Early :
      (ts : Time) (r : FeatureRow F) (best : Option (FeatureRow F))
      → Early ts best
      → Early ts (later_row ts r best)
  unfolding later_row
  later_row-Early ts r none h = ground arith
  later_row-Early ts r (some b) h = ground (arith, h)

  later_row-Covered :
      (ts : Time) (r : FeatureRow F) (best : Option (FeatureRow F))
      → Covered ts (later_row ts r best) r
  unfolding later_row
  later_row-Covered ts r none = ground arith
  later_row-Covered ts r (some b) = ground arith

  later_row-keeps :
      (ts : Time) (r : FeatureRow F) (best : Option (FeatureRow F)) (q : FeatureRow F)
      → Covered ts best q
      → Covered ts (later_row ts r best) q
  unfolding later_row
  later_row-keeps ts r none q h = ground (arith, h)
  later_row-keeps ts r (some b) q h = ground (arith, h)

  best_row-Early :
      (ts : Time) (rs : List (FeatureRow F)) (best : Option (FeatureRow F))
      → Early ts best
      → Early ts (best_row ts rs best)
  unfolding best_row
  best_row-Early ts [] best h = h
  best_row-Early ts (r ∷ rs) best h =
      best_row-Early ts rs (later_row ts r best) (later_row-Early ts r best h)

  best_row-keeps :
      (ts : Time) (rs : List (FeatureRow F)) (best : Option (FeatureRow F)) (q : FeatureRow F)
      → Covered ts best q
      → Covered ts (best_row ts rs best) q
  unfolding best_row
  best_row-keeps ts [] best q h = h
  best_row-keeps ts (r ∷ rs) best q h =
      best_row-keeps ts rs (later_row ts r best) q (later_row-keeps ts r best q h)

  All-Covered :
      (ts : Time) (rs : List (FeatureRow F)) (best : Option (FeatureRow F))
      → All (Covered ts (best_row ts rs best)) rs
  unfolding best_row
  All-Covered ts [] best = tt
  All-Covered ts (r ∷ rs) best = (
    best_row-keeps ts rs (later_row ts r best) r (later_row-Covered ts r best),
    All-Covered ts rs (later_row ts r best),
  )

  later_row-from :
      (ts : Time) (r : FeatureRow F) (best : Option (FeatureRow F))
      → (later_row ts r best ≡ best) ⊎ (later_row ts r best ≡ some r)
  unfolding later_row
  later_row-from ts r none = ground arith
  later_row-from ts r (some b) = ground arith

  best_row-from :
      (ts : Time) (rs : List (FeatureRow F)) (best : Option (FeatureRow F))
      → (best_row ts rs best ≡ best) ⊎ ((i : ℕ) × (best_row ts rs best ≡ get_elem? rs i))
  unfolding best_row
  best_row-from ts [] best = inl refl
  best_row-from ts (r ∷ rs) best = elim (best_row-from ts rs (later_row ts r best)) [
    | inr (i, e) ↦ inr (suc i, e)
    | inl e ↦ elim (later_row-from ts r best) [ inl kept ↦ inl cc | inr taken ↦ inr (0, cc) ]
  ]

  -- The features of a candle are one of the loaded rows, not later than the candle, and no loaded row
  -- lies between them: a tick trades on the latest features known at its candle, never on later ones.
  pub features_latest :
      (ts : Time) (rows : List (FeatureRow F)) {best : FeatureRow F}
      → load_features_at ts (some rows) ≡ some best
      → (best.ts ≤ ts)
        × ((i : ℕ) × (get_elem? rows i ≡ some best))
        × All (λ r. (ts < r.ts) ⊎ (r.ts ≤ best.ts)) rows
  unfolding load_features_at
  features_latest ts rows {best} e =
      let early : Early ts (some best) = rw e at (best_row-Early ts rows none tt) in
      let covered : All (Covered ts (some best)) rows = rw e at (All-Covered ts rows none) in
      (
        early,
        elim (best_row-from ts rows none) [
          | inl nothing ↦ ground (arith, nothing, e)
          | inr (i, at) ↦ (i, cc)
        ],
        covered,
      )
