-- ===== src/Edge/Ranking.antt =====
-- internal/edge/ranking.go, and TopFeatures of study.go without its map. Of equal values, sort.Slice
-- leaves the order open; here the earlier goes first.
use ai_trading_v.Prelude.{ℕ, suc, ◌-◌, ◌==◌, if◌then◌else◌, String, List, [], ◌∷◌, length, map}
use ai_trading_v.Float.{Float64, lit, num, ◌⊕◌, ◌⊖◌, ◌⊗◌, ◌⊘◌, ◌<?◌}

pub record ComponentScore (F : Type 0) : Type 0 where
  pub feature_name : String
  pub quantile_pf : F
  pub quantile_wr_delta : F
  pub rolling_stability : F
  pub regime_consistency_val : F
  pub avg_abs_correlation : F
  pub composite_score : F

module _ {F : Type 0} ⦃f : Float64 F⦄ where
  -- sort.Slice by a value, the larger first.
  unfoldable pub insert_desc : {A : Type 0} → (A → F) → A → List A → List A
  insert_desc value a [] = a ∷ []
  insert_desc value a (b ∷ bs) =
      let rest = insert_desc value a bs in if value a <? value b then b ∷ rest else a ∷ b ∷ bs

  unfoldable pub sort_desc : {A : Type 0} → (A → F) → List A → List A
  sort_desc value [] = []
  sort_desc value (a ∷ rest_of) = insert_desc value a (sort_desc value rest_of)

  unfoldable pub indexed : ℕ → List F → List (ℕ × F)
  indexed i [] = []
  indexed i (v ∷ vs) = (i, v) ∷ indexed (suc i) vs

  -- The rank of an index in the order, from 1.
  unfoldable pub rank_in : List (ℕ × F) → ℕ → ℕ
  rank_in [] i = 0
  rank_in (e ∷ es) i = if e.0 == i then 1 else suc (rank_in es i)

  -- `ranks`: the order of the values, and the rank of an index in it.
  unfoldable pub order_by : (ComponentScore F → F) → List (ComponentScore F) → List (ℕ × F)
  order_by getter scores = sort_desc (λ e. e.1) (indexed 0 (map getter scores))

  unfoldable pub rank_score : (ComponentScore F → F) → List (ComponentScore F) → ℕ → F
  rank_score getter scores i =
      num 1 ⊖ num (rank_in (order_by getter scores) i - 1) ⊘ num (length scores - 1)

  unfoldable pub composite : List (ComponentScore F) → ℕ → F
  composite scores i =
      lit 400_000 ⊗ rank_score (λ s. s.quantile_pf) scores i
      ⊕ lit 250_000 ⊗ rank_score (λ s. s.quantile_wr_delta) scores i
      ⊕ lit 150_000 ⊗ rank_score (λ s. s.rolling_stability) scores i
      ⊕ lit 100_000 ⊗ rank_score (λ s. s.regime_consistency_val) scores i
      ⊕ lit 100_000 ⊗ rank_score (λ s. s.avg_abs_correlation) scores i

  unfoldable pub with_composites :
      List (ComponentScore F) → ℕ → List (ComponentScore F) → List (ComponentScore F)
  with_composites all i [] = []
  with_composites all i (s ∷ ss) =
      record s { composite_score = composite all i } ∷ with_composites all (suc i) ss

  unfoldable pub compute_ranking : List (ComponentScore F) → List (ComponentScore F)
  compute_ranking scores = sort_desc (λ s. s.composite_score) (with_composites scores 0 scores)
