-- ===== src/Edge/Sorted.antt =====
-- The order of internal/edge/ranking.go.
use ai_trading_v.Prelude.{
  ℕ, suc, ◌+◌, ◌≡◌, refl, ap, ◌∙◌, arith, false, Bool-cases, inl, inr, if◌then◌else◌, String,
  str_eq, List, [], ◌∷◌,
}
use ai_trading_v.Float.{Float64, ◌<?◌}
use ai_trading_v.Edge.Ranking.{
  ComponentScore, insert_desc, sort_desc, with_composites, compute_ranking,
}

module _ {F : Type 0} where
  unfoldable pub count_named : String → List (ComponentScore F) → ℕ
  count_named name [] = 0
  count_named name (s ∷ ss) = (if str_eq s.feature_name name then 1 else 0) + count_named name ss

module _ {F : Type 0} ⦃f : Float64 F⦄ where
  -- No value is below the one after it.
  pub Descending : {A : Type 0} → (A → F) → List A → Type 0
  Descending value [] = Unit
  Descending value (a ∷ []) = Unit
  Descending value (a ∷ b ∷ bs) = ((value a <? value b) ≡ false) × Descending value (b ∷ bs)

  -- The value is not below the first of a list.
  FromAbove : {A : Type 0} → (A → F) → F → List A → Type 0
  FromAbove value v [] = Unit
  FromAbove value v (a ∷ rest) = (v <? value a) ≡ false

  cons-Descending :
      {A : Type 0} (value : A → F) (a : A) (bs : List A)
      → FromAbove value (value a) bs
      → Descending value bs
      → Descending value (a ∷ bs)
  unfolding Descending FromAbove
  cons-Descending value a [] first h = tt
  cons-Descending value a (b ∷ bs) first h = (first, h)

  parts_of_cons :
      {A : Type 0} (value : A → F) (a : A) (bs : List A)
      → Descending value (a ∷ bs)
      → FromAbove value (value a) bs × Descending value bs
  unfolding Descending FromAbove
  parts_of_cons value a [] h = (tt, tt)
  parts_of_cons value a (b ∷ bs) h = h

  insert_desc-FromAbove :
      {A : Type 0} (value : A → F) (v : F) (a : A) (bs : List A)
      → (v <? value a) ≡ false
      → FromAbove value v bs
      → FromAbove value v (insert_desc value a bs)
  unfolding insert_desc FromAbove
  insert_desc-FromAbove value v a [] h k = h
  insert_desc-FromAbove value v a (b ∷ bs) h k = elim (Bool-cases (value a <? value b)) [
    | inl below ↦ rw (below, insert_desc) k
    | inr above ↦ rw (above, insert_desc) h
  ]

  insert_desc-Descending :
      {A : Type 0} (value : A → F) (a : A) (bs : List A)
      → Descending value bs
      → Descending value (insert_desc value a bs)
  unfolding insert_desc FromAbove
  insert_desc-Descending value a [] h = cons-Descending value a [] tt h
  insert_desc-Descending value a (b ∷ bs) h = elim (Bool-cases (value a <? value b)) [
    | inl below ↦
        (let parts = parts_of_cons value b bs h in
          rw (below, insert_desc)
            (cons-Descending value b (insert_desc value a bs)
              (insert_desc-FromAbove value (value b) a bs (ground (arith, below)) parts.0)
              (insert_desc-Descending value a bs parts.1)))
    | inr above ↦ rw (above, insert_desc) (cons-Descending value a (b ∷ bs) above h)
  ]

  sort_desc-Descending :
      {A : Type 0} (value : A → F) (bs : List A) → Descending value (sort_desc value bs)
  unfolding sort_desc Descending
  sort_desc-Descending value [] = tt
  sort_desc-Descending value (b ∷ bs) =
      insert_desc-Descending value b (sort_desc value bs) (sort_desc-Descending value bs)

  count-insert :
      (name : String) (value : ComponentScore F → F) (s : ComponentScore F)
      (ss : List (ComponentScore F))
      → count_named name (insert_desc value s ss) ≡ count_named name (s ∷ ss)
  unfolding insert_desc count_named
  count-insert name value s [] = refl
  count-insert name value s (t ∷ ts) = ground (arith, count-insert name value s ts)

  count-sort :
      (name : String) (value : ComponentScore F → F) (ss : List (ComponentScore F))
      → count_named name (sort_desc value ss) ≡ count_named name ss
  unfolding sort_desc count_named
  count-sort name value [] = refl
  count-sort name value (s ∷ ss) =
      count-insert name value s (sort_desc value ss)
      ∙ ap (λ n. (if str_eq s.feature_name name then 1 else 0) + n) (count-sort name value ss)

  count-composites :
      (name : String) (all : List (ComponentScore F)) (i : ℕ) (ss : List (ComponentScore F))
      → count_named name (with_composites all i ss) ≡ count_named name ss
  unfolding with_composites count_named
  count-composites name all i [] = refl
  count-composites name all i (s ∷ ss) =
      ap (λ n. (if str_eq s.feature_name name then 1 else 0) + n)
        (count-composites name all (suc i) ss)

  -- ComputeRanking returns every feature as often as it was given, in an order in which no composite
  -- score is below the one after it.
  pub compute_ranking-Descending :
      (scores : List (ComponentScore F)) (name : String)
      → Descending (λ s. s.composite_score) (compute_ranking scores)
        × (count_named name (compute_ranking scores) ≡ count_named name scores)
  unfolding compute_ranking
  compute_ranking-Descending scores name = (
    sort_desc-Descending (λ s. s.composite_score) (with_composites scores 0 scores),
    count-sort name (λ s. s.composite_score) (with_composites scores 0 scores)
        ∙ count-composites name scores 0 scores,
  )
