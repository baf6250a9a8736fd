-- ===== src/Backfill/Join.antt =====
-- What LoadOrderFlow of internal/db/feature_store.go takes from a table for each timestamp.
use ai_trading_v.Prelude.{
  ℕ, suc, ◌≤◌, ◌≡◌, refl, arith, ltb, leb, Bool, true, ◌&&◌, if◌then◌else◌, List, [], ◌∷◌, Option,
  none, some,
}
use ai_trading_v.Backfill.Flow.{advance, between}

unfoldable pub or_else : {R : Type 0} → Option R → Option R → Option R
or_else none last = last
or_else (some r) last = some r

module _ {R : Type 0} (time : R → ℕ) where
  -- The last row after `low` and up to `high`.
  unfoldable pub last_within : ℕ → ℕ → List R → Option R
  last_within low high [] = none
  last_within low high (r ∷ rs) = elim (last_within low high rs) [
    | some later ↦ some later
    | none ↦ if ltb low (time r) && leb (time r) high then some r else none
  ]

  unfoldable pub ordered : ℕ → List R → Bool
  ordered low [] = true
  ordered low (r ∷ rs) = leb low (time r) && ordered (time r) rs

  pub ordered_weaken :
      (low high : ℕ) (rs : List R) → low ≤ high → ordered high rs ≡ true → ordered low rs ≡ true
  unfolding ordered
  ordered_weaken low high [] le h = refl
  ordered_weaken low high (r ∷ rs) le h = ground (arith, le, h)

  none_within :
      (low high : ℕ) (rs : List R) → ordered (suc high) rs ≡ true → last_within low high rs ≡ none
  unfolding ordered last_within
  none_within low high [] h = refl
  none_within low high (r ∷ rs) h =
      ground (arith, h, none_within low high rs, ordered_weaken (suc high) (time r) rs)

  pub advance-ordered :
      (low ts : ℕ) (last : Option R) (rs : List R)
      → ordered low rs ≡ true
      → ordered (suc ts) (advance time ts last rs).1 ≡ true
  unfolding ordered advance
  advance-ordered low ts last [] h = refl
  advance-ordered low ts last (r ∷ rs) h =
      ground (arith, h, advance-ordered (time r) ts (some r) rs)

  pub advance-last_within :
      (low ts : ℕ) (last : Option R) (rs : List R)
      → ordered (suc low) rs ≡ true
      → (advance time ts last rs).0 ≡ or_else (last_within low ts rs) last
  unfolding ordered advance last_within or_else
  advance-last_within low ts last [] h = refl
  advance-last_within low ts last (r ∷ rs) h = ground (
    arith,
    h,
    advance-last_within low ts (some r) rs,
    ordered_weaken (suc low) (time r) rs,
    none_within low ts rs,
    ordered_weaken (suc ts) (time r) rs,
  )

  pub last_within-advance :
      (low high ts : ℕ) (last : Option R) (rs : List R)
      → ts ≤ low
      → last_within low high (advance time ts last rs).1 ≡ last_within low high rs
  unfolding advance last_within
  last_within-advance low high ts last [] le = refl
  last_within-advance low high ts last (r ∷ rs) le =
      ground (arith, le, last_within-advance low high ts (some r) rs le)

  pub last_within-between :
      (low high start end : ℕ) (rs : List R)
      → start ≤ low
      → high ≤ end
      → last_within low high (between time start end rs) ≡ last_within low high rs
  unfolding between last_within
  last_within-between low high start end [] le ge = refl
  last_within-between low high start end (r ∷ rs) le ge =
      ground (arith, le, ge, last_within-between low high start end rs le ge)

  pub between-ordered :
      (low start end : ℕ) (rs : List R)
      → ordered low rs ≡ true
      → ordered low (between time start end rs) ≡ true
  unfolding between ordered
  between-ordered low start end [] h = refl
  between-ordered low start end (r ∷ rs) h = ground (
    arith,
    h,
    between-ordered (time r) start end rs,
    ordered_weaken low (time r) (between time start end rs),
  )
