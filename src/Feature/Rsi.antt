-- ===== src/Feature/Rsi.antt =====
-- The range of the relative strength index of internal/feature/rsi.go.
use ai_trading_v.Prelude.{◌≡◌, true, arith}
use ai_trading_v.Float.{Float64, num, ◌⊕◌, ◌⊖◌, ◌⊘◌, ◌≼◌, ◌≺◌, valid}
use ai_trading_v.Float.Laws.{Ieee}
use ai_trading_v.Float.Interval.{num-valid}
use ai_trading_v.Feature.{compute_rsi}

module _ {F : Type 0} ⦃f : Float64 F⦄ (ieee : Ieee F) where
  open ieee use {lit_mono, squeeze, sub_mono, num_sub, div_nonneg, div_shrink, le_add}

  -- `100 / (1 + rs)` for a strength that is not negative, an infinite one included.
  inner_range :
      (rs : F) → num 0 ≼ rs → (num 0 ≼ num 100 ⊘ (num 1 ⊕ rs)) × (num 100 ⊘ (num 1 ⊕ rs) ≼ num 100)
  inner_range rs h =
      div_shrink (num 100) (num 1 ⊕ rs) (num-valid ieee 100 (omega arith))
        (lit_mono 0 100_000_000 (omega arith))
        (le_add (num 1) rs (num-valid ieee 1 (omega arith)) h)

  outer_range : (x : F) → num 0 ≼ x → x ≼ num 100 → (num 0 ≼ num 100 ⊖ x) × (num 100 ⊖ x ≼ num 100)
  outer_range x lo hi =
      let hundred = num-valid ieee 100 (omega arith) in
      let zero = num-valid ieee 0 (omega arith) in
      let v = squeeze (num 0) x (num 100) lo hi zero hundred in
      let same = lit_mono 100_000_000 100_000_000 (omega arith) in
      let least = sub_mono (num 100) (num 100) (num 100) x hundred hundred hundred v same hi in
      let most = sub_mono (num 100) (num 100) x (num 0) hundred hundred v zero same lo in
      (
        rw (num_sub 100 100 (omega arith) (omega arith)) at least,
        rw (num_sub 100 0 (omega arith) (omega arith)) at most,
      )

  moving_range :
      (gain loss : F)
      → num 0 ≼ gain
      → valid loss ≡ true
      → num 0 ≺ loss
      → (num 0 ≼ num 100 ⊖ num 100 ⊘ (num 1 ⊕ gain ⊘ loss))
        × (num 100 ⊖ num 100 ⊘ (num 1 ⊕ gain ⊘ loss) ≼ num 100)
  moving_range gain loss hg vl pl =
      let (lo, hi) = inner_range (gain ⊘ loss) (div_nonneg gain loss vl pl hg) in
      outer_range _ lo hi

  -- For an average gain that is not negative, an infinite one included, and a finite average loss that
  -- is not negative, the strength is a number from 0 to 100, also where their ratio overflows.
  pub rsi_range :
      (gain loss : F)
      → num 0 ≼ gain
      → valid loss ≡ true
      → num 0 ≼ loss
      → (num 0 ≼ compute_rsi gain loss) × (compute_rsi gain loss ≼ num 100)
  unfolding compute_rsi
  rsi_range gain loss hg vl hl =
      let moving = λ (p : num 0 ≺ loss). moving_range gain loss hg vl p in
      ground (
        arith,
        hl,
        moving,
        lit_mono 0 50_000_000 (omega arith),
        lit_mono 50_000_000 100_000_000 (omega arith),
        lit_mono 0 100_000_000 (omega arith),
        lit_mono 100_000_000 100_000_000 (omega arith),
      )
