-- ===== src/Paper/Slippage.antt =====
-- How far internal/papertrade/executor.go moves a price: the slippage with its premium, and the two
-- factors of a fill.
use ai_trading_v.Prelude.{◌≡◌, true, Bool-cases, ◌&&◌, inl, inr, arith}
use ai_trading_v.Float.{Float64, lit, num, fmin, ◌⊕◌, ◌⊖◌, ◌⊗◌, ◌⊘◌, ◌<?◌, ◌≼◌, ◌≺◌, valid}
use ai_trading_v.Float.Laws.{Ieee}
use ai_trading_v.Float.Interval.{num-valid}
use ai_trading_v.Paper.{EngineConfig}
use ai_trading_v.Paper.Executor.{entry_slippage}

module _ {F : Type 0} ⦃f : Float64 F⦄ (ieee : Ieee F) where
  open ieee use {
    refl_of_le, le_trans, le_total, lit_mono, lit_valid, squeeze, add_mono, sub_mono, mul_mono,
    num_add, num_sub, num_mul, mul_one, le_add, div_nonneg, mul_shrink, add_close, mul_close,
  }

  slip_valid :
      (s : F)
      → valid s ≡ true
      → num 0 ≼ s
      → s ≼ num 1
      → (valid (num 1 ⊕ s) ≡ true)
        × (valid (num 1 ⊖ s) ≡ true)
        × (num 1 ≼ num 1 ⊕ s)
        × (num 0 ≼ num 1 ⊖ s)
        × (num 1 ⊖ s ≼ num 1)
  slip_valid s v lo hi =
      let one = num-valid ieee 1 (omega arith) in
      let two = num-valid ieee 2 (omega arith) in
      let zero = num-valid ieee 0 (omega arith) in
      let one_one = lit_mono 1_000_000 1_000_000 (omega arith) in
      let plus_lo : num 1 ≼ num 1 ⊕ s =
        rw (num_add 1 0 (omega arith)) at
          (add_mono (num 1) (num 1) (num 0) s one one zero v one_one lo) in
      let plus_hi : num 1 ⊕ s ≼ num 2 =
        rw (num_add 1 1 (omega arith)) at
          (add_mono (num 1) (num 1) s (num 1) one one v one one_one hi) in
      let minus_lo : num 0 ≼ num 1 ⊖ s =
        rw (num_sub 1 1 (omega arith) (omega arith)) at
          (sub_mono (num 1) (num 1) (num 1) s one one one v one_one hi) in
      let minus_hi : num 1 ⊖ s ≼ num 1 =
        rw (num_sub 1 0 (omega arith) (omega arith)) at
          (sub_mono (num 1) (num 1) s (num 0) one one v zero one_one lo) in
      (
        squeeze (num 1) (num 1 ⊕ s) (num 2) plus_lo plus_hi one two,
        squeeze (num 0) (num 1 ⊖ s) (num 1) minus_lo minus_hi zero one,
        plus_lo,
        minus_lo,
        minus_hi,
      )

  pub fill_bounds :
      (price s : F)
      → valid price ≡ true
      → valid s ≡ true
      → num 0 ≼ price
      → num 0 ≼ s
      → s ≼ num 1
      → (price ≼ price ⊗ (num 1 ⊕ s)) × (price ⊗ (num 1 ⊖ s) ≼ price)
  fill_bounds price s vp vs hp lo hi =
      let (plus, minus, up, low, down) = slip_valid s vs lo hi in
      let one = num-valid ieee 1 (omega arith) in
      let zero_one = lit_mono 0 1_000_000 (omega arith) in
      let same = (refl_of_le (num 0) price hp).1 in
      (
        rw (mul_one price vp) at
            (mul_mono price price (num 1) (num 1 ⊕ s) vp vp one plus hp same zero_one up),
        rw (mul_one price vp) at
            (mul_mono price price (num 1 ⊖ s) (num 1) vp vp minus one hp same low down),
      )

  -- The premium: the slippage times a factor from 0 to 2.
  premium :
      (s k : F)
      → valid s ≡ true
      → num 0 ≼ s
      → s ≼ lit 250_000
      → num 0 ≼ k
      → k ≼ num 2
      → (s ≼ s ⊕ s ⊗ k) × (s ⊕ s ⊗ k ≼ s ⊕ s ⊗ num 2) × (s ⊕ s ⊗ num 2 ≼ num 1)
  premium s k v lo hi k0 k2 =
      let zero = num-valid ieee 0 (omega arith) in
      let two = num-valid ieee 2 (omega arith) in
      let quarter = lit_valid 250_000 (omega arith) in
      let half = lit_valid 500_002 (omega arith) in
      let vk = squeeze (num 0) k (num 2) k0 k2 zero two in
      let same = (refl_of_le (num 0) s lo).1 in
      let none = lit_mono 0 0 (omega arith) in
      let all = lit_mono 2_000_000 2_000_000 (omega arith) in
      let zero_two = lit_mono 0 2_000_000 (omega arith) in
      let low : num 0 ≼ s ⊗ k =
        rw (num_mul 0 0 (omega arith) (omega arith) (omega arith)) at
          (mul_mono (num 0) s (num 0) k zero v zero vk none lo none k0) in
      let high : s ⊗ k ≼ s ⊗ num 2 = mul_mono s s k (num 2) v v vk two lo same k0 k2 in
      let twice =
        le_trans _ _ _
          (mul_mono s (lit 250_000) (num 2) (num 2) v quarter two two lo hi zero_two all)
          (mul_close 250_000 2_000_000 (omega arith) (omega arith) (omega arith)).1 in
      let v2 =
        squeeze (num 0) (s ⊗ num 2) (lit 500_002) (le_trans _ _ _ low high) twice zero half in
      let vp = squeeze (num 0) (s ⊗ k) (s ⊗ num 2) low high zero v2 in
      let sum = add_mono s (lit 250_000) (s ⊗ num 2) (lit 500_002) v quarter v2 half hi twice in
      let under = le_trans _ _ _ sum (add_close 250_000 500_002 (omega arith)).1 in
      (
        le_add s (s ⊗ k) v low,
        add_mono s s (s ⊗ k) (s ⊗ num 2) v v vp v2 same high,
        le_trans _ _ _ under (lit_mono 750_003 1_000_000 (omega arith)),
      )

  -- The factor of the premium.
  factor_range : (r : F) → num 0 ≼ r → (num 0 ≼ fmin r (num 2)) × (fmin r (num 2) ≼ num 2)
  factor_range r h =
      let two = num-valid ieee 2 (omega arith) in
      let number = (refl_of_le _ _ h).1 in
      let same = lit_mono 2_000_000 2_000_000 (omega arith) in
      let under =
        λ (k : r ≼ num 0). le_trans r (num 0) (num 2) k (lit_mono 0 2_000_000 (omega arith)) in
      ground (
        arith,
        h,
        two,
        number,
        same,
        under,
        lit_mono 0 2_000_000 (omega arith),
        le_total r (num 2) number same,
      )

  pub entry_slippage-bounds :
      (size volume : F) (cfg : EngineConfig F)
      → valid cfg.slippage ≡ true
      → num 0 ≼ cfg.slippage
      → cfg.slippage ≼ lit 250_000
      → num 0 ≼ size
      → valid volume ≡ true
      → (num 0 ≺ volume → num 0 ≺ volume ⊗ lit 10_000)
      → (cfg.slippage ≼ entry_slippage size cfg volume)
        × (entry_slippage size cfg volume ≼ cfg.slippage ⊕ cfg.slippage ⊗ num 2)
        × (entry_slippage size cfg volume ≼ num 1)
  unfolding entry_slippage
  entry_slippage-bounds size volume cfg v lo hi sz vv part =
      let hundredth =
        mul_shrink volume (lit 10_000) vv (lit_mono 0 10_000 (omega arith))
          (lit_mono 10_000 1_000_000 (omega arith)) in
      let ratio = λ (p : num 0 ≺ volume).
        factor_range (size ⊘ (volume ⊗ lit 10_000))
          (div_nonneg size (volume ⊗ lit 10_000) hundredth (part p) sz) in
      let extra = λ (p : num 0 ≺ volume).
        premium cfg.slippage (fmin (size ⊘ (volume ⊗ lit 10_000)) (num 2)) v lo hi (ratio p).0
          (ratio p).1 in
      let whole =
        premium cfg.slippage (num 0) v lo hi (lit_mono 0 0 (omega arith))
          (lit_mono 0 2_000_000 (omega arith)) in
      let same = (refl_of_le (num 0) cfg.slippage lo).1 in
      let over = λ (p : num 0 ≺ volume). le_trans _ _ _ (extra p).1 (extra p).2 in
      let flat = le_trans _ _ _ whole.0 whole.1 in
      let unit = le_trans _ _ _ flat whole.2 in
      elim (Bool-cases (num 0 <? volume && volume ⊗ lit 10_000 <? size)) [
        | inl large ↦
            let p : num 0 ≺ volume = ground (arith, large) in
            rw (large) ((extra p).0, (extra p).1, over p)
        | inr small ↦ rw (small) (same, flat, unit)
      ]
