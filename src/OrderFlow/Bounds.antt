-- ===== src/OrderFlow/Bounds.antt =====
-- The ranges of the order flow score and its components (internal/agent/orderflow/scorer.go).
use ai_trading_v.Prelude.{ℕ, ◌≤◌, ◌<◌, ◌≡◌, true, arith}
use ai_trading_v.Float.{Float64, lit, num, ◌⊕◌, ◌⊖◌, ◌⊗◌, ◌⊘◌, ◌≼◌, ◌≺◌, valid, clamp, floor_at}
use ai_trading_v.Float.Laws.{Ieee}
use ai_trading_v.Float.Interval.{
  In, num-valid, num_mono, num_lt, In-valid, In-num, In-add, In-mul, In-widen, In-clamp,
  In-floor_at, In-const, In-tested,
}
use ai_trading_v.Float.Within.{
  Within, Within-of_In, In-of_Within, Within-add, Within-sub, Within-mul, Within-div, lit_lt,
}
use ai_trading_v.OrderFlow.{
  Input, Score, bps_ladder, calc_funding_score, calc_oi_score, calc_ls_score, raw_liq,
  calc_liq_score, calculate,
}

module _ {F : Type 0} ⦃f : Float64 F⦄ where
  -- The ranges of a score and of its parts.
  pub record InRange (s : Score F) : Type 0 where
    pub funding_in : In 0 20 s.components.funding_score
    pub oi_in : In 0 25 s.components.oi_score
    pub ls_in : In 0 19 s.components.ls_score
    pub liq_in : In 0 25 s.components.liq_score
    pub total_in : In 0 89 s.order_flow_score

module _ {F : Type 0} ⦃f : Float64 F⦄ (ieee : Ieee F) where
  open ieee use {
    refl_of_le, le_trans, le_total, lit_valid, lit_mono, add_nonpos, sub_le, sub_nonneg, mul_nonneg,
    mul_nonpos, div_nonneg, add_num, sub_num, mul_num, mul_shrink, sub_bounded, div_bounded,
  }

  -- A penalty that is not negative, subtracted and floored.
  penalised :
      {x : F} (top base : ℕ)
      → base ≤ top
      → top ≤ 25
      → num 0 ≼ x
      → In base top (floor_at (num base) (num top ⊖ x))
  penalised {x} top base o s h =
      let below = sub_le (num top) x (num-valid ieee top (omega arith)) h in
      In-floor_at ieee base (refl_of_le _ _ below).0 below o (omega arith)

  times : {x : F} (k : ℕ) → 0 < k → k < 1_000_000_000 → num 0 ≼ x → num 0 ≼ x ⊗ lit k
  times {x} k p s h =
      mul_nonneg x (lit k) (lit_valid k (omega arith)) (lit_lt ieee 0 k p (omega arith)) h

  const : (n top : ℕ) → n ≤ top → top ≤ 25 → In 0 top (num {F = F} n)
  const n top h s = In-const ieee 0 top n (omega arith) h (omega arith)

  half : In 0 25 (lit {F = F} 12_500_000)
  half = record {
    ordered = omega arith;
    small = omega arith;
    lower = lit_mono 0 12_500_000 (omega arith);
    upper = lit_mono 12_500_000 25_000_000 (omega arith);
  }

  bps_ladder-In : (bps : F) → bps ≼ bps → In 0 20 (bps_ladder bps)
  unfolding bps_ladder
  bps_ladder-In bps n =
      let v3 = num-valid ieee 3 (omega arith) in
      let pos3 = num_lt ieee 0 3 (omega arith) (omega arith) in
      let v10 = num-valid ieee 10 (omega arith) in
      let bearish = λ (h : bps ≼ num 0).
        let below = add_nonpos (num 10) (bps ⊗ num 3) v10 (mul_nonpos (num 3) bps v3 pos3 h).1 in
        In-floor_at ieee {b = 20} 0 (refl_of_le _ _ below).0
          (le_trans _ _ _ below (num_mono ieee 10 20 (omega arith))) (omega arith) (omega arith) in
      let sweet = λ (h : num 0 ≼ bps) (k : bps ≼ num 2).
        In-widen ieee 0 20
          (In-add ieee (In-num ieee 10 (omega arith))
            (In-mul ieee 5 (In-tested ieee 0 2 h k (omega arith) (omega arith)) (omega arith)
              (omega arith))
            (omega arith))
          (omega arith) (omega arith) (omega arith) in
      let elevated = λ (h : num 2 ≼ bps).
        In-widen ieee 0 20
          (penalised 20 10 (omega arith) (omega arith) (
            times 3_330_000 (omega arith) (omega arith)
              (sub_nonneg bps (num 2) (num-valid ieee 2 (omega arith)) h)))
          (omega arith) (omega arith) (omega arith) in
      let crowded = λ (h : num 5 ≼ bps).
        In-widen ieee 0 20
          (penalised 10 0 (omega arith) (omega arith) (
            times 2_000_000 (omega arith) (omega arith)
              (sub_nonneg bps (num 5) (num-valid ieee 5 (omega arith)) h)))
          (omega arith) (omega arith) (omega arith) in
      ground (
        arith,
        bearish,
        sweet,
        elevated,
        crowded,
        le_total bps (num 0),
        le_total bps (num 2),
        le_total bps (num 5),
        num_mono ieee 0 0 (omega arith),
        num_mono ieee 2 2 (omega arith),
        num_mono ieee 5 5 (omega arith),
      )

  calc_funding_score-In : (rate : F) → In 0 20 (calc_funding_score rate)
  unfolding calc_funding_score
  calc_funding_score-In rate = ground (
    arith,
    const 10 20 (omega arith) (omega arith),
    bps_ladder-In (rate ⊗ num 10_000),
    mul_num rate (num 10_000),
    num-valid ieee 10_000 (omega arith),
  )

  calc_oi_score-In : (delta : F) → In 0 25 (calc_oi_score delta)
  unfolding calc_oi_score
  calc_oi_score-In delta =
      let number = λ (v : valid delta ≡ true).
        (add_num (num 15) (delta ⊗ num 10) (num-valid ieee 15 (omega arith))
          (mul_num delta (num 10) v (num-valid ieee 10 (omega arith)))).0 in
      ground (arith, half, number, In-clamp ieee 25 (num 15 ⊕ delta ⊗ num 10))

  -- From 1.0 to 1.3 the slope `/ 0.3 * 6` is not exact: the bound is 18 and a rounding error.
  ls_healthy :
      (x : F) → num 1 ≼ x → x ≼ lit 1_300_000 → In 0 19 (num 12 ⊕ (x ⊖ num 1) ⊘ lit 300_000 ⊗ num 6)
  ls_healthy x h k =
      let r : Within 1_000_000 1_300_000 x = record {
        ordered = omega arith;
        small = omega arith;
        lower = h;
        upper = k;
      } in
      let one = Within-of_In ieee (In-num ieee 1 (omega arith)) (omega arith) in
      let shifted = Within-sub ieee r one (omega arith) (omega arith) in
      let ratio = Within-div ieee 300_000 shifted (omega arith) (omega arith) (omega arith) in
      let slope = Within-mul ieee 6_000_000 ratio (omega arith) (omega arith) in
      let base = Within-of_In ieee (In-num ieee 12 (omega arith)) (omega arith) in
      In-of_Within ieee 0 19 (Within-add ieee base slope (omega arith)) (omega arith) (omega arith)
        (omega arith)

  calc_ls_score-In : (ls : F) → In 0 19 (calc_ls_score ls)
  unfolding calc_ls_score
  calc_ls_score-In ls =
      let v1 = num-valid ieee 1 (omega arith) in
      let v2 = num-valid ieee 2 (omega arith) in
      let crowding = λ (h : lit 1_300_000 ≼ ls).
        In-widen ieee 0 19
          (penalised 18 10 (omega arith) (omega arith) (
            times 8_000_000 (omega arith) (omega arith) (
              div_nonneg (ls ⊖ lit 1_300_000) (lit 700_000) (lit_valid 700_000 (omega arith))
                (lit_lt ieee 0 700_000 (omega arith) (omega arith))
                (sub_nonneg ls (lit 1_300_000) (lit_valid 1_300_000 (omega arith)) h))))
          (omega arith) (omega arith) (omega arith) in
      let crowded = λ (h : num 2 ≼ ls).
        In-widen ieee 0 19
          (penalised 10 2 (omega arith) (omega arith)
            (times 8_000_000 (omega arith) (omega arith) (sub_nonneg ls (num 2) v2 h)))
          (omega arith) (omega arith) (omega arith) in
      let bearish = λ (v : valid ls ≡ true) (h : ls ≼ num 1).
        In-widen ieee 0 19
          (penalised 12 0 (omega arith) (omega arith)
            (times 20_000_000 (omega arith) (omega arith) (sub_nonneg (num 1) ls v h)))
          (omega arith) (omega arith) (omega arith) in
      ground (
        arith,
        const 10 19 (omega arith) (omega arith),
        ls_healthy ls,
        crowding,
        crowded,
        bearish,
        le_total ls (num 1),
        le_total ls (lit 1_300_000),
        le_total ls (num 2),
        lit_mono 1_000_000 1_000_000 (omega arith),
        lit_mono 1_300_000 1_300_000 (omega arith),
        lit_mono 2_000_000 2_000_000 (omega arith),
        le_trans (lit 1_300_000) (num 2) ls (lit_mono 1_300_000 2_000_000 (omega arith)),
      )

  -- With finite volumes that are not negative, the raw liquidation score is a number: the imbalance is
  -- finite, since the difference of the volumes is at most their sum.
  raw_liq_number :
      (long short : F)
      → valid long ≡ true
      → valid short ≡ true
      → num 0 ≼ long
      → num 0 ≼ short
      → num 0 ≺ long ⊕ short
      → raw_liq long short ≼ raw_liq long short
  unfolding raw_liq
  raw_liq_number long short vl vs hl hs pos =
      let total = long ⊕ short in
      let (vd, upper, lower) = sub_bounded long short vl vs hl hs in
      let imbalance = div_bounded (short ⊖ long) total vd pos upper lower in
      let share =
        div_nonneg total (num 50_000_000) (num-valid ieee 50_000_000 (omega arith))
          (num_lt ieee 0 50_000_000 (omega arith) (omega arith)) (ground arith) in
      let norm = In-clamp ieee 1 _ (refl_of_le _ _ share).1 (omega arith) in
      let weighted = mul_shrink ((short ⊖ long) ⊘ total) _ imbalance norm.lower norm.upper in
      let direction = mul_num _ (num 8) weighted (num-valid ieee 8 (omega arith)) in
      let magnitude =
        In-of_Within ieee 0 25
          (Within-mul ieee 4_500_000 (Within-of_In ieee norm (omega arith)) (omega arith)
            (omega arith))
          (omega arith) (omega arith) (omega arith) in
      let rest = sub_num (lit 12_500_000) _ (lit_valid 12_500_000 (omega arith)) direction in
      (add_num _ _ (In-valid ieee magnitude) rest).1

  calc_liq_score-In :
      (long short : F)
      → (valid long ≡ true → num 0 ≼ long)
      → (valid short ≡ true → num 0 ≼ short)
      → In 0 25 (calc_liq_score long short)
  unfolding calc_liq_score
  calc_liq_score-In long short hl hs =
      let number = λ (vl : valid long ≡ true) (vs : valid short ≡ true) (p : num 0 ≺ long ⊕ short).
        In-clamp ieee 25 (raw_liq long short) (raw_liq_number long short vl vs (hl vl) (hs vs) p)
          (omega arith) in
      let sum = λ (vl : valid long ≡ true) (vs : valid short ≡ true).
        (add_num long short vl (refl_of_le _ _ (hs vs)).1).0 in
      ground
        (arith, half, number, sum, le_total (long ⊕ short) (num 0), num_mono ieee 0 0 (omega arith))

  total-In :
      {a b c d : F}
      → In 0 20 a
      → In 0 25 b
      → In 0 19 c
      → In 0 25 d
      → In 0 89 (clamp (num 100) (a ⊕ b ⊕ c ⊕ d))
  total-In p q r s =
      let two = In-add ieee p q (omega arith) in
      let three = In-add ieee two r (omega arith) in
      let sum = In-add ieee three s (omega arith) in
      let under = le_trans _ _ _ sum.upper (num_mono ieee 89 100 (omega arith)) in
      ground (arith, sum.lower, sum.upper, sum, under)

  -- For every input whose finite liquidation volumes are not negative, NaN and infinities in any field
  -- included, the order flow score is a number from 0 to 89 and never reaches 100: funding adds up to
  -- 20, open interest up to 25, the long/short ratio at most 19 and liquidations up to 25.
  pub order_flow_score-InRange :
      (input : Input F)
      → (valid input.long_liq_usd ≡ true → num 0 ≼ input.long_liq_usd)
      → (valid input.short_liq_usd ≡ true → num 0 ≼ input.short_liq_usd)
      → InRange (calculate input)
  unfolding calculate
  order_flow_score-InRange input hl hs =
      let a = calc_funding_score-In input.funding_rate in
      let b = calc_oi_score-In input.oi_delta_pct in
      let c = calc_ls_score-In input.ls_ratio in
      let d = calc_liq_score-In input.long_liq_usd input.short_liq_usd hl hs in
      record { funding_in = a; oi_in = b; ls_in = c; liq_in = d; total_in = total-In a b c d }
