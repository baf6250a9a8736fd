-- ===== src/Paper/Stops.antt =====
-- The stop and the fills of a position of internal/papertrade.
use ai_trading_v.Prelude.{◌≡◌, true, false, Option-cases, inl, inr, arith, some}
use ai_trading_v.Float.{Float64, num, ◌⊖◌, ◌⊗◌, ◌≼◌, valid}
use ai_trading_v.Float.Laws.{Ieee}
use ai_trading_v.Float.Interval.{num-valid, above_zero}
use ai_trading_v.Model.{Candle}
use ai_trading_v.Paper.{Direction, Position}
use ai_trading_v.Paper.Engine.{Engine}
use ai_trading_v.Paper.Orders.{candle_atr, exit_of, trail, check_exit}

module _ {F : Type 0} ⦃f : Float64 F⦄ (ieee : Ieee F) where
  open ieee use {le_trans, lit_mono, squeeze, mul_mono, num_mul, mul_nonpos, sub_nonpos}

  new_stop_nonpos :
      (close mult : F)
      → valid close ≡ true
      → valid mult ≡ true
      → num 1 ≼ close
      → num 1 ≼ mult
      → close ⊗ (num 1 ⊖ mult ⊗ close) ≼ num 0
  new_stop_nonpos close mult vc vm hc hm =
      let one = num-valid ieee 1 (omega arith) in
      let zero_one = lit_mono 0 1_000_000 (omega arith) in
      let grown = mul_mono (num 1) mult (num 1) close one vm one vc zero_one hm zero_one hc in
      let product : num 1 ≼ mult ⊗ close =
        rw (num_mul 1 1 (omega arith) (omega arith) (omega arith)) at grown in
      (mul_nonpos close (num 1 ⊖ mult ⊗ close) vc (above_zero ieee close hc)
        (sub_nonpos (num 1) (mult ⊗ close) one product)).0

  -- For prices and a multiplier of at least one, and a stop that is not negative, a position that stays
  -- open keeps its stop: the stop that `checkExit` would move to is computed with the price in the place
  -- of the ATR and is at most zero.
  pub stop_never_trails :
      (c : Candle F) (dir : Direction) (p : Position F) (e : Engine F)
      → valid c.close ≡ true
      → valid e.cfg.atr_multiplier ≡ true
      → num 1 ≼ c.close
      → num 1 ≼ e.cfg.atr_multiplier
      → num 0 ≼ p.stop_price
      → e.position ≡ some p
      → (check_exit c dir p e).1 ≡ false
      → (check_exit c dir p e).0.position ≡ some p
  unfolding check_exit trail candle_atr
  stop_never_trails c dir p e vc vm hc hm hs held open_still =
      let low = new_stop_nonpos c.close e.cfg.atr_multiplier vc vm hc hm in
      let under = le_trans _ (num 0) p.stop_price low hs in
      let positive = above_zero ieee c.close hc in
      elim (Option-cases (exit_of e.cfg c dir p)) [
        | inl stays ↦ ground (arith, stays, under, positive)
        | inr (x, leaves) ↦ ground (arith, leaves, open_still)
      ]
