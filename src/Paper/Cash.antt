-- ===== src/Paper/Cash.antt =====
-- The cash balance through the closing of a position in internal/papertrade/engine.go.
use ai_trading_v.Prelude.{ℕ, ◌+◌, ◌-◌, ◌*◌, ◌<◌, ◌≤◌, ◌≡◌, ◌∙◌, ap, sym, arith}
use native.Mathlib.Nat.{mul-le-mul, le_refl}
use ai_trading_v.Float.{Float64, num, ◌⊕◌, ◌⊖◌, ◌⊗◌}
use ai_trading_v.Float.Laws.{Ieee, max_num}
use ai_trading_v.Float.Interval.{num-valid}
use ai_trading_v.Model.{Candle}
use ai_trading_v.Paper.{EngineConfig, ExitReason, Position, long}
use ai_trading_v.Paper.Engine.{Engine, profit, trade_row, settle, call}
use ai_trading_v.Paper.Executor.{simulate_exit, exit_fill}

module _ {F : Type 0} ⦃f : Float64 F⦄ (ieee : Ieee F) where
  open ieee use {num_add, num_sub, num_mul, num_div, mul_one}

  -- A long position of `q` bought at the whole price `p` without a fee.
  pub record Free (cfg : EngineConfig F) (p q : ℕ) (pos : Position F) : Type 0 where
    pub no_commission : cfg.commission ≡ num 0
    pub no_slippage : cfg.slippage ≡ num 0
    pub is_long : pos.direction ≡ long
    pub bought_at : pos.entry_price ≡ num p
    pub holds : pos.quantity ≡ num q
    pub no_fee : pos.entry_fee ≡ num 0

  full_exit : (p : ℕ) → p < max_num → num {F = F} p ⊗ (num 1 ⊖ num 0) ≡ num p
  full_exit p h =
      rw (num_sub 1 0 (omega arith) (omega arith)) (mul_one (num p) (num-valid ieee p h))

  full_fill :
      (cfg : EngineConfig F) (pos : Position F) (p x q : ℕ)
      → Free cfg p q pos
      → x < max_num
      → (simulate_exit (num x) pos.quantity pos.direction cfg).fill_price ≡ num x
  unfolding simulate_exit exit_fill
  full_fill cfg pos p x q h xm = rw (h.is_long, h.no_slippage, exit_fill) (full_exit x xm)

  whole_profit :
      (cfg : EngineConfig F) (pos : Position F) (p x q g : ℕ)
      → Free cfg p q pos
      → 0 < p
      → p ≤ x
      → x < max_num
      → x - p ≡ g * p
      → g * q < max_num
      → q < max_num
      → profit pos (num x) ≡ num (g * q)
  unfolding profit
  whole_profit cfg pos p x q g h p0 px xm gain gm qm =
      let bound = mul-le-mul (le_refl g) p0 in
      rw
        (
          h.is_long,
          h.bought_at,
          h.holds,
          profit,
          num_sub x p px xm,
          gain,
          num_div g p p0 (omega arith),
        )
        (num_mul g q gm (omega arith) qm)

  no_fees_due :
      (cfg : EngineConfig F) (pos : Position F) (p x q : ℕ)
      → Free cfg p q pos
      → q < max_num
      → pos.entry_fee ⊕ (simulate_exit (num x) pos.quantity pos.direction cfg).commission ≡ num 0
  unfolding simulate_exit
  no_fees_due cfg pos p x q h qm =
      let none_due : q * 0 ≡ 0 = omega arith in
      rw (h.no_fee, h.holds, h.no_commission, num_mul q 0 (omega arith) qm (omega arith), none_due)
        (num_add 0 0 (omega arith))

  whole_net :
      (cfg : EngineConfig F) (c : Candle F) (reason : ExitReason) (pos : Position F) (p x q g : ℕ)
      → Free cfg p q pos
      → 0 < p
      → p ≤ x
      → x < max_num
      → x - p ≡ g * p
      → g * q < max_num
      → q < max_num
      → (trade_row cfg c (num x) reason pos).net_pnl ≡ num (g * q)
  unfolding trade_row
  whole_net cfg c reason pos p x q g h p0 px xm gain gm qm =
      let fill = full_fill cfg pos p x q h xm in
      let gross = whole_profit cfg pos p x q g h p0 px xm gain gm qm in
      let fees = no_fees_due cfg pos p x q h qm in
      let net = num_sub (g * q) 0 (omega arith) gm in
      let finite = num-valid ieee (g * q) gm in rw (fill, gross, fees, net) (ground (arith, finite))

  -- Without fees and slippage, closing a long position of `q`, bought without a fee at the whole price
  -- `p`, at the price `p + g * p` adds the profit `g * q` to the total profit but that and the quantity
  -- to the balance. So where the balance was `d` above the initial capital and the total profit
  -- together, it is `d + q` above them after the close, at no profit too.
  pub close_credits_quantity :
      (c : Candle F) (reason : ExitReason) (pos : Position F) (e : Engine F) (p x q g i t d : ℕ)
      → Free e.cfg p q pos
      → 0 < p
      → p ≤ x
      → x < max_num
      → x - p ≡ g * p
      → e.cfg.initial_capital ≡ num i
      → e.total_pnl ≡ num t
      → e.balance ≡ e.cfg.initial_capital ⊕ e.total_pnl ⊕ num d
      → i + t + d + (g * q + q) < max_num
      → let after = settle c (num x) reason pos e in
        (after.total_pnl ≡ num (t + g * q))
        × (after.balance ≡ num (i + t + d + (g * q + q)))
        × (after.balance ≡ e.cfg.initial_capital ⊕ after.total_pnl ⊕ num (d + q))
  unfolding settle call
  close_credits_quantity c reason pos e p x q g i t d h p0 px xm gain cap tot bal bm =
      let net = whole_net e.cfg c reason pos p x q g h p0 px xm gain (omega arith) (omega arith) in
      let before : e.balance ≡ num (i + t + d) =
        bal ∙ rw (cap, tot, num_add i t (omega arith)) (num_add (i + t) d (omega arith)) in
      let same : i + t + d + (g * q + q) ≡ i + (t + g * q) + (d + q) = omega arith in
      let credited = num_add (i + t + d) (g * q + q) bm in
      let gained = num_add t (g * q) (omega arith) in
      let drifted =
        ap (λ v. v ⊕ num (d + q)) (num_add i (t + g * q) (omega arith))
        ∙ num_add (i + (t + g * q)) (d + q) (omega arith) in
      let returned = num_add (g * q) q (omega arith) in
      (
        rw (net, tot) gained,
        rw (net, before, h.holds, returned) credited,
        rw (net, before, h.holds, returned, tot, cap, gained)
            (credited ∙ ap (λ n. num n) same ∙ sym drifted),
      )
