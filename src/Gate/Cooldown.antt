-- ===== src/Gate/Cooldown.antt =====
-- The states of the gate (internal/agent/tradegate/gate.go): how long a cooldown lasts, what keeps a
-- stopped gate stopped, and what undoes it.
use Prim.Native.Nat.{max}
use ai_trading_v.Prelude.{
  ℕ, zero, suc, ◌≡◌, refl, ap, ◌∙◌, if◌then◌else◌, arith, ltb, pos_part, List, [], ◌∷◌, All, String,
}
use ai_trading_v.Float.{Float64, ◌⊕◌, ◌⊘◌, ◌≼◌}
use ai_trading_v.Gate.{
  Gate, idle, cooldown, stopped, Input, no_trade, evaluate, on_bar, on_trade_placed,
  on_trade_closed, update_pnl, reset_day,
}

module _ {F : Type 0} ⦃f : Float64 F⦄ where
  -- `k` bars pass with no other event.
  pub bars : ℕ → Gate F → Gate F
  bars zero g = g
  bars (suc k) g = bars k (on_bar g)

  bars_idle : (k : ℕ) (g : Gate F) → g.state ≡ idle → (bars k g).state ≡ idle
  unfolding bars on_bar
  bars_idle zero g h = h
  bars_idle (suc k) g h = ground (arith, bars_idle k (on_bar g))

  bars_cooldown :
      (k : ℕ) (g : Gate F)
      → g.state ≡ cooldown
      → (bars k g).state
        ≡ (if ltb k (max 1 (pos_part g.cooldown_bars_remaining)) then cooldown else idle)
  unfolding bars on_bar
  bars_cooldown zero g h = ground arith
  bars_cooldown (suc k) g h = ground (arith, bars_cooldown k (on_bar g), bars_idle k (on_bar g))

  -- After a trade closes the gate cools down for the configured number of bars (for one, if that is
  -- zero or negative) and is idle from then on, whatever its state was before, a stop included.
  pub cooldown_length :
      (g : Gate F) (k : ℕ)
      → (bars k (on_trade_closed g)).state
        ≡ (if ltb k (max 1 (pos_part g.cfg.cooldown_bars)) then cooldown else idle)
  unfolding on_trade_closed
  cooldown_length g k = bars_cooldown k (on_trade_closed g) refl

  bars-kept :
      (k : ℕ) (g : Gate F) → ((bars k g).cfg ≡ g.cfg) × ((bars k g).trade_count ≡ g.trade_count)
  unfolding bars on_bar
  bars-kept zero g = (refl, refl)
  bars-kept (suc k) g = ground (arith, bars-kept k (on_bar g))

  -- An idle gate decides by its configuration and its count of trades only.
  evaluate_idle :
      (g h : Gate F) (input : Input F)
      → g.state ≡ idle
      → h.state ≡ idle
      → g.cfg ≡ h.cfg
      → g.trade_count ≡ h.trade_count
      → evaluate g input ≡ evaluate h input
  unfolding evaluate
  evaluate_idle g h input gi hi c n = rw (gi, hi, c, n) refl

  update_pnl-kept :
      (g : Gate F) (pnl : F)
      → let after = on_trade_closed (update_pnl pnl g) in
        (after.cfg ≡ g.cfg) × (after.trade_count ≡ g.trade_count)
  unfolding on_trade_closed update_pnl
  update_pnl-kept g pnl = (refl, refl)

  evaluate_stopped :
      (g : Gate F) (input : Input F) → g.state ≡ stopped → (evaluate g input).decision ≡ no_trade
  unfolding evaluate
  evaluate_stopped g input h = ground arith

  breach-stopped :
      (g : Gate F) (pnl : F)
      → (g.day_pnl ⊕ pnl) ⊘ g.cfg.starting_capital ≼ g.cfg.drawdown_limit
      → (update_pnl pnl g).state ≡ stopped
  unfolding update_pnl
  breach-stopped g pnl h = ground arith

  later_state :
      (g : Gate F) (pnl : F) (k : ℕ)
      → (bars k (on_trade_closed (update_pnl pnl g))).state
        ≡ (if ltb k (max 1 (pos_part g.cfg.cooldown_bars)) then cooldown else idle)
  unfolding update_pnl
  later_state g pnl k = cooldown_length (update_pnl pnl g) k

  evaluate_cooling :
      (g : Gate F) (input : Input F) → g.state ≡ cooldown → (evaluate g input).decision ≡ no_trade
  unfolding evaluate
  evaluate_cooling g input h = ground arith

  -- The engines report a closed trade by `UpdatePnl` and then `OnTradeClosed`. Where that profit or
  -- loss breaches the drawdown limit, the gate refuses every input between the two calls. `k` bars after
  -- the second it is in cooldown for the configured number of bars, at least one, and still refuses
  -- every input; once these are over it is idle and decides every input as though the loss had never
  -- been: the stop is lost.
  pub stop_lost :
      (g : Gate F) (pnl : F) (k : ℕ) (input : Input F)
      → (g.day_pnl ⊕ pnl) ⊘ g.cfg.starting_capital ≼ g.cfg.drawdown_limit
      → let later = bars k (on_trade_closed (update_pnl pnl g)) in
        let cooling = ltb k (max 1 (pos_part g.cfg.cooldown_bars)) in
        ((evaluate (update_pnl pnl g) input).decision ≡ no_trade)
        × (later.state ≡ (if cooling then cooldown else idle))
        × ((evaluate later input).decision
            ≡ (if cooling then no_trade else (evaluate (record g { state = idle }) input).decision))
  stop_lost g pnl k input breach =
      let closed = on_trade_closed (update_pnl pnl g) in
      let kept = update_pnl-kept g pnl in
      let through = bars-kept k closed in
      let state = later_state g pnl k in
      let cooling = evaluate_cooling (bars k closed) input in
      let same : (bars k closed).state ≡ idle
          → (evaluate (bars k closed) input).decision
            ≡ (evaluate (record g { state = idle }) input).decision =
        λ over.
          ap (λ o. o.decision)
            (evaluate_idle (bars k closed) (record g { state = idle }) input over refl
              (through.0 ∙ kept.0) (through.1 ∙ kept.1)) in
      (
        evaluate_stopped (update_pnl pnl g) input (breach-stopped g pnl breach),
        state,
        ground (arith, state, cooling, same),
      )

pub data Event (F : Type 0) : Type 0 where
  placed closed bar : Event F
  realised : F → Event F
  new_day : String → F → Event F

module _ {F : Type 0} ⦃f : Float64 F⦄ where
  pub apply : Event F → Gate F → Gate F
  apply placed g = on_trade_placed g
  apply closed g = on_trade_closed g
  apply bar g = on_bar g
  apply (realised pnl) g = update_pnl pnl g
  apply (new_day day pnl) g = (reset_day day pnl g).0

  pub run_events : List (Event F) → Gate F → Gate F
  run_events [] g = g
  run_events (e ∷ es) g = run_events es (apply e g)

  abbrev pub KeepsStop : Event F → Type 0
  KeepsStop closed = ⊥
  KeepsStop (new_day _ _) = ⊥
  KeepsStop _ = Unit {0}

  apply_stopped :
      (e : Event F) (g : Gate F) → KeepsStop e → g.state ≡ stopped → (apply e g).state ≡ stopped
  unfolding apply on_trade_placed on_bar update_pnl
  apply_stopped placed g k h = h
  apply_stopped closed g k h = absurd k
  apply_stopped bar g k h = ground arith
  apply_stopped (realised pnl) g k h = ground arith
  apply_stopped (new_day _ _) g k h = absurd k

  run_events_stopped :
      (es : List (Event F)) (g : Gate F)
      → All KeepsStop es
      → g.state ≡ stopped
      → (run_events es g).state ≡ stopped
  unfolding run_events
  run_events_stopped [] g k h = h
  run_events_stopped (e ∷ es) g k h =
      run_events_stopped es (apply e g) k.1 (apply_stopped e g k.0 h)

  -- A stopped gate refuses every input through any events but a closed trade and a new day: bars,
  -- placed trades and further profits do not revive it.
  pub stop_holds :
      (es : List (Event F)) (g : Gate F) (input : Input F)
      → All KeepsStop es
      → g.state ≡ stopped
      → (evaluate (run_events es g) input).decision ≡ no_trade
  stop_holds es g input k h = evaluate_stopped (run_events es g) input (run_events_stopped es g k h)
