-- ===== src/Backtest/Count.antt =====
-- How the gate's count of trades keeps up with a run of internal/backtest/engine.go, bar by bar.
use ai_trading_v.Prelude.{
  ℕ, suc, ◌+◌, ◌≤◌, ◌<◌, ◌≡◌, refl, ◌∙◌, ap, ◌≢◌, ◌⊎◌, inl, inr, Bool, true, arith, pos, pos_part,
  [], ◌∷◌, length, length-append, Option-cases, leb_ℤ, ◌==◌, Option, none, some,
}
use ai_trading_v.Float.{Float64}
use ai_trading_v.Model.{Time, Candle, FeatureRow}
use ai_trading_v.Gate
use ai_trading_v.Gate.{Gate, no_trade, Input}
use ai_trading_v.Backtest.{Config, Trade, PendingInfo, close_trade}
use ai_trading_v.Backtest.Signal.{Signal, signal_of}
use ai_trading_v.Backtest.Engine.{
  Loop, schedule, execute, settle, exit_of, check_trade, check_exit, finish_bar, settle_bar,
}

abbrev pub count_some {ℓ} : {A : Type ℓ} → Option A → ℕ
count_some none = 0
count_some (some _) = 1

abbrev pub pending_due : {F : Type 0} → Option (PendingInfo F) → ℕ → Bool
pending_due none i = true
pending_due (some p) i = p.entry_bar == i

module _ {F : Type 0} ⦃f : Float64 F⦄ where
  -- Before bar `i`: what the gate has counted is what was traded, is open or is pending, and it stays
  -- within the cap. A pending entry is due at this very bar, and nothing is open beside it.
  pub record Counted (cfg : Config F) (i : ℕ) (s : Loop F) : Type 0 where
    pub exact : length s.trades + count_some s.position + count_some s.pending ≡ s.gate.trade_count
    pub same_cfg : s.gate.cfg ≡ cfg.gate_config
    pub capped : s.gate.trade_count ≤ pos_part cfg.gate_config.max_trades_per_day
    pub alone : count_some s.position + count_some s.pending ≤ 1
    pub due : pending_due s.pending i ≡ true
    pub marked : (count_some s.pending ≡ 0) ⊎ (leb_ℤ (pos 0) s.pending_bar ≡ true)

  evaluate-under_cap :
      (g : Gate F) (input : Input F)
      → (Gate.evaluate g input).decision ≢ no_trade
      → g.trade_count < pos_part g.cfg.max_trades_per_day
  unfolding Gate.evaluate
  evaluate-under_cap g input h = ground arith

  pub signal_room :
      (cfg : Config F) (probs : Option (Time → Option F)) (g : Gate F) (c : Candle F)
      (r : FeatureRow F)
      → (signal_of cfg probs g c r).decision.decision ≢ no_trade
      → g.trade_count < pos_part g.cfg.max_trades_per_day
  unfolding signal_of
  signal_room cfg probs g c r h = evaluate-under_cap g _ h

  -- After the execution nothing is pending.
  execute-Counted :
      (cfg : Config F) (i : ℕ) (c : Candle F) (s : Loop F)
      → Counted cfg i s
      → Counted cfg (suc i) (execute i c s) × ((execute i c s).pending ≡ none)
  unfolding execute
  execute-Counted cfg i c s h = ground arith

  settle-Counted :
      (cfg : Config F) (i : ℕ) (t t' : Trade F) (s : Loop F)
      → s.position ≡ some t
      → Counted cfg i s
      → Counted cfg i (settle cfg t' s) × ((settle cfg t' s).pending ≡ s.pending)
  unfolding settle Gate.on_trade_closed Gate.update_pnl
  settle-Counted cfg i t t' s e h =
      ground (arith, length-append s.trades ((close_trade t' cfg).0 ∷ []))

  check_trade-Counted :
      (cfg : Config F) (i : ℕ) (c : Candle F) (t t' : Trade F) (s : Loop F)
      → s.position ≡ some t'
      → Counted cfg i s
      → Counted cfg i (check_trade cfg c t s) × ((check_trade cfg c t s).pending ≡ s.pending)
  unfolding check_trade
  check_trade-Counted cfg i c t t' s e h = elim (Option-cases (exit_of cfg c t)) [
    | inl stays ↦ rw (stays, check_trade) (ground arith)
    | inr (u, exits) ↦ rw (exits, check_trade) (settle-Counted cfg i t' u s e h)
  ]

  check_exit-Counted :
      (cfg : Config F) (i j : ℕ) (c : Candle F) (s : Loop F)
      → Counted cfg j s
      → Counted cfg j (check_exit cfg i c s) × ((check_exit cfg i c s).pending ≡ s.pending)
  unfolding check_exit
  check_exit-Counted cfg i j c s h = elim (Option-cases s.position) [
    | inl e ↦ rw (e, check_exit) (h, refl)
    | inr (t, e) ↦ rw (e, check_exit) (check_trade-Counted cfg j c _ t s e h)
  ]

  finish_bar-Counted :
      (cfg : Config F) (i : ℕ) (c : Candle F) (s : Loop F)
      → Counted cfg i s
      → Counted cfg i (finish_bar cfg c s) × ((finish_bar cfg c s).pending ≡ s.pending)
  unfolding finish_bar Gate.on_bar
  finish_bar-Counted cfg i c s h = ground arith

  pub settle_bar-Counted :
      (cfg : Config F) (i : ℕ) (c : Candle F) (s : Loop F)
      → Counted cfg i s
      → Counted cfg (suc i) (settle_bar cfg i c s) × ((settle_bar cfg i c s).pending ≡ none)
  unfolding settle_bar
  settle_bar-Counted cfg i c s h =
      let (executed, clear) = execute-Counted cfg i c s h in
      let (exited, kept) = check_exit-Counted cfg i (suc i) c (execute i c s) executed in
      let (done, still) =
        finish_bar-Counted cfg (suc i) c (check_exit cfg i c (execute i c s)) exited in
      (done, still ∙ kept ∙ clear)

  -- Where nothing is pending, the next bar number does not matter.
  pub later-Counted :
      (cfg : Config F) (i j : ℕ) (s : Loop F) → s.pending ≡ none → Counted cfg i s → Counted cfg j s
  later-Counted cfg i j s e h = ground arith

  -- A scheduled trade is due at the next bar, not at this one: this bar leaves it pending.
  schedule-Counted :
      (cfg : Config F) (i : ℕ) (r : FeatureRow F) (next : Candle F) (sig : Signal F) (s : Loop F)
      → s.pending ≡ none
      → s.position ≡ none
      → s.gate.trade_count < pos_part s.gate.cfg.max_trades_per_day
      → Counted cfg i s
      → Counted cfg (suc i) (schedule cfg i r next sig s)
  unfolding schedule Gate.on_trade_placed
  schedule-Counted cfg i r next sig s e n room h = ground arith

  idle_execute :
      (i : ℕ) (c : Candle F) (s : Loop F) → pending_due s.pending (suc i) ≡ true → execute i c s ≡ s
  unfolding execute
  idle_execute i c s d = ground arith

  idle_check :
      (cfg : Config F) (i : ℕ) (c : Candle F) (s : Loop F)
      → s.position ≡ none
      → check_exit cfg i c s ≡ s
  unfolding check_exit
  idle_check cfg i c s n = ground arith

  idle_bar :
      (cfg : Config F) (i : ℕ) (c : Candle F) (s : Loop F)
      → s.position ≡ none
      → pending_due s.pending (suc i) ≡ true
      → settle_bar cfg i c s ≡ finish_bar cfg c s
  unfolding settle_bar
  idle_bar cfg i c s n d =
      ap (λ t. finish_bar cfg c (check_exit cfg i c t)) (idle_execute i c s d)
      ∙ ap (finish_bar cfg c) (idle_check cfg i c s n)

  pub scheduled_bar-Counted :
      (cfg : Config F) (i : ℕ) (c : Candle F) (r : FeatureRow F) (next : Candle F) (sig : Signal F)
      (s : Loop F)
      → s.pending ≡ none
      → s.position ≡ none
      → s.gate.trade_count < pos_part s.gate.cfg.max_trades_per_day
      → Counted cfg i s
      → Counted cfg (suc i) (settle_bar cfg i c (schedule cfg i r next sig s))
  unfolding schedule
  scheduled_bar-Counted cfg i c r next sig s e n room h =
      let scheduled = schedule-Counted cfg i r next sig s e n room h in
      rw (idle_bar cfg i c (schedule cfg i r next sig s) n scheduled.due)
        (finish_bar-Counted cfg (suc i) c (schedule cfg i r next sig s) scheduled).0
