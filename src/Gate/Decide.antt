-- ===== src/Gate/Decide.antt =====
-- When `Evaluate` of internal/agent/tradegate/gate.go trades, and at what size.
use ai_trading_v.Prelude.{
  ℕ, ◌*◌, ◌≡◌, ◌≢◌, ◌↔◌, true, if◌then◌else◌, arith, pos, ◌≤ℤ◌, String, str_eq, eq_iff,
}
use ai_trading_v.Float.{Float64, lit, num, ◌≤?◌, ◌≼◌, ◌≺◌, valid}
use ai_trading_v.Float.Laws.{Ieee}
use ai_trading_v.Gate.{
  Decision, no_trade, small_size, normal_size, full_size, idle, Input, Gate, size_from_confidence,
  decision_from_size, apply_regime_override, raw_confidence_of, sized, evaluate,
}

-- A decision's base size and a regime's factor, in quarters.
abbrev pub quarters : Decision → ℕ
quarters full_size = 4
quarters normal_size = 2
quarters small_size = 1
quarters no_trade = 0

abbrev pub label_quarters : String → ℕ
label_quarters label =
    if str_eq label "trending_low_vol"
    then 4
    else if str_eq label "trending_high_vol"
    then 3
    else if str_eq label "ranging_high_vol"
    then 1
    else 0

module _ {F : Type 0} ⦃f : Float64 F⦄ where
  -- The decision that a confidence earns, by its tier.
  abbrev pub tier : F → Decision
  tier conf =
      if num 80 ≤? conf
      then full_size
      else if num 70 ≤? conf
      then normal_size
      else if num 60 ≤? conf
      then small_size
      else no_trade

  -- What has to hold for a trade.
  pub record Clear (g : Gate F) (input : Input F) : Type 0 where
    pub tech_valid : valid input.technical_score ≡ true
    pub flow_valid : valid input.order_flow_score ≡ true
    pub regime_valid : valid input.regime_score ≡ true
    pub ml_passes : ¬ (input.meta_model_prob ≺ g.cfg.meta_model_threshold)
    pub not_ranging : input.regime_label ≢ "ranging_low_vol"
    pub not_unknown : input.regime_label ≢ "unknown"
    pub is_idle : g.state ≡ idle
    pub under_cap : ¬ (g.cfg.max_trades_per_day ≤ℤ pos g.trade_count)
    pub confident : num 60 ≼ raw_confidence_of g.cfg input

  module _ (ieee : Ieee F) where
    open ieee use {refl_of_le, le_trans, lit_mono, lit_strict, quarter_mul}

    -- The sizes 0, 0.25, 0.5 and 1 are told apart by the comparisons of the code.
    sized_decision : (conf : F) (label : String) → (sized conf label).decision ≡ tier conf
    unfolding sized size_from_confidence decision_from_size
    sized_decision conf label = ground (
      arith,
      lit_strict 0 250_000 (omega arith) (omega arith),
      lit_strict 0 500_000 (omega arith) (omega arith),
      lit_strict 0 1_000_000 (omega arith) (omega arith),
      lit_strict 250_000 500_000 (omega arith) (omega arith),
      lit_strict 250_000 1_000_000 (omega arith) (omega arith),
      lit_strict 500_000 1_000_000 (omega arith) (omega arith),
      lit_mono 0 0 (omega arith),
      lit_mono 0 250_000 (omega arith),
      lit_mono 500_000 500_000 (omega arith),
      lit_mono 1_000_000 1_000_000 (omega arith),
    )

    tier_above : (conf : F) → tier conf ≢ no_trade → num 60 ≼ conf
    tier_above conf h = ground (
      arith,
      le_trans (num 60) (num 80) conf (lit_mono 60_000_000 80_000_000 (omega arith)),
      le_trans (num 60) (num 70) conf (lit_mono 60_000_000 70_000_000 (omega arith)),
    )

    tier_trades : (conf : F) → num 60 ≼ conf → tier conf ≢ no_trade
    tier_trades conf h = ground arith

    -- The gate trades exactly when all three scores are finite, the model's probability is not below
    -- its threshold, the regime is neither "ranging_low_vol" nor "unknown", the gate is idle, fewer
    -- trades than the daily maximum were placed, and the clamped weighted score is 60 or more.
    pub evaluate_trades_iff :
        (g : Gate F) (input : Input F) → ((evaluate g input).decision ≢ no_trade) ↔ Clear g input
    unfolding evaluate
    evaluate_trades_iff g input =
        let conf = raw_confidence_of g.cfg input in
        let label = input.regime_label in
        let ranging = eq_iff label "ranging_low_vol" in
        let unknown = eq_iff label "unknown" in
        let size = sized_decision conf label in
        (
          (λ h. ground (arith, ranging, unknown, size, tier_above conf)),
          (λ c. ground (arith, ranging, unknown, size, tier_trades conf)),
        )

    sized_multiplier :
        (conf : F) (label : String)
        → (sized conf label).size_multiplier
          ≡ lit (quarters (sized conf label).decision * label_quarters label * 62_500)
    unfolding sized size_from_confidence decision_from_size apply_regime_override
    sized_multiplier conf label = ground (
      arith,
      lit_strict 0 250_000 (omega arith) (omega arith),
      lit_strict 0 500_000 (omega arith) (omega arith),
      lit_strict 0 1_000_000 (omega arith) (omega arith),
      lit_strict 250_000 500_000 (omega arith) (omega arith),
      lit_strict 250_000 1_000_000 (omega arith) (omega arith),
      lit_strict 500_000 1_000_000 (omega arith) (omega arith),
      lit_mono 0 0 (omega arith),
      lit_mono 0 250_000 (omega arith),
      lit_mono 500_000 500_000 (omega arith),
      lit_mono 1_000_000 1_000_000 (omega arith),
      quarter_mul 1 1 (omega arith) (omega arith),
      quarter_mul 1 3 (omega arith) (omega arith),
      quarter_mul 1 4 (omega arith) (omega arith),
      quarter_mul 2 1 (omega arith) (omega arith),
      quarter_mul 2 3 (omega arith) (omega arith),
      quarter_mul 2 4 (omega arith) (omega arith),
      quarter_mul 4 1 (omega arith) (omega arith),
      quarter_mul 4 3 (omega arith) (omega arith),
      quarter_mul 4 4 (omega arith) (omega arith),
    )

    -- Whatever the gate answers, its size multiplier is the exact product of the decision's base size
    -- (full 1, normal 0.5, small 0.25, none 0) and the regime's factor (1 for "trending_low_vol", 0.75
    -- for "trending_high_vol", 0.25 for "ranging_high_vol", 0 for any other label).
    pub evaluate_multiplier :
        (g : Gate F) (input : Input F)
        → let out = evaluate g input in
          out.size_multiplier
          ≡ lit (quarters out.decision * label_quarters input.regime_label * 62_500)
    unfolding evaluate
    evaluate_multiplier g input =
        ground (arith, sized_multiplier (raw_confidence_of g.cfg input) input.regime_label)
