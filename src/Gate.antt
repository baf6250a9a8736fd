-- ===== src/Gate.antt =====
-- internal/agent/tradegate/gate.go: the gate that admits, sizes and refuses trades.
-- Each method runs under the gate's mutex, so it is one atomic step on the record. The reasons of a
-- refusal carry the values that the source prints into a text.
pub mod Decide
pub mod Cooldown
mod Tests
use ai_trading_v.Prelude.{
  ℕ, ◌+◌, Bool, true, false, not, ◌||◌, if◌then◌else◌, ℤ, pos, ◌-ℤ◌, leb_ℤ, String, str_eq,
}
use ai_trading_v.Float.{Float64, lit, num, minus, ◌⊕◌, ◌⊗◌, ◌⊘◌, ◌≤?◌, ◌<?◌, ◌=?◌, valid, clamp}

pub data Decision : Type 0 where
  no_trade small_size normal_size full_size : Decision

pub data GateState : Type 0 where
  idle cooldown stopped : GateState

pub record Input (F : Type 0) : Type 0 where
  pub technical_score : F
  pub order_flow_score : F
  pub regime_score : F
  pub regime_label : String
  pub meta_model_prob : F

pub data Reason (F : Type 0) : Type 0 where
  accepted : Reason F
  invalid_input : Reason F
  ml_below_threshold : F → Reason F
  bad_regime : String → Reason F
  drawdown_hit : Reason F
  max_trades_reached : ℤ → Reason F
  cooling_down : ℤ → Reason F
  low_confidence : F → Reason F

pub record Output (F : Type 0) : Type 0 where
  pub decision : Decision
  pub size_multiplier : F
  pub raw_confidence : F
  pub final_confidence : F
  pub reason : Reason F

pub record GateConfig (F : Type 0) : Type 0 where
  pub cooldown_bars : ℤ
  pub max_trades_per_day : ℤ
  pub drawdown_limit : F
  pub starting_capital : F
  pub meta_model_threshold : F
  pub tech_weight : F
  pub of_weight : F
  pub regime_weight : F

pub record Gate (F : Type 0) : Type 0 where
  pub cfg : GateConfig F
  pub state : GateState
  pub cooldown_bars_remaining : ℤ
  pub trade_count : ℕ
  pub day_pnl : F
  pub current_day : String

abbrev pub is_stopped : GateState → Bool
is_stopped stopped = true
is_stopped _ = false

abbrev pub is_cooldown : GateState → Bool
is_cooldown cooldown = true
is_cooldown _ = false

module _ {F : Type 0} ⦃f : Float64 F⦄ where
  unfoldable pub default_config : GateConfig F
  default_config = record {
    cooldown_bars = pos 2;
    max_trades_per_day = pos 5;
    drawdown_limit = minus (lit 50_000);
    starting_capital = num 10_000;
    meta_model_threshold = lit 450_000;
    tech_weight = lit 400_000;
    of_weight = lit 400_000;
    regime_weight = lit 200_000;
  }

  unfoldable pub new : GateConfig F → Gate F
  new cfg = record {
    cfg = cfg;
    state = idle;
    cooldown_bars_remaining = pos 0;
    trade_count = 0;
    day_pnl = num 0;
    current_day = "";
  }

  pub no_trade_out : F → Reason F → Output F
  no_trade_out raw_conf reason = record {
    decision = no_trade;
    size_multiplier = num 0;
    raw_confidence = raw_conf;
    final_confidence = raw_conf;
    reason = reason;
  }

  unfoldable pub size_from_confidence : F → F
  size_from_confidence conf =
      if num 80 ≤? conf
      then num 1
      else if num 70 ≤? conf
      then lit 500_000
      else if num 60 ≤? conf
      then lit 250_000
      else num 0

  unfoldable pub decision_from_size : F → Decision
  decision_from_size size =
      if num 1 ≤? size
      then full_size
      else if lit 500_000 ≤? size
      then normal_size
      else if num 0 <? size
      then small_size
      else no_trade

  unfoldable pub apply_regime_override : F → String → F
  apply_regime_override size label =
      if size ≤? num 0
      then num 0
      else if str_eq label "trending_low_vol"
      then size ⊗ num 1
      else if str_eq label "trending_high_vol"
      then size ⊗ lit 750_000
      else if str_eq label "ranging_high_vol"
      then size ⊗ lit 250_000
      else num 0

  -- The weighted sum of the scores, clamped to [0, 100].
  pub raw_confidence_of : GateConfig F → Input F → F
  raw_confidence_of cfg input = clamp (num 100) (
      input.technical_score ⊗ cfg.tech_weight
      ⊕ input.order_flow_score ⊗ cfg.of_weight
      ⊕ input.regime_score ⊗ cfg.regime_weight)

  -- `Evaluate` from the point where every guard has passed.
  pub sized : F → String → Output F
  unfolding no_trade_out
  sized raw_conf label =
      let base = size_from_confidence raw_conf in
      if base =? num 0 then no_trade_out raw_conf (low_confidence raw_conf) else record {
        decision = decision_from_size base;
        size_multiplier = apply_regime_override base label;
        raw_confidence = raw_conf;
        final_confidence = raw_conf;
        reason = accepted;
      }

  -- `Evaluate` changes no field of the gate.
  unfoldable pub evaluate : Gate F → Input F → Output F
  unfolding no_trade_out sized raw_confidence_of
  evaluate g input =
      let raw_conf = raw_confidence_of g.cfg input in
      let label = input.regime_label in
      if not (valid input.technical_score)
        || not (valid input.order_flow_score)
        || not (valid input.regime_score)
      then no_trade_out (num 0) invalid_input
      else if input.meta_model_prob <? g.cfg.meta_model_threshold
      then no_trade_out raw_conf (ml_below_threshold input.meta_model_prob)
      else if str_eq label "ranging_low_vol" || str_eq label "unknown"
      then no_trade_out raw_conf (bad_regime label)
      else if is_stopped g.state
      then no_trade_out raw_conf drawdown_hit
      else if leb_ℤ g.cfg.max_trades_per_day (pos g.trade_count)
      then no_trade_out raw_conf (max_trades_reached g.cfg.max_trades_per_day)
      else if is_cooldown g.state
      then no_trade_out raw_conf (cooling_down g.cooldown_bars_remaining)
      else sized raw_conf label

  unfoldable pub on_trade_placed : Gate F → Gate F
  on_trade_placed g = record g { trade_count = g.trade_count + 1 }

  unfoldable pub on_trade_closed : Gate F → Gate F
  on_trade_closed g = record g { state = cooldown; cooldown_bars_remaining = g.cfg.cooldown_bars }

  unfoldable pub on_bar : Gate F → Gate F
  unfolding ◌-ℤ◌
  on_bar g =
      let left = g.cooldown_bars_remaining -ℤ pos 1 in
      if is_cooldown g.state
      then record g {
        state = if leb_ℤ left (pos 0) then idle else g.state;
        cooldown_bars_remaining = left;
      }
      else g

  unfoldable pub update_pnl : F → Gate F → Gate F
  update_pnl pnl g =
      let day_pnl = g.day_pnl ⊕ pnl in
      record g {
        day_pnl = day_pnl;
        state =
            if day_pnl ⊘ g.cfg.starting_capital ≤? g.cfg.drawdown_limit then stopped else g.state;
      }

  -- The Boolean says that the gate was stopped and is idle again.
  unfoldable pub reset_day : String → F → Gate F → Gate F × Bool
  reset_day new_day starting_pnl g =
      let fresh = record g {
        trade_count = 0;
        day_pnl = starting_pnl;
        current_day = new_day;
        state = if is_stopped g.state then idle else g.state;
      } in
      (fresh, is_stopped g.state)
