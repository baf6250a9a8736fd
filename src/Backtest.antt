-- ===== src/Backtest.antt =====
-- internal/backtest/types.go and the helpers of internal/backtest/engine.go: configuration, trades,
-- prices by direction, and the closing of a trade.
pub mod Signal
pub mod Engine
pub mod Days
pub mod Metrics
pub mod Run
pub mod Count
pub mod Cap
pub mod Curve
pub mod Position
pub mod Sound
pub mod Inputs
pub mod Figures
mod Tests
use ai_trading_v.Prelude.{
  ℕ, Bool, not, ◌&&◌, ◌||◌, if◌then◌else◌, ℤ, pos, List, Option, none, String,
}
use ai_trading_v.Float.{Float64, lit, num, ◌⊕◌, ◌⊖◌, ◌⊗◌, ◌⊘◌, ◌≤?◌, ◌<?◌, is_nan}
use ai_trading_v.Model.{Time}
use ai_trading_v.Gate.{GateConfig}

-- `undirected` is the empty string that `decideDir` returns between the thresholds.
pub data Direction : Type 0 where
  long short undirected : Direction

pub data ExitReason : Type 0 where
  still_open stop expiry end_of_data : ExitReason

pub record Config (F : Type 0) : Type 0 where
  pub initial_capital : F
  pub commission : F
  pub slippage : F
  pub holding_bars : ℤ
  pub direction : String
  pub atr_multiplier : F
  pub warmup_bars : ℕ
  pub long_threshold : F
  pub short_threshold : F
  pub gate_config : GateConfig F

pub record Trade (F : Type 0) : Type 0 where
  pub entry_time : Time
  pub exit_time : Time
  pub direction : Direction
  pub entry_price : F
  pub exit_price : F
  pub size : F
  pub pnl : F
  pub return_pct : F
  pub holding_bars : ℤ
  pub exit_reason : ExitReason
  pub technical_score : F
  pub order_flow_score : F
  pub regime_score : F
  pub confidence : F
  pub regime_label : String
  pub stop_price : F

pub record PendingInfo (F : Type 0) : Type 0 where
  pub entry_bar : ℕ
  pub entry_price : F
  pub stop_price : F
  pub size : F
  pub direction : Direction
  pub tech_score : F
  pub of_score : F
  pub regime_score : F
  pub regime_label : String
  pub confidence : F

module _ {F : Type 0} ⦃f : Float64 F⦄ where
  unfoldable pub decide_dir : F → F → F → Direction
  decide_dir tech_score long_threshold short_threshold =
      if long_threshold ≤? tech_score
      then long
      else if tech_score ≤? short_threshold
      then short
      else undirected

  unfoldable pub entry_price_for_dir : F → Direction → F → F
  entry_price_for_dir ref_price long slippage = ref_price ⊗ (num 1 ⊕ slippage)
  entry_price_for_dir ref_price short slippage = ref_price ⊗ (num 1 ⊖ slippage)
  entry_price_for_dir ref_price undirected slippage = ref_price ⊗ (num 1 ⊕ slippage)

  unfoldable pub exit_price_for_dir : F → Direction → F → F
  exit_price_for_dir ref_price long slippage = ref_price ⊗ (num 1 ⊖ slippage)
  exit_price_for_dir ref_price short slippage = ref_price ⊗ (num 1 ⊕ slippage)
  exit_price_for_dir ref_price undirected slippage = ref_price ⊗ (num 1 ⊖ slippage)

  unfoldable pub stop_price_for_dir : F → Direction → F → F → F
  stop_price_for_dir entry_price long atr mult = entry_price ⊗ (num 1 ⊖ mult ⊗ atr ⊘ entry_price)
  stop_price_for_dir entry_price short atr mult = entry_price ⊗ (num 1 ⊕ mult ⊗ atr ⊘ entry_price)
  stop_price_for_dir entry_price undirected atr mult =
      entry_price ⊗ (num 1 ⊖ mult ⊗ atr ⊘ entry_price)

  -- The switches on the direction in `closeTrade` and in the unrealized profit of `Run`: no case for
  -- the empty direction, so the variable keeps its zero.
  unfoldable pub gross_pnl : Direction → F → F → F → F
  gross_pnl long entry exit size = (exit ⊖ entry) ⊘ entry ⊗ size
  gross_pnl short entry exit size = (entry ⊖ exit) ⊘ entry ⊗ size
  gross_pnl undirected entry exit size = num 0

  -- The trade with its profit, and the fee.
  unfoldable pub close_trade : Trade F → Config F → Trade F × F
  close_trade t cfg =
      let entry_fee = t.size ⊗ cfg.commission in
      let exit_fee = t.exit_price ⊘ t.entry_price ⊗ t.size ⊗ cfg.commission in
      let fee = entry_fee ⊕ exit_fee in
      let pnl = gross_pnl t.direction t.entry_price t.exit_price t.size ⊖ fee in
      if t.exit_price ≤? num 0 || t.entry_price ≤? num 0
      then (t, num 0)
      else if is_nan pnl || f.is_inf pnl
      then (record t { pnl = num 0; return_pct = num 0 }, num 0)
      else (record t { pnl = pnl; return_pct = pnl ⊘ t.size }, fee)
