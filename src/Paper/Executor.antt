-- ===== src/Paper/Executor.antt =====
-- internal/papertrade/executor.go: simulated fills, position sizes and the direction of a signal.
use ai_trading_v.Prelude.{◌&&◌, ◌||◌, if◌then◌else◌}
use ai_trading_v.Float.{Float64, lit, num, ◌⊕◌, ◌⊖◌, ◌⊗◌, ◌⊘◌, ◌≤?◌, ◌<?◌, fmin}
use ai_trading_v.Paper.{Direction, long, short, no_trade, EngineConfig}

pub record FillResult (F : Type 0) : Type 0 where
  pub fill_price : F
  pub slippage_pct : F
  pub commission : F

module _ {F : Type 0} ⦃f : Float64 F⦄ where
  -- The slippage, with a premium for a size above 1% of the candle's volume.
  unfoldable pub entry_slippage : F → EngineConfig F → F → F
  entry_slippage size cfg candle_volume =
      if num 0 <? candle_volume && candle_volume ⊗ lit 10_000 <? size
      then cfg.slippage ⊕ cfg.slippage ⊗ fmin (size ⊘ (candle_volume ⊗ lit 10_000)) (num 2)
      else cfg.slippage

  unfoldable pub entry_fill : Direction → F → F → F
  entry_fill long ref_price slippage = ref_price ⊗ (num 1 ⊕ slippage)
  entry_fill short ref_price slippage = ref_price ⊗ (num 1 ⊖ slippage)
  entry_fill no_trade ref_price slippage = ref_price

  unfoldable pub exit_fill : Direction → F → F → F
  exit_fill long ref_price slippage = ref_price ⊗ (num 1 ⊖ slippage)
  exit_fill short ref_price slippage = ref_price ⊗ (num 1 ⊕ slippage)
  exit_fill no_trade ref_price slippage = ref_price

  unfoldable pub simulate_entry : F → F → Direction → EngineConfig F → F → FillResult F
  simulate_entry ref_price size direction cfg candle_volume =
      let slippage = entry_slippage size cfg candle_volume in
      record {
        fill_price = entry_fill direction ref_price slippage;
        slippage_pct = slippage;
        commission = size ⊗ cfg.commission;
      }

  unfoldable pub simulate_exit : F → F → Direction → EngineConfig F → FillResult F
  simulate_exit ref_price size direction cfg = record {
    fill_price = exit_fill direction ref_price cfg.slippage;
    slippage_pct = cfg.slippage;
    commission = size ⊗ cfg.commission;
  }

  unfoldable pub calc_position_size : F → F → F → F → F → F
  calc_position_size equity entry_price atr atr_multiplier risk_pct =
      let stop_distance = atr ⊗ atr_multiplier in
      let size = equity ⊗ (risk_pct ⊘ num 100) ⊘ stop_distance in
      if atr ≤? num 0 || equity ≤? num 0 || entry_price ≤? num 0
      then num 0
      else if stop_distance ≤? num 0
      then num 0
      else if size ≤? num 0
      then num 0
      else size

  unfoldable pub decide_direction : F → F → F → Direction
  decide_direction tech_score long_threshold short_threshold =
      if long_threshold ≤? tech_score
      then long
      else if tech_score ≤? short_threshold
      then short
      else no_trade
