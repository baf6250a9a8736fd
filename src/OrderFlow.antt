-- ===== src/OrderFlow.antt =====
-- internal/agent/orderflow/scorer.go: the order flow score of a bar.
pub mod Bounds
mod Tests
use ai_trading_v.Prelude.{not, ◌&&◌, ◌||◌, if◌then◌else◌}
use ai_trading_v.Float.{Float64, lit, num, ◌⊕◌, ◌⊖◌, ◌⊗◌, ◌⊘◌, ◌≤?◌, ◌<?◌, valid, floor_at, clamp}

pub record Input (F : Type 0) : Type 0 where
  pub funding_rate : F
  pub oi_delta_pct : F
  pub ls_ratio : F
  pub long_liq_usd : F
  pub short_liq_usd : F

pub record Components (F : Type 0) : Type 0 where
  pub funding_score : F
  pub oi_score : F
  pub ls_score : F
  pub liq_score : F

pub record Score (F : Type 0) : Type 0 where
  pub order_flow_score : F
  pub components : Components F

module _ {F : Type 0} ⦃f : Float64 F⦄ where
  -- The switch of `calcFundingScore`, at the rate in basis points.
  bps_ladder : F → F
  bps_ladder bps =
      if bps ≤? num 0
      then floor_at (num 0) (num 10 ⊕ bps ⊗ num 3)
      else if bps <? num 2
      then num 10 ⊕ bps ⊗ num 5
      else if bps <? num 5
      then floor_at (num 10) (num 20 ⊖ (bps ⊖ num 2) ⊗ lit 3_330_000)
      else floor_at (num 0) (num 10 ⊖ (bps ⊖ num 5) ⊗ num 2)

  unfoldable pub calc_funding_score : F → F
  unfolding bps_ladder
  calc_funding_score funding_rate =
      if not (valid funding_rate) then num 10 else bps_ladder (funding_rate ⊗ num 10_000)

  unfoldable pub calc_oi_score : F → F
  calc_oi_score oi_delta_pct =
      if not (valid oi_delta_pct)
      then lit 12_500_000
      else clamp (num 25) (num 15 ⊕ oi_delta_pct ⊗ num 10)

  unfoldable pub calc_ls_score : F → F
  calc_ls_score ls_ratio =
      if not (valid ls_ratio) || ls_ratio ≤? num 0
      then num 10
      else if num 1 ≤? ls_ratio && ls_ratio ≤? lit 1_300_000
      then num 12 ⊕ (ls_ratio ⊖ num 1) ⊘ lit 300_000 ⊗ num 6
      else if lit 1_300_000 <? ls_ratio && ls_ratio ≤? num 2
      then floor_at (num 10) (num 18 ⊖ (ls_ratio ⊖ lit 1_300_000) ⊘ lit 700_000 ⊗ num 8)
      else if num 2 <? ls_ratio
      then floor_at (num 2) (num 10 ⊖ (ls_ratio ⊖ num 2) ⊗ num 8)
      else floor_at (num 0) (num 12 ⊖ (num 1 ⊖ ls_ratio) ⊗ num 20)

  -- The score of `calcLiqScore` before its clamps.
  raw_liq : F → F → F
  raw_liq long_liq short_liq =
      let total_liq = long_liq ⊕ short_liq in
      let imbalance = (short_liq ⊖ long_liq) ⊘ total_liq in
      let norm = clamp (num 1) (total_liq ⊘ num 50_000_000) in
      let direction = imbalance ⊗ norm ⊗ num 8 in
      let magnitude = norm ⊗ lit 4_500_000 in lit 12_500_000 ⊖ direction ⊕ magnitude

  unfoldable pub calc_liq_score : F → F → F
  unfolding raw_liq
  calc_liq_score long_liq short_liq =
      if not (valid long_liq) || not (valid short_liq)
      then lit 12_500_000
      else if long_liq ⊕ short_liq ≤? num 0
      then lit 12_500_000
      else clamp (num 25) (raw_liq long_liq short_liq)

  unfoldable pub calculate : Input F → Score F
  calculate input =
      let funding_score = calc_funding_score input.funding_rate in
      let oi_score = calc_oi_score input.oi_delta_pct in
      let ls_score = calc_ls_score input.ls_ratio in
      let liq_score = calc_liq_score input.long_liq_usd input.short_liq_usd in
      record {
        order_flow_score = clamp (num 100) (funding_score ⊕ oi_score ⊕ ls_score ⊕ liq_score);
        components = record {
          funding_score = funding_score;
          oi_score = oi_score;
          ls_score = ls_score;
          liq_score = liq_score;
        };
      }
