-- ===== src/Paper/Orders.antt =====
-- internal/papertrade/engine.go: the choice of the feature row, `checkExit` and `openPosition`. Feature
-- rows are what the database answers.
use ai_trading_v.Prelude.{
  ℕ, ltb, Bool, true, false, not, ◌&&◌, if◌then◌else◌, pos, leb_ℤ, List, [], ◌∷◌, Option, none,
  some, String, str_eq,
}
use ai_trading_v.Float.{Float64, lit, num, ◌⊕◌, ◌⊖◌, ◌⊗◌, ◌⊘◌, ◌≤?◌, ◌<?◌}
use ai_trading_v.Model.{Time, Candle, FeatureRow}
use ai_trading_v.Gate
use ai_trading_v.Gate.{Output}
use ai_trading_v.Paper.{
  Direction, long, short, no_trade, ExitReason, stop_loss, max_hold, opposite_signal, EngineConfig,
  filled, Order, Fill, Position, is_no_trade, same_direction,
}
use ai_trading_v.Paper.Executor.{FillResult}
use ai_trading_v.Paper.Engine.{
  Store, Engine, insert_order, insert_fill, insert_position, call, close_position,
}

-- The scores of a tick and the direction they give.
pub record Signal (F : Type 0) : Type 0 where
  pub tech_score : F
  pub of_score : F
  pub regime_score : F
  pub regime_label : String
  pub dir : Direction

abbrev pub is_skip : Gate.Decision → Bool
is_skip Gate.no_trade = true
is_skip _ = false

module _ {F : Type 0} ⦃f : Float64 F⦄ where
  -- The latest of the rows that is not after `ts`.
  unfoldable pub later_row : Time → FeatureRow F → Option (FeatureRow F) → Option (FeatureRow F)
  later_row ts r none = if ltb ts r.ts then none else some r
  later_row ts r (some best) =
      if ltb ts r.ts then some best else if ltb best.ts r.ts then some r else some best

  unfoldable pub best_row :
      Time → List (FeatureRow F) → Option (FeatureRow F) → Option (FeatureRow F)
  best_row ts [] best = best
  best_row ts (r ∷ rs) best = best_row ts rs (later_row ts r best)

  -- `loadFeaturesAt`: nothing after an error of the database, or where no row is early enough.
  unfoldable pub load_features_at : Time → Option (List (FeatureRow F)) → Option (FeatureRow F)
  load_features_at ts none = none
  load_features_at ts (some rows) = best_row ts rows none

  -- `predict` is the answer of the model's service, `none` where the request or its parsing fails.
  unfoldable pub fetch_ml_prob : EngineConfig F → (Time → Option F) → Time → F
  fetch_ml_prob cfg predict ts =
      if str_eq cfg.ml_api_url "" then num 1 else elim (predict ts) [ none ↦ num 1 | some p ↦ p ]

  unfoldable pub candle_atr : F → F → F
  candle_atr atr unused = if atr ≤? num 0 then lit 10_000 else atr

  -- The exit that `checkExit` decides on: its price and reason.
  unfoldable pub exit_of :
      EngineConfig F → Candle F → Direction → Position F → Option (F × ExitReason)
  exit_of cfg c dir p = go p.direction
    where
      market : Direction → F
      market long = c.close ⊗ (num 1 ⊖ cfg.slippage)
      market short = c.close ⊗ (num 1 ⊕ cfg.slippage)
      market no_trade = num 0

      stop_hit : Direction → Bool
      stop_hit long = c.low ≤? p.stop_price
      stop_hit short = p.stop_price ≤? c.high
      stop_hit no_trade = false

      go : Direction → Option (F × ExitReason)
      go held =
          if stop_hit held
          then some (p.stop_price, stop_loss)
          else if leb_ℤ cfg.holding_bars (pos p.bars_held)
          then some (market held, max_hold)
          else if not (is_no_trade dir) && not (same_direction dir held)
          then some (market held, opposite_signal)
          else none

  -- The stop of a long position that stays open.
  unfoldable pub trail : EngineConfig F → Candle F → Position F → Position F
  trail cfg c p =
      let new_stop = c.close ⊗ (num 1 ⊖ cfg.atr_multiplier ⊗ candle_atr c.close (num 0)) in
      if same_direction p.direction long && p.stop_price <? new_stop
      then record p { stop_price = new_stop }
      else p

  -- `checkExit`; the Boolean says that the position was closed.
  unfoldable pub check_exit : Candle F → Direction → Position F → Engine F → Engine F × Bool
  check_exit c dir p e = elim (exit_of e.cfg c dir p) [
    | none ↦ (record e { position = some (trail e.cfg c p) }, false)
    | some (price, reason) ↦ (close_position c price reason e, true)
  ]

  -- The distance of the stop in `openPosition`, and the ATR that sizes the position.
  unfoldable pub stop_distance : EngineConfig F → Candle F → FeatureRow F → F
  stop_distance cfg c r =
      if r.atr14 ≤? num 0
      then c.close ⊗ lit 10_000 ⊗ cfg.atr_multiplier
      else r.atr14 ⊗ cfg.atr_multiplier

  unfoldable pub entry_stop : Direction → F → F → F
  entry_stop long price distance = price ⊖ distance
  entry_stop short price distance = price ⊕ distance
  entry_stop no_trade price distance = num 0

  unfoldable pub order_of : EngineConfig F → Candle F → FillResult F → Signal F → Output F → Order F
  order_of cfg c entry sig out = record {
    symbol = cfg.symbol;
    timeframe = cfg.timeframe;
    direction = sig.dir;
    status = filled;
    requested_size = entry.commission ⊘ cfg.commission;
    filled_size = entry.commission ⊘ cfg.commission;
    fill_price = entry.fill_price;
    slippage_pct = entry.slippage_pct;
    commission = entry.commission;
    reason = record {
      technical_score = sig.tech_score;
      order_flow_score = sig.of_score;
      regime_score = sig.regime_score;
      confidence_score = out.raw_confidence;
      regime_label = sig.regime_label;
      gate_decision = out.decision;
      direction = sig.dir;
    };
    open_ts = c.time;
  }

  unfoldable pub fill_of : ℕ → Candle F → Order F → Fill F
  fill_of id c o = record {
    order_id = id;
    ts = c.time;
    side = if same_direction o.direction long then "buy" else "sell";
    price = o.fill_price;
    size = o.filled_size;
    fee = o.commission;
  }

  -- The position of a filled order, before the database numbers it.
  unfoldable pub position_of : EngineConfig F → Candle F → FeatureRow F → ℕ → Order F → Position F
  position_of cfg c r id o = record {
    id = 0;
    symbol = cfg.symbol;
    timeframe = cfg.timeframe;
    direction = o.direction;
    entry_order_id = id;
    quantity = o.filled_size;
    entry_price = o.fill_price;
    entry_fee = o.commission;
    stop_price = entry_stop o.direction o.fill_price (stop_distance cfg c r);
    open_ts = c.time;
    bars_held = 0;
  }

  unfoldable pub open_position :
      Store F → Candle F → FeatureRow F → FillResult F → Signal F → Output F → Engine F → Engine F
  open_position store c r entry sig out e =
      let order = order_of e.cfg c entry sig out in
      let ordered = call (insert_order order) e in
      elim (store.order_id order) [
        | none ↦ ordered
        | some id ↦
            let p = position_of e.cfg c r id order in
            let placed =
              call (insert_position p) (call (insert_fill (fill_of id c order)) ordered) in
            elim (store.position_id p) [
              | none ↦ placed
              | some pid ↦ record placed {
                position = some (record p { id = pid });
                balance = e.balance ⊖ entry.commission;
                gate = Gate.on_trade_placed e.gate;
              }
            ]
      ]
