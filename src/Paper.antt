-- ===== src/Paper.antt =====
-- internal/papertrade/types.go: the configuration, the rows that the paper trading engine writes, and
-- its exit reasons. Row numbers are what the database answers to an insert.
pub mod Executor
pub mod Engine
pub mod Orders
pub mod Tick
pub mod Account
pub mod Entry
pub mod Rows
pub mod Halt
pub mod Slippage
pub mod Stops
pub mod Cash
mod Tests
use ai_trading_v.Prelude.{ℕ, Bool, true, false, ℤ, pos, String}
use ai_trading_v.Float.{Float64, lit, num}
use ai_trading_v.Model.{Time}
use ai_trading_v.Gate.{GateConfig, Decision, default_config}

pub data Direction : Type 0 where
  long short no_trade : Direction

pub data EngineState : Type 0 where
  running stopped : EngineState

pub data ExitReason : Type 0 where
  stop_loss max_hold opposite_signal end_of_data stop_loss_daily : ExitReason

pub data OrderStatus : Type 0 where
  created filled cancelled : OrderStatus

abbrev pub is_stopped : EngineState → Bool
is_stopped stopped = true
is_stopped running = false

abbrev pub is_no_trade : Direction → Bool
is_no_trade no_trade = true
is_no_trade _ = false

abbrev pub same_direction : Direction → Direction → Bool
same_direction long long = true
same_direction short short = true
same_direction no_trade no_trade = true
same_direction _ _ = false

-- The poll interval only sets the ticker.
pub record EngineConfig (F : Type 0) : Type 0 where
  pub symbol : String
  pub timeframe : String
  pub initial_capital : F
  pub commission : F
  pub slippage : F
  pub atr_multiplier : F
  pub holding_bars : ℤ
  pub risk_per_trade_pct : F
  pub max_daily_drawdown_pct : F
  pub max_total_drawdown_pct : F
  pub long_threshold : F
  pub short_threshold : F
  pub gate_config : GateConfig F
  pub ml_api_url : String

-- The map that `openPosition` prints as the order's reason.
pub record EntryReason (F : Type 0) : Type 0 where
  pub technical_score : F
  pub order_flow_score : F
  pub regime_score : F
  pub confidence_score : F
  pub regime_label : String
  pub gate_decision : Decision
  pub direction : Direction

pub record Order (F : Type 0) : Type 0 where
  pub symbol : String
  pub timeframe : String
  pub direction : Direction
  pub status : OrderStatus
  pub requested_size : F
  pub filled_size : F
  pub fill_price : F
  pub slippage_pct : F
  pub commission : F
  pub reason : EntryReason F
  pub open_ts : Time

pub record Fill (F : Type 0) : Type 0 where
  pub order_id : ℕ
  pub ts : Time
  pub side : String
  pub price : F
  pub size : F
  pub fee : F

pub record Position (F : Type 0) : Type 0 where
  pub id : ℕ
  pub symbol : String
  pub timeframe : String
  pub direction : Direction
  pub entry_order_id : ℕ
  pub quantity : F
  pub entry_price : F
  pub entry_fee : F
  pub stop_price : F
  pub open_ts : Time
  pub bars_held : ℕ

pub record Trade (F : Type 0) : Type 0 where
  pub position_id : ℕ
  pub symbol : String
  pub timeframe : String
  pub direction : Direction
  pub entry_ts : Time
  pub exit_ts : Time
  pub entry_price : F
  pub exit_price : F
  pub size : F
  pub gross_pnl : F
  pub commission : F
  pub net_pnl : F
  pub return_pct : F
  pub holding_bars : ℕ
  pub exit_reason : ExitReason

pub record AccountSnapshot (F : Type 0) : Type 0 where
  pub ts : Time
  pub balance : F
  pub equity : F
  pub unrealized_pnl : F
  pub day_pnl : F
  pub day_trades : ℕ

module _ {F : Type 0} ⦃f : Float64 F⦄ where
  unfoldable pub default_engine_config : EngineConfig F
  default_engine_config = record {
    symbol = "BTCUSDT";
    timeframe = "15m";
    initial_capital = num 10_000;
    commission = lit 550;
    slippage = lit 500;
    atr_multiplier = num 2;
    holding_bars = pos 24;
    risk_per_trade_pct = num 1;
    max_daily_drawdown_pct = num 5;
    max_total_drawdown_pct = num 15;
    long_threshold = num 60;
    short_threshold = num 40;
    gate_config = default_config;
    ml_api_url = "";
  }
