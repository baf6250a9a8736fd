-- ===== src/Paper/Engine.antt =====
-- internal/papertrade/engine.go: the engine's state, and how it closes a position, counts the day,
-- and recovers. `called` lists the statements sent to the database, oldest first, failed ones
-- included; what the database answers is a `Store`.
use ai_trading_v.Prelude.{
  ℕ, ◌+◌, Bool, ◌||◌, if◌then◌else◌, List, [], ◌∷◌, ◌++◌, Option, none, some, String,
}
use ai_trading_v.Float.{Float64, num, minus, ◌⊕◌, ◌⊖◌, ◌⊗◌, ◌⊘◌, ◌≤?◌, is_nan}
use ai_trading_v.Model.{Time, Candle}
use ai_trading_v.Gate.{Gate, new, update_pnl, on_trade_closed, reset_day}
use ai_trading_v.Paper.{
  Direction, long, short, no_trade, EngineState, running, stopped, ExitReason, EngineConfig, Order,
  Fill, Position, Trade, AccountSnapshot,
}
use ai_trading_v.Paper.Executor.{simulate_exit}

pub data Call (F : Type 0) : Type 0 where
  insert_order : Order F → Call F
  insert_fill : Fill F → Call F
  insert_position : Position F → Call F
  update_bars_held : ℕ → ℕ → Call F
  insert_trade : Trade F → Call F
  close_row : ℕ → Call F
  insert_snapshot : AccountSnapshot F → Call F

-- The answers of the database to the statements whose answers the engine reads: `none` is an error.
-- An open position may be missing without an error.
pub record Store (F : Type 0) : Type 0 where
  pub order_id : Order F → Option ℕ
  pub position_id : Position F → Option ℕ
  pub daily_stats : String → Option (F × ℕ)
  pub open_position : Option (Option (Position F))
  pub total_pnl : Option F

pub record Engine (F : Type 0) : Type 0 where
  pub cfg : EngineConfig F
  pub gate : Gate F
  pub state : EngineState
  pub position : Option (Position F)
  pub last_bar_ts : Time
  pub equity : F
  pub balance : F
  pub total_pnl : F
  pub day_pnl : F
  pub day_trades : ℕ
  pub current_day : String
  pub bar_count : ℕ
  pub called : List (Call F)

module _ {F : Type 0} ⦃f : Float64 F⦄ where
  unfoldable pub new_engine : EngineConfig F → Engine F
  new_engine cfg = record {
    cfg = cfg;
    gate = new (record cfg.gate_config { starting_capital = cfg.initial_capital });
    state = running;
    position = none;
    last_bar_ts = 0;
    equity = cfg.initial_capital;
    balance = cfg.initial_capital;
    total_pnl = num 0;
    day_pnl = num 0;
    day_trades = 0;
    current_day = "";
    bar_count = 0;
    called = [];
  }

  unfoldable pub call : Call F → Engine F → Engine F
  call c e = record e { called = e.called ++ (c ∷ []) }

  unfoldable pub record_snapshot : Time → Engine F → Engine F
  unfolding call
  record_snapshot ts e =
      call
        (insert_snapshot (record {
          ts = ts;
          balance = e.balance;
          equity = e.equity;
          unrealized_pnl = e.equity ⊖ e.balance;
          day_pnl = e.day_pnl;
          day_trades = e.day_trades;
        }))
        e

  -- The switch on the direction in `closePosition` and in `updateUnrealized`: the profit before fees.
  unfoldable pub profit : Position F → F → F
  profit p price = go p.direction
    where
      go : Direction → F
      go long = (price ⊖ p.entry_price) ⊘ p.entry_price ⊗ p.quantity
      go short = (p.entry_price ⊖ price) ⊘ p.entry_price ⊗ p.quantity
      go no_trade = num 0

  -- The row of a closed trade. A profit that is not finite counts as none.
  unfoldable pub trade_row : EngineConfig F → Candle F → F → ExitReason → Position F → Trade F
  trade_row cfg candle exit_price reason p =
      let exit = simulate_exit exit_price p.quantity p.direction cfg in
      let gross = profit p exit.fill_price in
      let total_commission = p.entry_fee ⊕ exit.commission in
      let net = gross ⊖ total_commission in
      let lost = is_nan net || f.is_inf net in
      record {
        position_id = p.id;
        symbol = cfg.symbol;
        timeframe = cfg.timeframe;
        direction = p.direction;
        entry_ts = p.open_ts;
        exit_ts = candle.time;
        entry_price = p.entry_price;
        exit_price = exit.fill_price;
        size = p.quantity;
        gross_pnl = gross;
        commission = total_commission;
        net_pnl = if lost then num 0 else net;
        return_pct = if lost then num 0 else net ⊘ p.quantity;
        holding_bars = p.bars_held;
        exit_reason = reason;
      }

  -- Both drawdown limits, after a trade.
  unfoldable pub breached : EngineConfig F → F → F → Bool
  breached cfg day_pnl total_pnl =
      day_pnl ⊘ cfg.initial_capital ⊗ num 100 ≤? minus cfg.max_daily_drawdown_pct
      || total_pnl ⊘ cfg.initial_capital ⊗ num 100 ≤? minus cfg.max_total_drawdown_pct

  -- `closePosition` where a position is open.
  unfoldable pub settle : Candle F → F → ExitReason → Position F → Engine F → Engine F
  unfolding call
  settle candle exit_price reason p e =
      let trade = trade_row e.cfg candle exit_price reason p in
      let net = trade.net_pnl in
      let day_pnl = e.day_pnl ⊕ net in
      let total_pnl = e.total_pnl ⊕ net in
      let balance = e.balance ⊕ (net ⊕ p.quantity) in
      record (call (close_row p.id) (call (insert_trade trade) e)) {
        balance = balance;
        total_pnl = total_pnl;
        day_pnl = day_pnl;
        day_trades = e.day_trades + 1;
        gate = on_trade_closed (update_pnl net e.gate);
        state = if breached e.cfg day_pnl total_pnl then stopped else e.state;
        equity = balance;
        position = none;
      }

  unfoldable pub close_position : Candle F → F → ExitReason → Engine F → Engine F
  close_position candle exit_price reason e = go e.position
    where
      go : Option (Position F) → Engine F
      go none = e
      go (some p) = settle candle exit_price reason p e

  unfoldable pub update_unrealized : F → Engine F → Engine F
  update_unrealized price e = go e.position
    where
      go : Option (Position F) → Engine F
      go none = e
      go (some p) = record e { equity = e.balance ⊕ profit p price }

  -- `resetDay`. After an error the profit stays and the count is 0.
  unfoldable pub reset_engine_day : Store F → String → Engine F → Engine F
  reset_engine_day store day e =
      let fresh : F × ℕ = elim (store.daily_stats day) [
        | none ↦ (e.day_pnl, 0)
        | some stats ↦ stats
      ] in
      record e {
        day_pnl = fresh.0;
        day_trades = fresh.1;
        current_day = day;
        gate = (reset_day day fresh.0 e.gate).0;
        state = running;
      }

  -- `recoverState` after the position is loaded; `today` is the day it runs on.
  unfoldable pub recover_account : Store F → String → Engine F → Engine F
  recover_account store today e =
      let balance : F = elim store.total_pnl [
        | none ↦ e.balance
        | some total ↦ e.cfg.initial_capital ⊕ total
      ] in
      let equity : F = elim store.total_pnl [ none ↦ e.equity | some total ↦ balance ] in
      let total_pnl : F = elim store.total_pnl [ none ↦ e.total_pnl | some total ↦ total ] in
      let fresh : F × ℕ = elim (store.daily_stats today) [
        | none ↦ (e.day_pnl, e.day_trades)
        | some stats ↦ stats
      ] in
      record e {
        balance = balance;
        equity = equity;
        total_pnl = total_pnl;
        day_pnl = fresh.0;
        day_trades = fresh.1;
        current_day = today;
      }

  -- The Boolean says that no error was returned.
  unfoldable pub recover_state : Store F → String → Engine F → Engine F × Bool
  recover_state store today e = go store.open_position
    where
      go : Option (Option (Position F)) → Engine F × Bool
      go none = (e, Bool.false)
      go (some none) = (recover_account store today e, Bool.true)
      go (some (some p)) = (recover_account store today (record e { position = some p }), Bool.true)
