-- ===== src/Paper/Halt.antt =====
-- How internal/papertrade/engine.go stops on a drawdown, and when it resumes.
use ai_trading_v.Prelude.{
  ◌≡◌, ◌≢◌, ◌⊎◌, ◌↔◌, refl, sym, Bool, Bool-cases, inl, inr, not, ◌==◌, true, arith, List, [], ◌∷◌,
  All, Option, none, some, String, str_eq, eq_iff,
}
use ai_trading_v.Float.{Float64, num, minus, ◌⊕◌, ◌⊘◌, ◌⊗◌, ◌≼◌}
use ai_trading_v.Model.{Time, is_zero_time, Candle, FeatureRow}
use ai_trading_v.Paper.{Position, ExitReason, running, stopped}
use ai_trading_v.Paper.Engine.{
  Store, Engine, trade_row, breached, call, record_snapshot, settle, reset_engine_day,
}
use ai_trading_v.Paper.Orders.{load_features_at, open_position}
use ai_trading_v.Paper.Tick.{
  age_position, turn_day, arrive, enter, act_on, act, on_row, on_candle, process_tick,
}
use ai_trading_v.Paper.Account.{Answers, ticks}

module _ {F : Type 0} ⦃f : Float64 F⦄ where
  -- Closing a trade stops the engine exactly where the day's loss or the total loss, the trade
  -- included, reaches its limit in percent of the initial capital, or where it was stopped before.
  pub drawdown_stops :
      (c : Candle F) (price : F) (reason : ExitReason) (p : Position F) (e : Engine F)
      → let net = (trade_row e.cfg c price reason p).net_pnl in
        (settle c price reason p e).state ≡ stopped ↔ (
          ((e.day_pnl ⊕ net) ⊘ e.cfg.initial_capital ⊗ num 100 ≼ minus e.cfg.max_daily_drawdown_pct)
          ⊎ ((e.total_pnl ⊕ net) ⊘ e.cfg.initial_capital ⊗ num 100
              ≼ minus e.cfg.max_total_drawdown_pct)
          ⊎ (e.state ≡ stopped))
  unfolding settle breached call
  drawdown_stops c price reason p e = (λ h. ground arith, λ h. ground arith)

  -- Stopped, with no position, on the day `day`.
  pub record Halted (day : String) (e : Engine F) : Type 0 where
    pub is_stopped : e.state ≡ stopped
    pub flat : e.position ≡ none
    pub today : e.current_day ≡ day

  arrive-Halted :
      (store : Store F) (day_of : Time → String) (c : Candle F) (e : Engine F)
      → Halted (day_of c.time) e
      → Halted (day_of c.time) (arrive store day_of c e)
  unfolding arrive turn_day age_position reset_engine_day call
  arrive-Halted store day_of c e h =
      let same = (eq_iff (day_of c.time) e.current_day).1 (sym h.today) in
      record {
        is_stopped = ground (arith, h.is_stopped, h.flat, same);
        flat = ground (arith, h.flat, same);
        today = ground (arith, h.today, h.flat, same);
      }

  act_on-Halted :
      (store : Store F) (predict : Time → Option F) (c : Candle F) (is_new_bar : Bool)
      (r : FeatureRow F) (day : String) (e : Engine F) (o : Option (Position F))
      → e.position ≡ o
      → Halted day e
      → Halted day (act_on store predict c is_new_bar r e o)
  unfolding act_on record_snapshot call
  act_on-Halted store predict c is_new_bar r day e none at h = record {
    is_stopped = ground (arith, h.is_stopped);
    flat = ground (arith, h.is_stopped, h.flat);
    today = ground (arith, h.is_stopped, h.today);
  }
  act_on-Halted store predict c is_new_bar r day e (some p) at h = ground (arith, at, h.flat)

  on_row-Halted :
      (store : Store F) (predict : Time → Option F) (c : Candle F) (is_new_bar : Bool)
      (row : Option (FeatureRow F)) (day : String) (e : Engine F)
      → Halted day e
      → Halted day (on_row store predict c is_new_bar row e)
  unfolding on_row act record_snapshot call
  on_row-Halted store predict c is_new_bar none day e h = record {
    is_stopped = h.is_stopped;
    flat = h.flat;
    today = h.today;
  }
  on_row-Halted store predict c is_new_bar (some r) day e h =
      act_on-Halted store predict c is_new_bar r day e e.position refl h

  -- The candle of a tick, if it has one, is of the day.
  abbrev pub OfDay : (Time → String) → String → Answers F → Type 0
  OfDay day_of day a = (c : Candle F) → a.candle ≡ some c → day_of c.time ≡ day

  process_tick-Halted :
      (store : Store F) (day_of : Time → String) (predict : Time → Option F)
      (candle : Option (Candle F)) (rows : Option (List (FeatureRow F))) (day : String)
      (e : Engine F)
      → ((c : Candle F) → candle ≡ some c → day_of c.time ≡ day)
      → Halted day e
      → Halted day (process_tick store day_of predict candle rows e)
  unfolding process_tick on_candle
  process_tick-Halted store day_of predict none rows day e on h = h
  process_tick-Halted store day_of predict (some c) rows day e on h =
      let same = on c refl in
      let here = arrive-Halted store day_of c e (rw same h) in
      let next =
        on_row-Halted store predict c (not (is_zero_time e.last_bar_ts))
          (load_features_at c.time rows) day (arrive store day_of c e) (rw same at here) in
      elim (Bool-cases (c.time == e.last_bar_ts)) [
        | inl seen ↦ rw (seen, process_tick) h
        | inr fresh ↦ rw (fresh, process_tick) next
      ]

  -- A stopped engine with no position stays so, and opens nothing, through any ticks of the same day.
  pub halt_holds :
      (store : Store F) (day_of : Time → String) (predict : Time → Option F)
      (answers : List (Answers F)) (day : String) (e : Engine F)
      → All (OfDay day_of day) answers
      → Halted day e
      → Halted day (ticks store day_of predict answers e)
  unfolding ticks
  halt_holds store day_of predict [] day e on h = h
  halt_holds store day_of predict (a ∷ rest) day e on h =
      halt_holds store day_of predict rest day _ on.1
        (process_tick-Halted store day_of predict a.candle a.rows day e on.0 h)

  act_on-state :
      (store : Store F) (predict : Time → Option F) (c : Candle F) (is_new_bar : Bool)
      (r : FeatureRow F) (e : Engine F) (o : Option (Position F))
      → e.position ≡ o
      → o ≡ none
      → (act_on store predict c is_new_bar r e o).state ≡ e.state
  unfolding act_on enter open_position record_snapshot call
  act_on-state store predict c is_new_bar r e none at flat = ground arith
  act_on-state store predict c is_new_bar r e (some p) at flat = ground (arith, flat)

  on_row-state :
      (store : Store F) (predict : Time → Option F) (c : Candle F) (is_new_bar : Bool)
      (row : Option (FeatureRow F)) (e : Engine F)
      → e.position ≡ none
      → (on_row store predict c is_new_bar row e).state ≡ e.state
  unfolding on_row act record_snapshot call
  on_row-state store predict c is_new_bar none e flat = refl
  on_row-state store predict c is_new_bar (some r) e flat =
      act_on-state store predict c is_new_bar r e e.position refl flat

  arrive-resumes :
      (store : Store F) (day_of : Time → String) (c : Candle F) (e : Engine F)
      → e.position ≡ none
      → e.last_bar_ts ≢ 0
      → day_of c.time ≢ e.current_day
      → ((arrive store day_of c e).state ≡ running)
        × ((arrive store day_of c e).position ≡ none)
        × ((arrive store day_of c e).total_pnl ≡ e.total_pnl)
  unfolding arrive turn_day age_position reset_engine_day call
  arrive-resumes store day_of c e flat seen turned =
      let other = λ (h : str_eq (day_of c.time) e.current_day ≡ true).
        turned ((eq_iff (day_of c.time) e.current_day).0 h) in
      ground (arith, flat, seen, other)

  -- The first new candle of another day sets an engine with no position running, whatever stopped it: a
  -- stop by the limit on the total loss does not outlast the day either.
  pub halt_lifted :
      (store : Store F) (day_of : Time → String) (predict : Time → Option F) (c : Candle F)
      (rows : Option (List (FeatureRow F))) (e : Engine F)
      → e.position ≡ none
      → e.last_bar_ts ≢ 0
      → c.time ≢ e.last_bar_ts
      → day_of c.time ≢ e.current_day
      → (process_tick store day_of predict (some c) rows e).state ≡ running
  unfolding process_tick on_candle
  halt_lifted store day_of predict c rows e flat seen fresh turned =
      let (state, still, _) = arrive-resumes store day_of c e flat seen turned in
      let next =
        on_row-state store predict c (not (is_zero_time e.last_bar_ts))
          (load_features_at c.time rows) (arrive store day_of c e) still in
      ground (arith, state, next, fresh)
