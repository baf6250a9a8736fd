-- ===== src/Paper/Entry.antt =====
-- When `processTick` of internal/papertrade/engine.go opens a position.
use ai_trading_v.Prelude.{
  ◌≡◌, ◌≢◌, ◌⊎◌, refl, Bool, true, not, inl, inr, arith, List, Option, none, some, String,
}
use ai_trading_v.Float.{Float64, num, ◌⊖◌, ◌≼◌}
use ai_trading_v.Model.{Time, is_zero_time, Candle, FeatureRow}
use ai_trading_v.Gate.{Output, evaluate, on_trade_placed, on_bar}
use ai_trading_v.Gate
use ai_trading_v.Paper.{Position, running, no_trade}
use ai_trading_v.Paper.Executor.{FillResult}
use ai_trading_v.Paper.Engine.{Store, Engine, call, record_snapshot, reset_engine_day}
use ai_trading_v.Paper.Orders.{
  Signal, load_features_at, fetch_ml_prob, order_of, position_of, open_position,
}
use ai_trading_v.Paper.Tick.{
  signal_at, gate_input, base_size, sized_entry, age_position, turn_day, arrive, enter, act_on, act,
  on_row, on_candle, process_tick,
}

not_first_of : (t : Time) → not (is_zero_time t) ≡ true → t ≢ 0
not_first_of t h = ground arith

module _ {F : Type 0} ⦃f : Float64 F⦄ where
  -- What holds of the engine `e` that meets the signal, of the engine `after` that leaves the tick, and
  -- of its position.
  pub record Admitted (predict : Time → Option F) (c : Candle F) (r : FeatureRow F)
      (e after : Engine F) (p : Position F) : Type 0 where
    pub is_running : e.state ≡ running
    pub directed : (signal_at e.cfg c r).dir ≢ no_trade
    pub admitted :
        (evaluate e.gate
          (gate_input (signal_at e.cfg c r) (fetch_ml_prob e.cfg predict c.time))).decision
        ≢ Gate.no_trade
    pub sized : ¬ (base_size c r e ≼ num 0)
    pub with_signal : p.direction ≡ (signal_at e.cfg c r).dir
    pub fresh : p.bars_held ≡ 0
    pub entered_at : p.open_ts ≡ c.time
    pub paid : after.balance ≡ e.balance ⊖ p.entry_fee
    pub counted : after.gate ≡ on_trade_placed e.gate

  open_position-opens :
      (store : Store F) (c : Candle F) (r : FeatureRow F) (entry : FillResult F) (sig : Signal F)
      (out : Output F) (e : Engine F) {p : Position F}
      → e.position ≡ none
      → (open_position store c r entry sig out e).position ≡ some p
      → (p.direction ≡ sig.dir)
        × (p.bars_held ≡ 0)
        × (p.open_ts ≡ c.time)
        × ((open_position store c r entry sig out e).balance ≡ e.balance ⊖ p.entry_fee)
        × ((open_position store c r entry sig out e).gate ≡ on_trade_placed e.gate)
  unfolding open_position position_of order_of call
  open_position-opens store c r entry sig out e flat opened = ground (arith, flat, opened)

  enter-Admitted :
      (store : Store F) (predict : Time → Option F) (c : Candle F) (r : FeatureRow F) (e : Engine F)
      {p : Position F}
      → e.state ≡ running
      → (signal_at e.cfg c r).dir ≢ no_trade
      → e.position ≡ none
      → (enter store c r (signal_at e.cfg c r) (fetch_ml_prob e.cfg predict c.time) e).position
        ≡ some p
      → Admitted predict c r e
          (enter store c r (signal_at e.cfg c r) (fetch_ml_prob e.cfg predict c.time) e)
          p
  unfolding enter record_snapshot call
  enter-Admitted store predict c r e {p} state dir flat opened =
      let sig = signal_at e.cfg c r in
      let out = evaluate e.gate (gate_input sig (fetch_ml_prob e.cfg predict c.time)) in
      let entry = sized_entry c r sig out e in
      let facts = λ (q : (open_position store c r entry sig out e).position ≡ some p).
        open_position-opens store c r entry sig out e flat q in
      ground (arith, state, dir, flat, opened, facts)

  act_on-Admitted :
      (store : Store F) (predict : Time → Option F) (c : Candle F) (is_new_bar : Bool)
      (r : FeatureRow F) (e : Engine F) {p : Position F}
      → e.position ≡ none
      → (act_on store predict c is_new_bar r e none).position ≡ some p
      → (is_new_bar ≡ true) × Admitted predict c r e (act_on store predict c is_new_bar r e none) p
  unfolding act_on record_snapshot call
  act_on-Admitted store predict c is_new_bar r e {p} flat opened =
      let sig = signal_at e.cfg c r in
      let ml_prob = fetch_ml_prob e.cfg predict c.time in
      let facts =
        λ (s : e.state ≡ running) (d : sig.dir ≢ no_trade)
            (q : (enter store c r sig ml_prob e).position ≡ some p).
          enter-Admitted store predict c r e s d flat q in
      ground (arith, flat, opened, facts)

  act-Admitted :
      (store : Store F) (predict : Time → Option F) (c : Candle F) (is_new_bar : Bool)
      (r : FeatureRow F) (e : Engine F) (o : Option (Position F)) {p : Position F}
      → e.position ≡ o
      → o ≡ none
      → (act_on store predict c is_new_bar r e o).position ≡ some p
      → (is_new_bar ≡ true) × Admitted predict c r e (act_on store predict c is_new_bar r e o) p
  act-Admitted store predict c is_new_bar r e none at flat opened =
      act_on-Admitted store predict c is_new_bar r e at opened
  act-Admitted store predict c is_new_bar r e (some q) at flat opened = ground (arith, flat)

  arrive-flat :
      (store : Store F) (day_of : Time → String) (c : Candle F) (e : Engine F)
      → e.position ≡ none
      → (arrive store day_of c e).position ≡ none
  unfolding arrive turn_day age_position reset_engine_day
  arrive-flat store day_of c e flat = ground (arith, flat)

  -- What a tick that opens a position had: a new candle with its features, and all the guards passed.
  pub record Opened (store : Store F) (day_of : Time → String) (predict : Time → Option F)
      (candle : Option (Candle F)) (rows : Option (List (FeatureRow F))) (e : Engine F)
      (p : Position F) : Type 0 where
    pub c : Candle F
    pub r : FeatureRow F
    pub candle_is : candle ≡ some c
    pub loaded : load_features_at c.time rows ≡ some r
    pub not_seen : c.time ≢ e.last_bar_ts
    pub not_first : e.last_bar_ts ≢ 0
    pub guards :
        Admitted predict c r
          (arrive store day_of c e)
          (process_tick store day_of predict candle rows e)
          p

  on_row-Opened :
      (store : Store F) (predict : Time → Option F) (c : Candle F) (is_new_bar : Bool)
      (row : Option (FeatureRow F)) (e : Engine F) {p : Position F}
      → e.position ≡ none
      → (on_row store predict c is_new_bar row e).position ≡ some p
      → (r : FeatureRow F) × (row ≡ some r)
        × (is_new_bar ≡ true)
        × Admitted predict c r e (on_row store predict c is_new_bar row e) p
  unfolding on_row act record_snapshot call
  on_row-Opened store predict c is_new_bar none e flat opened = ground (arith, flat, opened)
  on_row-Opened store predict c is_new_bar (some r) e flat opened =
      let (new_bar, admitted) =
        act-Admitted store predict c is_new_bar r e e.position refl flat opened in
      (r, refl, new_bar, admitted)

  process_tick-seen :
      (store : Store F) (day_of : Time → String) (predict : Time → Option F) (c : Candle F)
      (rows : Option (List (FeatureRow F))) (e : Engine F)
      → ((c.time ≡ e.last_bar_ts) × (process_tick store day_of predict (some c) rows e ≡ e))
        ⊎ ((c.time ≢ e.last_bar_ts)
            × (process_tick store day_of predict (some c) rows e
                ≡ on_candle store day_of predict c rows e))
  unfolding process_tick
  process_tick-seen store day_of predict c rows e = ground arith

  -- A tick that starts with no position opens one only on a candle it has not seen, not on the first
  -- candle after a start, with features that are not later than the candle, while the engine runs, on a
  -- signal with a direction that the gate admits, and with a size above zero. The position then has the
  -- signal's direction, the fee has left the balance, and the gate has counted the trade.
  pub entry_guarded :
      (store : Store F) (day_of : Time → String) (predict : Time → Option F)
      (candle : Option (Candle F)) (rows : Option (List (FeatureRow F))) (e : Engine F)
      {p : Position F}
      → e.position ≡ none
      → (process_tick store day_of predict candle rows e).position ≡ some p
      → Opened store day_of predict candle rows e p
  unfolding process_tick on_candle
  entry_guarded store day_of predict none rows e flat opened = ground (arith, flat, opened)
  entry_guarded store day_of predict (some c) rows e flat opened =
      elim (process_tick-seen store day_of predict c rows e) [
        | inl (_, same) ↦ let was = rw same at opened in ground (arith, flat, was)
        | inr (not_seen, next) ↦
            let (r, loaded, new_bar, guards) =
              on_row-Opened store predict c _ (load_features_at c.time rows) _
                (arrive-flat store day_of c e flat) (rw next at opened) in
            record {
              c = c;
              r = r;
              candle_is = refl;
              loaded = loaded;
              not_seen = not_seen;
              not_first = not_first_of e.last_bar_ts new_bar;
              guards = rw next guards;
            }
      ]
