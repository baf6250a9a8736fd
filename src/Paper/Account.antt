-- ===== src/Paper/Account.antt =====
-- The account of internal/papertrade/engine.go over the ticks: cash, equity and the database's calls.
use ai_trading_v.Prelude.{
  ◌≡◌, refl, Bool, Option-cases, inl, inr, arith, List, [], ◌∷◌, Option, none, some, String,
}
use ai_trading_v.Float.{Float64}
use ai_trading_v.Model.{Time, Candle, FeatureRow}
use ai_trading_v.Gate.{evaluate}
use ai_trading_v.Paper.{EngineConfig, Position}
use ai_trading_v.Paper.Engine.{
  Store, Engine, new_engine, call, record_snapshot, settle, close_position, update_unrealized,
  reset_engine_day, recover_account, recover_state,
}
use ai_trading_v.Paper.Orders.{
  Signal, load_features_at, fetch_ml_prob, exit_of, check_exit, open_position,
}
use ai_trading_v.Paper.Tick.{
  signal_at, gate_input, sized_entry, age_position, turn_day, arrive, enter, manage, act_on, act,
  on_row, on_candle, process_tick,
}

-- One tick's answers: the candle and the feature rows.
pub record Answers (F : Type 0) : Type 0 where
  pub candle : Option (Candle F)
  pub rows : Option (List (FeatureRow F))

module _ {F : Type 0} ⦃f : Float64 F⦄ where
  unfoldable pub ticks :
      Store F → (Time → String) → (Time → Option F) → List (Answers F) → Engine F → Engine F
  ticks store day_of predict [] e = e
  ticks store day_of predict (a ∷ rest) e =
      ticks store day_of predict rest (process_tick store day_of predict a.candle a.rows e)

  -- With no position open the equity is the cash.
  abbrev pub Flat : Engine F → Type 0
  Flat e = e.position ≡ none → e.equity ≡ e.balance

  new_engine-Flat : (cfg : EngineConfig F) → Flat (new_engine cfg)
  unfolding new_engine
  new_engine-Flat cfg h = refl

  recover_state-Flat :
      (store : Store F) (today : String) (e : Engine F)
      → Flat e
      → Flat (recover_state store today e).0
  unfolding recover_state recover_account
  recover_state-Flat store today e h = ground arith

  arrive-Flat :
      (store : Store F) (day_of : Time → String) (c : Candle F) (e : Engine F)
      → Flat e
      → Flat (arrive store day_of c e)
  unfolding arrive turn_day age_position reset_engine_day call
  arrive-Flat store day_of c e h = ground arith

  manage-Flat :
      (c : Candle F) (sig : Signal F) (p : Position F) (e : Engine F)
      → e.position ≡ some p
      → Flat (manage c sig p e)
  unfolding manage check_exit close_position settle update_unrealized record_snapshot call
  manage-Flat c sig p e h = elim (Option-cases (exit_of e.cfg c sig.dir p)) [
    | inl stays ↦ ground (arith, stays)
    | inr (x, leaves) ↦ ground (arith, leaves)
  ]

  open_position-Flat :
      (store : Store F) (c : Candle F) (r : FeatureRow F) (entry : _) (sig : Signal F) (out : _)
      (e : Engine F)
      → Flat e
      → Flat (open_position store c r entry sig out e)
  unfolding open_position call
  open_position-Flat store c r entry sig out e h = ground arith

  enter-Flat :
      (store : Store F) (c : Candle F) (r : FeatureRow F) (sig : Signal F) (ml_prob : F)
      (e : Engine F)
      → Flat e
      → Flat (enter store c r sig ml_prob e)
  unfolding enter record_snapshot call
  enter-Flat store c r sig ml_prob e h =
      let out = evaluate e.gate (gate_input sig ml_prob) in
      ground (arith, h, open_position-Flat store c r (sized_entry c r sig out e) sig out e h)

  act_on-Flat :
      (store : Store F) (predict : Time → Option F) (c : Candle F) (is_new_bar : Bool)
      (r : FeatureRow F) (e : Engine F) (o : Option (Position F))
      → e.position ≡ o
      → Flat e
      → Flat (act_on store predict c is_new_bar r e o)
  unfolding act_on record_snapshot call
  act_on-Flat store predict c is_new_bar r e none flat h =
      let sig = signal_at e.cfg c r in
      ground (arith, enter-Flat store c r sig (fetch_ml_prob e.cfg predict c.time) e h)
  act_on-Flat store predict c is_new_bar r e (some p) held h =
      manage-Flat c (signal_at e.cfg c r) p e held

  act-Flat :
      (store : Store F) (predict : Time → Option F) (c : Candle F) (is_new_bar : Bool)
      (r : FeatureRow F) (e : Engine F)
      → Flat e
      → Flat (act store predict c is_new_bar r e)
  unfolding act
  act-Flat store predict c is_new_bar r e h =
      act_on-Flat store predict c is_new_bar r e e.position refl h

  on_row-Flat :
      (store : Store F) (predict : Time → Option F) (c : Candle F) (is_new_bar : Bool)
      (row : Option (FeatureRow F)) (e : Engine F)
      → Flat e
      → Flat (on_row store predict c is_new_bar row e)
  unfolding on_row record_snapshot call
  on_row-Flat store predict c is_new_bar none e h = h
  on_row-Flat store predict c is_new_bar (some r) e h = act-Flat store predict c is_new_bar r e h

  on_candle-Flat :
      (store : Store F) (day_of : Time → String) (predict : Time → Option F) (c : Candle F)
      (rows : Option (List (FeatureRow F))) (e : Engine F)
      → Flat e
      → Flat (on_candle store day_of predict c rows e)
  unfolding on_candle
  on_candle-Flat store day_of predict c rows e h =
      on_row-Flat store predict c _ (load_features_at c.time rows) _
        (arrive-Flat store day_of c e h)

  process_tick-Flat :
      (store : Store F) (day_of : Time → String) (predict : Time → Option F) (a : Answers F)
      (e : Engine F)
      → Flat e
      → Flat (process_tick store day_of predict a.candle a.rows e)
  unfolding process_tick
  process_tick-Flat store day_of predict a e h = go a.candle
    where
      go : (c : Option (Candle F)) → Flat (process_tick store day_of predict c a.rows e)
      go none = h
      go (some c) = ground (arith, h, on_candle-Flat store day_of predict c a.rows e h)

  ticks-Flat :
      (store : Store F) (day_of : Time → String) (predict : Time → Option F) (es : List (Answers F))
      (e : Engine F)
      → Flat e
      → Flat (ticks store day_of predict es e)
  unfolding ticks
  ticks-Flat store day_of predict [] e h = h
  ticks-Flat store day_of predict (a ∷ es) e h =
      ticks-Flat store day_of predict es _ (process_tick-Flat store day_of predict a e h)

  -- From a start through recovery and any ticks, whatever the database and the service answer: once no
  -- position is open, the equity is the cash balance.
  pub flat_equity :
      (cfg : EngineConfig F) (store : Store F) (day_of : Time → String) (predict : Time → Option F)
      (today : String) (answers : List (Answers F))
      → let e = ticks store day_of predict answers (recover_state store today (new_engine cfg)).0 in
        e.position ≡ none → e.equity ≡ e.balance
  flat_equity cfg store day_of predict today answers =
      ticks-Flat store day_of predict answers _
        (recover_state-Flat store today _ (new_engine-Flat cfg))
