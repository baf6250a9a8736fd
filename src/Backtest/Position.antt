-- ===== src/Backtest/Position.antt =====
-- The trades and the open position of a run of internal/backtest/engine.go between two bars.
use Prim.Native.Nat.{max}
use ai_trading_v.Prelude.{
  ℕ, suc, ◌-◌, ◌≤◌, ◌<◌, ◌≡◌, ◌≢◌, ◌⊎◌, true, arith, ℤ, pos, pos_part, ◌≤ℤ◌, ◌+ℤ◌, ◌-ℤ◌, int_laws,
  [], ◌∷◌, All, All-append, Option, none, some,
}
use ai_trading_v.Float.{Float64, valid}
use ai_trading_v.Float.Laws.{Ieee}
use ai_trading_v.Float.Interval.{num-valid}
use ai_trading_v.Model.{Candle, FeatureRow}
use ai_trading_v.Backtest.{Config, Trade, still_open, close_trade}
use ai_trading_v.Backtest.Signal.{Signal}
use ai_trading_v.Backtest.Engine.{Loop, schedule, settle, exit_of, at_end}

-- The age that `check_exit` writes: one bar more than the bars since the entry.
pub age : (i entered : ℕ) → entered ≤ i → pos i -ℤ pos entered +ℤ pos 1 ≡ pos (suc i - entered)
age i entered h = omega (int_laws)

module _ {F : Type 0} ⦃f : Float64 F⦄ where
  -- A closed trade: it has an exit, was held for at least one bar and at most for the holding period
  -- (one bar, if that is shorter), and its profit is finite.
  pub record Sound (cfg : Config F) (t : Trade F) : Type 0 where
    pub closed : t.exit_reason ≢ still_open
    pub held : pos 1 ≤ℤ t.holding_bars
    pub not_longer : t.holding_bars ≤ℤ pos (max 1 (pos_part cfg.holding_bars))
    pub finite : valid t.pnl ≡ true

  -- An open position between two bars, the next of which is bar `i`: entered at an earlier bar, with
  -- its age written and short of the holding period.
  pub record Running (cfg : Config F) (i : ℕ) (entry : ℤ) (t : Trade F) : Type 0 where
    pub entered : ℕ
    pub entry_at : entry ≡ pos entered
    pub before : entered < i
    pub aged : t.holding_bars ≡ pos (i - entered)
    pub short_of : ¬ (cfg.holding_bars ≤ℤ pos (i - entered))
    pub unsettled : valid t.pnl ≡ true

  abbrev pub Open : Config F → ℕ → ℤ → Option (Trade F) → Type 0
  Open cfg i entry none = Unit {0}
  Open cfg i entry (some t) = Running cfg i entry t

  -- The same within bar `i`, where a position may just have been entered.
  abbrev pub Entered : Config F → ℕ → ℤ → Option (Trade F) → Type 0
  Entered cfg i entry none = Unit {0}
  Entered cfg i entry (some t) = Running cfg i entry t ⊎ ((entry ≡ pos i) × (valid t.pnl ≡ true))

  pub record Good (cfg : Config F) (i : ℕ) (s : Loop F) : Type 0 where
    pub sound : All (Sound cfg) s.trades
    pub running : Open cfg i s.entry_bar s.position

  pub close_trade-kept :
      (t : Trade F) (cfg : Config F)
      → ((close_trade t cfg).0.exit_reason ≡ t.exit_reason)
        × ((close_trade t cfg).0.holding_bars ≡ t.holding_bars)
  unfolding close_trade
  close_trade-kept t cfg = ground arith

  pub exit_of-closes :
      (cfg : Config F) (c : Candle F) (t : Trade F) {u : Trade F}
      → exit_of cfg c t ≡ some u
      → (u.exit_reason ≢ still_open) × (u.holding_bars ≡ t.holding_bars) × (u.pnl ≡ t.pnl)
  unfolding exit_of
  exit_of-closes cfg c t e = ground arith

  pub exit_of-stays :
      (cfg : Config F) (c : Candle F) (t : Trade F)
      → exit_of cfg c t ≡ none
      → ¬ (cfg.holding_bars ≤ℤ t.holding_bars)
  unfolding exit_of
  exit_of-stays cfg c t e = ground arith

  pub settle-Good :
      (cfg : Config F) (i : ℕ) (t : Trade F) (s : Loop F)
      → All (Sound cfg) s.trades
      → Sound cfg (close_trade t cfg).0
      → Good cfg i (settle cfg t s)
  unfolding settle
  settle-Good cfg i t s a h = record {
    sound = All-append (Sound cfg) s.trades ((close_trade t cfg).0 ∷ []) a (h, tt);
    running = tt;
  }

  pub at_end-closes :
      (cfg : Config F) (c : Candle F) (t : Trade F) → (at_end cfg c t).exit_reason ≢ still_open
  unfolding at_end
  at_end-closes cfg c t e = cc

  -- A bar number does not matter where nothing is open.
  pub flat-Good :
      (cfg : Config F) (i j : ℕ) (s : Loop F) → s.position ≡ none → Good cfg i s → Good cfg j s
  flat-Good cfg i j s e h = record { sound = h.sound; running = rw e tt }

  pub schedule-Good :
      (cfg : Config F) (i : ℕ) (r : FeatureRow F) (next : Candle F) (sig : Signal F) (s : Loop F)
      → Good cfg i s
      → Good cfg i (schedule cfg i r next sig s)
  unfolding schedule
  schedule-Good cfg i r next sig s h = record { sound = h.sound; running = h.running }

  module _ (ieee : Ieee F) where
    close_trade-finite :
        (t : Trade F) (cfg : Config F) → valid t.pnl ≡ true → valid (close_trade t cfg).0.pnl ≡ true
    unfolding close_trade
    close_trade-finite t cfg v = ground (arith, num-valid ieee 0 (omega arith))

    pub close_trade-Sound :
        (t : Trade F) (cfg : Config F)
        → t.exit_reason ≢ still_open
        → pos 1 ≤ℤ t.holding_bars
        → t.holding_bars ≤ℤ pos (max 1 (pos_part cfg.holding_bars))
        → valid t.pnl ≡ true
        → Sound cfg (close_trade t cfg).0
    close_trade-Sound t cfg e h l v =
        let (reason, held) = close_trade-kept t cfg in
        record {
          closed = rw reason e;
          held = rw held h;
          not_longer = rw held l;
          finite = close_trade-finite t cfg v;
        }
