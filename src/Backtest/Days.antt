-- ===== src/Backtest/Days.antt =====
-- The distribution of trades over days in internal/backtest/metrics.go. The text of a day
-- (`Format("2006-01-02")`, in the time's own zone) is a parameter. A span of time is divided by a
-- day as whole nanoseconds, where the source goes through float64 hours: on spans of whole minutes the
-- two agree, since such a span below a day boundary stays below it when it is rounded.
use ai_trading_v.Prelude.{
  ℕ, ◌+◌, ◌-◌, ◌*◌, ◌/◌, ltb, Bool, false, not, ◌||◌, if◌then◌else◌, List, [], ◌∷◌, length, String,
  str_eq,
}
use ai_trading_v.Model.{Time, hour, is_zero_time}
use ai_trading_v.Backtest.{Trade}

abbrev pub contains : String → List String → Bool
contains d [] = false
contains d (x ∷ xs) = str_eq x d || contains d xs

-- The keys of a Go map used as a set.
abbrev pub add_day : String → List String → List String
add_day d days = if contains d days then days else d ∷ days

-- The loop of `calcTradeDistribution`.
pub record Span : Type 0 where
  pub days : List String
  pub first : Time
  pub last : Time

module _ {F : Type 0} (day_of : Time → String) where
  unfoldable pub span_step : Trade F → Span → Span
  span_step t s =
      let entry = t.entry_time in
      let exit = t.exit_time in
      let first = if ltb entry s.first then entry else s.first in
      let last = if ltb s.last entry then entry else s.last in
      let days = add_day (day_of entry) s.days in
      if not (is_zero_time exit)
      then record {
        days = add_day (day_of exit) days;
        first = first;
        last = if ltb last exit then exit else last;
      }
      else record { days = days; first = first; last = last }

  unfoldable pub span_loop : List (Trade F) → Span → Span
  span_loop [] s = s
  span_loop (t ∷ ts) s = span_loop ts (span_step t s)

  -- Trading days and calendar days.
  unfoldable pub calc_trade_distribution : List (Trade F) → ℕ × ℕ
  unfolding span_loop span_step
  calc_trade_distribution [] = (0, 0)
  calc_trade_distribution (t ∷ ts) =
      let s =
        span_loop (t ∷ ts) (record { days = []; first = t.entry_time; last = t.entry_time }) in
      (length s.days, (s.last - s.first) / (24 * hour) + 1)
