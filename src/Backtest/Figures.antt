-- ===== src/Backtest/Figures.antt =====
-- What the figures of internal/backtest/metrics.go say of the trades.
use ai_trading_v.Prelude.{
  ℕ, zero, suc, ◌+◌, ◌-◌, ◌*◌, ◌/◌, ◌≤◌, ◌<◌, ◌≡◌, arith, if◌then◌else◌, ℤ, List, [], ◌∷◌, length,
  get_elem?, All, some, String,
}
use ai_trading_v.Float.{Float64, num, ◌<?◌}
use ai_trading_v.Model.{Time, hour}
use ai_trading_v.Backtest.{Trade}
use ai_trading_v.Backtest.Days.{Span, span_step, span_loop, calc_trade_distribution}
use ai_trading_v.Backtest.Metrics.{Sums, add_trade, add_trades, no_sums, calculate_metrics}

below_days : (x : ℕ) → x < (x / (24 * hour) + 1) * (24 * hour)
below_days x = omega arith

module _ {F : Type 0} ⦃f : Float64 F⦄ where
  -- The number of trades with a positive return.
  pub gains : List (Trade F) → ℕ
  gains [] = 0
  gains (t ∷ ts) = if num 0 <? t.return_pct then suc (gains ts) else gains ts

  add_trades-counts :
      (ts : List (Trade F)) (s : Sums F)
      → ((add_trades ts s).winners ≡ s.winners + gains ts)
        × ((add_trades ts s).winners + (add_trades ts s).losers ≡ s.winners + s.losers + length ts)
  unfolding add_trades add_trade gains
  add_trades-counts [] s = ground arith
  add_trades-counts (t ∷ ts) s =
      let (gained, all) = add_trades-counts ts (add_trade t s) in ground (arith, gained, all)

module _ {F : Type 0} ⦃f : Float64 F⦄ (day_of : Time → String) where
  -- The winners are the trades with a positive return, and every other trade is a loser, one that
  -- breaks even included.
  pub winners_counted :
      (trades : List (Trade F)) (initial : F) (total_bars : ℕ) (bars_in_market : ℤ) (total_fees : F)
      → let m = calculate_metrics day_of trades initial total_bars bars_in_market total_fees in
        (m.winning_trades ≡ gains trades) × (m.winning_trades + m.losing_trades ≡ m.total_trades)
  unfolding calculate_metrics no_sums
  winners_counted trades initial total_bars bars_in_market total_fees =
      let (gained, all) = add_trades-counts trades no_sums in
      (omega (arith, gained), omega (arith, all))

module _ {F : Type 0} (day_of : Time → String) where
  -- A trade lies within a span of time.
  abbrev pub Within : Span → Trade F → Type 0
  Within s t = (s.first ≤ t.entry_time) × (t.entry_time ≤ s.last) × (t.exit_time ≤ s.last)

  span_step-Within : (t : Trade F) (s : Span) → Within (span_step day_of t s) t
  unfolding span_step
  span_step-Within t s = ground arith

  span_step-keeps : (t u : Trade F) (s : Span) → Within s u → Within (span_step day_of t s) u
  unfolding span_step
  span_step-keeps t u s h = ground (arith, h)

  span_loop-keeps :
      (ts : List (Trade F)) (u : Trade F) (s : Span) → Within s u → Within (span_loop day_of ts s) u
  unfolding span_loop
  span_loop-keeps [] u s h = h
  span_loop-keeps (t ∷ ts) u s h =
      span_loop-keeps ts u (span_step day_of t s) (span_step-keeps t u s h)

  All-Within : (ts : List (Trade F)) (s : Span) → All (Within (span_loop day_of ts s)) ts
  unfolding span_loop
  All-Within [] s = tt
  All-Within (t ∷ ts) s = (
    span_loop-keeps ts t (span_step day_of t s) (span_step-Within t s),
    All-Within ts (span_step day_of t s),
  )

  of_All :
      (P : Trade F → Type 0) (ts : List (Trade F)) (i : ℕ) {u : Trade F}
      → All P ts
      → get_elem? ts i ≡ some u
      → P u
  of_All P [] i a e = ground (arith, e)
  of_All P (t ∷ ts) zero {u} a e = let same : t ≡ u = cc in let h = a.0 in rw same at h
  of_All P (t ∷ ts) (suc i) a e = of_All P ts i a.1 e

  span_of : Trade F → List (Trade F) → Span
  span_of t ts =
      span_loop day_of (t ∷ ts) (record { days = []; first = t.entry_time; last = t.entry_time })

  -- Any trade of a run enters and leaves less than the calendar days of the metrics after the entry of
  -- any trade of the run.
  pub trades_within_days :
      (trades : List (Trade F)) (i j : ℕ) {t u : Trade F}
      → get_elem? trades i ≡ some t
      → get_elem? trades j ≡ some u
      → let days = (calc_trade_distribution day_of trades).1 in
        (t.entry_time < u.entry_time + days * (24 * hour))
        × (t.exit_time < u.entry_time + days * (24 * hour))
  unfolding calc_trade_distribution span_of
  trades_within_days [] i j at_i at_j = ground (arith, at_i)
  trades_within_days (x ∷ xs) i j {t} {u} at_i at_j =
      let s = span_of x xs in
      let all =
        All-Within (x ∷ xs) (record { days = []; first = x.entry_time; last = x.entry_time }) in
      let (_, t_in, t_out) = of_All (Within s) (x ∷ xs) i all at_i in
      let (u_first, _, _) = of_All (Within s) (x ∷ xs) j all at_j in
      let below = below_days (s.last - s.first) in (omega arith, omega arith)
