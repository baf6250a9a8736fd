-- ===== src/Collector/Gaps.antt =====
-- The reports of internal/collector/recovery/detector.go.
use ai_trading_v.Prelude.{
  ℕ, ◌+◌, ◌-◌, ◌*◌, ◌/◌, ◌≤◌, ◌<◌, ◌≡◌, ◌==◌, false, ◌⊎◌, inl, inr, refl, arith, ltb, true, String,
  some, Bool-cases,
}
use ai_trading_v.Model.{Time, timeframe_duration}
use ai_trading_v.Backfill.Segments.{lt_of_ltb, le_of_ltb}
use ai_trading_v.Collector.Recovery.{GapReport, no_gap, detect_gap}

quotient : (x d : ℕ) → 0 < d → (d * (x / d) ≤ x) × (x < d * (x / d + 1))
quotient x d h = grind arith

at_least : (x d n : ℕ) → 0 < d → d * n < x → n ≤ x / d
at_least x d n h k = grind arith

-- For a timeframe with a length and a table that is not empty, detectGap reports no gap when the
-- exchange is ahead by at most the given number of bars. Where it is ahead by more, detectGap reports
-- the gap between the two times with its number of whole bars, which is at least the given number.
pub detect_gap_bars :
    (gap_bars : ℕ) (symbol tf : String) (db_latest exchange_latest : Time)
    → 0 < db_latest
    → 0 < timeframe_duration tf
    → ((detect_gap gap_bars symbol tf (some db_latest) (some exchange_latest) ≡ some no_gap)
        × (exchange_latest ≤ db_latest + timeframe_duration tf * gap_bars))
      ⊎ ((r : GapReport) × (detect_gap gap_bars symbol tf (some db_latest) (some exchange_latest)
            ≡ some r)
          × (r.has_gap ≡ true)
          × (r.gap_start ≡ db_latest)
          × (r.gap_end ≡ exchange_latest)
          × (db_latest + timeframe_duration tf * gap_bars < exchange_latest)
          × (gap_bars ≤ r.missing_bars)
          × (db_latest + timeframe_duration tf * r.missing_bars ≤ exchange_latest)
          × (exchange_latest < db_latest + timeframe_duration tf * (r.missing_bars + 1)))
unfolding detect_gap
detect_gap_bars gap_bars symbol tf db_latest exchange_latest some_rows long =
    let dur = timeframe_duration tf in
    let diff = exchange_latest - db_latest in
    let empty : (db_latest == 0) ≡ false = ground (arith, some_rows) in
    elim (Bool-cases (ltb (dur * gap_bars) diff)) [
      | inr close ↦ rw (empty, close) (inl (refl, omega (arith, le_of_ltb _ _ close)))
      | inl far ↦
          rw (empty, far)
            (let wide = lt_of_ltb _ _ far in
              let bounds = quotient diff dur long in
              inr (
                _,
                refl,
                refl,
                refl,
                refl,
                omega (arith, wide),
                at_least diff dur gap_bars long wide,
                omega (arith, wide, bounds.0),
                omega (arith, wide, bounds.1),
              ))
    ]
