-- ===== src/Backtest/Metrics.antt =====
-- internal/backtest/metrics.go: the figures of a finished run.
use ai_trading_v.Prelude.{
  ℕ, suc, ◌+◌, ◌-◌, ltb, ◌==◌, if◌then◌else◌, ℤ, pos, negsuc, ◌+ℤ◌, List, [], ◌∷◌, length, String,
}
use ai_trading_v.Float.{Float64, num, minus, ◌⊕◌, ◌⊖◌, ◌⊗◌, ◌⊘◌, ◌<?◌}
use ai_trading_v.Model.{Time}
use ai_trading_v.Backtest.{Trade}
use ai_trading_v.Backtest.Days.{calc_trade_distribution}

pub record Metrics (F : Type 0) : Type 0 where
  pub total_trades : ℕ
  pub winning_trades : ℕ
  pub losing_trades : ℕ
  pub win_rate : F
  pub profit_factor : F
  pub net_pnl : F
  pub total_fees_paid : F
  pub sharpe_ratio : F
  pub sortino_ratio : F
  pub max_drawdown_pct : F
  pub expectancy : F
  pub avg_return_pct : F
  pub avg_winner_pct : F
  pub avg_loser_pct : F
  pub largest_winner_pct : F
  pub largest_loser_pct : F
  pub avg_holding_bars : F
  pub exposure_pct : F
  pub total_bars : ℕ
  pub trading_days : ℕ
  pub calendar_days : ℕ
  pub trades_per_month : F
  pub trades_per_year : F

-- The sums of the loop over the trades.
pub record Sums (F : Type 0) : Type 0 where
  pub winners : ℕ
  pub losers : ℕ
  pub gross_profit : F
  pub gross_loss : F
  pub return_sum : F
  pub winner_sum : F
  pub loser_sum : F
  pub largest_winner : F
  pub largest_loser : F
  pub holding_sum : ℤ
  pub pnl_sum : F

pub record Drawdown (F : Type 0) : Type 0 where
  pub cumulative : F
  pub peak : F
  pub max_dd : F

module _ {F : Type 0} ⦃f : Float64 F⦄ where
  -- float64 of an int.
  abbrev pub of_int : ℤ → F
  of_int (pos n) = num n
  of_int (negsuc n) = minus (num (suc n))

  sum_from : F → List F → F
  sum_from acc [] = acc
  sum_from acc (v ∷ vs) = sum_from (acc ⊕ v) vs

  unfoldable pub mean : List F → F
  unfolding sum_from
  mean [] = num 0
  mean (v ∷ vs) = sum_from (num 0) (v ∷ vs) ⊘ num (length (v ∷ vs))

  squares_from : F → F → List F → F
  squares_from m acc [] = acc
  squares_from m acc (v ∷ vs) = squares_from m (acc ⊕ (v ⊖ m) ⊗ (v ⊖ m)) vs

  unfoldable pub std_dev : List F → F → F
  unfolding squares_from
  std_dev vals m =
      if ltb (length vals) 2
      then num 0
      else f.sqrt (squares_from m (num 0) vals ⊘ num (length vals - 1))

  unfoldable pub add_trade : Trade F → Sums F → Sums F
  add_trade t s =
      let r = t.return_pct in
      let common = record s {
        return_sum = s.return_sum ⊕ r;
        holding_sum = s.holding_sum +ℤ t.holding_bars;
        pnl_sum = s.pnl_sum ⊕ t.pnl;
      } in
      if num 0 <? r
      then record common {
        winners = s.winners + 1;
        gross_profit = s.gross_profit ⊕ r;
        winner_sum = s.winner_sum ⊕ r;
        largest_winner = if s.largest_winner <? r then r else s.largest_winner;
      }
      else record common {
        losers = s.losers + 1;
        gross_loss = s.gross_loss ⊕ f.abs r;
        loser_sum = s.loser_sum ⊕ r;
        largest_loser = if r <? s.largest_loser then r else s.largest_loser;
      }

  unfoldable pub add_trades : List (Trade F) → Sums F → Sums F
  add_trades [] s = s
  add_trades (t ∷ ts) s = add_trades ts (add_trade t s)

  unfoldable pub no_sums : Sums F
  no_sums = record {
    winners = 0;
    losers = 0;
    gross_profit = num 0;
    gross_loss = num 0;
    return_sum = num 0;
    winner_sum = num 0;
    loser_sum = num 0;
    largest_winner = num 0;
    largest_loser = num 0;
    holding_sum = pos 0;
    pnl_sum = num 0;
  }

  -- One trade of `calcMaxDrawdown`.
  unfoldable pub drawdown_step : F → Trade F → Drawdown F → Drawdown F
  drawdown_step initial t s =
      let cumulative = s.cumulative ⊕ t.pnl in
      let equity = initial ⊕ cumulative in
      let peak = if s.peak <? equity then equity else s.peak in
      let dd = (peak ⊖ equity) ⊘ peak in
      record {
        cumulative = cumulative;
        peak = peak;
        max_dd = if num 0 <? peak then (if s.max_dd <? dd then dd else s.max_dd) else s.max_dd;
      }

  unfoldable pub drawdown_loop : F → List (Trade F) → Drawdown F → Drawdown F
  drawdown_loop initial [] s = s
  drawdown_loop initial (t ∷ ts) s = drawdown_loop initial ts (drawdown_step initial t s)

  unfoldable pub calc_max_drawdown : List (Trade F) → F → F
  unfolding drawdown_loop drawdown_step
  calc_max_drawdown [] initial = num 0
  calc_max_drawdown (t ∷ ts) initial =
      (drawdown_loop initial (t ∷ ts)
        (record { cumulative = num 0; peak = initial; max_dd = num 0 })).max_dd
      ⊗ num 100

  abbrev pub returns_of : List (Trade F) → List F
  returns_of [] = []
  returns_of (t ∷ ts) = t.return_pct ∷ returns_of ts

  downside_of : List F → List F
  downside_of [] = []
  downside_of (r ∷ rs) = if r <? num 0 then r ∷ downside_of rs else downside_of rs

  unfoldable pub sharpe : List F → F
  sharpe returns =
      let m = mean returns in
      let std = std_dev returns m in
      if ltb 1 (length returns)
      then (if num 0 <? std then m ⊘ std ⊗ f.sqrt (num 35_040) else num 0)
      else num 0

  unfoldable pub sortino : List F → F
  unfolding downside_of
  sortino returns =
      let m = mean returns in
      let std = std_dev returns m in
      let downside = downside_of returns in
      let downside_std = std_dev downside (mean downside) in
      if ltb 1 (length returns)
      then (if num 0 <? std
          then (if ltb 0 (length downside)
              then (if num 0 <? downside_std then m ⊘ downside_std ⊗ f.sqrt (num 35_040) else num 0)
              else num 0)
          else num 0)
      else num 0

module _ {F : Type 0} ⦃f : Float64 F⦄ (day_of : Time → String) where
  unfoldable pub calculate_metrics : List (Trade F) → F → ℕ → ℤ → F → Metrics F
  unfolding add_trades add_trade no_sums calc_max_drawdown
  calculate_metrics trades initial total_bars bars_in_market total_fees =
      let n = length trades in
      let s = add_trades trades no_sums in
      let (trading_days, calendar_days) = calc_trade_distribution day_of trades in
      let months = num calendar_days ⊘ num 30 in
      let empty = n == 0 in
      let share =
        λ (count : ℕ) (total : F). if ltb 0 count then total ⊘ num count ⊗ num 100 else num 0 in
      let largest = λ (count : ℕ) (x : F). if ltb 0 count then x ⊗ num 100 else num 0 in
      record {
        total_trades = n;
        winning_trades = s.winners;
        losing_trades = s.losers;
        win_rate = if empty then num 0 else num s.winners ⊘ num n ⊗ num 100;
        profit_factor = if num 0 <? s.gross_loss then s.gross_profit ⊘ s.gross_loss else num 0;
        net_pnl = s.pnl_sum;
        total_fees_paid = total_fees;
        sharpe_ratio = sharpe (returns_of trades);
        sortino_ratio = sortino (returns_of trades);
        max_drawdown_pct = calc_max_drawdown trades initial;
        expectancy = if empty then num 0 else s.pnl_sum ⊘ num n;
        avg_return_pct = if empty then num 0 else s.return_sum ⊘ num n ⊗ num 100;
        avg_winner_pct = share s.winners s.winner_sum;
        avg_loser_pct = share s.losers s.loser_sum;
        largest_winner_pct = largest s.winners s.largest_winner;
        largest_loser_pct = largest s.losers s.largest_loser;
        avg_holding_bars = if empty then num 0 else of_int s.holding_sum ⊘ num n;
        exposure_pct =
            if empty
            then num 0
            else if ltb 0 total_bars
            then of_int bars_in_market ⊘ num total_bars ⊗ num 100
            else num 0;
        total_bars = if empty then 0 else total_bars;
        trading_days = trading_days;
        calendar_days = calendar_days;
        trades_per_month = if empty then num 0 else num n ⊘ months;
        trades_per_year = if empty then num 0 else num n ⊘ months ⊗ num 12;
      }
