-- ===== src/Label.antt =====
-- internal/label/label.go: the training labels of a list of candles. A horizon is a natural number.
use ai_trading_v.Prelude.{ℕ, suc, ◌+◌, ◌==◌, leb, if◌then◌else◌, List, [], ◌∷◌, length, get_or, map}
use ai_trading_v.Float.{Float64, lit, num, ◌⊖◌, ◌⊗◌, ◌⊘◌, ◌≤?◌, ◌<?◌}
use ai_trading_v.Model.{Candle, LabelRow}
pub mod Future
mod Tests

module _ {F : Type 0} ⦃f : Float64 F⦄ where
  -- The switch on the horizon.
  unfoldable pub set_label : ℕ → F → ℕ → LabelRow F → LabelRow F
  set_label h ret success r =
      if h == 4
      then record r { future_return4 = ret; success4 = success }
      else if h == 12
      then record r { future_return12 = ret; success12 = success }
      else if h == 24
      then record r { future_return24 = ret; success24 = success }
      else r

  unfoldable pub future_return : List F → ℕ → ℕ → F
  future_return closes i h =
      (get_or closes (i + h) f.nan ⊖ get_or closes i f.nan) ⊘ get_or closes i f.nan ⊗ num 100

  -- One round of the loop over the horizons.
  unfoldable pub label_horizon : List F → F → ℕ → ℕ → LabelRow F → LabelRow F
  label_horizon closes threshold i h r =
      let ret = future_return closes i h in
      if leb (length closes) (i + h)
      then r
      else set_label h ret (if threshold <? ret then 1 else 0) r

  unfoldable pub label_horizons : List F → F → ℕ → List ℕ → LabelRow F → LabelRow F
  label_horizons closes threshold i [] r = r
  label_horizons closes threshold i (h ∷ hs) r =
      label_horizons closes threshold i hs (label_horizon closes threshold i h r)

  unfoldable pub blank_label : Candle F → LabelRow F
  blank_label c = record {
    symbol = c.symbol;
    timeframe = c.timeframe;
    ts = c.time;
    future_return4 = num 0;
    future_return12 = num 0;
    future_return24 = num 0;
    success4 = 0;
    success12 = 0;
    success24 = 0;
  }

  unfoldable pub label_rows : List F → F → List ℕ → ℕ → List (Candle F) → List (LabelRow F)
  label_rows closes threshold horizons i [] = []
  label_rows closes threshold horizons i (c ∷ cs) =
      label_horizons closes threshold i horizons (blank_label c)
      ∷ label_rows closes threshold horizons (suc i) cs

  unfoldable pub compute_labels : List (Candle F) → List ℕ → F → List (LabelRow F)
  compute_labels candles horizons success_threshold_pct =
      let threshold =
        if success_threshold_pct ≤? num 0 then lit 250_000 else success_threshold_pct in
      label_rows (map (λ c. c.close) candles) threshold horizons 0 candles
