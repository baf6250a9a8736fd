-- ===== src/Feature/Tests.antt =====
-- The averages of internal/feature on concrete bars.
use ai_trading_v.Prelude.{ℕ, zero, suc, ◌+◌, arith, ◌≡◌, refl, List, [], ◌∷◌, take}
use ai_trading_v.Float.{lit, num, ◌≼◌}
use ai_trading_v.Float.Fixed.{Fixed, fixed_float, fixed-Ieee, not_a_number}
use ai_trading_v.Feature.{
  ema, ema_loop, ema_at, rsi, rsi_from, rsi_loop, rsi_at, rsi_gain, rsi_loss, rsi_smooth,
  compute_rsi, atr, atr_loop, atr_at, true_range,
}
use ai_trading_v.Feature.Market.{imbalance, imbalance_loop, normalized_imbalance}
use ai_trading_v.Feature.Rsi.{rsi_range}
use ai_trading_v.Model.{Candle}
use ai_trading_v.Feature.Compute.{compute_features}
use ai_trading_v.Feature.NoLookAhead.{compute_features-take}

abbrev closes : List Fixed
closes = num 10 ∷ num 12 ∷ num 11 ∷ num 14 ∷ []

abbrev highs : List Fixed
highs = num 11 ∷ num 13 ∷ num 13 ∷ num 15 ∷ []

abbrev lows : List Fixed
lows = num 9 ∷ num 11 ∷ num 10 ∷ num 12 ∷ []

ema_values : ema closes 3 ≡ not_a_number ∷ not_a_number ∷ not_a_number ∷ lit 12_500_000 ∷ []
unfolding ema ema_loop ema_at
ema_values = refl

rsi_values : rsi closes 2 ≡ not_a_number ∷ not_a_number ∷ lit 66_666_667 ∷ lit 88_888_889 ∷ []
unfolding rsi rsi_from rsi_loop rsi_at rsi_gain rsi_loss rsi_smooth compute_rsi
rsi_values = refl

atr_values :
    atr highs lows closes 2 ≡ not_a_number ∷ not_a_number ∷ lit 2_500_000 ∷ lit 3_250_000 ∷ []
unfolding atr atr_loop atr_at true_range
atr_values = refl

abbrev gain : Fixed
gain = num 3

abbrev loss : Fixed
loss = num 2

rsi_range_example : (num 0 ≼ compute_rsi gain loss) × (compute_rsi gain loss ≼ num 100)
rsi_range_example = rsi_range fixed-Ieee gain loss refl refl refl

abbrev longs : List Fixed
longs = num 0 ∷ num 30 ∷ []

abbrev shorts : List Fixed
shorts = num 0 ∷ num 10 ∷ []

imbalances : normalized_imbalance longs shorts ≡ num 0 ∷ lit 500_000 ∷ []
unfolding normalized_imbalance imbalance_loop imbalance
imbalances = refl

abbrev bar : ℕ → Candle Fixed
bar t = record {
  time = t;
  symbol = "BTCUSDT";
  timeframe = "15m";
  open_price = num 10;
  high = num 11;
  low = num 9;
  close = num 10;
  volume = num 1;
}

-- `n` bars from the time `t` on.
abbrev bars : ℕ → ℕ → List (Candle Fixed)
bars zero t = []
bars (suc n) t = bar t ∷ bars n (t + 1)

compute_features-take_example :
    take 150 (compute_features (bars 203 1) [] 1) ≡ take 150 (compute_features (bars 201 1) [] 1)
compute_features-take_example =
    compute_features-take 150 1 (bars 203 1) (bars 201 1) (omega arith) (omega arith) (omega arith)
      (omega arith) refl
