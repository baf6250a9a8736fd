-- ===== src/Label/Tests.antt =====
-- The labels of internal/label on concrete candles.
use ai_trading_v.Prelude.{◌≡◌, refl, List, [], ◌∷◌, get_elem?, some}
use ai_trading_v.Float.{num}
use ai_trading_v.Float.Fixed.{Fixed, fixed_float}
use ai_trading_v.Model.{Candle, LabelRow}
use ai_trading_v.Label.{compute_labels}
use ai_trading_v.Label.Future.{Right, used_threshold, compute_labels-Right}

abbrev bar : Fixed → Candle Fixed
bar close = record {
  time = 1;
  symbol = "BTCUSDT";
  timeframe = "15m";
  open_price = close;
  high = close;
  low = close;
  close = close;
  volume = num 1;
}

abbrev candles : List (Candle Fixed)
candles = bar (num 10) ∷ bar (num 10) ∷ bar (num 11) ∷ bar (num 12) ∷ bar (num 13) ∷ []

compute_labels-Right_example :
    (r : LabelRow Fixed) × (get_elem? (compute_labels candles (4 ∷ 12 ∷ 24 ∷ []) (num 1)) 0
      ≡ some r)
    × Right candles (used_threshold (num 1)) 0 (bar (num 10)) r
compute_labels-Right_example = compute_labels-Right candles (num 1) 0 refl
