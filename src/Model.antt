-- ===== src/Model.antt =====
-- internal/model: the rows that the collector, the feature engine and the engines exchange.
-- A time is the number of nanoseconds since the start of year 1, Go's zero time.
use ai_trading_v.Prelude.{ℕ, ◌*◌, Bool, if◌then◌else◌, ◌==◌, String, str_eq}

abbrev pub Time : Type 0
Time = ℕ

abbrev pub is_zero_time : Time → Bool
is_zero_time t = t == 0

-- time.Minute and time.Hour, in nanoseconds.
abbrev pub minute : ℕ
minute = 60_000_000_000

abbrev pub hour : ℕ
hour = 3_600_000_000_000

pub record Candle (F : Type 0) : Type 0 where
  pub time : Time
  pub symbol : String
  pub timeframe : String
  pub open_price : F
  pub high : F
  pub low : F
  pub close : F
  pub volume : F

pub record FeatureRow (F : Type 0) : Type 0 where
  pub symbol : String
  pub timeframe : String
  pub ts : Time
  pub feature_set_id : ℕ
  pub ema20 : F
  pub ema50 : F
  pub ema200 : F
  pub rsi14 : F
  pub atr14 : F
  pub adx14 : F
  pub volume_ema20 : F
  pub price_above_ema20 : ℕ
  pub price_above_ema50 : ℕ
  pub price_above_ema200 : ℕ
  pub oi_delta1_pct : F
  pub oi_delta4_pct : F
  pub oi_delta12_pct : F
  pub oi_z_score30 : F
  pub funding_rate : F
  pub funding_z_score30 : F
  pub ls_ratio_raw : F
  pub ls_ratio_normalized : F
  pub liq_long_usd : F
  pub liq_short_usd : F
  pub liq_imbalance : F
  pub return1 : F
  pub return4 : F
  pub return12 : F
  pub volatility14 : F
  pub volatility50 : F

pub record OrderFlowSnapshot (F : Type 0) : Type 0 where
  pub ts : Time
  pub oi : F
  pub funding_rate : F
  pub ls_buy_ratio : F
  pub ls_sell_ratio : F
  pub liq_long_usd : F
  pub liq_short_usd : F

pub record LabelRow (F : Type 0) : Type 0 where
  pub symbol : String
  pub timeframe : String
  pub ts : Time
  pub future_return4 : F
  pub future_return12 : F
  pub future_return24 : F
  pub success4 : ℕ
  pub success12 : ℕ
  pub success24 : ℕ

pub record OiRecord (F : Type 0) : Type 0 where
  pub time : Time
  pub symbol : String
  pub oi : F
  pub oi_value_usd : F

pub record FundingRate (F : Type 0) : Type 0 where
  pub time : Time
  pub symbol : String
  pub rate : F
  pub interval_h : ℕ

pub record LsRatio (F : Type 0) : Type 0 where
  pub time : Time
  pub symbol : String
  pub period : String
  pub buy_ratio : F
  pub sell_ratio : F

pub record Liquidation (F : Type 0) : Type 0 where
  pub time : Time
  pub symbol : String
  pub side : String
  pub size : F
  pub price : F
  pub value_usd : F

unfoldable pub bybit_interval : String → String
bybit_interval t = if str_eq t "15m" then "15" else if str_eq t "1h" then "60" else t

unfoldable pub timeframe_duration : String → ℕ
timeframe_duration t = if str_eq t "15m" then 15 * minute else if str_eq t "1h" then hour else 0
