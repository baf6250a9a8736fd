-- ===== src/Collector/Mapper.antt =====
-- internal/collector/mapper: the exchange's items as rows. An item's numbers are texts, which
-- `parse_float` reads with its error dropped; a number of milliseconds is natural.
use ai_trading_v.Prelude.{ℕ, ◌+◌, ◌*◌, String, Bool, List, get_or, map}
use ai_trading_v.Float.{Float64, ◌⊗◌}
use ai_trading_v.Model.{Time, Candle, OiRecord, FundingRate, LsRatio, Liquidation}

-- What strconv makes of a text, 0 for most that are no number.
pub record Parser (F : Type 0) : Type 0 where
  pub parse_float : String → F
  pub parse_int64 : String → ℕ

-- The nanoseconds from the start of year 1 to that of 1970.
abbrev pub unix_epoch : ℕ
unix_epoch = 62_135_596_800_000_000_000

unfoldable pub unix_milli : ℕ → Time
unix_milli ms = unix_epoch + ms * 1_000_000

pub record WsKlineData : Type 0 where
  pub start : ℕ
  pub end : ℕ
  pub interval : String
  pub open_price : String
  pub high : String
  pub low : String
  pub close : String
  pub volume : String
  pub turnover : String
  pub confirm : Bool
  pub timestamp : ℕ

pub record WsLiquidationData : Type 0 where
  pub time : ℕ
  pub sym : String
  pub side : String
  pub size : String
  pub price : String

pub record WsTickerData : Type 0 where
  pub symbol : String
  pub last_price : String
  pub index_price : String
  pub mark_price : String
  pub open_interest : String
  pub open_interest_value : String
  pub funding_rate : String
  pub next_funding_time : String
  pub volume24h : String
  pub turnover24h : String

pub record LsRatioItem : Type 0 where
  pub buy_ratio : String
  pub sell_ratio : String
  pub timestamp : String

module _ {F : Type 0} where
  unfoldable pub ws_kline_to_candle : Parser F → WsKlineData → String → String → Candle F
  ws_kline_to_candle parser item symbol timeframe = record {
    time = unix_milli item.start;
    symbol = symbol;
    timeframe = timeframe;
    open_price = parser.parse_float item.open_price;
    high = parser.parse_float item.high;
    low = parser.parse_float item.low;
    close = parser.parse_float item.close;
    volume = parser.parse_float item.volume;
  }

  -- The item is a list of texts, with at least six of them.
  unfoldable pub rest_kline_to_candle : Parser F → List String → String → String → Candle F
  rest_kline_to_candle parser item symbol timeframe = record {
    time = unix_milli (parser.parse_int64 (get_or item 0 ""));
    symbol = symbol;
    timeframe = timeframe;
    open_price = parser.parse_float (get_or item 1 "");
    high = parser.parse_float (get_or item 2 "");
    low = parser.parse_float (get_or item 3 "");
    close = parser.parse_float (get_or item 4 "");
    volume = parser.parse_float (get_or item 5 "");
  }

  unfoldable pub rest_klines_to_candles :
      Parser F → List (List String) → String → String → List (Candle F)
  rest_klines_to_candles parser items symbol timeframe =
      map (λ item. rest_kline_to_candle parser item symbol timeframe) items

  unfoldable pub rest_to_ls_ratio : Parser F → LsRatioItem → String → String → LsRatio F
  rest_to_ls_ratio parser item symbol period = record {
    time = unix_milli (parser.parse_int64 item.timestamp);
    symbol = symbol;
    period = period;
    buy_ratio = parser.parse_float item.buy_ratio;
    sell_ratio = parser.parse_float item.sell_ratio;
  }

  unfoldable pub ticker_to_oi : Parser F → WsTickerData → Time → OiRecord F
  ticker_to_oi parser item ts = record {
    time = ts;
    symbol = item.symbol;
    oi = parser.parse_float item.open_interest;
    oi_value_usd = parser.parse_float item.open_interest_value;
  }

  unfoldable pub ticker_to_funding_rate : Parser F → WsTickerData → Time → FundingRate F
  ticker_to_funding_rate parser item ts = record {
    time = ts;
    symbol = item.symbol;
    rate = parser.parse_float item.funding_rate;
    interval_h = 0;
  }

module _ {F : Type 0} ⦃f : Float64 F⦄ where
  unfoldable pub ws_all_liquidation_to_liq : Parser F → WsLiquidationData → Liquidation F
  ws_all_liquidation_to_liq parser item = record {
    time = unix_milli item.time;
    symbol = item.sym;
    side = item.side;
    size = parser.parse_float item.size;
    price = parser.parse_float item.price;
    value_usd = parser.parse_float item.price ⊗ parser.parse_float item.size;
  }
