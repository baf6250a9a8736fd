-- ===== src/Collector/Tests.antt =====
-- The collector on concrete messages and answers.
use ai_trading_v.Prelude.{
  ℕ, ◌+◌, ◌-◌, ◌*◌, ◌≡◌, ◌↔◌, refl, true, false, String, List, [], ◌∷◌, map, take, none, some,
}
use Prim.Native.Char.{code}
use ai_trading_v.Float.{num}
use ai_trading_v.Float.Fixed.{Fixed, fixed_float, fixed-Ieee, not_a_number}
use ai_trading_v.Model.{Time, Candle}
use ai_trading_v.Collector.Validate.{validate_candle, validate_oi, validate_funding}
use ai_trading_v.Collector.Accepted.{WellFormed, validate_candle_iff}
use ai_trading_v.Collector.Mapper.{
  Parser, ws_kline_to_candle, WsTickerData, WsKlineData, unix_milli, ticker_to_oi,
  ticker_to_funding_rate,
}
use ai_trading_v.Collector.Handlers.{
  Decoder, Stores, new_handlers, take_funding, take_oi, handle_ticker, handle_message,
  handle_messages, take_klines, take_kline, handle_kline,
}
use ai_trading_v.Collector.Stored.{Checked, new_handlers-Checked, handle_messages-Checked}
use ai_trading_v.Collector.Topics.{
  split, prepend, kline_interval_to_tf, lacks, has_prefix, parse_kline_topic, build_topics,
  parse_kline_topic-build_topics,
}

abbrev fair : Candle Fixed
fair = record {
  time = 1;
  symbol = "BTCUSDT";
  timeframe = "15m";
  open_price = num 10;
  high = num 12;
  low = num 9;
  close = num 11;
  volume = num 5;
}

validate_candle_iff_example : (validate_candle fair ≡ none) ↔ WellFormed fair
validate_candle_iff_example =
    validate_candle_iff fixed-Ieee fair
      (record { open_price = refl; high = refl; low = refl; close = refl; volume = refl })

-- Prices that are NaN pass every comparison.
nan_accepted :
    validate_candle (record fair {
      open_price = not_a_number;
      high = not_a_number;
      low = not_a_number;
      close = not_a_number;
    })
    ≡ none
unfolding validate_candle
nan_accepted = refl

parse_kline_topic-build_topics_example :
    (map parse_kline_topic (take 2 (build_topics ("BTCUSDT" ∷ [])))
      ≡ ("BTCUSDT", "15m") ∷ ("BTCUSDT", "1h") ∷ [])
    × (map (λ t. has_prefix t "kline.") (build_topics ("BTCUSDT" ∷ []))
        ≡ true ∷ true ∷ false ∷ false ∷ [])
unfolding lacks
parse_kline_topic-build_topics_example = parse_kline_topic-build_topics "BTCUSDT" refl

-- Numbers as whole texts.
abbrev digits : ℕ → String → ℕ
digits n String.[] = n
digits n (String.◌∷◌ c s) = digits (n * 10 + (code c - 48)) s

abbrev parser : Parser Fixed
parser = record { parse_float = λ s. num (digits 0 s); parse_int64 = λ s. digits 0 s }

abbrev willing : Stores Fixed
willing = record {
  insert_candle = λ c. true;
  insert_open_interest = λ o. true;
  insert_funding_rate = λ r. true;
  insert_liquidation = λ l. true;
}

abbrev ticker : WsTickerData
ticker = record {
  symbol = "BTCUSDT";
  last_price = "11";
  index_price = "11";
  mark_price = "11";
  open_interest = "7";
  open_interest_value = "70";
  funding_rate = "";
  next_funding_time = "";
  volume24h = "";
  turnover24h = "";
}

abbrev kline : WsKlineData
kline = record {
  start = 5;
  end = 6;
  interval = "15";
  open_price = "10";
  high = "12";
  low = "9";
  close = "11";
  volume = "5";
  turnover = "55";
  confirm = true;
  timestamp = 6;
}

-- A message is its topic.
abbrev decoder : Decoder String
decoder = record {
  message = λ s.
      some
        (record { topic = s; kind = "snapshot"; body = s; success = none; ret_msg = ""; op = "" });
  klines = λ s. some (kline ∷ []);
  ticker = λ s. some ticker;
  liquidations = λ s. none;
}

abbrev messages : List (Time × String)
messages = (3, "tickers.BTCUSDT") ∷ (4, "kline.15.BTCUSDT") ∷ []

-- A ticker without a funding rate stores the rate 0.
blank_rate_stored :
    map (λ r. r.rate) (handle_messages decoder parser willing messages new_handlers).funding_rates
    ≡ num 0 ∷ []
unfolding handle_messages handle_message handle_ticker take_oi take_funding new_handlers has_prefix
    validate_funding ticker_to_funding_rate ticker_to_oi validate_oi handle_kline take_klines
    take_kline validate_candle ws_kline_to_candle unix_milli parse_kline_topic split prepend
    kline_interval_to_tf
blank_rate_stored = refl

handle_messages-Checked_example :
    Checked (handle_messages decoder parser willing messages new_handlers)
handle_messages-Checked_example =
    handle_messages-Checked decoder parser willing messages new_handlers new_handlers-Checked
