-- ===== src/Collector/Handlers.antt =====
-- internal/collector/stream/handlers.go: what a message of the websocket stores. JSON texts have a type
-- of their own, and what they decode to is a parameter.
use ai_trading_v.Prelude.{
  ℕ, ◌+◌, Bool, not, if◌then◌else◌, String, List, [], ◌∷◌, Option, none, some,
}
use ai_trading_v.Float.{Float64}
use ai_trading_v.Model.{Time, Candle, OiRecord, FundingRate, Liquidation}
use ai_trading_v.Collector.Validate.{
  validate_candle, validate_oi, validate_funding, validate_liquidation,
}
use ai_trading_v.Collector.Mapper.{
  Parser, WsKlineData, WsTickerData, WsLiquidationData, ws_kline_to_candle, ticker_to_oi,
  ticker_to_funding_rate, ws_all_liquidation_to_liq,
}
use ai_trading_v.Collector.Topics.{has_prefix, parse_kline_topic}

pub record WsMessage (Raw : Type 0) : Type 0 where
  pub topic : String
  pub kind : String
  pub body : Raw
  pub success : Option Bool
  pub ret_msg : String
  pub op : String

-- json.Unmarshal at the types of the handlers, `none` for its error.
pub record Decoder (Raw : Type 0) : Type 0 where
  pub message : Raw → Option (WsMessage Raw)
  pub klines : Raw → Option (List WsKlineData)
  pub ticker : Raw → Option WsTickerData
  pub liquidations : Raw → Option (List WsLiquidationData)

-- Which rows the stores take.
pub record Stores (F : Type 0) : Type 0 where
  pub insert_candle : Candle F → Bool
  pub insert_open_interest : OiRecord F → Bool
  pub insert_funding_rate : FundingRate F → Bool
  pub insert_liquidation : Liquidation F → Bool

-- The counters, and the rows stored so far.
pub record Handlers (F : Type 0) : Type 0 where
  pub kline_stored : ℕ
  pub ticker_count : ℕ
  pub oi_stored : ℕ
  pub funding_stored : ℕ
  pub liq_stored : ℕ
  pub err_count : ℕ
  pub candles : List (Candle F)
  pub open_interest : List (OiRecord F)
  pub funding_rates : List (FundingRate F)
  pub liquidations : List (Liquidation F)

unfoldable pub new_handlers : {F : Type 0} → Handlers F
new_handlers = record {
  kline_stored = 0;
  ticker_count = 0;
  oi_stored = 0;
  funding_stored = 0;
  liq_stored = 0;
  err_count = 0;
  candles = [];
  open_interest = [];
  funding_rates = [];
  liquidations = [];
}

module _ {F : Type 0} ⦃f : Float64 F⦄ where
  -- One round of the loop of handleKline.
  unfoldable pub take_kline :
      Parser F → Stores F → String × String → WsKlineData → Handlers F → Handlers F
  take_kline parser stores names k h =
      let candle : Candle F = ws_kline_to_candle parser k names.0 names.1 in
      if not k.confirm then h else (elim (validate_candle candle) [
        | some reason ↦ h
        | none ↦
            if stores.insert_candle candle
            then record h { kline_stored = h.kline_stored + 1; candles = candle ∷ h.candles }
            else record h { err_count = h.err_count + 1 }
      ])

  unfoldable pub take_klines :
      Parser F → Stores F → String × String → List WsKlineData → Handlers F → Handlers F
  take_klines parser stores names [] h = h
  take_klines parser stores names (k ∷ ks) h =
      take_klines parser stores names ks (take_kline parser stores names k h)

  unfoldable pub handle_kline :
      {Raw : Type 0} → Decoder Raw → Parser F → Stores F → Raw → String → Handlers F → Handlers F
  handle_kline decoder parser stores body topic h = elim (decoder.klines body) [
    | none ↦ h
    | some klines ↦ take_klines parser stores (parse_kline_topic topic) klines h
  ]

  unfoldable pub take_oi : Parser F → Stores F → WsTickerData → Time → Handlers F → Handlers F
  take_oi parser stores ticker now h =
      let oi : OiRecord F = ticker_to_oi parser ticker now in
      elim (validate_oi oi) [
        | some reason ↦ h
        | none ↦
            if stores.insert_open_interest oi
            then record h { oi_stored = h.oi_stored + 1; open_interest = oi ∷ h.open_interest }
            else h
      ]

  unfoldable pub take_funding : Parser F → Stores F → WsTickerData → Time → Handlers F → Handlers F
  take_funding parser stores ticker now h =
      let fr : FundingRate F = ticker_to_funding_rate parser ticker now in
      elim (validate_funding fr) [
        | some reason ↦ h
        | none ↦
            if stores.insert_funding_rate fr
            then record h {
              funding_stored = h.funding_stored + 1;
              funding_rates = fr ∷ h.funding_rates;
            }
            else h
      ]

  unfoldable pub handle_ticker :
      {Raw : Type 0} → Decoder Raw → Parser F → Stores F → Time → Raw → Handlers F → Handlers F
  handle_ticker decoder parser stores now body h = elim (decoder.ticker body) [
    | none ↦ record h { err_count = h.err_count + 1 }
    | some ticker ↦
        take_funding parser stores ticker now
          (take_oi parser stores ticker now (record h { ticker_count = h.ticker_count + 1 }))
  ]

  -- One round of the loop of handleLiquidation.
  unfoldable pub take_liquidation :
      Parser F → Stores F → WsLiquidationData → Handlers F → Handlers F
  take_liquidation parser stores item h =
      let l : Liquidation F = ws_all_liquidation_to_liq parser item in
      elim (validate_liquidation l) [
        | some reason ↦ h
        | none ↦
            if stores.insert_liquidation l
            then record h { liq_stored = h.liq_stored + 1; liquidations = l ∷ h.liquidations }
            else record h { err_count = h.err_count + 1 }
      ]

  unfoldable pub take_liquidations :
      Parser F → Stores F → List WsLiquidationData → Handlers F → Handlers F
  take_liquidations parser stores [] h = h
  take_liquidations parser stores (item ∷ items) h =
      take_liquidations parser stores items (take_liquidation parser stores item h)

  unfoldable pub handle_liquidation :
      {Raw : Type 0} → Decoder Raw → Parser F → Stores F → Raw → Handlers F → Handlers F
  handle_liquidation decoder parser stores body h = elim (decoder.liquidations body) [
    | none ↦ h
    | some items ↦ take_liquidations parser stores items h
  ]

  -- `now` is the time of the clock while the message is handled.
  unfoldable pub handle_message :
      {Raw : Type 0} → Decoder Raw → Parser F → Stores F → Time → Raw → Handlers F → Handlers F
  handle_message decoder parser stores now msg h = elim (decoder.message msg) [
    | none ↦ h
    | some raw ↦
        if has_prefix raw.topic "kline."
        then handle_kline decoder parser stores raw.body raw.topic h
        else if has_prefix raw.topic "tickers."
        then handle_ticker decoder parser stores now raw.body h
        else if has_prefix raw.topic "allLiquidation."
        then handle_liquidation decoder parser stores raw.body h
        else h
  ]

  -- The messages of a connection, each with the time of its handling.
  unfoldable pub handle_messages :
      {Raw : Type 0}
      → Decoder Raw
      → Parser F
      → Stores F
      → List (Time × Raw)
      → Handlers F
      → Handlers F
  handle_messages decoder parser stores [] h = h
  handle_messages decoder parser stores (m ∷ ms) h =
      handle_messages decoder parser stores ms (handle_message decoder parser stores m.0 m.1 h)
