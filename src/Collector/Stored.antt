-- ===== src/Collector/Stored.antt =====
-- What the handlers of internal/collector/stream/handlers.go have stored.
use ai_trading_v.Prelude.{
  ◌+◌, ◌≡◌, arith, String, List, [], ◌∷◌, length, All, none, Option-cases, Bool-cases, inl, inr,
}
use ai_trading_v.Float.{Float64}
use ai_trading_v.Model.{Time}
use ai_trading_v.Collector.Validate.{
  validate_candle, validate_oi, validate_funding, validate_liquidation,
}
use ai_trading_v.Collector.Mapper.{Parser, WsKlineData, WsTickerData, WsLiquidationData}
use ai_trading_v.Collector.Topics.{has_prefix, parse_kline_topic}
use ai_trading_v.Collector.Handlers.{
  Decoder, Stores, Handlers, new_handlers, take_kline, take_klines, handle_kline, take_oi,
  take_funding, handle_ticker, take_liquidation, take_liquidations, handle_liquidation,
  handle_message, handle_messages,
}

module _ {F : Type 0} ⦃f : Float64 F⦄ where
  -- Every stored row passes its check, and the counters count the rows.
  pub record Checked (h : Handlers F) : Type 0 where
    pub candles : All (λ c. validate_candle c ≡ none) h.candles
    pub open_interest : All (λ o. validate_oi o ≡ none) h.open_interest
    pub funding_rates : All (λ r. validate_funding r ≡ none) h.funding_rates
    pub liquidations : All (λ l. validate_liquidation l ≡ none) h.liquidations
    pub kline_count : h.kline_stored ≡ length h.candles
    pub oi_count : h.oi_stored ≡ length h.open_interest
    pub funding_count : h.funding_stored ≡ length h.funding_rates
    pub liq_count : h.liq_stored ≡ length h.liquidations

  take_kline-Checked :
      (parser : Parser F) (stores : Stores F) (names : String × String) (k : WsKlineData)
      (h : Handlers F)
      → Checked h
      → Checked (take_kline parser stores names k h)
  unfolding take_kline
  take_kline-Checked parser stores names k h c = ground arith

  take_oi-Checked :
      (parser : Parser F) (stores : Stores F) (t : WsTickerData) (now : Time) (h : Handlers F)
      → Checked h
      → Checked (take_oi parser stores t now h)
  unfolding take_oi
  take_oi-Checked parser stores t now h c = ground arith

  take_funding-Checked :
      (parser : Parser F) (stores : Stores F) (t : WsTickerData) (now : Time) (h : Handlers F)
      → Checked h
      → Checked (take_funding parser stores t now h)
  unfolding take_funding
  take_funding-Checked parser stores t now h c = ground arith

  take_liquidation-Checked :
      (parser : Parser F) (stores : Stores F) (l : WsLiquidationData) (h : Handlers F)
      → Checked h
      → Checked (take_liquidation parser stores l h)
  unfolding take_liquidation
  take_liquidation-Checked parser stores l h c = ground arith

  take_klines-Checked :
      (parser : Parser F) (stores : Stores F) (names : String × String) (ks : List WsKlineData)
      (h : Handlers F)
      → Checked h
      → Checked (take_klines parser stores names ks h)
  unfolding take_klines
  take_klines-Checked parser stores names [] h c = c
  take_klines-Checked parser stores names (k ∷ ks) h c =
      take_klines-Checked parser stores names ks _ (take_kline-Checked parser stores names k h c)

  take_liquidations-Checked :
      (parser : Parser F) (stores : Stores F) (ls : List WsLiquidationData) (h : Handlers F)
      → Checked h
      → Checked (take_liquidations parser stores ls h)
  unfolding take_liquidations
  take_liquidations-Checked parser stores [] h c = c
  take_liquidations-Checked parser stores (l ∷ ls) h c =
      take_liquidations-Checked parser stores ls _ (take_liquidation-Checked parser stores l h c)

  module _ {Raw : Type 0} (decoder : Decoder Raw) (parser : Parser F) (stores : Stores F) where
    handle_kline-Checked :
        (body : Raw) (topic : String) (h : Handlers F)
        → Checked h
        → Checked (handle_kline decoder parser stores body topic h)
    unfolding handle_kline
    handle_kline-Checked body topic h c = elim (Option-cases (decoder.klines body)) [
      | inl bad ↦ rw (bad, handle_kline) c
      | inr ks ↦
          rw (ks.1, handle_kline)
            (take_klines-Checked parser stores (parse_kline_topic topic) ks.0 h c)
    ]

    handle_liquidation-Checked :
        (body : Raw) (h : Handlers F)
        → Checked h
        → Checked (handle_liquidation decoder parser stores body h)
    unfolding handle_liquidation
    handle_liquidation-Checked body h c = elim (Option-cases (decoder.liquidations body)) [
      | inl bad ↦ rw (bad, handle_liquidation) c
      | inr ls ↦ rw (ls.1, handle_liquidation) (take_liquidations-Checked parser stores ls.0 h c)
    ]

    handle_ticker-Checked :
        (now : Time) (body : Raw) (h : Handlers F)
        → Checked h
        → Checked (handle_ticker decoder parser stores now body h)
    unfolding handle_ticker
    handle_ticker-Checked now body h c = elim (Option-cases (decoder.ticker body)) [
      | inl bad ↦ rw (bad, handle_ticker) (ground (arith, c))
      | inr t ↦
          rw (t.1, handle_ticker)
            (take_funding-Checked parser stores t.0 now _
              (take_oi-Checked parser stores t.0 now _ (counted h c)))
    ]
      where
        counted :
            (h : Handlers F) → Checked h → Checked (record h { ticker_count = h.ticker_count + 1 })
        counted h c = ground (arith, c)

    handle_message-Checked :
        (now : Time) (msg : Raw) (h : Handlers F)
        → Checked h
        → Checked (handle_message decoder parser stores now msg h)
    unfolding handle_message
    handle_message-Checked now msg h c = elim (Option-cases (decoder.message msg)) [
      | inl bad ↦ rw (bad, handle_message) c
      | inr m ↦
          rw (m.1, handle_message)
            (elim (Bool-cases (has_prefix m.0.topic "kline.")) [
              | inl kline ↦ rw (kline) (handle_kline-Checked m.0.body m.0.topic h c)
              | inr other ↦ rw (other) (elim (Bool-cases (has_prefix m.0.topic "tickers.")) [
                | inl ticker ↦ rw (ticker) (handle_ticker-Checked now m.0.body h c)
                | inr rest ↦ rw (rest) (elim (Bool-cases (has_prefix m.0.topic "allLiquidation.")) [
                  | inl liq ↦ rw (liq) (handle_liquidation-Checked m.0.body h c)
                  | inr none_of_them ↦ rw (none_of_them) c
                ])
              ])
            ])
    ]

    -- After any messages, every candle, open interest, funding rate and liquidation that the handlers
    -- have stored passes its check, and each counter of stored rows is the number of these rows,
    -- whatever the messages decode to and whatever the stores refuse.
    pub handle_messages-Checked :
        (ms : List (Time × Raw)) (h : Handlers F)
        → Checked h
        → Checked (handle_messages decoder parser stores ms h)
    unfolding handle_messages
    handle_messages-Checked [] h c = c
    handle_messages-Checked (m ∷ ms) h c =
        handle_messages-Checked ms _ (handle_message-Checked m.0 m.1 h c)

  pub new_handlers-Checked : Checked (new_handlers {F = F})
  unfolding new_handlers
  new_handlers-Checked = ground arith
