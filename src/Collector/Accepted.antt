-- ===== src/Collector/Accepted.antt =====
-- Which candles internal/collector/validate/validator.go accepts.
use ai_trading_v.Prelude.{◌≡◌, ◌↔◌, arith, false, none, ◌<◌}
use ai_trading_v.Float.{Float64, num, ◌≤?◌, ◌<?◌, ◌≼◌, ◌≺◌}
use ai_trading_v.Float.Laws.{Ieee}
use ai_trading_v.Model.{Candle}
use ai_trading_v.Collector.Validate.{validate_candle}

module _ {F : Type 0} ⦃f : Float64 F⦄ where
  -- A candle of the market: positive prices between the low and the high, a volume that is not
  -- negative, and a time.
  pub record WellFormed (c : Candle F) : Type 0 where
    pub low_positive : num 0 ≺ c.low
    pub low_le_open : c.low ≼ c.open_price
    pub low_le_close : c.low ≼ c.close
    pub open_le_high : c.open_price ≼ c.high
    pub close_le_high : c.close ≼ c.high
    pub volume_nonneg : num 0 ≼ c.volume
    pub timed : 0 < c.time

  -- No field is NaN.
  pub record IsNumbers (c : Candle F) : Type 0 where
    pub open_price : c.open_price ≼ c.open_price
    pub high : c.high ≼ c.high
    pub low : c.low ≼ c.low
    pub close : c.close ≼ c.close
    pub volume : c.volume ≼ c.volume

  tests_fail :
      (c : Candle F)
      → validate_candle c ≡ none
      → ((c.open_price ≤? num 0) ≡ false)
        × ((c.high ≤? num 0) ≡ false)
        × ((c.low ≤? num 0) ≡ false)
        × ((c.close ≤? num 0) ≡ false)
        × ((c.high <? c.low) ≡ false)
        × ((c.high <? c.open_price) ≡ false)
        × ((c.high <? c.close) ≡ false)
        × ((c.open_price <? c.low) ≡ false)
        × ((c.close <? c.low) ≡ false)
        × ((c.volume <? num 0) ≡ false)
        × (0 < c.time)
  unfolding validate_candle
  tests_fail c h = ground (arith, h)

  -- Of two numbers, one that does not lie below the other lies above it.
  le_of_not_lt : Ieee F → (x y : F) → x ≼ x → y ≼ y → (x <? y) ≡ false → y ≼ x
  le_of_not_lt laws x y hx hy h = ground (arith, h, laws.le_total x y hx hy)

  lt_of_not_le : Ieee F → (x y : F) → x ≼ x → y ≼ y → (x ≤? y) ≡ false → y ≺ x
  lt_of_not_le laws x y hx hy h = ground (arith, h, laws.le_total x y hx hy)

  not_le_of_lt : Ieee F → (x y z : F) → x ≺ y → y ≼ z → (z ≤? x) ≡ false
  not_le_of_lt laws x y z h k = ground (arith, h, k, laws.le_trans y z x)

  not_lt_of_le : (x y : F) → y ≼ x → (x <? y) ≡ false
  not_lt_of_le x y h = ground (arith, h)

  accepted-WellFormed :
      (laws : Ieee F) (c : Candle F) → IsNumbers c → validate_candle c ≡ none → WellFormed c
  accepted-WellFormed laws c n h =
      let t = tests_fail c h in
      let zero_num : num {F = F} 0 ≼ num 0 = laws.lit_mono 0 0 (omega arith) in
      record {
        low_positive = lt_of_not_le laws c.low (num 0) n.low zero_num t.2;
        low_le_open = le_of_not_lt laws c.open_price c.low n.open_price n.low t.7;
        low_le_close = le_of_not_lt laws c.close c.low n.close n.low t.8;
        open_le_high = le_of_not_lt laws c.high c.open_price n.high n.open_price t.5;
        close_le_high = le_of_not_lt laws c.high c.close n.high n.close t.6;
        volume_nonneg = le_of_not_lt laws c.volume (num 0) n.volume zero_num t.9;
        timed = t.10;
      }

  WellFormed-accepted : (laws : Ieee F) (c : Candle F) → WellFormed c → validate_candle c ≡ none
  unfolding validate_candle
  WellFormed-accepted laws c w =
      let at_high : c.low ≼ c.high =
        laws.le_trans c.low c.open_price c.high w.low_le_open w.open_le_high in
      let open_ok = not_le_of_lt laws (num 0) c.low c.open_price w.low_positive w.low_le_open in
      let high_ok = not_le_of_lt laws (num 0) c.low c.high w.low_positive at_high in
      let low_ok =
        not_le_of_lt laws (num 0) c.low c.low w.low_positive
          (laws.refl_of_le c.low c.high at_high).0 in
      let close_ok = not_le_of_lt laws (num 0) c.low c.close w.low_positive w.low_le_close in
      rw
        (
          open_ok,
          high_ok,
          low_ok,
          close_ok,
          not_lt_of_le c.high c.low at_high,
          not_lt_of_le c.high c.open_price w.open_le_high,
          not_lt_of_le c.high c.close w.close_le_high,
          not_lt_of_le c.open_price c.low w.low_le_open,
          not_lt_of_le c.close c.low w.low_le_close,
          not_lt_of_le c.volume (num 0) w.volume_nonneg,
        )
        (ground (arith, w.timed))

  -- Of the candles without a NaN, ValidateCandle accepts exactly the well-formed ones: positive prices,
  -- open and close between low and high, no negative volume, and a time.
  pub validate_candle_iff :
      (laws : Ieee F) (c : Candle F) → IsNumbers c → (validate_candle c ≡ none) ↔ WellFormed c
  validate_candle_iff laws c n = (accepted-WellFormed laws c n, WellFormed-accepted laws c)
