-- ===== src/Collector/Validate.antt =====
-- internal/collector/validate/validator.go. A check returns the reason of its failure; the counter of
-- failures is not modelled.
use ai_trading_v.Prelude.{not, ◌&&◌, ◌||◌, if◌then◌else◌, Option, none, some, str_eq}
use ai_trading_v.Float.{Float64, num, ◌≤?◌, ◌<?◌, is_nan}
use ai_trading_v.Model.{Candle, OiRecord, FundingRate, LsRatio, Liquidation, is_zero_time}

pub data Reason : Type 0 where
  open_not_positive : Reason
  high_not_positive : Reason
  low_not_positive : Reason
  close_not_positive : Reason
  high_lt_low : Reason
  high_lt_open : Reason
  high_lt_close : Reason
  low_gt_open : Reason
  low_gt_close : Reason
  negative_volume : Reason
  oi_not_positive : Reason
  value_not_positive : Reason
  invalid_rate : Reason
  negative_ratio : Reason
  non_positive_size : Reason
  non_positive_price : Reason
  invalid_side : Reason
  zero_timestamp : Reason

module _ {F : Type 0} ⦃f : Float64 F⦄ where
  unfoldable pub validate_candle : Candle F → Option Reason
  validate_candle c =
      if c.open_price ≤? num 0
      then some open_not_positive
      else if c.high ≤? num 0
      then some high_not_positive
      else if c.low ≤? num 0
      then some low_not_positive
      else if c.close ≤? num 0
      then some close_not_positive
      else if c.high <? c.low
      then some high_lt_low
      else if c.high <? c.open_price
      then some high_lt_open
      else if c.high <? c.close
      then some high_lt_close
      else if c.open_price <? c.low
      then some low_gt_open
      else if c.close <? c.low
      then some low_gt_close
      else if c.volume <? num 0
      then some negative_volume
      else if is_zero_time c.time
      then some zero_timestamp
      else none

  unfoldable pub validate_oi : OiRecord F → Option Reason
  validate_oi o =
      if o.oi ≤? num 0
      then some oi_not_positive
      else if o.oi_value_usd ≤? num 0
      then some value_not_positive
      else if is_zero_time o.time
      then some zero_timestamp
      else none

  unfoldable pub validate_funding : FundingRate F → Option Reason
  validate_funding r =
      if is_nan r.rate || f.is_inf r.rate
      then some invalid_rate
      else if is_zero_time r.time
      then some zero_timestamp
      else none

  unfoldable pub validate_ls_ratio : LsRatio F → Option Reason
  validate_ls_ratio l =
      if l.buy_ratio <? num 0 || l.sell_ratio <? num 0
      then some negative_ratio
      else if is_zero_time l.time
      then some zero_timestamp
      else none

  unfoldable pub validate_liquidation : Liquidation F → Option Reason
  validate_liquidation l =
      if l.size ≤? num 0
      then some non_positive_size
      else if l.price ≤? num 0
      then some non_positive_price
      else if not (str_eq l.side "Buy") && not (str_eq l.side "Sell")
      then some invalid_side
      else if is_zero_time l.time
      then some zero_timestamp
      else none
