-- ===== src/Feature/Compute.antt =====
-- internal/feature/feature.go: the feature rows of a list of candles and of the order flow at them.
use ai_trading_v.Prelude.{
  ℕ, suc, ◌==◌, ltb, Bool, false, not, ◌&&◌, ◌||◌, if◌then◌else◌, List, [], ◌∷◌, length, get_or,
  map,
}
use ai_trading_v.Float.{Float64, num, ◌=?◌, is_nan}
use ai_trading_v.Model.{Candle, FeatureRow, OrderFlowSnapshot}
use ai_trading_v.Feature.{ema, price_above_ema, rsi, atr}
use ai_trading_v.Feature.Adx.{adx}
use ai_trading_v.Feature.Market.{
  log_return, volatility, z_score, oi_delta_pct, normalized_imbalance, ls_ratio_raw,
}

-- The columns that only the candles give.
pub record Columns (F : Type 0) : Type 0 where
  pub ema20 : List F
  pub ema50 : List F
  pub ema200 : List F
  pub rsi14 : List F
  pub atr14 : List F
  pub adx14 : List F
  pub vol_ema20 : List F
  pub above20 : List ℕ
  pub above50 : List ℕ
  pub above200 : List ℕ
  pub return1 : List F
  pub return4 : List F
  pub return12 : List F
  pub volatility14 : List F
  pub volatility50 : List F

pub record FlowColumns (F : Type 0) : Type 0 where
  pub has_oi : Bool
  pub has_ls : Bool
  pub oi_delta1 : List F
  pub oi_delta4 : List F
  pub oi_delta12 : List F
  pub oi_z30 : List F
  pub funding : List F
  pub funding_z30 : List F
  pub ls_raw : List F
  pub ls_norm : List F
  pub liq_long : List F
  pub liq_short : List F
  pub liq_imb : List F

module _ {F : Type 0} ⦃f : Float64 F⦄ where
  unfoldable pub has_non_zero : List F → Bool
  has_non_zero [] = false
  has_non_zero (v ∷ vs) = not (v =? num 0) || has_non_zero vs

  -- `returnDiffs`
  unfoldable pub return_diffs : List F → List F
  return_diffs rs = map (λ r. if is_nan r then f.nan else r) rs

  unfoldable pub columns_of : List (Candle F) → Columns F
  columns_of candles =
      let closes = map (λ c. c.close) candles in
      let highs = map (λ c. c.high) candles in
      let lows = map (λ c. c.low) candles in
      let volumes = map (λ c. c.volume) candles in
      let return1 = log_return closes 1 in
      record {
        ema20 = ema closes 20;
        ema50 = ema closes 50;
        ema200 = ema closes 200;
        rsi14 = rsi closes 14;
        atr14 = atr highs lows closes 14;
        adx14 = adx highs lows closes 14;
        vol_ema20 = ema volumes 20;
        above20 = price_above_ema closes (ema closes 20);
        above50 = price_above_ema closes (ema closes 50);
        above200 = price_above_ema closes (ema closes 200);
        return1 = return1;
        return4 = log_return closes 4;
        return12 = log_return closes 12;
        volatility14 = volatility (return_diffs return1) 14;
        volatility50 = volatility (return_diffs return1) 50;
      }

  -- `rows[i]` before the order flow is filled in. An index is always in range of its column.
  unfoldable pub base_row : Columns F → ℕ → ℕ → Candle F → FeatureRow F
  base_row cols feature_set_id i c = record {
    symbol = c.symbol;
    timeframe = c.timeframe;
    ts = c.time;
    feature_set_id = feature_set_id;
    ema20 = get_or cols.ema20 i f.nan;
    ema50 = get_or cols.ema50 i f.nan;
    ema200 = get_or cols.ema200 i f.nan;
    rsi14 = get_or cols.rsi14 i f.nan;
    atr14 = get_or cols.atr14 i f.nan;
    adx14 = get_or cols.adx14 i f.nan;
    volume_ema20 = get_or cols.vol_ema20 i f.nan;
    price_above_ema20 = get_or cols.above20 i 0;
    price_above_ema50 = get_or cols.above50 i 0;
    price_above_ema200 = get_or cols.above200 i 0;
    oi_delta1_pct = num 0;
    oi_delta4_pct = num 0;
    oi_delta12_pct = num 0;
    oi_z_score30 = num 0;
    funding_rate = num 0;
    funding_z_score30 = num 0;
    ls_ratio_raw = num 0;
    ls_ratio_normalized = num 0;
    liq_long_usd = num 0;
    liq_short_usd = num 0;
    liq_imbalance = num 0;
    return1 = get_or cols.return1 i f.nan;
    return4 = get_or cols.return4 i f.nan;
    return12 = get_or cols.return12 i f.nan;
    volatility14 = get_or cols.volatility14 i f.nan;
    volatility50 = get_or cols.volatility50 i f.nan;
  }

  unfoldable pub base_rows : Columns F → ℕ → ℕ → List (Candle F) → List (FeatureRow F)
  base_rows cols id i [] = []
  base_rows cols id i (c ∷ cs) = base_row cols id i c ∷ base_rows cols id (suc i) cs

  unfoldable pub flow_columns_of : List (OrderFlowSnapshot F) → FlowColumns F
  flow_columns_of flow =
      let oi = map (λ o. o.oi) flow in
      let funding = map (λ o. o.funding_rate) flow in
      let buy = map (λ o. o.ls_buy_ratio) flow in
      let sell = map (λ o. o.ls_sell_ratio) flow in
      let liq_long = map (λ o. o.liq_long_usd) flow in
      let liq_short = map (λ o. o.liq_short_usd) flow in
      record {
        has_oi = has_non_zero oi;
        has_ls = has_non_zero buy && has_non_zero sell;
        oi_delta1 = oi_delta_pct oi 1;
        oi_delta4 = oi_delta_pct oi 4;
        oi_delta12 = oi_delta_pct oi 12;
        oi_z30 = z_score oi 30;
        funding = funding;
        funding_z30 = z_score funding 30;
        ls_raw = ls_ratio_raw buy sell;
        ls_norm = normalized_imbalance buy sell;
        liq_long = liq_long;
        liq_short = liq_short;
        liq_imb = normalized_imbalance liq_long liq_short;
      }

  unfoldable pub flow_row : FlowColumns F → ℕ → FeatureRow F → FeatureRow F
  flow_row cols i r =
      let at = λ (present : Bool) (column : List F) (old : F).
        if present then get_or column i f.nan else old in
      record r {
        oi_delta1_pct = at cols.has_oi cols.oi_delta1 r.oi_delta1_pct;
        oi_delta4_pct = at cols.has_oi cols.oi_delta4 r.oi_delta4_pct;
        oi_delta12_pct = at cols.has_oi cols.oi_delta12 r.oi_delta12_pct;
        oi_z_score30 = at cols.has_oi cols.oi_z30 r.oi_z_score30;
        funding_rate = get_or cols.funding i f.nan;
        funding_z_score30 = get_or cols.funding_z30 i f.nan;
        ls_ratio_raw = at cols.has_ls cols.ls_raw r.ls_ratio_raw;
        ls_ratio_normalized = at cols.has_ls cols.ls_norm r.ls_ratio_normalized;
        liq_long_usd = get_or cols.liq_long i f.nan;
        liq_short_usd = get_or cols.liq_short i f.nan;
        liq_imbalance = get_or cols.liq_imb i f.nan;
      }

  unfoldable pub flow_rows : FlowColumns F → ℕ → List (FeatureRow F) → List (FeatureRow F)
  flow_rows cols i [] = []
  flow_rows cols i (r ∷ rs) = flow_row cols i r ∷ flow_rows cols (suc i) rs

  -- Fewer than 200 candles give no row.
  unfoldable pub compute_features :
      List (Candle F) → List (OrderFlowSnapshot F) → ℕ → List (FeatureRow F)
  compute_features candles flow feature_set_id =
      let rows = base_rows (columns_of candles) feature_set_id 0 candles in
      if ltb (length candles) 200
      then []
      else if length flow == length candles
      then flow_rows (flow_columns_of flow) 0 rows
      else rows
