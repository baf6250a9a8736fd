-- ===== src/Feature/NoLookAhead.antt =====
-- The feature rows of internal/feature/feature.go read no later candle.
use ai_trading_v.Prelude.{
  ℕ, zero, suc, ◌+◌, ◌≤◌, ◌<◌, ◌≡◌, refl, sym, ap, ◌∙◌, arith, if◌then◌else◌, List, [], ◌∷◌, length,
  take, map, length-map,
}
use ai_trading_v.Float.{Float64, num, ◌⊘◌, is_nan}
use ai_trading_v.Model.{Candle}
use ai_trading_v.Feature.{ema_loop, ema, above, above_loop, price_above_ema, rsi}
use ai_trading_v.Feature.Market.{log_return, volatility}
use ai_trading_v.Feature.Causal.{ema-take, rsi-take, atr-take, length-take-eq}
use ai_trading_v.Feature.Windows.{
  take-map, get_or-take, length-take_bound, adx-take, log_return-take, volatility-take,
}
use ai_trading_v.Feature.Compute.{
  Columns, return_diffs, columns_of, base_row, base_rows, compute_features,
}

module _ {F : Type 0} ⦃f : Float64 F⦄ where
  above_loop-take :
      (k : ℕ) (cs es : List F) → take k (above_loop cs es) ≡ above_loop (take k cs) (take k es)
  unfolding above_loop
  above_loop-take zero cs es = refl
  above_loop-take (suc k) [] es = refl
  above_loop-take (suc k) (c ∷ cs) [] = refl
  above_loop-take (suc k) (c ∷ cs) (e ∷ es) = ap (λ r. above c e ∷ r) (above_loop-take k cs es)

  price_above_ema-take :
      (k : ℕ) (cs es : List F)
      → length cs ≡ length es
      → take k (price_above_ema cs es) ≡ price_above_ema (take k cs) (take k es)
  unfolding price_above_ema
  price_above_ema-take k cs es h =
      let short = length-take-eq k cs es h in ground (arith, h, short, above_loop-take k cs es)

  length-ema_loop :
      (period i : ℕ) (alpha sum prev : F) (vs : List F)
      → length (ema_loop period i alpha sum prev vs) ≡ length vs
  unfolding ema_loop
  length-ema_loop period i alpha sum prev [] = refl
  length-ema_loop period i alpha sum prev (v ∷ vs) =
      ap suc (length-ema_loop period (suc i) alpha _ _ vs)

  length-ema : (period : ℕ) (vs : List F) → 0 < period → length (ema vs period) ≡ length vs
  unfolding ema
  length-ema period vs h =
      ground (arith, h, length-ema_loop period 0 (num 2 ⊘ num (period + 1)) (num 0) f.nan vs)

  ema_above-take :
      (k period : ℕ) (cs : List F)
      → 0 < period
      → take k (price_above_ema cs (ema cs period))
        ≡ price_above_ema (take k cs) (ema (take k cs) period)
  ema_above-take k period cs h =
      price_above_ema-take k cs (ema cs period) (sym (length-ema period cs h))
      ∙ ap (price_above_ema (take k cs)) (ema-take k period cs)

  -- The columns on the first candles.
  pub record Prefix (k : ℕ) (a b : Columns F) : Type 0 where
    pub ema20 : take k a.ema20 ≡ b.ema20
    pub ema50 : take k a.ema50 ≡ b.ema50
    pub ema200 : take k a.ema200 ≡ b.ema200
    pub rsi14 : take k a.rsi14 ≡ b.rsi14
    pub atr14 : take k a.atr14 ≡ b.atr14
    pub adx14 : take k a.adx14 ≡ b.adx14
    pub vol_ema20 : take k a.vol_ema20 ≡ b.vol_ema20
    pub above20 : take k a.above20 ≡ b.above20
    pub above50 : take k a.above50 ≡ b.above50
    pub above200 : take k a.above200 ≡ b.above200
    pub return1 : take k a.return1 ≡ b.return1
    pub return4 : take k a.return4 ≡ b.return4
    pub return12 : take k a.return12 ≡ b.return12
    pub volatility14 : take k a.volatility14 ≡ b.volatility14
    pub volatility50 : take k a.volatility50 ≡ b.volatility50

  base_row-take :
      (k id i : ℕ) (a b : Columns F) (c : Candle F)
      → Prefix k a b
      → i < k
      → base_row a id i c ≡ base_row b id i c
  unfolding base_row
  base_row-take k id i a b c h lt =
      rw
        (
          ← h.ema20,
          ← h.ema50,
          ← h.ema200,
          ← h.rsi14,
          ← h.atr14,
          ← h.adx14,
          ← h.vol_ema20,
          ← h.above20,
          ← h.above50,
          ← h.above200,
          ← h.return1,
          ← h.return4,
          ← h.return12,
          ← h.volatility14,
          ← h.volatility50,
        )
        (rw
          (
            get_or-take k i a.ema20 f.nan lt,
            get_or-take k i a.ema50 f.nan lt,
            get_or-take k i a.ema200 f.nan lt,
            get_or-take k i a.rsi14 f.nan lt,
            get_or-take k i a.atr14 f.nan lt,
            get_or-take k i a.adx14 f.nan lt,
            get_or-take k i a.vol_ema20 f.nan lt,
            get_or-take k i a.above20 0 lt,
            get_or-take k i a.above50 0 lt,
            get_or-take k i a.above200 0 lt,
            get_or-take k i a.return1 f.nan lt,
            get_or-take k i a.return4 f.nan lt,
            get_or-take k i a.return12 f.nan lt,
            get_or-take k i a.volatility14 f.nan lt,
            get_or-take k i a.volatility50 f.nan lt,
          )
          refl)

  base_rows-take :
      (k id i : ℕ) (a : Columns F) (cs : List (Candle F))
      → take k (base_rows a id i cs) ≡ base_rows a id i (take k cs)
  unfolding base_rows
  base_rows-take zero id i a cs = refl
  base_rows-take (suc k) id i a [] = refl
  base_rows-take (suc k) id i a (c ∷ cs) =
      ap (λ r. base_row a id i c ∷ r) (base_rows-take k id (suc i) a cs)

  base_rows-agree :
      (k id i : ℕ) (a b : Columns F) (cs : List (Candle F))
      → Prefix k a b
      → i + length cs ≤ k
      → base_rows a id i cs ≡ base_rows b id i cs
  unfolding base_rows
  base_rows-agree k id i a b [] h le = refl
  base_rows-agree k id i a b (c ∷ cs) h le =
      rw (base_row-take k id i a b c h (omega arith))
        (ap (λ r. base_row b id i c ∷ r) (base_rows-agree k id (suc i) a b cs h (omega arith)))

  -- The returns as they are handed to the volatility.
  diffs_of : List (Candle F) → List F
  diffs_of candles = return_diffs (log_return (map (λ c. c.close) candles) 1)

  diffs-take : (k : ℕ) (cs : List (Candle F)) → take k (diffs_of cs) ≡ diffs_of (take k cs)
  unfolding diffs_of return_diffs
  diffs-take k cs =
      take-map k (λ r. if is_nan r then f.nan else r) (log_return (map (λ c. c.close) cs) 1)
      ∙ ap return_diffs (
          log_return-take k 1 (map (λ c. c.close) cs)
          ∙ ap (λ v. log_return v 1) (take-map k (λ c. c.close) cs))

  columns_of-Prefix :
      (k : ℕ) (cs : List (Candle F)) → Prefix k (columns_of cs) (columns_of (take k cs))
  unfolding columns_of diffs_of
  columns_of-Prefix k cs =
      let close = map (λ (c : Candle F). c.close) cs in
      let high = map (λ (c : Candle F). c.high) cs in
      let low = map (λ (c : Candle F). c.low) cs in
      let volume = map (λ (c : Candle F). c.volume) cs in
      let on_close = take-map k (λ (c : Candle F). c.close) cs in
      let on_high = take-map k (λ (c : Candle F). c.high) cs in
      let on_low = take-map k (λ (c : Candle F). c.low) cs in
      let on_volume = take-map k (λ (c : Candle F). c.volume) cs in
      let same_low = length-map cs (λ c. c.low) ∙ sym (length-map cs (λ c. c.high)) in
      let same_close = length-map cs (λ c. c.close) ∙ sym (length-map cs (λ c. c.high)) in
      record {
        ema20 = ema-take k 20 close ∙ ap (λ v. ema v 20) on_close;
        ema50 = ema-take k 50 close ∙ ap (λ v. ema v 50) on_close;
        ema200 = ema-take k 200 close ∙ ap (λ v. ema v 200) on_close;
        rsi14 = rsi-take k 14 close ∙ ap (λ v. rsi v 14) on_close;
        atr14 =
            atr-take k 14 high low close same_low same_close ∙ rw (on_high, on_low, on_close) refl;
        adx14 =
            adx-take k 14 high low close same_low same_close ∙ rw (on_high, on_low, on_close) refl;
        vol_ema20 = ema-take k 20 volume ∙ ap (λ v. ema v 20) on_volume;
        above20 =
            ema_above-take k 20 close (omega arith)
            ∙ ap (λ v. price_above_ema v (ema v 20)) on_close;
        above50 =
            ema_above-take k 50 close (omega arith)
            ∙ ap (λ v. price_above_ema v (ema v 50)) on_close;
        above200 =
            ema_above-take k 200 close (omega arith)
            ∙ ap (λ v. price_above_ema v (ema v 200)) on_close;
        return1 = log_return-take k 1 close ∙ ap (λ v. log_return v 1) on_close;
        return4 = log_return-take k 4 close ∙ ap (λ v. log_return v 4) on_close;
        return12 = log_return-take k 12 close ∙ ap (λ v. log_return v 12) on_close;
        volatility14 =
            volatility-take k 14 (diffs_of cs) (omega arith)
            ∙ ap (λ v. volatility v 14) (diffs-take k cs);
        volatility50 =
            volatility-take k 50 (diffs_of cs) (omega arith)
            ∙ ap (λ v. volatility v 50) (diffs-take k cs);
      }

  rows-plain :
      (id : ℕ) (cs : List (Candle F))
      → 200 ≤ length cs
      → compute_features cs [] id ≡ base_rows (columns_of cs) id 0 cs
  unfolding compute_features
  rows-plain id cs h = ground (arith, h)

  first_rows :
      (k id : ℕ) (cs : List (Candle F))
      → k ≤ length cs
      → 200 ≤ length cs
      → take k (compute_features cs [] id) ≡ base_rows (columns_of (take k cs)) id 0 (take k cs)
  first_rows k id cs high enough =
      let whole = base_rows-take k id 0 (columns_of cs) cs in
      let agree =
        base_rows-agree k id 0 (columns_of cs) (columns_of (take k cs)) (take k cs)
          (columns_of-Prefix k cs) (omega (arith, length-take_bound k cs)) in
      rw (rows-plain id cs enough) (whole ∙ agree)

  -- Without order flow, two histories of at least 200 candles that have the first `k` candles in common
  -- have the first `k` feature rows in common, for every `k`: no row reads a candle after its own, the
  -- rows of the warm-up included.
  pub compute_features-take :
      (k id : ℕ) (candles others : List (Candle F))
      → 200 ≤ length candles
      → 200 ≤ length others
      → k ≤ length candles
      → k ≤ length others
      → take k candles ≡ take k others
      → take k (compute_features candles [] id) ≡ take k (compute_features others [] id)
  compute_features-take k id candles others enough enough' high high' same =
      first_rows k id candles high enough
      ∙ ap (λ cs. base_rows (columns_of cs) id 0 cs) same
      ∙ sym (first_rows k id others high' enough')
