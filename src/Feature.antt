-- ===== src/Feature.antt =====
-- internal/feature/ema.go, rsi.go and atr.go: the averages that the agents read, as loops over the
-- bars. A period is a natural number; a negative one is refused like zero.
pub mod Causal
pub mod Rsi
pub mod Adx
pub mod Windows
pub mod NoLookAhead
pub mod Compute
pub mod Market
pub mod Flow
mod Tests
use ai_trading_v.Prelude.{
  ℕ, suc, ◌+◌, ◌-◌, ◌==◌, ltb, not, ◌||◌, if◌then◌else◌, List, [], ◌∷◌, length, replicate, Option,
  none, some,
}
use ai_trading_v.Float.{Float64, num, minus, ◌⊕◌, ◌⊖◌, ◌⊗◌, ◌⊘◌, ◌<?◌, ◌=?◌, is_nan, fmax}

module _ {F : Type 0} ⦃f : Float64 F⦄ where
  -- `result[i]` of `EMA`, from the sum of the first values and the result before it.
  unfoldable pub ema_at : ℕ → ℕ → F → F → F → F → F
  ema_at period i alpha sum prev v =
      if ltb i period
      then f.nan
      else if i == period
      then alpha ⊗ v ⊕ (num 1 ⊖ alpha) ⊗ (sum ⊘ num period)
      else alpha ⊗ v ⊕ (num 1 ⊖ alpha) ⊗ prev

  unfoldable pub ema_loop : ℕ → ℕ → F → F → F → List F → List F
  ema_loop period i alpha sum prev [] = []
  ema_loop period i alpha sum prev (v ∷ vs) =
      let e = ema_at period i alpha sum prev v in
      e ∷ ema_loop period (suc i) alpha (if ltb i period then sum ⊕ v else sum) e vs

  unfoldable pub ema : List F → ℕ → List F
  ema values period =
      if period == 0 then [] else ema_loop period 0 (num 2 ⊘ num (period + 1)) (num 0) f.nan values

  pub above : F → F → ℕ
  above close e = if is_nan e then 0 else if e <? close then 1 else 0

  unfoldable pub above_loop : List F → List F → List ℕ
  above_loop [] es = []
  above_loop (c ∷ cs) [] = []
  above_loop (c ∷ cs) (e ∷ es) = above c e ∷ above_loop cs es

  unfoldable pub price_above_ema : List F → List F → List ℕ
  price_above_ema closes es = if length closes == length es then above_loop closes es else []

  unfoldable pub compute_rsi : F → F → F
  compute_rsi avg_gain avg_loss =
      if avg_loss =? num 0
      then (if avg_gain =? num 0 then num 50 else num 100)
      else num 100 ⊖ num 100 ⊘ (num 1 ⊕ avg_gain ⊘ avg_loss)

  -- The next average gain or loss: a sum before the period, its mean at it, smoothed after it.
  unfoldable pub rsi_smooth : ℕ → ℕ → F → F → F
  rsi_smooth period i avg x =
      if ltb i period
      then avg ⊕ x
      else if i == period
      then (avg ⊕ x) ⊘ num period
      else (avg ⊗ num (period - 1) ⊕ x) ⊘ num period

  unfoldable pub rsi_gain : ℕ → ℕ → F → F → F → F
  rsi_gain period i prev avg c = rsi_smooth period i avg (fmax (c ⊖ prev) (num 0))

  unfoldable pub rsi_loss : ℕ → ℕ → F → F → F → F
  rsi_loss period i prev avg c = rsi_smooth period i avg (fmax (minus (c ⊖ prev)) (num 0))

  unfoldable pub rsi_at : ℕ → ℕ → F → F → F
  rsi_at period i gain loss = if ltb i period then f.nan else compute_rsi gain loss

  unfoldable pub rsi_loop : ℕ → ℕ → F → F → F → List F → List F
  rsi_loop period i prev avg_gain avg_loss [] = []
  rsi_loop period i prev avg_gain avg_loss (c ∷ cs) =
      let gain = rsi_gain period i prev avg_gain c in
      let loss = rsi_loss period i prev avg_loss c in
      rsi_at period i gain loss ∷ rsi_loop period (suc i) c gain loss cs

  unfoldable pub rsi_from : ℕ → List F → List F
  rsi_from period [] = []
  rsi_from period (c ∷ cs) = f.nan ∷ rsi_loop period 1 c (num 0) (num 0) cs

  unfoldable pub rsi : List F → ℕ → List F
  unfolding rsi_from
  rsi closes period =
      if period == 0 || ltb (length closes) (period + 1)
      then replicate (length closes) f.nan
      else rsi_from period closes

  -- The close before the bar is absent at the first bar.
  unfoldable pub true_range : F → F → Option F → F
  true_range h l none = h ⊖ l
  true_range h l (some prev) = fmax (h ⊖ l) (fmax (f.abs (h ⊖ prev)) (f.abs (l ⊖ prev)))

  unfoldable pub atr_at : ℕ → ℕ → F → F → F → F
  atr_at period i sum prev tr =
      if ltb i period
      then f.nan
      else if i == period
      then sum ⊘ num period
      else (prev ⊗ num (period - 1) ⊕ tr) ⊘ num period

  -- The three lists have one length.
  unfoldable pub atr_loop : ℕ → ℕ → Option F → F → F → List F → List F → List F → List F
  atr_loop period i last sum prev [] ls cs = []
  atr_loop period i last sum prev (h ∷ hs) [] cs = []
  atr_loop period i last sum prev (h ∷ hs) (l ∷ ls) [] = []
  atr_loop period i last sum prev (h ∷ hs) (l ∷ ls) (c ∷ cs) =
      let tr = true_range h l last in
      let a = atr_at period i sum prev tr in
      a ∷ atr_loop period (suc i) (some c) (if ltb i period then sum ⊕ tr else sum) a hs ls cs

  unfoldable pub atr : List F → List F → List F → ℕ → List F
  atr high low close period =
      if period == 0
        || length high == 0
        || not (length low == length high)
        || not (length close == length high)
      then replicate (length high) f.nan
      else atr_loop period 0 none (num 0) f.nan high low close
