-- ===== src/Feature/Adx.antt =====
-- internal/feature/adx.go: the average directional index. A first loop gives the directional index of
-- each bar, a second one averages it.
use ai_trading_v.Prelude.{
  ℕ, suc, ◌+◌, ◌-◌, ◌==◌, ltb, leb, not, ◌&&◌, ◌||◌, if◌then◌else◌, List, [], ◌∷◌, length,
  replicate, Option, none, some,
}
use ai_trading_v.Float.{Float64, num, ◌⊕◌, ◌⊖◌, ◌⊗◌, ◌⊘◌, ◌<?◌, ◌=?◌}
use ai_trading_v.Feature.{true_range}

-- A bar's high, low and close.
pub record Bar (F : Type 0) : Type 0 where
  pub high : F
  pub low : F
  pub close : F

-- The smoothed sums of the first loop.
pub record Smooth (F : Type 0) : Type 0 where
  pub tr : F
  pub pdm : F
  pub ndm : F

module _ {F : Type 0} ⦃f : Float64 F⦄ where
  unfoldable pub close_of : Option (Bar F) → Option F
  close_of none = none
  close_of (some b) = some b.close

  -- There is no movement at the first bar.
  unfoldable pub directional_movement : F → F → Option (Bar F) → F × F
  directional_movement h l none = (num 0, num 0)
  directional_movement h l (some prev) =
      let up_move = h ⊖ prev.high in
      let down_move = prev.low ⊖ l in
      if down_move <? up_move && num 0 <? up_move
      then (up_move, num 0)
      else if up_move <? down_move && num 0 <? down_move
      then (num 0, down_move)
      else (num 0, num 0)

  -- A sum before the period, its mean at it, smoothed after it.
  unfoldable pub adx_smooth : ℕ → ℕ → F → F → F
  adx_smooth period i acc x =
      if ltb i period
      then acc ⊕ x
      else if i == period
      then acc ⊘ num period
      else (acc ⊗ num (period - 1) ⊕ x) ⊘ num period

  unfoldable pub smooth_step : ℕ → ℕ → Bar F → Option (Bar F) → Smooth F → Smooth F
  smooth_step period i b last s =
      let (pdm, ndm) = directional_movement b.high b.low last in
      record {
        tr = adx_smooth period i s.tr (true_range b.high b.low (close_of last));
        pdm = adx_smooth period i s.pdm pdm;
        ndm = adx_smooth period i s.ndm ndm;
      }

  -- `dxValues[i]`, which stays 0 before the period.
  unfoldable pub dx_at : ℕ → ℕ → Smooth F → F
  dx_at period i s =
      let pdi = num 100 ⊗ s.pdm ⊘ s.tr in
      let ndi = num 100 ⊗ s.ndm ⊘ s.tr in
      let di_sum = pdi ⊕ ndi in
      if ltb i period
      then num 0
      else if di_sum =? num 0
      then num 0
      else num 100 ⊗ f.abs (pdi ⊖ ndi) ⊘ di_sum

  -- The three lists have one length.
  unfoldable pub dx_loop : ℕ → ℕ → Option (Bar F) → Smooth F → List F → List F → List F → List F
  dx_loop period i last s [] ls cs = []
  dx_loop period i last s (h ∷ hs) [] cs = []
  dx_loop period i last s (h ∷ hs) (l ∷ ls) [] = []
  dx_loop period i last s (h ∷ hs) (l ∷ ls) (c ∷ cs) =
      let b : Bar F = record { high = h; low = l; close = c } in
      let next = smooth_step period i b last s in
      dx_at period i next ∷ dx_loop period (suc i) (some b) next hs ls cs

  -- `result[i]` of the second loop, with `count` values already in `sum`.
  unfoldable pub adx_at : ℕ → ℕ → F → F → F → F
  adx_at period count sum prev dx =
      if ltb count period
      then (if count + 1 == period then (sum ⊕ dx) ⊘ num period else f.nan)
      else (prev ⊗ num (period - 1) ⊕ dx) ⊘ num period

  unfoldable pub adx_loop : ℕ → ℕ → ℕ → F → F → List F → List F
  adx_loop period i count sum prev [] = []
  adx_loop period i count sum prev (dx ∷ dxs) =
      let early = leb i period in
      let a = if early then f.nan else adx_at period count sum prev dx in
      let counts = not early && ltb count period in
      a
      ∷ adx_loop period (suc i) (if counts then count + 1 else count)
          (if counts then sum ⊕ dx else sum) a dxs

  unfoldable pub no_smooth : Smooth F
  no_smooth = record { tr = num 0; pdm = num 0; ndm = num 0 }

  unfoldable pub adx : List F → List F → List F → ℕ → List F
  adx high low close period =
      if period == 0
        || length high == 0
        || not (length low == length high)
        || not (length close == length high)
      then replicate (length high) f.nan
      else adx_loop period 0 0 (num 0) f.nan (dx_loop period 0 none no_smooth high low close)
