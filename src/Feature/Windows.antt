-- ===== src/Feature/Windows.antt =====
-- The index of internal/feature/adx.go and the windows of internal/feature/market.go on the first bars
-- alone.
use ai_trading_v.Prelude.{
  ℕ, zero, suc, ◌+◌, ◌-◌, ◌≤◌, ◌<◌, ◌≡◌, refl, sym, ap, ◌∙◌, arith, Bool-cases, inl, inr, ltb, leb,
  if◌then◌else◌, List, [], ◌∷◌, length, take, drop, get_or, map, Option, none, some,
}
use ai_trading_v.Float.{Float64, num}
use ai_trading_v.Feature.Causal.{take-replicate, length-take-eq}
use ai_trading_v.Feature.Adx.{
  Bar, Smooth, smooth_step, dx_at, dx_loop, adx_at, adx_loop, no_smooth, adx,
}
use ai_trading_v.Feature.Market.{
  log_return_at, log_return_loop, log_return, std_dev, window_at, volatility_loop, volatility,
}

module _ {A : Type 0} where
  pub length-take_bound : (k : ℕ) (xs : List A) → length (take k xs) ≤ k
  length-take_bound zero xs = omega arith
  length-take_bound (suc k) [] = omega arith
  length-take_bound (suc k) (x ∷ xs) = omega (arith, length-take_bound k xs)

  pub get_or-take : (n j : ℕ) (xs : List A) (d : A) → j < n → get_or (take n xs) j d ≡ get_or xs j d
  get_or-take zero j xs d h = absurd (omega arith)
  get_or-take (suc n) j [] d h = refl
  get_or-take (suc n) zero (x ∷ xs) d h = refl
  get_or-take (suc n) (suc j) (x ∷ xs) d h = get_or-take n j xs d (omega arith)

  pub take-take : (w n : ℕ) (xs : List A) → w ≤ n → take w (take n xs) ≡ take w xs
  take-take zero n xs h = refl
  take-take (suc w) zero xs h = absurd (omega arith)
  take-take (suc w) (suc n) [] h = refl
  take-take (suc w) (suc n) (x ∷ xs) h = ap (λ r. x ∷ r) (take-take w n xs (omega arith))

  pub take-drop-take :
      (w m n : ℕ) (xs : List A) → m + w ≤ n → take w (drop m (take n xs)) ≡ take w (drop m xs)
  take-drop-take w zero n xs h = take-take w n xs (omega arith)
  take-drop-take w (suc m) zero xs h = absurd (omega arith)
  take-drop-take w (suc m) (suc n) [] h = refl
  take-drop-take w (suc m) (suc n) (x ∷ xs) h = take-drop-take w m n xs (omega arith)

  pub take-map :
      {B : Type 0} (k : ℕ) (g : A → B) (xs : List A) → take k (map g xs) ≡ map g (take k xs)
  take-map zero g xs = refl
  take-map (suc k) g [] = refl
  take-map (suc k) g (x ∷ xs) = ap (λ r. g x ∷ r) (take-map k g xs)

module _ {F : Type 0} ⦃f : Float64 F⦄ where
  dx_loop-take :
      (k period i : ℕ) (last : Option (Bar F)) (s : Smooth F) (hs ls cs : List F)
      → take k (dx_loop period i last s hs ls cs)
        ≡ dx_loop period i last s (take k hs) (take k ls) (take k cs)
  unfolding dx_loop
  dx_loop-take zero period i last s hs ls cs = refl
  dx_loop-take (suc k) period i last s [] ls cs = refl
  dx_loop-take (suc k) period i last s (h ∷ hs) [] cs = refl
  dx_loop-take (suc k) period i last s (h ∷ hs) (l ∷ ls) [] = refl
  dx_loop-take (suc k) period i last s (h ∷ hs) (l ∷ ls) (c ∷ cs) =
      let b : Bar F = record { high = h; low = l; close = c } in
      let next = smooth_step period i b last s in
      ap (λ r. dx_at period i next ∷ r) (dx_loop-take k period (suc i) (some b) next hs ls cs)

  adx_loop-take :
      (k period i count : ℕ) (sum prev : F) (dxs : List F)
      → take k (adx_loop period i count sum prev dxs)
        ≡ adx_loop period i count sum prev (take k dxs)
  unfolding adx_loop
  adx_loop-take zero period i count sum prev dxs = refl
  adx_loop-take (suc k) period i count sum prev [] = refl
  adx_loop-take (suc k) period i count sum prev (dx ∷ dxs) =
      let a = if leb i period then f.nan else adx_at period count sum prev dx in
      ap (λ r. a ∷ r) (adx_loop-take k period (suc i) _ _ a dxs)

  adx-plain :
      (period : ℕ) (hs ls cs : List F)
      → 0 < period
      → length ls ≡ length hs
      → length cs ≡ length hs
      → adx hs ls cs period
        ≡ adx_loop period 0 0 (num 0) f.nan (dx_loop period 0 none no_smooth hs ls cs)
  unfolding adx adx_loop dx_loop
  adx-plain period [] ls cs p l c = ground (arith, p, l, c)
  adx-plain period (h ∷ hs) ls cs p l c = ground (arith, p, l, c)

  pub adx-take :
      (k period : ℕ) (hs ls cs : List F)
      → length ls ≡ length hs
      → length cs ≡ length hs
      → take k (adx hs ls cs period) ≡ adx (take k hs) (take k ls) (take k cs) period
  unfolding adx
  adx-take k zero hs ls cs l c = take-replicate k (length hs) f.nan hs refl
  adx-take k (suc period) hs ls cs l c =
      rw
        (
          adx-plain (suc period) hs ls cs (omega arith) l c,
          adx-plain (suc period) (take k hs) (take k ls) (take k cs) (omega arith)
              (length-take-eq k ls hs l) (length-take-eq k cs hs c),
        )
        (adx_loop-take k (suc period) 0 0 (num 0) f.nan
            (dx_loop (suc period) 0 none no_smooth hs ls cs)
          ∙ ap (adx_loop (suc period) 0 0 (num 0) f.nan)
              (dx_loop-take k (suc period) 0 none no_smooth hs ls cs))

  log_return_loop-take :
      (k : ℕ) (all : List F) (periods i : ℕ) (cs : List F)
      → take k (log_return_loop all periods i cs) ≡ log_return_loop all periods i (take k cs)
  unfolding log_return_loop
  log_return_loop-take zero all periods i cs = refl
  log_return_loop-take (suc k) all periods i [] = refl
  log_return_loop-take (suc k) all periods i (c ∷ cs) =
      ap (λ r. log_return_at all periods i c ∷ r) (log_return_loop-take k all periods (suc i) cs)

  log_return_at-agree :
      (n : ℕ) (all : List F) (periods i : ℕ) (c : F)
      → i < n
      → log_return_at (take n all) periods i c ≡ log_return_at all periods i c
  unfolding log_return_at
  log_return_at-agree n all periods i c h =
      rw (get_or-take n (i - periods) all f.nan (omega arith)) refl

  log_return_loop-agree :
      (n : ℕ) (all : List F) (periods i : ℕ) (cs : List F)
      → i + length cs ≤ n
      → log_return_loop (take n all) periods i cs ≡ log_return_loop all periods i cs
  unfolding log_return_loop
  log_return_loop-agree n all periods i [] h = refl
  log_return_loop-agree n all periods i (c ∷ cs) h =
      rw (log_return_at-agree n all periods i c (omega arith)) (
        ap (λ r. log_return_at all periods i c ∷ r)
          (log_return_loop-agree n all periods (suc i) cs (omega arith)))

  log_return-plain :
      (closes : List F) (periods : ℕ)
      → log_return closes (suc periods) ≡ log_return_loop closes (suc periods) 0 closes
  unfolding log_return log_return_loop
  log_return-plain [] periods = ground arith
  log_return-plain (c ∷ cs) periods = ground arith

  pub log_return-take :
      (k periods : ℕ) (closes : List F)
      → take k (log_return closes periods) ≡ log_return (take k closes) periods
  unfolding log_return
  log_return-take k zero closes = take-replicate k (length closes) f.nan closes refl
  log_return-take k (suc periods) closes =
      rw (log_return-plain closes periods, log_return-plain (take k closes) periods)
        (log_return_loop-take k closes (suc periods) 0 closes
          ∙ sym (
              log_return_loop-agree k closes (suc periods) 0 (take k closes)
                (omega (arith, length-take_bound k closes))))

  volatility_at : List F → ℕ → ℕ → F
  volatility_at all window i =
      if ltb i (window - 1) then f.nan else std_dev (window_at all window i)

  volatility_loop-take :
      (k : ℕ) (all : List F) (window i : ℕ) (rs : List F)
      → take k (volatility_loop all window i rs) ≡ volatility_loop all window i (take k rs)
  unfolding volatility_loop
  volatility_loop-take zero all window i rs = refl
  volatility_loop-take (suc k) all window i [] = refl
  volatility_loop-take (suc k) all window i (r ∷ rs) =
      ap (λ v. (if ltb i (window - 1) then f.nan else std_dev (window_at all window i)) ∷ v)
        (volatility_loop-take k all window (suc i) rs)

  volatility_at-agree :
      (n : ℕ) (all : List F) (window i : ℕ)
      → i < n
      → volatility_at (take n all) window i ≡ volatility_at all window i
  unfolding volatility_at
  volatility_at-agree n all window i h = elim (Bool-cases (ltb i (window - 1))) [
    | inl early ↦ rw early refl
    | inr late ↦ rw (late, take-drop-take window (i + 1 - window) n all (ground arith)) refl
  ]

  volatility_loop-agree :
      (n : ℕ) (all : List F) (window i : ℕ) (rs : List F)
      → i + length rs ≤ n
      → volatility_loop (take n all) window i rs ≡ volatility_loop all window i rs
  unfolding volatility_loop volatility_at
  volatility_loop-agree n all window i [] h = refl
  volatility_loop-agree n all window i (r ∷ rs) h =
      rw (volatility_at-agree n all window i (omega arith)) (
        ap (λ v. volatility_at all window i ∷ v)
          (volatility_loop-agree n all window (suc i) rs (omega arith)))

  volatility-plain :
      (rs : List F) (window : ℕ)
      → 2 ≤ window
      → volatility rs window ≡ volatility_loop rs window 0 rs
  unfolding volatility volatility_loop
  volatility-plain [] window h = ground (arith, h)
  volatility-plain (r ∷ rs) window h = ground (arith, h)

  pub volatility-take :
      (k window : ℕ) (rs : List F)
      → 2 ≤ window
      → take k (volatility rs window) ≡ volatility (take k rs) window
  volatility-take k window rs h =
      rw (volatility-plain rs window h, volatility-plain (take k rs) window h)
        (volatility_loop-take k rs window 0 rs
          ∙ sym (
              volatility_loop-agree k rs window 0 (take k rs)
                (omega (arith, length-take_bound k rs))))
