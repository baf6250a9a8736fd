-- ===== src/Feature/Causal.antt =====
-- The averages of internal/feature read no later bar: on the first bars alone they give the same.
use ai_trading_v.Prelude.{
  ℕ, zero, suc, ◌+◌, ◌≤◌, ◌<◌, ◌≡◌, refl, ap, arith, ltb, List, [], ◌∷◌, length, take, replicate,
  Option, none, some, if◌then◌else◌,
}
use ai_trading_v.Float.{Float64, num, ◌⊕◌, ◌⊘◌}
use ai_trading_v.Feature.{
  ema_at, ema_loop, ema, rsi_gain, rsi_loss, rsi_at, rsi_loop, rsi_from, rsi, true_range, atr_at,
  atr_loop, atr,
}

module _ {A : Type 0} where
  pub take-nil : (k : ℕ) → take {A = A} k [] ≡ []
  take-nil zero = refl
  take-nil (suc k) = refl

  pub length-take_le : (k : ℕ) (xs : List A) → length (take k xs) ≤ length xs
  length-take_le zero xs = omega arith
  length-take_le (suc k) [] = omega arith
  length-take_le (suc k) (x ∷ xs) = omega (arith, length-take_le k xs)

  pub take-replicate :
      (k n : ℕ) (a : A) (xs : List A)
      → length xs ≡ n
      → take k (replicate n a) ≡ replicate (length (take k xs)) a
  take-replicate zero n a xs h = refl
  take-replicate (suc k) n a [] h = rw⁻¹ h refl
  take-replicate (suc k) n a (x ∷ xs) h =
      rw⁻¹ h (ap (λ r. a ∷ r) (take-replicate k (length xs) a xs refl))

module _ {F : Type 0} ⦃f : Float64 F⦄ where
  ema_loop-take :
      (k period i : ℕ) (alpha sum prev : F) (vs : List F)
      → take k (ema_loop period i alpha sum prev vs) ≡ ema_loop period i alpha sum prev (take k vs)
  unfolding ema_loop
  ema_loop-take zero period i alpha sum prev vs = refl
  ema_loop-take (suc k) period i alpha sum prev [] = refl
  ema_loop-take (suc k) period i alpha sum prev (v ∷ vs) =
      ap (λ r. ema_at period i alpha sum prev v ∷ r) (ema_loop-take k period (suc i) alpha _ _ vs)

  -- The exponential average of the first bars is the first part of the average of all.
  pub ema-take : (k period : ℕ) (vs : List F) → take k (ema vs period) ≡ ema (take k vs) period
  unfolding ema
  ema-take k period vs = ground (
    arith,
    take-nil {A = F} k,
    ema_loop-take k period 0 (num 2 ⊘ num (period + 1)) (num 0) f.nan vs,
  )

  rsi_loop-take :
      (k period i : ℕ) (prev gain loss : F) (cs : List F)
      → take k (rsi_loop period i prev gain loss cs) ≡ rsi_loop period i prev gain loss (take k cs)
  unfolding rsi_loop
  rsi_loop-take zero period i prev gain loss cs = refl
  rsi_loop-take (suc k) period i prev gain loss [] = refl
  rsi_loop-take (suc k) period i prev gain loss (c ∷ cs) =
      let g = rsi_gain period i prev gain c in
      let l = rsi_loss period i prev loss c in
      ap (λ r. rsi_at period i g l ∷ r) (rsi_loop-take k period (suc i) c g l cs)

  rsi_from-take :
      (k period : ℕ) (cs : List F) → take k (rsi_from period cs) ≡ rsi_from period (take k cs)
  unfolding rsi_from
  rsi_from-take zero period cs = refl
  rsi_from-take (suc k) period [] = refl
  rsi_from-take (suc k) period (c ∷ cs) =
      ap (λ r. f.nan ∷ r) (rsi_loop-take k period 1 c (num 0) (num 0) cs)

  -- Below the period the loop gives only NaN.
  rsi_loop-short :
      (period i : ℕ) (prev gain loss : F) (cs : List F)
      → i + length cs ≤ period
      → rsi_loop period i prev gain loss cs ≡ replicate (length cs) f.nan
  unfolding rsi_loop rsi_at
  rsi_loop-short period i prev gain loss [] h = refl
  rsi_loop-short period i prev gain loss (c ∷ cs) h =
      let g = rsi_gain period i prev gain c in
      let l = rsi_loss period i prev loss c in
      ground (arith, h, rsi_loop-short period (suc i) c g l cs (omega arith))

  rsi_from-short :
      (period : ℕ) (cs : List F)
      → length cs ≤ period
      → rsi_from period cs ≡ replicate (length cs) f.nan
  unfolding rsi_from
  rsi_from-short period [] h = refl
  rsi_from-short period (c ∷ cs) h =
      ap (λ r. f.nan ∷ r) (rsi_loop-short period 1 c (num 0) (num 0) cs (omega arith))

  -- `RSI` without its test on the length, which changes nothing.
  rsi-plain : (period : ℕ) (cs : List F) → 0 < period → rsi cs period ≡ rsi_from period cs
  unfolding rsi
  rsi-plain period cs h = ground (arith, h, rsi_from-short period cs)

  -- The relative strength of the first bars is the first part of that of all, however few they are.
  pub rsi-take : (k period : ℕ) (cs : List F) → take k (rsi cs period) ≡ rsi (take k cs) period
  unfolding rsi
  rsi-take k zero cs = take-replicate k (length cs) f.nan cs refl
  rsi-take k (suc period) cs =
      rw (rsi-plain (suc period) cs (omega arith), rsi-plain (suc period) (take k cs) (omega arith))
        (rsi_from-take k (suc period) cs)

  atr_loop-take :
      (k period i : ℕ) (last : Option F) (sum prev : F) (hs ls cs : List F)
      → take k (atr_loop period i last sum prev hs ls cs)
        ≡ atr_loop period i last sum prev (take k hs) (take k ls) (take k cs)
  unfolding atr_loop
  atr_loop-take zero period i last sum prev hs ls cs = refl
  atr_loop-take (suc k) period i last sum prev [] ls cs = refl
  atr_loop-take (suc k) period i last sum prev (h ∷ hs) [] cs = refl
  atr_loop-take (suc k) period i last sum prev (h ∷ hs) (l ∷ ls) [] = refl
  atr_loop-take (suc k) period i last sum prev (h ∷ hs) (l ∷ ls) (c ∷ cs) =
      let tr = true_range h l last in
      let a = atr_at period i sum prev tr in
      ap (λ r. a ∷ r)
        (atr_loop-take k period (suc i) (some c) (if ltb i period then sum ⊕ tr else sum) a hs ls
          cs)

  -- `ATR` on lists of one length.
  atr-plain :
      (period : ℕ) (hs ls cs : List F)
      → 0 < period
      → length ls ≡ length hs
      → length cs ≡ length hs
      → atr hs ls cs period ≡ atr_loop period 0 none (num 0) f.nan hs ls cs
  unfolding atr atr_loop
  atr-plain period [] ls cs p l c = ground (arith, p, l, c)
  atr-plain period (h ∷ hs) ls cs p l c = ground (arith, p, l, c)

  pub length-take-eq :
      (k : ℕ) (xs ys : List F) → length xs ≡ length ys → length (take k xs) ≡ length (take k ys)
  length-take-eq zero xs ys h = refl
  length-take-eq (suc k) [] [] h = refl
  length-take-eq (suc k) [] (y ∷ ys) h = absurd (omega (arith, h))
  length-take-eq (suc k) (x ∷ xs) [] h = absurd (omega (arith, h))
  length-take-eq (suc k) (x ∷ xs) (y ∷ ys) h = ap suc (length-take-eq k xs ys (omega (arith, h)))

  -- The true range average of the first bars is the first part of that of all, for lists of highs, lows
  -- and closes of one length.
  pub atr-take :
      (k period : ℕ) (hs ls cs : List F)
      → length ls ≡ length hs
      → length cs ≡ length hs
      → take k (atr hs ls cs period) ≡ atr (take k hs) (take k ls) (take k cs) period
  unfolding atr
  atr-take k zero hs ls cs l c = take-replicate k (length hs) f.nan hs refl
  atr-take k (suc period) hs ls cs l c =
      rw
        (
          atr-plain (suc period) hs ls cs (omega arith) l c,
          atr-plain (suc period) (take k hs) (take k ls) (take k cs) (omega arith)
              (length-take-eq k ls hs l) (length-take-eq k cs hs c),
        )
        (atr_loop-take k (suc period) 0 none (num 0) f.nan hs ls cs)
