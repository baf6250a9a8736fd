-- ===== src/Feature/Market.antt =====
-- internal/feature/market.go and orderflow.go: returns, volatility, scores against a window, and the
-- order flow ratios. The loops read other positions of the whole list, which each takes as `all`.
use ai_trading_v.Prelude.{
  ℕ, suc, ◌+◌, ◌-◌, ◌==◌, ltb, ◌||◌, if◌then◌else◌, List, [], ◌∷◌, length, get_or, take, drop,
  replicate,
}
use ai_trading_v.Float.{Float64, num, ◌⊕◌, ◌⊖◌, ◌⊗◌, ◌⊘◌, ◌=?◌}

module _ {F : Type 0} ⦃f : Float64 F⦄ where
  unfoldable pub log_return_at : List F → ℕ → ℕ → F → F
  log_return_at all periods i c =
      if ltb i periods then f.nan else f.log (c ⊘ get_or all (i - periods) f.nan) ⊗ num 100

  unfoldable pub log_return_loop : List F → ℕ → ℕ → List F → List F
  log_return_loop all periods i [] = []
  log_return_loop all periods i (c ∷ cs) =
      log_return_at all periods i c ∷ log_return_loop all periods (suc i) cs

  unfoldable pub log_return : List F → ℕ → List F
  log_return closes periods =
      if periods == 0 || length closes == 0
      then replicate (length closes) f.nan
      else log_return_loop closes periods 0 closes

  unfoldable pub sum_from : F → List F → F
  sum_from acc [] = acc
  sum_from acc (x ∷ xs) = sum_from (acc ⊕ x) xs

  unfoldable pub mean : List F → F
  mean v = sum_from (num 0) v ⊘ num (length v)

  unfoldable pub squares_from : F → F → List F → F
  squares_from m acc [] = acc
  squares_from m acc (x ∷ xs) = squares_from m (acc ⊕ (x ⊖ m) ⊗ (x ⊖ m)) xs

  unfoldable pub std_dev : List F → F
  std_dev v = f.sqrt (squares_from (mean v) (num 0) v ⊘ num (length v))

  -- `v[i-window+1 : i+1]`
  abbrev pub window_at : List F → ℕ → ℕ → List F
  window_at all window i = take window (drop (i + 1 - window) all)

  unfoldable pub volatility_loop : List F → ℕ → ℕ → List F → List F
  volatility_loop all window i [] = []
  volatility_loop all window i (r ∷ rs) =
      (if ltb i (window - 1) then f.nan else std_dev (window_at all window i))
      ∷ volatility_loop all window (suc i) rs

  unfoldable pub volatility : List F → ℕ → List F
  volatility log_returns window =
      if ltb window 2 || length log_returns == 0
      then replicate (length log_returns) f.nan
      else volatility_loop log_returns window 0 log_returns

  unfoldable pub z_at : F → List F → F
  z_at x slice = let sd = std_dev slice in if sd =? num 0 then num 0 else (x ⊖ mean slice) ⊘ sd

  unfoldable pub z_score_loop : List F → ℕ → ℕ → List F → List F
  z_score_loop all window i [] = []
  z_score_loop all window i (x ∷ xs) =
      (if ltb i (window - 1) then f.nan else z_at x (window_at all window i))
      ∷ z_score_loop all window (suc i) xs

  unfoldable pub z_score : List F → ℕ → List F
  z_score values window =
      if ltb window 2 || length values == 0
      then replicate (length values) f.nan
      else z_score_loop values window 0 values

  unfoldable pub oi_delta : F → F → F
  oi_delta prev x = if prev =? num 0 then f.nan else (x ⊖ prev) ⊘ prev ⊗ num 100

  unfoldable pub oi_delta_loop : List F → ℕ → ℕ → List F → List F
  oi_delta_loop all periods i [] = []
  oi_delta_loop all periods i (x ∷ xs) =
      (if ltb i periods then f.nan else oi_delta (get_or all (i - periods) f.nan) x)
      ∷ oi_delta_loop all periods (suc i) xs

  unfoldable pub oi_delta_pct : List F → ℕ → List F
  oi_delta_pct oi periods =
      if periods == 0 || length oi == 0
      then replicate (length oi) f.nan
      else oi_delta_loop oi periods 0 oi

  unfoldable pub imbalance : F → F → F
  imbalance a b = let denom = a ⊕ b in if denom =? num 0 then num 0 else (a ⊖ b) ⊘ denom

  -- The two lists have one length.
  unfoldable pub imbalance_loop : List F → List F → List F
  imbalance_loop [] bs = []
  imbalance_loop (a ∷ more) [] = []
  imbalance_loop (a ∷ more) (b ∷ bs) = imbalance a b ∷ imbalance_loop more bs

  unfoldable pub normalized_imbalance : List F → List F → List F
  normalized_imbalance a b =
      if length a == length b then imbalance_loop a b else replicate (length a) f.nan

  unfoldable pub ratio : F → F → F
  ratio buy sell = if sell =? num 0 then f.nan else buy ⊘ sell

  unfoldable pub ratio_loop : List F → List F → List F
  ratio_loop [] ss = []
  ratio_loop (b ∷ bs) [] = []
  ratio_loop (b ∷ bs) (s ∷ ss) = ratio b s ∷ ratio_loop bs ss

  unfoldable pub ls_ratio_raw : List F → List F → List F
  ls_ratio_raw buy_ratio sell_ratio =
      if length buy_ratio == length sell_ratio
      then ratio_loop buy_ratio sell_ratio
      else replicate (length buy_ratio) f.nan
