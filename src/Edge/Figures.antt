-- ===== src/Edge/Figures.antt =====
-- internal/edge/decay.go, and the figures of regime.go and rolling.go.
use ai_trading_v.Prelude.{
  ℕ, ◌+◌, ◌-◌, ◌==◌, ltb, ◌&&◌, ◌||◌, if◌then◌else◌, String, List, [], ◌∷◌, length, map, get_or,
  Option, none, some,
}
use ai_trading_v.Float.{Float64, num, ◌⊕◌, ◌⊖◌, ◌⊗◌, ◌⊘◌, ◌<?◌, ◌≤?◌, is_nan}

pub record DecayResult (F : Type 0) : Type 0 where
  pub peak_corr : F
  pub avg_corr : F
  pub decay_rate : F
  pub persistence : F

pub record RegimeResult (F : Type 0) : Type 0 where
  pub trend_regime : String
  pub vol_regime : String
  pub corr : F
  pub samples : ℕ

pub record RollingSummary (F : Type 0) : Type 0 where
  pub window : ℕ
  pub mean : F
  pub std : F
  pub stability : F

-- The sums of one window.
pub record RollingSums (F : Type 0) : Type 0 where
  pub sum : F
  pub sum_sq : F
  pub n : ℕ
  pub overall_sign : F

module _ {F : Type 0} ⦃f : Float64 F⦄ where
  -- The largest, and the smallest, of a start and a list.
  unfoldable pub largest : F → List F → F
  largest best [] = best
  largest best (c ∷ cs) = largest (if best <? c then c else best) cs

  unfoldable pub smallest : F → List F → F
  smallest best [] = best
  smallest best (c ∷ cs) = smallest (if c <? best then c else best) cs

  unfoldable pub sum_on : F → List F → F
  sum_on sum [] = sum
  sum_on sum (c ∷ cs) = sum_on (sum ⊕ c) cs

  unfoldable pub no_decay : DecayResult F
  no_decay = record { peak_corr = num 0; avg_corr = num 0; decay_rate = num 0; persistence = num 0 }

  unfoldable pub decay_of : F → List F → DecayResult F
  decay_of c cs =
      let n = length cs + 1 in
      record {
        peak_corr = largest c cs;
        avg_corr = sum_on c cs ⊘ num n;
        decay_rate = if ltb n 2 then num 0 else (c ⊖ get_or (c ∷ cs) (n - 1) c) ⊘ num (n - 1);
        persistence = smallest c (c ∷ cs);
      }

  unfoldable pub analyze_decay : List F → DecayResult F
  analyze_decay [] = no_decay
  analyze_decay (c ∷ cs) = decay_of (f.abs c) (map (λ x. f.abs x) cs)

  unfoldable pub known_corrs : List (RegimeResult F) → List F
  known_corrs [] = []
  known_corrs (r ∷ rs) = let rest = known_corrs rs in if is_nan r.corr then rest else r.corr ∷ rest

  unfoldable pub spread : List F → F
  spread [] = num 1
  spread (c ∷ []) = num 1
  spread (c ∷ d ∷ cs) = num 1 ⊖ (largest c (c ∷ d ∷ cs) ⊖ smallest c (c ∷ d ∷ cs))

  unfoldable pub regime_consistency : List (RegimeResult F) → F
  regime_consistency regimes = if length regimes == 0 then num 0 else spread (known_corrs regimes)

  unfoldable pub add_point : F → RollingSums F → RollingSums F
  add_point corr s = if is_nan corr then s else record {
    sum = s.sum ⊕ corr;
    sum_sq = s.sum_sq ⊕ corr ⊗ corr;
    n = s.n + 1;
    overall_sign = s.overall_sign ⊕ corr;
  }

  unfoldable pub add_points : List F → RollingSums F → RollingSums F
  add_points [] s = s
  add_points (p ∷ ps) s = add_points ps (add_point p s)

  unfoldable pub same_sign : F → F → ℕ
  same_sign overall corr =
      if is_nan corr
      then 0
      else if (num 0 ≤? corr && num 0 ≤? overall) || (corr <? num 0 && overall <? num 0)
      then 1
      else 0

  unfoldable pub same_sign_count : F → List F → ℕ
  same_sign_count overall [] = 0
  same_sign_count overall (p ∷ ps) = same_sign overall p + same_sign_count overall ps

  unfoldable pub summary_of : ℕ → List F → RollingSums F → RollingSummary F
  summary_of w points s =
      let mean = s.sum ⊘ num s.n in
      let variance = s.sum_sq ⊘ num s.n ⊖ mean ⊗ mean in
      if s.n == 0
      then record { window = w; mean = num 0; std = num 0; stability = num 0 }
      else record {
        window = w;
        mean = mean;
        std = f.sqrt (if variance <? num 0 then num 0 else variance);
        stability = num (same_sign_count s.overall_sign points) ⊘ num s.n;
      }

  unfoldable pub rolling_summary : ℕ → List F → RollingSummary F
  rolling_summary w points =
      summary_of w points
        (add_points points (record { sum = num 0; sum_sq = num 0; n = 0; overall_sign = num 0 }))

  -- RunRolling: the summaries of the windows, or the error of a query.
  unfoldable pub run_rolling : (ℕ → Option (List F)) → List ℕ → Option (List (RollingSummary F))
  run_rolling points [] = some []
  run_rolling points (w ∷ ws) = elim (points w) [
    | none ↦ none
    | some ps ↦ elim (run_rolling points ws) [
      | none ↦ none
      | some rest ↦ some (rolling_summary w ps ∷ rest)
    ]
  ]
