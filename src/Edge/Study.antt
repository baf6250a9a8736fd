-- ===== src/Edge/Study.antt =====
-- internal/edge/study.go: the study of the features over the label horizons. A result's metadata and the
-- text of a metric's name are left out.
use ai_trading_v.Prelude.{
  ℕ, zero, suc, ◌+◌, ◌==◌, if◌then◌else◌, String, str_eq, List, [], ◌∷◌, ◌++◌, length, map, take,
  Option, none, some,
}
use ai_trading_v.Float.{Float64, num, ◌⊕◌, ◌⊖◌, ◌⊘◌, ◌<?◌}
use ai_trading_v.Edge.Figures.{
  RegimeResult, RollingSummary, sum_on, analyze_decay, regime_consistency, run_rolling,
}
use ai_trading_v.Edge.Ranking.{ComponentScore, compute_ranking}

pub data Metric : Type 0 where
  pearson : Metric
  spearman : Metric
  q_top_pf : Metric
  q_top_wr : Metric
  q_bottom_pf : Metric
  q_bottom_wr : Metric
  rolling_mean : ℕ → Metric
  rolling_std : ℕ → Metric
  rolling_stability : ℕ → Metric
  regime : String → String → Metric
  decay_peak : Metric
  decay_avg : Metric
  decay_rate : Metric
  decay_persistence : Metric
  composite_score : Metric

pub record MetricResult (F : Type 0) : Type 0 where
  pub feature_name : String
  pub label_horizon : String
  pub metric_name : Metric
  pub metric_value : F
  pub samples : ℕ

pub record QuantileRow (F : Type 0) : Type 0 where
  pub bucket : ℕ
  pub trades : ℕ
  pub avg_return : F
  pub win_rate : F
  pub profit_factor : F

-- A name and a column of the database.
pub record Named : Type 0 where
  pub name : String
  pub col : String

-- What the database answers for a feature and a horizon, `none` for an error.
pub record EdgeAnswers (F : Type 0) : Type 0 where
  pub correlation : Named → Named → Option (F × F × ℕ)
  pub quantiles : Named → Named → Option (List (QuantileRow F))
  pub rolling : Named → Named → ℕ → Option (List F)
  pub regimes : Named → Named → Option (List (RegimeResult F))

-- The variables of analyzeFeature, with the results added so far.
pub record Analysis (F : Type 0) : Type 0 where
  pub score : ComponentScore F
  pub horizon_corrs : List F
  pub stability_sum : F
  pub stability_count : ℕ
  pub results : List (MetricResult F)

unfoldable pub is_composite : Metric → ℕ
is_composite composite_score = 1
is_composite m = 0

unfoldable pub last_of : {A : Type 0} → A → List A → A
last_of a [] = a
last_of a (b ∷ bs) = last_of b bs

module _ {F : Type 0} ⦃f : Float64 F⦄ where
  unfoldable pub add_result : String → String → Metric → F → ℕ → Analysis F → Analysis F
  add_result feature horizon metric value samples a = record a {
    results =
        a.results
        ++ (record {
          feature_name = feature;
          label_horizon = horizon;
          metric_name = metric;
          metric_value = value;
          samples = samples;
        }
            ∷ []);
  }

  -- The buckets of a horizon, the bottom first.
  unfoldable pub add_buckets :
      String → String → QuantileRow F → QuantileRow F → Analysis F → Analysis F
  add_buckets feature horizon bottom top a =
      let b = add_result feature horizon q_bottom_wr bottom.win_rate bottom.trades (
        add_result feature horizon q_bottom_pf bottom.profit_factor bottom.trades (
          add_result feature horizon q_top_wr top.win_rate top.trades
            (add_result feature horizon q_top_pf top.profit_factor top.trades a))) in
      let delta = top.win_rate ⊖ bottom.win_rate in
      record b {
        score = record b.score {
          quantile_pf =
              if b.score.quantile_pf <? top.profit_factor
              then top.profit_factor
              else b.score.quantile_pf;
          quantile_wr_delta =
              if b.score.quantile_wr_delta <? delta then delta else b.score.quantile_wr_delta;
        };
      }

  unfoldable pub add_quantiles :
      String → String → Option (List (QuantileRow F)) → Analysis F → Analysis F
  add_quantiles feature horizon none a = a
  add_quantiles feature horizon (some []) a = a
  add_quantiles feature horizon (some (q ∷ qs)) a = add_buckets feature horizon q (last_of q qs) a

  unfoldable pub add_summaries : String → String → List (RollingSummary F) → Analysis F → Analysis F
  add_summaries feature horizon [] a = a
  add_summaries feature horizon (r ∷ rs) a =
      let b = add_result feature horizon (rolling_stability r.window) r.stability 0 (
        add_result feature horizon (rolling_std r.window) r.std 0
          (add_result feature horizon (rolling_mean r.window) r.mean 0 a)) in
      add_summaries feature horizon rs (record b {
        stability_sum = b.stability_sum ⊕ r.stability;
        stability_count = b.stability_count + 1;
      })

  unfoldable pub add_rolling :
      String → String → Option (List (RollingSummary F)) → Analysis F → Analysis F
  add_rolling feature horizon none a = a
  add_rolling feature horizon (some rs) a = add_summaries feature horizon rs a

  unfoldable pub add_regime_results :
      String → String → List (RegimeResult F) → Analysis F → Analysis F
  add_regime_results feature horizon [] a = a
  add_regime_results feature horizon (r ∷ rs) a =
      add_regime_results feature horizon rs
        (add_result feature horizon (regime r.trend_regime r.vol_regime) r.corr r.samples a)

  unfoldable pub add_regimes :
      String → String → Option (List (RegimeResult F)) → Analysis F → Analysis F
  add_regimes feature horizon none a = a
  add_regimes feature horizon (some rs) a =
      let b = add_regime_results feature horizon rs a in
      let rc = regime_consistency rs in
      if b.score.regime_consistency_val <? rc
      then record b { score = record b.score { regime_consistency_val = rc } }
      else b

  -- One round of the loop over the horizons. Without a correlation the horizon is passed over.
  unfoldable pub analyze_horizon : EdgeAnswers F → List ℕ → Named → Named → Analysis F → Analysis F
  analyze_horizon db windows feature h a = elim (db.correlation feature h) [
    | none ↦ a
    | some c ↦
        (let b =
            add_result feature.name h.name spearman c.1 c.2
              (add_result feature.name h.name pearson c.0 c.2 a) in
          add_regimes feature.name h.name (db.regimes feature h) (
            add_rolling feature.name h.name (run_rolling (db.rolling feature h) windows) (
              add_quantiles feature.name h.name (db.quantiles feature h) (record b {
                horizon_corrs = b.horizon_corrs ++ ((f.abs c.0 ⊕ f.abs c.1) ⊘ num 2 ∷ []);
              }))))
  ]

  unfoldable pub analyze_horizons :
      EdgeAnswers F → List ℕ → Named → List Named → Analysis F → Analysis F
  analyze_horizons db windows feature [] a = a
  analyze_horizons db windows feature (h ∷ hs) a =
      analyze_horizons db windows feature hs (analyze_horizon db windows feature h a)

  -- The averages and the decay after the loop.
  unfoldable pub finish_feature : String → Analysis F → Analysis F
  finish_feature feature a =
      let n = length a.horizon_corrs in
      let decay = analyze_decay a.horizon_corrs in
      add_result feature "" decay_persistence decay.persistence 0 (
        add_result feature "" decay_rate decay.decay_rate 0 (
          add_result feature "" decay_avg decay.avg_corr 0 (
            add_result feature "" decay_peak decay.peak_corr 0 (record a {
              score = record a.score {
                rolling_stability =
                    if a.stability_count == 0
                    then a.score.rolling_stability
                    else a.stability_sum ⊘ num a.stability_count;
                avg_abs_correlation =
                    if n == 0
                    then a.score.avg_abs_correlation
                    else sum_on (num 0) a.horizon_corrs ⊘ num n;
              };
            }))))

  unfoldable pub no_analysis : String → List (MetricResult F) → Analysis F
  no_analysis feature results = record {
    score = record {
      feature_name = feature;
      quantile_pf = num 0;
      quantile_wr_delta = num 0;
      rolling_stability = num 0;
      regime_consistency_val = num 0;
      avg_abs_correlation = num 0;
      composite_score = num 0;
    };
    horizon_corrs = [];
    stability_sum = num 0;
    stability_count = 0;
    results = results;
  }

  unfoldable pub analyze_feature :
      EdgeAnswers F → List ℕ → List Named → Named → List (MetricResult F) → Analysis F
  analyze_feature db windows horizons feature results =
      finish_feature feature.name
        (analyze_horizons db windows feature horizons (no_analysis feature.name results))

  unfoldable pub analyze_features :
      EdgeAnswers F
      → List ℕ
      → List Named
      → List Named
      → List (MetricResult F)
      → List (ComponentScore F) × List (MetricResult F)
  analyze_features db windows horizons [] results = ([], results)
  analyze_features db windows horizons (feature ∷ features) results =
      let a = analyze_feature db windows horizons feature results in
      let rest = analyze_features db windows horizons features a.results in
      (a.score ∷ rest.0, rest.1)

  unfoldable pub rank_results : List (ComponentScore F) → List (MetricResult F)
  rank_results scores =
      map
        (λ s. record {
          feature_name = s.feature_name;
          label_horizon = "";
          metric_name = composite_score;
          metric_value = s.composite_score;
          samples = 0;
        })
        scores

  -- runForFilter: the results so far, with those of one symbol and timeframe.
  unfoldable pub run_for_filter :
      EdgeAnswers F
      → List ℕ
      → List Named
      → List Named
      → List (MetricResult F)
      → List (MetricResult F)
  run_for_filter db windows horizons features results =
      let analyzed = analyze_features db windows horizons features results in
      analyzed.1 ++ rank_results (compute_ranking analyzed.0)

  -- The best composite score of each feature. A Go map has no order; here the first seen goes first.
  unfoldable pub keep_best : String → F → List (String × F) → List (String × F)
  keep_best name score [] = (name, score) ∷ []
  keep_best name score (p ∷ ps) =
      let rest = keep_best name score ps in
      if str_eq p.0 name then (name, if p.1 <? score then score else p.1) ∷ ps else p ∷ rest

  unfoldable pub best_scores : List (MetricResult F) → List (String × F) → List (String × F)
  best_scores [] ps = ps
  best_scores (r ∷ rs) ps =
      let kept =
        if is_composite r.metric_name == 1
        then keep_best r.feature_name r.metric_value ps
        else ps in
      best_scores rs kept

  -- The inner loop of the exchange sort: what stands first after it, and the rest.
  unfoldable pub exchange : String × F → List (String × F) → (String × F) × List (String × F)
  exchange first [] = (first, [])
  exchange first (p ∷ ps) =
      let kept = exchange first ps in
      let swapped = exchange p ps in
      if first.1 <? p.1 then (swapped.0, first ∷ swapped.1) else (kept.0, p ∷ kept.1)

  -- The outer loop, over the number of pairs.
  unfoldable pub exchange_sort : ℕ → List (String × F) → List (String × F)
  exchange_sort zero ps = ps
  exchange_sort (suc n) [] = []
  exchange_sort (suc n) (p ∷ ps) = let pass = exchange p ps in pass.0 ∷ exchange_sort n pass.1

  unfoldable pub top_features : ℕ → List (MetricResult F) → List String
  top_features n results =
      let pairs = best_scores results [] in
      take n (map (λ p. p.0) (exchange_sort (length pairs) pairs))
