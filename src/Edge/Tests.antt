-- ===== src/Edge/Tests.antt =====
-- The edge study on concrete scores.
use ai_trading_v.Prelude.{String, ◌≡◌, refl, List, [], ◌∷◌, map, All}
use ai_trading_v.Float.{lit, num, minus, ◌≼◌}
use ai_trading_v.Float.Fixed.{Fixed, fixed_float, fixed-Ieee, fixed_abs, not_a_number}
use ai_trading_v.Edge.Figures.{analyze_decay}
use ai_trading_v.Edge.Range.{analyze_decay_range}
use ai_trading_v.Edge.Ranking.{
  ComponentScore, insert_desc, sort_desc, indexed, rank_in, order_by, rank_score, composite,
  with_composites, compute_ranking,
}
use ai_trading_v.Edge.Study.{
  MetricResult, composite_score, top_features, best_scores, keep_best, exchange_sort, exchange,
  is_composite,
}
use ai_trading_v.Edge.Sorted.{Descending, count_named, compute_ranking-Descending}

abbrev score : Fixed → ComponentScore Fixed
score v = record {
  feature_name = "rsi14";
  quantile_pf = v;
  quantile_wr_delta = v;
  rolling_stability = v;
  regime_consistency_val = v;
  avg_abs_correlation = v;
  composite_score = num 0;
}

-- Of a single feature, every rank score is 0 divided by 0.
alone : map (λ s. s.composite_score) (compute_ranking (score (num 2) ∷ [])) ≡ not_a_number ∷ []
unfolding compute_ranking sort_desc insert_desc with_composites composite rank_score order_by
    indexed rank_in
alone = refl

two_ranked :
    map (λ s. s.composite_score) (compute_ranking (score (num 2) ∷ score (num 3) ∷ []))
    ≡ num 1 ∷ num 0 ∷ []
unfolding compute_ranking sort_desc insert_desc with_composites composite rank_score order_by
    indexed rank_in
two_ranked = refl

compute_ranking-Descending_example :
    Descending (λ s. s.composite_score) (compute_ranking (score (num 2) ∷ score (num 3) ∷ []))
    × (count_named "rsi14" (compute_ranking (score (num 2) ∷ score (num 3) ∷ []))
        ≡ count_named "rsi14" (score (num 2) ∷ score (num 3) ∷ []))
compute_ranking-Descending_example =
    compute_ranking-Descending (score (num 2) ∷ score (num 3) ∷ []) "rsi14"

abbrev corrs : List Fixed
corrs = lit 300_000 ∷ minus (lit 500_000) ∷ lit 100_000 ∷ []

analyze_decay_range_example :
    All
      (λ c. ((analyze_decay corrs).persistence ≼ c) × (c ≼ (analyze_decay corrs).peak_corr))
      (map fixed_abs corrs)
analyze_decay_range_example = analyze_decay_range fixed-Ieee corrs (refl, (refl, (refl, tt)))

abbrev result : String → Fixed → MetricResult Fixed
result name v = record {
  feature_name = name;
  label_horizon = "";
  metric_name = composite_score;
  metric_value = v;
  samples = 0;
}

best_two :
    top_features 2 (
      result "rsi14" (num 1)
      ∷ result "atr14" (num 3)
      ∷ result "adx14" (num 2)
      ∷ result "rsi14" (num 4)
      ∷ [])
    ≡ "rsi14" ∷ "atr14" ∷ []
unfolding top_features best_scores keep_best exchange_sort exchange is_composite
best_two = refl
