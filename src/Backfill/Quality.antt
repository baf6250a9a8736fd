-- ===== src/Backfill/Quality.antt =====
-- internal/db/quality.go: the checks on feature rows before they are written.
use ai_trading_v.Prelude.{
  ℕ, ◌+◌, ◌*◌, ◌==◌, Bool, false, ◌||◌, if◌then◌else◌, List, [], ◌∷◌, length, Option, none, some,
}
use ai_trading_v.Float.{Float64, lit, num, ◌⊘◌, ◌<?◌, is_nan}
use ai_trading_v.Model.{Time, FeatureRow}

-- Why rows are rejected.
pub data Fault : Type 0 where
  empty_rows : Fault
  duplicate_timestamp : Time → Fault
  mandatory_nan : Fault
  mandatory_inf : Fault

unfoldable pub seen_before : Time → List Time → Bool
seen_before t [] = false
seen_before t (s ∷ seen) = t == s || seen_before t seen

module _ {F : Type 0} ⦃f : Float64 F⦄ where
  -- The first timestamp that an earlier row has.
  unfoldable pub duplicate_in : List Time → List (FeatureRow F) → Option Time
  duplicate_in seen [] = none
  duplicate_in seen (r ∷ rs) =
      let later = duplicate_in (r.ts ∷ seen) rs in
      if seen_before r.ts seen then some r.ts else later

  unfoldable pub check_duplicate_timestamps : List (FeatureRow F) → Option Time
  check_duplicate_timestamps rows = duplicate_in [] rows

  unfoldable pub mandatory_fields : FeatureRow F → List F
  mandatory_fields r =
      r.ema20 ∷ r.ema50 ∷ r.ema200 ∷ r.rsi14 ∷ r.atr14 ∷ r.adx14 ∷ r.volume_ema20 ∷ r.return1
      ∷ r.return4 ∷ r.return12 ∷ r.volatility14 ∷ r.volatility50 ∷ []

  unfoldable pub count_fields : (F → Bool) → List F → ℕ
  count_fields test [] = 0
  count_fields test (v ∷ vs) = (if test v then 1 else 0) + count_fields test vs

  -- `countMandatoryNaN` and `countMandatoryInf`, by the test.
  unfoldable pub count_mandatory : (F → Bool) → List (FeatureRow F) → ℕ
  count_mandatory test [] = 0
  count_mandatory test (r ∷ rs) = count_fields test (mandatory_fields r) + count_mandatory test rs

  unfoldable pub count_mandatory_floats : List (FeatureRow F) → ℕ
  count_mandatory_floats rows = length rows * 12

  -- The NaN in the optional fields are only logged.
  unfoldable pub validate_feature_rows : List (FeatureRow F) → Option Fault
  validate_feature_rows rows =
      let fields : F = num (count_mandatory_floats rows) in
      let nan_ratio : F = num (count_mandatory is_nan rows) ⊘ fields in
      let inf_ratio : F = num (count_mandatory f.is_inf rows) ⊘ fields in
      if length rows == 0 then some empty_rows else (elim (check_duplicate_timestamps rows) [
        | some t ↦ some (duplicate_timestamp t)
        | none ↦
            if lit 50_000 <? nan_ratio
            then some mandatory_nan
            else if lit 1_000 <? inf_ratio
            then some mandatory_inf
            else none
      ])
