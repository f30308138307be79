-- ===== src/Recovery/Degradation.antt =====
-- `GracefulDegradation` and `DatabaseRecovery` of sv2-core/src/recovery.rs. A set is the list of its
-- elements.
pub mod Features
use stratum_v2_tools.Common.{
  Bool, List, String, [], contains, false, get_or, if◌then◌else◌, leb, nat_eq, not, select,
  string_eq, true, ℕ, ◌++◌, ◌==◌, ◌∷◌,
}
use stratum_v2_tools.Common.Floats.{Floats}
use stratum_v2_tools.Common.Map.{Map, get, insert, remove}
use stratum_v2_tools.Common.Words.{add_u32}
use stratum_v2_tools.Error.{database}
use stratum_v2_tools.Recovery.Breaker.{RecoveryConfig}
use stratum_v2_tools.Recovery.Retry.{RetryExecutor, new_executor}

-- `HashSet::insert` and `HashSet::remove`.
unfoldable pub set_insert : String → List String → List String
set_insert f s = if contains s f then s else s ++ (f ∷ [])

unfoldable pub set_remove : String → List String → List String
set_remove f s = select (λ g. not (g == f)) s

pub record GracefulDegradation (fl : Floats) : Type 0 where
  pub disabled_features : List String
  pub feature_failure_counts : Map String ℕ
  pub config : RecoveryConfig fl

module _ {fl : Floats} where
  unfoldable pub new_degradation : RecoveryConfig fl → GracefulDegradation fl
  new_degradation config = record {
    disabled_features = [];
    feature_failure_counts = [];
    config = config;
  }

  unfoldable pub feature_failure_count : String → GracefulDegradation fl → ℕ
  feature_failure_count feature d = get_or (get feature d.feature_failure_counts) 0

  unfoldable pub record_feature_failure : String → GracefulDegradation fl → GracefulDegradation fl
  unfolding feature_failure_count set_insert
  record_feature_failure feature d =
      let count = add_u32 (feature_failure_count feature d) 1 in
      record d {
        feature_failure_counts = insert feature count d.feature_failure_counts;
        disabled_features =
            if leb d.config.circuit_breaker_threshold count
            then set_insert feature d.disabled_features
            else d.disabled_features;
      }

  unfoldable pub record_feature_success : String → GracefulDegradation fl → GracefulDegradation fl
  unfolding set_remove
  record_feature_success feature d = record d {
    feature_failure_counts = remove feature d.feature_failure_counts;
    disabled_features = set_remove feature d.disabled_features;
  }

  unfoldable pub is_feature_enabled : String → GracefulDegradation fl → Bool
  is_feature_enabled feature d = not (contains d.disabled_features feature)

  unfoldable pub is_degradation_active : GracefulDegradation fl → Bool
  is_degradation_active d = elim d.disabled_features [ [] ↦ false | _ ∷ _ ↦ true ]

pub record DatabaseRecovery (fl : Floats) : Type 0 where
  pub retry_executor : RetryExecutor fl
  pub degradation : GracefulDegradation fl

module _ {fl : Floats} where
  unfoldable pub new_database_recovery : RecoveryConfig fl → DatabaseRecovery fl
  unfolding new_executor new_degradation
  new_database_recovery config = record {
    retry_executor = new_executor config;
    degradation = new_degradation config;
  }

  unfoldable pub is_database_available : DatabaseRecovery fl → Bool
  unfolding is_feature_enabled
  is_database_available r = is_feature_enabled "database" r.degradation

  unfoldable pub database_failure_count : DatabaseRecovery fl → ℕ
  unfolding feature_failure_count
  database_failure_count r = feature_failure_count "database" r.degradation
