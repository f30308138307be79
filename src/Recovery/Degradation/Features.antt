-- ===== src/Recovery/Degradation/Features.antt =====
-- Which features `GracefulDegradation` of sv2-core/src/recovery.rs disables after a history.
use stratum_v2_tools.Common.{
  ==_iff, Bool-cases, List, String, [], arith, contains, false, if◌then◌else◌, inl, inr, length,
  nat_eq, not, refl, select, string_eq, subst, ℕ, ◌&&◌, ◌++◌, ◌+◌, ◌<◌, ◌==◌, ◌||◌, ◌↔◌, ◌∷◌, ◌≡◌,
  ◌≤◌,
}
use stratum_v2_tools.Common.Floats.{Floats}
use stratum_v2_tools.Common.Map.{get, get-insert, get-remove}
use stratum_v2_tools.Common.Words.{add_u32, add_u32_exact, u32_mod}
use stratum_v2_tools.Recovery.Breaker.{RecoveryConfig}
use stratum_v2_tools.Recovery.Degradation.{
  GracefulDegradation, feature_failure_count, is_feature_enabled, new_degradation,
  record_feature_failure, record_feature_success, set_insert, set_remove,
}

pub data Outcome : Type 0 where
  feature_fails feature_succeeds : String → Outcome

module _ {fl : Floats} where
  unfoldable pub after_outcome : GracefulDegradation fl → Outcome → GracefulDegradation fl
  after_outcome d (feature_fails f) = record_feature_failure f d
  after_outcome d (feature_succeeds f) = record_feature_success f d

  unfoldable pub after_outcomes : GracefulDegradation fl → List Outcome → GracefulDegradation fl
  after_outcomes d [] = d
  after_outcomes d (o ∷ os) = after_outcomes (after_outcome d o) os

-- The failures of a feature since its last success, after `n` of them.
abbrev pub failure_streak : String → ℕ → List Outcome → ℕ
failure_streak f n [] = n
failure_streak f n (feature_fails g ∷ os) = failure_streak f (if g == f then n + 1 else n) os
failure_streak f n (feature_succeeds g ∷ os) = failure_streak f (if g == f then 0 else n) os

contains-append :
    (s : List String) (f g : String) → contains (s ++ (f ∷ [])) g ≡ (contains s g || f == g)
unfolding contains
contains-append [] f g = ground arith
contains-append (x ∷ s) f g = ground (arith, contains-append s f g)

contains-set_insert :
    (s : List String) (f g : String) → contains (set_insert f s) g ≡ (f == g || contains s g)
unfolding set_insert
contains-set_insert s f g = ground (arith, contains-append s f g, ==_iff f g)

contains-set_remove :
    (s : List String) (f g : String) → contains (set_remove f s) g ≡ (not (f == g) && contains s g)
unfolding set_remove select contains
contains-set_remove [] f g = ground arith
contains-set_remove (x ∷ s) f g =
    ground (arith, contains-set_remove s f g, ==_iff f g, ==_iff x f, ==_iff x g)

-- The state of one feature after a streak of `n` failures.
abbrev pub IsAt : {fl : Floats} → String → ℕ → GracefulDegradation fl → Type 0
IsAt f n d =
    (feature_failure_count f d ≡ n)
    × ((is_feature_enabled f d ≡ false) ↔ ((1 ≤ n) × (d.config.circuit_breaker_threshold ≤ n)))

module _ {fl : Floats} where
  record_feature_failure-IsAt :
      (f g : String) (n : ℕ) (d : GracefulDegradation fl)
      → n + 1 < u32_mod
      → IsAt f n d
      → IsAt f (if g == f then n + 1 else n) (record_feature_failure g d)
  unfolding record_feature_failure feature_failure_count is_feature_enabled
  record_feature_failure-IsAt f g n d h (c, e) =
      let listed =
        get-insert g f (add_u32 (feature_failure_count g d) 1) d.feature_failure_counts in
      let added = contains-set_insert d.disabled_features g f in
      elim (Bool-cases (g == f)) [
        | inl same ↦
            let eq = (==_iff g f).0 same in
            rw same (
              ground (arith, same, eq, c, listed, added, e, add_u32_exact n 1),
              ground (arith, same, eq, c, added, e, add_u32_exact n 1),
            )
        | inr other ↦ rw other (ground (arith, other, c, listed), ground (arith, e, other, added))
      ]

  record_feature_success-IsAt :
      (f g : String) (n : ℕ) (d : GracefulDegradation fl)
      → IsAt f n d
      → IsAt f (if g == f then 0 else n) (record_feature_success g d)
  unfolding record_feature_success feature_failure_count is_feature_enabled
  record_feature_success-IsAt f g n d (c, e) =
      let listed = get-remove g f d.feature_failure_counts in
      let removed = contains-set_remove d.disabled_features g f in
      elim (Bool-cases (g == f)) [
        | inl same ↦ rw same (ground (arith, same, listed), ground (arith, same, removed))
        | inr other ↦ rw other (ground (arith, other, c, listed), ground (arith, e, other, removed))
      ]

  after_outcomes-IsAt :
      (f : String) (n : ℕ) (d : GracefulDegradation fl) (os : List Outcome)
      → n + length os < u32_mod
      → IsAt f n d
      → IsAt f (failure_streak f n os) (after_outcomes d os)
  unfolding after_outcomes after_outcome
  after_outcomes-IsAt f n d [] h a = a
  after_outcomes-IsAt f n d (feature_fails g ∷ os) h a =
      after_outcomes-IsAt f (if g == f then n + 1 else n) (record_feature_failure g d) os
        (ground (arith, h)) (record_feature_failure-IsAt f g n d (omega arith) a)
  after_outcomes-IsAt f n d (feature_succeeds g ∷ os) h a =
      after_outcomes-IsAt f (if g == f then 0 else n) (record_feature_success g d) os
        (ground (arith, h)) (record_feature_success-IsAt f g n d a)

  after_outcomes-config :
      (d : GracefulDegradation fl) (os : List Outcome) → (after_outcomes d os).config ≡ d.config
  unfolding after_outcomes after_outcome record_feature_failure record_feature_success
  after_outcomes-config d [] = refl
  after_outcomes-config d (feature_fails g ∷ os) =
      after_outcomes-config (record_feature_failure g d) os
  after_outcomes-config d (feature_succeeds g ∷ os) =
      after_outcomes-config (record_feature_success g d) os

  -- After fewer than 2 ^ 32 recorded outcomes a feature's failure count is the number of its failures
  -- since its last success, and the feature is disabled exactly if there was one and they reach the
  -- threshold.
  pub after_outcomes-new_degradation :
      (c : RecoveryConfig fl) (f : String) (os : List Outcome)
      → length os < u32_mod
      → let d = after_outcomes (new_degradation c) os in
        let n = failure_streak f 0 os in
        (feature_failure_count f d ≡ n)
        × ((is_feature_enabled f d ≡ false) ↔ ((1 ≤ n) × (c.circuit_breaker_threshold ≤ n)))
  unfolding new_degradation feature_failure_count is_feature_enabled contains get
  after_outcomes-new_degradation c f os h =
      let start : IsAt f 0 (new_degradation c) = (ground arith, ground arith) in
      let (count, iff) = after_outcomes-IsAt f 0 (new_degradation c) os (omega arith) start in
      (
        count,
        subst
            (λ k. (is_feature_enabled f (after_outcomes (new_degradation c) os) ≡ false) ↔ (
              (1 ≤ failure_streak f 0 os) × (k.circuit_breaker_threshold ≤ failure_streak f 0 os)))
            (after_outcomes-config (new_degradation c) os) iff,
      )
