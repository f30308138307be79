-- ===== src/Health/Checkers.antt =====
-- The checkers of sv2-core/src/health.rs: what each reports of the answer it gets. The answer of the
-- database, of the node and of the server, the readings of the clock and the text of a number with one
-- decimal are arguments.
use stratum_v2_tools.Common.{String, [], if◌then◌else◌, inl, inr, nat_eq, string_eq, ℕ, ◌||◌, ◌⊎◌}
use stratum_v2_tools.Common.Floats.{Floats}
use stratum_v2_tools.Common.Map.{Map, insert}
use stratum_v2_tools.Common.Text.{show, ◌<>◌}
use stratum_v2_tools.Config.Types.{AlertThresholds}
use stratum_v2_tools.Health.Types.{HealthCheck, HealthStatus, critical, healthy, warned}

-- `ShareStats` of sv2-core/src/types.rs, as far as the checker reads it.
pub record ShareCounts : Type 0 where
  pub total_shares : ℕ
  pub valid_shares : ℕ
  pub invalid_shares : ℕ

-- The answer of `get_blockchain_info`, as far as the checker reads it.
pub record ChainInfo : Type 0 where
  pub blocks : ℕ
  pub chain : String

-- A report with its status, its text and its details.
abbrev report : String → ℕ → ℕ → HealthStatus → String → Map String String → HealthCheck
report name now elapsed status message metadata = record {
  name = name;
  status = status;
  message = message;
  timestamp = now;
  duration = elapsed;
  metadata = metadata;
}

unfoldable pub check_database : String → ℕ → ℕ → String ⊎ ShareCounts → HealthCheck
check_database name now elapsed (inr stats) =
    report name now elapsed healthy
      ("Database operational with " <> show stats.total_shares <> " total shares")
      (insert "invalid_shares" (show stats.invalid_shares) (
        insert "valid_shares" (show stats.valid_shares)
          (insert "total_shares" (show stats.total_shares) [])))
check_database name now elapsed (inl e) =
    report name now elapsed critical ("Database connection failed: " <> e) []

unfoldable pub check_bitcoin_rpc : String → ℕ → ℕ → String ⊎ ChainInfo → HealthCheck
check_bitcoin_rpc name now elapsed (inr info) =
    report name now elapsed healthy ("Bitcoin RPC operational, " <> show info.blocks <> " blocks")
      (insert "chain" info.chain (insert "blocks" (show info.blocks) []))
check_bitcoin_rpc name now elapsed (inl e) =
    report name now elapsed critical ("Bitcoin RPC connection failed: " <> e) []

module _ (fl : Floats) (one_decimal : fl.F64 → String) where
  unfoldable pub usage_percentage : ℕ → ℕ → fl.F64
  usage_percentage count maximum =
      fl.mul (fl.div (fl.of_nat count) (fl.of_nat maximum)) (fl.of_nat 100)

  unfoldable pub usage_status : fl.F64 → HealthStatus × String
  usage_status u =
      if fl.le (fl.of_nat 90) u
      then (critical, "Connection usage critical: " <> one_decimal u <> "%")
      else if fl.le (fl.of_nat 75) u
      then (warned, "Connection usage high: " <> one_decimal u <> "%")
      else (healthy, "Connection usage normal: " <> one_decimal u <> "%")

  unfoldable pub check_connections : String → ℕ → ℕ → ℕ → ℕ → HealthCheck
  unfolding usage_percentage usage_status
  check_connections name maximum now elapsed count =
      let u = usage_percentage count maximum in
      let (status, message) = usage_status u in
      report name now elapsed status message (
        insert "usage_percentage" (one_decimal u)
          (insert "max_connections" (show maximum) (insert "active_connections" (show count) [])))

  -- The source has placeholders for the two usages.
  unfoldable pub system_status : AlertThresholds fl → HealthStatus × String
  system_status t =
      if fl.le t.cpu_usage (fl.of_nat 25) || fl.le t.memory_usage (fl.of_nat 45)
      then if fl.le (fl.of_nat 95) (fl.of_nat 25) || fl.le (fl.of_nat 95) (fl.of_nat 45)
        then (critical, "System resources critically high")
        else (warned, "System resources elevated")
      else (healthy, "System resources normal")

  unfoldable pub check_system : String → AlertThresholds fl → ℕ → ℕ → HealthCheck
  unfolding system_status
  check_system name t now elapsed =
      let (status, message) = system_status t in
      report name now elapsed status message (
        insert "memory_usage" (one_decimal (fl.of_nat 45))
          (insert "cpu_usage" (one_decimal (fl.of_nat 25)) []))
