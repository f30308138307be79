-- ===== src/Mining/Counts.antt =====
-- The counters of shares of a connection and of a worker (sv2-core/src/types.rs).
use stratum_v2_tools.Common.{
  Bool, List, [], arith, count_by, if◌then◌else◌, length, nat_eq, string_eq, ◌+◌, ◌<◌, ◌∷◌, ◌≡◌,
  ◌≤◌,
}
use stratum_v2_tools.Common.Floats.{Floats}
use stratum_v2_tools.Common.Words.{add_u64_exact, u64_mod}
use stratum_v2_tools.Mining.Types.{Connection, ConnectionInfo, count_share, from_connection}

module _ {fl : Floats} where
  unfoldable pub after_shares : ConnectionInfo fl → List Bool → ConnectionInfo fl
  after_shares c [] = c
  after_shares c (b ∷ bs) = after_shares (count_share b c) bs

  counts_from :
      (c : ConnectionInfo fl) (bs : List Bool)
      → c.total_shares + length bs < u64_mod
      → c.valid_shares ≤ c.total_shares
      → ((after_shares c bs).total_shares ≡ c.total_shares + length bs)
        × ((after_shares c bs).valid_shares ≡ c.valid_shares + count_by (λ b. b) bs)
  unfolding after_shares count_by count_share
  counts_from c [] h o = (omega arith, omega arith)
  counts_from c (b ∷ bs) h o =
      let total = add_u64_exact c.total_shares 1 (omega arith) in
      let valid_count = add_u64_exact c.valid_shares 1 (omega arith) in
      let d = count_share b c in
      let dt : d.total_shares ≡ c.total_shares + 1 = ground (arith, total) in
      let dv : d.valid_shares ≡ c.valid_shares + (if b then 1 else 0) =
        ground (arith, valid_count) in
      let rest = counts_from d bs (omega (arith, dt)) (ground (arith, dt, dv)) in
      (omega (arith, rest.0, dt), omega (arith, rest.1, dv))

-- A connection that has added fewer than 2 ^ 64 shares since it was made counts all of them, and as
-- valid those that were added as valid.
pub after_shares-from_connection :
    (fl : Floats) (conn : Connection) (bs : List Bool)
    → length bs < u64_mod
    → let c = after_shares (from_connection {fl = fl} conn) bs in
      (c.total_shares ≡ length bs) × (c.valid_shares ≡ count_by (λ b. b) bs)
unfolding from_connection
after_shares-from_connection fl conn bs h =
    let n = counts_from (from_connection {fl = fl} conn) bs (omega arith) (omega arith) in
    (omega (arith, n.0), omega (arith, n.1))
