-- ===== src/Error.antt =====
-- The error type of sv2-core/src/error.rs. The error types of other crates are parameters.
use stratum_v2_tools.Common.{
  Bool, String, ap, arith, false, inl, inr, nat_eq, refl, string_eq, true, ℕ, ◌≡◌, ◌⊎◌,
}

-- The foreign error types, with the values that `Clone for Error` puts in place of those which
-- cannot be copied.
pub record Foreign : Type 1 where
  pub Sqlx : Type 0
  pub pool_closed : Sqlx
  pub Migrate : Type 0
  pub version_missing : ℕ → Migrate
  pub Io : Type 0
  pub io_other : String → Io
  pub Json : Type 0
  pub json_io : Io → Json
  pub UuidParse : Type 0
  pub AddrParse : Type 0
  pub Hex : Type 0
  pub invalid_char : ℕ → Hex
  pub Encode : Type 0
  pub encode_io : Io → Encode
  pub FromUtf8 : Type 0

-- `ShareValidationError` of sv2-core/src/share_validator.rs.
pub data ShareValidationError : Type 0 where
  invalid_difficulty invalid_timestamp invalid_nonce invalid_target duplicate_share :
      String → ShareValidationError
  expired_template insufficient_work malformed_data template_not_found :
      String → ShareValidationError

pub data Error (F : Foreign) : Type 0 where
  config protocol connection network mining : String → Error F
  database : F.Sqlx → Error F
  migration : F.Migrate → Error F
  bitcoin_rpc : String → Error F
  io : F.Io → Error F
  serialization : F.Json → Error F
  invalid_share : String → Error F
  share_validation : ShareValidationError → Error F
  uuid : F.UuidParse → Error F
  address_parse : F.AddrParse → Error F
  bitcoin_hash : F.Hex → Error F
  bitcoin_consensus : F.Encode → Error F
  template authentication authorization system internal metrics : String → Error F
  utf8 : F.FromUtf8 → Error F

pub data Result {ℓ} (F : Foreign) (A : Type ℓ) : Type ℓ where
  ok : A → Result F A
  err : Error F → Result F A

infixl 5 ◌>>=◌
abbrev pub ◌>>=◌ {ℓ κ} :
    {F : Foreign} {A : Type ℓ} {B : Type κ} → Result F A → (A → Result F B) → Result F B
ok a >>= k = k a
err e >>= k = err e

module _ {F : Foreign} where
  unfoldable pub is_recoverable : Error F → Bool
  is_recoverable (connection _) = true
  is_recoverable (network _) = true
  is_recoverable (bitcoin_rpc _) = true
  is_recoverable (database _) = true
  is_recoverable (migration _) = false
  is_recoverable (io _) = true
  is_recoverable _ = false

  unfoldable pub category : Error F → String
  category (config _) = "config"
  category (protocol _) = "protocol"
  category (connection _) = "connection"
  category (network _) = "network"
  category (mining _) = "mining"
  category (database _) = "database"
  category (migration _) = "migration"
  category (bitcoin_rpc _) = "bitcoin_rpc"
  category (io _) = "io"
  category (serialization _) = "serialization"
  category (invalid_share _) = "invalid_share"
  category (share_validation _) = "share_validation"
  category (uuid _) = "uuid"
  category (address_parse _) = "address_parse"
  category (bitcoin_hash _) = "bitcoin_hash"
  category (bitcoin_consensus _) = "bitcoin_consensus"
  category (template _) = "template"
  category (authentication _) = "authentication"
  category (authorization _) = "authorization"
  category (system _) = "system"
  category (internal _) = "internal"
  category (metrics _) = "metrics"
  category (utf8 _) = "utf8"

  -- `Clone for Error`: a copy of an error that cannot be copied is a stand-in.
  unfoldable pub clone : Error F → Error F
  clone (database _) = database F.pool_closed
  clone (migration _) = migration (F.version_missing 0)
  clone (io _) = io (F.io_other "IO Error")
  clone (serialization _) = serialization (F.json_io (F.io_other "Serialization Error"))
  clone (bitcoin_hash _) = bitcoin_hash (F.invalid_char b'x')
  clone (bitcoin_consensus _) =
      bitcoin_consensus (F.encode_io (F.io_other "Bitcoin Consensus Error"))
  clone e = e

-- A clone has the category and the recoverability of its original, and a second clone is the same
-- as the first.
pub clone-category :
    {F : Foreign} (e : Error F)
    → (category (clone e) ≡ category e)
      × (is_recoverable (clone e) ≡ is_recoverable e)
      × (clone (clone e) ≡ clone e)
unfolding clone category is_recoverable
clone-category (database _) = (refl, refl, refl)
clone-category e = (refl, refl, refl)

pub Result-cases :
    {F : Foreign} {T : Type 0} (r : Result F T)
    → ((a : T) × (r ≡ ok a)) ⊎ ((e : Error F) × (r ≡ err e))
Result-cases (ok a) = inl (a, refl)
Result-cases (err e) = inr (e, refl)

-- A chain of results that ends well has gone well at each step.
pub bind-ok {ℓ κ} :
    {F : Foreign} {A : Type ℓ} {B : Type κ} (r : Result F A) (k : A → Result F B) (b : B)
    → (r >>= k) ≡ ok b
    → (a : A) × (r ≡ ok a) × (k a ≡ ok b)
bind-ok (ok a) k b h = (a, refl, h)
bind-ok (err e) k b h = ground arith

abbrev ok_or {ℓ} : {F : Foreign} {A : Type ℓ} → A → Result F A → A
ok_or d (ok a) = a
ok_or d (err e) = d

pub ok-injective {ℓ} :
    {F : Foreign} {A : Type ℓ} (a b : A) → Path (Result F A) (ok a) (ok b) → a ≡ b
ok-injective a b h = ap (ok_or a) h
