-- ===== src/Mining/Headers.antt =====
-- The bytes that `ShareValidator` of sv2-core/src/share_validator.rs hashes. A byte is a number.
use stratum_v2_tools.Common.{
  Bool, List, [], foldl, nat_eq, none, some, string_eq, suc, zero, ℕ, ◌%◌, ◌*◌, ◌++◌, ◌+◌, ◌/◌, ◌∷◌,
}
use stratum_v2_tools.Common.Floats.{Floats}
use stratum_v2_tools.Mining.Chain.{Chain}
use stratum_v2_tools.Mining.Types.{Share, WorkTemplate}

-- The first `n` elements, or all.
unfoldable pub take : ℕ → List ℕ → List ℕ
take zero xs = []
take (suc n) [] = []
take (suc n) (x ∷ xs) = x ∷ take n xs

-- `vec![0u8; 32]`.
abbrev pub repeat : ℕ → List ℕ
repeat zero = []
repeat (suc n) = 0 ∷ repeat n

abbrev pub zero_bytes : List ℕ
zero_bytes = repeat 32

-- `u32::to_le_bytes`.
unfoldable pub to_le_bytes : ℕ → List ℕ
to_le_bytes n = n % 256 ∷ n / 256 % 256 ∷ n / 65536 % 256 ∷ n / 16777216 % 256 ∷ []

-- `u32::from_be_bytes` of four bytes.
unfoldable pub from_be_bytes : List ℕ → ℕ
from_be_bytes bytes = foldl (λ n b. n * 256 + b) 0 bytes

-- `hash_be.reverse()`.
unfoldable pub backwards : List ℕ → List ℕ
backwards bytes = foldl (λ done b. b ∷ done) [] bytes

module _ (ch : Chain) where
  -- The bytes of the transactions, one after the other.
  unfoldable pub transaction_bytes : List ch.Transaction → List ℕ
  transaction_bytes [] = []
  transaction_bytes (tx ∷ txs) = ch.serialize tx ++ transaction_bytes txs

  unfoldable pub calculate_block_hash : List ℕ → List ℕ
  calculate_block_hash header = ch.sha256 (ch.sha256 header)

  unfoldable pub hash_meets_target : List ℕ → ch.Target → Bool
  unfolding from_be_bytes backwards take
  hash_meets_target hash target =
      ch.target_le (ch.from_compact (from_be_bytes (take 4 (backwards hash)))) target

module _ {fl : Floats} {ch : Chain} where
  unfoldable pub calculate_merkle_root : WorkTemplate fl ch → List ℕ → List ℕ
  unfolding transaction_bytes
  calculate_merkle_root template extranonce2 = ch.sha256 (
      ch.serialize template.coinbase_tx
      ++ (extranonce2 ++ transaction_bytes ch template.transactions))

  unfoldable pub previous_bytes : WorkTemplate fl ch → List ℕ
  unfolding take
  previous_bytes template = elim (ch.hex_decode (ch.hash_text template.previous_hash)) [
    | some bytes ↦ take 32 bytes
    | none ↦ zero_bytes
  ]

  unfoldable pub build_block_header : Share fl ch → WorkTemplate fl ch → List ℕ → List ℕ
  unfolding previous_bytes calculate_merkle_root to_le_bytes
  build_block_header share template extranonce2 =
      to_le_bytes 1
      ++ (previous_bytes template
          ++ (calculate_merkle_root template extranonce2
              ++ (to_le_bytes share.timestamp
                  ++ (to_le_bytes 545259519 ++ to_le_bytes share.nonce))))
