-- ===== src/Mining/Chain.antt =====
-- What the program takes from the crates bitcoin, sha2, hex, uuid and chrono: types and functions as
-- a parameter, with the documented lengths as laws. A byte is a number.
use stratum_v2_tools.Common.{
  Bool, List, Option, String, [], leb, length, nat_eq, refl, some, string_eq, suc, zero, ℕ, ◌∷◌,
  ◌≡◌,
}

pub record Chain : Type 1 where
  pub Transaction : Type 0
  pub serialize : Transaction → List ℕ
  pub BlockHash : Type 0
  -- `BlockHash::to_string`, as text.
  pub hash_text : BlockHash → String
  -- `BlockHash::from_str` of a text.
  pub parse_hash : String → Option BlockHash
  pub Target : Type 0
  -- `Target::from_compact` of `CompactTarget::from_consensus`.
  pub from_compact : ℕ → Target
  pub target_le : Target → Target → Bool
  pub sha256 : List ℕ → List ℕ
  pub hex_encode : List ℕ → String
  pub hex_decode : String → Option (List ℕ)
  pub parse_uuid : String → Option ℕ
  -- How many nanoseconds the dates of chrono reach back before 1970, and on after it.
  pub earliest : ℕ
  pub latest : ℕ
  pub length-sha256 : (b : List ℕ) → length (sha256 b) ≡ 32
  -- A block hash prints as 64 hexadecimal digits.
  pub decode_hash_text :
      (h : BlockHash) → (b : List ℕ) × (hex_decode (hash_text h) ≡ some b) × (length b ≡ 32)

-- Zeros for every hash, and numbers for targets, satisfy the laws.
abbrev zeros : ℕ → List ℕ
zeros zero = []
zeros (suc n) = 0 ∷ zeros n

abbrev pub toy_chain : Chain
toy_chain = record {
  Transaction = Unit {0};
  serialize = λ _. [];
  BlockHash = Unit {0};
  hash_text = λ _. "";
  parse_hash = λ _. some tt;
  Target = ℕ;
  from_compact = λ n. n;
  target_le = leb;
  sha256 = λ _. zeros 32;
  hex_encode = λ _. "";
  hex_decode = λ _. some (zeros 32);
  parse_uuid = λ _. some 7;
  earliest = 8_000_000_000_000_000_000_000;
  latest = 8_000_000_000_000_000_000_000;
  length-sha256 = λ _. refl;
  decode_hash_text = λ _. (zeros 32, refl, refl);
}
