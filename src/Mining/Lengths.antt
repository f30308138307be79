-- ===== src/Mining/Lengths.antt =====
-- The length of the header that `ShareValidator` of sv2-core/src/share_validator.rs hashes, and what
-- it makes of a difficulty that is not a number.
use stratum_v2_tools.Common.{
  List, String, [], arith, length, length-append, min, nat_eq, refl, string_eq, suc, zero, ℕ, ◌++◌,
  ◌+◌, ◌∷◌, ◌≡◌, ◌≤◌,
}
use stratum_v2_tools.Common.Floats.{Floats}
use stratum_v2_tools.Common.Words.{add_u32, as_u32}
use stratum_v2_tools.Error.{Foreign, ok}
use stratum_v2_tools.Mining.Chain.{Chain}
use stratum_v2_tools.Mining.Headers.{
  build_block_header, calculate_merkle_root, previous_bytes, take, to_le_bytes,
}
use stratum_v2_tools.Mining.Types.{Share, WorkTemplate, unix_seconds}
use stratum_v2_tools.Mining.Validator.{
  Message, ShareValidatorConfig, difficulty_to_target, share_eq, validate_basic_share_data,
}

length-take : (n : ℕ) (xs : List ℕ) → length (take n xs) ≡ min n (length xs)
unfolding take
length-take zero xs = omega arith
length-take (suc n) [] = omega arith
length-take (suc n) (x ∷ xs) = omega (arith, length-take n xs)

length-to_le_bytes : (n : ℕ) → length (to_le_bytes n) ≡ 4
unfolding to_le_bytes
length-to_le_bytes n = refl

module _ {fl : Floats} {ch : Chain} where
  length-previous_bytes : (template : WorkTemplate fl ch) → length (previous_bytes template) ≡ 32
  unfolding previous_bytes
  length-previous_bytes template =
      let (bytes, decoded, full) = ch.decode_hash_text template.previous_hash in
      ground (arith, decoded, full, length-take 32 bytes)

  -- The header of a share has 80 bytes, as a block header has, whatever the share and the template.
  pub length-build_block_header :
      (share : Share fl ch) (template : WorkTemplate fl ch) (extranonce2 : List ℕ)
      → length (build_block_header share template extranonce2) ≡ 80
  unfolding build_block_header calculate_merkle_root
  length-build_block_header share template extranonce2 =
      let root = calculate_merkle_root template extranonce2 in
      let full : length root ≡ 32 = ch.length-sha256 _ in
      omega (
        arith,
        full,
        length-previous_bytes template,
        length-append (to_le_bytes 1) (
            previous_bytes template
            ++ (root
                ++ (to_le_bytes share.timestamp
                    ++ (to_le_bytes 545259519 ++ to_le_bytes share.nonce)))),
        length-append (previous_bytes template) (
            root
            ++ (to_le_bytes share.timestamp ++ (to_le_bytes 545259519 ++ to_le_bytes share.nonce))),
        length-append root
            (to_le_bytes share.timestamp ++ (to_le_bytes 545259519 ++ to_le_bytes share.nonce)),
        length-to_le_bytes 1,
        length-to_le_bytes share.timestamp,
        length-to_le_bytes share.nonce,
      )

-- A difficulty that is not a number passes the checks of every configured range: with a time stamp in
-- range and a nonce the basic validation succeeds, and the target is the one of the compact value 0.
pub nan_difficulty :
    {fl : Floats} {ch : Chain} {F : Foreign} (format : Message fl → String)
    (c : ShareValidatorConfig fl ch) (clock : ℕ) (share : Share fl ch)
    → share.difficulty ≡ fl.nan
    → as_u32 (unix_seconds clock) ≤ share.timestamp + as_u32 c.max_share_age_seconds
    → share.timestamp ≤ add_u32 (as_u32 (unix_seconds clock)) 300
    → 1 ≤ share.nonce
    → (validate_basic_share_data {F = F} format c clock share ≡ ok tt)
      × (difficulty_to_target {F = F} fl ch share.difficulty ≡ ok (ch.from_compact 0))
unfolding validate_basic_share_data difficulty_to_target
nan_difficulty {fl} {ch} format c clock share n old future nonce = (
  ground (arith, n, fl.lt-nan_left c.min_difficulty, fl.lt-nan_right c.max_difficulty),
  ground (arith, n, fl.le-nan_left (fl.of_nat 0), fl.div-nan (fl.of_nat 486604799), fl.to_u32-nan),
)
