-- ===== src/Mining/Accepted.antt =====
-- What the validator of sv2-core/src/share_validator.rs has checked of a share that it answers
-- without an error.
use stratum_v2_tools.Common.{
  List, Option-cases, String, [], ap, arith, false, foldl, if◌then◌else◌, inl, inr, nat_eq, refl,
  some, string_eq, true, ℕ, ◌*◌, ◌++◌, ◌+◌, ◌↔◌, ◌∙◌, ◌∷◌, ◌≡◌, ◌≤◌,
}
use stratum_v2_tools.Common.Floats.{Floats}
use stratum_v2_tools.Common.Map.{contains_key, get}
use stratum_v2_tools.Common.Words.{add_u32, as_u32}
use stratum_v2_tools.Error.{Foreign, bind-ok, ok}
use stratum_v2_tools.Mining.Chain.{Chain}
use stratum_v2_tools.Mining.Headers.{
  backwards, build_block_header, calculate_block_hash, from_be_bytes, hash_meets_target, take,
}
use stratum_v2_tools.Mining.Types.{
  Share, ShareResult, ShareSubmission, WorkTemplate, is_expired_template, share_block, unix_seconds,
}
use stratum_v2_tools.Mining.Validator.{
  Message, Readings, ShareValidator, share_eq, ShareValidatorConfig, block_of,
  check_duplicate_share, difficulty_to_target, get_template, judge, judge_hash, share_hash,
  validate_against_template, validate_basic_share_data, validate_proof_of_work,
}

-- The checks on the data of a submission, spelled out.
pub record IsChecked {fl : Floats} {ch : Chain} (at : Readings) (submission : ShareSubmission fl ch)
    (v : ShareValidator fl ch) : Type 0 where
  pub template_id : ℕ
  pub template : WorkTemplate fl ch
  pub named : ch.parse_uuid submission.job_id ≡ some template_id
  pub listed : get template_id v.templates ≡ some template
  pub not_below : fl.lt submission.share.difficulty v.config.min_difficulty ≡ false
  pub not_above : fl.lt v.config.max_difficulty submission.share.difficulty ≡ false
  pub not_old :
      as_u32 (unix_seconds at.basic)
      ≤ submission.share.timestamp + as_u32 v.config.max_share_age_seconds
  pub not_future : submission.share.timestamp ≤ add_u32 (as_u32 (unix_seconds at.basic)) 300
  pub positive : fl.le submission.share.difficulty (fl.of_nat 0) ≡ false
  pub has_nonce : 1 ≤ submission.share.nonce
  pub not_expired : at.expiry ≤ template.expires_at
  pub not_before : template.timestamp ≤ submission.share.timestamp
  pub not_repeated :
      v.config.enable_duplicate_detection ≡ true
      → contains_key (share_hash submission.share) v.recent_shares ≡ false

foldl-append :
    (done before after : List ℕ)
    → foldl (λ xs x. x ∷ xs) done (before ++ after)
      ≡ foldl (λ xs x. x ∷ xs) (foldl (λ xs x. x ∷ xs) done before) after
foldl-append done [] after = refl
foldl-append done (x ∷ before) after = foldl-append (x ∷ done) before after

-- The last four bytes of a hash, the last one first, are the compact form that is compared.
pub hash_meets_target_lem :
    (ch : Chain) (before : List ℕ) (a b c d : ℕ) (target : ch.Target)
    → hash_meets_target ch (before ++ (a ∷ b ∷ c ∷ d ∷ [])) target
      ≡ ch.target_le (ch.from_compact (d * 16777216 + c * 65536 + b * 256 + a)) target
unfolding hash_meets_target from_be_bytes backwards take
hash_meets_target_lem ch before a b c d target =
    ap (λ l. ch.target_le (ch.from_compact (from_be_bytes (take 4 l))) target)
      (foldl-append [] before (a ∷ b ∷ c ∷ d ∷ []))
    ∙ ap (λ n. ch.target_le (ch.from_compact n) target) (omega arith)

module _ {fl : Floats} {ch : Chain} {F : Foreign} (format : Message fl → String) where
  basic_checks :
      (c : ShareValidatorConfig fl ch) (clock : ℕ) (share : Share fl ch)
      → validate_basic_share_data {F = F} format c clock share ≡ ok tt
      → (fl.lt share.difficulty c.min_difficulty ≡ false)
        × (fl.lt c.max_difficulty share.difficulty ≡ false)
        × (as_u32 (unix_seconds clock) ≤ share.timestamp + as_u32 c.max_share_age_seconds)
        × (share.timestamp ≤ add_u32 (as_u32 (unix_seconds clock)) 300)
        × (1 ≤ share.nonce)
  unfolding validate_basic_share_data
  basic_checks c clock share h =
      (ground arith, ground arith, ground arith, ground arith, ground arith)

  template_checks :
      (v : ShareValidator fl ch) (job_id : String) (template : WorkTemplate fl ch)
      → get_template {F = F} format v job_id ≡ ok template
      → (id : ℕ) × (ch.parse_uuid job_id ≡ some id) × (get id v.templates ≡ some template)
  unfolding get_template
  template_checks v job_id template h = elim (Option-cases (ch.parse_uuid job_id)) [
    | inl missing ↦ ground (arith, missing)
    | inr (id, found) ↦ (id, found, ground (arith, found))
  ]

  age_checks :
      (now : ℕ) (share : Share fl ch) (template : WorkTemplate fl ch)
      → validate_against_template {F = F} format now share template ≡ ok tt
      → (now ≤ template.expires_at) × (template.timestamp ≤ share.timestamp)
  unfolding validate_against_template is_expired_template
  age_checks now share template h = (ground arith, ground arith)

  fresh_checks :
      (v : ShareValidator fl ch) (share : Share fl ch) (u : Unit {0})
      → (if v.config.enable_duplicate_detection
          then check_duplicate_share {F = F} format v share
          else ok tt)
        ≡ ok u
      → v.config.enable_duplicate_detection ≡ true
      → contains_key (share_hash share) v.recent_shares ≡ false
  unfolding check_duplicate_share
  fresh_checks v share u h on = ground arith

  work_checks :
      (c : ShareValidatorConfig fl ch) (share : Share fl ch) (template : WorkTemplate fl ch)
      (extranonce2 : List ℕ) (r : ShareResult ch)
      → validate_proof_of_work {F = F} format c share template extranonce2 ≡ ok r
      → fl.le share.difficulty (fl.of_nat 0) ≡ false
  unfolding validate_proof_of_work difficulty_to_target
  work_checks c share template extranonce2 r h = ground arith

  -- What a judgement without an error has gone through.
  pub judge-IsChecked :
      (at : Readings) (submission : ShareSubmission fl ch) (v : ShareValidator fl ch)
      (r : ShareResult ch)
      → judge {F = F} format at submission v ≡ ok r
      → IsChecked at submission v
  unfolding judge
  judge-IsChecked at submission v r h =
      let (_, basic, h1) = bind-ok _ _ _ h in
      let (template, got, h2) = bind-ok _ _ _ h1 in
      let (_, aged, h3) = bind-ok _ _ _ h2 in
      let (_, fresh, worked) = bind-ok _ _ _ h3 in
      let b = basic_checks v.config at.basic submission.share basic in
      let t = template_checks v submission.job_id template got in
      let a = age_checks at.expiry submission.share template aged in
      record {
        template_id = t.0;
        template = template;
        named = t.1;
        listed = t.2;
        not_below = b.0;
        not_above = b.1;
        not_old = b.2;
        not_future = b.3;
        positive = work_checks v.config submission.share template submission.extranonce2 r worked;
        has_nonce = b.4;
        not_expired = a.0;
        not_before = a.1;
        not_repeated = fresh_checks v submission.share _ fresh;
      }

  -- Let the last four bytes of the header's hash be `a`, `b`, `c` and `d`. The proof of work finds a
  -- block exactly if the difficulty does not compare as at most zero, blocks are looked for, the
  -- target whose compact form is the number with the bytes `d`, `c`, `b`, `a`, the greatest first, is
  -- at most the target of the difficulty and at most the network's, and the hash reads as a block hash.
  pub validate_proof_of_work_block_iff :
      (config : ShareValidatorConfig fl ch) (share : Share fl ch) (template : WorkTemplate fl ch)
      (extranonce2 before : List ℕ) (a b c d : ℕ) (h : ch.BlockHash)
      → ch.sha256 (ch.sha256 (build_block_header share template extranonce2))
        ≡ before ++ (a ∷ b ∷ c ∷ d ∷ [])
      → let reached = ch.from_compact (d * 16777216 + c * 65536 + b * 256 + a) in
        let compact = fl.to_u32 (fl.div (fl.of_nat 486604799) share.difficulty) in
        (validate_proof_of_work {F = F} format config share template extranonce2
          ≡ ok (share_block h))
        ↔ ((fl.le share.difficulty (fl.of_nat 0) ≡ false)
            × (config.enable_block_detection ≡ true)
            × (ch.target_le reached (ch.from_compact compact) ≡ true)
            × (ch.target_le reached config.network_target ≡ true)
            × (ch.parse_hash (ch.hex_encode (before ++ (a ∷ b ∷ c ∷ d ∷ []))) ≡ some h))
  unfolding validate_proof_of_work difficulty_to_target judge_hash block_of calculate_block_hash
      build_block_header
  validate_proof_of_work_block_iff config share template extranonce2 before a b c d h hashed =
      let compact = fl.to_u32 (fl.div (fl.of_nat 486604799) share.difficulty) in
      let own = hash_meets_target_lem ch before a b c d (ch.from_compact compact) in
      let network = hash_meets_target_lem ch before a b c d config.network_target in
      ground (
        arith,
        hashed,
        own,
        network,
        ap ch.hex_encode hashed,
        ap (λ x. hash_meets_target ch x (ch.from_compact compact)) hashed,
        ap (λ x. hash_meets_target ch x config.network_target) hashed,
      )
