-- ===== src/Mining/Replay.antt =====
-- A share that the validator of sv2-core/src/share_validator.rs has answered is not answered again
-- while it is remembered.
use stratum_v2_tools.Common.{
  ==_iff, ==_refl, All, Bool-cases, List, Option-cases, String, [], arith, false, get_or, inl, inr,
  nat_eq, none, refl, some, string_eq, subst, sym, true, ℕ, ◌+◌, ◌<◌, ◌==◌, ◌∷◌, ◌≡◌,
}
use stratum_v2_tools.Common.Floats.{Floats}
use stratum_v2_tools.Common.Map.{
  IsMap, contains_key, contains_key-get, get, get-insert, get-retain, insert-IsMap, retain-IsMap,
}
use stratum_v2_tools.Common.Words.{abs_i64, i64_half, is_negative_i64}
use stratum_v2_tools.Error.{Error, Foreign, Result-cases, err, ok}
use stratum_v2_tools.Mining.Accepted.{judge-IsChecked}
use stratum_v2_tools.Mining.Chain.{Chain}
use stratum_v2_tools.Mining.Types.{Share, ShareResult, ShareSubmission, seconds}
use stratum_v2_tools.Mining.Validator.{
  Message, Readings, ShareHash, ShareValidator, ShareValidatorConfig, answer_cleaned,
  cleanup_old_shares, has_cutoff, is_recent, judge, record_share, share_eq, share_hash,
  validate_share,
}

-- A submission with its readings of the clock.
pub record Sent (fl : Floats) (ch : Chain) : Type 0 where
  pub at : Readings
  pub submission : ShareSubmission fl ch

module _ {fl : Floats} {ch : Chain} where
  -- The validator looks for repetitions and remembers the share since `t`.
  pub record IsRemembered (c : ShareValidatorConfig fl ch) (h : ShareHash) (t : ℕ)
      (v : ShareValidator fl ch) : Type 0 where
    pub same : v.config ≡ c
    pub shares_map : IsMap v.recent_shares
    pub since : get h v.recent_shares ≡ some t

  -- A share within a window that is positive as an `i64`.
  within_window :
      (c : ShareValidatorConfig fl ch) (now t : ℕ)
      → c.duplicate_window_seconds < i64_half
      → now < t + seconds c.duplicate_window_seconds
      → is_recent c now t ≡ true
  unfolding is_recent is_negative_i64 abs_i64
  within_window c now t w o = ground arith

  cleanup-IsRemembered :
      (c : ShareValidatorConfig fl ch) (h : ShareHash) (t now : ℕ) (v : ShareValidator fl ch)
      → c.duplicate_window_seconds < i64_half
      → now < t + seconds c.duplicate_window_seconds
      → IsRemembered c h t v
      → IsRemembered c h t (get_or (cleanup_old_shares now v) v)
  unfolding cleanup_old_shares
  cleanup-IsRemembered c h t now v w o m = elim (Bool-cases (has_cutoff v.config now)) [
    | inr out ↦ rw (out, cleanup_old_shares) m
    | inl in_range ↦
        let recent : is_recent v.config now t ≡ true =
          subst (λ d. is_recent d now t ≡ true) (sym m.same) (within_window c now t w o) in
        let kept = get-retain (λ _ s. is_recent v.config now s) h v.recent_shares m.shares_map in
        rw (in_range, cleanup_old_shares)
          (record {
            same = m.same;
            shares_map = retain-IsMap _ v.recent_shares m.shares_map;
            since = ground (arith, recent, m.since, kept);
          })
  ]

  record-IsRemembered :
      (now : ℕ) (share : Share fl ch) (v : ShareValidator fl ch)
      → IsMap v.recent_shares
      → IsRemembered v.config (share_hash share) now (record_share now share v)
  unfolding record_share
  record-IsRemembered now share v m = record {
    same = refl;
    shares_map = insert-IsMap (share_hash share) now v.recent_shares m;
    since = ground (
      arith,
      ==_refl (share_hash share),
      get-insert (share_hash share) (share_hash share) now v.recent_shares,
    );
  }

  -- Another share is recorded beside it.
  record_other-IsRemembered :
      (c : ShareValidatorConfig fl ch) (h : ShareHash) (t now : ℕ) (share : Share fl ch)
      (v : ShareValidator fl ch)
      → contains_key (share_hash share) v.recent_shares ≡ false
      → IsRemembered c h t v
      → IsRemembered c h t (record_share now share v)
  unfolding record_share
  record_other-IsRemembered c h t now share v new m =
      let missing : get (share_hash share) v.recent_shares ≡ none =
        (contains_key-get (share_hash share) v.recent_shares).0 new in
      record {
        same = m.same;
        shares_map = insert-IsMap (share_hash share) now v.recent_shares m.shares_map;
        since = elim (Bool-cases (share_hash share == h)) [
          | inl e ↦
              let g : get h v.recent_shares ≡ none =
                subst (λ k. get k v.recent_shares ≡ none) ((==_iff (share_hash share) h).0 e)
                  missing in
              absurd (ground (arith, g, m.since))
          | inr e ↦ ground (arith, e, m.since, get-insert (share_hash share) h now v.recent_shares)
        ];
      }

module _ {fl : Floats} {ch : Chain} (F : Foreign) (format : Message fl → String) where
  unfoldable pub after_sent : ShareValidator fl ch → List (Sent fl ch) → ShareValidator fl ch
  after_sent v [] = v
  after_sent v (s ∷ ss) = after_sent (validate_share {F = F} format s.at s.submission v).0 ss

  validate_share_ok :
      (at : Readings) (submission : ShareSubmission fl ch) (v : ShareValidator fl ch)
      (r : ShareResult ch)
      → judge {F = F} format at submission v ≡ ok r
      → v.config.enable_duplicate_detection ≡ true
      → (validate_share {F = F} format at submission v).0 ≡ (
          let w = record_share at.recorded submission.share v in
          get_or (cleanup_old_shares at.cleaned w) w)
  unfolding validate_share answer_cleaned
  validate_share_ok at submission v r good on =
      elim (Option-cases
        (cleanup_old_shares at.cleaned (record_share at.recorded submission.share v))) [
          | inl e ↦ ground (arith, good, on, e)
          | inr (w, e) ↦ ground (arith, good, on, e)
        ]

  validate_share-IsRemembered :
      (c : ShareValidatorConfig fl ch) (h : ShareHash) (t : ℕ) (s : Sent fl ch)
      (v : ShareValidator fl ch)
      → c.enable_duplicate_detection ≡ true
      → c.duplicate_window_seconds < i64_half
      → s.at.cleaned < t + seconds c.duplicate_window_seconds
      → IsRemembered c h t v
      → IsRemembered c h t (validate_share {F = F} format s.at s.submission v).0
  unfolding validate_share
  validate_share-IsRemembered c h t s v on wide o m =
      let on' : v.config.enable_duplicate_detection ≡ true =
        subst (λ d. d.enable_duplicate_detection ≡ true) (sym m.same) on in
      elim (Result-cases (judge {F = F} format s.at s.submission v)) [
        | inr (e, failed) ↦ rw (failed, validate_share) m
        | inl (r, good) ↦
            let new =
              (judge-IsChecked {F = F} format s.at s.submission v r good).not_repeated on' in
            subst (IsRemembered c h t) (sym (validate_share_ok s.at s.submission v r good on')) (
              cleanup-IsRemembered c h t s.at.cleaned _ wide o
                (record_other-IsRemembered c h t s.at.recorded s.submission.share v new m))
      ]

  accepted-IsRemembered :
      (at : Readings) (submission : ShareSubmission fl ch) (v : ShareValidator fl ch)
      (r : ShareResult ch)
      → v.config.enable_duplicate_detection ≡ true
      → IsMap v.recent_shares
      → v.config.duplicate_window_seconds < i64_half
      → at.cleaned < at.recorded + seconds v.config.duplicate_window_seconds
      → (validate_share {F = F} format at submission v).1 ≡ some (ok r)
      → IsRemembered v.config
          (share_hash submission.share)
          at.recorded
          (validate_share {F = F} format at submission v).0
  unfolding validate_share
  accepted-IsRemembered at submission v r on m wide o h =
      elim (Result-cases (judge {F = F} format at submission v)) [
        | inr (e, failed) ↦ ground (arith, h, failed)
        | inl (x, good) ↦
            subst (IsRemembered v.config (share_hash submission.share) at.recorded)
              (sym (validate_share_ok at submission v x good on))
              (cleanup-IsRemembered v.config _ at.recorded at.cleaned _ wide o
                (record-IsRemembered at.recorded submission.share v m))
      ]

  after_sent-IsRemembered :
      (c : ShareValidatorConfig fl ch) (h : ShareHash) (t : ℕ) (ss : List (Sent fl ch))
      (v : ShareValidator fl ch)
      → c.enable_duplicate_detection ≡ true
      → c.duplicate_window_seconds < i64_half
      → All (λ s. s.at.cleaned < t + seconds c.duplicate_window_seconds) ss
      → IsRemembered c h t v
      → IsRemembered c h t (after_sent v ss)
  unfolding after_sent
  after_sent-IsRemembered c h t [] v on wide os m = m
  after_sent-IsRemembered c h t (s ∷ ss) v on wide (o, os) m =
      after_sent-IsRemembered c h t ss _ on wide os
        (validate_share-IsRemembered c h t s v on wide o m)

  -- Where repetitions are looked for, and the window is below 2 ^ 63 seconds, a share that was
  -- answered without an error is refused with an error when it is sent again, with the same
  -- connection, nonce and time stamp, whatever other submissions come before it, as long as their
  -- clean-ups run within the window that begins when the share was recorded.
  pub no_replay :
      (at again : Readings) (first second : ShareSubmission fl ch) (ss : List (Sent fl ch))
      (v : ShareValidator fl ch) (r : ShareResult ch)
      → v.config.enable_duplicate_detection ≡ true
      → v.config.duplicate_window_seconds < i64_half
      → IsMap v.recent_shares
      → (validate_share {F = F} format at first v).1 ≡ some (ok r)
      → at.cleaned < at.recorded + seconds v.config.duplicate_window_seconds
      → All (λ s. s.at.cleaned < at.recorded + seconds v.config.duplicate_window_seconds) ss
      → share_hash second.share ≡ share_hash first.share
      → let w = after_sent (validate_share {F = F} format at first v).0 ss in
        (e : Error F) × (validate_share {F = F} format again second w ≡ (w, some (err e)))
  unfolding validate_share
  no_replay at again first second ss v r on wide m h o os same =
      let w = after_sent (validate_share {F = F} format at first v).0 ss in
      let kept =
        after_sent-IsRemembered v.config (share_hash first.share) at.recorded ss _ on wide os
          (accepted-IsRemembered at first v r on m wide o h) in
      let on' : w.config.enable_duplicate_detection ≡ true =
        subst (λ d. d.enable_duplicate_detection ≡ true) (sym kept.same) on in
      elim (Result-cases (judge {F = F} format again second w)) [
        | inr (e, failed) ↦ (e, rw (failed, validate_share) refl)
        | inl (x, good) ↦
            let new = (judge-IsChecked {F = F} format again second w x good).not_repeated on' in
            let missing : get (share_hash second.share) w.recent_shares ≡ none =
              (contains_key-get (share_hash second.share) w.recent_shares).0 new in
            let missing' : get (share_hash first.share) w.recent_shares ≡ none =
              subst (λ k. get k w.recent_shares ≡ none) same missing in
            absurd (ground (arith, missing', kept.since))
      ]
