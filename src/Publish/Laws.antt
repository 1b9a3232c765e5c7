-- ===== src/Publish/Laws.antt =====
-- internal/publish/publish.go: what a proven attempt has shown, and that the gate refuses the rest.
use rusui.Common.{
  ℕ, ◌≤◌, ◌≡◌, ◌≢◌, refl, ◌↔◌, ◌⊎◌, Bool, true, false, ◌&&◌, ◌||◌, not, if◌then◌else◌, arith, ◌==◌,
  ltb, str_eq, Text, is_zero,
}
use rusui.Publish.{
  Outcome, proven, denied, cancelled, source_drift, ambiguous, checks_unavailable, Attempt,
  permitted, ref_ok, evaluate, max_repair,
}
use rusui.Publish.Refs.{
  NamedWrite, permitted_iff, IsOwnRef, ref_ok_iff, str_eq-eq, eq-str_eq, str_eq-other, other-str_eq,
}

-- A test that an attempt passes on its way to being proven.
passes :
    (b : Bool) (o x : Outcome)
    → o ≢ proven
    → (if b then o else x) ≡ proven
    → (b ≡ false) × (x ≡ proven)
passes true o x n e = ground arith
passes false o x n e = (refl, e)

un_not : (b : Bool) → not b ≡ false → b ≡ true
un_not b e = ground arith

un_or : (b c : Bool) → (b || c) ≡ false → (b ≡ false) × (c ≡ false)
un_or b c e = ground arith

within : (n : ℕ) → ltb max_repair n ≡ false → n ≤ max_repair
within n e = ground arith

not_over : (n : ℕ) → n ≤ max_repair → ltb max_repair n ≡ false
not_over n e = ground arith

authored :
    (author session : ℕ)
    → (not (author == 0) && not (author == session)) ≡ false
    → (author ≡ 0) ⊎ (author ≡ session)
authored author session e = ground arith

un_authored :
    (author session : ℕ)
    → (author ≡ 0) ⊎ (author ≡ session)
    → (not (author == 0) && not (author == session)) ≡ false
un_authored author session e = ground arith

module _ (format_int : ℕ → Text) where
  -- What an attempt must show to be proven.
  pub record IsProof (a : Attempt) : Type 0 where
    pub live : a.cancelled ≡ false
    pub named_write : NamedWrite a.action
    pub no_write_creds : a.proof.had_write_creds ≡ false
    pub not_self_declared : a.proof.agent_declared_verified ≡ false
    pub same_policy : a.proof.policy_mutated ≡ false
    pub required_checks : a.proof.required_checks_disabled ≡ false
    pub isolated : a.proof.isolated ≡ true
    pub fresh : a.proof.expired ≡ false
    pub repairs : a.proof.repair_count ≤ 3
    pub repo : a.source.repo ≢ ""
    pub source_named : a.source.snapshot_hash ≢ ""
    pub commit_named : a.candidate.commit_sha ≢ ""
    pub own_ref : IsOwnRef format_int a.candidate
    pub same_source : a.proof.source_snapshot_hash ≡ a.source.snapshot_hash
    pub same_commit : a.proof.head_sha ≡ a.candidate.commit_sha
    pub passed : is_zero a.proof.exit_code ≡ true
    pub checked : a.proof.checks_available ≡ true
    pub reviewed : (a.proof.reviewer_session_id == 0) ≡ false
    pub by_another : (a.proof.reviewer_session_id == a.proof.author_session_id) ≡ false
    pub by_author :
        (a.proof.author_session_id ≡ 0) ⊎ (a.proof.author_session_id ≡ a.candidate.session_id)

  evaluate_sound : (a : Attempt) → evaluate format_int a ≡ proven → IsProof a
  unfolding evaluate
  evaluate_sound a e =
      let (live, e1) = passes a.cancelled cancelled _ (ground arith) e in
      let (named, e2) = passes (not (permitted a.action)) denied _ (ground arith) e1 in
      let (claims, e3) =
        passes
          (a.proof.had_write_creds
            || (a.proof.agent_declared_verified
                || (a.proof.policy_mutated || a.proof.required_checks_disabled)))
          denied _ (ground arith) e2 in
      let (isolated, e4) = passes (not a.proof.isolated) denied _ (ground arith) e3 in
      let (fresh, e5) = passes a.proof.expired denied _ (ground arith) e4 in
      let (repairs, e6) = passes (ltb max_repair a.proof.repair_count) denied _ (ground arith) e5 in
      let (source, e7) =
        passes
          (str_eq a.source.repo ""
            || (str_eq a.source.snapshot_hash "" || str_eq a.candidate.commit_sha ""))
          denied _ (ground arith) e6 in
      let (ref, e8) = passes (not (ref_ok format_int a.candidate)) denied _ (ground arith) e7 in
      let (drift, e9) =
        passes (not (str_eq a.proof.source_snapshot_hash a.source.snapshot_hash)) source_drift _
          (ground arith) e8 in
      let (head, e10) =
        passes (not (str_eq a.proof.head_sha a.candidate.commit_sha)) ambiguous _ (ground arith)
          e9 in
      let (exit, e11) = passes (not (is_zero a.proof.exit_code)) denied _ (ground arith) e10 in
      let (checks, e12) =
        passes (not a.proof.checks_available) checks_unavailable _ (ground arith) e11 in
      let (review, e13) =
        passes
          (a.proof.reviewer_session_id == 0
            || a.proof.reviewer_session_id == a.proof.author_session_id)
          denied _ (ground arith) e12 in
      let (author, e14) =
        passes
          (not (a.proof.author_session_id == 0)
            && not (a.proof.author_session_id == a.candidate.session_id))
          denied _ (ground arith) e13 in
      let (creds, c1) = un_or a.proof.had_write_creds _ claims in
      let (self, c2) = un_or a.proof.agent_declared_verified _ c1 in
      let (policy, required) = un_or a.proof.policy_mutated _ c2 in
      record {
        live = live;
        named_write = (permitted_iff a.action).0 (un_not _ named);
        no_write_creds = creds;
        not_self_declared = self;
        same_policy = policy;
        required_checks = required;
        isolated = un_not _ isolated;
        fresh = fresh;
        repairs = within _ repairs;
        repo = str_eq-other _ _ (un_or _ _ source).0;
        source_named = str_eq-other _ _ (un_or _ _ (un_or _ _ source).1).0;
        commit_named = str_eq-other _ _ (un_or _ _ (un_or _ _ source).1).1;
        own_ref = (ref_ok_iff format_int a.candidate).0 (un_not _ ref);
        same_source = str_eq-eq _ _ (un_not _ drift);
        same_commit = str_eq-eq _ _ (un_not _ head);
        passed = un_not _ exit;
        checked = un_not _ checks;
        reviewed = (un_or _ _ review).0;
        by_another = (un_or _ _ review).1;
        by_author = authored _ _ author;
      }

  evaluate_complete : (a : Attempt) → IsProof a → evaluate format_int a ≡ proven
  unfolding evaluate
  evaluate_complete a p =
      rw
        (
          p.live,
          (permitted_iff a.action).1 p.named_write,
          p.no_write_creds,
          p.not_self_declared,
          p.same_policy,
          p.required_checks,
          p.isolated,
          p.fresh,
          not_over _ p.repairs,
          other-str_eq _ _ p.repo,
          other-str_eq _ _ p.source_named,
          other-str_eq _ _ p.commit_named,
          (ref_ok_iff format_int a.candidate).1 p.own_ref,
          eq-str_eq _ _ p.same_source,
          eq-str_eq _ _ p.same_commit,
          p.passed,
          p.checked,
          p.reviewed,
          p.by_another,
          un_authored _ _ p.by_author,
        )
        refl

  -- An attempt is proven exactly when it is not cancelled, asks to open or to update a pull request, and
  -- its source, its candidate on a branch of its own session, and its proof meet the conditions listed in
  -- `IsProof`.
  pub evaluate-proven : (a : Attempt) → (evaluate format_int a ≡ proven) ↔ IsProof a
  evaluate-proven a = (evaluate_sound a, evaluate_complete a)
