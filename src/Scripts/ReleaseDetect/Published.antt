-- ===== src/Scripts/ReleaseDetect/Published.antt =====
-- What scripts/release_detect.py may publish, in every mode.
use cubrid_mcp_server.Common.{
  ◌≡◌, ◌⊎◌, refl, sym, ap, ◌∙◌, subst, true, false, not, ◌&&◌, inl, inr, Option, List, ◌∷◌,
  not-false,
}
use cubrid_mcp_server.Common.Text.{Text, text_eq, text_eq_iff}
use cubrid_mcp_server.Common.Unicode.{Unicode}
use cubrid_mcp_server.Common.Result.{
  ok, raise_if, Ensures, Ensures-bind, Ensures-ok, Ensures-self, Ensures-raise_if, Ensures-if,
  Ensures-all,
}
use cubrid_mcp_server.Config.{is_blank}
use cubrid_mcp_server.Scripts.Patterns.{is_version}
use cubrid_mcp_server.Scripts.ReleaseDetect.{
  DetectMode, push, resume, verify_only, dry_run, TagState, unknown, absent, same, different,
  DetectError, bad_version, no_tag, not_local, not_on_main, other_version, no_section, Decision,
  Git, Assign, has_dated_section, remote_tag_commit, tag_state, version_at, decided, detect_push,
  recovered, consistent, detect_existing, rehearsed, detect_dry_run, full_sha, needs_version,
  dispatch, detect,
}
use cubrid_mcp_server.Scripts.ReleaseDetect.Decisions.{
  now, before, dated_at, IsRelease, detect_push-Ensures,
}

module _ (u : Unicode) (git : Git) (ast_walk : Text → Option (List Assign))
    (version_file changelog remote main_ref : Text) where
  -- What a tag that is taken up again must be: that of a version of three numbers, at a commit of
  -- main that has this version and its dated section.
  pub record IsTagged (version sha : Text) : Type 0 where
    pub numbered : is_version version ≡ true
    pub tag_at : remote_tag_commit u git ast_walk remote (b'v' ∷ version) ≡ ok sha
    pub tagged : is_blank sha ≡ false
    pub on_main : git.is_ancestor sha main_ref ≡ true
    pub version_is : version_at u git ast_walk version_file sha ≡ version
    pub dated : has_dated_section u git ast_walk (git.read_at sha changelog) version ≡ true

  -- What a mode may publish: a pushed commit that is a release, or a tag that is taken up again.
  abbrev pub MayPublish : DetectMode → Text → Decision → Type 0
  MayPublish push version decision =
      IsRelease u git ast_walk version_file changelog remote decision.sha
      × (decision.version ≡ version_at u git ast_walk version_file decision.sha)
  MayPublish resume version decision = IsTagged version decision.sha × (decision.version ≡ version)
  MayPublish verify_only version decision = ⊥
  MayPublish dry_run version decision = ⊥

  abbrev Publishes : DetectMode → Text → Decision → Type 0
  Publishes mode version decision = decision.publish ≡ true → MayPublish mode version decision

  -- What the tests in front of a recovery ensure
  consistent-Ensures :
      (mode : DetectMode) (sha version : Text)
      → Ensures
          (λ t.
            (version_at u git ast_walk version_file sha ≡ version)
            × (has_dated_section u git ast_walk (git.read_at sha changelog) version ≡ true))
          (consistent u git ast_walk version_file changelog remote mode sha version)
  unfolding consistent
  consistent-Ensures mode sha version =
      Ensures-bind _ _
        (raise_if (not (text_eq (version_at u git ast_walk version_file sha) version))
          (other_version mode (version_at u git ast_walk version_file sha) version))
        _ (Ensures-raise_if _ _)
        (λ _ same_version. record {
          ensured = λ t h. (
            (text_eq_iff _ _).0 (not-false _ same_version),
            not-false _ (
                (Ensures-raise_if
                    (not (has_dated_section u git ast_walk (git.read_at sha changelog) version))
                    (no_section mode version)).ensured
                  t h),
          );
        })

  recovered-Publishes :
      (mode : DetectMode) (version sha : Text)
      → (mode ≡ resume) ⊎ (mode ≡ verify_only)
      → IsTagged version sha
      → Publishes mode version
          (recovered u git ast_walk version_file changelog remote mode sha version)
  unfolding recovered
  recovered-Publishes push version sha e h p = elim e [ inl q ↦ cc | inr q ↦ cc ]
  recovered-Publishes resume version sha e h p = (h, refl)
  recovered-Publishes verify_only version sha e h p = cc
  recovered-Publishes dry_run version sha e h p = cc

  detect_existing-Ensures :
      (mode : DetectMode) (version : Text)
      → (mode ≡ resume) ⊎ (mode ≡ verify_only)
      → is_version version ≡ true
      → Ensures
          (Publishes mode version)
          (detect_existing u git ast_walk version_file changelog remote main_ref mode version)
  unfolding detect_existing
  detect_existing-Ensures mode version e numbered =
      Ensures-bind _ (Publishes mode version)
        (remote_tag_commit u git ast_walk remote (b'v' ∷ version)) _
        (Ensures-self (remote_tag_commit u git ast_walk remote (b'v' ∷ version)))
        (λ sha tag_at.
          Ensures-bind _ (Publishes mode version) (raise_if (is_blank sha) (no_tag mode version)) _
            (Ensures-raise_if _ _)
            (λ _ tagged.
              Ensures-bind _ (Publishes mode version)
                (raise_if (is_blank (git.resolve_commit sha)) (not_local mode version sha)) _
                (Ensures-raise_if _ _)
                (λ _ local.
                  Ensures-bind _ (Publishes mode version)
                    (raise_if (not (git.is_ancestor sha main_ref)) (not_on_main mode version sha)) _
                    (Ensures-raise_if _ _)
                    (λ _ on_main.
                      Ensures-bind _ (Publishes mode version)
                        (consistent u git ast_walk version_file changelog remote mode sha version) _
                        (consistent-Ensures mode sha version)
                        (λ _ c.
                          Ensures-ok (Publishes mode version)
                            (recovered u git ast_walk version_file changelog remote mode sha
                              version)
                            (recovered-Publishes mode version sha e (record {
                              numbered = numbered;
                              tag_at = tag_at;
                              tagged = tagged;
                              on_main = not-false _ on_main;
                              version_is = c.0;
                              dated = c.1;
                            })))))))

  detect_dry_run-Ensures :
      (version sha : Text)
      → Ensures
          (Publishes dry_run version)
          (detect_dry_run u git ast_walk version_file changelog remote sha version)
  unfolding detect_dry_run rehearsed
  detect_dry_run-Ensures version sha =
      Ensures-bind (λ t. Unit {0}) (Publishes dry_run version)
        (consistent u git ast_walk version_file changelog remote dry_run sha version) _
        (Ensures-all _)
        (λ _ t.
          Ensures-bind (λ t. Unit {0}) (Publishes dry_run version)
            (remote_tag_commit u git ast_walk remote (b'v' ∷ version)) _ (Ensures-all _)
            (λ commit t'. Ensures-ok (Publishes dry_run version) _ (λ p. cc)))

  -- Of which commit and version a decision about a push is
  IsAbout : Text → Decision → Type 0
  IsAbout sha decision =
      (decision.sha ≡ sha)
      × (decision.publish ≡ true → decision.version ≡ version_at u git ast_walk version_file sha)

  decided-IsAbout :
      (sha : Text) (decision : Decision) (state : TagState)
      → decision.sha ≡ sha
      → decision.version ≡ version_at u git ast_walk version_file sha
      → IsAbout sha (decided u git ast_walk version_file changelog remote decision state)
  unfolding decided IsAbout
  decided-IsAbout sha decision unknown h k = (h, λ p. k)
  decided-IsAbout sha decision absent h k = (h, λ p. k)
  decided-IsAbout sha decision same h k = (h, λ p. k)
  decided-IsAbout sha decision different h k = (h, λ p. k)

  IsAbout-ok :
      (sha : Text) (decision : Decision)
      → decision.sha ≡ sha
      → decision.publish ≡ false
      → Ensures {E = DetectError} (IsAbout sha) (ok decision)
  unfolding IsAbout
  IsAbout-ok sha decision h k = Ensures-ok (IsAbout sha) decision (h, (λ p. absurd (cc (k, p))))

  detect_push-IsAbout :
      (sha : Text)
      → Ensures (IsAbout sha) (detect_push u git ast_walk version_file changelog remote sha)
  unfolding detect_push
  detect_push-IsAbout sha =
      Ensures-if (IsAbout sha) (is_blank (version_at u git ast_walk version_file sha)) _ _
        (λ _. IsAbout-ok sha _ refl refl)
        (λ _.
          Ensures-if (IsAbout sha) (not (is_version (version_at u git ast_walk version_file sha))) _
            _ (λ _. IsAbout-ok sha _ refl refl)
            (λ _.
              Ensures-if (IsAbout sha)
                (text_eq (now u git ast_walk version_file changelog remote sha)
                  (before u git ast_walk version_file changelog remote sha))
                _ _ (λ _. IsAbout-ok sha _ refl refl)
                (λ _.
                  Ensures-if (IsAbout sha)
                    (not (dated_at u git ast_walk version_file changelog remote sha)) _ _
                    (λ _. IsAbout-ok sha _ refl refl)
                    (λ _.
                      Ensures-bind (λ t. Unit {0}) (IsAbout sha)
                        (remote_tag_commit u git ast_walk remote
                          (b'v' ∷ version_at u git ast_walk version_file sha))
                        _ (Ensures-all _)
                        (λ commit t. Ensures-ok (IsAbout sha) _ (
                          decided-IsAbout sha _ (tag_state u git ast_walk commit sha) refl
                            refl))))))

  pushed-Ensures :
      (version sha : Text)
      → Ensures
          (Publishes push version)
          (detect_push u git ast_walk version_file changelog remote sha)
  unfolding IsAbout
  pushed-Ensures version sha = record {
    ensured = λ decision h p.
        let (publishes, _) =
          (detect_push-Ensures u git ast_walk version_file changelog remote sha).ensured decision
            h in
        let (sha_is, version_is) = (detect_push-IsAbout sha).ensured decision h in
        (
          subst (IsRelease u git ast_walk version_file changelog remote) (sym sha_is)
              (publishes.0 p),
          version_is p ∙ ap (version_at u git ast_walk version_file) (sym sha_is),
        );
  }

  dispatch-Ensures :
      (mode : DetectMode) (sha version : Text)
      → needs_version u git ast_walk version_file changelog remote mode && not (is_version version)
        ≡ false
      → Ensures
          (Publishes mode version)
          (dispatch u git ast_walk version_file changelog remote main_ref mode sha version)
  unfolding dispatch needs_version
  dispatch-Ensures push sha version h =
      Ensures-bind (λ t. Unit {0}) (Publishes push version)
        (full_sha u git ast_walk version_file changelog remote sha) _ (Ensures-all _)
        (λ commit t. pushed-Ensures version commit)
  dispatch-Ensures resume sha version h =
      detect_existing-Ensures resume version (inl refl) (not-false _ h)
  dispatch-Ensures verify_only sha version h =
      detect_existing-Ensures verify_only version (inr refl) (not-false _ h)
  dispatch-Ensures dry_run sha version h =
      Ensures-bind (λ t. Unit {0}) (Publishes dry_run version)
        (full_sha u git ast_walk version_file changelog remote sha) _ (Ensures-all _)
        (λ commit t. detect_dry_run-Ensures version commit)

  -- Whatever `git` answers, a decision that publishes is one of two: that a pushed commit is a
  -- release, or that the tag of the requested version is taken up again, where the tag stands at a
  -- commit of main with this version and its dated section. `verify-only` and `dry-run` never publish.
  pub detect-MayPublish :
      (mode : DetectMode) (sha version : Text) (decision : Decision)
      → detect u git ast_walk version_file changelog remote main_ref mode sha version ≡ ok decision
      → decision.publish ≡ true
      → MayPublish mode version decision
  unfolding detect
  detect-MayPublish mode sha version decision h =
      (Ensures-bind _ (Publishes mode version)
          (raise_if
            (needs_version u git ast_walk version_file changelog remote mode
              && not (is_version version))
            (bad_version mode version))
          _ (Ensures-raise_if _ _)
          (λ _ numbered. dispatch-Ensures mode sha version numbered)).ensured
        decision h
