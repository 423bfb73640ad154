-- ===== src/Scripts/ReleaseDetect/Decisions.antt =====
-- When scripts/release_detect.py decides to publish.
use cubrid_mcp_server.Common.{
  ◌≡◌, ◌⊎◌, ◌↔◌, refl, sym, ap, ◌∙◌, subst, Bool, true, false, not, Bool-cases, inl, inr, Option,
  List, [], ◌∷◌, ◌++◌, not-true, not-false,
}
use cubrid_mcp_server.Common.Text.{Text, codes, text_eq, text_eq_iff}
use cubrid_mcp_server.Common.Unicode.{Unicode}
use cubrid_mcp_server.Common.Result.{
  ok, Ensures, Ensures-bind, Ensures-ok, Ensures-self, Ensures-if,
}
use cubrid_mcp_server.Config.{is_blank}
use cubrid_mcp_server.Scripts.Patterns.{is_version}
use cubrid_mcp_server.Scripts.ReleaseDetect.{
  DetectError, Decision, is_release, Git, Assign, has_dated_section, remote_tag_commit, tag_state,
  version_at, previous_version, decided, detect_push,
}

blank-nil : (s : Text) → is_blank s ≡ true → s ≡ []
blank-nil [] h = refl
blank-nil (c ∷ s) h = cc

blank_version : (s : Text) → is_blank s ≡ true → is_version s ≡ false
unfolding is_version
blank_version s h =
    rw (blank-nil s h) (unfold cubrid_mcp_server.Scripts.Patterns.digits_then in refl)

module _ (u : Unicode) (git : Git) (ast_walk : Text → Option (List Assign))
    (version_file changelog remote : Text) where
  -- The version at a commit, and at its first parent
  abbrev pub now : Text → Text
  now sha = version_at u git ast_walk version_file sha

  abbrev pub before : Text → Text
  before sha = previous_version u git ast_walk version_file (git.resolve_commit (sha ++ codes "^1"))

  -- What makes a pushed commit a release: a new version of three numbers, with a dated section and
  -- a tag that is free or stands at this commit.
  pub record IsRelease (sha : Text) : Type 0 where
    pub numbered : is_version (now sha) ≡ true
    pub changed : text_eq (now sha) (before sha) ≡ false
    pub dated : has_dated_section u git ast_walk (git.read_at sha changelog) (now sha) ≡ true
    pub commit : Text
    pub tag_at : remote_tag_commit u git ast_walk remote (b'v' ∷ now sha) ≡ ok commit
    pub free : (commit ≡ []) ⊎ (commit ≡ sha)

  -- A decision about a push is right.
  abbrev pub IsRight : Text → Decision → Type 0
  IsRight sha decision =
      ((decision.publish ≡ true) ↔ IsRelease sha) × (is_release decision ≡ decision.publish)

  not_released :
      (sha : Text) (decision : Decision)
      → decision.publish ≡ false
      → is_release decision ≡ false
      → ¬ IsRelease sha
      → Ensures {E = DetectError} (IsRight sha) (ok decision)
  not_released sha decision h k no_release =
      Ensures-ok (IsRight sha) decision
        (((λ p. absurd (cc (h, p))), (λ r. absurd (no_release r))), k ∙ sym h)

  abbrev pub dated_at : Text → Bool
  dated_at sha = has_dated_section u git ast_walk (git.read_at sha changelog) (now sha)

  same_commit :
      (sha commit : Text) (r : IsRelease sha)
      → remote_tag_commit u git ast_walk remote (b'v' ∷ now sha) ≡ ok commit
      → (commit ≡ []) ⊎ (commit ≡ sha)
  same_commit sha commit r found =
      let e : ok r.commit ≡ ok commit = sym r.tag_at ∙ found in
      subst (λ c. (c ≡ []) ⊎ (c ≡ sha)) (cc e) r.free

  decided-IsRight :
      (sha commit : Text) (decision : Decision)
      → decision.publish ≡ false
      → is_release decision ≡ false
      → ((commit ≡ []) ⊎ (commit ≡ sha) → IsRelease sha)
      → (IsRelease sha → (commit ≡ []) ⊎ (commit ≡ sha))
      → IsRight sha (
          decided u git ast_walk version_file changelog remote decision
            (tag_state u git ast_walk commit sha))
  unfolding tag_state decided is_release
  decided-IsRight sha commit decision h k to from = elim (Bool-cases (is_blank commit)) [
    | inl free ↦ rw free (((λ p. to (inl (blank-nil commit free))), (λ r. refl)), refl)
    | inr tagged ↦ elim (Bool-cases (text_eq commit sha)) [
      | inl here ↦
          rw (tagged, here) (((λ p. to (inr ((text_eq_iff commit sha).0 here))), (λ r. refl)), refl)
      | inr other ↦
          rw (tagged, other)
            (
              (
                (λ p. absurd (cc (h, p))),
                (λ r. absurd (elim (from r) [
                  | inl e ↦ cc (tagged, ap is_blank e)
                  | inr e ↦ cc (other, (text_eq_iff commit sha).1 e)
                ])),
              ),
              k ∙ sym h,
            )
    ]
  ]

  pub detect_push-Ensures :
      (sha : Text)
      → Ensures (IsRight sha) (detect_push u git ast_walk version_file changelog remote sha)
  unfolding detect_push is_release
  detect_push-Ensures sha =
      Ensures-if (IsRight sha) (is_blank (now sha)) _ _
        (λ blank.
          not_released sha _ refl refl (λ r. cc (r.numbered, blank_version (now sha) blank)))
        (λ there.
          Ensures-if (IsRight sha) (not (is_version (now sha))) _ _
            (λ malformed.
              not_released sha _ refl refl
                (λ r. cc (r.numbered, not-true (is_version (now sha)) malformed)))
            (λ numbered.
              Ensures-if (IsRight sha) (text_eq (now sha) (before sha)) _ _
                (λ unchanged. not_released sha _ refl refl (λ r. cc (r.changed, unchanged)))
                (λ changed.
                  Ensures-if (IsRight sha) (not (dated_at sha)) _ _
                    (λ undated.
                      not_released sha _ refl refl
                        (λ r. cc (r.dated, not-true (dated_at sha) undated)))
                    (λ dated.
                      Ensures-bind _ (IsRight sha)
                        (remote_tag_commit u git ast_walk remote (b'v' ∷ now sha)) _
                        (Ensures-self (remote_tag_commit u git ast_walk remote (b'v' ∷ now sha)))
                        (λ commit found. Ensures-ok (IsRight sha) _ (
                          decided-IsRight sha commit _ refl refl
                            (λ free. record {
                              numbered = not-false (is_version (now sha)) numbered;
                              changed = changed;
                              dated = not-false (dated_at sha) dated;
                              commit = commit;
                              tag_at = found;
                              free = free;
                            })
                            (λ r. same_commit sha commit r found)))))))

  -- A push that is decided is published exactly when it is a release: `__version__` is three numbers
  -- and not that of the first parent, the CHANGELOG has its dated section, and its tag is absent or
  -- at this commit. Otherwise nothing is built or verified either.
  pub detect_push-publishes_iff :
      (sha : Text) (decision : Decision)
      → detect_push u git ast_walk version_file changelog remote sha ≡ ok decision
      → ((decision.publish ≡ true) ↔ IsRelease sha) × (is_release decision ≡ decision.publish)
  detect_push-publishes_iff sha decision h = (detect_push-Ensures sha).ensured decision h
