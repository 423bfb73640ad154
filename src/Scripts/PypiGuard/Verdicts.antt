-- ===== src/Scripts/PypiGuard/Verdicts.antt =====
-- What scripts/pypi_duplicate_guard.py lets through and removes.
use cubrid_mcp_server.Common.{
  ℕ, ◌≡◌, ◌≢◌, ◌↔◌, refl, sym, ap, ◌∙◌, Bool, true, false, not, ◌&&◌, ◌||◌, ltb, Bool-cases,
  Option-cases, inl, inr, Option, none, some, List, [], ◌∷◌, length, any, All, Among-All, arith,
  or_false, not-false, ◌⊎◌,
}
use cubrid_mcp_server.Common.Text.{Text, text_eq_iff, is_in}
use cubrid_mcp_server.Common.Result.{ok}
use cubrid_mcp_server.Config.Registry.{Named, names, lookup}
use cubrid_mcp_server.Server.Identifiers.{keep}
use cubrid_mcp_server.Server.Groups.Entries.{lookup-Among}
use cubrid_mcp_server.Scripts.PypiGuard.Answers.{Json}
use cubrid_mcp_server.Scripts.PypiGuard.{
  DirectoryEntry, Response, Verdict, local_files, published_files, is_project, is_release_version,
  found_files, guard, same_digest, other_digest, identical, is_mismatched, is_unverified, verdict,
}
use cubrid_mcp_server.Scripts.PypiGuard.Files.{
  All-of, any-none, none-any, keeps_fewer, lookup-is_in, lookup-some, lookup-none,
}
use cubrid_mcp_server.Scripts.PypiGuard.DistinctFiles.{
  AreDistinct, local_files-Ensures, published_files-Ensures,
}

module _ (lower : Text → Text) (text_of : Json → Text) (fetch : ℕ → Response)
    (loads : Text → Option Json) where
  -- Every file that PyPI has is one of the local files, with the same digest.
  abbrev pub AreSame : Named Text → Named Text → Type 0
  AreSame local published = All (λ p. lookup p.0 local ≡ some p.1) published

  same-digest :
      (sha256 : Text) (o : Option Text)
      → other_digest lower text_of fetch loads sha256 o ≡ false
      → (o ≡ none) ⊎ (o ≡ some sha256)
  unfolding other_digest
  same-digest sha256 none h = inl refl
  same-digest sha256 (some published) h =
      inr (ap some ((text_eq_iff published sha256).0 (ground arith)))

  same_not_other :
      (sha256 value : Text)
      → sha256 ≡ value
      → other_digest lower text_of fetch loads sha256 (some value) ≡ false
  unfolding other_digest
  same_not_other sha256 value e = ground (arith, (text_eq_iff value sha256).1 (sym e))

  unverified-AreSame :
      (local published : Named Text)
      → AreDistinct lower text_of fetch loads published
      → is_mismatched lower text_of fetch loads local published ≡ false
      → is_unverified lower text_of fetch loads local published ≡ false
      → AreSame local published
  unfolding is_mismatched is_unverified
  unverified-AreSame local published distinct matched verified = All-of published λ p m.
      let known : is_in p.0 (names local) ≡ true =
        not-false _ (Among-All _ m (none-any _ published verified)) in
      let (sha256, found, m') = lookup-is_in p.0 local known in
      let digest = Among-All _ m' (none-any _ local matched) in
      let there : lookup p.0 published ≡ some p.1 = lookup-Among p published distinct m in
      elim (same-digest sha256 (lookup p.0 published) digest) [
        | inl missing ↦ absurd (cc (there, missing))
        | inr same ↦ found ∙ sym same ∙ there
      ]

  AreSame-verified :
      (local published : Named Text)
      → AreDistinct lower text_of fetch loads local
      → AreSame local published
      → (is_mismatched lower text_of fetch loads local published ≡ false)
        × (is_unverified lower text_of fetch loads local published ≡ false)
  unfolding is_mismatched is_unverified
  AreSame-verified local published distinct same = (
    any-none _ local (
        All-of local λ x m. elim (Option-cases (lookup x.0 published)) [
          | inl missing ↦ rw missing (unfold other_digest in refl)
          | inr (value, found) ↦
              let (m', _) = lookup-some x.0 value published found in
              let there : lookup x.0 local ≡ some value = Among-All _ m' same in
              let mine : lookup x.0 local ≡ some x.1 = lookup-Among x local distinct m in
              rw found (same_not_other x.1 value (cc (sym mine ∙ there)))
        ]),
    any-none _ published (
        All-of published
          λ p m. let (_, known) = lookup-some p.0 p.1 local (Among-All _ m same) in rw known refl),
  )

  some_digest :
      (sha256 : Text) (o : Option Text)
      → other_digest lower text_of fetch loads sha256 o ≡ false
      → (o ≡ none × (same_digest lower text_of fetch loads sha256 o ≡ false))
        ⊎ ((value : Text) × (o ≡ some value)
            × (same_digest lower text_of fetch loads sha256 o ≡ true))
  unfolding other_digest same_digest
  some_digest sha256 none h = inl (refl, refl)
  some_digest sha256 (some value) h = inr (value, refl, ground arith)

  abbrev is_published : Named Text → Text × Text → Bool
  is_published published x = is_in x.0 (names published)

  -- Where no digest is another, the files with the same digest are those that are published.
  same_digest-is_published :
      (published : Named Text) (x : Text × Text)
      → other_digest lower text_of fetch loads x.1 (lookup x.0 published) ≡ false
      → same_digest lower text_of fetch loads x.1 (lookup x.0 published) ≡ is_published published x
  same_digest-is_published published x h = elim (some_digest x.1 (lookup x.0 published) h) [
    | inl missing ↦ missing.1 ∙ sym (lookup-none x.0 published missing.0)
    | inr found ↦ let (_, known) = lookup-some x.0 found.0 published found.1 in found.2 ∙ sym known
  ]

  identical-published :
      (local published : Named Text)
      → All (λ x. other_digest lower text_of fetch loads x.1 (lookup x.0 published) ≡ false) local
      → identical lower text_of fetch loads local published ≡ keep (is_published published) local
  unfolding identical
  identical-published [] published h = refl
  identical-published (x ∷ xs) published h =
      let e = same_digest-is_published published x h.0 in
      elim (Bool-cases (is_published published x)) [
        | inl known ↦ rw (e, known) (ap (◌∷◌ x) (identical-published xs published h.1))
        | inr new ↦ rw (e, new) (identical-published xs published h.1)
      ]

  -- The verdict on the files that were found
  pub record IsVerdict (local published : Named Text) (v : Verdict) : Type 0 where
    pub passes_iff : (v.exit_code ≡ 0) ↔ AreSame local published
    pub removed_are :
        v.exit_code ≡ 0 → v.removed ≡ names (keep (λ x. is_in x.0 (names published)) local)
    pub upload_is :
        v.exit_code ≡ 0 → v.upload ≡ some (any (λ x. not (is_in x.0 (names published))) local)
    pub untouched : v.exit_code ≢ 0 → (v.removed ≡ []) × (v.upload ≡ none)

  verdict-IsVerdict :
      (local published : Named Text)
      → AreDistinct lower text_of fetch loads local
      → AreDistinct lower text_of fetch loads published
      → IsVerdict local published (verdict lower text_of fetch loads local published)
  unfolding verdict
  verdict-IsVerdict local published distinct distinct' =
      elim (Bool-cases (
        is_mismatched lower text_of fetch loads local published
        || is_unverified lower text_of fetch loads local published)) [
          | inl refuses ↦ rw refuses (record {
            passes_iff = (
              (λ h. cc),
              (λ same.
                  let (a, b) = AreSame-verified local published distinct same in
                  ground (arith, a, b)),
            );
            removed_are = λ h. cc;
            upload_is = λ h. cc;
            untouched = λ h. (refl, refl);
          })
          | inr passes ↦
              let (matched, verified) =
                or_false (is_mismatched lower text_of fetch loads local published)
                  (is_unverified lower text_of fetch loads local published) passes in
              let same =
                identical-published local published
                  (none-any _ local (unfold is_mismatched in matched)) in
              rw passes (record {
                passes_iff = (
                  (λ h. unverified-AreSame local published distinct' matched verified),
                  (λ h. refl),
                );
                removed_are = λ h. ap names same;
                upload_is = λ h. ap some (
                    ap (λ (kept : Named Text). ltb (length kept) (length local)) same
                    ∙ keeps_fewer (is_published published) local);
                untouched = λ h. absurd (h refl);
              })
        ]

  -- For a valid project and version, when the directory and the answer of PyPI can be read, the guard
  -- passes exactly when every file that PyPI serves is a file of the build with the same digest. It
  -- then removes just the files of the build that PyPI has, and asks for an upload exactly when it has
  -- not all of them. When it does not pass, it removes nothing.
  pub guard-IsVerdict :
      (dist : Option (List DirectoryEntry)) (project version : Text) (local published : Named Text)
      → local_files lower text_of dist project version ≡ ok local
      → published_files lower text_of fetch loads project version ≡ ok published
      → is_project project && is_release_version version ≡ true
      → IsVerdict local published (guard lower text_of fetch loads dist project version)
  unfolding guard found_files
  guard-IsVerdict dist project version local published h k valid =
      rw (allowed, h, k)
        (verdict-IsVerdict local published
          ((local_files-Ensures lower text_of fetch loads dist project version).ensured local h)
          ((published_files-Ensures lower text_of fetch loads project version).ensured published k))
    where
      allowed : (not (is_project project) || not (is_release_version version)) ≡ false
      allowed = ground arith
