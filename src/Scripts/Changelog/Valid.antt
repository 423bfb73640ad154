-- ===== src/Scripts/Changelog/Valid.antt =====
-- When `main` of scripts/lint_changelog.py returns 0.
use cubrid_mcp_server.Common.{
  ℕ, ◌≡◌, ◌↔◌, ◌+◌, refl, ap, sym, subst, true, false, not, ltb, Bool-cases, or_false, not-false,
  inl, inr, Option, none, some, List, [], ◌∷◌, All, arith,
}
use cubrid_mcp_server.Common.Text.{Text, text_eq, text_eq_iff, is_in}
use cubrid_mcp_server.Common.Unicode.{Unicode}
use cubrid_mcp_server.Common.Result.{Result, ok, err, raise_if, raise_if-eq-ok, bind-eq-ok, ◌>>◌}
use cubrid_mcp_server.Config.Registry.Named.{Distinct, text_eq-sym}
use cubrid_mcp_server.Server.Identifiers.{keep}
use cubrid_mcp_server.Scripts.Changelog.Sections.{
  unreleased, Release, SectionError, section_policy_applies, check_sections,
}
use cubrid_mcp_server.Scripts.Changelog.Pass.{
  LintError, first_section, many_unreleased, headers_of, releases_of, if_error, check_releases,
}
use cubrid_mcp_server.Scripts.Changelog.{
  Packaging, repeated, unique_versions, released_versions, count_unreleased, check_versions,
  check_headers, lint, exit_status,
}
use cubrid_mcp_server.Scripts.Changelog.Standard.{AreStandard, check_sections_iff}
use cubrid_mcp_server.Scripts.Changelog.Descending.{InOrder, check_order_iff, repeated_iff}

-- The headers are [Unreleased] and then versions, distinct and in descending order.
pub record AreHeaders (p : Option Packaging) (headers : List Text) : Type 0 where
  pub versions : List Text
  pub unreleased_first : headers ≡ unreleased ∷ versions
  pub unreleased_once : is_in unreleased versions ≡ false
  pub distinct : Distinct versions
  pub in_order : InOrder p versions

count-zero : (hs : List Text) → count_unreleased hs ≡ 0 → is_in unreleased hs ≡ false
unfolding count_unreleased is_in
count-zero [] h = refl
count-zero (h ∷ hs) e = elim (Bool-cases (text_eq h unreleased)) [
  | inl same ↦ ground (arith, rw same at e)
  | inr other ↦ rw (text_eq-sym h unreleased other) (count-zero hs (rw other at e))
]

zero-count : (hs : List Text) → is_in unreleased hs ≡ false → count_unreleased hs ≡ 0
unfolding count_unreleased is_in
zero-count [] h = refl
zero-count (h ∷ hs) e =
    let (other, later) = or_false (text_eq unreleased h) (is_in unreleased hs) e in
    rw (text_eq-sym unreleased h other) (zero-count hs later)

keeps_versions :
    (hs : List Text) → is_in unreleased hs ≡ false → keep (λ h. not (text_eq h unreleased)) hs ≡ hs
unfolding is_in
keeps_versions [] e = refl
keeps_versions (h ∷ hs) e =
    let (other, later) = or_false (text_eq unreleased h) (is_in unreleased hs) e in
    rw (text_eq-sym unreleased h other) (ap (◌∷◌ h) (keeps_versions hs later))

same_text : (a : Text) → text_eq a a ≡ true
same_text a = (text_eq_iff a a).1 refl

released-versions :
    (vs : List Text) → is_in unreleased vs ≡ false → released_versions (unreleased ∷ vs) ≡ vs
unfolding released_versions
released-versions vs h = rw (same_text unreleased) (keeps_versions vs h)

count_first : (vs : List Text) → count_unreleased (unreleased ∷ vs) ≡ 1 + count_unreleased vs
unfolding count_unreleased
count_first vs = rw (same_text unreleased) refl

unique-none : (o : Option Text) → unique_versions o ≡ ok tt → o ≡ none
unfolding unique_versions
unique-none none h = refl
unique-none (some v) h = cc

check_versions_iff :
    (p : Option Packaging) (vs : List Text)
    → (check_versions p vs ≡ ok tt) ↔ (Distinct vs × InOrder p vs)
unfolding check_versions unique_versions
check_versions_iff p vs = (
  λ h.
      let (_, unique, ordered) = bind-eq-ok (unique_versions (repeated [] vs)) _ h in
      ((repeated_iff vs).0 (unique-none _ unique), (check_order_iff p vs).0 ordered),
  λ h. rw ((repeated_iff vs).1 h.0) ((check_order_iff p vs).1 h.1),
)

first-AreHeaders :
    (p : Option Packaging) (hs : List Text)
    → ltb 1 (count_unreleased (unreleased ∷ hs)) ≡ false
    → check_versions p (released_versions (unreleased ∷ hs)) ≡ ok tt
    → AreHeaders p (unreleased ∷ hs)
first-AreHeaders p hs once valid =
    let single = count-zero hs (ground (arith, rw (count_first hs) at once)) in
    let (distinct, in_order) =
      (check_versions_iff p hs).0 (rw (released-versions hs single) at valid) in
    record {
      versions = hs;
      unreleased_first = refl;
      unreleased_once = single;
      distinct = distinct;
      in_order = in_order;
    }

check_headers-AreHeaders :
    (p : Option Packaging) (hs : List Text) → check_headers p hs ≡ ok tt → AreHeaders p hs
unfolding check_headers
check_headers-AreHeaders p [] h = cc
check_headers-AreHeaders p (x ∷ hs) h =
    let first_test = raise_if (not (text_eq x unreleased)) (first_section x) in
    let once_test =
      raise_if (ltb 1 (count_unreleased (x ∷ hs))) (many_unreleased (count_unreleased (x ∷ hs))) in
    let (_, tests, valid) = bind-eq-ok (first_test >> once_test) _ h in
    let (_, first, once) = bind-eq-ok first_test _ tests in
    let same : x ≡ unreleased =
      (text_eq_iff x unreleased).0 (not-false _ (raise_if-eq-ok _ _ first)) in
    subst (λ y. AreHeaders p (y ∷ hs)) (sym same)
      (first-AreHeaders p hs (rw same at (raise_if-eq-ok _ _ once)) (rw same at valid))

AreHeaders-check_headers :
    (p : Option Packaging) (hs : List Text) → AreHeaders p hs → check_headers p hs ≡ ok tt
unfolding check_headers
AreHeaders-check_headers p hs h =
    rw
      (
        h.unreleased_first,
        same_text unreleased,
        count_first h.versions,
        zero-count h.versions h.unreleased_once,
        released-versions h.versions h.unreleased_once,
      )
      ((check_versions_iff p h.versions).1 (h.distinct, h.in_order))

exit-zero : (r : Result LintError (Unit {0})) → exit_status r ≡ 0 → r ≡ ok tt
unfolding exit_status
exit-zero (ok done) h = refl
exit-zero (err e) h = cc

module _ (u : Unicode) (digit_value : ℕ → ℕ) (p : Option Packaging) where
  -- The sections of every release under the policy are standard.
  abbrev pub IsGoverned : Release → Type 0
  IsGoverned r = section_policy_applies u digit_value r.0 ≡ true → AreStandard u digit_value r.1

  no_error :
      (name : Text) (o : Option SectionError) {rest : Result LintError (Unit {0})}
      → if_error u digit_value name o rest ≡ ok tt
      → (o ≡ none) × (rest ≡ ok tt)
  no_error name none h = (refl, h)
  no_error name (some e) h = cc

  check_releases-AreGoverned :
      (rs : List Release) → check_releases u digit_value rs ≡ ok tt → All IsGoverned rs
  unfolding check_releases
  check_releases-AreGoverned [] h = tt
  check_releases-AreGoverned (r ∷ rs) h =
      elim (Bool-cases (section_policy_applies u digit_value r.0)) [
        | inl applies ↦
            let (standard, later) =
              no_error r.0 (check_sections u digit_value r.1) (rw applies at h) in
            (
              (λ _. (check_sections_iff u digit_value r.1).0 standard),
              check_releases-AreGoverned rs later,
            )
        | inr exempt ↦ ((λ applies. cc), check_releases-AreGoverned rs (rw exempt at h))
      ]

  AreGoverned-check_releases :
      (rs : List Release) → All IsGoverned rs → check_releases u digit_value rs ≡ ok tt
  unfolding check_releases
  AreGoverned-check_releases [] h = refl
  AreGoverned-check_releases (r ∷ rs) h =
      let later = AreGoverned-check_releases rs h.1 in
      elim (Bool-cases (section_policy_applies u digit_value r.0)) [
        | inl applies ↦ rw (applies, (check_sections_iff u digit_value r.1).1 (h.0 applies)) later
        | inr exempt ↦ rw exempt later
      ]

  pub record IsChangelog (content : Text) : Type 0 where
    pub releases : List Release
    pub is_read : releases_of u digit_value content ≡ ok releases
    pub are_governed : All IsGoverned releases
    pub are_headers : AreHeaders p (headers_of u digit_value content)

  -- For a text that is there, `main` returns 0 exactly when the pass over its lines ends with no error,
  -- the sections of each release under the policy have standard titles in ascending order and a body
  -- each, and the headers are one [Unreleased] in front of distinct versions in descending order,
  -- where packaging is there and can parse them.
  pub lint-IsChangelog :
      (content : Text)
      → (exit_status (lint u digit_value p (some content)) ≡ 0) ↔ IsChangelog content
  unfolding lint exit_status
  lint-IsChangelog content = (
    λ h.
        let (releases, is_read, checked) =
          bind-eq-ok (releases_of u digit_value content) _ (exit-zero _ h) in
        let (_, governed, headed) = bind-eq-ok (check_releases u digit_value releases) _ checked in
        record {
          releases = releases;
          is_read = is_read;
          are_governed = check_releases-AreGoverned releases governed;
          are_headers = check_headers-AreHeaders p _ headed;
        },
    λ h.
        rw
          (
            h.is_read,
            AreGoverned-check_releases h.releases h.are_governed,
            AreHeaders-check_headers p _ h.are_headers,
          )
          refl,
  )
