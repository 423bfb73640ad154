-- ===== src/Scripts/CiScope/Tiers.antt =====
-- Which lanes scripts/ci_scope.py selects.
use cubrid_mcp_server.Common.{
  ◌≡◌, ◌↔◌, refl, sym, ap, subst, ◌∙◌, or_false, Bool, true, false, not, ◌&&◌, ◌||◌, Bool-cases,
  inl, inr, List, [], ◌∷◌, any, arith, All,
}
use cubrid_mcp_server.Common.Text.{Text, text_eq, text_eq_iff, is_in}
use cubrid_mcp_server.Common.Unicode.{Unicode}
use cubrid_mcp_server.Safety.Statement.{text_ltb}
use cubrid_mcp_server.Config.Registry.{insert, sorted}
use cubrid_mcp_server.Scripts.CiScope.{
  matches, self_patterns, deps_patterns, live_endpoint_patterns, runtime_patterns,
  live_tooling_patterns, tooling_patterns, docs_patterns, pull_request, Lanes, select_lanes,
  select_all, files_of, stripped, unique_texts, no_files, starts_full, all_lanes, lanes_of,
  docs_tier, tier_of, scope_of, classify, full_events,
}

-- A path that only the patterns of the documentation match
unfoldable pub is_docs : Text → Bool
is_docs path =
    not (matches path self_patterns)
    && (not (matches path deps_patterns)
        && (not (matches path live_endpoint_patterns)
            && (not (matches path runtime_patterns)
                && (not (matches path live_tooling_patterns)
                    && (not (matches path tooling_patterns) && matches path docs_patterns)))))

-- The lanes in front of the loop, but for `full`
abbrev nothing : Lanes
nothing = record {
  full = false;
  unit = false;
  lowest = false;
  live = false;
  py_endpoints = false;
  cubrid_endpoints = false;
}

-- Something is to run.
is_busy : Lanes → Bool
is_busy lanes = lanes.full || (lanes.unit || (lanes.live || lanes.lowest))

is_busy-select_lanes :
    (path : Text) (lanes : Lanes)
    → is_busy (select_lanes path lanes) ≡ (is_busy lanes || not (is_docs path))
unfolding select_lanes is_busy is_docs
is_busy-select_lanes path lanes = ground arith

is_busy-select_all :
    (paths : List Text) (lanes : Lanes)
    → is_busy (select_all paths lanes) ≡ (is_busy lanes || any (λ path. not (is_docs path)) paths)
unfolding select_all
is_busy-select_all [] lanes = ground arith
is_busy-select_all (path ∷ paths) lanes =
    ground
      (arith, is_busy-select_all paths (select_lanes path lanes), is_busy-select_lanes path lanes)

tier_of-docs_iff :
    (event : Text) (lanes : Lanes)
    → (tier_of (all_lanes event lanes) ≡ docs_tier) ↔ (is_busy lanes ≡ false)
unfolding tier_of all_lanes is_busy
tier_of-docs_iff event lanes = ground arith

any-insert : (p : Text → Bool) (x : Text) (xs : List Text) → any p (insert x xs) ≡ (p x || any p xs)
any-insert p x [] = refl
any-insert p x (y ∷ ys) = elim (Bool-cases (text_ltb y x)) [
  | inl later ↦ rw later (ground (arith, any-insert p x ys))
  | inr first ↦ rw first refl
]

any-sorted : (p : Text → Bool) (xs : List Text) → any p (sorted xs) ≡ any p xs
unfolding sorted
any-sorted p [] = refl
any-sorted p (x ∷ xs) = ground (arith, any-insert p x (sorted xs), any-sorted p xs)

any-is_in :
    (p : Text → Bool) (x : Text) (xs : List Text) → is_in x xs ≡ true → p x ≡ true → any p xs ≡ true
unfolding is_in
any-is_in p x [] h k = cc
any-is_in p x (y ∷ ys) h k = elim (Bool-cases (text_eq x y)) [
  | inl same ↦ ground (arith, sym k ∙ ap p ((text_eq_iff x y).0 same))
  | inr other ↦ ground (arith, any-is_in p x ys (rw other at h) k)
]

any-unique_texts : (p : Text → Bool) (xs : List Text) → any p (unique_texts xs) ≡ any p xs
unfolding unique_texts
any-unique_texts p [] = refl
any-unique_texts p (x ∷ xs) = elim (Bool-cases (is_in x (unique_texts xs))) [
  | inl known ↦ elim (Bool-cases (p x)) [
    | inl held ↦ rw (known, held) (any-is_in p x (unique_texts xs) known held)
    | inr fails ↦ rw (known, fails) (any-unique_texts p xs)
  ]
  | inr new ↦ rw (new, any-unique_texts p xs) refl
]

no_files-any : (xs : List Text) → no_files xs ≡ not (any (λ x. true) xs)
no_files-any [] = refl
no_files-any (x ∷ xs) = refl

any-files_of :
    (u : Unicode) (p : Text → Bool) (paths : List Text)
    → any p (files_of u paths) ≡ any p (stripped u paths)
unfolding files_of
any-files_of u p paths =
    any-sorted p (unique_texts (stripped u paths)) ∙ any-unique_texts p (stripped u paths)

none-All :
    (p : Text → Bool) (xs : List Text)
    → (any (λ x. not (p x)) xs ≡ false) ↔ All (λ x. p x ≡ true) xs
none-All p [] = ((λ h. tt), (λ h. refl))
none-All p (x ∷ xs) =
    let (to, from) = none-All p xs in
    (
      (λ h.
          let (first, rest) = or_false (not (p x)) (any (λ y. not (p y)) xs) h in
          (ground arith, to rest)),
      (λ h. rw (h.0) (from h.1)),
    )

starts_full_iff :
    (event : Text) (files : List Text)
    → (starts_full event files ≡ false) ↔ ((event ≡ pull_request) × (no_files files ≡ false))
unfolding starts_full
starts_full_iff event files = (
  λ h.
      let (_, rest) = or_false (is_in event full_events) _ h in
      let (is_request, some_file) =
        or_false (not (text_eq event pull_request)) (no_files files) rest in
      ((text_eq_iff event pull_request).0 (ground (arith, is_request)), some_file),
  λ h.
      subst (λ e. (is_in e full_events || (not (text_eq e pull_request) || no_files files)) ≡ false)
        (sym h.0) (rw (h.1) request_not_full),
)
  where
    request_not_full :
        (is_in pull_request full_events || (not (text_eq pull_request pull_request) || false))
        ≡ false
    request_not_full = unfold is_in text_eq full_events pull_request in refl

no_files-files_of :
    (u : Unicode) (paths : List Text) → no_files (files_of u paths) ≡ no_files (stripped u paths)
no_files-files_of u paths =
    no_files-any (files_of u paths)
    ∙ ap not (any-files_of u (λ x. true) paths)
    ∙ sym (no_files-any (stripped u paths))

is_busy-start :
    (event : Text) (files : List Text)
    → is_busy (select_all files (record nothing { full = starts_full event files }))
      ≡ (starts_full event files || any (λ path. not (is_docs path)) files)
unfolding is_busy
is_busy-start event files =
    is_busy-select_all files (record nothing { full = starts_full event files }) ∙ ground arith

-- The documentation tier, which runs no tests, is for just those pull requests that change some file
-- and only files that the patterns of the documentation match and no others do. A path that is not
-- known and an event that is not known run tests.
pub classify-docs_iff :
    (u : Unicode) (event : Text) (paths : List Text)
    → ((classify u event paths).tier ≡ docs_tier) ↔ (
        (event ≡ pull_request)
        × (no_files (stripped u paths) ≡ false)
        × All (λ path. is_docs path ≡ true) (stripped u paths))
unfolding classify scope_of lanes_of
classify-docs_iff u event paths =
    let files : List Text = files_of u paths in
    let busy = is_busy-start event files in
    let (to_idle, from_idle) =
      tier_of-docs_iff event
        (select_all files (record nothing { full = starts_full event files })) in
    let (to_request, from_request) = starts_full_iff event files in
    let (to_docs, from_docs) = none-All is_docs (stripped u paths) in
    let selected = any-files_of u (λ path. not (is_docs path)) paths in
    let some_file = no_files-files_of u paths in
    (
      λ h.
          let (part, other) = or_false (starts_full event files) _ (sym busy ∙ to_idle h) in
          let (is_request, there) = to_request part in
          (is_request, sym some_file ∙ there, to_docs (sym selected ∙ other)),
      λ h.
          from_idle
            (busy ∙ ground (arith, from_request (h.0, some_file ∙ h.1), selected ∙ from_docs h.2)),
    )
