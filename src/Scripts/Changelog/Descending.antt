-- ===== src/Scripts/Changelog/Descending.antt =====
-- The versions that scripts/lint_changelog.py accepts: none twice, in descending order.
use cubrid_mcp_server.Common.{
  ◌≡◌, ◌↔◌, refl, false, Bool-cases, Option-cases, or_false, inl, inr, Option, none, some, List, [],
  ◌∷◌, All, All-map,
}
use cubrid_mcp_server.Common.Text.{Text, text_eq, is_in}
use cubrid_mcp_server.Common.Result.{Result, ok}
use cubrid_mcp_server.Config.Registry.Named.{Distinct, text_eq-sym}
use cubrid_mcp_server.Scripts.PypiGuard.Files.{All-of}
use cubrid_mcp_server.Scripts.Changelog.Pass.{LintError}
use cubrid_mcp_server.Scripts.Changelog.{
  Packaging, repeated, is_above, unless_above, order_from, check_order,
}

module _ (p : Packaging) where
  abbrev with_version : Option p.Version → List p.Version → List p.Version
  with_version none rest = rest
  with_version (some current) rest = current ∷ rest

  -- The versions that can be parsed
  abbrev pub parsed_all : List Text → List p.Version
  parsed_all [] = []
  parsed_all (v ∷ vs) = with_version (p.parse v) (parsed_all vs)

  abbrev IsBelow : Option (p.Version × Text) → p.Version → Type 0
  IsBelow none v = Unit
  IsBelow (some prev) v = p.is_greater v prev.0 ≡ false

  -- No version is greater than one in front of it.
  abbrev pub AreDescending : List p.Version → Type 0
  AreDescending [] = Unit
  AreDescending (v ∷ vs) = All (λ w. p.is_greater w v ≡ false) vs × AreDescending vs

  unless-above :
      (v : Text) (current : p.Version) (prev : Option (p.Version × Text))
      {rest : Result LintError (Unit {0})}
      → unless_above p v (is_above p current prev) rest ≡ ok tt
      → IsBelow prev current × (rest ≡ ok tt)
  unfolding is_above
  unless-above v current none h = (tt, h)
  unless-above v current (some prev) h = elim (Bool-cases (p.is_greater current prev.0)) [
    | inl greater ↦ cc (rw greater at h)
    | inr below ↦ (below, rw below at h)
  ]

  below-unless :
      (v : Text) (current : p.Version) (prev : Option (p.Version × Text))
      {rest : Result LintError (Unit {0})}
      → IsBelow prev current
      → rest ≡ ok tt
      → unless_above p v (is_above p current prev) rest ≡ ok tt
  unfolding is_above
  below-unless v current none b h = h
  below-unless v current (some prev) b h = rw b h

  IsBelow-trans :
      (prev : Option (p.Version × Text)) (v : p.Version) (vs : List p.Version)
      → IsBelow prev v
      → All (λ w. p.is_greater w v ≡ false) vs
      → All (IsBelow prev) vs
  IsBelow-trans none v vs h k = All-map _ _ (λ w b. tt) vs k
  IsBelow-trans (some prev) v vs h k = All-map _ _ (λ w b. p.greater_trans prev.0 v w h b) vs k

  order_from-AreDescending :
      (prev : Option (p.Version × Text)) (vs : List Text)
      → order_from p prev vs ≡ ok tt
      → AreDescending (parsed_all vs) × All (IsBelow prev) (parsed_all vs)
  unfolding order_from
  order_from-AreDescending prev [] h = (tt, tt)
  order_from-AreDescending prev (v ∷ vs) h = elim (Option-cases (p.parse v)) [
    | inl invalid ↦ rw invalid (order_from-AreDescending prev vs (rw invalid at h))
    | inr (current, valid) ↦
        let (below, later) = unless-above v current prev (rw valid at h) in
        let (descending, under) = order_from-AreDescending (some (current, v)) vs later in
        rw valid ((under, descending), (below, IsBelow-trans prev current _ below under))
  ]

  AreDescending-order_from :
      (prev : Option (p.Version × Text)) (vs : List Text)
      → AreDescending (parsed_all vs)
      → All (IsBelow prev) (parsed_all vs)
      → order_from p prev vs ≡ ok tt
  unfolding order_from
  AreDescending-order_from prev [] h b = refl
  AreDescending-order_from prev (v ∷ vs) h b = elim (Option-cases (p.parse v)) [
    | inl invalid ↦
        rw invalid (AreDescending-order_from prev vs (rw invalid at h) (rw invalid at b))
    | inr (current, valid) ↦
        let (under, descending) : AreDescending (current ∷ parsed_all vs) = rw valid at h in
        let (below, _) : All (IsBelow prev) (current ∷ parsed_all vs) = rw valid at b in
        rw valid (
          below-unless v current prev below
            (AreDescending-order_from (some (current, v)) vs descending under))
  ]

-- Without `packaging` any order will do.
abbrev pub InOrder : Option Packaging → List Text → Type 0
InOrder none vs = Unit
InOrder (some p) vs = AreDescending p (parsed_all p vs)

pub check_order_iff :
    (p : Option Packaging) (vs : List Text) → (check_order p vs ≡ ok tt) ↔ InOrder p vs
unfolding check_order
check_order_iff none vs = (λ h. tt, λ h. refl)
check_order_iff (some p) vs = (
  λ h. (order_from-AreDescending p none vs h).0,
  λ h. AreDescending-order_from p none vs h (All-of (parsed_all p vs) λ v m. tt),
)

-- Nothing of the list is among the versions seen.
abbrev AreNew : List Text → List Text → Type 0
AreNew seen vs = All (λ v. is_in v seen ≡ false) vs

new_iff : (x : Text) (vs : List Text) → (is_in x vs ≡ false) ↔ All (λ w. text_eq w x ≡ false) vs
unfolding is_in
new_iff x [] = (λ h. tt, λ h. refl)
new_iff x (v ∷ vs) =
    let (to, back) = new_iff x vs in
    (
      λ h.
          let (first, later) = or_false (text_eq x v) (is_in x vs) h in
          (text_eq-sym x v first, to later),
      λ h. rw (text_eq-sym v x h.0) (back h.1),
    )

AreNew-cons :
    (v : Text) (seen vs : List Text)
    → AreNew (v ∷ seen) vs
    → AreNew seen vs × All (λ w. text_eq w v ≡ false) vs
unfolding is_in
AreNew-cons v seen [] h = (tt, tt)
AreNew-cons v seen (w ∷ vs) h =
    let (first, later) = or_false (text_eq w v) (is_in w seen) h.0 in
    let (new, other) = AreNew-cons v seen vs h.1 in ((later, new), (first, other))

cons-AreNew :
    (v : Text) (seen vs : List Text)
    → AreNew seen vs
    → All (λ w. text_eq w v ≡ false) vs
    → AreNew (v ∷ seen) vs
unfolding is_in
cons-AreNew v seen [] h k = tt
cons-AreNew v seen (w ∷ vs) h k = (rw k.0 h.0, cons-AreNew v seen vs h.1 k.1)

repeated-Distinct : (seen vs : List Text) → repeated seen vs ≡ none → AreNew seen vs × Distinct vs
unfolding repeated
repeated-Distinct seen [] h = (tt, tt)
repeated-Distinct seen (v ∷ vs) h = elim (Bool-cases (is_in v seen)) [
  | inl again ↦ cc (rw again at h)
  | inr new ↦
      let (fresh, distinct) = repeated-Distinct (v ∷ seen) vs (rw new at h) in
      let (later, other) = AreNew-cons v seen vs fresh in
      ((new, later), ((new_iff v vs).1 other, distinct))
]

Distinct-repeated : (seen vs : List Text) → AreNew seen vs → Distinct vs → repeated seen vs ≡ none
unfolding repeated
Distinct-repeated seen [] h d = refl
Distinct-repeated seen (v ∷ vs) h d =
    rw h.0 (Distinct-repeated (v ∷ seen) vs (cons-AreNew v seen vs h.1 ((new_iff v vs).0 d.0)) d.1)

pub repeated_iff : (vs : List Text) → (repeated [] vs ≡ none) ↔ Distinct vs
unfolding is_in
repeated_iff vs =
    (λ h. (repeated-Distinct [] vs h).1, λ d. Distinct-repeated [] vs (All-of vs λ v m. refl) d)
