-- ===== src/Scripts/PypiGuard/Files.antt =====
-- Files by name, as scripts/pypi_duplicate_guard.py looks them up.
use cubrid_mcp_server.Common.{
  ◌≤◌, ◌≡◌, refl, sym, subst, Bool, true, false, not, ltb, Bool-cases, inl, inr, none, some, List,
  [], ◌∷◌, length, any, All, Among, here, there, arith, or_false,
}
use cubrid_mcp_server.Common.Text.{Text, text_eq, text_eq_iff, is_in}
use cubrid_mcp_server.Config.Registry.{Named, names, lookup}
use cubrid_mcp_server.Server.Identifiers.{keep}

module _ {A : Type 0} where
  pub All-of : {P : A → Type 0} (xs : List A) → ((x : A) → Among x xs → P x) → All P xs
  All-of [] f = tt
  All-of (x ∷ xs) f = (f x here, All-of xs (λ y m. f y (there m)))

  pub any-none : (p : A → Bool) (xs : List A) → All (λ x. p x ≡ false) xs → any p xs ≡ false
  any-none p [] h = refl
  any-none p (x ∷ xs) h = rw (h.0, any-none p xs h.1) refl

  pub none-any : (p : A → Bool) (xs : List A) → any p xs ≡ false → All (λ x. p x ≡ false) xs
  none-any p [] h = tt
  none-any p (x ∷ xs) h =
      let (first, rest) = or_false (p x) (any p xs) h in (first, none-any p xs rest)

  pub length-keep-le : (p : A → Bool) (xs : List A) → length (keep p xs) ≤ length xs
  length-keep-le p [] = omega arith
  length-keep-le p (x ∷ xs) = elim (Bool-cases (p x)) [
    | inl held ↦ rw held (omega (arith, length-keep-le p xs))
    | inr fails ↦ rw fails (omega (arith, length-keep-le p xs))
  ]

  -- Fewer are kept exactly when one is not.
  pub keeps_fewer :
      (p : A → Bool) (xs : List A) → ltb (length (keep p xs)) (length xs) ≡ any (λ x. not (p x)) xs
  keeps_fewer p [] = refl
  keeps_fewer p (x ∷ xs) = elim (Bool-cases (p x)) [
    | inl held ↦ rw held (ground (arith, keeps_fewer p xs))
    | inr fails ↦ rw fails (ground (arith, length-keep-le p xs))
  ]

pub lookup-is_in :
    (name : Text) (files : Named Text)
    → is_in name (names files) ≡ true
    → (value : Text) × (lookup name files ≡ some value) × Among (name, value) files
unfolding is_in names lookup
lookup-is_in name [] h = cc
lookup-is_in name (x ∷ xs) h = elim (Bool-cases (text_eq name x.0)) [
  | inl same ↦ (
    x.1,
    rw same refl,
    subst (λ n. Among (n, x.1) (x ∷ xs)) (sym ((text_eq_iff name x.0).0 same)) here,
  )
  | inr other ↦
      let (value, found, m) = lookup-is_in name xs (rw other at h) in
      (value, rw other found, there m)
]

pub lookup-some :
    (name value : Text) (files : Named Text)
    → lookup name files ≡ some value
    → Among (name, value) files × (is_in name (names files) ≡ true)
unfolding lookup is_in names
lookup-some name value [] h = cc
lookup-some name value (x ∷ xs) h = elim (Bool-cases (text_eq name x.0)) [
  | inl same ↦
      let e : some x.1 ≡ some value = rw same at h in
      let e' : x.1 ≡ value = cc e in
      let n : x.0 ≡ name = sym ((text_eq_iff name x.0).0 same) in
      (
        subst (λ v. Among (name, v) (x ∷ xs)) e' (subst (λ k. Among (k, x.1) (x ∷ xs)) n here),
        rw same refl,
      )
  | inr other ↦
      let (m, known) = lookup-some name value xs (rw other at h) in (there m, rw other known)
]

pub lookup-none :
    (name : Text) (files : Named Text) → lookup name files ≡ none → is_in name (names files) ≡ false
lookup-none name files h = elim (Bool-cases (is_in name (names files))) [
  | inl known ↦ let (value, found, m) = lookup-is_in name files known in absurd (cc (h, found))
  | inr new ↦ new
]
