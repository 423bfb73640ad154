-- ===== src/Server/Identifiers/Matching.antt =====
-- Which table `_match_table` finds.
use cubrid_mcp_server.Common.{
  ◌≡◌, ◌≢◌, ◌↔◌, ◌⊎◌, refl, sym, ◌∙◌, subst, Bool, true, false, ◌&&◌, Bool-cases, Option-cases, inl,
  inr, none, some, List, [], ◌∷◌, ◌++◌, ap, All, All-map, All-zip, Among, here, there,
}
use cubrid_mcp_server.Common.Text.{Text}
use cubrid_mcp_server.Common.Unicode.{Unicode, strip}
use cubrid_mcp_server.Common.Result.{ok}
use cubrid_mcp_server.Server.Identifiers.{
  Table, keep, find_first, is_displayed, is_candidate, is_own, the_own, the_candidate, displayed_or,
  match_table,
}

not_both : (b : Bool) → b ≡ true → b ≡ false → ⊥
not_both b h h' = cc

module _ {A : Type 0} (p : A → Bool) where
  pub find_first-some : (xs : List A) (x : A) → find_first p xs ≡ some x → Among x xs × (p x ≡ true)
  find_first-some [] x h = cc
  find_first-some (y ∷ xs) x h = elim (Bool-cases (p y)) [
    | inl held ↦
        let e : some y ≡ some x = rw held at h in
        subst (λ z. Among z (y ∷ xs) × (p z ≡ true)) (cc e) (here, held)
    | inr fails ↦ let (m, q) = find_first-some xs x (rw fails at h) in (there m, q)
  ]

  pub find_first-none : (xs : List A) → find_first p xs ≡ none → All (λ y. p y ≡ false) xs
  find_first-none [] h = tt
  find_first-none (y ∷ xs) h = elim (Bool-cases (p y)) [
    | inl held ↦ absurd (cc (rw held at h))
    | inr fails ↦ (fails, find_first-none xs (rw fails at h))
  ]

  none-find_first : (xs : List A) → All (λ y. p y ≡ false) xs → find_first p xs ≡ none
  none-find_first [] h = refl
  none-find_first (y ∷ xs) h = rw (h.0, none-find_first xs h.1) refl

  keep-nil : (xs : List A) → keep p xs ≡ [] → All (λ y. p y ≡ false) xs
  keep-nil [] h = tt
  keep-nil (y ∷ xs) h = elim (Bool-cases (p y)) [
    | inl held ↦ absurd (cc (rw held at h))
    | inr fails ↦ (fails, keep-nil xs (rw fails at h))
  ]

  nil-keep : (xs : List A) → All (λ y. p y ≡ false) xs → keep p xs ≡ []
  nil-keep [] h = refl
  nil-keep (y ∷ xs) h = rw (h.0, nil-keep xs h.1) refl

  -- The first that satisfies `p`
  pub data IsFirst : List A → A → Type 0 where
    first_at :
        (before : List A) (x : A) (later : List A)
        → All (λ y. p y ≡ false) before
        → p x ≡ true
        → IsFirst (before ++ x ∷ later) x

  -- The only one that satisfies `p`
  pub data IsOnly : List A → A → Type 0 where
    only_at :
        (before : List A) (x : A) (later : List A)
        → All (λ y. p y ≡ false) before
        → p x ≡ true
        → All (λ y. p y ≡ false) later
        → IsOnly (before ++ x ∷ later) x

  IsFirst-cons : (y : A) (xs : List A) (x : A) → p y ≡ false → IsFirst xs x → IsFirst (y ∷ xs) x
  IsFirst-cons y _ x h (first_at before _ later none_before held) =
      first_at (y ∷ before) x later (h, none_before) held

  IsOnly-cons : (y : A) (xs : List A) (x : A) → p y ≡ false → IsOnly xs x → IsOnly (y ∷ xs) x
  IsOnly-cons y _ x h (only_at before _ later none_before held none_later) =
      only_at (y ∷ before) x later (h, none_before) held none_later

  find_first-IsFirst : (xs : List A) (x : A) → find_first p xs ≡ some x → IsFirst xs x
  find_first-IsFirst [] x h = cc
  find_first-IsFirst (y ∷ xs) x h = elim (Bool-cases (p y)) [
    | inl held ↦
        let e : some y ≡ some x = rw held at h in
        subst (IsFirst (y ∷ xs)) (cc e) (first_at [] y xs tt held)
    | inr fails ↦ IsFirst-cons y xs x fails (find_first-IsFirst xs x (rw fails at h))
  ]

  first_found :
      (before : List A) (x : A) (later : List A)
      → All (λ y. p y ≡ false) before
      → p x ≡ true
      → find_first p (before ++ x ∷ later) ≡ some x
  first_found [] x later h held = rw held refl
  first_found (y ∷ before) x later h held = rw h.0 (first_found before x later h.1 held)

  IsFirst-find_first : (xs : List A) (x : A) → IsFirst xs x → find_first p xs ≡ some x
  IsFirst-find_first _ x (first_at before _ later h held) = first_found before x later h held

  keep-IsOnly : (xs : List A) (x : A) → keep p xs ≡ x ∷ [] → IsOnly xs x
  keep-IsOnly [] x h = cc
  keep-IsOnly (y ∷ xs) x h = elim (Bool-cases (p y)) [
    | inl held ↦
        let e : y ∷ keep p xs ≡ x ∷ [] = rw held at h in
        subst (IsOnly (y ∷ xs)) (cc e) (only_at [] y xs tt held (keep-nil xs (cc e)))
    | inr fails ↦ IsOnly-cons y xs x fails (keep-IsOnly xs x (rw fails at h))
  ]

  only_kept :
      (before : List A) (x : A) (later : List A)
      → All (λ y. p y ≡ false) before
      → p x ≡ true
      → All (λ y. p y ≡ false) later
      → keep p (before ++ x ∷ later) ≡ x ∷ []
  only_kept [] x later h held k = rw (held, nil-keep later k) refl
  only_kept (y ∷ before) x later h held k = rw h.0 (only_kept before x later h.1 held k)

  IsOnly-keep : (xs : List A) (x : A) → IsOnly xs x → keep p xs ≡ x ∷ []
  IsOnly-keep _ x (only_at before _ later h held k) = only_kept before x later h held k

keep-keep :
    {A : Type 0} (p q : A → Bool) (xs : List A) → keep q (keep p xs) ≡ keep (λ x. p x && q x) xs
keep-keep p q [] = refl
keep-keep p q (x ∷ xs) = elim (Bool-cases (p x)) [
  | inr fails ↦ rw fails (keep-keep p q xs)
  | inl held ↦ elim (Bool-cases (q x)) [
    | inl also ↦ rw (held, also) (ap (◌∷◌ x) (keep-keep p q xs))
    | inr not_also ↦ rw (held, not_also) (keep-keep p q xs)
  ]
]

module _ (u : Unicode) (lower : Text → Text) (user : Text) where
  -- The only candidate, or the only candidate of the user
  abbrev pub IsPreferred : Text → List Table → Table → Type 0
  IsPreferred needle tables table =
      IsOnly (is_candidate u lower needle) tables table
      ⊎ IsOnly (λ t. is_candidate u lower needle t && is_own u lower user t) tables table

  the_own-some :
      (table_name : Text) (candidates own : List Table) (table : Table)
      → the_own u lower table_name candidates own ≡ ok (some table)
      → own ≡ table ∷ []
  unfolding the_own
  the_own-some table_name candidates [] table h = cc
  the_own-some table_name candidates (t ∷ []) table h = cc
  the_own-some table_name candidates (t ∷ t' ∷ more) table h = cc

  preferred :
      (table_name needle : Text) (tables candidates : List Table) (table : Table)
      → keep (is_candidate u lower needle) tables ≡ candidates
      → the_candidate u lower user table_name candidates ≡ ok (some table)
      → IsPreferred needle tables table
  unfolding the_candidate
  preferred table_name needle tables [] table e h = cc
  preferred table_name needle tables (t ∷ []) table e h =
      inl (keep-IsOnly (is_candidate u lower needle) tables table (e ∙ cc h))
  preferred table_name needle tables (t ∷ t' ∷ more) table e h = inr (
      keep-IsOnly (λ x. is_candidate u lower needle x && is_own u lower user x) tables table
        (sym (keep-keep (is_candidate u lower needle) (is_own u lower user) tables)
          ∙ ap (keep (is_own u lower user)) e
          ∙ the_own-some table_name (t ∷ t' ∷ more) _ table h))

  -- Among several candidates, or as the only one, the only one of the user is found.
  own_found :
      (table_name : Text) (candidates : List Table) (table : Table)
      → keep (is_own u lower user) candidates ≡ table ∷ []
      → the_candidate u lower user table_name candidates ≡ ok (some table)
  unfolding the_candidate the_own
  own_found table_name [] table h = cc
  own_found table_name (t ∷ []) table h = elim (Bool-cases (is_own u lower user t)) [
    | inl own ↦ let e : t ∷ [] ≡ table ∷ [] = rw own at h in ap (λ x. ok (some x)) (cc e)
    | inr other ↦ cc (rw other at h)
  ]
  own_found table_name (t ∷ t' ∷ more) table h = rw h refl

  IsPreferred-found :
      (table_name needle : Text) (tables : List Table) (table : Table)
      → IsPreferred needle tables table
      → the_candidate u lower user table_name (keep (is_candidate u lower needle) tables)
        ≡ ok (some table)
  unfolding the_candidate
  IsPreferred-found table_name needle tables table (inl only) =
      rw (IsOnly-keep (is_candidate u lower needle) tables table only) refl
  IsPreferred-found table_name needle tables table (inr own) =
      own_found table_name (keep (is_candidate u lower needle) tables) table (
        keep-keep (is_candidate u lower needle) (is_own u lower user) tables
        ∙ IsOnly-keep (λ x. is_candidate u lower needle x && is_own u lower user x) tables table
            own)

  -- `_match_table` returns a table exactly when it is the first of the tables whose displayed name is
  -- the name asked for, without case, or no table's is and the table is the only one with an owner and
  -- that bare name, or the only such one of the user. So a name of several owners, of which not just
  -- one is the user, finds none.
  pub match_table-eq-some_iff :
      (tables : List Table) (table_name : Text) (table : Table)
      → (match_table u lower user tables table_name ≡ ok (some table)) ↔ (
          IsFirst (is_displayed u lower (lower (strip u table_name))) tables table
          ⊎ (All (λ t. is_displayed u lower (lower (strip u table_name)) t ≡ false) tables
              × IsPreferred (lower (strip u table_name)) tables table))
  unfolding match_table displayed_or
  match_table-eq-some_iff tables table_name table =
      let needle = lower (strip u table_name) in
      let shown : Table → Bool = is_displayed u lower needle in
      (
        λ h. elim (Option-cases (find_first shown tables)) [
          | inl missing ↦ inr (
            find_first-none shown tables missing,
            preferred table_name needle tables _ table refl (rw missing at h),
          )
          | inr (t, found) ↦
              inl (find_first-IsFirst shown tables table (found ∙ cc (rw found at h)))
        ],
        λ h. elim h [
          | inl first ↦ rw (IsFirst-find_first shown tables table first) refl
          | inr (none_shown, best) ↦
              rw (none-find_first shown tables none_shown)
                (IsPreferred-found table_name needle tables table best)
        ],
      )

  no_candidate :
      (table_name : Text) (candidates : List Table)
      → the_candidate u lower user table_name candidates ≡ ok none
      → candidates ≡ []
  unfolding the_candidate the_own
  no_candidate table_name [] h = refl
  no_candidate table_name (t ∷ []) h = cc
  no_candidate table_name (t ∷ t' ∷ more) h = absurd (own_not_none _ h)
    where
      own_not_none : (own : List Table) → the_own u lower table_name (t ∷ t' ∷ more) own ≢ ok none
      own_not_none [] e = cc
      own_not_none (o ∷ []) e = cc
      own_not_none (o ∷ o' ∷ os) e = cc

  -- `_match_table` returns `None` exactly when no table has the name asked for, without case, as its
  -- displayed name or, with an owner, as its bare name.
  pub match_table-eq-none_iff :
      (tables : List Table) (table_name : Text)
      → (match_table u lower user tables table_name ≡ ok none)
        ↔ All
            (λ t.
              (is_displayed u lower (lower (strip u table_name)) t ≡ false)
              × (is_candidate u lower (lower (strip u table_name)) t ≡ false))
            tables
  unfolding match_table displayed_or the_candidate
  match_table-eq-none_iff tables table_name = (
    λ h.
        elim (Option-cases
          (find_first (is_displayed u lower (lower (strip u table_name))) tables)) [
            | inl missing ↦
                All-zip _ _ tables
                  (find_first-none (is_displayed u lower (lower (strip u table_name))) tables
                    missing)
                  (keep-nil (is_candidate u lower (lower (strip u table_name))) tables
                    (no_candidate table_name _ (rw missing at h)))
            | inr (t, found) ↦ absurd (cc (rw found at h))
          ],
    λ h.
        rw
          (
            none-find_first (is_displayed u lower (lower (strip u table_name))) tables
                (All-map _ _ (λ t x. x.0) tables h),
            nil-keep (is_candidate u lower (lower (strip u table_name))) tables
                (All-map _ _ (λ t x. x.1) tables h),
          )
          refl,
  )
