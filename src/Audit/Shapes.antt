-- ===== src/Audit/Shapes.antt =====
-- What the table names in a record of cubrid_mcp_server/audit.py are made of.
use cubrid_mcp_server.Common.{
  ℕ, zero, suc, ◌≡◌, refl, Bool, true, false, ◌||◌, ◌==◌, Bool-cases, inl, inr, subst, Option-cases,
  Option, none, some, List, [], ◌∷◌, ◌++◌, length, All, All-append, arith,
}
use cubrid_mcp_server.Common.Text.{Text, is_in, replace_char}
use cubrid_mcp_server.Common.Unicode.{Unicode}
use cubrid_mcp_server.Audit.References.{
  name_start, name_part, name_run, closed_name, quoted_name, one_name, dotted, with_dot, qualified,
  after_keyword, after_spaces, reference_at, behind_spaces, behind_keyword, ends_in_word, scan,
  table_references,
}
use cubrid_mcp_server.Audit.{strip_noise, first_seen, unquote_all, identifiers}

-- A character of a name, a dot between names, or a double quote round one.
abbrev is_reference_char : ℕ → Bool
is_reference_char c = name_part c || c == b'.' || c == b'"'

abbrev IsReference : Text → Type 0
IsReference = All (λ c. is_reference_char c ≡ true)

of_some : (x r : Text × Text) → some x ≡ some r → IsReference x.0 → IsReference r.0
of_some x r e h = let e' : x ≡ r = cc e in subst (λ (z : Text × Text). IsReference z.0) e' h

name_run-IsReference : (s : Text) → IsReference (name_run s).0
unfolding name_run
name_run-IsReference [] = tt
name_run-IsReference (c ∷ s) = elim (Bool-cases (name_part c)) [
  | inl part ↦ rw part (ground arith, name_run-IsReference s)
  | inr other ↦ rw other tt
]

start_is_reference : (c : ℕ) → name_start c ≡ true → is_reference_char c ≡ true
start_is_reference c h = ground arith

closed_name-IsReference :
    (c : ℕ) (x : Text × Text) (r : Text × Text)
    → name_start c ≡ true
    → IsReference x.0
    → closed_name c x ≡ some r
    → IsReference r.0
closed_name-IsReference c (run, []) r hc h e = cc
closed_name-IsReference c (run, d ∷ rest) r hc h e = elim (Bool-cases (d == b'"')) [
  | inl quote ↦
      let e' : some (b'"' ∷ c ∷ (run ++ b'"' ∷ []), rest) ≡ some r = rw quote at e in
      of_some _ r e' (refl, (start_is_reference c hc, All-append _ run (b'"' ∷ []) h (refl, tt)))
  | inr other ↦ absurd (cc (rw other at e))
]

one_name-IsReference : (s : Text) (r : Text × Text) → one_name s ≡ some r → IsReference r.0
unfolding one_name
one_name-IsReference [] r e = cc
one_name-IsReference (c ∷ s) r e = elim (Bool-cases (c == b'"')) [
  | inl quote ↦ quoted_name-IsReference s r (rw quote at e)
  | inr other ↦ elim (Bool-cases (name_start c)) [
    | inl start ↦
        let e' : some (c ∷ (name_run s).0, (name_run s).1) ≡ some r = rw (other, start) at e in
        of_some _ r e' (start_is_reference c start, name_run-IsReference s)
    | inr none' ↦ absurd (cc (rw (other, none') at e))
  ]
]
  where
    quoted_name-IsReference :
        (s : Text) (r : Text × Text) → quoted_name s ≡ some r → IsReference r.0
    quoted_name-IsReference [] r e = cc
    quoted_name-IsReference (c ∷ s) r e = elim (Bool-cases (name_start c)) [
      | inl start ↦
          closed_name-IsReference c (name_run s) r start (name_run-IsReference s) (rw start at e)
      | inr other ↦ absurd (cc (rw other at e))
    ]

with_dot-IsReference : (first rest : Text) → IsReference first → IsReference (with_dot first rest).0
unfolding with_dot
with_dot-IsReference first [] h = h
with_dot-IsReference first (c ∷ s) h = elim (Bool-cases (c == b'.')) [
  | inl dot ↦ rw dot (dotted-IsReference (one_name s) refl)
  | inr other ↦ rw other h
]
  where
    dotted-IsReference :
        (o : Option (Text × Text)) → one_name s ≡ o → IsReference (dotted first (c ∷ s) o).0
    dotted-IsReference none e = h
    dotted-IsReference (some r) e =
        All-append _ first (b'.' ∷ r.0) h (refl, one_name-IsReference s r e)

qualified-IsReference :
    (s : Text) (r : Text × Text) → qualified (one_name s) ≡ some r → IsReference r.0
qualified-IsReference s r e = step (one_name s) refl e
  where
    step : (o : Option (Text × Text)) → one_name s ≡ o → qualified o ≡ some r → IsReference r.0
    step none q e = cc
    step (some x) q e = of_some _ r e (with_dot-IsReference x.0 x.1 (one_name-IsReference s x q))

reference_at-IsReference :
    (u : Unicode) (after : Bool) (s : Text) (r : Text × Text)
    → reference_at u after s ≡ some r
    → IsReference r.0
unfolding reference_at
reference_at-IsReference u true s r e = cc
reference_at-IsReference u false s r e = keyword (after_keyword s) e
  where
    spaces : (o : Option Text) → behind_spaces o ≡ some r → IsReference r.0
    spaces none e = cc
    spaces (some name) e = qualified-IsReference name r e

    keyword : (o : Option Text) → behind_keyword u o ≡ some r → IsReference r.0
    keyword none e = cc
    keyword (some behind) e = spaces (after_spaces u behind) e

scan-IsReference :
    (u : Unicode) (fuel : ℕ) (after : Bool) (s : Text) → All IsReference (scan u fuel after s)
unfolding scan
scan-IsReference u zero after s = tt
scan-IsReference u (suc fuel) after [] = tt
scan-IsReference u (suc fuel) after (c ∷ s) = elim (Option-cases (reference_at u after (c ∷ s))) [
  | inl none' ↦ rw (none', scan) (scan-IsReference u fuel (u.is_word c) s)
  | inr (r, e) ↦
      rw (e, scan)
        (
          reference_at-IsReference u after (c ∷ s) r e,
          scan-IsReference u fuel (ends_in_word u r.0) r.1,
        )
]

-- A character of a name, or a dot between names.
abbrev pub is_plain_char : ℕ → Bool
is_plain_char c = name_part c || c == b'.'

abbrev pub IsPlain : Text → Type 0
IsPlain = All (λ c. is_plain_char c ≡ true)

plain_char : (c : ℕ) → is_reference_char c ≡ true → (c == b'"') ≡ false → is_plain_char c ≡ true
plain_char c h q = ground arith

replace_char-IsPlain : (s : Text) → IsReference s → IsPlain (replace_char b'"' [] s)
unfolding replace_char
replace_char-IsPlain [] h = tt
replace_char-IsPlain (c ∷ s) h = elim (Bool-cases (c == b'"')) [
  | inl quote ↦ rw quote (replace_char-IsPlain s h.1)
  | inr other ↦ rw other (plain_char c h.0 other, replace_char-IsPlain s h.1)
]

unquote_all-IsPlain : (names : List Text) → All IsReference names → All IsPlain (unquote_all names)
unfolding unquote_all
unquote_all-IsPlain [] h = tt
unquote_all-IsPlain (x ∷ xs) h = (replace_char-IsPlain x h.0, unquote_all-IsPlain xs h.1)

first_seen-IsPlain :
    (seen names : List Text) → All IsPlain names → All IsPlain (first_seen seen names)
unfolding first_seen
first_seen-IsPlain seen [] h = tt
first_seen-IsPlain seen (x ∷ xs) h = elim (Bool-cases (is_in x seen)) [
  | inl old ↦ rw old (first_seen-IsPlain seen xs h.1)
  | inr new ↦ rw new (h.0, first_seen-IsPlain (x ∷ seen) xs h.1)
]

-- Every table name in a record consists of letters, digits, underscores and dots: whatever the
-- statement is, no quote, space or operator of it reaches the log.
pub identifiers-IsPlain : (u : Unicode) (sql : Option Text) → All IsPlain (identifiers u sql)
unfolding identifiers table_references
identifiers-IsPlain u none = tt
identifiers-IsPlain u (some []) = tt
identifiers-IsPlain u (some (c ∷ s)) = first_seen-IsPlain [] _ (
    unquote_all-IsPlain _
      (scan-IsReference u (length (strip_noise (c ∷ s))) false (strip_noise (c ∷ s))))
