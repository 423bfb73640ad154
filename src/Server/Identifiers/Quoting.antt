-- ===== src/Server/Identifiers/Quoting.antt =====
-- A name that `_quote_ident` quoted, read back.
use cubrid_mcp_server.Common.{
  ℕ, ◌≡◌, refl, sym, ap, append_assoc, Bool, false, ◌==◌, ==_iff, if◌then◌else◌, Bool-cases, inl,
  inr, Option, none, some, [], ◌∷◌, ◌++◌,
}
use cubrid_mcp_server.Common.Text.{Text, replace_char}
use cubrid_mcp_server.Server.Identifiers.{quote_ident}

unfoldable pub before_rest : ℕ → Option (Text × Text) → Option (Text × Text)
before_rest c none = none
before_rest c (some (name, rest)) = some (c ∷ name, rest)

-- The body of a delimited identifier: it ends at a double quote that no other follows, and two
-- double quotes stand for one.
unfoldable pub read_body : Text → Option (Text × Text)
unfolding before_rest
read_body [] = none
read_body (c ∷ []) = if c == b'"' then some ([], []) else none
read_body (c ∷ d ∷ s) =
    if c == b'"'
    then (if d == b'"' then before_rest b'"' (read_body s) else some ([], d ∷ s))
    else before_rest c (read_body (d ∷ s))

-- A delimited identifier at the start of the text, and what is after it.
unfoldable pub read_ident : Text → Option (Text × Text)
read_ident [] = none
read_ident (c ∷ s) = if c == b'"' then read_body s else none

-- Whether the text starts with a double quote.
abbrev pub quotes_first : Text → Bool
quotes_first [] = false
quotes_first (c ∷ s) = c == b'"'

read_body_other :
    (c : ℕ) (s name rest : Text)
    → (c == b'"') ≡ false
    → read_body s ≡ some (name, rest)
    → read_body (c ∷ s) ≡ some (c ∷ name, rest)
unfolding read_body before_rest
read_body_other c [] name rest h e = cc
read_body_other c (d ∷ s) name rest h e = rw (h, e) refl

read_body_quoted :
    (name rest : Text)
    → quotes_first rest ≡ false
    → read_body (replace_char b'"' (b'"' ∷ b'"' ∷ []) name ++ b'"' ∷ rest) ≡ some (name, rest)
unfolding read_body replace_char before_rest
read_body_quoted [] [] h = refl
read_body_quoted [] (d ∷ s) h = rw h refl
read_body_quoted (c ∷ name) rest h = elim (Bool-cases (c == b'"')) [
  | inl quote ↦
      rw (quote, read_body_quoted name rest h)
        (ap (λ x. some (x ∷ name, rest)) (sym ((==_iff c b'"').0 quote)))
  | inr other ↦ rw other (read_body_other c _ name rest other (read_body_quoted name rest h))
]

-- A quoted name reads back as one delimited identifier, whatever characters it has and whatever
-- text follows it, unless that text starts with a double quote.
pub read_ident-quote_ident :
    (name rest : Text)
    → quotes_first rest ≡ false
    → read_ident (quote_ident name ++ rest) ≡ some (name, rest)
unfolding read_ident quote_ident
read_ident-quote_ident name rest h =
    rw (append_assoc (replace_char b'"' (b'"' ∷ b'"' ∷ []) name) (b'"' ∷ []) rest)
      (read_body_quoted name rest h)
