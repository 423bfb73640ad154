-- ===== src/Server/Identifiers.antt =====
-- Table names in cubrid_mcp_server/server.py: `_Table`, `_match_table`, `_resolve_table` and
-- `_quote_ident`. `str.lower` is the parameter `lower`.
pub mod Quoting
pub mod Matching
use cubrid_mcp_server.Common.{
  ℕ, suc, Bool, true, false, not, ◌&&◌, if◌then◌else◌, Option, none, some, List, [], ◌∷◌, ◌++◌, map,
  length, ltb, ◌==◌,
}
use cubrid_mcp_server.Common.Text.{Text, codes, text_eq, replace_char}
use cubrid_mcp_server.Common.Unicode.{Unicode, strip}
use cubrid_mcp_server.Common.Result.{Result, ok, err, ◌>>=◌}

pub record Table : Type 0 where
  pub owner : Option Text
  pub name : Text

-- The `ValueError`s.
pub data NameError : Type 0 where
  empty_name : NameError
  unknown_table : Text → NameError
  ambiguous : Text → List Text → NameError

-- `[t for t in tables if p(t)]`
abbrev pub keep {ℓ} : {A : Type ℓ} → (A → Bool) → List A → List A
keep p [] = []
keep p (x ∷ xs) = if p x then x ∷ keep p xs else keep p xs

-- The first that satisfies `p`
abbrev pub find_first {ℓ} : {A : Type ℓ} → (A → Bool) → List A → Option A
find_first p [] = none
find_first p (x ∷ xs) = if p x then some x else find_first p xs

unfoldable pub quote_ident : Text → Text
quote_ident name = b'"' ∷ (replace_char b'"' (b'"' ∷ b'"' ∷ []) name ++ b'"' ∷ [])

-- `return table` of the first loop, or what follows the loop.
unfoldable pub displayed_or :
    Option Table → Result NameError (Option Table) → Result NameError (Option Table)
displayed_or (some table) later = ok (some table)
displayed_or none later = later

module _ (u : Unicode) (lower : Text → Text) where
  unfoldable pub display : Table → Text
  display table = elim table.owner [
    | some owner ↦ lower owner ++ b'.' ∷ table.name
    | none ↦ table.name
  ]

  unfoldable pub is_displayed : Text → Table → Bool
  is_displayed needle table = text_eq (lower (display table)) needle

  unfoldable pub is_owned : Table → Bool
  is_owned table = elim table.owner [ some owner ↦ true | none ↦ false ]

  unfoldable pub is_candidate : Text → Table → Bool
  is_candidate needle table = is_owned table && text_eq (lower table.name) needle

  unfoldable pub is_own : Text → Table → Bool
  is_own user table = elim table.owner [
    | some owner ↦ text_eq (lower owner) (lower user)
    | none ↦ false
  ]

  -- The candidates the user owns, when there are several candidates.
  unfoldable pub the_own : Text → List Table → List Table → Result NameError (Option Table)
  the_own table_name candidates (own ∷ []) = ok (some own)
  the_own table_name candidates _ = err (ambiguous table_name (map display candidates))

  unfoldable pub the_candidate : Text → Text → List Table → Result NameError (Option Table)
  the_candidate user table_name [] = ok none
  the_candidate user table_name (table ∷ []) = ok (some table)
  the_candidate user table_name (table ∷ table' ∷ more) =
      the_own table_name (table ∷ table' ∷ more) (keep (is_own user) (table ∷ table' ∷ more))

  unfoldable pub match_table : Text → List Table → Text → Result NameError (Option Table)
  match_table user tables table_name =
      let needle = lower (strip u table_name) in
      displayed_or (find_first (is_displayed needle) tables)
        (the_candidate user table_name (keep (is_candidate needle) tables))

  unfoldable pub known_table : Text → Option Table → Result NameError Table
  known_table table_name (some table) = ok table
  known_table table_name none = err (unknown_table table_name)

  -- `tables` is what `_user_tables` read.
  unfoldable pub resolve_table : Text → List Table → Text → Result NameError Table
  resolve_table user tables table_name = elim (strip u table_name) [
    | [] ↦ err empty_name
    | c ∷ rest ↦ match_table user tables table_name >>= known_table table_name
  ]
