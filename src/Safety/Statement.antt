-- ===== src/Safety/Statement.antt =====
-- The tree of tokens that sqlparse returns, and the functions of cubrid_mcp_server/safety.py that
-- walk it: `_is_non_empty`, `_leading_keyword`, `_forbidden_keywords` and `_collect_forbidden`.
pub mod Forbidden
use cubrid_mcp_server.Common.{
  ℕ, Bool, true, false, not, ◌&&◌, ◌||◌, ◌==◌, ltb, if◌then◌else◌, List, [], ◌∷◌, ◌++◌, Option,
  none, some,
}
use cubrid_mcp_server.Common.Text.{Text, codes, is_in, rstrip}
use cubrid_mcp_server.Common.Unicode.{Unicode, upper, strip}
use cubrid_mcp_server.Safety.Render.{is_empty}

-- The tokens of a statement or of a group, in order. A leaf has a `ttype`: whether it is in
-- `Keyword`, whether it is whitespace, and its `value`. A group has no `ttype` and has tokens.
pub data ParsedTokens : Type 0 where
  end : ParsedTokens
  leaf : Bool → Bool → Text → ParsedTokens → ParsedTokens
  group : ParsedTokens → ParsedTokens → ParsedTokens

-- `sqlparse.sql.Statement`
pub record Statement : Type 0 where
  pub value : Text
  pub tokens : ParsedTokens

unfoldable pub read_only_keywords : List Text
read_only_keywords =
    codes "SELECT" ∷ codes "SHOW" ∷ codes "DESC" ∷ codes "DESCRIBE" ∷ codes "WITH" ∷ []

unfoldable pub write_keywords : List Text
write_keywords = codes "INSERT" ∷ codes "UPDATE" ∷ codes "DELETE" ∷ []

unfoldable pub query_rejected_keywords : List Text
unfolding write_keywords
query_rejected_keywords =
    write_keywords
    ++ (codes "CALL"
        ∷ codes "EVALUATE"
        ∷ codes "KILL"
        ∷ codes "REPLACE"
        ∷ codes "MERGE"
        ∷ codes "CREATE"
        ∷ codes "ALTER"
        ∷ codes "DROP"
        ∷ codes "TRUNCATE"
        ∷ codes "RENAME"
        ∷ codes "GRANT"
        ∷ codes "REVOKE"
        ∷ codes "COMMIT"
        ∷ codes "ROLLBACK"
        ∷ codes "SAVEPOINT"
        ∷ codes "SET"
        ∷ codes "PREPARE"
        ∷ codes "EXECUTE"
        ∷ codes "DEALLOCATE"
        ∷ codes "DO"
        ∷ [])

unfoldable pub forbidden : List Text
forbidden =
    codes "INSERT"
    ∷ codes "UPDATE"
    ∷ codes "DELETE"
    ∷ codes "REPLACE"
    ∷ codes "MERGE"
    ∷ codes "DROP"
    ∷ codes "CREATE"
    ∷ codes "ALTER"
    ∷ codes "TRUNCATE"
    ∷ codes "GRANT"
    ∷ codes "REVOKE"
    ∷ codes "RENAME"
    ∷ codes "CALL"
    ∷ codes "EXECUTE"
    ∷ codes "COMMIT"
    ∷ codes "ROLLBACK"
    ∷ codes "LOCK"
    ∷ codes "INTO"
    ∷ []

-- `statement.value.strip().rstrip(";").strip()`
unfoldable pub is_non_empty : Unicode → Statement → Bool
is_non_empty u st = not (is_empty (strip u (rstrip (λ c. c == b';') (strip u st.value))))

unfoldable pub leading_keyword : ParsedTokens → Option Text
leading_keyword end = none
leading_keyword (leaf keyword whitespace value rest) =
    let later = leading_keyword rest in
    if whitespace then later else if keyword then some value else later
leading_keyword (group tokens rest) =
    let later = leading_keyword rest in
    elim (leading_keyword tokens) [ none ↦ later | some k ↦ some k ]

-- The set `found`, as a list.
unfoldable pub forbidden_keywords : Unicode → ParsedTokens → List Text
forbidden_keywords u end = []
forbidden_keywords u (leaf keyword whitespace value rest) =
    (if keyword && is_in (upper u value) forbidden then upper u value ∷ [] else [])
    ++ forbidden_keywords u rest
forbidden_keywords u (group tokens rest) = forbidden_keywords u tokens ++ forbidden_keywords u rest

-- `sorted(found)[0]`, by code points
unfoldable pub text_ltb : Text → Text → Bool
text_ltb [] [] = false
text_ltb [] (d ∷ t) = true
text_ltb (c ∷ s) [] = false
text_ltb (c ∷ s) (d ∷ t) = ltb c d || (c == d && text_ltb s t)

unfoldable pub least : Text → List Text → Text
unfolding text_ltb
least x [] = x
least x (y ∷ ys) = least (if text_ltb y x then y else x) ys
