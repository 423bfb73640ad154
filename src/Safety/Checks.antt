-- ===== src/Safety/Checks.antt =====
-- `_parse`, `statement_keyword` and the three checks of cubrid_mcp_server/safety.py.
-- `sqlparse.parse` is the parameter `sqlparse`.
pub mod ReadOnly
pub mod Write
pub mod Query
pub mod Disjoint
use cubrid_mcp_server.Common.{
  ℕ, Bool, true, false, not, ◌&&◌, ◌||◌, ltb, if◌then◌else◌, List, [], ◌∷◌, ◌++◌, Option, none,
  some, length,
}
use cubrid_mcp_server.Common.Text.{Text, is_in, join, lstrip}
use cubrid_mcp_server.Common.Unicode.{Unicode, upper, strip}
use cubrid_mcp_server.Common.Result.{Result, ok, err, ◌>>=◌, ◌>>◌, raise_if}
use cubrid_mcp_server.Safety.Errors.{
  Mode, read_only_mode, execute_query_mode, write_mode, UnsafeSqlError, empty_sql,
  no_leading_keyword, index_error, multi_statement, not_permitted, changes_data,
}
use cubrid_mcp_server.Safety.Render.{is_empty, cubrid_statements}
use cubrid_mcp_server.Safety.Tokens.{first_name}
use cubrid_mcp_server.Safety.SideEffect.{side_effect}
use cubrid_mcp_server.Safety.Statement.{
  Statement, read_only_keywords, write_keywords, query_rejected_keywords, is_non_empty,
  leading_keyword, forbidden_keywords, least,
}

abbrev Check : Type 0 → Type 0
Check = Result UnsafeSqlError

-- `[stmt for stmt in statements if _is_non_empty(stmt)]`
unfoldable pub non_empty : Unicode → List Statement → List Statement
non_empty u [] = []
non_empty u (st ∷ sts) = (if is_non_empty u st then st ∷ [] else []) ++ non_empty u sts

abbrev pub only_statement : Mode → List Statement → Check Statement
only_statement mode [] = err empty_sql
only_statement mode (st ∷ []) = ok st
only_statement mode (st ∷ next ∷ sts) = err (multi_statement mode)

-- `first or leading`: an empty name is falsy
abbrev pub or_else : Option Text → Option Text → Option Text
or_else none leading = leading
or_else (some []) leading = leading
or_else (some (c ∷ s)) leading = some (c ∷ s)

-- `if keyword is None: raise`
abbrev pub known : Option Text → Check Text
known none = err no_leading_keyword
known (some k) = ok k

abbrev pub reject_forbidden : List Text → Check (Unit {0})
reject_forbidden [] = ok tt
reject_forbidden (k ∷ ks) = err (not_permitted (least k ks) read_only_mode)

abbrev pub reject_effect : Mode → Option Text → Check (Unit {0})
reject_effect mode none = ok tt
reject_effect mode (some e) = err (changes_data e mode)

-- `keyword.split()[0]`
unfoldable pub until_space : Unicode → Text → Text
until_space u [] = []
until_space u (c ∷ s) = let more = c ∷ until_space u s in if u.is_space c then [] else more

abbrev pub head_word : Text → Check Text
head_word [] = err index_error
head_word (c ∷ s) = ok (c ∷ s)

unfoldable pub first_word : Unicode → Text → Check Text
unfolding until_space
first_word u s = head_word (until_space u (lstrip u.is_space s))

-- `keyword.split()[0].upper() if keyword is not None else None`
unfoldable pub leading_word : Unicode → Option Text → Check (Option Text)
leading_word u none = ok none
leading_word u (some k) = do w ← first_word u k; ok (some (upper u w))

-- `if word in QUERY_REJECTED_KEYWORDS: raise`
unfoldable pub reject_word : Option Text → Check (Unit {0})
reject_word none = ok tt
reject_word (some w) =
    raise_if (is_in w query_rejected_keywords) (not_permitted w execute_query_mode)

module _ (u : Unicode) (sqlparse : Text → List Statement) where
  unfoldable pub parse : Text → Mode → Check (Statement × Bool)
  parse sql mode = do
    raise_if (is_empty (strip u sql)) empty_sql
    statements ← cubrid_statements u sql
    st ← only_statement mode (non_empty u (sqlparse (join (b';' ∷ []) statements)))
    ok (st, ltb 1 (length statements))

  unfoldable pub ensure_read_only : Text → Check (Unit {0})
  ensure_read_only sql = do
    parsed ← parse sql read_only_mode
    first ← first_name u sql
    keyword ← known (or_else first (leading_keyword parsed.0.tokens))
    raise_if (not (is_in (upper u keyword) read_only_keywords))
        (not_permitted (upper u keyword) read_only_mode)
    reject_forbidden (forbidden_keywords u parsed.0.tokens)
    reject_effect read_only_mode (side_effect u sql)
    raise_if parsed.1 (multi_statement read_only_mode)

  unfoldable pub statement_keyword : Text → Check (Option Text)
  statement_keyword sql = do
    parsed ← parse sql read_only_mode
    raise_if parsed.1 (multi_statement read_only_mode)
    first ← first_name u sql
    leading_word u (or_else first (leading_keyword parsed.0.tokens))

  unfoldable pub ensure_query_statement : Text → Check (Unit {0})
  ensure_query_statement sql = do
    parsed ← parse sql execute_query_mode
    word ← leading_word u (leading_keyword parsed.0.tokens)
    first ← first_name u sql
    reject_word first
    reject_word word
    reject_effect execute_query_mode (side_effect u sql)
    raise_if parsed.1 (multi_statement execute_query_mode)

  unfoldable pub ensure_write_allowed : Text → Check (Unit {0})
  ensure_write_allowed sql = do
    parsed ← parse sql write_mode
    first ← first_name u sql
    keyword ← known (or_else first (leading_keyword parsed.0.tokens))
    raise_if (not (is_in (upper u keyword) write_keywords))
        (not_permitted (upper u keyword) write_mode)
    raise_if parsed.1 (multi_statement write_mode)
