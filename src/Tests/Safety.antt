-- ===== src/Tests/Safety.antt =====
-- The checks of cubrid_mcp_server/safety.py on concrete statements.
use cubrid_mcp_server.Common.{
  ◌≡◌, ◌≢◌, ◌↔◌, refl, true, false, none, some, List, [], ◌∷◌, any, length,
}
use cubrid_mcp_server.Common.Text.{
  Text, codes, text_eq, is_in, replace_char, add_first, split_on, join, lstrip, rstrip,
}
use cubrid_mcp_server.Common.Unicode.{ascii, upper, strip}
use cubrid_mcp_server.Common.Result.{ok}
use cubrid_mcp_server.Safety.Lex.{
  lex_sql, lex_loop, cut, cut_quote, line_end, block_end, quote_end, bracket_end,
}
use cubrid_mcp_server.Safety.Lex.Partition.{texts, texts-lex_sql}
use cubrid_mcp_server.Safety.Lex.Readings.{has_backslash, lex_sql_agree}
use cubrid_mcp_server.Safety.Render.{
  render_segment, render, strip_comments, segments_eq, non_blank, cubrid_statements,
}
use cubrid_mcp_server.Safety.Tokens.{
  feed, find_tokens, code_token, drop_last, undouble, quoted_token, segment_tokens, tokens_of,
  code_tokens, first_name,
}
use cubrid_mcp_server.Safety.SideEffect.{side_effect}
use cubrid_mcp_server.Safety.SideEffect.Patterns.{ChangesData, side_effect-none_iff}
use cubrid_mcp_server.Safety.Statement.{
  Statement, ParsedTokens, end, leaf, write_keywords, is_non_empty, leading_keyword,
}
use cubrid_mcp_server.Safety.Checks.{
  non_empty, parse, ensure_read_only, ensure_query_statement, ensure_write_allowed,
}
use cubrid_mcp_server.Safety.Checks.ReadOnly.{IsReadOnly, ensure_read_only_iff}
use cubrid_mcp_server.Safety.Checks.Query.{IsQuery, ensure_query_statement_iff}
use cubrid_mcp_server.Safety.Checks.Write.{IsWrite, ensure_write_allowed_iff}
use cubrid_mcp_server.Safety.Checks.Disjoint.{write_not_read}

abbrev words : Text → ParsedTokens
words keyword =
    leaf true false keyword (leaf false true (codes " ") (leaf false false (codes "a") end))

-- What sqlparse returns for `SELECT a` and for `DELETE a`.
abbrev select_parse : Text → List Statement
select_parse sql = record { value = codes "SELECT a"; tokens = words (codes "SELECT") } ∷ []

abbrev delete_parse : Text → List Statement
delete_parse sql = record { value = codes "DELETE a"; tokens = words (codes "DELETE") } ∷ []

abbrev select_sql : Text
select_sql = codes "SELECT a"

delete_is_allowed : ensure_write_allowed ascii delete_parse (codes "DELETE a") ≡ ok tt
unfolding lex_sql lex_loop cut cut_quote line_end block_end quote_end bracket_end render_segment
    render strip_comments segments_eq non_blank cubrid_statements feed find_tokens code_token
    drop_last undouble quoted_token segment_tokens tokens_of code_tokens first_name write_keywords
    is_non_empty leading_keyword non_empty parse ensure_write_allowed text_eq is_in add_first
    split_on join lstrip rstrip upper strip replace_char
delete_is_allowed = refl

ensure_read_only_iff_example :
    (ensure_read_only ascii select_parse select_sql ≡ ok tt)
    ↔ IsReadOnly ascii select_parse select_sql
ensure_read_only_iff_example = ensure_read_only_iff ascii select_parse select_sql

ensure_query_statement_iff_example :
    (ensure_query_statement ascii select_parse select_sql ≡ ok tt)
    ↔ IsQuery ascii select_parse select_sql
ensure_query_statement_iff_example = ensure_query_statement_iff ascii select_parse select_sql

ensure_write_allowed_iff_example :
    (ensure_write_allowed ascii delete_parse (codes "DELETE a") ≡ ok tt)
    ↔ IsWrite ascii delete_parse (codes "DELETE a")
ensure_write_allowed_iff_example = ensure_write_allowed_iff ascii delete_parse (codes "DELETE a")

write_not_read_example :
    (ensure_read_only ascii delete_parse (codes "DELETE a") ≢ ok tt)
    × (ensure_query_statement ascii delete_parse (codes "DELETE a") ≢ ok tt)
write_not_read_example = write_not_read ascii delete_parse (codes "DELETE a") delete_is_allowed

side_effect-none_iff_example :
    (side_effect ascii (codes "SELECT s.next_value") ≡ none)
    ↔ (¬ ChangesData (code_tokens ascii (codes "SELECT s.next_value")))
side_effect-none_iff_example = side_effect-none_iff ascii (codes "SELECT s.next_value")

-- A comment, a string with a doubled quote and a name in brackets.
abbrev mixed_sql : Text
mixed_sql = codes "SELECT 'it''s' /* one */ FROM [t] -- end"

texts-lex_sql_example :
    (lex_loop true (length mixed_sql) [] mixed_sql ≡ some (lex_sql mixed_sql true))
    × (texts (lex_sql mixed_sql true) ≡ mixed_sql)
texts-lex_sql_example = texts-lex_sql true mixed_sql

no_backslash : any has_backslash (lex_sql mixed_sql false) ≡ false
unfolding lex_sql lex_loop cut cut_quote line_end block_end quote_end bracket_end
no_backslash = refl

lex_sql_agree_example : lex_sql mixed_sql true ≡ lex_sql mixed_sql false
lex_sql_agree_example = lex_sql_agree mixed_sql no_backslash
