-- ===== src/Tests/Tools.antt =====
-- The tools of cubrid_mcp_server/server.py over a driver that answers every call.
use cubrid_mcp_server.Common.{ℕ, arith, refl, ◌≡◌, ◌≢◌, true, false, Option, none, List, [], ◌∷◌}
use cubrid_mcp_server.Common.Text.{
  Text, codes, text_eq, is_in, replace_char, add_first, split_on, join, lstrip, rstrip,
}
use cubrid_mcp_server.Common.Unicode.{ascii, upper, strip}
use cubrid_mcp_server.Common.Result.{ok, err}
use cubrid_mcp_server.Safety.Lex.{
  lex_sql, lex_loop, cut, cut_quote, line_end, block_end, quote_end, bracket_end,
}
use cubrid_mcp_server.Safety.Render.{
  render_segment, render, strip_comments, segments_eq, non_blank, cubrid_statements,
}
use cubrid_mcp_server.Safety.Tokens.{
  feed, find_tokens, code_token, drop_last, undouble, quoted_token, segment_tokens, tokens_of,
  code_tokens, first_name,
}
use cubrid_mcp_server.Safety.SideEffect.{
  side_effect_names, click_counter_names, is_mark, is_word, effect_at, first_effect, side_effect,
}
use cubrid_mcp_server.Safety.Statement.{
  Statement, ParsedTokens, end, leaf, read_only_keywords, write_keywords, forbidden, is_non_empty,
  leading_keyword, forbidden_keywords,
}
use cubrid_mcp_server.Safety.Checks.{non_empty, parse, ensure_read_only, ensure_write_allowed}
use cubrid_mcp_server.Safety.Checks.ReadOnly.{ensure_read_only_iff}
use cubrid_mcp_server.Safety.Checks.Write.{ensure_write_allowed_iff}
use cubrid_mcp_server.Value.{Value, str, pos}
use cubrid_mcp_server.Config.{Floats, Config}
use cubrid_mcp_server.Database.Driver.{Driver}
use cubrid_mcp_server.Database.Session.{
  get_connection, safe_close_cursor, exclusive, reset_trace_state, trace_ended, trace_enabled,
}
use cubrid_mcp_server.Database.Statements.{traced_rows}
use cubrid_mcp_server.Database.Commits.{commits}
use cubrid_mcp_server.Safety.Checks.{statement_keyword, leading_word, first_word}
use cubrid_mcp_server.Server.Explain.{
  is_explainable, explainable, cleaned, plan_of, explain_gate, explained, explanation_of,
  explain_query,
}
use cubrid_mcp_server.Server.Explain.Plans.{
  IsExplained, explain_query-IsExplained, explain_query_untouched,
}
use cubrid_mcp_server.Server.Requests.{
  Request, all_tables, health, describing, explaining, after_all,
}
use cubrid_mcp_server.Server.Requests.Reads.{after_all-commits}
use cubrid_mcp_server.Server.Tools.{checked}
use cubrid_mcp_server.Server.Tools.{Connection, execute_query, execute_write_tool, unfinished}
use cubrid_mcp_server.Server.Tools.Gates.{
  execute_query_untouched, execute_write_untouched, execute_query_finishes,
}

abbrev steady : Driver
steady = record {
  World = Unit {0};
  connect = λ w. (ok 7, w);
  open_cursor = λ c w. (ok 1, w);
  execute = λ k sql params w. (ok tt, w);
  row_count = λ k w. (ok (pos 1), w);
  has_result_set = λ k w. (ok true, w);
  fetch_all = λ k w. (ok [], w);
  fetch_many = λ k size w. (ok [], w);
  close_cursor = λ k w. (ok tt, w);
  commit = λ c w. (ok tt, w);
  rollback = λ c w. (ok tt, w);
  close = λ c w. (ok tt, w);
  server_version = λ c w. (ok (codes "11.4"), w);
}

abbrev measured : Floats
measured = record { Float = ℕ; parse_float = λ s. none; is_positive = λ n. true }

abbrev digit : ℕ → Option ℕ
digit c = none

abbrev same : Text → Text
same s = s

abbrev config : Config ascii same digit measured
config = record {
  host = codes "db";
  port = 33000;
  user = codes "dba";
  password = [];
  database = codes "demodb";
  readonly = true;
  max_chars = 4000;
  max_rows = 1000;
  max_sql_length = 65536;
  query_timeout = 30;
  connect_timeout = 10;
  max_row_count_tables = 50;
  max_inline_binary_bytes = 256;
  audit_log = true;
  write_enabled = true;
}

abbrev start : Connection (Unit {0})
start = record {
  db = record { connection = none; serial_column = none; owner_names = none; world = tt; log = [] };
  audit = record { enabled = true; records = [] };
}

abbrev words : Text → ParsedTokens
words keyword =
    leaf true false keyword (leaf false true (codes " ") (leaf false false (codes "a") end))

abbrev select_parse : Text → List Statement
select_parse sql = record { value = codes "SELECT a"; tokens = words (codes "SELECT") } ∷ []

abbrev delete_parse : Text → List Statement
delete_parse sql = record { value = codes "DELETE a"; tokens = words (codes "DELETE") } ∷ []

delete_not_read : ensure_read_only ascii delete_parse (codes "DELETE a") ≢ ok tt
unfolding lex_sql lex_loop cut cut_quote line_end block_end quote_end bracket_end render_segment
    render strip_comments segments_eq non_blank cubrid_statements feed find_tokens code_token
    drop_last undouble quoted_token segment_tokens tokens_of code_tokens first_name
    side_effect_names click_counter_names is_mark is_word effect_at first_effect side_effect
    read_only_keywords forbidden is_non_empty leading_keyword forbidden_keywords non_empty parse
    ensure_read_only text_eq is_in add_first split_on join lstrip rstrip upper strip replace_char
delete_not_read e = cc

select_not_write : ensure_write_allowed ascii select_parse (codes "SELECT a") ≢ ok tt
unfolding lex_sql lex_loop cut cut_quote line_end block_end quote_end bracket_end render_segment
    render strip_comments segments_eq non_blank cubrid_statements feed find_tokens code_token
    drop_last undouble quoted_token segment_tokens tokens_of code_tokens first_name
    side_effect_names click_counter_names is_mark is_word effect_at first_effect side_effect
    write_keywords forbidden is_non_empty leading_keyword forbidden_keywords non_empty parse
    ensure_write_allowed text_eq is_in add_first split_on join lstrip rstrip upper strip
    replace_char
select_not_write e = cc

execute_query_untouched_example :
    (execute_query ascii same digit measured delete_parse config
      (codes "DELETE a")
      steady
      0
      start).1.db
    ≡ start.db
execute_query_untouched_example =
    execute_query_untouched ascii same digit measured delete_parse config (codes "DELETE a") steady
      0 start
      (λ m. delete_not_read ((ensure_read_only_iff ascii delete_parse (codes "DELETE a")).1 m.1))

execute_write_untouched_example :
    (execute_write_tool ascii same digit measured select_parse config
      (codes "SELECT a")
      steady
      0
      start).1.db
    ≡ start.db
execute_write_untouched_example =
    execute_write_untouched ascii same digit measured select_parse config (codes "SELECT a") steady
      0 start
      (λ m.
        select_not_write ((ensure_write_allowed_iff ascii select_parse (codes "SELECT a")).1 m.2))

execute_query_finishes_example :
    (execute_query ascii same digit measured select_parse config
      (codes "SELECT a")
      steady
      0
      start).0
    ≢ err unfinished
execute_query_finishes_example =
    execute_query_finishes ascii same digit measured select_parse config (codes "SELECT a") steady 0
      start

abbrev show : Value → Text
show (str t) = t
show v = []

-- A driver whose trace is one row.
abbrev tracing : Driver
tracing = record steady { fetch_all = λ k w. (ok ((str (codes " Trace ") ∷ []) ∷ []), w) }

explains :
    (explain_query ascii show same digit measured select_parse config tracing 0
      (codes " SELECT a; ")
      start).0
    ≡ ok (record { sql = codes "SELECT a"; plan = codes "Trace"; truncated = false })
unfolding explain_query explain_gate cleaned is_explainable explainable explained explanation_of
    plan_of checked statement_keyword traced_rows trace_enabled exclusive get_connection trace_ended
    reset_trace_state safe_close_cursor lex_sql lex_loop cut cut_quote line_end block_end quote_end
    bracket_end render_segment render strip_comments segments_eq non_blank cubrid_statements feed
    find_tokens code_token drop_last undouble quoted_token segment_tokens tokens_of code_tokens
    first_name side_effect_names click_counter_names is_mark is_word effect_at first_effect
    side_effect read_only_keywords forbidden is_non_empty leading_keyword forbidden_keywords
    non_empty parse ensure_read_only text_eq is_in add_first split_on join lstrip rstrip upper strip
    replace_char leading_word first_word
explains = refl

explain_query-IsExplained_example :
    IsExplained ascii show same digit measured select_parse config tracing 0
      (codes " SELECT a; ")
      start
      (record { sql = codes "SELECT a"; plan = codes "Trace"; truncated = false })
explain_query-IsExplained_example =
    explain_query-IsExplained ascii show same digit measured select_parse config tracing 0
      (codes " SELECT a; ") start
      (record { sql = codes "SELECT a"; plan = codes "Trace"; truncated = false }) (omega arith)
      explains

explain_query_untouched_example :
    (explain_query ascii show same digit measured delete_parse config tracing 0
      (codes "DELETE a")
      start).1.db
    ≡ start.db
unfolding cleaned strip lstrip rstrip
explain_query_untouched_example =
    explain_query_untouched ascii show same digit measured delete_parse config tracing 0
      (codes "DELETE a") start
      (λ m.
        delete_not_read
          ((ensure_read_only_iff ascii delete_parse (codes "DELETE a")).1 m.read_only))

abbrev requests : List Request
requests = all_tables ∷ describing (codes "t") ∷ explaining (codes "SELECT a") ∷ health ∷ []

after_all-commits_example :
    commits
      (after_all ascii same digit measured select_parse
        (λ v. ok (pos 0))
        (λ v. false)
        show
        config
        tracing
        0
        requests
        start).db.log
    ≡ 0
after_all-commits_example =
    after_all-commits ascii same digit measured select_parse (λ v. ok (pos 0)) (λ v. false) show
      config tracing 0 requests start
