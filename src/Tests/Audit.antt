-- ===== src/Tests/Audit.antt =====
-- The records of cubrid_mcp_server/audit.py on concrete statements.
use cubrid_mcp_server.Common.{◌≡◌, refl, Bool, true, false, none, some, [], All}
use cubrid_mcp_server.Common.Text.{Text, codes}
use cubrid_mcp_server.Common.Unicode.{ascii}
use cubrid_mcp_server.Common.Result.{Result, ok}
use cubrid_mcp_server.Safety.Lex.{
  lex_sql, lex_loop, cut, cut_quote, line_end, block_end, quote_end, bracket_end,
}
use cubrid_mcp_server.Audit.{
  strict_tail, is_strict_quoted, is_noise, marks, either, noise, identifiers, AuditLog, Outcome,
  track,
}
use cubrid_mcp_server.Audit.Redaction.{IsSameOutside, track-IsSameOutside}
use cubrid_mcp_server.Audit.Shapes.{IsPlain, identifiers-IsPlain}

abbrev first_sql : Text
first_sql = codes "SELECT 'ab' FROM t"

abbrev second_sql : Text
second_sql = codes "SELECT 'xy' FROM t"

same_noise : noise first_sql ≡ noise second_sql
unfolding noise marks either is_noise is_strict_quoted strict_tail lex_sql lex_loop cut cut_quote
    line_end block_end quote_end bracket_end
same_noise = refl

same_outside : IsSameOutside (noise first_sql) first_sql second_sql
unfolding noise marks either is_noise is_strict_quoted strict_tail lex_sql lex_loop cut cut_quote
    line_end block_end quote_end bracket_end
same_outside = (
  refl,
  (
    refl,
    (
      refl,
      (refl, (refl, (refl, (refl, (refl, (refl, (refl, (refl, (refl, (refl, (refl, tt))))))))))),
    ),
  ),
)

abbrev outcome : Outcome
outcome = record { row_count = none; truncated = some false }

abbrev log : AuditLog
log = record { enabled = true; records = [] }

abbrev name_of : Text → Text
name_of e = e

abbrev ended : Result Text Bool
ended = ok true

track-IsSameOutside_example :
    track ascii name_of (codes "execute_query") (some first_sql) 3 outcome ended log
    ≡ track ascii name_of (codes "execute_query") (some second_sql) 3 outcome ended log
track-IsSameOutside_example =
    track-IsSameOutside ascii name_of (codes "execute_query") first_sql second_sql 3 outcome ended
      log same_noise same_outside

identifiers-IsPlain_example :
    All IsPlain (identifiers ascii (some (codes "SELECT 1 FROM \"a\".b JOIN 'c'")))
identifiers-IsPlain_example =
    identifiers-IsPlain ascii (some (codes "SELECT 1 FROM \"a\".b JOIN 'c'"))
