-- ===== src/Tests/Server.antt =====
-- The rendering, the fence and the names of cubrid_mcp_server/server.py on concrete inputs.
use cubrid_mcp_server.Common.{
  ◌≤◌, ◌≡◌, ◌≢◌, ◌↔◌, ◌⊎◌, refl, true, false, none, some, List, [], ◌∷◌, ◌++◌, map, length, All,
}
use cubrid_mcp_server.Common.Text.{Text, codes, text_eq, lstrip, rstrip, replace_char}
use cubrid_mcp_server.Common.Unicode.{ascii, strip}
use cubrid_mcp_server.Common.Result.{ok}
use cubrid_mcp_server.Value.{Row, null, str}
use cubrid_mcp_server.Server.Render.{coerce, render_rows}
use cubrid_mcp_server.Server.Render.Budget.{IsWithin, render_rows-IsWithin}
use cubrid_mcp_server.Server.Fence.{fence_for}
use cubrid_mcp_server.Server.Fence.Closed.{fence_for-absent}
use cubrid_mcp_server.Server.Identifiers.{
  Table, display, is_displayed, is_owned, is_candidate, is_own, the_own, the_candidate,
  displayed_or, match_table, quote_ident,
}
use cubrid_mcp_server.Server.Identifiers.Quoting.{read_ident, read_ident-quote_ident}
use cubrid_mcp_server.Server.Identifiers.Matching.{
  IsFirst, IsPreferred, match_table-eq-some_iff, match_table-eq-none_iff,
}
use cubrid_mcp_server.Common.Result.{Result}
use cubrid_mcp_server.Value.{Value, ℤ, pos}
use cubrid_mcp_server.Database.Driver.{Driver, Db}
use cubrid_mcp_server.Server.Counts.{
  counted, unknown, targets, count_known, count_all, count_table, count_of, qualified_name,
  table_row_counts,
}
use cubrid_mcp_server.Server.Catalog.{user_tables}
use cubrid_mcp_server.Server.Catalog.Rows.{each_row, owned_table_row, row_item, owner_of, as_name}
use cubrid_mcp_server.Database.Session.{
  get_connection, with_cursor, safe_close_cursor, rollback_or_discard,
}
use cubrid_mcp_server.Database.Statements.{
  fetch_all, require_result_set, end_read_transaction, probe, owner_qualified_names,
}
use cubrid_mcp_server.Server.Counts.Entries.{IsAnswer, table_row_counts-IsAnswer}

abbrev long_rows : List Row
long_rows = (str (codes "a long text") ∷ null ∷ []) ∷ (null ∷ []) ∷ []

render_rows-IsWithin_example :
    IsWithin 5 (map (map (coerce 256)) long_rows) (render_rows long_rows 5 256)
render_rows-IsWithin_example = render_rows-IsWithin long_rows 5 256

fence_for-absent_example :
    (codes "a ``` b" ≢ codes "a " ++ (fence_for (codes "a ``` b") ++ codes " b"))
    × (3 ≤ length (fence_for (codes "a ``` b")))
fence_for-absent_example = fence_for-absent (codes "a ``` b") (codes "a ") (codes " b")

read_ident-quote_ident_example :
    read_ident (quote_ident (codes "odd\"name") ++ codes " x")
    ≡ some (codes "odd\"name", codes " x")
read_ident-quote_ident_example = read_ident-quote_ident (codes "odd\"name") (codes " x") refl

abbrev same_case : Text → Text
same_case s = s

-- Two owners have a table `t`, and the user is the second.
abbrev mine : Table
mine = record { owner = some (codes "me"); name = codes "t" }

abbrev tables : List Table
tables = record { owner = some (codes "dba"); name = codes "t" } ∷ mine ∷ []

finds_mine : match_table ascii same_case (codes "me") tables (codes "t") ≡ ok (some mine)
unfolding match_table displayed_or the_candidate the_own is_own is_candidate is_owned is_displayed
    display text_eq strip lstrip rstrip
finds_mine = refl

match_table-eq-some_iff_example :
    (match_table ascii same_case (codes "me") tables (codes "t") ≡ ok (some mine)) ↔ (
      IsFirst (is_displayed ascii same_case (same_case (strip ascii (codes "t")))) tables mine
      ⊎ (All
            (λ t. is_displayed ascii same_case (same_case (strip ascii (codes "t"))) t ≡ false)
            tables
          × IsPreferred ascii same_case
              (codes "me")
              (same_case (strip ascii (codes "t")))
              tables
              mine))
match_table-eq-some_iff_example =
    match_table-eq-some_iff ascii same_case (codes "me") tables (codes "t") mine

match_table-eq-none_iff_example :
    (match_table ascii same_case (codes "me") tables (codes "u") ≡ ok none)
    ↔ All
        (λ t.
          (is_displayed ascii same_case (same_case (strip ascii (codes "u"))) t ≡ false)
          × (is_candidate ascii same_case (same_case (strip ascii (codes "u"))) t ≡ false))
        tables
match_table-eq-none_iff_example =
    match_table-eq-none_iff ascii same_case (codes "me") tables (codes "u")

-- A driver whose queries all return the same row.
abbrev answering : Driver
answering = record {
  World = Unit {0};
  connect = λ w. (ok 7, w);
  open_cursor = λ c w. (ok 1, w);
  execute = λ k sql params w. (ok tt, w);
  row_count = λ k w. (ok (pos 1), w);
  has_result_set = λ k w. (ok true, w);
  fetch_all = λ k w. (ok ((str (codes "t") ∷ str (codes "me") ∷ []) ∷ []), w);
  fetch_many = λ k size w. (ok [], w);
  close_cursor = λ k w. (ok tt, w);
  commit = λ c w. (ok tt, w);
  rollback = λ c w. (ok tt, w);
  close = λ c w. (ok tt, w);
  server_version = λ c w. (ok (codes "11.4"), w);
}

abbrev seven : Value → Result Text ℤ
seven v = ok (pos 7)

abbrev two_names : List Text
two_names = codes "me.t" ∷ codes "u" ∷ []

abbrev idle : Db (Unit {0})
idle = record { connection = none; serial_column = none; owner_names = none; world = tt; log = [] }

counts_one :
    (table_row_counts ascii same_case seven answering 50 (codes "me") (some two_names) idle).0
    ≡ ok (
        ok (record {
          tables = counted (codes "me.t") (pos 7) ∷ unknown (codes "u") ∷ [];
          truncated = false;
          total_tables = 1;
        }))
unfolding table_row_counts count_known targets count_all count_table count_of qualified_name
    user_tables owner_qualified_names probe fetch_all end_read_transaction rollback_or_discard
    get_connection with_cursor safe_close_cursor require_result_set match_table the_candidate
    the_own displayed_or is_displayed is_candidate is_owned is_own display text_eq strip lstrip
    rstrip quote_ident replace_char each_row owned_table_row row_item owner_of as_name
counts_one = refl

table_row_counts-IsAnswer_example :
    IsAnswer ascii same_case seven answering 50
      (codes "me")
      (some two_names)
      (user_tables ascii same_case (codes "me") answering idle)
      (table_row_counts ascii same_case seven answering 50 (codes "me") (some two_names) idle).0
table_row_counts-IsAnswer_example =
    table_row_counts-IsAnswer ascii same_case seven answering 50 (codes "me") (some two_names) idle
