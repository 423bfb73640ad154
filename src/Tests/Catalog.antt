-- ===== src/Tests/Catalog.antt =====
-- The schema tools and `explain_query` of cubrid_mcp_server/server.py over a driver with a script.
use cubrid_mcp_server.Common.{◌≡◌, refl, Bool, true, false, none, some, List, [], ◌∷◌, here, there}
use cubrid_mcp_server.Common.Text.{Text, codes, text_eq, is_in, lstrip, rstrip}
use cubrid_mcp_server.Common.Unicode.{ascii, strip}
use cubrid_mcp_server.Common.Result.{Result, ok}
use cubrid_mcp_server.Value.{Value, Row, null, int, str, pos}
use cubrid_mcp_server.Database.Exceptions.{Exc}
use cubrid_mcp_server.Database.Driver.{Driver, Db}
use cubrid_mcp_server.Database.Session.{
  get_connection, rollback_or_discard, with_cursor, safe_close_cursor,
}
use cubrid_mcp_server.Database.Statements.{require_result_set, end_read_transaction, fetch_all}
use cubrid_mcp_server.Server.Identifiers.{Table, display, resolve_table}
use cubrid_mcp_server.Server.Groups.{add_item, group}
use cubrid_mcp_server.Server.Catalog.{
  Description, schema_definitions, list_indexes, describe_table, owner_filter,
}
use cubrid_mcp_server.Server.Catalog.Rows.{
  Key, Flags, row_item, as_name, is_yes, each_row, name_row, column_row, index_row, index_entries,
  key_names, primary_key_of,
}
use cubrid_mcp_server.Server.Catalog.Refined.{IsDescribed, describe_table-IsDescribed}
use cubrid_mcp_server.Server.Catalog.Names.{resolve_table-display}

abbrev same : Text → Text
same s = s

-- The world is the answers to the queries to come.
abbrev pop : List (List Row) → Result Exc (List Row) × List (List Row)
pop [] = (ok [], [])
pop (rows ∷ later) = (ok rows, later)

abbrev scripted : Driver
scripted = record {
  World = List (List Row);
  connect = λ w. (ok 7, w);
  open_cursor = λ c w. (ok 1, w);
  execute = λ k sql params w. (ok tt, w);
  row_count = λ k w. (ok (pos 1), w);
  has_result_set = λ k w. (ok true, w);
  fetch_all = λ k w. pop w;
  fetch_many = λ k size w. pop w;
  close_cursor = λ k w. (ok tt, w);
  commit = λ c w. (ok tt, w);
  rollback = λ c w. (ok tt, w);
  close = λ c w. (ok tt, w);
  server_version = λ c w. (ok (codes "11.4"), w);
}

abbrev plain : Table
plain = record { owner = none; name = codes "t" }

abbrev word : Text → Value
word t = str t

-- The columns of a table with a key of two columns, and an index whose rows stand apart.
abbrev column_rows : List Row
column_rows = (str (codes "id") ∷ str (codes "INTEGER") ∷ str (codes "NO") ∷ null ∷ []) ∷ []

abbrev key_row : Text → Text → Text → Row
key_row index primary column =
    str index
    ∷ str (codes "YES")
    ∷ str primary
    ∷ str (codes "NO")
    ∷ str (codes "NO")
    ∷ int (pos 2)
    ∷ str column
    ∷ int (pos 0)
    ∷ str (codes "ASC")
    ∷ []

abbrev key_rows : List Row
key_rows =
    key_row (codes "pk") (codes "YES") (codes "id")
    ∷ key_row (codes "u") (codes "NO") (codes "no")
    ∷ key_row (codes "pk") (codes "YES") (codes "no")
    ∷ []

abbrev before : Db (List (List Row))
before = record {
  connection = none;
  serial_column = none;
  owner_names = some false;
  world = column_rows ∷ ((str (codes "id") ∷ []) ∷ []) ∷ key_rows ∷ [];
  log = [];
}

abbrev key : Text → Key
key column = record { name = str column; order = int (pos 0); asc_desc = str (codes "ASC") }

abbrev flags : Bool → Flags
flags primary = record {
  unique = true;
  primary_key = primary;
  foreign_key = false;
  reverse = false;
  key_count = int (pos 2);
}

abbrev described : Description
described = record {
  table = codes "t";
  columns =
      record {
        name = codes "id";
        column_type = str (codes "INTEGER");
        nullable = false;
        default = null;
        primary_key = true;
      }
      ∷ [];
  primary_key = str (codes "id") ∷ str (codes "no") ∷ [];
  indexes =
      (codes "pk", (flags true, key (codes "id") ∷ key (codes "no") ∷ []))
      ∷ (codes "u", (flags false, key (codes "no") ∷ []))
      ∷ [];
}

describes_plain : (describe_table ascii same (codes "me") scripted plain before).0 ≡ ok described
unfolding describe_table schema_definitions list_indexes owner_filter fetch_all with_cursor
    get_connection rollback_or_discard safe_close_cursor require_result_set end_read_transaction
    row_item as_name is_yes each_row name_row column_row index_row index_entries key_names
    primary_key_of add_item group display text_eq is_in
describes_plain = refl

describe_table-IsDescribed_example :
    IsDescribed ascii same (codes "me") scripted plain before described
describe_table-IsDescribed_example =
    describe_table-IsDescribed ascii same (codes "me") scripted plain before described
      describes_plain

-- Two tables of one name; the needle is the name that `all_table_names` shows.
abbrev mine : Table
mine = record { owner = some (codes "ME"); name = codes "t" }

abbrev owned : List Table
owned = record { owner = some (codes "DBA"); name = codes "t" } ∷ mine ∷ []

resolve_table-display_example : resolve_table ascii same (codes "me") owned (codes "ME.t") ≡ ok mine
unfolding display strip lstrip rstrip
resolve_table-display_example =
    resolve_table-display ascii same (codes "me") owned mine (there here) refl refl
      (λ e. cc, (λ e. refl, tt))
