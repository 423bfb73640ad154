-- ===== src/Server/Counts.antt =====
-- `table_row_counts` of cubrid_mcp_server/server.py. `known` is what `_user_tables` reads, `user` the
-- configured user, `int_of` Python's `int` on a value of the driver, or the class of what it raises.
pub mod Entries
use cubrid_mcp_server.Common.{
  ℕ, Bool, true, false, ltb, if◌then◌else◌, Option, none, some, List, [], ◌∷◌, ◌++◌, map, length,
  take,
}
use cubrid_mcp_server.Common.Text.{Text, codes}
use cubrid_mcp_server.Common.Unicode.{Unicode}
use cubrid_mcp_server.Common.Result.{Result, ok, err}
use cubrid_mcp_server.Value.{ℤ, pos, Value, Row}
use cubrid_mcp_server.Database.Exceptions.{Exc, sanitize_error}
use cubrid_mcp_server.Database.Driver.{Driver, Db, Action, pure, continue, ◌>>=◌}
use cubrid_mcp_server.Database.Statements.{fetch_all}
use cubrid_mcp_server.Config.Registry.{sorted}
use cubrid_mcp_server.Server.Catalog.{user_tables}
use cubrid_mcp_server.Server.Identifiers.{Table, NameError, quote_ident, display, match_table}

-- One entry of `results`: a count, or the table with its error.
pub data Entry : Type 0 where
  counted : Text → ℤ → Entry
  misnamed : Text → NameError → Entry
  unknown : Text → Entry
  count_failed : Text → Text → Entry

-- `ValueError`: more tables requested than the limit.
pub data TooMany : Type 0 where
  too_many : ℕ → TooMany

pub record Counts : Type 0 where
  pub tables : List Entry
  pub truncated : Bool
  pub total_tables : ℕ

unfoldable pub qualified_name : Table → Text
qualified_name table = elim table.owner [
  | some owner ↦ quote_ident owner ++ b'.' ∷ quote_ident table.name
  | none ↦ quote_ident table.name
]

module _ (u : Unicode) (lower : Text → Text) (int_of : Value → Result Text ℤ) where
  -- `int(rows[0][0]) if rows else 0`
  unfoldable pub count_of : List Row → Result Text ℤ
  count_of [] = ok (pos 0)
  count_of ([] ∷ rows) = err (codes "IndexError")
  count_of ((v ∷ vs) ∷ rows) = int_of v

  abbrev pub entry_of : Text → Result Text ℤ → Entry
  entry_of table (ok n) = counted table n
  entry_of table (err name) = count_failed table name

  module _ (d : Driver) (limit : ℕ) (user : Text) (known : List Table) where
    abbrev pub fetched_entry :
        Text → Result Exc (List Row) × Db d.World → Result Exc Entry × Db d.World
    fetched_entry table (ok rows, s) = (ok (entry_of table (count_of rows)), s)
    fetched_entry table (err e, s) = (ok (count_failed table (sanitize_error e)), s)

    -- The body of the `for`, behind `_match_table`.
    abbrev pub count_matched : Text → Result NameError (Option Table) → Action d.World Entry
    count_matched name (err e) s = (ok (misnamed name e), s)
    count_matched name (ok none) s = (ok (unknown name), s)
    count_matched name (ok (some table)) s =
        fetched_entry (display u lower table)
          (fetch_all d (codes "SELECT COUNT(*) FROM " ++ qualified_name table) [] s)

    unfoldable pub count_table : Text → Action d.World Entry
    count_table name = count_matched name (match_table u lower user known name)

    unfoldable pub count_all : List Text → Action d.World (List Entry)
    count_all [] = pure []
    count_all (name ∷ names) = do
      entry ← count_table name
      entries ← count_all names
      pure (entry ∷ entries)

    -- The targets, and whether some tables are left out.
    unfoldable pub targets : Option (List Text) → Result TooMany (List Text × Bool)
    targets none =
        let all = sorted (map (display u lower) known) in
        ok (if ltb limit (length all) then (take limit all, true) else (all, false))
    targets (some names) =
        if ltb limit (length names) then err (too_many (length names)) else ok (names, false)

    abbrev pub with_counts :
        Bool
        → Result Exc (List Entry) × Db d.World
        → Result Exc (Result TooMany Counts) × Db d.World
    with_counts truncated (ok entries, s) = (
      ok (ok (record { tables = entries; truncated = truncated; total_tables = length known })),
      s,
    )
    with_counts truncated (err e, s) = (err e, s)

    abbrev pub counted_targets :
        Result TooMany (List Text × Bool) → Action d.World (Result TooMany Counts)
    counted_targets (err e) s = (ok (err e), s)
    counted_targets (ok (names, truncated)) s = with_counts truncated (count_all names s)

    -- `table_row_counts` behind `_user_tables`
    unfoldable pub count_known : Option (List Text) → Action d.World (Result TooMany Counts)
    count_known requested = counted_targets (targets requested)

  unfoldable pub table_row_counts :
      (d : Driver) → ℕ → Text → Option (List Text) → Action d.World (Result TooMany Counts)
  table_row_counts d limit user requested =
      user_tables u lower user d >>= λ known. count_known d limit user known requested
