-- ===== src/Server/Catalog.antt =====
-- The schema tools of cubrid_mcp_server/server.py: `_user_tables`, `filter_table_names`,
-- `_schema_definitions`, `_list_indexes`, `_describe_table`, `list_serials` and
-- `list_class_hierarchy`, for the connection that the client selected.
pub mod Rows
pub mod Refined
pub mod Names
use cubrid_mcp_server.Common.{
  Bool, true, false, if◌then◌else◌, Option, none, some, List, [], ◌∷◌, ◌++◌, map,
}
use cubrid_mcp_server.Common.Text.{Text, codes, join}
use cubrid_mcp_server.Common.Unicode.{Unicode, strip}
use cubrid_mcp_server.Common.Result.{Result, ok, err}
use cubrid_mcp_server.Value.{Value, str, Row}
use cubrid_mcp_server.Config.Registry.{Named}
use cubrid_mcp_server.Database.Exceptions.{Exc}
use cubrid_mcp_server.Database.Driver.{Driver, Action, pure, ◌>>=◌}
use cubrid_mcp_server.Database.Statements.{
  fetch_all, owner_qualified_names, serial_attribute_column,
}
use cubrid_mcp_server.Server.Fence.{contains}
use cubrid_mcp_server.Server.Identifiers.{
  Table, NameError, empty_name, keep, display, resolve_table,
}
use cubrid_mcp_server.Server.Catalog.Rows.{
  each_row, name_row, table_row, owned_table_row, Column, column_row, Index, index_entries,
  primary_key_of, parent_entries, Serial, serial_row,
}

unfoldable pub user_tables_where : Text
user_tables_where = codes "WHERE is_system_class='NO' AND class_type='CLASS' "

unfoldable pub owned_tables_sql : Text
unfolding user_tables_where
owned_tables_sql =
    codes "SELECT class_name, owner_name FROM db_class "
    ++ (user_tables_where ++ codes "ORDER BY owner_name, class_name")

unfoldable pub tables_sql : Text
unfolding user_tables_where
tables_sql =
    codes "SELECT class_name FROM db_class " ++ (user_tables_where ++ codes "ORDER BY class_name")

-- `_same_owner`
unfoldable pub same_owner : Table → Text → Text → Text
same_owner table left right = elim table.owner [
  | none ↦ []
  | some owner ↦
      codes " AND " ++ (left ++ (codes ".owner_name = " ++ (right ++ codes ".owner_name")))
]

-- `_owner_filter`: the condition and its parameters
unfoldable pub owner_filter : Table → Text → Text × Row
owner_filter table alias = elim table.owner [
  | none ↦ (alias ++ codes ".class_name = ?", str table.name ∷ [])
  | some owner ↦ (
    alias ++ (codes ".class_name = ? AND " ++ (alias ++ codes ".owner_name = ?")),
    str table.name ∷ str owner ∷ [],
  )
]

-- A text of several lines
abbrev pub lines : List Text → Text
lines = join (codes "\n")

unfoldable pub columns_sql : Text → Text
columns_sql filter = lines (
    []
    ∷ codes "        SELECT a.attr_name, a.data_type, a.is_nullable, a.default_value"
    ∷ codes "        FROM db_attribute a"
    ∷ (codes "        WHERE " ++ filter)
    ∷ codes "        ORDER BY a.def_order"
    ∷ codes "        "
    ∷ [])

unfoldable pub pk_columns_sql : Text → Text → Text
pk_columns_sql filter owners = lines (
    []
    ∷ codes "        SELECT k.key_attr_name"
    ∷ codes "        FROM db_index i, db_index_key k"
    ∷ (codes "        WHERE " ++ filter)
    ∷ codes "          AND i.is_primary_key = 'YES'"
    ∷ codes "          AND i.index_name = k.index_name"
    ∷ (codes "          AND i.class_name = k.class_name" ++ owners)
    ∷ codes "        "
    ∷ [])

unfoldable pub indexes_sql : Text → Text → Text
indexes_sql filter owners = lines (
    []
    ∷ codes "        SELECT i.index_name, i.is_unique, i.is_primary_key, i.is_foreign_key,"
    ∷ codes "               i.is_reverse, i.key_count, k.key_attr_name, k.key_order, k.asc_desc"
    ∷ codes "        FROM db_index i, db_index_key k"
    ∷ (codes "        WHERE " ++ filter)
    ∷ codes "          AND i.index_name = k.index_name"
    ∷ (codes "          AND i.class_name = k.class_name" ++ owners)
    ∷ codes "        ORDER BY i.index_name, k.key_order"
    ∷ codes "        "
    ∷ [])

unfoldable pub serials_sql : Text → Text
serials_sql att_column = lines (
    []
    ∷ codes "        SELECT name, current_val, increment_val, max_val, min_val,"
    ∷ (codes "               cyclic, started, class_name, "
        ++ (att_column ++ codes " AS att_name,"))
    ∷ codes "               cached_num, comment"
    ∷ codes "        FROM db_serial"
    ∷ codes "        ORDER BY name"
    ∷ codes "        "
    ∷ [])

-- `columns, order`, by whether names are qualified
unfoldable pub hierarchy_columns : Bool → Text × Text
hierarchy_columns true = (
  codes "LOWER(owner_name) || '.' || class_name, "
      ++ codes "LOWER(super_owner_name) || '.' || super_class_name",
  codes "owner_name, class_name, super_owner_name, super_class_name",
)
hierarchy_columns false =
    (codes "class_name, super_class_name", codes "class_name, super_class_name")

unfoldable pub hierarchy_sql : Text × Text → Option Text → Text
hierarchy_sql (columns, order) (some condition) =
    codes "SELECT "
    ++ (columns
        ++ (codes " FROM db_direct_super_class d WHERE "
            ++ (condition ++ (codes " ORDER BY " ++ order))))
hierarchy_sql (columns, order) none =
    codes "SELECT " ++ (columns ++ (codes " FROM db_direct_super_class ORDER BY " ++ order))

-- The answer of `describe_table`
pub record Description : Type 0 where
  pub table : Text
  pub columns : List Column
  pub primary_key : List Value
  pub indexes : List Index

-- A computed result, as an action
abbrev pub computed : {W A : Type 0} → Result Exc A → Action W A
computed r s = (r, s)

module _ (u : Unicode) (lower : Text → Text) (user : Text) (d : Driver) where
  abbrev pub tables_query : Bool → Action d.World (List Table)
  tables_query true = do
    rows ← fetch_all d owned_tables_sql []
    computed (each_row owned_table_row rows)
  tables_query false = do rows ← fetch_all d tables_sql []; computed (each_row table_row rows)

  unfoldable pub user_tables : Action d.World (List Table)
  user_tables = owner_qualified_names d >>= tables_query

  -- `_all_table_names`, and the tool of that name
  unfoldable pub all_table_names : Action d.World (List Text)
  all_table_names = do tables ← user_tables; pure (map (display u lower) tables)

  abbrev pub filtered : Text → Action d.World (List Text)
  filtered [] = pure []
  filtered (c ∷ s) = do
    all ← all_table_names
    pure (keep (λ name. contains (c ∷ s) (lower name)) all)

  unfoldable pub filter_table_names : Text → Action d.World (List Text)
  filter_table_names substring = filtered (lower (strip u substring))

  -- `_schema_definitions`
  unfoldable pub schema_definitions : Table → Action d.World (List Column)
  schema_definitions table =
      let (attr_filter, attr_params) = owner_filter table (codes "a") in
      let (index_filter, index_params) = owner_filter table (codes "i") in
      do
        rows ← fetch_all d (columns_sql attr_filter) attr_params
        pk_rows ←
            fetch_all d (pk_columns_sql index_filter (same_owner table (codes "i") (codes "k")))
              index_params
        pk_columns ← computed (each_row name_row pk_rows)
        computed (each_row (column_row pk_columns) rows)

  -- `_list_indexes`
  unfoldable pub list_indexes : Table → Action d.World (List Index)
  list_indexes table =
      let (index_filter, params) = owner_filter table (codes "i") in
      do
        rows ←
            fetch_all d (indexes_sql index_filter (same_owner table (codes "i") (codes "k"))) params
        computed (index_entries rows)

  -- `_describe_table`
  unfoldable pub describe_table : Table → Action d.World Description
  describe_table table = do
    columns ← schema_definitions table
    indexes ← list_indexes table
    pure (record {
      table = display u lower table;
      columns = columns;
      primary_key = primary_key_of indexes;
      indexes = indexes;
    })

  -- `_resolve_table` and what a tool does with the table; a blank name is not looked up.
  abbrev pub on_table :
      {A : Type 0}
      → (Table → Action d.World A)
      → Result NameError Table
      → Action d.World (Result NameError A)
  on_table body (err e) = pure (err e)
  on_table body (ok table) = do a ← body table; pure (ok a)

  abbrev pub unless_blank :
      {A : Type 0} → (Table → Action d.World A) → Text → Text → Action d.World (Result NameError A)
  unless_blank body table_name [] = pure (err empty_name)
  unless_blank body table_name (c ∷ s) = do
    tables ← user_tables
    on_table body (resolve_table u lower user tables table_name)

  unfoldable pub with_table :
      {A : Type 0} → Text → (Table → Action d.World A) → Action d.World (Result NameError A)
  with_table table_name body = unless_blank body table_name (strip u table_name)

  -- The tools that take the name of a table
  unfoldable pub schema_definitions_tool : Text → Action d.World (Result NameError (List Column))
  schema_definitions_tool table_name = with_table table_name schema_definitions

  unfoldable pub list_indexes_tool : Text → Action d.World (Result NameError (List Index))
  list_indexes_tool table_name = with_table table_name list_indexes

  unfoldable pub describe_table_tool : Text → Action d.World (Result NameError Description)
  describe_table_tool table_name = with_table table_name describe_table

  -- The rows of the hierarchy, grouped
  abbrev pub grouped_parents : Text → Row → Action d.World (Named (Unit {0} × List Value))
  grouped_parents sql params = do rows ← fetch_all d sql params; computed (parent_entries rows)

  abbrev pub hierarchy_of :
      Option Text → Bool → Action d.World (Result NameError (Named (Unit {0} × List Value)))
  hierarchy_of (some (c ∷ s)) qualified = with_table (c ∷ s) λ table.
      let (condition, params) = owner_filter table (codes "d") in
      grouped_parents (hierarchy_sql (hierarchy_columns qualified) (some condition)) params
  hierarchy_of _ qualified = do
    parents ← grouped_parents (hierarchy_sql (hierarchy_columns qualified) none) []
    pure (ok parents)

  unfoldable pub list_class_hierarchy :
      Option Text → Action d.World (Result NameError (Named (Unit {0} × List Value)))
  list_class_hierarchy table_name = owner_qualified_names d >>= hierarchy_of table_name

  unfoldable pub list_serials : (Value → Bool) → Action d.World (List Serial)
  list_serials equals_one = do
    att_column ← serial_attribute_column d
    rows ← fetch_all d (serials_sql att_column) []
    computed (each_row (serial_row equals_one) rows)
