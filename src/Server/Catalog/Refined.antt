-- ===== src/Server/Catalog/Refined.antt =====
-- What `list_indexes`, `describe_table` and `list_class_hierarchy` make of the rows of the catalog.
use cubrid_mcp_server.Common.{
  ◌≡◌, ◌⊎◌, refl, sym, subst, ◌∙◌, Bool, true, false, Option-cases, inl, inr, some, List, [], map,
  All,
}
use cubrid_mcp_server.Common.Text.{Text, codes}
use cubrid_mcp_server.Common.Unicode.{Unicode}
use cubrid_mcp_server.Common.Result.{Result, ok, bind-eq-ok}
use cubrid_mcp_server.Value.{Value, Row}
use cubrid_mcp_server.Config.Registry.{Named, names, lookup}
use cubrid_mcp_server.Database.Exceptions.{Exc}
use cubrid_mcp_server.Database.Driver.{Driver, Db, continue-eq-ok}
use cubrid_mcp_server.Database.Statements.{fetch_all}
use cubrid_mcp_server.Server.Identifiers.{Table, display, find_first}
use cubrid_mcp_server.Server.Identifiers.Matching.{find_first-some, find_first-none}
use cubrid_mcp_server.Server.Groups.{Grouped, group}
use cubrid_mcp_server.Server.Groups.Entries.{
  fresh_names, entry_for, group-refines, group-Distinct, lookup-Among,
}
use cubrid_mcp_server.Server.Catalog.{
  indexes_sql, same_owner, owner_filter, Description, schema_definitions, list_indexes,
  describe_table,
}
use cubrid_mcp_server.Server.Catalog.Rows.{
  each_row, Flags, Key, Index, index_row, index_entries, key_names, primary_key_of,
}

-- Entries that group rows: one for each name where it first occurs, with the head of the first row
-- of that name and the items of all its rows in order.
pub record Refines {H I : Type 0} (rows : List (Grouped H I)) (entries : Named (H × List I))
    : Type 0 where
  pub names_are : names entries ≡ fresh_names [] (map (λ r. r.name) rows)
  pub entries_are : (name : Text) → lookup name entries ≡ entry_for name rows

group-Refines : {H I : Type 0} (rows : List (Grouped H I)) → Refines rows (group rows [])
group-Refines rows = let (n, e) = group-refines rows in record { names_are = n; entries_are = e }

index_entries-Refines :
    (rows : List Row) (indexes : List Index)
    → index_entries rows ≡ ok indexes
    → (grouped : List (Grouped Flags Key)) × (each_row index_row rows ≡ ok grouped)
      × (indexes ≡ group grouped [])
unfolding index_entries
index_entries-Refines rows indexes h =
    let (grouped, read, e) = bind-eq-ok (each_row index_row rows) _ h in (grouped, read, cc (sym e))

-- The primary key among the rows: the key names of an index that is one, or none if none is.
abbrev pub IsPrimaryKey : List (Grouped Flags Key) → List Value → Type 0
IsPrimaryKey grouped keys =
    ((name : Text) × (flags : Flags) × (items : List Key) × (entry_for name grouped
        ≡ some (flags, items))
      × (flags.primary_key ≡ true)
      × (keys ≡ map (λ (k : Key). k.name) items))
    ⊎ ((keys ≡ []) × All (λ (index : Index). index.1.0.primary_key ≡ false) (group grouped []))

primary_key_of-IsPrimaryKey :
    (grouped : List (Grouped Flags Key)) → IsPrimaryKey grouped (primary_key_of (group grouped []))
unfolding primary_key_of key_names
primary_key_of-IsPrimaryKey grouped =
    elim (Option-cases (find_first is_primary (group grouped []))) [
      | inl missing ↦ inr (rw missing refl, find_first-none is_primary (group grouped []) missing)
      | inr (index, found) ↦
          let (m, held) = find_first-some is_primary (group grouped []) index found in
          inl (
            index.0,
            index.1.0,
            index.1.1,
            sym ((group-refines grouped).1 index.0)
                ∙ lookup-Among index (group grouped []) (group-Distinct grouped) m,
            held,
            rw found refl,
          )
    ]
  where
    is_primary : Index → Bool
    is_primary index = index.1.0.primary_key

module _ (u : Unicode) (lower : Text → Text) (user : Text) (d : Driver) (table : Table) where
  -- The statement of `_list_indexes` and its parameters
  abbrev pub index_rows : Db d.World → Result Exc (List Row)
  index_rows s =
      let (filter, params) = owner_filter table (codes "i") in
      (fetch_all d (indexes_sql filter (same_owner table (codes "i") (codes "k"))) params s).0

  -- A description of the table: its columns as `_schema_definitions` reads them, and, from the rows
  -- that the query of the indexes then returns, the indexes and the primary key.
  pub record IsDescribed (s : Db d.World) (description : Description) : Type 0 where
    pub table_is : description.table ≡ display u lower table
    pub columns_are : (schema_definitions u lower user d table s).0 ≡ ok description.columns
    pub rows : List Row
    pub fetched : index_rows (schema_definitions u lower user d table s).1 ≡ ok rows
    pub grouped : List (Grouped Flags Key)
    pub read : each_row index_row rows ≡ ok grouped
    pub indexes_are : Refines grouped description.indexes
    pub primary_key_is : IsPrimaryKey grouped description.primary_key

  list_indexes-Refines :
      (s : Db d.World) (indexes : List Index)
      → (list_indexes u lower user d table s).0 ≡ ok indexes
      → (rows : List Row) × (index_rows s ≡ ok rows)
        × (grouped : List (Grouped Flags Key)) × (each_row index_row rows ≡ ok grouped)
        × (indexes ≡ group grouped [])
  unfolding list_indexes
  list_indexes-Refines s indexes h =
      let (filter, params) = owner_filter table (codes "i") in
      let (rows, fetched, e) =
        continue-eq-ok
          (fetch_all d (indexes_sql filter (same_owner table (codes "i") (codes "k"))) params s) _
          h in
      let (grouped, read, same) = index_entries-Refines rows indexes e in
      (rows, fetched, grouped, read, same)

  -- When `describe_table` answers, the answer has the columns that `_schema_definitions` reads and
  -- an index for each index name among the rows of the second query, where the name first occurs,
  -- with the flags of the first row of that name and the key columns of all its rows in order. The
  -- primary key is the list of the key column names of an index that is marked as primary, or empty
  -- if none is.
  pub describe_table-IsDescribed :
      (s : Db d.World) (description : Description)
      → (describe_table u lower user d table s).0 ≡ ok description
      → IsDescribed s description
  unfolding describe_table
  describe_table-IsDescribed s description h =
      let (columns, first, h1) = continue-eq-ok (schema_definitions u lower user d table s) _ h in
      let (indexes, second, h2) =
        continue-eq-ok
          (list_indexes u lower user d table (schema_definitions u lower user d table s).1) _ h1 in
      let (rows, fetched, grouped, read, same) = list_indexes-Refines _ indexes second in
      let e : record {
        table = display u lower table;
        columns = columns;
        primary_key = primary_key_of indexes;
        indexes = indexes;
      }
          ≡ description =
        cc h2 in
      subst (IsDescribed s) e (record {
        table_is = refl;
        columns_are = first;
        rows = rows;
        fetched = fetched;
        grouped = grouped;
        read = read;
        indexes_are = subst (Refines grouped) (sym same) (group-Refines grouped);
        primary_key_is =
            subst (λ i. IsPrimaryKey grouped (primary_key_of i)) (sym same)
              (primary_key_of-IsPrimaryKey grouped);
      })
