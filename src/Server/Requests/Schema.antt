-- ===== src/Server/Requests/Schema.antt =====
-- The schema tools of cubrid_mcp_server/server.py commit nothing.
use cubrid_mcp_server.Common.{ℕ, Bool, true, false, Option, none, some, List, [], ◌∷◌, ◌++◌}
use cubrid_mcp_server.Common.Text.{Text, codes}
use cubrid_mcp_server.Common.Unicode.{Unicode, strip}
use cubrid_mcp_server.Common.Result.{Result, ok, err}
use cubrid_mcp_server.Value.{ℤ, Value, Row}
use cubrid_mcp_server.Database.Exceptions.{Exc}
use cubrid_mcp_server.Database.Driver.{Driver, Db, Action, pure, ◌>>=◌}
use cubrid_mcp_server.Database.Statements.{
  fetch_all, owner_qualified_names, serial_attribute_column,
}
use cubrid_mcp_server.Database.Commits.{Has}
use cubrid_mcp_server.Database.Commits.Reads.Probes.{
  IsQuiet, bind-IsQuiet, pure-IsQuiet, fetch_all-IsQuiet, owner_qualified_names-IsQuiet,
  serial_attribute_column-IsQuiet,
}
use cubrid_mcp_server.Server.Identifiers.{Table, NameError, display, match_table, resolve_table}
use cubrid_mcp_server.Server.Counts.{
  Entry, TooMany, fetched_entry, count_matched, count_table, count_all, targets, with_counts,
  counted_targets, count_known, qualified_name,
}
use cubrid_mcp_server.Server.Catalog.{
  owned_tables_sql, tables_sql, computed, tables_query, user_tables, all_table_names, filtered,
  filter_table_names, schema_definitions, list_indexes, describe_table, on_table, unless_blank,
  with_table, grouped_parents, hierarchy_of, list_class_hierarchy, list_serials,
}
use cubrid_mcp_server.Server.Catalog.Rows.{each_row, name_row, column_row}

module _ (u : Unicode) (lower : Text → Text) (user : Text) (d : Driver) (n : ℕ) where
  computed-IsQuiet : {A : Type 0} (r : Result Exc A) → IsQuiet d n (computed r)
  computed-IsQuiet r = record { kept = λ s p. p }

  pub user_tables-IsQuiet : IsQuiet d n (user_tables u lower user d)
  unfolding user_tables
  user_tables-IsQuiet =
      bind-IsQuiet d n (owner_qualified_names d) _ (owner_qualified_names-IsQuiet d n)
        queried_tables
    where
      queried_tables : (b : Bool) → IsQuiet d n (tables_query u lower user d b)
      queried_tables true =
          bind-IsQuiet d n (fetch_all d owned_tables_sql []) _ (fetch_all-IsQuiet d n _ _)
            (λ rows. computed-IsQuiet _)
      queried_tables false =
          bind-IsQuiet d n (fetch_all d tables_sql []) _ (fetch_all-IsQuiet d n _ _)
            (λ rows. computed-IsQuiet _)

  mapped :
      {A B : Type 0} (m : Action d.World A) (g : A → B)
      → IsQuiet d n m
      → IsQuiet d n (m >>= λ a. pure (g a))
  mapped m g h = bind-IsQuiet d n m _ h (λ a. pure-IsQuiet d n (g a))

  pub all_table_names-IsQuiet : IsQuiet d n (all_table_names u lower user d)
  unfolding all_table_names
  all_table_names-IsQuiet = mapped (user_tables u lower user d) _ user_tables-IsQuiet

  pub filter_table_names-IsQuiet :
      (substring : Text) → IsQuiet d n (filter_table_names u lower user d substring)
  unfolding filter_table_names
  filter_table_names-IsQuiet substring = kept (lower (strip u substring))
    where
      kept : (needle : Text) → IsQuiet d n (filtered u lower user d needle)
      kept [] = pure-IsQuiet d n []
      kept (c ∷ s) = mapped (all_table_names u lower user d) _ all_table_names-IsQuiet

  pub schema_definitions-IsQuiet :
      (table : Table) → IsQuiet d n (schema_definitions u lower user d table)
  unfolding schema_definitions
  schema_definitions-IsQuiet table =
      bind-IsQuiet d n (fetch_all d _ _) _ (fetch_all-IsQuiet d n _ _) (λ rows.
        bind-IsQuiet d n (fetch_all d _ _) _ (fetch_all-IsQuiet d n _ _) (λ pk_rows.
          bind-IsQuiet d n (computed (each_row name_row pk_rows)) _ (computed-IsQuiet _)
            (λ columns. computed-IsQuiet (each_row (column_row columns) rows))))

  pub list_indexes-IsQuiet : (table : Table) → IsQuiet d n (list_indexes u lower user d table)
  unfolding list_indexes
  list_indexes-IsQuiet table =
      bind-IsQuiet d n (fetch_all d _ _) _ (fetch_all-IsQuiet d n _ _) (λ rows. computed-IsQuiet _)

  pub describe_table-IsQuiet : (table : Table) → IsQuiet d n (describe_table u lower user d table)
  unfolding describe_table
  describe_table-IsQuiet table =
      bind-IsQuiet d n (schema_definitions u lower user d table) _
        (schema_definitions-IsQuiet table)
        (λ columns. mapped (list_indexes u lower user d table) _ (list_indexes-IsQuiet table))

  pub with_table-IsQuiet :
      (A : Type 0) (table_name : Text) (body : Table → Action d.World A)
      → ((table : Table) → IsQuiet d n (body table))
      → IsQuiet d n (with_table u lower user d table_name body)
  unfolding with_table
  with_table-IsQuiet A table_name body h = kept (strip u table_name)
    where
      resolved : (r : Result NameError Table) → IsQuiet d n (on_table u lower user d body r)
      resolved (err e) = pure-IsQuiet d n (err e)
      resolved (ok table) = mapped (body table) _ (h table)

      kept : (stripped : Text) → IsQuiet d n (unless_blank u lower user d body table_name stripped)
      kept [] = pure-IsQuiet d n _
      kept (c ∷ s) =
          bind-IsQuiet d n (user_tables u lower user d) _ user_tables-IsQuiet
            (λ tables. resolved (resolve_table u lower user tables table_name))

  pub list_class_hierarchy-IsQuiet :
      (table_name : Option Text) → IsQuiet d n (list_class_hierarchy u lower user d table_name)
  unfolding list_class_hierarchy
  list_class_hierarchy-IsQuiet table_name =
      bind-IsQuiet d n (owner_qualified_names d) _ (owner_qualified_names-IsQuiet d n)
        (kept table_name)
    where
      grouped :
          (sql : Text) (params : Row) → IsQuiet d n (grouped_parents u lower user d sql params)
      grouped sql params =
          bind-IsQuiet d n (fetch_all d sql params) _ (fetch_all-IsQuiet d n sql params)
            (λ rows. computed-IsQuiet _)

      kept : (o : Option Text) (b : Bool) → IsQuiet d n (hierarchy_of u lower user d o b)
      kept none b = mapped (grouped_parents u lower user d _ []) _ (grouped _ [])
      kept (some []) b = mapped (grouped_parents u lower user d _ []) _ (grouped _ [])
      kept (some (c ∷ s)) b = with_table-IsQuiet _ (c ∷ s) _ (λ table. grouped _ _)

  pub list_serials-IsQuiet :
      (equals_one : Value → Bool) → IsQuiet d n (list_serials u lower user d equals_one)
  unfolding list_serials
  list_serials-IsQuiet equals_one =
      bind-IsQuiet d n (serial_attribute_column d) _ (serial_attribute_column-IsQuiet d n)
        (λ column.
          bind-IsQuiet d n (fetch_all d _ []) _ (fetch_all-IsQuiet d n _ [])
            (λ rows. computed-IsQuiet _))

  abbrev count_sql : Table → Text
  count_sql table = codes "SELECT COUNT(*) FROM " ++ qualified_name table

  module _ (int_of : Value → Result Text ℤ) (limit : ℕ) (known : List Table) where
    count_matched-IsQuiet :
        (name : Text) (m : Result NameError (Option Table))
        → IsQuiet d n (count_matched u lower int_of d limit user known name m)
    count_matched-IsQuiet name (err e) = record { kept = λ s p. p }
    count_matched-IsQuiet name (ok none) = record { kept = λ s p. p }
    count_matched-IsQuiet name (ok (some table)) = record {
      kept = λ s p.
          fetched (fetch_all d (count_sql table) [] s)
            ((fetch_all-IsQuiet d n (count_sql table) []).kept s p);
    }
      where
        fetched :
            (x : Result Exc (List Row) × Db d.World)
            → Has d n x.1
            → Has d n (fetched_entry u lower int_of d limit user known (display u lower table) x).1
        fetched (ok rows, s) p = p
        fetched (err e, s) p = p

    count_all-IsQuiet :
        (names : List Text) → IsQuiet d n (count_all u lower int_of d limit user known names)
    unfolding count_all count_table
    count_all-IsQuiet [] = pure-IsQuiet d n []
    count_all-IsQuiet (name ∷ names) =
        bind-IsQuiet d n
          (count_matched u lower int_of d limit user known name
            (match_table u lower user known name))
          _ (count_matched-IsQuiet name _)
          (λ entry.
            mapped (count_all u lower int_of d limit user known names) _ (count_all-IsQuiet names))

    pub count_known-IsQuiet :
        (requested : Option (List Text))
        → IsQuiet d n (count_known u lower int_of d limit user known requested)
    unfolding count_known
    count_known-IsQuiet requested = kept (targets u lower int_of d limit user known requested)
      where
        with_answer :
            (truncated : Bool) (x : Result Exc (List Entry) × Db d.World)
            → Has d n x.1
            → Has d n (with_counts u lower int_of d limit user known truncated x).1
        with_answer truncated (ok entries, s) p = p
        with_answer truncated (err e, s) p = p

        kept :
            (r : Result TooMany (List Text × Bool))
            → IsQuiet d n (counted_targets u lower int_of d limit user known r)
        kept (err e) = record { kept = λ s p. p }
        kept (ok (names, truncated)) = record {
          kept = λ s p.
              with_answer truncated (count_all u lower int_of d limit user known names s)
                ((count_all-IsQuiet names).kept s p);
        }
