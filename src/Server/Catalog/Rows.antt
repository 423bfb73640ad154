-- ===== src/Server/Catalog/Rows.antt =====
-- The rows of the catalog queries of cubrid_mcp_server/server.py, as its schema tools read them.
use cubrid_mcp_server.Common.{
  ℕ, zero, suc, Bool, false, ◌||◌, Option, none, some, List, [], ◌∷◌, map,
}
use cubrid_mcp_server.Common.Text.{Text, codes, text_eq, is_in}
use cubrid_mcp_server.Common.Result.{Result, ok, err, ◌>>=◌}
use cubrid_mcp_server.Value.{Value, null, str, Row}
use cubrid_mcp_server.Database.Exceptions.{Exc, raised, other_error}
use cubrid_mcp_server.Config.Registry.{Named}
use cubrid_mcp_server.Server.Render.{Cell, coerce}
use cubrid_mcp_server.Server.Identifiers.{Table, find_first}
use cubrid_mcp_server.Server.Groups.{Grouped, group}

-- `row[n]`
unfoldable pub row_item : ℕ → Row → Result Exc Value
row_item n [] = err (raised (other_error (codes "IndexError")))
row_item zero (v ∷ row) = ok v
row_item (suc n) (v ∷ row) = row_item n row

-- A name, which the catalog keeps as a string; of another value the tools could not make one.
unfoldable pub as_name : Value → Result Exc Text
as_name (str t) = ok t
as_name v = err (raised (other_error (codes "TypeError")))

-- A name, or `None`
unfoldable pub owner_of : Value → Result Exc (Option Text)
owner_of null = ok none
owner_of (str t) = ok (some t)
owner_of v = err (raised (other_error (codes "TypeError")))

-- `value == "YES"`
unfoldable pub is_yes : Value → Bool
is_yes (str t) = text_eq t (codes "YES")
is_yes v = false

-- A comprehension over the rows
unfoldable pub each_row : {A : Type 0} → (Row → Result Exc A) → List Row → Result Exc (List A)
each_row f [] = ok []
each_row f (row ∷ rows) = do a ← f row; rest ← each_row f rows; ok (a ∷ rest)

unfoldable pub name_row : Row → Result Exc Text
name_row row = row_item 0 row >>= as_name

unfoldable pub table_row : Row → Result Exc Table
table_row row = do name ← row_item 0 row >>= as_name; ok (record { owner = none; name = name })

unfoldable pub owned_table_row : Row → Result Exc Table
owned_table_row row = do
  owner ← row_item 1 row >>= owner_of
  name ← row_item 0 row >>= as_name
  ok (record { owner = owner; name = name })

-- An entry of `schema_definitions`
pub record Column : Type 0 where
  pub name : Text
  pub column_type : Value
  pub nullable : Bool
  pub default : Value
  pub primary_key : Bool

unfoldable pub column_row : List Text → Row → Result Exc Column
column_row pk_columns row = do
  name ← row_item 0 row >>= as_name
  column_type ← row_item 1 row
  is_nullable ← row_item 2 row
  default ← row_item 3 row
  ok (record {
    name = name;
    column_type = column_type;
    nullable = is_yes is_nullable;
    default = default;
    primary_key = is_in name pk_columns;
  })

-- An entry of `list_indexes`: its flags, and its key columns.
pub record Flags : Type 0 where
  pub unique : Bool
  pub primary_key : Bool
  pub foreign_key : Bool
  pub reverse : Bool
  pub key_count : Value

pub record Key : Type 0 where
  pub name : Value
  pub order : Value
  pub asc_desc : Value

unfoldable pub index_row : Row → Result Exc (Grouped Flags Key)
index_row row = do
  name ← row_item 0 row >>= as_name
  unique ← row_item 1 row
  primary_key ← row_item 2 row
  foreign_key ← row_item 3 row
  reverse ← row_item 4 row
  key_count ← row_item 5 row
  key_name ← row_item 6 row
  order ← row_item 7 row
  asc_desc ← row_item 8 row
  ok (record {
    name = name;
    head = record {
      unique = is_yes unique;
      primary_key = is_yes primary_key;
      foreign_key = is_yes foreign_key;
      reverse = is_yes reverse;
      key_count = key_count;
    };
    item = record { name = key_name; order = order; asc_desc = asc_desc };
  })

abbrev pub Index : Type 0
Index = Text × (Flags × List Key)

-- The `for` of `_list_indexes`
unfoldable pub index_entries : List Row → Result Exc (List Index)
index_entries rows = do grouped ← each_row index_row rows; ok (group grouped [])

-- The key columns of the primary key, in key order: those of the first index that is one.
unfoldable pub key_names : Option Index → List Value
key_names none = []
key_names (some index) = map (λ (k : Key). k.name) index.1.1

unfoldable pub primary_key_of : List Index → List Value
primary_key_of indexes = key_names (find_first (λ index. index.1.0.primary_key) indexes)

-- `for child, parent in rows`
unfoldable pub parent_row : Row → Result Exc (Grouped (Unit {0}) Value)
parent_row (child ∷ parent ∷ []) = do
  name ← as_name child
  ok (record { name = name; head = tt; item = parent })
parent_row _ = err (raised (other_error (codes "ValueError")))

-- Each class with its superclasses
unfoldable pub parent_entries : List Row → Result Exc (Named (Unit {0} × List Value))
parent_entries rows = do grouped ← each_row parent_row rows; ok (group grouped [])

-- An entry of `list_serials`
pub record Serial : Type 0 where
  pub name : Value
  pub current_value : Cell
  pub increment : Cell
  pub max_value : Cell
  pub min_value : Cell
  pub cyclic : Bool
  pub started : Bool
  pub class_name : Value
  pub attribute_name : Value
  pub cached_num : Value
  pub comment : Value

-- `value == "1"`
unfoldable pub is_text_one : Value → Bool
is_text_one (str t) = text_eq t (codes "1")
is_text_one v = false

module _ (equals_one : Value → Bool) where
  -- `value == 1 or value == "1"`; `equals_one` is Python's `value == 1` on a value of the driver.
  unfoldable pub is_one : Value → Bool
  is_one v = equals_one v || is_text_one v

  unfoldable pub serial_row : Row → Result Exc Serial
  serial_row row = do
    name ← row_item 0 row
    current ← row_item 1 row
    increment ← row_item 2 row
    max ← row_item 3 row
    min ← row_item 4 row
    cyclic ← row_item 5 row
    started ← row_item 6 row
    class_name ← row_item 7 row
    attribute_name ← row_item 8 row
    cached_num ← row_item 9 row
    comment ← row_item 10 row
    ok (record {
      name = name;
      current_value = coerce 256 current;
      increment = coerce 256 increment;
      max_value = coerce 256 max;
      min_value = coerce 256 min;
      cyclic = is_one cyclic;
      started = is_one started;
      class_name = class_name;
      attribute_name = attribute_name;
      cached_num = cached_num;
      comment = comment;
    })
