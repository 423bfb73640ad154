-- ===== src/Server/Render.antt =====
-- `_coerce`, `_render_rows` and `_fit_row` of cubrid_mcp_server/server.py: rows within a budget of
-- characters.
pub mod Budget
pub mod Cuts
use cubrid_mcp_server.Common.{
  ℕ, zero, suc, ◌+◌, ◌-◌, ◌*◌, ◌/◌, ◌%◌, Bool, true, false, ltb, leb, if◌then◌else◌, List, [], ◌∷◌,
  ◌++◌, map, length, take,
}
use cubrid_mcp_server.Common.Text.{Text, codes}
use cubrid_mcp_server.Value.{
  ℤ, Value, null, bool, int, float, str, bytes, other, Row, decimal, int_text,
}

-- A value that a tool returns.
pub data Cell : Type 0 where
  null_cell : Cell
  bool_cell : Bool → Cell
  int_cell : ℤ → Cell
  float_cell : Text → Cell
  str_cell : Text → Cell

pub record Rendered : Type 0 where
  pub rows : List (List Cell)
  pub truncated : Bool

-- The alphabet of `base64.b64encode`
unfoldable pub base64_char : ℕ → ℕ
base64_char n =
    if ltb n 26
    then b'A' + n
    else if ltb n 52
    then b'a' + (n - 26)
    else if ltb n 62
    then b'0' + (n - 52)
    else if ltb n 63
    then b'+'
    else b'/'

unfoldable pub b64encode : List ℕ → Text
b64encode [] = []
b64encode (a ∷ []) = base64_char (a / 4) ∷ base64_char ((a % 4) * 16) ∷ b'=' ∷ b'=' ∷ []
b64encode (a ∷ b ∷ []) =
    base64_char (a / 4)
    ∷ base64_char ((a % 4) * 16 + b / 16)
    ∷ base64_char ((b % 16) * 4)
    ∷ b'='
    ∷ []
b64encode (a ∷ b ∷ c ∷ rest) =
    base64_char (a / 4)
    ∷ base64_char ((a % 4) * 16 + b / 16)
    ∷ base64_char ((b % 16) * 4 + c / 64)
    ∷ base64_char (c % 64)
    ∷ b64encode rest

unfoldable pub coerce : ℕ → Value → Cell
coerce max_inline null = null_cell
coerce max_inline (bool b) = bool_cell b
coerce max_inline (int n) = int_cell n
coerce max_inline (float t) = float_cell t
coerce max_inline (str t) = str_cell t
coerce max_inline (bytes content) =
    if leb (length content) max_inline
    then str_cell (b64encode content)
    else str_cell (codes "<binary " ++ (decimal (length content) ++ codes " bytes>"))
coerce max_inline (other t) = str_cell t

-- `str(value)`
unfoldable pub cell_text : Cell → Text
cell_text null_cell = codes "None"
cell_text (bool_cell true) = codes "True"
cell_text (bool_cell false) = codes "False"
cell_text (int_cell n) = int_text n
cell_text (float_cell t) = t
cell_text (str_cell t) = t

unfoldable pub cell_size : Cell → ℕ
cell_size v = length (cell_text v)

-- `sum(len(str(value)) for value in values)`
unfoldable pub row_size : List Cell → ℕ
row_size [] = 0
row_size (v ∷ vs) = cell_size v + row_size vs

unfoldable pub ellipsis : Text
ellipsis = 8230 ∷ []

-- The value that does not fit.
unfoldable pub cut_cell : ℕ → Cell → Cell
cut_cell remaining (str_cell t) =
    if ltb 1 remaining then str_cell (take (remaining - 1) t ++ ellipsis) else str_cell ellipsis
cut_cell remaining _ = str_cell ellipsis

unfoldable pub fit_row : List Cell → ℕ → List Cell
fit_row [] remaining = []
fit_row (v ∷ vs) remaining =
    let kept = fit_row vs (remaining - cell_size v) in
    let cut = fit_row vs 0 in
    if leb (cell_size v) remaining then v ∷ kept else cut_cell remaining v ∷ cut

-- `if not output: output.append(_fit_row(values, max_chars))`
unfoldable pub at_least_one : List (List Cell) → List Cell → ℕ → List (List Cell)
at_least_one [] values max_chars = fit_row values max_chars ∷ []
at_least_one (row ∷ output) values max_chars = row ∷ output

-- The `for` of `_render_rows`, over rows that are coerced.
unfoldable pub add_rows : ℕ → List (List Cell) → ℕ → List (List Cell) → Rendered
add_rows max_chars output used [] = record { rows = output; truncated = false }
add_rows max_chars output used (values ∷ rows) =
    let later = add_rows max_chars (output ++ values ∷ []) (used + row_size values) rows in
    if ltb max_chars (used + row_size values)
    then record { rows = at_least_one output values max_chars; truncated = true }
    else later

unfoldable pub render_rows : List Row → ℕ → ℕ → Rendered
render_rows rows max_chars max_inline = add_rows max_chars [] 0 (map (map (coerce max_inline)) rows)
