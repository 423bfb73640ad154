-- ===== src/Server/Render/Budget.antt =====
-- What `_render_rows` returns: whole rows while they fit, or the first row cut.
use cubrid_mcp_server.Common.{
  ℕ, ◌+◌, ◌≤◌, ◌<◌, ◌≡◌, refl, sym, true, false, ltb, Bool-cases, inl, inr, List, [], ◌∷◌, ◌++◌,
  map, append_assoc, append-nil, length, arith,
}
use cubrid_mcp_server.Value.{Row}
use cubrid_mcp_server.Server.Render.{
  Cell, Rendered, coerce, row_size, fit_row, at_least_one, add_rows, render_rows,
}
use cubrid_mcp_server.Server.Render.Cuts.{
  IsCut, length-fit_row, row_size-fit_row, over_budget, in_budget, fit_row-IsCut,
}

-- The characters of all the rows.
unfoldable pub total : List (List Cell) → ℕ
total [] = 0
total (row ∷ rows) = row_size row + total rows

-- What `all` becomes within a budget of `max`: whole, or its longest prefix that fits, or, where not
-- even the first row fits, that row cut.
pub data IsWithin (max : ℕ) (all : List (List Cell)) : Rendered → Type 0 where
  whole : total all ≤ max → IsWithin max all (record { rows = all; truncated = false })
  prefix :
      (row : List Cell) (kept : List (List Cell)) (next : List Cell) (later : List (List Cell))
      → all ≡ (row ∷ kept) ++ next ∷ later
      → total (row ∷ kept) ≤ max
      → max < total ((row ∷ kept) ++ next ∷ [])
      → IsWithin max all (record { rows = row ∷ kept; truncated = true })
  first :
      (row cut : List Cell) (later : List (List Cell))
      → all ≡ row ∷ later
      → max < row_size row
      → IsCut max row cut
      → length cut ≡ length row
      → row_size cut ≤ max + length row
      → IsWithin max all (record { rows = cut ∷ []; truncated = true })

total-append : (xs ys : List (List Cell)) → total (xs ++ ys) ≡ total xs + total ys
unfolding total
total-append [] ys = omega arith
total-append (x ∷ xs) ys = omega (arith, total-append xs ys)

total-snoc : (xs : List (List Cell)) (x : List Cell) → total (xs ++ x ∷ []) ≡ total xs + row_size x
unfolding total
total-snoc xs x = omega (arith, total-append xs (x ∷ []))

-- The row that does not fit.
at_least_one-IsWithin :
    (max : ℕ) (output : List (List Cell)) (values : List Cell) (rows : List (List Cell))
    → total output ≤ max
    → max < total output + row_size values
    → IsWithin max
        (output ++ values ∷ rows)
        (record { rows = at_least_one output values max; truncated = true })
unfolding at_least_one total
at_least_one-IsWithin max [] values rows h over =
    first values (fit_row values max) rows refl (omega (arith, over))
      (fit_row-IsCut values max (omega (arith, over))) (length-fit_row values max)
      (row_size-fit_row values max)
at_least_one-IsWithin max (row ∷ kept) values rows h over =
    prefix row kept values rows refl h (rw (total-snoc (row ∷ kept) values) over)

add_rows-IsWithin :
    (max : ℕ) (output : List (List Cell)) (used : ℕ) (rows : List (List Cell))
    → used ≡ total output
    → used ≤ max
    → IsWithin max (output ++ rows) (add_rows max output used rows)
unfolding add_rows
add_rows-IsWithin max output used [] e h = rw append-nil (whole (rw (sym e) h))
add_rows-IsWithin max output used (values ∷ rows) e h =
    elim (Bool-cases (ltb max (used + row_size values))) [
      | inl over ↦ rw over (
          at_least_one-IsWithin max output values rows (omega (arith, e))
            (omega (arith, e, over_budget max (used + row_size values) over)))
      | inr small ↦
          rw (small, sym (append_assoc output (values ∷ []) rows))
            (add_rows-IsWithin max (output ++ values ∷ []) (used + row_size values) rows
              (omega (arith, e, total-snoc output values))
              (in_budget max (used + row_size values) small))
    ]

-- `_render_rows` returns every row, not truncated, when their characters are within the budget;
-- otherwise it is truncated and returns the longest prefix of whole rows that fits, or, when the
-- first row alone is over the budget, that row cut: the values in front that fit, of the next value,
-- when it is a text, what fits in front of an ellipsis, and an ellipsis for each value behind it that
-- is not empty, with as many columns and no more than one character per column over the budget.
pub render_rows-IsWithin :
    (rows : List Row) (max_chars max_inline : ℕ)
    → IsWithin max_chars
        (map (map (coerce max_inline)) rows)
        (render_rows rows max_chars max_inline)
unfolding render_rows total
render_rows-IsWithin rows max_chars max_inline =
    add_rows-IsWithin max_chars [] 0 (map (map (coerce max_inline)) rows) refl (omega arith)
