-- ===== src/Server/Render/Cuts.antt =====
-- What `_fit_row` of cubrid_mcp_server/server.py makes of a row that is over the budget.
use cubrid_mcp_server.Common.{
  ℕ, ◌+◌, ◌-◌, ◌≤◌, ◌<◌, ◌≡◌, ◌≢◌, refl, ap, subst, true, false, ltb, leb, leb→le, Bool-cases, inl,
  inr, List, [], ◌∷◌, ◌++◌, length, take, length-append, length-take-le, arith,
}
use cubrid_mcp_server.Common.Text.{Text}
use cubrid_mcp_server.Server.Render.{
  Cell, null_cell, bool_cell, int_cell, float_cell, str_cell, cell_size, cell_text, row_size,
  cut_cell, ellipsis, fit_row,
}

-- The value that passes the budget, with `n` characters left: a text keeps what fits in front of an
-- ellipsis, and any other value, or a text with no room, becomes an ellipsis.
pub data IsShortened (n : ℕ) : Cell → Cell → Type 0 where
  shortened :
      (t : Text) → 1 < n → IsShortened n (str_cell t) (str_cell (take (n - 1) t ++ 8230 ∷ []))
  no_room : (t : Text) → n ≤ 1 → IsShortened n (str_cell t) (str_cell (8230 ∷ []))
  no_text : (v : Cell) → ((t : Text) → v ≢ str_cell t) → IsShortened n v (str_cell (8230 ∷ []))

-- The values behind it: an ellipsis each, but for an empty text.
pub data AreBlanked : List Cell → List Cell → Type 0 where
  none_left : AreBlanked [] []
  empty :
      (v : Cell) {vs ws : List Cell}
      → cell_size v ≡ 0
      → AreBlanked vs ws
      → AreBlanked (v ∷ vs) (v ∷ ws)
  blanked :
      (v : Cell) {vs ws : List Cell}
      → 0 < cell_size v
      → AreBlanked vs ws
      → AreBlanked (v ∷ vs) (str_cell (8230 ∷ []) ∷ ws)

-- A row that is cut to `n` characters: the values in front that fit, the one that passes the budget
-- and those behind it.
pub data IsCut (n : ℕ) (row : List Cell) : List Cell → Type 0 where
  cut_at :
      (front : List Cell) (v w : Cell) (later blanks : List Cell)
      → row ≡ front ++ v ∷ later
      → row_size front ≤ n
      → n < row_size front + cell_size v
      → IsShortened (n - row_size front) v w
      → AreBlanked later blanks
      → IsCut n row (front ++ w ∷ blanks)

pub length-fit_row : (vs : List Cell) (n : ℕ) → length (fit_row vs n) ≡ length vs
unfolding fit_row
length-fit_row [] n = refl
length-fit_row (v ∷ vs) n = elim (Bool-cases (leb (cell_size v) n)) [
  | inl fits ↦ rw (fits, length-fit_row vs (n - cell_size v)) refl
  | inr over ↦ rw (over, length-fit_row vs 0) refl
]

-- The cut value has at most one character over what was left.
cell_size-cut_cell : (n : ℕ) (v : Cell) → cell_size (cut_cell n v) ≤ n + 1
unfolding cell_size cut_cell cell_text ellipsis
cell_size-cut_cell n (str_cell t) = elim (Bool-cases (ltb 1 n)) [
  | inl long ↦
      rw long
        (rw (length-append (take (n - 1) t) (8230 ∷ [])) (omega (arith, length-take-le (n - 1) t)))
  | inr short ↦ rw short (omega arith)
]
cell_size-cut_cell n null_cell = omega arith
cell_size-cut_cell n (bool_cell b) = omega arith
cell_size-cut_cell n (int_cell i) = omega arith
cell_size-cut_cell n (float_cell t) = omega arith

pub row_size-fit_row : (vs : List Cell) (n : ℕ) → row_size (fit_row vs n) ≤ n + length vs
unfolding fit_row row_size
row_size-fit_row [] n = omega arith
row_size-fit_row (v ∷ vs) n = elim (Bool-cases (leb (cell_size v) n)) [
  | inl fits ↦
      rw fits (omega (arith, leb→le (cell_size v) n fits, row_size-fit_row vs (n - cell_size v)))
  | inr over ↦ rw over (omega (arith, cell_size-cut_cell n v, row_size-fit_row vs 0))
]

pub over_budget : (a b : ℕ) → ltb a b ≡ true → a < b
over_budget a b h = ground arith

pub in_budget : (a b : ℕ) → ltb a b ≡ false → b ≤ a
in_budget a b h = ground arith

cut_cell-IsShortened : (n : ℕ) (v : Cell) → IsShortened n v (cut_cell n v)
unfolding cut_cell ellipsis
cut_cell-IsShortened n (str_cell t) = elim (Bool-cases (ltb 1 n)) [
  | inl long ↦ rw long (shortened t (over_budget 1 n long))
  | inr short ↦ rw short (no_room t (in_budget 1 n short))
]
cut_cell-IsShortened n null_cell = no_text null_cell (λ t e. cc e)
cut_cell-IsShortened n (bool_cell b) = no_text (bool_cell b) (λ t e. cc e)
cut_cell-IsShortened n (int_cell i) = no_text (int_cell i) (λ t e. cc e)
cut_cell-IsShortened n (float_cell t) = no_text (float_cell t) (λ t' e. cc e)

cut_cell_zero : (v : Cell) → cut_cell 0 v ≡ str_cell (8230 ∷ [])
unfolding cut_cell ellipsis
cut_cell_zero (str_cell t) = refl
cut_cell_zero null_cell = refl
cut_cell_zero (bool_cell b) = refl
cut_cell_zero (int_cell i) = refl
cut_cell_zero (float_cell t) = refl

nothing_left : (n : ℕ) → leb n 0 ≡ true → n ≡ 0
nothing_left n h = ground arith

some_left : (n m : ℕ) → leb n m ≡ false → m < n
some_left n m h = ground arith

fit_row-AreBlanked : (vs : List Cell) → AreBlanked vs (fit_row vs 0)
unfolding fit_row
fit_row-AreBlanked [] = none_left
fit_row-AreBlanked (v ∷ vs) = elim (Bool-cases (leb (cell_size v) 0)) [
  | inl fits ↦
      let none_kept : 0 - cell_size v ≡ 0 = omega arith in
      rw (fits, none_kept) (empty v (nothing_left (cell_size v) fits) (fit_row-AreBlanked vs))
  | inr over ↦
      rw (over, cut_cell_zero v)
        (blanked v (some_left (cell_size v) 0 over) (fit_row-AreBlanked vs))
]

minus_minus : (n a b : ℕ) → n - a - b ≡ n - (a + b)
minus_minus n a b = omega arith

minus_zero : (n : ℕ) → n ≡ n - 0
minus_zero n = omega arith

-- One value more in front, that fits
IsCut-cons :
    (v : Cell) (vs ws : List Cell) (n : ℕ)
    → cell_size v ≤ n
    → IsCut (n - cell_size v) vs ws
    → IsCut n (v ∷ vs) (v ∷ ws)
unfolding row_size
IsCut-cons v vs _ n fits (cut_at front x w later blanks e small over short blank) =
    cut_at (v ∷ front) x w later blanks (ap (◌∷◌ v) e) (omega (arith, fits, small))
      (omega (arith, fits, small, over))
      (subst (λ (m : ℕ). IsShortened m x w) (minus_minus n (cell_size v) (row_size front)) short)
      blank

pub fit_row-IsCut : (vs : List Cell) (n : ℕ) → n < row_size vs → IsCut n vs (fit_row vs n)
unfolding fit_row row_size
fit_row-IsCut [] n h = absurd (omega (arith, h))
fit_row-IsCut (v ∷ vs) n h = elim (Bool-cases (leb (cell_size v) n)) [
  | inl fits ↦
      let small = leb→le (cell_size v) n fits in
      rw fits (
        IsCut-cons v vs (fit_row vs (n - cell_size v)) n small
          (fit_row-IsCut vs (n - cell_size v) (omega (arith, h, small))))
  | inr over ↦ rw over (
      cut_at [] v (cut_cell n v) vs (fit_row vs 0) refl (omega arith)
        (omega (arith, some_left (cell_size v) n over))
        (subst (λ (m : ℕ). IsShortened m v (cut_cell n v)) (minus_zero n)
          (cut_cell-IsShortened n v))
        (fit_row-AreBlanked vs))
]
