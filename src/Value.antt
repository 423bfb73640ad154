-- ===== src/Value.antt =====
-- Python values that pass between the driver, the tools and their clients, and `str` on them.
use cubrid_mcp_server.Common.{ℕ, zero, suc, ◌+◌, ◌/◌, ◌%◌, Bool, ltb, if◌then◌else◌, List, [], ◌∷◌}
use cubrid_mcp_server.Common.Text.{Text}

-- `negsuc n` is -(n + 1).
pub data ℤ : Type 0 where
  pos : ℕ → ℤ
  negsuc : ℕ → ℤ

-- A float and any other object (a date, a Decimal, a collection) are known by their `str`.
pub data Value : Type 0 where
  null : Value
  bool : Bool → Value
  int : ℤ → Value
  float : Text → Value
  str : Text → Value
  bytes : List ℕ → Value
  other : Text → Value

abbrev pub Row : Type 0
Row = List Value

-- The decimal digits of `n`, before `acc`; `suc n` rounds are enough.
digits : ℕ → ℕ → Text → Text
digits zero n acc = acc
digits (suc fuel) n acc =
    let more = digits fuel (n / 10) ((b'0' + n % 10) ∷ acc) in
    if ltb n 10 then (b'0' + n) ∷ acc else more

unfoldable pub decimal : ℕ → Text
unfolding digits
decimal n = digits (suc n) n []

unfoldable pub int_text : ℤ → Text
unfolding decimal
int_text (pos n) = decimal n
int_text (negsuc n) = b'-' ∷ decimal (suc n)
