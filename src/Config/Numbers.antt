-- ===== src/Config/Numbers.antt =====
-- Python's `int` on a text, as cubrid_mcp_server/config.py calls it.
use mathlib.Core.Option
use cubrid_mcp_server.Common.{
  ℕ, zero, suc, ◌+◌, ◌*◌, Bool, true, false, ◌&&◌, ◌==◌, leb, if◌then◌else◌, Option, none, some,
  List, [], ◌∷◌, length,
}
use cubrid_mcp_server.Common.Text.{Text}
use cubrid_mcp_server.Common.Unicode.{Unicode, strip}
use cubrid_mcp_server.Value.{ℤ, pos, negsuc}

unfoldable pub number : ℕ → List ℕ → ℕ
number n [] = n
number n (d ∷ ds) = number (n * 10 + d) ds

abbrev pub negate : ℕ → ℤ
negate zero = pos 0
negate (suc n) = negsuc n

-- The interpreter's default limit on the number of digits.
abbrev pub limited : List ℕ → Option ℕ
limited ds = if leb (length ds) 4300 then some (number 0 ds) else none

module _ (u : Unicode) (digit_value : ℕ → Option ℕ) where
  -- Digits, with single underscores between them; the flag says that the last character was a digit.
  unfoldable pub digit_run : Bool → Text → Option (List ℕ)
  digit_run after_digit [] = if after_digit then some [] else none
  digit_run after_digit (c ∷ s) = elim (digit_value c) [
    | some d ↦ Option.map (λ ds. d ∷ ds) (digit_run true s)
    | none ↦ elim (after_digit && c == b'_') [ true ↦ digit_run false s | false ↦ none ]
  ]

  unfoldable pub magnitude : Text → Option ℕ
  magnitude s = elim (digit_run false s) [ none ↦ none | some ds ↦ limited ds ]

  unfoldable pub signed : Text → Option ℤ
  signed [] = none
  signed (c ∷ s) =
      if c == b'-'
      then Option.map negate (magnitude s)
      else if c == b'+'
      then Option.map pos (magnitude s)
      else Option.map pos (magnitude (c ∷ s))

  unfoldable pub python_int : Text → Option ℤ
  python_int s = signed (strip u s)
