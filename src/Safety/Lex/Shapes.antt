-- ===== src/Safety/Lex/Shapes.antt =====
-- The form of each kind of segment that `lex_sql` returns.
use cubrid_mcp_server.Common.{
  ℕ, ◌≡◌, Bool, true, false, not, if◌then◌else◌, ◌&&◌, ◌||◌, ◌==◌, [], ◌∷◌, ◌++◌, Option, none,
  some, any,
}
use cubrid_mcp_server.Common.Text.{Text}
use cubrid_mcp_server.Safety.Lex.{
  Kind, code, comment, quoted, unterminated, Segment, Piece, is_quote, cut,
}

-- `--`, `//` or `/*`
abbrev pub opens_comment : ℕ → ℕ → Bool
opens_comment c d = (c == b'-' && d == b'-') || (c == b'/' && d == b'/') || (c == b'/' && d == b'*')

-- A quote, a bracket or the start of a comment stands in the text.
abbrev pub has_opener : Text → Bool
has_opener [] = false
has_opener (c ∷ []) = is_quote c || c == b'['
has_opener (c ∷ d ∷ s) = is_quote c || c == b'[' || opens_comment c d || has_opener (d ∷ s)

abbrev pub is_newline : ℕ → Bool
is_newline c = c == b'\r' || c == b'\n'

abbrev pub last_is : ℕ → Text → Bool
last_is q [] = false
last_is q (c ∷ []) = c == q
last_is q (c ∷ d ∷ s) = last_is q (d ∷ s)

-- A line comment holds no line end; a block comment may be open at the end of the input.
abbrev pub is_comment : Text → Bool
is_comment (c ∷ d ∷ s) =
    opens_comment c d && ((c == b'/' && d == b'*') || not (any is_newline (c ∷ d ∷ s)))
is_comment _ = false

abbrev pub closing_mark : ℕ → ℕ
closing_mark c = if c == b'[' then b']' else c

abbrev pub is_opened : Text → Bool
is_opened [] = false
is_opened (c ∷ s) = is_quote c || c == b'['

abbrev pub is_closed : Text → Bool
is_closed [] = false
is_closed (c ∷ s) = last_is (closing_mark c) s

abbrev pub HasForm : Kind → Text → Type 0
HasForm code t = has_opener t ≡ false
HasForm comment t = is_comment t ≡ true
HasForm quoted t = (is_opened t ≡ true) × (is_closed t ≡ true)
HasForm unterminated t = is_opened t ≡ true

abbrev pub HasShape : Segment → Type 0
HasShape g = HasForm g.kind g.text

abbrev Shaped : Option Piece → Type 0
Shaped none = Unit
Shaped (some p) = HasShape p.segment

abbrev opens_line : ℕ → ℕ → Bool
opens_line c d = (c == b'-' && d == b'-') || (c == b'/' && d == b'/')

-- Nothing is cut at any place of `pending`, when `s` stands behind it.
abbrev NoCut : Bool → Text → Text → Type 0
NoCut esc [] s = Unit
NoCut esc (c ∷ t) s = (cut esc (c ∷ (t ++ s)) ≡ none) × NoCut esc t s
