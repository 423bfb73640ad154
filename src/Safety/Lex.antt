-- ===== src/Safety/Lex.antt =====
-- `lex_sql` of cubrid_mcp_server/safety.py. The index `i` is the pair of the code pending since
-- `code_start` and the text still to read; each branch of the `while` body is a function that
-- cuts one segment off the front.
pub mod Cuts
pub mod Partition
pub mod Shapes
pub mod Readings
use mathlib.Core.Option
use cubrid_mcp_server.Common.{
  ℕ, zero, suc, Bool, true, false, not, ◌&&◌, ◌||◌, ◌==◌, if◌then◌else◌, Option, none, some, List,
  [], ◌∷◌, ◌++◌, length,
}
use cubrid_mcp_server.Common.Text.{Text}

pub data Kind : Type 0 where
  code comment quoted unterminated : Kind

pub record Segment : Type 0 where
  pub kind : Kind
  pub text : Text

-- What one scan took from the front, what it left, and whether it met its closing mark.
pub record Cut : Type 0 where
  pub taken : Text
  pub rest : Text
  pub closed : Bool

abbrev pub push : ℕ → Cut → Cut
push c k = record k { taken = c ∷ k.taken }

-- `while end < n and sql[end] not in "\r\n"`
unfoldable pub line_end : Text → Cut
line_end [] = record { taken = []; rest = []; closed = true }
line_end (c ∷ s) =
    let later = push c (line_end s) in
    if c == b'\r' || c == b'\n' then record { taken = []; rest = c ∷ s; closed = true } else later

-- from `i + 2`, up to the end of `*/`
unfoldable pub block_end : Text → Cut
block_end [] = record { taken = []; rest = []; closed = false }
block_end (c ∷ []) = record { taken = c ∷ []; rest = []; closed = false }
block_end (c ∷ d ∷ s) =
    let later = push c (block_end (d ∷ s)) in
    if c == b'*' && d == b'/' then record { taken = c ∷ d ∷ []; rest = s; closed = true } else later

-- from `i + 1`, up to the closing quote `q`
abbrev pub escapes : Bool → ℕ → ℕ → Bool
escapes backslash_escapes q c = backslash_escapes && not (q == b'`') && c == b'\\'

unfoldable pub quote_end : Bool → ℕ → Text → Cut
quote_end esc q [] = record { taken = []; rest = []; closed = false }
quote_end esc q (c ∷ []) = record {
  taken = c ∷ [];
  rest = [];
  closed = not (escapes esc q c) && c == q;
}
quote_end esc q (c ∷ d ∷ s) =
    let one = push c (quote_end esc q (d ∷ s)) in
    let two = push c (push d (quote_end esc q s)) in
    if escapes esc q c
    then two
    else if not (c == q)
    then one
    else if d == q
    then two
    else record { taken = c ∷ []; rest = d ∷ s; closed = true }

-- from `i + 1`, up to the end of `]`
unfoldable pub bracket_end : Text → Cut
bracket_end [] = record { taken = []; rest = []; closed = false }
bracket_end (c ∷ s) =
    let later = push c (bracket_end s) in
    if c == b']' then record { taken = c ∷ []; rest = s; closed = true } else later

-- A segment that is no code, and the text behind it.
pub record Piece : Type 0 where
  pub segment : Segment
  pub rest : Text

abbrev pub piece : Kind → Cut → Piece
piece k cut = record { segment = record { kind = k; text = cut.taken }; rest = cut.rest }

abbrev pub closing : Bool → Kind
closing true = quoted
closing false = unterminated

abbrev pub is_quote : ℕ → Bool
is_quote c = c == b'\'' || c == b'"' || c == b'`'

-- `ch in "'\"`"`, then `ch == "["`, at the first character of a text
unfoldable pub cut_quote : Bool → ℕ → Text → Option Piece
cut_quote esc c s =
    if is_quote c
    then (let cut = push c (quote_end esc c s) in some (piece (closing cut.closed) cut))
    else if c == b'['
    then (let cut = push c (bracket_end s) in some (piece (closing cut.closed) cut))
    else none

-- The ladder of tests in the `while` body; `none` is its last branch, `i += 1; continue`.
unfoldable pub cut : Bool → Text → Option Piece
cut esc [] = none
cut esc (c ∷ []) = cut_quote esc c []
cut esc (c ∷ d ∷ s) =
    if (c == b'-' && d == b'-') || (c == b'/' && d == b'/')
    then some (piece comment (line_end (c ∷ d ∷ s)))
    else if c == b'/' && d == b'*'
    then some (piece comment (push c (push d (block_end s))))
    else cut_quote esc c (d ∷ s)

-- `if code_start < i: segments.append(("code", sql[code_start:i]))`
abbrev pub flush : Text → List Segment → List Segment
flush [] segments = segments
flush (c ∷ s) segments = record { kind = code; text = c ∷ s } ∷ segments

-- The loop, on fuel; `none` is out of fuel.
unfoldable pub lex_loop : Bool → ℕ → Text → Text → Option (List Segment)
lex_loop esc fuel pending [] = some (flush pending [])
lex_loop esc zero pending (c ∷ s) = none
lex_loop esc (suc fuel) pending (c ∷ s) = elim (cut esc (c ∷ s)) [
  | none ↦ lex_loop esc fuel (pending ++ c ∷ []) s
  | some p ↦ Option.map (λ later. flush pending (p.segment ∷ later)) (lex_loop esc fuel [] p.rest)
]

-- Every round takes a character, so the length of the text is enough fuel.
unfoldable pub lex_sql : Text → Bool → List Segment
lex_sql sql backslash_escapes = Option.get_or (lex_loop backslash_escapes (length sql) [] sql) []
