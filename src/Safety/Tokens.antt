-- ===== src/Safety/Tokens.antt =====
-- `_CODE_TOKEN`, `_code_tokens` and `_first_name` of cubrid_mcp_server/safety.py.
pub mod Upper
use cubrid_mcp_server.Common.{
  ℕ, Bool, true, false, not, ◌&&◌, ◌||◌, ◌==◌, if◌then◌else◌, List, [], ◌∷◌, ◌++◌, map, Option,
  none, some,
}
use cubrid_mcp_server.Common.Text.{Text}
use cubrid_mcp_server.Common.Unicode.{Unicode, upper}
use cubrid_mcp_server.Common.Result.{Result, ok, err}
use cubrid_mcp_server.Safety.Errors.{UnsafeSqlError, index_error}
use cubrid_mcp_server.Safety.Lex.{Kind, Segment, lex_sql}

pub data TokenKind : Type 0 where
  name literal punctuation : TokenKind

-- `punctuation` is the source's `"code"`: a number, or one other character.
pub record CodeToken : Type 0 where
  pub kind : TokenKind
  pub value : Text

-- The match of `(?:[^\W\d]|#)[\w#]*|\d+|[^\w\s]` that is being read.
pub data Match : Type 0 where
  outside : Match
  in_name : Text → Match
  in_number : Text → Match

abbrev name_start : Unicode → ℕ → Bool
name_start u c = (u.is_word c && not (u.is_digit c)) || c == b'#'

abbrev name_part : Unicode → ℕ → Bool
name_part u c = u.is_word c || c == b'#'

-- At a character that starts a match: the matches that are complete, and the one being read.
abbrev begin : Unicode → ℕ → List Text × Match
begin u c =
    if name_start u c
    then ([], in_name (c ∷ []))
    else if u.is_digit c
    then ([], in_number (c ∷ []))
    else if not (u.is_word c) && not (u.is_space c)
    then ((c ∷ []) ∷ [], outside)
    else ([], outside)

abbrev after : Text → List Text × Match → List Text × Match
after t (out, m) = (t ∷ out, m)

unfoldable pub feed : Unicode → Match → ℕ → List Text × Match
feed u outside c = begin u c
feed u (in_name t) c = if name_part u c then ([], in_name (t ++ c ∷ [])) else after t (begin u c)
feed u (in_number t) c = if u.is_digit c then ([], in_number (t ++ c ∷ [])) else after t (begin u c)

-- `_CODE_TOKEN.finditer(text)`
unfoldable pub find_tokens : Unicode → Match → Text → List Text
unfolding feed
find_tokens u outside [] = []
find_tokens u (in_name t) [] = t ∷ []
find_tokens u (in_number t) [] = t ∷ []
find_tokens u m (c ∷ s) = let (out, m') = feed u m c in out ++ find_tokens u m' s

-- `value[0].isalpha() or value[0] in "_#"`
abbrev names_something : Unicode → Text → Bool
names_something u [] = false
names_something u (c ∷ s) = u.is_alpha c || c == b'_' || c == b'#'

unfoldable pub code_token : Unicode → Text → CodeToken
code_token u text =
    let value = upper u text in
    record { kind = if names_something u value then name else punctuation; value = value }

-- `text[1:-1]`
unfoldable pub drop_last : Text → Text
drop_last [] = []
drop_last (c ∷ []) = []
drop_last (c ∷ d ∷ s) = c ∷ drop_last (d ∷ s)

-- `inner.replace(quote * 2, quote)`
unfoldable pub undouble : ℕ → Text → Text
undouble q [] = []
undouble q (c ∷ []) = c ∷ []
undouble q (c ∷ d ∷ s) =
    let two = q ∷ undouble q s in
    let one = c ∷ undouble q (d ∷ s) in if c == q && d == q then two else one

unfoldable pub quoted_token : Unicode → Text → CodeToken
unfolding drop_last undouble
quoted_token u [] = record { kind = literal; value = [] }
quoted_token u (c ∷ s) =
    if c == b'\''
    then record { kind = literal; value = [] }
    else if c == b'['
    then record { kind = name; value = upper u (drop_last s) }
    else record { kind = name; value = upper u (undouble c (drop_last s)) }

unfoldable pub segment_tokens : Unicode → Kind → Text → List CodeToken
unfolding find_tokens code_token quoted_token
segment_tokens u Kind.comment text = []
segment_tokens u Kind.code text = map (code_token u) (find_tokens u outside text)
segment_tokens u Kind.quoted text = quoted_token u text ∷ []
segment_tokens u Kind.unterminated text = quoted_token u text ∷ []

unfoldable pub tokens_of : Unicode → List Segment → List CodeToken
unfolding segment_tokens
tokens_of u [] = []
tokens_of u (g ∷ gs) = segment_tokens u g.kind g.text ++ tokens_of u gs

unfoldable pub code_tokens : Unicode → Text → List CodeToken
code_tokens u sql = tokens_of u (lex_sql sql false)

abbrev pub is_name : TokenKind → Bool
is_name name = true
is_name _ = false

-- `_code_tokens(sql)[0]` raises `IndexError` on an input with no token.
abbrev pub name_of_first : List CodeToken → Result UnsafeSqlError (Option Text)
name_of_first [] = err index_error
name_of_first (t ∷ ts) = ok (if is_name t.kind then some t.value else none)

unfoldable pub first_name : Unicode → Text → Result UnsafeSqlError (Option Text)
first_name u sql = name_of_first (code_tokens u sql)
