-- ===== src/Safety/Render.antt =====
-- `_render`, `strip_comments` and `_cubrid_statements` of cubrid_mcp_server/safety.py.
use cubrid_mcp_server.Common.{
  ◌≡◌, Bool, true, false, not, ◌&&◌, ◌==◌, ◌↔◌, if◌then◌else◌, List, [], ◌∷◌, ◌++◌, any, arith,
}
use cubrid_mcp_server.Common.Text.{Text, text_eq, text_eq_iff, replace_char, split_on}
use cubrid_mcp_server.Common.Unicode.{Unicode, strip}
use cubrid_mcp_server.Common.Result.{Result, ok, err}
use cubrid_mcp_server.Safety.Errors.{UnsafeSqlError, ambiguous_backslash, unterminated_quote}
use cubrid_mcp_server.Safety.Lex.{Kind, code, comment, quoted, unterminated, Segment, lex_sql}

-- `"[]" if text[0] == "[" else text[0] * 2`; no quoted segment is empty
abbrev empty_quote : Text → Text
empty_quote [] = []
empty_quote (c ∷ s) = if c == b'[' then b'[' ∷ b']' ∷ [] else c ∷ c ∷ []

unfoldable pub render_segment : Kind → Text → Text
render_segment comment text = b' ' ∷ []
render_segment quoted text = empty_quote text
render_segment unterminated text = empty_quote text
render_segment code text = replace_char b'#' (b' ' ∷ []) text

unfoldable pub render : List Segment → Text
render [] = []
render (g ∷ gs) = render_segment g.kind g.text ++ render gs

unfoldable pub strip_comments : Text → Text
strip_comments sql = render (lex_sql sql false)

-- `segments != lex_sql(sql, backslash_escapes=True)`
abbrev pub kind_eq : Kind → Kind → Bool
kind_eq code code = true
kind_eq comment comment = true
kind_eq quoted quoted = true
kind_eq unterminated unterminated = true
kind_eq _ _ = false

unfoldable pub segments_eq : List Segment → List Segment → Bool
segments_eq [] [] = true
segments_eq (g ∷ gs) (h ∷ hs) = kind_eq g.kind h.kind && text_eq g.text h.text && segments_eq gs hs
segments_eq _ _ = false

kind_eq_iff : (a b : Kind) → (kind_eq a b ≡ true) ↔ (a ≡ b)
kind_eq_iff a b = ground arith

pub segments_eq_iff : (gs hs : List Segment) → (segments_eq gs hs ≡ true) ↔ (gs ≡ hs)
unfolding segments_eq
segments_eq_iff (g ∷ gs) (h ∷ hs) =
    ground (arith, kind_eq_iff g.kind h.kind, text_eq_iff g.text h.text, segments_eq_iff gs hs)
segments_eq_iff _ _ = ground arith

abbrev pub is_unterminated : Segment → Bool
is_unterminated g = kind_eq g.kind unterminated

abbrev pub is_empty : Text → Bool
is_empty [] = true
is_empty (c ∷ s) = false

-- `[part for part in parts if part.strip()]`
unfoldable pub non_blank : Unicode → List Text → List Text
non_blank u [] = []
non_blank u (p ∷ ps) = (if is_empty (strip u p) then [] else p ∷ []) ++ non_blank u ps

unfoldable pub cubrid_statements : Unicode → Text → Result UnsafeSqlError (List Text)
cubrid_statements u sql =
    let segments = lex_sql sql false in
    if not (segments_eq segments (lex_sql sql true))
    then err ambiguous_backslash
    else if any is_unterminated segments
    then err unterminated_quote
    else ok (non_blank u (split_on b';' (render segments)))
