-- ===== src/Scripts/Lines.antt =====
-- `str.splitlines` and `str.split` without arguments, as scripts/release_detect.py uses them.
use cubrid_mcp_server.Common.{
  ℕ, ◌≡◌, Bool, false, ◌&&◌, ◌||◌, leb, ◌==◌, if◌then◌else◌, Bool-cases, inl, inr, List, [], ◌∷◌,
  ◌++◌, All, All-append,
}
use cubrid_mcp_server.Common.Text.{Text, join}

-- A character that ends a line for `splitlines`
unfoldable pub is_break : ℕ → Bool
is_break c = (leb 10 c && leb c 13) || (leb 28 c && leb c 30) || c == 133 || c == 8232 || c == 8233

-- What stands between two separators, if anything does
abbrev pub flush_part : Text → List Text → List Text
flush_part [] parts = parts
flush_part (c ∷ s) parts = (c ∷ s) ∷ parts

-- The lines from here on: whether the last character was a carriage return, which a line feed does
-- not end again, and the line so far.
unfoldable pub lines_from : Bool → Text → Text → List Text
lines_from returned line [] = flush_part line []
lines_from returned line (c ∷ s) =
    let fed = lines_from false [] s in
    let ended = line ∷ lines_from (c == 13) [] s in
    let longer = lines_from false (line ++ c ∷ []) s in
    if returned && c == 10 then fed else if is_break c then ended else longer

unfoldable pub splitlines : Text → List Text
splitlines = lines_from false []

-- `s.split()`, over the class of white space
unfoldable pub words_from : (ℕ → Bool) → Text → Text → List Text
words_from space word [] = flush_part word []
words_from space word (c ∷ s) =
    let ended = flush_part word (words_from space [] s) in
    let longer = words_from space (word ++ c ∷ []) s in if space c then ended else longer

unfoldable pub split_words : (ℕ → Bool) → Text → List Text
split_words space = words_from space []

-- A text on one line
abbrev pub IsLine : Text → Type 0
IsLine = All (λ c. is_break c ≡ false)

flush_part-IsLine :
    (line : Text) (parts : List Text)
    → IsLine line
    → All IsLine parts
    → All IsLine (flush_part line parts)
flush_part-IsLine [] parts h k = k
flush_part-IsLine (c ∷ s) parts h k = (h, k)

lines_from-AreLines :
    (returned : Bool) (line s : Text) → IsLine line → All IsLine (lines_from returned line s)
unfolding lines_from
lines_from-AreLines returned line [] h = flush_part-IsLine line [] h tt
lines_from-AreLines returned line (c ∷ s) h = elim (Bool-cases (returned && c == 10)) [
  | inl fed ↦ rw fed (lines_from-AreLines false [] s tt)
  | inr other ↦ elim (Bool-cases (is_break c)) [
    | inl ends ↦ rw (other, ends) (h, lines_from-AreLines (c == 13) [] s tt)
    | inr longer ↦
        rw (other, longer)
          (lines_from-AreLines false (line ++ c ∷ []) s (All-append _ line (c ∷ []) h (longer, tt)))
  ]
]

pub splitlines-AreLines : (s : Text) → All IsLine (splitlines s)
unfolding splitlines
splitlines-AreLines s = lines_from-AreLines false [] s tt

pub join-IsLine :
    (sep : Text) (parts : List Text) → IsLine sep → All IsLine parts → IsLine (join sep parts)
unfolding join
join-IsLine sep [] h k = tt
join-IsLine sep (p ∷ []) h k = k.0
join-IsLine sep (p ∷ q ∷ ps) h k =
    All-append _ p _ k.0 (All-append _ sep _ h (join-IsLine sep (q ∷ ps) h k.1))
