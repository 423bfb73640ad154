-- ===== src/Audit/References.antt =====
-- `_TABLE_REF.findall` of cubrid_mcp_server/audit.py: the names after `FROM` and `JOIN`.
use cubrid_mcp_server.Common.{
  ℕ, zero, suc, ◌+◌, Bool, true, false, ◌&&◌, ◌||◌, ◌==◌, if◌then◌else◌, Option, none, some, List,
  [], ◌∷◌, ◌++◌, length,
}
use cubrid_mcp_server.Common.Text.{Text, codes, lstrip}
use cubrid_mcp_server.Common.Unicode.{Unicode, alpha_ascii, digit_ascii}

-- A capital of the pattern matches either case, and `I` the Turkish letters too.
abbrev pub same_letter : ℕ → ℕ → Bool
same_letter p c = c == p || c == p + 32 || (p == b'I' && (c == 304 || c == 305))

unfoldable pub after_word : Text → Text → Option Text
after_word [] s = some s
after_word (p ∷ ps) [] = none
after_word (p ∷ ps) (c ∷ s) = elim (same_letter p c) [ true ↦ after_word ps s | false ↦ none ]

abbrev pub or_else : Option Text → Option Text → Option Text
or_else (some s) t = some s
or_else none t = t

-- `FROM|JOIN`
unfoldable pub after_keyword : Text → Option Text
after_keyword s = or_else (after_word (codes "FROM") s) (after_word (codes "JOIN") s)

-- `\s+`
unfoldable pub after_spaces : Unicode → Text → Option Text
after_spaces u [] = none
after_spaces u (c ∷ s) = if u.is_space c then some (lstrip u.is_space s) else none

-- `[A-Za-z_]` without case, which takes four letters outside ASCII
abbrev pub name_start : ℕ → Bool
name_start c = alpha_ascii c || c == b'_' || c == 304 || c == 305 || c == 383 || c == 8490

abbrev pub name_part : ℕ → Bool
name_part c = name_start c || digit_ascii c

-- `[A-Za-z0-9_]*`, and what is behind it
unfoldable pub name_run : Text → Text × Text
name_run [] = ([], [])
name_run (c ∷ s) =
    let (more, rest) = name_run s in if name_part c then (c ∷ more, rest) else ([], c ∷ s)

abbrev pub closed_name : ℕ → Text × Text → Option (Text × Text)
closed_name c (run, []) = none
closed_name c (run, d ∷ rest) =
    if d == b'"' then some (b'"' ∷ c ∷ (run ++ b'"' ∷ []), rest) else none

abbrev pub quoted_name : Text → Option (Text × Text)
quoted_name [] = none
quoted_name (c ∷ s) = if name_start c then closed_name c (name_run s) else none

-- `_IDENTIFIER`, and what is behind it
unfoldable pub one_name : Text → Option (Text × Text)
one_name [] = none
one_name (c ∷ s) =
    if c == b'"'
    then quoted_name s
    else if name_start c
    then (let (run, rest) = name_run s in some (c ∷ run, rest))
    else none

abbrev pub dotted : Text → Text → Option (Text × Text) → Text × Text
dotted first rest none = (first, rest)
dotted first rest (some (second, later)) = (first ++ b'.' ∷ second, later)

-- `(?:\.IDENTIFIER)?`
unfoldable pub with_dot : Text → Text → Text × Text
with_dot first [] = (first, [])
with_dot first (c ∷ s) = if c == b'.' then dotted first (c ∷ s) (one_name s) else (first, c ∷ s)

abbrev pub qualified : Option (Text × Text) → Option (Text × Text)
qualified none = none
qualified (some (first, rest)) = some (with_dot first rest)

abbrev pub behind_spaces : Option Text → Option (Text × Text)
behind_spaces none = none
behind_spaces (some name) = qualified (one_name name)

abbrev pub behind_keyword : Unicode → Option Text → Option (Text × Text)
behind_keyword u none = none
behind_keyword u (some s) = behind_spaces (after_spaces u s)

-- The pattern at this place, unless it follows a character of a word: the reference, and what is
-- behind it.
unfoldable pub reference_at : Unicode → Bool → Text → Option (Text × Text)
reference_at u true s = none
reference_at u false s = behind_keyword u (after_keyword s)

-- Whether the last character is one of a word, for the `\b` of the next match.
unfoldable pub ends_in_word : Unicode → Text → Bool
ends_in_word u [] = false
ends_in_word u (c ∷ []) = u.is_word c
ends_in_word u (c ∷ d ∷ s) = ends_in_word u (d ∷ s)

-- The scan, on fuel, after a character of a word or not. Each round takes a character.
unfoldable pub scan : Unicode → ℕ → Bool → Text → List Text
scan u zero after s = []
scan u (suc fuel) after [] = []
scan u (suc fuel) after (c ∷ s) = elim (reference_at u after (c ∷ s)) [
  | none ↦ scan u fuel (u.is_word c) s
  | some r ↦ r.0 ∷ scan u fuel (ends_in_word u r.0) r.1
]

unfoldable pub table_references : Unicode → Text → List Text
table_references u s = scan u (length s) false s
