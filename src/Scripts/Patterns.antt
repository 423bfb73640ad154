-- ===== src/Scripts/Patterns.antt =====
-- The regular expressions that scripts/ share: a version, and the dated header of a section.
use cubrid_mcp_server.Common.{
  ℕ, zero, suc, Bool, true, false, ◌&&◌, ◌||◌, ◌==◌, if◌then◌else◌, Option, none, some, [], ◌∷◌,
  ◌++◌,
}
use cubrid_mcp_server.Common.Text.{Text, codes}
use cubrid_mcp_server.Common.Unicode.{Unicode, digit_ascii}

-- What is left behind a text in front
unfoldable pub strip_prefix : Text → Text → Option Text
strip_prefix [] s = some s
strip_prefix (c ∷ p) [] = none
strip_prefix (c ∷ p) (x ∷ s) = if c == x then strip_prefix p s else none

-- What is left behind `n` digits in front
unfoldable pub strip_digits : ℕ → Text → Option Text
strip_digits zero s = some s
strip_digits (suc n) [] = none
strip_digits (suc n) (c ∷ s) = if digit_ascii c then strip_digits n s else none

infixl 5 ◌>>=◌
abbrev pub ◌>>=◌ : {A B : Type 0} → Option A → (A → Option B) → Option B
none >>= f = none
some a >>= f = f a

-- `$` without MULTILINE: the end, or the line feed that ends the text
abbrev pub at_text_end : Text → Bool
at_text_end [] = true
at_text_end (c ∷ []) = c == 10
at_text_end _ = false

-- `[0-9]+` and then `rest`; a digit more can only be a digit, so the first run is the match.
unfoldable pub digits_then : (Text → Bool) → Text → Bool
digits_then rest [] = false
digits_then rest (c ∷ s) = let more = digits_then rest s in digit_ascii c && (more || rest s)

unfoldable pub dot_then : (Text → Bool) → Text → Bool
dot_then rest [] = false
dot_then rest (c ∷ s) = c == b'.' && rest s

-- `^[0-9]+\.[0-9]+\.[0-9]+$`
unfoldable pub is_version : Text → Bool
is_version = digits_then (dot_then (digits_then (dot_then (digits_then at_text_end))))

module _ (u : Unicode) where
  -- `\s*$` with MULTILINE: white space up to the end of the line
  unfoldable pub blank_line : Text → Bool
  blank_line [] = true
  blank_line (c ∷ s) = c == 10 || (u.is_space c && blank_line s)

  unfoldable pub blank_rest : Option Text → Bool
  blank_rest none = false
  blank_rest (some s) = blank_line s

  -- `## \[version\] - [0-9]{4}-[0-9]{2}-[0-9]{2}\s*$` at the head of the text
  unfoldable pub header_at : Text → Text → Bool
  header_at version s = blank_rest (do
    s1 ← strip_prefix (codes "## [" ++ (version ++ codes "] - ")) s
    s2 ← strip_digits 4 s1
    s3 ← strip_prefix (codes "-") s2
    s4 ← strip_digits 2 s3
    s5 ← strip_prefix (codes "-") s4
    strip_digits 2 s5)

-- `^` with MULTILINE: at the head of the text, or behind a line feed
unfoldable pub behind_feeds : (Text → Bool) → Text → Bool
behind_feeds p [] = false
behind_feeds p (c ∷ s) = (c == 10 && p s) || behind_feeds p s

unfoldable pub at_lines : (Text → Bool) → Text → Bool
at_lines p s = p s || behind_feeds p s
