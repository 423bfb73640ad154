-- ===== src/Common/Text.antt =====
-- Python's `str` as a list of code points, with the methods that need no character table.
use Prim.Native.Char
use Prim.Native.String.{String}
use Prim.Native.Nat.{ℕ}
use mathlib.Core.Path.{◌≡◌, sym, subst}
use mathlib.Core.Logic.{◌↔◌, inl, inr}
use mathlib.Core.Bool.{Bool, true, false, ◌&&◌, ◌||◌}
use mathlib.Core.List.{List, [], ◌∷◌, ◌++◌, reverse}
use native.Mathlib.Omega.{arith}
use cubrid_mcp_server.Common.Tests.{◌==◌, if◌then◌else◌, Bool-cases}
use cubrid_mcp_server.Common.Lists.{All}

abbrev pub Text : Type 0
Text = List ℕ

abbrev pub codes : String → Text
codes String.[] = []
codes (String.◌∷◌ c s) = Char.code c ∷ codes s

unfoldable pub text_eq : Text → Text → Bool
text_eq [] [] = true
text_eq (x ∷ xs) (y ∷ ys) = x == y && text_eq xs ys
text_eq _ _ = false

pub text_eq_iff : (a b : Text) → (text_eq a b ≡ true) ↔ (a ≡ b)
unfolding text_eq
text_eq_iff (x ∷ a) (y ∷ b) = ground (arith, text_eq_iff a b)
text_eq_iff _ _ = ground arith

-- `x in frozenset`
unfoldable pub is_in : Text → List Text → Bool
unfolding text_eq
is_in x [] = false
is_in x (y ∷ ys) = text_eq x y || is_in x ys

pub is_in-All {κ} :
    (P : Text → Type κ) (x : Text) (ys : List Text) → All P ys → is_in x ys ≡ true → P x
unfolding is_in
is_in-All P x [] h m = cc
is_in-All P x (y ∷ ys) h m = elim (Bool-cases (text_eq x y)) [
  | inl same ↦ subst P (sym ((text_eq_iff x y).0 same)) h.0
  | inr other ↦ is_in-All P x ys h.1 (ground arith)
]

-- `s.replace(c, t)` for a single character `c`
unfoldable pub replace_char : ℕ → Text → Text → Text
replace_char c t [] = []
replace_char c t (x ∷ s) = (if x == c then t else x ∷ []) ++ replace_char c t s

-- `s.split(c)` for a single character `c`; the result is never empty
unfoldable pub add_first : ℕ → List Text → List Text
add_first c [] = (c ∷ []) ∷ []
add_first c (p ∷ ps) = (c ∷ p) ∷ ps

unfoldable pub split_on : ℕ → Text → List Text
unfolding add_first
split_on c [] = [] ∷ []
split_on c (x ∷ s) = let rest = split_on c s in if x == c then [] ∷ rest else add_first x rest

-- `sep.join(parts)`
unfoldable pub join : Text → List Text → Text
join sep [] = []
join sep (p ∷ []) = p
join sep (p ∷ q ∷ ps) = p ++ (sep ++ join sep (q ∷ ps))

-- `s.lstrip()` and `s.rstrip()`, over the class of characters that is cut
unfoldable pub lstrip : (ℕ → Bool) → Text → Text
lstrip p [] = []
lstrip p (c ∷ s) = let rest = lstrip p s in if p c then rest else c ∷ s

unfoldable pub rstrip : (ℕ → Bool) → Text → Text
unfolding lstrip
rstrip p s = reverse (lstrip p (reverse s))
