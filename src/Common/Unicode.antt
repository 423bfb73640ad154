-- ===== src/Common/Unicode.antt =====
-- The character tables behind Python's `str` methods and `re` classes, as an interface with the
-- laws the code relies on, and the methods of `str` that read them.
use mathlib.Core.Logic.{◌≢◌, inl, inr}
use Prim.Native.Nat.{ℕ, ◌-◌, ◌<◌}
use mathlib.Core.Path.{◌≡◌, refl, sym, ◌∙◌}
use mathlib.Core.Bool.{Bool, true, false, ◌&&◌, ◌||◌}
use mathlib.Core.List.{List, [], ◌∷◌, ◌++◌, append_assoc}
use native.Mathlib.Omega.{arith}
use cubrid_mcp_server.Common.Tests.{leb, ◌==◌, if◌then◌else◌, Bool-cases, or_false}
use cubrid_mcp_server.Common.Lists.{any, All}
use cubrid_mcp_server.Common.Text.{Text, lstrip, rstrip}

-- The tables in the ASCII range.
abbrev pub upper_ascii : ℕ → Text
upper_ascii c = (if leb b'a' c && leb c b'z' then c - 32 else c) ∷ []

abbrev pub digit_ascii : ℕ → Bool
digit_ascii c = leb b'0' c && leb c b'9'

abbrev pub alpha_ascii : ℕ → Bool
alpha_ascii c = (leb b'A' c && leb c b'Z') || (leb b'a' c && leb c b'z')

abbrev pub word_ascii : ℕ → Bool
word_ascii c = alpha_ascii c || digit_ascii c || c == b'_'

abbrev pub space_ascii : ℕ → Bool
space_ascii c = (leb 9 c && leb c 13) || (leb 28 c && leb c 32)

abbrev pub each : (ℕ → Text) → Text → Text
each f [] = []
each f (c ∷ s) = f c ++ each f s

pub record Unicode : Type 0 where
  pub to_upper : ℕ → Text
  pub is_space : ℕ → Bool
  pub is_word : ℕ → Bool
  pub is_digit : ℕ → Bool
  pub is_alpha : ℕ → Bool
  pub ascii_space : (c : ℕ) → c < 128 → is_space c ≡ space_ascii c
  pub ascii_word : (c : ℕ) → c < 128 → is_word c ≡ word_ascii c
  pub space_not_word : (c : ℕ) → is_space c ≡ true → is_word c ≡ false
  pub digit_is_word : (c : ℕ) → is_digit c ≡ true → is_word c ≡ true
  pub upper_ne_nil : (c : ℕ) → to_upper c ≢ []
  pub upper_space : (c : ℕ) → is_space c ≡ true → to_upper c ≡ c ∷ []
  pub upper_not_space : (c : ℕ) → is_space c ≡ false → any is_space (to_upper c) ≡ false
  pub upper_idem : (c : ℕ) → each to_upper (to_upper c) ≡ to_upper c

module _ (u : Unicode) where
  -- `s.upper()`
  unfoldable pub upper : Text → Text
  upper = each u.to_upper

  -- `s.strip()`
  unfoldable pub strip : Text → Text
  unfolding rstrip
  strip s = rstrip u.is_space (lstrip u.is_space s)

each-append : (f : ℕ → Text) (s t : Text) → each f (s ++ t) ≡ each f s ++ each f t
each-append f [] t = refl
each-append f (c ∷ s) t = rw (each-append f s t, append_assoc)

any-append {ℓ} : {A : Type ℓ} (p : A → Bool) (s t : List A) → any p (s ++ t) ≡ (any p s || any p t)
any-append p [] t = refl
any-append p (c ∷ s) t = ground (arith, any-append p s t)

module _ (u : Unicode) where
  pub upper-upper : (s : Text) → upper u (upper u s) ≡ upper u s
  unfolding upper
  upper-upper [] = refl
  upper-upper (c ∷ s) = rw (each-append, u.upper_idem c, upper-upper s)

  -- A text with a space has one in upper case.
  pub no_space_of_upper : (s : Text) → any u.is_space (upper u s) ≡ false → any u.is_space s ≡ false
  unfolding upper
  no_space_of_upper [] h = refl
  no_space_of_upper (c ∷ s) h =
      let (head, rest) =
        or_false (any u.is_space (u.to_upper c)) (any u.is_space (upper u s))
          (sym (any-append u.is_space (u.to_upper c) (upper u s)) ∙ h) in
      elim (Bool-cases (u.is_space c)) [
        | inl space ↦ cc (rw (u.upper_space c space) at head)
        | inr other ↦ rw other (no_space_of_upper s rest)
      ]

  pub any-space_ascii : (s : Text) → All (λ c. c < 128) s → any u.is_space s ≡ any space_ascii s
  any-space_ascii [] h = refl
  any-space_ascii (c ∷ s) h = rw (u.ascii_space c h.0, any-space_ascii s h.1)

-- Only ASCII letters, digits and spaces have a class or a case: the tables of the examples.
pub upper_ascii_idem : (c : ℕ) → each upper_ascii (upper_ascii c) ≡ upper_ascii c
upper_ascii_idem c = ground arith

pub space_not_word_ascii : (c : ℕ) → space_ascii c ≡ true → word_ascii c ≡ false
space_not_word_ascii c = ground arith

pub digit_is_word_ascii : (c : ℕ) → digit_ascii c ≡ true → word_ascii c ≡ true
digit_is_word_ascii c = ground arith

pub upper_ascii-ne-nil : (c : ℕ) → upper_ascii c ≢ []
upper_ascii-ne-nil c = ground arith

pub upper_ascii_space : (c : ℕ) → space_ascii c ≡ true → upper_ascii c ≡ c ∷ []
upper_ascii_space c = ground arith

pub upper_ascii_not_space :
    (c : ℕ) → space_ascii c ≡ false → any space_ascii (upper_ascii c) ≡ false
upper_ascii_not_space c = ground arith

abbrev pub ascii : Unicode
ascii = record {
  to_upper = upper_ascii;
  is_space = space_ascii;
  is_word = word_ascii;
  is_digit = digit_ascii;
  is_alpha = alpha_ascii;
  ascii_space = λ c h. refl;
  ascii_word = λ c h. refl;
  space_not_word = space_not_word_ascii;
  digit_is_word = digit_is_word_ascii;
  upper_ne_nil = upper_ascii-ne-nil;
  upper_space = upper_ascii_space;
  upper_not_space = upper_ascii_not_space;
  upper_idem = upper_ascii_idem;
}
