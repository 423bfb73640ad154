-- ===== src/Safety/SideEffect.antt =====
-- `SIDE_EFFECT_NAMES`, `CLICK_COUNTER_NAMES` and `_side_effect` of cubrid_mcp_server/safety.py.
pub mod Patterns
use cubrid_mcp_server.Common.{
  ℕ, ◌≡◌, refl, Bool, true, false, not, ◌&&◌, ◌||◌, ◌==◌, if◌then◌else◌, List, [], ◌∷◌, ◌++◌,
  Option, none, some, head?,
}
use cubrid_mcp_server.Common.Text.{Text, codes, text_eq, is_in}
use cubrid_mcp_server.Common.Unicode.{Unicode}
use cubrid_mcp_server.Safety.Tokens.{
  CodeToken, TokenKind, name, literal, punctuation, is_name, code_tokens,
}

unfoldable pub side_effect_names : List Text
side_effect_names =
    codes "INCR"
    ∷ codes "DECR"
    ∷ codes "NEXT_VALUE"
    ∷ codes "NEXTVAL"
    ∷ codes "SERIAL_NEXT_VALUE"
    ∷ []

unfoldable pub click_counter_names : List Text
click_counter_names = codes "INCREMENT" ∷ codes "DECREMENT" ∷ []

abbrev pub is_punctuation : TokenKind → Bool
is_punctuation punctuation = true
is_punctuation _ = false

-- `token == ("code", mark)`, where a missing neighbour is `("", "")`
unfoldable pub is_mark : Text → Option CodeToken → Bool
is_mark mark none = false
is_mark mark (some t) = is_punctuation t.kind && text_eq t.value mark

-- `token[1] == word`
unfoldable pub is_word : Text → Option CodeToken → Bool
is_word word none = false
is_word word (some t) = text_eq t.value word

-- The `for` body at one token, with its neighbours: `none` goes on.
unfoldable pub effect_at : Option CodeToken → CodeToken → Option CodeToken → Option Text
effect_at before t after =
    if not (is_name t.kind)
    then none
    else if is_in t.value side_effect_names
        && (is_mark (codes "(") after || is_mark (codes ".") before)
    then some t.value
    else if is_in t.value click_counter_names
        && (is_word (codes "WITH") before && is_word (codes "FOR") after)
    then some (codes "WITH " ++ (t.value ++ codes " FOR"))
    else none

unfoldable pub first_effect : Option CodeToken → List CodeToken → Option Text
first_effect before [] = none
first_effect before (t ∷ ts) =
    let later = first_effect (some t) ts in
    elim (effect_at before t (head? ts)) [ none ↦ later | some e ↦ some e ]

unfoldable pub side_effect : Unicode → Text → Option Text
side_effect u sql = first_effect none (code_tokens u sql)
