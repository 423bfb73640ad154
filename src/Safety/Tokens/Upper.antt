-- ===== src/Safety/Tokens/Upper.antt =====
-- Every token of `_code_tokens` is in upper case.
use cubrid_mcp_server.Common.{
  ◌≡◌, refl, ◌==◌, false, List, [], ◌∷◌, map, some, All, All-append, arith, Bool-cases, inl, inr,
}
use cubrid_mcp_server.Common.Text.{Text}
use cubrid_mcp_server.Common.Unicode.{Unicode, upper, upper-upper}
use cubrid_mcp_server.Common.Result.{ok}
use cubrid_mcp_server.Safety.Lex.{Kind, Segment, lex_sql}
use cubrid_mcp_server.Safety.Tokens.{
  CodeToken, outside, code_token, drop_last, undouble, quoted_token, segment_tokens, find_tokens,
  tokens_of, code_tokens, first_name, name_of_first,
}

module _ (u : Unicode) where
  abbrev IsUpper : CodeToken → Type 0
  IsUpper t = upper u t.value ≡ t.value

  code_token-IsUpper : (t : Text) → IsUpper (code_token u t)
  unfolding code_token
  code_token-IsUpper t = upper-upper u t

  map-IsUpper : (ts : List Text) → All IsUpper (map (code_token u) ts)
  map-IsUpper [] = tt
  map-IsUpper (t ∷ ts) = (code_token-IsUpper t, map-IsUpper ts)

  quoted_token-IsUpper : (t : Text) → IsUpper (quoted_token u t)
  unfolding quoted_token
  quoted_token-IsUpper [] = unfold upper in refl
  quoted_token-IsUpper (c ∷ s) = elim (Bool-cases (c == b'\'')) [
    | inl string ↦ rw string (unfold upper in refl)
    | inr other ↦ elim (Bool-cases (c == b'[')) [
      | inl bracket ↦ rw (other, bracket) (upper-upper u (drop_last s))
      | inr quote ↦ rw (other, quote) (upper-upper u (undouble c (drop_last s)))
    ]
  ]

  segment_tokens-IsUpper : (k : Kind) (t : Text) → All IsUpper (segment_tokens u k t)
  unfolding segment_tokens
  segment_tokens-IsUpper Kind.comment t = tt
  segment_tokens-IsUpper Kind.code t = map-IsUpper (find_tokens u outside t)
  segment_tokens-IsUpper Kind.quoted t = (quoted_token-IsUpper t, tt)
  segment_tokens-IsUpper Kind.unterminated t = (quoted_token-IsUpper t, tt)

  tokens_of-IsUpper : (gs : List Segment) → All IsUpper (tokens_of u gs)
  unfolding tokens_of
  tokens_of-IsUpper [] = tt
  tokens_of-IsUpper (g ∷ gs) =
      All-append IsUpper (segment_tokens u g.kind g.text) (tokens_of u gs)
        (segment_tokens-IsUpper g.kind g.text) (tokens_of-IsUpper gs)

  first_of_upper :
      (ts : List CodeToken) (v : Text)
      → All IsUpper ts
      → name_of_first ts ≡ ok (some v)
      → upper u v ≡ v
  first_of_upper [] v all e = cc
  first_of_upper (t ∷ ts) v all e = ground (arith, all.0)

  -- The first name of an input is in upper case already.
  pub first_name-upper : (sql v : Text) → first_name u sql ≡ ok (some v) → upper u v ≡ v
  unfolding first_name code_tokens
  first_name-upper sql v e =
      first_of_upper (code_tokens u sql) v (tokens_of-IsUpper (lex_sql sql false)) e
