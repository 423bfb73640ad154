-- ===== src/Safety/Statement/Forbidden.antt =====
-- `_forbidden_keywords` looks at every token of the tree.
use cubrid_mcp_server.Common.{◌≡◌, refl, Bool, true, false, ◌↔◌, List, [], ◌∷◌, ◌++◌, arith}
use cubrid_mcp_server.Common.Text.{Text, is_in}
use cubrid_mcp_server.Common.Unicode.{Unicode, upper}
use cubrid_mcp_server.Safety.Statement.{
  ParsedTokens, end, leaf, group, forbidden, forbidden_keywords,
}

-- A keyword token with the text `k` stands in the tree, at any depth.
pub data HasKeyword (k : Text) : ParsedTokens → Type 0 where
  here : {w : Bool} {rest : ParsedTokens} → HasKeyword k (leaf true w k rest)
  later :
      {b w : Bool} {v : Text} {rest : ParsedTokens}
      → HasKeyword k rest
      → HasKeyword k (leaf b w v rest)
  below : {ts rest : ParsedTokens} → HasKeyword k ts → HasKeyword k (group ts rest)
  beside : {ts rest : ParsedTokens} → HasKeyword k rest → HasKeyword k (group ts rest)

append-eq-nil {ℓ} : {A : Type ℓ} (xs ys : List A) → xs ++ ys ≡ [] → (xs ≡ []) × (ys ≡ [])
append-eq-nil [] ys e = (refl, e)
append-eq-nil (x ∷ xs) ys e = cc

module _ (u : Unicode) where
  abbrev pub NoneForbidden : ParsedTokens → Type 0
  NoneForbidden ts = (k : Text) → HasKeyword k ts → is_in (upper u k) forbidden ≡ false

  not_forbidden :
      (k : Text) {ts : ParsedTokens}
      → HasKeyword k ts
      → forbidden_keywords u ts ≡ []
      → is_in (upper u k) forbidden ≡ false
  unfolding forbidden_keywords
  not_forbidden k (here {w} {rest}) e = ground arith
  not_forbidden k (later {b} {w} {v} {rest} h) e = not_forbidden k h (append-eq-nil _ _ e).1
  not_forbidden k (below {ts} {rest} h) e = not_forbidden k h (append-eq-nil _ _ e).0
  not_forbidden k (beside {ts} {rest} h) e = not_forbidden k h (append-eq-nil _ _ e).1

  none_found : (ts : ParsedTokens) → NoneForbidden ts → forbidden_keywords u ts ≡ []
  unfolding forbidden_keywords
  none_found end h = refl
  none_found (leaf true w v rest) h = rw (h v here) (none_found rest (λ k i. h k (later i)))
  none_found (leaf false w v rest) h = none_found rest (λ k i. h k (later i))
  none_found (group ts rest) h =
      rw (none_found ts (λ k i. h k (below i)), none_found rest (λ k i. h k (beside i)))

  -- `_forbidden_keywords` finds nothing exactly when no keyword token at any depth is forbidden, in
  -- any case of its letters.
  pub forbidden_keywords-nil_iff :
      (ts : ParsedTokens) → (forbidden_keywords u ts ≡ []) ↔ NoneForbidden ts
  forbidden_keywords-nil_iff ts = (λ e k h. not_forbidden k h e, none_found ts)
