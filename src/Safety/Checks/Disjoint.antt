-- ===== src/Safety/Checks/Disjoint.antt =====
-- No input passes both the check for reads and the check for writes.
use mathlib.Core.Path.{subst}
use cubrid_mcp_server.Common.{
  ◌≡◌, ◌≢◌, refl, sym, ap, ◌∙◌, true, false, List, [], ◌∷◌, Option, none, some, any, arith, inl,
  inr, ◌⊎◌,
}
use cubrid_mcp_server.Common.Text.{Text, is_in, is_in-All, codes, text_eq, lstrip}
use cubrid_mcp_server.Common.Unicode.{Unicode, upper, any-space_ascii, no_space_of_upper}
use cubrid_mcp_server.Common.Result.{ok}
use cubrid_mcp_server.Safety.Tokens.Upper.{first_name-upper}
use cubrid_mcp_server.Safety.Checks.Write.{IsWrite, ensure_write_allowed_iff}
use cubrid_mcp_server.Safety.Checks.Query.{IsRejected, ensure_query_statement_iff}
use cubrid_mcp_server.Safety.Statement.{
  Statement, read_only_keywords, write_keywords, query_rejected_keywords, leading_keyword,
}
use cubrid_mcp_server.Safety.Checks.{
  or_else, leading_word, first_word, until_space, ensure_read_only, ensure_query_statement,
  ensure_write_allowed,
}
use cubrid_mcp_server.Safety.Checks.ReadOnly.{IsOne, IsReadOnly, ensure_read_only_iff}

read_keyword_not_write :
    (w : Text) → is_in w read_only_keywords ≡ true → is_in w write_keywords ≡ false
unfolding read_only_keywords write_keywords is_in
read_keyword_not_write w =
    is_in-All (λ x. is_in x write_keywords ≡ false) w read_only_keywords
      (refl, (refl, (refl, (refl, (refl, tt)))))

write_keyword_rejected :
    (w : Text) → is_in w write_keywords ≡ true → is_in w query_rejected_keywords ≡ true
unfolding write_keywords query_rejected_keywords is_in
write_keyword_rejected w =
    is_in-All (λ x. is_in x query_rejected_keywords ≡ true) w write_keywords
      (refl, (refl, (refl, tt)))

module _ (u : Unicode) where
  write_keyword_no_space : (w : Text) → is_in w write_keywords ≡ true → any u.is_space w ≡ false
  unfolding write_keywords
  write_keyword_no_space w =
      is_in-All (λ x. any u.is_space x ≡ false) w write_keywords
        (
          any-space_ascii u (codes "INSERT") (omega arith),
          (
            any-space_ascii u (codes "UPDATE") (omega arith),
            (any-space_ascii u (codes "DELETE") (omega arith), tt),
          ),
        )

  lstrip_no_space : (s : Text) → any u.is_space s ≡ false → lstrip u.is_space s ≡ s
  unfolding lstrip
  lstrip_no_space [] h = refl
  lstrip_no_space (c ∷ s) h = ground arith

  until_space_no_space : (s : Text) → any u.is_space s ≡ false → until_space u s ≡ s
  unfolding until_space
  until_space_no_space [] h = refl
  until_space_no_space (c ∷ s) h = ground (arith, until_space_no_space s)

  -- A keyword that is one of the three in upper case is one word.
  first_word_write : (k : Text) → is_in (upper u k) write_keywords ≡ true → first_word u k ≡ ok k
  unfolding first_word
  first_word_write [] h = unfold upper write_keywords is_in text_eq in cc
  first_word_write (c ∷ s) h =
      let plain = no_space_of_upper u (c ∷ s) (write_keyword_no_space (upper u (c ∷ s)) h) in
      rw (lstrip_no_space (c ∷ s) plain, until_space_no_space (c ∷ s) plain)

module _ (u : Unicode) (sqlparse : Text → List Statement) where
  one_statement :
      (sql : Text) (s t : Statement) → IsOne u sqlparse sql s → IsOne u sqlparse sql t → s ≡ t
  one_statement sql s t a b = cc (sym a.one ∙ b.one)

  same_keyword :
      (sql : Text) (a : IsReadOnly u sqlparse sql) (b : IsWrite u sqlparse sql)
      → a.keyword ≡ b.keyword
  same_keyword sql a b =
      let same : a.st ≡ b.st = one_statement sql a.st b.st a.is_one b.is_one in
      let first : a.first ≡ b.first = cc (sym a.first_is ∙ b.first_is) in
      cc (a.keyword_is, b.keyword_is, same, first)

  -- No input passes both `ensure_read_only` and `ensure_write_allowed`.
  read_only_not_write :
      (sql : Text)
      → ensure_read_only u sqlparse sql ≡ ok tt
      → ensure_write_allowed u sqlparse sql ≢ ok tt
  read_only_not_write sql r w =
      let a = (ensure_read_only_iff u sqlparse sql).0 r in
      let b = (ensure_write_allowed_iff u sqlparse sql).0 w in
      cc (read_keyword_not_write (upper u a.keyword) a.allowed, b.allowed, same_keyword sql a b)

  leading_write :
      (k : Text) (word : Option Text)
      → is_in (upper u k) write_keywords ≡ true
      → leading_word u (some k) ≡ ok word
      → IsRejected word
  unfolding leading_word
  leading_write k word h l =
      subst IsRejected {x = some (upper u k)} (cc (first_word_write u k h, l))
        (write_keyword_rejected (upper u k) h)

  -- The first name or the leading word of a write is rejected by the check for queries.
  write-IsRejected :
      (lead first word : Option Text) (keyword : Text)
      → ((v : Text) → first ≡ some v → upper u v ≡ v)
      → or_else first lead ≡ some keyword
      → leading_word u lead ≡ ok word
      → is_in (upper u keyword) write_keywords ≡ true
      → IsRejected first ⊎ IsRejected word
  unfolding leading_word
  write-IsRejected lead (some (c ∷ s)) word keyword up e l h =
      inl (write_keyword_rejected (c ∷ s) (cc (h, up (c ∷ s) refl)))
  write-IsRejected (some k) (some []) word keyword up e l h =
      inr (leading_write k word (cc (h, e)) l)
  write-IsRejected (some k) none word keyword up e l h = inr (leading_write k word (cc (h, e)) l)
  write-IsRejected none (some []) word keyword up e l h = cc
  write-IsRejected none none word keyword up e l h = cc

  -- No input passes both `ensure_query_statement` and `ensure_write_allowed`.
  query_not_write :
      (sql : Text)
      → ensure_query_statement u sqlparse sql ≡ ok tt
      → ensure_write_allowed u sqlparse sql ≢ ok tt
  query_not_write sql q w =
      let a = (ensure_query_statement_iff u sqlparse sql).0 q in
      let b = (ensure_write_allowed_iff u sqlparse sql).0 w in
      let same = one_statement sql b.st a.st b.is_one a.is_one in
      let first : b.first ≡ a.first = cc (sym b.first_is ∙ a.first_is) in
      elim (write-IsRejected (leading_keyword a.st.tokens) a.first a.word b.keyword
        (λ v e. first_name-upper u sql v (a.first_is ∙ ap ok e)) (rw (← same, ← first) b.keyword_is)
        a.word_is b.allowed) [ inl r ↦ a.first_passes r | inr r ↦ a.word_passes r ]

  -- An input that passes `ensure_write_allowed` passes neither `ensure_read_only` nor
  -- `ensure_query_statement`.
  pub write_not_read :
      (sql : Text)
      → ensure_write_allowed u sqlparse sql ≡ ok tt
      → (ensure_read_only u sqlparse sql ≢ ok tt) × (ensure_query_statement u sqlparse sql ≢ ok tt)
  write_not_read sql w = ((λ r. read_only_not_write sql r w), (λ q. query_not_write sql q w))
