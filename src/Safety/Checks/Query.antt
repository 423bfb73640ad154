-- ===== src/Safety/Checks/Query.antt =====
-- What `ensure_query_statement` accepts.
use cubrid_mcp_server.Common.{
  ◌≤◌, ◌≡◌, refl, Bool, true, false, ◌↔◌, ltb, List, Option, none, some, length, arith, Bool-cases,
  inl, inr,
}
use cubrid_mcp_server.Common.Text.{Text, is_in}
use cubrid_mcp_server.Common.Unicode.{Unicode}
use cubrid_mcp_server.Common.Result.{Result, ok, ◌>>=◌, ◌>>◌, raise_if, bind-eq-ok, raise_if-eq-ok}
use cubrid_mcp_server.Safety.Errors.{Mode, execute_query_mode, UnsafeSqlError, multi_statement}
use cubrid_mcp_server.Safety.Tokens.{code_tokens, first_name}
use cubrid_mcp_server.Safety.SideEffect.{side_effect}
use cubrid_mcp_server.Safety.SideEffect.Patterns.{ChangesData, side_effect-none_iff}
use cubrid_mcp_server.Safety.Statement.{Statement, query_rejected_keywords, leading_keyword}
use cubrid_mcp_server.Safety.Checks.{
  reject_effect, reject_word, leading_word, parse, ensure_query_statement,
}
use cubrid_mcp_server.Safety.Checks.ReadOnly.{parts, IsOne, parse-ok, parse-IsOne}

-- A word is there and is rejected.
abbrev pub IsRejected : Option Text → Type 0
IsRejected none = ⊥
IsRejected (some w) = is_in w query_rejected_keywords ≡ true

module _ (u : Unicode) (sqlparse : Text → List Statement) where
  -- What `execute_query` accepts without the whitelist: one statement; neither its first name nor the
  -- first word of the keyword that sqlparse finds is rejected; nothing that changes data inside a read.
  pub record IsQuery (sql : Text) : Type 0 where
    pub st : Statement
    pub is_one : IsOne u sqlparse sql st
    pub single : length (parts u sql) ≤ 1
    pub word : Option Text
    pub first : Option Text
    pub word_is : leading_word u (leading_keyword st.tokens) ≡ ok word
    pub first_is : first_name u sql ≡ ok first
    pub first_passes : ¬ IsRejected first
    pub word_passes : ¬ IsRejected word
    pub quiet : ¬ ChangesData (code_tokens u sql)

  reject_word-ok : (w : Option Text) → reject_word w ≡ ok tt → ¬ IsRejected w
  unfolding reject_word
  reject_word-ok none h r = r
  reject_word-ok (some w) h r = cc (raise_if-eq-ok _ _ h)

  not_rejected : (w : Option Text) → ¬ IsRejected w → reject_word w ≡ ok tt
  unfolding reject_word
  not_rejected none h = refl
  not_rejected (some w) h = elim (Bool-cases (is_in w query_rejected_keywords)) [
    | inl yes' ↦ absurd (h yes')
    | inr no' ↦ rw no'
  ]

  reject_effect-ok : (m : Mode) (e : Option Text) → reject_effect m e ≡ ok tt → e ≡ none
  reject_effect-ok m none h = refl
  reject_effect-ok m (some e) h = cc

  abbrev after_first : Text → Bool → Option Text → Option Text → Result UnsafeSqlError (Unit {0})
  after_first sql more word first =
      reject_word first
      >> (reject_word word
          >> (reject_effect execute_query_mode (side_effect u sql)
              >> raise_if more (multi_statement execute_query_mode)))

  gates-ok :
      (sql : Text) (more : Bool) (word first : Option Text)
      → after_first sql more word first ≡ ok tt
      → (¬ IsRejected first) × (¬ IsRejected word) × (side_effect u sql ≡ none) × (more ≡ false)
  gates-ok sql more word first h =
      let (_, a, h1) = bind-eq-ok (reject_word first) _ h in
      let (_, b, h2) = bind-eq-ok (reject_word word) _ h1 in
      let (_, c, h3) = bind-eq-ok (reject_effect execute_query_mode (side_effect u sql)) _ h2 in
      (
        reject_word-ok first a,
        reject_word-ok word b,
        reject_effect-ok _ _ c,
        raise_if-eq-ok more _ h3,
      )

  after_parse :
      (sql : Text) (st : Statement) (more : Bool)
      → IsOne u sqlparse sql st × (more ≡ ltb 1 (length (parts u sql)))
      → (leading_word u (leading_keyword st.tokens) >>= λ word.
          first_name u sql >>= after_first sql more word)
        ≡ ok tt
      → IsQuery sql
  after_parse sql st more one h =
      let (word, lead, h1) = bind-eq-ok (leading_word u (leading_keyword st.tokens)) _ h in
      let (first, named, h2) = bind-eq-ok (first_name u sql) (after_first sql more word) h1 in
      let (a, b, c, single) = gates-ok sql more word first h2 in
      record {
        st = st;
        is_one = one.0;
        single = ground (arith, single, one.1);
        word = word;
        first = first;
        word_is = lead;
        first_is = named;
        first_passes = a;
        word_passes = b;
        quiet = (side_effect-none_iff u sql).0 c;
      }

  ensure_query_statement-IsQuery :
      (sql : Text) → ensure_query_statement u sqlparse sql ≡ ok tt → IsQuery sql
  unfolding ensure_query_statement
  ensure_query_statement-IsQuery sql h =
      let (r, parsed, h1) = bind-eq-ok (parse u sqlparse sql execute_query_mode) _ h in
      after_parse sql r.0 r.1 (parse-ok u sqlparse sql execute_query_mode r.0 r.1 parsed) h1

  IsQuery-ensure_query_statement :
      (sql : Text) → IsQuery sql → ensure_query_statement u sqlparse sql ≡ ok tt
  unfolding ensure_query_statement
  IsQuery-ensure_query_statement sql r =
      rw
        (
          parse-IsOne u sqlparse sql execute_query_mode r.st r.is_one,
          r.word_is,
          r.first_is,
          not_rejected r.first r.first_passes,
          not_rejected r.word r.word_passes,
          (side_effect-none_iff u sql).1 r.quiet,
        )
        (let e : ltb 1 (length (parts u sql)) ≡ false = ground (arith, r.single) in rw e)

  -- `ensure_query_statement` accepts an input exactly when it is not blank, both readings of a
  -- backslash split it alike and close every quote, sqlparse finds one statement in it and CUBRID at
  -- most one, its first token exists, neither the first name nor the first word of sqlparse's leading
  -- keyword is a rejected keyword, and it calls, advances or increments nothing inside a read.
  pub ensure_query_statement_iff :
      (sql : Text) → (ensure_query_statement u sqlparse sql ≡ ok tt) ↔ IsQuery sql
  ensure_query_statement_iff sql =
      (ensure_query_statement-IsQuery sql, IsQuery-ensure_query_statement sql)
