-- ===== src/Safety/Checks/ReadOnly.antt =====
-- What `ensure_read_only` accepts, and what `_parse` returns.
use cubrid_mcp_server.Common.{
  ◌≤◌, ◌≡◌, refl, ◌∙◌, Bool, true, false, not, ◌↔◌, ltb, List, [], ◌∷◌, Option, none, some, length,
  any, arith,
}
use cubrid_mcp_server.Common.Text.{Text, is_in, join, split_on}
use cubrid_mcp_server.Common.Unicode.{Unicode, upper, strip}
use cubrid_mcp_server.Common.Result.{Result, ok, ◌>>=◌, ◌>>◌, raise_if, bind-eq-ok, raise_if-eq-ok}
use cubrid_mcp_server.Safety.Errors.{
  Mode, read_only_mode, UnsafeSqlError, empty_sql, multi_statement, not_permitted,
}
use cubrid_mcp_server.Safety.Lex.{lex_sql}
use cubrid_mcp_server.Safety.Render.{
  is_empty, is_unterminated, segments_eq_iff, strip_comments, non_blank, cubrid_statements,
}
use cubrid_mcp_server.Safety.Tokens.{code_tokens, first_name}
use cubrid_mcp_server.Safety.SideEffect.{side_effect}
use cubrid_mcp_server.Safety.SideEffect.Patterns.{ChangesData, side_effect-none_iff}
use cubrid_mcp_server.Safety.Statement.{
  Statement, read_only_keywords, leading_keyword, forbidden_keywords,
}
use cubrid_mcp_server.Safety.Statement.Forbidden.{NoneForbidden, forbidden_keywords-nil_iff}
use cubrid_mcp_server.Safety.Checks.{
  non_empty, only_statement, or_else, known, reject_forbidden, reject_effect, parse,
  ensure_read_only,
}

-- The statements that CUBRID sees: split at `;` outside comments and quotes, blank ones left out.
abbrev pub parts : Unicode → Text → List Text
parts u sql = non_blank u (split_on b';' (strip_comments sql))

pub cubrid_statements-ok_iff :
    (u : Unicode) (sql : Text) (ps : List Text)
    → (cubrid_statements u sql ≡ ok ps) ↔ (
        (lex_sql sql false ≡ lex_sql sql true)
        × (any is_unterminated (lex_sql sql false) ≡ false)
        × (ps ≡ parts u sql))
unfolding cubrid_statements strip_comments
cubrid_statements-ok_iff u sql ps =
    let same = segments_eq_iff (lex_sql sql false) (lex_sql sql true) in
    (λ h. ground (arith, same), λ h. rw (same.1 h.0, h.1, h.2) refl)

pub known-ok : (o : Option Text) (t : Text) → known o ≡ ok t → o ≡ some t
known-ok none t h = cc
known-ok (some k) t h = cc

only_statement-ok :
    (mode : Mode) (sts : List Statement) (st : Statement)
    → only_statement mode sts ≡ ok st
    → sts ≡ st ∷ []
only_statement-ok mode [] st h = cc
only_statement-ok mode (x ∷ []) st h = cc
only_statement-ok mode (x ∷ y ∷ sts) st h = cc

module _ (u : Unicode) (sqlparse : Text → List Statement) where
  -- The input is one statement `st` for sqlparse, with boundaries that both readings agree on.
  pub record IsOne (sql : Text) (st : Statement) : Type 0 where
    pub not_blank : is_empty (strip u sql) ≡ false
    pub agree : lex_sql sql false ≡ lex_sql sql true
    pub closed : any is_unterminated (lex_sql sql false) ≡ false
    pub one : non_empty u (sqlparse (join (b';' ∷ []) (parts u sql))) ≡ st ∷ []

  pub parse-ok :
      (sql : Text) (mode : Mode) (st : Statement) (more : Bool)
      → parse u sqlparse sql mode ≡ ok (st, more)
      → IsOne sql st × (more ≡ ltb 1 (length (parts u sql)))
  unfolding parse
  parse-ok sql mode st more h =
      let (_, blank, h1) = bind-eq-ok (raise_if (is_empty (strip u sql)) empty_sql) _ h in
      let (ps, read, h2) = bind-eq-ok (cubrid_statements u sql) _ h1 in
      let (agree, closed, same) = (cubrid_statements-ok_iff u sql ps).0 read in
      let sts = non_empty u (sqlparse (join (b';' ∷ []) ps)) in
      let (st', only, h3) =
        bind-eq-ok (only_statement mode sts) (λ x. ok (x, ltb 1 (length ps))) h2 in
      let one : sts ≡ st ∷ [] = only_statement-ok mode sts st' only ∙ cc h3 in
      (
        record {
          not_blank = raise_if-eq-ok _ empty_sql blank;
          agree = agree;
          closed = closed;
          one = rw same at one;
        },
        rw (← same) (cc h3),
      )

  pub parse-IsOne :
      (sql : Text) (mode : Mode) (st : Statement)
      → IsOne sql st
      → parse u sqlparse sql mode ≡ ok (st, ltb 1 (length (parts u sql)))
  unfolding parse
  parse-IsOne sql mode st h = rw (
    h.not_blank,
    (cubrid_statements-ok_iff u sql (parts u sql)).1 (h.agree, h.closed, refl),
    h.one,
  )

  -- What read-only mode accepts: one statement; its leading keyword, the first name or else the one
  -- that sqlparse finds, is in the whitelist; no token is a forbidden keyword; nothing that changes
  -- data inside a read.
  pub record IsReadOnly (sql : Text) : Type 0 where
    pub st : Statement
    pub is_one : IsOne sql st
    pub single : length (parts u sql) ≤ 1
    pub first : Option Text
    pub keyword : Text
    pub first_is : first_name u sql ≡ ok first
    pub keyword_is : or_else first (leading_keyword st.tokens) ≡ some keyword
    pub allowed : is_in (upper u keyword) read_only_keywords ≡ true
    pub clean : NoneForbidden u st.tokens
    pub quiet : ¬ ChangesData (code_tokens u sql)

  -- The tests behind the keyword, each on its own value.
  gates-ok :
      (allowed : Bool) (found : List Text) (effect : Option Text) (more : Bool) (e : UnsafeSqlError)
      → (raise_if (not allowed) e
          >> (reject_forbidden found
              >> (reject_effect read_only_mode effect
                  >> raise_if more (multi_statement read_only_mode))))
        ≡ ok tt
      → (allowed ≡ true) × (found ≡ []) × (effect ≡ none) × (more ≡ false)
  gates-ok true [] none false e h = (refl, refl, refl, refl)
  gates-ok _ _ _ _ e h = cc

  abbrev after_keyword : Text → Statement → Bool → Text → Result UnsafeSqlError (Unit {0})
  after_keyword sql st more keyword =
      raise_if (not (is_in (upper u keyword) read_only_keywords))
        (not_permitted (upper u keyword) read_only_mode)
      >> (reject_forbidden (forbidden_keywords u st.tokens)
          >> (reject_effect read_only_mode (side_effect u sql)
              >> raise_if more (multi_statement read_only_mode)))

  after_first :
      (sql : Text) (st : Statement) (more : Bool) (first : Option Text)
      → IsOne sql st × (more ≡ ltb 1 (length (parts u sql)))
      → first_name u sql ≡ ok first
      → (known (or_else first (leading_keyword st.tokens)) >>= after_keyword sql st more) ≡ ok tt
      → IsReadOnly sql
  after_first sql st more first one named h =
      let (keyword, k, h1) = bind-eq-ok (known (or_else first (leading_keyword st.tokens))) _ h in
      let (allowed, clean, quiet, single) = gates-ok _ _ _ more _ h1 in
      record {
        st = st;
        is_one = one.0;
        single = ground (arith, single, one.1);
        first = first;
        keyword = keyword;
        first_is = named;
        keyword_is = known-ok _ keyword k;
        allowed = allowed;
        clean = (forbidden_keywords-nil_iff u st.tokens).0 clean;
        quiet = (side_effect-none_iff u sql).0 quiet;
      }

  after_parse :
      (sql : Text) (st : Statement) (more : Bool)
      → IsOne sql st × (more ≡ ltb 1 (length (parts u sql)))
      → (first_name u sql >>= λ first.
          known (or_else first (leading_keyword st.tokens)) >>= after_keyword sql st more)
        ≡ ok tt
      → IsReadOnly sql
  after_parse sql st more one h =
      let (first, named, h1) = bind-eq-ok (first_name u sql) _ h in
      after_first sql st more first one named h1

  ensure_read_only-IsReadOnly :
      (sql : Text) → ensure_read_only u sqlparse sql ≡ ok tt → IsReadOnly sql
  unfolding ensure_read_only
  ensure_read_only-IsReadOnly sql h =
      let (r, parsed, h1) = bind-eq-ok (parse u sqlparse sql read_only_mode) _ h in
      after_parse sql r.0 r.1 (parse-ok sql read_only_mode r.0 r.1 parsed) h1

  IsReadOnly-ensure_read_only :
      (sql : Text) → IsReadOnly sql → ensure_read_only u sqlparse sql ≡ ok tt
  unfolding ensure_read_only
  IsReadOnly-ensure_read_only sql r =
      rw
        (
          parse-IsOne sql read_only_mode r.st r.is_one,
          r.first_is,
          r.keyword_is,
          r.allowed,
          (forbidden_keywords-nil_iff u r.st.tokens).1 r.clean,
          (side_effect-none_iff u sql).1 r.quiet,
        )
        (let e : ltb 1 (length (parts u sql)) ≡ false = ground (arith, r.single) in rw e)

  -- `ensure_read_only` accepts an input exactly when it is not blank, both readings of a backslash
  -- split it alike and close every quote, sqlparse finds one statement in it and CUBRID at most one,
  -- its leading keyword (the first name, or else sqlparse's) is on the whitelist, no keyword token at
  -- any depth is forbidden, and it calls, advances or increments nothing inside a read.
  pub ensure_read_only_iff :
      (sql : Text) → (ensure_read_only u sqlparse sql ≡ ok tt) ↔ IsReadOnly sql
  ensure_read_only_iff sql = (ensure_read_only-IsReadOnly sql, IsReadOnly-ensure_read_only sql)
