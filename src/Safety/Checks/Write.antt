-- ===== src/Safety/Checks/Write.antt =====
-- What `ensure_write_allowed` accepts.
use cubrid_mcp_server.Common.{
  ◌≤◌, ◌≡◌, refl, Bool, true, false, not, ◌↔◌, ltb, List, Option, some, length, arith,
}
use cubrid_mcp_server.Common.Text.{Text, is_in}
use cubrid_mcp_server.Common.Unicode.{Unicode, upper}
use cubrid_mcp_server.Common.Result.{Result, ok, ◌>>=◌, ◌>>◌, raise_if, bind-eq-ok}
use cubrid_mcp_server.Safety.Errors.{write_mode, UnsafeSqlError, multi_statement, not_permitted}
use cubrid_mcp_server.Safety.Tokens.{first_name}
use cubrid_mcp_server.Safety.Statement.{Statement, write_keywords, leading_keyword}
use cubrid_mcp_server.Safety.Checks.{or_else, known, parse, ensure_write_allowed}
use cubrid_mcp_server.Safety.Checks.ReadOnly.{parts, IsOne, parse-ok, parse-IsOne, known-ok}

module _ (u : Unicode) (sqlparse : Text → List Statement) where
  -- What write mode accepts: one statement whose leading keyword, the first name or else the one that
  -- sqlparse finds, is in the whitelist for writes.
  pub record IsWrite (sql : Text) : Type 0 where
    pub st : Statement
    pub is_one : IsOne u sqlparse sql st
    pub single : length (parts u sql) ≤ 1
    pub first : Option Text
    pub keyword : Text
    pub first_is : first_name u sql ≡ ok first
    pub keyword_is : or_else first (leading_keyword st.tokens) ≡ some keyword
    pub allowed : is_in (upper u keyword) write_keywords ≡ true

  gates-ok :
      (allowed more : Bool) (e : UnsafeSqlError)
      → (raise_if (not allowed) e >> raise_if more (multi_statement write_mode)) ≡ ok tt
      → (allowed ≡ true) × (more ≡ false)
  gates-ok true false e h = (refl, refl)
  gates-ok _ _ e h = cc

  abbrev after_keyword : Bool → Text → Result UnsafeSqlError (Unit {0})
  after_keyword more keyword =
      raise_if (not (is_in (upper u keyword) write_keywords))
        (not_permitted (upper u keyword) write_mode)
      >> raise_if more (multi_statement write_mode)

  after_first :
      (sql : Text) (st : Statement) (more : Bool) (first : Option Text)
      → IsOne u sqlparse sql st × (more ≡ ltb 1 (length (parts u sql)))
      → first_name u sql ≡ ok first
      → (known (or_else first (leading_keyword st.tokens)) >>= after_keyword more) ≡ ok tt
      → IsWrite sql
  after_first sql st more first one named h =
      let (keyword, k, h1) = bind-eq-ok (known (or_else first (leading_keyword st.tokens))) _ h in
      let (allowed, single) = gates-ok _ more _ h1 in
      record {
        st = st;
        is_one = one.0;
        single = ground (arith, single, one.1);
        first = first;
        keyword = keyword;
        first_is = named;
        keyword_is = known-ok _ keyword k;
        allowed = allowed;
      }

  after_parse :
      (sql : Text) (st : Statement) (more : Bool)
      → IsOne u sqlparse sql st × (more ≡ ltb 1 (length (parts u sql)))
      → (first_name u sql >>= λ first.
          known (or_else first (leading_keyword st.tokens)) >>= after_keyword more)
        ≡ ok tt
      → IsWrite sql
  after_parse sql st more one h =
      let (first, named, h1) = bind-eq-ok (first_name u sql) _ h in
      after_first sql st more first one named h1

  ensure_write_allowed-IsWrite :
      (sql : Text) → ensure_write_allowed u sqlparse sql ≡ ok tt → IsWrite sql
  unfolding ensure_write_allowed
  ensure_write_allowed-IsWrite sql h =
      let (r, parsed, h1) = bind-eq-ok (parse u sqlparse sql write_mode) _ h in
      after_parse sql r.0 r.1 (parse-ok u sqlparse sql write_mode r.0 r.1 parsed) h1

  IsWrite-ensure_write_allowed :
      (sql : Text) → IsWrite sql → ensure_write_allowed u sqlparse sql ≡ ok tt
  unfolding ensure_write_allowed
  IsWrite-ensure_write_allowed sql r =
      rw (parse-IsOne u sqlparse sql write_mode r.st r.is_one, r.first_is, r.keyword_is, r.allowed)
        (let e : ltb 1 (length (parts u sql)) ≡ false = ground (arith, r.single) in rw e)

  -- `ensure_write_allowed` accepts an input exactly when it is not blank, both readings of a backslash
  -- split it alike and close every quote, sqlparse finds one statement in it and CUBRID at most one,
  -- and its leading keyword (the first name, or else sqlparse's) is `INSERT`, `UPDATE` or `DELETE`.
  pub ensure_write_allowed_iff :
      (sql : Text) → (ensure_write_allowed u sqlparse sql ≡ ok tt) ↔ IsWrite sql
  ensure_write_allowed_iff sql =
      (ensure_write_allowed-IsWrite sql, IsWrite-ensure_write_allowed sql)
