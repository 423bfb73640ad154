-- ===== src/Server/Explain/Plans.antt =====
-- What `explain_query` runs and how long its plan is.
use cubrid_mcp_server.Common.{
  ℕ, ◌-◌, ◌≤◌, ◌<◌, ◌≡◌, refl, subst, true, false, ltb, Bool-cases, inl, inr, if◌then◌else◌, Option,
  List, [], ◌∷◌, ◌++◌, length, length-append, length-take-le, arith,
}
use cubrid_mcp_server.Common.Text.{Text}
use cubrid_mcp_server.Common.Unicode.{Unicode}
use cubrid_mcp_server.Common.Result.{Result, ok, err, raise_if, bind-eq-ok, raise_if-eq-ok}
use cubrid_mcp_server.Value.{Value, Row}
use cubrid_mcp_server.Config.{Floats, Config, is_blank}
use cubrid_mcp_server.Safety.Errors.{UnsafeSqlError}
use cubrid_mcp_server.Safety.Statement.{Statement}
use cubrid_mcp_server.Safety.Checks.{statement_keyword}
use cubrid_mcp_server.Safety.Checks.ReadOnly.{IsReadOnly, ensure_read_only_iff}
use cubrid_mcp_server.Database.Exceptions.{Exc}
use cubrid_mcp_server.Database.Driver.{Driver}
use cubrid_mcp_server.Database.Statements.{traced_rows}
use cubrid_mcp_server.Server.Tools.{ToolError, empty_statement, too_long, Connection}
use cubrid_mcp_server.Server.Tools.Gates.{checked-ok}
use cubrid_mcp_server.Server.Explain.{
  Explanation, is_explainable, explainable, cut_plan, cleaned, plan_of, explain_gate, explained,
  explanation_of, explain_behind, explain_query,
}

explainable-ok :
    (r : Result UnsafeSqlError (Option Text))
    → explainable r ≡ ok tt
    → (keyword : Option Text) × (r ≡ ok keyword) × (is_explainable keyword ≡ true)
unfolding explainable
explainable-ok (err e) h = cc
explainable-ok (ok keyword) h = elim (Bool-cases (is_explainable keyword)) [
  | inl held ↦ (keyword, refl, held)
  | inr fails ↦ absurd (cc (raise_if-eq-ok _ _ h, fails))
]

length-cut_plan :
    (max_chars : ℕ) (plan : Text) → 1 ≤ max_chars → length (cut_plan max_chars plan) < max_chars
unfolding cut_plan
length-cut_plan max_chars plan h = ground (arith, length-take-le (max_chars - 1) plan)

module _ (u : Unicode) (text_or_empty : Value → Text) (lower : Text → Text)
    (digit_value : ℕ → Option ℕ) (f : Floats) (sqlparse : Text → List Statement)
    (config : Config u lower digit_value f) where
  -- What `explain_query` may run: a statement that is there, is within the limit, has `SELECT` or
  -- `WITH` in front and passes `ensure_read_only`.
  pub record MayExplain (sql : Text) : Type 0 where
    pub there : is_blank sql ≡ false
    pub short : length sql ≤ config.max_sql_length
    pub keyword : Option Text
    pub keyword_is : statement_keyword u sqlparse sql ≡ ok keyword
    pub explainable : is_explainable keyword ≡ true
    pub read_only : IsReadOnly u sqlparse sql

  explain_gate-MayExplain :
      (sql : Text)
      → explain_gate u text_or_empty lower digit_value f sqlparse config sql ≡ ok tt
      → MayExplain sql
  unfolding explain_gate
  explain_gate-MayExplain sql h =
      let (_, there, h1) = bind-eq-ok (raise_if (is_blank sql) empty_statement) _ h in
      let (_, short, h2) =
        bind-eq-ok (raise_if (ltb config.max_sql_length (length sql)) too_long) _ h1 in
      let (_, keyword, h3) = bind-eq-ok (explainable (statement_keyword u sqlparse sql)) _ h2 in
      let (word, word_is, held) = explainable-ok (statement_keyword u sqlparse sql) keyword in
      record {
        there = raise_if-eq-ok (is_blank sql) empty_statement there;
        short = ground (arith, raise_if-eq-ok _ _ short);
        keyword = word;
        keyword_is = word_is;
        explainable = held;
        read_only = (ensure_read_only_iff u sqlparse sql).0 (checked-ok _ h3);
      }

  module _ (d : Driver) (duration : ℕ) (sql : Text) where
    -- Whatever the driver does: unless the cleaned statement is there, within the limit, led by
    -- `SELECT` or `WITH` and read-only, `explain_query` leaves the database as it is: no call reaches
    -- the driver.
    pub explain_query_untouched :
        (s : Connection d.World)
        → ¬ MayExplain (cleaned u text_or_empty sql)
        → (explain_query u text_or_empty lower digit_value f sqlparse config d duration sql s).1.db
          ≡ s.db
    unfolding explain_query
    explain_query_untouched s denied =
        step
          (explain_gate u text_or_empty lower digit_value f sqlparse config
            (cleaned u text_or_empty sql))
          refl
      where
        step :
            (g : Result ToolError (Unit {0}))
            → explain_gate u text_or_empty lower digit_value f sqlparse config
                (cleaned u text_or_empty sql)
              ≡ g
            → (explain_behind u text_or_empty lower digit_value f sqlparse config d duration sql g
                s).1.db
              ≡ s.db
        step (err e) q = refl
        step (ok t) q = absurd (denied (explain_gate-MayExplain (cleaned u text_or_empty sql) q))

    -- An answer shows the whole plan in the rows of `SHOW TRACE`, or says that it is cut.
    pub record IsExplained (s : Connection d.World) (e : Explanation) : Type 0 where
      pub sql_is : e.sql ≡ cleaned u text_or_empty sql
      pub allowed : MayExplain e.sql
      pub rows : List Row
      pub traced : (traced_rows d e.sql s.db).0 ≡ ok rows
      pub cut_iff : e.truncated ≡ ltb config.max_chars (length (plan_of u text_or_empty rows))
      pub whole : e.truncated ≡ false → e.plan ≡ plan_of u text_or_empty rows
      pub short : length e.plan ≤ config.max_chars

    length-cut :
        (max_chars : ℕ) (plan : Text)
        → 1 ≤ max_chars
        → length
            (if ltb max_chars (length plan) then cut_plan max_chars plan ++ 8230 ∷ [] else plan)
          ≤ max_chars
    length-cut max_chars plan h = ground (
      arith,
      length-cut_plan max_chars plan h,
      length-append (cut_plan max_chars plan) (8230 ∷ []),
    )

    explanation-IsExplained :
        (s : Connection d.World) (e : Explanation) (r : Result Exc (List Row))
        → 1 ≤ config.max_chars
        → MayExplain (cleaned u text_or_empty sql)
        → (traced_rows d (cleaned u text_or_empty sql) s.db).0 ≡ r
        → (explanation_of u text_or_empty lower digit_value f sqlparse config
            (cleaned u text_or_empty sql)
            r).0
          ≡ ok e
        → IsExplained s e
    unfolding explanation_of explained
    explanation-IsExplained s e (err x) positive may traced h = cc
    explanation-IsExplained s e (ok rows) positive may traced h =
        subst (IsExplained s) (cc h) (record {
          sql_is = refl;
          allowed = may;
          rows = rows;
          traced = traced;
          cut_iff = refl;
          whole = λ no_cut. rw no_cut refl;
          short = length-cut config.max_chars (plan_of u text_or_empty rows) positive;
        })

    -- With a positive limit, an answer of `explain_query` has a plan within the limit, ran the
    -- cleaned statement, which is one that it may run, and shows the whole plan that the trace had
    -- unless it says that it is cut, which it says exactly when the plan is over the limit.
    pub explain_query-IsExplained :
        (s : Connection d.World) (e : Explanation)
        → 1 ≤ config.max_chars
        → (explain_query u text_or_empty lower digit_value f sqlparse config d duration sql s).0
          ≡ ok e
        → IsExplained s e
    unfolding explain_query
    explain_query-IsExplained s e positive h =
        step
          (explain_gate u text_or_empty lower digit_value f sqlparse config
            (cleaned u text_or_empty sql))
          refl h
      where
        step :
            (g : Result ToolError (Unit {0}))
            → explain_gate u text_or_empty lower digit_value f sqlparse config
                (cleaned u text_or_empty sql)
              ≡ g
            → (explain_behind u text_or_empty lower digit_value f sqlparse config d duration sql g
                s).0
              ≡ ok e
            → IsExplained s e
        step (err x) q k = cc
        step (ok t) q k =
            explanation-IsExplained s e _ positive
              (explain_gate-MayExplain (cleaned u text_or_empty sql) q) refl k
