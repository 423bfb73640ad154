-- ===== src/Server/Counts/Entries.antt =====
-- What `table_row_counts` of cubrid_mcp_server/server.py answers.
use cubrid_mcp_server.Common.{
  ℕ, ◌≤◌, ◌<◌, ◌≡◌, refl, ap, subst, ◌∙◌, Bool, true, false, ltb, Bool-cases, inl, inr, Option,
  none, some, List, [], ◌∷◌, ◌++◌, map, length, take, arith,
}
use cubrid_mcp_server.Common.Text.{Text, codes}
use cubrid_mcp_server.Common.Unicode.{Unicode}
use cubrid_mcp_server.Common.Result.{Result, ok, err, Result-cases}
use cubrid_mcp_server.Value.{ℤ, pos, Value, Row}
use cubrid_mcp_server.Database.Exceptions.{Exc, sanitize_error}
use cubrid_mcp_server.Database.Driver.{Driver, Db, continue, continue-ok, pure}
use cubrid_mcp_server.Database.Statements.{fetch_all}
use cubrid_mcp_server.Config.Registry.{sorted}
use cubrid_mcp_server.Server.Catalog.{user_tables}
use cubrid_mcp_server.Server.Identifiers.{Table, NameError, display, match_table}
use cubrid_mcp_server.Server.Counts.{
  Entry, counted, misnamed, unknown, count_failed, TooMany, too_many, count_of, entry_of,
  fetched_entry, count_matched, count_table, count_all, targets, with_counts, counted_targets,
  Counts, qualified_name, count_known, table_row_counts,
}

module _ (u : Unicode) (lower : Text → Text) (int_of : Value → Result Text ℤ) (d : Driver)
    (limit : ℕ) (user : Text) (known : List Table) where
  -- The entry of a table for what its COUNT(*) returns or raises: the first value as a number, 0
  -- without a row, or the class of an error
  pub data IsCounted (table : Text) : Result Exc (List Row) → Entry → Type 0 where
    first_value :
        (v : Value) (vs : Row) (rows : List Row) (n : ℤ)
        → int_of v ≡ ok n
        → IsCounted table (ok ((v ∷ vs) ∷ rows)) (counted table n)
    no_row : IsCounted table (ok []) (counted table (pos 0))
    no_value :
        (rows : List Row)
        → IsCounted table (ok ([] ∷ rows)) (count_failed table (codes "IndexError"))
    not_int :
        (v : Value) (vs : Row) (rows : List Row) (e : Text)
        → int_of v ≡ err e
        → IsCounted table (ok ((v ∷ vs) ∷ rows)) (count_failed table e)
    raises : (e : Exc) → IsCounted table (err e) (count_failed table (sanitize_error e))

  abbrev pub count_sql : Table → Text
  count_sql table = codes "SELECT COUNT(*) FROM " ++ qualified_name table

  -- The entry of a name, from this state on: its error, or that of the table it stands for
  abbrev pub IsEntryOf : Db d.World → Text → Result NameError (Option Table) → Entry → Type 0
  IsEntryOf s name (err e) entry = entry ≡ misnamed name e
  IsEntryOf s name (ok none) entry = entry ≡ unknown name
  IsEntryOf s name (ok (some table)) entry =
      IsCounted (display u lower table) (fetch_all d (count_sql table) [] s).0 entry

  -- The state behind the entry
  abbrev pub behind : Db d.World → Result NameError (Option Table) → Db d.World
  behind s (ok (some table)) = (fetch_all d (count_sql table) [] s).1
  behind s (ok none) = s
  behind s (err e) = s

  -- One entry for each name, in order, each from the state that those in front leave
  abbrev pub AreEntries : Db d.World → List Text → List Entry → Type 0
  AreEntries s [] [] = Unit
  AreEntries s (name ∷ names) (entry ∷ entries) =
      IsEntryOf s name (match_table u lower user known name) entry
      × AreEntries (behind s (match_table u lower user known name)) names entries
  AreEntries s _ _ = ⊥

  count_of-IsCounted :
      (table : Text) (rows : List Row)
      → IsCounted table (ok rows) (entry_of u lower int_of table (count_of u lower int_of rows))
  unfolding count_of
  count_of-IsCounted table [] = no_row
  count_of-IsCounted table ([] ∷ rows) = no_value rows
  count_of-IsCounted table ((v ∷ vs) ∷ rows) = elim (Result-cases (int_of v)) [
    | inl (n, e) ↦ rw e (first_value v vs rows n e)
    | inr (x, e) ↦ rw e (not_int v vs rows x e)
  ]

  count_matched-IsEntryOf :
      (name : Text) (m : Result NameError (Option Table)) (s : Db d.World)
      → (e : Entry) × ((count_matched u lower int_of d limit user known name m s).0 ≡ ok e)
        × ((count_matched u lower int_of d limit user known name m s).1 ≡ behind s m)
        × IsEntryOf s name m e
  count_matched-IsEntryOf name (err e) s = (misnamed name e, refl, refl, refl)
  count_matched-IsEntryOf name (ok none) s = (unknown name, refl, refl, refl)
  count_matched-IsEntryOf name (ok (some table)) s = fetched (fetch_all d (count_sql table) [] s)
    where
      fetched :
          (x : Result Exc (List Row) × Db d.World)
          → (e : Entry) × ((fetched_entry u lower int_of d limit user known
                (display u lower table)
                x).0
              ≡ ok e)
            × ((fetched_entry u lower int_of d limit user known (display u lower table) x).1 ≡ x.1)
            × IsCounted (display u lower table) x.0 e
      fetched (ok rows, s') = (_, refl, refl, count_of-IsCounted (display u lower table) rows)
      fetched (err e, s') = (_, refl, refl, raises e)

  count_all-AreEntries :
      (names : List Text) (s : Db d.World)
      → (es : List Entry) × ((count_all u lower int_of d limit user known names s).0 ≡ ok es)
        × AreEntries s names es
  unfolding count_all count_table
  count_all-AreEntries [] s = ([], refl, tt)
  count_all-AreEntries (name ∷ names) s =
      let m = match_table u lower user known name in
      let (e, one, next, is) = count_matched-IsEntryOf name m s in
      let (es, all, are) =
        count_all-AreEntries names (count_matched u lower int_of d limit user known name m s).1 in
      (
        e ∷ es,
        ap (λ (z : Result Exc (List Entry) × Db d.World). z.0)
              (continue-ok (count_matched u lower int_of d limit user known name m s) _ one)
            ∙ ap (λ (z : Result Exc (List Entry) × Db d.World). z.0)
                (continue-ok
                  (count_all u lower int_of d limit user known names
                    (count_matched u lower int_of d limit user known name m s).1)
                  (λ entries. pure (e ∷ entries)) all),
        (is, subst (λ (s' : Db d.World). AreEntries s' names es) next are),
      )

  with_counts-ok :
      (truncated : Bool) (x : Result Exc (List Entry) × Db d.World) (es : List Entry)
      → x.0 ≡ ok es
      → (with_counts u lower int_of d limit user known truncated x).0
        ≡ ok (ok (record { tables = es; truncated = truncated; total_tables = length known }))
  with_counts-ok truncated (ok entries, s) es e =
      ap (λ l. ok (ok (record { tables = l; truncated = truncated; total_tables = length known })))
        (cc e)
  with_counts-ok truncated (err x, s) es e = cc

  abbrev all_names : List Text
  all_names = sorted (map (display u lower) known)

  -- The names to count: those that the client asks for, or all names of the tables in order, but for
  -- those past the limit
  pub data AreTargets : Option (List Text) → List Text → Bool → Type 0 where
    asked : (names : List Text) → length names ≤ limit → AreTargets (some names) names false
    all_tables : length all_names ≤ limit → AreTargets none all_names false
    first_tables : limit < length all_names → AreTargets none (take limit all_names) true

  over : (n : ℕ) → ltb limit n ≡ true → limit < n
  over n h = ground arith

  small : (n : ℕ) → ltb limit n ≡ false → n ≤ limit
  small n h = ground arith

  -- The answer for the tables that are known: more names than the limit are refused, and otherwise
  -- there is an entry for each target
  pub data AreCounts (s : Db d.World) : Option (List Text) → Result TooMany Counts → Type 0 where
    refused :
        (names : List Text)
        → limit < length names
        → AreCounts s (some names) (err (too_many (length names)))
    answered :
        (requested : Option (List Text)) (names : List Text) (truncated : Bool) (es : List Entry)
        → AreTargets requested names truncated
        → AreEntries s names es
        → AreCounts s requested
            (ok (record { tables = es; truncated = truncated; total_tables = length known }))

  -- The entries of targets, as an answer
  answer_of :
      (requested : Option (List Text)) (names : List Text) (truncated : Bool) (s : Db d.World)
      → AreTargets requested names truncated
      → (a : Result TooMany Counts) × ((counted_targets u lower int_of d limit user known
            (ok (names, truncated))
            s).0
          ≡ ok a)
        × AreCounts s requested a
  answer_of requested names truncated s within =
      let (es, all, are) = count_all-AreEntries names s in
      (
        ok (record { tables = es; truncated = truncated; total_tables = length known }),
        with_counts-ok truncated (count_all u lower int_of d limit user known names s) es all,
        answered requested names truncated es within are,
      )

  count_known-AreCounts :
      (requested : Option (List Text)) (s : Db d.World)
      → (a : Result TooMany Counts) × ((count_known u lower int_of d limit user known requested s).0
          ≡ ok a)
        × AreCounts s requested a
  unfolding count_known targets
  count_known-AreCounts (some names) s = elim (Bool-cases (ltb limit (length names))) [
    | inl many ↦
        rw many (err (too_many (length names)), refl, refused names (over (length names) many))
    | inr few ↦
        rw few (answer_of (some names) names false s (asked names (small (length names) few)))
  ]
  count_known-AreCounts none s = elim (Bool-cases (ltb limit (length all_names))) [
    | inl many ↦
        rw many (
          answer_of none (take limit all_names) true s
            (first_tables (over (length all_names) many)))
    | inr few ↦
        rw few (answer_of none all_names false s (all_tables (small (length all_names) few)))
  ]

module _ (u : Unicode) (lower : Text → Text) (int_of : Value → Result Text ℤ) (d : Driver)
    (limit : ℕ) (user : Text) where
  -- What `table_row_counts` returns or raises, behind the query for the tables
  pub data IsAnswer (requested : Option (List Text))
      : Result Exc (List Table) × Db d.World → Result Exc (Result TooMany Counts) → Type 0 where
    tables_raise : (e : Exc) (s : Db d.World) → IsAnswer requested (err e, s) (err e)
    tables_read :
        (known : List Table) (s : Db d.World) (a : Result TooMany Counts)
        → AreCounts u lower int_of d limit user known s requested a
        → IsAnswer requested (ok known, s) (ok a)

  -- Whatever the driver answers and raises: when the query for the user's tables raises,
  -- `table_row_counts` raises that. Otherwise it refuses more names than the limit, and within it
  -- returns one entry for each target in order: the error of a name that no table or several have,
  -- or, from the COUNT(*) of the table that the name stands for, run behind those in front, the first
  -- value as a number, 0 without a row, or the class of the error, so a failing table does not stop
  -- the others.
  pub table_row_counts-IsAnswer :
      (requested : Option (List Text)) (s : Db d.World)
      → IsAnswer requested
          (user_tables u lower user d s)
          (table_row_counts u lower int_of d limit user requested s).0
  unfolding table_row_counts
  table_row_counts-IsAnswer requested s = behind_tables (user_tables u lower user d s)
    where
      behind_tables :
          (x : Result Exc (List Table) × Db d.World)
          → IsAnswer requested x
              (continue x λ known. count_known u lower int_of d limit user known requested).0
      behind_tables (err e, s') = tables_raise e s'
      behind_tables (ok known, s') =
          let (a, is, are) = count_known-AreCounts u lower int_of d limit user known requested s' in
          rw is (tables_read known s' a are)
