-- ===== src/Database/Fetch.antt =====
-- What the loops of `fetch_many` in cubrid_mcp_server/database.py return, and that they end.
use mathlib.Core.List.{flatten}
use cubrid_mcp_server.Common.{
  ℕ, zero, suc, ◌+◌, ◌≤◌, ◌<◌, ◌≡◌, ◌≢◌, refl, sym, ◌∙◌, ap, Bool, true, ◌&&◌, false, ltb, leb,
  leb→le, if◌then◌else◌, Option, none, some, List, [], ◌∷◌, ◌++◌, length, take, length-append,
  append_assoc, append-nil, arith, Bool-cases, inl, inr,
}
use cubrid_mcp_server.Common.Text.{Text}
use cubrid_mcp_server.Common.Result.{Result, ok, err}
use cubrid_mcp_server.Value.{Row}
use cubrid_mcp_server.Database.Exceptions.{
  Exc, caused, query_timeout_error, database_error, is_timeout, is_no_result_set,
  is_server_sql_error, class_of,
}
use cubrid_mcp_server.Database.Driver.{
  Driver, Db, Action, Conn, Cursor, reading, call, continue, opening_cursor, raise, pure, executing,
  ◌>>◌,
}
use cubrid_mcp_server.Database.Session.{
  get_connection, with_cursor, cursor_failed, cursor_used, cursor_opened, raise_timeout,
  safe_close_cursor, close_opened, rollback_or_discard, discard_connection, is_open,
}
use cubrid_mcp_server.Database.Statements.{
  take_batch, Fetched, fetch_many, require_result_set, end_read_transaction, go_on, after_batch,
  read_batches,
}

-- The first `n` rows, and whether there are more.
abbrev pub cut_rows : ℕ → List Row → List Row × Bool
cut_rows n rows = (take n rows, ltb n (length rows))

take_all : (n : ℕ) (rows : List Row) → length rows ≤ n → take n rows ≡ rows
take_all zero [] h = refl
take_all zero (r ∷ rows) h = absurd (omega arith)
take_all (suc n) [] h = refl
take_all (suc n) (r ∷ rows) h = ap (◌∷◌ r) (take_all n rows (omega arith))

take-append_full : (n : ℕ) (rows later : List Row) → length rows ≡ n → take n (rows ++ later) ≡ rows
take-append_full zero [] later h = refl
take-append_full zero (r ∷ rows) later h = absurd (omega arith)
take-append_full (suc n) [] later h = absurd (omega arith)
take-append_full (suc n) (r ∷ rows) later h =
    ap (◌∷◌ r) (take-append_full n rows later (omega arith))

not_less : (n m : ℕ) → m ≤ n → ltb n m ≡ false
not_less n m h = ground arith

less_append :
    (n : ℕ) (r : Row) (batch rows : List Row)
    → n ≤ length rows
    → ltb n (length (rows ++ r ∷ batch)) ≡ true
less_append n r batch rows h = rw (length-append rows (r ∷ batch)) (ground arith)

less_add : (n m k : ℕ) → ltb n m ≡ true → ltb n (m + k) ≡ true
less_add n m k h = ground arith

at_most : (n m : ℕ) → ltb n m ≡ false → m ≤ n
at_most n m h = ground arith

grows :
    (n : ℕ) (rows : List Row) (r : Row) → leb n (length rows) ≡ false → length (rows ++ r ∷ []) ≤ n
grows n rows r h = rw (length-append rows (r ∷ [])) (ground arith)

-- A batch taken up to the limit.
pub take_batch-cut_rows :
    (n : ℕ) (batch rows : List Row)
    → length rows ≤ n
    → take_batch (some n) rows batch ≡ cut_rows n (rows ++ batch)
unfolding take_batch
take_batch-cut_rows n [] rows h = rw (append-nil, take_all n rows h, not_less n (length rows) h)
take_batch-cut_rows n (r ∷ batch) rows h = elim (Bool-cases (leb n (length rows))) [
  | inl full ↦ rw (
    full,
    take-append_full n rows (r ∷ batch) (omega (arith, leb→le n (length rows) full)),
    less_append n r batch rows (leb→le n (length rows) full),
  )
  | inr room ↦
      rw (room, take_batch-cut_rows n batch (rows ++ r ∷ []) (grows n rows r room), append_assoc)
]

take-append_le : (n : ℕ) (xs ys : List Row) → n ≤ length xs → take n (xs ++ ys) ≡ take n xs
take-append_le zero xs ys h = refl
take-append_le (suc n) [] ys h = absurd (omega arith)
take-append_le (suc n) (x ∷ xs) ys h = ap (◌∷◌ x) (take-append_le n xs ys (omega arith))

cut_rows_small : (n : ℕ) (xs : List Row) → ltb n (length xs) ≡ false → cut_rows n xs ≡ (xs, false)
cut_rows_small n xs h = rw (take_all n xs (at_most n (length xs) h), h)

cut_rows_over :
    (n : ℕ) (xs : List Row) → ltb n (length xs) ≡ true → cut_rows n xs ≡ (take n xs, true)
cut_rows_over n xs h = rw h

-- What is over the limit stays over it, and the rest makes no difference.
cut_rows-append :
    (n : ℕ) (xs ys : List Row)
    → ltb n (length xs) ≡ true
    → cut_rows n (xs ++ ys) ≡ (take n xs, true)
cut_rows-append n xs ys h = rw (
  take-append_le n xs ys (ground arith),
  length-append xs ys,
  less_add n (length xs) (length ys) h,
)

module _ (d : Driver) (k : Cursor) where
  -- From this world on the cursor delivers these batches, none of them empty, and then an empty one.
  pub data Delivers : d.World → List (List Row) → Type 0 where
    done : {w w' : d.World} → d.fetch_many k 100 w ≡ (ok [], w') → Delivers w []
    more :
        {w w' : d.World} {row : Row} {rest : List Row} {batches : List (List Row)}
        → d.fetch_many k 100 w ≡ (ok (row ∷ rest), w')
        → Delivers w' batches
        → Delivers w ((row ∷ rest) ∷ batches)

  -- One more round, given what the later rounds return.
  go_on_lem :
      (n : ℕ) (batch : List Row) (batches : List (List Row)) (rows : List Row)
      (next : List Row → Action d.World Fetched) (s : Db d.World)
      → (length (rows ++ batch) ≤ n
          → (next (rows ++ batch) s).0
            ≡ ok (some (cut_rows n ((rows ++ batch) ++ flatten batches))))
      → (go_on d next (cut_rows n (rows ++ batch)) s).0
        ≡ ok (some (cut_rows n (rows ++ (batch ++ flatten batches))))
  go_on_lem n batch batches rows next s later = elim (Bool-cases (ltb n (length (rows ++ batch)))) [
    | inl over ↦
        ap (λ c. (go_on d next c s).0) (cut_rows_over n (rows ++ batch) over)
        ∙ ap (λ c. ok (some c))
            (sym (
              ap (cut_rows n) (sym (append_assoc rows batch (flatten batches)))
              ∙ cut_rows-append n (rows ++ batch) (flatten batches) over))
    | inr small ↦
        ap (λ c. (go_on d next c s).0) (cut_rows_small n (rows ++ batch) small)
        ∙ later (at_most n (length (rows ++ batch)) small)
        ∙ ap (λ l. ok (some (cut_rows n l))) (append_assoc rows batch (flatten batches))
  ]

  -- With a limit of `n` rows, of which there is room left, and a cursor that delivers these batches,
  -- the loop of `fetch_many` returns the first `n` of all the rows, and that it left some out exactly
  -- when there are more, given fuel for each batch and the empty one.
  pub read_batches-cut_rows :
      (n fuel : ℕ) (batches : List (List Row)) (rows : List Row) (s : Db d.World)
      → length rows ≤ n
      → length batches < fuel
      → Delivers s.world batches
      → (read_batches d fuel (some n) k rows s).0 ≡ ok (some (cut_rows n (rows ++ flatten batches)))
  unfolding read_batches flatten
  read_batches-cut_rows n zero batches rows s h f e = absurd (omega arith)
  read_batches-cut_rows n (suc fuel) [] rows s h f (done e) =
      rw (e, append-nil, take_all n rows h, not_less n (length rows) h)
  read_batches-cut_rows n (suc fuel) _ rows s h f (more {w} {w'} {row} {rest} {batches} e later) =
      rw (e, take_batch-cut_rows n (row ∷ rest) rows h)
        (go_on_lem n (row ∷ rest) batches rows (read_batches d fuel (some n) k)
          (call reading (λ x. (ok (row ∷ rest), w')) s).1
          (λ small.
            read_batches-cut_rows n fuel batches (rows ++ row ∷ rest) _ small (omega arith) later))

  module _ (n : ℕ) where
    -- A round that keeps a non-empty batch ends, when the rounds after it do.
    go_on-ends :
        (r : Row) (batch rows : List Row) (next : List Row → Action d.World Fetched)
        (s : Db d.World)
        → length rows ≤ n
        → ((kept : List Row)
            → length kept ≤ n
            → length rows < length kept
            → (next kept s).0 ≢ ok none)
        → (go_on d next (take_batch (some n) rows (r ∷ batch)) s).0 ≢ ok none
    go_on-ends r batch rows next s h later e =
        elim (Bool-cases (ltb n (length (rows ++ r ∷ batch)))) [
          | inl over ↦ absurd (
              cc (
                rw
                  (
                    take_batch-cut_rows n (r ∷ batch) rows h,
                    cut_rows_over n (rows ++ r ∷ batch) over,
                  )
                  at e))
          | inr small ↦
              later (rows ++ r ∷ batch) (at_most n (length (rows ++ r ∷ batch)) small)
                (omega (arith, length-append rows (r ∷ batch)))
                (rw
                  (
                    take_batch-cut_rows n (r ∷ batch) rows h,
                    cut_rows_small n (rows ++ r ∷ batch) small,
                  )
                  at e)
        ]

    round-ends :
        (rows : List Row) (next : List Row → Action d.World Fetched) (s : Db d.World)
        → length rows ≤ n
        → ((kept : List Row) (s' : Db d.World)
            → length kept ≤ n
            → length rows < length kept
            → (next kept s').0 ≢ ok none)
        → (x : Result Exc (List Row) × d.World) → d.fetch_many k 100 s.world ≡ x
        → (continue (call reading (d.fetch_many k 100) s) (after_batch d next (some n) rows)).0
          ≢ ok none
    round-ends rows next s h later (err x, w) q e = absurd (cc (rw q at e))
    round-ends rows next s h later (ok [], w) q e = absurd (cc (rw q at e))
    round-ends rows next s h later (ok (r ∷ batch), w) q e =
        go_on-ends r batch rows next (call reading (λ x. (ok (r ∷ batch), w)) s).1 h
          (λ kept small longer. later kept _ small longer) (rw q at e)

    pub read_batches-ends :
        (fuel : ℕ) (rows : List Row) (s : Db d.World)
        → length rows ≤ n
        → n < fuel + length rows
        → (read_batches d fuel (some n) k rows s).0 ≢ ok none
    unfolding read_batches
    read_batches-ends zero rows s h f = absurd (omega arith)
    read_batches-ends (suc fuel) rows s h f =
        round-ends rows (read_batches d fuel (some n) k) s h
          (λ kept s' small longer. read_batches-ends fuel kept s' small (omega arith))
          (d.fetch_many k 100 s.world) refl

module _ (d : Driver) (A : Type 0) (a : A) where
  -- A handler that raises returns nothing.
  continue-raises :
      {B : Type 0} (x : Result Exc B × Db d.World) (f : B → Action d.World A)
      → ((b : B) (s : Db d.World) → (f b s).0 ≢ ok a)
      → (continue x f).0 ≢ ok a
  continue-raises (ok b, s) f h q = h b s q
  continue-raises (err e, s) f h q = cc

  if-raises :
      (b : Bool) (m n : Action d.World A) (s : Db d.World)
      → (m s).0 ≢ ok a
      → (n s).0 ≢ ok a
      → ((if b then m else n) s).0 ≢ ok a
  if-raises true m n s hm hn = hm
  if-raises false m n s hm hn = hn

  then_raise :
      {B : Type 0} (m : Action d.World B) (e : Exc) (s : Db d.World)
      → ((m >> raise {A = A} e) s).0 ≢ ok a
  then_raise m e s = continue-raises (m s) (λ _. raise e) (λ b s' q. cc)

  cursor_failed-raises :
      (c : Conn) (k : Option Cursor) (e : Exc) (s : Db d.World)
      → (cursor_failed d {A = A} c k e s).0 ≢ ok a
  unfolding cursor_failed raise_timeout
  cursor_failed-raises c k e s =
      if-raises (is_no_result_set (class_of e)) _ _ s
        (continue-raises (rollback_or_discard d c s) _ (λ u s'. then_raise (close_opened d k) e s'))
        (if-raises (is_timeout e) _ _ s
          (then_raise (discard_connection d) (caused query_timeout_error e) s)
          (continue-raises
            ((if is_open k && is_server_sql_error e
                then rollback_or_discard d c
                else discard_connection d)
              s)
            _ (λ u s'. then_raise (close_opened d k) (caused database_error e) s')))

  pub with_cursor-avoids :
      (body : Cursor → Action d.World A) (s : Db d.World)
      → ((k : Cursor) (s' : Db d.World) → (body k s').0 ≢ ok a)
      → (with_cursor d body s).0 ≢ ok a
  unfolding with_cursor safe_close_cursor
  with_cursor-avoids body s h =
      continue-raises (get_connection d s) _
        (λ c s1. opened_avoids c (call (opening_cursor c) (d.open_cursor c) s1))
    where
      used_avoids :
          (c : Conn) (k : Cursor) (x : Result Exc A × Db d.World)
          → x.0 ≢ ok a
          → (cursor_used d c k x).0 ≢ ok a
      used_avoids c k (ok b, s) q = q
      used_avoids c k (err e, s) q = cursor_failed-raises c (some k) e s

      opened_avoids :
          (c : Conn) (x : Result Exc Cursor × Db d.World) → (cursor_opened d c body x).0 ≢ ok a
      opened_avoids c (ok k, s) = used_avoids c k (body k s) (h k s)
      opened_avoids c (err e, s) = cursor_failed-raises c none e s

module _ (d : Driver) where
  -- With a limit of `n` rows, whatever the driver answers and raises, `fetch_many` never asks for
  -- more than `n + 1` batches: with that fuel its loop does not run out.
  pub fetch_many-ends :
      (n : ℕ) (sql : Text) (params : Row) (s : Db d.World)
      → (fetch_many d (n + 1) sql params (some n) s).0 ≢ ok none
  unfolding fetch_many
  fetch_many-ends n sql params s = kept_avoids (with_cursor d _ s) (
      with_cursor-avoids d Fetched none _ s (λ k s1.
        continue-raises d Fetched none (call (executing sql) (d.execute k sql params) s1) _ (λ u s2.
          continue-raises d Fetched none (require_result_set d k s2) _
            (λ u s3. read_batches-ends d k n (n + 1) [] s3 (omega arith) (omega arith)))))
    where
      kept_avoids :
          (x : Result Exc Fetched × Db d.World)
          → x.0 ≢ ok none
          → (continue x (λ rows. end_read_transaction d >> pure rows)).0 ≢ ok none
      kept_avoids (ok none, s) q = absurd (q refl)
      kept_avoids (ok (some r), s) q =
          continue-raises d Fetched none (end_read_transaction d s) _ (λ u s' e. cc)
      kept_avoids (err e, s) q = λ h. cc
