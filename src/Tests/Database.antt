-- ===== src/Tests/Database.antt =====
-- `Database` of cubrid_mcp_server/database.py over a driver that answers every call.
use mathlib.Core.List.{flatten}
use cubrid_mcp_server.Common.{
  ℕ, zero, suc, ◌+◌, ◌≡◌, ◌≢◌, refl, true, none, some, List, [], ◌∷◌, arith,
}
use cubrid_mcp_server.Common.Text.{codes}
use cubrid_mcp_server.Common.Result.{Result, ok}
use cubrid_mcp_server.Value.{Row, int, pos}
use cubrid_mcp_server.Database.Exceptions.{Exc}
use cubrid_mcp_server.Database.Driver.{Driver}
use cubrid_mcp_server.Database.Statements.{read_batches, fetch_many}
use cubrid_mcp_server.Database.Settled.{IsSettled}
use cubrid_mcp_server.Database.Settled.Runs.{
  fresh, run_all, run_all-IsSettled, writing, fetching, closing_down,
}
use cubrid_mcp_server.Database.Fetch.{Delivers, done, more, read_batches-cut_rows, fetch_many-ends}
use cubrid_mcp_server.Database.Statements.{execute_write}
use cubrid_mcp_server.Database.Commits.{commits, returned, execute_write-commits}

abbrev one_row : Row
one_row = int (pos 1) ∷ []

-- The world counts the batches that are left; a batch has one row.
abbrev next_batch : ℕ → Result Exc (List Row) × ℕ
next_batch zero = (ok [], 0)
next_batch (suc n) = (ok (one_row ∷ []), n)

abbrev steady : Driver
steady = record {
  World = ℕ;
  connect = λ w. (ok 7, w);
  open_cursor = λ c w. (ok 1, w);
  execute = λ k sql params w. (ok tt, w);
  row_count = λ k w. (ok (pos 1), w);
  has_result_set = λ k w. (ok true, w);
  fetch_all = λ k w. (ok (one_row ∷ []), w);
  fetch_many = λ k size w. next_batch w;
  close_cursor = λ k w. (ok tt, w);
  commit = λ c w. (ok tt, w);
  rollback = λ c w. (ok tt, w);
  close = λ c w. (ok tt, w);
  server_version = λ c w. (ok (codes "11.4"), w);
}

run_all-IsSettled_example : IsSettled (
    run_all steady
      (writing (codes "DELETE FROM t") [] ∷ fetching (codes "SELECT 1") [] ∷ closing_down ∷ [])
      (fresh 2))
run_all-IsSettled_example =
    run_all-IsSettled steady
      (writing (codes "DELETE FROM t") [] ∷ fetching (codes "SELECT 1") [] ∷ closing_down ∷ []) 2

two_batches : Delivers steady 1 2 ((one_row ∷ []) ∷ (one_row ∷ []) ∷ [])
two_batches = more {w' = 1} refl (more {w' = 0} refl (done {w' = 0} refl))

read_batches-cut_rows_example :
    (read_batches steady 3 (some 1) 1 [] (fresh 2)).0 ≡ ok (some (one_row ∷ [], true))
unfolding flatten
read_batches-cut_rows_example =
    read_batches-cut_rows steady 1 1 3 ((one_row ∷ []) ∷ (one_row ∷ []) ∷ []) [] (fresh 2)
      (omega arith) (omega arith) two_batches

fetch_many-ends_example :
    (fetch_many steady (1 + 1) (codes "SELECT 1") [] (some 1) (fresh 5)).0 ≢ ok none
fetch_many-ends_example = fetch_many-ends steady 1 (codes "SELECT 1") [] (fresh 5)

execute_write-commits_example :
    commits (execute_write steady (codes "DELETE FROM t") [] (fresh 0)).1.log
    ≡ returned (execute_write steady (codes "DELETE FROM t") [] (fresh 0)).0
      + commits (fresh {W = ℕ} 0).log
execute_write-commits_example = execute_write-commits steady (codes "DELETE FROM t") [] (fresh 0)
