-- ===== src/Database/Driver.antt =====
-- pycubrid, the parameter of the model: a world that answers each call, and the log of the calls.
-- A method of `Database` is an action over the fields of the object, the world and the log.
use cubrid_mcp_server.Common.{◌≡◌, refl, ap, ℕ, Bool, true, false, Option, List, ◌∷◌}
use cubrid_mcp_server.Common.Text.{Text}
use cubrid_mcp_server.Common.Result.{Result, ok, err}
use cubrid_mcp_server.Value.{ℤ, Row}
use cubrid_mcp_server.Database.Exceptions.{Exc}

abbrev pub Conn : Type 0
Conn = ℕ

abbrev pub Cursor : Type 0
Cursor = ℕ

-- Each call may raise, and moves the world on.
abbrev pub Op : Type 0 → Type 0 → Type 0
Op W A = W → Result Exc A × W

pub record Driver : Type 1 where
  pub World : Type 0
  pub connect : Op World Conn
  pub open_cursor : Conn → Op World Cursor
  pub execute : Cursor → Text → Row → Op World (Unit {0})
  pub row_count : Cursor → Op World ℤ
  pub has_result_set : Cursor → Op World Bool
  pub fetch_all : Cursor → Op World (List Row)
  pub fetch_many : Cursor → ℕ → Op World (List Row)
  pub close_cursor : Cursor → Op World (Unit {0})
  pub commit : Conn → Op World (Unit {0})
  pub rollback : Conn → Op World (Unit {0})
  pub close : Conn → Op World (Unit {0})
  pub server_version : Conn → Op World Text

pub data Call : Type 0 where
  connect version reading closing_cursor : Call
  opening_cursor committing rolling_back closing : Conn → Call
  executing : Text → Call

pub record Event : Type 0 where
  pub call : Call
  pub succeeded : Bool

-- `Database`: the cached connection, the two probes of its catalog, the world and the log,
-- the last call first.
pub record Db (W : Type 0) : Type 0 where
  pub connection : Option Conn
  pub serial_column : Option Text
  pub owner_names : Option Bool
  pub world : W
  pub log : List Event

-- An action returns or raises, and what it changed before a raise stays changed.
abbrev pub Action : Type 0 → Type 0 → Type 0
Action W A = Db W → Result Exc A × Db W

abbrev pub success {ℓ} : {A : Type ℓ} → Result Exc A → Bool
success (ok a) = true
success (err e) = false

module _ {W A : Type 0} where
  abbrev pub pure : A → Action W A
  pure a s = (ok a, s)

  abbrev pub raise : Exc → Action W A
  raise e s = (err e, s)

  -- A call of the driver, with its entry in the log.
  abbrev pub call : Call → Op W A → Action W A
  call c op s =
      let (r, w) = op s.world in
      (r, record s { world = w; log = record { call = c; succeeded = success r } ∷ s.log })

  -- `try: m` with `except Exception as exc: h exc`
  abbrev pub handled : Result Exc A × Db W → (Exc → Action W A) → Result Exc A × Db W
  handled (ok a, s) h = (ok a, s)
  handled (err e, s) h = h e s

  abbrev pub catch : Action W A → (Exc → Action W A) → Action W A
  catch m h s = handled (m s) h

module _ {W A B : Type 0} where
  abbrev pub continue : Result Exc A × Db W → (A → Action W B) → Result Exc B × Db W
  continue (ok a, s) f = f a s
  continue (err e, s) f = (err e, s)

  infixl 5 ◌>>=◌ ◌>>◌
  abbrev pub ◌>>=◌ : Action W A → (A → Action W B) → Action W B
  ◌>>=◌ m f s = continue (m s) f

  abbrev pub ◌>>◌ : Action W A → Action W B → Action W B
  m >> n = m >>= λ _. n

  pub continue-ok :
      (x : Result Exc A × Db W) (f : A → Action W B) {a : A} → x.0 ≡ ok a → continue x f ≡ f a x.1
  continue-ok (ok a, s) f e = ap (λ b. f b s) (cc e)
  continue-ok (err x, s) f e = cc

  pub continue-eq-ok :
      (x : Result Exc A × Db W) (f : A → Action W B) {b : B}
      → (continue x f).0 ≡ ok b
      → (a : A) × (x.0 ≡ ok a) × ((f a x.1).0 ≡ ok b)
  continue-eq-ok (ok a, s) f h = (a, refl, h)
  continue-eq-ok (err e, s) f h = cc
