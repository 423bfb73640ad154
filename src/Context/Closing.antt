-- ===== src/Context/Closing.antt =====
-- What `AppContext.close` of cubrid_mcp_server/context.py leaves.
use cubrid_mcp_server.Common.{◌≡◌, refl, ap, ◌∙◌, inl, inr, Option, none, some, [], ◌∷◌, ◌++◌, All}
use cubrid_mcp_server.Common.Result.{Result, ok, err, Result-cases}
use cubrid_mcp_server.Common.Text.{Text}
use cubrid_mcp_server.Database.Exceptions.{Exc}
use cubrid_mcp_server.Database.Driver.{Driver, Db, Conn}
use cubrid_mcp_server.Database.Session.{close, close_at_end}
use cubrid_mcp_server.Config.Registry.{Named, names}
use cubrid_mcp_server.Context.{Database, first_of, close_each, raised_first, close_all}

module _ (C : Type 0) (d : Driver) where
  -- No connection and no remembered probe.
  pub record IsClosed (s : Db d.World) : Type 0 where
    pub connection : s.connection ≡ none
    pub serial : s.serial_column ≡ none
    pub owner : s.owner_names ≡ none

  close-IsClosed : (s : Db d.World) → IsClosed (close d s).1
  unfolding close
  close-IsClosed s = at_end s.connection refl
    where
      at_end :
          (c : Option Conn)
          → s.connection ≡ c
          → IsClosed (close_at_end d c (record s { serial_column = none; owner_names = none })).1
      at_end none q = record { connection = q; serial = refl; owner = refl }
      at_end (some c) q = record { connection = refl; serial = refl; owner = refl }

  abbrev pub Databases : Type 0
  Databases = Named (Database C d.World)

  -- Closing the database of this connection, as it is before, ends like this.
  abbrev pub Ends : Result Exc (Unit {0}) → Text × Database C d.World → Type 0
  Ends r x = (close d x.1.state).0 ≡ r

  -- How closing all of them ends: with no error where each returns, and with the error of the first
  -- that raises otherwise.
  pub data EndsAll (databases : Databases) : Result Exc (Unit {0}) → Type 0 where
    none_raises : All (Ends (ok tt)) databases → EndsAll databases (ok tt)
    first_raises :
        (before : Databases) (x : Text × Database C d.World) (later : Databases) (e : Exc)
        → databases ≡ before ++ x ∷ later
        → All (Ends (ok tt)) before
        → Ends (err e) x
        → EndsAll databases (err e)

  -- One database more in front, whose close returns
  EndsAll-cons :
      (x : Text × Database C d.World) (rest : Databases) (r : Result Exc (Unit {0}))
      → Ends (ok tt) x
      → EndsAll rest r
      → EndsAll (x ∷ rest) r
  EndsAll-cons x rest _ h (none_raises all) = none_raises (h, all)
  EndsAll-cons x rest _ h (first_raises before y later e is all raises) =
      first_raises (x ∷ before) y later e (ap (◌∷◌ x) is) (h, all) raises

  abbrev ending : Option Exc → Result Exc (Unit {0})
  ending none = ok tt
  ending (some e) = err e

  close_each_kept :
      (e : Exc) (databases : Databases) → (close_each C d (some e) databases).0 ≡ some e
  unfolding close_each
  close_each_kept e [] = refl
  close_each_kept e (x ∷ rest) = close_each_kept e rest

  close_each-EndsAll :
      (databases : Databases) → EndsAll databases (ending (close_each C d none databases).0)
  unfolding close_each
  close_each-EndsAll [] = none_raises tt
  close_each-EndsAll (x ∷ rest) = elim (Result-cases (close d x.1.state).0) [
    | inl (a, e) ↦ rw e (EndsAll-cons x rest _ e (close_each-EndsAll rest))
    | inr (exc, e) ↦ rw (e, close_each_kept exc rest) (first_raises [] x rest exc refl tt e)
  ]

  close_each-IsClosed :
      (first : Option Exc) (databases : Databases)
      → All (λ x. IsClosed x.1.state) (close_each C d first databases).1
  unfolding close_each
  close_each-IsClosed first [] = tt
  close_each-IsClosed first (x ∷ rest) = (
    close-IsClosed x.1.state,
    close_each-IsClosed (first_of C d first (close d x.1.state).0) rest,
  )

  close_each-names :
      (first : Option Exc) (databases : Databases)
      → names (close_each C d first databases).1 ≡ names databases
  unfolding close_each names
  close_each-names first [] = refl
  close_each-names first (x ∷ rest) =
      ap (◌∷◌ x.0) (close_each-names (first_of C d first (close d x.1.state).0) rest)

  raised-ending :
      (x : Option Exc × Databases)
      → ((raised_first C d x).0 ≡ ending x.0) × ((raised_first C d x).1 ≡ x.1)
  raised-ending (none, databases) = (refl, refl)
  raised-ending (some e, databases) = (refl, refl)

  -- `close` closes the database of every connection, also behind one whose close raises: afterwards
  -- the same connections have no open connection and no remembered probe. It returns when closing each
  -- of them returns, and otherwise raises what closing the first that raises does.
  pub close_all-IsClosed :
      (databases : Databases)
      → EndsAll databases (close_all C d databases).0
        × All (λ x. IsClosed x.1.state) (close_all C d databases).1
        × (names (close_all C d databases).1 ≡ names databases)
  unfolding close_all
  close_all-IsClosed databases =
      let (end, left) = raised-ending (close_each C d none databases) in
      (
        rw end (close_each-EndsAll databases),
        rw left (close_each-IsClosed none databases),
        ap names left ∙ close_each-names none databases,
      )
