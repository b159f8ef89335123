-- ===== src/Db/Monad/Outcome.antt =====
-- How code that runs on a connection ends, when an error takes its writes back.
use reserve_auditor.Prelude.{⊤, ◌≡◌, ◌∙◌, refl, arith}
use reserve_auditor.Result.{Result, ok, err, panic}
use reserve_auditor.Error.{Error}
use reserve_auditor.Db.Models.{Db}
use reserve_auditor.Db.Monad.{Sql, atomic, transaction}
use reserve_auditor.Db.Transaction.{transaction-eq-atomic}

-- A value comes with a database of which `P` holds; an error leaves the database as it was; there
-- is no panic.
abbrev pub Outcome : {A : Type 0} → (A → Db → Type 0) → Db → Result Error A × Db → Type 0
Outcome P db (ok a, db') = P a db'
Outcome P db (err e, db') = db' ≡ db
Outcome P db (panic, db') = ⊥

abbrev pub Ends : {A : Type 0} → (A → Db → Type 0) → Result Error A × Db → Type 0
Ends P (ok a, db') = P a db'
Ends P (err e, db') = ⊤
Ends P (panic, db') = ⊥

-- what `atomic` makes of the outcome of its closure
abbrev rolled_back : {A : Type 0} → Db → Result Error A × Db → Result Error A × Db
rolled_back db (ok a, db') = (ok a, db')
rolled_back db (err e, db') = (err e, db)
rolled_back db (panic, db') = (panic, db)

atomic-eq : {A : Type 0} (f : Sql A) (db : Db) → atomic f db ≡ rolled_back db (f db)
unfolding atomic
atomic-eq f db = ground arith

Ends-rolled_back :
    {A : Type 0} (P : A → Db → Type 0) (db : Db) (r : Result Error A × Db)
    → Ends P r
    → Outcome P db (rolled_back db r)
Ends-rolled_back P db (ok a, db') h = h
Ends-rolled_back P db (err e, db') h = refl
Ends-rolled_back P db (panic, db') h = h

pub Outcome-atomic :
    {A : Type 0} (P : A → Db → Type 0) (f : Sql A) (db : Db)
    → Ends P (f db)
    → Outcome P db (atomic f db)
Outcome-atomic P f db h = rw (atomic-eq f db) (Ends-rolled_back P db (f db) h)

-- What holds when the closure succeeds holds of the transaction, which undoes everything else.
pub Outcome-transaction :
    {A : Type 0} (P : A → Db → Type 0) (f : Sql A) (db : Db)
    → Ends P (f db)
    → Outcome P db (transaction f db)
Outcome-transaction P f db h =
    rw (transaction-eq-atomic f db ∙ atomic-eq f db) (Ends-rolled_back P db (f db) h)

pub Outcome-map :
    {A : Type 0} (P Q : A → Db → Type 0) (db : Db) (r : Result Error A × Db)
    → ((a : A) (db' : Db) → P a db' → Q a db')
    → Outcome P db r
    → Outcome Q db r
Outcome-map P Q db (ok a, db') f h = f a db' h
Outcome-map P Q db (err e, db') f h = h
Outcome-map P Q db (panic, db') f h = h
