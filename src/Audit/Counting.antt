-- ===== src/Audit/Counting.antt =====
-- What the four matching functions share: they run a closure that has a transaction of its own, and
-- count its error outside of that transaction.
use reserve_auditor.Prelude.{
  ℕ, ⊤, Option, none, some, [], ◌∷◌, ◌≡◌, ◌∙◌, ap, sym, subst, refl, arith,
}
use reserve_auditor.Result.{Result, ok, err, panic}
use reserve_auditor.Error.{Error}
use reserve_auditor.Db.Models.{Db, Counters}
use reserve_auditor.Db.Monad.{Sql, pure, raise, crash, lift, capture, ◌>>=◌, ◌>>◌}
use reserve_auditor.Db.Monad.Outcome.{Outcome}
use reserve_auditor.Db.Counters.{CounterName, inc, bump}
use reserve_auditor.Db.Counters.Laws.{inc_lem}

abbrev pub or_else : {A : Type 0} → Option A → Option A → Option A
or_else none o = o
or_else (some a) o = some a

-- `id().expect(..)`
abbrev pub expect_id : Option ℕ → Sql ℕ
expect_id none = crash
expect_id (some k) = pure k

-- the `match result { … }` that increments a counter
abbrev pub count_error : {A : Type 0} → (Error → CounterName) → Result Error A → Sql ⊤
count_error counter (ok _) = pure tt
count_error counter (err e) = inc (counter e)
count_error counter panic = crash

-- run a closure, count its error, and return its result
abbrev pub counted : {A : Type 0} → (Error → CounterName) → Sql A → Sql A
counted counter m = do result ← capture m; count_error counter result; lift result

-- A value comes with a database of which `P` holds; an error has added one to its counter, and
-- changed nothing else; there is no panic.
abbrev pub Counted :
    {A : Type 0}
    → (A → Db → Type 0)
    → (Error → CounterName)
    → Db
    → Counters
    → Result Error A × Db
    → Type 0
Counted P counter db c (ok a, db') = P a db'
Counted P counter db c (err e, db') = db' ≡ record db { counters = bump (counter e) c ∷ [] }
Counted P counter db c (panic, db') = ⊥

-- what the counting makes of the outcome of the closure
abbrev after : {A : Type 0} → (Error → CounterName) → Result Error A × Db → Result Error A × Db
after counter (ok a, s) = (ok a, s)
after counter (err e, s) = (inc (counter e) >> raise e) s
after counter (panic, s) = (panic, s)

counted-eq-after :
    {A : Type 0} (counter : Error → CounterName) (m : Sql A) (db : Db)
    → counted counter m db ≡ after counter (m db)
counted-eq-after counter m db = ground arith

counted_error :
    {A : Type 0} (k : CounterName) (e : Error) (db : Db) (c : Counters)
    → db.counters ≡ c ∷ []
    → (inc k >> raise {A = A} e) db ≡ (err e, record db { counters = bump k c ∷ [] })
counted_error k e db c h = ground (arith, inc_lem k db c h)

Counted-after :
    {A : Type 0} (P : A → Db → Type 0) (counter : Error → CounterName) (db : Db) (c : Counters)
    (r : Result Error A × Db)
    → db.counters ≡ c ∷ []
    → Outcome P db r
    → Counted P counter db c (after counter r)
Counted-after P counter db c (ok a, db') h o = o
Counted-after {A} P counter db c (err e, db') h o =
    subst (Counted P counter db c)
      (sym (ap (inc (counter e) >> raise {A = A} e) o ∙ counted_error (counter e) e db c h)) refl
Counted-after P counter db c (panic, db') h o = o

-- The counting, once for the four functions.
pub counted-Counted :
    {A : Type 0} (P : A → Db → Type 0) (counter : Error → CounterName) (m : Sql A) (db : Db)
    (c : Counters)
    → db.counters ≡ c ∷ []
    → Outcome P db (m db)
    → Counted P counter db c (counted counter m db)
counted-Counted P counter m db c h o =
    subst (Counted P counter db c) (sym (counted-eq-after counter m db))
      (Counted-after P counter db c (m db) h o)

-- A value comes with a database of which `P` holds; an error has added one to a counter that
-- `IsCounter` gives for it, and changed nothing else; there is no panic.
abbrev pub Ended :
    {A : Type 0}
    → (A → Db → Type 0)
    → (Error → CounterName → Type 0)
    → Db
    → Counters
    → Result Error A × Db
    → Type 0
Ended P IsCounter db c (ok a, db') = P a db'
Ended P IsCounter db c (err e, db') =
    (n : CounterName) × IsCounter e n × (db' ≡ record db { counters = bump n c ∷ [] })
Ended P IsCounter db c (panic, db') = ⊥

module _ {A : Type 0} (P Q : A → Db → Type 0) (counter : Error → CounterName)
    (IsCounter : Error → CounterName → Type 0) (db : Db) (c : Counters) (one : db.counters ≡ c ∷ [])
    (weaken : (a : A) (db' : Db) → P a db' → Q a db') where
  Ended-after :
      (r : Result Error A × Db)
      → ((e : Error) → r.0 ≡ err e → IsCounter e (counter e))
      → Outcome P db r
      → Ended Q IsCounter db c (after counter r)
  Ended-after (ok a, db') reason o = weaken a db' o
  Ended-after (err e, db') reason o =
      subst (Ended Q IsCounter db c)
        (sym (ap (inc (counter e) >> raise {A = A} e) o ∙ counted_error (counter e) e db c one))
        (counter e, reason e refl, refl)
  Ended-after (panic, db') reason o = absurd o

  pub counted-Ended :
      (m : Sql A)
      → ((e : Error) → (m db).0 ≡ err e → IsCounter e (counter e))
      → Outcome P db (m db)
      → Ended Q IsCounter db c (counted counter m db)
  counted-Ended m reason o =
      subst (Ended Q IsCounter db c) (sym (counted-eq-after counter m db))
        (Ended-after (m db) reason o)
