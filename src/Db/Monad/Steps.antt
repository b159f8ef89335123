-- ===== src/Db/Monad/Steps.antt =====
-- Sequences of steps on a connection: what a success of the whole says of its parts, and what a
-- sequence keeps if each of its steps does.
use reserve_auditor.Prelude.{⊤, List, [], ◌∷◌, ◌≡◌, ◌≢◌, ◌∙◌, refl, sym, ap, subst, arith}
use reserve_auditor.Result.{Result, ok, err, panic}
use reserve_auditor.Error.{Error}
use reserve_auditor.Db.Models.{Db}
use reserve_auditor.Db.Monad.{Sql, ◌>>=◌, atomic, transaction, for_each}
use reserve_auditor.Db.Transaction.{transaction-eq-atomic}

module _ {A : Type 0} where
  abbrev pub outcome_then : {B : Type 0} → (A → Sql B) → Result Error A × Db → Result Error B × Db
  outcome_then f (ok a, s) = f a s
  outcome_then f (err e, s) = (err e, s)
  outcome_then f (panic, s) = (panic, s)

  -- A sequence succeeds only through a value of its first part.
  abbrev pub Passed : {B : Type 0} → Sql A → (A → Sql B) → Db → B → Db → Type 0
  Passed {B} m f db b db' = (a : A) × (db1 : Db) × (m db ≡ (ok a, db1)) × (f a db1 ≡ (ok b, db'))

  Passed-of :
      {B : Type 0} (m : Sql A) (f : A → Sql B) (db : Db) (b : B) (db' : Db)
      (r : Result Error A × Db)
      → m db ≡ r
      → outcome_then f r ≡ (ok b, db')
      → Passed m f db b db'
  Passed-of m f db b db' (ok a, s) e h = (a, s, e, h)
  Passed-of m f db b db' (err x, s) e h = cc
  Passed-of m f db b db' (panic, s) e h = cc

  pub bind-eq :
      {B : Type 0} (m : Sql A) (f : A → Sql B) (db : Db) → (m >>= f) db ≡ outcome_then f (m db)
  bind-eq m f db = ground arith

  pub passed :
      {B : Type 0} (m : Sql A) (f : A → Sql B) (db : Db) {b : B} {db' : Db}
      → (m >>= f) db ≡ (ok b, db')
      → Passed m f db b db'
  passed m f db {b} {db'} h = Passed-of m f db b db' (m db) refl (sym (bind-eq m f db) ∙ h)

  pub after_ok :
      {B : Type 0} (m : Sql A) (f : A → Sql B) (db db1 : Db) (a : A)
      → m db ≡ (ok a, db1)
      → (m >>= f) db ≡ f a db1
  after_ok m f db db1 a e = bind-eq m f db ∙ ap (outcome_then f) e

  pub after_err :
      {B : Type 0} (m : Sql A) (f : A → Sql B) (db db1 : Db) (e : Error)
      → m db ≡ (err e, db1)
      → (m >>= f) db ≡ (err e, db1)
  after_err m f db db1 x e = bind-eq m f db ∙ ap (outcome_then f) e

-- What holds before a step holds after it, whatever its result.
abbrev pub Keeps : {A : Type 0} → (Db → Type 0) → Sql A → Type 0
Keeps P m = (db : Db) → P db → P (m db).1

module _ {A B : Type 0} (P : Db → Type 0) where
  Keeps-outcome :
      (f : A → Sql B)
      → ((a : A) → Keeps P (f a))
      → (r : Result Error A × Db) → P r.1
      → P (outcome_then f r).1
  Keeps-outcome f h (ok a, s) p = h a s p
  Keeps-outcome f h (err e, s) p = p
  Keeps-outcome f h (panic, s) p = p

  pub Keeps-bind :
      (m : Sql A) (f : A → Sql B) → Keeps P m → ((a : A) → Keeps P (f a)) → Keeps P (m >>= f)
  Keeps-bind m f hm hf db p =
      subst (λ (r : Result Error B × Db). P r.1) (sym (bind-eq m f db))
        (Keeps-outcome f hf (m db) (hm db p))

  -- a sequence, whose first step is known
  pub holds_after_ok :
      (m : Sql A) (f : A → Sql B) (db db1 : Db) (a : A)
      → m db ≡ (ok a, db1)
      → P (f a db1).1
      → P ((m >>= f) db).1
  holds_after_ok m f db db1 a e p =
      subst (λ (r : Result Error B × Db). P r.1) (sym (after_ok m f db db1 a e)) p

  pub holds_after_err :
      (m : Sql A) (f : A → Sql B) (db db1 : Db) (e : Error)
      → m db ≡ (err e, db1)
      → P db1
      → P ((m >>= f) db).1
  holds_after_err m f db db1 x e p =
      subst (λ (r : Result Error B × Db). P r.1) (sym (after_err m f db db1 x e)) p

module _ {A : Type 0} (P : Db → Type 0) where
  after_atomic : Db → Result Error A × Db → Result Error A × Db
  after_atomic db (ok a, s) = (ok a, s)
  after_atomic db (err e, s) = (err e, db)
  after_atomic db (panic, s) = (panic, db)

  atomic-eq : (m : Sql A) (db : Db) → atomic m db ≡ after_atomic db (m db)
  unfolding atomic after_atomic
  atomic-eq m db = ground arith

  kept : (db : Db) (r : Result Error A × Db) → P db → P r.1 → P (after_atomic db r).1
  unfolding after_atomic
  kept db (ok a, s) p h = h
  kept db (err x, s) p h = p
  kept db (panic, s) p h = p

  pub Keeps-atomic : (m : Sql A) → Keeps P m → Keeps P (atomic m)
  Keeps-atomic m h db p =
      subst (λ (r : Result Error A × Db). P r.1) (sym (atomic-eq m db)) (kept db (m db) p (h db p))

  -- A transaction keeps what its closure keeps.
  pub Keeps-transaction : (m : Sql A) → Keeps P m → Keeps P (transaction m)
  Keeps-transaction m h db p =
      subst (λ (r : Result Error A × Db). P r.1) (sym (transaction-eq-atomic m db))
        (Keeps-atomic m h db p)

  pub Keeps-for_each :
      (f : A → Sql ⊤) → ((a : A) → Keeps P (f a)) → (xs : List A) → Keeps P (for_each f xs)
  Keeps-for_each f h [] db p = p
  Keeps-for_each f h (x ∷ xs) db p =
      Keeps-bind P (f x) (λ _. for_each f xs) (h x) (λ _. Keeps-for_each f h xs) db p

-- A step that ends in a value or an error, never in a panic.
abbrev pub NeverPanics : {A : Type 0} → Sql A → Type 0
NeverPanics m = (db : Db) → (m db).0 ≢ panic

module _ {A : Type 0} where
  pub after-no_panic :
      {B : Type 0} (f : A → Sql B)
      → ((a : A) → NeverPanics (f a))
      → (r : Result Error A × Db) → r.0 ≢ panic
      → (outcome_then f r).0 ≢ panic
  after-no_panic f h (ok a, s) n = h a s
  after-no_panic f h (err e, s) n = cc
  after-no_panic f h (panic, s) n = absurd (n refl)

  pub NeverPanics-bind :
      {B : Type 0} (m : Sql A) (f : A → Sql B)
      → NeverPanics m
      → ((a : A) → NeverPanics (f a))
      → NeverPanics (m >>= f)
  NeverPanics-bind {B} m f hm hf db =
      subst (λ (r : Result Error B × Db). r.0 ≢ panic) (sym (bind-eq m f db))
        (after-no_panic f hf (m db) (hm db))

  atomic-no_panic : (m : Sql A) (db : Db) → (m db).0 ≢ panic → (atomic m db).0 ≢ panic
  unfolding atomic
  atomic-no_panic m db h = ground arith

  pub NeverPanics-transaction : (m : Sql A) → NeverPanics m → NeverPanics (transaction m)
  NeverPanics-transaction m h db =
      subst (λ (r : Result Error A × Db). r.0 ≢ panic) (sym (transaction-eq-atomic m db))
        (atomic-no_panic m db (h db))

module _ {A : Type 0} where
  pub NeverPanics-for_each :
      (f : A → Sql ⊤) → ((a : A) → NeverPanics (f a)) → (xs : List A) → NeverPanics (for_each f xs)
  NeverPanics-for_each f h [] db = cc
  NeverPanics-for_each f h (x ∷ xs) db =
      NeverPanics-bind (f x) (λ _. for_each f xs) (h x) (λ _. NeverPanics-for_each f h xs) db
