-- ===== src/Db/Monad.antt =====
-- Code that runs on a connection: it ends in a result, and leaves the database that it has written
-- so far, also beside an error. The transaction is what takes writes back (src/db/transaction.rs).
pub mod Outcome
pub mod Steps
pub mod Calm
use reserve_auditor.Prelude.{
  ℕ, zero, suc, ◌+◌, ◌-◌, ◌==◌, ⊤, Bool, true, false, not, List, ◌||◌, if◌then◌else◌,
}
use reserve_auditor.Result.{Result, ok, err, panic}
use reserve_auditor.Error.{Error, should_retry}
use reserve_auditor.Db.Models.{Db}

abbrev pub Sql : Type 0 → Type 0
Sql A = Db → Result Error A × Db

module _ {A : Type 0} where
  abbrev pub pure : A → Sql A
  pure a s = (ok a, s)

  abbrev pub raise : Error → Sql A
  raise e s = (err e, s)

  -- a panic: the thread ends, nothing after it runs
  abbrev pub crash : Sql A
  crash s = (panic, s)

  abbrev pub lift : Result Error A → Sql A
  lift r s = (r, s)

  abbrev pub gets : (Db → A) → Sql A
  gets f s = (ok (f s), s)

abbrev pub modify : (Db → Db) → Sql ⊤
modify f s = (ok tt, f s)

infixl 5 ◌>>=◌ ◌>>◌
abbrev pub ◌>>=◌ : {A B : Type 0} → Sql A → (A → Sql B) → Sql B
◌>>=◌ m f s =
    let (r, s') = m s in elim r [ ok a ↦ f a s' | err e ↦ (err e, s') | panic ↦ (panic, s') ]

abbrev pub ◌>>◌ : {B : Type 0} → Sql ⊤ → Sql B → Sql B
m >> k = m >>= λ _. k

abbrev pub raise_if : Bool → Error → Sql ⊤
raise_if c e s = (if c then err e else ok tt, s)

-- `conn.transaction(f)` of Diesel: the writes are kept if the result is Ok, else rolled back. A
-- transaction inside another one is a savepoint, with the same effect.
unfoldable pub atomic : {A : Type 0} → Sql A → Sql A
atomic f s =
    let (r, s') = f s in elim r [ ok a ↦ (ok a, s') | err e ↦ (err e, s) | panic ↦ (panic, s) ]

abbrev pub num_retries : ℕ
num_retries = 5

-- The `for` loop of `transaction`, with the rounds left and the index `i`; `attempt i` is what the
-- closure does in round `i`. With no round left it panics ("Should never reach this point").
unfoldable pub retry : {A : Type 0} → ℕ → ℕ → (ℕ → Sql A) → Sql A
unfolding atomic
retry zero i attempt s = (panic, s)
retry (suc k) i attempt s =
    let (r, s') = atomic (attempt i) s in
    let again = retry k (i + 1) attempt s' in
    elim r [
      | ok a ↦ (ok a, s')
      | err e ↦ elim (not (should_retry e) || (i == num_retries - 1)) [
        | true ↦ (err e, s')
        | false ↦ again
      ]
      | panic ↦ (panic, s')
    ]

-- `transaction(conn, f)`: the same closure each time
unfoldable pub transaction : {A : Type 0} → Sql A → Sql A
transaction f = retry num_retries 0 (λ _. f)

-- `for x in xs { f(x)?; }`
abbrev pub for_each : {A : Type 0} → (A → Sql ⊤) → List A → Sql ⊤
for_each f List.[] = pure tt
for_each f (List.◌∷◌ x xs) = f x >> for_each f xs

-- a closure that is called at once and its result kept, as `let result = || { … }();`
abbrev pub capture : {A : Type 0} → Sql A → Sql (Result Error A)
capture m s =
    let (r, s') = m s in
    elim r [ ok a ↦ (ok (ok a), s') | err e ↦ (ok (err e), s') | panic ↦ (panic, s') ]

-- a `match` whose arms only log: an error is dropped, what was written stays
abbrev pub log_outcome : {A : Type 0} → Sql A → Sql ⊤
log_outcome m s =
    let (r, s') = m s in elim r [ ok a ↦ (ok tt, s') | err e ↦ (ok tt, s') | panic ↦ (panic, s') ]
