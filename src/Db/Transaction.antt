-- ===== src/Db/Transaction.antt =====
-- What the transactions of src/db/transaction.rs do.
use reserve_auditor.Prelude.{
  ℕ, zero, suc, ◌+◌, ◌≤◌, ◌<◌, ◌≡◌, ◌∙◌, refl, sym, ap, Bool, true, false, not, ◌&&◌, ◌==◌,
  if◌then◌else◌, Bool-cases, inl, inr, arith,
}
use reserve_auditor.Result.{Result, ok, err, panic}
use reserve_auditor.Error.{Error, should_retry}
use reserve_auditor.Db.Models.{Db}
use reserve_auditor.Db.Monad.{Sql, atomic, retry, transaction}

-- An attempt that ends in an error leaves the database as it was.
pub atomic-err :
    {A : Type 0} (f : Sql A) (s : Db) {e : Error} → (atomic f s).0 ≡ err e → (atomic f s).1 ≡ s
unfolding atomic
atomic-err f s h = ground arith

pub atomic-ok :
    {A : Type 0} (f : Sql A) (s : Db) {a : A} → (f s).0 ≡ ok a → atomic f s ≡ (ok a, (f s).1)
unfolding atomic
atomic-ok f s h = ground arith

-- an error that is tried again
abbrev pub is_retriable : {A : Type 0} → Result Error A → Bool
is_retriable (ok a) = false
is_retriable (err e) = should_retry e
is_retriable panic = false

-- One round: an error that may pass is tried again, but not in the last round.
retry-suc :
    {A : Type 0} (k i : ℕ) (f : ℕ → Sql A) (s : Db)
    → retry (suc k) i f s ≡ (
        if is_retriable (atomic (f i) s).0 && not (i == 4)
        then retry k (i + 1) f s
        else atomic (f i) s)
unfolding retry atomic
retry-suc k i f s = ground arith

-- the round that decides, and what the rounds before it and the round itself were
abbrev pub Decides : {A : Type 0} → (ℕ → Sql A) → Db → ℕ → ℕ → Result Error A × Db → Type 0
Decides f s i n r =
    (i ≤ n)
    × (n < 5)
    × (r ≡ atomic (f n) s)
    × ((j : ℕ) → i ≤ j → j < n → is_retriable (atomic (f j) s).0 ≡ true)
    × (is_retriable (atomic (f n) s).0 ≡ true → n ≡ 4)

earlier :
    {A : Type 0} (f : ℕ → Sql A) (s : Db) (i n : ℕ)
    → is_retriable (atomic (f i) s).0 ≡ true
    → ((j : ℕ) → i + 1 ≤ j → j < n → is_retriable (atomic (f j) s).0 ≡ true)
    → (j : ℕ) → i ≤ j
    → j < n
    → is_retriable (atomic (f j) s).0 ≡ true
earlier f s i n t h j a b = elim (Bool-cases (i == j)) [
  | inl same ↦ let e : j ≡ i = ground arith in rw e t
  | inr differ ↦ h j (ground arith) b
]

retry-Decides :
    {A : Type 0} (k i : ℕ) (f : ℕ → Sql A) (s : Db)
    → k + i ≡ 5
    → 0 < k
    → (n : ℕ) × Decides f s i n (retry k i f s)
retry-Decides zero i f s e p = absurd (omega arith)
retry-Decides (suc k) i f s e p =
    elim (Bool-cases (is_retriable (atomic (f i) s).0 && not (i == 4))) [
      | inl again ↦
          let (n, d) = retry-Decides k (i + 1) f s (omega arith) (ground arith) in
          (
            n,
            (
              omega (arith, d.0),
              d.1,
              retry-suc k i f s ∙ rw again d.2,
              earlier f s i n (ground arith) d.3,
              d.4,
            ),
          )
      | inr stop ↦ (
        i,
        (
          omega arith,
          omega arith,
          retry-suc k i f s ∙ rw stop refl,
          λ j a b. absurd (omega arith),
          λ t. ground arith,
        ),
      )
    ]

-- The loop of `transaction` never falls through to its panic: whatever the attempts do, its outcome
-- is that of one of the five rounds, each run on the database as it was at the start; every round
-- before it ended in an error that is tried again, and it itself did so only if it was the last.
pub retry-Decides_lem :
    {A : Type 0} (f : ℕ → Sql A) (s : Db) → (n : ℕ) × Decides f s 0 n (retry 5 0 f s)
retry-Decides_lem f s = retry-Decides 5 0 f s refl (omega arith)

-- The same closure, run on the same database, does the same in every round.
pub transaction-eq-atomic : {A : Type 0} (f : Sql A) (s : Db) → transaction f s ≡ atomic f s
unfolding transaction
transaction-eq-atomic f s = (retry-Decides_lem (λ _. f) s).1.2

atomic-ok_inv :
    {A : Type 0} (f : Sql A) (s : Db) {a : A} {s' : Db} → atomic f s ≡ (ok a, s') → f s ≡ (ok a, s')
unfolding atomic
atomic-ok_inv f s h = ground arith

-- A transaction that succeeds has done what its closure did.
pub transaction-ok_inv :
    {A : Type 0} (f : Sql A) (s : Db) {a : A} {s' : Db}
    → transaction f s ≡ (ok a, s')
    → f s ≡ (ok a, s')
transaction-ok_inv f s h = atomic-ok_inv f s (sym (transaction-eq-atomic f s) ∙ h)

-- The result of a transaction is that of its closure.
pub transaction-result : {A : Type 0} (f : Sql A) (db : Db) → (transaction f db).0 ≡ (f db).0
unfolding atomic
transaction-result {A} f db =
    ap (λ (r : Result Error A × Db). r.0) (transaction-eq-atomic f db) ∙ same (f db)
  where
    same : (r : Result Error A × Db) → (atomic (λ _. r) db).0 ≡ r.0
    same (ok a, s) = refl
    same (err e, s) = refl
    same (panic, s) = refl
