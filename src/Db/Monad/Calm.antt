-- ===== src/Db/Monad/Calm.antt =====
-- Steps that keep a property and do not panic where it holds.
use reserve_auditor.Prelude.{⊤, List, [], ◌∷◌, All, ◌≢◌, refl, sym, subst}
use reserve_auditor.Result.{Result, ok, err, panic}
use reserve_auditor.Error.{Error}
use reserve_auditor.Db.Models.{Db}
use reserve_auditor.Db.Monad.{Sql, ◌>>=◌, for_each}
use reserve_auditor.Db.Monad.Steps.{bind-eq, outcome_then}

abbrev pub CalmKeeps : {A : Type 0} → (Db → Type 0) → Sql A → Type 0
CalmKeeps P m = (db : Db) → P db → P (m db).1 × ((m db).0 ≢ panic)

module _ {A B : Type 0} (P : Db → Type 0) where
  CalmKeeps-outcome :
      (f : A → Sql B)
      → ((a : A) → CalmKeeps P (f a))
      → (r : Result Error A × Db) → P r.1
      → r.0 ≢ panic
      → P (outcome_then f r).1 × ((outcome_then f r).0 ≢ panic)
  CalmKeeps-outcome f h (ok a, s) p n = h a s p
  CalmKeeps-outcome f h (err e, s) p n = (p, cc)
  CalmKeeps-outcome f h (panic, s) p n = absurd (n refl)

  pub CalmKeeps-bind :
      (m : Sql A) (f : A → Sql B)
      → CalmKeeps P m
      → ((a : A) → CalmKeeps P (f a))
      → CalmKeeps P (m >>= f)
  CalmKeeps-bind m f hm hf db p =
      let (q, n) = hm db p in
      subst (λ (r : Result Error B × Db). P r.1 × (r.0 ≢ panic)) (sym (bind-eq m f db))
        (CalmKeeps-outcome f hf (m db) q n)

-- a loop over elements that have a property
pub CalmKeeps-for_each_of :
    {A : Type 0} (P : Db → Type 0) (Q : A → Type 0) (f : A → Sql ⊤)
    → ((a : A) → Q a → CalmKeeps P (f a))
    → (xs : List A) → All Q xs
    → CalmKeeps P (for_each f xs)
CalmKeeps-for_each_of P Q f h [] q db p = (p, cc)
CalmKeeps-for_each_of P Q f h (x ∷ xs) q db p =
    CalmKeeps-bind P (f x) (λ _. for_each f xs) (h x q.0)
      (λ _. CalmKeeps-for_each_of P Q f h xs q.1) db p
