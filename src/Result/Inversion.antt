-- ===== src/Result/Inversion.antt =====
-- What the success of a chain of fallible calls says of its parts.
use reserve_auditor.Prelude.{Bool, true, false, not, Option, none, some, ◌≡◌, refl}
use reserve_auditor.Result.{Result, ok, err, panic, ◌>>=◌, ◌>>◌, ok_or, err_if, unwrap}

module _ {E : Type 0} where
  pub bind_ok :
      {A B : Type 0} (m : Result E A) (f : A → Result E B) {b : B}
      → (m >>= f) ≡ ok b
      → (a : A) × (m ≡ ok a) × (f a ≡ ok b)
  bind_ok (ok a) f h = (a, refl, h)
  bind_ok (err e) f h = cc
  bind_ok panic f h = cc

  pub guard_ok :
      {B : Type 0} (c : Bool) (e : E) (k : Result E B) {b : B}
      → (err_if (not c) e >> k) ≡ ok b
      → (c ≡ true) × (k ≡ ok b)
  guard_ok true e k h = (refl, h)
  guard_ok false e k h = cc

  pub err_if_ok :
      {B : Type 0} (c : Bool) (e : E) (k : Result E B) {b : B}
      → (err_if c e >> k) ≡ ok b
      → (c ≡ false) × (k ≡ ok b)
  err_if_ok true e k h = cc
  err_if_ok false e k h = (refl, h)

  pub ok_or_ok :
      {A B : Type 0} (o : Option A) (e : E) (f : A → Result E B) {b : B}
      → (ok_or o e >>= f) ≡ ok b
      → (a : A) × (o ≡ some a) × (f a ≡ ok b)
  ok_or_ok none e f h = cc
  ok_or_ok (some a) e f h = (a, refl, h)

  pub unwrap_ok :
      {A B : Type 0} (o : Option A) (f : A → Result E B) {b : B}
      → (unwrap o >>= f) ≡ ok b
      → (a : A) × (o ≡ some a) × (f a ≡ ok b)
  unwrap_ok none f h = cc
  unwrap_ok (some a) f h = (a, refl, h)

  pub ok_injective : {A : Type 0} (a b : A) → Path (Result E A) (ok a) (ok b) → a ≡ b
  ok_injective a b h = cc
