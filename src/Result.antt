-- ===== src/Result.antt =====
-- What a call of the program ends in: a value, an error, or a panic (an `unwrap`, an `expect` or an
-- index out of bounds), with the `?` operator as the bind of a `do` block.
pub mod Inversion
use reserve_auditor.Prelude.{⊤, Bool, true, false, Option, none, some}

pub data Result (E A : Type 0) : Type 0 where
  ok : A → Result E A
  err : E → Result E A
  panic : Result E A

module _ {E : Type 0} where
  infixl 5 ◌>>=◌ ◌>>◌
  abbrev pub ◌>>=◌ : {A B : Type 0} → Result E A → (A → Result E B) → Result E B
  ok a >>= f = f a
  err e >>= f = err e
  panic >>= f = panic

  abbrev pub ◌>>◌ : {B : Type 0} → Result E ⊤ → Result E B → Result E B
  m >> k = m >>= λ _. k

  -- `ok_or(e)?`
  abbrev pub ok_or : {A : Type 0} → Option A → E → Result E A
  ok_or none e = err e
  ok_or (some a) e = ok a

  -- `if c { return Err(e); }`
  abbrev pub err_if : Bool → E → Result E ⊤
  err_if true e = err e
  err_if false e = ok tt

  -- `unwrap()` of an option
  abbrev pub unwrap : {A : Type 0} → Option A → Result E A
  unwrap none = panic
  unwrap (some a) = ok a

  -- `ok()`
  abbrev pub to_option : {A : Type 0} → Result E A → Option A
  to_option (ok a) = some a
  to_option (err e) = none
  to_option panic = none

-- `map_err(f)`, and `?` where the error types differ
abbrev pub map_err : {E F A : Type 0} → (E → F) → Result E A → Result F A
map_err f (ok a) = ok a
map_err f (err e) = err (f e)
map_err f panic = panic
