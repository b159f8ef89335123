-- ===== src/Prelude/Keys.antt =====
-- Primary keys: rows found by a number, and the number that a new row gets.
use Prim.Native.Nat.{ℕ, ◌+◌, ◌<◌}
use mathlib.Core.Path.{◌≡◌, refl, sym, ◌∙◌}
use mathlib.Core.Logic.{◌≢◌, ◌⊎◌, inl, inr}
use mathlib.Core.Bool.{Bool, true, false}
use mathlib.Core.Option.{Option, none, some}
use mathlib.Core.List.{List, [], ◌∷◌, ◌++◌}
use native.Mathlib.Omega.{arith}
use reserve_auditor.Prelude.Tests.{◌==◌, ==-refl, Bool-cases, ltb, if◌then◌else◌}
use reserve_auditor.Prelude.Lists.{
  find, any, All, All-append, All-map, All-find, find-append, find-append_none, any-append,
  head_found, tail_found,
}

-- `id.eq(k)` on a nullable column: NULL equals nothing
abbrev pub is_id : ℕ → Option ℕ → Bool
is_id k none = false
is_id k (some n) = n == k

pub is_id-some : (k : ℕ) (o : Option ℕ) → is_id k o ≡ true → o ≡ some k
is_id-some k none h = cc
is_id-some k (some n) h = ground arith

abbrev larger : Option ℕ → ℕ → ℕ
larger none m = m
larger (some n) m = if ltb m n then n else m

module _ {ℓ} {A : Type ℓ} where
  -- the row with a given primary key
  abbrev pub by_key : (A → Option ℕ) → ℕ → List A → Option A
  by_key key k = find (λ a. is_id k (key a))

  pub max_key : (A → Option ℕ) → List A → ℕ
  max_key key [] = 0
  max_key key (a ∷ xs) = larger (key a) (max_key key xs)

  -- SQLite gives a new row of an INTEGER PRIMARY KEY table one more than the largest key.
  unfoldable pub next_key : (A → Option ℕ) → List A → ℕ
  unfolding max_key
  next_key key xs = max_key key xs + 1

  above_max :
      (key : A → Option ℕ) (k : ℕ) (xs : List A) → max_key key xs < k → by_key key k xs ≡ none
  unfolding max_key
  above_max key k [] h = refl
  above_max key k (a ∷ xs) h = ground (arith, above_max key k xs)

  -- The key that a new row gets is not in use.
  pub by_key-next_key : (key : A → Option ℕ) (xs : List A) → by_key key (next_key key xs) xs ≡ none
  unfolding next_key
  by_key-next_key key xs = above_max key (max_key key xs + 1) xs (omega arith)

  -- A key in use is not the one that a new row gets.
  pub by_key-ne-next_key :
      (key : A → Option ℕ) (k : ℕ) (xs : List A) {a : A}
      → by_key key k xs ≡ some a
      → k ≢ next_key key xs
  by_key-ne-next_key key k xs h e = cc (by_key-next_key key xs)

module _ {ℓ} {A : Type ℓ} where
  -- Every row has a key, and is the row that is found by it.
  abbrev pub OwnKeys : (A → Option ℕ) → List A → Type ℓ
  OwnKeys key xs = All (λ r. (k : ℕ) × (key r ≡ some k) × (by_key key k xs ≡ some r)) xs

  -- No two rows have the same number.
  abbrev pub Distinct : (A → ℕ) → List A → Type 0
  Distinct f [] = Unit
  Distinct f (a ∷ xs) = (any (λ b. f b == f a) xs ≡ false) × Distinct f xs

  pub by_key_new :
      (key : A → Option ℕ) (xs : List A) (r : A)
      → key r ≡ some (next_key key xs)
      → by_key key (next_key key xs) (xs ++ r ∷ []) ≡ some r
  by_key_new key xs r e =
      find-append_none (λ a. is_id (next_key key xs) (key a)) xs (r ∷ []) (by_key-next_key key xs)
      ∙ ground (arith, ==-refl (next_key key xs))

  pub OwnKeys-append :
      (key : A → Option ℕ) (xs : List A) (r : A)
      → OwnKeys key xs
      → key r ≡ some (next_key key xs)
      → OwnKeys key (xs ++ r ∷ [])
  OwnKeys-append key xs r h e =
      All-append (λ a. (k : ℕ) × (key a ≡ some k) × (by_key key k (xs ++ r ∷ []) ≡ some a)) xs
        (r ∷ []) (All-map _ _ (λ a (k, own, found). (k, own, find-append _ xs (r ∷ []) found)) xs h)
        ((next_key key xs, e, by_key_new key xs r e), tt)

  -- A row that a search finds is found by its key.
  pub OwnKeys-find :
      (key : A → Option ℕ) (p : A → Bool) (xs : List A) {r : A}
      → OwnKeys key xs
      → find p xs ≡ some r
      → (k : ℕ) × (key r ≡ some k) × (by_key key k xs ≡ some r)
  OwnKeys-find key p xs h e =
      All-find (λ r. (k : ℕ) × (key r ≡ some k) × (by_key key k xs ≡ some r)) p xs h e

  pub Distinct-append :
      (f : A → ℕ) (xs : List A) (x : A)
      → Distinct f xs
      → any (λ b. f b == f x) xs ≡ false
      → Distinct f (xs ++ x ∷ [])
  Distinct-append f [] x h n = (refl, tt)
  Distinct-append f (a ∷ xs) x h n = (
    ground (arith, any-append (λ b. f b == f a) xs (x ∷ [])),
    Distinct-append f xs x h.1 (ground arith),
  )

  pub any_flip : (f : A → ℕ) (k : ℕ) (xs : List A) → any (λ b. k == f b) xs ≡ any (λ b. f b == k) xs
  any_flip f k [] = refl
  any_flip f k (a ∷ xs) = ground (arith, any_flip f k xs)

module _ {A : Type 0} where
  -- `a` is an element.
  abbrev pub In : A → List A → Type 0
  In a [] = ⊥
  In a (x ∷ xs) = (a ≡ x) ⊎ In a xs

  pub find-In : (p : A → Bool) (xs : List A) {a : A} → find p xs ≡ some a → In a xs
  find-In p [] e = cc
  find-In p (x ∷ xs) e = elim (Bool-cases (p x)) [
    | inl t ↦ inl (sym (head_found p x xs t e))
    | inr f ↦ inr (find-In p xs (tail_found p x xs f e))
  ]
