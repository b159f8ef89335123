-- ===== src/Prelude/Members.antt =====
-- Elements of lists that are filtered, mapped and searched.
use mathlib.Core.Path.{◌≡◌, refl, sym, ap, subst, ◌∙◌}
use mathlib.Core.Logic.{inl, inr}
use mathlib.Core.Bool.{Bool, true, false}
use mathlib.Core.Option.{none, some}
use mathlib.Core.List.{List, [], ◌∷◌, map}
use native.Mathlib.Omega.{arith}
use reserve_auditor.Prelude.Tests.{Bool-cases, if◌then◌else◌}
use reserve_auditor.Prelude.Lists.{any, filter, find, All}
use reserve_auditor.Prelude.Keys.{In}

module _ {A : Type 0} where
  pub All-In : (P : A → Type 0) (xs : List A) {a : A} → All P xs → In a xs → P a
  All-In P [] h i = elim i [ ]
  All-In P (x ∷ xs) h (inl e) = subst P (sym e) h.0
  All-In P (x ∷ xs) h (inr i) = All-In P xs h.1 i

  pub In-filter : (p : A → Bool) (xs : List A) {a : A} → p a ≡ true → In a xs → In a (filter p xs)
  In-filter p [] h i = elim i [ ]
  In-filter p (x ∷ xs) h (inl e) = let kept : p x ≡ true = ap p (sym e) ∙ h in rw kept (inl e)
  In-filter p (x ∷ xs) h (inr i) = elim (Bool-cases (p x)) [
    | inl t ↦ rw t (inr (In-filter p xs h i))
    | inr f ↦ rw f (In-filter p xs h i)
  ]

  pub filter-In : (p : A → Bool) (xs : List A) {a : A} → In a (filter p xs) → p a ≡ true
  filter-In p [] i = elim i [ ]
  filter-In p (x ∷ xs) {a} i =
      let kept : Bool → List A = λ b. if b then x ∷ filter p xs else filter p xs in
      elim (Bool-cases (p x)) [
        | inl t ↦ elim (subst (λ b. In a (kept b)) t i) [
          | inl e ↦ ap p e ∙ t
          | inr j ↦ filter-In p xs j
        ]
        | inr f ↦ filter-In p xs (subst (λ b. In a (kept b)) f i)
      ]

  pub unfilter-In : (p : A → Bool) (xs : List A) (a : A) → In a (filter p xs) → In a xs
  unfilter-In p [] a i = elim i [ ]
  unfilter-In p (x ∷ xs) a i =
      let kept : Bool → List A = λ b. if b then x ∷ filter p xs else filter p xs in
      elim (Bool-cases (p x)) [
        | inl t ↦ elim (subst (λ b. In a (kept b)) t i) [
          | inl e ↦ inl e
          | inr j ↦ inr (unfilter-In p xs a j)
        ]
        | inr f ↦ inr (unfilter-In p xs a (subst (λ b. In a (kept b)) f i))
      ]

  pub any-In : (p : A → Bool) (xs : List A) → any p xs ≡ true → (a : A) × In a xs × (p a ≡ true)
  any-In p [] e = ground arith
  any-In p (x ∷ xs) e = elim (Bool-cases (p x)) [
    | inl t ↦ (x, inl refl, t)
    | inr f ↦ let (a, i, t) = any-In p xs (ground arith) in (a, inr i, t)
  ]

  pub In-any : (p : A → Bool) (xs : List A) {a : A} → p a ≡ true → In a xs → any p xs ≡ true
  In-any p [] h i = elim i [ ]
  In-any p (x ∷ xs) h (inl e) = let found : p x ≡ true = ap p (sym e) ∙ h in ground arith
  In-any p (x ∷ xs) h (inr i) = ground (arith, In-any p xs h i)

  -- Where an element passes, and is the only one that does, a search finds it.
  pub find-only :
      (p : A → Bool) (xs : List A) (a : A)
      → p a ≡ true
      → In a xs
      → ((b : A) → In b xs → p b ≡ true → b ≡ a)
      → find p xs ≡ some a
  find-only p [] a h i only = elim i [ ]
  find-only p (x ∷ xs) a h i only = elim (Bool-cases (p x)) [
    | inl t ↦ rw t (ap some (only x (inl refl) t))
    | inr f ↦ elim i [
      | inl e ↦ let t : p x ≡ true = ap p (sym e) ∙ h in ground arith
      | inr j ↦ rw f (find-only p xs a h j (λ b k. only b (inr k)))
    ]
  ]

  pub find-In_some :
      (p : A → Bool) (xs : List A) {a : A} → p a ≡ true → In a xs → (b : A) × (find p xs ≡ some b)
  find-In_some p [] h i = elim i [ ]
  find-In_some p (x ∷ xs) h i = elim (Bool-cases (p x)) [
    | inl t ↦ (x, rw t refl)
    | inr f ↦ elim i [
      | inl e ↦ let t : p x ≡ true = ap p (sym e) ∙ h in absurd (ground arith)
      | inr j ↦ let (b, e) = find-In_some p xs h j in (b, rw f e)
    ]
  ]

  pub find-none : (p : A → Bool) (xs : List A) (a : A) → find p xs ≡ none → In a xs → p a ≡ false
  find-none p [] a e i = elim i [ ]
  find-none p (x ∷ xs) a e i = elim (Bool-cases (p x)) [
    | inl t ↦ absurd (ground arith)
    | inr f ↦ elim i [ inl same ↦ ap p same ∙ f | inr j ↦ find-none p xs a (ground arith) j ]
  ]

module _ {A B : Type 0} (f : A → B) where
  pub In-map : (xs : List A) (a : A) → In a xs → In (f a) (map f xs)
  In-map [] a i = elim i [ ]
  In-map (x ∷ xs) a (inl e) = inl (ap f e)
  In-map (x ∷ xs) a (inr i) = inr (In-map xs a i)

  pub map-In : (xs : List A) {b : B} → In b (map f xs) → (a : A) × In a xs × (b ≡ f a)
  map-In [] i = elim i [ ]
  map-In (x ∷ xs) (inl e) = (x, inl refl, e)
  map-In (x ∷ xs) (inr i) = let (a, j, e) = map-In xs i in (a, inr j, e)
