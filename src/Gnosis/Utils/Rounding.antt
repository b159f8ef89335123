-- ===== src/Gnosis/Utils/Rounding.antt =====
-- `truncate_value` rounds down, and panics when the result is no `u64`.
use reserve_auditor.Prelude.{
  ℕ, zero, suc, ◌+◌, ◌-◌, ◌*◌, ◌/◌, ◌^◌, ◌≤◌, ◌<◌, ◌≡◌, ◌↔◌, refl, Bool, true, inl, inr, Bool-cases,
  ◌&&◌, ◌==◌, ltb, if◌then◌else◌, arith,
}
use reserve_auditor.Prelude.Int.{u64_mod}
use reserve_auditor.Gnosis.Types.{u128_mod}
use reserve_auditor.Gnosis.Utils.{pow10_u128, expect_u64, truncate_value}
use reserve_auditor.Result.{ok, panic}

-- the powers of ten that fit a `u128`
abbrev fits : ℕ → Bool
fits k = ltb 0 (10 ^ k) && ltb (10 ^ k) u128_mod

-- every power below the exponent fits
smaller_fit : ℕ → Bool
smaller_fit zero = true
smaller_fit (suc e) = smaller_fit e && fits e

fits-smaller_fit : (e k : ℕ) → k < e → smaller_fit e ≡ true → fits k ≡ true
unfolding smaller_fit
fits-smaller_fit zero k less h = absurd (omega arith)
fits-smaller_fit (suc e) k less h = elim (Bool-cases (k == e)) [
  | inl same ↦ let e' : k ≡ e = ground arith in rw e' (ground arith)
  | inr other ↦ fits-smaller_fit e k (ground arith) (ground arith)
]

all_39 : smaller_fit 39 ≡ true
unfolding smaller_fit
all_39 = refl

pow10_fits : (k : ℕ) → k < 39 → fits k ≡ true
pow10_fits k h = fits-smaller_fit 39 k h all_39

-- Dividing by a positive number is rounding down.
div_bounds : (v d : ℕ) → 0 < d → (v / d * d ≤ v) × (v < (v / d + 1) * d)
div_bounds v d h = grind arith

-- A value with at most 38 digits to drop: the quotient if it is a `u64`, else a panic.
pub truncate_value_lem :
    (v td md : ℕ)
    → td - md < 39
    → truncate_value v td md
      ≡ (if ltb (v / 10 ^ (td - md)) u64_mod then ok (v / 10 ^ (td - md)) else panic)
unfolding truncate_value pow10_u128
truncate_value_lem v td md k = elim (Bool-cases (ltb md td)) [
  | inl larger ↦ ground (arith, pow10_fits (td - md) k)
  | inr same ↦ let e : td - md ≡ 0 = ground arith in rw (same, e) (ground arith)
]

pow10_pos : (k : ℕ) → k < 39 → 0 < 10 ^ k
pow10_pos k h = ground (arith, pow10_fits k h)

div_unique : (v d q : ℕ) → q * d ≤ v → v < (q + 1) * d → v / d ≡ q
div_unique v d q a b = grind arith

-- What the test for a `u64` lets through.
expected : (n q : ℕ) → expect_u64 n ≡ ok q → (n ≡ q) × (q < u64_mod)
expected n q h = ground arith

-- With at most 38 digits to drop, the result is `q` exactly when `q` is a `u64` and the value lies
-- from `q` times the power of ten up to, but not including, `q + 1` times it.
pub truncate_value_iff :
    (v td md q : ℕ)
    → td - md < 39
    → (truncate_value v td md ≡ ok q)
      ↔ ((q < u64_mod) × (q * 10 ^ (td - md) ≤ v) × (v < (q + 1) * 10 ^ (td - md)))
truncate_value_iff v td md q k = rw (truncate_value_lem v td md k) (
  λ h.
      let (e, small) = expected (v / 10 ^ (td - md)) q h in
      (
        small,
        rw (← e) (div_bounds v _ (pow10_pos _ k)).0,
        rw (← e) (div_bounds v _ (pow10_pos _ k)).1,
      ),
  λ (a, b, c). rw (div_unique v _ q b c) (ground arith),
)
