-- ===== src/Prelude/Int.antt =====
-- Rust's `i64` as the integer that it stands for, and the casts `as i64` and `as u64`, which keep
-- the 64 bits.
use Prim.Native.Nat.{ℕ, suc, ◌+◌, ◌-◌, ◌^◌, ◌<◌}
use mathlib.Core.Path.{◌≡◌}
use mathlib.Core.Bool.{Bool, true, false}
use native.Mathlib.Omega.{arith}
use reserve_auditor.Prelude.Tests.{ltb, ◌==◌, if◌then◌else◌}

-- `negsuc n` is -(n + 1)
pub data ℤ : Type 0 where
  pos : ℕ → ℤ
  negsuc : ℕ → ℤ

abbrev pub pos_part : ℤ → ℕ
pos_part (pos n) = n
pos_part (negsuc _) = 0

abbrev pub neg_part : ℤ → ℕ
neg_part (pos _) = 0
neg_part (negsuc n) = suc n

-- the order of SQLite's integers
abbrev pub ltb_ℤ : ℤ → ℤ → Bool
ltb_ℤ a b = ltb (pos_part a + neg_part b) (pos_part b + neg_part a)

infix 50 ◌==ℤ◌
abbrev pub ◌==ℤ◌ : ℤ → ℤ → Bool
pos a ==ℤ pos b = a == b
negsuc a ==ℤ negsuc b = a == b
_ ==ℤ _ = false

abbrev pub u64_mod : ℕ
u64_mod = 2 ^ 64

-- `n as i64` for a `u64`
unfoldable pub as_i64 : ℕ → ℤ
as_i64 n = if ltb n (2 ^ 63) then pos n else negsuc (2 ^ 64 - n - 1)

-- `z as u64` for an `i64`
unfoldable pub as_u64 : ℤ → ℕ
as_u64 (pos n) = n
as_u64 (negsuc n) = 2 ^ 64 - n - 1

-- the range of an `i64`
abbrev pub IsI64 : ℤ → Type 0
IsI64 (pos n) = n < 2 ^ 63
IsI64 (negsuc n) = n < 2 ^ 63

pub as_u64-as_i64 : (n : ℕ) → n < u64_mod → as_u64 (as_i64 n) ≡ n
unfolding as_i64 as_u64
as_u64-as_i64 n h = ground arith

pub as_i64-as_u64 : (z : ℤ) → IsI64 z → as_i64 (as_u64 z) ≡ z
unfolding as_i64 as_u64
as_i64-as_u64 (pos n) h = ground arith
as_i64-as_u64 (negsuc n) h = ground arith

pub as_i64-==ℤ : (a b : ℕ) → a < u64_mod → b < u64_mod → (as_i64 a ==ℤ as_i64 b) ≡ (a == b)
unfolding as_i64
as_i64-==ℤ a b ha hb = ground arith

-- Below 2 ^ 63 the signed order is the order of the unsigned numbers.
pub as_i64-ltb_ℤ : (a b : ℕ) → a < 2 ^ 63 → b < 2 ^ 63 → ltb_ℤ (as_i64 a) (as_i64 b) ≡ ltb a b
unfolding as_i64
as_i64-ltb_ℤ a b ha hb = ground arith

pub ==ℤ-refl : (a : ℤ) → (a ==ℤ a) ≡ true
==ℤ-refl (pos n) = ground arith
==ℤ-refl (negsuc n) = ground arith

pub eq_of_==ℤ : (a b : ℤ) → (a ==ℤ b) ≡ true → a ≡ b
eq_of_==ℤ (pos a) (pos b) h = ground arith
eq_of_==ℤ (negsuc a) (negsuc b) h = ground arith
eq_of_==ℤ (pos a) (negsuc b) h = cc
eq_of_==ℤ (negsuc a) (pos b) h = cc
