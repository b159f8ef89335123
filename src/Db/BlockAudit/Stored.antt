-- ===== src/Db/BlockAudit/Stored.antt =====
-- Balances that are stored for a block are read back (src/db/models/block_balance.rs).
use reserve_auditor.Prelude.{
  ℕ, ◌+◌, ◌<◌, ◌≡◌, ◌∙◌, refl, ap, Bool, false, Bool-cases, inl, inr, List, [], ◌∷◌, ◌++◌, map,
  filter, filter-append, All, All-append, All-map, arith,
}
use reserve_auditor.Prelude.Int.{
  ℤ, pos, negsuc, IsI64, as_i64, as_u64, u64_mod, as_u64-as_i64, as_i64-==ℤ, ==ℤ-refl, ◌==ℤ◌,
}
use reserve_auditor.Db.Models.{Db, BlockBalance}
use reserve_auditor.Db.BlockAudit.{
  BalanceMap, balance_of, collect, get_balances_for_block, new_block_balance,
}
use reserve_auditor.Db.BlockAudit.Maps.{IsMap, IsU64Pair, collect-IsMap, collect_same}

pub as_i64-IsI64 : (n : ℕ) → n < u64_mod → IsI64 (as_i64 n)
unfolding as_i64
as_i64-IsI64 n h = ground arith

pub as_u64-lt : (z : ℤ) → IsI64 z → as_u64 z < u64_mod
unfolding as_u64
as_u64-lt (pos n) h = omega arith
as_u64-lt (negsuc n) h = omega arith

-- the row is of an earlier block than the `n`th
abbrev pub Before : ℕ → ℤ → Type 0
Before n z = (j : ℕ) × (j < n) × (z ≡ as_i64 j)

pub Before-ne : (n : ℕ) (z : ℤ) → n < u64_mod → Before n z → (z ==ℤ as_i64 n) ≡ false
Before-ne n z h (j, lt, e) =
    ap (λ z. z ==ℤ as_i64 n) e ∙ as_i64-==ℤ j n (omega arith) h ∙ ground arith

pub Before-suc : (n : ℕ) (z : ℤ) → Before n z → Before (n + 1) z
Before-suc n z (j, lt, e) = (j, omega arith, e)

-- a row of the table, with columns of 64 bits
abbrev pub IsBalanceRow : ℕ → BlockBalance → Type 0
IsBalanceRow n r = Before n r.block_index × IsI64 r.token_id × IsI64 r.balance

module _ (i : ℕ) (small : i < u64_mod) where
  earlier_rows :
      (rows : List BlockBalance)
      → All (IsBalanceRow i) rows
      → filter (λ r. r.block_index ==ℤ as_i64 i) rows ≡ []
  earlier_rows [] h = refl
  earlier_rows (r ∷ rows) h =
      ground (arith, Before-ne i r.block_index small h.0.0, earlier_rows rows h.1)

  own_rows :
      (m : BalanceMap)
      → filter (λ r. r.block_index ==ℤ as_i64 i) (map (new_block_balance i) m)
        ≡ map (new_block_balance i) m
  own_rows [] = refl
  own_rows ((k, v) ∷ m) = ground (arith, ==ℤ-refl (as_i64 i), own_rows m)

  read_rows :
      (m : BalanceMap)
      → All IsU64Pair m
      → map (λ r. (as_u64 r.token_id, as_u64 r.balance)) (map (new_block_balance i) m) ≡ m
  read_rows [] h = refl
  read_rows ((k, v) ∷ m) h = cc (as_u64-as_i64 k h.0.0, as_u64-as_i64 v h.0.1, read_rows m h.1)

  -- The balances of a block are those of the map that was stored for it.
  pub read_balances :
      (k : ℕ) (m : BalanceMap) (db db' : Db)
      → All (IsBalanceRow i) db.block_balance
      → IsMap m
      → db'.block_balance ≡ db.block_balance ++ map (new_block_balance i) m
      → balance_of k (get_balances_for_block i db') ≡ balance_of k m
  unfolding get_balances_for_block
  read_balances k m db db' old h e =
      let of_block : List BlockBalance → List BlockBalance =
        filter (λ r. r.block_index ==ℤ as_i64 i) in
      let read : List BlockBalance → BalanceMap =
        map (λ r. (as_u64 r.token_id, as_u64 r.balance)) in
      let rows : of_block db'.block_balance ≡ map (new_block_balance i) m =
        ap of_block e
        ∙ filter-append _ db.block_balance (map (new_block_balance i) m)
        ∙ ap (λ l. l ++ of_block (map (new_block_balance i) m)) (earlier_rows db.block_balance old)
        ∙ own_rows m in
      ap (λ l. balance_of k (collect [] (read l))) rows
      ∙ ap (λ l. balance_of k (collect [] l)) (read_rows m h.1)
      ∙ collect_same k m h.0

  -- The rows that a map of 64-bit numbers becomes.
  new_rows :
      (m : BalanceMap) → All IsU64Pair m → All (IsBalanceRow (i + 1)) (map (new_block_balance i) m)
  new_rows [] h = tt
  new_rows ((k, v) ∷ m) h =
      (((i, omega arith, refl), as_i64-IsI64 k h.0.0, as_i64-IsI64 v h.0.1), new_rows m h.1)

  pub rows_after :
      (m : BalanceMap) (rows : List BlockBalance)
      → All (IsBalanceRow i) rows
      → All IsU64Pair m
      → All (IsBalanceRow (i + 1)) (rows ++ map (new_block_balance i) m)
  rows_after m rows old h =
      All-append _ rows _
        (All-map _ _ (λ r (b, t, v). (Before-suc i r.block_index b, t, v)) rows old) (new_rows m h)

read_pairs :
    (p : BlockBalance → Bool) (n : ℕ) (rows : List BlockBalance)
    → All (IsBalanceRow n) rows
    → All IsU64Pair (map (λ r. (as_u64 r.token_id, as_u64 r.balance)) (filter p rows))
read_pairs p n [] h = tt
read_pairs p n (r ∷ rows) h = elim (Bool-cases (p r)) [
  | inl t ↦ rw t ((as_u64-lt r.token_id h.0.1, as_u64-lt r.balance h.0.2), read_pairs p n rows h.1)
  | inr f ↦ rw f (read_pairs p n rows h.1)
]

-- Whatever is read is a map of 64-bit numbers.
pub get_balances-IsMap :
    (i n : ℕ) (db : Db)
    → All (IsBalanceRow n) db.block_balance
    → IsMap (get_balances_for_block i db)
unfolding get_balances_for_block
get_balances-IsMap i n db h =
    collect-IsMap _ [] (read_pairs (λ r. r.block_index ==ℤ as_i64 i) n db.block_balance h) (tt, tt)
