-- ===== src/Db/SyncBlock/Accounting.antt =====
-- The balances that a block leaves: each token's own mints are added and its own burns taken away.
use reserve_auditor.Prelude.{
  ℕ, ◌+◌, ◌-◌, ◌%◌, ◌<◌, ◌≡◌, Option, List, [], ◌∷◌, ltb, ◌==◌, if◌then◌else◌, Bool-cases, eq_of_==,
  inl, inr, arith,
}
use reserve_auditor.Prelude.Int.{u64_mod}
use reserve_auditor.Result.{ok}
use reserve_auditor.Core.{CoreMintTx, External}
use reserve_auditor.Db.Models.{Db, MintTx, BurnTxOut}
use reserve_auditor.Db.Monad.Steps.{passed}
use reserve_auditor.Db.BurnTxOuts.{burn_token_id, burn_amount}
use reserve_auditor.Db.BlockAudit.{BalanceMap, balance_of}
use reserve_auditor.Db.BlockAudit.Balances.{balance_of-set_self, balance_of-set_ne}
use reserve_auditor.Db.SyncBlock.{
  credit, debit, store_mint, store_burn, process_mints, process_burns,
}
use reserve_auditor.Db.Monad.{pure, ◌>>=◌}

-- what the mints and the burns of one token add up to
pub minted_of : ℕ → List CoreMintTx → ℕ
minted_of k [] = 0
minted_of k (tx ∷ txs) = (if tx.token_id == k then tx.amount else 0) + minted_of k txs

pub burned_of : ℕ → List BurnTxOut → ℕ
burned_of k [] = 0
burned_of k (b ∷ burns) = (if burn_token_id b == k then burn_amount b else 0) + burned_of k burns

balance_of-credit :
    (k t a : ℕ) (m : BalanceMap)
    → balance_of k m < u64_mod
    → balance_of k (credit t a m) ≡ (balance_of k m + (if t == k then a else 0)) % u64_mod
unfolding credit
balance_of-credit k t a m h = elim (Bool-cases (t == k)) [
  | inl e ↦
      let same : t ≡ k = eq_of_== t k e in
      ground (arith, balance_of-set_self k ((balance_of k m + a) % u64_mod) m)
  | inr e ↦ ground (arith, balance_of-set_ne k t ((balance_of t m + a) % u64_mod) m (ground arith))
]

balance_of-debit :
    (k t a : ℕ) (m : BalanceMap)
    → balance_of k (debit t a m) ≡ balance_of k m - (if t == k then a else 0)
unfolding debit
balance_of-debit k t a m = elim (Bool-cases (t == k)) [
  | inl e ↦
      let same : t ≡ k = eq_of_== t k e in
      ground
        (arith, balance_of-set_self k (if ltb (balance_of k m) a then 0 else balance_of k m - a) m)
  | inr e ↦ ground (
    arith,
    balance_of-set_ne k t (if ltb (balance_of t m) a then 0 else balance_of t m - a) m
        (ground arith),
  )
]

-- Whatever is stored, counted or looked up on the way, a run of burns that succeeds takes from each
-- token's balance the sum of its own burns, and stops at 0.
pub process_burns-balance_of :
    (k : ℕ) (burns : List BurnTxOut) (m : BalanceMap) (db db' : Db)
    (r : BalanceMap × List BurnTxOut)
    → process_burns burns m db ≡ (ok r, db')
    → balance_of k r.0 ≡ balance_of k m - burned_of k burns
unfolding process_burns burned_of
process_burns-balance_of k [] m db db' r h = let e : r.0 ≡ m = ground arith in ground arith
process_burns-balance_of k (b ∷ burns) m db db' r h =
    let m' = debit (burn_token_id b) (burn_amount b) m in
    let (row, db1, _, h1) =
      passed (store_burn m b)
        (λ row. process_burns burns m' >>= λ rest. pure (rest.0, row ∷ rest.1)) db h in
    let (rest, db2, h2, h3) =
      passed (process_burns burns m') (λ rest. pure (rest.0, row ∷ rest.1)) db1 h1 in
    let e : r.0 ≡ rest.0 = ground arith in
    ground (
      arith,
      process_burns-balance_of k burns m' db1 db2 rest h2,
      balance_of-debit k (burn_token_id b) (burn_amount b) m,
    )

module _ (x : External) where
  -- A run of mints that succeeds adds to each token's balance the sum of its own mints, modulo
  -- 2 ^ 64, where that balance is below 2 ^ 64 before.
  pub process_mints-balance_of :
      (k block_index : ℕ) (timestamp : Option ℕ) (txs : List CoreMintTx) (m : BalanceMap)
      (db db' : Db) (r : BalanceMap × List MintTx)
      → balance_of k m < u64_mod
      → process_mints x block_index timestamp txs m db ≡ (ok r, db')
      → balance_of k r.0 ≡ (balance_of k m + minted_of k txs) % u64_mod
  unfolding process_mints minted_of
  process_mints-balance_of k i t [] m db db' r b h = let e : r.0 ≡ m = ground arith in ground arith
  process_mints-balance_of k i t (tx ∷ txs) m db db' r b h =
      let m' = credit tx.token_id tx.amount m in
      let (row, db1, _, h1) =
        passed (store_mint x i t tx)
          (λ row. process_mints x i t txs m' >>= λ rest. pure (rest.0, row ∷ rest.1)) db h in
      let (rest, db2, h2, h3) =
        passed (process_mints x i t txs m') (λ rest. pure (rest.0, row ∷ rest.1)) db1 h1 in
      let e : r.0 ≡ rest.0 = ground arith in
      let step = balance_of-credit k tx.token_id tx.amount m b in
      ground
        (arith, process_mints-balance_of k i t txs m' db1 db2 rest (rw step (omega arith)) h2, step)
