-- ===== src/Db/SyncBlock/Maps.antt =====
-- The map of balances stays a map of 64-bit numbers through the mints and burns of a block.
use reserve_auditor.Prelude.{
  ℕ, ◌-◌, ◌%◌, ◌+◌, ◌<◌, ◌≡◌, refl, subst, Option, none, some, List, [], ◌∷◌, All, ltb,
  if◌then◌else◌, inl, inr, Option-cases, arith,
}
use reserve_auditor.Prelude.Int.{as_i64, as_u64, u64_mod}
use reserve_auditor.Result.{ok}
use reserve_auditor.Core.{CoreMintTx, TxOut, External}
use reserve_auditor.Db.Models.{Db, MintTx, BurnTxOut}
use reserve_auditor.Db.Monad.{pure, ◌>>=◌}
use reserve_auditor.Db.Monad.Steps.{passed}
use reserve_auditor.Db.BurnTxOuts.{burn_token_id, burn_amount, from_core_tx_out}
use reserve_auditor.Db.BlockAudit.{BalanceMap, balance_of}
use reserve_auditor.Db.BlockAudit.Maps.{IsMap, balance_of-lt, set_balance-IsMap}
use reserve_auditor.Db.SyncBlock.{
  credit, debit, store_mint, store_burn, process_mints, process_burns, burns_of, cons_burn,
}

credit-IsMap : (k a : ℕ) (m : BalanceMap) → k < u64_mod → IsMap m → IsMap (credit k a m)
unfolding credit
credit-IsMap k a m hk h = set_balance-IsMap k ((balance_of k m + a) % u64_mod) m hk (omega arith) h

debit-IsMap : (k a : ℕ) (m : BalanceMap) → k < u64_mod → IsMap m → IsMap (debit k a m)
unfolding debit
debit-IsMap k a m hk h =
    set_balance-IsMap k (if ltb (balance_of k m) a then 0 else balance_of k m - a) m hk
      (ground (arith, balance_of-lt k m h.1)) h

abbrev pub MintsAreU64 : List CoreMintTx → Type 0
MintsAreU64 = All λ tx. tx.token_id < u64_mod

abbrev BurnsAreU64 : List BurnTxOut → Type 0
BurnsAreU64 = All λ b. burn_token_id b < u64_mod

pub process_burns-IsMap :
    (burns : List BurnTxOut) (m : BalanceMap) (db db' : Db) (r : BalanceMap × List BurnTxOut)
    → BurnsAreU64 burns
    → IsMap m
    → process_burns burns m db ≡ (ok r, db')
    → IsMap r.0
unfolding process_burns
process_burns-IsMap [] m db db' r u k h = let e : m ≡ r.0 = ground arith in subst IsMap e k
process_burns-IsMap (b ∷ burns) m db db' r u k h =
    let m' = debit (burn_token_id b) (burn_amount b) m in
    let (row, db1, _, h1) =
      passed (store_burn m b)
        (λ row. process_burns burns m' >>= λ rest. pure (rest.0, row ∷ rest.1)) db h in
    let (rest, db2, h2, h3) =
      passed (process_burns burns m') (λ rest. pure (rest.0, row ∷ rest.1)) db1 h1 in
    let e : rest.0 ≡ r.0 = ground arith in
    subst IsMap e (
      process_burns-IsMap burns m' db1 db2 rest u.1
        (debit-IsMap (burn_token_id b) (burn_amount b) m u.0 k) h2)

cast_lt : (t : ℕ) → as_u64 (as_i64 t) < u64_mod
unfolding as_u64 as_i64
cast_lt t = ground arith

module _ (x : External) where
  pub process_mints-IsMap :
      (i : ℕ) (ts : Option ℕ) (txs : List CoreMintTx) (m : BalanceMap) (db db' : Db)
      (r : BalanceMap × List MintTx)
      → MintsAreU64 txs
      → IsMap m
      → process_mints x i ts txs m db ≡ (ok r, db')
      → IsMap r.0
  unfolding process_mints
  process_mints-IsMap i ts [] m db db' r u k h = let e : m ≡ r.0 = ground arith in subst IsMap e k
  process_mints-IsMap i ts (tx ∷ txs) m db db' r u k h =
      let m' = credit tx.token_id tx.amount m in
      let (row, db1, _, h1) =
        passed (store_mint x i ts tx)
          (λ row. process_mints x i ts txs m' >>= λ rest. pure (rest.0, row ∷ rest.1)) db h in
      let (rest, db2, h2, h3) =
        passed (process_mints x i ts txs m') (λ rest. pure (rest.0, row ∷ rest.1)) db1 h1 in
      let e : rest.0 ≡ r.0 = ground arith in
      subst IsMap e (
        process_mints-IsMap i ts txs m' db1 db2 rest u.1
          (credit-IsMap tx.token_id tx.amount m u.0 k) h2)

  burn-u64 :
      (i : ℕ) (ts : Option ℕ) (o : TxOut) (b : BurnTxOut)
      → from_core_tx_out x i ts o ≡ some b
      → burn_token_id b < u64_mod
  unfolding from_core_tx_out
  burn-u64 i ts o b h = elim (Option-cases (x.view_key_match o)) [
    | inl foreign ↦ ground arith
    | inr (amount, own) ↦
        let e : as_i64 amount.token_id ≡ b.token_id = ground arith in
        subst (λ z. as_u64 z < u64_mod) e (cast_lt amount.token_id)
  ]

  cons-u64 :
      (o : Option BurnTxOut) (burns : List BurnTxOut)
      → ((b : BurnTxOut) → o ≡ some b → burn_token_id b < u64_mod)
      → BurnsAreU64 burns
      → BurnsAreU64 (cons_burn x o burns)
  cons-u64 none burns h k = k
  cons-u64 (some b) burns h k = (h b refl, k)

  pub burns_of-u64 :
      (i : ℕ) (ts : Option ℕ) (outputs : List TxOut) → BurnsAreU64 (burns_of x i ts outputs)
  unfolding burns_of
  burns_of-u64 i ts [] = tt
  burns_of-u64 i ts (o ∷ outputs) =
      cons-u64 (from_core_tx_out x i ts o) (burns_of x i ts outputs) (burn-u64 i ts o)
        (burns_of-u64 i ts outputs)
