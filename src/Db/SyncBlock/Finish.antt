-- ===== src/Db/SyncBlock/Finish.antt =====
-- What the end of a block leaves: one more block counted and recorded, and stored balances.
use reserve_auditor.Prelude.{
  ℕ, ◌+◌, ◌≡◌, ◌∙◌, refl, sym, ap, not, ◌++◌, some, List, [], ◌∷◌, ⊤, find, filter, map, append-nil,
  append-cons, arith,
}
use reserve_auditor.Prelude.Int.{ℤ, as_i64, ◌==ℤ◌, ==ℤ-refl}
use reserve_auditor.Result.{Result, ok, ok_or}
use reserve_auditor.Error.{Error, not_found}
use reserve_auditor.Db.Models.{Db, BlockAuditData, BlockBalance, MintTx, BurnTxOut}
use reserve_auditor.Db.Monad.{pure, for_each, ◌>>◌}
use reserve_auditor.Db.Monad.Steps.{passed}
use reserve_auditor.Db.Transaction.{transaction-ok_inv}
use reserve_auditor.Db.Counters.{inc, bump, num_blocks_synced}
use reserve_auditor.Db.BlockAudit.{
  BalanceMap, get_block_audit_data, set_block_audit_data, new_block_audit_data,
  set_balances_for_block, insert_block_balance, new_block_balance,
}
use reserve_auditor.Db.SyncBlock.{SyncBlockData, finish_block}
use reserve_auditor.Db.SyncBlock.Frame.{View, view, blocks_synced}

-- rows added to the table of balances
abbrev with_rows : List BlockBalance → Db → Db
with_rows rows db = record db { block_balance = db.block_balance ++ rows }

-- what the storing of a map of balances does
abbrev pub balance_rows : ℕ → BalanceMap → List BlockBalance
balance_rows i = map (new_block_balance i)

insert_balance-ok :
    (b : BlockBalance) (db db' : Db)
    → insert_block_balance b db ≡ (ok tt, db')
    → db' ≡ with_rows (b ∷ []) db
unfolding insert_block_balance
insert_balance-ok b db db' h = ground arith

insert_balances-ok :
    (i : ℕ) (m : BalanceMap) (db db' : Db)
    → for_each (λ b. insert_block_balance (new_block_balance i b)) m db ≡ (ok tt, db')
    → db' ≡ with_rows (balance_rows i m) db
insert_balances-ok i [] db db' h =
    ap (λ (r : Result Error ⊤ × Db). r.1) (sym h)
    ∙ ap (λ rows. record db { block_balance = rows }) (sym (append-nil db.block_balance))
insert_balances-ok i (b ∷ m) db db' h =
    let (_, db1, h1, h2) =
      passed (insert_block_balance (new_block_balance i b))
        (λ _. for_each (λ b. insert_block_balance (new_block_balance i b)) m) db h in
    insert_balances-ok i m db1 db' h2
    ∙ ap (with_rows (balance_rows i m)) (insert_balance-ok (new_block_balance i b) db db1 h1)
    ∙ ap (λ rows. record db { block_balance = rows })
        (append-cons db.block_balance (new_block_balance i b) (balance_rows i m))

set_balances-ok :
    (i : ℕ) (m : BalanceMap) (db db' : Db)
    → set_balances_for_block i m db ≡ (ok tt, db')
    → db' ≡ with_rows (balance_rows i m) db
unfolding set_balances_for_block
set_balances-ok i m db db' h =
    insert_balances-ok i m db db'
      (transaction-ok_inv (for_each (λ b. insert_block_balance (new_block_balance i b)) m) db h)

-- the rows of the synced blocks, once a block is recorded
abbrev pub recorded_rows : ℕ → List BlockAuditData → List BlockAuditData
recorded_rows i rows =
    filter (λ b. not (b.block_index ==ℤ as_i64 i)) rows ++ new_block_audit_data i ∷ []

-- counting a block: a success adds one and changes nothing else of the view
inc_block-view :
    (db db' : Db)
    → inc num_blocks_synced db ≡ (ok tt, db')
    → view db' ≡ record (view db) { synced = blocks_synced db + 1 }
unfolding inc bump
inc_block-view db db' h = ground arith

find_replaced :
    (i : ℤ) (rows : List BlockAuditData) (b : BlockAuditData)
    → b.block_index ≡ i
    → find (λ r. r.block_index ==ℤ i) (filter (λ r. not (r.block_index ==ℤ i)) rows ++ b ∷ [])
      ≡ some b
find_replaced i [] b e = rw (e, ==ℤ-refl i) refl
find_replaced i (r ∷ rows) b e = ground (arith, find_replaced i rows b e)

pub finish-ok :
    (i : ℕ) (minted : BalanceMap × List MintTx) (burned : BalanceMap × List BurnTxOut) (db db' : Db)
    (r : SyncBlockData)
    → finish_block i minted burned db ≡ (ok r, db')
    → (r.balance_map ≡ burned.0)
      × (blocks_synced db' ≡ blocks_synced db + 1)
      × (get_block_audit_data i db' ≡ ok r.block_audit)
      × (db'.gnosis_safe_deposits ≡ db.gnosis_safe_deposits)
      × (db'.gnosis_safe_withdrawals ≡ db.gnosis_safe_withdrawals)
      × (db'.audited_mints ≡ db.audited_mints)
      × (db'.audited_burns ≡ db.audited_burns)
      × (db'.block_audit_data ≡ recorded_rows i db.block_audit_data)
      × (db'.block_balance ≡ db.block_balance ++ balance_rows i r.balance_map)
unfolding finish_block set_block_audit_data get_block_audit_data
finish-ok i minted burned db db' r h =
    let result : SyncBlockData = record {
      block_audit = new_block_audit_data i;
      balance_map = burned.0;
      mint_txs = minted.1;
      burn_tx_outs = burned.1;
    } in
    let (_, db1, h1, h2) =
      passed (inc num_blocks_synced)
        (λ _.
          set_block_audit_data (new_block_audit_data i)
          >> (set_balances_for_block i burned.0 >> pure result))
        db h in
    let (_, db2, h3, h4) =
      passed (set_block_audit_data (new_block_audit_data i))
        (λ _. set_balances_for_block i burned.0 >> pure result) db1 h2 in
    let (_, db3, h5, h6) = passed (set_balances_for_block i burned.0) (λ _. pure result) db2 h4 in
    let v1 = inc_block-view db db1 h1 in
    let v2 : view db2 ≡ record (view db1) { audit = recorded_rows i db1.block_audit_data } =
      sym (ap (λ (p : Result Error ⊤ × Db). view p.1) h3) in
    let v3 = ap view (set_balances-ok i burned.0 db2 db3 h5) in
    let v4 : view db' ≡ view db3 =
      sym (ap (λ (p : Result Error SyncBlockData × Db). view p.1) h6) in
    let er : result ≡ r = ground arith in
    let v = v4 ∙ v3 in
    (
      ap (λ (d : SyncBlockData). d.balance_map) (sym er),
      ap (λ (u : View). u.synced) v
          ∙ ap (λ (u : View). u.synced) v2
          ∙ ap (λ (u : View). u.synced) v1,
      ap (λ rows. ok_or (find (λ (b : BlockAuditData). b.block_index ==ℤ as_i64 i) rows) not_found)
            (ap (λ (u : View). u.audit) v ∙ ap (λ (u : View). u.audit) v2)
          ∙ ap (λ o. ok_or o not_found)
              (find_replaced (as_i64 i) db1.block_audit_data (new_block_audit_data i) refl)
          ∙ ap (λ (d : SyncBlockData). ok d.block_audit) er,
      ap (λ (u : View). u.deposits) v
          ∙ ap (λ (u : View). u.deposits) v2
          ∙ ap (λ (u : View). u.deposits) v1,
      ap (λ (u : View). u.withdrawals) v
          ∙ ap (λ (u : View). u.withdrawals) v2
          ∙ ap (λ (u : View). u.withdrawals) v1,
      ap (λ (u : View). u.mints) v ∙ ap (λ (u : View). u.mints) v2 ∙ ap (λ (u : View). u.mints) v1,
      ap (λ (u : View). u.burns) v ∙ ap (λ (u : View). u.burns) v2 ∙ ap (λ (u : View). u.burns) v1,
      ap (λ (u : View). u.audit) v
          ∙ ap (λ (u : View). u.audit) v2
          ∙ ap (λ (u : View). recorded_rows i u.audit) v1,
      ap (λ (u : View). u.balances) v
          ∙ ap (λ (u : View). u.balances ++ balance_rows i burned.0) v2
          ∙ ap (λ (u : View). u.balances ++ balance_rows i burned.0) v1
          ∙ ap (λ (d : SyncBlockData). db.block_balance ++ balance_rows i d.balance_map) er,
    )
