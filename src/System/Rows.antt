-- ===== src/System/Rows.antt =====
-- The rows that syncing a block hands on to the audit are the rows that it has stored.
use reserve_auditor.Prelude.{
  ℕ, ⊤, ◌≡◌, ◌∙◌, refl, sym, ap, subst, subst₂, not, Option, some, List, [], ◌∷◌, ◌++◌, inl, inr,
  All, All-map, by_key, next_key, by_key_new, find-append, ltb, arith, ◌==◌,
}
use reserve_auditor.Result.{Result, ok, err}
use reserve_auditor.Error.{Error, unexpected_block_index}
use reserve_auditor.Core.{Block, BlockContents, CoreMintTx, External}
use reserve_auditor.Db.Models.{
  Db, MintTx, BurnTxOut, MintConfig, MintConfigTx, BlockAuditData, BlockBalance,
}
use reserve_auditor.Db.Monad.{Sql, lift, pure, gets, raise_if, ◌>>=◌, ◌>>◌}
use reserve_auditor.Db.Monad.Steps.{Keeps, passed}
use reserve_auditor.Db.Transaction.{transaction-ok_inv}
use reserve_auditor.Db.Counters.{
  CounterName, inc, get_counters, num_blocks_synced, num_burns_exceeding_balance,
}
use reserve_auditor.Db.MintTxs.{mint_key, insert_mint_tx, from_core_mint_tx}
use reserve_auditor.Db.MintTxs.Insertion.{keyed_mint, with_mint, insert_mint_tx_cases}
use reserve_auditor.Db.MintConfigs.{insert_mint_config, insert_config_tx_row}
use reserve_auditor.Db.BurnTxOuts.{burn_key, burn_token_id, burn_amount, insert_burn}
use reserve_auditor.Db.BurnTxOuts.Insertion.{keyed_burn, with_burn, insert_burn_cases}
use reserve_auditor.Db.BlockAudit.{
  BalanceMap, balance_of, set_block_audit_data, insert_block_balance, new_block_audit_data,
  set_balances_for_block,
}
use reserve_auditor.Db.SyncBlock.{
  SyncBlockData, when, credit, debit, store_mint, store_burn, process_mints, process_burns,
  burns_of, insert_from_core_mint_tx, lookup_mint_config, count_unmatched, config_id, finish_block,
  process_contents, previous_balances, store_config_txs, sync_steps, sync_block_with_conn,
}
use reserve_auditor.Db.SyncBlock.Parts.{
  StoresKeep, FinishKeeps, process_mints-Keeps, process_burns-Keeps, finish-Keeps,
}
use reserve_auditor.Audit.Mint.Keeps.{IsStoredMint}
use reserve_auditor.Audit.Burn.Keeps.{IsStoredBurn}

-- the row is found by its key
abbrev HasRow : {A : Type 0} → (A → Option ℕ) → A → List A → Type 0
HasRow key r rows = (j : ℕ) → key r ≡ some j → by_key key j rows ≡ some r

HasRow-append :
    {A : Type 0} (key : A → Option ℕ) (r : A) (rows new : List A)
    → HasRow key r rows
    → HasRow key r (rows ++ new)
HasRow-append key r rows new h j e = find-append _ rows new (h j e)

HasRow-new :
    {A : Type 0} (key : A → Option ℕ) (r : A) (rows : List A)
    → key r ≡ some (next_key key rows)
    → HasRow key r (rows ++ r ∷ [])
HasRow-new key r rows own j e =
    let same : next_key key rows ≡ j = cc in
    subst (λ n. by_key key n (rows ++ r ∷ []) ≡ some r) same (by_key_new key rows r own)

-- all of these rows are in the database
abbrev pub HasRows : List MintTx → List BurnTxOut → Db → Type 0
HasRows mints burns db = All (IsStoredMint db) mints × All (IsStoredBurn db) burns

module _ (mints : List MintTx) (burns : List BurnTxOut) where
  abbrev InTables : List MintTx → List BurnTxOut → Type 0
  InTables ms bs = All (λ m. HasRow mint_key m ms) mints × All (λ b. HasRow burn_key b bs) burns

  same_tables :
      (db db' : Db)
      → Path
          (List MintTx × List BurnTxOut)
          (db'.mint_txs, db'.burn_tx_outs)
          (db.mint_txs, db.burn_tx_outs)
      → HasRows mints burns db
      → HasRows mints burns db'
  same_tables db db' e h = subst (λ (t : List MintTx × List BurnTxOut). InTables t.0 t.1) (sym e) h

  inc-HasRows : (n : CounterName) → Keeps (HasRows mints burns) (inc n)
  unfolding inc
  inc-HasRows n db h = same_tables db (inc n db).1 (ground arith) h

  config-HasRows : (c : MintConfig) → Keeps (HasRows mints burns) (insert_mint_config c)
  unfolding insert_mint_config
  config-HasRows c db h = same_tables db (insert_mint_config c db).1 (ground arith) h

  config_row-HasRows :
      (x : External) (t : MintConfigTx) → Keeps (HasRows mints burns) (insert_config_tx_row x t)
  unfolding insert_config_tx_row
  config_row-HasRows x t db h = same_tables db (insert_config_tx_row x t db).1 (ground arith) h

  audit-HasRows : (b : BlockAuditData) → Keeps (HasRows mints burns) (set_block_audit_data b)
  unfolding set_block_audit_data
  audit-HasRows b db h = h

  balance-HasRows : (b : BlockBalance) → Keeps (HasRows mints burns) (insert_block_balance b)
  unfolding insert_block_balance
  balance-HasRows b db h = same_tables db (insert_block_balance b db).1 (ground arith) h

  more_mints :
      (db : Db) (new : List MintTx)
      → HasRows mints burns db
      → HasRows mints burns (record db { mint_txs = db.mint_txs ++ new })
  more_mints db new h =
      (All-map _ _ (λ m k. HasRow-append mint_key m db.mint_txs new k) mints h.0, h.1)

  more_burns :
      (db : Db) (new : List BurnTxOut)
      → HasRows mints burns db
      → HasRows mints burns (record db { burn_tx_outs = db.burn_tx_outs ++ new })
  more_burns db new h =
      (h.0, All-map _ _ (λ b k. HasRow-append burn_key b db.burn_tx_outs new k) burns h.1)

  mint-HasRows : (m : MintTx) → Keeps (HasRows mints burns) (insert_mint_tx m)
  mint-HasRows m db h = elim (insert_mint_tx_cases m db) [
    | inl stored ↦
        subst (λ (r : Result Error MintTx × Db). HasRows mints burns r.1) (sym stored)
          (more_mints db (keyed_mint m db ∷ []) h)
    | inr (e, refused) ↦
        subst (λ (r : Result Error MintTx × Db). HasRows mints burns r.1) (sym refused) h
  ]

  burn-HasRows : (b : BurnTxOut) → Keeps (HasRows mints burns) (insert_burn b)
  burn-HasRows b db h = elim (insert_burn_cases b db) [
    | inl stored ↦
        subst (λ (r : Result Error BurnTxOut × Db). HasRows mints burns r.1) (sym stored)
          (more_burns db (keyed_burn b db ∷ []) h)
    | inr (e, refused) ↦
        subst (λ (r : Result Error BurnTxOut × Db). HasRows mints burns r.1) (sym refused) h
  ]

  pub stores-HasRows : StoresKeep (HasRows mints burns)
  stores-HasRows = record {
    mint_counter = inc-HasRows _;
    burn_counter = inc-HasRows _;
    mint = mint-HasRows;
    burn = burn-HasRows;
    config = config-HasRows;
    config_row = config_row-HasRows;
  }

  pub ends-HasRows : FinishKeeps (HasRows mints burns)
  ends-HasRows = record {
    block_counter = inc-HasRows _;
    audit = audit-HasRows;
    balance = balance-HasRows;
  }

both :
    {A : Type 0} {a b : A} {db db' : Db}
    → Path (Result Error A × Db) (ok a, db) (ok b, db')
    → Path (A × Db) (a, db) (b, db')
both h = ground arith

finish_rows :
    (i : ℕ) (minted : BalanceMap × List MintTx) (burned : BalanceMap × List BurnTxOut) (db db' : Db)
    (r : SyncBlockData)
    → finish_block i minted burned db ≡ (ok r, db')
    → (minted.1 ≡ r.mint_txs) × (burned.1 ≡ r.burn_tx_outs)
unfolding finish_block
finish_rows i minted burned db db' r h =
    let result : SyncBlockData = record {
      block_audit = new_block_audit_data i;
      balance_map = burned.0;
      mint_txs = minted.1;
      burn_tx_outs = burned.1;
    } in
    let (_, db1, _, h2) =
      passed (inc num_blocks_synced)
        (λ _.
          set_block_audit_data (new_block_audit_data i)
          >> (set_balances_for_block i burned.0 >> pure result))
        db h in
    let (_, db2, _, h4) =
      passed (set_block_audit_data (new_block_audit_data i))
        (λ _. set_balances_for_block i burned.0 >> pure result) db1 h2 in
    let (_, db3, _, h6) = passed (set_balances_for_block i burned.0) (λ _. pure result) db2 h4 in
    let same = both h6 in
    (
      ap (λ (p : SyncBlockData × Db). p.0.mint_txs) same,
      ap (λ (p : SyncBlockData × Db). p.0.burn_tx_outs) same,
    )

-- A row that was inserted is there.
inserted_mint :
    (m row : MintTx) (db db' : Db) → insert_mint_tx m db ≡ (ok row, db') → IsStoredMint db' row
inserted_mint m row db db' h = elim (insert_mint_tx_cases m db) [
  | inl stored ↦
      let same : Path (MintTx × Db) (keyed_mint m db, with_mint m db) (row, db') =
        both (sym stored ∙ h) in
      subst (λ (p : MintTx × Db). IsStoredMint p.1 p.0) same
        (HasRow-new mint_key (keyed_mint m db) db.mint_txs refl)
  | inr (e, refused) ↦
      let no : Path (Result Error MintTx × Db) (err e, db) (ok row, db') = sym refused ∙ h in cc
]

inserted_burn :
    (b row : BurnTxOut) (db db' : Db) → insert_burn b db ≡ (ok row, db') → IsStoredBurn db' row
inserted_burn b row db db' h = elim (insert_burn_cases b db) [
  | inl stored ↦
      let same : Path (BurnTxOut × Db) (keyed_burn b db, with_burn b db) (row, db') =
        both (sym stored ∙ h) in
      subst (λ (p : BurnTxOut × Db). IsStoredBurn p.1 p.0) same
        (HasRow-new burn_key (keyed_burn b db) db.burn_tx_outs refl)
  | inr (e, refused) ↦
      let no : Path (Result Error BurnTxOut × Db) (err e, db) (ok row, db') = sym refused ∙ h in cc
]

stored_burn :
    (m : BalanceMap) (b row : BurnTxOut) (db db' : Db)
    → store_burn m b db ≡ (ok row, db')
    → IsStoredBurn db' row
unfolding store_burn
stored_burn m b row db db' h =
    let (_, db1, _, h1) =
      passed {A = ⊤} {B = BurnTxOut}
        (when (ltb (balance_of (burn_token_id b) m) (burn_amount b))
          (inc num_burns_exceeding_balance))
        (λ _. insert_burn b) db h in
    inserted_burn b row db1 db' h1

-- The rows of a run of burns are stored, and with them those that were there.
process_burns-HasRows :
    (burns : List BurnTxOut) (m : BalanceMap) (db db' : Db) (r : BalanceMap × List BurnTxOut)
    → process_burns burns m db ≡ (ok r, db')
    → All (IsStoredBurn db') r.1
unfolding process_burns
process_burns-HasRows [] m db db' r h =
    let e : [] ≡ r.1 = ground arith in subst (All (IsStoredBurn db')) e tt
process_burns-HasRows (b ∷ burns) m db db' r h =
    let m' = debit (burn_token_id b) (burn_amount b) m in
    let (row, db1, h0, h1) =
      passed (store_burn m b)
        (λ row. process_burns burns m' >>= λ rest. pure (rest.0, row ∷ rest.1)) db h in
    let (rest, db2, h2, h3) =
      passed (process_burns burns m') (λ rest. pure (rest.0, row ∷ rest.1)) db1 h1 in
    let first : HasRows [] (row ∷ []) db1 = (tt, (stored_burn m b row db db1 h0, tt)) in
    let kept : HasRows [] (row ∷ []) db2 =
      subst (λ (p : Result Error (BalanceMap × List BurnTxOut) × Db). HasRows [] (row ∷ []) p.1) h2
        (process_burns-Keeps (HasRows [] (row ∷ [])) (stores-HasRows [] (row ∷ [])) burns m' db1
          first) in
    let end : Path ((BalanceMap × List BurnTxOut) × Db) ((rest.0, row ∷ rest.1), db2) (r, db') =
      both h3 in
    subst (λ (p : (BalanceMap × List BurnTxOut) × Db). All (IsStoredBurn p.1) p.0.1) end
      (kept.1.0, process_burns-HasRows burns m' db1 db2 rest h2)

module _ (x : External) where
  stored_mint :
      (i : ℕ) (ts : Option ℕ) (tx : CoreMintTx) (row : MintTx) (db db' : Db)
      → store_mint x i ts tx db ≡ (ok row, db')
      → IsStoredMint db' row
  unfolding store_mint insert_from_core_mint_tx
  stored_mint i ts tx row db db' h =
      let (c, db1, _, h1) =
        passed {A = Option MintConfig} {B = MintTx} (lift (lookup_mint_config x i tx db))
          (λ c. count_unmatched x c >> insert_from_core_mint_tx x i ts (config_id c) tx) db h in
      let (_, db2, _, h2) =
        passed {A = ⊤} {B = MintTx} (count_unmatched x c)
          (λ _. insert_from_core_mint_tx x i ts (config_id c) tx) db1 h1 in
      let (m, db3, _, h3) =
        passed (lift (from_core_mint_tx x i ts (config_id c) tx)) insert_mint_tx db2 h2 in
      inserted_mint m row db3 db' h3

  process_mints-HasRows :
      (i : ℕ) (ts : Option ℕ) (txs : List CoreMintTx) (m : BalanceMap) (db db' : Db)
      (r : BalanceMap × List MintTx)
      → process_mints x i ts txs m db ≡ (ok r, db')
      → All (IsStoredMint db') r.1
  unfolding process_mints
  process_mints-HasRows i ts [] m db db' r h =
      let e : [] ≡ r.1 = ground arith in subst (All (IsStoredMint db')) e tt
  process_mints-HasRows i ts (tx ∷ txs) m db db' r h =
      let m' = credit tx.token_id tx.amount m in
      let (row, db1, h0, h1) =
        passed (store_mint x i ts tx)
          (λ row. process_mints x i ts txs m' >>= λ rest. pure (rest.0, row ∷ rest.1)) db h in
      let (rest, db2, h2, h3) =
        passed (process_mints x i ts txs m') (λ rest. pure (rest.0, row ∷ rest.1)) db1 h1 in
      let first : HasRows (row ∷ []) [] db1 = ((stored_mint i ts tx row db db1 h0, tt), tt) in
      let kept : HasRows (row ∷ []) [] db2 =
        subst (λ (p : Result Error (BalanceMap × List MintTx) × Db). HasRows (row ∷ []) [] p.1) h2
          (process_mints-Keeps (HasRows (row ∷ []) []) (stores-HasRows (row ∷ []) []) x i ts txs m'
            db1 first) in
      let end : Path ((BalanceMap × List MintTx) × Db) ((rest.0, row ∷ rest.1), db2) (r, db') =
        both h3 in
      subst (λ (p : (BalanceMap × List MintTx) × Db). All (IsStoredMint p.1) p.0.1) end
        (kept.0.0, process_mints-HasRows i ts txs m' db1 db2 rest h2)

  contents-HasRows :
      (i : ℕ) (contents : BlockContents) (ts : Option ℕ) (before : BalanceMap) (db db' : Db)
      (r : SyncBlockData)
      → process_contents x i contents ts before db ≡ (ok r, db')
      → HasRows r.mint_txs r.burn_tx_outs db'
  unfolding process_contents
  contents-HasRows i contents ts before db db' r h =
      let burns = burns_of x i ts contents.outputs in
      let (minted, db1, h1, k1) =
        passed (process_mints x i ts contents.mint_txs before)
          (λ minted. process_burns burns minted.0 >>= λ burned. finish_block i minted burned) db
          h in
      let (burned, db2, h2, k2) =
        passed (process_burns burns minted.0) (λ burned. finish_block i minted burned) db1 k1 in
      let mints1 : HasRows minted.1 [] db1 =
        (process_mints-HasRows i ts contents.mint_txs before db db1 minted h1, tt) in
      let mints2 : HasRows minted.1 [] db2 =
        subst (λ (p : Result Error (BalanceMap × List BurnTxOut) × Db). HasRows minted.1 [] p.1) h2
          (process_burns-Keeps (HasRows minted.1 []) (stores-HasRows minted.1 []) burns minted.0 db1
            mints1) in
      let rows2 : HasRows minted.1 burned.1 db2 =
        (mints2.0, process_burns-HasRows burns minted.0 db1 db2 burned h2) in
      let rows3 : HasRows minted.1 burned.1 db' =
        subst (λ (p : Result Error SyncBlockData × Db). HasRows minted.1 burned.1 p.1) k2
          (finish-Keeps (HasRows minted.1 burned.1) (stores-HasRows minted.1 burned.1)
            (ends-HasRows minted.1 burned.1) i minted burned db2 rows2) in
      let (em, eb) = finish_rows i minted burned db2 db' r k2 in
      subst₂ (λ ms bs. HasRows ms bs db') em eb rows3

  -- What a block that was synced hands on is stored.
  pub sync_block-HasRows :
      (block : Block) (contents : BlockContents) (ts : Option ℕ) (db db' : Db) (r : SyncBlockData)
      → sync_block_with_conn x block contents ts db ≡ (ok r, db')
      → HasRows r.mint_txs r.burn_tx_outs db'
  unfolding sync_block_with_conn sync_steps
  sync_block-HasRows block contents ts db db' r h =
      let body : ⊤ → Sql SyncBlockData = λ _.
        gets (previous_balances x block.index) >>= process_contents x block.index contents ts in
      let rest : ⊤ → Sql SyncBlockData =
        λ _. store_config_txs x block.index ts contents.validated_mint_config_txs >>= body in
      let (c, db1, _, h2) =
        passed get_counters
          (λ counters.
            raise_if (not (block.index == counters.num_blocks_synced))
              (unexpected_block_index block.index counters.num_blocks_synced)
            >>= rest)
          db (transaction-ok_inv (sync_steps x block contents ts) db h) in
      let (_, db2, _, h4) =
        passed
          (raise_if (not (block.index == c.num_blocks_synced))
            (unexpected_block_index block.index c.num_blocks_synced))
          rest db1 h2 in
      let (_, db3, _, h6) =
        passed (store_config_txs x block.index ts contents.validated_mint_config_txs) body db2 h4 in
      let (before, db4, _, h8) =
        passed (gets (previous_balances x block.index)) (process_contents x block.index contents ts)
          db3 h6 in
      contents-HasRows block.index contents ts before db4 db' r h8
