-- ===== src/MainLoop/Progress.antt =====
-- What a round of the loop does to a database that is in order.
use reserve_auditor.Prelude.{
  ℕ, zero, suc, ◌+◌, ◌-◌, ◌≤◌, ◌<◌, ◌^◌, ◌≡◌, ◌∙◌, refl, sym, ap, subst, ⊤, true, Option, none,
  some, List, [], ◌∷◌, ◌++◌, All, All-append, map, filter, ◌==◌, if◌then◌else◌, arith,
}
use reserve_auditor.Prelude.Int.{ℤ, ◌==ℤ◌, as_i64, as_u64, as_u64-as_i64, as_i64-ltb_ℤ, ltb_ℤ}
use reserve_auditor.Result.{Result, ok, err, panic}
use reserve_auditor.Error.{Error}
use reserve_auditor.Core.{Block, BlockContents, External}
use reserve_auditor.Gnosis.Config.{GnosisSafeConfig}
use reserve_auditor.Db.Models.{Db, BlockAuditData, BlockBalance}
use reserve_auditor.Db.BlockAudit.{
  balance_of, collect, get_balances_for_block, max_index, larger_ℤ, last_synced_block_index,
  new_block_audit_data,
}
use reserve_auditor.Db.BlockAudit.Stored.{Before, IsBalanceRow}
use reserve_auditor.Db.SyncBlock.{previous_balances}
use reserve_auditor.Db.SyncBlock.Frame.{blocks_synced}
use reserve_auditor.Reserve.{Reserve, apply_block, reserve_of, first_blocks, InOrder}
use reserve_auditor.System.Kept.{AuditIsSound}
use reserve_auditor.MainLoop.{Ledger, next_index}
use reserve_auditor.MainLoop.Audits.{Tables, tables}

-- The largest index of the first blocks is that of the last of them.
last_of :
    (n : ℕ) (rows : List BlockAuditData)
    → n < 2 ^ 63
    → All (λ (b : BlockAuditData). Before n b.block_index) rows
    → max_index (rows ++ new_block_audit_data n ∷ []) ≡ some (as_i64 n)
last_of n [] h k = refl
last_of n (b ∷ rows) h k =
    let (j, lt, e) = k.0 in
    let less : ltb_ℤ b.block_index (as_i64 n) ≡ true =
      ap (λ z. ltb_ℤ z (as_i64 n)) e ∙ as_i64-ltb_ℤ j n (omega arith) h ∙ ground arith in
    ap (λ o. some (larger_ℤ b.block_index o)) (last_of n rows h k.1) ∙ rw less refl

pub first-Before :
    (n m : ℕ) → n ≤ m → All (λ (b : BlockAuditData). Before m b.block_index) (first_blocks n)
first-Before zero m h = tt
first-Before (suc n) m h =
    All-append _ (first_blocks n) _ (first-Before n m (omega arith)) ((n, omega arith, refl), tt)

abbrev index_of : Option ℤ → Option ℕ
index_of none = none
index_of (some z) = some (as_u64 z)

next_first : (n : ℕ) → n < 2 ^ 63 → next_index (index_of (max_index (first_blocks n))) ≡ n
next_first zero h = refl
next_first (suc n) h =
    let last : max_index (first_blocks (suc n)) ≡ some (as_i64 n) =
      last_of n (first_blocks n) (omega arith) (first-Before n n (omega arith)) in
    ap (λ o. next_index (index_of o)) last
    ∙ ap (λ i. i + 1) (as_u64-as_i64 n (omega arith))
    ∙ omega arith

index_of-last : (db : Db) → last_synced_block_index db ≡ index_of (max_index db.block_audit_data)
unfolding last_synced_block_index
index_of-last db = ground arith

-- In a database in order, the last synced block is the last that was counted.
pub last_index :
    (db : Db) (n : ℕ)
    → InOrder db
    → blocks_synced db ≡ suc n
    → suc n < 2 ^ 63
    → last_synced_block_index db ≡ some n
last_index db n order counted small =
    index_of-last db
    ∙ ap (λ rows. index_of (max_index rows)) (order.blocks ∙ ap first_blocks counted)
    ∙ ap index_of (last_of n (first_blocks n) (omega arith) (first-Before n n (omega arith)))
    ∙ ap some (as_u64-as_i64 n (omega arith))

-- In a database in order, the block after the last synced one is the next to be synced.
pub next-InOrder :
    (db : Db)
    → InOrder db
    → blocks_synced db < 2 ^ 63
    → next_index (last_synced_block_index db) ≡ blocks_synced db
next-InOrder db order small =
    ap next_index (index_of-last db)
    ∙ ap (λ rows. next_index (index_of (max_index rows))) order.blocks
    ∙ next_first (blocks_synced db) small

-- the audit tables, where audits are configured
abbrev pub SoundFor : Option GnosisSafeConfig → Db → Type 0
SoundFor none db = ⊤
SoundFor (some config) db = AuditIsSound config db

abbrev pub replay_next :
    External → Ledger → Result Error (Block × BlockContents) → Reserve → Reserve
replay_next x ledger (ok (block, contents)) r =
    apply_block x block contents (ledger.poll_block_timestamp block.index) r
replay_next x ledger (err _) r = r
replay_next x ledger panic r = r

-- The reserve that the first blocks of the ledger lead to, one after the other.
abbrev pub replay : External → Ledger → ℕ → Reserve
replay x ledger zero = record { height = 0; balance = λ _. 0 }
replay x ledger (suc n) = replay_next x ledger (ledger.get_block_data n) (replay x ledger n)

-- The database is in order, its audit tables are sound, and it shows the reserve that the blocks of
-- the ledger lead to, as many as it has synced.
pub record Synchronized (x : External) (config : Option GnosisSafeConfig) (ledger : Ledger)
    (db : Db) : Type 0 where
  pub sound : SoundFor config db
  pub order : InOrder db
  pub reserve : reserve_of x db ≡ replay x ledger (blocks_synced db)

module _ (x : External) where
  pub reserve_of-tables :
      (db db' : Db) → tables db' ≡ tables db → reserve_of x db' ≡ reserve_of x db
  unfolding previous_balances get_balances_for_block
  reserve_of-tables db db' e =
      let rows : List BlockBalance → ℕ → List (ℕ × ℕ) = λ rs n.
        map (λ r. (as_u64 r.token_id, as_u64 r.balance))
          (filter (λ r. r.block_index ==ℤ as_i64 (n - 1)) rs) in
      ap
        (λ (t : Tables). record {
          height = t.synced;
          balance = λ k.
              balance_of k (if t.synced == 0 then [] else collect [] (rows t.balances t.synced));
        })
        e

  pub InOrder-tables : (db db' : Db) → tables db' ≡ tables db → InOrder db → InOrder db'
  InOrder-tables db db' e order = record {
    blocks = subst (λ (t : Tables). t.blocks ≡ first_blocks t.synced) (sym e) order.blocks;
    balances =
        subst (λ (t : Tables). All (IsBalanceRow t.synced) t.balances) (sym e) order.balances;
  }
