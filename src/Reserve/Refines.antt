-- ===== src/Reserve/Refines.antt =====
-- Syncing a block refines the abstract step.
use reserve_auditor.Prelude.{
  ℕ, zero, suc, ◌+◌, ◌-◌, ◌%◌, ◌<◌, ◌≡◌, ◌∙◌, refl, sym, ap, subst, ap₂, fun_ext, Bool-cases, inl,
  inr, Option, [], ◌∷◌, ◌++◌, not, All, filter, filter-append, ◌==◌, false, arith,
}
use reserve_auditor.Prelude.Int.{as_i64, u64_mod, ◌==ℤ◌}
use reserve_auditor.Core.{Block, BlockContents, External}
use reserve_auditor.Db.Models.{Db, BlockAuditData}
use reserve_auditor.Db.Monad.Outcome.{Outcome, Outcome-map}
use reserve_auditor.Db.BlockAudit.{balance_of, get_balances_for_block, new_block_audit_data}
use reserve_auditor.Db.BlockAudit.Maps.{IsMap, balance_of-lt}
use reserve_auditor.Db.BlockAudit.Stored.{
  Before-ne, IsBalanceRow, read_balances, rows_after, get_balances-IsMap,
}
use reserve_auditor.Db.SyncBlock.{SyncBlockData, previous_balances, burns_of, sync_block_with_conn}
use reserve_auditor.Db.SyncBlock.Maps.{MintsAreU64}
use reserve_auditor.Db.SyncBlock.Frame.{blocks_synced}
use reserve_auditor.Db.SyncBlock.Accounting.{minted_of, burned_of}
use reserve_auditor.Db.SyncBlock.Finish.{recorded_rows, balance_rows}
use reserve_auditor.Db.SyncBlock.Synced.{Synced}
use reserve_auditor.Db.SyncBlock.Outcome.{sync_block_lem}
use reserve_auditor.Reserve.{apply_block, reserve_of, first_blocks, InOrder}

not_recorded :
    (n i : ℕ)
    → n < i + 1
    → i < u64_mod
    → filter (λ (b : BlockAuditData). not (b.block_index ==ℤ as_i64 i)) (first_blocks n)
      ≡ first_blocks n
not_recorded zero i h k = refl
not_recorded (suc n) i h k =
    filter-append _ (first_blocks n) (new_block_audit_data n ∷ [])
    ∙ ground
        (arith, not_recorded n i (omega arith) k, Before-ne i (as_i64 n) k (n, omega arith, refl))

-- the next block is recorded behind the others
next_recorded : (n : ℕ) → n < u64_mod → recorded_rows n (first_blocks n) ≡ first_blocks (n + 1)
next_recorded n h =
    let next : suc n ≡ n + 1 = omega arith in
    ap (λ rows. rows ++ new_block_audit_data n ∷ []) (not_recorded n n (omega arith) h)
    ∙ ap first_blocks next

module _ (x : External) where
  previous-IsMap :
      (i n : ℕ) (db : Db) → All (IsBalanceRow n) db.block_balance → IsMap (previous_balances x i db)
  unfolding previous_balances
  previous-IsMap i n db h = elim (Bool-cases (i == 0)) [
    | inl first ↦ rw first (tt, tt)
    | inr later ↦ rw later (get_balances-IsMap (i - 1) n db h)
  ]

  pub previous-suc :
      (n : ℕ) (db : Db) → previous_balances x (n + 1) db ≡ get_balances_for_block n db
  unfolding previous_balances
  previous-suc n db =
      let later : ((n + 1) == 0) ≡ false = ground arith in
      let index : n + 1 - 1 ≡ n = omega arith in
      rw later (ap (λ j. get_balances_for_block j db) index)

  module _ (block : Block) (contents : BlockContents) (ts : Option ℕ) (db : Db)
      (tokens : MintsAreU64 contents.mint_txs) (order : InOrder db)
      (small : blocks_synced db < u64_mod) where
    -- the database is in order, and shows the reserve that the block leads to
    abbrev pub Refined : SyncBlockData → Db → Type 0
    Refined _ db' =
        InOrder db' × (reserve_of x db' ≡ apply_block x block contents ts (reserve_of x db))

    refined : (r : SyncBlockData) (db' : Db) → Synced x block contents ts db r db' → Refined r db'
    refined r db' s =
        let n = blocks_synced db in
        let index : block.index ≡ n = s.in_order in
        let after : blocks_synced db' ≡ n + 1 = s.advanced ∙ ap (λ i. i + 1) index in
        let map_before = previous-IsMap block.index n db order.balances in
        let m : IsMap r.balance_map = s.map map_before tokens in
        let rows : db'.block_balance ≡ db.block_balance ++ balance_rows n r.balance_map =
          s.stored ∙ ap (λ i. db.block_balance ++ balance_rows i r.balance_map) index in
        (
          record {
            blocks =
                s.audit_rows
                ∙ ap (λ i. recorded_rows i db.block_audit_data) index
                ∙ ap (recorded_rows n) order.blocks
                ∙ next_recorded n small
                ∙ ap first_blocks (sym after);
            balances =
                subst (λ i. All (IsBalanceRow i) db'.block_balance) (sym after)
                  (subst (All (IsBalanceRow (n + 1))) (sym rows)
                    (rows_after n small r.balance_map db.block_balance order.balances m.1));
          },
          ap₂ (λ h b. record { height = h; balance = b }) after
              (fun_ext λ k.
                ap (λ i. balance_of k (previous_balances x i db')) after
                ∙ ap (balance_of k) (previous-suc n db')
                ∙ read_balances n small k r.balance_map db db' order.balances m rows
                ∙ s.balances k (balance_of-lt k _ map_before.1)
                ∙ ap
                    (λ i.
                      (balance_of k (previous_balances x i db) + minted_of k contents.mint_txs)
                        % u64_mod
                      - burned_of k (burns_of x block.index ts contents.outputs))
                    index),
        )

    -- Syncing a block refines the abstract step: from a database in order, with fewer than 2 ^ 64
    -- blocks and with tokens that are 64-bit numbers, it either succeeds, and the new database is
    -- in order and shows exactly the reserve that the abstract step gives, or it fails and the
    -- database is as it was.
    pub sync_block_refines : Outcome Refined db (sync_block_with_conn x block contents ts db)
    sync_block_refines =
        Outcome-map (Synced x block contents ts db) Refined db _ refined
          (sync_block_lem x block contents ts db)
