-- ===== src/Http/Blocks.antt =====
-- The response for the last block of a database in order shows the reserve.
use reserve_auditor.Prelude.{
  ℕ, suc, ◌+◌, ◌<◌, ◌^◌, ◌≡◌, ◌∙◌, refl, sym, ap, Option, none, some, List, [], ◌∷◌, ◌++◌, All,
  find, arith,
}
use reserve_auditor.Prelude.Int.{as_i64, as_u64, as_u64-as_i64, ◌==ℤ◌, ==ℤ-refl}
use reserve_auditor.Result.{Result, ok, ok_or, ◌>>=◌}
use reserve_auditor.Error.{Error, not_found}
use reserve_auditor.Core.{External}
use reserve_auditor.Db.Models.{Db, BlockAuditData}
use reserve_auditor.Db.BlockAudit.{
  get_block_audit_data, get_balances_for_block, balance_of, new_block_audit_data,
}
use reserve_auditor.Db.BlockAudit.Stored.{Before, Before-ne}
use reserve_auditor.Db.SyncBlock.{previous_balances}
use reserve_auditor.Db.SyncBlock.Frame.{blocks_synced}
use reserve_auditor.Reserve.{InOrder, first_blocks, reserve_of}
use reserve_auditor.Reserve.Refines.{previous-suc}
use reserve_auditor.MainLoop.Progress.{first-Before, last_index}
use reserve_auditor.Http.{
  BlockAuditDataResponse, get_last_block_audit_data, last_block_audit_data, with_stored_balances,
}

find_last :
    (n : ℕ) (rows : List BlockAuditData)
    → n < 2 ^ 63
    → All (λ (b : BlockAuditData). Before n b.block_index) rows
    → find (λ b. b.block_index ==ℤ as_i64 n) (rows ++ new_block_audit_data n ∷ [])
      ≡ some (new_block_audit_data n)
find_last n [] h k = rw (==ℤ-refl (as_i64 n)) refl
find_last n (b ∷ rows) h k =
    rw (Before-ne n b.block_index (omega arith) k.0) (find_last n rows h k.1)

last_recorded :
    (db : Db) (n : ℕ)
    → InOrder db
    → blocks_synced db ≡ suc n
    → suc n < 2 ^ 63
    → get_block_audit_data n db ≡ ok (new_block_audit_data n)
unfolding get_block_audit_data
last_recorded db n order counted small =
    ap (λ rows. ok_or (find (λ b. b.block_index ==ℤ as_i64 n) rows) not_found)
      (order.blocks ∙ ap first_blocks counted)
    ∙ ap (λ o. ok_or o not_found)
        (find_last n (first_blocks n) (omega arith) (first-Before n n (omega arith)))

last_stored :
    (db : Db) (n : ℕ)
    → InOrder db
    → blocks_synced db ≡ suc n
    → suc n < 2 ^ 63
    → last_block_audit_data db ≡ ok (some (new_block_audit_data n))
unfolding last_block_audit_data
last_stored db n order counted small =
    ap last_read (last_index db n order counted small)
    ∙ ap (λ r. r >>= λ b. ok (some b)) (last_recorded db n order counted small)
  where
    last_read : Option ℕ → Result Error (Option BlockAuditData)
    last_read none = ok none
    last_read (some i) = get_block_audit_data i db >>= λ b. ok (some b)

-- the response is for the block, with the balances of the reserve
abbrev pub ShowsReserve : External → Db → ℕ → BlockAuditDataResponse → Type 0
ShowsReserve x db n r =
    (r.block_index ≡ n) × ((k : ℕ) → balance_of k r.balances ≡ (reserve_of x db).balance k)

-- In a database in order that counts n + 1 blocks, fewer than 2 ^ 63, the response for the last
-- block is for block n, and its balances are those of the reserve.
pub get_last_block_audit_data-reserve_of :
    (x : External) (db : Db) (n : ℕ)
    → InOrder db
    → blocks_synced db ≡ suc n
    → suc n < 2 ^ 63
    → (r : BlockAuditDataResponse) × (get_last_block_audit_data db ≡ ok r) × ShowsReserve x db n r
unfolding get_last_block_audit_data
get_last_block_audit_data-reserve_of x db n order counted small =
    let index : as_u64 (as_i64 n) ≡ n = as_u64-as_i64 n (omega arith) in
    let next : blocks_synced db ≡ n + 1 = counted ∙ omega arith in
    (
      with_stored_balances db (new_block_audit_data n),
      ap (λ last. last >>= λ o. (ok_or o not_found >>= λ b. ok (with_stored_balances db b)))
          (last_stored db n order counted small),
      (
        index,
        λ k.
            ap (λ i. balance_of k (get_balances_for_block i db)) index
            ∙ ap (balance_of k) (sym (previous-suc x n db))
            ∙ ap (λ i. balance_of k (previous_balances x i db)) (sym next),
      ),
    )
