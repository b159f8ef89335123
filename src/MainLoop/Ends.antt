-- ===== src/MainLoop/Ends.antt =====
-- The loop ends, with a database that shows the reserve of the ledger.
use reserve_auditor.Prelude.{
  ℕ, zero, suc, ◌+◌, ◌-◌, ◌≤◌, ◌<◌, ◌^◌, ◌≡◌, ◌≢◌, refl, sym, subst, ⊤, Bool, true, false,
  Bool-cases, Option, some, inl, inr, ltb, if◌then◌else◌, arith,
}
use reserve_auditor.Result.{Result, ok, err, panic}
use reserve_auditor.Error.{Error}
use reserve_auditor.Core.{Block, BlockContents, External}
use reserve_auditor.Gnosis.Config.{GnosisSafeConfig}
use reserve_auditor.Db.Models.{Db}
use reserve_auditor.Db.Monad.{Sql, atomic, pure, lift, gets, ◌>>=◌}
use reserve_auditor.Db.Monad.Outcome.{Outcome}
use reserve_auditor.Db.Monad.Steps.{bind-eq, outcome_then}
use reserve_auditor.Db.BlockAudit.{last_synced_block_index}
use reserve_auditor.Db.SyncBlock.Frame.{blocks_synced}
use reserve_auditor.Db.SyncBlock.Maps.{MintsAreU64}
use reserve_auditor.MainLoop.{Ledger, next_index, sync_and_audit, sync_next, sync_round, sync_loop}
use reserve_auditor.MainLoop.Progress.{Synchronized, next-InOrder}
use reserve_auditor.MainLoop.Rounds.{Advanced, sync_and_audit_lem}

-- What is asked of the ledger: in no round does it have more blocks than the limit, which is below
-- 2 ^ 63; the tokens of its mints are 64-bit numbers; and it answers, if only with an error.
pub record IsLedger (ledger : Ledger) (limit : ℕ) : Type 0 where
  pub small : limit < 2 ^ 63
  pub bounded : (round n : ℕ) → ledger.num_blocks round ≡ ok n → n ≤ limit
  pub tokens :
      (n : ℕ) (block : Block) (contents : BlockContents)
      → ledger.get_block_data n ≡ ok (block, contents)
      → MintsAreU64 contents.mint_txs
  pub counts : (round : ℕ) → ledger.num_blocks round ≢ panic
  pub answers : (n : ℕ) → ledger.get_block_data n ≢ panic

module _ (x : External) (config : Option GnosisSafeConfig) (ledger : Ledger) (limit : ℕ)
    (good : IsLedger ledger limit) where
  -- everything is synced that some round found in the ledger
  abbrev pub IsComplete : Db → Type 0
  IsComplete db = (round n : ℕ) × (ledger.num_blocks round ≡ ok n) × (n ≤ blocks_synced db)

  -- a round goes on with one more block, ends with the database as it was, or fails without a
  -- change
  abbrev RoundEnds : Db → Result Error Bool × Db → Type 0
  RoundEnds db (ok true, db') =
      Synchronized x config ledger db'
      × (blocks_synced db' ≡ blocks_synced db + 1)
      × (blocks_synced db < limit)
  RoundEnds db (ok false, db') = (db' ≡ db) × IsComplete db
  RoundEnds db (err e, db') = db' ≡ db
  RoundEnds db (panic, db') = ⊥

  module _ (db : Db) (at : Synchronized x config ledger db)
      (small : blocks_synced db < 2 ^ 63) where
    after_block :
        {A : Type 0} (P : A → Db → Type 0) (r : Result Error A × Db)
        → ((a : A) (db' : Db) → P a db' → RoundEnds db (ok true, db'))
        → Outcome P db r
        → RoundEnds db (outcome_then (λ _. pure true) r)
    after_block P (ok a, db') f h = f a db' h
    after_block P (err e, db') f h = h
    after_block P (panic, db') f h = h

    abbrev stored : Block × BlockContents → Sql Bool
    stored b = atomic (sync_and_audit x config ledger b.0 b.1) >>= λ _. pure true

    block_ends :
        (b : Result Error (Block × BlockContents))
        → ledger.get_block_data (blocks_synced db) ≡ b
        → blocks_synced db < limit
        → RoundEnds db (outcome_then stored (b, db))
    block_ends (ok b) e more =
        subst (RoundEnds db)
          (sym (bind-eq (atomic (sync_and_audit x config ledger b.0 b.1)) (λ _. pure true) db))
          (after_block (Advanced x config ledger db at small b.0 b.1 e (good.tokens _ b.0 b.1 e)) _
            (λ _ db' (s, n). (s, n, more))
            (sync_and_audit_lem x config ledger db at small b.0 b.1 e (good.tokens _ b.0 b.1 e)))
    block_ends (err _) e more = refl
    block_ends panic e more = absurd (good.answers _ e)

    next_ends :
        blocks_synced db < limit → RoundEnds db (sync_next x config ledger (blocks_synced db) db)
    unfolding sync_next
    next_ends more =
        subst (RoundEnds db)
          (sym (bind-eq (lift (ledger.get_block_data (blocks_synced db))) stored db))
          (block_ends (ledger.get_block_data (blocks_synced db)) refl more)

    abbrev decide : ℕ → ℕ → Sql Bool
    decide in_ledger synced =
        if ltb synced in_ledger then sync_next x config ledger synced else pure false

    decide_ends :
        (round n : ℕ)
        → ledger.num_blocks round ≡ ok n
        → RoundEnds db (decide n (blocks_synced db) db)
    decide_ends round n e = elim (Bool-cases (ltb (blocks_synced db) n)) [
      | inl more ↦
          let room : blocks_synced db < limit = ground (arith, good.bounded round n e) in
          subst
            (λ c.
              RoundEnds db
                ((if c then sync_next x config ledger (blocks_synced db) else pure false) db))
            (sym more) (next_ends room)
      | inr done ↦
          subst
            (λ c.
              RoundEnds db
                ((if c then sync_next x config ledger (blocks_synced db) else pure false) db))
            (sym done) (refl, (round, n, e, ground arith))
    ]

    abbrev then_decide : ℕ → Sql Bool
    then_decide n = gets (λ db. next_index (last_synced_block_index db)) >>= decide n

    count_ends :
        (round : ℕ) (n : Result Error ℕ)
        → ledger.num_blocks round ≡ n
        → RoundEnds db (outcome_then then_decide (n, db))
    count_ends round (ok n) e =
        subst (λ i. RoundEnds db (decide n i db)) (sym (next-InOrder db at.order small))
          (decide_ends round n e)
    count_ends round (err _) e = refl
    count_ends round panic e = absurd (good.counts round e)

    round_ends : (round : ℕ) → RoundEnds db (sync_round x config ledger round db)
    unfolding sync_round
    round_ends round =
        subst (RoundEnds db) (sym (bind-eq (lift (ledger.num_blocks round)) then_decide db))
          (count_ends round (ledger.num_blocks round) refl)

  -- A success has synced everything that the last round found, an error stands beside a database
  -- that is in order, and there is no panic.
  abbrev pub LoopEnds : Result Error ⊤ × Db → Type 0
  LoopEnds (ok a, db') = Synchronized x config ledger db' × IsComplete db'
  LoopEnds (err e, db') = Synchronized x config ledger db'
  LoopEnds (panic, db') = ⊥

  -- one round of the loop, with what the rounds behind it give
  abbrev then_loop :
      Db → Option (Result Error ⊤ × Db) → Result Error Bool × Db → Option (Result Error ⊤ × Db)
  then_loop db rest (ok more, db') = if more then rest else some (ok tt, db')
  then_loop db rest (err e, db') = some (err e, db')
  then_loop db rest (panic, db') = some (panic, db')

  EndsWith : Option (Result Error ⊤ × Db) → Type 0
  EndsWith o = (r : Result Error ⊤ × Db) × (o ≡ some r) × LoopEnds r

  after_round :
      (fuel round : ℕ) (db : Db) (r : Result Error Bool × Db)
      → Synchronized x config ledger db
      → limit - blocks_synced db < suc fuel
      → ((db' : Db)
          → Synchronized x config ledger db'
          → blocks_synced db' < 2 ^ 63
          → limit - blocks_synced db' < fuel
          → EndsWith (sync_loop x config ledger fuel (round + 1) db'))
      → RoundEnds db r
      → EndsWith (then_loop db (sync_loop x config ledger fuel (round + 1) r.1) r)
  unfolding EndsWith
  after_round fuel round db (ok true, db') at enough rest (at', one_more, room) =
      rest db' at' (omega (arith, one_more, room, good.small))
        (omega (arith, one_more, room, enough))
  after_round fuel round db (ok false, db') at enough rest (same, done) = (
    (ok tt, db'),
    refl,
    (subst (Synchronized x config ledger) (sym same) at, subst IsComplete (sym same) done),
  )
  after_round fuel round db (err e, db') at enough rest same =
      ((err e, db'), refl, subst (Synchronized x config ledger) (sym same) at)
  after_round fuel round db (panic, db') at enough rest o = absurd o

  loop_step :
      (fuel round : ℕ) (db : Db)
      → sync_loop x config ledger (suc fuel) round db
        ≡ then_loop db
            (sync_loop x config ledger fuel (round + 1) (sync_round x config ledger round db).1)
            (sync_round x config ledger round db)
  unfolding sync_loop
  loop_step fuel round db = ground arith

  loop_ends :
      (fuel round : ℕ) (db : Db)
      → Synchronized x config ledger db
      → blocks_synced db < 2 ^ 63
      → limit - blocks_synced db < fuel
      → EndsWith (sync_loop x config ledger fuel round db)
  loop_ends zero round db at small enough = absurd (omega arith)
  loop_ends (suc fuel) round db at small enough = subst EndsWith (sym (loop_step fuel round db)) (
      after_round fuel round db (sync_round x config ledger round db) at enough
        (loop_ends fuel (round + 1)) (round_ends db at small round))

  -- With fuel for more rounds than there are blocks left to the limit, the loop ends: it reaches a
  -- result, never a panic. Whether that is a success or an error, the database is in order, its
  -- audit tables are sound where audits are configured, and each token has exactly the balance that
  -- the synced blocks of the ledger lead to, one after the other; and after a success there are at
  -- least as many of them as some round found in the ledger. This is from a database of which the
  -- same holds, with fewer than 2 ^ 63 blocks, and where the ledger answers without panic, never
  -- has more blocks than the limit, which is below 2 ^ 63, and has mints of 64-bit tokens only.
  pub sync_loop_ends :
      (fuel round : ℕ) (db : Db)
      → Synchronized x config ledger db
      → blocks_synced db < 2 ^ 63
      → limit - blocks_synced db < fuel
      → (r : Result Error ⊤ × Db) × (sync_loop x config ledger fuel round db ≡ some r) × LoopEnds r
  unfolding EndsWith
  sync_loop_ends fuel round db at small enough = loop_ends fuel round db at small enough
