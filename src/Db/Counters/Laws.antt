-- ===== src/Db/Counters/Laws.antt =====
-- Each increment adds one to its own counter and to no other.
use reserve_auditor.Prelude.{◌+◌, ◌≡◌, ◌≢◌, refl, [], ◌∷◌, arith}
use reserve_auditor.Result.{ok, panic}
use reserve_auditor.Db.Models.{Db, Counters}
use reserve_auditor.Db.Counters.{CounterName, value, bump, inc, num_blocks_synced}

pub inc-no_panic : (n : CounterName) (db : Db) → (inc n db).0 ≢ panic
unfolding inc
inc-no_panic n db = ground arith

-- With the one row that `ensure_exists` makes, an increment succeeds and changes that row alone.
pub inc_lem :
    (n : CounterName) (db : Db) (c : Counters)
    → db.counters ≡ c ∷ []
    → inc n db ≡ (ok tt, record db { counters = bump n c ∷ [] })
unfolding inc
inc_lem n db c h = ground arith

pub value-bump_self : (n : CounterName) (c : Counters) → value n (bump n c) ≡ value n c + 1
unfolding value bump
value-bump_self num_blocks_synced c = refl
value-bump_self _ c = refl

pub value-bump_ne : (n k : CounterName) (c : Counters) → n ≢ k → value n (bump k c) ≡ value n c
unfolding value bump
value-bump_ne num_blocks_synced num_blocks_synced c h = absurd (h refl)
value-bump_ne n k c h = ground arith
