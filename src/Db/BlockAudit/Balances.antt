-- ===== src/Db/BlockAudit/Balances.antt =====
-- Entries of the map of balances.
use reserve_auditor.Prelude.{ℕ, ◌≡◌, ◌≢◌, [], ◌∷◌, arith}
use reserve_auditor.Db.BlockAudit.{BalanceMap, balance_of, set_balance}

pub balance_of-set_self : (k v : ℕ) (m : BalanceMap) → balance_of k (set_balance k v m) ≡ v
unfolding balance_of set_balance
balance_of-set_self k v [] = ground arith
balance_of-set_self k v ((j, w) ∷ m) = ground (arith, balance_of-set_self k v m)

pub balance_of-set_ne :
    (k j v : ℕ) (m : BalanceMap) → k ≢ j → balance_of k (set_balance j v m) ≡ balance_of k m
unfolding balance_of set_balance
balance_of-set_ne k j v [] h = ground arith
balance_of-set_ne k j v ((i, w) ∷ m) h = ground (arith, balance_of-set_ne k j v m h)
