-- ===== src/Db/BlockAudit.antt =====
-- src/db/models/{block_audit_data,block_balance}.rs: the blocks that were synced, and the balance
-- of each token after each block. A `HashMap` of balances is a list of tokens with their balances;
-- its order, which the program does not fix, is that of the first insertions.
pub mod Balances
pub mod Maps
pub mod Stored
use reserve_auditor.Prelude.{
  ℕ, ⊤, Bool, not, Option, none, some, List, [], ◌∷◌, ◌++◌, map, ◌&&◌, ◌==◌, any, find, filter,
  if◌then◌else◌,
}
use reserve_auditor.Prelude.Int.{ℤ, as_i64, as_u64, ◌==ℤ◌, ltb_ℤ}
use reserve_auditor.Result.{Result, ok, ok_or}
use reserve_auditor.Error.{Error, from_diesel, DieselError, not_found}
use reserve_auditor.Db.Models.{Db, BlockAuditData, BlockBalance}
use reserve_auditor.Db.Monad.{Sql, pure, raise_if, gets, modify, for_each, transaction, ◌>>=◌, ◌>>◌}

-- `HashMap<TokenId, u64>`
abbrev pub BalanceMap : Type 0
BalanceMap = List (ℕ × ℕ)

-- the balance of a token, 0 if it has no entry: `entry(token).or_default()`
unfoldable pub balance_of : ℕ → BalanceMap → ℕ
balance_of token [] = 0
balance_of token ((k, v) ∷ m) = if k == token then v else balance_of token m

-- `map.insert(token, balance)`
unfoldable pub set_balance : ℕ → ℕ → BalanceMap → BalanceMap
set_balance token balance [] = (token, balance) ∷ []
set_balance token balance ((k, v) ∷ m) =
    let rest = set_balance token balance m in if k == token then (k, balance) ∷ m else (k, v) ∷ rest

abbrev pub new_block_audit_data : ℕ → BlockAuditData
new_block_audit_data block_index = record { block_index = as_i64 block_index }

unfoldable pub get_block_audit_data : ℕ → Db → Result Error BlockAuditData
get_block_audit_data block_index db =
    ok_or (find (λ b. b.block_index ==ℤ as_i64 block_index) db.block_audit_data) not_found

-- REPLACE INTO: the row of the same block, if there is one, is deleted first.
unfoldable pub set_block_audit_data : BlockAuditData → Sql ⊤
set_block_audit_data self = modify λ s. record s {
  block_audit_data =
      filter (λ b. not (b.block_index ==ℤ self.block_index)) s.block_audit_data ++ self ∷ [];
}

abbrev pub larger_ℤ : ℤ → Option ℤ → ℤ
larger_ℤ a none = a
larger_ℤ a (some b) = if ltb_ℤ a b then b else a

abbrev pub max_index : List BlockAuditData → Option ℤ
max_index [] = none
max_index (b ∷ bs) = some (larger_ℤ b.block_index (max_index bs))

unfoldable pub last_synced_block_index : Db → Option ℕ
last_synced_block_index db = elim (max_index db.block_audit_data) [
  | none ↦ none
  | some z ↦ some (as_u64 z)
]

-- a collected iterator of pairs: a later pair replaces an earlier one
abbrev pub collect : BalanceMap → List (ℕ × ℕ) → BalanceMap
collect m [] = m
collect m ((k, v) ∷ rows) = collect (set_balance k v m) rows

unfoldable pub get_balances_for_block : ℕ → Db → BalanceMap
get_balances_for_block block_index db = collect [] (
    map (λ r. (as_u64 r.token_id, as_u64 r.balance))
      (filter (λ r. r.block_index ==ℤ as_i64 block_index) db.block_balance))

-- an INSERT, with the constraints of the table
unfoldable pub insert_block_balance : BlockBalance → Sql ⊤
insert_block_balance b = do
  db ← gets (λ db. db)
  raise_if
      (any (λ r. r.block_index ==ℤ b.block_index && r.token_id ==ℤ b.token_id) db.block_balance)
      (from_diesel DieselError.unique_violation)
  raise_if (not (any (λ r. r.block_index ==ℤ b.block_index) db.block_audit_data))
      (from_diesel DieselError.foreign_key_violation)
  modify (λ s. record s { block_balance = s.block_balance ++ b ∷ [] })

abbrev pub new_block_balance : ℕ → ℕ × ℕ → BlockBalance
new_block_balance block_index (token_id, balance) = record {
  block_index = as_i64 block_index;
  token_id = as_i64 token_id;
  balance = as_i64 balance;
}

unfoldable pub set_balances_for_block : ℕ → BalanceMap → Sql ⊤
set_balances_for_block block_index balances =
    transaction (for_each (λ b. insert_block_balance (new_block_balance block_index b)) balances)
