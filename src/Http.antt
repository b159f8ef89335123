-- ===== src/Http.antt =====
-- src/http_api/service.rs with the responses of api_types.rs, and the queries of src/db/models that
-- only it uses. Rocket and the conversion to JSON are left out: a route of routes.rs returns what
-- the method of the service returns, with the error as a text.
pub mod Pages
pub mod Blocks
pub mod Unaudited
use reserve_auditor.Prelude.{
  ℕ, ◌+◌, ◌%◌, ◌^◌, Bool, Option, none, some, List, [], ◌∷◌, map, find, take, drop, ltb, ◌==◌,
  if◌then◌else◌,
}
use reserve_auditor.Prelude.Int.{as_u64}
use reserve_auditor.Prelude.Text.{Text, text}
use reserve_auditor.Result.{Result, ok, err, panic, ok_or, to_option, ◌>>=◌}
use reserve_auditor.Error.{Error, not_found, key, memo_decoding, invalid_memo_type}
use reserve_auditor.Core.{TxOut}
use reserve_auditor.Gnosis.Types.{EthAddr, u128_mod}
use reserve_auditor.Gnosis.Config.{AuditedToken, AuditedSafeConfig, GnosisSafeConfig}
use reserve_auditor.Db.Models.{
  Db, BlockAuditData, MintTx, BurnTxOut, GnosisSafeDeposit, GnosisSafeWithdrawal, AuditedMint,
  AuditedBurn,
}
use reserve_auditor.Db.MintTxs.{get_mint_amounts, find_unaudited_mint_txs}
use reserve_auditor.Db.Deposits.{find_unaudited_deposits}
use reserve_auditor.Db.Withdrawals.{find_unaudited_withdrawals}
use reserve_auditor.Db.BurnTxOuts.{
  get_burn_amounts, get_burn_txs_by_block, find_unaudited_burn_tx_outs,
}
use reserve_auditor.Db.BlockAudit.{
  BalanceMap, get_block_audit_data, last_synced_block_index, get_balances_for_block,
}
use reserve_auditor.Audit.Mint.{mint_by_id, deposit_by_id}
use reserve_auditor.Audit.Burn.{burn_by_id, withdrawal_by_id}

-- the memo of a TxOut, of which only one kind is of interest
pub data MemoType : Type 0 where
  burn_redemption : Text → MemoType
  other_memo : MemoType

-- What is used of the crates to read a memo: `decode`, `RistrettoPublic::try_from`,
-- `get_tx_out_shared_secret` with the burn key, `decrypt_memo` and `MemoType::try_from`.
pub record Memos : Type 0 where
  pub decode_tx_out : Text → Option TxOut
  pub ristretto_public : Text → Option Text
  pub shared_secret : Text → Text
  pub decrypt_memo : TxOut → Text → Text
  pub memo_type : Text → Option MemoType

pub record TokenPrecision : Type 0 where
  pub token_id : ℕ
  pub token_eth_addrs : List EthAddr
  pub token_precision : ℕ

pub record TokenPrecisionResponse : Type 0 where
  pub max_precision : ℕ
  pub token_base_precisions : List TokenPrecision

pub record BlockAuditDataResponse : Type 0 where
  pub block_index : ℕ
  pub balances : BalanceMap

pub record AuditedMintResponse : Type 0 where
  pub audited : AuditedMint
  pub mint : MintTx
  pub deposit : GnosisSafeDeposit

pub record AuditedBurnResponse : Type 0 where
  pub audited : AuditedBurn
  pub burn : BurnTxOut
  pub withdrawal : GnosisSafeWithdrawal
  pub decoded_burn_memo_bytes : Option Text

pub record UnauditedGnosisDepositResponse : Type 0 where
  pub deposit : GnosisSafeDeposit

pub record UnauditedBurnTxOutResponse : Type 0 where
  pub burn : BurnTxOut
  pub decoded_burn_memo_bytes : Option Text

pub record BurnInfoResponse : Type 0 where
  pub burn : BurnTxOut
  pub decoded_burn_memo_bytes : Option Text

-- `safes[0]`
abbrev pub first_safe : GnosisSafeConfig → Result Error AuditedSafeConfig
first_safe config = elim config.safes [ [] ↦ panic | safe ∷ _ ↦ ok safe ]

unfoldable pub get_token_precisions : GnosisSafeConfig → Result Error TokenPrecisionResponse
get_token_precisions config = do
  safe ← first_safe config
  ok (record {
    max_precision = safe.token_decimals_max;
    token_base_precisions =
        map
          (λ (token : AuditedToken). record {
            token_id = token.token_id;
            token_eth_addrs = token.eth_token_contract_addrs;
            token_precision = token.decimals;
          })
          safe.tokens;
  })

abbrev symbol_of : Option AuditedToken → Text
symbol_of none = text "Unexpected Token"
symbol_of (some token) = token.symbol

unfoldable pub get_token_symbol : GnosisSafeConfig → ℕ → Result Error Text
get_token_symbol config token_id = do
  safe ← first_safe config
  ok (symbol_of (find (λ token. token.token_id == token_id) safe.tokens))

-- the response for a block, with its stored balances
abbrev pub with_stored_balances : Db → BlockAuditData → BlockAuditDataResponse
with_stored_balances db b = record {
  block_index = as_u64 b.block_index;
  balances = get_balances_for_block (as_u64 b.block_index) db;
}

unfoldable pub get_block_audit_data_response : ℕ → Db → Result Error BlockAuditDataResponse
get_block_audit_data_response block_index db = do
  block_audit_data ← get_block_audit_data block_index db
  ok (with_stored_balances db block_audit_data)

-- `BlockAuditData::last_block_audit_data`
unfoldable pub last_block_audit_data : Db → Result Error (Option BlockAuditData)
last_block_audit_data db = elim (last_synced_block_index db) [
  | none ↦ ok none
  | some block_index ↦ (get_block_audit_data block_index db >>= λ b. ok (some b))
]

unfoldable pub get_last_block_audit_data : Db → Result Error BlockAuditDataResponse
get_last_block_audit_data db = do
  last ← last_block_audit_data db
  block_audit_data ← ok_or last not_found
  ok (with_stored_balances db block_audit_data)

-- OFFSET and LIMIT, cast to `i64`: a negative offset is 0, and a negative limit is none. An offset
-- without a limit skips rows here; whether Diesel makes SQL of it that SQLite accepts is not known.
abbrev pub offset_rows : {A : Type 0} → Option ℕ → List A → List A
offset_rows none rows = rows
offset_rows (some o) rows = if ltb o (2 ^ 63) then drop o rows else rows

abbrev pub limit_rows : {A : Type 0} → Option ℕ → List A → List A
limit_rows none rows = rows
limit_rows (some l) rows = if ltb l (2 ^ 63) then take l rows else rows

abbrev pub keep_some : {A : Type 0} → Option A → List A → List A
keep_some none rows = rows
keep_some (some a) rows = a ∷ rows

abbrev pub mint_row :
    AuditedMint → Option MintTx → Option GnosisSafeDeposit → Option AuditedMintResponse
mint_row a (some m) (some d) = some (record { audited = a; mint = m; deposit = d })
mint_row a (some m) none = none
mint_row a none d = none

-- the inner join of `audited_mints` with the two tables, by the id of the audit row
unfoldable pub joined_mints : Db → List AuditedMint → List AuditedMintResponse
joined_mints db [] = []
joined_mints db (a ∷ rows) =
    keep_some (mint_row a (mint_by_id a.mint_tx_id db) (deposit_by_id a.gnosis_safe_deposit_id db))
      (joined_mints db rows)

-- `AuditedMint::list_with_mint_and_deposit` and `get_audited_mints`
unfoldable pub get_audited_mints : Option ℕ → Option ℕ → Db → List AuditedMintResponse
get_audited_mints offset limit db =
    limit_rows limit (offset_rows offset (joined_mints db db.audited_mints))

unfoldable pub get_unaudited_gnosis_deposits : Db → List UnauditedGnosisDepositResponse
get_unaudited_gnosis_deposits db =
    map (λ deposit. record { deposit = deposit }) (find_unaudited_deposits db)

unfoldable pub get_unaudited_withdrawals : Db → List GnosisSafeWithdrawal
get_unaudited_withdrawals db = find_unaudited_withdrawals db

unfoldable pub get_unaudited_mints : Db → List MintTx
get_unaudited_mints db = find_unaudited_mint_txs db

-- `.map(|(_token_id, amount)| amount as u128).sum()`
abbrev pub sum_u128 : List (ℕ × ℕ) → ℕ
sum_u128 [] = 0
sum_u128 ((_, amount) ∷ rows) = (amount + sum_u128 rows) % u128_mod

unfoldable pub get_mint_total : ℕ → Db → ℕ
get_mint_total token_id db = sum_u128 (get_mint_amounts token_id db)

unfoldable pub get_burn_total : ℕ → Db → ℕ
get_burn_total token_id db = sum_u128 (get_burn_amounts token_id db)

module _ (memos : Memos) where
  abbrev burn_memo : MemoType → Result Error Text
  burn_memo (burn_redemption bytes) = ok bytes
  burn_memo other_memo = err invalid_memo_type

  -- `BurnTxOut::burn_redemption_memo`, with the bytes of the memo
  unfoldable pub burn_redemption_memo : BurnTxOut → Result Error Text
  burn_redemption_memo b = do
    tx_out ← ok_or (memos.decode_tx_out b.protobuf) Error.decode
    tx_pub ← ok_or (memos.ristretto_public tx_out.public_key) key
    memo_type ←
        ok_or (memos.memo_type (memos.decrypt_memo tx_out (memos.shared_secret tx_pub)))
          memo_decoding
    burn_memo memo_type

  abbrev pub burn_info : BurnTxOut → BurnInfoResponse
  burn_info b = record { burn = b; decoded_burn_memo_bytes = to_option (burn_redemption_memo b) }

  abbrev burn_row :
      AuditedBurn → Option BurnTxOut → Option GnosisSafeWithdrawal → Option AuditedBurnResponse
  burn_row a (some b) (some w) = some (record {
    audited = a;
    burn = b;
    withdrawal = w;
    decoded_burn_memo_bytes = to_option (burn_redemption_memo b);
  })
  burn_row a (some b) none = none
  burn_row a none w = none

  unfoldable pub joined_burns : Db → List AuditedBurn → List AuditedBurnResponse
  joined_burns db [] = []
  joined_burns db (a ∷ rows) =
      keep_some
        (burn_row a (burn_by_id a.burn_tx_out_id db)
          (withdrawal_by_id a.gnosis_safe_withdrawal_id db))
        (joined_burns db rows)

  -- `AuditedBurn::list_with_burn_and_withdrawal` and `get_audited_burns`
  unfoldable pub get_audited_burns : Option ℕ → Option ℕ → Db → List AuditedBurnResponse
  get_audited_burns offset limit db =
      limit_rows limit (offset_rows offset (joined_burns db db.audited_burns))

  abbrev pub unaudited_burn : BurnTxOut → UnauditedBurnTxOutResponse
  unaudited_burn b = record {
    burn = b;
    decoded_burn_memo_bytes = to_option (burn_redemption_memo b);
  }

  unfoldable pub get_unaudited_burn_tx_outs : Db → List UnauditedBurnTxOutResponse
  get_unaudited_burn_tx_outs db = map unaudited_burn (find_unaudited_burn_tx_outs db)

  unfoldable pub get_burns_by_block : ℕ → Db → List BurnInfoResponse
  get_burns_by_block block_index db = map burn_info (get_burn_txs_by_block block_index db)
