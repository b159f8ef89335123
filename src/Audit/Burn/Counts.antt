-- ===== src/Audit/Burn/Counts.antt =====
-- The counter of an error of an attempt to match, and what it says of the tables.
use reserve_auditor.Prelude.{true, false, ◌≡◌, ◌≢◌, none, some, In, find-In, find_passes, arith}
use reserve_auditor.Prelude.Text.{Text, eq_of_text_eq}
use reserve_auditor.Prelude.Members.{find-none}
use reserve_auditor.Result.{err}
use reserve_auditor.Error.{
  Error, withdrawal_and_burn_mismatch, ethereum_token_not_audited, gnosis_safe_not_audited,
}
use reserve_auditor.Gnosis.Types.{EthAddr, EthTxHash, addr_eq}
use reserve_auditor.Gnosis.Config.{
  AuditedSafeConfig, GnosisSafeConfig, get_token_by_eth_contract_addr,
  get_audited_safe_config_by_safe_addr,
}
use reserve_auditor.Db.Models.{Db, BurnTxOut, GnosisSafeWithdrawal}
use reserve_auditor.Db.Counters.{
  CounterName, num_mismatching_burns_and_withdrawals, num_unknown_ethereum_token_withdrawals,
  num_burns_from_unknown_safe, num_unexpected_errors_matching_withdrawals_to_burns,
  num_unexpected_errors_matching_burns_to_withdrawals,
}
use reserve_auditor.Db.BurnTxOuts.{find_unaudited_burn_tx_out_by_public_key}
use reserve_auditor.Db.Withdrawals.{find_unaudited_withdrawal_by_public_key}
use reserve_auditor.Audit.VerifyBurn.{Matches}
use reserve_auditor.Audit.Burn.{
  withdrawal_error_counter, burn_error_counter, match_withdrawal, match_burn,
}
use reserve_auditor.Audit.Burn.Reasons.{
  match_withdrawal_mismatch, match_withdrawal_unknown, match_burn_result,
  to_withdrawal_unknown_safe, to_withdrawal_mismatch, to_withdrawal_unknown_token,
}

-- Which counter an error of the attempt for a withdrawal has, and why: a mismatch, where a burn of
-- its public key does not belong to it; a token that the safe does not have; any other error is
-- unexpected.
pub data CountsForWithdrawal (c : AuditedSafeConfig) (d : GnosisSafeWithdrawal) (db : Db)
    : Error → CounterName → Type 0 where
  mismatch :
      (m : BurnTxOut)
      → In m db.burn_tx_outs
      → m.public_key_hex ≡ d.mc_tx_out_public_key_hex
      → (¬ Matches c m d)
      → CountsForWithdrawal c d db withdrawal_and_burn_mismatch
          num_mismatching_burns_and_withdrawals
  unknown_token :
      (a b : EthAddr) (h : EthTxHash)
      → get_token_by_eth_contract_addr c d.token_addr ≡ none
      → CountsForWithdrawal c d db
          (ethereum_token_not_audited a b h)
          num_unknown_ethereum_token_withdrawals
  unexpected :
      (e : Error)
      → e ≢ withdrawal_and_burn_mismatch
      → ((a b : EthAddr) (h : EthTxHash) → e ≢ ethereum_token_not_audited a b h)
      → CountsForWithdrawal c d db e num_unexpected_errors_matching_withdrawals_to_burns

-- a withdrawal of the table names the public key of the burn
abbrev pub Names : Db → BurnTxOut → GnosisSafeWithdrawal → Type 0
Names db m d = In d db.gnosis_safe_withdrawals × (d.mc_tx_out_public_key_hex ≡ m.public_key_hex)

-- The same for a burn and a withdrawal that names its public key: no safe of the configuration has
-- the address; it does not belong to the burn in the safe that has; that safe does not have the
-- token.
pub data CountsForBurn (config : GnosisSafeConfig) (m : BurnTxOut) (db : Db)
    : Error → CounterName → Type 0 where
  unknown_safe :
      (a : EthAddr) (d : GnosisSafeWithdrawal)
      → Names db m d
      → ((s : AuditedSafeConfig) → In s config.safes → addr_eq s.safe_addr d.safe_addr ≡ false)
      → CountsForBurn config m db (gnosis_safe_not_audited a) num_burns_from_unknown_safe
  mismatch :
      (d : GnosisSafeWithdrawal) (safe : AuditedSafeConfig)
      → Names db m d
      → In safe config.safes
      → (addr_eq safe.safe_addr d.safe_addr ≡ true)
      → (¬ Matches safe m d)
      → CountsForBurn config m db withdrawal_and_burn_mismatch num_mismatching_burns_and_withdrawals
  unknown_token :
      (a b : EthAddr) (h : EthTxHash) (d : GnosisSafeWithdrawal) (safe : AuditedSafeConfig)
      → Names db m d
      → In safe config.safes
      → (addr_eq safe.safe_addr d.safe_addr ≡ true)
      → get_token_by_eth_contract_addr safe d.token_addr ≡ none
      → CountsForBurn config m db
          (ethereum_token_not_audited a b h)
          num_unknown_ethereum_token_withdrawals
  unexpected :
      (e : Error)
      → ((a : EthAddr) → e ≢ gnosis_safe_not_audited a)
      → e ≢ withdrawal_and_burn_mismatch
      → ((a b : EthAddr) (h : EthTxHash) → e ≢ ethereum_token_not_audited a b h)
      → CountsForBurn config m db e num_unexpected_errors_matching_burns_to_withdrawals

found_burn :
    (db : Db) (nonce : Text) (m : BurnTxOut)
    → find_unaudited_burn_tx_out_by_public_key nonce db ≡ some m
    → In m db.burn_tx_outs × (m.public_key_hex ≡ nonce)
unfolding find_unaudited_burn_tx_out_by_public_key
found_burn db nonce m f =
    let passes = find_passes _ db.burn_tx_outs f in
    (find-In _ db.burn_tx_outs f, eq_of_text_eq _ _ (ground arith))

found_withdrawal :
    (db : Db) (m : BurnTxOut) (d : GnosisSafeWithdrawal)
    → find_unaudited_withdrawal_by_public_key m.public_key_hex db ≡ some d
    → Names db m d
unfolding find_unaudited_withdrawal_by_public_key
found_withdrawal db m d f =
    let passes = find_passes _ db.gnosis_safe_withdrawals f in
    (find-In _ db.gnosis_safe_withdrawals f, eq_of_text_eq _ _ (ground arith))

pub counter_of_withdrawal :
    (c : AuditedSafeConfig) (d : GnosisSafeWithdrawal) (db : Db) (e : Error)
    → (match_withdrawal d c db).0 ≡ err e
    → CountsForWithdrawal c d db e (withdrawal_error_counter e)
counter_of_withdrawal c d db withdrawal_and_burn_mismatch h =
    let (m, f, differ) = match_withdrawal_mismatch d c db h in
    let (row, nonce) = found_burn db _ m f in mismatch m row nonce differ
counter_of_withdrawal c d db (ethereum_token_not_audited a b t) h =
    unknown_token a b t (match_withdrawal_unknown d c db a b t h)
counter_of_withdrawal c d db e h = unexpected _ (λ q. cc) (λ a b t q. cc)

pub counter_of_burn :
    (config : GnosisSafeConfig) (m : BurnTxOut) (db : Db) (e : Error)
    → (match_burn m config db).0 ≡ err e
    → CountsForBurn config m db e (burn_error_counter e)
unfolding get_audited_safe_config_by_safe_addr
counter_of_burn config m db (gnosis_safe_not_audited a) h =
    let (j, i) = match_burn_result m config db _ h (λ q. cc) in
    let (d, f, g) = to_withdrawal_unknown_safe m config j db a i in
    unknown_safe a d (found_withdrawal db m d f) (λ s k. find-none _ config.safes s g k)
counter_of_burn config m db withdrawal_and_burn_mismatch h =
    let (j, i) = match_burn_result m config db _ h (λ q. cc) in
    let (d, safe, (f, g), differ) = to_withdrawal_mismatch m config j db i in
    mismatch d safe (found_withdrawal db m d f) (find-In _ config.safes g)
      (find_passes _ config.safes g) differ
counter_of_burn config m db (ethereum_token_not_audited a b t) h =
    let (j, i) = match_burn_result m config db _ h (λ q. cc) in
    let (d, safe, (f, g), no_token) = to_withdrawal_unknown_token m config j db a b t i in
    unknown_token a b t d safe (found_withdrawal db m d f) (find-In _ config.safes g)
      (find_passes _ config.safes g) no_token
counter_of_burn config m db e h = unexpected _ (λ a q. cc) (λ q. cc) (λ a b t q. cc)
