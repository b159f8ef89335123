-- ===== src/Audit/Mint/Counts.antt =====
-- The counter of an error of an attempt to match, and what it says of the tables.
use reserve_auditor.Prelude.{true, false, ◌≡◌, ◌≢◌, none, some, In, find-In, find_passes, arith}
use reserve_auditor.Prelude.Text.{Text, eq_of_text_eq}
use reserve_auditor.Prelude.Members.{find-none}
use reserve_auditor.Result.{err}
use reserve_auditor.Error.{
  Error, deposit_and_mint_mismatch, ethereum_token_not_audited, gnosis_safe_not_audited,
}
use reserve_auditor.Gnosis.Types.{EthAddr, EthTxHash, addr_eq}
use reserve_auditor.Gnosis.Config.{
  AuditedSafeConfig, GnosisSafeConfig, get_token_by_eth_contract_addr,
  get_audited_safe_config_by_safe_addr,
}
use reserve_auditor.Db.Models.{Db, MintTx, GnosisSafeDeposit}
use reserve_auditor.Db.Counters.{
  CounterName, num_mismatching_mints_and_deposits, num_unknown_ethereum_token_deposits,
  num_mints_to_unknown_safe, num_unexpected_errors_matching_deposits_to_mints,
  num_unexpected_errors_matching_mints_to_deposits,
}
use reserve_auditor.Db.MintTxs.{find_unaudited_mint_tx_by_nonce}
use reserve_auditor.Db.Deposits.{find_unaudited_deposit_by_nonce}
use reserve_auditor.Audit.Verify.{Matches}
use reserve_auditor.Audit.Mint.{
  deposit_error_counter, mint_error_counter, match_deposit, match_mint,
}
use reserve_auditor.Audit.Mint.Reasons.{
  match_deposit_mismatch, match_deposit_unknown, match_mint_result, to_deposit_unknown_safe,
  to_deposit_mismatch, to_deposit_unknown_token,
}

-- Which counter an error of the attempt for a deposit has, and why: a mismatch, where a mint of its
-- nonce does not belong to it; a token that the safe does not have; any other error is unexpected.
pub data CountsForDeposit (c : AuditedSafeConfig) (d : GnosisSafeDeposit) (db : Db)
    : Error → CounterName → Type 0 where
  mismatch :
      (m : MintTx)
      → In m db.mint_txs
      → m.nonce_hex ≡ d.expected_mc_mint_tx_nonce_hex
      → (¬ Matches c m d)
      → CountsForDeposit c d db deposit_and_mint_mismatch num_mismatching_mints_and_deposits
  unknown_token :
      (a b : EthAddr) (h : EthTxHash)
      → get_token_by_eth_contract_addr c d.token_addr ≡ none
      → CountsForDeposit c d db
          (ethereum_token_not_audited a b h)
          num_unknown_ethereum_token_deposits
  unexpected :
      (e : Error)
      → e ≢ deposit_and_mint_mismatch
      → ((a b : EthAddr) (h : EthTxHash) → e ≢ ethereum_token_not_audited a b h)
      → CountsForDeposit c d db e num_unexpected_errors_matching_deposits_to_mints

-- a deposit of the table expects the nonce of the mint
abbrev pub Expects : Db → MintTx → GnosisSafeDeposit → Type 0
Expects db m d = In d db.gnosis_safe_deposits × (d.expected_mc_mint_tx_nonce_hex ≡ m.nonce_hex)

-- The same for a mint and a deposit that expects its nonce: no safe of the configuration has the
-- address; it does not belong to the mint in the safe that has; that safe does not have the token.
pub data CountsForMint (config : GnosisSafeConfig) (m : MintTx) (db : Db)
    : Error → CounterName → Type 0 where
  unknown_safe :
      (a : EthAddr) (d : GnosisSafeDeposit)
      → Expects db m d
      → ((s : AuditedSafeConfig) → In s config.safes → addr_eq s.safe_addr d.safe_addr ≡ false)
      → CountsForMint config m db (gnosis_safe_not_audited a) num_mints_to_unknown_safe
  mismatch :
      (d : GnosisSafeDeposit) (safe : AuditedSafeConfig)
      → Expects db m d
      → In safe config.safes
      → (addr_eq safe.safe_addr d.safe_addr ≡ true)
      → (¬ Matches safe m d)
      → CountsForMint config m db deposit_and_mint_mismatch num_mismatching_mints_and_deposits
  unknown_token :
      (a b : EthAddr) (h : EthTxHash) (d : GnosisSafeDeposit) (safe : AuditedSafeConfig)
      → Expects db m d
      → In safe config.safes
      → (addr_eq safe.safe_addr d.safe_addr ≡ true)
      → get_token_by_eth_contract_addr safe d.token_addr ≡ none
      → CountsForMint config m db
          (ethereum_token_not_audited a b h)
          num_unknown_ethereum_token_deposits
  unexpected :
      (e : Error)
      → ((a : EthAddr) → e ≢ gnosis_safe_not_audited a)
      → e ≢ deposit_and_mint_mismatch
      → ((a b : EthAddr) (h : EthTxHash) → e ≢ ethereum_token_not_audited a b h)
      → CountsForMint config m db e num_unexpected_errors_matching_mints_to_deposits

found_mint :
    (db : Db) (nonce : Text) (m : MintTx)
    → find_unaudited_mint_tx_by_nonce nonce db ≡ some m
    → In m db.mint_txs × (m.nonce_hex ≡ nonce)
unfolding find_unaudited_mint_tx_by_nonce
found_mint db nonce m f =
    let passes = find_passes _ db.mint_txs f in
    (find-In _ db.mint_txs f, eq_of_text_eq _ _ (ground arith))

found_deposit :
    (db : Db) (m : MintTx) (d : GnosisSafeDeposit)
    → find_unaudited_deposit_by_nonce m.nonce_hex db ≡ some d
    → Expects db m d
unfolding find_unaudited_deposit_by_nonce
found_deposit db m d f =
    let passes = find_passes _ db.gnosis_safe_deposits f in
    (find-In _ db.gnosis_safe_deposits f, eq_of_text_eq _ _ (ground arith))

pub counter_of_deposit :
    (c : AuditedSafeConfig) (d : GnosisSafeDeposit) (db : Db) (e : Error)
    → (match_deposit d c db).0 ≡ err e
    → CountsForDeposit c d db e (deposit_error_counter e)
counter_of_deposit c d db deposit_and_mint_mismatch h =
    let (m, f, differ) = match_deposit_mismatch d c db h in
    let (row, nonce) = found_mint db _ m f in mismatch m row nonce differ
counter_of_deposit c d db (ethereum_token_not_audited a b t) h =
    unknown_token a b t (match_deposit_unknown d c db a b t h)
counter_of_deposit c d db e h = unexpected _ (λ q. cc) (λ a b t q. cc)

pub counter_of_mint :
    (config : GnosisSafeConfig) (m : MintTx) (db : Db) (e : Error)
    → (match_mint m config db).0 ≡ err e
    → CountsForMint config m db e (mint_error_counter e)
unfolding get_audited_safe_config_by_safe_addr
counter_of_mint config m db (gnosis_safe_not_audited a) h =
    let (j, i) = match_mint_result m config db _ h (λ q. cc) in
    let (d, f, g) = to_deposit_unknown_safe m config j db a i in
    unknown_safe a d (found_deposit db m d f) (λ s k. find-none _ config.safes s g k)
counter_of_mint config m db deposit_and_mint_mismatch h =
    let (j, i) = match_mint_result m config db _ h (λ q. cc) in
    let (d, safe, (f, g), differ) = to_deposit_mismatch m config j db i in
    mismatch d safe (found_deposit db m d f) (find-In _ config.safes g)
      (find_passes _ config.safes g) differ
counter_of_mint config m db (ethereum_token_not_audited a b t) h =
    let (j, i) = match_mint_result m config db _ h (λ q. cc) in
    let (d, safe, (f, g), no_token) = to_deposit_unknown_token m config j db a b t i in
    unknown_token a b t d safe (found_deposit db m d f) (find-In _ config.safes g)
      (find_passes _ config.safes g) no_token
counter_of_mint config m db e h = unexpected _ (λ a q. cc) (λ q. cc) (λ a b t q. cc)
