-- ===== src/Audit/Verify.antt =====
-- The comparison of a mint with a deposit, in src/db/models/audited_mint.rs.
use reserve_auditor.Prelude.{⊤, not, ◌≡◌, ◌↔◌, ◌==◌, true, some, inl, inr, Option-cases, arith}
use reserve_auditor.Prelude.Text.{text_eq, text_eq_refl, eq_of_text_eq}
use reserve_auditor.Result.{Result, ok, ok_or, err_if, ◌>>=◌, ◌>>◌}
use reserve_auditor.Error.{Error, deposit_and_mint_mismatch, ethereum_token_not_audited, other}
use reserve_auditor.Gnosis.Types.{addr_eq}
use reserve_auditor.Gnosis.Config.{AuditedToken, AuditedSafeConfig, get_token_by_eth_contract_addr}
use reserve_auditor.Db.Models.{MintTx, GnosisSafeDeposit}
use reserve_auditor.Db.MintTxs.{mint_token_id, mint_amount}
use reserve_auditor.Db.Deposits.{deposit_amount}

-- the token of the configuration for a deposit, or the error that there is none
abbrev pub audited_token_of : GnosisSafeDeposit → AuditedSafeConfig → Result Error AuditedToken
audited_token_of deposit config =
    ok_or (get_token_by_eth_contract_addr config deposit.token_addr)
      (ethereum_token_not_audited deposit.token_addr deposit.safe_addr deposit.eth_tx_hash)

unfoldable pub verify_mint_tx_matches_deposit :
    MintTx → GnosisSafeDeposit → AuditedSafeConfig → Result Error ⊤
verify_mint_tx_matches_deposit mint_tx deposit config = do
  err_if (not (addr_eq deposit.safe_addr config.safe_addr)) other
  audited_token ← audited_token_of deposit config
  err_if (not (audited_token.token_id == mint_token_id mint_tx)) deposit_and_mint_mismatch
  err_if (not (text_eq mint_tx.nonce_hex deposit.expected_mc_mint_tx_nonce_hex))
      deposit_and_mint_mismatch
  err_if (not (mint_amount mint_tx == deposit_amount deposit)) deposit_and_mint_mismatch
  -- the source looks the token up and compares it a second time
  again ← audited_token_of deposit config
  err_if (not (again.token_id == mint_token_id mint_tx)) deposit_and_mint_mismatch
  ok tt

-- A mint and a deposit that belong together: the deposit went to the safe, in a token of the safe
-- that has the mint's token id, and nonce and amount agree.
pub record Matches (config : AuditedSafeConfig) (m : MintTx) (d : GnosisSafeDeposit) : Type 0 where
  pub safe : addr_eq d.safe_addr config.safe_addr ≡ true
  pub token : AuditedToken
  pub audited : get_token_by_eth_contract_addr config d.token_addr ≡ some token
  pub token_id : token.token_id ≡ mint_token_id m
  pub nonce : m.nonce_hex ≡ d.expected_mc_mint_tx_nonce_hex
  pub amount : mint_amount m ≡ deposit_amount d

module _ (m : MintTx) (d : GnosisSafeDeposit) (config : AuditedSafeConfig) where
  verify-Matches : verify_mint_tx_matches_deposit m d config ≡ ok tt → Matches config m d
  unfolding verify_mint_tx_matches_deposit
  verify-Matches h = elim (Option-cases (get_token_by_eth_contract_addr config d.token_addr)) [
    | inl no_token ↦ ground arith
    | inr (t, e) ↦ record {
      safe = ground arith;
      token = t;
      audited = e;
      token_id = ground arith;
      nonce = eq_of_text_eq _ _ (ground arith);
      amount = ground arith;
    }
  ]

  Matches-verify : Matches config m d → verify_mint_tx_matches_deposit m d config ≡ ok tt
  unfolding verify_mint_tx_matches_deposit
  Matches-verify h =
      let same : text_eq m.nonce_hex d.expected_mc_mint_tx_nonce_hex ≡ true =
        rw h.nonce (text_eq_refl _) in
      ground (arith, h.safe, h.audited, h.token_id, h.amount, same)

  -- A mint and a deposit pass the comparison exactly when they belong together.
  pub verify_iff : (verify_mint_tx_matches_deposit m d config ≡ ok tt) ↔ Matches config m d
  verify_iff = (verify-Matches, Matches-verify)
