-- ===== src/Audit/VerifyBurn.antt =====
-- The comparison of a burn with a withdrawal, in src/db/models/audited_burn.rs.
use reserve_auditor.Prelude.{⊤, not, ◌≡◌, ◌↔◌, ◌==◌, true, some, inl, inr, Option-cases, arith}
use reserve_auditor.Prelude.Text.{text_eq, text_eq_refl, eq_of_text_eq}
use reserve_auditor.Result.{Result, ok, ok_or, err_if, ◌>>=◌, ◌>>◌}
use reserve_auditor.Error.{Error, withdrawal_and_burn_mismatch, ethereum_token_not_audited, other}
use reserve_auditor.Gnosis.Types.{addr_eq}
use reserve_auditor.Gnosis.Config.{AuditedToken, AuditedSafeConfig, get_token_by_eth_contract_addr}
use reserve_auditor.Db.Models.{BurnTxOut, GnosisSafeWithdrawal}
use reserve_auditor.Db.BurnTxOuts.{burn_token_id, burn_amount}
use reserve_auditor.Db.Withdrawals.{withdrawal_amount}

-- the token of the configuration for a withdrawal, or the error that there is none
abbrev pub audited_token_of : GnosisSafeWithdrawal → AuditedSafeConfig → Result Error AuditedToken
audited_token_of withdrawal config =
    ok_or (get_token_by_eth_contract_addr config withdrawal.token_addr)
      (ethereum_token_not_audited withdrawal.token_addr withdrawal.safe_addr withdrawal.eth_tx_hash)

unfoldable pub verify_burn_tx_out_matches_withdrawal :
    BurnTxOut → GnosisSafeWithdrawal → AuditedSafeConfig → Result Error ⊤
verify_burn_tx_out_matches_withdrawal burn_tx_out withdrawal config = do
  err_if (not (addr_eq withdrawal.safe_addr config.safe_addr)) other
  audited_token ← audited_token_of withdrawal config
  err_if (not (audited_token.token_id == burn_token_id burn_tx_out)) withdrawal_and_burn_mismatch
  err_if (not (text_eq burn_tx_out.public_key_hex withdrawal.mc_tx_out_public_key_hex))
      withdrawal_and_burn_mismatch
  err_if (not (burn_amount burn_tx_out == withdrawal_amount withdrawal))
      withdrawal_and_burn_mismatch
  ok tt

-- A burn and a withdrawal that belong together: the withdrawal is from the safe, in a token of the
-- safe that has the burn's token id, and public key and amount agree.
pub record Matches (config : AuditedSafeConfig) (m : BurnTxOut) (d : GnosisSafeWithdrawal)
    : Type 0 where
  pub safe : addr_eq d.safe_addr config.safe_addr ≡ true
  pub token : AuditedToken
  pub audited : get_token_by_eth_contract_addr config d.token_addr ≡ some token
  pub token_id : token.token_id ≡ burn_token_id m
  pub public_key : m.public_key_hex ≡ d.mc_tx_out_public_key_hex
  pub amount : burn_amount m ≡ withdrawal_amount d

module _ (m : BurnTxOut) (d : GnosisSafeWithdrawal) (config : AuditedSafeConfig) where
  verify-Matches : verify_burn_tx_out_matches_withdrawal m d config ≡ ok tt → Matches config m d
  unfolding verify_burn_tx_out_matches_withdrawal
  verify-Matches h = elim (Option-cases (get_token_by_eth_contract_addr config d.token_addr)) [
    | inl no_token ↦ ground arith
    | inr (t, e) ↦ record {
      safe = ground arith;
      token = t;
      audited = e;
      token_id = ground arith;
      public_key = eq_of_text_eq _ _ (ground arith);
      amount = ground arith;
    }
  ]

  Matches-verify : Matches config m d → verify_burn_tx_out_matches_withdrawal m d config ≡ ok tt
  unfolding verify_burn_tx_out_matches_withdrawal
  Matches-verify h =
      let same : text_eq m.public_key_hex d.mc_tx_out_public_key_hex ≡ true =
        rw h.public_key (text_eq_refl _) in
      ground (arith, h.safe, h.audited, h.token_id, h.amount, same)

  -- A burn and a withdrawal pass the comparison exactly when they belong together.
  pub verify_burn_iff :
      (verify_burn_tx_out_matches_withdrawal m d config ≡ ok tt) ↔ Matches config m d
  verify_burn_iff = (verify-Matches, Matches-verify)
