-- ===== src/Audit/Burn/Reasons.antt =====
-- What an error of an attempt to match says of the tables.
use reserve_auditor.Prelude.{ℕ, ◌≡◌, ◌≢◌, none, some, Option-cases, Bool-cases, inl, inr, arith}
use reserve_auditor.Result.{err}
use reserve_auditor.Error.{
  Error, withdrawal_and_burn_mismatch, ethereum_token_not_audited, gnosis_safe_not_audited,
  object_not_saved,
}
use reserve_auditor.Gnosis.Types.{EthAddr, EthTxHash, addr_eq}
use reserve_auditor.Gnosis.Config.{
  AuditedSafeConfig, GnosisSafeConfig, get_token_by_eth_contract_addr,
  get_audited_safe_config_by_safe_addr,
}
use reserve_auditor.Db.Models.{Db, BurnTxOut, GnosisSafeWithdrawal}
use reserve_auditor.Db.Transaction.{transaction-result}
use reserve_auditor.Db.BurnTxOuts.{find_unaudited_burn_tx_out_by_public_key}
use reserve_auditor.Db.Withdrawals.{find_unaudited_withdrawal_by_public_key}
use reserve_auditor.Audit.VerifyBurn.{
  Matches, verify_burn_iff, verify_burn_tx_out_matches_withdrawal,
}
use reserve_auditor.Audit.Burn.{
  associate_withdrawal_with_burn, withdrawal_to_burn, match_withdrawal, burn_to_withdrawal,
  match_burn,
}

module _ (d : GnosisSafeWithdrawal) (c : AuditedSafeConfig) (k : ℕ) (db : Db) where
  to_burn_mismatch :
      (withdrawal_to_burn d c k db).0 ≡ err withdrawal_and_burn_mismatch
      → (m : BurnTxOut) × (find_unaudited_burn_tx_out_by_public_key d.mc_tx_out_public_key_hex db
          ≡ some m)
        × (¬ Matches c m d)
  unfolding withdrawal_to_burn associate_withdrawal_with_burn
  to_burn_mismatch e =
      elim (Option-cases (find_unaudited_burn_tx_out_by_public_key d.mc_tx_out_public_key_hex db)) [
        | inl f ↦ absurd (ground arith)
        | inr (m, f) ↦ (
          m,
          f,
          λ belong. let passes = (verify_burn_iff m d c).1 belong in ground (arith, passes),
        )
      ]

  to_burn_unknown :
      (a b : EthAddr) (h : EthTxHash)
      → (withdrawal_to_burn d c k db).0 ≡ err (ethereum_token_not_audited a b h)
      → get_token_by_eth_contract_addr c d.token_addr ≡ none
  unfolding withdrawal_to_burn associate_withdrawal_with_burn verify_burn_tx_out_matches_withdrawal
  to_burn_unknown a b h e = elim (Option-cases (get_token_by_eth_contract_addr c d.token_addr)) [
    | inl no_token ↦ no_token
    | inr (t, f) ↦ absurd (ground arith)
  ]

module _ (d : GnosisSafeWithdrawal) (c : AuditedSafeConfig) (db : Db) where
  pub match_withdrawal_mismatch :
      (match_withdrawal d c db).0 ≡ err withdrawal_and_burn_mismatch
      → (m : BurnTxOut) × (find_unaudited_burn_tx_out_by_public_key d.mc_tx_out_public_key_hex db
          ≡ some m)
        × (¬ Matches c m d)
  unfolding match_withdrawal
  match_withdrawal_mismatch e = elim (Option-cases d.id) [
    | inl f ↦ absurd (ground arith)
    | inr (k, f) ↦ elim (Bool-cases (addr_eq d.safe_addr c.safe_addr)) [
      | inl same ↦
          to_burn_mismatch d c k db
            (ground (arith, transaction-result (withdrawal_to_burn d c k) db))
      | inr other ↦ absurd (ground arith)
    ]
  ]

  pub match_withdrawal_unknown :
      (a b : EthAddr) (h : EthTxHash)
      → (match_withdrawal d c db).0 ≡ err (ethereum_token_not_audited a b h)
      → get_token_by_eth_contract_addr c d.token_addr ≡ none
  unfolding match_withdrawal
  match_withdrawal_unknown a b h e = elim (Option-cases d.id) [
    | inl f ↦ absurd (ground arith)
    | inr (k, f) ↦ elim (Bool-cases (addr_eq d.safe_addr c.safe_addr)) [
      | inl same ↦
          to_burn_unknown d c k db a b h
            (ground (arith, transaction-result (withdrawal_to_burn d c k) db))
      | inr other ↦ absurd (ground arith)
    ]
  ]

module _ (m : BurnTxOut) (c : GnosisSafeConfig) (j : ℕ) (db : Db) where
  -- the withdrawal and the safe that the attempt for the burn compares it with
  abbrev pub Compared : GnosisSafeWithdrawal → AuditedSafeConfig → Type 0
  Compared d safe =
      (find_unaudited_withdrawal_by_public_key m.public_key_hex db ≡ some d)
      × (get_audited_safe_config_by_safe_addr c d.safe_addr ≡ some safe)

  pub to_withdrawal_unknown_safe :
      (a : EthAddr)
      → (burn_to_withdrawal m c j db).0 ≡ err (gnosis_safe_not_audited a)
      → (d : GnosisSafeWithdrawal) × (find_unaudited_withdrawal_by_public_key m.public_key_hex db
          ≡ some d)
        × (get_audited_safe_config_by_safe_addr c d.safe_addr ≡ none)
  unfolding burn_to_withdrawal associate_withdrawal_with_burn verify_burn_tx_out_matches_withdrawal
  to_withdrawal_unknown_safe a e =
      elim (Option-cases (find_unaudited_withdrawal_by_public_key m.public_key_hex db)) [
        | inl f ↦ absurd (ground arith)
        | inr (d, f) ↦ elim (Option-cases (get_audited_safe_config_by_safe_addr c d.safe_addr)) [
          | inl g ↦ (d, f, g)
          | inr (s, g) ↦ absurd (ground arith)
        ]
      ]

  pub to_withdrawal_mismatch :
      (burn_to_withdrawal m c j db).0 ≡ err withdrawal_and_burn_mismatch
      → (d : GnosisSafeWithdrawal) × (safe : AuditedSafeConfig) × Compared d safe
        × (¬ Matches safe m d)
  unfolding burn_to_withdrawal associate_withdrawal_with_burn
  to_withdrawal_mismatch e =
      elim (Option-cases (find_unaudited_withdrawal_by_public_key m.public_key_hex db)) [
        | inl f ↦ absurd (ground arith)
        | inr (d, f) ↦ elim (Option-cases (get_audited_safe_config_by_safe_addr c d.safe_addr)) [
          | inl g ↦ absurd (ground arith)
          | inr (s, g) ↦ (
            d,
            s,
            (f, g),
            λ belong. let passes = (verify_burn_iff m d s).1 belong in ground (arith, passes),
          )
        ]
      ]

  pub to_withdrawal_unknown_token :
      (a b : EthAddr) (h : EthTxHash)
      → (burn_to_withdrawal m c j db).0 ≡ err (ethereum_token_not_audited a b h)
      → (d : GnosisSafeWithdrawal) × (safe : AuditedSafeConfig) × Compared d safe
        × (get_token_by_eth_contract_addr safe d.token_addr ≡ none)
  unfolding burn_to_withdrawal associate_withdrawal_with_burn verify_burn_tx_out_matches_withdrawal
  to_withdrawal_unknown_token a b h e =
      elim (Option-cases (find_unaudited_withdrawal_by_public_key m.public_key_hex db)) [
        | inl f ↦ absurd (ground arith)
        | inr (d, f) ↦ elim (Option-cases (get_audited_safe_config_by_safe_addr c d.safe_addr)) [
          | inl g ↦ absurd (ground arith)
          | inr (s, g) ↦ elim (Option-cases (get_token_by_eth_contract_addr s d.token_addr)) [
            | inl no_token ↦ (d, s, (f, g), no_token)
            | inr (t, i) ↦ absurd (ground arith)
          ]
        ]
      ]

-- an error of the attempt is one of what runs in the transaction, unless the burn has no id
pub match_burn_result :
    (m : BurnTxOut) (c : GnosisSafeConfig) (db : Db) (e : Error)
    → (match_burn m c db).0 ≡ err e
    → e ≢ object_not_saved
    → (j : ℕ) × ((burn_to_withdrawal m c j db).0 ≡ err e)
unfolding match_burn
match_burn_result m c db e h saved = elim (Option-cases m.id) [
  | inl f ↦ absurd (ground arith)
  | inr (j, f) ↦ (j, ground (arith, transaction-result (burn_to_withdrawal m c j) db))
]
