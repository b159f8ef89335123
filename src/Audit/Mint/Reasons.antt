-- ===== src/Audit/Mint/Reasons.antt =====
-- What an error of an attempt to match says of the tables.
use reserve_auditor.Prelude.{ℕ, ◌≡◌, ◌≢◌, none, some, Option-cases, Bool-cases, inl, inr, arith}
use reserve_auditor.Result.{err}
use reserve_auditor.Error.{
  Error, deposit_and_mint_mismatch, ethereum_token_not_audited, gnosis_safe_not_audited,
  object_not_saved,
}
use reserve_auditor.Gnosis.Types.{EthAddr, EthTxHash, addr_eq}
use reserve_auditor.Gnosis.Config.{
  AuditedSafeConfig, GnosisSafeConfig, get_token_by_eth_contract_addr,
  get_audited_safe_config_by_safe_addr,
}
use reserve_auditor.Db.Models.{Db, MintTx, GnosisSafeDeposit}
use reserve_auditor.Db.Transaction.{transaction-result}
use reserve_auditor.Db.Counters.{CounterName, inc, num_unexpected_errors_matching_deposits_to_mints}
use reserve_auditor.Db.MintTxs.{find_unaudited_mint_tx_by_nonce}
use reserve_auditor.Db.Deposits.{find_unaudited_deposit_by_nonce}
use reserve_auditor.Audit.Verify.{Matches, verify_iff, verify_mint_tx_matches_deposit}
use reserve_auditor.Audit.Mint.{
  associate_deposit_with_mint, deposit_to_mint, match_deposit, mint_to_deposit, match_mint,
}

inc-not_mismatch : (n : CounterName) (db : Db) → (inc n db).0 ≢ err deposit_and_mint_mismatch
unfolding inc
inc-not_mismatch n db e = ground arith

inc-not_unknown :
    (n : CounterName) (db : Db) (a b : EthAddr) (h : EthTxHash)
    → (inc n db).0 ≢ err (ethereum_token_not_audited a b h)
unfolding inc
inc-not_unknown n db a b h e = ground arith

module _ (d : GnosisSafeDeposit) (c : AuditedSafeConfig) (k : ℕ) (db : Db) where
  to_mint_mismatch :
      (deposit_to_mint d c k db).0 ≡ err deposit_and_mint_mismatch
      → (m : MintTx) × (find_unaudited_mint_tx_by_nonce d.expected_mc_mint_tx_nonce_hex db ≡ some m)
        × (¬ Matches c m d)
  unfolding deposit_to_mint associate_deposit_with_mint
  to_mint_mismatch e =
      elim (Option-cases (find_unaudited_mint_tx_by_nonce d.expected_mc_mint_tx_nonce_hex db)) [
        | inl f ↦
            absurd
              (ground (arith, inc-not_mismatch num_unexpected_errors_matching_deposits_to_mints db))
        | inr (m, f) ↦ (
          m,
          f,
          λ belong.
              let passes = (verify_iff m d c).1 belong in
              ground (
                arith,
                inc-not_mismatch num_unexpected_errors_matching_deposits_to_mints db,
                passes,
              ),
        )
      ]

  to_mint_unknown :
      (a b : EthAddr) (h : EthTxHash)
      → (deposit_to_mint d c k db).0 ≡ err (ethereum_token_not_audited a b h)
      → get_token_by_eth_contract_addr c d.token_addr ≡ none
  unfolding deposit_to_mint associate_deposit_with_mint verify_mint_tx_matches_deposit
  to_mint_unknown a b h e = elim (Option-cases (get_token_by_eth_contract_addr c d.token_addr)) [
    | inl no_token ↦ no_token
    | inr (t, f) ↦
        absurd (
          ground (arith, inc-not_unknown num_unexpected_errors_matching_deposits_to_mints db a b h))
  ]

module _ (d : GnosisSafeDeposit) (c : AuditedSafeConfig) (db : Db) where
  pub match_deposit_mismatch :
      (match_deposit d c db).0 ≡ err deposit_and_mint_mismatch
      → (m : MintTx) × (find_unaudited_mint_tx_by_nonce d.expected_mc_mint_tx_nonce_hex db ≡ some m)
        × (¬ Matches c m d)
  unfolding match_deposit
  match_deposit_mismatch e = elim (Option-cases d.id) [
    | inl f ↦ absurd (ground arith)
    | inr (k, f) ↦ elim (Bool-cases (addr_eq d.safe_addr c.safe_addr)) [
      | inl same ↦
          to_mint_mismatch d c k db (ground (arith, transaction-result (deposit_to_mint d c k) db))
      | inr other ↦ absurd (ground arith)
    ]
  ]

  pub match_deposit_unknown :
      (a b : EthAddr) (h : EthTxHash)
      → (match_deposit d c db).0 ≡ err (ethereum_token_not_audited a b h)
      → get_token_by_eth_contract_addr c d.token_addr ≡ none
  unfolding match_deposit
  match_deposit_unknown a b h e = elim (Option-cases d.id) [
    | inl f ↦ absurd (ground arith)
    | inr (k, f) ↦ elim (Bool-cases (addr_eq d.safe_addr c.safe_addr)) [
      | inl same ↦
          to_mint_unknown d c k db a b h
            (ground (arith, transaction-result (deposit_to_mint d c k) db))
      | inr other ↦ absurd (ground arith)
    ]
  ]

module _ (m : MintTx) (c : GnosisSafeConfig) (j : ℕ) (db : Db) where
  -- the deposit and the safe that the attempt for the mint compares it with
  abbrev pub Compared : GnosisSafeDeposit → AuditedSafeConfig → Type 0
  Compared d safe =
      (find_unaudited_deposit_by_nonce m.nonce_hex db ≡ some d)
      × (get_audited_safe_config_by_safe_addr c d.safe_addr ≡ some safe)

  pub to_deposit_unknown_safe :
      (a : EthAddr)
      → (mint_to_deposit m c j db).0 ≡ err (gnosis_safe_not_audited a)
      → (d : GnosisSafeDeposit) × (find_unaudited_deposit_by_nonce m.nonce_hex db ≡ some d)
        × (get_audited_safe_config_by_safe_addr c d.safe_addr ≡ none)
  unfolding mint_to_deposit associate_deposit_with_mint verify_mint_tx_matches_deposit
  to_deposit_unknown_safe a e =
      elim (Option-cases (find_unaudited_deposit_by_nonce m.nonce_hex db)) [
        | inl f ↦ absurd (ground arith)
        | inr (d, f) ↦ elim (Option-cases (get_audited_safe_config_by_safe_addr c d.safe_addr)) [
          | inl g ↦ (d, f, g)
          | inr (s, g) ↦ absurd (ground arith)
        ]
      ]

  pub to_deposit_mismatch :
      (mint_to_deposit m c j db).0 ≡ err deposit_and_mint_mismatch
      → (d : GnosisSafeDeposit) × (safe : AuditedSafeConfig) × Compared d safe
        × (¬ Matches safe m d)
  unfolding mint_to_deposit associate_deposit_with_mint
  to_deposit_mismatch e = elim (Option-cases (find_unaudited_deposit_by_nonce m.nonce_hex db)) [
    | inl f ↦ absurd (ground arith)
    | inr (d, f) ↦ elim (Option-cases (get_audited_safe_config_by_safe_addr c d.safe_addr)) [
      | inl g ↦ absurd (ground arith)
      | inr (s, g) ↦ (
        d,
        s,
        (f, g),
        λ belong. let passes = (verify_iff m d s).1 belong in ground (arith, passes),
      )
    ]
  ]

  pub to_deposit_unknown_token :
      (a b : EthAddr) (h : EthTxHash)
      → (mint_to_deposit m c j db).0 ≡ err (ethereum_token_not_audited a b h)
      → (d : GnosisSafeDeposit) × (safe : AuditedSafeConfig) × Compared d safe
        × (get_token_by_eth_contract_addr safe d.token_addr ≡ none)
  unfolding mint_to_deposit associate_deposit_with_mint verify_mint_tx_matches_deposit
  to_deposit_unknown_token a b h e =
      elim (Option-cases (find_unaudited_deposit_by_nonce m.nonce_hex db)) [
        | inl f ↦ absurd (ground arith)
        | inr (d, f) ↦ elim (Option-cases (get_audited_safe_config_by_safe_addr c d.safe_addr)) [
          | inl g ↦ absurd (ground arith)
          | inr (s, g) ↦ elim (Option-cases (get_token_by_eth_contract_addr s d.token_addr)) [
            | inl no_token ↦ (d, s, (f, g), no_token)
            | inr (t, i) ↦ absurd (ground arith)
          ]
        ]
      ]

-- an error of the attempt is one of what runs in the transaction, unless the mint has no id
pub match_mint_result :
    (m : MintTx) (c : GnosisSafeConfig) (db : Db) (e : Error)
    → (match_mint m c db).0 ≡ err e
    → e ≢ object_not_saved
    → (j : ℕ) × ((mint_to_deposit m c j db).0 ≡ err e)
unfolding match_mint
match_mint_result m c db e h saved = elim (Option-cases m.id) [
  | inl f ↦ absurd (ground arith)
  | inr (j, f) ↦ (j, ground (arith, transaction-result (mint_to_deposit m c j) db))
]
