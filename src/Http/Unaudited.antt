-- ===== src/Http/Unaudited.antt =====
-- The lists of audited mints and of unaudited deposits share the stored deposits out.
use reserve_auditor.Prelude.{
  ◌≡◌, ◌∙◌, refl, sym, ap, subst, Bool, true, false, Bool-cases, not, Option, none, some,
  Option-cases, find_passes, inl, inr, ◌⊎◌, List, [], ◌∷◌, In, is_id, is_id-some,
}
use reserve_auditor.Prelude.Members.{All-In, In-filter, filter-In, any-In, In-any, In-map, map-In}
use reserve_auditor.Gnosis.Config.{GnosisSafeConfig}
use reserve_auditor.Db.Models.{Db, AuditedMint, GnosisSafeDeposit, MintTx}
use reserve_auditor.Db.Deposits.{find_unaudited_deposits, deposit_is_audited}
use reserve_auditor.Audit.Mint.{mint_by_id, deposit_by_id}
use reserve_auditor.Audit.Mint.Sound.{MintsAreSound}
use reserve_auditor.Http.{
  AuditedMintResponse, UnauditedGnosisDepositResponse, joined_mints, get_audited_mints, keep_some,
  mint_row, get_unaudited_gnosis_deposits,
}
use reserve_auditor.Http.Pages.{row_of, joined_rows}

false_of_not : (b : Bool) → not b ≡ true → b ≡ false
false_of_not true e = cc
false_of_not false e = refl

not_both : {b : Bool} → b ≡ true → b ≡ false → ⊥
not_both t f = cc

-- A response has the deposit that its row of the audit table refers to.
joined_deposit :
    (db : Db) (rows : List AuditedMint) (r : AuditedMintResponse)
    → In r (joined_mints db rows)
    → deposit_by_id r.audited.gnosis_safe_deposit_id db ≡ some r.deposit
unfolding joined_mints
joined_deposit db [] r i = elim i [ ]
joined_deposit db (a ∷ rows) r i =
    let row : Option MintTx → Option GnosisSafeDeposit → Type 0 =
      λ m d. In r (keep_some (mint_row a m d) (joined_mints db rows)) in
    let ds = deposit_by_id a.gnosis_safe_deposit_id db in
    elim (Option-cases (mint_by_id a.mint_tx_id db)) [
      | inl no_mint ↦ joined_deposit db rows r (subst (λ m. row m ds) no_mint i)
      | inr (m, em) ↦ elim (Option-cases ds) [
        | inl no_deposit ↦
            joined_deposit db rows r (subst (row (some m)) no_deposit (subst (λ m. row m ds) em i))
        | inr (d, ed) ↦ elim (subst (row (some m)) ed (subst (λ m. row m ds) em i)) [
          | inl e ↦
              subst
                (λ (r : AuditedMintResponse).
                  deposit_by_id r.audited.gnosis_safe_deposit_id db ≡ some r.deposit)
                (sym e) ed
          | inr j ↦ joined_deposit db rows r j
        ]
      ]
    ]

-- a response for an audited mint shows the deposit
abbrev pub ShownAudited : GnosisSafeDeposit → Db → Type 0
ShownAudited d db =
    (r : AuditedMintResponse) × In r (get_audited_mints none none db) × (r.deposit ≡ d)

-- a response for an unaudited deposit shows it
abbrev pub ShownUnaudited : GnosisSafeDeposit → Db → Type 0
ShownUnaudited d db = In (record { deposit = d }) (get_unaudited_gnosis_deposits db)

module _ (config : GnosisSafeConfig) (db : Db) (sound : MintsAreSound config db)
    (d : GnosisSafeDeposit) (stored : In d db.gnosis_safe_deposits) where
  shown_audited : deposit_is_audited db d ≡ true → ShownAudited d db
  unfolding get_audited_mints
  shown_audited h =
      let (k, own, found) = All-In _ db.gnosis_safe_deposits sound.deposits stored in
      let (a, row, same) = any-In (λ a. is_id a.gnosis_safe_deposit_id d.id) db.audited_mints h in
      let joined = joined_rows config db db.audited_mints sound.rows in
      let (r, i, e) =
        map-In row_of (joined_mints db db.audited_mints) (subst (In a) (sym joined) row) in
      let key : d.id ≡ some r.audited.gnosis_safe_deposit_id =
        is_id-some a.gnosis_safe_deposit_id d.id same ∙ ap (λ a. some a.gnosis_safe_deposit_id) e in
      (r, i, cc (joined_deposit db db.audited_mints r i, key, own, found))

  unshown_audited : ShownAudited d db → deposit_is_audited db d ≡ true
  unfolding get_audited_mints
  unshown_audited (r, i, e) =
      let a : AuditedMint = r.audited in
      let row : In a db.audited_mints =
        subst (In a) (joined_rows config db db.audited_mints sound.rows)
          (In-map row_of (joined_mints db db.audited_mints) r i) in
      let found : deposit_by_id a.gnosis_safe_deposit_id db ≡ some d =
        joined_deposit db db.audited_mints r i ∙ ap some e in
      In-any (λ a. is_id a.gnosis_safe_deposit_id d.id) db.audited_mints
        (find_passes _ db.gnosis_safe_deposits found) row

  shown_unaudited : deposit_is_audited db d ≡ false → ShownUnaudited d db
  unfolding get_unaudited_gnosis_deposits find_unaudited_deposits
  shown_unaudited h =
      In-map _ (find_unaudited_deposits db) d
        (In-filter (λ d. not (deposit_is_audited db d)) db.gnosis_safe_deposits (ap not h) stored)

  unshown_unaudited : ShownUnaudited d db → deposit_is_audited db d ≡ false
  unfolding get_unaudited_gnosis_deposits find_unaudited_deposits
  unshown_unaudited i =
      let (d', j, e) = map-In _ (find_unaudited_deposits db) i in
      let kept = filter-In (λ d. not (deposit_is_audited db d)) db.gnosis_safe_deposits j in
      let same : d' ≡ d = ap (λ (r : UnauditedGnosisDepositResponse). r.deposit) (sym e) in
      false_of_not _ (subst (λ d. not (deposit_is_audited db d) ≡ true) same kept)

  -- With sound audit tables a stored deposit is shown by exactly one of the lists, that of the
  -- audited mints and that of the unaudited deposits.
  pub deposit_is_shown_once :
      (ShownAudited d db × (¬ ShownUnaudited d db)) ⊎ (ShownUnaudited d db × (¬ ShownAudited d db))
  deposit_is_shown_once = elim (Bool-cases (deposit_is_audited db d)) [
    | inl t ↦ inl (shown_audited t, λ i. not_both t (unshown_unaudited i))
    | inr f ↦ inr (shown_unaudited f, λ i. not_both (unshown_audited i) f)
  ]
