-- ===== src/Db/SyncBlock/Lookup.antt =====
-- The loops of `lookup_mint_config`, with the results of the queries that they read.
use reserve_auditor.Prelude.{
  ℕ, ◌+◌, ◌≤◌, ◌<◌, ◌≡◌, sym, subst, true, none, some, List, [], ◌∷◌, In, inl, inr, Bool-cases,
  Option-cases, arith,
}
use reserve_auditor.Prelude.Int.{as_u64, u64_mod}
use reserve_auditor.Result.{ok}
use reserve_auditor.Core.{CoreMintTx, CoreMintConfig, External}
use reserve_auditor.Db.Models.{Db, MintConfig, MintConfigTx}
use reserve_auditor.Db.MintConfigs.{
  id_or_zero, most_recent_for_token, tx_minted_before_block, config_minted_before_block,
  get_by_mint_config_tx_id,
}
use reserve_auditor.Db.SyncBlock.{add_is_within, first_config, lookup_mint_config}

within : (a b limit : ℕ) → add_is_within a b limit ≡ true → (a + b ≤ limit) × (a + b < u64_mod)
within a b limit h = (ground arith, ground arith)

within_iff : (a b limit : ℕ) → a + b ≤ limit → a + b < u64_mod → add_is_within a b limit ≡ true
within_iff a b limit h u = ground arith

module _ (x : External) (block_index : ℕ) (tx : CoreMintTx) (db : Db) where
  -- The configuration's signers signed the mint, and with the mint it stays within its limit.
  pub record Permitted (c : MintConfig) : Type 0 where
    pub config : CoreMintConfig
    pub decoded : x.decode_mint_config c.protobuf ≡ some config
    pub signed : x.verify config.signer_set (x.prefix_hash tx) tx.signature ≡ true
    pub limited : config_minted_before_block c block_index db + tx.amount ≤ as_u64 c.mint_limit
    pub exact : config_minted_before_block c block_index db + tx.amount < u64_mod

  -- The newest configuration transaction of the token has room for the mint, and the
  -- configuration is one of its.
  pub record Accommodated (c : MintConfig) : Type 0 where
    pub newest : MintConfigTx
    pub is_newest : most_recent_for_token block_index tx.token_id db ≡ some newest
    pub total :
        tx_minted_before_block newest block_index db + tx.amount ≤ as_u64 newest.total_mint_limit
    pub total_exact : tx_minted_before_block newest block_index db + tx.amount < u64_mod
    pub listed : In c (get_by_mint_config_tx_id (id_or_zero newest.id) db)
    pub permits : Permitted c

  first_sound :
      (cs : List MintConfig) (c : MintConfig)
      → first_config x block_index tx db cs ≡ ok (some c)
      → In c cs × Permitted c
  unfolding first_config
  first_sound [] c h = cc
  first_sound (d ∷ cs) c h = elim (Option-cases (x.decode_mint_config d.protobuf)) [
    | inl e ↦ ground arith
    | inr (config, e) ↦
        elim (Bool-cases (x.verify config.signer_set (x.prefix_hash tx) tx.signature)) [
          | inr f ↦ let (there, p) = first_sound cs c (ground arith) in (inr there, p)
          | inl s ↦
              elim (Bool-cases (
                add_is_within (config_minted_before_block d block_index db) tx.amount
                  (as_u64 d.mint_limit))) [
                    | inr f ↦ let (there, p) = first_sound cs c (ground arith) in (inr there, p)
                    | inl w ↦
                        let same : d ≡ c = ground arith in
                        let room =
                          within (config_minted_before_block d block_index db) tx.amount
                            (as_u64 d.mint_limit) w in
                        let p : Permitted d = record {
                          config = config;
                          decoded = e;
                          signed = s;
                          limited = room.0;
                          exact = room.1;
                        } in
                        (inl (sym same), subst Permitted same p)
                  ]
        ]
  ]

  first_complete :
      (cs : List MintConfig) (c : MintConfig)
      → first_config x block_index tx db cs ≡ ok none
      → In c cs
      → Permitted c
      → ⊥
  unfolding first_config
  first_complete [] c h absent p = elim absent [ ]
  first_complete (d ∷ cs) c h (inl e) p =
      let room : add_is_within (config_minted_before_block c block_index db) tx.amount
            (as_u64 c.mint_limit)
          ≡ true =
        within_iff _ _ _ p.limited p.exact in
      let h' : first_config x block_index tx db (c ∷ cs) ≡ ok none = rw e h in
      ground (arith, h', p.decoded, p.signed, room)
  first_complete (d ∷ cs) c h (inr there) p =
      elim (Option-cases (x.decode_mint_config d.protobuf)) [
        | inl e ↦ ground arith
        | inr (config, e) ↦ first_complete cs c (ground arith) there p
      ]

  newest_is :
      (t u : MintConfigTx)
      → most_recent_for_token block_index tx.token_id db ≡ some t
      → most_recent_for_token block_index tx.token_id db ≡ some u
      → t ≡ u
  newest_is t u e f = ground arith

  pub lookup_mint_config-Accommodated :
      (c : MintConfig) → lookup_mint_config x block_index tx db ≡ ok (some c) → Accommodated c
  unfolding lookup_mint_config
  lookup_mint_config-Accommodated c h =
      elim (Option-cases (most_recent_for_token block_index tx.token_id db)) [
        | inl e ↦ ground arith
        | inr (t, e) ↦
            elim (Bool-cases (
              add_is_within (tx_minted_before_block t block_index db) tx.amount
                (as_u64 t.total_mint_limit))) [
                  | inr f ↦ ground arith
                  | inl w ↦
                      let room =
                        within (tx_minted_before_block t block_index db) tx.amount
                          (as_u64 t.total_mint_limit) w in
                      let (there, p) =
                        first_sound (get_by_mint_config_tx_id (id_or_zero t.id) db) c
                          (ground arith) in
                      record {
                        newest = t;
                        is_newest = e;
                        total = room.0;
                        total_exact = room.1;
                        listed = there;
                        permits = p;
                      }
                ]
      ]

  pub lookup_mint_config_exhaustive :
      (c : MintConfig) → lookup_mint_config x block_index tx db ≡ ok none → ¬ (Accommodated c)
  unfolding lookup_mint_config
  lookup_mint_config_exhaustive c h a =
      let t = a.newest in
      let room : add_is_within (tx_minted_before_block t block_index db) tx.amount
            (as_u64 t.total_mint_limit)
          ≡ true =
        within_iff _ _ _ a.total a.total_exact in
      first_complete (get_by_mint_config_tx_id (id_or_zero t.id) db) c
        (ground (arith, h, a.is_newest, room)) a.listed a.permits
