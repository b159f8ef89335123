-- ===== src/Db/SyncBlock/Choice.antt =====
-- What `lookup_mint_config` finds, and when it finds nothing, in the words of the tables.
use reserve_auditor.Prelude.{
  ℕ, ◌+◌, ◌≤◌, ◌<◌, ◌≡◌, sym, subst, true, none, some, In, ◌==◌, ==-refl, arith,
}
use reserve_auditor.Prelude.Members.{In-filter, filter-In, unfilter-In}
use reserve_auditor.Prelude.Int.{as_u64, u64_mod}
use reserve_auditor.Result.{ok}
use reserve_auditor.Core.{CoreMintTx, CoreMintConfig, External}
use reserve_auditor.Db.Models.{Db, MintConfig, MintConfigTx}
use reserve_auditor.Db.MintConfigs.{
  id_or_zero, get_by_mint_config_tx_id, config_minted_before_block, tx_minted_before_block,
}
use reserve_auditor.Db.SyncBlock.{lookup_mint_config}
use reserve_auditor.Db.SyncBlock.Newest.{
  IsNewest, OnePerBlock, most_recent-IsNewest, IsNewest-most_recent,
}
use reserve_auditor.Db.SyncBlock.Totals.{
  Identifies, Identifies-id_or_zero, id_or_zero-Identifies, MintedUnderConfig, MintedUnderTx,
  minted-MintedUnderConfig, MintedUnderConfig-minted, minted-MintedUnderTx, MintedUnderTx-minted,
}
use reserve_auditor.Db.SyncBlock.Lookup.{
  Permitted, lookup_mint_config-Accommodated, lookup_mint_config_exhaustive,
}

module _ (x : External) (block_index : ℕ) (tx : CoreMintTx) (db : Db) where
  -- The configuration's signers signed the mint, and with the mint it stays within its limit.
  pub record Permits (c : MintConfig) : Type 0 where
    pub config : CoreMintConfig
    pub decoded : x.decode_mint_config c.protobuf ≡ some config
    pub signed : x.verify config.signer_set (x.prefix_hash tx) tx.signature ≡ true
    pub minted : ℕ
    pub is_minted : MintedUnderConfig c block_index db minted
    pub limited : minted + tx.amount ≤ as_u64 c.mint_limit
    pub exact : minted + tx.amount < u64_mod

  -- The newest configuration transaction of the token has room for the mint, and the
  -- configuration is one of its.
  pub record Accommodates (c : MintConfig) : Type 0 where
    pub newest : MintConfigTx
    pub is_newest : IsNewest block_index tx.token_id db newest
    pub minted : ℕ
    pub is_minted : MintedUnderTx newest block_index db minted
    pub limited : minted + tx.amount ≤ as_u64 newest.total_mint_limit
    pub exact : minted + tx.amount < u64_mod
    pub row : In c db.mint_configs
    pub of_newest : Identifies newest.id c.mint_config_tx_id
    pub permits : Permits c

  Permitted-Permits : (c : MintConfig) → Permitted x block_index tx db c → Permits c
  Permitted-Permits c p = record {
    config = p.config;
    decoded = p.decoded;
    signed = p.signed;
    minted = config_minted_before_block c block_index db;
    is_minted = minted-MintedUnderConfig block_index db c;
    limited = p.limited;
    exact = p.exact;
  }

  Permits-Permitted : (c : MintConfig) → Permits c → Permitted x block_index tx db c
  Permits-Permitted c p =
      let same = MintedUnderConfig-minted block_index db c p.minted p.is_minted in
      record {
        config = p.config;
        decoded = p.decoded;
        signed = p.signed;
        limited = subst (λ n. n + tx.amount ≤ as_u64 c.mint_limit) same p.limited;
        exact = subst (λ n. n + tx.amount < u64_mod) same p.exact;
      }

  listed_of :
      (c : MintConfig) (k : ℕ)
      → In c (get_by_mint_config_tx_id k db)
      → In c db.mint_configs × (c.mint_config_tx_id ≡ k)
  unfolding get_by_mint_config_tx_id
  listed_of c k i =
      let passes = filter-In (λ c. c.mint_config_tx_id == k) db.mint_configs i in
      (unfilter-In _ db.mint_configs c i, ground arith)

  of_listed :
      (c : MintConfig) (k : ℕ)
      → In c db.mint_configs
      → c.mint_config_tx_id ≡ k
      → In c (get_by_mint_config_tx_id k db)
  unfolding get_by_mint_config_tx_id
  of_listed c k i e =
      let passes : (c.mint_config_tx_id == k) ≡ true = rw e (==-refl k) in
      In-filter (λ c. c.mint_config_tx_id == k) db.mint_configs passes i

  -- The configuration that the lookup gives for a mint accommodates it: it belongs to a newest
  -- configuration transaction of the token before the block, whose total limit still has room for
  -- the mint, its signers signed the mint, and its own limit has room too, where what was minted
  -- under the two is added up modulo 2 ^ 64, and the sums with the mint do not overflow.
  pub lookup_mint_config-Accommodates :
      (c : MintConfig) → lookup_mint_config x block_index tx db ≡ ok (some c) → Accommodates c
  lookup_mint_config-Accommodates c h =
      let a = lookup_mint_config-Accommodated x block_index tx db c h in
      let (row, of_newest) = listed_of c (id_or_zero a.newest.id) a.listed in
      record {
        newest = a.newest;
        is_newest = most_recent-IsNewest block_index tx.token_id db a.newest a.is_newest;
        minted = tx_minted_before_block a.newest block_index db;
        is_minted = minted-MintedUnderTx block_index db a.newest;
        limited = a.total;
        exact = a.total_exact;
        row = row;
        of_newest =
            subst (Identifies a.newest.id) (sym of_newest) (id_or_zero-Identifies a.newest.id);
        permits = Permitted-Permits c a.permits;
      }

  -- Where the lookup ends with no configuration, and no token has two configuration transactions in
  -- one block, no configuration accommodates the mint.
  pub lookup_mint_config_complete :
      (c : MintConfig)
      → OnePerBlock db
      → lookup_mint_config x block_index tx db ≡ ok none
      → ¬ (Accommodates c)
  lookup_mint_config_complete c unique h a =
      let same = MintedUnderTx-minted block_index db a.newest a.minted a.is_minted in
      lookup_mint_config_exhaustive x block_index tx db c h (record {
        newest = a.newest;
        is_newest = IsNewest-most_recent block_index tx.token_id db a.newest unique a.is_newest;
        total = subst (λ n. n + tx.amount ≤ as_u64 a.newest.total_mint_limit) same a.limited;
        total_exact = subst (λ n. n + tx.amount < u64_mod) same a.exact;
        listed = of_listed c _ a.row (Identifies-id_or_zero _ _ a.of_newest);
        permits = Permits-Permitted c a.permits;
      })
