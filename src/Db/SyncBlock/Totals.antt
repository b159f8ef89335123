-- ===== src/Db/SyncBlock/Totals.antt =====
-- The amount minted under a configuration or its transaction before a block, in the words of the
-- tables (src/db/models/mint_config_tx.rs and mint_config.rs).
use reserve_auditor.Prelude.{
  ℕ, ◌+◌, ◌%◌, ◌≡◌, ◌∙◌, refl, ap, Bool, true, Bool-cases, inl, inr, ◌⊎◌, Option, none, some,
  Option-cases, List, [], ◌∷◌, map, filter, by_key, is_id, is_id-some, ==-refl, arith,
}
use reserve_auditor.Prelude.Int.{as_i64, as_u64, ltb_ℤ, u64_mod}
use reserve_auditor.Db.Models.{Db, MintTx, MintConfig, MintConfigTx}
use reserve_auditor.Db.MintConfigs.{
  id_or_zero, sum_u64, join_config, minted_before, total_minted, config_minted_before_block,
  tx_minted_before_block,
}

-- the number that the id stands for, where a row without an id has 0
abbrev pub Identifies : Option ℕ → ℕ → Type 0
Identifies none k = k ≡ 0
Identifies (some n) k = k ≡ n

-- The mint names a configuration that passes, is later than its transaction, and before the block.
pub record IsMintedUnder (block_index : ℕ) (db : Db) (Own : MintConfig → MintConfigTx → Type 0)
    (m : MintTx) : Type 0 where
  pub config_id : ℕ
  pub named : m.mint_config_id ≡ some config_id
  pub config : MintConfig
  pub config_row : by_key (λ (c : MintConfig). c.id) config_id db.mint_configs ≡ some config
  pub tx : MintConfigTx
  pub tx_row :
      by_key (λ (t : MintConfigTx). t.id) config.mint_config_tx_id db.mint_config_txs ≡ some tx
  pub later_than_tx : ltb_ℤ tx.block_index m.block_index ≡ true
  pub before_block : ltb_ℤ m.block_index (as_i64 block_index) ≡ true
  pub own : Own config tx

-- the number is the sum of the amounts of the mints that count, modulo 2 ^ 64
abbrev pub Total : (MintTx → Type 0) → List MintTx → ℕ → Type 0
Total Counts [] n = n ≡ 0
Total Counts (m ∷ ms) n =
    (Counts m × ((k : ℕ) × Total Counts ms k × (n ≡ (as_u64 m.amount + k) % u64_mod)))
    ⊎ ((¬ Counts m) × Total Counts ms n)

-- A test that is true of what counts gives the total.
module _ (Counts : MintTx → Type 0) (test : MintTx → Bool)
    (sound : (m : MintTx) → test m ≡ true → Counts m)
    (complete : (m : MintTx) → Counts m → test m ≡ true) where
  abbrev pub amounts : List MintTx → List ℕ
  amounts ms = map (λ m. as_u64 m.amount) (filter test ms)

  pub sum-Total : (ms : List MintTx) → Total Counts ms (sum_u64 (amounts ms))
  sum-Total [] = refl
  sum-Total (m ∷ ms) = elim (Bool-cases (test m)) [
    | inl t ↦ rw t (inl (sound m t, (sum_u64 (amounts ms), sum-Total ms, refl)))
    | inr f ↦ rw f (inr (λ c. absurd (cc (complete m c, f)), sum-Total ms))
  ]

  pub Total-sum : (ms : List MintTx) (n : ℕ) → Total Counts ms n → n ≡ sum_u64 (amounts ms)
  Total-sum [] n h = h
  Total-sum (m ∷ ms) n (inl (c, (k, rest, e))) =
      rw (complete m c) (e ∙ ap (λ k. (as_u64 m.amount + k) % u64_mod) (Total-sum ms k rest))
  Total-sum (m ∷ ms) n (inr (c, rest)) = elim (Bool-cases (test m)) [
    | inl t ↦ absurd (c (sound m t))
    | inr f ↦ rw f (Total-sum ms n rest)
  ]

-- the id is the number that the other stands for
abbrev pub HasIdOf : Option ℕ → Option ℕ → Type 0
HasIdOf self id = (k : ℕ) × Identifies self k × (id ≡ some k)

pub id_or_zero-Identifies : (o : Option ℕ) → Identifies o (id_or_zero o)
id_or_zero-Identifies none = refl
id_or_zero-Identifies (some n) = refl

pub Identifies-id_or_zero : (o : Option ℕ) (k : ℕ) → Identifies o k → k ≡ id_or_zero o
Identifies-id_or_zero none k h = h
Identifies-id_or_zero (some n) k h = h

is_id-HasIdOf : (self id : Option ℕ) → is_id (id_or_zero self) id ≡ true → HasIdOf self id
is_id-HasIdOf self id h = (id_or_zero self, id_or_zero-Identifies self, is_id-some _ id h)

HasIdOf-is_id : (self id : Option ℕ) → HasIdOf self id → is_id (id_or_zero self) id ≡ true
HasIdOf-is_id self id (k, own, e) =
    rw e (rw (Identifies-id_or_zero self k own) (==-refl (id_or_zero self)))

module _ (block_index : ℕ) (db : Db) (Own : MintConfig → MintConfigTx → Type 0)
    (own : MintConfig → MintConfigTx → Bool)
    (sound : (c : MintConfig) (t : MintConfigTx) → own c t ≡ true → Own c t)
    (complete : (c : MintConfig) (t : MintConfigTx) → Own c t → own c t ≡ true) where
  joined_under :
      (m : MintTx) → minted_before block_index db own m ≡ true → IsMintedUnder block_index db Own m
  unfolding minted_before join_config
  joined_under m h = elim (Option-cases m.mint_config_id) [
    | inl e ↦ ground arith
    | inr (k, e) ↦ elim (Option-cases (by_key (λ (c : MintConfig). c.id) k db.mint_configs)) [
      | inl f ↦ ground arith
      | inr (c, f) ↦
          elim (Option-cases
            (by_key (λ (t : MintConfigTx). t.id) c.mint_config_tx_id db.mint_config_txs)) [
              | inl g ↦ ground arith
              | inr (t, g) ↦ record {
                config_id = k;
                named = e;
                config = c;
                config_row = f;
                tx = t;
                tx_row = g;
                later_than_tx = ground arith;
                before_block = ground arith;
                own = sound c t (ground arith);
              }
            ]
    ]
  ]

  under_joined :
      (m : MintTx) → IsMintedUnder block_index db Own m → minted_before block_index db own m ≡ true
  unfolding minted_before join_config
  under_joined m w =
      let passes = complete w.config w.tx w.own in
      ground (arith, w.named, w.config_row, w.tx_row, w.later_than_tx, w.before_block, passes)

  total_minted-Total :
      Total (IsMintedUnder block_index db Own) db.mint_txs (total_minted block_index db own)
  unfolding total_minted
  total_minted-Total =
      sum-Total _ (minted_before block_index db own) joined_under under_joined db.mint_txs

  Total-total_minted :
      (n : ℕ)
      → Total (IsMintedUnder block_index db Own) db.mint_txs n
      → n ≡ total_minted block_index db own
  unfolding total_minted
  Total-total_minted n =
      Total-sum _ (minted_before block_index db own) joined_under under_joined db.mint_txs n

-- The number is the amount that was minted under the configuration before the block.
abbrev pub MintedUnderConfig : MintConfig → ℕ → Db → ℕ → Type 0
MintedUnderConfig self block_index db =
    Total (IsMintedUnder block_index db (λ c t. HasIdOf self.id c.id)) db.mint_txs

-- The number is the amount that was minted under the configurations of the transaction before the
-- block.
abbrev pub MintedUnderTx : MintConfigTx → ℕ → Db → ℕ → Type 0
MintedUnderTx self block_index db =
    Total (IsMintedUnder block_index db (λ c t. HasIdOf self.id t.id)) db.mint_txs

module _ (block_index : ℕ) (db : Db) where
  module _ (self : MintConfig) where
    pub minted-MintedUnderConfig :
        MintedUnderConfig self block_index db (config_minted_before_block self block_index db)
    unfolding config_minted_before_block
    minted-MintedUnderConfig =
        total_minted-Total block_index db _ _ (λ c t. is_id-HasIdOf self.id c.id)
          (λ c t. HasIdOf-is_id self.id c.id)

    pub MintedUnderConfig-minted :
        (n : ℕ)
        → MintedUnderConfig self block_index db n
        → n ≡ config_minted_before_block self block_index db
    unfolding config_minted_before_block
    MintedUnderConfig-minted =
        Total-total_minted block_index db _ _ (λ c t. is_id-HasIdOf self.id c.id)
          (λ c t. HasIdOf-is_id self.id c.id)

  module _ (self : MintConfigTx) where
    pub minted-MintedUnderTx :
        MintedUnderTx self block_index db (tx_minted_before_block self block_index db)
    unfolding tx_minted_before_block
    minted-MintedUnderTx =
        total_minted-Total block_index db _ _ (λ c t. is_id-HasIdOf self.id t.id)
          (λ c t. HasIdOf-is_id self.id t.id)

    pub MintedUnderTx-minted :
        (n : ℕ)
        → MintedUnderTx self block_index db n
        → n ≡ tx_minted_before_block self block_index db
    unfolding tx_minted_before_block
    MintedUnderTx-minted =
        Total-total_minted block_index db _ _ (λ c t. is_id-HasIdOf self.id t.id)
          (λ c t. HasIdOf-is_id self.id t.id)
