-- ===== src/Db/SyncBlock/Newest.antt =====
-- The newest configuration transaction of a token before a block, in the words of the table
-- (src/db/models/mint_config_tx.rs).
use reserve_auditor.Prelude.{
  ℕ, ◌≡◌, ◌∙◌, refl, sym, ap, subst, Bool, true, false, ◌&&◌, Bool-cases, inl, inr, some, List, [],
  ◌∷◌, filter, All, All-map, In, arith,
}
use reserve_auditor.Prelude.Members.{All-In, In-filter, filter-In, unfilter-In}
use reserve_auditor.Prelude.Int.{ℤ, pos, negsuc, as_i64, ◌==ℤ◌, ltb_ℤ, ==ℤ-refl, eq_of_==ℤ}
use reserve_auditor.Db.Models.{Db, MintConfigTx}
use reserve_auditor.Db.MintConfigs.{later, latest, most_recent_for_token}

-- The transaction is of the token, in a block before the given one, and no other such transaction
-- is in a later block.
pub record IsNewest (block_index token_id : ℕ) (db : Db) (t : MintConfigTx) : Type 0 where
  pub row : In t db.mint_config_txs
  pub token : t.token_id ≡ as_i64 token_id
  pub before : ltb_ℤ t.block_index (as_i64 block_index) ≡ true
  pub none_later :
      (u : MintConfigTx)
      → In u db.mint_config_txs
      → u.token_id ≡ as_i64 token_id
      → ltb_ℤ u.block_index (as_i64 block_index) ≡ true
      → ltb_ℤ t.block_index u.block_index ≡ false

-- the UNIQUE pair of block and token of the table
abbrev pub OnePerBlock : Db → Type 0
OnePerBlock db =
    (t u : MintConfigTx)
    → In t db.mint_config_txs
    → In u db.mint_config_txs
    → t.token_id ≡ u.token_id
    → t.block_index ≡ u.block_index
    → t ≡ u

irreflexive : (a : ℤ) → ltb_ℤ a a ≡ false
irreflexive a = ground arith

asymmetric : (a b : ℤ) → ltb_ℤ a b ≡ true → ltb_ℤ b a ≡ false
asymmetric a b h = ground arith

no_later : (a b c : ℤ) → ltb_ℤ a b ≡ false → ltb_ℤ b c ≡ false → ltb_ℤ a c ≡ false
no_later a b c h k = ground arith

-- `t` is one of the transactions, and none of them is later
abbrev IsLatest : List MintConfigTx → MintConfigTx → Type 0
IsLatest ts t = In t ts × All (λ u. ltb_ℤ t.block_index u.block_index ≡ false) ts

latest-IsLatest : (ts : List MintConfigTx) (t : MintConfigTx) → latest ts ≡ some t → IsLatest ts t
latest-IsLatest [] t e = cc
latest-IsLatest (s ∷ []) t e =
    let same : s ≡ t = ground arith in
    subst (IsLatest (s ∷ [])) same (inl refl, (irreflexive s.block_index, tt))
latest-IsLatest (s ∷ (r ∷ ts)) t e =
    let u = later r (latest ts) in
    let (there, rest) = latest-IsLatest (r ∷ ts) u refl in
    elim (Bool-cases (ltb_ℤ s.block_index u.block_index)) [
      | inl lt ↦
          let same : u ≡ t = ground arith in
          subst (IsLatest (s ∷ (r ∷ ts))) same
            (inr there, (asymmetric s.block_index u.block_index lt, rest))
      | inr ge ↦
          let same : s ≡ t = ground arith in
          subst (IsLatest (s ∷ (r ∷ ts))) same (
            inl refl,
            (
              irreflexive s.block_index,
              All-map _ _ (λ v h. no_later s.block_index u.block_index v.block_index ge h) (r ∷ ts)
                  rest,
            ),
          )
    ]

In-latest :
    (ts : List MintConfigTx) (t : MintConfigTx)
    → In t ts
    → (u : MintConfigTx) × (latest ts ≡ some u)
In-latest [] t i = elim i [ ]
In-latest (s ∷ ts) t i = (later s (latest ts), refl)

same_block : (a b : ℤ) → ltb_ℤ a b ≡ false → ltb_ℤ b a ≡ false → a ≡ b
same_block (pos a) (pos b) h k = ap pos (ground arith)
same_block (pos a) (negsuc b) h k = ground arith
same_block (negsuc a) (pos b) h k = ground arith
same_block (negsuc a) (negsuc b) h k = ap negsuc (ground arith)

module _ (block_index token_id : ℕ) (db : Db) where
  abbrev is_eligible : MintConfigTx → Bool
  is_eligible t = t.token_id ==ℤ as_i64 token_id && ltb_ℤ t.block_index (as_i64 block_index)

  eligible :
      (t : MintConfigTx)
      → t.token_id ≡ as_i64 token_id
      → ltb_ℤ t.block_index (as_i64 block_index) ≡ true
      → is_eligible t ≡ true
  eligible t e h =
      let same : (t.token_id ==ℤ as_i64 token_id) ≡ true = rw e (==ℤ-refl (as_i64 token_id)) in
      ground arith

  -- The query gives a newest transaction.
  pub most_recent-IsNewest :
      (t : MintConfigTx)
      → most_recent_for_token block_index token_id db ≡ some t
      → IsNewest block_index token_id db t
  unfolding most_recent_for_token
  most_recent-IsNewest t e =
      let (there, rest) = latest-IsLatest (filter is_eligible db.mint_config_txs) t e in
      let passes = filter-In is_eligible db.mint_config_txs there in
      record {
        row = unfilter-In is_eligible db.mint_config_txs t there;
        token = eq_of_==ℤ _ _ (ground arith);
        before = ground arith;
        none_later = λ u i same earlier.
            All-In _ (filter is_eligible db.mint_config_txs) rest
              (In-filter is_eligible db.mint_config_txs (eligible u same earlier) i);
      }

  -- Where a token has one transaction in a block at most, the query gives the newest.
  pub IsNewest-most_recent :
      (t : MintConfigTx)
      → OnePerBlock db
      → IsNewest block_index token_id db t
      → most_recent_for_token block_index token_id db ≡ some t
  unfolding most_recent_for_token
  IsNewest-most_recent t unique n =
      let there = In-filter is_eligible db.mint_config_txs (eligible t n.token n.before) n.row in
      let (u, e) = In-latest (filter is_eligible db.mint_config_txs) t there in
      let m = most_recent-IsNewest u e in
      let same : u ≡ t = unique u t m.row n.row (m.token ∙ sym n.token) (
        same_block u.block_index t.block_index (m.none_later t n.row n.token n.before)
          (n.none_later u m.row m.token m.before)) in
      e ∙ ap some same
