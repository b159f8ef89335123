-- ===== src/Db/BlockAudit/Maps.antt =====
-- Maps of balances: no token has two entries, and tokens and balances are 64-bit numbers. A map
-- that is stored for a block is read back with the same balances (src/db/models/block_balance.rs).
use reserve_auditor.Prelude.{
  ℕ, ◌<◌, ◌≡◌, ◌≢◌, ◌∙◌, refl, sym, subst, false, Bool, [], ◌∷◌, any, All, Distinct, ◌==◌,
  if◌then◌else◌, Bool-cases, eq_of_==, inl, inr, arith,
}
use reserve_auditor.Prelude.Int.{u64_mod}
use reserve_auditor.Db.BlockAudit.{BalanceMap, balance_of, set_balance, collect}
use reserve_auditor.Db.BlockAudit.Balances.{balance_of-set_self, balance_of-set_ne}

abbrev pub IsU64Pair : ℕ × ℕ → Type 0
IsU64Pair e = (e.0 < u64_mod) × (e.1 < u64_mod)

abbrev pub has_entry : ℕ → BalanceMap → Bool
has_entry k m = any (λ e. e.0 == k) m

abbrev pub IsMap : BalanceMap → Type 0
IsMap m = Distinct (λ e. e.0) m × All IsU64Pair m

pub balance_of-lt : (k : ℕ) (m : BalanceMap) → All IsU64Pair m → balance_of k m < u64_mod
unfolding balance_of
balance_of-lt k [] h = omega arith
balance_of-lt k ((j, v) ∷ m) h = ground (arith, balance_of-lt k m h.1)

has_entry-set_ne :
    (j k v : ℕ) (m : BalanceMap) → j ≢ k → has_entry j (set_balance k v m) ≡ has_entry j m
unfolding set_balance
has_entry-set_ne j k v [] h = ground arith
has_entry-set_ne j k v ((i, w) ∷ m) h = ground (arith, has_entry-set_ne j k v m h)

pub set_balance-IsMap :
    (k v : ℕ) (m : BalanceMap) → k < u64_mod → v < u64_mod → IsMap m → IsMap (set_balance k v m)
unfolding set_balance
set_balance-IsMap k v [] hk hv h = ((refl, tt), ((hk, hv), tt))
set_balance-IsMap k v ((i, w) ∷ m) hk hv h = elim (Bool-cases (i == k)) [
  | inl same ↦ rw same (h.0, ((h.1.0.0, hv), h.1.1))
  | inr differ ↦
      let rest = set_balance-IsMap k v m hk hv (h.0.1, h.1.1) in
      let kept : has_entry i (set_balance k v m) ≡ has_entry i m =
        has_entry-set_ne i k v m (ground arith) in
      rw differ ((kept ∙ h.0.0, rest.0), (h.1.0, rest.1))
]

-- rows that are read one after the other
pub collect-IsMap : (rows m : BalanceMap) → All IsU64Pair rows → IsMap m → IsMap (collect m rows)
collect-IsMap [] m h k = k
collect-IsMap ((i, v) ∷ rows) m h k =
    collect-IsMap rows (set_balance i v m) h.1 (set_balance-IsMap i v m h.0.0 h.0.1 k)

absent_balance : (k : ℕ) (m : BalanceMap) → has_entry k m ≡ false → balance_of k m ≡ 0
unfolding balance_of
absent_balance k [] h = refl
absent_balance k ((i, v) ∷ m) h = ground (arith, absent_balance k m)

balance_of-collect :
    (k : ℕ) (rows m : BalanceMap)
    → Distinct (λ (e : ℕ × ℕ). e.0) rows
    → balance_of k (collect m rows)
      ≡ (if has_entry k rows then balance_of k rows else balance_of k m)
unfolding balance_of
balance_of-collect k [] m d = refl
balance_of-collect k ((i, v) ∷ rows) m d =
    let rest = balance_of-collect k rows (set_balance i v m) d.1 in
    elim (Bool-cases (i == k)) [
      | inl same ↦
          let e : i ≡ k = eq_of_== i k same in
          let absent : has_entry k rows ≡ false = subst (λ n. has_entry n rows ≡ false) e d.0 in
          let own : balance_of k (set_balance i v m) ≡ v =
            subst (λ n. balance_of n (set_balance i v m) ≡ v) e (balance_of-set_self i v m) in
          rest ∙ rw (absent, same) own
      | inr differ ↦
          let other : balance_of k (set_balance i v m) ≡ balance_of k m =
            balance_of-set_ne k i v m (ground arith) in
          rest ∙ rw (differ, other) refl
    ]

-- A map that is collected from its own entries has the same balances.
pub collect_same :
    (k : ℕ) (m : BalanceMap)
    → Distinct (λ (e : ℕ × ℕ). e.0) m
    → balance_of k (collect [] m) ≡ balance_of k m
unfolding balance_of
collect_same k m d = balance_of-collect k m [] d ∙ elim (Bool-cases (has_entry k m)) [
  | inl there ↦ rw there refl
  | inr absent ↦ rw absent (sym (absent_balance k m absent))
]
