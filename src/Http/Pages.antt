-- ===== src/Http/Pages.antt =====
-- Pages of the audited mints: with sound audit tables no row of the table is missing from them.
use reserve_auditor.Prelude.{
  ℕ, zero, suc, ◌<◌, ◌^◌, ◌≡◌, ◌∙◌, refl, ap, some, List, [], ◌∷◌, All, map, take, drop, ltb, true,
  arith,
}
use reserve_auditor.Gnosis.Config.{GnosisSafeConfig}
use reserve_auditor.Db.Models.{Db, AuditedMint}
use reserve_auditor.Audit.Mint.Sound.{MintsAreSound, RowIsSound}
use reserve_auditor.Http.{AuditedMintResponse, joined_mints, get_audited_mints}

map-take : {A B : Type 0} (f : A → B) (n : ℕ) (xs : List A) → map f (take n xs) ≡ take n (map f xs)
map-take f zero xs = refl
map-take f (suc n) [] = refl
map-take f (suc n) (x ∷ xs) = ap (λ ys. f x ∷ ys) (map-take f n xs)

map-drop : {A B : Type 0} (f : A → B) (n : ℕ) (xs : List A) → map f (drop n xs) ≡ drop n (map f xs)
map-drop f zero xs = refl
map-drop f (suc n) [] = refl
map-drop f (suc n) (x ∷ xs) = map-drop f n xs

-- the row of the audit table that a response is about
abbrev pub row_of : AuditedMintResponse → AuditedMint
row_of r = r.audited

-- Every sound row joins.
pub joined_rows :
    (config : GnosisSafeConfig) (db : Db) (rows : List AuditedMint)
    → All (RowIsSound config db) rows
    → map row_of (joined_mints db rows) ≡ rows
unfolding joined_mints
joined_rows config db [] h = refl
joined_rows config db (a ∷ rows) h =
    rw h.0.mint_row (rw h.0.deposit_row (ap (λ rs. a ∷ rs) (joined_rows config db rows h.1)))

below : (n : ℕ) → n < 2 ^ 63 → ltb n (2 ^ 63) ≡ true
below n h = ground arith

-- With sound audit tables, a page of the audited mints shows the rows of the audit table from the
-- offset on, as many as the limit, in their order, where both are below 2 ^ 63.
pub get_audited_mints-page :
    (config : GnosisSafeConfig) (offset limit : ℕ) (db : Db)
    → MintsAreSound config db
    → offset < 2 ^ 63
    → limit < 2 ^ 63
    → map row_of (get_audited_mints (some offset) (some limit) db)
      ≡ take limit (drop offset db.audited_mints)
unfolding get_audited_mints
get_audited_mints-page config offset limit db sound ho hl =
    let rows = joined_mints db db.audited_mints in
    rw (below offset ho) (
      rw (below limit hl) (
        map-take row_of limit (drop offset rows)
        ∙ ap (take limit) (
            map-drop row_of offset rows
            ∙ ap (drop offset) (joined_rows config db db.audited_mints sound.rows))))
