-- ===== src/Gnosis/Types/Laws.antt =====
-- Laws of src/gnosis/eth_data_types.rs: addresses compare by their letters whatever the case, and
-- transaction hashes survive being printed and read.
use reserve_auditor.Prelude.{
  ◌≡◌, ◌↔◌, refl, sym, ap, ◌∙◌, true, some, [], ◌∷◌, length, drop, arith, inl, inr, Option-cases,
}
use reserve_auditor.Prelude.Text.{
  Text, text_eq, to_lowercase, lower-lower, text_eq_refl, eq_of_text_eq, starts_with,
}
use reserve_auditor.Result.{ok}
use reserve_auditor.Gnosis.Types.{
  Hex, EthAddr, EthTxHash, IsHash, addr_eq, addr_from_str, hash_from_str, hash_to_string, prefix_0x,
}

-- Two addresses are equal exactly when their lower-case texts are.
addr_eq_iff :
    (a b : EthAddr) → (addr_eq a b ≡ true) ↔ (to_lowercase a.string ≡ to_lowercase b.string)
unfolding addr_eq
addr_eq_iff a b =
    (eq_of_text_eq _ _, λ e. ap (text_eq (to_lowercase a.string)) (sym e) ∙ text_eq_refl _)

pub addr_eq_refl : (a : EthAddr) → addr_eq a a ≡ true
addr_eq_refl a = (addr_eq_iff a a).1 refl

pub addr_eq_sym : (a b : EthAddr) → addr_eq a b ≡ true → addr_eq b a ≡ true
addr_eq_sym a b h = (addr_eq_iff b a).1 (sym ((addr_eq_iff a b).0 h))

pub addr_eq_trans : (a b c : EthAddr) → addr_eq a b ≡ true → addr_eq b c ≡ true → addr_eq a c ≡ true
addr_eq_trans a b c h k = (addr_eq_iff a c).1 ((addr_eq_iff a b).0 h ∙ (addr_eq_iff b c).0 k)

to_lowercase-to_lowercase : (s : Text) → to_lowercase (to_lowercase s) ≡ to_lowercase s
to_lowercase-to_lowercase [] = refl
to_lowercase-to_lowercase (c ∷ s) = cc (lower-lower c, to_lowercase-to_lowercase s)

-- An address equals the address that is written with its letters in lower case.
pub addr_eq-to_lowercase :
    (a : EthAddr) → addr_eq a (record { string = to_lowercase a.string }) ≡ true
addr_eq-to_lowercase a = (addr_eq_iff a _).1 (sym (to_lowercase-to_lowercase a.string))

-- A hash of 32 bytes that is printed is read back, if `hex::decode` undoes `hex::encode` on it.
pub hash_from_str-to_string :
    (hex : Hex) (h : EthTxHash)
    → IsHash h
    → hex.decode (hex.encode h.bytes) ≡ some h.bytes
    → hash_from_str hex (hash_to_string hex h) ≡ ok h
unfolding hash_from_str hash_to_string starts_with
hash_from_str-to_string hex h len law = ground arith

-- An address that is read keeps its text, begins with `0x` and stands for 20 bytes.
pub addr_from_str_sound :
    (hex : Hex) (s : Text) (a : EthAddr)
    → addr_from_str hex s ≡ ok a
    → (a.string ≡ s)
      × (starts_with s prefix_0x ≡ true)
      × (b : Text) × (hex.decode (drop 2 s) ≡ some b)
      × (length b ≡ 20)
unfolding addr_from_str
addr_from_str_sound hex s a h = elim (Option-cases (hex.decode (drop 2 s))) [
  | inl bad ↦ ground arith
  | inr (b, e) ↦ (ground arith, ground arith, b, e, ground arith)
]
