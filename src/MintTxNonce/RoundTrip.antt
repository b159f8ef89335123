-- ===== src/MintTxNonce/RoundTrip.antt =====
-- A nonce that is written is read back, whatever bytes are read.
use reserve_auditor.Prelude.{
  ◌≡◌, refl, [], ◌∷◌, ◌++◌, length, take, replicate, arith, take-append, length-append, ◌≢◌, ==-ne,
  inl, inr, Bool-cases,
}
use reserve_auditor.Prelude.Text.{Text, text_eq, eq_of_text_eq}
use reserve_auditor.Result.{ok, err}
use reserve_auditor.Gnosis.Types.{EthTxHash, IsHash, hash_try_from}
use reserve_auditor.MintTxNonce.{ethereum_gnosis_deposit, to_bytes, try_from}
use reserve_auditor.Error.{invalid_length, invalid_nonce_identifier}

-- The bytes of a nonce: the identifier, the hash, and zeros.
pub to_bytes_layout :
    (h : EthTxHash)
    → IsHash h
    → to_bytes (ethereum_gnosis_deposit h) ≡ 0x01 ∷ (h.bytes ++ replicate 31 0)
unfolding to_bytes
to_bytes_layout h len = rw len refl

-- What is read: 64 bytes, the identifier first, and the hash behind it. The bytes after the hash
-- are not looked at.
pub try_from_lem :
    (h : EthTxHash) (rest : Text)
    → IsHash h
    → length rest ≡ 31
    → try_from (0x01 ∷ (h.bytes ++ rest)) ≡ ok (ethereum_gnosis_deposit h)
unfolding try_from hash_try_from text_eq
try_from_lem h rest len short =
    let total : length (h.bytes ++ rest) ≡ 63 = omega (arith, length-append h.bytes rest) in
    let cut : take 32 (h.bytes ++ rest) ≡ h.bytes = rw (← len) (take-append h.bytes rest) in
    rw (total, cut, len)

-- `try_from` undoes `to_bytes` on every hash of 32 bytes.
pub try_from-to_bytes :
    (h : EthTxHash)
    → IsHash h
    → try_from (to_bytes (ethereum_gnosis_deposit h)) ≡ ok (ethereum_gnosis_deposit h)
try_from-to_bytes h len = rw (to_bytes_layout h len) (try_from_lem h (replicate 31 0) len refl)

-- Bytes of another length, or with another first byte, are refused.
pub try_from_refuses :
    (b : Text)
    → ((length b ≢ 64) → try_from b ≡ err (invalid_length 64 (length b)))
      × ((length b ≡ 64) → take 1 b ≢ 0x01 ∷ [] → try_from b ≡ err invalid_nonce_identifier)
unfolding try_from
try_from_refuses b = (
  λ ne. rw (==-ne _ _ ne) refl,
  λ len ne. elim (Bool-cases (text_eq (take 1 b) (0x01 ∷ []))) [
    | inl t ↦ absurd (ne (eq_of_text_eq _ _ t))
    | inr f ↦ rw (len, f)
  ],
)
