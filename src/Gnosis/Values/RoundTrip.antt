-- ===== src/Gnosis/Values/RoundTrip.antt =====
-- A value that is printed is read back.
use reserve_auditor.Prelude.{
  ℕ, zero, suc, ◌+◌, ◌-◌, ◌*◌, ◌/◌, ◌%◌, ◌^◌, ◌<◌, ◌≡◌, ◌∙◌, refl, ap, true, false, [], ◌∷◌, ltb,
  ◌==◌, Bool-cases, inl, inr, arith,
}
use reserve_auditor.Prelude.Text.{Text}
use reserve_auditor.Result.{ok, ok_or}
use reserve_auditor.Gnosis.Error.{invalid_tx_value}
use reserve_auditor.Gnosis.Types.{u128_mod}
use reserve_auditor.Gnosis.Values.{
  is_digit, parse_digits, parse_u128, value_from_str, show_digits, value_to_string,
}

-- a digit is read behind a number
parse_digit :
    (n d : ℕ) (s : Text)
    → d < 10
    → 10 * n + d < u128_mod
    → parse_digits n ((b'0' + d) ∷ s) ≡ parse_digits (10 * n + d) s
unfolding parse_digits
parse_digit n d s h k =
    let digit : is_digit (b'0' + d) ≡ true = ground arith in
    let value : 10 * n + (b'0' + d - b'0') ≡ 10 * n + d = omega arith in
    let fits : ltb (10 * n + (b'0' + d - b'0')) u128_mod ≡ true = ground arith in
    rw (digit, fits) (ap (λ m. parse_digits m s) value)

tenth : (n k : ℕ) → n < 10 * k → n / 10 < k
tenth n k h = omega arith

-- more than one digit is left only where there is room for it
room : (fuel n : ℕ) → n < 10 ^ suc fuel → ltb n 10 ≡ false → 0 < fuel
room zero n h large = ground arith
room (suc fuel) n h large = omega arith

parse-show_digits :
    (fuel n : ℕ) (s : Text)
    → n < 10 ^ fuel
    → n < u128_mod
    → 0 < fuel
    → parse_digits 0 (show_digits fuel n s) ≡ parse_digits n s
unfolding show_digits
parse-show_digits zero n s h k p = absurd (omega arith)
parse-show_digits (suc fuel) n s h k p = elim (Bool-cases (ltb n 10)) [
  | inl small ↦
      let lt : n < 10 = ground arith in
      rw small (parse_digit 0 n s lt (omega arith) ∙ ap (λ m. parse_digits m s) (omega arith))
  | inr large ↦
      let whole : 10 * (n / 10) + n % 10 ≡ n = omega arith in
      let less : n / 10 < 10 ^ fuel = tenth n (10 ^ fuel) (omega arith) in
      rw large (
        parse-show_digits fuel (n / 10) ((b'0' + n % 10) ∷ s) less (omega arith)
          (room fuel n h large)
        ∙ parse_digit (n / 10) (n % 10) s (omega arith) (omega (arith, whole, k))
        ∙ ap (λ m. parse_digits m s) whole)
]

-- what is printed begins with a digit
first_digit :
    (fuel n : ℕ) (s : Text)
    → 0 < fuel
    → (c : ℕ) × (t : Text) × (show_digits fuel n s ≡ c ∷ t) × ((c == b'+') ≡ false)
unfolding show_digits
first_digit zero n s p = absurd (omega arith)
first_digit (suc zero) n s p = elim (Bool-cases (ltb n 10)) [
  | inl small ↦ (b'0' + n, s, rw small refl, ground arith)
  | inr large ↦ (b'0' + n % 10, s, rw large refl, ground arith)
]
first_digit (suc (suc fuel)) n s p = elim (Bool-cases (ltb n 10)) [
  | inl small ↦ (b'0' + n, s, rw small refl, ground arith)
  | inr large ↦
      let (c, t, e, d) = first_digit (suc fuel) (n / 10) ((b'0' + n % 10) ∷ s) (omega arith) in
      (c, t, rw large e, d)
]

read_digits :
    (c : ℕ) (t s : Text) → s ≡ c ∷ t → (c == b'+') ≡ false → parse_u128 s ≡ parse_digits 0 s
unfolding parse_u128
read_digits c t s e d = rw e (rw d refl)

-- A value of 128 bits that is printed is read back.
pub value_from_str-to_string : (n : ℕ) → n < u128_mod → value_from_str (value_to_string n) ≡ ok n
unfolding value_from_str value_to_string parse_digits
value_from_str-to_string n h =
    let (c, t, e, d) = first_digit 39 n [] (omega arith) in
    ap (λ o. ok_or o invalid_tx_value)
      (read_digits c t (show_digits 39 n []) e d
        ∙ parse-show_digits 39 n [] (omega arith) h (omega arith))
