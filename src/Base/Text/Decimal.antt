-- ===== src/Base/Text/Decimal.antt =====
-- Numbers that printf has written are read back by strtol.
use plat.Base.{
  ℕ, zero, suc, ◌+◌, ◌-◌, ◌*◌, ◌/◌, ◌%◌, ◌^◌, ◌<◌, ◌≡◌, refl, ap, ◌∙◌, true, false, some, [], ◌∷◌,
  ◌++◌, arith, min, inl, inr, ◌⊎◌,
}
use plat.Base.Int.{pos}
use plat.Base.Text.{
  Text, is_space, is_digit, skip_spaces, digits_value, starts_digit, signed_value, after_space,
  strtol, digits, print_nat,
}

-- A text of digits.
abbrev pub AllDigits : Text → Type 0
AllDigits [] = Unit
AllDigits (c ∷ s) = (is_digit c ≡ true) × AllDigits s

zero_or_suc : (m : ℕ) → (m ≡ 0) ⊎ ((k : ℕ) × (m ≡ suc k))
zero_or_suc zero = inl refl
zero_or_suc (suc k) = inr (k, refl)

tenths : (n : ℕ) → (n / 10 ≡ 0) ⊎ ((k : ℕ) × (n / 10 ≡ suc k))
tenths n = zero_or_suc (n / 10)

last_digit : (n : ℕ) → is_digit (48 + n % 10) ≡ true
unfolding is_digit
last_digit n = ground arith

module _ (fuel n : ℕ) (out : Text) where
  digits-last : n / 10 ≡ 0 → digits (suc fuel) n out ≡ (48 + n % 10) ∷ out
  unfolding digits
  digits-last e = rw (digits, e) refl

  digits-more :
      (k : ℕ) → n / 10 ≡ suc k → digits (suc fuel) n out ≡ digits fuel (suc k) ((48 + n % 10) ∷ out)
  unfolding digits
  digits-more k e = rw (digits, e) refl

  digits_value-digit :
      (m : ℕ) (s : Text) → digits_value m ((48 + n % 10) ∷ s) ≡ digits_value (m * 10 + n % 10) s
  unfolding digits_value
  digits_value-digit m s =
      let value : 48 + n % 10 - 48 ≡ n % 10 = omega arith in
      rw (digits_value, last_digit n, value) refl

digits_value-digits :
    (fuel n : ℕ) (out rest : Text)
    → n < fuel
    → digits_value 0 (digits fuel n out ++ rest) ≡ digits_value n (out ++ rest)
digits_value-digits zero n out rest h = absurd (omega arith)
digits_value-digits (suc fuel) n out rest h = elim (tenths n) [
  | inl e ↦ rw (digits-last fuel n out e) (
      digits_value-digit fuel n out 0 (out ++ rest)
      ∙ ap (λ m. digits_value m (out ++ rest)) (omega arith))
  | inr (k, e) ↦ rw (digits-more fuel n out k e) (
      digits_value-digits fuel (suc k) ((48 + n % 10) ∷ out) rest (omega arith)
      ∙ digits_value-digit fuel n out (suc k) (out ++ rest)
      ∙ ap (λ m. digits_value m (out ++ rest)) (omega arith))
]

digits-AllDigits : (fuel n : ℕ) (out : Text) → AllDigits out → AllDigits (digits fuel n out)
unfolding digits
digits-AllDigits zero n out h = h
digits-AllDigits (suc fuel) n out h = elim (tenths n) [
  | inl e ↦ rw (digits-last fuel n out e) (last_digit n, h)
  | inr (k, e) ↦
      rw (digits-more fuel n out k e)
        (digits-AllDigits fuel (suc k) ((48 + n % 10) ∷ out) (last_digit n, h))
]

pub print_nat-AllDigits : (n : ℕ) → AllDigits (print_nat n)
unfolding print_nat
print_nat-AllDigits n = digits-AllDigits (n + 1) n [] tt

starts_digit-digits :
    (fuel n : ℕ) (out rest : Text) → n < fuel → starts_digit (digits fuel n out ++ rest) ≡ true
unfolding starts_digit
starts_digit-digits zero n out rest h = absurd (omega arith)
starts_digit-digits (suc fuel) n out rest h = elim (tenths n) [
  | inl e ↦ rw (digits-last fuel n out e) (last_digit n)
  | inr (k, e) ↦
      rw (digits-more fuel n out k e)
        (starts_digit-digits fuel (suc k) ((48 + n % 10) ∷ out) rest (omega arith))
]

pub starts_digit-print_nat : (n : ℕ) (rest : Text) → starts_digit (print_nat n ++ rest) ≡ true
unfolding print_nat
starts_digit-print_nat n rest = starts_digit-digits (n + 1) n [] rest (omega arith)

-- A text that starts with a digit has no space or sign to pass over.
strtol-digit :
    (s : Text) → starts_digit s ≡ true → strtol s ≡ some (pos (min (digits_value 0 s) (2 ^ 63 - 1)))
unfolding strtol skip_spaces after_space signed_value starts_digit is_digit is_space
strtol-digit [] h = cc
strtol-digit (c ∷ s) h = ground arith

pub skip_spaces-digit : (s : Text) → starts_digit s ≡ true → skip_spaces s ≡ s
unfolding skip_spaces starts_digit is_digit is_space
skip_spaces-digit [] h = refl
skip_spaces-digit (c ∷ s) h = ground arith

digits_value-end : (n : ℕ) (rest : Text) → starts_digit rest ≡ false → digits_value n rest ≡ n
unfolding digits_value starts_digit
digits_value-end n [] h = refl
digits_value-end n (c ∷ rest) h = rw (digits_value, h) refl

-- What is printed for a number below 2 ^ 63 is read back, up to the first byte that is no digit.
pub strtol-print_nat :
    (n : ℕ) (rest : Text)
    → n < 2 ^ 63
    → starts_digit rest ≡ false
    → strtol (print_nat n ++ rest) ≡ some (pos n)
unfolding print_nat
strtol-print_nat n rest small ends =
    strtol-digit (print_nat n ++ rest) (starts_digit-print_nat n rest)
    ∙ ap (λ v. some (pos (min v (2 ^ 63 - 1))))
        (digits_value-digits (n + 1) n [] rest (omega arith) ∙ digits_value-end n rest ends)
    ∙ ap (λ v. some (pos v)) (omega arith)
