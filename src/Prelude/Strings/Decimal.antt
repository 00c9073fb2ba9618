-- ===== src/Prelude/Strings/Decimal.antt =====
-- Printing a number and reading it back.
use solana_multisig.Prelude.{
  ℕ, zero, suc, ◌+◌, ◌-◌, ◌*◌, ◌/◌, ◌%◌, ◌<◌, ◌≡◌, refl, ap, ◌∙◌, true, [], ◌∷◌, ◌++◌, Text, arith,
  ltb, Bool-cases, inl, inr, ◌≢◌,
}
use solana_multisig.Prelude.Strings.{
  decimal, digits_loop, all_digits, is_numeral, numeral, numeral_from,
}

digits_loop_digits :
    (fuel n : ℕ) (out : Text) → all_digits out ≡ true → all_digits (digits_loop fuel n out) ≡ true
unfolding digits_loop all_digits
digits_loop_digits zero n out h = h
digits_loop_digits (suc fuel) n out h =
    ground (arith, digits_loop_digits fuel (n / 10) ((48 + n % 10) ∷ out))

digits_loop_ne_nil : (fuel n : ℕ) (out : Text) → out ≢ [] → digits_loop fuel n out ≢ []
unfolding digits_loop
digits_loop_ne_nil zero n out h = h
digits_loop_ne_nil (suc fuel) n out h =
    ground (arith, digits_loop_ne_nil fuel (n / 10) ((48 + n % 10) ∷ out))

pub decimal_ne_nil : (n : ℕ) → decimal n ≢ []
unfolding decimal digits_loop
decimal_ne_nil n = ground (arith, digits_loop_ne_nil n (n / 10) ((48 + n % 10) ∷ []))

is_numeral_of_digits : (s : Text) → s ≢ [] → all_digits s ≡ true → is_numeral s ≡ true
unfolding is_numeral
is_numeral_of_digits [] h e = absurd (h refl)
is_numeral_of_digits (c ∷ s) h e = e

-- A printed number is a numeral.
pub is_numeral-decimal : (n : ℕ) → is_numeral (decimal n) ≡ true
unfolding decimal all_digits
is_numeral-decimal n =
    is_numeral_of_digits _ (decimal_ne_nil n) (digits_loop_digits (suc n) n [] refl)

one_digit :
    (acc d : ℕ) (out : Text) → numeral_from acc ((48 + d) ∷ out) ≡ numeral_from (acc * 10 + d) out
unfolding numeral_from
one_digit acc d out =
    let e : acc * 10 + (48 + d - 48) ≡ acc * 10 + d = omega arith in
    ap (λ (k : ℕ). numeral_from k out) e

-- Reading what the loop writes goes on from the number written.
numeral_from_digits :
    (fuel n : ℕ) (out : Text)
    → n < fuel
    → numeral_from 0 (digits_loop fuel n out) ≡ numeral_from n out
unfolding digits_loop
numeral_from_digits zero n out h = elim h [ ]
numeral_from_digits (suc fuel) n out h = elim (Bool-cases (ltb n 10)) [
  | inl small ↦
      let e : 0 * 10 + n ≡ n = omega arith in
      rw small (one_digit 0 n out ∙ ap (λ (k : ℕ). numeral_from k out) e)
  | inr large ↦
      let e : n / 10 * 10 + n % 10 ≡ n = omega arith in
      rw large (
        numeral_from_digits fuel (n / 10) ((48 + n % 10) ∷ out) (ground arith)
        ∙ one_digit (n / 10) (n % 10) out
        ∙ ap (λ (k : ℕ). numeral_from k out) e)
]

-- Reading a printed number gives the number back.
pub numeral-decimal : (n : ℕ) → numeral (decimal n) ≡ n
unfolding numeral decimal numeral_from
numeral-decimal n = numeral_from_digits (suc n) n [] (omega arith)

all_digits-append :
    (s t : Text) → all_digits s ≡ true → all_digits t ≡ true → all_digits (s ++ t) ≡ true
unfolding all_digits
all_digits-append [] t h k = k
all_digits-append (c ∷ s) t h k = ground (arith, all_digits-append s t)

is_numeral-digits : (s : Text) → is_numeral s ≡ true → all_digits s ≡ true
unfolding is_numeral
is_numeral-digits [] h = cc
is_numeral-digits (c ∷ s) h = h

-- Digits behind a number are digits of a number.
is_numeral-append :
    (s t : Text) → is_numeral s ≡ true → all_digits t ≡ true → is_numeral (s ++ t) ≡ true
unfolding is_numeral
is_numeral-append [] t h k = cc
is_numeral-append (c ∷ s) t h k = all_digits-append (c ∷ s) t h k

numeral_from-append :
    (acc : ℕ) (s t : Text) → numeral_from acc (s ++ t) ≡ numeral_from (numeral_from acc s) t
unfolding numeral_from
numeral_from-append acc [] t = refl
numeral_from-append acc (c ∷ s) t = numeral_from-append (acc * 10 + (c - 48)) s t

-- A printed number with the digit 1 behind it.
pub is_numeral-decimal_one : (n : ℕ) → is_numeral (decimal n ++ (49 ∷ [])) ≡ true
unfolding all_digits
is_numeral-decimal_one n = is_numeral-append (decimal n) (49 ∷ []) (is_numeral-decimal n) refl

pub numeral-decimal_one : (n : ℕ) → numeral (decimal n ++ (49 ∷ [])) ≡ n * 10 + 1
unfolding numeral numeral_from
numeral-decimal_one n =
    numeral_from-append 0 (decimal n) (49 ∷ []) ∙ ap (λ (k : ℕ). k * 10 + 1) (numeral-decimal n)
