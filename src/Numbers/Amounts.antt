-- ===== src/Numbers/Amounts.antt =====
-- Which inputs `toBigIntOrNull` of sdk/src/decoder.ts takes for an amount.
use solana_multisig.Prelude.{
  ℕ, ◌-◌, ◌^◌, ◌<◌, ◌≡◌, ◌≢◌, refl, ap, sym, subst, true, ◌↔◌, [], Option, none, some, arith, leb,
  Bool-cases, inl, inr, some_injective, leb→le, le→leb,
}
use solana_multisig.Prelude.Strings.{is_numeral, numeral}
use solana_multisig.Prelude.Strings.Digits.{Spells, numeral_iff}
use solana_multisig.Numbers.{
  pos, negsuc, integer, other, Quantity, string, number, bigint, safe_or_null, text_or_null,
  to_bigint_or_null,
}

-- The amount that an input stands for: a bigint that is not negative, a number that is an integer from
-- 0 to 2^53 - 1, or what a text of digits, at least one, spells.
abbrev pub IsAmount : Quantity → ℕ → Type 0
IsAmount (bigint z) n = z ≡ pos n
IsAmount (number x) n = (x ≡ integer (pos n)) × (n < 2 ^ 53)
IsAmount (string t) n = (t ≢ []) × Spells 0 t n

text_or_null_iff :
    (t : _) (n : ℕ) → (text_or_null t ≡ some n) ↔ ((is_numeral t ≡ true) × (numeral t ≡ n))
unfolding text_or_null
text_or_null_iff t n = elim (Bool-cases (is_numeral t)) [
  | inl e ↦ (λ h. (e, some_injective (rw e at h)), λ h. rw e (ap some h.1))
  | inr e ↦ (λ h. absurd (cc (rw e at h)), λ h. absurd (cc (e, h.0)))
]

integer_value : {m n : ℕ} → integer (pos m) ≡ integer (pos n) → m ≡ n
integer_value e = cc

number_iff :
    (m n : ℕ)
    → (to_bigint_or_null (some (number (integer (pos m)))) ≡ some n)
      ↔ IsAmount (number (integer (pos m))) n
unfolding to_bigint_or_null safe_or_null
number_iff m n = elim (Bool-cases (leb m (2 ^ 53 - 1))) [
  | inl e ↦ (
    λ h.
        let same : m ≡ n = some_injective (rw e at h) in
        (ap (λ (k : ℕ). integer (pos k)) same, omega (arith, leb→le m (2 ^ 53 - 1) e)),
    λ h. rw e (ap some (integer_value h.0)),
  )
  | inr e ↦ (
    λ h. absurd (cc (rw e at h)),
    λ h.
        let le : leb m (2 ^ 53 - 1) ≡ true =
          le→leb m (2 ^ 53 - 1) (omega (arith, integer_value h.0)) in
        absurd (cc (e, le)),
  )
]

given_iff : (q : Quantity) (n : ℕ) → (to_bigint_or_null (some q) ≡ some n) ↔ IsAmount q n
unfolding to_bigint_or_null safe_or_null
given_iff (bigint (pos m)) n = (λ h. ap pos (some_injective h), λ h. cc)
given_iff (bigint (negsuc m)) n = (λ h. cc, λ h. cc)
given_iff (number (integer (pos m))) n = number_iff m n
given_iff (number (integer (negsuc m))) n = (λ h. cc, λ h. cc)
given_iff (number (other t)) n = (λ h. cc, λ h. cc)
given_iff (string t) n =
    let test = text_or_null_iff t n in
    let digits = numeral_iff t n in (λ h. digits.0 (test.0 h), λ h. test.1 (digits.1 h))

-- `toBigIntOrNull` gives the amount n if and only if a value is given that stands for n: the bigint
-- n, a number that is the integer n with n < 2^53, or a text of decimal digits, at least one, that
-- spell n. So what is undefined, negative, fractional, unsafe or empty, and a text with a sign, a point,
-- a space or any character that is no digit, gives null.
pub to_bigint_or_null_iff :
    (given : Option Quantity) (n : ℕ)
    → (to_bigint_or_null given ≡ some n) ↔ ((q : Quantity) × (given ≡ some q) × IsAmount q n)
unfolding to_bigint_or_null
to_bigint_or_null_iff none n = (λ h. cc, λ h. cc)
to_bigint_or_null_iff (some q) n = (
  λ h. (q, refl, (given_iff q n).0 h),
  λ h. (given_iff q n).1 (subst (λ (x : Quantity). IsAmount x n) (sym (some_injective h.1)) h.2),
)
