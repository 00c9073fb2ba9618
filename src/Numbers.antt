-- ===== src/Numbers.antt =====
-- JavaScript numbers as the SDK's options take them, and `toBigIntOrNull` of sdk/src/decoder.ts.
pub mod Amounts
use solana_multisig.Prelude.{
  ℕ, suc, ◌-◌, ◌^◌, Bool, false, Option, none, some, ◌++◌, Text, Result, ok, err, leb,
  if◌then◌else◌,
}
use solana_multisig.Prelude.Strings.{lit, decimal, is_numeral, numeral}

-- A bigint; `negsuc n` is -(n + 1).
pub data ℤ : Type 0 where
  pos : ℕ → ℤ
  negsuc : ℕ → ℤ

-- A number: one with an integral value, or any other (a fraction, NaN, an infinity) with the text
-- that it prints as.
pub data JsNumber : Type 0 where
  integer : ℤ → JsNumber
  other : Text → JsNumber

-- `string | number | bigint`.
pub data Quantity : Type 0 where
  string : Text → Quantity
  number : JsNumber → Quantity
  bigint : ℤ → Quantity

-- The printed form of a bigint.
unfoldable pub ℤ_text : ℤ → Text
ℤ_text (pos n) = decimal n
ℤ_text (negsuc n) = lit "-" ++ decimal (suc n)

unfoldable pub number_text : JsNumber → Text
unfolding ℤ_text
number_text (integer z) = ℤ_text z
number_text (other t) = t

-- `String(value)`.
unfoldable pub quantity_text : Quantity → Text
unfolding number_text ℤ_text
quantity_text (string t) = t
quantity_text (number x) = number_text x
quantity_text (bigint z) = ℤ_text z

-- `BigInt(x)` throws on a number with no integral value.
unfoldable pub to_bigint : JsNumber → Result ℤ
to_bigint (integer z) = ok z
to_bigint (other t) = err (
    lit "The number " ++ (t ++ lit " cannot be converted to a BigInt because it is not an integer"))

-- `a <= z` for a natural number `a`.
abbrev pub le_ℤ : ℕ → ℤ → Bool
le_ℤ a (pos n) = leb a n
le_ℤ a (negsuc n) = false

-- `Number.isSafeInteger(x) && x >= 0 ? BigInt(x) : null`.
safe_or_null : JsNumber → Option ℕ
safe_or_null (integer (pos n)) = if leb n (2 ^ 53 - 1) then some n else none
safe_or_null (integer (negsuc n)) = none
safe_or_null (other t) = none

text_or_null : Text → Option ℕ
text_or_null t = if is_numeral t then some (numeral t) else none

unfoldable pub to_bigint_or_null : Option Quantity → Option ℕ
unfolding safe_or_null text_or_null
to_bigint_or_null none = none
to_bigint_or_null (some (bigint (pos n))) = some n
to_bigint_or_null (some (bigint (negsuc n))) = none
to_bigint_or_null (some (number x)) = safe_or_null x
to_bigint_or_null (some (string t)) = text_or_null t

-- The amount that a decimal text stands for.
abbrev pub amount_of : Text → Option ℕ
amount_of t = to_bigint_or_null (some (string t))
