-- ===== src/Prelude/Strings.antt =====
-- Strings as code units: literals, equality, truth, decimal numerals, and `toBigIntOrNull`'s input.
pub mod Decimal
pub mod Digits
use Prim.Native.Char.{code}
use Prim.Native.String.{String}
use solana_multisig.Prelude.{
  ℕ, zero, suc, ◌+◌, ◌-◌, ◌*◌, ◌/◌, ◌%◌, ◌≡◌, refl, ◌↔◌, Bool, true, false, ◌&&◌, ◌||◌, List, [],
  ◌∷◌, ◌++◌, Option, none, some, Text, arith, leb, ltb, ◌==◌, if◌then◌else◌,
}

-- A literal of the source.
unfoldable pub lit : String → Text
lit String.[] = []
lit (String.◌∷◌ c s) = code c ∷ lit s

-- `===` on strings.
unfoldable pub text_eq : Text → Text → Bool
text_eq [] [] = true
text_eq [] (_ ∷ _) = false
text_eq (_ ∷ _) [] = false
text_eq (a ∷ s) (b ∷ t) = a == b && text_eq s t

pub text_eq_refl : (s : Text) → text_eq s s ≡ true
unfolding text_eq
text_eq_refl [] = refl
text_eq_refl (a ∷ s) = ground (arith, text_eq_refl s)

pub text_eq→eq : (s t : Text) → text_eq s t ≡ true → s ≡ t
unfolding text_eq
text_eq→eq [] [] h = refl
text_eq→eq [] (_ ∷ _) h = cc
text_eq→eq (_ ∷ _) [] h = cc
text_eq→eq (a ∷ s) (b ∷ t) h = ground (arith, text_eq→eq s t)

pub text_eq_iff : (s t : Text) → (text_eq s t ≡ true) ↔ (s ≡ t)
text_eq_iff s t = (text_eq→eq s t, λ e. rw e (text_eq_refl t))

-- An optional string as a condition: `undefined`, `null` and "" are falsy.
abbrev pub truthy : Option Text → Option Text
truthy none = none
truthy (some []) = none
truthy (some (c ∷ s)) = some (c ∷ s)

-- `a === b` where either may be missing.
abbrev pub option_text_eq : Option Text → Option Text → Bool
option_text_eq none none = true
option_text_eq none (some _) = false
option_text_eq (some _) none = false
option_text_eq (some s) (some t) = text_eq s t

-- `xs.includes(x)`, `set.has(x)`.
unfoldable pub includes : List Text → Text → Bool
includes [] x = false
includes (y ∷ ys) x = text_eq y x || includes ys x

-- `n.toString()`, the digits before what is already written; a number has at most as many digits
-- as its value plus one, so that is the fuel.
digits_loop : ℕ → ℕ → Text → Text
digits_loop zero n out = out
digits_loop (suc fuel) n out =
    let more = digits_loop fuel (n / 10) ((48 + n % 10) ∷ out) in
    if ltb n 10 then (48 + n) ∷ out else more

unfoldable pub decimal : ℕ → Text
unfolding digits_loop
decimal n = digits_loop (suc n) n []

-- `/^[0-9]+$/.test(s)`.
all_digits : Text → Bool
all_digits [] = true
all_digits (c ∷ s) = leb 48 c && leb c 57 && all_digits s

unfoldable pub is_numeral : Text → Bool
unfolding all_digits
is_numeral [] = false
is_numeral (c ∷ s) = all_digits (c ∷ s)

-- `BigInt(s)` on a numeral.
numeral_from : ℕ → Text → ℕ
numeral_from acc [] = acc
numeral_from acc (c ∷ s) = numeral_from (acc * 10 + (c - 48)) s

unfoldable pub numeral : Text → ℕ
unfolding numeral_from
numeral s = numeral_from 0 s
