-- ===== src/Prelude/Strings/Digits.antt =====
-- What a text of digits spells, apart from the functions that test and read it.
use solana_multisig.Prelude.{
  ℕ, ◌+◌, ◌-◌, ◌*◌, ◌≤◌, ◌≡◌, ◌≢◌, refl, true, ◌↔◌, [], ◌∷◌, Text, arith, leb, ◌&&◌,
}
use solana_multisig.Prelude.Strings.{all_digits, is_numeral, numeral, numeral_from}

-- The text, each character from "0" (48) to "9" (57), spells `n` behind the number `acc`.
abbrev pub Spells : ℕ → Text → ℕ → Type 0
Spells acc [] n = acc ≡ n
Spells acc (c ∷ t) n = (d : ℕ) × (c ≡ 48 + d) × (d ≤ 9) × Spells (10 * acc + d) t n

is_digit :
    (c : ℕ) (b : _)
    → (leb 48 c && leb c 57 && b) ≡ true
    → (c ≡ 48 + (c - 48)) × (c - 48 ≤ 9) × (b ≡ true)
is_digit c b h = (ground arith, ground arith, ground arith)

from-Spells :
    (acc : ℕ) (t : Text) (n : ℕ) → all_digits t ≡ true → numeral_from acc t ≡ n → Spells acc t n
unfolding all_digits numeral_from
from-Spells acc [] n h e = e
from-Spells acc (c ∷ t) n h e =
    let (value, small, rest) = is_digit c _ h in
    let same : acc * 10 + (c - 48) ≡ 10 * acc + (c - 48) = omega arith in
    (c - 48, value, small, from-Spells (10 * acc + (c - 48)) t n rest (rw (← same) e))

Spells-from :
    (acc : ℕ) (t : Text) (n : ℕ) → Spells acc t n → (all_digits t ≡ true) × (numeral_from acc t ≡ n)
unfolding all_digits numeral_from
Spells-from acc [] n e = (refl, e)
Spells-from acc (c ∷ t) n (d, value, small, rest) =
    let later = Spells-from (10 * acc + d) t n rest in
    let same : acc * 10 + (c - 48) ≡ 10 * acc + d = omega arith in
    (ground (arith, later.0), rw same later.1)

-- A text is a numeral of value `n` if and only if it is not empty and spells `n`.
pub numeral_iff :
    (t : Text) (n : ℕ) → ((is_numeral t ≡ true) × (numeral t ≡ n)) ↔ ((t ≢ []) × Spells 0 t n)
unfolding is_numeral numeral
numeral_iff [] n = (λ h. cc, λ h. absurd (h.0 refl))
numeral_iff (c ∷ t) n =
    (λ h. (λ e. cc, from-Spells 0 (c ∷ t) n h.0 h.1), λ h. Spells-from 0 (c ∷ t) n h.1)
