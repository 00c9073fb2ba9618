-- ===== src/Bundle/Values.antt =====
-- What the data of a compute budget instruction and of a token account create say, apart from
-- `parseBundle` of sdk/src/decoder.ts.
use solana_multisig.Prelude.{
  ℕ, ◌≡◌, refl, Bool, ◌&&◌, ◌||◌, [], ◌∷◌, Option, none, some, ok, arith, length, leb, ◌==◌,
  if◌then◌else◌, get_elem?,
}
use solana_multisig.Web3.{Bytes}
use solana_multisig.Bytes.{le_value}
use solana_multisig.Bytes.LittleEndian.{read_u32_le-rest, read_u64_le-rest}
use solana_multisig.Bundle.{compute_budget_value, first_byte, ata_data_ok}

-- A unit limit is the byte 2 with four bytes, a unit price the byte 3 with eight, the value of each
-- lowest byte first; nothing else has a value.
abbrev pub budget_value : Bytes → Option ℕ
budget_value [] = none
budget_value (t ∷ bs) =
    if t == 2 && length bs == 4 || t == 3 && length bs == 8 then some (le_value bs) else none

-- No byte, or one that is 0 or 1.
abbrev pub is_ata_create : Bytes → Bool
is_ata_create raw = leb (length raw) 1 && leb (le_value raw) 1

pub compute_budget_value-eq : (raw : Bytes) → compute_budget_value raw ≡ ok (budget_value raw)
unfolding compute_budget_value
compute_budget_value-eq [] = refl
compute_budget_value-eq (t ∷ bs) = ground (arith, read_u32_le-rest t bs, read_u64_le-rest t bs)

pub first_byte-eq : (raw : Bytes) → first_byte raw ≡ get_elem? raw 0
first_byte-eq [] = refl
first_byte-eq (b ∷ bs) = refl

pub ata_data_ok-eq : (raw : Bytes) → ata_data_ok raw ≡ is_ata_create raw
unfolding le_value
ata_data_ok-eq [] = refl
ata_data_ok-eq (b ∷ []) = ground arith
ata_data_ok-eq (b ∷ c ∷ bs) = ground arith
