-- ===== src/Reader.antt =====
-- `ByteReader` of sdk/src/decoder.ts: a sequential reader over a buffer with an offset, whose
-- methods throw past the end. A method takes the reader and returns the value and the new reader.
pub mod Reads
use solana_multisig.Prelude.{
  ℕ, zero, suc, ◌+◌, Bool, true, false, List, [], ◌∷◌, ◌++◌, Text, Result, ok, err, ltb, ◌==◌,
  throw_if, if◌then◌else◌, length, take, drop,
}
use solana_multisig.Prelude
use solana_multisig.Prelude.Strings.{lit, decimal}
use solana_multisig.Web3.{Bytes, Web3}
use solana_multisig.Bytes.{read_u32_le, read_u64_le, byte_at}

pub record ByteReader : Type 0 where
  pub buf : Bytes
  pub offset : ℕ

abbrev pub Reader {ℓ} : Type ℓ → Type ℓ
Reader A = ByteReader → Result (A × ByteReader)

-- One method after another.
infixl 5 ◌>>=◌ ◌>>◌
abbrev pub ◌>>=◌ {ℓ κ} : {A : Type ℓ} {B : Type κ} → Reader A → (A → Reader B) → Reader B
◌>>=◌ m f r = Prelude.◌>>=◌ (m r) (λ p. f p.0 p.1)

abbrev pub ◌>>◌ {ℓ κ} : {A : Type ℓ} {B : Type κ} → Reader A → Reader B → Reader B
m >> k = m >>= λ _. k

abbrev pub return {ℓ} : {A : Type ℓ} → A → Reader A
return a r = ok (a, r)

-- An error thrown between two reads.
abbrev pub lift {ℓ} : {A : Type ℓ} → Result A → Reader A
lift m r = Prelude.◌>>=◌ m (λ a. ok (a, r))

abbrev advance : ℕ → ByteReader → ByteReader
advance n r = record r { offset = r.offset + n }

unfoldable pub ensure : ℕ → Reader (Unit {0})
ensure n r =
    if ltb (length r.buf) (r.offset + n)
    then err (
        lit "truncated data: need "
        ++ (decimal n
            ++ (lit " byte(s) at offset "
                ++ (decimal r.offset ++ (lit ", have " ++ decimal (length r.buf))))))
    else ok (tt, r)

unfoldable pub u8 : Reader ℕ
unfolding ensure
u8 = ensure 1 >> λ r. ok (byte_at r.buf r.offset, advance 1 r)

unfoldable pub u32 : Reader ℕ
unfolding ensure
u32 = ensure 4 >> λ r. ok (read_u32_le r.buf r.offset, advance 4 r)

unfoldable pub u64 : Reader ℕ
unfolding ensure
u64 = ensure 8 >> λ r. Prelude.◌>>=◌ (read_u64_le r.buf r.offset) (λ v. ok (v, advance 8 r))

unfoldable pub bool : Reader Bool
unfolding u8
bool = do v ← u8; lift (throw_if (ltb 1 v) (lit "invalid bool byte " ++ decimal v)); return (v == 1)

unfoldable pub bytes : ℕ → Reader Bytes
unfolding ensure
bytes n = ensure n >> λ r. ok (take n (drop r.offset r.buf), advance n r)

unfoldable pub pubkey : {K : Type 0} → Web3 K → Reader K
unfolding bytes
pubkey w = do b ← bytes 32; return (w.of_bytes b)

-- `for (let i = 0; i < count; i++) list.push(read())`.
unfoldable pub repeat {ℓ} : {A : Type ℓ} → ℕ → Reader A → Reader (List A)
repeat zero read = return []
repeat (suc n) read = do a ← read; as' ← repeat n read; return (a ∷ as')
