-- ===== src/Bytes.antt =====
-- `bytesEqual`, `readUInt32LE` and `readU64LE` of sdk/src/decoder.ts.
pub mod LittleEndian
use solana_multisig.Prelude.{
  ℕ, zero, suc, ◌+◌, ◌*◌, ◌≤◌, Bool, true, false, ◌&&◌, List, [], ◌∷◌, Result, ok, err, ltb, ◌==◌,
  if◌then◌else◌, length, take, drop, get_elem?, Option, none, some,
}
use solana_multisig.Prelude.Strings.{lit}
use solana_multisig.Web3.{Bytes}

bytes_equal_from : Bytes → Bytes → Bool
bytes_equal_from [] b = true
bytes_equal_from (x ∷ a) [] = false
bytes_equal_from (x ∷ a) (y ∷ b) = x == y && bytes_equal_from a b

unfoldable pub bytes_equal : Bytes → Bytes → Bool
unfolding bytes_equal_from
bytes_equal a b = if length a == length b then bytes_equal_from a b else false

-- The number that the bytes spell, lowest byte first.
unfoldable pub le_value : Bytes → ℕ
le_value [] = 0
le_value (b ∷ bs) = b + 256 * le_value bs

-- `buf.readUInt32LE(offset)`, where the caller has checked that four bytes are there.
unfoldable pub read_u32_le : Bytes → ℕ → ℕ
unfolding le_value
read_u32_le buf offset = le_value (take 4 (drop offset buf))

-- The loop of `readU64LE`, from the highest byte down: `value = (value << 8) | byte`.
u64_loop : Bytes → ℕ
u64_loop [] = 0
u64_loop (b ∷ bs) = u64_loop bs * 256 + b

unfoldable pub read_u64_le : Bytes → ℕ → Result ℕ
unfolding u64_loop
read_u64_le buf offset =
    if ltb (length buf) (offset + 8)
    then err (lit "u64 read past end of buffer")
    else ok (u64_loop (take 8 (drop offset buf)))

-- The byte at an index, where the caller has checked the length.
unfoldable pub byte_at : Bytes → ℕ → ℕ
byte_at [] i = 0
byte_at (b ∷ bs) zero = b
byte_at (b ∷ bs) (suc i) = byte_at bs i
