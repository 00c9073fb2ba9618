-- ===== src/Bytes/LittleEndian.antt =====
-- Little-endian numbers: what `readUInt32LE` and `readU64LE` read is what was written.
use solana_multisig.Prelude.{
  ltb, false, ◌∙◌, ℕ, zero, suc, ◌+◌, ◌/◌, ◌%◌, ◌^◌, ◌<◌, ◌≤◌, ◌≡◌, refl, ap, ◌↔◌, true, [], ◌∷◌,
  ◌++◌, ok, arith, length, take, drop, take-append, take-all, drop-append, length-append,
}
use native.Mathlib.Nat.{pow-suc}
use solana_multisig.Web3.{Bytes}
use solana_multisig.Bytes.{
  bytes_equal, bytes_equal_from, le_value, read_u32_le, read_u64_le, u64_loop,
}

-- The `w` bytes of a number, lowest first.
unfoldable pub le_bytes : ℕ → ℕ → Bytes
le_bytes zero n = []
le_bytes (suc w) n = n % 256 ∷ le_bytes w (n / 256)

pub length-le_bytes : (w n : ℕ) → length (le_bytes w n) ≡ w
unfolding le_bytes
length-le_bytes zero n = refl
length-le_bytes (suc w) n = ap suc (length-le_bytes w (n / 256))

pub le_value-le_bytes : (w n : ℕ) → n < 256 ^ w → le_value (le_bytes w n) ≡ n
unfolding le_bytes le_value
le_value-le_bytes zero n h = omega arith
le_value-le_bytes (suc w) n h =
    omega (arith, pow-suc 256 w, le_value-le_bytes w (n / 256) (omega (arith, pow-suc 256 w)))

u64_loop-eq-le_value : (bs : Bytes) → u64_loop bs ≡ le_value bs
unfolding u64_loop le_value
u64_loop-eq-le_value [] = refl
u64_loop-eq-le_value (b ∷ bs) = omega (arith, u64_loop-eq-le_value bs)

bytes_equal_from_iff : (a b : Bytes) → length a ≡ length b → (bytes_equal_from a b ≡ true) ↔ (a ≡ b)
unfolding bytes_equal_from
bytes_equal_from_iff [] [] h = ground arith
bytes_equal_from_iff [] (_ ∷ _) h = absurd (omega arith)
bytes_equal_from_iff (_ ∷ _) [] h = absurd (omega arith)
bytes_equal_from_iff (x ∷ a) (y ∷ b) h = ground (arith, bytes_equal_from_iff a b)

-- `bytesEqual` is equality.
pub bytes_equal_iff : (a b : Bytes) → (bytes_equal a b ≡ true) ↔ (a ≡ b)
unfolding bytes_equal
bytes_equal_iff a b = ground (arith, bytes_equal_from_iff a b, λ (e : a ≡ b). ap length e)

-- A slice of known length between two others.
pub slice :
    (before xs after : Bytes) (k : ℕ)
    → length xs ≡ k
    → take k (drop (length before) (before ++ (xs ++ after))) ≡ xs
slice before xs after k e = rw (drop-append before (xs ++ after), ← e) (take-append xs after)

pub slice_fits :
    (before xs after : Bytes) (k : ℕ)
    → length xs ≡ k
    → length before + k ≤ length (before ++ (xs ++ after))
slice_fits before xs after k e =
    omega (arith, length-append before (xs ++ after), length-append xs after)

pub read_u32_le-le_bytes :
    (before after : Bytes) (n : ℕ)
    → n < 2 ^ 32
    → read_u32_le (before ++ (le_bytes 4 n ++ after)) (length before) ≡ n
unfolding read_u32_le
read_u32_le-le_bytes before after n h =
    rw (slice before (le_bytes 4 n) after 4 (length-le_bytes 4 n))
      (le_value-le_bytes 4 n (omega arith))

-- Eight bytes written for a number below 2^64 are read back, wherever they stand.
pub read_u64_le-le_bytes :
    (before after : Bytes) (n : ℕ)
    → n < 2 ^ 64
    → read_u64_le (before ++ (le_bytes 8 n ++ after)) (length before) ≡ ok n
unfolding read_u64_le
read_u64_le-le_bytes before after n h =
    rw
      (
        slice before (le_bytes 8 n) after 8 (length-le_bytes 8 n),
        u64_loop-eq-le_value,
        le_value-le_bytes 8 n (omega arith),
      )
      (ground (arith, slice_fits before (le_bytes 8 n) after 8 (length-le_bytes 8 n)))

-- The two reads behind a first byte, when just their bytes follow.
pub read_u32_le-rest : (b : ℕ) (bs : Bytes) → length bs ≡ 4 → read_u32_le (b ∷ bs) 1 ≡ le_value bs
unfolding read_u32_le
read_u32_le-rest b bs h = ap le_value (take-all bs 4 h)

pub read_u64_le-rest :
    (b : ℕ) (bs : Bytes) → length bs ≡ 8 → read_u64_le (b ∷ bs) 1 ≡ ok (le_value bs)
unfolding read_u64_le
read_u64_le-rest b bs h =
    let long : ltb (length (b ∷ bs)) 9 ≡ false = ground (arith, h) in
    rw long (ap ok (ap u64_loop (take-all bs 8 h) ∙ u64_loop-eq-le_value bs))
