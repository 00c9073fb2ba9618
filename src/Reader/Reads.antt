-- ===== src/Reader/Reads.antt =====
-- When a reader gets a value from an encoding, wherever that stands in the buffer: one rule for each
-- method of `ByteReader`, and a rule for each way to combine them.
use solana_multisig.Prelude.{
  ℕ, ◌+◌, ◌^◌, ◌<◌, ◌≡◌, refl, sym, Bool, true, false, List, [], ◌∷◌, ◌++◌, ok, arith, ltb, All,
  length, length-append, append_assoc, append-nil, if◌then◌else◌,
}
use mathlib.Core.List.{map, map-id}
use solana_multisig.Web3.{Bytes, Web3, IsWeb3}
use solana_multisig.Bytes.{byte_at}
use solana_multisig.Bytes.LittleEndian.{
  le_bytes, length-le_bytes, slice, slice_fits, read_u32_le-le_bytes, read_u64_le-le_bytes,
}
use solana_multisig.Reader.{
  ByteReader, Reader, ◌>>=◌, return, u8, u32, u64, bool, bytes, pubkey, repeat,
}

-- A reader between what it has read and what is left.
abbrev pub between : Bytes → Bytes → ByteReader
between before after = record { buf = before ++ after; offset = length before }

pub record Reads {ℓ} {A : Type ℓ} (p : Reader A) (e : Bytes) (a : A) : Type ℓ where
  pub run :
      (before after : Bytes) → p (between before (e ++ after)) ≡ ok (a, between (before ++ e) after)

fits :
    (before e after : Bytes) (k : ℕ)
    → length e ≡ k
    → ltb (length (before ++ (e ++ after))) (length before + k) ≡ false
fits before e after k h = ground (arith, slice_fits before e after k h)

-- After reading `e` the reader stands behind it.
moved :
    (before e after : Bytes) (k : ℕ)
    → length e ≡ k
    → ◌≡◌ {A = ByteReader}
        (record { buf = before ++ (e ++ after); offset = length before + k })
        (between (before ++ e) after)
moved before e after k h =
    let b : before ++ (e ++ after) ≡ (before ++ e) ++ after = sym (append_assoc before e after) in
    let o : length before + k ≡ length (before ++ e) = omega (arith, length-append before e) in
    λ i. record { buf = b i; offset = o i }

byte_at-append : (before after : Bytes) (b : ℕ) → byte_at (before ++ b ∷ after) (length before) ≡ b
unfolding byte_at
byte_at-append [] after b = refl
byte_at-append (x ∷ before) after b = byte_at-append before after b

pub Reads-return {ℓ} : {A : Type ℓ} (a : A) → Reads (return a) [] a
Reads-return a = record { run = λ before after. rw append-nil }

pub Reads-bind {ℓ κ} :
    {A : Type ℓ} {B : Type κ} {p : Reader A} (f : A → Reader B) {e e' : Bytes} {a : A} {b : B}
    → Reads p e a
    → Reads (f a) e' b
    → Reads (p >>= f) (e ++ e') b
Reads-bind f {e} {e'} h k = record {
  run = λ before after. rw (
    append_assoc e e' after,
    h.run before (e' ++ after),
    k.run (before ++ e) after,
    append_assoc before e e',
  );
}

pub Reads-bytes : (e : Bytes) (k : ℕ) → length e ≡ k → Reads (bytes k) e e
unfolding bytes
Reads-bytes e k h = record {
  run = λ before after.
      rw (fits before e after k h, slice before e after k h, moved before e after k h);
}

pub Reads-u8 : (b : ℕ) → Reads u8 (b ∷ []) b
unfolding u8
Reads-u8 b = record {
  run = λ before after. rw (
    fits before (b ∷ []) after 1 refl,
    byte_at-append before after b,
    moved before (b ∷ []) after 1 refl,
  );
}

pub Reads-u32 : (n : ℕ) → n < 2 ^ 32 → Reads u32 (le_bytes 4 n) n
unfolding u32
Reads-u32 n h = record {
  run = λ before after. rw (
    fits before (le_bytes 4 n) after 4 (length-le_bytes 4 n),
    read_u32_le-le_bytes before after n h,
    moved before (le_bytes 4 n) after 4 (length-le_bytes 4 n),
  );
}

pub Reads-u64 : (n : ℕ) → n < 2 ^ 64 → Reads u64 (le_bytes 8 n) n
unfolding u64
Reads-u64 n h = record {
  run = λ before after. rw (
    fits before (le_bytes 8 n) after 8 (length-le_bytes 8 n),
    read_u64_le-le_bytes before after n h,
    moved before (le_bytes 8 n) after 8 (length-le_bytes 8 n),
  );
}

-- A Boolean is written as one byte.
pub Reads-bool : (b : Bool) → Reads bool ((if b then 1 else 0) ∷ []) b
unfolding bool
Reads-bool true = record { run = λ before after. rw ((Reads-u8 1).run before after) }
Reads-bool false = record { run = λ before after. rw ((Reads-u8 0).run before after) }

pub Reads-pubkey :
    {K : Type 0} (w : Web3 K) → IsWeb3 w → (k : K) → Reads (pubkey w) (w.to_bytes k) k
unfolding pubkey
Reads-pubkey w laws k = record {
  run = λ before after. rw (
    (Reads-bytes (w.to_bytes k) 32 (laws.length-to_bytes k)).run before after,
    laws.of_bytes-to_bytes k,
  );
}

-- The encodings of a list, one behind the other.
abbrev pub encode_all {ℓ} : {A : Type ℓ} → (A → Bytes) → List A → Bytes
encode_all f [] = []
encode_all f (a ∷ as') = f a ++ encode_all f as'

-- A loop of reads over the encodings of `xs`, where each read gets `value` of its entry.
pub Reads-repeat_with {ℓ κ} :
    {A : Type ℓ} {S : Type κ} (read : Reader A) (encode : S → Bytes) (value : S → A) (xs : List S)
    → All (λ s. Reads read (encode s) (value s)) xs
    → Reads (repeat (length xs) read) (encode_all encode xs) (map value xs)
unfolding repeat
Reads-repeat_with read encode value [] h = Reads-return []
Reads-repeat_with read encode value (x ∷ xs) (h, hs) = record {
  run = λ before after. rw (
    append_assoc (encode x) (encode_all encode xs) after,
    h.run before (encode_all encode xs ++ after),
    (Reads-repeat_with read encode value xs hs).run (before ++ encode x) after,
    append_assoc before (encode x) (encode_all encode xs),
  );
}

pub Reads-repeat {ℓ} :
    {A : Type ℓ} (read : Reader A) (encode : A → Bytes) (xs : List A)
    → All (λ a. Reads read (encode a) a) xs
    → Reads (repeat (length xs) read) (encode_all encode xs) xs
Reads-repeat read encode xs h = rw map-id at (Reads-repeat_with read encode (λ a. a) xs h)
