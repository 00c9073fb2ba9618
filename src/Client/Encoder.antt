-- ===== src/Client/Encoder.antt =====
-- `patchIxEncoderBufferSize` of sdk/src/client.ts: the encoder of instruction data that replaces
-- Anchor's, with a scratch buffer of a given size. A layout is a parameter: it writes an argument
-- into the buffer and returns the buffer and the length written, or throws.
use solana_multisig.Prelude.{
  ℕ, zero, suc, [], ◌∷◌, ◌++◌, Option, none, some, Text, Result, ok, err, ◌>>=◌, take,
}
use solana_multisig.Prelude.Strings.{lit}
use solana_multisig.Web3.{Bytes}

pub record IxLayout (D : Type 0) : Type 0 where
  pub discriminator : Bytes
  pub encode : D → Bytes → Result (Bytes × ℕ)

-- `Buffer.alloc(size)`.
abbrev pub alloc : ℕ → Bytes
alloc zero = []
alloc (suc n) = 0 ∷ alloc n

-- `layouts.get(ixName)`, or the error.
abbrev pub found_layout : {D : Type 0} → Text → Option (IxLayout D) → Result (IxLayout D)
found_layout name none = err (lit "Unknown instruction: " ++ name)
found_layout name (some entry) = ok entry

unfoldable pub patched_encode :
    {D : Type 0} → (Text → Option (IxLayout D)) → ℕ → Text → D → Result Bytes
patched_encode layouts size name argument = found_layout name (layouts name) >>= λ entry.
    entry.encode argument (alloc size) >>= λ written.
    ok (entry.discriminator ++ take written.1 written.0)
