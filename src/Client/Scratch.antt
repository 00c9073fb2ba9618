-- ===== src/Client/Scratch.antt =====
-- The encoder with the larger scratch buffer (sdk/src/client.ts): what it returns, and what it holds.
use solana_multisig.Prelude.{
  ok_injective, ℕ, zero, suc, ◌≤◌, ◌<◌, ◌≡◌, ◌↔◌, refl, sym, ap, inl, inr, ◌++◌, Option, some, Text,
  ok, err, arith, length, take-append, leb, Bool-cases,
}
use solana_multisig.Web3.{Bytes}
use solana_multisig.Client.Encoder.{IxLayout, alloc, patched_encode}

-- A layout of borsh: an argument that fits the buffer is written at its start, and the length of its
-- bytes returned; one that does not is refused.
pub record IsLayout {D : Type 0} (layout : IxLayout D) (borsh : D → Bytes) : Type 0 where
  pub writes :
      (argument : D) (buffer : Bytes)
      → length (borsh argument) ≤ length buffer
      → (rest : Bytes) × (layout.encode argument buffer
          ≡ ok (borsh argument ++ rest, length (borsh argument)))
  pub overruns :
      (argument : D) (buffer : Bytes)
      → length buffer < length (borsh argument)
      → (message : Text) × (layout.encode argument buffer ≡ err message)

length-alloc : (n : ℕ) → length (alloc n) ≡ n
length-alloc zero = refl
length-alloc (suc n) = ap suc (length-alloc n)

-- The patched encoder returns data for an instruction of the program if and only if the borsh bytes
-- of the argument are at most as long as the scratch buffer, and then the discriminator and exactly
-- those bytes, without the rest of the buffer.
pub patched_encode_lem :
    {D : Type 0} (layouts : Text → Option (IxLayout D)) (size : ℕ) (name : Text) (argument : D)
    (layout : IxLayout D) (borsh : D → Bytes) (payload : Bytes)
    → layouts name ≡ some layout
    → IsLayout layout borsh
    → (patched_encode layouts size name argument ≡ ok payload)
      ↔ ((length (borsh argument) ≤ size) × (payload ≡ layout.discriminator ++ borsh argument))
unfolding patched_encode
patched_encode_lem layouts size name argument layout borsh payload known law = (
  λ h. elim (Bool-cases (leb (length (borsh argument)) size)) [
    | inl fits ↦
        let (rest, e) = law.writes argument (alloc size) (ground (arith, length-alloc size)) in
        (ground arith, sym (ok_injective (rw (known, e, take-append (borsh argument) rest) at h)))
    | inr over ↦
        let (message, e) = law.overruns argument (alloc size) (ground (arith, length-alloc size)) in
        absurd (cc (rw (known, e) at h))
  ],
  λ (fits, same).
      let (rest, e) = law.writes argument (alloc size) (omega (arith, length-alloc size)) in
      rw (known, e, take-append (borsh argument) rest, same) refl,
)
