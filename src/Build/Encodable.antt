-- ===== src/Build/Encodable.antt =====
-- A message that `buildMessageFromInstructions` of sdk/src/utils.ts builds fits the types of its fields
-- when it fits the scratch buffer of the client.
use solana_multisig.Prelude.{
  ok_injective, some_injective, ℕ, zero, suc, ◌+◌, ◌*◌, ◌^◌, ◌≤◌, ◌<◌, ◌≡◌, refl, ap, sym, ◌∙◌,
  List, [], ◌∷◌, ◌++◌, map, some, ok, arith, length, length-append, filter, All, on_ok, get_elem?,
  Bool-cases, inl, inr, Option-cases,
}
use solana_multisig.Web3.{Web3, IsWeb3, TransactionInstruction}
use solana_multisig.Bytes.LittleEndian.{le_bytes}
use solana_multisig.Reader.Reads.{encode_all}
use solana_multisig.Message.{CompiledInstruction, TransactionMessage}
use solana_multisig.Message.Layout.{encode_message, encode_instruction, encode_lookup, IsEncodable}
use solana_multisig.Build.{
  Entry, writable_signer, readonly_signer, writable_non_signer, readonly_non_signer, take_vault,
  vault_first, ordered, observed, build_message_from_instructions, compile_instructions,
  key_of_entry, built_message,
}
use solana_multisig.Build.Fitting.{IsSmall, build_message_from_instructions-Fits, length-map}
use solana_multisig.Build.Resolves.{CompileEach, build_message_from_instructions-CompileEach}

get_elem?-lt {ℓ} :
    {A : Type ℓ} (xs : List A) (i : ℕ) (x : A) → get_elem? xs i ≡ some x → i < length xs
get_elem?-lt [] i x h = cc
get_elem?-lt (y ∷ xs) zero x h = omega arith
get_elem?-lt (y ∷ xs) (suc i) x h = omega (arith, get_elem?-lt xs i x h)

CompileEach-programs :
    {K : Type 0} (keys : List K) (ixs : List (TransactionInstruction K))
    (cs : List CompiledInstruction)
    → CompileEach keys ixs cs
    → length keys < 256
    → All (λ (c : CompiledInstruction). c.program_id_index < 256) cs
CompileEach-programs keys [] [] h l = tt
CompileEach-programs keys [] (c ∷ cs) h l = absurd h
CompileEach-programs keys (ix ∷ ixs) [] h l = absurd h
CompileEach-programs keys (ix ∷ ixs) (c ∷ cs) (h, hs) l = (
  omega (arith, get_elem?-lt keys c.program_id_index ix.program_id h.program),
  CompileEach-programs keys ixs cs hs l,
)

module _ {K : Type 0} (w : Web3 K) where
  take_vault-length :
      (vault : K) (es : List (Entry K)) (found : Entry K × List (Entry K))
      → take_vault w vault es ≡ some found
      → length es ≡ suc (length found.1)
  unfolding take_vault
  take_vault-length vault [] found h = cc
  take_vault-length vault (e ∷ es) found h = elim (Bool-cases (w.equals e.pubkey vault)) [
    | inl same ↦
        ap (λ (f : Entry K × List (Entry K)). suc (length f.1)) (some_injective (rw same at h))
    | inr other ↦ elim (Option-cases (take_vault w vault es)) [
      | inl e' ↦ absurd (cc (rw (other, e') at h))
      | inr (f, e') ↦
          ap suc (take_vault-length vault es f e')
          ∙ ap (λ (g : Entry K × List (Entry K)). suc (length g.1))
              (some_injective (rw (other, e') at h))
    ]
  ]

  vault_first-length :
      (vault : K) (es : List (Entry K)) → length (vault_first w vault es) ≡ length es
  unfolding vault_first
  vault_first-length vault es = elim (Option-cases (take_vault w vault es)) [
    | inl e ↦ let front : vault_first w vault es ≡ es = rw (vault_first, e) refl in ap length front
    | inr (found, e) ↦
        let front : vault_first w vault es ≡ found.0 ∷ found.1 = rw (vault_first, e) refl in
        ap length front ∙ sym (take_vault-length vault es found e)
  ]

  length-ordered :
      (vault : K) (all : List (Entry K))
      → length (ordered w vault all)
        ≡ length (filter writable_signer all)
          + (length (filter readonly_signer all)
              + (length (filter writable_non_signer all) + length (filter readonly_non_signer all)))
  unfolding ordered
  length-ordered vault all = omega (
    arith,
    vault_first-length vault (filter writable_signer all),
    length-append (vault_first w vault (filter writable_signer all)) (
        filter readonly_signer all
        ++ (filter writable_non_signer all ++ filter readonly_non_signer all)),
    length-append (filter readonly_signer all)
        (filter writable_non_signer all ++ filter readonly_non_signer all),
    length-append (filter writable_non_signer all) (filter readonly_non_signer all),
  )

  keys-encoded : IsWeb3 w → (keys : List K) → length (encode_all w.to_bytes keys) ≡ 32 * length keys
  keys-encoded laws [] = refl
  keys-encoded laws (k ∷ keys) = omega (
    arith,
    length-append (w.to_bytes k) (encode_all w.to_bytes keys),
    laws.length-to_bytes k,
    keys-encoded laws keys,
  )

  -- Every account key takes 32 bytes of the layout.
  encode_message-keys :
      IsWeb3 w
      → (m : TransactionMessage K) → 32 * length m.account_keys ≤ length (encode_message w m)
  encode_message-keys laws m =
      let count = le_bytes 4 (length m.account_keys) in
      let keys = encode_all w.to_bytes m.account_keys in
      let rest =
        le_bytes 4 (length m.instructions)
        ++ (encode_all encode_instruction m.instructions
            ++ (le_bytes 4 (length m.address_table_lookups)
                ++ (encode_all (encode_lookup w) m.address_table_lookups ++ []))) in
      omega (
        arith,
        length-append count (keys ++ rest),
        length-append keys rest,
        keys-encoded laws m.account_keys,
      )

  -- No count of a built message exceeds the number of its keys.
  build_message_from_instructions-counts :
      (vault : K) (instructions : List (TransactionInstruction K)) (m : TransactionMessage K)
      → build_message_from_instructions w vault instructions ≡ ok m
      → (m.num_writable_signers ≤ m.num_signers)
        × (m.num_signers + m.num_writable_non_signers ≤ length m.account_keys)
  unfolding build_message_from_instructions
  build_message_from_instructions-counts vault instructions m h =
      let all = observed w vault instructions in
      on_ok (compile_instructions w (map (key_of_entry w) (ordered w vault all)) instructions) _ h
        λ cs e k.
          let same : built_message w vault instructions cs ≡ m = ok_injective k in
          rw (← same) (
            omega arith,
            omega (
              arith,
              length-map (key_of_entry w) (ordered w vault all),
              length-ordered vault all,
            ),
          )

  -- A built message that fits 2000 bytes has fewer than 256 keys, so its counts and its indexes of
  -- programs are bytes.
  pub build_message_from_instructions-IsEncodable :
      IsWeb3 w
      → (vault : K) (instructions : List (TransactionInstruction K)) (m : TransactionMessage K)
      → build_message_from_instructions w vault instructions ≡ ok m
      → length (encode_message w m) ≤ 2000
      → length instructions < 2 ^ 32
      → All IsSmall instructions
      → IsEncodable m
  build_message_from_instructions-IsEncodable laws vault instructions m h short few small =
      let keys = encode_message-keys laws m in
      let le : length m.account_keys < 256 = omega arith in
      let counts = build_message_from_instructions-counts vault instructions m h in
      record {
        lengths =
            build_message_from_instructions-Fits w laws vault instructions m h (omega arith) few
              small;
        signers = omega (arith, counts);
        writable_signers = omega (arith, counts);
        writable_non_signers = omega (arith, counts);
        programs =
            CompileEach-programs m.account_keys instructions m.instructions
              (build_message_from_instructions-CompileEach w laws vault instructions m h
                (omega arith))
              le;
      }
