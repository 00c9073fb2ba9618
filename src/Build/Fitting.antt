-- ===== src/Build/Fitting.antt =====
-- A message that `buildMessageFromInstructions` of sdk/src/utils.ts builds fits its borsh layout.
use solana_multisig.Prelude.{
  ok_injective, suc, ◌^◌, ◌≤◌, ◌<◌, ◌≡◌, refl, sym, ap, ◌∙◌, List, [], ◌∷◌, map, ok, arith, length,
  All, on_ok, get_elem?,
}
use solana_multisig.Web3.{Web3, IsWeb3, TransactionInstruction}
use solana_multisig.Message.{CompiledInstruction, TransactionMessage}
use solana_multisig.Message.Layout.{Fits, FitsInstruction}
use solana_multisig.Build.{
  build_message_from_instructions, compile_instructions, key_of_entry, ordered, observed,
}
use solana_multisig.Build.Resolves.{
  Compiles, CompileEach, build_message_from_instructions-CompileEach,
}

-- An instruction whose accounts and data have lengths of four bytes.
abbrev pub IsSmall : {K : Type 0} → TransactionInstruction K → Type 0
IsSmall ix = (length ix.keys < 2 ^ 32) × (length ix.payload < 2 ^ 32)

pub length-map {ℓ κ} :
    {A : Type ℓ} {B : Type κ} (f : A → B) (xs : List A) → length (map f xs) ≡ length xs
length-map f [] = refl
length-map f (x ∷ xs) = ap suc (length-map f xs)

CompileEach-length :
    {K : Type 0} (keys : List K) (ixs : List (TransactionInstruction K))
    (cs : List CompiledInstruction)
    → CompileEach keys ixs cs
    → length cs ≡ length ixs
CompileEach-length keys [] [] h = refl
CompileEach-length keys [] (c ∷ cs) h = absurd h
CompileEach-length keys (ix ∷ ixs) [] h = absurd h
CompileEach-length keys (ix ∷ ixs) (c ∷ cs) (h, k) = ap suc (CompileEach-length keys ixs cs k)

Compiles-FitsInstruction :
    {K : Type 0} (keys : List K) (ix : TransactionInstruction K) (c : CompiledInstruction)
    → Compiles keys ix c
    → IsSmall ix
    → FitsInstruction c
Compiles-FitsInstruction keys ix c h (k, p) =
    let count : length c.account_indexes ≡ length ix.keys =
      sym (length-map (get_elem? keys) c.account_indexes)
      ∙ ap length h.accounts
      ∙ length-map _ ix.keys in
    (omega arith, rw h.payload p)

CompileEach-FitsInstruction :
    {K : Type 0} (keys : List K) (ixs : List (TransactionInstruction K))
    (cs : List CompiledInstruction)
    → CompileEach keys ixs cs
    → All IsSmall ixs
    → All FitsInstruction cs
CompileEach-FitsInstruction keys [] [] h k = tt
CompileEach-FitsInstruction keys [] (c ∷ cs) h k = absurd h
CompileEach-FitsInstruction keys (ix ∷ ixs) [] h k = absurd h
CompileEach-FitsInstruction keys (ix ∷ ixs) (c ∷ cs) (h, hs) (k, ks) =
    (Compiles-FitsInstruction keys ix c h k, CompileEach-FitsInstruction keys ixs cs hs ks)

module _ {K : Type 0} (w : Web3 K) (laws : IsWeb3 w) where
  build_message_from_instructions-lookups :
      (vault : K) (instructions : List (TransactionInstruction K)) (m : TransactionMessage K)
      → build_message_from_instructions w vault instructions ≡ ok m
      → m.address_table_lookups ≡ []
  unfolding build_message_from_instructions
  build_message_from_instructions-lookups vault instructions m h =
      on_ok
        (compile_instructions w
          (map (key_of_entry w) (ordered w vault (observed w vault instructions))) instructions)
        _ h
        λ cs e k. sym (ap (λ (x : TransactionMessage K). x.address_table_lookups) (ok_injective k))

  -- A message that is built of small instructions with at most 256 account keys fits its layout.
  pub build_message_from_instructions-Fits :
      (vault : K) (instructions : List (TransactionInstruction K)) (m : TransactionMessage K)
      → build_message_from_instructions w vault instructions ≡ ok m
      → length m.account_keys ≤ 256
      → length instructions < 2 ^ 32
      → All IsSmall instructions
      → Fits m
  build_message_from_instructions-Fits vault instructions m h le few small =
      let each = build_message_from_instructions-CompileEach w laws vault instructions m h le in
      let lookups = build_message_from_instructions-lookups vault instructions m h in
      record {
        keys = omega arith;
        instructions =
            omega (arith, CompileEach-length m.account_keys instructions m.instructions each);
        each_instruction =
            CompileEach-FitsInstruction m.account_keys instructions m.instructions each small;
        lookups = rw lookups (omega arith);
        each_lookup = rw lookups tt;
      }
