-- ===== src/Build/Resolves.antt =====
-- The indexes of a built message resolve to the accounts of the instructions.
use solana_multisig.Prelude.{
  ok_injective, ℕ, zero, suc, ◌%◌, ◌≤◌, ◌<◌, ◌≡◌, refl, sym, ap, subst, ◌∙◌, List, [], ◌∷◌, map,
  some, ok, on_ok, Bool-cases, Option-cases, inl, inr, length, get_elem?, arith,
}
use mathlib.Core.Path.{ap₂}
use solana_multisig.Web3.{Web3, IsWeb3, AccountMeta, TransactionInstruction}
use solana_multisig.Message.{CompiledInstruction, TransactionMessage}
use solana_multisig.Build.{
  find_index, account_index, account_indexes_of, compile_instruction, compile_instructions,
  key_of_entry, ordered, observed, build_message_from_instructions,
}

-- The compiled instruction names the program and the accounts of the instruction, with its data.
pub record Compiles {K : Type 0} (keys : List K) (ix : TransactionInstruction K)
    (c : CompiledInstruction) : Type 0 where
  pub program : get_elem? keys c.program_id_index ≡ some ix.program_id
  pub accounts :
      map (get_elem? keys) c.account_indexes ≡ map (λ (m : AccountMeta K). some m.pubkey) ix.keys
  pub payload : c.payload ≡ ix.payload

abbrev pub CompileEach :
    {K : Type 0} → List K → List (TransactionInstruction K) → List CompiledInstruction → Type 0
CompileEach keys [] [] = Unit
CompileEach keys [] (c ∷ cs) = ⊥
CompileEach keys (ix ∷ ixs) [] = ⊥
CompileEach keys (ix ∷ ixs) (c ∷ cs) = Compiles keys ix c × CompileEach keys ixs cs

module _ {K : Type 0} (w : Web3 K) (laws : IsWeb3 w) where
  find_index-get_elem? :
      (keys : List K) (k : K) (i : ℕ)
      → find_index w keys k ≡ some i
      → (get_elem? keys i ≡ some k) × (i < length keys)
  unfolding find_index
  find_index-get_elem? [] k i h = cc
  find_index-get_elem? (a ∷ keys) k i h = elim (Bool-cases (w.equals a k)) [
    | inl same ↦ first i (rw same at h) ((laws.equals_iff a k).0 same)
    | inr other ↦ elim (Option-cases (find_index w keys k)) [
      | inl missing ↦ absurd (cc (rw (other, missing) at h))
      | inr (j, e) ↦ later i j (rw (other, e) at h) (find_index-get_elem? keys k j e)
    ]
  ]
    where
      first :
          (i : ℕ)
          → some 0 ≡ some i
          → a ≡ k
          → (get_elem? (a ∷ keys) i ≡ some k) × (i < suc (length keys))
      first zero h e = (ap some e, omega arith)
      first (suc i) h e = cc

      later :
          (i j : ℕ)
          → some (suc j) ≡ some i
          → (get_elem? keys j ≡ some k) × (j < length keys)
          → (get_elem? (a ∷ keys) i ≡ some k) × (i < suc (length keys))
      later zero j h f = cc
      later (suc i) j h f = let same : j ≡ i = cc in (rw (← same) f.0, omega (arith, f.1, same))

  account_index-get_elem? :
      (keys : List K) (k : K) (i : ℕ)
      → account_index w keys k ≡ ok i
      → (get_elem? keys i ≡ some k) × (i < length keys)
  unfolding account_index
  account_index-get_elem? keys k i h = elim (Option-cases (find_index w keys k)) [
    | inl missing ↦ absurd (cc (rw (missing, account_index) at h))
    | inr (j, e) ↦ find_index-get_elem? keys k i (cc (rw (e, account_index) at h))
  ]

  account_indexes_of-resolve :
      (keys : List K) (ms : List (AccountMeta K)) (is : List ℕ)
      → length keys ≤ 256
      → account_indexes_of w keys ms ≡ ok is
      → map (get_elem? keys) is ≡ map (λ (m : AccountMeta K). some m.pubkey) ms
  unfolding account_indexes_of
  account_indexes_of-resolve keys [] is le h = let e : [] ≡ is = cc in rw (← e) refl
  account_indexes_of-resolve keys (m ∷ ms) is le h =
      on_ok (account_index w keys m.pubkey) _ h λ i e h1.
        on_ok (account_indexes_of w keys ms) _ h1 λ rest f h2.
          let (at, low) = account_index-get_elem? keys m.pubkey i e in
          let small : i % 256 ≡ i = omega (arith, low, le) in
          let same : i % 256 ∷ rest ≡ is = cc in
          rw (← same, small)
            (ap₂ (λ x xs. x ∷ xs) at (account_indexes_of-resolve keys ms rest le f))

  compile_instruction-Compiles :
      (keys : List K) (ix : TransactionInstruction K) (c : CompiledInstruction)
      → length keys ≤ 256
      → compile_instruction w keys ix ≡ ok c
      → Compiles keys ix c
  unfolding compile_instruction
  compile_instruction-Compiles keys ix c le h =
      on_ok (account_index w keys ix.program_id) _ h λ p e h1.
        on_ok (account_indexes_of w keys ix.keys) _ h1 λ is f h2.
          let same : record { program_id_index = p; account_indexes = is; payload = ix.payload }
              ≡ c =
            cc in
          record {
            program =
                ap (λ (x : CompiledInstruction). get_elem? keys x.program_id_index) (sym same)
                ∙ (account_index-get_elem? keys ix.program_id p e).0;
            accounts =
                ap (λ (x : CompiledInstruction). map (get_elem? keys) x.account_indexes) (sym same)
                ∙ account_indexes_of-resolve keys ix.keys is le f;
            payload = ap (λ (x : CompiledInstruction). x.payload) (sym same);
          }

  compile_instructions-CompileEach :
      (keys : List K) (ixs : List (TransactionInstruction K)) (cs : List CompiledInstruction)
      → length keys ≤ 256
      → compile_instructions w keys ixs ≡ ok cs
      → CompileEach keys ixs cs
  unfolding compile_instructions
  compile_instructions-CompileEach keys [] [] le h = tt
  compile_instructions-CompileEach keys [] (c ∷ cs) le h = cc
  compile_instructions-CompileEach keys (ix ∷ ixs) cs le h =
      on_ok (compile_instruction w keys ix) _ h λ c e h1.
        on_ok (compile_instructions w keys ixs) _ h1 λ rest f h2.
          let same : c ∷ rest ≡ cs = cc in
          subst (CompileEach keys (ix ∷ ixs)) same (
            compile_instruction-Compiles keys ix c le e,
            compile_instructions-CompileEach keys ixs rest le f,
          )

  -- In a message that is built with at most 256 account keys, each compiled instruction has the
  -- program, the accounts in their order, and the data of the instruction that it stands for.
  pub build_message_from_instructions-CompileEach :
      (vault_pda : K) (instructions : List (TransactionInstruction K)) (m : TransactionMessage K)
      → build_message_from_instructions w vault_pda instructions ≡ ok m
      → length m.account_keys ≤ 256
      → CompileEach m.account_keys instructions m.instructions
  unfolding build_message_from_instructions
  build_message_from_instructions-CompileEach vault_pda instructions m h le =
      let keys = map (key_of_entry w) (ordered w vault_pda (observed w vault_pda instructions)) in
      on_ok (compile_instructions w keys instructions) _ h λ cs e h1.
        let same_keys : keys ≡ m.account_keys =
          ap (λ (x : TransactionMessage K). x.account_keys) (ok_injective h1) in
        let same : cs ≡ m.instructions =
          ap (λ (x : TransactionMessage K). x.instructions) (ok_injective h1) in
        rw (← same, ← same_keys)
          (compile_instructions-CompileEach keys instructions cs (rw same_keys le) e)
