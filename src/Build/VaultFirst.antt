-- ===== src/Build/VaultFirst.antt =====
-- The vault stands first among the account keys of a built message, as a writable signer.
use solana_multisig.Prelude.{
  ok_injective, ◌≤◌, ◌≡◌, refl, sym, ap, ◌∙◌, Bool, true, false, ◌&&◌, ◌||◌, List, [], ◌∷◌, map,
  some, ok, inl, inr, Bool-cases, on_ok, filter, length, get_elem?, arith,
}
use solana_multisig.Web3.{Web3, IsWeb3, TransactionInstruction}
use solana_multisig.Message.{TransactionMessage}
use solana_multisig.Build.{
  Entry, writable_signer, observe, take_vault, vault_first, ordered, observed, key_of_entry,
  built_message, compile_instructions, build_message_from_instructions,
}
use solana_multisig.Build.Total.{Some, Some-filter, IsStable, observe_all-Some}

Some-length : {A : Type 0} (P : A → Type 0) (xs : List A) → Some P xs → 1 ≤ length xs
Some-length P [] s = absurd s
Some-length P (x ∷ xs) s = omega arith

module _ {K : Type 0} (w : Web3 K) (laws : IsWeb3 w) (vault_pda : K) where
  -- The entry of the vault, with both flags.
  abbrev pub IsVaultEntry : Entry K → Type 0
  IsVaultEntry e = (e.pubkey ≡ vault_pda) × (writable_signer e ≡ true)

  both_or : (a b s t : Bool) → (a && b) ≡ true → ((a || s) && (b || t)) ≡ true
  both_or true true s t h = refl
  both_or true false s t h = cc
  both_or false b s t h = cc

  IsVaultEntry-stable : IsStable IsVaultEntry
  IsVaultEntry-stable e s t (p, h) = (p, both_or e.is_signer e.is_writable s t h)

  observed-vault :
      (instructions : List (TransactionInstruction K))
      → Some
          (λ (e : Entry K). e.pubkey ≡ vault_pda)
          (filter writable_signer (observed w vault_pda instructions))
  unfolding observed observe
  observed-vault instructions =
      Some-filter (λ (e : Entry K). e.pubkey ≡ vault_pda) writable_signer
        (observed w vault_pda instructions)
        (observe_all-Some w laws IsVaultEntry IsVaultEntry-stable _ instructions (inl (refl, refl)))

  take_vault-found :
      (es : List (Entry K))
      → Some (λ (e : Entry K). e.pubkey ≡ vault_pda) es
      → (found : Entry K × List (Entry K)) × (take_vault w vault_pda es ≡ some found)
        × (found.0.pubkey ≡ vault_pda)
  unfolding take_vault
  take_vault-found [] s = absurd s
  take_vault-found (e ∷ es) s = elim (Bool-cases (w.equals e.pubkey vault_pda)) [
    | inl same ↦ ((e, es), rw same refl, (laws.equals_iff e.pubkey vault_pda).0 same)
    | inr other ↦ elim s [
      | inl p ↦ absurd (cc ((laws.equals_iff e.pubkey vault_pda).1 p, other))
      | inr q ↦
          let (f, found, at) = take_vault-found es q in ((f.0, e ∷ f.1), rw (other, found) refl, at)
    ]
  ]

  ordered-vault :
      (all : List (Entry K))
      → Some (λ (e : Entry K). e.pubkey ≡ vault_pda) (filter writable_signer all)
      → get_elem? (map (key_of_entry w) (ordered w vault_pda all)) 0 ≡ some vault_pda
  unfolding ordered
  ordered-vault all s =
      let (f, found, at) = take_vault-found (filter writable_signer all) s in
      let front : vault_first w vault_pda (filter writable_signer all) ≡ f.0 ∷ f.1 =
        rw (vault_first, found) refl in
      rw front (ap some at)

  -- The first account key of a built message is the vault; there is at least one writable
  -- signer, and no more of them than signers.
  pub build_message_from_instructions-vault :
      (instructions : List (TransactionInstruction K)) (m : TransactionMessage K)
      → build_message_from_instructions w vault_pda instructions ≡ ok m
      → (get_elem? m.account_keys 0 ≡ some vault_pda)
        × (1 ≤ m.num_writable_signers)
        × (m.num_writable_signers ≤ m.num_signers)
  unfolding build_message_from_instructions
  build_message_from_instructions-vault instructions m h =
      let all = observed w vault_pda instructions in
      let there = observed-vault instructions in
      on_ok (compile_instructions w (map (key_of_entry w) (ordered w vault_pda all)) instructions) _
        h
        λ cs e h1.
          let same : built_message w vault_pda instructions cs ≡ m = ok_injective h1 in
          (
            ap (λ (x : TransactionMessage K). get_elem? x.account_keys 0) (sym same)
                ∙ ordered-vault all there,
            omega (
              arith,
              ap (λ (x : TransactionMessage K). x.num_writable_signers) same,
              Some-length _ _ there,
            ),
            omega (
              arith,
              ap (λ (x : TransactionMessage K). x.num_writable_signers) same,
              ap (λ (x : TransactionMessage K). x.num_signers) same,
            ),
          )
