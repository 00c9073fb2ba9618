-- ===== src/Build/Total.antt =====
-- `buildMessageFromInstructions` finds every account that it looks up, so it never throws.
use solana_multisig.Prelude.{
  ok_injective, ℕ, suc, ◌%◌, ◌≡◌, refl, sym, ap, ◌∙◌, Bool, true, false, not, ◌&&◌, ◌||◌, List, [],
  ◌∷◌, ◌++◌, map, some, ok, ◌⊎◌, inl, inr, Bool-cases, Option-cases, All, All-map, filter,
}
use solana_multisig.Prelude.Strings.{text_eq, text_eq_iff}
use solana_multisig.Web3.{Web3, IsWeb3, AccountMeta, TransactionInstruction}
use solana_multisig.Message.{CompiledInstruction, TransactionMessage}
use solana_multisig.Build.{
  Entry, writable_signer, readonly_signer, writable_non_signer, readonly_non_signer, observe,
  observe_keys, observe_all, take_vault, vault_first, ordered, find_index, account_index,
  account_indexes_of, compile_instruction, compile_instructions, observed, key_of_entry,
  built_message, build_message_from_instructions,
}

-- Some entry has the property.
abbrev pub Some : {A : Type 0} → (A → Type 0) → List A → Type 0
Some P [] = ⊥
Some P (x ∷ xs) = P x ⊎ Some P xs

module _ {A : Type 0} (P : A → Type 0) where
  Some-append_left : (xs ys : List A) → Some P xs → Some P (xs ++ ys)
  Some-append_left [] ys h = absurd h
  Some-append_left (x ∷ xs) ys (inl p) = inl p
  Some-append_left (x ∷ xs) ys (inr h) = inr (Some-append_left xs ys h)

  Some-append_right : (xs ys : List A) → Some P ys → Some P (xs ++ ys)
  Some-append_right [] ys h = h
  Some-append_right (x ∷ xs) ys h = inr (Some-append_right xs ys h)

  pub Some-filter :
      (test : A → Bool) (xs : List A)
      → Some (λ x. P x × (test x ≡ true)) xs
      → Some P (filter test xs)
  Some-filter test [] h = absurd h
  Some-filter test (x ∷ xs) (inl (p, t)) = rw t (inl p)
  Some-filter test (x ∷ xs) (inr h) = elim (Bool-cases (test x)) [
    | inl t ↦ rw t (inr (Some-filter test xs h))
    | inr f ↦ rw f (Some-filter test xs h)
  ]

-- An entry that has the property keeps it when more is observed of its key.
abbrev pub IsStable : {K : Type 0} → (Entry K → Type 0) → Type 0
IsStable {K} P =
    (e : Entry K) (s t : Bool)
    → P e
    → P (record e { is_signer = e.is_signer || s; is_writable = e.is_writable || t })

module _ {K : Type 0} (w : Web3 K) (laws : IsWeb3 w) where
  base58_injective : (a b : K) → text_eq (w.to_base58 a) (w.to_base58 b) ≡ true → a ≡ b
  base58_injective a b h = ok_injective (
      sym (laws.of_base58-to_base58 a)
      ∙ ap w.of_base58 ((text_eq_iff _ _).0 h)
      ∙ laws.of_base58-to_base58 b)

  observe-here :
      (es : List (Entry K)) (k : K) (s t : Bool)
      → Some (λ (e : Entry K). e.pubkey ≡ k) (observe w es k s t)
  unfolding observe
  observe-here [] k s t = inl refl
  observe-here (e ∷ es) k s t = elim (Bool-cases (text_eq (w.to_base58 e.pubkey) (w.to_base58 k))) [
    | inl same ↦ rw same (inl (base58_injective e.pubkey k same))
    | inr other ↦ rw other (inr (observe-here es k s t))
  ]

  module _ (P : Entry K → Type 0) (stable : IsStable P) where
    observe-Some :
        (es : List (Entry K)) (k : K) (s t : Bool) → Some P es → Some P (observe w es k s t)
    unfolding observe
    observe-Some [] k s t h = absurd h
    observe-Some (e ∷ es) k s t h =
        elim (Bool-cases (text_eq (w.to_base58 e.pubkey) (w.to_base58 k))) [
          | inl same ↦ rw same (elim h [ inl p ↦ inl (stable e s t p) | inr q ↦ inr q ])
          | inr other ↦ rw other (elim h [ inl p ↦ inl p | inr q ↦ inr (observe-Some es k s t q) ])
        ]

    observe_keys-Some :
        (es : List (Entry K)) (ms : List (AccountMeta K))
        → Some P es
        → Some P (observe_keys w es ms)
    unfolding observe_keys
    observe_keys-Some es [] h = h
    observe_keys-Some es (m ∷ ms) h =
        observe_keys-Some (observe w es m.pubkey m.is_signer m.is_writable) ms
          (observe-Some es m.pubkey m.is_signer m.is_writable h)

    pub observe_all-Some :
        (es : List (Entry K)) (ixs : List (TransactionInstruction K))
        → Some P es
        → Some P (observe_all w es ixs)
    unfolding observe_all
    observe_all-Some es [] h = h
    observe_all-Some es (ix ∷ ixs) h =
        observe_all-Some (observe_keys w (observe w es ix.program_id false false) ix.keys) ixs
          (observe_keys-Some _ ix.keys (observe-Some es ix.program_id false false h))

  -- The key stands in an entry.
  abbrev pub IsIn : K → List (Entry K) → Type 0
  IsIn k es = Some (λ (e : Entry K). e.pubkey ≡ k) es

  IsIn-stable : (k : K) → IsStable (λ (e : Entry K). e.pubkey ≡ k)
  IsIn-stable k e s t p = p

  observe_keys-here :
      (es : List (Entry K)) (ms : List (AccountMeta K))
      → All (λ (m : AccountMeta K). IsIn m.pubkey (observe_keys w es ms)) ms
  unfolding observe_keys
  observe_keys-here es [] = tt
  observe_keys-here es (m ∷ ms) = (
    observe_keys-Some (λ (e : Entry K). e.pubkey ≡ m.pubkey) (IsIn-stable m.pubkey) _ ms
        (observe-here es m.pubkey m.is_signer m.is_writable),
    observe_keys-here (observe w es m.pubkey m.is_signer m.is_writable) ms,
  )

  -- Every key of the instruction stands in an entry.
  pub record IsObserved (es : List (Entry K)) (ix : TransactionInstruction K) : Type 0 where
    pub program : IsIn ix.program_id es
    pub accounts : All (λ (m : AccountMeta K). IsIn m.pubkey es) ix.keys

  observe_all-here :
      (es : List (Entry K)) (ixs : List (TransactionInstruction K))
      → All (IsObserved (observe_all w es ixs)) ixs
  unfolding observe_all
  observe_all-here es [] = tt
  observe_all-here es (ix ∷ ixs) =
      let first = observe w es ix.program_id false false in
      let next = observe_keys w first ix.keys in
      (
        record {
          program =
              observe_all-Some (λ (e : Entry K). e.pubkey ≡ ix.program_id)
                (IsIn-stable ix.program_id) next ixs
                (observe_keys-Some (λ (e : Entry K). e.pubkey ≡ ix.program_id)
                  (IsIn-stable ix.program_id) first ix.keys
                  (observe-here es ix.program_id false false));
          accounts =
              All-map
                (λ (m : AccountMeta K).
                  observe_all-Some (λ (e : Entry K). e.pubkey ≡ m.pubkey) (IsIn-stable m.pubkey)
                    next ixs)
                ix.keys (observe_keys-here first ix.keys);
        },
        observe_all-here next ixs,
      )

  take_vault-Some :
      (P : Entry K → Type 0) (v : K) (es : List (Entry K)) (found : Entry K × List (Entry K))
      → take_vault w v es ≡ some found
      → Some P es
      → Some P (found.0 ∷ found.1)
  unfolding take_vault
  take_vault-Some P v [] found h s = cc
  take_vault-Some P v (e ∷ es) found h s = elim (Bool-cases (w.equals e.pubkey v)) [
    | inl same ↦ let e1 : (e, es) ≡ found = cc (rw same at h) in rw (← e1) s
    | inr other ↦ elim (Option-cases (take_vault w v es)) [
      | inl missing ↦ absurd (cc (rw (other, missing) at h))
      | inr (f, k) ↦
          let e1 : (f.0, e ∷ f.1) ≡ found = cc (rw (other, k) at h) in
          rw (← e1) (elim s [
            | inl p ↦ inr (inl p)
            | inr q ↦ elim (take_vault-Some P v es f k q) [ inl p ↦ inl p | inr r ↦ inr (inr r) ]
          ])
    ]
  ]

  vault_first-Some :
      (P : Entry K → Type 0) (v : K) (es : List (Entry K)) → Some P es → Some P (vault_first w v es)
  unfolding vault_first
  vault_first-Some P v es s = elim (Option-cases (take_vault w v es)) [
    | inl missing ↦ rw (missing, vault_first) s
    | inr (f, k) ↦ rw (k, vault_first) (take_vault-Some P v es f k s)
  ]

  tier_of :
      (s t : Bool)
      → ((s && t) ≡ true)
        ⊎ (((s && not t) ≡ true) ⊎ (((not s && t) ≡ true) ⊎ ((not s && not t) ≡ true)))
  tier_of true true = inl refl
  tier_of true false = inr (inl refl)
  tier_of false true = inr (inr (inl refl))
  tier_of false false = inr (inr (inr refl))

  module _ (P : Entry K → Type 0) where
    -- The property with a test.
    abbrev Tested : (Entry K → Bool) → List (Entry K) → Type 0
    Tested test es = Some (λ (e : Entry K). P e × (test e ≡ true)) es

    -- The four tiers cover every entry.
    tiers :
        (es : List (Entry K))
        → Some P es
        → Tested writable_signer es
          ⊎ (Tested readonly_signer es
              ⊎ (Tested writable_non_signer es ⊎ Tested readonly_non_signer es))
    tiers [] s = absurd s
    tiers (e ∷ es) (inl p) = elim (tier_of e.is_signer e.is_writable) [
      | inl a ↦ inl (inl (p, a))
      | inr (inl a) ↦ inr (inl (inl (p, a)))
      | inr (inr (inl a)) ↦ inr (inr (inl (inl (p, a))))
      | inr (inr (inr a)) ↦ inr (inr (inr (inl (p, a))))
    ]
    tiers (e ∷ es) (inr s) = elim (tiers es s) [
      | inl a ↦ inl (inr a)
      | inr (inl a) ↦ inr (inl (inr a))
      | inr (inr (inl a)) ↦ inr (inr (inl (inr a)))
      | inr (inr (inr a)) ↦ inr (inr (inr (inr a)))
    ]

    ordered-Some : (v : K) (es : List (Entry K)) → Some P es → Some P (ordered w v es)
    unfolding ordered
    ordered-Some v es s =
        let first = vault_first w v (filter writable_signer es) in
        let second = filter readonly_signer es in
        let third = filter writable_non_signer es in
        elim (tiers es s) [
          | inl a ↦ Some-append_left P first _ (
              vault_first-Some P v (filter writable_signer es) (Some-filter P writable_signer es a))
          | inr (inl a) ↦
              Some-append_right P first _
                (Some-append_left P second _ (Some-filter P readonly_signer es a))
          | inr (inr (inl a)) ↦ Some-append_right P first _ (
              Some-append_right P second _
                (Some-append_left P third _ (Some-filter P writable_non_signer es a)))
          | inr (inr (inr a)) ↦ Some-append_right P first _ (
              Some-append_right P second _
                (Some-append_right P third _ (Some-filter P readonly_non_signer es a)))
        ]

  account_index-found :
      (es : List (Entry K)) (k : K)
      → IsIn k es
      → (i : ℕ) × (account_index w (map (key_of_entry w) es) k ≡ ok i)
  unfolding account_index find_index
  account_index-found [] k s = absurd s
  account_index-found (e ∷ es) k s = elim (Bool-cases (w.equals e.pubkey k)) [
    | inl same ↦ (0, rw (same, account_index, find_index) refl)
    | inr other ↦ elim s [
      | inl p ↦ absurd (cc ((laws.equals_iff e.pubkey k).1 p, other))
      | inr q ↦ step other (account_index-found es k q)
    ]
  ]
    where
      step :
          w.equals e.pubkey k ≡ false
          → (i : ℕ) × (account_index w (map (key_of_entry w) es) k ≡ ok i)
          → (i : ℕ) × (account_index w (map (key_of_entry w) (e ∷ es)) k ≡ ok i)
      step other (i, f) = elim (Option-cases (find_index w (map (key_of_entry w) es) k)) [
        | inl missing ↦ absurd (cc (rw (missing, account_index) at f))
        | inr (j, found) ↦ (suc j, rw (other, found, account_index) refl)
      ]

  account_indexes_of-found :
      (es : List (Entry K)) (ms : List (AccountMeta K))
      → All (λ (m : AccountMeta K). IsIn m.pubkey es) ms
      → (is : List ℕ) × (account_indexes_of w (map (key_of_entry w) es) ms ≡ ok is)
  unfolding account_indexes_of
  account_indexes_of-found es [] h = ([], refl)
  account_indexes_of-found es (m ∷ ms) (p, h) =
      let (i, e) = account_index-found es m.pubkey p in
      let (is, f) = account_indexes_of-found es ms h in (i % 256 ∷ is, rw (e, f) refl)

  compile_instructions-found :
      (es : List (Entry K)) (ixs : List (TransactionInstruction K))
      → All (IsObserved es) ixs
      → (cs : List CompiledInstruction) × (compile_instructions w (map (key_of_entry w) es) ixs
          ≡ ok cs)
  unfolding compile_instructions compile_instruction
  compile_instructions-found es [] h = ([], refl)
  compile_instructions-found es (ix ∷ ixs) (p, h) =
      let (i, e) = account_index-found es ix.program_id p.program in
      let (is, f) = account_indexes_of-found es ix.keys p.accounts in
      let (cs, g) = compile_instructions-found es ixs h in
      (
        record { program_id_index = i; account_indexes = is; payload = ix.payload } ∷ cs,
        rw (e, f, g) refl,
      )

  -- The message is always built: each program and each account that is looked up among the account
  -- keys stands there.
  pub build_message_from_instructions-total :
      (vault_pda : K) (instructions : List (TransactionInstruction K))
      → (m : TransactionMessage K) × (build_message_from_instructions w vault_pda instructions
          ≡ ok m)
  unfolding build_message_from_instructions observed
  build_message_from_instructions-total vault_pda instructions =
      let all = observed w vault_pda instructions in
      let es = ordered w vault_pda all in
      let (cs, e) = compile_instructions-found es instructions (
        All-map
          (λ ix (h : IsObserved all ix). record {
            program =
                ordered-Some (λ (e : Entry K). e.pubkey ≡ ix.program_id) vault_pda all h.program;
            accounts =
                All-map
                  (λ (m : AccountMeta K).
                    ordered-Some (λ (e : Entry K). e.pubkey ≡ m.pubkey) vault_pda all)
                  ix.keys h.accounts;
          })
          instructions (observe_all-here _ instructions)) in
      (built_message w vault_pda instructions cs, rw e refl)
