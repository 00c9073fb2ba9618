-- ===== src/Build.antt =====
-- `buildMessageFromInstructions` of sdk/src/utils.ts: a message from the instructions of a proposal.
pub mod Resolves
pub mod Total
pub mod VaultFirst
pub mod Fitting
pub mod Encodable
use solana_multisig.Prelude.{
  ℕ, zero, suc, ◌+◌, ◌%◌, Bool, true, false, ◌&&◌, ◌||◌, not, List, [], ◌∷◌, ◌++◌, map, Option,
  none, some, Result, ok, err, ◌>>=◌, if◌then◌else◌, length, filter,
}
use solana_multisig.Prelude.Strings.{lit, text_eq}
use solana_multisig.Web3.{Web3, AccountMeta, TransactionInstruction}
use solana_multisig.Message.{CompiledInstruction, TransactionMessage}

pub record Entry (K : Type 0) : Type 0 where
  pub pubkey : K
  pub is_signer : Bool
  pub is_writable : Bool

-- The four tiers.
abbrev pub writable_signer : {K : Type 0} → Entry K → Bool
writable_signer e = e.is_signer && e.is_writable

abbrev pub readonly_signer : {K : Type 0} → Entry K → Bool
readonly_signer e = e.is_signer && not e.is_writable

abbrev pub writable_non_signer : {K : Type 0} → Entry K → Bool
writable_non_signer e = not e.is_signer && e.is_writable

abbrev pub readonly_non_signer : {K : Type 0} → Entry K → Bool
readonly_non_signer e = not e.is_signer && not e.is_writable

module _ {K : Type 0} (w : Web3 K) where
  -- The `Map`, keyed by base58 text, is the list of its values in the order of insertion.
  unfoldable pub observe : List (Entry K) → K → Bool → Bool → List (Entry K)
  observe [] k is_signer is_writable =
      record { pubkey = k; is_signer = is_signer; is_writable = is_writable } ∷ []
  observe (cur ∷ rest) k is_signer is_writable =
      if text_eq (w.to_base58 cur.pubkey) (w.to_base58 k)
      then record cur {
        is_signer = cur.is_signer || is_signer;
        is_writable = cur.is_writable || is_writable;
      }
        ∷ rest
      else cur ∷ observe rest k is_signer is_writable

  unfoldable pub observe_keys : List (Entry K) → List (AccountMeta K) → List (Entry K)
  unfolding observe
  observe_keys es [] = es
  observe_keys es (m ∷ ms) = observe_keys (observe es m.pubkey m.is_signer m.is_writable) ms

  unfoldable pub observe_all : List (Entry K) → List (TransactionInstruction K) → List (Entry K)
  unfolding observe observe_keys
  observe_all es [] = es
  observe_all es (ix ∷ rest) =
      observe_all (observe_keys (observe es ix.program_id false false) ix.keys) rest

  -- `splice(vaultIndex, 1)`: the first entry of the vault, and the others.
  unfoldable pub take_vault : K → List (Entry K) → Option (Entry K × List (Entry K))
  take_vault vault [] = none
  take_vault vault (e ∷ es) =
      if w.equals e.pubkey vault
      then some (e, es)
      else elim (take_vault vault es) [ none ↦ none | some found ↦ some (found.0, e ∷ found.1) ]

  -- The vault moved to the front, where it stands already if its index is 0.
  unfoldable pub vault_first : K → List (Entry K) → List (Entry K)
  unfolding take_vault
  vault_first vault es = elim (take_vault vault es) [ none ↦ es | some found ↦ found.0 ∷ found.1 ]

  unfoldable pub ordered : K → List (Entry K) → List (Entry K)
  unfolding vault_first
  ordered vault all =
      vault_first vault (filter writable_signer all)
      ++ (filter readonly_signer all
          ++ (filter writable_non_signer all ++ filter readonly_non_signer all))

  -- `accountKeys.findIndex((k) => k.equals(pubkey))`.
  unfoldable pub find_index : List K → K → Option ℕ
  find_index [] k = none
  find_index (a ∷ keys) k =
      if w.equals a k
      then some 0
      else elim (find_index keys k) [ none ↦ none | some i ↦ some (suc i) ]

  unfoldable pub account_index : List K → K → Result ℕ
  account_index keys k = elim (find_index keys k) [
    | none ↦ err (lit "Account " ++ (w.to_base58 k ++ lit " not found in account_keys"))
    | some i ↦ ok i
  ]

  -- The bytes of `Uint8Array.from(ix.keys.map(...))`: each index modulo 256.
  unfoldable pub account_indexes_of : List K → List (AccountMeta K) → Result (List ℕ)
  account_indexes_of keys [] = ok []
  account_indexes_of keys (m ∷ ms) = account_index keys m.pubkey >>= λ i.
      account_indexes_of keys ms >>= λ rest. ok (i % 256 ∷ rest)

  unfoldable pub compile_instruction :
      List K → TransactionInstruction K → Result CompiledInstruction
  compile_instruction keys ix = account_index keys ix.program_id >>= λ program.
      account_indexes_of keys ix.keys >>= λ indexes.
      ok (record { program_id_index = program; account_indexes = indexes; payload = ix.payload })

  unfoldable pub compile_instructions :
      List K → List (TransactionInstruction K) → Result (List CompiledInstruction)
  compile_instructions keys [] = ok []
  compile_instructions keys (ix ∷ rest) =
      compile_instruction keys ix >>= λ c. compile_instructions keys rest >>= λ cs. ok (c ∷ cs)

  -- Everything that the function observes.
  unfoldable pub observed : K → List (TransactionInstruction K) → List (Entry K)
  unfolding observe_all
  observed vault_pda instructions = observe_all (observe [] vault_pda true true) instructions

  abbrev pub key_of_entry : Entry K → K
  key_of_entry e = e.pubkey

  -- The message that is returned.
  abbrev pub built_message :
      K → List (TransactionInstruction K) → List CompiledInstruction → TransactionMessage K
  built_message vault_pda instructions compiled =
      let all = observed vault_pda instructions in
      record {
        num_signers = length (filter writable_signer all) + length (filter readonly_signer all);
        num_writable_signers = length (filter writable_signer all);
        num_writable_non_signers = length (filter writable_non_signer all);
        account_keys = map key_of_entry (ordered vault_pda all);
        instructions = compiled;
        address_table_lookups = [];
      }

  unfoldable pub build_message_from_instructions :
      K → List (TransactionInstruction K) → Result (TransactionMessage K)
  build_message_from_instructions vault_pda instructions =
      compile_instructions (map key_of_entry (ordered vault_pda (observed vault_pda instructions)))
        instructions
      >>= λ compiled. ok (built_message vault_pda instructions compiled)
