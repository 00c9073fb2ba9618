-- ===== src/Client/Builders.antt =====
-- The client and its builders of instructions (sdk/src/client.ts).
use solana_multisig.Prelude.{
  ℕ, List, [], ◌∷◌, map, Option, none, some, false, Text, length, ◌==◌, if◌then◌else◌,
}
use solana_multisig.Prelude.Strings.{lit}
use solana_multisig.Web3.{Web3, AccountMeta, TransactionInstruction}
use solana_multisig.Numbers.{ℤ, pos, negsuc, ℤ_text}
use solana_multisig.Message.{CompiledInstruction, MessageAddressTableLookup, TransactionMessage}
use solana_multisig.Members.{
  sort_members, hash_members, derive_multisig_address, derive_nonce_account, validate_config,
}
use solana_multisig.Client.World.{
  World, Action, return, attempt, ◌>>=◌, ◌>>◌, JsIndex, Method, initialize_multisig,
  create_transaction, approve_transaction, execute_transaction, close_transaction, provision_nonce,
  Call,
}
use solana_multisig.Client.Index.{predict_next_transaction_pda}

-- The fields that the methods read: the program's address, as `this.programId` and as the address of
-- the IDL that `this.program` was made from, and the priority fee.
pub record Client (K : Type 0) : Type 0 where
  pub program_id : K
  pub address : Text
  pub priority_fee_micro_lamports : ℤ

-- The constructor without its wallet: the IDL is retargeted at the caller's program.
unfoldable pub new_client : {K : Type 0} → Web3 K → K → Option ℤ → Client K
new_client w program_id priority_fee = record {
  program_id = program_id;
  address = w.to_base58 program_id;
  priority_fee_micro_lamports = elim priority_fee [ none ↦ pos 0 | some fee ↦ fee ];
}

-- `{ pubkey, isSigner: false, isWritable: false }`.
abbrev pub readonly_meta : {K : Type 0} → K → AccountMeta K
readonly_meta k = record { pubkey = k; is_signer = false; is_writable = false }

-- `onchainMessage`: a copy, with each byte array as a `Buffer`.
unfoldable pub onchain_message : {K : Type 0} → TransactionMessage K → TransactionMessage K
onchain_message {K} m = record {
  num_signers = m.num_signers;
  num_writable_signers = m.num_writable_signers;
  num_writable_non_signers = m.num_writable_non_signers;
  account_keys = m.account_keys;
  instructions =
      map
        (λ (ix : CompiledInstruction). record {
          program_id_index = ix.program_id_index;
          account_indexes = ix.account_indexes;
          payload = ix.payload;
        })
        m.instructions;
  address_table_lookups =
      map
        (λ (l : MessageAddressTableLookup K). record {
          account_key = l.account_key;
          writable_indexes = l.writable_indexes;
          readonly_indexes = l.readonly_indexes;
        })
        m.address_table_lookups;
}

-- The options of the builders.
pub record InitializeOpts (K : Type 0) : Type 0 where
  pub members : List K
  pub threshold : ℕ
  pub payer : K

pub record CreateOpts (K : Type 0) : Type 0 where
  pub multisig_address : K
  pub current_transaction_index : JsIndex
  pub vault_index : ℕ
  pub message : TransactionMessage K
  pub creator : K
  pub payer : Option K

-- For approve, execute and close, which name a signer: the member, the executor or the payer.
pub record ProposalOpts (K : Type 0) : Type 0 where
  pub multisig_address : K
  pub transaction_address : K
  pub transaction_index : ℤ
  pub signer : K

pub record Initialized (K : Type 0) : Type 0 where
  pub instruction : TransactionInstruction K
  pub multisig_address : K
  pub bump : ℕ

pub record Created (K : Type 0) : Type 0 where
  pub instruction : TransactionInstruction K
  pub transaction_address : K
  pub transaction_index : ℤ

pub record Provisioned (K : Type 0) : Type 0 where
  pub instruction : TransactionInstruction K
  pub nonce_account : K

-- `payer ?? creator`.
abbrev pub or_else_key : {K : Type 0} → Option K → K → K
or_else_key none k = k
or_else_key (some payer) k = payer

module _ {K W V : Type 0} (w : Web3 K) (chain : World K W V) (client : Client K) where
  -- `priorityInstructions`.
  unfoldable pub priority_instructions : List (TransactionInstruction K)
  priority_instructions = elim client.priority_fee_micro_lamports [
    | pos n ↦ if n == 0 then [] else chain.set_compute_unit_price n ∷ []
    | negsuc n ↦ []
  ]

  -- The call in `initialize` and in `buildInitializeMultisigInstruction`.
  abbrev pub initialize_call : List K → ℕ → K → K → Call K
  initialize_call sorted_members threshold multisig_address payer = record {
    address = client.address;
    method = initialize_multisig (hash_members w sorted_members) threshold (length sorted_members);
    accounts =
        (lit "multisig", multisig_address)
        ∷ (lit "payer", payer)
        ∷ (lit "systemProgram", w.system_program_id)
        ∷ [];
    remaining = map readonly_meta sorted_members;
  }

  unfoldable pub build_initialize_multisig_instruction : InitializeOpts K → Action W (Initialized K)
  build_initialize_multisig_instruction opts = do
    attempt (validate_config w opts.members opts.threshold)
    let sorted_members = sort_members w opts.members
    found ← attempt (derive_multisig_address w sorted_members opts.threshold client.program_id)
    instruction ←
        chain.instruction (initialize_call sorted_members opts.threshold found.0 opts.payer)
    return (record { instruction = instruction; multisig_address = found.0; bump = found.1 })

  -- The call in `createTransactionFromMessage` and in `buildCreateTransactionInstruction`.
  abbrev pub create_call : K → K → ℕ → TransactionMessage K → K → K → Call K
  create_call multisig_address transaction_address vault_index message creator payer = record {
    address = client.address;
    method = create_transaction vault_index (onchain_message message);
    accounts =
        (lit "multisig", multisig_address)
        ∷ (lit "transaction", transaction_address)
        ∷ (lit "creator", creator)
        ∷ (lit "payer", payer)
        ∷ (lit "systemProgram", w.system_program_id)
        ∷ [];
    remaining = [];
  }

  unfoldable pub build_create_transaction_instruction : CreateOpts K → Action W (Created K)
  build_create_transaction_instruction opts = do
    next ← attempt (
        predict_next_transaction_pda w chain client.program_id opts.multisig_address
          opts.current_transaction_index)
    instruction ← chain.instruction (
        create_call opts.multisig_address next.0 opts.vault_index opts.message opts.creator
          (or_else_key opts.payer opts.creator))
    return (record {
      instruction = instruction;
      transaction_address = next.0;
      transaction_index = next.1;
    })

  -- The calls that name a multisig, a proposal and a signer.
  abbrev pub proposal_call : Method K → Text → K → K → K → List (AccountMeta K) → Call K
  proposal_call method role multisig_address transaction_address signer remaining = record {
    address = client.address;
    method = method;
    accounts =
        (lit "multisig", multisig_address)
        ∷ (lit "transaction", transaction_address)
        ∷ (role, signer)
        ∷ [];
    remaining = remaining;
  }

  unfoldable pub build_approve_transaction_instruction :
      ProposalOpts K → Action W (TransactionInstruction K)
  build_approve_transaction_instruction opts = chain.instruction (
      proposal_call (approve_transaction (ℤ_text opts.transaction_index)) (lit "member")
        opts.multisig_address opts.transaction_address opts.signer [])

  unfoldable pub build_execute_transaction_instruction :
      ProposalOpts K → List (AccountMeta K) → Action W (TransactionInstruction K)
  build_execute_transaction_instruction opts remaining_accounts = chain.instruction (
      proposal_call (execute_transaction (ℤ_text opts.transaction_index)) (lit "executor")
        opts.multisig_address opts.transaction_address opts.signer remaining_accounts)

  unfoldable pub build_close_transaction_instruction :
      ProposalOpts K → Action W (TransactionInstruction K)
  build_close_transaction_instruction opts = chain.instruction (
      proposal_call (close_transaction (ℤ_text opts.transaction_index)) (lit "payer")
        opts.multisig_address opts.transaction_address opts.signer [])

  unfoldable pub build_provision_nonce_instruction : K → K → Action W (Provisioned K)
  build_provision_nonce_instruction multisig_address payer = do
    nonce_account ← attempt (derive_nonce_account w multisig_address)
    instruction ← chain.instruction (record {
      address = client.address;
      method = provision_nonce;
      accounts =
          (lit "multisig", multisig_address)
          ∷ (lit "nonceAccount", nonce_account)
          ∷ (lit "payer", payer)
          ∷ (lit "recentBlockhashes", chain.sysvar_recent_blockhashes)
          ∷ (lit "rent", chain.sysvar_rent)
          ∷ (lit "systemProgram", w.system_program_id)
          ∷ [];
      remaining = [];
    })
    return (record { instruction = instruction; nonce_account = nonce_account })
