-- ===== src/Client/Methods.antt =====
-- The methods of the client that send transactions or fetch accounts (sdk/src/client.ts).
use solana_multisig.Prelude.{
  ℕ, List, [], ◌∷◌, ◌++◌, Option, none, some, Bool, true, false, Text, Result, ok, err,
  if◌then◌else◌,
}
use solana_multisig.Prelude
use solana_multisig.Prelude.Strings.{lit}
use solana_multisig.Web3.{Bytes, Web3, AccountMeta, TransactionInstruction}
use solana_multisig.Numbers.{ℤ, ℤ_text}
use solana_multisig.Message.{TransactionMessage}
use solana_multisig.Build.{build_message_from_instructions}
use solana_multisig.Members.{
  sort_members, derive_multisig_address, derive_vault_address, derive_nonce_account,
  validate_config,
}
use solana_multisig.Client.World.{
  World, Action, return, attempt, ◌>>=◌, ◌>>◌, or_null, JsIndex, approve_transaction,
  execute_transaction, MultisigAccount, VaultTransactionAccount,
}
use solana_multisig.Client.Index.{index_text, js_plus_one, transaction_address}
use solana_multisig.Client.Builders.{
  Client, priority_instructions, initialize_call, create_call, proposal_call, or_else_key,
  build_initialize_multisig_instruction, build_provision_nonce_instruction,
}

pub record InitializeResult (K : Type 0) : Type 0 where
  pub signature : Text
  pub multisig_address : K
  pub bump : ℕ

pub record CreateTransactionResult (K : Type 0) : Type 0 where
  pub signature : Text
  pub transaction_address : K
  pub transaction_index : JsIndex

pub record NonceAuthority (K : Type 0) : Type 0 where
  pub nonce_account : K
  pub authority : K
  pub nonce_value : Text

-- The answers of `checkNonceRace`.
pub data NonceRace (K : Type 0) : Type 0 where
  unprovisioned : NonceRace K
  safe : K → Text → NonceRace K
  raced : K → K → NonceRace K

pub record SetupResult (K : Type 0) : Type 0 where
  pub signature : Text
  pub multisig_address : K
  pub nonce_account : K
  pub nonce_value : Text

-- A value that may be missing, with the error for that case.
abbrev pub or_throw : {A : Type 0} → Text → Option A → Result A
or_throw message none = err message
or_throw message (some value) = ok value

module _ {K W V : Type 0} (w : Web3 K) (chain : World K W V) (client : Client K) where
  -- `deriveAddress` and `deriveVaultAddress` of the client.
  unfoldable pub derive_address : List K → ℕ → Result K
  derive_address members threshold = Prelude.◌>>◌ (validate_config w members threshold) (
      Prelude.◌>>=◌ (derive_multisig_address w members threshold client.program_id)
        λ found. ok found.0)

  unfoldable pub vault_address : K → ℕ → Result K
  vault_address multisig_address vault_index =
      Prelude.◌>>=◌ (derive_vault_address w multisig_address vault_index client.program_id)
        λ found. ok found.0

  -- `try { ... } catch (e) { return null; }` around a fetch.
  abbrev pub fetched : {A : Type 0} → Action W A → Action W (Option A)
  fetched fetch world = let after = fetch world in (or_null after.0, after.1)

  unfoldable pub get_multisig : K → Action W (Option (MultisigAccount K))
  get_multisig address = fetched (chain.fetch_multisig address)

  unfoldable pub get_transaction : K → Action W (Option (VaultTransactionAccount K))
  get_transaction address = fetched (chain.fetch_vault_transaction address)

  -- The end of `initialize`: one V0 transaction over the lookup table, signed, sent and confirmed.
  unfoldable pub send_v0 : K → List K → List (TransactionInstruction K) → Action W Text
  send_v0 payer table instructions = do
    blockhash ← chain.get_latest_blockhash
    compiled ← attempt (chain.compile_v0 payer blockhash instructions table)
    tx ← attempt (chain.sign compiled (payer ∷ []))
    signature ← chain.send_transaction tx
    chain.confirm_transaction signature (lit "confirmed")
    return signature

  unfoldable pub initialize : List K → ℕ → K → K → Action W (InitializeResult K)
  unfolding send_v0
  initialize members threshold payer members_alt = do
    attempt (validate_config w members threshold)
    let sorted_members = sort_members w members
    found ← attempt (derive_multisig_address w sorted_members threshold client.program_id)
    initialize_ix ←
        chain.instruction (initialize_call w chain client sorted_members threshold found.0 payer)
    answer ← chain.get_address_lookup_table members_alt
    table ← attempt (
        or_throw
          (lit "ALT not found at "
            ++ (w.to_base58 members_alt
                ++ lit " — did you call createMembersAddressLookupTable() first?"))
          answer)
    signature ← send_v0 payer table (priority_instructions w chain client ++ (initialize_ix ∷ []))
    return (record { signature = signature; multisig_address = found.0; bump = found.1 })

  unfoldable pub pre_fund : K → ℕ → K → Action W Text
  pre_fund address amount funder =
      chain.send_and_confirm_transaction
        (priority_instructions w chain client ++ (chain.transfer funder address amount ∷ []))
        (funder ∷ []) (lit "confirmed")

  -- `rentPayer.publicKey.equals(creator.publicKey) ? [creator] : [creator, rentPayer]`.
  unfoldable pub create_signers : K → K → List K
  create_signers creator rent_payer =
      if w.equals rent_payer creator then creator ∷ [] else creator ∷ rent_payer ∷ []

  unfoldable pub create_transaction_from_message :
      K → ℕ → TransactionMessage K → K → Option K → Action W (CreateTransactionResult K)
  unfolding get_multisig create_signers
  create_transaction_from_message multisig_address vault_index message creator payer = do
    answer ← get_multisig multisig_address
    multisig ← attempt (or_throw (lit "Multisig not found") answer)
    index ← attempt (js_plus_one multisig.transaction_index)
    address ←
        attempt (transaction_address w chain client.program_id multisig_address (index_text index))
    let rent_payer = or_else_key payer creator
    signature ←
        chain.rpc
          (create_call w chain client multisig_address address vault_index message creator
            rent_payer)
          (priority_instructions w chain client) (create_signers creator rent_payer)
    return
        (record { signature = signature; transaction_address = address; transaction_index = index })

  unfoldable pub create_transaction :
      K → ℕ → List (TransactionInstruction K) → K → Option K → Action W (CreateTransactionResult K)
  unfolding create_transaction_from_message vault_address
  create_transaction multisig_address vault_index instructions creator payer = do
    vault_pda ← attempt (vault_address multisig_address vault_index)
    message ← attempt (build_message_from_instructions w vault_pda instructions)
    create_transaction_from_message multisig_address vault_index message creator payer

  -- `approveTransaction` and `executeTransaction`, whose index is a bigint.
  unfoldable pub approve : K → ℤ → K → Action W Text
  approve multisig_address index member = do
    address ←
        attempt (transaction_address w chain client.program_id multisig_address (ℤ_text index))
    chain.rpc
        (proposal_call w chain client (approve_transaction (ℤ_text index)) (lit "member")
          multisig_address address member [])
        (priority_instructions w chain client) (member ∷ [])

  -- An absent or empty list of remaining accounts adds none.
  unfoldable pub execute : K → ℤ → K → Option (List (AccountMeta K)) → Action W Text
  execute multisig_address index executor remaining_accounts = do
    address ←
        attempt (transaction_address w chain client.program_id multisig_address (ℤ_text index))
    chain.rpc
        (proposal_call w chain client (execute_transaction (ℤ_text index)) (lit "executor")
          multisig_address address executor (elim remaining_accounts [ none ↦ [] | some ms ↦ ms ]))
        (priority_instructions w chain client) (executor ∷ [])

  -- `null`, or the fields of the account's data.
  abbrev pub authority_of : K → Option Bytes → Result (Option (NonceAuthority K))
  authority_of nonce_account none = ok none
  authority_of nonce_account (some contents) =
      Prelude.◌>>=◌ (chain.nonce_from_account_data contents) λ state. ok (
        some (record { nonce_account = nonce_account; authority = state.0; nonce_value = state.1 }))

  unfoldable pub get_nonce_authority : K → Action W (Option (NonceAuthority K))
  get_nonce_authority multisig_address = do
    nonce_account ← attempt (derive_nonce_account w multisig_address)
    answer ← chain.get_account_info nonce_account
    attempt (authority_of nonce_account answer)

  -- The answer for what `getNonceAuthority` found.
  unfoldable pub judge_nonce : K → Option (NonceAuthority K) → NonceRace K
  judge_nonce expected_authority none = unprovisioned
  judge_nonce expected_authority (some info) =
      if w.equals info.authority expected_authority
      then safe info.nonce_account info.nonce_value
      else raced info.nonce_account info.authority

  unfoldable pub check_nonce_race : K → K → Action W (NonceRace K)
  unfolding get_nonce_authority judge_nonce
  check_nonce_race multisig_address expected_authority = do
    info ← get_nonce_authority multisig_address
    return (judge_nonce expected_authority info)

  unfoldable pub provision : K → K → Action W (Text × K)
  provision multisig_address payer = do
    provisioned ← build_provision_nonce_instruction w chain client multisig_address payer
    signature ←
        chain.send_and_confirm_transaction (provisioned.instruction ∷ []) (payer ∷ [])
          (lit "confirmed")
    return (signature, provisioned.nonce_account)

  unfoldable pub setup_multisig_and_nonce : List K → ℕ → K → K → Action W (SetupResult K)
  unfolding send_v0
  setup_multisig_and_nonce members threshold payer members_alt = do
    attempt (validate_config w members threshold)
    let sorted_members = sort_members w members
    init ←
        build_initialize_multisig_instruction w chain client
          (record { members = sorted_members; threshold = threshold; payer = payer })
    provisioned ← build_provision_nonce_instruction w chain client init.multisig_address payer
    answer ← chain.get_address_lookup_table members_alt
    table ← attempt (
        or_throw
          (lit "ALT not found at "
            ++ (w.to_base58 members_alt ++ lit " — call createMembersAddressLookupTable first"))
          answer)
    signature ← send_v0 payer table (init.instruction ∷ provisioned.instruction ∷ [])
    nonce_state ← chain.get_nonce_and_context provisioned.nonce_account
    nonce_value ← attempt (
        or_throw
          (lit "nonce account "
            ++ (w.to_base58 provisioned.nonce_account ++ lit " did not initialize"))
          nonce_state)
    return (record {
      signature = signature;
      multisig_address = init.multisig_address;
      nonce_account = provisioned.nonce_account;
      nonce_value = nonce_value;
    })
