-- ===== src/Client/Idl.antt =====
-- What Anchor makes of a call by the interface description of the program
-- (sdk/src/idl/solana_multisig.json): the keys in the order of the accounts, with their flags, and the
-- discriminator with the borsh layout of the arguments.
use solana_multisig.Prelude.{
  ◌^◌, ◌≤◌, ◌<◌, ◌≡◌, List, [], ◌∷◌, ◌++◌, Option, none, some, Bool, true, false, Text, ok, length,
  if◌then◌else◌,
}
use solana_multisig.Prelude.Strings.{lit, text_eq, is_numeral, numeral}
use solana_multisig.Web3.{Bytes, Web3, AccountMeta}
use solana_multisig.Bytes.LittleEndian.{le_bytes}
use solana_multisig.Message.Layout.{encode_message, IsEncodable}
use solana_multisig.Bundle.{
  create_transaction_discriminator, approve_transaction_discriminator,
  execute_transaction_discriminator, close_transaction_discriminator,
}
use solana_multisig.Client.World.{
  World, Accounts, Method, initialize_multisig, create_transaction, approve_transaction,
  execute_transaction, close_transaction, provision_nonce, Call,
}

-- An account of an instruction: its name in camel case, and the flags "writable" and "signer".
pub record IdlAccount : Type 0 where
  pub name : Text
  pub writable : Bool
  pub signer : Bool

abbrev idl_account : Text → Bool → Bool → IdlAccount
idl_account name writable signer = record { name = name; writable = writable; signer = signer }

unfoldable pub idl_accounts : {K : Type 0} → Method K → List IdlAccount
idl_accounts (initialize_multisig hash threshold count) =
    idl_account (lit "multisig") true false
    ∷ idl_account (lit "payer") true true
    ∷ idl_account (lit "systemProgram") false false
    ∷ []
idl_accounts (create_transaction vault_index message) =
    idl_account (lit "multisig") true false
    ∷ idl_account (lit "transaction") true false
    ∷ idl_account (lit "creator") false true
    ∷ idl_account (lit "payer") true true
    ∷ idl_account (lit "systemProgram") false false
    ∷ []
idl_accounts (approve_transaction index) =
    idl_account (lit "multisig") false false
    ∷ idl_account (lit "transaction") true false
    ∷ idl_account (lit "member") false true
    ∷ []
idl_accounts (execute_transaction index) =
    idl_account (lit "multisig") false false
    ∷ idl_account (lit "transaction") true false
    ∷ idl_account (lit "executor") false true
    ∷ []
idl_accounts (close_transaction index) =
    idl_account (lit "multisig") false false
    ∷ idl_account (lit "transaction") true false
    ∷ idl_account (lit "payer") true true
    ∷ []
idl_accounts provision_nonce =
    idl_account (lit "multisig") false false
    ∷ idl_account (lit "nonceAccount") true false
    ∷ idl_account (lit "payer") true true
    ∷ idl_account (lit "recentBlockhashes") false false
    ∷ idl_account (lit "rent") false false
    ∷ idl_account (lit "systemProgram") false false
    ∷ []

unfoldable pub idl_discriminator : {K : Type 0} → Method K → Bytes
idl_discriminator (initialize_multisig hash threshold count) =
    220 ∷ 130 ∷ 117 ∷ 21 ∷ 27 ∷ 227 ∷ 78 ∷ 213 ∷ []
idl_discriminator (create_transaction vault_index message) = create_transaction_discriminator
idl_discriminator (approve_transaction index) = approve_transaction_discriminator
idl_discriminator (execute_transaction index) = execute_transaction_discriminator
idl_discriminator (close_transaction index) = close_transaction_discriminator
idl_discriminator provision_nonce = 253 ∷ 126 ∷ 44 ∷ 250 ∷ 91 ∷ 181 ∷ 192 ∷ 62 ∷ []

-- The borsh layout of the arguments.
unfoldable pub idl_arguments : {K : Type 0} → Web3 K → Method K → Bytes
idl_arguments w (initialize_multisig hash threshold count) = hash ++ (threshold ∷ count ∷ [])
idl_arguments w (create_transaction vault_index message) =
    (vault_index ∷ []) ++ encode_message w message
idl_arguments w (approve_transaction index) = le_bytes 8 (numeral index)
idl_arguments w (execute_transaction index) = le_bytes 8 (numeral index)
idl_arguments w (close_transaction index) = le_bytes 8 (numeral index)
idl_arguments w provision_nonce = []

-- The arguments that their types hold: bytes, lengths in four bytes, and indexes in eight.
abbrev pub HasIndex : Text → Type 0
HasIndex index = (is_numeral index ≡ true) × (numeral index < 2 ^ 64)

abbrev pub FitsMethod : {K : Type 0} → Method K → Type 0
FitsMethod (initialize_multisig hash threshold count) =
    (length hash ≡ 32) × (threshold < 256) × (count < 256)
FitsMethod (create_transaction vault_index message) = (vault_index < 256) × IsEncodable message
FitsMethod (approve_transaction index) = HasIndex index
FitsMethod (execute_transaction index) = HasIndex index
FitsMethod (close_transaction index) = HasIndex index
FitsMethod provision_nonce = Unit

abbrev pub account_named : {K : Type 0} → Text → Accounts K → Option K
account_named name [] = none
account_named name ((t, k) ∷ rest) = if text_eq t name then some k else account_named name rest

-- The metas of the named accounts in the order of the description.
unfoldable pub idl_metas :
    {K : Type 0} → List IdlAccount → Accounts K → Option (List (AccountMeta K))
idl_metas [] accounts = some []
idl_metas (a ∷ rest) accounts = elim (account_named a.name accounts) [
  | none ↦ none
  | some k ↦ elim (idl_metas rest accounts) [
    | none ↦ none
    | some metas ↦
        some (record { pubkey = k; is_signer = a.signer; is_writable = a.writable } ∷ metas)
  ]
]

-- The documented behaviour of Anchor and of bn.js: a call whose accounts are all named, and whose
-- arguments fit their types and the scratch buffer of 2000 bytes, becomes the instruction that the
-- description says, addressed to the program of the description, with no change of the world; and a
-- decimal text below 2^64 becomes its eight bytes.
pub record IsAnchor {K W V : Type 0} (w : Web3 K) (chain : World K W V) : Type 0 where
  pub builds :
      (call : Call K) (program : K) (metas : List (AccountMeta K))
      → w.of_base58 call.address ≡ ok program
      → idl_metas (idl_accounts call.method) call.accounts ≡ some metas
      → FitsMethod call.method
      → length (idl_arguments w call.method) ≤ 2000
      → (world : W)
      → chain.instruction call world ≡ (
        ok (record {
          program_id = program;
          keys = metas ++ call.remaining;
          payload = idl_discriminator call.method ++ idl_arguments w call.method;
        }),
        world,
      )
  pub bn_bytes :
      (index : Text) → HasIndex index → chain.bn_le_8 index ≡ ok (le_bytes 8 (numeral index))
