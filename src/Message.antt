-- ===== src/Message.antt =====
-- The borsh `TransactionMessage`: its types (sdk/src/types.ts and the inner types of
-- sdk/src/decoder.ts) and the parsers `parseTransactionMessage` and `parseCreateTransactionData`.
pub mod Layout
use solana_multisig.Prelude.{ℕ, zero, suc, List, [], ◌∷◌, Result, ok}
use solana_multisig.Prelude
use solana_multisig.Web3.{Bytes, Web3}
use solana_multisig.Reader.{ByteReader, Reader, ◌>>=◌, ◌>>◌, return, u8, u32, bytes, pubkey, repeat}

-- `CompiledInstruction` of types.ts and `InnerCompiledInstruction` of decoder.ts.
pub record CompiledInstruction : Type 0 where
  pub program_id_index : ℕ
  pub account_indexes : List ℕ
  pub payload : Bytes

pub record MessageAddressTableLookup (K : Type 0) : Type 0 where
  pub account_key : K
  pub writable_indexes : List ℕ
  pub readonly_indexes : List ℕ

pub record TransactionMessage (K : Type 0) : Type 0 where
  pub num_signers : ℕ
  pub num_writable_signers : ℕ
  pub num_writable_non_signers : ℕ
  pub account_keys : List K
  pub instructions : List CompiledInstruction
  pub address_table_lookups : List (MessageAddressTableLookup K)

pub record InnerMessage (K : Type 0) : Type 0 where
  pub vault_index : ℕ
  pub account_keys : List K
  pub instructions : List CompiledInstruction
  pub address_table_lookup_count : ℕ

-- A byte string with its length in front.
unfoldable pub sized_bytes : Reader Bytes
sized_bytes = do n ← u32; bytes n

-- One round of the loop over instructions.
unfoldable pub parse_instruction : Reader CompiledInstruction
unfolding sized_bytes
parse_instruction = do
  program_id_index ← u8
  account_indexes ← sized_bytes
  payload ← sized_bytes
  return (record {
    program_id_index = program_id_index;
    account_indexes = account_indexes;
    payload = payload;
  })

-- One round of the loop over address table lookups, whose values are dropped.
unfoldable pub skip_lookup : Reader (Unit {0})
unfolding sized_bytes
skip_lookup = do bytes 32; sized_bytes; sized_bytes; return tt

module _ {K : Type 0} (w : Web3 K) where
  unfoldable pub parse_transaction_message : ℕ → Reader (InnerMessage K)
  parse_transaction_message vault_index = do
    u8
    u8
    u8
    account_key_count ← u32
    account_keys ← repeat account_key_count (pubkey w)
    instruction_count ← u32
    instructions ← repeat instruction_count parse_instruction
    address_table_lookup_count ← u32
    repeat address_table_lookup_count skip_lookup
    return (record {
      vault_index = vault_index;
      account_keys = account_keys;
      instructions = instructions;
      address_table_lookup_count = address_table_lookup_count;
    })

  -- The reads of `parseCreateTransactionData`: the discriminator, matched by the caller, is dropped.
  unfoldable pub create_transaction_reader : Reader (InnerMessage K)
  unfolding parse_transaction_message
  create_transaction_reader = do bytes 8; vault_index ← u8; parse_transaction_message vault_index

  unfoldable pub parse_create_transaction_data : Bytes → Result (InnerMessage K)
  unfolding create_transaction_reader
  parse_create_transaction_data raw =
      Prelude.◌>>=◌ (create_transaction_reader (record { buf = raw; offset = 0 })) (λ p. ok p.0)
