-- ===== src/Message/Layout.antt =====
-- The borsh layout of a message, written out as an encoder, and the parsers on what it writes.
use solana_multisig.Prelude.{
  ℕ, ◌^◌, ◌<◌, ◌≡◌, refl, List, [], ◌∷◌, ◌++◌, ok, length, All, All-map, All-always,
}
use solana_multisig.Web3.{Bytes, Web3, IsWeb3}
use solana_multisig.Bytes.LittleEndian.{le_bytes}
use solana_multisig.Reader.{pubkey, repeat}
use solana_multisig.Reader.Reads.{
  Reads, Reads-bind, Reads-return, Reads-u8, Reads-u32, Reads-bytes, Reads-pubkey, Reads-repeat,
  Reads-repeat_with, encode_all,
}
use solana_multisig.Message.{
  CompiledInstruction, MessageAddressTableLookup, TransactionMessage, InnerMessage, sized_bytes,
  parse_instruction, skip_lookup, parse_transaction_message, create_transaction_reader,
  parse_create_transaction_data,
}

abbrev pub encode_bytes : Bytes → Bytes
encode_bytes b = le_bytes 4 (length b) ++ b

abbrev pub encode_instruction : CompiledInstruction → Bytes
encode_instruction ix =
    (ix.program_id_index ∷ [])
    ++ (encode_bytes ix.account_indexes ++ (encode_bytes ix.payload ++ []))

module _ {K : Type 0} (w : Web3 K) where
  abbrev pub encode_lookup : MessageAddressTableLookup K → Bytes
  encode_lookup l =
      w.to_bytes l.account_key
      ++ (encode_bytes l.writable_indexes ++ (encode_bytes l.readonly_indexes ++ []))

  abbrev pub encode_message : TransactionMessage K → Bytes
  encode_message m =
      (m.num_signers ∷ [])
      ++ ((m.num_writable_signers ∷ [])
          ++ ((m.num_writable_non_signers ∷ [])
              ++ (le_bytes 4 (length m.account_keys)
                  ++ (encode_all w.to_bytes m.account_keys
                      ++ (le_bytes 4 (length m.instructions)
                          ++ (encode_all encode_instruction m.instructions
                              ++ (le_bytes 4 (length m.address_table_lookups)
                                  ++ (encode_all encode_lookup m.address_table_lookups ++ []))))))))

-- Every length fits the four bytes that it is written in.
abbrev pub FitsInstruction : CompiledInstruction → Type 0
FitsInstruction ix = (length ix.account_indexes < 2 ^ 32) × (length ix.payload < 2 ^ 32)

abbrev pub FitsLookup : {K : Type 0} → MessageAddressTableLookup K → Type 0
FitsLookup l = (length l.writable_indexes < 2 ^ 32) × (length l.readonly_indexes < 2 ^ 32)

pub record Fits {K : Type 0} (m : TransactionMessage K) : Type 0 where
  pub keys : length m.account_keys < 2 ^ 32
  pub instructions : length m.instructions < 2 ^ 32
  pub each_instruction : All FitsInstruction m.instructions
  pub lookups : length m.address_table_lookups < 2 ^ 32
  pub each_lookup : All FitsLookup m.address_table_lookups

-- The fields of a message fit their types: lengths in four bytes, and the numbers of type u8 in one.
pub record IsEncodable {K : Type 0} (m : TransactionMessage K) : Type 0 where
  pub lengths : Fits m
  pub signers : m.num_signers < 256
  pub writable_signers : m.num_writable_signers < 256
  pub writable_non_signers : m.num_writable_non_signers < 256
  pub programs : All (λ (ix : CompiledInstruction). ix.program_id_index < 256) m.instructions

-- What the decoder keeps of a message.
abbrev pub inner_of : {K : Type 0} → ℕ → TransactionMessage K → InnerMessage K
inner_of vault_index m = record {
  vault_index = vault_index;
  account_keys = m.account_keys;
  instructions = m.instructions;
  address_table_lookup_count = length m.address_table_lookups;
}

Reads-sized_bytes : (b : Bytes) → length b < 2 ^ 32 → Reads sized_bytes (encode_bytes b) b
unfolding sized_bytes
Reads-sized_bytes b h = Reads-bind _ (Reads-u32 (length b) h) (Reads-bytes b (length b) refl)

Reads-parse_instruction :
    (ix : CompiledInstruction)
    → FitsInstruction ix
    → Reads parse_instruction (encode_instruction ix) ix
unfolding parse_instruction
Reads-parse_instruction ix (h, k) = Reads-bind _ (Reads-u8 ix.program_id_index) (
    Reads-bind _ (Reads-sized_bytes ix.account_indexes h)
      (Reads-bind _ (Reads-sized_bytes ix.payload k) (Reads-return ix)))

module _ {K : Type 0} (w : Web3 K) (laws : IsWeb3 w) where
  Reads-skip_lookup :
      (l : MessageAddressTableLookup K) → FitsLookup l → Reads skip_lookup (encode_lookup w l) tt
  unfolding skip_lookup
  Reads-skip_lookup l (h, k) =
      Reads-bind _ (Reads-bytes (w.to_bytes l.account_key) 32 (laws.length-to_bytes _)) (
        Reads-bind _ (Reads-sized_bytes l.writable_indexes h)
          (Reads-bind _ (Reads-sized_bytes l.readonly_indexes k) (Reads-return tt)))

  Reads-keys :
      (keys : List K) → Reads (repeat (length keys) (pubkey w)) (encode_all w.to_bytes keys) keys
  Reads-keys keys =
      Reads-repeat (pubkey w) w.to_bytes keys (All-always (λ k. Reads-pubkey w laws k) keys)

  -- `parseTransactionMessage` reads a message whose lengths each fit four bytes back from its borsh
  -- layout, wherever it stands, and ends right behind it.
  pub Reads-parse_transaction_message :
      (vault_index : ℕ) (m : TransactionMessage K)
      → Fits m
      → Reads
          (parse_transaction_message w vault_index)
          (encode_message w m)
          (inner_of vault_index m)
  unfolding parse_transaction_message
  Reads-parse_transaction_message vault_index m f = Reads-bind _ (Reads-u8 m.num_signers) (
      Reads-bind _ (Reads-u8 m.num_writable_signers) (
        Reads-bind _ (Reads-u8 m.num_writable_non_signers) (
          Reads-bind _ (Reads-u32 (length m.account_keys) f.keys) (
            Reads-bind _ (Reads-keys m.account_keys) (
              Reads-bind _ (Reads-u32 (length m.instructions) f.instructions) (
                Reads-bind _
                  (Reads-repeat parse_instruction encode_instruction m.instructions
                    (All-map Reads-parse_instruction m.instructions f.each_instruction))
                  (Reads-bind _ (Reads-u32 (length m.address_table_lookups) f.lookups) (
                    Reads-bind _
                      (Reads-repeat_with skip_lookup (encode_lookup w) (λ _. tt)
                        m.address_table_lookups
                        (All-map Reads-skip_lookup m.address_table_lookups f.each_lookup))
                      (Reads-return (inner_of vault_index m))))))))))

  -- `parseCreateTransactionData` reads the vault index and the message back from eight bytes of any
  -- discriminator, the index, the borsh layout of a message whose lengths each fit four bytes, and
  -- whatever follows.
  pub parse_create_transaction_data-encode :
      (disc : Bytes) (vault_index : ℕ) (m : TransactionMessage K) (rest : Bytes)
      → length disc ≡ 8
      → Fits m
      → parse_create_transaction_data w (disc ++ ((vault_index ∷ []) ++ encode_message w m) ++ rest)
        ≡ ok (inner_of vault_index m)
  unfolding parse_create_transaction_data
  parse_create_transaction_data-encode disc vault_index m rest h f = rw (reads.run [] rest)
    where
      reads :
          Reads
            (create_transaction_reader w)
            (disc ++ ((vault_index ∷ []) ++ encode_message w m))
            (inner_of vault_index m)
      reads =
          Reads-bind _ (Reads-bytes disc 8 h)
            (Reads-bind _ (Reads-u8 vault_index) (Reads-parse_transaction_message vault_index m f))
