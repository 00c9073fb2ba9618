-- ===== src/Tests/Setups.antt =====
-- The theorems on the setup, the lookup table and the encoder at inputs in the small cluster.
use solana_multisig.Prelude.{
  ℕ, suc, ◌<◌, ◌≤◌, ◌≡◌, ◌↔◌, refl, List, [], ◌∷◌, some, Text, Result, ok, err, arith, length,
}
use mathlib.Core.List.{Permᴰ}
use solana_multisig.Prelude.Strings.{lit, includes, text_eq}
use solana_multisig.Web3.{Bytes}
use solana_multisig.Numbers.{pos}
use solana_multisig.Members.{
  bytes_le, derive_multisig_address, derive_nonce_account, validate_config, sort_members,
}
use solana_multisig.Client.World.{big_int}
use solana_multisig.Client.Methods.{
  InitializeResult, SetupResult, initialize, setup_multisig_and_nonce, derive_address,
}
use solana_multisig.Client.Idl.{idl_accounts, idl_metas}
use solana_multisig.Client.Setup.{setup_multisig_and_nonce-derived}
use solana_multisig.Client.Started.{initialize-derive_address, initialize-perm}
use solana_multisig.Client.Waits.{Ends, create_members_address_lookup_table-Ends}
use solana_multisig.Client.Tabled.{IsReported, create_members_address_lookup_table-IsReported}
use solana_multisig.Client.Scratch.{patched_encode_lem}
use solana_multisig.Client.Encoder.{IxLayout, patched_encode}
use solana_multisig.Client.Tables.{create_members_address_lookup_table}
use solana_multisig.Client.Builders.{
  build_provision_nonce_instruction, build_initialize_multisig_instruction,
}
use solana_multisig.Tests.World.{toy, toy-IsWeb3}
use solana_multisig.Tests.Chain.{chain, client, chain_at-IsClocked}

abbrev setup_result : SetupResult ℕ
setup_result = record {
  signature = lit "sent";
  multisig_address = 153;
  nonce_account = 172;
  nonce_value = 5 ∷ [];
}

setup_run :
    setup_multisig_and_nonce toy chain client (21 ∷ 20 ∷ []) 2 40 70 0 ≡ (ok setup_result, 2)
unfolding setup_multisig_and_nonce lit validate_config includes text_eq
    build_initialize_multisig_instruction sort_members bytes_le derive_multisig_address idl_metas
    idl_accounts build_provision_nonce_instruction derive_nonce_account
setup_run = refl

setup_example :
    (derive_address toy chain client (21 ∷ 20 ∷ []) 2 ≡ ok 153)
    × (derive_nonce_account toy 153 ≡ ok 172)
    × ((before : ℕ) × (chain.get_nonce_and_context 172 before ≡ (ok (some (5 ∷ [])), 2)))
setup_example =
    setup_multisig_and_nonce-derived toy toy-IsWeb3 chain client (21 ∷ 20 ∷ []) 2 40 70 0 2
      setup_result setup_run

abbrev initialize_result : InitializeResult ℕ
initialize_result = record { signature = lit "sent"; multisig_address = 153; bump = 255 }

initialize_run : initialize toy chain client (21 ∷ 20 ∷ []) 2 40 70 0 ≡ (ok initialize_result, 2)
unfolding initialize lit validate_config includes text_eq derive_multisig_address idl_metas
    idl_accounts bytes_le
initialize_run = refl

initialize_address_example :
    (derive_address toy chain client (21 ∷ 20 ∷ []) 2 ≡ ok 153)
    × (derive_multisig_address toy (21 ∷ 20 ∷ []) 2 100 ≡ ok (153, 255))
initialize_address_example =
    initialize-derive_address toy toy-IsWeb3 chain client (21 ∷ 20 ∷ []) 2 40 70 0 2
      initialize_result initialize_run

abbrev both_members : List ℕ
both_members = 20 ∷ 21 ∷ []

abbrev members_swapped : List ℕ
members_swapped = 21 ∷ 20 ∷ []

both_valid : validate_config toy both_members 2 ≡ ok tt
unfolding validate_config includes text_eq
both_valid = refl

swapped_valid : validate_config toy members_swapped 2 ≡ ok tt
unfolding validate_config includes text_eq
swapped_valid = refl

initialize_order_example :
    initialize toy chain client members_swapped 2 40 70 0
    ≡ initialize toy chain client both_members 2 40 70 0
initialize_order_example =
    initialize-perm toy toy-IsWeb3 chain client 2 40 70 (Permᴰ.swap refl refl) swapped_valid
      both_valid 0

loops_example : Ends (create_members_address_lookup_table toy chain client 51 both_members 40 0)
loops_example =
    create_members_address_lookup_table-Ends toy chain client (λ time. time) (λ time. time) 1
      (chain_at-IsClocked toy (big_int (pos 6))) 50 both_members 40 0 (omega arith) (omega arith)

table_run :
    create_members_address_lookup_table toy chain client 3 both_members 40 0 ≡ (ok (some 70), 201)
unfolding create_members_address_lookup_table sort_members bytes_le
table_run = refl

table_example :
    (slot : ℕ) × ((chain.get_slot (lit "finalized") 0).0 ≡ ok slot)
    × ((chain.create_lookup_table 40 40 slot).1 ≡ 70)
    × IsReported chain 70 (suc (length both_members)) 201
table_example =
    create_members_address_lookup_table-IsReported toy toy-IsWeb3 chain client 3 both_members 40 70
      0 201 table_run

-- A layout of one byte.
abbrev encode_byte : ℕ → Bytes → Result (Bytes × ℕ)
encode_byte byte [] = err (lit "encoding overruns Buffer")
encode_byte byte (b ∷ rest) = ok (byte ∷ rest, 1)

abbrev byte_layout : IxLayout ℕ
byte_layout = record { discriminator = 1 ∷ 2 ∷ []; encode = encode_byte }

byte-overruns :
    (byte : ℕ) (buffer : Bytes)
    → length buffer < 1
    → (message : Text) × (encode_byte byte buffer ≡ err message)
byte-overruns byte [] h = (lit "encoding overruns Buffer", refl)
byte-overruns byte (b ∷ rest) h = absurd (omega arith)

byte-writes :
    (byte : ℕ) (buffer : Bytes)
    → 1 ≤ length buffer
    → (rest : Bytes) × (encode_byte byte buffer ≡ ok (byte ∷ rest, 1))
byte-writes byte [] h = absurd (omega arith)
byte-writes byte (b ∷ rest) h = (rest, refl)

abbrev encoded : Bytes
encoded = 1 ∷ 2 ∷ 7 ∷ []

encode_example :
    (patched_encode (λ name. some byte_layout) 2000 (lit "approve") 7 ≡ ok encoded)
    ↔ ((1 ≤ 2000) × (encoded ≡ encoded))
encode_example =
    patched_encode_lem (λ name. some byte_layout) 2000 (lit "approve") 7 byte_layout
      (λ byte. byte ∷ []) encoded refl (record { writes = byte-writes; overruns = byte-overruns })
