-- ===== src/Tests/Basics.antt =====
-- The theorems on messages, members, built messages and numbers, at inputs in the small world.
use solana_multisig.Prelude.{
  get_elem?, ℕ, ◌≡◌, ◌≤◌, ◌↔◌, refl, true, List, [], ◌∷◌, ◌++◌, some, ok, arith, length,
}
use mathlib.Core.List.{Permᴰ}
use solana_multisig.Web3.{Bytes}
use solana_multisig.Bytes.{bytes_equal, read_u64_le}
use solana_multisig.Bytes.LittleEndian.{le_bytes, read_u64_le-le_bytes, bytes_equal_iff}
use solana_multisig.Reader.Reads.{Reads}
use solana_multisig.Message.{
  TransactionMessage, parse_transaction_message, parse_create_transaction_data,
}
use solana_multisig.Message.Layout.{
  encode_message, inner_of, Reads-parse_transaction_message, parse_create_transaction_data-encode,
}
use solana_multisig.Numbers.{Quantity, string, to_bigint_or_null}
use solana_multisig.Numbers.Amounts.{IsAmount, to_bigint_or_null_iff}
use solana_multisig.Members.{derive_multisig_address, validate_config}
use solana_multisig.Members.Order.{derive_multisig_address-perm}
use solana_multisig.Members.Valid.{IsDistinct, validate_config_iff}
use solana_multisig.Build.{build_message_from_instructions}
use solana_multisig.Build.Resolves.{CompileEach, build_message_from_instructions-CompileEach}
use solana_multisig.Build.Total.{build_message_from_instructions-total}
use solana_multisig.Build.VaultFirst.{build_message_from_instructions-vault}
use solana_multisig.Tests.World.{
  toy, toy-IsWeb3, payment, payment-Fits, pay_instruction, payment_built,
}

parse_transaction_message_example :
    Reads (parse_transaction_message toy 0) (encode_message toy payment) (inner_of 0 payment)
parse_transaction_message_example =
    Reads-parse_transaction_message toy toy-IsWeb3 0 payment payment-Fits

abbrev discriminator : Bytes
discriminator = 227 ∷ 193 ∷ 53 ∷ 239 ∷ 55 ∷ 126 ∷ 112 ∷ 105 ∷ []

parse_create_transaction_data_example :
    parse_create_transaction_data toy
      (discriminator ++ ((3 ∷ []) ++ encode_message toy payment) ++ (1 ∷ 2 ∷ []))
    ≡ ok (inner_of 3 payment)
parse_create_transaction_data_example =
    parse_create_transaction_data-encode toy toy-IsWeb3 discriminator 3 payment (1 ∷ 2 ∷ []) refl
      payment-Fits

read_u64_le_example :
    read_u64_le ((1 ∷ []) ++ (le_bytes 8 1000 ++ (2 ∷ []))) (length {A = ℕ} (1 ∷ [])) ≡ ok 1000
read_u64_le_example = read_u64_le-le_bytes (1 ∷ []) (2 ∷ []) 1000 (omega arith)

abbrev one_two : Bytes
one_two = 1 ∷ 2 ∷ []

abbrev one_three : Bytes
one_three = 1 ∷ 3 ∷ []

bytes_equal_example : (bytes_equal one_two one_three ≡ true) ↔ (one_two ≡ one_three)
bytes_equal_example = bytes_equal_iff one_two one_three

amount_of_example :
    (to_bigint_or_null (some (string (48 ∷ 49 ∷ 50 ∷ []))) ≡ some 12)
    ↔ ((q : Quantity) × (some (string (48 ∷ 49 ∷ 50 ∷ [])) ≡ some q) × IsAmount q 12)
amount_of_example = to_bigint_or_null_iff (some (string (48 ∷ 49 ∷ 50 ∷ []))) 12

derive_multisig_address_example :
    derive_multisig_address toy (21 ∷ 20 ∷ []) 2 100
    ≡ derive_multisig_address toy (20 ∷ 21 ∷ []) 2 100
derive_multisig_address_example =
    derive_multisig_address-perm toy toy-IsWeb3 2 100 (Permᴰ.swap refl refl)

abbrev two_members : List ℕ
two_members = 20 ∷ 21 ∷ []

validate_config_example :
    (validate_config toy two_members 2 ≡ ok tt)
    ↔ ((1 ≤ 2) × (2 ≤ length two_members) × IsDistinct two_members)
validate_config_example = validate_config_iff toy toy-IsWeb3 two_members 2

build_resolves_example :
    CompileEach payment.account_keys (pay_instruction ∷ []) payment.instructions
build_resolves_example =
    build_message_from_instructions-CompileEach toy toy-IsWeb3 53 (pay_instruction ∷ []) payment
      payment_built (omega arith)

build_total_example :
    (m : TransactionMessage ℕ) × (build_message_from_instructions toy 53 (pay_instruction ∷ [])
      ≡ ok m)
build_total_example = build_message_from_instructions-total toy toy-IsWeb3 53 (pay_instruction ∷ [])

build_vault_example :
    (get_elem? payment.account_keys 0 ≡ some 53)
    × (1 ≤ payment.num_writable_signers)
    × (payment.num_writable_signers ≤ payment.num_signers)
build_vault_example =
    build_message_from_instructions-vault toy toy-IsWeb3 53 (pay_instruction ∷ []) payment
      payment_built
