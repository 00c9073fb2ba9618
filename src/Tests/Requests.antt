-- ===== src/Tests/Requests.antt =====
-- The payment as a caller asks for it, at the theorem on requests.
use solana_multisig.Prelude.{
  ℕ, suc, ◌≤◌, ◌≡◌, refl, [], ◌∷◌, ◌++◌, none, some, ok, arith, length, get_elem?,
}
use solana_multisig.Prelude.Strings.{lit}
use solana_multisig.Bytes.LittleEndian.{le_bytes}
use solana_multisig.Message.Layout.{encode_message}
use solana_multisig.Numbers.{pos}
use solana_multisig.Build.Resolves.{CompileEach}
use solana_multisig.Proposal.{derive_transaction_pda}
use solana_multisig.Bundle.{ParsedBundle, ParsedCreate, empty_bundle, parse_outer}
use solana_multisig.Client.World.{anchor_bn, big_int}
use solana_multisig.Client.Index.{to_big_int}
use solana_multisig.Client.Builders.{
  CreateOpts, Created, new_client, build_create_transaction_instruction,
}
use solana_multisig.Client.Decoded.{IsOrdinary}
use solana_multisig.Client.Proposed.{build_create_transaction_instruction-CompileEach}
use solana_multisig.Tests.World.{toy, toy-IsWeb3, payment, pay_instruction, payment_built}
use solana_multisig.Tests.Chain.{chain, chain_at-IsAnchor}

abbrev opts : CreateOpts ℕ
opts = record {
  multisig_address = 9;
  current_transaction_index = anchor_bn 6;
  vault_index = 0;
  message = payment;
  creator = 20;
  payer = none;
}

abbrev started : ParsedBundle ℕ
started = empty_bundle toy 100 (some 40)

index_six : to_big_int opts.current_transaction_index ≡ ok (pos 6)
unfolding to_big_int
index_six = refl

seven_derived : derive_transaction_pda toy 9 7 100 ≡ ok 182
unfolding derive_transaction_pda lit le_bytes
seven_derived = refl

short : suc (length (encode_message toy payment)) ≤ 2000
unfolding le_bytes
short = omega arith

toy-IsOrdinary : IsOrdinary toy 100
toy-IsOrdinary = record {
  not_system = λ e. omega arith;
  not_compute_budget = λ e. omega arith;
  not_ata = λ e. omega arith;
}

request_example :
    (created : Created ℕ) × (entry : ParsedCreate ℕ) × (build_create_transaction_instruction toy
        chain
        (new_client toy 100 none)
        opts
        0
      ≡ (ok created, 0))
    × (parse_outer toy 100 started 0 created.instruction
        ≡ ok (record started { creates = started.creates ++ (entry ∷ []) }))
    × CompileEach entry.inner.account_keys (pay_instruction ∷ []) entry.inner.instructions
    × (get_elem? entry.inner.account_keys 0 ≡ some 53)
request_example =
    build_create_transaction_instruction-CompileEach toy toy-IsWeb3 chain
      (chain_at-IsAnchor toy (big_int (pos 6))) 100 none 53 (pay_instruction ∷ []) opts 6 182 0
      started 0 toy-IsOrdinary payment_built (omega arith) (omega arith)
      ((omega arith, omega arith), tt) index_six (omega arith) seven_derived (omega arith) short
