-- ===== src/Tests/Client.antt =====
-- The theorems on the client at inputs in the small cluster of `Tests.Chain`.
use solana_multisig.Prelude.{
  ℕ, suc, ◌≤◌, ◌≡◌, ◌↔◌, refl, List, [], ◌∷◌, ◌++◌, none, some, ok, arith, length, ◌>>=◌,
}
use solana_multisig.Prelude.Strings.{lit, decimal, numeral}
use solana_multisig.Web3.{TransactionInstruction}
use solana_multisig.Message.Layout.{encode_message}
use solana_multisig.Bytes.LittleEndian.{le_bytes}
use solana_multisig.Numbers.{pos}
use solana_multisig.Proposal.{derive_transaction_pda}
use solana_multisig.Client.World.{World, JsIndex, big_int, anchor_bn, js_string, MultisigAccount}
use solana_multisig.Client.Index.{
  index_text, js_plus_one, to_big_int, transaction_address, predict_next_transaction_pda,
}
use solana_multisig.Client.Builders.{new_client, CreateOpts, ProposalOpts, Created}
use solana_multisig.Client.Methods.{
  CreateTransactionResult, safe, get_multisig, create_transaction_from_message, check_nonce_race,
}
use solana_multisig.Client.Created.{create_transaction_from_message-skips}
use solana_multisig.Client.Canonical.{predict_next_transaction_pda-canonical}
use solana_multisig.Client.Decoded.{IsOrdinary, build_create_transaction_instruction-parsed}
use solana_multisig.Client.Built.{create_entry, proposal_entry}
use solana_multisig.Client.Bundled.{build_approve_transaction_instruction-parsed}
use solana_multisig.Client.Nonce.{NonceHeld, check_nonce_race-safe}
use solana_multisig.Client.Builders.{
  build_create_transaction_instruction, build_approve_transaction_instruction,
}
use solana_multisig.Bundle.{
  ParsedBundle, empty_bundle, parse_outer, read_transaction_index_arg,
  approve_transaction_discriminator,
}
use solana_multisig.Tests.World.{toy, toy-IsWeb3, payment, payment-IsEncodable}
use solana_multisig.Tests.Chain.{chain, client, chain_at, chain_at-IsAnchor}

abbrev anchor_chain : World ℕ ℕ (List (TransactionInstruction ℕ))
anchor_chain = chain_at toy (anchor_bn 6)

abbrev fetched_account : JsIndex → MultisigAccount ℕ
fetched_account index = record {
  members = 20 ∷ 21 ∷ [];
  threshold = 2;
  transaction_index = index;
  bump = 255;
}

abbrev skipped_result : CreateTransactionResult ℕ
skipped_result = record {
  signature = lit "sent";
  transaction_address = 236;
  transaction_index = js_string (lit "61");
}

skips_run :
    create_transaction_from_message toy anchor_chain client 9 0 payment 20 none 0
    ≡ (ok skipped_result, 1)
unfolding create_transaction_from_message js_plus_one index_text transaction_address lit
    get_multisig le_bytes decimal numeral
skips_run = refl

create_skips_example :
    (js_string (lit "61") ≡ js_string (decimal 6 ++ lit "1"))
    × (derive_transaction_pda toy 9 61 100 ≡ ok 236)
create_skips_example =
    create_transaction_from_message-skips toy anchor_chain client 9 0 payment 20 none
      (chain_at-IsAnchor toy (anchor_bn 6)) 0 1 (fetched_account (anchor_bn 6)) skipped_result 6
      refl refl (omega arith) skips_run

six : to_big_int (anchor_bn 6) ≡ ok (pos 6)
unfolding to_big_int
six = refl

predict_example :
    predict_next_transaction_pda toy chain 100 9 (anchor_bn 6)
    ≡ (derive_transaction_pda toy 9 7 100 >>= λ address. ok (address, pos 7))
predict_example =
    predict_next_transaction_pda-canonical toy chain (chain_at-IsAnchor toy (big_int (pos 6))) 100 9
      (anchor_bn 6) 6 six (omega arith)

seven_derived : derive_transaction_pda toy 9 7 100 ≡ ok 182
unfolding derive_transaction_pda lit le_bytes
seven_derived = refl

toy-IsOrdinary : IsOrdinary toy 100
toy-IsOrdinary = record {
  not_system = λ e. omega arith;
  not_compute_budget = λ e. omega arith;
  not_ata = λ e. omega arith;
}

abbrev create_opts : CreateOpts ℕ
create_opts = record {
  multisig_address = 9;
  current_transaction_index = anchor_bn 6;
  vault_index = 0;
  message = payment;
  creator = 20;
  payer = some 40;
}

short : suc (length (encode_message toy payment)) ≤ 2000
unfolding le_bytes
short = omega arith

abbrev started : ParsedBundle ℕ
started = empty_bundle toy 100 (some 40)

build_create_example :
    (created : Created ℕ) × (build_create_transaction_instruction toy chain
        (new_client toy 100 none)
        create_opts
        0
      ≡ (ok created, 0))
    × (created.transaction_address ≡ 182)
    × (created.transaction_index ≡ pos 7)
    × (parse_outer toy 100 started 0 created.instruction
        ≡ ok (record started {
          creates = started.creates ++ (create_entry toy 0 create_opts 182 ∷ []);
        }))
build_create_example =
    build_create_transaction_instruction-parsed toy toy-IsWeb3 chain
      (chain_at-IsAnchor toy (big_int (pos 6))) 100 none create_opts 6 182 0 started 0
      toy-IsOrdinary six (omega arith) seven_derived (omega arith) payment-IsEncodable short

abbrev approve_opts : ProposalOpts ℕ
approve_opts = record {
  multisig_address = 9;
  transaction_address = 182;
  transaction_index = pos 7;
  signer = 20;
}

build_approve_example :
    (built : TransactionInstruction ℕ) × (build_approve_transaction_instruction toy chain
        (new_client toy 100 none)
        approve_opts
        0
      ≡ (ok built, 0))
    × (parse_outer toy 100 started 1 built
        ≡ ok (record started {
          approves =
              started.approves
              ++ (proposal_entry 1 approve_transaction_discriminator approve_opts 7 ∷ []);
        }))
    × (read_transaction_index_arg built.payload ≡ ok (some 7))
build_approve_example =
    build_approve_transaction_instruction-parsed toy toy-IsWeb3 chain
      (chain_at-IsAnchor toy (big_int (pos 6))) 100 none approve_opts 7 0 started 1 toy-IsOrdinary
      refl (omega arith)

nonce_example :
    check_nonce_race toy chain client 9 40 0 ≡ (ok (safe 28 (5 ∷ [])), 0)
    ↔ NonceHeld toy chain 9 0 0
        (record { nonce_account = 28; authority = 40; nonce_value = 5 ∷ [] })
nonce_example = check_nonce_race-safe toy toy-IsWeb3 chain client 9 40 28 (5 ∷ []) 0 0
