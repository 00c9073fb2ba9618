-- ===== src/Tests.antt =====
-- Runs in the small world of `Tests.World`, and the theorems at these inputs.
pub mod World
pub mod Basics
pub mod Chain
pub mod Client
pub mod Sends
pub mod Setups
pub mod Bundles
pub mod Flags
pub mod Requests
pub mod Owners
use solana_multisig.Prelude.{
  get_elem?, ℕ, ◌≡◌, ◌≤◌, ◌<◌, ◌^◌, ◌↔◌, refl, Bool, true, false, List, [], ◌∷◌, ◌++◌, Option, none,
  some, Text, Result, ok, err, arith, ltb, ◌==◌, All, length,
}
use mathlib.Core.List.{Permᴰ, Perm}
use solana_multisig.Prelude.Strings.{lit, text_eq, includes, decimal, is_numeral, numeral}
use solana_multisig.Web3.{Bytes, TransactionInstruction}
use solana_multisig.Bytes.{bytes_equal, read_u32_le, read_u64_le, byte_at}
use solana_multisig.Bytes.LittleEndian.{le_bytes, read_u64_le-le_bytes, bytes_equal_iff}
use solana_multisig.Reader.{u8, u32, u64, bool, bytes, repeat, pubkey}
use solana_multisig.Reader.Reads.{Reads}
use solana_multisig.Message.{
  InnerMessage, TransactionMessage, parse_instruction, parse_transaction_message,
  parse_create_transaction_data,
}
use solana_multisig.Message.Layout.{
  Fits, encode_message, inner_of, Reads-parse_transaction_message,
  parse_create_transaction_data-encode,
}
use solana_multisig.Numbers.{ℤ, pos, Quantity, bigint, to_bigint_or_null, quantity_text, amount_of}
use solana_multisig.Classify.{
  InnerClassification, Recipient, native_recipient, classify_inner_message, classify_loop,
  classify_step, classify_try, classify_native,
}
use solana_multisig.Classify.Sound.{IsExact, classify_inner_message-IsExact}
use solana_multisig.FundFlows.{
  FundFlowExpectation, FundFlowView, ExpectedPayload, compare_fund_flows, max_fee,
}
use solana_multisig.FundFlows.Sound.{FlowsMatch, compare_fund_flows-FlowsMatch}
use solana_multisig.Decode.{
  DecodeOptions, CreateBundle, DecodedBundle, create, decode_vault_solana_transaction,
}
use solana_multisig.Compare.{BundleExpectation, compare_decoded_to_expected}
use solana_multisig.Bundle.{parse_bundle, read_transaction_index_arg}
use solana_multisig.Compare.Accepts.{CreateAccepted, Accepted, compare_decoded_to_expected-Accepted}
use solana_multisig.Proposal.{
  Proposal, ProposalExpectation, ProposalOptions, proposal, base58, fetch_and_decode_proposal,
  compare_proposal, decode_vault_transaction_account, compare_proposal_to_expected,
  derive_vault_pda,
}
use solana_multisig.Proposal.Accepts.{
  IsFetched, ProposalAccepted, fetch_and_decode_proposal-IsFetched,
  compare_proposal-ProposalAccepted,
}
use solana_multisig.ApproveOnly.{ApproveOnlyParams, verify_approve_only_transaction}
use solana_multisig.ApproveOnly.Accepts.{IsApproved, verify_approve_only_transaction-IsApproved}
use solana_multisig.Consumer.{verify_consumer_solana_bundle}
use solana_multisig.Consumer.Outer.{
  ConsumerParams, ConsumerExpected, all_distinct, only_create, named_messages,
}
use solana_multisig.Consumer.Accepts.{
  IsConsumerApproved, verify_consumer_solana_bundle-IsConsumerApproved,
}
use solana_multisig.Members.{sort_members, derive_multisig_address, validate_config}
use solana_multisig.Members.Order.{IsSorted, derive_multisig_address-perm}
use solana_multisig.Members.Valid.{IsDistinct, validate_config_iff}
use solana_multisig.Build.{
  build_message_from_instructions, observed, ordered, compile_instructions, compile_instruction,
  account_index, account_indexes_of, find_index, vault_first,
}
use solana_multisig.Build.Resolves.{CompileEach, build_message_from_instructions-CompileEach}
use solana_multisig.Build.Total.{build_message_from_instructions-total}
use solana_multisig.Build.VaultFirst.{build_message_from_instructions-vault}
use solana_multisig.Tests.World.{
  toy, toy-IsWeb3, toy_connection, payment, payment-Fits, pay_instruction, payment_built,
}

abbrev send_params : ConsumerParams
send_params = record {
  multisig_pda = 9 ∷ [];
  members = (20 ∷ []) ∷ (21 ∷ []) ∷ [];
  signer = 20 ∷ [];
  vault_index = none;
  expected = record {
    recipient = 60 ∷ [];
    amount = lit "5";
    token_mint = none;
    token_decimals = none;
  };
  max_fee_lamports = bigint (pos 0);
  expected_fee_payer = some (40 ∷ []);
  max_compute_unit_limit = none;
  max_compute_unit_price_micro_lamports = none;
}

send_accepted : (verify_consumer_solana_bundle toy (0 ∷ []) 100 send_params).accepted ≡ true
unfolding verify_consumer_solana_bundle lit text_eq includes decimal is_numeral numeral bytes_equal
    read_u32_le byte_at u8 u32 bytes repeat pubkey parse_instruction classify_inner_message
    to_bigint_or_null all_distinct derive_vault_pda parse_bundle parse_create_transaction_data
    only_create named_messages compare_fund_flows parse_transaction_message classify_loop
    classify_step classify_try classify_native read_u64_le max_fee quantity_text
send_accepted = refl

verify_consumer_solana_bundle_example : IsConsumerApproved toy (0 ∷ []) 100 send_params
verify_consumer_solana_bundle_example =
    verify_consumer_solana_bundle-IsConsumerApproved toy (0 ∷ []) 100 send_params send_accepted

abbrev payment_flows : FundFlowExpectation
payment_flows = record {
  recipients = record { address = 60 ∷ []; amount = lit "5" } ∷ [];
  token_mint = none;
  token_decimals = none;
  max_fee_lamports = some (bigint (pos 0));
  expected_fee_payer = some (40 ∷ []);
}

abbrev payment_payload : ExpectedPayload
payment_payload = record {
  flows = payment_flows;
  expected_transaction_pda = some (182 ∷ []);
  expected_vault_index = some 0;
  expected_vault_pda = some (53 ∷ []);
}

abbrev proposal_options : ProposalOptions
proposal_options = record {
  fee_payer = some (40 ∷ []);
  allow_memo = false;
  expected_recipient_owner = none;
  expected_mint = none;
  commitment = none;
}

abbrev approve_params : ApproveOnlyParams
approve_params = record {
  serialized_tx_base64 = 1 ∷ [];
  expected = record { payload = payment_payload; expected_multisig_pda = some (some (9 ∷ [])) };
  expected_approver = some (20 ∷ []);
  decode_options = record {
    expected_recipient_owner = none;
    expected_mint = none;
    allow_compute_budget = none;
    allow_memo = false;
  };
  proposal_options = proposal_options;
}

approve_accepted :
    (verify_approve_only_transaction toy toy_connection 100 approve_params).accepted ≡ true
unfolding verify_approve_only_transaction lit text_eq includes decimal is_numeral numeral
    bytes_equal read_u32_le byte_at u8 u32 bytes repeat pubkey parse_instruction
    classify_inner_message to_bigint_or_null decode_vault_solana_transaction
    read_transaction_index_arg compare_decoded_to_expected compare_proposal_to_expected
    fetch_and_decode_proposal decode_vault_transaction_account u64 bool le_bytes derive_vault_pda
    compare_fund_flows parse_bundle parse_transaction_message classify_loop classify_step
    classify_try classify_native read_u64_le max_fee quantity_text
approve_accepted = refl

verify_approve_only_transaction_example :
    IsApproved toy toy-IsWeb3 toy_connection 100 approve_params
verify_approve_only_transaction_example =
    verify_approve_only_transaction-IsApproved toy toy-IsWeb3 toy_connection 100 approve_params
      approve_accepted

abbrev payment_inner : InnerMessage ℕ
payment_inner = inner_of 0 payment

abbrev payment_classified : InnerClassification
payment_classified = record {
  recipients = native_recipient (60 ∷ []) 5 ∷ [];
  fee_lamports = 0;
  unknown_inner_instruction_count = 0;
  memos = [];
}

payment_classifies :
    classify_inner_message toy payment_inner (some (40 ∷ [])) false ≡ ok payment_classified
unfolding lit text_eq includes decimal is_numeral numeral bytes_equal read_u32_le byte_at u8 u32
    bytes repeat pubkey parse_instruction classify_inner_message to_bigint_or_null
    compare_fund_flows parse_transaction_message classify_loop classify_step classify_try
    classify_native read_u64_le max_fee quantity_text
payment_classifies = refl

classify_inner_message_example :
    IsExact toy toy-IsWeb3 payment_inner (some (40 ∷ [])) payment_classified
classify_inner_message_example =
    classify_inner_message-IsExact toy toy-IsWeb3 payment_inner (some (40 ∷ [])) false
      payment_classified payment_classifies refl

abbrev payment_view : FundFlowView
payment_view = record {
  recipients = native_recipient (60 ∷ []) 5 ∷ [];
  fee_lamports = lit "0";
  fee_payer = some (40 ∷ []);
  unknown_inner_instruction_count = 0;
}

payment_flows_match : compare_fund_flows toy payment_view payment_flows ≡ []
unfolding lit text_eq includes decimal is_numeral numeral bytes_equal read_u32_le byte_at u8 u32
    bytes repeat pubkey parse_instruction classify_inner_message to_bigint_or_null
    compare_fund_flows parse_transaction_message classify_loop classify_step classify_try
    classify_native read_u64_le max_fee quantity_text
payment_flows_match = refl

compare_fund_flows_example : FlowsMatch toy payment_view payment_flows
compare_fund_flows_example =
    compare_fund_flows-FlowsMatch toy payment_view payment_flows payment_flows_match

abbrev payment_proposal : Proposal
payment_proposal = record {
  transaction_pda = 182 ∷ [];
  multisig_pda = 9 ∷ [];
  transaction_index = lit "7";
  creator = 20 ∷ [];
  payer = 40 ∷ [];
  vault_index = 0;
  vault_pda = 53 ∷ [];
  executed = false;
  approvals = [];
  sender = 53 ∷ [];
  recipients = native_recipient (60 ∷ []) 5 ∷ [];
  fee_lamports = lit "0";
  fee_payer = some (40 ∷ []);
  unknown_inner_instruction_count = 0;
  memos = [];
}

payment_fetched :
    fetch_and_decode_proposal toy toy_connection (base58 (182 ∷ [])) 100 proposal_options
    ≡ proposal payment_proposal
unfolding fetch_and_decode_proposal lit text_eq includes decimal is_numeral numeral bytes_equal
    read_u32_le byte_at u8 u32 bytes repeat pubkey parse_instruction classify_inner_message
    to_bigint_or_null decode_vault_transaction_account u64 bool le_bytes derive_vault_pda
    parse_transaction_message classify_loop classify_step classify_try classify_native read_u64_le
    max_fee quantity_text
payment_fetched = refl

fetch_and_decode_proposal_example :
    IsFetched toy toy_connection 100 proposal_options (182 ∷ []) payment_proposal
fetch_and_decode_proposal_example =
    fetch_and_decode_proposal-IsFetched toy toy-IsWeb3 toy_connection 100 (182 ∷ [])
      proposal_options payment_proposal payment_fetched

payment_proposal_fits : compare_proposal toy payment_proposal approve_params.expected ≡ []
unfolding compare_proposal lit text_eq includes decimal is_numeral numeral bytes_equal read_u32_le
    byte_at u8 u32 bytes repeat pubkey parse_instruction classify_inner_message to_bigint_or_null
    compare_fund_flows parse_transaction_message classify_loop classify_step classify_try
    classify_native read_u64_le max_fee quantity_text
payment_proposal_fits = refl

compare_proposal_example : ProposalAccepted toy payment_proposal approve_params.expected
compare_proposal_example =
    compare_proposal-ProposalAccepted toy payment_proposal approve_params.expected
      payment_proposal_fits

abbrev payment_create : DecodedBundle
payment_create = create (record {
  vault_index = 0;
  multisig_pda = 9 ∷ [];
  transaction_pda = 182 ∷ [];
  creator = 20 ∷ [];
  sender = 53 ∷ [];
  recipients = native_recipient (60 ∷ []) 5 ∷ [];
  fee_lamports = lit "0";
  fee_payer = some (40 ∷ []);
  approvers = (20 ∷ []) ∷ [];
  approve_targets = (182 ∷ []) ∷ [];
  execute_targets = [];
  unknown_inner_instruction_count = 0;
  unknown_outer_programs = [];
  memos = [];
})

abbrev payment_expectation : BundleExpectation
payment_expectation = record {
  payload = payment_payload;
  expected_multisig_pda = some (9 ∷ []);
  approve_only_verified_on_chain = false;
}

create_accepted :
    (compare_decoded_to_expected toy payment_create payment_expectation).accepted ≡ true
unfolding compare_decoded_to_expected compare_fund_flows lit text_eq decimal is_numeral numeral
    to_bigint_or_null max_fee quantity_text
create_accepted = refl

compare_decoded_to_expected_example : Accepted toy payment_create payment_expectation
compare_decoded_to_expected_example =
    compare_decoded_to_expected-Accepted toy payment_create payment_expectation create_accepted
