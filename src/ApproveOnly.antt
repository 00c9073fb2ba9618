-- ===== src/ApproveOnly.antt =====
-- `verifyApproveOnlyTransaction` of sdk/src/decoder.ts: the whole gate for an approve-only bundle.
pub mod Accepts
use solana_multisig.Prelude.{
  ℕ, Bool, true, false, not, List, [], ◌∷◌, ◌++◌, Option, none, some, Text, if◌then◌else◌, push_if,
}
use solana_multisig.Prelude.Strings.{lit, text_eq, truthy, includes}
use solana_multisig.Web3.{Web3}
use solana_multisig.FundFlows.{FundFlowExpectation, ExpectedPayload}
use solana_multisig.Decode.{
  DecodeOptions, DecodedBundle, ApproveBundle, create, approve, decode_vault_solana_transaction,
}
use solana_multisig.Decode
use solana_multisig.Compare.{
  Verdict, BundleExpectation, compare_decoded_to_expected, is_empty, join,
}
use solana_multisig.Proposal
use solana_multisig.Proposal.{
  Connection, DecodedProposal, Proposal, ProposalExpectation, ProposalOptions, base58, proposal,
  fetch_and_decode_proposal, compare_proposal_to_expected,
}

-- The named parameters, without the connection and the program.
pub record ApproveOnlyParams : Type 0 where
  pub serialized_tx_base64 : Text
  pub expected : ProposalExpectation
  pub expected_approver : Option Text
  pub decode_options : DecodeOptions
  pub proposal_options : ProposalOptions

pub record ApproveOnlyVerdict : Type 0 where
  pub accepted : Bool
  pub mismatches : List Text
  pub decoded : DecodedBundle
  pub proposal : Option DecodedProposal

-- `{...(expectedFeePayer ? { feePayer: expectedFeePayer } : {}), ...(proposalOptions ?? {})}`.
unfoldable pub merged_options : ApproveOnlyParams → ProposalOptions
merged_options params =
    let given = params.proposal_options in
    record given {
      fee_payer = elim given.fee_payer [
        | none ↦ truthy params.expected.payload.flows.expected_fee_payer
        | some payer ↦ some payer
      ];
    }

-- `{...params.expected, expectedTransactionPda: expectedTransactionPda ?? decoded.transactionPda}`.
unfoldable pub bound_expectation : ProposalExpectation → Text → ProposalExpectation
bound_expectation expected target = record expected {
  payload = record (expected.payload) {
    expected_transaction_pda = elim expected.payload.expected_transaction_pda [
      | none ↦ some target
      | some t ↦ some t
    ];
  };
}

-- `...(expectedMultisigPda ? { expectedMultisigPda } : {})`.
abbrev pub flat : Option (Option Text) → Option Text
flat none = none
flat (some t) = truthy t

-- The expectation of the bundle comparison at the end.
unfoldable pub bundle_expectation : ProposalExpectation → Text → Bool → BundleExpectation
bundle_expectation expected target verified = record {
  payload = record {
    flows = record {
      recipients = [];
      token_mint = none;
      token_decimals = none;
      max_fee_lamports = none;
      expected_fee_payer = none;
    };
    expected_transaction_pda = some target;
    expected_vault_index = none;
    expected_vault_pda = none;
  };
  expected_multisig_pda = flat expected.expected_multisig_pda;
  approve_only_verified_on_chain = verified;
}

approver_messages : Option Text → ApproveBundle → List Text
approver_messages expected decoded = elim (truthy expected) [
  | none ↦ []
  | some approver ↦ push_if (not (includes decoded.approvers approver)) (
      lit "the bundle does not approve as "
      ++ (approver ++ (lit " (approvers: " ++ (join decoded.approvers ++ lit ")"))))
]

index_messages : Option Text → Text → List Text
index_messages none stored = []
index_messages (some index) stored = push_if (not (text_eq index stored)) (
    lit "approve transaction_index "
    ++ (index ++ (lit " does not match the proposal's " ++ stored)))

-- The checks between the bundle and the proposal that it targets.
binding_messages : ApproveBundle → DecodedProposal → List Text
unfolding index_messages
binding_messages decoded (Proposal.undecodable e) = []
binding_messages decoded (proposal p) =
    push_if (not (text_eq decoded.multisig_pda p.multisig_pda)) (
      lit "approve names multisig "
      ++ (decoded.multisig_pda ++ (lit ", the proposal belongs to " ++ p.multisig_pda)))
    ++ index_messages decoded.transaction_index p.transaction_index

-- `for (const m of more) if (!mismatches.includes(m)) mismatches.push(m)`.
unfoldable pub push_new : List Text → List Text → List Text
push_new mismatches [] = mismatches
push_new mismatches (m ∷ more) =
    push_new (if includes mismatches m then mismatches else mismatches ++ (m ∷ [])) more

wrong_kind : Text → DecodedBundle → ApproveOnlyVerdict
wrong_kind message decoded = record {
  accepted = false;
  mismatches = message ∷ [];
  decoded = decoded;
  proposal = none;
}

module _ {K : Type 0} (w : Web3 K) (connection : Connection K) (program_id : K) where
  -- The part behind the test of the bundle's kind.
  unfoldable pub verify_approve : ApproveOnlyParams → ApproveBundle → ApproveOnlyVerdict
  unfolding approver_messages binding_messages push_new merged_options bound_expectation
      bundle_expectation
  verify_approve params decoded =
      let fetched =
        fetch_and_decode_proposal w connection (base58 decoded.transaction_pda) program_id
          (merged_options params) in
      let compared =
        compare_proposal_to_expected w fetched
          (bound_expectation params.expected decoded.transaction_pda) in
      let bundle =
        compare_decoded_to_expected w (approve decoded)
          (bundle_expectation params.expected decoded.transaction_pda compared.accepted) in
      let before =
        approver_messages params.expected_approver decoded
        ++ (compared.mismatches ++ binding_messages decoded fetched) in
      let mismatches = push_new before bundle.mismatches in
      record {
        accepted = is_empty mismatches;
        mismatches = mismatches;
        decoded = approve decoded;
        proposal = some fetched;
      }

  verify_decoded : ApproveOnlyParams → DecodedBundle → ApproveOnlyVerdict
  unfolding wrong_kind verify_approve
  verify_decoded params (Decode.undecodable e) =
      wrong_kind (lit "transaction bytes are undecodable: " ++ e) (Decode.undecodable e)
  verify_decoded params (create c) =
      wrong_kind (lit "expected an approve-only transaction, got kind 'create'") (create c)
  verify_decoded params (approve decoded) = verify_approve params decoded

  unfoldable pub verify_approve_only_transaction : ApproveOnlyParams → ApproveOnlyVerdict
  unfolding verify_decoded
  verify_approve_only_transaction params = verify_decoded params (
      decode_vault_solana_transaction w params.serialized_tx_base64 program_id
        params.decode_options)
