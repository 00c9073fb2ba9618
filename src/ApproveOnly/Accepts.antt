-- ===== src/ApproveOnly/Accepts.antt =====
-- What `verifyApproveOnlyTransaction` guarantees when it answers `ok: true`.
use solana_multisig.Prelude.{
  some_injective, ok_injective, ap, ◌≡◌, refl, sym, ◌∙◌, true, false, List, [], ◌∷◌, ◌++◌, Option,
  none, some, Text, ◌⊎◌, inl, inr, Bool-cases, append-eq-nil, push_unless-eq-nil, if◌then◌else◌,
}
use solana_multisig.Prelude.Strings.{truthy, includes}
use solana_multisig.Web3.{Web3, IsWeb3}
use solana_multisig.Decode
use solana_multisig.Decode.{
  ApproveBundle, DecodedBundle, create, approve, decode_vault_solana_transaction,
}
use solana_multisig.Classify.Sound.{IsExact, classify_inner_message-IsExact}
use solana_multisig.Compare.{compare_decoded_to_expected}
use solana_multisig.Compare.Accepts.{
  ApproveAccepted, compare_approve-ApproveAccepted, is_empty→eq, text_eq_of_push,
}
use solana_multisig.Proposal
use solana_multisig.Proposal.{
  Connection, Proposal, DecodedProposal, proposal, base58, fetch_and_decode_proposal,
  compare_proposal, compare_proposal_to_expected,
}
use solana_multisig.Proposal.Accepts.{
  ProposalAccepted, compare_proposal-ProposalAccepted, IsFetched,
  fetch_and_decode_proposal-IsFetched,
}
use solana_multisig.ApproveOnly.{
  ApproveOnlyParams, merged_options, bound_expectation, bundle_expectation, approver_messages,
  index_messages, binding_messages, push_new, wrong_kind, verify_approve, verify_decoded,
  verify_approve_only_transaction,
}

includes_nil : (m : Text) → includes [] m ≡ false
unfolding includes
includes_nil m = refl

-- Adding messages leaves none only if there was none and none is added.
push_new-eq-nil : (ms more : List Text) → push_new ms more ≡ [] → (ms ≡ []) × (more ≡ [])
unfolding push_new
push_new-eq-nil ms [] h = (h, refl)
push_new-eq-nil ms (m ∷ more) h =
    let (start, later) = push_new-eq-nil (if includes ms m then ms else ms ++ (m ∷ [])) more h in
    elim (Bool-cases (includes ms m)) [
      | inl old ↦ let e : ms ≡ [] = rw old at start in absurd (cc (rw e at old, includes_nil m))
      | inr new ↦ absurd (cc (append-eq-nil ms (m ∷ []) (rw new at start)).1)
    ]

DecodedProposal-cases :
    (d : DecodedProposal)
    → ((p : Proposal) × (d ≡ proposal p)) ⊎ ((e : Text) × (d ≡ Proposal.undecodable e))
DecodedProposal-cases (proposal p) = inl (p, refl)
DecodedProposal-cases (Proposal.undecodable e) = inr (e, refl)

index_messages-eq :
    (index : Option Text) (stored i : Text)
    → index_messages index stored ≡ []
    → index ≡ some i
    → i ≡ stored
unfolding index_messages
index_messages-eq none stored i h e = cc
index_messages-eq (some index) stored i h e =
    sym (some_injective e) ∙ text_eq_of_push index stored _ h

approver_messages-includes :
    (expected : Option Text) (decoded : ApproveBundle) (a : Text)
    → approver_messages expected decoded ≡ []
    → truthy expected ≡ some a
    → includes decoded.approvers a ≡ true
unfolding approver_messages
approver_messages-includes expected decoded a h e =
    push_unless-eq-nil _ _ (rw (e, approver_messages) at h)

-- The guarantee of the gate: the bundle is approve-only, and what it approves was read from chain.
pub record IsApproved {K : Type 0} (w : Web3 K) (laws : IsWeb3 w) (connection : Connection K)
    (program_id : K) (params : ApproveOnlyParams) : Type 0 where
  pub decoded : ApproveBundle
  pub is_approve :
      decode_vault_solana_transaction w params.serialized_tx_base64 program_id params.decode_options
      ≡ approve decoded
  pub stored : Proposal
  pub fetched :
      IsFetched w connection program_id (merged_options params) decoded.transaction_pda stored
  pub proposal_accepted :
      ProposalAccepted w stored (bound_expectation params.expected decoded.transaction_pda)
  pub bundle_accepted :
      ApproveAccepted decoded (bundle_expectation params.expected decoded.transaction_pda true)
  pub same_multisig : decoded.multisig_pda ≡ stored.multisig_pda
  pub same_index : (i : Text) → decoded.transaction_index ≡ some i → i ≡ stored.transaction_index
  -- What the stored message debits is the vault of its multisig and its vault index.
  pub own_vault : fetched.flows.debited ≡ fetched.canonical.vault
  -- The stored message, by what its instructions do.
  pub exact : IsExact w laws fetched.stored.inner stored.fee_payer fetched.flows.classified
  pub approver :
      (a : Text) → truthy params.expected_approver ≡ some a → includes decoded.approvers a ≡ true

to_base58_injective :
    {K : Type 0} (w : Web3 K) (laws : IsWeb3 w) (a b : K) → w.to_base58 a ≡ w.to_base58 b → a ≡ b
to_base58_injective w laws a b e =
    ok_injective (sym (laws.of_base58-to_base58 a) ∙ ap w.of_base58 e ∙ laws.of_base58-to_base58 b)

module _ {K : Type 0} (w : Web3 K) (laws : IsWeb3 w) (connection : Connection K)
    (program_id : K) where
  -- The comparisons that found nothing, with what was fetched as a variable.
  passed :
      (params : ApproveOnlyParams) (decoded : ApproveBundle) (fetched : DecodedProposal)
      → decode_vault_solana_transaction w params.serialized_tx_base64 program_id
          params.decode_options
        ≡ approve decoded
      → fetch_and_decode_proposal w connection
          (base58 decoded.transaction_pda)
          program_id
          (merged_options params)
        ≡ fetched
      → approver_messages params.expected_approver decoded ≡ []
      → (compare_proposal_to_expected w fetched
          (bound_expectation params.expected decoded.transaction_pda)).mismatches
        ≡ []
      → binding_messages decoded fetched ≡ []
      → (compare_decoded_to_expected w (approve decoded) (
          bundle_expectation params.expected decoded.transaction_pda
            (compare_proposal_to_expected w fetched
              (bound_expectation params.expected decoded.transaction_pda)).accepted)).mismatches
        ≡ []
      → IsApproved w laws connection program_id params
  unfolding compare_proposal_to_expected compare_decoded_to_expected binding_messages
  passed params decoded (Proposal.undecodable e) d f a c b k = cc
  passed params decoded (proposal p) d f a c b k =
      let found =
        fetch_and_decode_proposal-IsFetched w laws connection program_id decoded.transaction_pda
          (merged_options params) p f in
      let compared = compare_proposal-ProposalAccepted w p _ c in
      let both = append-eq-nil _ (index_messages decoded.transaction_index p.transaction_index) b in
      record {
        decoded = decoded;
        is_approve = d;
        stored = p;
        fetched = found;
        proposal_accepted = compared;
        own_vault =
            to_base58_injective w laws found.flows.debited found.canonical.vault
              (sym found.flows.sender ∙ compared.own_vault ∙ found.canonical.vault_pda);
        exact =
            classify_inner_message-IsExact w laws found.stored.inner p.fee_payer
              (merged_options params).allow_memo found.flows.classified found.flows.classification
              (sym found.flows.unknown ∙ compared.flows_match.all_known);
        bundle_accepted = compare_approve-ApproveAccepted w decoded _ (rw c at k);
        same_multisig = text_eq_of_push decoded.multisig_pda p.multisig_pda _ both.0;
        same_index = λ i. index_messages-eq decoded.transaction_index p.transaction_index i both.1;
        approver = λ x. approver_messages-includes params.expected_approver decoded x a;
      }

  verify_approve-IsApproved :
      (params : ApproveOnlyParams) (decoded : ApproveBundle)
      → decode_vault_solana_transaction w params.serialized_tx_base64 program_id
          params.decode_options
        ≡ approve decoded
      → (verify_approve w connection program_id params decoded).accepted ≡ true
      → IsApproved w laws connection program_id params
  unfolding verify_approve
  verify_approve-IsApproved params decoded d h =
      let all = push_new-eq-nil _ _ (is_empty→eq _ h) in
      let first = append-eq-nil (approver_messages params.expected_approver decoded) _ all.0 in
      let second = append-eq-nil _ _ first.1 in
      passed params decoded _ d refl first.0 second.0 second.1 all.1

  decoded-IsApproved :
      (params : ApproveOnlyParams) (decoded : DecodedBundle)
      → decode_vault_solana_transaction w params.serialized_tx_base64 program_id
          params.decode_options
        ≡ decoded
      → (verify_decoded w connection program_id params decoded).accepted ≡ true
      → IsApproved w laws connection program_id params
  unfolding verify_decoded wrong_kind
  decoded-IsApproved params (Decode.undecodable e) d h = cc
  decoded-IsApproved params (create c) d h = cc
  decoded-IsApproved params (approve decoded) d h = verify_approve-IsApproved params decoded d h

  -- `ok: true` means: the bytes decode to an approve-only bundle with no unknown outer program, one
  -- target and one multisig; the account that the device's connection answered with at that target is
  -- owned by the program and stores a proposal whose canonical address the target is; that proposal
  -- is not executed, belongs to the multisig of the bundle and to the expected one, and has the
  -- transaction index of the approve. The first key of its stored message is the vault derived from
  -- the stored multisig and vault index; each
  -- instruction of that message is a transfer or a TransferChecked by the vault or a memo, and what
  -- they pay and reimburse, with the recipients resolved to an owner where that is asked for, are the
  -- fund flows that match the expected ones. The expected approver, where given, is among the
  -- approvers.
  pub verify_approve_only_transaction-IsApproved :
      (params : ApproveOnlyParams)
      → (verify_approve_only_transaction w connection program_id params).accepted ≡ true
      → IsApproved w laws connection program_id params
  unfolding verify_approve_only_transaction
  verify_approve_only_transaction-IsApproved params h = decoded-IsApproved params _ refl h
