-- ===== src/Compare.antt =====
-- `compareDecodedToExpected` of sdk/src/decoder.ts: a decoded bundle against what the relay supplied.
pub mod Accepts
use solana_multisig.Prelude.{
  ℕ, suc, Bool, true, false, ◌&&◌, not, List, [], ◌∷◌, ◌++◌, Option, none, some, Text, ltb, ◌==◌,
  if◌then◌else◌, push_if, for_each, length,
}
use solana_multisig.Prelude.Strings.{lit, decimal, text_eq, truthy}
use solana_multisig.Web3.{Web3}
use solana_multisig.FundFlows.{
  ExpectedPayload, FundFlowExpectation, FundFlowView, compare_fund_flows,
}
use solana_multisig.Decode.{
  CreateBundle, ApproveBundle, DecodedBundle, create, approve, undecodable,
}

-- `{ ok, mismatches }`.
pub record Verdict : Type 0 where
  pub accepted : Bool
  pub mismatches : List Text

abbrev pub is_empty {ℓ} : {A : Type ℓ} → List A → Bool
is_empty [] = true
is_empty (x ∷ xs) = false

-- `{ ok: mismatches.length === 0, mismatches }`.
abbrev pub verdict : List Text → Verdict
verdict mismatches = record { accepted = is_empty mismatches; mismatches = mismatches }

-- The payload with the two fields that only the bundle comparison has.
pub record BundleExpectation : Type 0 where
  pub payload : ExpectedPayload
  pub expected_multisig_pda : Option Text
  pub approve_only_verified_on_chain : Bool

abbrev pub join_from : Text → List Text → Text
join_from s [] = s
join_from s (t ∷ ts) = join_from (s ++ (lit ", " ++ t)) ts

-- `parts.join(", ")`.
abbrev pub join : List Text → Text
join [] = []
join (t ∷ ts) = join_from t ts

-- `if (expected && actual !== expected) mismatches.push(...)`.
abbrev pub unless_equal : Option Text → Text → (Text → Text) → List Text
unless_equal expected actual message = elim (truthy expected) [
  | none ↦ []
  | some e ↦ push_if (not (text_eq actual e)) (message e)
]

unknown_outer_messages : List Text → List Text
unknown_outer_messages [] = []
unknown_outer_messages (p ∷ ps) =
    (lit "unknown outer program instruction(s): " ++ join (p ∷ ps)) ∷ []

multisig_messages : Text → Option Text → List Text
multisig_messages multisig_pda expected = unless_equal expected multisig_pda (λ e.
    lit "multisig " ++ (multisig_pda ++ (lit " does not match the expected vault multisig " ++ e)))

-- The checks of one approve target in an approve-only bundle.
approve_target_messages : ApproveBundle → ExpectedPayload → Text → List Text
approve_target_messages decoded expected t =
    push_if (not (text_eq t decoded.transaction_pda)) (
      lit "approve_transaction targets "
      ++ (t ++ (lit ", not the bundle's proposal " ++ decoded.transaction_pda)))
    ++ unless_equal expected.expected_transaction_pda t
        (λ e. lit "approve_transaction targets " ++ (t ++ (lit ", expected proposal " ++ e)))

approve_multisig_messages : ApproveBundle → Text → List Text
approve_multisig_messages decoded m = push_if (not (text_eq m decoded.multisig_pda)) (
    lit "approve_transaction names multisig "
    ++ (m ++ (lit ", not the bundle's multisig " ++ decoded.multisig_pda)))

verified_messages : BundleExpectation → List Text
verified_messages expected =
    if not expected.approve_only_verified_on_chain
    then lit
        "approve-only transaction: the proposal message is not present in these bytes. Fetch the on-chain VaultTransaction at the target PDA, verify its recipients/amounts, then set approveOnlyVerifiedOnChain (with expectedTransactionPda) to approve."
      ∷ []
    else elim (truthy expected.payload.expected_transaction_pda) [
      | none ↦
          lit
            "approveOnlyVerifiedOnChain set without expectedTransactionPda: cannot confirm which proposal was verified"
          ∷ []
      | some t ↦ []
    ]

-- The branch for `kind: "approve"`.
unfoldable pub compare_approve : ApproveBundle → BundleExpectation → List Text
unfolding unknown_outer_messages multisig_messages approve_target_messages approve_multisig_messages
    verified_messages
compare_approve decoded expected =
    unknown_outer_messages decoded.unknown_outer_programs
    ++ (multisig_messages decoded.multisig_pda expected.expected_multisig_pda
        ++ (for_each (approve_target_messages decoded expected.payload) decoded.approve_targets
            ++ (for_each (approve_multisig_messages decoded) decoded.approve_multisigs
                ++ (unless_equal expected.payload.expected_transaction_pda decoded.transaction_pda
                      (λ e.
                        lit "approve targets proposal "
                        ++ (decoded.transaction_pda ++ (lit ", expected " ++ e)))
                    ++ verified_messages expected))))

abbrev pub unless_index : Option ℕ → ℕ → (ℕ → Text) → List Text
unless_index none actual message = []
unless_index (some e) actual message = push_if (not (actual == e)) (message e)

vault_messages : CreateBundle → ExpectedPayload → List Text
vault_messages decoded expected =
    unless_index expected.expected_vault_index decoded.vault_index (λ e.
      lit "proposal vault index "
      ++ (decimal decoded.vault_index ++ (lit " does not match expected " ++ decimal e)))
    ++ unless_equal expected.expected_vault_pda decoded.sender (λ e.
      lit "debited vault " ++ (decoded.sender ++ (lit " does not match the expected vault " ++ e)))

created_target_message : Text → CreateBundle → Text → List Text
created_target_message label decoded t =
    push_if (not (text_eq t decoded.transaction_pda))
      (label ++ (t ++ (lit ", not the created proposal " ++ decoded.transaction_pda)))

-- The part of a decoded bundle that `compareFundFlows` reads.
abbrev pub create_view : CreateBundle → FundFlowView
create_view decoded = record {
  recipients = decoded.recipients;
  fee_lamports = decoded.fee_lamports;
  fee_payer = decoded.fee_payer;
  unknown_inner_instruction_count = decoded.unknown_inner_instruction_count;
}

module _ {K : Type 0} (w : Web3 K) where
  -- The branch for `kind: "create"`.
  unfoldable pub compare_create : CreateBundle → BundleExpectation → List Text
  unfolding unknown_outer_messages multisig_messages vault_messages created_target_message
  compare_create decoded expected =
      unknown_outer_messages decoded.unknown_outer_programs
      ++ (multisig_messages decoded.multisig_pda expected.expected_multisig_pda
          ++ (vault_messages decoded expected.payload
              ++ (for_each (created_target_message (lit "approve_transaction targets ") decoded)
                    decoded.approve_targets
                  ++ (for_each (created_target_message (lit "execute_transaction targets ") decoded)
                        decoded.execute_targets
                      ++ (unless_equal expected.payload.expected_transaction_pda
                            decoded.transaction_pda
                            (λ e.
                              lit "created proposal "
                              ++ (decoded.transaction_pda
                                  ++ (lit " does not match expected " ++ e)))
                          ++ compare_fund_flows w (create_view decoded) expected.payload.flows)))))

  unfoldable pub compare_decoded_to_expected : DecodedBundle → BundleExpectation → Verdict
  unfolding compare_approve compare_create
  compare_decoded_to_expected (undecodable error) expected = record {
    accepted = false;
    mismatches = (lit "transaction bytes are undecodable: " ++ error) ∷ [];
  }
  compare_decoded_to_expected (approve decoded) expected =
      verdict (compare_approve decoded expected)
  compare_decoded_to_expected (create decoded) expected = verdict (compare_create decoded expected)
