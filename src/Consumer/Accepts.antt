-- ===== src/Consumer/Accepts.antt =====
-- What `verifyConsumerSolanaBundle` guarantees when it answers `ok: true`.
use solana_multisig.Prelude.{
  ◌≤◌, ◌≡◌, refl, true, List, [], none, Text, Result, ok, err, All, length, append-eq-nil,
  push_if-eq-nil, for_each-eq-nil, for_each,
}
use solana_multisig.Prelude.Strings.{decimal}
use solana_multisig.Web3.{Web3}
use solana_multisig.Classify.{Recipient, InnerClassification, classify_inner_message}
use solana_multisig.FundFlows.{compare_fund_flows}
use solana_multisig.FundFlows.Sound.{FlowsMatch, compare_fund_flows-FlowsMatch}
use solana_multisig.Compare.Accepts.{is_empty→eq}
use solana_multisig.Consumer.{settle, verify_consumer_solana_bundle}
use solana_multisig.Consumer.Gate.{Passes, bind-Passes, push-Passes, attempt}
use solana_multisig.Consumer.Outer.{
  ConsumerParams, ConsumerDecoded, Setup, Created, Budget, fee_payer_messages, outer_messages,
  budget_loop,
}
use solana_multisig.Consumer.Funds.{
  owner_resolved, consumer_expectation, destination_message, fund_messages,
}
use solana_multisig.Consumer.Checks.{
  set_up, check_create, approve_loop, execute_messages, check_inner, consumer_gate,
}
use solana_multisig.Consumer.Budgets.{Budgets, budget_loop-Budgets}
use solana_multisig.Consumer.AtaCreates.{IsRecipientAta, ata_messages-IsRecipientAta}
use solana_multisig.Consumer.Allowed.{
  IsPaymaster, fee_payer_messages-IsPaymaster, at_most_one, IsAllowed, outer_messages-IsAllowed,
}
use solana_multisig.Consumer.Proposed.{
  Approves, approve_loop-Approves, IsOnlyCreate, check_create-IsOnlyCreate, IsSettled,
  execute_messages-IsSettled, DebitsVault, check_inner-DebitsVault, IsVerifiedAta,
  destination_message-IsVerifiedAta,
}

-- Everything that an accepted bundle was found to be.
pub record IsConsumerApproved {K : Type 0} (w : Web3 K) (serialized_tx_base64 : Text)
    (program_id : K) (params : ConsumerParams) : Type 0 where
  pub setup : Setup K
  pub created : Created K
  pub seen : List Text
  pub classified : InnerClassification
  pub recipients : List Recipient
  pub is_set_up : set_up w serialized_tx_base64 program_id params ≡ ok setup
  pub paymaster : IsPaymaster setup.bundle.fee_payer setup.members params.expected_fee_payer
  pub allowed : IsAllowed setup.bundle
  pub only_created : IsOnlyCreate w setup created
  pub approvals : Approves w setup created.transaction_pda [] setup.bundle.approves seen
  pub settled : IsSettled w setup created.transaction_pda seen
  pub debits_vault : DebitsVault w setup created.create.inner
  pub is_classified :
      classify_inner_message w created.create.inner setup.bundle.fee_payer true ≡ ok classified
  pub is_resolved : owner_resolved w params classified.recipients ≡ ok recipients
  pub flows :
      FlowsMatch w
        (record {
          recipients = recipients;
          fee_lamports = decimal classified.fee_lamports;
          fee_payer = setup.bundle.fee_payer;
          unknown_inner_instruction_count = classified.unknown_inner_instruction_count;
        })
        (consumer_expectation w params)
  pub own_accounts : All IsVerifiedAta recipients
  pub one_ata_create : length setup.bundle.ata_creates ≤ 1
  pub own_ata_create : All (IsRecipientAta w params setup.bundle.fee_payer) setup.bundle.ata_creates
  pub budget : Budget
  pub within_budget :
      Budgets params (record { limit = none; price = none }) setup.bundle.compute_budget budget

settle-Passes :
    (ms : List Text) (r : Result ConsumerDecoded)
    → (settle ms r).accepted ≡ true
    → (ms ≡ []) × ((d : ConsumerDecoded) × (r ≡ ok d))
unfolding settle
settle-Passes ms (ok d) h = (is_empty→eq ms h, (d, refl))
settle-Passes ms (err e) h = cc

module _ {K : Type 0} (w : Web3 K) (serialized_tx_base64 : Text) (program_id : K)
    (params : ConsumerParams) where
  funds :
      (s : Setup K) (c : InnerClassification) (rs : List Recipient)
      → fund_messages w params s c rs ≡ []
      → FlowsMatch w
          (record {
            recipients = rs;
            fee_lamports = decimal c.fee_lamports;
            fee_payer = s.bundle.fee_payer;
            unknown_inner_instruction_count = c.unknown_inner_instruction_count;
          })
          (consumer_expectation w params)
        × All IsVerifiedAta rs
        × (length s.bundle.ata_creates ≤ 1)
        × All (IsRecipientAta w params s.bundle.fee_payer) s.bundle.ata_creates
  unfolding fund_messages
  funds s c rs h =
      let a = append-eq-nil (compare_fund_flows w _ (consumer_expectation w params)) _ h in
      let b = append-eq-nil (for_each (destination_message w params) rs) _ a.1 in
      let d = append-eq-nil _ _ b.1 in
      (
        compare_fund_flows-FlowsMatch w _ _ a.0,
        for_each-eq-nil _ _ (destination_message-IsVerifiedAta w params) rs b.0,
        at_most_one _ (push_if-eq-nil _ _ d.0),
        for_each-eq-nil _ _ (ata_messages-IsRecipientAta w params s.bundle.fee_payer rs)
            s.bundle.ata_creates d.1,
      )

  consumer_gate-IsConsumerApproved :
      (d : ConsumerDecoded)
      → Passes (consumer_gate w serialized_tx_base64 program_id params) d
      → IsConsumerApproved w serialized_tx_base64 program_id params
  unfolding consumer_gate
  consumer_gate-IsConsumerApproved d p =
      bind-Passes (attempt (set_up w serialized_tx_base64 program_id params)) _ p λ s q0 is_set p0.
        push-Passes (fee_payer_messages s.bundle.fee_payer s.members params.expected_fee_payer) _ p0
          λ payer p1. push-Passes (outer_messages s.bundle) _ p1 λ outer p2.
            bind-Passes
              (budget_loop params (record { limit = none; price = none }) s.bundle.compute_budget) _
              p2
              λ budget q3 e3 p3. bind-Passes (check_create w s) _ p3 λ created q4 e4 p4.
                bind-Passes (approve_loop w s created.transaction_pda [] s.bundle.approves) _ p4
                  λ seen q5 e5 p5.
                    push-Passes (execute_messages w s created.transaction_pda seen) _ p5 λ q6 p6.
                      bind-Passes (check_inner w s created.create.inner) _ p6 λ u7 q7 e7 p7.
                        bind-Passes
                          (attempt
                            (classify_inner_message w created.create.inner s.bundle.fee_payer true))
                          _ p7
                          λ classified q8 e8 p8.
                            bind-Passes (attempt (owner_resolved w params classified.recipients)) _
                              p8
                              λ recipients q9 e9 p9.
                                push-Passes (fund_messages w params s classified recipients) _ p9
                                  λ q10 p10.
                                    let found = funds s classified recipients q10 in
                                    record {
                                      setup = s;
                                      created = created;
                                      seen = seen;
                                      classified = classified;
                                      recipients = recipients;
                                      is_set_up = is_set;
                                      paymaster = fee_payer_messages-IsPaymaster _ _ _ payer;
                                      allowed = outer_messages-IsAllowed s.bundle outer;
                                      only_created = check_create-IsOnlyCreate w s created (q4, e4);
                                      approvals =
                                          approve_loop-Approves w s _ [] s.bundle.approves seen
                                            (q5, e5);
                                      settled = execute_messages-IsSettled w s _ seen q6;
                                      debits_vault =
                                          check_inner-DebitsVault w s created.create.inner u7
                                            (q7, e7);
                                      is_classified = e8;
                                      is_resolved = e9;
                                      flows = found.0;
                                      own_accounts = found.1;
                                      one_ata_create = found.2;
                                      own_ata_create = found.3;
                                      budget = budget;
                                      within_budget =
                                          budget_loop-Budgets params _ s.bundle.compute_budget
                                            budget (q3, e3);
                                    }

  -- A consumer bundle is answered with `ok: true` only when it decodes; its fee payer is no member
  -- and is the expected paymaster, where one is given; the only other outer instructions are allowed ones, with one
  -- nonce advance at most, in front; it has one create, by a member, on the vault's multisig; each
  -- approval, execute and close names that multisig and the created proposal, each approver is a
  -- member who approves once, and the signer is among them; the proposal debits the vault; its
  -- fund flows, as classified, match the expected recipient, amount, token and fee bound; each
  -- token destination is the recipient's own token account; one token account is created at most,
  -- paid by the fee payer, for the recipient and the expected token, at the derived address; and each
  -- compute budget instruction sets, once and within its cap, the limit or the price.
  pub verify_consumer_solana_bundle-IsConsumerApproved :
      (verify_consumer_solana_bundle w serialized_tx_base64 program_id params).accepted ≡ true
      → IsConsumerApproved w serialized_tx_base64 program_id params
  unfolding verify_consumer_solana_bundle
  verify_consumer_solana_bundle-IsConsumerApproved h =
      let gate = consumer_gate w serialized_tx_base64 program_id params in
      let (quiet, (d, e)) = settle-Passes gate.0 gate.1 h in
      consumer_gate-IsConsumerApproved d (quiet, e)
