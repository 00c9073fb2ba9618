-- ===== src/Consumer/Checks.antt =====
-- The checks of `verifyConsumerSolanaBundle` on its multisig instructions and the message of the
-- created proposal, and the gate, which composes all of its sections.
use solana_multisig.Prelude.{
  ℕ, zero, suc, Bool, true, false, ◌&&◌, ◌||◌, not, List, [], ◌∷◌, ◌++◌, map, Option, none, some,
  Text, Result, ok, err, throw_if, leb, ltb, ◌==◌, if◌then◌else◌, length, push_if, for_each, find,
}
use solana_multisig.Prelude
use mathlib.Core.Option
use solana_multisig.Prelude.Strings.{lit, decimal, text_eq, includes}
use solana_multisig.Web3.{Web3}
use solana_multisig.Message.{InnerMessage}
use solana_multisig.Classify.{classify_inner_message}
use solana_multisig.Bundle.{ParsedMultisigIx, parse_bundle}
use solana_multisig.Decode.{three_keys, first_key}
use solana_multisig.Proposal.{derive_vault_pda}
use solana_multisig.Consumer.Gate.{Gate, return, push, attempt, ◌>>=◌, ◌>>◌}
use solana_multisig.Consumer.Outer.{
  ConsumerParams, ConsumerDecoded, Setup, Created, all_distinct, fee_payer_messages, outer_messages,
  budget_loop, named_messages, only_create, four_keys,
}
use solana_multisig.Consumer.Funds.{owner_resolved, fund_messages}

module _ {K : Type 0} (w : Web3 K) where
  unfoldable pub map_keys : List Text → Result (List Text)
  map_keys [] = ok []
  map_keys (m ∷ ms) =
      Prelude.◌>>=◌ (w.of_base58 m)
        λ k. Prelude.◌>>=◌ (map_keys ms) λ rest. ok (w.to_base58 k ∷ rest)

  -- The first section, up to `parseBundle`.
  unfoldable pub set_up : Text → K → ConsumerParams → Result (Setup K)
  unfolding map_keys
  set_up serialized_tx_base64 program_id params =
      let vault_index : ℕ = elim params.vault_index [ none ↦ 0 | some n ↦ n ] in
      Prelude.◌>>=◌ (w.of_base58 params.multisig_pda) λ multisig.
        Prelude.◌>>=◌ (map_keys params.members) λ members.
          Prelude.◌>>=◌ (w.of_base58 params.signer) λ signer_key.
            let signer = w.to_base58 signer_key in
            Prelude.◌>>◌
              (throw_if (not (includes members signer))
                (lit "signer " ++ (signer ++ lit " is not a member of the vault")))
              (Prelude.◌>>◌ (throw_if (not (all_distinct members)) (lit "duplicate vault members"))
                (Prelude.◌>>=◌ (derive_vault_pda w multisig vault_index program_id) λ vault_pda.
                  Prelude.◌>>=◌ (parse_bundle w program_id serialized_tx_base64) λ bundle.
                    ok (record {
                      vault_index = vault_index;
                      multisig_pda = w.to_base58 multisig;
                      members = members;
                      signer = signer;
                      vault_pda = w.to_base58 vault_pda;
                      bundle = bundle;
                    })))

  -- The `create_transaction` part of the multisig section.
  unfoldable pub check_create : Setup K → Gate (Created K)
  check_create s = do
    create ← attempt (only_create s.bundle.creates)
    keys ← attempt (four_keys create.keys)
    push (
        push_if (not (text_eq (w.to_base58 keys.0) s.multisig_pda)) (
          lit "create_transaction names multisig "
          ++ (w.to_base58 keys.0 ++ (lit ", expected " ++ s.multisig_pda))))
    push (
        push_if (not (includes s.members (w.to_base58 keys.2)))
          (lit "proposal creator " ++ (w.to_base58 keys.2 ++ lit " is not a vault member")))
    return (record { transaction_pda = w.to_base58 keys.1; create = create })

  -- The messages of one `approve_transaction`.
  unfoldable pub approve_messages : Setup K → Text → List Text → Text → Text → Text → List Text
  approve_messages s transaction_pda seen multisig target approver =
      push_if (not (text_eq multisig s.multisig_pda))
        (lit "approve_transaction names multisig " ++ multisig)
      ++ (push_if (not (text_eq target transaction_pda)) (
            lit "approve_transaction targets "
            ++ (target ++ (lit ", not the created proposal " ++ transaction_pda)))
          ++ (push_if (not (includes s.members approver))
                (lit "approver " ++ (approver ++ lit " is not a vault member"))
              ++ push_if (includes seen approver) (lit "duplicate approval by " ++ approver)))

  -- The loop over `approve_transaction` instructions, which returns the approvers seen.
  unfoldable pub approve_loop :
      Setup K → Text → List Text → List (ParsedMultisigIx K) → Gate (List Text)
  unfolding approve_messages
  approve_loop s transaction_pda seen [] = return seen
  approve_loop s transaction_pda seen (a ∷ rest) = do
    keys ←
        attempt (three_keys w a.keys (lit "approve_transaction instruction has too few accounts"))
    push (
        approve_messages s transaction_pda seen (w.to_base58 keys.0) (w.to_base58 keys.1)
          (w.to_base58 keys.2))
    approve_loop s transaction_pda (seen ++ (w.to_base58 keys.2 ∷ [])) rest

  -- The rest of the multisig section: the signer's approval, executes and closes.
  unfoldable pub execute_messages : Setup K → Text → List Text → List Text
  execute_messages s transaction_pda seen =
      push_if (not (includes seen s.signer))
        (lit "the bundle contains no approval by the signer " ++ s.signer)
      ++ (push_if (ltb 1 (length s.bundle.executes)) (lit "more than one execute_transaction")
          ++ (push_if (ltb 1 (length s.bundle.closes)) (lit "more than one close_transaction")
              ++ (for_each
                    (λ (ix : ParsedMultisigIx K).
                      named_messages (lit "execute_transaction") s.multisig_pda transaction_pda
                        (map w.to_base58 ix.keys))
                    s.bundle.executes
                  ++ for_each
                      (λ (ix : ParsedMultisigIx K).
                        named_messages (lit "close_transaction") s.multisig_pda transaction_pda
                          (map w.to_base58 ix.keys))
                      s.bundle.closes)))

  unfoldable pub index_messages : Setup K → InnerMessage K → List Text
  index_messages s inner = push_if (not (inner.vault_index == s.vault_index)) (
      lit "proposal vault index "
      ++ (decimal inner.vault_index ++ (lit ", expected " ++ decimal s.vault_index)))

  unfoldable pub debit_messages : Setup K → K → List Text
  debit_messages s first =
      push_if (not (text_eq (w.to_base58 first) s.vault_pda))
        (lit "proposal debits " ++ (w.to_base58 first ++ (lit ", not the vault " ++ s.vault_pda)))

  -- ---- inner message ----, up to the classification.
  unfoldable pub check_inner : Setup K → InnerMessage K → Gate (Unit {0})
  unfolding index_messages debit_messages
  check_inner s inner = do
    push (index_messages s inner)
    first ← attempt (
        first_key w inner.account_keys (lit "create_transaction inner message has no account keys"))
    push (debit_messages s first)

  -- The body of the `try` block.
  unfoldable pub consumer_gate : Text → K → ConsumerParams → Gate ConsumerDecoded
  unfolding set_up fee_payer_messages outer_messages budget_loop check_create approve_loop
      execute_messages check_inner owner_resolved fund_messages
  consumer_gate serialized_tx_base64 program_id params = do
    s ← attempt (set_up serialized_tx_base64 program_id params)
    push (fee_payer_messages s.bundle.fee_payer s.members params.expected_fee_payer)
    push (outer_messages s.bundle)
    budget ← budget_loop params (record { limit = none; price = none }) s.bundle.compute_budget
    created ← check_create s
    seen ← approve_loop s created.transaction_pda [] s.bundle.approves
    push (execute_messages s created.transaction_pda seen)
    check_inner s created.create.inner
    classified ← attempt (classify_inner_message w created.create.inner s.bundle.fee_payer true)
    recipients ← attempt (owner_resolved w params classified.recipients)
    push (fund_messages w params s classified recipients)
    return (record {
      multisig_pda = s.multisig_pda;
      vault_pda = s.vault_pda;
      transaction_pda = created.transaction_pda;
      fee_payer = s.bundle.fee_payer;
      recipients = recipients;
      fee_lamports = decimal classified.fee_lamports;
      memos = classified.memos;
      compute_unit_limit = Option.map decimal budget.limit;
      compute_unit_price_micro_lamports = Option.map decimal budget.price;
    })
