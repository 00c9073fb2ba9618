-- ===== src/Consumer/Funds.antt =====
-- The last checks of `verifyConsumerSolanaBundle`: fund flows, token destinations and the creation of
-- token accounts.
use solana_multisig.Prelude.{
  Bool, true, false, ◌&&◌, not, List, [], ◌∷◌, ◌++◌, Option, none, some, Text, Result, ok, err, ltb,
  if◌then◌else◌, length, push_if, for_each, find,
}
use solana_multisig.Prelude.Strings.{lit, decimal, text_eq, truthy, option_text_eq}
use solana_multisig.Web3.{Web3}
use solana_multisig.Classify.{Recipient, InnerClassification, is_spl, resolve_ata_owner}
use solana_multisig.FundFlows.{FundFlowExpectation, compare_fund_flows, derived_ata, text_or}
use solana_multisig.Bundle.{ParsedAtaCreate}
use solana_multisig.Consumer.Outer.{ConsumerParams, Setup}

module _ {K : Type 0} (w : Web3 K) where
  -- The recipients behind `if (params.expected.tokenMint) resolveAtaOwner(...)`.
  unfoldable pub owner_resolved : ConsumerParams → List Recipient → Result (List Recipient)
  owner_resolved params recipients = elim (truthy params.expected.token_mint) [
    | none ↦ ok recipients
    | some mint ↦ resolve_ata_owner w recipients params.expected.recipient mint
  ]

  abbrev pub consumer_expectation : ConsumerParams → FundFlowExpectation
  consumer_expectation params = record {
    recipients =
        record { address = params.expected.recipient; amount = params.expected.amount } ∷ [];
    token_mint = params.expected.token_mint;
    token_decimals = params.expected.token_decimals;
    max_fee_lamports = some params.max_fee_lamports;
    expected_fee_payer = params.expected_fee_payer;
  }

  abbrev pub is_verified : Option Bool → Bool
  is_verified none = false
  is_verified (some b) = b

  -- The loop that wants every token destination to be the recipient's own token account.
  unfoldable pub destination_message : ConsumerParams → Recipient → List Text
  destination_message params r = push_if (is_spl r.asset && not (is_verified r.ata_verified)) (
      lit "token destination "
      ++ (text_or r.ata r.address
          ++ (lit " is not the associated token account of " ++ params.expected.recipient)))

  -- `classified.recipients.find(...)` for an ATA create.
  abbrev pub destination_of : List Recipient → ParsedAtaCreate → Option Recipient
  destination_of recipients ata =
      find (λ (r : Recipient). is_spl r.asset && option_text_eq r.ata ata.ata) recipients

  -- Owner, mint and token program of an ATA create that fits the destination, or nothing.
  unfoldable pub fitting_ata :
      ConsumerParams → Option Recipient → ParsedAtaCreate → Option (Text × Text × Text)
  fitting_ata params none ata = none
  fitting_ata params (some destination) ata = elim (truthy ata.owner) [
    | none ↦ none
    | some owner ↦ elim (truthy ata.mint) [
      | none ↦ none
      | some mint ↦ elim (truthy ata.token_program) [
        | none ↦ none
        | some program ↦
            if text_eq owner params.expected.recipient
              && (option_text_eq (some mint) params.expected.token_mint
                  && option_text_eq destination.token_program (some program))
            then some (owner, mint, program)
            else none
      ]
    ]
  ]

  unfoldable pub derived_messages : Option Text → Option (Text × Text × Text) → List Text
  derived_messages ata none = lit "ATA create does not match the recipient's token account" ∷ []
  derived_messages ata (some (owner, mint, program)) = elim (derived_ata w owner mint program) [
    | err e ↦ lit "ATA create accounts are invalid" ∷ []
    | ok derived ↦
        push_if (not (option_text_eq (some derived) ata))
          (lit "ATA create address is not the derived associated token account")
  ]

  -- `!feePayer || ata.funder !== feePayer`.
  abbrev pub wrong_funder : Option Text → Option Text → Bool
  wrong_funder fee_payer funder = elim (truthy fee_payer) [
    | none ↦ true
    | some payer ↦ not (option_text_eq funder (some payer))
  ]

  -- One round of the loop over ATA creates.
  unfoldable pub ata_messages :
      ConsumerParams → Option Text → List Recipient → ParsedAtaCreate → List Text
  unfolding derived_messages fitting_ata
  ata_messages params fee_payer recipients ata =
      push_if (not ata.data_ok) (lit "unsupported associated-token-account instruction")
      ++ (push_if (wrong_funder fee_payer ata.funder) (
            lit "ATA create funded by "
            ++ (text_or ata.funder (lit "unknown") ++ lit ", not the fee payer"))
          ++ derived_messages ata.ata (fitting_ata params (destination_of recipients ata) ata))

  -- The messages behind the classification.
  unfoldable pub fund_messages :
      ConsumerParams → Setup K → InnerClassification → List Recipient → List Text
  unfolding destination_message ata_messages
  fund_messages params s classified recipients =
      compare_fund_flows w
        (record {
          recipients = recipients;
          fee_lamports = decimal classified.fee_lamports;
          fee_payer = s.bundle.fee_payer;
          unknown_inner_instruction_count = classified.unknown_inner_instruction_count;
        })
        (consumer_expectation params)
      ++ (for_each (destination_message params) recipients
          ++ (push_if (ltb 1 (length s.bundle.ata_creates))
                (lit "more than one associated-token-account create instruction")
              ++ for_each (ata_messages params s.bundle.fee_payer recipients) s.bundle.ata_creates))
