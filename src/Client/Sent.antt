-- ===== src/Client/Sent.antt =====
-- The bundle of a send by two members, as the comment at the end of sdk/src/client.ts describes it,
-- from the builders of the client to the report of the decoder.
use solana_multisig.Prelude.{
  ℕ, Bool, suc, ◌^◌, ◌≤◌, ◌<◌, ◌≡◌, refl, sym, ap, ◌∙◌, false, List, [], ◌∷◌, ◌++◌, map, Option,
  none, some, Text, ok, length, ◌==◌,
}
use solana_multisig.Web3.{Web3, IsWeb3, AccountMeta, TransactionInstruction}
use solana_multisig.Message.Layout.{encode_message, Fits, IsEncodable, inner_of}
use solana_multisig.Numbers.{ℤ, pos}
use solana_multisig.Classify.{InnerClassification, classify_inner_message}
use solana_multisig.Proposal.{derive_transaction_pda}
use solana_multisig.Bytes.LittleEndian.{le_bytes}
use solana_multisig.Bundle.{
  approve_transaction_discriminator, execute_transaction_discriminator, ParsedBundle,
  parse_outer_loop, parse_bundle, empty_bundle,
}
use solana_multisig.Bundle.Unflagged.{unflagged, parse_outer_loop-unflagged}
use solana_multisig.Decode.{decode_vault_solana_transaction}
use solana_multisig.Client.World.{returned, World, Action, return, ◌>>=◌}
use solana_multisig.Client.Index.{to_big_int}
use solana_multisig.Client.Builders.{
  Client, new_client, CreateOpts, ProposalOpts, Created, build_create_transaction_instruction,
  build_approve_transaction_instruction, build_execute_transaction_instruction,
}
use solana_multisig.Client.Built.{
  create_entry, created_of, proposal_entry, approve_of, execute_of, sent_report,
}
use solana_multisig.Client.Idl.{IsAnchor}
use solana_multisig.Client.Decoded.{
  IsOrdinary, build_create_transaction_instruction-eq, parse_outer-create,
}
use solana_multisig.Client.Bundled.{
  build_approve_transaction_instruction-eq, parse_outer-approve,
  build_execute_transaction_instruction-eq, parse_outer-execute,
}

module _ {K W V : Type 0} (w : Web3 K) (chain : World K W V) (client : Client K) where
  abbrev pub signed_by : CreateOpts K → Created K → K → ProposalOpts K
  signed_by opts created member = record {
    multisig_address = opts.multisig_address;
    transaction_address = created.transaction_address;
    transaction_index = created.transaction_index;
    signer = member;
  }

  -- Create, two approvals, and the execution by the second member.
  abbrev pub send_instructions :
      CreateOpts K → K → K → List (AccountMeta K) → Action W (List (TransactionInstruction K))
  send_instructions opts first second remaining = do
    created ← build_create_transaction_instruction w chain client opts
    approval ← build_approve_transaction_instruction w chain client (signed_by opts created first)
    other ← build_approve_transaction_instruction w chain client (signed_by opts created second)
    execution ←
        build_execute_transaction_instruction w chain client (signed_by opts created second)
          remaining
    return (created.instruction ∷ approval ∷ other ∷ execution ∷ [])

module _ {K W V : Type 0} (w : Web3 K) (laws : IsWeb3 w) (chain : World K W V)
    (anchor : IsAnchor w chain) (program_id : K) (fee : Option ℤ) (opts : CreateOpts K) (n : ℕ)
    (address first second : K) (remaining : List (AccountMeta K)) where
  abbrev signed : K → ProposalOpts K
  signed member = record {
    multisig_address = opts.multisig_address;
    transaction_address = address;
    transaction_index = pos (suc n);
    signer = member;
  }

  -- The instructions that are built.
  abbrev sent : List (TransactionInstruction K)
  sent =
      (created_of w program_id opts n address).instruction
      ∷ approve_of program_id (signed first) (suc n)
      ∷ approve_of program_id (signed second) (suc n)
      ∷ execute_of program_id (signed second) (suc n) remaining
      ∷ []

  send_instructions-eq :
      (world : W)
      → to_big_int opts.current_transaction_index ≡ ok (pos n)
      → suc n < 2 ^ 64
      → derive_transaction_pda w opts.multisig_address (suc n) program_id ≡ ok address
      → opts.vault_index < 256
      → IsEncodable opts.message
      → suc (length (encode_message w opts.message)) ≤ 2000
      → send_instructions w chain (new_client w program_id fee) opts first second remaining world
        ≡ (ok sent, world)
  send_instructions-eq world index bound derived small fits short =
      rw
        (
          build_create_transaction_instruction-eq w laws chain anchor program_id fee opts n address
              world index bound derived small fits short,
          build_approve_transaction_instruction-eq w laws chain anchor program_id fee (signed first)
              (suc n) world refl bound,
          build_approve_transaction_instruction-eq w laws chain anchor program_id fee
              (signed second) (suc n) world refl bound,
          build_execute_transaction_instruction-eq w laws chain anchor program_id fee
              (signed second) (suc n) remaining world refl bound,
        )
        refl

  -- The lists of the bundle that the parser makes of them.
  abbrev sent_bundle : K → ParsedBundle K
  sent_bundle payer = record (empty_bundle w program_id (some payer)) {
    creates = create_entry w 0 opts address ∷ [];
    approves =
        proposal_entry 1 approve_transaction_discriminator (signed first) (suc n)
        ∷ proposal_entry 2 approve_transaction_discriminator (signed second) (suc n)
        ∷ [];
    executes =
        record {
          index = 3;
          keys =
              opts.multisig_address
              ∷ address
              ∷ second
              ∷ map (λ (m : AccountMeta K). m.pubkey) remaining;
          payload = execute_transaction_discriminator ++ le_bytes 8 (suc n);
        }
        ∷ [];
  }

  parse_outer_loop-sent :
      (payer : K)
      → IsOrdinary w program_id
      → Fits opts.message
      → parse_outer_loop w program_id (empty_bundle w program_id (some payer)) 0 sent
        ≡ ok (sent_bundle payer)
  unfolding parse_outer_loop
  parse_outer_loop-sent payer ordinary fits =
      rw
        (
          parse_outer-create w laws chain anchor program_id fee opts n address
              (empty_bundle w program_id (some payer)) 0 ordinary fits,
          parse_outer-approve w laws chain anchor program_id fee (signed first) (suc n) _ 1
              ordinary,
          parse_outer-approve w laws chain anchor program_id fee (signed second) (suc n) _ 2
              ordinary,
          parse_outer-execute w laws chain anchor program_id fee (signed second) (suc n) remaining _
              3 ordinary,
        )
        refl

  parse_bundle-sent :
      (raw : Text) (payer : K) (received : List (TransactionInstruction K))
      → IsOrdinary w program_id
      → Fits opts.message
      → (length (w.of_base64 raw) == 0) ≡ false
      → w.transaction_from (w.of_base64 raw)
        ≡ ok (record { fee_payer = some payer; instructions = received })
      → map unflagged received ≡ map unflagged sent
      → parse_bundle w program_id raw ≡ ok (sent_bundle payer)
  unfolding parse_bundle
  parse_bundle-sent raw payer received ordinary fits filled read same =
      let start = empty_bundle w program_id (some payer) in
      rw (filled, read)
        (sym (parse_outer_loop-unflagged w program_id start 0 received)
          ∙ ap (parse_outer_loop w program_id start 0) same
          ∙ parse_outer_loop-unflagged w program_id start 0 sent
          ∙ parse_outer_loop-sent payer ordinary fits)

  -- The decoder reads what the client builds. When the builders of a create for the index n, two
  -- approvals and an execution return, and a transaction with those instructions and a fee payer is
  -- serialized, so that it reads back with their programs, their keys and their data (each account
  -- with any flags: those of a serialized transaction are of the whole message), the decoder reports a create of the multisig, the canonical address of n + 1, the
  -- creator, the first key of the message as the sender, both approvers with that address as the
  -- target, one execution of it, no foreign program, and of the message what the classifier makes of
  -- it. The fields of the message fit their types, its layout fits the scratch buffer, it has a first key and is one that the
  -- classifier takes; the program is an ordinary one; no recipient owner is asked for.
  pub decode_vault_solana_transaction-sent :
      (world end : W) (raw : Text) (payer vault : K) (keys : List K) (memo : Bool)
      (c : InnerClassification) (instructions received : List (TransactionInstruction K))
      → IsOrdinary w program_id
      → to_big_int opts.current_transaction_index ≡ ok (pos n)
      → suc n < 2 ^ 64
      → derive_transaction_pda w opts.multisig_address (suc n) program_id ≡ ok address
      → opts.vault_index < 256
      → IsEncodable opts.message
      → suc (length (encode_message w opts.message)) ≤ 2000
      → opts.message.account_keys ≡ vault ∷ keys
      → classify_inner_message w
          (inner_of opts.vault_index opts.message)
          (some (w.to_base58 payer))
          memo
        ≡ ok c
      → (length (w.of_base64 raw) == 0) ≡ false
      → send_instructions w chain (new_client w program_id fee) opts first second remaining world
        ≡ (ok instructions, end)
      → w.transaction_from (w.of_base64 raw)
        ≡ ok (record { fee_payer = some payer; instructions = received })
      → map unflagged received ≡ map unflagged instructions
      → (end ≡ world)
        × (decode_vault_solana_transaction w raw program_id (record {
          expected_recipient_owner = none;
          expected_mint = none;
          allow_compute_budget = none;
          allow_memo = memo;
        })
            ≡ sent_report w opts address first second vault payer c)
  unfolding decode_vault_solana_transaction
  decode_vault_solana_transaction-sent world end raw payer vault keys memo c instructions received
        ordinary index bound derived small fits short first_is classified filled built read kept =
      let known = send_instructions-eq world index bound derived small fits short in
      let same = returned (sym known ∙ built) in
      (
        sym same.1,
        rw
            (
              parse_bundle-sent raw payer received ordinary fits.lengths filled read
                  (rw (← same.0) at kept),
              classified,
              first_is,
            )
            refl,
      )
