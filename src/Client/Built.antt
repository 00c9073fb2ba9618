-- ===== src/Client/Built.antt =====
-- The instructions that the builders of sdk/src/client.ts return, the entries that the decoder makes of
-- them, and its report on a send.
use solana_multisig.Prelude.{ℕ, suc, true, false, List, [], ◌∷◌, ◌++◌, some}
use solana_multisig.Prelude.Strings.{decimal}
use solana_multisig.Web3.{Bytes, Web3, AccountMeta, TransactionInstruction}
use solana_multisig.Bytes.LittleEndian.{le_bytes}
use solana_multisig.Message.Layout.{encode_message, inner_of}
use solana_multisig.Numbers.{pos}
use solana_multisig.Classify.{InnerClassification}
use solana_multisig.Bundle.{
  ParsedCreate, ParsedMultisigIx, create_transaction_discriminator,
  approve_transaction_discriminator, execute_transaction_discriminator,
}
use solana_multisig.Decode.{DecodedBundle, create}
use solana_multisig.Client.Builders.{CreateOpts, ProposalOpts, Created, or_else_key}

module _ {K : Type 0} where
  -- The metas that Anchor makes for a create.
  abbrev pub create_metas : Web3 K → CreateOpts K → K → List (AccountMeta K)
  create_metas w opts address =
      record { pubkey = opts.multisig_address; is_signer = false; is_writable = true }
      ∷ record { pubkey = address; is_signer = false; is_writable = true }
      ∷ record { pubkey = opts.creator; is_signer = true; is_writable = false }
      ∷ record {
        pubkey = or_else_key opts.payer opts.creator;
        is_signer = true;
        is_writable = true;
      }
      ∷ record { pubkey = w.system_program_id; is_signer = false; is_writable = false }
      ∷ []

  abbrev pub create_payload : Web3 K → CreateOpts K → Bytes
  create_payload w opts =
      create_transaction_discriminator ++ ((opts.vault_index ∷ []) ++ encode_message w opts.message)

  -- The entry that the parser makes for a create.
  abbrev pub create_entry : Web3 K → ℕ → CreateOpts K → K → ParsedCreate K
  create_entry w position opts address = record {
    index = position;
    keys =
        opts.multisig_address
        ∷ address
        ∷ opts.creator
        ∷ or_else_key opts.payer opts.creator
        ∷ w.system_program_id
        ∷ [];
    payload = create_payload w opts;
    inner = inner_of opts.vault_index opts.message;
  }

  -- What the builder of a create returns.
  abbrev pub created_of : Web3 K → K → CreateOpts K → ℕ → K → Created K
  created_of w program_id opts n address = record {
    instruction = record {
      program_id = program_id;
      keys = create_metas w opts address;
      payload = create_payload w opts;
    };
    transaction_address = address;
    transaction_index = pos (suc n);
  }

  -- The entry that the parser makes for an instruction with three accounts and an index.
  abbrev pub proposal_entry : ℕ → Bytes → ProposalOpts K → ℕ → ParsedMultisigIx K
  proposal_entry position disc opts n = record {
    index = position;
    keys = opts.multisig_address ∷ opts.transaction_address ∷ opts.signer ∷ [];
    payload = disc ++ le_bytes 8 n;
  }

  -- What the builder of an approval returns.
  abbrev pub approve_of : K → ProposalOpts K → ℕ → TransactionInstruction K
  approve_of program_id opts n = record {
    program_id = program_id;
    keys =
        record { pubkey = opts.multisig_address; is_signer = false; is_writable = false }
        ∷ record { pubkey = opts.transaction_address; is_signer = false; is_writable = true }
        ∷ record { pubkey = opts.signer; is_signer = true; is_writable = false }
        ∷ [];
    payload = approve_transaction_discriminator ++ le_bytes 8 n;
  }

  -- What the builder of an execution returns.
  abbrev pub execute_of : K → ProposalOpts K → ℕ → List (AccountMeta K) → TransactionInstruction K
  execute_of program_id opts n remaining = record {
    program_id = program_id;
    keys =
        record { pubkey = opts.multisig_address; is_signer = false; is_writable = false }
        ∷ record { pubkey = opts.transaction_address; is_signer = false; is_writable = true }
        ∷ record { pubkey = opts.signer; is_signer = true; is_writable = false }
        ∷ remaining;
    payload = execute_transaction_discriminator ++ le_bytes 8 n;
  }

  -- The report on the bundle.
  abbrev pub sent_report :
      Web3 K → CreateOpts K → K → K → K → K → K → InnerClassification → DecodedBundle
  sent_report w opts address first second vault payer c = create (record {
    vault_index = opts.vault_index;
    multisig_pda = w.to_base58 opts.multisig_address;
    transaction_pda = w.to_base58 address;
    creator = w.to_base58 opts.creator;
    sender = w.to_base58 vault;
    recipients = c.recipients;
    fee_lamports = decimal c.fee_lamports;
    fee_payer = some (w.to_base58 payer);
    approvers = w.to_base58 first ∷ w.to_base58 second ∷ [];
    approve_targets = w.to_base58 address ∷ w.to_base58 address ∷ [];
    execute_targets = w.to_base58 address ∷ [];
    unknown_inner_instruction_count = c.unknown_inner_instruction_count;
    unknown_outer_programs = [];
    memos = c.memos;
  })
