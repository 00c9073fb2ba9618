-- ===== src/Proposal.antt =====
-- The on-chain `VaultTransaction` behind an approve-only request: `decodeVaultTransactionAccount`,
-- `fetchAndDecodeProposal` and `compareProposalToExpected` of sdk/src/decoder.ts.
pub mod Accepts
pub mod Reported
pub mod Stored
use solana_multisig.Prelude.{
  ℕ, suc, ◌%◌, Bool, true, false, ◌&&◌, not, List, [], ◌∷◌, ◌++◌, map, Option, none, some, Text,
  Result, ok, err, throw_if, catch, ◌==◌, if◌then◌else◌, push_if, for_each, length,
}
use solana_multisig.Prelude
use solana_multisig.Prelude.Strings.{lit, decimal, text_eq, truthy}
use solana_multisig.Web3.{Bytes, Web3}
use solana_multisig.Bytes.{bytes_equal}
use solana_multisig.Bytes.LittleEndian.{le_bytes}
use solana_multisig.Reader.{
  ByteReader, Reader, ◌>>=◌, ◌>>◌, return, lift, u8, u32, u64, bool, bytes, pubkey, repeat,
}
use solana_multisig.Message.{InnerMessage, parse_transaction_message}
use solana_multisig.Classify.{Recipient, InnerClassification, classify_inner_message}
use solana_multisig.FundFlows.{ExpectedPayload, FundFlowView, compare_fund_flows}
use solana_multisig.Decode.{resolve_if_asked, first_key}
use solana_multisig.Compare.{Verdict, verdict, unless_equal, unless_index}

abbrev pub vault_transaction_account_discriminator : Bytes
vault_transaction_account_discriminator = 168 ∷ 250 ∷ 162 ∷ 100 ∷ 81 ∷ 14 ∷ 162 ∷ 207 ∷ []

-- `SolanaAccountInfoLike`.
pub record AccountInfo (K : Type 0) : Type 0 where
  pub owner : K
  pub contents : Bytes

-- `SolanaConnectionLike`: the answer to `getAccountInfo(key, commitment)`, or the error of the call.
abbrev pub Connection : Type 0 → Type 0
Connection K = K → Text → Result (Option (AccountInfo K))

-- The "proposal" case of `DecodedOnChainProposal`.
pub record Proposal : Type 0 where
  pub transaction_pda : Text
  pub multisig_pda : Text
  pub transaction_index : Text
  pub creator : Text
  pub payer : Text
  pub vault_index : ℕ
  pub vault_pda : Text
  pub executed : Bool
  pub approvals : List Text
  pub sender : Text
  pub recipients : List Recipient
  pub fee_lamports : Text
  pub fee_payer : Option Text
  pub unknown_inner_instruction_count : ℕ
  pub memos : List Text

pub data DecodedProposal : Type 0 where
  proposal : Proposal → DecodedProposal
  undecodable : Text → DecodedProposal

-- `DecodeProposalOptions` with `commitment`; a call without options has every field unset.
pub record ProposalOptions : Type 0 where
  pub fee_payer : Option Text
  pub allow_memo : Bool
  pub expected_recipient_owner : Option Text
  pub expected_mint : Option Text
  pub commitment : Option Text

-- What is read of a `VaultTransaction` account.
pub record StoredProposal (K : Type 0) : Type 0 where
  pub multisig : K
  pub transaction_index : ℕ
  pub creator : K
  pub payer : K
  pub vault_index : ℕ
  pub executed : Bool
  pub approvals : List K
  pub inner : InnerMessage K

-- `transactionPda: PublicKey | string`.
pub data KeyArgument (K : Type 0) : Type 0 where
  key : K → KeyArgument K
  base58 : Text → KeyArgument K

-- The payload, and `expectedMultisigPda: string | null` of an untyped caller: `none` for undefined,
-- `some none` for null.
pub record ProposalExpectation : Type 0 where
  pub payload : ExpectedPayload
  pub expected_multisig_pda : Option (Option Text)

abbrev pub or_else : Option Text → Text → Text
or_else none t = t
or_else (some s) t = s

module _ {K : Type 0} (w : Web3 K) where
  unfoldable pub derive_vault_pda : K → ℕ → K → Result K
  derive_vault_pda multisig vault_index program_id =
      Prelude.◌>>=◌
        (w.find_program_address (lit "vault" ∷ w.to_bytes multisig ∷ (vault_index % 256 ∷ []) ∷ [])
          program_id)
        (λ found. ok found.0)

  -- `index.writeBigUInt64LE(transactionIndex)`, for an index that was read from eight bytes.
  unfoldable pub derive_transaction_pda : K → ℕ → K → Result K
  derive_transaction_pda multisig transaction_index program_id =
      Prelude.◌>>=◌
        (w.find_program_address
          (lit "transaction" ∷ w.to_bytes multisig ∷ le_bytes 8 transaction_index ∷ []) program_id)
        (λ found. ok found.0)

  unfoldable pub stored_proposal_reader : Reader (StoredProposal K)
  stored_proposal_reader = do
    disc ← bytes 8
    lift (
        throw_if (not (bytes_equal disc vault_transaction_account_discriminator))
          (lit "account is not a VaultTransaction (discriminator mismatch)"))
    multisig ← pubkey w
    transaction_index ← u64
    creator ← pubkey w
    payer ← pubkey w
    u8
    vault_index ← u8
    u8
    executed ← bool
    approval_count ← u32
    approvals ← repeat approval_count (pubkey w)
    inner ← parse_transaction_message w vault_index
    return (record {
      multisig = multisig;
      transaction_index = transaction_index;
      creator = creator;
      payer = payer;
      vault_index = vault_index;
      executed = executed;
      approvals = approvals;
      inner = inner;
    })

  -- The rest of the `try` block, behind the reads.
  unfoldable pub report_proposal :
      StoredProposal K → K → K → ProposalOptions → Result DecodedProposal
  unfolding derive_transaction_pda derive_vault_pda
  report_proposal stored transaction_pda program_id opts =
      let fee_payer = or_else opts.fee_payer (w.to_base58 stored.payer) in
      Prelude.◌>>=◌ (derive_transaction_pda stored.multisig stored.transaction_index program_id)
        λ canonical_pda.
          Prelude.◌>>◌
            (throw_if (not (w.equals canonical_pda transaction_pda)) (
              lit "account "
              ++ (w.to_base58 transaction_pda
                  ++ (lit " is not the canonical proposal PDA for multisig "
                      ++ (w.to_base58 stored.multisig
                          ++ (lit " index " ++ decimal stored.transaction_index))))))
            (Prelude.◌>>=◌ (classify_inner_message w stored.inner (some fee_payer) opts.allow_memo)
              λ classified.
                Prelude.◌>>=◌
                  (resolve_if_asked w opts.expected_recipient_owner opts.expected_mint
                    classified.recipients)
                  λ recipients.
                    Prelude.◌>>=◌ (derive_vault_pda stored.multisig stored.vault_index program_id)
                      λ vault_pda.
                        Prelude.◌>>=◌ (first_key w stored.inner.account_keys []) λ sender. ok (
                          proposal (record {
                            transaction_pda = w.to_base58 transaction_pda;
                            multisig_pda = w.to_base58 stored.multisig;
                            transaction_index = decimal stored.transaction_index;
                            creator = w.to_base58 stored.creator;
                            payer = w.to_base58 stored.payer;
                            vault_index = stored.vault_index;
                            vault_pda = w.to_base58 vault_pda;
                            executed = stored.executed;
                            approvals = map w.to_base58 stored.approvals;
                            sender = w.to_base58 sender;
                            recipients = recipients;
                            fee_lamports = decimal classified.fee_lamports;
                            fee_payer = some fee_payer;
                            unknown_inner_instruction_count =
                                classified.unknown_inner_instruction_count;
                            memos = classified.memos;
                          })))

  unfoldable pub decode_vault_transaction_account :
      Bytes → K → K → ProposalOptions → DecodedProposal
  unfolding stored_proposal_reader report_proposal
  decode_vault_transaction_account raw transaction_pda program_id opts =
      catch
        (Prelude.◌>>=◌ (stored_proposal_reader (record { buf = raw; offset = 0 }))
          (λ read. report_proposal read.0 transaction_pda program_id opts))
        undecodable

  key_of : KeyArgument K → Result K
  key_of (key k) = ok k
  key_of (base58 t) = w.of_base58 t

  -- The body of `fetchAndDecodeProposal` behind the answer of `getAccountInfo`.
  unfoldable pub decode_answer :
      Option (AccountInfo K) → K → K → ProposalOptions → Result DecodedProposal
  decode_answer none pda program_id opts =
      err (lit "proposal account " ++ (w.to_base58 pda ++ lit " not found on-chain"))
  decode_answer (some info) pda program_id opts =
      if not (w.equals info.owner program_id)
      then err (
          lit "proposal account "
          ++ (w.to_base58 pda
              ++ (lit " is owned by "
                  ++ (w.to_base58 info.owner
                      ++ (lit ", not the multisig program " ++ w.to_base58 program_id)))))
      else ok (decode_vault_transaction_account info.contents pda program_id opts)

  unfoldable pub fetch_and_decode_proposal :
      Connection K → KeyArgument K → K → ProposalOptions → DecodedProposal
  unfolding key_of decode_answer
  fetch_and_decode_proposal connection transaction_pda program_id opts =
      catch
        (Prelude.◌>>=◌ (key_of transaction_pda) λ pda.
          Prelude.◌>>=◌ (connection pda (or_else opts.commitment (lit "confirmed")))
            λ info. decode_answer info pda program_id opts)
        undecodable

  abbrev pub proposal_view : Proposal → FundFlowView
  proposal_view p = record {
    recipients = p.recipients;
    fee_lamports = p.fee_lamports;
    fee_payer = p.fee_payer;
    unknown_inner_instruction_count = p.unknown_inner_instruction_count;
  }

  multisig_binding_messages : Proposal → Option (Option Text) → List Text
  multisig_binding_messages p none =
      lit "expectedMultisigPda must be provided (or explicitly null)" ∷ []
  multisig_binding_messages p (some none) = []
  multisig_binding_messages p (some (some expected)) =
      push_if (not (text_eq p.multisig_pda expected))
        (lit "proposal belongs to multisig " ++ (p.multisig_pda ++ (lit ", expected " ++ expected)))

  vault_index_messages : Proposal → ExpectedPayload → List Text
  vault_index_messages p expected = unless_index expected.expected_vault_index p.vault_index (λ e.
      lit "proposal vault index "
      ++ (decimal p.vault_index ++ (lit " does not match expected " ++ decimal e)))

  vault_pda_messages : Proposal → ExpectedPayload → List Text
  vault_pda_messages p expected = unless_equal expected.expected_vault_pda p.vault_pda (λ e.
      lit "proposal vault " ++ (p.vault_pda ++ (lit " does not match the expected vault " ++ e)))

  target_messages : Proposal → ExpectedPayload → List Text
  target_messages p expected =
      unless_equal expected.expected_transaction_pda p.transaction_pda
        (λ e. lit "proposal " ++ (p.transaction_pda ++ (lit " does not match expected " ++ e)))

  -- The messages for a proposal that was decoded.
  unfoldable pub compare_proposal : Proposal → ProposalExpectation → List Text
  unfolding multisig_binding_messages vault_index_messages vault_pda_messages target_messages
  compare_proposal p expected =
      push_if p.executed
        (lit "proposal " ++ (p.transaction_pda ++ lit " has already been executed"))
      ++ (multisig_binding_messages p expected.expected_multisig_pda
          ++ (push_if (not (text_eq p.sender p.vault_pda)) (
                lit "proposal debits " ++ (p.sender ++ (lit ", not its vault PDA " ++ p.vault_pda)))
              ++ (vault_index_messages p expected.payload
                  ++ (vault_pda_messages p expected.payload
                      ++ (target_messages p expected.payload
                          ++ compare_fund_flows w (proposal_view p) expected.payload.flows)))))

  unfoldable pub compare_proposal_to_expected : DecodedProposal → ProposalExpectation → Verdict
  unfolding compare_proposal
  compare_proposal_to_expected (undecodable error) expected = record {
    accepted = false;
    mismatches = (lit "on-chain proposal is undecodable: " ++ error) ∷ [];
  }
  compare_proposal_to_expected (proposal p) expected = verdict (compare_proposal p expected)
