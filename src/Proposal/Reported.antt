-- ===== src/Proposal/Reported.antt =====
-- What `decodeVaultTransactionAccount` of sdk/src/decoder.ts reports of a stored proposal.
use solana_multisig.Prelude.{
  ◌≡◌, sym, ap, ◌∙◌, not, [], some, Text, Result, ok, on_ok, throw_unless-eq-ok, map, throw_if,
  get_elem?, List, ◌∷◌,
}
use solana_multisig.Prelude.Strings.{decimal}
use solana_multisig.Web3.{Web3, IsWeb3}
use solana_multisig.Classify.{InnerClassification, classify_inner_message}
use solana_multisig.Decode.{resolve_if_asked, first_key}
use solana_multisig.Proposal.{
  Proposal, DecodedProposal, proposal, ProposalOptions, StoredProposal, or_else, derive_vault_pda,
  derive_transaction_pda, report_proposal,
}

-- Where a decoded proposal comes from: the account at `pda`, owned by the program, holds it, and
-- `pda` is the canonical address of its multisig and index.
pub record IsCanonical {K : Type 0} (w : Web3 K) (program_id pda : K) (stored : StoredProposal K)
    (p : Proposal) : Type 0 where
  pub address :
      derive_transaction_pda w stored.multisig stored.transaction_index program_id ≡ ok pda
  pub vault : K
  pub vault_address : derive_vault_pda w stored.multisig stored.vault_index program_id ≡ ok vault
  pub transaction_pda : p.transaction_pda ≡ w.to_base58 pda
  pub multisig_pda : p.multisig_pda ≡ w.to_base58 stored.multisig
  pub transaction_index : p.transaction_index ≡ decimal stored.transaction_index
  pub vault_pda : p.vault_pda ≡ w.to_base58 vault
  pub vault_index : p.vault_index ≡ stored.vault_index
  pub executed : p.executed ≡ stored.executed
  pub approvals : p.approvals ≡ map w.to_base58 stored.approvals

-- What the flows of a proposal are: of the stored message, what the classifier makes of it for the
-- fee payer of the options, or else the payer of the account, with the recipients resolved to an
-- owner where the options ask for it; and the first key of the message is what it debits.
pub record IsClassified {K : Type 0} (w : Web3 K) (opts : ProposalOptions)
    (stored : StoredProposal K) (p : Proposal) : Type 0 where
  pub debited : K
  pub first : get_elem? stored.inner.account_keys 0 ≡ some debited
  pub sender : p.sender ≡ w.to_base58 debited
  pub fee_payer : p.fee_payer ≡ some (or_else opts.fee_payer (w.to_base58 stored.payer))
  pub classified : InnerClassification
  pub classification :
      classify_inner_message w stored.inner p.fee_payer opts.allow_memo ≡ ok classified
  pub recipients :
      resolve_if_asked w opts.expected_recipient_owner opts.expected_mint classified.recipients
      ≡ ok p.recipients
  pub fee : p.fee_lamports ≡ decimal classified.fee_lamports
  pub unknown : p.unknown_inner_instruction_count ≡ classified.unknown_inner_instruction_count
  pub memos : p.memos ≡ classified.memos
  pub creator : p.creator ≡ w.to_base58 stored.creator
  pub payer : p.payer ≡ w.to_base58 stored.payer

first_key-get :
    {K : Type 0} (w : Web3 K) (keys : List K) (message : Text) (k : K)
    → first_key w keys message ≡ ok k
    → get_elem? keys 0 ≡ some k
first_key-get w [] message k h = cc
first_key-get w (x ∷ keys) message k h = cc

proposal_injective :
    {p q : Proposal} → ◌≡◌ {A = Result DecodedProposal} (ok (proposal p)) (ok (proposal q)) → p ≡ q
proposal_injective e = cc

module _ {K : Type 0} (w : Web3 K) where
  -- What is reported of a stored proposal is the proposal itself, and what its message does.
  pub report_proposal-IsReported :
      IsWeb3 w
      → (stored : StoredProposal K) (pda program_id : K) (opts : ProposalOptions) (p : Proposal)
      → report_proposal w stored pda program_id opts ≡ ok (proposal p)
      → IsCanonical w program_id pda stored p × IsClassified w opts stored p
  unfolding report_proposal
  report_proposal-IsReported laws stored pda program_id opts p h =
      on_ok (derive_transaction_pda w stored.multisig stored.transaction_index program_id) _ h
        λ canonical d h1. on_ok (throw_if (not (w.equals canonical pda)) _) _ h1 λ u t h2.
          on_ok (classify_inner_message w stored.inner _ opts.allow_memo) _ h2 λ classified c h3.
            on_ok
              (resolve_if_asked w opts.expected_recipient_owner opts.expected_mint
                classified.recipients)
              _ h3
              λ recipients r h4.
                on_ok (derive_vault_pda w stored.multisig stored.vault_index program_id) _ h4
                  λ vault v h5. on_ok (first_key w stored.inner.account_keys []) _ h5 λ sender s h6.
                    let same = proposal_injective h6 in
                    (
                      record {
                        address =
                            d
                            ∙ ap ok
                                ((laws.equals_iff canonical pda).0 (throw_unless-eq-ok _ _ u t));
                        vault = vault;
                        vault_address = v;
                        transaction_pda = ap (λ (x : Proposal). x.transaction_pda) (sym same);
                        multisig_pda = ap (λ (x : Proposal). x.multisig_pda) (sym same);
                        transaction_index = ap (λ (x : Proposal). x.transaction_index) (sym same);
                        vault_pda = ap (λ (x : Proposal). x.vault_pda) (sym same);
                        vault_index = ap (λ (x : Proposal). x.vault_index) (sym same);
                        executed = ap (λ (x : Proposal). x.executed) (sym same);
                        approvals = ap (λ (x : Proposal). x.approvals) (sym same);
                      },
                      record {
                        debited = sender;
                        first = first_key-get w stored.inner.account_keys [] sender s;
                        sender = ap (λ (x : Proposal). x.sender) (sym same);
                        fee_payer = ap (λ (x : Proposal). x.fee_payer) (sym same);
                        classified = classified;
                        classification =
                            ap
                              (λ (x : Proposal).
                                classify_inner_message w stored.inner x.fee_payer opts.allow_memo)
                              (sym same)
                            ∙ c;
                        recipients = r ∙ ap (λ (x : Proposal). ok x.recipients) same;
                        fee = ap (λ (x : Proposal). x.fee_lamports) (sym same);
                        unknown =
                            ap (λ (x : Proposal). x.unknown_inner_instruction_count) (sym same);
                        memos = ap (λ (x : Proposal). x.memos) (sym same);
                        creator = ap (λ (x : Proposal). x.creator) (sym same);
                        payer = ap (λ (x : Proposal). x.payer) (sym same);
                      },
                    )
