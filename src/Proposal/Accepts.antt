-- ===== src/Proposal/Accepts.antt =====
-- What `compareProposalToExpected` and `fetchAndDecodeProposal` guarantee.
use solana_multisig.Prelude.{
  ℕ, ◌≡◌, ◌≢◌, refl, ap, ◌∙◌, false, [], Option, none, some, Text, Result, ok, err, Bool-cases, inl,
  inr, append-eq-nil, push_if-eq-nil, on_ok, catch,
}
use solana_multisig.Prelude.Strings.{truthy, lit}
use solana_multisig.Web3.{Bytes, Web3, IsWeb3}
use solana_multisig.Reader.{ByteReader}
use solana_multisig.FundFlows.Sound.{FlowsMatch, compare_fund_flows-FlowsMatch}
use solana_multisig.Compare.Accepts.{unless_equal-eq-nil, unless_index-eq-nil, text_eq_of_push}
use solana_multisig.Proposal.Reported.{IsCanonical, IsClassified, report_proposal-IsReported}
use solana_multisig.Proposal.{
  AccountInfo, Connection, Proposal, DecodedProposal, proposal, undecodable, ProposalOptions,
  StoredProposal, base58, ProposalExpectation, or_else, stored_proposal_reader,
  decode_vault_transaction_account, decode_answer, fetch_and_decode_proposal, proposal_view,
  multisig_binding_messages, compare_proposal, vault_index_messages, vault_pda_messages,
  target_messages,
}

-- An accepted proposal: it is open, of the expected multisig, debits its own vault, and its flows
-- are the expected ones.
pub record ProposalAccepted {K : Type 0} (w : Web3 K) (p : Proposal)
    (expected : ProposalExpectation) : Type 0 where
  pub not_executed : p.executed ≡ false
  pub multisig_given : expected.expected_multisig_pda ≢ none
  pub multisig_bound :
      (m : Text) → expected.expected_multisig_pda ≡ some (some m) → p.multisig_pda ≡ m
  pub own_vault : p.sender ≡ p.vault_pda
  pub vault_index_bound :
      (n : ℕ) → expected.payload.expected_vault_index ≡ some n → p.vault_index ≡ n
  pub vault_bound :
      (v : Text) → truthy expected.payload.expected_vault_pda ≡ some v → p.vault_pda ≡ v
  pub proposal_bound :
      (t : Text) → truthy expected.payload.expected_transaction_pda ≡ some t → p.transaction_pda ≡ t
  pub flows_match : FlowsMatch w (proposal_view w p) expected.payload.flows

binding-given :
    {K : Type 0} (w : Web3 K) (p : Proposal) (e : Option (Option Text))
    → multisig_binding_messages w p e ≡ []
    → (e ≢ none) × ((m : Text) → e ≡ some (some m) → p.multisig_pda ≡ m)
unfolding multisig_binding_messages
binding-given w p none h = cc
binding-given w p (some none) h = (λ e. cc, λ m e. cc)
binding-given w p (some (some expected)) h =
    (λ e. cc, λ m e. text_eq_of_push p.multisig_pda expected _ h ∙ cc)

ok_decoded : {d e : DecodedProposal} → ok d ≡ ok e → d ≡ e
ok_decoded e = cc

module _ {K : Type 0} (w : Web3 K) where
  -- With no message the proposal is not executed, a multisig binding was given and holds, the
  -- proposal debits its own vault, vault index, vault and proposal are the expected ones where they
  -- are given, and the fund flows match.
  pub compare_proposal-ProposalAccepted :
      (p : Proposal) (expected : ProposalExpectation)
      → compare_proposal w p expected ≡ []
      → ProposalAccepted w p expected
  unfolding compare_proposal vault_index_messages vault_pda_messages target_messages
  compare_proposal-ProposalAccepted p expected h =
      let a = append-eq-nil _ _ h in
      let b = append-eq-nil (multisig_binding_messages w p expected.expected_multisig_pda) _ a.1 in
      let c = append-eq-nil _ _ b.1 in
      let d = append-eq-nil (vault_index_messages w p expected.payload) _ c.1 in
      let e = append-eq-nil (vault_pda_messages w p expected.payload) _ d.1 in
      let f = append-eq-nil (target_messages w p expected.payload) _ e.1 in
      let bound = binding-given w p expected.expected_multisig_pda b.0 in
      record {
        not_executed = push_if-eq-nil p.executed _ a.0;
        multisig_given = bound.0;
        multisig_bound = bound.1;
        own_vault = text_eq_of_push p.sender p.vault_pda _ c.0;
        vault_index_bound = λ n. unless_index-eq-nil _ _ _ n d.0;
        vault_bound = λ v. unless_equal-eq-nil _ _ _ v e.0;
        proposal_bound = λ t. unless_equal-eq-nil _ _ _ t f.0;
        flows_match =
            compare_fund_flows-FlowsMatch w (proposal_view w p) expected.payload.flows f.1;
      }

  -- A proposal that `fetchAndDecodeProposal` returns: the account that the connection answered with
  -- at its address is owned by the program, and holds a stored proposal whose canonical address that is.
  pub record IsFetched (connection : Connection K) (program_id : K) (opts : ProposalOptions)
      (target : Text) (p : Proposal) : Type 0 where
    pub pda : K
    pub parsed : w.of_base58 target ≡ ok pda
    pub info : AccountInfo K
    pub answered : connection pda (or_else opts.commitment (lit "confirmed")) ≡ ok (some info)
    pub owned : info.owner ≡ program_id
    pub stored : StoredProposal K
    pub rest : ByteReader
    pub read :
        stored_proposal_reader w (record { buf = info.contents; offset = 0 }) ≡ ok (stored, rest)
    pub canonical : IsCanonical w program_id pda stored p
    pub flows : IsClassified w opts stored p

  module _ (laws : IsWeb3 w) (connection : Connection K) (program_id : K) where
    record IsDecoded (raw : Bytes) (pda : K) (opts : ProposalOptions) (p : Proposal) : Type 0 where
      stored : StoredProposal K
      rest : ByteReader
      read : stored_proposal_reader w (record { buf = raw; offset = 0 }) ≡ ok (stored, rest)
      canonical : IsCanonical w program_id pda stored p
      flows : IsClassified w opts stored p

    catch-proposal :
        (r : Result DecodedProposal) (p : Proposal)
        → catch r undecodable ≡ proposal p
        → r ≡ ok (proposal p)
    catch-proposal (ok d) p h = ap ok h
    catch-proposal (err e) p h = cc

    decode-IsDecoded :
        (raw : Bytes) (pda : K) (opts : ProposalOptions) (p : Proposal)
        → decode_vault_transaction_account w raw pda program_id opts ≡ proposal p
        → IsDecoded raw pda opts p
    unfolding decode_vault_transaction_account
    decode-IsDecoded raw pda opts p h =
        on_ok (stored_proposal_reader w (record { buf = raw; offset = 0 })) _ (catch-proposal _ p h)
          λ read e k.
            let reported = report_proposal-IsReported w laws read.0 pda program_id opts p k in
            record {
              stored = read.0;
              rest = read.1;
              read = e;
              canonical = reported.0;
              flows = reported.1;
            }

    answer-owned :
        (answer : Option (AccountInfo K)) (pda : K) (opts : ProposalOptions) (p : Proposal)
        → decode_answer w answer pda program_id opts ≡ ok (proposal p)
        → (info : AccountInfo K) × (answer ≡ some info)
          × (info.owner ≡ program_id)
          × IsDecoded info.contents pda opts p
    unfolding decode_answer
    answer-owned none pda opts p h = cc
    answer-owned (some info) pda opts p h = elim (Bool-cases (w.equals info.owner program_id)) [
      | inl same ↦
          let e = ok_decoded (rw same at h) in
          (info, refl, (laws.equals_iff _ _).0 same, decode-IsDecoded info.contents pda opts p e)
      | inr other ↦ absurd (cc (rw other at h))
    ]

    -- A proposal that `fetchAndDecodeProposal` returns for a base58 target was read from the account
    -- that the connection answered with there; the program owns that account, the target is the
    -- canonical address of the multisig and the index that the account stores, the sender is the first
    -- key of the stored message, and the recipients, the fee, the unknown instructions and the memos
    -- are what the classifier makes of that message.
    pub fetch_and_decode_proposal-IsFetched :
        (target : Text) (opts : ProposalOptions) (p : Proposal)
        → fetch_and_decode_proposal w connection (base58 target) program_id opts ≡ proposal p
        → IsFetched connection program_id opts target p
    unfolding fetch_and_decode_proposal
    fetch_and_decode_proposal-IsFetched target opts p h =
        on_ok (w.of_base58 target) _ (catch-proposal _ p h) λ pda e h1.
          on_ok (connection pda (or_else opts.commitment (lit "confirmed"))) _ h1 λ answer a h2.
            let found = answer-owned answer pda opts p h2 in
            record {
              pda = pda;
              parsed = e;
              info = found.0;
              answered = a ∙ ap ok found.1;
              owned = found.2;
              stored = found.3.stored;
              rest = found.3.rest;
              read = found.3.read;
              canonical = found.3.canonical;
              flows = found.3.flows;
            }
