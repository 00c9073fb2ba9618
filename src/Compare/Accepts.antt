-- ===== src/Compare/Accepts.antt =====
-- What `compareDecodedToExpected` guarantees when it answers `ok: true`.
use solana_multisig.Prelude.{
  ℕ, ◌≡◌, refl, true, not, List, [], ◌∷◌, Option, some, Text, All, Option-cases, inl, inr,
  append-eq-nil, push_if, push_unless-eq-nil, for_each-eq-nil, ==_iff, Bool-cases,
}
use solana_multisig.Prelude.Strings.{text_eq, text_eq_iff, truthy}
use solana_multisig.Web3.{Web3}
use solana_multisig.FundFlows.Sound.{FlowsMatch, compare_fund_flows-FlowsMatch}
use solana_multisig.Decode.{
  CreateBundle, ApproveBundle, DecodedBundle, create, approve, undecodable,
}
use solana_multisig.Compare.{
  BundleExpectation, is_empty, unless_equal, unless_index, unknown_outer_messages,
  multisig_messages, approve_target_messages, verified_messages, compare_approve, vault_messages,
  create_view, compare_create, compare_decoded_to_expected,
}

pub unless_equal-eq-nil :
    (expected : Option Text) (actual : Text) (message : Text → Text) (t : Text)
    → unless_equal expected actual message ≡ []
    → truthy expected ≡ some t
    → actual ≡ t
unless_equal-eq-nil expected actual message t h e =
    (text_eq_iff actual t).0 (push_unless-eq-nil _ _ (rw (e, unless_equal) at h))

pub unless_index-eq-nil :
    (expected : Option ℕ) (actual : ℕ) (message : ℕ → Text) (n : ℕ)
    → unless_index expected actual message ≡ []
    → expected ≡ some n
    → actual ≡ n
unless_index-eq-nil expected actual message n h e =
    (==_iff actual n).0 (push_unless-eq-nil _ _ (rw (e, unless_index) at h))

pub is_empty→eq {ℓ} : {A : Type ℓ} (xs : List A) → is_empty xs ≡ true → xs ≡ []
is_empty→eq [] h = refl
is_empty→eq (x ∷ xs) h = cc

pub text_eq_of_push : (s t message : Text) → push_if (not (text_eq s t)) message ≡ [] → s ≡ t
text_eq_of_push s t message h = (text_eq_iff s t).0 (push_unless-eq-nil _ message h)

unknown_outer_messages-eq-nil : (ps : List Text) → unknown_outer_messages ps ≡ [] → ps ≡ []
unfolding unknown_outer_messages
unknown_outer_messages-eq-nil [] h = refl
unknown_outer_messages-eq-nil (p ∷ ps) h = cc

-- An accepted create bundle.
pub record CreateAccepted {K : Type 0} (w : Web3 K) (decoded : CreateBundle)
    (expected : BundleExpectation) : Type 0 where
  pub outer_known : decoded.unknown_outer_programs ≡ []
  pub multisig_bound :
      (m : Text) → truthy expected.expected_multisig_pda ≡ some m → decoded.multisig_pda ≡ m
  pub vault_index_bound :
      (n : ℕ) → expected.payload.expected_vault_index ≡ some n → decoded.vault_index ≡ n
  pub vault_bound :
      (v : Text) → truthy expected.payload.expected_vault_pda ≡ some v → decoded.sender ≡ v
  pub approves_created : All (λ t. t ≡ decoded.transaction_pda) decoded.approve_targets
  pub executes_created : All (λ t. t ≡ decoded.transaction_pda) decoded.execute_targets
  pub proposal_bound :
      (t : Text)
      → truthy expected.payload.expected_transaction_pda ≡ some t
      → decoded.transaction_pda ≡ t
  pub flows_match : FlowsMatch w (create_view decoded) expected.payload.flows

-- An accepted approve-only bundle: the caller has verified the one proposal that it targets.
pub record ApproveAccepted (decoded : ApproveBundle) (expected : BundleExpectation) : Type 0 where
  pub outer_known : decoded.unknown_outer_programs ≡ []
  pub multisig_bound :
      (m : Text) → truthy expected.expected_multisig_pda ≡ some m → decoded.multisig_pda ≡ m
  pub one_target : All (λ t. t ≡ decoded.transaction_pda) decoded.approve_targets
  pub one_multisig : All (λ m. m ≡ decoded.multisig_pda) decoded.approve_multisigs
  pub verified : expected.approve_only_verified_on_chain ≡ true
  pub proposal : Text
  pub proposal_given : truthy expected.payload.expected_transaction_pda ≡ some proposal
  pub proposal_bound : decoded.transaction_pda ≡ proposal

module _ {K : Type 0} (w : Web3 K) where
  -- What acceptance means for each kind of bundle; none for undecodable bytes.
  abbrev pub Accepted : DecodedBundle → BundleExpectation → Type 0
  Accepted (create decoded) expected = CreateAccepted w decoded expected
  Accepted (approve decoded) expected = ApproveAccepted decoded expected
  Accepted (undecodable error) expected = ⊥

  compare_create-CreateAccepted :
      (decoded : CreateBundle) (expected : BundleExpectation)
      → compare_create w decoded expected ≡ []
      → CreateAccepted w decoded expected
  unfolding compare_create
  compare_create-CreateAccepted decoded expected h =
      let a = append-eq-nil (unknown_outer_messages decoded.unknown_outer_programs) _ h in
      let b =
        append-eq-nil (multisig_messages decoded.multisig_pda expected.expected_multisig_pda) _
          a.1 in
      let c = append-eq-nil (vault_messages decoded expected.payload) _ b.1 in
      let v =
        append-eq-nil (unless_index expected.payload.expected_vault_index decoded.vault_index _) _
          c.0 in
      let d = append-eq-nil _ _ c.1 in
      let e = append-eq-nil _ _ d.1 in
      let f = append-eq-nil _ _ e.1 in
      record {
        outer_known = unknown_outer_messages-eq-nil _ a.0;
        multisig_bound = λ m. unless_equal-eq-nil expected.expected_multisig_pda _ _ m b.0;
        vault_index_bound = λ n. unless_index-eq-nil _ _ _ n v.0;
        vault_bound = λ t. unless_equal-eq-nil _ _ _ t v.1;
        approves_created =
            for_each-eq-nil _ _ (λ t. text_eq_of_push t _ _) decoded.approve_targets d.0;
        executes_created =
            for_each-eq-nil _ _ (λ t. text_eq_of_push t _ _) decoded.execute_targets e.0;
        proposal_bound = λ t. unless_equal-eq-nil _ _ _ t f.0;
        flows_match =
            compare_fund_flows-FlowsMatch w (create_view decoded) expected.payload.flows f.1;
      }

  record IsVerified (expected : BundleExpectation) : Type 0 where
    flag : expected.approve_only_verified_on_chain ≡ true
    target : Text
    given : truthy expected.payload.expected_transaction_pda ≡ some target

  verified_messages-IsVerified :
      (expected : BundleExpectation) → verified_messages expected ≡ [] → IsVerified expected
  unfolding verified_messages
  verified_messages-IsVerified expected h =
      elim (Bool-cases expected.approve_only_verified_on_chain) [
        | inr unset ↦ absurd (cc (rw (unset, verified_messages) at h))
        | inl set ↦ elim (Option-cases (truthy expected.payload.expected_transaction_pda)) [
          | inl missing ↦ absurd (cc (rw (set, missing, verified_messages) at h))
          | inr (target, given) ↦ record { flag = set; target = target; given = given }
        ]
      ]

  pub compare_approve-ApproveAccepted :
      (decoded : ApproveBundle) (expected : BundleExpectation)
      → compare_approve decoded expected ≡ []
      → ApproveAccepted decoded expected
  unfolding compare_approve
  compare_approve-ApproveAccepted decoded expected h =
      let a = append-eq-nil (unknown_outer_messages decoded.unknown_outer_programs) _ h in
      let b =
        append-eq-nil (multisig_messages decoded.multisig_pda expected.expected_multisig_pda) _
          a.1 in
      let c = append-eq-nil _ _ b.1 in
      let d = append-eq-nil _ _ c.1 in
      let e = append-eq-nil _ _ d.1 in
      let v = verified_messages-IsVerified expected e.1 in
      record {
        outer_known = unknown_outer_messages-eq-nil _ a.0;
        multisig_bound = λ m. unless_equal-eq-nil expected.expected_multisig_pda _ _ m b.0;
        one_target =
            for_each-eq-nil _ (approve_target_messages decoded expected.payload)
              (λ t k. text_eq_of_push t _ _ (append-eq-nil _ _ k).0) decoded.approve_targets c.0;
        one_multisig =
            for_each-eq-nil _ _ (λ m. text_eq_of_push m _ _) decoded.approve_multisigs d.0;
        verified = v.flag;
        proposal = v.target;
        proposal_given = v.given;
        proposal_bound = unless_equal-eq-nil _ _ _ v.target e.0 v.given;
      }

  -- `ok: true` for a bundle means: a create bundle has no unknown outer program, every approve and
  -- execute targets the created proposal, multisig, vault index, vault and proposal are the expected
  -- ones where they are given, and the fund flows match; an approve-only bundle has one target and
  -- one multisig, which are the expected ones, and the caller has set the flag with the proposal;
  -- undecodable bytes are never accepted.
  pub compare_decoded_to_expected-Accepted :
      (decoded : DecodedBundle) (expected : BundleExpectation)
      → (compare_decoded_to_expected w decoded expected).accepted ≡ true
      → Accepted decoded expected
  unfolding compare_decoded_to_expected
  compare_decoded_to_expected-Accepted (undecodable error) expected h = cc
  compare_decoded_to_expected-Accepted (approve decoded) expected h =
      compare_approve-ApproveAccepted decoded expected (is_empty→eq _ h)
  compare_decoded_to_expected-Accepted (create decoded) expected h =
      compare_create-CreateAccepted decoded expected (is_empty→eq _ h)
