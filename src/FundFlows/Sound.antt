-- ===== src/FundFlows/Sound.antt =====
-- What `compareFundFlows` guarantees when it pushes no message.
use solana_multisig.Prelude.{
  ℕ, ◌≤◌, ◌<◌, ◌≡◌, ◌≢◌, refl, sym, ap, ◌∙◌, inl, inr, true, false, not, ◌&&◌, List, [], Option,
  none, some, Text, arith, All, Bool-cases, Option-cases, append-eq-nil, append-nil, push_if-eq-nil,
  for_each-eq-nil, push_unless-eq-nil, ltb, ==_iff,
}
use mathlib.Core.List.{Perm}
use solana_multisig.Prelude.Strings.{text_eq, text_eq_iff, truthy, option_text_eq}
use solana_multisig.Web3.{Web3}
use solana_multisig.Classify.{Recipient, Asset, native, spl, is_spl}
use solana_multisig.FundFlows.{
  FundFlowExpectation, FundFlowView, max_fee, decoded_fee, unknown_messages, cap_messages,
  payer_messages, recipient_messages, asset_messages, spl_messages, native_messages, mint_messages,
  decimals_messages, compare_fund_flows, option_nat_eq, match_expected, pool_of,
}
use solana_multisig.FundFlows.Match.{
  PayEach, match_expected-AllTaken, leftover_messages-unused, unused-pool_of, truthy→eq,
  option_text_eq→eq,
}

-- The asset that a payload asks for: a token transfer of its mint (and decimals), or native SOL.
pub record IsTokenTransfer (expected : FundFlowExpectation) (mint : Text) (r : Recipient)
    : Type 0 where
  pub asset : r.asset ≡ spl
  pub mint_bound : r.mint ≡ some mint
  pub decimals_bound : (n : ℕ) → expected.token_decimals ≡ some n → r.decimals ≡ some n

abbrev pub IsAsset : FundFlowExpectation → Recipient → Option Text → Type 0
IsAsset expected r none = r.asset ≡ native
IsAsset expected r (some mint) = IsTokenTransfer expected mint r

abbrev pub IsBound : FundFlowExpectation → Recipient → Type 0
IsBound expected r = IsAsset expected r (truthy expected.token_mint)

-- The decoded flows are what was expected.
pub record FlowsMatch {K : Type 0} (w : Web3 K) (view : FundFlowView)
    (expected : FundFlowExpectation) : Type 0 where
  pub all_known : view.unknown_inner_instruction_count ≡ 0
  pub cap : ℕ
  pub cap_given : max_fee expected.max_fee_lamports ≡ some cap
  pub fee_bounded : decoded_fee view ≤ cap
  pub fee_payer_bound :
      (payer : Text)
      → truthy expected.expected_fee_payer ≡ some payer
      → 0 < decoded_fee view
      → view.fee_payer ≡ some payer
  pub paid : List Recipient
  pub paid_each : PayEach w expected.recipients paid
  pub nothing_else : Perm view.recipients paid
  pub bound : All (IsBound expected) view.recipients

option_nat_eq→eq : (o : Option ℕ) (n : ℕ) → option_nat_eq o (some n) ≡ true → o ≡ some n
option_nat_eq→eq none n h = cc
option_nat_eq→eq (some m) n h = ap some ((==_iff m n).0 h)

decimals_bound_of :
    (expected : FundFlowExpectation) (r : Recipient)
    → decimals_messages expected r ≡ []
    → (n : ℕ) → expected.token_decimals ≡ some n
    → r.decimals ≡ some n
unfolding decimals_messages
decimals_bound_of expected r h n e =
    option_nat_eq→eq r.decimals n (push_unless-eq-nil _ _ (rw (e, decimals_messages) at h))

is_spl→eq : (a : Asset) → is_spl a ≡ true → a ≡ spl
is_spl→eq native h = cc
is_spl→eq spl h = refl

not_spl→eq : (a : Asset) → is_spl a ≡ false → a ≡ native
not_spl→eq native h = refl
not_spl→eq spl h = cc

mint_messages→eq :
    (expected : FundFlowExpectation) (mint : Text)
    → mint_messages expected mint ≡ []
    → truthy expected.token_mint ≡ some mint
unfolding mint_messages
mint_messages→eq expected mint h = elim (Option-cases (truthy expected.token_mint)) [
  | inl unset ↦ absurd (cc (rw (unset, mint_messages) at h))
  | inr (wanted, e) ↦
      let same : text_eq mint wanted ≡ true = push_unless-eq-nil _ _ (rw (e, mint_messages) at h) in
      e ∙ ap some (sym ((text_eq_iff mint wanted).0 same))
]

spl_messages-IsBound :
    (expected : FundFlowExpectation) (r : Recipient)
    → r.asset ≡ spl
    → spl_messages expected r ≡ []
    → IsBound expected r
unfolding spl_messages
spl_messages-IsBound expected r a h = elim (Option-cases (truthy r.mint)) [
  | inl missing ↦ absurd (cc (rw (missing, spl_messages) at h))
  | inr (mint, m) ↦
      let parts =
        append-eq-nil (mint_messages expected mint) (decimals_messages expected r)
          (rw (m, spl_messages) at h) in
      rw (mint_messages→eq expected mint parts.0) (record {
        asset = a;
        mint_bound = truthy→eq r.mint mint m;
        decimals_bound = decimals_bound_of expected r parts.1;
      })
]

native_messages-IsBound :
    (expected : FundFlowExpectation) (r : Recipient)
    → r.asset ≡ native
    → native_messages expected r ≡ []
    → IsBound expected r
unfolding native_messages
native_messages-IsBound expected r a h = elim (Option-cases (truthy expected.token_mint)) [
  | inl unset ↦ rw unset a
  | inr (wanted, e) ↦ absurd (cc (rw (e, native_messages) at h))
]

asset_messages-IsBound :
    (expected : FundFlowExpectation) (r : Recipient)
    → asset_messages expected r ≡ []
    → IsBound expected r
unfolding asset_messages
asset_messages-IsBound expected r h = elim (Bool-cases (is_spl r.asset)) [
  | inl token ↦
      spl_messages-IsBound expected r (is_spl→eq r.asset token) (rw (token, asset_messages) at h)
  | inr sol ↦
      native_messages-IsBound expected r (not_spl→eq r.asset sol) (rw (sol, asset_messages) at h)
]

-- The cap, where the fee is within it.
record IsCapped (view : FundFlowView) (expected : FundFlowExpectation) : Type 0 where
  cap : ℕ
  given : max_fee expected.max_fee_lamports ≡ some cap
  bounded : decoded_fee view ≤ cap

invalid_cap :
    (view : FundFlowView) (expected : FundFlowExpectation)
    → max_fee expected.max_fee_lamports ≡ none
    → cap_messages view expected ≢ []
unfolding cap_messages
invalid_cap view expected e h = elim (Option-cases expected.max_fee_lamports) [
  | inl unset ↦ ground arith
  | inr (q, set) ↦ ground arith
]

cap_messages-IsCapped :
    (view : FundFlowView) (expected : FundFlowExpectation)
    → cap_messages view expected ≡ []
    → IsCapped view expected
unfolding cap_messages
cap_messages-IsCapped view expected h = elim (Option-cases (max_fee expected.max_fee_lamports)) [
  | inl invalid ↦ absurd (invalid_cap view expected invalid h)
  | inr (cap, e) ↦
      let within : ltb cap (decoded_fee view) ≡ false =
        push_if-eq-nil _ _ (rw (e, cap_messages) at h) in
      record { cap = cap; given = e; bounded = ground arith }
]

payer_messages-bound :
    (view : FundFlowView) (expected : FundFlowExpectation) (payer : Text)
    → payer_messages view expected ≡ []
    → truthy expected.expected_fee_payer ≡ some payer
    → 0 < decoded_fee view
    → view.fee_payer ≡ some payer
unfolding payer_messages
payer_messages-bound view expected payer h e positive =
    let quiet =
      push_if-eq-nil (ltb 0 (decoded_fee view) && not (option_text_eq view.fee_payer (some payer)))
        _ (rw (e, payer_messages) at h) in
    option_text_eq→eq view.fee_payer payer (ground arith)

unknown_messages-zero :
    (view : FundFlowView) → unknown_messages view ≡ [] → view.unknown_inner_instruction_count ≡ 0
unfolding unknown_messages
unknown_messages-zero view h =
    let quiet = push_if-eq-nil (ltb 0 view.unknown_inner_instruction_count) _ h in ground arith

module _ {K : Type 0} (w : Web3 K) where
  record IsMatched (view : FundFlowView) (expected : FundFlowExpectation) : Type 0 where
    taken : List Recipient
    each : PayEach w expected.recipients taken
    all : Perm view.recipients taken

  recipient_messages-IsMatched :
      (view : FundFlowView) (expected : FundFlowExpectation)
      → recipient_messages w view expected ≡ []
      → IsMatched view expected
  unfolding recipient_messages
  recipient_messages-IsMatched view expected h =
      let pool = pool_of view.recipients in
      let parts = append-eq-nil (match_expected w expected.recipients pool).0 _ h in
      let t = match_expected-AllTaken w expected.recipients pool parts.0 in
      let over = leftover_messages-unused w (match_expected w expected.recipients pool).1 parts.1 in
      record {
        taken = t.taken;
        each = t.paid;
        all = rw (over, append-nil, unused-pool_of) at t.split;
      }

  -- With no message the flows match: nothing is unknown, the reimbursement is within the cap and
  -- goes to the payer that was named, each expected recipient is paid by a decoded one of its own
  -- and no decoded one is left over, and every decoded one moves the asset that was asked for.
  pub compare_fund_flows-FlowsMatch :
      (view : FundFlowView) (expected : FundFlowExpectation)
      → compare_fund_flows w view expected ≡ []
      → FlowsMatch w view expected
  unfolding compare_fund_flows
  compare_fund_flows-FlowsMatch view expected h =
      let a = append-eq-nil (unknown_messages view) _ h in
      let b = append-eq-nil (cap_messages view expected) _ a.1 in
      let c = append-eq-nil (payer_messages view expected) _ b.1 in
      let d = append-eq-nil (recipient_messages w view expected) _ c.1 in
      let capped = cap_messages-IsCapped view expected b.0 in
      let matched = recipient_messages-IsMatched view expected d.0 in
      record {
        all_known = unknown_messages-zero view a.0;
        cap = capped.cap;
        cap_given = capped.given;
        fee_bounded = capped.bounded;
        fee_payer_bound = λ payer. payer_messages-bound view expected payer c.0;
        paid = matched.taken;
        paid_each = matched.each;
        nothing_else = matched.all;
        bound =
            for_each-eq-nil (IsBound expected) (asset_messages expected)
              (asset_messages-IsBound expected) view.recipients d.1;
      }
