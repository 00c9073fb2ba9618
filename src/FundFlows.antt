-- ===== src/FundFlows.antt =====
-- `compareFundFlows` and `recipientMatchesAddress` of sdk/src/decoder.ts: the decoded fund flows
-- against what the device displays. A `mismatches.push` is a text in the returned list.
pub mod Match
pub mod Sound
use solana_multisig.Prelude.{
  ℕ, zero, suc, ◌+◌, Bool, true, false, ◌&&◌, ◌||◌, not, List, [], ◌∷◌, ◌++◌, map, Option, none,
  some, Text, Result, ok, err, ◌>>=◌, catch, ltb, ◌==◌, if◌then◌else◌, push_if, for_each,
}
use solana_multisig.Prelude.Strings.{lit, decimal, text_eq, truthy, option_text_eq}
use solana_multisig.Web3.{Web3}
use solana_multisig.Numbers.{
  Quantity, string, number, bigint, quantity_text, to_bigint_or_null, amount_of,
}
use solana_multisig.Classify.{
  Recipient, Asset, native, spl, is_spl, derive_associated_token_address,
}

pub record ExpectedRecipient : Type 0 where
  pub address : Text
  pub amount : Text

-- `FundFlowExpectation`, a part of `ExpectedSolanaVaultPayload`.
pub record FundFlowExpectation : Type 0 where
  pub recipients : List ExpectedRecipient
  pub token_mint : Option Text
  pub token_decimals : Option ℕ
  pub max_fee_lamports : Option Quantity
  pub expected_fee_payer : Option Text

-- `ExpectedSolanaVaultPayload` without `expectedMultisigPda`, which its users take each in their way.
pub record ExpectedPayload : Type 0 where
  pub flows : FundFlowExpectation
  pub expected_transaction_pda : Option Text
  pub expected_vault_index : Option ℕ
  pub expected_vault_pda : Option Text

pub record FundFlowView : Type 0 where
  pub recipients : List Recipient
  pub fee_lamports : Text
  pub fee_payer : Option Text
  pub unknown_inner_instruction_count : ℕ

-- An entry of the pool of recipients that are still to be matched.
pub record PoolEntry : Type 0 where
  pub recipient : Recipient
  pub used : Bool

-- `expected.maxFeeLamports`, 0 when it is not set and null when it is no amount.
unfoldable pub max_fee : Option Quantity → Option ℕ
max_fee none = some 0
max_fee (some (number x)) = to_bigint_or_null (some (number x))
max_fee (some (string t)) = to_bigint_or_null (some (string (quantity_text (string t))))
max_fee (some (bigint z)) = to_bigint_or_null (some (string (quantity_text (bigint z))))

-- `toBigIntOrNull(view.feeLamports) ?? BigInt(0)`.
abbrev pub decoded_fee : FundFlowView → ℕ
decoded_fee view = elim (amount_of view.fee_lamports) [ none ↦ 0 | some n ↦ n ]

abbrev pub text_or : Option Text → Text → Text
text_or none t = t
text_or (some s) t = s

unknown_messages : FundFlowView → List Text
unknown_messages view = push_if (ltb 0 view.unknown_inner_instruction_count) (
    decimal view.unknown_inner_instruction_count
    ++ lit " unrecognized inner instruction(s) in the transaction message")

cap_messages : FundFlowView → FundFlowExpectation → List Text
cap_messages view expected = elim (max_fee expected.max_fee_lamports) [
  | none ↦ elim expected.max_fee_lamports [
    | none ↦ lit "invalid maxFeeLamports: undefined" ∷ []
    | some q ↦ (lit "invalid maxFeeLamports: " ++ quantity_text q) ∷ []
  ]
  | some cap ↦ push_if (ltb cap (decoded_fee view)) (
      lit "vault->fee-payer outflow of "
      ++ (decimal (decoded_fee view)
          ++ (lit " lamports exceeds the allowed maximum of " ++ decimal cap)))
]

payer_messages : FundFlowView → FundFlowExpectation → List Text
payer_messages view expected = elim (truthy expected.expected_fee_payer) [
  | none ↦ []
  | some payer ↦
      push_if (ltb 0 (decoded_fee view) && not (option_text_eq view.fee_payer (some payer))) (
        lit "fee paid to "
        ++ (text_or view.fee_payer (lit "unknown") ++ (lit ", expected fee payer " ++ payer)))
]

-- The first entry that is unused and passes the test is marked as used.
unfoldable pub use_first : (Recipient → Bool) → List PoolEntry → Option (List PoolEntry)
use_first test [] = none
use_first test (entry ∷ rest) =
    if not entry.used && test entry.recipient
    then some (record entry { used = true } ∷ rest)
    else elim (use_first test rest) [ none ↦ none | some rest' ↦ some (entry ∷ rest') ]

-- The messages of the second loop over the pool.
unfoldable pub leftover_messages : List PoolEntry → List Text
leftover_messages [] = []
leftover_messages (entry ∷ rest) =
    push_if (not entry.used) (
      lit "decoded recipient "
      ++ (entry.recipient.address
          ++ (lit " with amount "
              ++ (entry.recipient.amount ++ lit " is not present in the expected payload"))))
    ++ leftover_messages rest

abbrev pub option_nat_eq : Option ℕ → Option ℕ → Bool
option_nat_eq none none = true
option_nat_eq none (some n) = false
option_nat_eq (some m) none = false
option_nat_eq (some m) (some n) = m == n

abbrev pub decimals_text : Option ℕ → Text
decimals_text none = lit "undefined"
decimals_text (some n) = decimal n

mint_messages : FundFlowExpectation → Text → List Text
mint_messages expected mint = elim (truthy expected.token_mint) [
  | none ↦
      (lit "decoded SPL token transfer of mint "
        ++ (mint ++ lit " but the expected payload is a native SOL transfer"))
      ∷ []
  | some token ↦
      push_if (not (text_eq mint token))
        (lit "decoded token mint " ++ (mint ++ (lit " does not match expected mint " ++ token)))
]

decimals_messages : FundFlowExpectation → Recipient → List Text
decimals_messages expected r = elim expected.token_decimals [
  | none ↦ []
  | some n ↦ push_if (not (option_nat_eq r.decimals (some n))) (
      lit "decoded token decimals "
      ++ (decimals_text r.decimals ++ (lit " do not match expected decimals " ++ decimal n)))
]

spl_messages : FundFlowExpectation → Recipient → List Text
spl_messages expected r = elim (truthy r.mint) [
  | none ↦
      (lit "SPL transfer to "
        ++ (r.address
            ++ lit " carries no mint on the wire (legacy Transfer) and cannot be verified"))
      ∷ []
  | some mint ↦ mint_messages expected mint ++ decimals_messages expected r
]

native_messages : FundFlowExpectation → Recipient → List Text
native_messages expected r = elim (truthy expected.token_mint) [
  | none ↦ []
  | some token ↦
      (lit "decoded native SOL transfer to "
        ++ (r.address ++ (lit " but the expected payload is a token transfer of mint " ++ token)))
      ∷ []
]

-- One round of the loop that binds assets.
unfoldable pub asset_messages : FundFlowExpectation → Recipient → List Text
unfolding spl_messages native_messages mint_messages decimals_messages
asset_messages expected r =
    if is_spl r.asset then spl_messages expected r else native_messages expected r

-- The pool before the first match.
abbrev pub pool_of : List Recipient → List PoolEntry
pool_of [] = []
pool_of (r ∷ rs) = record { recipient = r; used = false } ∷ pool_of rs

module _ {K : Type 0} (w : Web3 K) where
  -- The `try` block of `recipientMatchesAddress`.
  unfoldable pub derived_ata : Text → Text → Text → Result Text
  derived_ata owner_base58 mint_base58 program_base58 = do
    owner ← w.of_base58 owner_base58
    mint ← w.of_base58 mint_base58
    token_program ← w.of_base58 program_base58
    derived ← derive_associated_token_address w owner mint token_program
    ok (w.to_base58 derived)

  owner_matches : Recipient → Text → Bool
  unfolding derived_ata
  owner_matches r expected_address = elim (truthy r.ata) [
    | none ↦ false
    | some ata ↦ elim (truthy r.mint) [
      | none ↦ false
      | some mint ↦ elim (truthy r.token_program) [
        | none ↦ false
        | some program ↦ elim (derived_ata expected_address mint program) [
          | ok derived ↦ text_eq derived ata
          | err e ↦ false
        ]
      ]
    ]
  ]

  unfoldable pub recipient_matches_address : Recipient → Text → Bool
  unfolding owner_matches
  recipient_matches_address r expected_address =
      if text_eq r.address expected_address || option_text_eq r.ata (some expected_address)
      then true
      else if not (is_spl r.asset)
      then false
      else owner_matches r expected_address

  -- The test under `findIndex`, on an entry that is not used yet.
  unfoldable pub recipient_fits : ExpectedRecipient → Recipient → Bool
  unfolding recipient_matches_address
  recipient_fits exp r =
      if not (recipient_matches_address r exp.address) then false else elim (amount_of exp.amount) [
        | none ↦ false
        | some wanted ↦ elim (amount_of r.amount) [ none ↦ false | some n ↦ n == wanted ]
      ]

  -- The loop over the expected recipients: its messages, and the pool behind it.
  unfoldable pub match_expected :
      List ExpectedRecipient → List PoolEntry → List Text × List PoolEntry
  unfolding recipient_fits use_first
  match_expected [] pool = ([], pool)
  match_expected (exp ∷ rest) pool = elim (use_first (recipient_fits exp) pool) [
    | none ↦
        let later = match_expected rest pool in
        (
          (lit "expected recipient "
                ++ (exp.address
                    ++ (lit " with amount "
                        ++ (exp.amount ++ lit " not found in decoded transaction"))))
              ∷ later.0,
          later.1,
        )
    | some pool' ↦ match_expected rest pool'
  ]

  unfoldable pub recipient_messages : FundFlowView → FundFlowExpectation → List Text
  unfolding match_expected leftover_messages
  recipient_messages view expected =
      let matched = match_expected expected.recipients (pool_of view.recipients) in
      matched.0 ++ leftover_messages matched.1

  unfoldable pub compare_fund_flows : FundFlowView → FundFlowExpectation → List Text
  unfolding unknown_messages cap_messages payer_messages recipient_messages asset_messages
  compare_fund_flows view expected =
      unknown_messages view
      ++ (cap_messages view expected
          ++ (payer_messages view expected
              ++ (recipient_messages view expected
                  ++ for_each (asset_messages expected) view.recipients)))
