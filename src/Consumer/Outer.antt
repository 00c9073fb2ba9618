-- ===== src/Consumer/Outer.antt =====
-- The parameters and the answer of `verifyConsumerSolanaBundle`, and its checks of the outer
-- instructions: the fee payer, the allowed programs and the compute budget.
use solana_multisig.Prelude.{
  ℕ, Bool, true, false, ◌&&◌, not, List, [], ◌∷◌, ◌++◌, Option, none, some, Text, Result, ok, err,
  ltb, ◌==◌, if◌then◌else◌, length, push_if, for_each,
}
use solana_multisig.Prelude.Strings.{lit, decimal, text_eq, truthy, includes}
use solana_multisig.Numbers.{JsNumber, Quantity, to_bigint, le_ℤ, to_bigint_or_null, number_text}
use solana_multisig.Classify.{Recipient}
use solana_multisig.Bundle.{ParsedComputeBudget, ParsedCreate, Foreign, ParsedBundle, is_some_eq}
use solana_multisig.Consumer.Gate.{Gate, return, push, attempt, ◌>>=◌, ◌>>◌}

-- `expected` of the parameters.
pub record ConsumerExpected : Type 0 where
  pub recipient : Text
  pub amount : Text
  pub token_mint : Option Text
  pub token_decimals : Option ℕ

-- `ConsumerSolanaBundleParams` without the program id.
pub record ConsumerParams : Type 0 where
  pub multisig_pda : Text
  pub members : List Text
  pub signer : Text
  pub vault_index : Option ℕ
  pub expected : ConsumerExpected
  pub max_fee_lamports : Quantity
  pub expected_fee_payer : Option Text
  pub max_compute_unit_limit : Option JsNumber
  pub max_compute_unit_price_micro_lamports : Option Quantity

-- `ConsumerSolanaBundleDecoded`.
pub record ConsumerDecoded : Type 0 where
  pub multisig_pda : Text
  pub vault_pda : Text
  pub transaction_pda : Text
  pub fee_payer : Option Text
  pub recipients : List Recipient
  pub fee_lamports : Text
  pub memos : List Text
  pub compute_unit_limit : Option Text
  pub compute_unit_price_micro_lamports : Option Text

-- The values of the first section: the canonical texts of the parameters, and the bundle.
pub record Setup (K : Type 0) : Type 0 where
  pub vault_index : ℕ
  pub multisig_pda : Text
  pub members : List Text
  pub signer : Text
  pub vault_pda : Text
  pub bundle : ParsedBundle K

-- The multisig instructions' values that later sections use.
pub record Created (K : Type 0) : Type 0 where
  pub transaction_pda : Text
  pub create : ParsedCreate K

pub record Budget : Type 0 where
  pub limit : Option ℕ
  pub price : Option ℕ

-- `new Set(members).size === members.length`.
unfoldable pub all_distinct : List Text → Bool
all_distinct [] = true
all_distinct (m ∷ ms) = not (includes ms m) && all_distinct ms

-- ---- fee payer ----
unfoldable pub fee_payer_messages : Option Text → List Text → Option Text → List Text
fee_payer_messages fee_payer members expected = elim (truthy fee_payer) [
  | none ↦ lit "transaction has no fee payer" ∷ []
  | some payer ↦
      push_if (includes members payer) (lit "fee payer " ++ (payer ++ lit " is a vault member"))
      ++ (elim (truthy expected) [
        | none ↦ []
        | some paymaster ↦ push_if (not (text_eq payer paymaster)) (
            lit "fee payer "
            ++ (payer ++ (lit " does not match the expected paymaster " ++ paymaster)))
      ])
]

unfoldable pub foreign_message : Foreign → List Text
foreign_message f =
    (lit "unknown outer instruction #"
      ++ (decimal f.index ++ (lit " (program " ++ (f.program_id ++ lit ")"))))
    ∷ []

unfoldable pub nonce_message : ℕ → List Text
nonce_message i =
    push_if (not (i == 0)) (lit "nonceAdvance at position " ++ (decimal i ++ lit ", must be first"))

-- ---- outer allowlist ----, up to the ComputeBudget loop.
unfoldable pub outer_messages : {K : Type 0} → ParsedBundle K → List Text
unfolding foreign_message nonce_message
outer_messages bundle =
    for_each foreign_message bundle.foreign
    ++ (push_if (ltb 1 (length bundle.nonce_advance_indexes))
          (lit "more than one nonceAdvance instruction")
        ++ for_each nonce_message bundle.nonce_advance_indexes)

abbrev pub is_set : Option ℕ → Bool
is_set none = false
is_set (some n) = true

unfoldable pub limit_messages : ConsumerParams → ℕ → Gate (Unit {0})
limit_messages params value = elim params.max_compute_unit_limit [
  | none ↦ return tt
  | some cap ↦ attempt (to_bigint cap) >>= λ z. push (
      push_if (not (le_ℤ value z)) (
        lit "compute unit limit "
        ++ (decimal value ++ (lit " exceeds the cap " ++ number_text cap))))
]

unfoldable pub price_messages : ConsumerParams → ℕ → List Text
price_messages params value = elim params.max_compute_unit_price_micro_lamports [
  | none ↦ []
  | some q ↦ elim (to_bigint_or_null (some q)) [
    | none ↦ lit "invalid maxComputeUnitPriceMicroLamports" ∷ []
    | some cap ↦
        push_if (ltb cap value)
          (lit "compute unit price " ++ (decimal value ++ (lit " exceeds the cap " ++ decimal cap)))
  ]
]

-- One round of the loop over ComputeBudget instructions.
unfoldable pub budget_step : ConsumerParams → Budget → ParsedComputeBudget → Gate Budget
unfolding limit_messages price_messages
budget_step params seen cb = elim cb.value [
  | none ↦ do
    push ((lit "unsupported ComputeBudget instruction #" ++ decimal cb.index) ∷ [])
    return seen
  | some value ↦
      let limit : Gate Budget =
        (push (push_if (is_set seen.limit) (lit "duplicate SetComputeUnitLimit"))
          >> (limit_messages params value >> return (record seen { limit = some value }))) in
      let price : Gate Budget =
        (push (push_if (is_set seen.price) (lit "duplicate SetComputeUnitPrice"))
          >> (push (price_messages params value) >> return (record seen { price = some value }))) in
      if is_some_eq cb.tag 2 then limit else price
]

unfoldable pub budget_loop : ConsumerParams → Budget → List ParsedComputeBudget → Gate Budget
unfolding budget_step
budget_loop params seen [] = return seen
budget_loop params seen (cb ∷ rest) = do
  seen' ← budget_step params seen cb
  budget_loop params seen' rest

-- The two accounts that an execute or a close names, against the created proposal.
unfoldable pub named_messages : Text → Text → Text → List Text → List Text
named_messages label multisig_pda transaction_pda [] = (label ++ lit " has too few accounts") ∷ []
named_messages label multisig_pda transaction_pda (m ∷ []) =
    (label ++ lit " has too few accounts") ∷ []
named_messages label multisig_pda transaction_pda (m ∷ t ∷ rest) =
    push_if (not (text_eq m multisig_pda)) (label ++ (lit " names multisig " ++ m))
    ++ push_if (not (text_eq t transaction_pda)) (
        label ++ (lit " targets " ++ (t ++ (lit ", not the created proposal " ++ transaction_pda))))

-- The only `create_transaction`, or the error.
unfoldable pub only_create : {K : Type 0} → List (ParsedCreate K) → Result (ParsedCreate K)
only_create (create ∷ []) = ok create
only_create [] =
    err (lit "expected exactly one create_transaction instruction, found " ++ decimal 0)
only_create (a ∷ b ∷ rest) = err (
    lit "expected exactly one create_transaction instruction, found "
    ++ decimal (length (a ∷ b ∷ rest)))

-- The first three of at least four accounts.
abbrev pub four_keys : {K : Type 0} → List K → Result (K × K × K)
four_keys (a ∷ b ∷ c ∷ d ∷ rest) = ok (a, b, c)
four_keys (a ∷ b ∷ c ∷ []) = err (lit "create_transaction instruction has too few accounts")
four_keys (a ∷ b ∷ []) = err (lit "create_transaction instruction has too few accounts")
four_keys (a ∷ []) = err (lit "create_transaction instruction has too few accounts")
four_keys [] = err (lit "create_transaction instruction has too few accounts")
