-- ===== src/Decode.antt =====
-- `decodeVaultSolanaTransaction` of sdk/src/decoder.ts: what signing a serialized bundle authorizes.
pub mod Flags
pub mod Unflagged
use solana_multisig.Prelude.{
  ℕ, Bool, true, false, ◌&&◌, ◌||◌, not, List, [], ◌∷◌, ◌++◌, map, Option, none, some, Text, Result,
  ok, err, ◌>>=◌, ◌>>◌, throw_if, catch, leb, ltb, ◌==◌, if◌then◌else◌, length,
}
use mathlib.Core.Option
use solana_multisig.Prelude.Strings.{lit, decimal, text_eq, truthy}
use solana_multisig.Web3.{Web3}
use solana_multisig.Numbers.{JsNumber, Quantity, to_bigint, le_ℤ, to_bigint_or_null}
use solana_multisig.Classify.{Recipient, classify_inner_message, resolve_ata_owner}
use solana_multisig.Bundle.{
  ParsedComputeBudget, ParsedAtaCreate, ParsedMultisigIx, ParsedCreate, Foreign, ParsedBundle,
  is_some_eq, parse_bundle, read_transaction_index_arg,
}

-- `allowComputeBudget`.
pub record ComputeBudgetCaps : Type 0 where
  pub max_unit_limit : Option JsNumber
  pub max_unit_price_micro_lamports : Option Quantity

-- `DecodeVaultSolanaOptions`; a call without options is one with every field unset.
pub record DecodeOptions : Type 0 where
  pub expected_recipient_owner : Option Text
  pub expected_mint : Option Text
  pub allow_compute_budget : Option ComputeBudgetCaps
  pub allow_memo : Bool

pub record CreateBundle : Type 0 where
  pub vault_index : ℕ
  pub multisig_pda : Text
  pub transaction_pda : Text
  pub creator : Text
  pub sender : Text
  pub recipients : List Recipient
  pub fee_lamports : Text
  pub fee_payer : Option Text
  pub approvers : List Text
  pub approve_targets : List Text
  pub execute_targets : List Text
  pub unknown_inner_instruction_count : ℕ
  pub unknown_outer_programs : List Text
  pub memos : List Text

pub record ApproveBundle : Type 0 where
  pub multisig_pda : Text
  pub transaction_pda : Text
  pub approvers : List Text
  pub approve_targets : List Text
  pub approve_multisigs : List Text
  pub transaction_index : Option Text
  pub unknown_outer_programs : List Text

-- `DecodedVaultSolanaTx`.
pub data DecodedBundle : Type 0 where
  create : CreateBundle → DecodedBundle
  approve : ApproveBundle → DecodedBundle
  undecodable : Text → DecodedBundle

-- What the loop over `approve_transaction` instructions collects.
pub record Approvals : Type 0 where
  pub multisigs : List Text
  pub targets : List Text
  pub approvers : List Text

-- `a.tag` among the tags seen; the tag of empty data is -1, here `none`.
abbrev pub seen_tag : List (Option ℕ) → Option ℕ → Bool
seen_tag [] tag = false
seen_tag (none ∷ seen) none = true
seen_tag (none ∷ seen) (some n) = seen_tag seen (some n)
seen_tag (some m ∷ seen) none = seen_tag seen none
seen_tag (some m ∷ seen) (some n) = m == n || seen_tag seen (some n)

unit_limit_ok : ComputeBudgetCaps → ℕ → Result Bool
unit_limit_ok caps value = elim caps.max_unit_limit [
  | none ↦ ok true
  | some cap ↦ to_bigint cap >>= λ z. ok (le_ℤ value z)
]

unit_price_ok : ComputeBudgetCaps → ℕ → Bool
unit_price_ok caps value = elim caps.max_unit_price_micro_lamports [
  | none ↦ true
  | some q ↦ elim (to_bigint_or_null (some q)) [ none ↦ false | some cap ↦ leb value cap ]
]

-- Whether one ComputeBudget instruction is within the caps and the first of its tag.
unfoldable pub compute_budget_ok :
    Option ComputeBudgetCaps → List (Option ℕ) → ParsedComputeBudget → Result Bool
unfolding unit_limit_ok unit_price_ok
compute_budget_ok caps seen cb = elim caps [
  | none ↦ ok false
  | some caps' ↦ elim cb.value [
    | none ↦ ok false
    | some value ↦
        if seen_tag seen cb.tag
        then ok false
        else if is_some_eq cb.tag 2
        then unit_limit_ok caps' value
        else ok (is_some_eq cb.tag 3 && unit_price_ok caps' value)
  ]
]

module _ {K : Type 0} (w : Web3 K) where
  flagged_budgets :
      Option ComputeBudgetCaps → List (Option ℕ) → List ParsedComputeBudget → Result (List Foreign)
  flagged_budgets caps seen [] = ok []
  flagged_budgets caps seen (cb ∷ rest) = do
    fine ← compute_budget_ok caps seen cb
    later ← flagged_budgets caps (seen ++ (cb.tag ∷ [])) rest
    ok (
        if fine
        then later
        else record { index = cb.index; program_id = w.to_base58 w.compute_budget_program_id }
          ∷ later)

  -- `paymaster && ata.funder && ata.funder !== paymaster`.
  abbrev pub bad_funder : Option Text → ParsedAtaCreate → Bool
  bad_funder paymaster ata = elim (truthy paymaster) [
    | none ↦ false
    | some payer ↦ elim (truthy ata.funder) [
      | none ↦ false
      | some funder ↦ not (text_eq funder payer)
    ]
  ]

  flagged_atas : Option Text → List ParsedAtaCreate → List Foreign
  flagged_atas paymaster [] = []
  flagged_atas paymaster (ata ∷ rest) =
      if bad_funder paymaster ata
      then record { index = ata.index; program_id = w.to_base58 w.ata_program_id }
        ∷ flagged_atas paymaster rest
      else flagged_atas paymaster rest

  -- `flagged.sort((a, b) => a.index - b.index)`, a stable sort.
  insert_flag : Foreign → List Foreign → List Foreign
  insert_flag f [] = f ∷ []
  insert_flag f (g ∷ gs) = if leb f.index g.index then f ∷ g ∷ gs else g ∷ insert_flag f gs

  sort_flags : List Foreign → List Foreign
  unfolding insert_flag
  sort_flags [] = []
  sort_flags (f ∷ fs) = insert_flag f (sort_flags fs)

  unfoldable pub unknown_outer_programs :
      ParsedBundle K → Option ComputeBudgetCaps → Result (List Text)
  unfolding flagged_budgets flagged_atas sort_flags compute_budget_ok
  unknown_outer_programs bundle caps = do
    budgets ← flagged_budgets caps [] bundle.compute_budget
    ok (
        map (λ (f : Foreign). f.program_id)
          (sort_flags
            (bundle.foreign ++ (flagged_atas bundle.fee_payer bundle.ata_creates ++ budgets))))

  -- The first three accounts of an instruction, or the error of the source.
  abbrev pub three_keys : List K → Text → Result (K × K × K)
  three_keys (a ∷ b ∷ c ∷ rest) message = ok (a, b, c)
  three_keys (a ∷ b ∷ []) message = err message
  three_keys (a ∷ []) message = err message
  three_keys [] message = err message

  unfoldable pub collect_approvals : List (ParsedMultisigIx K) → Result Approvals
  collect_approvals [] = ok (record { multisigs = []; targets = []; approvers = [] })
  collect_approvals (a ∷ rest) = do
    keys ← three_keys a.keys (lit "approve_transaction instruction has too few accounts")
    later ← collect_approvals rest
    ok (record {
      multisigs = w.to_base58 keys.0 ∷ later.multisigs;
      targets = w.to_base58 keys.1 ∷ later.targets;
      approvers = w.to_base58 keys.2 ∷ later.approvers;
    })

  -- `keys[1]` of each instruction that has it.
  unfoldable pub execute_targets : List (ParsedMultisigIx K) → List Text
  execute_targets [] = []
  execute_targets (e ∷ rest) = elim e.keys [
    | [] ↦ execute_targets rest
    | multisig ∷ more ↦ elim more [
      | [] ↦ execute_targets rest
      | target ∷ others ↦ w.to_base58 target ∷ execute_targets rest
    ]
  ]

  abbrev pub both_set : Option Text → Option Text → Option (Text × Text)
  both_set a b = elim (truthy a) [
    | none ↦ none
    | some s ↦ elim (truthy b) [ none ↦ none | some t ↦ some (s, t) ]
  ]

  -- `if (opts?.expectedRecipientOwner && opts?.expectedMint) resolveAtaOwner(...)`.
  abbrev pub resolve_if_asked : Option Text → Option Text → List Recipient → Result (List Recipient)
  resolve_if_asked owner mint recipients = elim (both_set owner mint) [
    | none ↦ ok recipients
    | some (o, m) ↦ resolve_ata_owner w recipients o m
  ]

  -- `inner.accountKeys[0]`, or the error thrown when there is none.
  abbrev pub first_key : List K → Text → Result K
  first_key [] message = err message
  first_key (k ∷ ks) message = ok k

  unfoldable pub decode_create :
      ParsedBundle K → DecodeOptions → List Text → Approvals → ParsedCreate K → Result DecodedBundle
  unfolding execute_targets
  decode_create bundle opts unknown approvals create_ix = do
    keys ← three_keys create_ix.keys (lit "create_transaction instruction has too few accounts")
    sender ←
        first_key create_ix.inner.account_keys
          (lit "create_transaction inner message has no account keys")
    classified ← classify_inner_message w create_ix.inner bundle.fee_payer opts.allow_memo
    recipients ←
        resolve_if_asked opts.expected_recipient_owner opts.expected_mint classified.recipients
    ok (
        create (record {
          vault_index = create_ix.inner.vault_index;
          multisig_pda = w.to_base58 keys.0;
          transaction_pda = w.to_base58 keys.1;
          creator = w.to_base58 keys.2;
          sender = w.to_base58 sender;
          recipients = recipients;
          fee_lamports = decimal classified.fee_lamports;
          fee_payer = bundle.fee_payer;
          approvers = approvals.approvers;
          approve_targets = approvals.targets;
          execute_targets = execute_targets bundle.executes;
          unknown_inner_instruction_count = classified.unknown_inner_instruction_count;
          unknown_outer_programs = unknown;
          memos = classified.memos;
        }))

  unfoldable pub decode_approve : List Text → Approvals → ParsedMultisigIx K → Result DecodedBundle
  decode_approve unknown approvals first = do
    index ← read_transaction_index_arg first.payload
    keys ← three_keys first.keys (lit "approve_transaction instruction has too few accounts")
    ok (
        approve (record {
          multisig_pda = w.to_base58 keys.0;
          transaction_pda = w.to_base58 keys.1;
          approvers = approvals.approvers;
          approve_targets = approvals.targets;
          approve_multisigs = approvals.multisigs;
          transaction_index = Option.map decimal index;
          unknown_outer_programs = unknown;
        }))

  decode_kind :
      ParsedBundle K
      → DecodeOptions
      → List Text
      → Approvals
      → List (ParsedCreate K)
      → List (ParsedMultisigIx K)
      → Result DecodedBundle
  unfolding decode_create decode_approve
  decode_kind bundle opts unknown approvals (create_ix ∷ creates) approves =
      decode_create bundle opts unknown approvals create_ix
  decode_kind bundle opts unknown approvals [] (first ∷ approves) =
      decode_approve unknown approvals first
  decode_kind bundle opts unknown approvals [] [] =
      err (lit "no create_transaction or approve_transaction instruction found")

  -- The `try` block.
  unfoldable pub decode_try : Text → K → DecodeOptions → Result DecodedBundle
  unfolding unknown_outer_programs collect_approvals decode_kind
  decode_try serialized_tx_base64 program_id opts = do
    bundle ← parse_bundle w program_id serialized_tx_base64
    unknown ← unknown_outer_programs bundle opts.allow_compute_budget
    throw_if (ltb 1 (length bundle.creates)) (lit "multiple create_transaction instructions")
    approvals ← collect_approvals bundle.approves
    decode_kind bundle opts unknown approvals bundle.creates bundle.approves

  unfoldable pub decode_vault_solana_transaction : Text → K → DecodeOptions → DecodedBundle
  unfolding decode_try
  decode_vault_solana_transaction serialized_tx_base64 program_id opts =
      catch (decode_try serialized_tx_base64 program_id opts) undecodable
