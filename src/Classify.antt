-- ===== src/Classify.antt =====
-- `classifyInnerMessage` and `resolveAtaOwner` of sdk/src/decoder.ts: what the inner instructions of a
-- vault message do, and which owner a token destination belongs to.
pub mod Flows
pub mod Steps
pub mod Sound
pub mod Owners
use solana_multisig.Prelude.{
  ℕ, zero, suc, ◌+◌, Bool, true, false, ◌&&◌, ◌||◌, not, List, [], ◌∷◌, ◌++◌, map, Option, none,
  some, Text, Result, ok, err, ◌>>=◌, catch, leb, ◌==◌, if◌then◌else◌, length, get_elem?,
}
use solana_multisig.Prelude.Strings.{lit, decimal, text_eq, truthy, option_text_eq, includes}
use solana_multisig.Web3.{Bytes, Web3}
use solana_multisig.Bytes.{read_u32_le, read_u64_le, byte_at}
use solana_multisig.Message.{CompiledInstruction, InnerMessage}

pub data Asset : Type 0 where
  native spl : Asset

-- `DecodedSolanaVaultRecipient`; an optional field is an `Option`.
pub record Recipient : Type 0 where
  pub address : Text
  pub ata : Option Text
  pub ata_verified : Option Bool
  pub amount : Text
  pub asset : Asset
  pub mint : Option Text
  pub decimals : Option ℕ
  pub token_program : Option Text

pub record InnerClassification : Type 0 where
  pub recipients : List Recipient
  pub fee_lamports : ℕ
  pub unknown_inner_instruction_count : ℕ
  pub memos : List Text

abbrev pub is_spl : Asset → Bool
is_spl native = false
is_spl spl = true

-- `/[\u0000-\u0008\u000b\u000c\u000e-\u001f\u007f]/` on one code unit, and on a text.
is_control : ℕ → Bool
is_control c = leb c 8 || (c == 11 || (c == 12 || (leb 14 c && leb c 31 || c == 127)))

has_control : Text → Bool
unfolding is_control
has_control [] = false
has_control (c ∷ s) = is_control c || has_control s

abbrev pub native_recipient : Text → ℕ → Recipient
native_recipient dest amount = record {
  address = dest;
  ata = none;
  ata_verified = none;
  amount = decimal amount;
  asset = native;
  mint = none;
  decimals = none;
  token_program = none;
}

abbrev pub spl_recipient : Text → ℕ → Text → ℕ → Text → Recipient
spl_recipient dest amount mint decimals token_program = record {
  address = dest;
  ata = some dest;
  ata_verified = none;
  amount = decimal amount;
  asset = spl;
  mint = some mint;
  decimals = some decimals;
  token_program = some token_program;
}

abbrev pub count_unknown : InnerClassification → InnerClassification
count_unknown c = record c {
  unknown_inner_instruction_count = c.unknown_inner_instruction_count + 1;
}

abbrev pub push_recipient : Recipient → InnerClassification → InnerClassification
push_recipient r c = record c { recipients = c.recipients ++ (r ∷ []) }

abbrev pub add_fee : ℕ → InnerClassification → InnerClassification
add_fee amount c = record c { fee_lamports = c.fee_lamports + amount }

abbrev pub push_memo : Text → InnerClassification → InnerClassification
push_memo text c = record c { memos = c.memos ++ (text ∷ []) }

-- `feePayer && dest === feePayer`.
abbrev pub is_fee_payer : Option Text → Text → Bool
is_fee_payer none dest = false
is_fee_payer (some []) dest = false
is_fee_payer (some (x ∷ s)) dest = text_eq dest (x ∷ s)

-- The key at an index of `accountKeys`, or the error of `resolve`.
abbrev pub resolve_in {ℓ} : {K : Type ℓ} → List K → ℕ → Result K
resolve_in keys index = elim (get_elem? keys index) [
  | none ↦ err (
      lit "inner account index "
      ++ (decimal index
          ++ (lit " out of bounds (" ++ (decimal (length keys) ++ lit " static keys)"))))
  | some key ↦ ok key
]

module _ {K : Type 0} (w : Web3 K) where
  unfoldable pub decode_utf8_strict : Bytes → Option Text
  unfolding has_control
  decode_utf8_strict raw =
      let text = w.to_utf8 raw in
      if not (text_eq (w.of_utf8 text) raw)
      then none
      else if has_control text
      then none
      else some text

  abbrev pub is_token_program : K → Bool
  is_token_program prog = w.equals prog w.token_program_id || w.equals prog w.token_2022_program_id

  -- The test of the first branch: a SystemProgram transfer.
  abbrev pub is_native_transfer : K → CompiledInstruction → Bool
  is_native_transfer prog cix =
      w.equals prog w.system_program_id
      && (length cix.payload == 12
          && (read_u32_le cix.payload 0 == 2 && leb 2 (length cix.account_indexes)))

  -- The test of the second branch: a TransferChecked of a token program.
  abbrev pub is_transfer_checked : K → CompiledInstruction → Bool
  is_transfer_checked prog cix =
      is_token_program prog
      && (length cix.payload == 10
          && (byte_at cix.payload 0 == 12 && leb 4 (length cix.account_indexes)))

  abbrev pub is_memo : Bool → K → CompiledInstruction → Bool
  is_memo allow_memo prog cix =
      allow_memo && (w.equals prog w.memo_program_id && length cix.account_indexes == 0)

  -- `vault` is `inner.accountKeys[0]`.
  module _ (keys : List K) (vault : K) (fee_payer : Option Text) (allow_memo : Bool) where
    -- The body of the branch for a native transfer.
    unfoldable pub classify_native :
        InnerClassification → CompiledInstruction → Result InnerClassification
    classify_native c cix = do
      source ← resolve_in keys (byte_at cix.account_indexes 0)
      dest_key ← resolve_in keys (byte_at cix.account_indexes 1)
      let dest = w.to_base58 dest_key
      amount ← read_u64_le cix.payload 4
      ok (
          if not (w.equals source vault)
          then count_unknown c
          else if is_fee_payer fee_payer dest
          then add_fee amount c
          else push_recipient (native_recipient dest amount) c)

    -- The body of the branch for a TransferChecked.
    unfoldable pub classify_spl :
        K → InnerClassification → CompiledInstruction → Result InnerClassification
    classify_spl prog c cix = do
      authority ← resolve_in keys (byte_at cix.account_indexes 3)
      let transfer : Result InnerClassification = do
        dest_key ← resolve_in keys (byte_at cix.account_indexes 2)
        amount ← read_u64_le cix.payload 1
        mint_key ← resolve_in keys (byte_at cix.account_indexes 1)
        ok (
            push_recipient
              (spl_recipient (w.to_base58 dest_key) amount (w.to_base58 mint_key)
                (byte_at cix.payload 9) (w.to_base58 prog))
              c)
      if not (w.equals authority vault) then ok (count_unknown c) else transfer

    -- The body of the branch for a memo.
    unfoldable pub classify_memo : InnerClassification → CompiledInstruction → InnerClassification
    classify_memo c cix = elim (decode_utf8_strict cix.payload) [
      | none ↦ count_unknown c
      | some text ↦ push_memo text c
    ]

    -- The `try` block of one round.
    unfoldable pub classify_try :
        InnerClassification → CompiledInstruction → Result InnerClassification
    classify_try c cix = do
      prog ← resolve_in keys cix.program_id_index
      if is_native_transfer prog cix
          then classify_native c cix
          else if is_transfer_checked prog cix
          then classify_spl prog c cix
          else if is_memo allow_memo prog cix
          then ok (classify_memo c cix)
          else ok (count_unknown c)

    unfoldable pub classify_step : InnerClassification → CompiledInstruction → InnerClassification
    classify_step c cix = catch (classify_try c cix) (λ _. count_unknown c)

    unfoldable pub classify_loop :
        InnerClassification → List CompiledInstruction → InnerClassification
    classify_loop c [] = c
    classify_loop c (cix ∷ rest) = classify_loop (classify_step c cix) rest

  abbrev pub classify_start : ℕ → InnerClassification
  classify_start lookups = record {
    recipients = [];
    fee_lamports = 0;
    unknown_inner_instruction_count = lookups;
    memos = [];
  }

  classify_keys : List K → InnerMessage K → Option Text → Bool → Result InnerClassification
  classify_keys [] inner fee_payer allow_memo =
      err (lit "vault transaction message has no account keys")
  classify_keys (vault ∷ keys) inner fee_payer allow_memo = ok (
      classify_loop (vault ∷ keys) vault fee_payer allow_memo
        (classify_start inner.address_table_lookup_count) inner.instructions)

  unfoldable pub classify_inner_message :
      InnerMessage K → Option Text → Bool → Result InnerClassification
  unfolding classify_keys
  classify_inner_message inner fee_payer allow_memo =
      classify_keys inner.account_keys inner fee_payer allow_memo

  unfoldable pub derive_associated_token_address : K → K → K → Result K
  derive_associated_token_address owner mint token_program_id = do
    derived ←
        w.find_program_address
          (w.to_bytes owner ∷ w.to_bytes token_program_id ∷ w.to_bytes mint ∷ []) w.ata_program_id
    ok derived.0

  -- One round of the loop of `resolveAtaOwner`.
  resolve_recipient : Text → List Text → Recipient → Recipient
  resolve_recipient owner candidates r = elim (truthy r.ata) [
    | none ↦ r
    | some ata ↦
        if not (is_spl r.asset)
        then r
        else if includes candidates ata
        then record r { address = owner; ata_verified = some true }
        else record r { address = ata; ata_verified = some false }
  ]

  unfoldable pub resolve_ata_owner : List Recipient → Text → Text → Result (List Recipient)
  unfolding resolve_recipient
  resolve_ata_owner recipients owner_base58 mint_base58 = do
    owner ← w.of_base58 owner_base58
    mint ← w.of_base58 mint_base58
    token ← derive_associated_token_address owner mint w.token_program_id
    token_2022 ← derive_associated_token_address owner mint w.token_2022_program_id
    let candidates = w.to_base58 token ∷ w.to_base58 token_2022 ∷ []
    ok (map (resolve_recipient (w.to_base58 owner) candidates) recipients)
