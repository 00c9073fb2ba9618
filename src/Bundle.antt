-- ===== src/Bundle.antt =====
-- `parseBundle` of sdk/src/decoder.ts: the outer instructions of a serialized transaction, sorted
-- into the kinds that the gates look at.
pub mod Kinds
pub mod Values
pub mod Unflagged
pub mod Branches
pub mod Told
pub mod Steps
pub mod Sorted
use solana_multisig.Prelude.{
  ℕ, ◌+◌, Bool, true, false, ◌&&◌, ◌||◌, List, [], ◌∷◌, ◌++◌, map, Option, none, some, Text, Result,
  ok, ◌>>=◌, ◌>>◌, throw_if, leb, ◌==◌, if◌then◌else◌, length, take, get_elem?,
}
use mathlib.Core.Option
use solana_multisig.Prelude.Strings.{lit}
use solana_multisig.Web3.{Bytes, Web3, AccountMeta, TransactionInstruction}
use solana_multisig.Bytes.{bytes_equal, read_u32_le, read_u64_le}
use solana_multisig.Message.{InnerMessage, parse_create_transaction_data}

abbrev pub create_transaction_discriminator : Bytes
create_transaction_discriminator = 227 ∷ 193 ∷ 53 ∷ 239 ∷ 55 ∷ 126 ∷ 112 ∷ 105 ∷ []

abbrev pub approve_transaction_discriminator : Bytes
approve_transaction_discriminator = 224 ∷ 39 ∷ 88 ∷ 181 ∷ 36 ∷ 59 ∷ 155 ∷ 122 ∷ []

abbrev pub execute_transaction_discriminator : Bytes
execute_transaction_discriminator = 231 ∷ 173 ∷ 49 ∷ 91 ∷ 235 ∷ 24 ∷ 68 ∷ 19 ∷ []

abbrev pub close_transaction_discriminator : Bytes
close_transaction_discriminator = 97 ∷ 46 ∷ 152 ∷ 170 ∷ 42 ∷ 215 ∷ 192 ∷ 218 ∷ []

-- The first byte of the data, or `none` for the source's -1 on empty data; `value` is null on
-- anything but SetComputeUnitLimit and SetComputeUnitPrice of the right length.
pub record ParsedComputeBudget : Type 0 where
  pub index : ℕ
  pub tag : Option ℕ
  pub value : Option ℕ

pub record ParsedAtaCreate : Type 0 where
  pub index : ℕ
  pub funder : Option Text
  pub ata : Option Text
  pub owner : Option Text
  pub mint : Option Text
  pub token_program : Option Text
  pub data_ok : Bool

pub record ParsedMultisigIx (K : Type 0) : Type 0 where
  pub index : ℕ
  pub keys : List K
  pub payload : Bytes

pub record ParsedCreate (K : Type 0) : Type 0 where
  pub index : ℕ
  pub keys : List K
  pub payload : Bytes
  pub inner : InnerMessage K

pub record Foreign : Type 0 where
  pub index : ℕ
  pub program_id : Text

pub record ParsedBundle (K : Type 0) : Type 0 where
  pub fee_payer : Option Text
  pub nonce_advance_indexes : List ℕ
  pub compute_budget : List ParsedComputeBudget
  pub ata_creates : List ParsedAtaCreate
  pub creates : List (ParsedCreate K)
  pub approves : List (ParsedMultisigIx K)
  pub executes : List (ParsedMultisigIx K)
  pub closes : List (ParsedMultisigIx K)
  pub foreign : List Foreign

abbrev pub is_some_eq : Option ℕ → ℕ → Bool
is_some_eq none n = false
is_some_eq (some m) n = m == n

-- `data.length > 0 ? data[0] : -1`.
abbrev pub first_byte : Bytes → Option ℕ
first_byte [] = none
first_byte (b ∷ bs) = some b

-- The value of a ComputeBudget instruction.
unfoldable pub compute_budget_value : Bytes → Result (Option ℕ)
compute_budget_value raw =
    let price : Result (Option ℕ) = (do v ← read_u64_le raw 1; ok (some v)) in
    if is_some_eq (first_byte raw) 2 && length raw == 5
    then ok (some (read_u32_le raw 1))
    else if is_some_eq (first_byte raw) 3 && length raw == 9
    then price
    else ok none

-- `data.length === 0 || (data.length === 1 && (data[0] === 0 || data[0] === 1))`.
abbrev pub ata_data_ok : Bytes → Bool
ata_data_ok [] = true
ata_data_ok (b ∷ []) = b == 0 || b == 1
ata_data_ok (b ∷ c ∷ bs) = false

abbrev pub is_nonce_advance : Bytes → Bool
is_nonce_advance raw = leb 4 (length raw) && read_u32_le raw 0 == 4

module _ {K : Type 0} (w : Web3 K) (program_id : K) where
  -- `keys[i]?.toBase58()`.
  abbrev pub key_text : List K → ℕ → Option Text
  key_text keys i = Option.map w.to_base58 (get_elem? keys i)

  abbrev pub push_foreign : ParsedBundle K → ℕ → K → ParsedBundle K
  push_foreign parsed index pid = record parsed {
    foreign = parsed.foreign ++ (record { index = index; program_id = w.to_base58 pid } ∷ []);
  }

  -- The branch of the associated token account program.
  abbrev pub push_ata_create : ParsedBundle K → ℕ → List K → Bytes → ParsedBundle K
  push_ata_create parsed index keys raw = record parsed {
    ata_creates =
        parsed.ata_creates
        ++ (record {
          index = index;
          funder = key_text keys 0;
          ata = key_text keys 1;
          owner = key_text keys 2;
          mint = key_text keys 3;
          token_program = key_text keys 5;
          data_ok = ata_data_ok raw;
        }
            ∷ []);
  }

  -- The branch of the multisig program.
  unfoldable pub parse_multisig : ParsedBundle K → ℕ → K → List K → Bytes → Result (ParsedBundle K)
  parse_multisig parsed index pid keys raw =
      let disc = take 8 raw in
      let ix : ParsedMultisigIx K = record { index = index; keys = keys; payload = raw } in
      let create : Result (ParsedBundle K) = parse_create_transaction_data w raw >>= λ inner.
      ok (record parsed {
        creates =
            parsed.creates
            ++ (record { index = index; keys = keys; payload = raw; inner = inner } ∷ []);
      }) in
      if bytes_equal disc create_transaction_discriminator
      then create
      else if bytes_equal disc approve_transaction_discriminator
      then ok (record parsed { approves = parsed.approves ++ (ix ∷ []) })
      else if bytes_equal disc execute_transaction_discriminator
      then ok (record parsed { executes = parsed.executes ++ (ix ∷ []) })
      else if bytes_equal disc close_transaction_discriminator
      then ok (record parsed { closes = parsed.closes ++ (ix ∷ []) })
      else ok (push_foreign parsed index pid)

  -- The body of `forEach`.
  unfoldable pub parse_outer :
      ParsedBundle K → ℕ → TransactionInstruction K → Result (ParsedBundle K)
  unfolding parse_multisig compute_budget_value
  parse_outer parsed index ix =
      let pid = ix.program_id in
      let raw = ix.payload in
      let keys = map (λ (m : AccountMeta K). m.pubkey) ix.keys in
      if w.equals pid w.system_program_id
      then ok (
          if is_nonce_advance raw
          then record parsed {
            nonce_advance_indexes = parsed.nonce_advance_indexes ++ (index ∷ []);
          }
          else push_foreign parsed index pid)
      else if w.equals pid w.compute_budget_program_id
      then (compute_budget_value raw >>= λ value. ok (record parsed {
        compute_budget =
            parsed.compute_budget
            ++ (record { index = index; tag = first_byte raw; value = value } ∷ []);
      }))
      else if w.equals pid w.ata_program_id
      then ok (push_ata_create parsed index keys raw)
      else if w.equals pid program_id
      then parse_multisig parsed index pid keys raw
      else ok (push_foreign parsed index pid)

  unfoldable pub parse_outer_loop :
      ParsedBundle K → ℕ → List (TransactionInstruction K) → Result (ParsedBundle K)
  unfolding parse_outer
  parse_outer_loop parsed index [] = ok parsed
  parse_outer_loop parsed index (ix ∷ rest) = do
    parsed' ← parse_outer parsed index ix
    parse_outer_loop parsed' (index + 1) rest

  abbrev pub empty_bundle : Option K → ParsedBundle K
  empty_bundle payer = record {
    fee_payer = Option.map w.to_base58 payer;
    nonce_advance_indexes = [];
    compute_budget = [];
    ata_creates = [];
    creates = [];
    approves = [];
    executes = [];
    closes = [];
    foreign = [];
  }

  unfoldable pub parse_bundle : Text → Result (ParsedBundle K)
  unfolding parse_outer_loop
  parse_bundle serialized_tx_base64 =
      let raw = w.of_base64 serialized_tx_base64 in
      do
        throw_if (length raw == 0) (lit "empty transaction bytes")
        tx ← w.transaction_from raw
        parse_outer_loop (empty_bundle tx.fee_payer) 0 tx.instructions

-- `readTransactionIndexArg`.
unfoldable pub read_transaction_index_arg : Bytes → Result (Option ℕ)
read_transaction_index_arg raw =
    let index : Result (Option ℕ) = (do v ← read_u64_le raw 8; ok (some v)) in
    if leb 16 (length raw) then index else ok none
