-- ===== src/Classify/Flows.antt =====
-- What an inner instruction does, as a relation, and the classification against it.
use solana_multisig.Prelude.{
  ℕ, ◌+◌, ◌≤◌, ◌≡◌, ◌≢◌, ◌⊎◌, List, [], ◌∷◌, Option, some, Text, ok, length, get_elem?,
}
use solana_multisig.Web3.{Web3}
use solana_multisig.Bytes.{byte_at, read_u64_le, read_u32_le}
use solana_multisig.Message.{CompiledInstruction}
use solana_multisig.Classify.{
  Recipient, InnerClassification, native_recipient, spl_recipient, push_recipient, add_fee,
  push_memo, decode_utf8_strict,
}

pub data Flow : Type 0 where
  pays : Recipient → Flow
  reimburses : ℕ → Flow
  notes : Text → Flow

abbrev pub apply : Flow → InnerClassification → InnerClassification
apply (pays r) c = push_recipient r c
apply (reimburses amount) c = add_fee amount c
apply (notes text) c = push_memo text c

abbrev pub payments : List Flow → List Recipient
payments [] = []
payments (pays r ∷ fs) = r ∷ payments fs
payments (reimburses amount ∷ fs) = payments fs
payments (notes text ∷ fs) = payments fs

abbrev pub reimbursed : List Flow → ℕ
reimbursed [] = 0
reimbursed (pays r ∷ fs) = reimbursed fs
reimbursed (reimburses amount ∷ fs) = amount + reimbursed fs
reimbursed (notes text ∷ fs) = reimbursed fs

abbrev pub noted : List Flow → List Text
noted [] = []
noted (pays r ∷ fs) = noted fs
noted (reimburses amount ∷ fs) = noted fs
noted (notes text ∷ fs) = text ∷ noted fs

module _ {K : Type 0} (w : Web3 K) (keys : List K) (vault : K) (fee_payer : Option Text) where
  -- The `n`th account of the instruction is the key `k` of the message.
  abbrev pub Names : CompiledInstruction → ℕ → K → Type 0
  Names cix n k = get_elem? keys (byte_at cix.account_indexes n) ≡ some k

  -- A SystemProgram transfer of `amount` lamports from the vault to `dest`.
  pub record IsNativeTransfer (cix : CompiledInstruction) (dest : K) (amount : ℕ) : Type 0 where
    pub program : get_elem? keys cix.program_id_index ≡ some w.system_program_id
    pub size : length cix.payload ≡ 12
    pub tag : read_u32_le cix.payload 0 ≡ 2
    pub amount_read : read_u64_le cix.payload 4 ≡ ok amount
    pub accounts : 2 ≤ length cix.account_indexes
    pub source : Names cix 0 vault
    pub destination : Names cix 1 dest

  -- A TransferChecked of `amount` units of `mint`, authorized by the vault.
  pub record IsTransferChecked (cix : CompiledInstruction) (prog dest mint : K)
      (amount decimals : ℕ) : Type 0 where
    pub program : get_elem? keys cix.program_id_index ≡ some prog
    pub token : (prog ≡ w.token_program_id) ⊎ (prog ≡ w.token_2022_program_id)
    pub size : length cix.payload ≡ 10
    pub tag : byte_at cix.payload 0 ≡ 12
    pub amount_read : read_u64_le cix.payload 1 ≡ ok amount
    pub decimals_read : byte_at cix.payload 9 ≡ decimals
    pub accounts : 4 ≤ length cix.account_indexes
    pub mint_account : Names cix 1 mint
    pub destination : Names cix 2 dest
    pub authority : Names cix 3 vault

  -- A memo with no accounts.
  pub record IsMemo (cix : CompiledInstruction) (text : Text) : Type 0 where
    pub program : get_elem? keys cix.program_id_index ≡ some w.memo_program_id
    pub accounts : length cix.account_indexes ≡ 0
    pub text_read : decode_utf8_strict w cix.payload ≡ some text

  pub data Does (cix : CompiledInstruction) : Flow → Type 0 where
    native_payment :
        (dest : K) (amount : ℕ)
        → IsNativeTransfer cix dest amount
        → fee_payer ≢ some (w.to_base58 dest)
        → Does cix (pays (native_recipient (w.to_base58 dest) amount))
    reimbursement :
        (dest : K) (amount : ℕ)
        → IsNativeTransfer cix dest amount
        → fee_payer ≡ some (w.to_base58 dest)
        → Does cix (reimburses amount)
    token_payment :
        (prog dest mint : K) (amount decimals : ℕ)
        → IsTransferChecked cix prog dest mint amount decimals
        → Does cix (
            pays (
              spl_recipient
                (w.to_base58 dest)
                amount
                (w.to_base58 mint)
                decimals
                (w.to_base58 prog)))
    memo : (text : Text) → IsMemo cix text → Does cix (notes text)

  pub data DoEach : List CompiledInstruction → List Flow → Type 0 where
    none_left : DoEach [] []
    one_more :
        {cix : CompiledInstruction} {f : Flow} {rest : List CompiledInstruction} {fs : List Flow}
        → Does cix f
        → DoEach rest fs
        → DoEach (cix ∷ rest) (f ∷ fs)
