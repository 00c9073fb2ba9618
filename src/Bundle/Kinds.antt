-- ===== src/Bundle/Kinds.antt =====
-- The kinds of outer instructions that `parseBundle` of sdk/src/decoder.ts tells apart, and the
-- instructions of one kind with their positions.
use solana_multisig.Prelude.{
  ℕ, ◌+◌, ◌≡◌, ◌≢◌, refl, Bool-cases, inl, inr, Bool, List, [], ◌∷◌, ◌++◌, map, append_assoc,
  if◌then◌else◌, ◌==◌, get_elem?,
}
use solana_multisig.Web3.{Bytes, Web3, AccountMeta, TransactionInstruction}
use solana_multisig.Bundle.Values.{budget_value, is_ata_create}
use solana_multisig.Bundle.{
  ParsedMultisigIx, ParsedAtaCreate, Foreign, key_text, ParsedComputeBudget,
  create_transaction_discriminator, approve_transaction_discriminator,
  execute_transaction_discriminator, close_transaction_discriminator,
}

pub data OuterKind : Type 0 where
  nonce_kind : OuterKind
  budget_kind : OuterKind
  ata_kind : OuterKind
  create_kind : OuterKind
  approve_kind : OuterKind
  execute_kind : OuterKind
  close_kind : OuterKind
  foreign_kind : OuterKind

abbrev kind_code : OuterKind → ℕ
kind_code nonce_kind = 0
kind_code budget_kind = 1
kind_code ata_kind = 2
kind_code create_kind = 3
kind_code approve_kind = 4
kind_code execute_kind = 5
kind_code close_kind = 6
kind_code foreign_kind = 7

abbrev pub same_kind : OuterKind → OuterKind → Bool
same_kind a b = kind_code a == kind_code b

-- The bytes begin with those.
abbrev pub StartsWith : Bytes → Bytes → Type 0
StartsWith front raw = (rest : Bytes) × (raw ≡ front ++ rest)

-- The tag of AdvanceNonceAccount, four bytes.
abbrev pub nonce_advance_tag : Bytes
nonce_advance_tag = 4 ∷ 0 ∷ 0 ∷ 0 ∷ []

module _ {K : Type 0} (w : Web3 K) (program_id : K) where
  -- A program that is none of the system's, which come first.
  pub record IsBehind (program : K) : Type 0 where
    pub not_system : program ≢ w.system_program_id
    pub not_compute_budget : program ≢ w.compute_budget_program_id
    pub not_ata : program ≢ w.ata_program_id

  -- The kind of an instruction, by its program and the first bytes of its data.
  pub data IsKind (ix : TransactionInstruction K) : OuterKind → Type 0 where
    nonce_advance :
        ix.program_id ≡ w.system_program_id
        → StartsWith nonce_advance_tag ix.payload
        → IsKind ix nonce_kind
    other_system :
        ix.program_id ≡ w.system_program_id
        → ¬ StartsWith nonce_advance_tag ix.payload
        → IsKind ix foreign_kind
    compute_budget :
        ix.program_id ≢ w.system_program_id
        → ix.program_id ≡ w.compute_budget_program_id
        → IsKind ix budget_kind
    ata_create :
        ix.program_id ≢ w.system_program_id
        → ix.program_id ≢ w.compute_budget_program_id
        → ix.program_id ≡ w.ata_program_id
        → IsKind ix ata_kind
    create :
        IsBehind ix.program_id
        → ix.program_id ≡ program_id
        → StartsWith create_transaction_discriminator ix.payload
        → IsKind ix create_kind
    approve :
        IsBehind ix.program_id
        → ix.program_id ≡ program_id
        → StartsWith approve_transaction_discriminator ix.payload
        → IsKind ix approve_kind
    execute :
        IsBehind ix.program_id
        → ix.program_id ≡ program_id
        → StartsWith execute_transaction_discriminator ix.payload
        → IsKind ix execute_kind
    close :
        IsBehind ix.program_id
        → ix.program_id ≡ program_id
        → StartsWith close_transaction_discriminator ix.payload
        → IsKind ix close_kind
    unknown_own :
        IsBehind ix.program_id
        → ix.program_id ≡ program_id
        → ¬ StartsWith create_transaction_discriminator ix.payload
        → ¬ StartsWith approve_transaction_discriminator ix.payload
        → ¬ StartsWith execute_transaction_discriminator ix.payload
        → ¬ StartsWith close_transaction_discriminator ix.payload
        → IsKind ix foreign_kind
    other_program : IsBehind ix.program_id → ix.program_id ≢ program_id → IsKind ix foreign_kind

  -- What a function makes of the instructions of a kind, from a position on, in their order.
  abbrev pub of_kind {ℓ} :
      {X : Type ℓ}
      → (TransactionInstruction K → OuterKind)
      → OuterKind
      → (ℕ → TransactionInstruction K → X)
      → ℕ
      → List (TransactionInstruction K)
      → List X
  of_kind kind_of kind f i [] = []
  of_kind kind_of kind f i (ix ∷ rest) =
      if same_kind kind (kind_of ix)
      then f i ix ∷ of_kind kind_of kind f (i + 1) rest
      else of_kind kind_of kind f (i + 1) rest

  abbrev pub multisig_entry : ℕ → TransactionInstruction K → ParsedMultisigIx K
  multisig_entry i ix = record {
    index = i;
    keys = map (λ (m : AccountMeta K). m.pubkey) ix.keys;
    payload = ix.payload;
  }

  abbrev pub ata_entry : ℕ → TransactionInstruction K → ParsedAtaCreate
  ata_entry i ix =
      let keys = map (λ (m : AccountMeta K). m.pubkey) ix.keys in
      record {
        index = i;
        funder = key_text w program_id keys 0;
        ata = key_text w program_id keys 1;
        owner = key_text w program_id keys 2;
        mint = key_text w program_id keys 3;
        token_program = key_text w program_id keys 5;
        data_ok = is_ata_create ix.payload;
      }

  abbrev pub foreign_entry : ℕ → TransactionInstruction K → Foreign
  foreign_entry i ix = record { index = i; program_id = w.to_base58 ix.program_id }

  abbrev pub budget_entry : ℕ → TransactionInstruction K → ParsedComputeBudget
  budget_entry i ix = record {
    index = i;
    tag = get_elem? ix.payload 0;
    value = budget_value ix.payload;
  }

  -- A list after an instruction of kind k: longer by its entry if that is the kind of the list.
  abbrev pub pushed {ℓ} :
      {X : Type ℓ}
      → OuterKind
      → (ℕ → TransactionInstruction K → X)
      → OuterKind
      → List X
      → ℕ
      → TransactionInstruction K
      → List X
  pushed kind f k xs i ix = if same_kind kind k then xs ++ (f i ix ∷ []) else xs

  -- The list before, with what the instruction and those behind it add.
  pub pushed-of_kind {ℓ} :
      {X : Type ℓ} (kind_of : TransactionInstruction K → OuterKind) (kind : OuterKind)
      (f : ℕ → TransactionInstruction K → X) (xs : List X) (i : ℕ) (ix : TransactionInstruction K)
      (rest : List (TransactionInstruction K))
      → pushed kind f (kind_of ix) xs i ix ++ of_kind kind_of kind f (i + 1) rest
        ≡ xs ++ of_kind kind_of kind f i (ix ∷ rest)
  pushed-of_kind kind_of kind f xs i ix rest = elim (Bool-cases (same_kind kind (kind_of ix))) [
    | inl e ↦ rw e (append_assoc xs (f i ix ∷ []) (of_kind kind_of kind f (i + 1) rest))
    | inr e ↦ rw e refl
  ]
