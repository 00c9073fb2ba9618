-- ===== src/Web3.antt =====
-- What the SDK takes from `@solana/web3.js`, `buffer` and `crypto`, as a parameter of the model: the
-- type of public keys, their operations, the parser of serialized transactions, and the encodings.
-- The shapes of transactions and instructions are those that the source reads off web3.js objects.
use solana_multisig.Prelude.{
  ℕ, ◌≡◌, ◌≢◌, ◌↔◌, Bool, true, Option, List, [], Text, Result, ok, length,
}

-- A `Buffer` or `Uint8Array`: each entry is below 256.
abbrev pub Bytes : Type 0
Bytes = List ℕ

pub record AccountMeta (K : Type 0) : Type 0 where
  pub pubkey : K
  pub is_signer : Bool
  pub is_writable : Bool

pub record TransactionInstruction (K : Type 0) : Type 0 where
  pub program_id : K
  pub keys : List (AccountMeta K)
  pub payload : Bytes

pub record Transaction (K : Type 0) : Type 0 where
  pub fee_payer : Option K
  pub instructions : List (TransactionInstruction K)

pub record Web3 (K : Type 0) : Type 0 where
  -- `PublicKey.equals`, `toBytes`/`toBuffer`, `toBase58`/`toString`, `new PublicKey(bytes or text)`.
  pub equals : K → K → Bool
  pub to_bytes : K → Bytes
  pub to_base58 : K → Text
  pub of_bytes : Bytes → K
  pub of_base58 : Text → Result K
  -- `PublicKey.findProgramAddressSync(seeds, programId)`.
  pub find_program_address : List Bytes → K → Result (K × ℕ)
  -- `PublicKey.createWithSeed(base, seed, programId)`.
  pub create_with_seed : K → Text → K → Result K
  -- `Transaction.from(bytes)`.
  pub transaction_from : Bytes → Result (Transaction K)
  -- `Buffer.from(s, "base64")`, `Buffer.from(s, "utf8")`, `data.toString("utf8")`.
  pub of_base64 : Text → Bytes
  pub of_utf8 : Text → Bytes
  pub to_utf8 : Bytes → Text
  -- `createHash("sha256")` over all that was given to `update`.
  pub sha256 : Bytes → Bytes
  -- `SystemProgram.programId`, and the keys that the source writes down in base58.
  pub system_program_id : K
  pub token_program_id : K
  pub token_2022_program_id : K
  pub ata_program_id : K
  pub compute_budget_program_id : K
  pub memo_program_id : K

-- The documented behaviour of `PublicKey` that the theorems rely on.
pub record IsWeb3 {K : Type 0} (w : Web3 K) : Type 0 where
  pub equals_iff : (a b : K) → (w.equals a b ≡ true) ↔ (a ≡ b)
  pub of_bytes-to_bytes : (a : K) → w.of_bytes (w.to_bytes a) ≡ a
  pub length-to_bytes : (a : K) → length (w.to_bytes a) ≡ 32
  pub of_base58-to_base58 : (a : K) → w.of_base58 (w.to_base58 a) ≡ ok a
  pub to_base58-ne-nil : (a : K) → w.to_base58 a ≢ []
