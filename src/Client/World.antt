-- ===== src/Client/World.antt =====
-- What the client of sdk/src/client.ts takes from `@solana/web3.js` and `@coral-xyz/anchor`, as a
-- parameter: a world of type W that the calls of a connection read and change, and the builders of
-- instructions and transactions. A key pair stands for its public key.
use solana_multisig.Prelude.{ℕ, Bool, List, Option, none, some, Text, Result, ok, err, ◌≡◌, refl}
use solana_multisig.Web3.{Bytes, AccountMeta, TransactionInstruction}
use solana_multisig.Message.{TransactionMessage}
use solana_multisig.Numbers.{ℤ, JsNumber}

-- An asynchronous call: its result or the error that it rejects with, and the world after it.
abbrev pub Action {ℓ} : Type 0 → Type ℓ → Type ℓ
Action W A = W → Result A × W

abbrev pub return {ℓ} : {W : Type 0} {A : Type ℓ} → A → Action W A
return value world = (ok value, world)

-- A computation that reads nothing of the world and may throw.
abbrev pub attempt {ℓ} : {W : Type 0} {A : Type ℓ} → Result A → Action W A
attempt result world = (result, world)

abbrev pub proceed {ℓ κ} :
    {W : Type 0} {A : Type ℓ} {B : Type κ} → Result A → W → (A → Action W B) → Result B × W
proceed (ok value) world next = next value world
proceed (err message) world next = (err message, world)

infixl 5 ◌>>=◌ ◌>>◌
abbrev pub ◌>>=◌ {ℓ κ} :
    {W : Type 0} {A : Type ℓ} {B : Type κ} → Action W A → (A → Action W B) → Action W B
◌>>=◌ call next world = let after = call world in proceed after.0 after.1 next

abbrev pub ◌>>◌ {ℓ κ} :
    {W : Type 0} {A : Type ℓ} {B : Type κ} → Action W A → Action W B → Action W B
call >> rest = call >>= λ done. rest

-- `try { ... } catch { return null; }`.
abbrev pub or_null {ℓ} : {A : Type ℓ} → Result A → Result (Option A)
or_null (ok value) = ok (some value)
or_null (err message) = ok none

-- The values that a transaction index has at run time: a `bigint`, a `number`, the `BN` that Anchor
-- decodes a u64 to, and the string that `+` makes of a `BN` and a `bigint`.
pub data JsIndex : Type 0 where
  big_int : ℤ → JsIndex
  js_number : JsNumber → JsIndex
  anchor_bn : ℕ → JsIndex
  js_string : Text → JsIndex

-- The instruction of the program and its arguments, `program.methods.<name>(...)`. The text of an
-- index is what `new anchor.BN(...)` is given.
pub data Method (K : Type 0) : Type 0 where
  initialize_multisig : Bytes → ℕ → ℕ → Method K
  create_transaction : ℕ → TransactionMessage K → Method K
  approve_transaction : Text → Method K
  execute_transaction : Text → Method K
  close_transaction : Text → Method K
  provision_nonce : Method K

-- The argument of `.accounts(...)`: each name with its key.
abbrev pub Accounts : Type 0 → Type 0
Accounts K = List (Text × K)

-- `program.methods.<name>(...).accounts(...).remainingAccounts(...)`, with the address of the IDL that
-- the program was made from.
pub record Call (K : Type 0) : Type 0 where
  pub address : Text
  pub method : Method K
  pub accounts : Accounts K
  pub remaining : List (AccountMeta K)

-- The account data that Anchor decodes.
pub record MultisigAccount (K : Type 0) : Type 0 where
  pub members : List K
  pub threshold : ℕ
  pub transaction_index : JsIndex
  pub bump : ℕ

pub record VaultTransactionAccount (K : Type 0) : Type 0 where
  pub multisig : K
  pub transaction_index : JsIndex
  pub creator : K
  pub bump : ℕ
  pub vault_index : ℕ
  pub vault_bump : ℕ
  pub executed : Bool
  pub approvals : List K
  pub message : TransactionMessage K

pub record World (K W V : Type 0) : Type 0 where
  -- `connection.*`; a lookup table is the list of its addresses, a nonce account its nonce.
  pub get_slot : Text → Action W ℕ
  pub get_address_lookup_table : K → Action W (Option (List K))
  pub get_latest_blockhash : Action W Text
  pub get_account_info : K → Action W (Option Bytes)
  pub get_nonce_and_context : K → Action W (Option Text)
  pub send_transaction : V → Action W Text
  pub confirm_transaction : Text → Text → Action W (Unit {0})
  -- `sendAndConfirmTransaction(connection, new Transaction().add(...), signers, { commitment })`.
  pub send_and_confirm_transaction : List (TransactionInstruction K) → List K → Text → Action W Text
  -- `new Promise((r) => setTimeout(r, ms))` and `Date.now()`.
  pub set_timeout : ℕ → Action W (Unit {0})
  pub now : Action W ℕ
  -- Instructions of `SystemProgram`, `ComputeBudgetProgram` and `AddressLookupTableProgram`.
  pub transfer : K → K → ℕ → TransactionInstruction K
  pub set_compute_unit_price : ℕ → TransactionInstruction K
  pub create_lookup_table : K → K → ℕ → TransactionInstruction K × K
  pub extend_lookup_table : K → K → K → List K → TransactionInstruction K
  -- `new TransactionMessage({ payerKey, recentBlockhash, instructions }).compileToV0Message([table])`
  -- in a `VersionedTransaction`, and `sign`.
  pub compile_v0 : K → Text → List (TransactionInstruction K) → List K → Result V
  pub sign : V → List K → Result V
  -- `NonceAccount.fromAccountData(data)`: the authority and the nonce.
  pub nonce_from_account_data : Bytes → Result (K × Text)
  pub sysvar_recent_blockhashes : K
  pub sysvar_rent : K
  -- `new anchor.BN(text).toArrayLike(Buffer, "le", 8)`.
  pub bn_le_8 : Text → Result Bytes
  -- `.instruction()`, and `.preInstructions(...).signers(...).rpc()`.
  pub instruction : Call K → Action W (TransactionInstruction K)
  pub rpc : Call K → List (TransactionInstruction K) → List K → Action W Text
  -- `program.account.<name>.fetch(address)`.
  pub fetch_multisig : K → Action W (MultisigAccount K)
  pub fetch_vault_transaction : K → Action W (VaultTransactionAccount K)

proceed-return {ℓ κ μ} :
    {W : Type 0} {A : Type ℓ} {B : Type κ} {C : Type μ} (result : Result A) (mid : W)
    (next : A → Action W B) {b : B} {end : W}
    → proceed result mid next ≡ (ok b, end)
    → ((a : A) → result ≡ ok a → next a mid ≡ (ok b, end) → C)
    → C
proceed-return (ok a) mid next h goal = goal a refl h
proceed-return (err e) mid next h goal = cc

-- What returns has returned at its first call, and goes on from the world after it.
pub on_return {ℓ κ μ} :
    {W : Type 0} {A : Type ℓ} {B : Type κ} {C : Type μ} (call : Action W A) (next : A → Action W B)
    (world : W) {b : B} {end : W}
    → (call >>= next) world ≡ (ok b, end)
    → ((a : A) → (call world).0 ≡ ok a → next a (call world).1 ≡ (ok b, end) → C)
    → C
on_return call next world h goal = proceed-return (call world).0 (call world).1 next h goal

-- A call returns one value and leaves one world.
pub returned {ℓ} :
    {A : Type ℓ} {W : Type 0} {a b : A} {s t : W}
    → ◌≡◌ {A = Result A × W} (ok a, s) (ok b, t)
    → (a ≡ b) × (s ≡ t)
returned e = (cc, cc)
