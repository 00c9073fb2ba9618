-- ===== src/Tests/World.antt =====
-- A small world for the tests: keys are numbers, and addresses are sums of seeds.
use solana_multisig.Prelude.{
  ◌≡◌, true, ℕ, zero, suc, ◌+◌, ◌%◌, refl, false, List, [], ◌∷◌, ◌++◌, Option, none, some, Text,
  Result, ok, err, arith, if◌then◌else◌, ◌==◌, ==_iff,
}
use solana_multisig.Prelude.Strings.{lit, text_eq}
use solana_multisig.Web3.{Bytes, Web3, IsWeb3, AccountMeta, TransactionInstruction, Transaction}
use solana_multisig.Message.{CompiledInstruction, TransactionMessage}
use solana_multisig.Message.Layout.{Fits, IsEncodable}
use solana_multisig.Proposal.{AccountInfo}
use solana_multisig.Build.{
  build_message_from_instructions, observed, ordered, compile_instructions, compile_instruction,
  account_index, account_indexes_of, find_index, vault_first,
}

abbrev pub zeros : ℕ → Bytes
zeros zero = []
zeros (suc n) = 0 ∷ zeros n

abbrev pub total : Bytes → ℕ
total [] = 0
total (b ∷ bs) = b + total bs

abbrev pub total_of : List Bytes → ℕ
total_of [] = 0
total_of (bs ∷ rest) = total bs + total_of rest

abbrev pub key_of_bytes : Bytes → ℕ
key_of_bytes [] = 0
key_of_bytes (b ∷ bs) = b

abbrev pub key_of_text : Text → Result ℕ
key_of_text (n ∷ []) = ok n
key_of_text [] = err (lit "Invalid public key input")
key_of_text (a ∷ b ∷ t) = err (lit "Invalid public key input")

abbrev pub meta : ℕ → AccountMeta ℕ
meta n = record { pubkey = n; is_signer = false; is_writable = false }

abbrev pub instruction : ℕ → List (AccountMeta ℕ) → Bytes → TransactionInstruction ℕ
instruction program keys raw = record { program_id = program; keys = keys; payload = raw }

-- Five lamports from the vault 53 to 60.
abbrev pub transfer : CompiledInstruction
transfer = record {
  program_id_index = 2;
  account_indexes = 0 ∷ 1 ∷ [];
  payload = 2 ∷ 0 ∷ 0 ∷ 0 ∷ 5 ∷ 0 ∷ 0 ∷ 0 ∷ 0 ∷ 0 ∷ 0 ∷ 0 ∷ [];
}

abbrev pub payment : TransactionMessage ℕ
payment = record {
  num_signers = 1;
  num_writable_signers = 1;
  num_writable_non_signers = 1;
  account_keys = 53 ∷ 60 ∷ 1 ∷ [];
  instructions = transfer ∷ [];
  address_table_lookups = [];
}

pub payment-Fits : Fits payment
payment-Fits = record {
  keys = omega arith;
  instructions = omega arith;
  each_instruction = ((omega arith, omega arith), tt);
  lookups = omega arith;
  each_lookup = tt;
}

pub payment-IsEncodable : IsEncodable payment
payment-IsEncodable = record {
  lengths = payment-Fits;
  signers = omega arith;
  writable_signers = omega arith;
  writable_non_signers = omega arith;
  programs = (omega arith, tt);
}

-- The message of `payment`, as bytes.
abbrev pub payment_bytes : Bytes
payment_bytes =
    (1 ∷ 1 ∷ 1 ∷ 3 ∷ 0 ∷ 0 ∷ 0 ∷ 53 ∷ zeros 31)
    ++ ((60 ∷ zeros 31)
        ++ ((1 ∷ zeros 31)
            ++ ((1 ∷ 0 ∷ 0 ∷ 0 ∷ 2 ∷ 2 ∷ 0 ∷ 0 ∷ 0 ∷ 0 ∷ 1 ∷ 12 ∷ 0 ∷ 0 ∷ 0 ∷ [])
                ++ ((2 ∷ 0 ∷ 0 ∷ 0 ∷ 5 ∷ 0 ∷ 0 ∷ 0 ∷ 0 ∷ 0 ∷ 0 ∷ 0 ∷ []) ++ zeros 4))))

-- A send bundle: the nonce, a compute limit, the proposal 182, its approval by 20, the execution.
abbrev pub send_bundle : Transaction ℕ
send_bundle = record {
  fee_payer = some 40;
  instructions =
      instruction 1 [] (4 ∷ 0 ∷ 0 ∷ 0 ∷ [])
      ∷ instruction 5 [] (2 ∷ 10 ∷ 0 ∷ 0 ∷ 0 ∷ [])
      ∷ instruction 100 (meta 9 ∷ meta 182 ∷ meta 20 ∷ meta 40 ∷ [])
          ((227 ∷ 193 ∷ 53 ∷ 239 ∷ 55 ∷ 126 ∷ 112 ∷ 105 ∷ 0 ∷ []) ++ payment_bytes)
      ∷ instruction 100 (meta 9 ∷ meta 182 ∷ meta 20 ∷ [])
          (224 ∷ 39 ∷ 88 ∷ 181 ∷ 36 ∷ 59 ∷ 155 ∷ 122 ∷ [])
      ∷ instruction 100 (meta 9 ∷ meta 182 ∷ []) (231 ∷ 173 ∷ 49 ∷ 91 ∷ 235 ∷ 24 ∷ 68 ∷ 19 ∷ [])
      ∷ [];
}

-- An approve-only bundle for the proposal 182 with index 7.
abbrev pub approve_bundle : Transaction ℕ
approve_bundle = record {
  fee_payer = some 40;
  instructions =
      instruction 100 (meta 9 ∷ meta 182 ∷ meta 20 ∷ [])
        (224 ∷ 39 ∷ 88 ∷ 181 ∷ 36 ∷ 59 ∷ 155 ∷ 122 ∷ 7 ∷ zeros 7)
      ∷ [];
}

abbrev pub parse_toy : Bytes → Result (Transaction ℕ)
parse_toy [] = err (lit "empty")
parse_toy (zero ∷ bs) = ok send_bundle
parse_toy (suc n ∷ bs) = ok approve_bundle

abbrev pub toy : Web3 ℕ
toy = record {
  equals = λ a b. a == b;
  to_bytes = λ n. n ∷ zeros 31;
  to_base58 = λ n. n ∷ [];
  of_bytes = key_of_bytes;
  of_base58 = key_of_text;
  find_program_address = λ seeds program. ok (total_of seeds % 256, 255);
  create_with_seed = λ base seed program. ok ((base + total seed) % 256);
  transaction_from = parse_toy;
  of_base64 = λ t. t;
  of_utf8 = λ t. t;
  to_utf8 = λ t. t;
  sha256 = λ bs. bs;
  system_program_id = 1;
  token_program_id = 2;
  token_2022_program_id = 3;
  ata_program_id = 4;
  compute_budget_program_id = 5;
  memo_program_id = 6;
}

pub toy-IsWeb3 : IsWeb3 toy
toy-IsWeb3 = record {
  equals_iff = ==_iff;
  of_bytes-to_bytes = λ a. refl;
  length-to_bytes = λ a. refl;
  of_base58-to_base58 = λ a. refl;
  to_base58-ne-nil = λ a e. cc;
}

-- The account at 182 stores the proposal of `payment`; no other account exists.
abbrev pub stored_bytes : Bytes
stored_bytes =
    (168 ∷ 250 ∷ 162 ∷ 100 ∷ 81 ∷ 14 ∷ 162 ∷ 207 ∷ 9 ∷ zeros 31)
    ++ ((7 ∷ zeros 7)
        ++ ((20 ∷ zeros 31)
            ++ ((40 ∷ zeros 31) ++ ((255 ∷ 0 ∷ 254 ∷ 0 ∷ 0 ∷ 0 ∷ 0 ∷ 0 ∷ []) ++ payment_bytes))))

abbrev pub toy_connection : ℕ → Text → Result (Option (AccountInfo ℕ))
toy_connection k commitment =
    if k == 182 then ok (some (record { owner = 100; contents = stored_bytes })) else ok none

-- Five lamports from the vault 53 to 60, as an instruction.
abbrev pub pay_instruction : TransactionInstruction ℕ
pay_instruction = record {
  program_id = 1;
  keys =
      record { pubkey = 53; is_signer = true; is_writable = true }
      ∷ record { pubkey = 60; is_signer = false; is_writable = true }
      ∷ [];
  payload = 2 ∷ 0 ∷ 0 ∷ 0 ∷ 5 ∷ 0 ∷ 0 ∷ 0 ∷ 0 ∷ 0 ∷ 0 ∷ 0 ∷ [];
}

pub payment_built : build_message_from_instructions toy 53 (pay_instruction ∷ []) ≡ ok payment
unfolding build_message_from_instructions observed ordered compile_instructions compile_instruction
    account_index account_indexes_of find_index vault_first text_eq
payment_built = refl
