-- ===== src/Tests/Bundles.antt =====
-- The theorems on the sorting of a bundle and on stored proposals, at inputs in the small world.
use solana_multisig.Prelude.{ℕ, ◌≡◌, refl, false, [], ◌∷◌, ◌++◌, none, some, ok, arith}
use solana_multisig.Prelude.Strings.{lit, text_eq}
use solana_multisig.Bytes.{bytes_equal, byte_at, read_u32_le, read_u64_le}
use solana_multisig.Bytes.LittleEndian.{le_bytes}
use solana_multisig.Message.Layout.{inner_of}
use solana_multisig.Classify.{
  InnerClassification, native_recipient, classify_inner_message, classify_loop, classify_step,
  classify_try, classify_native,
}
use solana_multisig.Bundle.{ParsedBundle, parse_bundle, parse_multisig}
use solana_multisig.Bundle.Sorted.{IsSortedBundle, parse_bundle-IsSortedBundle}
use solana_multisig.Proposal.{
  derive_transaction_pda, derive_vault_pda, decode_vault_transaction_account,
}
use solana_multisig.Proposal.Stored.{
  VaultTransaction, FitsAccount, encode_account, report_of, decode_vault_transaction_account-encode,
}
use solana_multisig.Tests.World.{toy, toy-IsWeb3, payment, payment-Fits, zeros}

abbrev parsed : ParsedBundle ℕ
parsed = record {
  fee_payer = some (40 ∷ []);
  nonce_advance_indexes = [];
  compute_budget = [];
  ata_creates = [];
  creates = [];
  approves =
      record {
        index = 0;
        keys = 9 ∷ 182 ∷ 20 ∷ [];
        payload = 224 ∷ 39 ∷ 88 ∷ 181 ∷ 36 ∷ 59 ∷ 155 ∷ 122 ∷ 7 ∷ zeros 7;
      }
      ∷ [];
  executes = [];
  closes = [];
  foreign = [];
}

parsed_run : parse_bundle toy 100 (1 ∷ []) ≡ ok parsed
unfolding parse_bundle parse_multisig bytes_equal
parsed_run = refl

parse_bundle_example : IsSortedBundle toy 100 (1 ∷ []) parsed
parse_bundle_example = parse_bundle-IsSortedBundle toy 100 toy-IsWeb3 (1 ∷ []) parsed parsed_run

abbrev account : VaultTransaction ℕ
account = record {
  multisig = 9;
  transaction_index = 7;
  creator = 20;
  payer = 40;
  bump = 255;
  vault_index = 0;
  vault_bump = 254;
  executed = false;
  approvals = 20 ∷ [];
  message = payment;
}

abbrev paid : InnerClassification
paid = record {
  recipients = native_recipient (60 ∷ []) 5 ∷ [];
  fee_lamports = 0;
  unknown_inner_instruction_count = 0;
  memos = [];
}

account-FitsAccount : FitsAccount account
account-FitsAccount = record {
  index = omega arith;
  approvals = omega arith;
  message = payment-Fits;
}

seven_derived : derive_transaction_pda toy 9 7 100 ≡ ok 182
unfolding derive_transaction_pda lit le_bytes
seven_derived = refl

vault_derived : derive_vault_pda toy 9 0 100 ≡ ok 53
unfolding derive_vault_pda lit
vault_derived = refl

classified : classify_inner_message toy (inner_of 0 payment) (some (40 ∷ [])) false ≡ ok paid
unfolding classify_inner_message classify_loop classify_step classify_try classify_native text_eq
    lit read_u32_le read_u64_le byte_at bytes_equal
classified = refl

decode_account_example :
    decode_vault_transaction_account toy (encode_account toy account ++ (1 ∷ [])) 182 100 (record {
      fee_payer = none;
      allow_memo = false;
      expected_recipient_owner = none;
      expected_mint = none;
      commitment = none;
    })
    ≡ report_of toy account 182 53 53 paid (some (40 ∷ []))
decode_account_example =
    decode_vault_transaction_account-encode toy toy-IsWeb3 account (1 ∷ []) 182 53 53 100
      (60 ∷ 1 ∷ []) false paid account-FitsAccount seven_derived vault_derived refl classified
