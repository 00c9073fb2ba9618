-- ===== src/Tests/Flags.antt =====
-- The theorem on flagged programs at the approve-only bundle of the small world.
use solana_multisig.Prelude.{ℕ, ◌≡◌, refl, false, [], ◌∷◌, none, some, ok}
use solana_multisig.Bytes.{bytes_equal, read_u64_le}
use solana_multisig.Bundle.{ParsedBundle, parse_bundle, parse_multisig, read_transaction_index_arg}
use solana_multisig.Decode.{DecodeOptions, decode_vault_solana_transaction}
use solana_multisig.Decode.Flags.{IsUnflagged}
use solana_multisig.Decode.Unflagged.{programs_of, decode_vault_solana_transaction-IsUnflagged}
use solana_multisig.Tests.World.{toy}

abbrev options : DecodeOptions
options = record {
  expected_recipient_owner = none;
  expected_mint = none;
  allow_compute_budget = none;
  allow_memo = false;
}

nothing_flagged : programs_of (decode_vault_solana_transaction toy (1 ∷ []) 100 options) ≡ some []
unfolding decode_vault_solana_transaction parse_bundle parse_multisig bytes_equal read_u64_le
    read_transaction_index_arg
nothing_flagged = refl

no_programs_example :
    (bundle : ParsedBundle ℕ) × (parse_bundle toy 100 (1 ∷ []) ≡ ok bundle)
    × IsUnflagged bundle options.allow_compute_budget
no_programs_example =
    decode_vault_solana_transaction-IsUnflagged toy (1 ∷ []) 100 options nothing_flagged
