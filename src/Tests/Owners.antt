-- ===== src/Tests/Owners.antt =====
-- The resolution of token accounts at two destinations, one of the owner 20 and one of another.
use solana_multisig.Prelude.{ℕ, ◌≡◌, refl, List, [], ◌∷◌, none, some, true, false, ok}
use solana_multisig.Prelude.Strings.{lit, text_eq, includes}
use solana_multisig.Classify.{Recipient, spl, resolve_ata_owner, derive_associated_token_address}
use solana_multisig.Classify.Owners.{IsResolution, resolve_ata_owner-IsResolution}
use solana_multisig.Tests.World.{toy}

abbrev destination : ℕ → Recipient
destination ata = record {
  address = lit "to";
  ata = some (ata ∷ []);
  ata_verified = none;
  amount = lit "5";
  asset = spl;
  mint = some (30 ∷ []);
  decimals = some 6;
  token_program = some (2 ∷ []);
}

abbrev destinations : List Recipient
destinations = destination 52 ∷ destination 54 ∷ []

abbrev resolved : List Recipient
resolved =
    record (destination 52) { address = 20 ∷ []; ata_verified = some true }
    ∷ record (destination 54) { address = 54 ∷ []; ata_verified = some false }
    ∷ []

resolved_run : resolve_ata_owner toy destinations (20 ∷ []) (30 ∷ []) ≡ ok resolved
unfolding resolve_ata_owner derive_associated_token_address includes text_eq
resolved_run = refl

resolve_example : IsResolution toy destinations (20 ∷ []) (30 ∷ []) resolved
resolve_example =
    resolve_ata_owner-IsResolution toy destinations (20 ∷ []) (30 ∷ []) resolved resolved_run
