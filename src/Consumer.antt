-- ===== src/Consumer.antt =====
-- `verifyConsumerSolanaBundle` of sdk/src/decoder.ts: the gate for the consumer send bundle.
pub mod Gate
pub mod Outer
pub mod Funds
pub mod Checks
pub mod Allowed
pub mod Proposed
pub mod Budgets
pub mod AtaCreates
pub mod Accepts
use solana_multisig.Prelude.{
  Bool, false, List, [], ◌∷◌, ◌++◌, Option, none, some, Text, Result, ok, err,
}
use solana_multisig.Prelude.Strings.{lit}
use solana_multisig.Web3.{Web3}
use solana_multisig.Compare.{is_empty}
use solana_multisig.Consumer.Outer.{ConsumerParams, ConsumerDecoded}
use solana_multisig.Consumer.Checks.{consumer_gate}

pub record ConsumerVerdict : Type 0 where
  pub accepted : Bool
  pub mismatches : List Text
  pub decoded : Option ConsumerDecoded

-- The value returned from the `try` block, and from the `catch` block.
unfoldable pub settle : List Text → Result ConsumerDecoded → ConsumerVerdict
settle mismatches (ok decoded) = record {
  accepted = is_empty mismatches;
  mismatches = mismatches;
  decoded = some decoded;
}
settle mismatches (err error) = record {
  accepted = false;
  mismatches = mismatches ++ ((lit "transaction bytes are undecodable: " ++ error) ∷ []);
  decoded = none;
}

unfoldable pub verify_consumer_solana_bundle :
    {K : Type 0} → Web3 K → Text → K → ConsumerParams → ConsumerVerdict
unfolding settle consumer_gate
verify_consumer_solana_bundle w serialized_tx_base64 program_id params =
    let gate = consumer_gate w serialized_tx_base64 program_id params in settle gate.0 gate.1
