-- ===== src/Client/Canonical.antt =====
-- The addresses of proposals: those that the client derives, and those that the decoder checks.
use solana_multisig.Prelude.{ℕ, suc, ◌^◌, ◌<◌, ◌≡◌, true, Text, ok, ◌>>=◌}
use solana_multisig.Prelude.Strings.{decimal, is_numeral, numeral}
use solana_multisig.Prelude.Strings.Decimal.{is_numeral-decimal, numeral-decimal}
use solana_multisig.Web3.{Web3}
use solana_multisig.Numbers.{pos, ℤ_text}
use solana_multisig.Proposal.{derive_transaction_pda}
use solana_multisig.Client.World.{World, JsIndex}
use solana_multisig.Client.Index.{transaction_address, to_big_int, predict_next_transaction_pda}
use solana_multisig.Client.Idl.{IsAnchor}

module _ {K W V : Type 0} (w : Web3 K) (chain : World K W V) (anchor : IsAnchor w chain)
    (program_id : K) where
  -- The address for the text of an index is the one that the decoder derives for the index.
  pub transaction_address-eq :
      (multisig : K) (index : Text) (n : ℕ)
      → is_numeral index ≡ true
      → numeral index ≡ n
      → n < 2 ^ 64
      → transaction_address w chain program_id multisig index
        ≡ derive_transaction_pda w multisig n program_id
  unfolding transaction_address derive_transaction_pda
  transaction_address-eq multisig index n d e h = rw (anchor.bn_bytes index (d, rw (← e) at h), e)

  -- `predictNextTransactionPda` gives the index behind the current one, whatever form that has, and
  -- the address that the decoder derives as canonical for it.
  pub predict_next_transaction_pda-canonical :
      (multisig : K) (current : JsIndex) (n : ℕ)
      → to_big_int current ≡ ok (pos n)
      → suc n < 2 ^ 64
      → predict_next_transaction_pda w chain program_id multisig current ≡ (
          derive_transaction_pda w multisig (suc n) program_id >>= λ address.
          ok (address, pos (suc n)))
  unfolding predict_next_transaction_pda ℤ_text
  predict_next_transaction_pda-canonical multisig current n e h = rw (
    e,
    transaction_address-eq multisig (decimal (suc n)) (suc n) (is_numeral-decimal (suc n))
        (numeral-decimal (suc n)) h,
  )
