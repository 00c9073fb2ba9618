-- ===== src/Bundle/Unflagged.antt =====
-- `parseBundle` of sdk/src/decoder.ts does not read the flags of an account. `Transaction.from` gives each
-- account the flags that it has in the whole message, and not those of the instruction that was
-- serialized.
use solana_multisig.Prelude.{
  ℕ, ◌+◌, ◌≡◌, refl, ap, false, List, [], ◌∷◌, map, Result, ok, err, ◌>>=◌,
}
use solana_multisig.Web3.{Web3, AccountMeta, TransactionInstruction}
use solana_multisig.Bundle.{ParsedBundle, parse_outer, parse_outer_loop}

-- The account with no flag set.
abbrev pub unflagged_meta : {K : Type 0} → AccountMeta K → AccountMeta K
unflagged_meta m = record { pubkey = m.pubkey; is_signer = false; is_writable = false }

-- The instruction by its program, the keys of its accounts and its data.
abbrev pub unflagged : {K : Type 0} → TransactionInstruction K → TransactionInstruction K
unflagged ix = record {
  program_id = ix.program_id;
  keys = map unflagged_meta ix.keys;
  payload = ix.payload;
}

module _ {K : Type 0} (w : Web3 K) (program_id : K) where
  pubkeys-unflagged :
      (metas : List (AccountMeta K))
      → map (λ (m : AccountMeta K). m.pubkey) (map unflagged_meta metas)
        ≡ map (λ (m : AccountMeta K). m.pubkey) metas
  pubkeys-unflagged [] = refl
  pubkeys-unflagged (m ∷ metas) = ap (λ ks. m.pubkey ∷ ks) (pubkeys-unflagged metas)

  parse_outer-unflagged :
      (parsed : ParsedBundle K) (i : ℕ) (ix : TransactionInstruction K)
      → parse_outer w program_id parsed i (unflagged ix) ≡ parse_outer w program_id parsed i ix
  unfolding parse_outer
  parse_outer-unflagged parsed i ix = rw (pubkeys-unflagged ix.keys) refl

  pub parse_outer_loop-unflagged :
      (parsed : ParsedBundle K) (i : ℕ) (ixs : List (TransactionInstruction K))
      → parse_outer_loop w program_id parsed i (map unflagged ixs)
        ≡ parse_outer_loop w program_id parsed i ixs
  unfolding parse_outer_loop
  parse_outer_loop-unflagged parsed i [] = refl
  parse_outer_loop-unflagged parsed i (ix ∷ rest) = rw (parse_outer-unflagged parsed i ix) (
      onward (parse_outer w program_id parsed i ix) rest
        (λ mid. parse_outer_loop-unflagged mid (i + 1) rest))
    where
      onward :
          (r : Result (ParsedBundle K)) (rest : List (TransactionInstruction K))
          → ((mid : ParsedBundle K)
              → parse_outer_loop w program_id mid (i + 1) (map unflagged rest)
                ≡ parse_outer_loop w program_id mid (i + 1) rest)
          → (r >>= λ mid. parse_outer_loop w program_id mid (i + 1) (map unflagged rest))
            ≡ (r >>= λ mid. parse_outer_loop w program_id mid (i + 1) rest)
      onward (ok mid) rest later = later mid
      onward (err e) rest later = refl
