-- ===== src/Decode/Unflagged.antt =====
-- What an empty list of unknown outer programs says, in the report of `decodeVaultSolanaTransaction`
-- (sdk/src/decoder.ts).
use solana_multisig.Prelude.{
  some_injective, ok_injective, ◌≡◌, refl, sym, ap, ◌∙◌, List, [], ◌∷◌, Option, none, some, Text,
  Result, ok, err, catch, on_ok, throw_if, ltb, length,
}
use solana_multisig.Web3.{Web3}
use solana_multisig.Classify.{classify_inner_message}
use solana_multisig.Bundle.{
  ParsedBundle, ParsedCreate, ParsedMultisigIx, parse_bundle, read_transaction_index_arg,
}
use solana_multisig.Decode.{
  DecodeOptions, DecodedBundle, create, approve, undecodable, Approvals, three_keys, first_key,
  resolve_if_asked, collect_approvals, unknown_outer_programs, decode_create, decode_approve,
  decode_kind, decode_try, decode_vault_solana_transaction,
}
use solana_multisig.Decode.Flags.{IsUnflagged, unknown_outer_programs-IsUnflagged}

-- The programs that a report flags.
abbrev pub programs_of : DecodedBundle → Option (List Text)
programs_of (create c) = some c.unknown_outer_programs
programs_of (approve a) = some a.unknown_outer_programs
programs_of (undecodable message) = none

module _ {K : Type 0} (w : Web3 K) where
  decode_create-programs :
      (bundle : ParsedBundle K) (opts : DecodeOptions) (unknown : List Text) (approvals : Approvals)
      (c : ParsedCreate K) (d : DecodedBundle)
      → decode_create w bundle opts unknown approvals c ≡ ok d
      → programs_of d ≡ some unknown
  unfolding decode_create
  decode_create-programs bundle opts unknown approvals c d h =
      on_ok (three_keys w c.keys _) _ h λ keys e0 h0.
        on_ok (first_key w c.inner.account_keys _) _ h0 λ sender e1 h1.
          on_ok (classify_inner_message w c.inner bundle.fee_payer opts.allow_memo) _ h1
            λ classified e2 h2.
              on_ok
                (resolve_if_asked w opts.expected_recipient_owner opts.expected_mint
                  classified.recipients)
                _ h2 λ recipients e3 h3. ap programs_of (sym (ok_injective h3))

  decode_approve-programs :
      (unknown : List Text) (approvals : Approvals) (first : ParsedMultisigIx K) (d : DecodedBundle)
      → decode_approve w unknown approvals first ≡ ok d
      → programs_of d ≡ some unknown
  unfolding decode_approve
  decode_approve-programs unknown approvals first d h =
      on_ok (read_transaction_index_arg first.payload) _ h λ index e0 h0.
        on_ok (three_keys w first.keys _) _ h0 λ keys e1 h1. ap programs_of (sym (ok_injective h1))

  decode_kind-programs :
      (bundle : ParsedBundle K) (opts : DecodeOptions) (unknown : List Text) (approvals : Approvals)
      (creates : List (ParsedCreate K)) (approves : List (ParsedMultisigIx K)) (d : DecodedBundle)
      → decode_kind w bundle opts unknown approvals creates approves ≡ ok d
      → programs_of d ≡ some unknown
  unfolding decode_kind
  decode_kind-programs bundle opts unknown approvals (c ∷ creates) approves d h =
      decode_create-programs bundle opts unknown approvals c d h
  decode_kind-programs bundle opts unknown approvals [] (first ∷ approves) d h =
      decode_approve-programs unknown approvals first d h
  decode_kind-programs bundle opts unknown approvals [] [] d h = cc

  decode_try-programs :
      (raw : Text) (program_id : K) (opts : DecodeOptions) (d : DecodedBundle)
      → decode_try w raw program_id opts ≡ ok d
      → programs_of d ≡ some []
      → (bundle : ParsedBundle K) × (parse_bundle w program_id raw ≡ ok bundle)
        × IsUnflagged bundle opts.allow_compute_budget
  unfolding decode_try
  decode_try-programs raw program_id opts d h quiet =
      on_ok (parse_bundle w program_id raw) _ h λ bundle e0 h0.
        on_ok (unknown_outer_programs w bundle opts.allow_compute_budget) _ h0 λ unknown e1 h1.
          on_ok (throw_if (ltb 1 (length bundle.creates)) _) _ h1 λ u e2 h2.
            on_ok (collect_approvals w bundle.approves) _ h2 λ approvals e3 h3.
              let listed =
                decode_kind-programs bundle opts unknown approvals bundle.creates bundle.approves d
                  h3 in
              (
                bundle,
                e0,
                unknown_outer_programs-IsUnflagged w bundle opts.allow_compute_budget
                    (e1 ∙ ap (λ l. ok l) (some_injective (sym listed ∙ quiet))),
              )

  -- When `decodeVaultSolanaTransaction` reports no unknown outer program, the transaction parses into
  -- a bundle without a foreign instruction; the funder of each token account create in it is the fee
  -- payer, where both are known; and each compute budget instruction in it sets a limit or a price,
  -- no tag twice, within the caps of the options, which are given when there is one.
  pub decode_vault_solana_transaction-IsUnflagged :
      (raw : Text) (program_id : K) (opts : DecodeOptions)
      → programs_of (decode_vault_solana_transaction w raw program_id opts) ≡ some []
      → (bundle : ParsedBundle K) × (parse_bundle w program_id raw ≡ ok bundle)
        × IsUnflagged bundle opts.allow_compute_budget
  unfolding decode_vault_solana_transaction
  decode_vault_solana_transaction-IsUnflagged raw program_id opts h =
      caught (decode_try w raw program_id opts) refl h
    where
      caught :
          (r : Result DecodedBundle)
          → decode_try w raw program_id opts ≡ r
          → programs_of (catch r undecodable) ≡ some []
          → (bundle : ParsedBundle K) × (parse_bundle w program_id raw ≡ ok bundle)
            × IsUnflagged bundle opts.allow_compute_budget
      caught (ok d) e quiet = decode_try-programs raw program_id opts d e quiet
      caught (err message) e quiet = cc
