-- ===== src/Client/Bundled.antt =====
-- The approvals, executions and closes that the client builds, as the decoder reads them, and the
-- bundle of a send.
use solana_multisig.Prelude.{
  ℕ, ◌^◌, ◌≤◌, ◌<◌, ◌≡◌, refl, ap, ◌∙◌, true, List, [], ◌∷◌, ◌++◌, map, append-nil, Option, some,
  ok, arith, length, length-append, leb, Text,
}
use solana_multisig.Prelude.Strings.{lit, text_eq, numeral}
use solana_multisig.Prelude.Strings.Decimal.{is_numeral-decimal, numeral-decimal}
use solana_multisig.Web3.{Bytes, Web3, IsWeb3, AccountMeta, TransactionInstruction}
use solana_multisig.Bytes.{bytes_equal, read_u64_le}
use solana_multisig.Bytes.LittleEndian.{le_bytes, read_u64_le-le_bytes, length-le_bytes}
use solana_multisig.Numbers.{ℤ, pos, ℤ_text}
use solana_multisig.Bundle.{
  ParsedBundle, parse_multisig, parse_outer, read_transaction_index_arg,
  approve_transaction_discriminator, execute_transaction_discriminator,
}
use solana_multisig.Client.World.{World, Method, approve_transaction, execute_transaction}
use solana_multisig.Client.Builders.{
  new_client, ProposalOpts, proposal_call, build_approve_transaction_instruction,
  build_execute_transaction_instruction,
}
use solana_multisig.Client.Idl.{
  IsAnchor, idl_accounts, idl_arguments, idl_discriminator, idl_metas, HasIndex, FitsMethod,
}
use solana_multisig.Client.Built.{proposal_entry, approve_of, execute_of}
use solana_multisig.Client.Decoded.{IsOrdinary, parse_outer-own}

-- The index argument behind a discriminator.
pub read_transaction_index_arg-le_bytes :
    (disc : Bytes) (n : ℕ)
    → length disc ≡ 8
    → n < 2 ^ 64
    → read_transaction_index_arg (disc ++ le_bytes 8 n) ≡ ok (some n)
unfolding read_transaction_index_arg
read_transaction_index_arg-le_bytes disc n e h =
    let read : read_u64_le (disc ++ le_bytes 8 n) 8 ≡ ok n =
      rw (append-nil, e) at (read_u64_le-le_bytes disc [] n h) in
    let long : leb 16 (length (disc ++ le_bytes 8 n)) ≡ true =
      ground (arith, length-append disc (le_bytes 8 n), length-le_bytes 8 n) in
    rw (long, read) refl

module _ {K W V : Type 0} (w : Web3 K) (laws : IsWeb3 w) (chain : World K W V)
    (anchor : IsAnchor w chain) (program_id : K) (fee : Option ℤ) where
  -- A call with an index becomes the eight bytes of the index behind its discriminator.
  proposal_call-builds :
      (method : Method K) (role : Text) (opts : ProposalOpts K) (metas : List (AccountMeta K))
      (disc : Bytes) (n : ℕ) (world : W)
      → idl_metas (idl_accounts method) (
          (lit "multisig", opts.multisig_address)
          ∷ (lit "transaction", opts.transaction_address)
          ∷ (role, opts.signer)
          ∷ [])
        ≡ some metas
      → FitsMethod method
      → idl_discriminator method ≡ disc
      → idl_arguments w method ≡ le_bytes 8 n
      → chain.instruction
          (proposal_call w chain
            (new_client w program_id fee)
            method
            role
            opts.multisig_address
            opts.transaction_address
            opts.signer
            [])
          world
        ≡ (
          ok (record { program_id = program_id; keys = metas; payload = disc ++ le_bytes 8 n }),
          world,
        )
  unfolding new_client
  proposal_call-builds method role opts metas disc n world named fits d a =
      let call =
        proposal_call w chain (new_client w program_id fee) method role opts.multisig_address
          opts.transaction_address opts.signer [] in
      let short : length (idl_arguments w method) ≤ 2000 =
        rw a (omega (arith, length-le_bytes 8 n)) in
      anchor.builds call program_id metas (laws.of_base58-to_base58 program_id) named fits short
        world
      ∙ λ i. (
        ok (record { program_id = program_id; keys = append-nil metas i; payload = d i ++ a i }),
        world,
      )

  -- The text of an index that the client gives to `new anchor.BN`.
  index_text-HasIndex :
      (z : ℤ) (n : ℕ) → z ≡ pos n → n < 2 ^ 64 → HasIndex (ℤ_text z) × (numeral (ℤ_text z) ≡ n)
  unfolding ℤ_text
  index_text-HasIndex z n e h =
      rw e ((is_numeral-decimal n, rw (numeral-decimal n) h), numeral-decimal n)

  pub build_approve_transaction_instruction-eq :
      (opts : ProposalOpts K) (n : ℕ) (world : W)
      → opts.transaction_index ≡ pos n
      → n < 2 ^ 64
      → build_approve_transaction_instruction w chain (new_client w program_id fee) opts world
        ≡ (ok (approve_of program_id opts n), world)
  unfolding build_approve_transaction_instruction idl_metas idl_accounts idl_arguments
      idl_discriminator text_eq lit
  build_approve_transaction_instruction-eq opts n world index bound =
      let text = index_text-HasIndex opts.transaction_index n index bound in
      proposal_call-builds (approve_transaction (ℤ_text opts.transaction_index)) (lit "member") opts
        (approve_of program_id opts n).keys approve_transaction_discriminator n world refl text.0
        refl (ap (le_bytes 8) text.1)

  pub parse_outer-approve :
      (opts : ProposalOpts K) (n : ℕ) (parsed : ParsedBundle K) (position : ℕ)
      → IsOrdinary w program_id
      → parse_outer w program_id parsed position (approve_of program_id opts n)
        ≡ ok (record parsed {
          approves =
              parsed.approves
              ++ (proposal_entry position approve_transaction_discriminator opts n ∷ []);
        })
  unfolding parse_multisig bytes_equal
  parse_outer-approve opts n parsed position ordinary =
      parse_outer-own w laws chain anchor program_id fee ordinary parsed position
        (approve_of program_id opts n).keys _

  -- `buildApproveTransactionInstruction` builds an instruction that `parseBundle` takes, at any
  -- position, for an approval of the proposal by the member, whose index argument reads as the
  -- transaction index.
  pub build_approve_transaction_instruction-parsed :
      (opts : ProposalOpts K) (n : ℕ) (world : W) (parsed : ParsedBundle K) (position : ℕ)
      → IsOrdinary w program_id
      → opts.transaction_index ≡ pos n
      → n < 2 ^ 64
      → (built : TransactionInstruction K) × (build_approve_transaction_instruction w chain
            (new_client w program_id fee)
            opts
            world
          ≡ (ok built, world))
        × (parse_outer w program_id parsed position built
            ≡ ok (record parsed {
              approves =
                  parsed.approves
                  ++ (proposal_entry position approve_transaction_discriminator opts n ∷ []);
            }))
        × (read_transaction_index_arg built.payload ≡ ok (some n))
  build_approve_transaction_instruction-parsed opts n world parsed position ordinary index bound = (
    approve_of program_id opts n,
    build_approve_transaction_instruction-eq opts n world index bound,
    parse_outer-approve opts n parsed position ordinary,
    read_transaction_index_arg-le_bytes approve_transaction_discriminator n refl bound,
  )

  pub build_execute_transaction_instruction-eq :
      (opts : ProposalOpts K) (n : ℕ) (remaining : List (AccountMeta K)) (world : W)
      → opts.transaction_index ≡ pos n
      → n < 2 ^ 64
      → build_execute_transaction_instruction w chain
          (new_client w program_id fee)
          opts
          remaining
          world
        ≡ (ok (execute_of program_id opts n remaining), world)
  unfolding build_execute_transaction_instruction new_client idl_metas idl_accounts idl_arguments
      idl_discriminator text_eq lit
  build_execute_transaction_instruction-eq opts n remaining world index bound =
      let text = index_text-HasIndex opts.transaction_index n index bound in
      let call =
        proposal_call w chain (new_client w program_id fee)
          (execute_transaction (ℤ_text opts.transaction_index)) (lit "executor")
          opts.multisig_address opts.transaction_address opts.signer remaining in
      anchor.builds call program_id _ (laws.of_base58-to_base58 program_id) refl text.0
        (omega (arith, length-le_bytes 8 (numeral (ℤ_text opts.transaction_index)))) world
      ∙ λ i. (
        ok (record {
          program_id = program_id;
          keys = (execute_of program_id opts n remaining).keys;
          payload = execute_transaction_discriminator ++ le_bytes 8 (text.1 i);
        }),
        world,
      )

  pub parse_outer-execute :
      (opts : ProposalOpts K) (n : ℕ) (remaining : List (AccountMeta K)) (parsed : ParsedBundle K)
      (position : ℕ)
      → IsOrdinary w program_id
      → parse_outer w program_id parsed position (execute_of program_id opts n remaining)
        ≡ ok (record parsed {
          executes =
              parsed.executes
              ++ (record {
                index = position;
                keys =
                    opts.multisig_address
                    ∷ opts.transaction_address
                    ∷ opts.signer
                    ∷ map (λ (m : AccountMeta K). m.pubkey) remaining;
                payload = execute_transaction_discriminator ++ le_bytes 8 n;
              }
                  ∷ []);
        })
  unfolding parse_multisig bytes_equal
  parse_outer-execute opts n remaining parsed position ordinary =
      parse_outer-own w laws chain anchor program_id fee ordinary parsed position
        (execute_of program_id opts n remaining).keys _
