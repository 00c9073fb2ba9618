-- ===== src/Client/Decoded.antt =====
-- What the client builds, the bundle parser of the decoder reads back.
use solana_multisig.Prelude.{
  ℕ, suc, ◌^◌, ◌≤◌, ◌<◌, ◌≡◌, ◌≢◌, refl, ◌∙◌, false, List, [], ◌∷◌, ◌++◌, map, append-nil, Option,
  ok, length, Bool-cases, inl, inr,
}
use mathlib.Core.List.{map-id}
use solana_multisig.Prelude.Strings.{lit, text_eq}
use solana_multisig.Web3.{Bytes, Web3, IsWeb3, AccountMeta}
use solana_multisig.Bytes.{bytes_equal}
use solana_multisig.Message.{TransactionMessage, parse_create_transaction_data}
use solana_multisig.Message.Layout.{
  encode_message, Fits, IsEncodable, inner_of, parse_create_transaction_data-encode,
}
use solana_multisig.Numbers.{ℤ, pos}
use solana_multisig.Proposal.{derive_transaction_pda}
use solana_multisig.Bundle.{
  ParsedBundle, parse_multisig, parse_outer, create_transaction_discriminator,
}
use solana_multisig.Client.World.{World}
use solana_multisig.Client.Index.{to_big_int}
use solana_multisig.Client.Builders.{
  new_client, CreateOpts, Created, onchain_message, or_else_key, create_call,
  build_create_transaction_instruction,
}
use solana_multisig.Client.Idl.{IsAnchor, idl_accounts, idl_arguments, idl_discriminator, idl_metas}
use solana_multisig.Client.Built.{create_metas, create_payload, create_entry, created_of}
use solana_multisig.Client.Canonical.{predict_next_transaction_pda-canonical}

-- The copy that the client makes of a message is the message.
pub onchain_message-eq : {K : Type 0} (m : TransactionMessage K) → onchain_message m ≡ m
unfolding onchain_message
onchain_message-eq m =
    let instructions = map-id m.instructions in
    let lookups = map-id m.address_table_lookups in
    λ i. record m { instructions = instructions i; address_table_lookups = lookups i }

-- A program that the parser does not take for one of its own.
pub record IsOrdinary {K : Type 0} (w : Web3 K) (program_id : K) : Type 0 where
  pub not_system : program_id ≢ w.system_program_id
  pub not_compute_budget : program_id ≢ w.compute_budget_program_id
  pub not_ata : program_id ≢ w.ata_program_id

equals-false : {K : Type 0} (w : Web3 K) (laws : IsWeb3 w) (a b : K) → a ≢ b → w.equals a b ≡ false
equals-false w laws a b ne = elim (Bool-cases (w.equals a b)) [
  | inl e ↦ absurd (ne ((laws.equals_iff a b).0 e))
  | inr e ↦ e
]

module _ {K W V : Type 0} (w : Web3 K) (laws : IsWeb3 w) (chain : World K W V)
    (anchor : IsAnchor w chain) (program_id : K) (fee : Option ℤ) where
  -- An outer instruction of the program goes to the branch of the program.
  pub parse_outer-own :
      (ordinary : IsOrdinary w program_id) (parsed : ParsedBundle K) (position : ℕ)
      (keys : List (AccountMeta K)) (payload : Bytes)
      → parse_outer w program_id parsed position
          (record { program_id = program_id; keys = keys; payload = payload })
        ≡ parse_multisig w program_id parsed position program_id
            (map (λ (m : AccountMeta K). m.pubkey) keys)
            payload
  unfolding parse_outer
  parse_outer-own ordinary parsed position keys payload =
      rw
        (
          equals-false w laws program_id w.system_program_id ordinary.not_system,
          equals-false w laws program_id w.compute_budget_program_id ordinary.not_compute_budget,
          equals-false w laws program_id w.ata_program_id ordinary.not_ata,
          (laws.equals_iff program_id program_id).1 refl,
        )
        refl

  create_call-builds :
      (opts : CreateOpts K) (address : K) (world : W)
      → opts.vault_index < 256
      → IsEncodable opts.message
      → suc (length (encode_message w opts.message)) ≤ 2000
      → chain.instruction
          (create_call w chain
            (new_client w program_id fee)
            opts.multisig_address
            address
            opts.vault_index
            opts.message
            opts.creator
            (or_else_key opts.payer opts.creator))
          world
        ≡ (
          ok (record {
            program_id = program_id;
            keys = create_metas w opts address;
            payload = create_payload w opts;
          }),
          world,
        )
  unfolding new_client idl_metas idl_accounts idl_arguments idl_discriminator text_eq lit
  create_call-builds opts address world small fits short =
      let same = onchain_message-eq opts.message in
      let call =
        create_call w chain (new_client w program_id fee) opts.multisig_address address
          opts.vault_index opts.message opts.creator (or_else_key opts.payer opts.creator) in
      let built =
        anchor.builds call program_id (create_metas w opts address)
          (laws.of_base58-to_base58 program_id) refl (small, rw same fits) (rw same short) world in
      built ∙ λ i. (
        ok (record {
          program_id = program_id;
          keys = create_metas w opts address;
          payload =
              create_transaction_discriminator
              ++ ((opts.vault_index ∷ []) ++ encode_message w (same i));
        }),
        world,
      )

  parse_multisig-create :
      (opts : CreateOpts K) (address : K) (parsed : ParsedBundle K) (position : ℕ)
      → Fits opts.message
      → parse_multisig w program_id parsed position program_id
          (map (λ (m : AccountMeta K). m.pubkey) (create_metas w opts address))
          (create_payload w opts)
        ≡ ok (record parsed {
          creates = parsed.creates ++ (create_entry w position opts address ∷ []);
        })
  unfolding parse_multisig bytes_equal
  parse_multisig-create opts address parsed position fits =
      let read =
        parse_create_transaction_data-encode w laws create_transaction_discriminator
          opts.vault_index opts.message [] refl fits in
      let whole : parse_create_transaction_data w (create_payload w opts)
          ≡ ok (inner_of opts.vault_index opts.message) =
        rw (append-nil (create_payload w opts)) at read in
      rw whole refl

  pub build_create_transaction_instruction-eq :
      (opts : CreateOpts K) (n : ℕ) (address : K) (world : W)
      → to_big_int opts.current_transaction_index ≡ ok (pos n)
      → suc n < 2 ^ 64
      → derive_transaction_pda w opts.multisig_address (suc n) program_id ≡ ok address
      → opts.vault_index < 256
      → IsEncodable opts.message
      → suc (length (encode_message w opts.message)) ≤ 2000
      → build_create_transaction_instruction w chain (new_client w program_id fee) opts world
        ≡ (ok (created_of w program_id opts n address), world)
  unfolding build_create_transaction_instruction new_client
  build_create_transaction_instruction-eq opts n address world index bound derived small fits
        short =
      rw
        (
          predict_next_transaction_pda-canonical w chain anchor program_id opts.multisig_address
              opts.current_transaction_index n index bound,
          derived,
          create_call-builds opts address world small fits short,
        )
        refl

  pub parse_outer-create :
      (opts : CreateOpts K) (n : ℕ) (address : K) (parsed : ParsedBundle K) (position : ℕ)
      → IsOrdinary w program_id
      → Fits opts.message
      → parse_outer w program_id parsed position
          (created_of w program_id opts n address).instruction
        ≡ ok (record parsed {
          creates = parsed.creates ++ (create_entry w position opts address ∷ []);
        })
  parse_outer-create opts n address parsed position ordinary fits =
      parse_outer-own ordinary parsed position (create_metas w opts address) (create_payload w opts)
      ∙ parse_multisig-create opts address parsed position fits

  -- `buildCreateTransactionInstruction` for the index n: the instruction is built without a change of
  -- the world, names the proposal with the canonical address of n + 1, and `parseBundle` takes it, at
  -- any position of a bundle, for a create with the five accounts and the message of the options.
  -- The fields of the message fit their types, its layout fits the scratch buffer, and the program is not the system program,
  -- the compute budget program or the token account program.
  pub build_create_transaction_instruction-parsed :
      (opts : CreateOpts K) (n : ℕ) (address : K) (world : W) (parsed : ParsedBundle K)
      (position : ℕ)
      → IsOrdinary w program_id
      → to_big_int opts.current_transaction_index ≡ ok (pos n)
      → suc n < 2 ^ 64
      → derive_transaction_pda w opts.multisig_address (suc n) program_id ≡ ok address
      → opts.vault_index < 256
      → IsEncodable opts.message
      → suc (length (encode_message w opts.message)) ≤ 2000
      → (created : Created K) × (build_create_transaction_instruction w chain
            (new_client w program_id fee)
            opts
            world
          ≡ (ok created, world))
        × (created.transaction_address ≡ address)
        × (created.transaction_index ≡ pos (suc n))
        × (parse_outer w program_id parsed position created.instruction
            ≡ ok (record parsed {
              creates = parsed.creates ++ (create_entry w position opts address ∷ []);
            }))
  build_create_transaction_instruction-parsed opts n address world parsed position ordinary index
        bound derived small fits short =
      (
        created_of w program_id opts n address,
        build_create_transaction_instruction-eq opts n address world index bound derived small fits
            short,
        refl,
        refl,
        parse_outer-create opts n address parsed position ordinary fits.lengths,
      )
