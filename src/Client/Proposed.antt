-- ===== src/Client/Proposed.antt =====
-- A proposal from the instructions that a caller asks for to the report of the decoder: the message
-- of `buildMessageFromInstructions` in the create of sdk/src/client.ts.
use solana_multisig.Prelude.{
  ℕ, suc, ◌^◌, ◌≤◌, ◌<◌, ◌≡◌, List, [], ◌∷◌, ◌++◌, Option, some, ok, length, All, get_elem?, arith,
}
use solana_multisig.Web3.{Web3, IsWeb3, TransactionInstruction}
use solana_multisig.Message.Layout.{encode_message}
use solana_multisig.Numbers.{ℤ, pos}
use solana_multisig.Build.{build_message_from_instructions}
use solana_multisig.Build.Resolves.{CompileEach, build_message_from_instructions-CompileEach}
use solana_multisig.Build.VaultFirst.{build_message_from_instructions-vault}
use solana_multisig.Build.Fitting.{IsSmall}
use solana_multisig.Build.Encodable.{build_message_from_instructions-IsEncodable}
use solana_multisig.Proposal.{derive_transaction_pda}
use solana_multisig.Bundle.{ParsedBundle, ParsedCreate, parse_outer}
use solana_multisig.Client.World.{World}
use solana_multisig.Client.Index.{to_big_int}
use solana_multisig.Client.Builders.{
  new_client, CreateOpts, Created, build_create_transaction_instruction,
}
use solana_multisig.Client.Built.{create_entry, created_of}
use solana_multisig.Client.Idl.{IsAnchor}
use solana_multisig.Client.Decoded.{
  IsOrdinary, build_create_transaction_instruction-eq, parse_outer-create,
}

module _ {K W V : Type 0} (w : Web3 K) (laws : IsWeb3 w) (chain : World K W V)
    (anchor : IsAnchor w chain) (program_id : K) (fee : Option ℤ) where
  -- What the caller asks for is what the decoder sees. When the message of a create is built from a
  -- vault and instructions, with at most 256 account keys and lengths that fit the layout and the
  -- scratch buffer, the create is built without a change of the world and `parseBundle` takes it for a
  -- create whose message has the vault as its first key, and for each instruction asked for, in order,
  -- one with its program, its accounts and its data.
  pub build_create_transaction_instruction-CompileEach :
      (vault : K) (instructions : List (TransactionInstruction K)) (opts : CreateOpts K) (n : ℕ)
      (address : K) (world : W) (parsed : ParsedBundle K) (position : ℕ)
      → IsOrdinary w program_id
      → build_message_from_instructions w vault instructions ≡ ok opts.message
      → length opts.message.account_keys ≤ 256
      → length instructions < 2 ^ 32
      → All IsSmall instructions
      → to_big_int opts.current_transaction_index ≡ ok (pos n)
      → suc n < 2 ^ 64
      → derive_transaction_pda w opts.multisig_address (suc n) program_id ≡ ok address
      → opts.vault_index < 256
      → suc (length (encode_message w opts.message)) ≤ 2000
      → (created : Created K) × (entry : ParsedCreate K) × (build_create_transaction_instruction w
            chain
            (new_client w program_id fee)
            opts
            world
          ≡ (ok created, world))
        × (parse_outer w program_id parsed position created.instruction
            ≡ ok (record parsed { creates = parsed.creates ++ (entry ∷ []) }))
        × CompileEach entry.inner.account_keys instructions entry.inner.instructions
        × (get_elem? entry.inner.account_keys 0 ≡ some vault)
  build_create_transaction_instruction-CompileEach vault instructions opts n address world parsed
        position ordinary built le few small index bound derived byte short =
      let fits =
        build_message_from_instructions-IsEncodable w laws vault instructions opts.message built
          (omega arith) few small in
      (
        created_of w program_id opts n address,
        create_entry w position opts address,
        build_create_transaction_instruction-eq w laws chain anchor program_id fee opts n address
            world index bound derived byte fits short,
        parse_outer-create w laws chain anchor program_id fee opts n address parsed position
            ordinary fits.lengths,
        build_message_from_instructions-CompileEach w laws vault instructions opts.message built le,
        (build_message_from_instructions-vault w laws vault instructions opts.message built).0,
      )
