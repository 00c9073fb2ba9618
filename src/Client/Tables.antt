-- ===== src/Client/Tables.antt =====
-- `createMembersAddressLookupTable` of sdk/src/client.ts. Its two loops run on fuel; `none` says that
-- the fuel ran out while the loop was still waiting.
use solana_multisig.Prelude.{
  ℕ, zero, suc, ◌+◌, List, [], ◌∷◌, ◌++◌, Option, none, some, Bool, true, false, err, throw_if, leb,
  ltb, ◌==◌, length,
}
use solana_multisig.Prelude.Strings.{lit, decimal}
use solana_multisig.Web3.{Web3}
use solana_multisig.Members.{sort_members}
use solana_multisig.Client.World.{World, Action, return, attempt, ◌>>=◌, ◌>>◌}
use solana_multisig.Client.Builders.{Client, priority_instructions}

-- `acc.value && acc.value.state.addresses.length === altAddresses.length`.
abbrev pub is_full : {K : Type 0} → Option (List K) → ℕ → Bool
is_full none count = false
is_full (some addresses) count = length addresses == count

-- `altAddresses`.
abbrev pub table_addresses : {K : Type 0} → Web3 K → List K → List K
table_addresses w members = sort_members w members ++ (w.system_program_id ∷ [])

module _ {K W V : Type 0} (w : Web3 K) (chain : World K W V) (client : Client K) where
  -- `while ((await getSlot("processed")) <= startSlot + 1) await setTimeout(200)`.
  unfoldable pub await_slot : ℕ → ℕ → Action W (Option (Unit {0}))
  await_slot zero start_slot = return none
  await_slot (suc fuel) start_slot = chain.get_slot (lit "processed") >>= λ slot.
      elim (leb slot (start_slot + 1)) [
        | true ↦ chain.set_timeout 200 >> await_slot fuel start_slot
        | false ↦ return (some tt)
      ]

  -- The loop until the deadline, and the error behind it.
  unfoldable pub await_table : ℕ → ℕ → K → ℕ → Action W (Option K)
  await_table zero deadline table count = return none
  await_table (suc fuel) deadline table count = chain.now >>= λ time. elim (ltb time deadline) [
    | false ↦ attempt (
        err (
          lit "ALT "
          ++ (w.to_base58 table
              ++ (lit " did not finalize " ++ (decimal count ++ lit " addresses within 10s")))))
    | true ↦ chain.get_address_lookup_table table >>= λ answer. elim (is_full answer count) [
      | true ↦ return (some table)
      | false ↦ chain.set_timeout 200 >> await_table fuel deadline table count
    ]
  ]

  -- What follows once the first loop has ended.
  unfoldable pub await_indexed : ℕ → K → ℕ → Option (Unit {0}) → Action W (Option K)
  unfolding await_table
  await_indexed fuel table count none = return none
  await_indexed fuel table count (some warm) =
      chain.now >>= λ time. await_table fuel (time + 10000) table count

  unfoldable pub create_members_address_lookup_table : ℕ → List K → K → Action W (Option K)
  unfolding await_slot await_indexed
  create_members_address_lookup_table fuel members payer = do
    attempt
        (throw_if (length members == 0) (lit "createMembersAddressLookupTable: members is empty"))
    let addresses = table_addresses w members
    recent_slot ← chain.get_slot (lit "finalized")
    let created = chain.create_lookup_table payer payer recent_slot
    let extend_ix = chain.extend_lookup_table payer payer created.1 addresses
    chain.send_and_confirm_transaction
        (priority_instructions w chain client ++ (created.0 ∷ extend_ix ∷ [])) (payer ∷ [])
        (lit "confirmed")
    start_slot ← chain.get_slot (lit "processed")
    warm ← await_slot fuel start_slot
    await_indexed fuel created.1 (length addresses) warm
