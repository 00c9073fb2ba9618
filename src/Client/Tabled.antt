-- ===== src/Client/Tabled.antt =====
-- The lookup table that `createMembersAddressLookupTable` of sdk/src/client.ts returns.
use solana_multisig.Prelude.{
  some_injective, ℕ, zero, suc, ◌+◌, ◌≡◌, Bool-cases, inl, inr, true, List, [], ◌∷◌, Option, none,
  some, ok, arith, ltb, length, length-append, throw_if, ◌==◌, ==_iff,
}
use solana_multisig.Prelude.Strings.{lit}
use solana_multisig.Web3.{Web3, IsWeb3}
use solana_multisig.Members.{sort_members}
use solana_multisig.Members.Order.{length-sort_members}
use solana_multisig.Client.World.{returned, World, attempt, on_return}
use solana_multisig.Client.Builders.{Client}
use solana_multisig.Client.Tables.{
  is_full, table_addresses, await_slot, await_table, await_indexed,
  create_members_address_lookup_table,
}

-- The cluster reports, as the last answer, a table with so many addresses.
pub record IsReported {K W V : Type 0} (chain : World K W V) (table : K) (count : ℕ) (end : W)
    : Type 0 where
  pub before : W
  pub addresses : List K
  pub answer : chain.get_address_lookup_table table before ≡ (ok (some addresses), end)
  pub full : length addresses ≡ count

module _ {K W V : Type 0} (w : Web3 K) (laws : IsWeb3 w) (chain : World K W V)
    (client : Client K) where
  is_full-IsReported :
      (table : K) (count : ℕ) (before : W) (answer : Option (List K))
      → (chain.get_address_lookup_table table before).0 ≡ ok answer
      → is_full answer count ≡ true
      → IsReported chain table count (chain.get_address_lookup_table table before).1
  is_full-IsReported table count before none e h = cc
  is_full-IsReported table count before (some addresses) e h = record {
    before = before;
    addresses = addresses;
    answer = λ i. (e i, (chain.get_address_lookup_table table before).1);
    full = (==_iff (length addresses) count).0 h;
  }

  await_table-IsReported :
      (fuel deadline count : ℕ) (table found : K) (world end : W)
      → await_table w chain client fuel deadline table count world ≡ (ok (some found), end)
      → (table ≡ found) × IsReported chain found count end
  unfolding await_table
  await_table-IsReported zero deadline count table found world end h = absurd (cc (returned h).0)
  await_table-IsReported (suc fuel) deadline count table found world end h =
      on_return chain.now _ world h λ time now h1. elim (Bool-cases (ltb time deadline)) [
        | inr late ↦ absurd (cc (rw late at h1))
        | inl early ↦
            on_return (chain.get_address_lookup_table table) _ _ (rw early at h1) λ answer asked h2.
              elim (Bool-cases (is_full answer count)) [
                | inl full ↦
                    let same = returned (rw full at h2) in
                    let it = some_injective same.0 in
                    (it, rw (← it, ← same.1) (is_full-IsReported table count _ answer asked full))
                | inr partial ↦
                    on_return (chain.set_timeout 200) _ _ (rw partial at h2) λ waited done h3.
                      await_table-IsReported fuel deadline count table found _ end h3
              ]
      ]

  await_indexed-IsReported :
      (fuel count : ℕ) (table found : K) (warm : Option (Unit {0})) (world end : W)
      → await_indexed w chain client fuel table count warm world ≡ (ok (some found), end)
      → (table ≡ found) × IsReported chain found count end
  unfolding await_indexed
  await_indexed-IsReported fuel count table found none world end h = absurd (cc (returned h).0)
  await_indexed-IsReported fuel count table found (some u) world end h =
      on_return chain.now _ world h
        λ time now h1. await_table-IsReported fuel (time + 10000) count table found _ end h1

  -- A table that `createMembersAddressLookupTable` returns is the one at the address derived from the
  -- payer and the finalized slot, and the cluster's last answer lists one address more for it than
  -- there are members.
  pub create_members_address_lookup_table-IsReported :
      (fuel : ℕ) (members : List K) (payer table : K) (world end : W)
      → create_members_address_lookup_table w chain client fuel members payer world
        ≡ (ok (some table), end)
      → (slot : ℕ) × ((chain.get_slot (lit "finalized") world).0 ≡ ok slot)
        × ((chain.create_lookup_table payer payer slot).1 ≡ table)
        × IsReported chain table (suc (length members)) end
  unfolding create_members_address_lookup_table
  create_members_address_lookup_table-IsReported fuel members payer table world end h =
      on_return (attempt (throw_if (length members == 0) _)) _ world h λ filled e0 h0.
        on_return (chain.get_slot (lit "finalized")) _ _ h0 λ slot e1 h1.
          on_return (chain.send_and_confirm_transaction _ (payer ∷ []) (lit "confirmed")) _ _ h1
            λ signature e2 h2. on_return (chain.get_slot (lit "processed")) _ _ h2 λ start e3 h3.
              on_return (await_slot w chain client fuel start) _ _ h3 λ warm e4 h4.
                let found = await_indexed-IsReported fuel _ _ table warm _ end h4 in
                (slot, e1, found.0, rw count found.1)
    where
      count : suc (length members) ≡ length (table_addresses w members)
      count = omega (
        arith,
        length-append (sort_members w members) (w.system_program_id ∷ []),
        length-sort_members w laws members,
      )
