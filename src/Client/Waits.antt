-- ===== src/Client/Waits.antt =====
-- The loops of `createMembersAddressLookupTable` (sdk/src/client.ts) end, on a clock that the waits
-- move and a cluster that goes on producing slots.
use solana_multisig.Prelude.{
  ok_injective, ℕ, zero, suc, ◌+◌, ◌*◌, ◌≤◌, ◌<◌, ◌≡◌, ◌≢◌, sym, ◌∙◌, Bool-cases, inl, inr, List,
  [], ◌∷◌, Option, Option-cases, none, some, Result, Result-cases, ok, arith, leb, ltb, length,
  throw_if, ◌==◌,
}
use solana_multisig.Prelude.Strings.{lit}
use solana_multisig.Web3.{Web3}
use solana_multisig.Client.World.{World, Action, attempt, ◌>>=◌}
use solana_multisig.Client.Builders.{Client}
use solana_multisig.Client.Tables.{
  is_full, await_slot, await_table, await_indexed, create_members_address_lookup_table,
}

-- A clock in milliseconds: `Date.now()` reads it, a timeout moves it on by its length, and no call
-- that the loops make moves it back. The processed slot is a function of it, and a slot follows
-- another within the period.
pub record IsClocked {K W V : Type 0} (chain : World K W V) (clock : W → ℕ) (slot_at : ℕ → ℕ)
    (period : ℕ) : Type 0 where
  pub now_reads : (world : W) → (chain.now world).0 ≡ ok (clock world)
  pub now_on : (world : W) → clock world ≤ clock (chain.now world).1
  pub slot_reads :
      (world : W) (slot : ℕ)
      → (chain.get_slot (lit "processed") world).0 ≡ ok slot
      → slot ≡ slot_at (clock world)
  pub slot_on : (world : W) → clock world ≤ clock (chain.get_slot (lit "processed") world).1
  pub table_on :
      (table : K) (world : W) → clock world ≤ clock (chain.get_address_lookup_table table world).1
  pub timeout_on : (ms : ℕ) (world : W) → clock world + ms ≤ clock (chain.set_timeout ms world).1
  pub in_order : (s t : ℕ) → s ≤ t → slot_at s ≤ slot_at t
  pub produces : (t : ℕ) → suc (slot_at t) ≤ slot_at (t + period)

-- A call that does not run out of fuel.
abbrev pub Ends {ℓ} : {A : Type ℓ} {W : Type 0} → Result (Option A) × W → Type ℓ
Ends after = after.0 ≢ ok none

>>=-Ends {ℓ κ} :
    {W : Type 0} {A : Type ℓ} {B : Type κ} (call : Action W A) (next : A → Action W (Option B))
    (world : W)
    → ((a : A) → (call world).0 ≡ ok a → Ends (next a (call world).1))
    → Ends ((call >>= next) world)
>>=-Ends call next world h = elim (Result-cases (call world).0) [
  | inl (a, e) ↦ rw e (h a e)
  | inr (m, e) ↦ rw e (λ bad. cc)
]

module _ {K W V : Type 0} (w : Web3 K) (chain : World K W V) (client : Client K) (clock : W → ℕ)
    (slot_at : ℕ → ℕ) (period : ℕ) (clocked : IsClocked chain clock slot_at period) where
  now_is : (world : W) (time : ℕ) → (chain.now world).0 ≡ ok time → time ≡ clock world
  now_is world time now = ok_injective (sym now ∙ clocked.now_reads world)

  -- One round: the loop ends, or goes on in a world at least 200 milliseconds later.
  await_table-round :
      (fuel deadline count : ℕ) (table : K) (world : W)
      → (clock world < deadline
          → (later : W) → clock world + 200 ≤ clock later
          → Ends (await_table w chain client fuel deadline table count later))
      → Ends (await_table w chain client (suc fuel) deadline table count world)
  unfolding await_table
  await_table-round fuel deadline count table world again = >>=-Ends chain.now _ world λ time now.
      elim (Bool-cases (ltb time deadline)) [
        | inr late ↦ rw late (λ bad. cc)
        | inl early ↦ rw early (
            >>=-Ends (chain.get_address_lookup_table table) _ _ λ answer asked.
              elim (Bool-cases (is_full answer count)) [
                | inl full ↦ rw full (λ bad. cc)
                | inr partial ↦ rw partial (
                    >>=-Ends (chain.set_timeout 200) _ _ λ waited done.
                      let same = now_is world time now in
                      again (ground arith) _ (
                        omega (
                          arith,
                          clocked.now_on world,
                          clocked.table_on table (chain.now world).1,
                          clocked.timeout_on 200
                              (chain.get_address_lookup_table table (chain.now world).1).1,
                        )))
              ])
      ]

  await_table-Ends :
      (fuel deadline count : ℕ) (table : K) (world : W)
      → deadline ≤ clock world + 200 * fuel
      → Ends (await_table w chain client (suc fuel) deadline table count world)
  await_table-Ends zero deadline count table world h =
      await_table-round zero deadline count table world λ early. absurd (omega arith)
  await_table-Ends (suc fuel) deadline count table world h =
      await_table-round (suc fuel) deadline count table world
        λ early later on. await_table-Ends fuel deadline count table later (omega arith)

  await_slot-round :
      (fuel start : ℕ) (world : W)
      → (slot_at (clock world) ≤ start + 1
          → (later : W) → clock world + 200 ≤ clock later
          → Ends (await_slot w chain client fuel start later))
      → Ends (await_slot w chain client (suc fuel) start world)
  unfolding await_slot
  await_slot-round fuel start world again =
      >>=-Ends (chain.get_slot (lit "processed")) _ world λ slot read.
        elim (Bool-cases (leb slot (start + 1))) [
          | inr past ↦ rw past (λ bad. cc)
          | inl waiting ↦ rw waiting (
              >>=-Ends (chain.set_timeout 200) _ _ λ waited done.
                let same = clocked.slot_reads world slot read in
                again (ground arith) _ (
                  omega (
                    arith,
                    clocked.slot_on world,
                    clocked.timeout_on 200 (chain.get_slot (lit "processed") world).1,
                  )))
        ]

  -- Two periods after the start the slot is past the one behind the start.
  two_periods :
      (began time : ℕ) → began + (period + period) ≤ time → slot_at began + 2 ≤ slot_at time
  two_periods began time h = omega (
    arith,
    clocked.produces began,
    clocked.produces (began + period),
    clocked.in_order (began + period + period) time (omega arith),
  )

  await_slot-Ends :
      (fuel began : ℕ) (world : W)
      → began + (period + period) ≤ clock world + 200 * fuel
      → Ends (await_slot w chain client (suc fuel) (slot_at began) world)
  await_slot-Ends zero began world h =
      await_slot-round zero (slot_at began) world
        λ waiting. absurd (omega (arith, two_periods began (clock world) (omega arith)))
  await_slot-Ends (suc fuel) began world h =
      await_slot-round (suc fuel) (slot_at began) world
        λ waiting later on. await_slot-Ends fuel began later (omega arith)

  await_indexed-Ends :
      (fuel : ℕ) (table : K) (count : ℕ) (warm : Unit {0}) (world : W)
      → 50 ≤ fuel
      → Ends (await_indexed w chain client (suc fuel) table count (some warm) world)
  unfolding await_indexed
  await_indexed-Ends fuel table count warm world h = >>=-Ends chain.now _ world λ time now.
      let same = now_is world time now in
      await_table-Ends fuel (time + 10000) count table _ (omega (arith, clocked.now_on world))

  -- Both loops, behind the question for the first slot.
  both-Ends :
      (fuel start : ℕ) (table : K) (count : ℕ) (before : W)
      → period ≤ 5000
      → 50 ≤ fuel
      → (chain.get_slot (lit "processed") before).0 ≡ ok start
      → Ends (
          (await_slot w chain client (suc fuel) start
              >>= await_indexed w chain client (suc fuel) table count)
            (chain.get_slot (lit "processed") before).1)
  both-Ends fuel start table count before h enough read =
      rw (clocked.slot_reads before start read) (
        >>=-Ends (await_slot w chain client (suc fuel) (slot_at (clock before))) _ _ λ warm waited.
          elim (Option-cases warm) [
            | inl out ↦ absurd (
                await_slot-Ends fuel (clock before) _ (omega (arith, clocked.slot_on before))
                  (rw out at waited))
            | inr (u, e) ↦ rw e (await_indexed-Ends fuel table count u _ enough)
          ])

  -- `createMembersAddressLookupTable` ends: on a cluster that produces a slot at least every five
  -- seconds, 51 rounds of each loop are enough for it to return a table or throw.
  pub create_members_address_lookup_table-Ends :
      (fuel : ℕ) (members : List K) (payer : K) (world : W)
      → period ≤ 5000
      → 50 ≤ fuel
      → Ends (create_members_address_lookup_table w chain client (suc fuel) members payer world)
  unfolding create_members_address_lookup_table
  create_members_address_lookup_table-Ends fuel members payer world h enough =
      >>=-Ends (attempt (throw_if (length members == 0) _)) _ world λ filled e0.
        >>=-Ends (chain.get_slot (lit "finalized")) _ _ λ recent e1.
          >>=-Ends (chain.send_and_confirm_transaction _ (payer ∷ []) (lit "confirmed")) _ _
            λ signature e2.
              >>=-Ends (chain.get_slot (lit "processed")) _ _
                λ start e3. both-Ends fuel start _ _ _ h enough e3
