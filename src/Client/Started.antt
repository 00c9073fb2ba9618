-- ===== src/Client/Started.antt =====
-- `initialize` of sdk/src/client.ts: the address that it returns, and the order of the members.
use solana_multisig.Prelude.{ℕ, ◌≡◌, refl, sym, ap, ◌∙◌, List, [], ◌∷◌, ◌++◌, ok}
use mathlib.Core.List.{Permᴰ}
use solana_multisig.Web3.{Web3, IsWeb3}
use solana_multisig.Members.{sort_members, derive_multisig_address, validate_config}
use solana_multisig.Members.Order.{sort_members-perm_eq, derive_multisig_address-sort_members}
use solana_multisig.Client.World.{returned, World, attempt, on_return}
use solana_multisig.Client.Builders.{Client, initialize_call, priority_instructions}
use solana_multisig.Client.Methods.{InitializeResult, or_throw, derive_address, send_v0, initialize}

module _ {K W V : Type 0} (w : Web3 K) (laws : IsWeb3 w) (chain : World K W V)
    (client : Client K) where
  -- Two callers with the same members in another order initialize alike: `initialize` has the same
  -- effects and the same result, when both configurations are valid.
  pub initialize-perm :
      {xs ys : List K} (threshold : ℕ) (payer alt : K)
      → Permᴰ xs ys
      → validate_config w xs threshold ≡ ok tt
      → validate_config w ys threshold ≡ ok tt
      → (world : W)
      → initialize w chain client xs threshold payer alt world
        ≡ initialize w chain client ys threshold payer alt world
  unfolding initialize
  initialize-perm threshold payer alt p good also world =
      rw (good, also, sort_members-perm_eq w laws p) refl

  derive_address-sorted :
      (members : List K) (threshold : ℕ) (found : K × ℕ) (u : Unit {0})
      → validate_config w members threshold ≡ ok u
      → derive_multisig_address w (sort_members w members) threshold client.program_id ≡ ok found
      → derive_address w chain client members threshold ≡ ok found.0
  unfolding derive_address
  derive_address-sorted members threshold found u good derived =
      rw
        (
          good,
          sym (derive_multisig_address-sort_members w laws members threshold client.program_id),
          derived,
        )
        refl

  -- When `initialize` returns, its address is the one that `deriveAddress` gives for the members in
  -- the order of the caller, and its bump is the bump of that address.
  pub initialize-derive_address :
      (members : List K) (threshold : ℕ) (payer alt : K) (world end : W)
      (result : InitializeResult K)
      → initialize w chain client members threshold payer alt world ≡ (ok result, end)
      → (derive_address w chain client members threshold ≡ ok result.multisig_address)
        × (derive_multisig_address w members threshold client.program_id
            ≡ ok (result.multisig_address, result.bump))
  unfolding initialize
  initialize-derive_address members threshold payer alt world end result h =
      on_return (attempt (validate_config w members threshold)) _ world h λ u good h1.
        on_return
          (attempt (derive_multisig_address w (sort_members w members) threshold client.program_id))
          _ world h1
          λ found derived h2.
            on_return
              (chain.instruction
                (initialize_call w chain client (sort_members w members) threshold found.0 payer))
              _ world h2
              λ instruction built h3.
                on_return (chain.get_address_lookup_table alt) _ _ h3 λ answer asked h4.
                  on_return (attempt (or_throw _ answer)) _ _ h4 λ table listed h5.
                    on_return
                      (send_v0 w chain client payer table
                        (priority_instructions w chain client ++ (instruction ∷ [])))
                      _ _ h5
                      λ signature sent h6.
                        let same = (returned h6).0 in
                        (
                          derive_address-sorted members threshold found u good derived
                              ∙ ap (λ (r : InitializeResult K). ok r.multisig_address) same,
                          sym (
                                derive_multisig_address-sort_members w laws members threshold
                                  client.program_id)
                              ∙ derived
                              ∙ ap (λ (r : InitializeResult K). ok (r.multisig_address, r.bump))
                                  same,
                        )
