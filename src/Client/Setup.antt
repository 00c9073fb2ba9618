-- ===== src/Client/Setup.antt =====
-- What `setupMultisigAndNonce` of sdk/src/client.ts returns.
use solana_multisig.Prelude.{
  ok_injective, ℕ, ◌≡◌, refl, sym, ap, ◌∙◌, List, [], ◌∷◌, Option, none, some, Text, Result, ok,
}
use solana_multisig.Web3.{Web3, IsWeb3}
use solana_multisig.Members.{
  sort_members, derive_multisig_address, derive_nonce_account, validate_config,
}
use solana_multisig.Members.Order.{derive_multisig_address-sort_members}
use solana_multisig.Client.World.{returned, World, attempt, on_return}
use solana_multisig.Client.Builders.{
  Client, InitializeOpts, Initialized, Provisioned, initialize_call,
  build_initialize_multisig_instruction, build_provision_nonce_instruction,
}
use solana_multisig.Client.Methods.{
  SetupResult, or_throw, derive_address, send_v0, setup_multisig_and_nonce,
}

pair {ℓ} :
    {A : Type ℓ} {W : Type 0} {after : Result A × W} {a : A}
    → after.0 ≡ ok a
    → after ≡ (ok a, after.1)
pair {after} e = λ i. (e i, after.1)

module _ {K W V : Type 0} (w : Web3 K) (laws : IsWeb3 w) (chain : World K W V)
    (client : Client K) where
  build_initialize_multisig_instruction-derived :
      (opts : InitializeOpts K) (world end : W) (init : Initialized K)
      → build_initialize_multisig_instruction w chain client opts world ≡ (ok init, end)
      → derive_multisig_address w (sort_members w opts.members) opts.threshold client.program_id
        ≡ ok (init.multisig_address, init.bump)
  unfolding build_initialize_multisig_instruction
  build_initialize_multisig_instruction-derived opts world end init h =
      on_return (attempt (validate_config w opts.members opts.threshold)) _ world h λ u good h1.
        on_return
          (attempt (
            derive_multisig_address w (sort_members w opts.members) opts.threshold
              client.program_id))
          _ world h1
          λ found derived h2.
            on_return
              (chain.instruction (
                initialize_call w chain client (sort_members w opts.members) opts.threshold found.0
                  opts.payer))
              _ world h2
              λ instruction built h3.
                derived
                ∙ ap (λ (r : Initialized K). ok (r.multisig_address, r.bump)) (returned h3).0

  build_provision_nonce_instruction-derived :
      (multisig payer : K) (world end : W) (provisioned : Provisioned K)
      → build_provision_nonce_instruction w chain client multisig payer world
        ≡ (ok provisioned, end)
      → derive_nonce_account w multisig ≡ ok provisioned.nonce_account
  unfolding build_provision_nonce_instruction
  build_provision_nonce_instruction-derived multisig payer world end provisioned h =
      on_return (attempt (derive_nonce_account w multisig)) _ world h λ account derived h1.
        on_return (chain.instruction _) _ world h1 λ instruction built h2.
          derived ∙ ap (λ (r : Provisioned K). ok r.nonce_account) (returned h2).0

  derive_address_of :
      (members : List K) (threshold : ℕ) (found : K × ℕ) (u : Unit {0})
      → validate_config w members threshold ≡ ok u
      → derive_multisig_address w
          (sort_members w (sort_members w members))
          threshold
          client.program_id
        ≡ ok found
      → derive_address w chain client members threshold ≡ ok found.0
  unfolding derive_address
  derive_address_of members threshold found u good derived =
      let once = derive_multisig_address-sort_members w laws members threshold client.program_id in
      let again =
        derive_multisig_address-sort_members w laws (sort_members w members) threshold
          client.program_id in
      rw (good, sym once ∙ sym again ∙ derived) refl

  last_answer :
      (account : K) (state : Option Text) (nonce message : Text) {before end : W}
      → (chain.get_nonce_and_context account before).0 ≡ ok state
      → (chain.get_nonce_and_context account before).1 ≡ end
      → or_throw message state ≡ ok nonce
      → (before : W) × (chain.get_nonce_and_context account before ≡ (ok (some nonce), end))
  last_answer account none nonce message read ended given = cc
  last_answer account (some nonce') nonce message {before} read ended given =
      (before, λ i. ((read ∙ ap (λ t. ok (some t)) (ok_injective given)) i, ended i))

  -- When `setupMultisigAndNonce` returns, its multisig is the one that `deriveAddress` gives for the
  -- members in the order of the caller, its nonce account is the one derived from that multisig, and
  -- its nonce is what the cluster answered last, when asked for that account.
  pub setup_multisig_and_nonce-derived :
      (members : List K) (threshold : ℕ) (payer alt : K) (world end : W) (result : SetupResult K)
      → setup_multisig_and_nonce w chain client members threshold payer alt world ≡ (ok result, end)
      → (derive_address w chain client members threshold ≡ ok result.multisig_address)
        × (derive_nonce_account w result.multisig_address ≡ ok result.nonce_account)
        × ((before : W) × (chain.get_nonce_and_context result.nonce_account before
              ≡ (ok (some result.nonce_value), end)))
  unfolding setup_multisig_and_nonce derive_address
  setup_multisig_and_nonce-derived members threshold payer alt world end result h =
      let sorted = sort_members w members in
      on_return (attempt (validate_config w members threshold)) _ world h λ u good h1.
        on_return
          (build_initialize_multisig_instruction w chain client
            (record { members = sorted; threshold = threshold; payer = payer }))
          _ world h1
          λ init built h2.
            on_return (build_provision_nonce_instruction w chain client init.multisig_address payer)
              _ _ h2
              λ provisioned planned h3.
                on_return (chain.get_address_lookup_table alt) _ _ h3 λ answer asked h4.
                  on_return (attempt (or_throw _ answer)) _ _ h4 λ table listed h5.
                    on_return
                      (send_v0 w chain client payer table
                        (init.instruction ∷ provisioned.instruction ∷ []))
                      _ _ h5
                      λ signature sent h6.
                        on_return (chain.get_nonce_and_context provisioned.nonce_account) _ _ h6
                          λ state read h7.
                            on_return (attempt (or_throw _ state)) _ _ h7 λ nonce given h8.
                              let same = returned h8 in
                              let derived =
                                build_initialize_multisig_instruction-derived _ _ _ init
                                  (pair built) in
                              rw (← same.0) (
                                derive_address_of members threshold _ u good derived,
                                build_provision_nonce_instruction-derived _ payer _ _ provisioned
                                    (pair planned),
                                last_answer provisioned.nonce_account state nonce _ read same.1
                                    given,
                              )
