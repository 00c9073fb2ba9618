-- ===== src/Client/Nonce.antt =====
-- `checkNonceRace` of sdk/src/client.ts: what the answer says of the nonce account.
use solana_multisig.Prelude.{
  ok_injective, ◌≡◌, refl, sym, ap, ◌∙◌, ◌↔◌, Bool-cases, inl, inr, Option, none, some, Text, ok,
  on_ok,
}
use solana_multisig.Web3.{Bytes, Web3, IsWeb3}
use solana_multisig.Members.{derive_nonce_account}
use solana_multisig.Client.World.{World, attempt, on_return}
use solana_multisig.Client.Builders.{Client}
use solana_multisig.Client.Methods.{
  NonceAuthority, authority_of, safe, get_nonce_authority, judge_nonce, check_nonce_race,
}

-- The nonce account of a multisig as the cluster has it: its address, and the authority and the nonce
-- of its data.
abbrev pub NonceHeld :
    {K W V : Type 0} → Web3 K → World K W V → K → W → W → NonceAuthority K → Type 0
NonceHeld w chain multisig world end held =
    (derive_nonce_account w multisig ≡ ok held.nonce_account)
    × ((contents : Bytes) × (chain.get_account_info held.nonce_account world
          ≡ (ok (some contents), end))
        × (chain.nonce_from_account_data contents ≡ ok (held.authority, held.nonce_value)))

pair_parts {ℓ κ} :
    {A : Type ℓ} {B : Type κ} {a c : A} {b d : B}
    → ◌≡◌ {A = A × B} (a, b) (c, d)
    → (a ≡ c) × (b ≡ d)
pair_parts e = (ap (λ p. p.0) e, ap (λ p. p.1) e)

module _ {K W V : Type 0} (w : Web3 K) (laws : IsWeb3 w) (chain : World K W V) (client : Client K)
    (multisig : K) where
  authority_of-some :
      (account : K) (answer : Option Bytes) (held : NonceAuthority K)
      → authority_of w chain client account answer ≡ ok (some held)
      → (account ≡ held.nonce_account)
        × ((contents : Bytes) × (answer ≡ some contents)
            × (chain.nonce_from_account_data contents ≡ ok (held.authority, held.nonce_value)))
  authority_of-some account none held h = cc
  authority_of-some account (some contents) held h =
      on_ok (chain.nonce_from_account_data contents) _ h λ state e k.
        let same = some_of k in
        (
          ap (λ (a : NonceAuthority K). a.nonce_account) same,
          (contents, refl, e ∙ ap (λ (a : NonceAuthority K). ok (a.authority, a.nonce_value)) same),
        )
    where
      some_of : {a b : NonceAuthority K} → ok (some a) ≡ ok (some b) → a ≡ b
      some_of e = cc

  get_nonce_authority-NonceHeld :
      (world end : W) (held : NonceAuthority K)
      → get_nonce_authority w chain client multisig world ≡ (ok (some held), end)
      → NonceHeld w chain multisig world end held
  unfolding get_nonce_authority
  get_nonce_authority-NonceHeld world end held h =
      on_return (attempt (derive_nonce_account w multisig)) _ world h λ account e1 h1.
        on_return (chain.get_account_info account) _ world h1 λ answer e2 h2.
          let parts = pair_parts h2 in
          let found = authority_of-some account answer held parts.0 in
          (
            e1 ∙ ap (λ a. ok a) found.0,
            (
              found.1.0,
              ap (λ a. chain.get_account_info a world) (sym found.0)
                  ∙ (λ i. ((e2 ∙ ap (λ a. ok a) found.1.1) i, parts.1 i)),
              found.1.2,
            ),
          )

  get_nonce_authority-held :
      (world end : W) (held : NonceAuthority K)
      → NonceHeld w chain multisig world end held
      → get_nonce_authority w chain client multisig world ≡ (ok (some held), end)
  unfolding get_nonce_authority
  get_nonce_authority-held world end held (derived, (contents, answered, read)) =
      rw (derived, answered, read) refl

  judge_nonce-safe :
      (expected account : K) (nonce : Text) (info : Option (NonceAuthority K))
      → judge_nonce w chain client expected info ≡ safe account nonce
      → info ≡ some (record { nonce_account = account; authority = expected; nonce_value = nonce })
  unfolding judge_nonce
  judge_nonce-safe expected account nonce none h = cc
  judge_nonce-safe expected account nonce (some info) h =
      elim (Bool-cases (w.equals info.authority expected)) [
        | inl e ↦
            let same = safe_parts (rw e at h) in
            let authority = (laws.equals_iff info.authority expected).0 e in
            λ i.
              some (record {
                nonce_account = same.0 i;
                authority = authority i;
                nonce_value = same.1 i;
              })
        | inr e ↦ absurd (cc (rw e at h))
      ]
    where
      safe_parts : {a b : K} {s t : Text} → safe a s ≡ safe b t → (a ≡ b) × (s ≡ t)
      safe_parts e = (cc, cc)

  judge_nonce-eq :
      (held : NonceAuthority K)
      → judge_nonce w chain client held.authority (some held)
        ≡ safe held.nonce_account held.nonce_value
  unfolding judge_nonce
  judge_nonce-eq held = rw ((laws.equals_iff held.authority held.authority).1 refl) refl

  -- `checkNonceRace` answers that the nonce account is safe with a nonce if and only if the cluster
  -- holds, at the address derived from the multisig, an account whose data names the expected
  -- authority and that nonce.
  pub check_nonce_race-safe :
      (expected account : K) (nonce : Text) (world end : W)
      → check_nonce_race w chain client multisig expected world ≡ (ok (safe account nonce), end)
        ↔ NonceHeld w chain multisig world end
            (record { nonce_account = account; authority = expected; nonce_value = nonce })
  unfolding check_nonce_race
  check_nonce_race-safe expected account nonce world end = (
    λ h. on_return (get_nonce_authority w chain client multisig) _ world h λ info e h1.
        let parts = pair_parts h1 in
        let known = judge_nonce-safe expected account nonce info (ok_injective parts.0) in
        get_nonce_authority-NonceHeld world end _ (λ i. ((e ∙ ap (λ a. ok a) known) i, parts.1 i)),
    λ held. rw (get_nonce_authority-held world end _ held, judge_nonce-eq) refl,
  )
