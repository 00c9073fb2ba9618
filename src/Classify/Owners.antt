-- ===== src/Classify/Owners.antt =====
-- The recipients that `resolveAtaOwner` of sdk/src/decoder.ts returns.
use solana_multisig.Prelude.{
  ok_injective, ◌≡◌, ◌≢◌, ◌⊎◌, sym, true, false, Bool-cases, inl, inr, List, [], ◌∷◌, map,
  Option-cases, none, some, Text, ok, on_ok, subst,
}
use solana_multisig.Prelude.Strings.{text_eq, text_eq_iff, truthy, includes}
use solana_multisig.Web3.{Web3}
use solana_multisig.Classify.{
  Recipient, is_spl, resolve_recipient, resolve_ata_owner, derive_associated_token_address,
}

-- A recipient before and after, for an owner and the two token accounts derived from it: one that is
-- no token destination stays as it is; a destination that is one of the accounts gets the owner as its
-- address and is verified; another gets its own account as its address and is not.
pub data Resolved (owner token token_2022 : Text) (r : Recipient) : Recipient → Type 0 where
  no_destination : truthy r.ata ≡ none → Resolved owner token token_2022 r r
  no_token : is_spl r.asset ≡ false → Resolved owner token token_2022 r r
  owned :
      (ata : Text)
      → truthy r.ata ≡ some ata
      → is_spl r.asset ≡ true
      → (ata ≡ token) ⊎ (ata ≡ token_2022)
      → Resolved owner token token_2022 r (record r { address = owner; ata_verified = some true })
  foreign_account :
      (ata : Text)
      → truthy r.ata ≡ some ata
      → is_spl r.asset ≡ true
      → ata ≢ token
      → ata ≢ token_2022
      → Resolved owner token token_2022 r (record r { address = ata; ata_verified = some false })

abbrev pub EachResolved : Text → Text → Text → List Recipient → List Recipient → Type 0
EachResolved owner token token_2022 [] [] = Unit
EachResolved owner token token_2022 [] (s ∷ ss) = ⊥
EachResolved owner token token_2022 (r ∷ rs) [] = ⊥
EachResolved owner token token_2022 (r ∷ rs) (s ∷ ss) =
    Resolved owner token token_2022 r s × EachResolved owner token token_2022 rs ss

in_pair : (a b t : Text) → includes (a ∷ b ∷ []) t ≡ true → (t ≡ a) ⊎ (t ≡ b)
unfolding includes
in_pair a b t h = elim (Bool-cases (text_eq a t)) [
  | inl e ↦ inl (sym ((text_eq_iff a t).0 e))
  | inr e ↦ elim (Bool-cases (text_eq b t)) [
    | inl e' ↦ inr (sym ((text_eq_iff b t).0 e'))
    | inr e' ↦ absurd (cc (rw (includes, e, e') at h))
  ]
]

not_in_pair : (a b t : Text) → includes (a ∷ b ∷ []) t ≡ false → (t ≢ a) × (t ≢ b)
unfolding includes
not_in_pair a b t h = elim (Bool-cases (text_eq a t)) [
  | inl e ↦ absurd (cc (rw (includes, e) at h))
  | inr e ↦ elim (Bool-cases (text_eq b t)) [
    | inl e' ↦ absurd (cc (rw (includes, e, e') at h))
    | inr e' ↦ (λ same. differ a t e same, λ same. differ b t e' same)
  ]
]
  where
    differ : (s t : Text) → text_eq s t ≡ false → t ≡ s → ⊥
    differ s t e same = let yes = (text_eq_iff s t).1 (sym same) in cc

module _ {K : Type 0} (w : Web3 K) where
  resolve_recipient-Resolved :
      (owner a b : Text) (r : Recipient)
      → Resolved owner a b r (resolve_recipient w owner (a ∷ b ∷ []) r)
  unfolding resolve_recipient
  resolve_recipient-Resolved owner a b r = elim (Option-cases (truthy r.ata)) [
    | inl e ↦ rw (resolve_recipient, e) (no_destination e)
    | inr (ata, e) ↦ elim (Bool-cases (is_spl r.asset)) [
      | inr native ↦ rw (resolve_recipient, e, native) (no_token native)
      | inl spl ↦ elim (Bool-cases (includes (a ∷ b ∷ []) ata)) [
        | inl own ↦ rw (resolve_recipient, e, spl, own) (owned ata e spl (in_pair a b ata own))
        | inr other ↦
            let apart = not_in_pair a b ata other in
            rw (resolve_recipient, e, spl, other) (foreign_account ata e spl apart.0 apart.1)
      ]
    ]
  ]

  each-EachResolved :
      (owner a b : Text) (rs : List Recipient)
      → EachResolved owner a b rs (map (resolve_recipient w owner (a ∷ b ∷ [])) rs)
  each-EachResolved owner a b [] = tt
  each-EachResolved owner a b (r ∷ rs) =
      (resolve_recipient-Resolved owner a b r, each-EachResolved owner a b rs)

  -- The keys and token accounts that a resolution goes by.
  pub record IsResolution (recipients : List Recipient) (owner mint : Text) (out : List Recipient)
      : Type 0 where
    pub owner_key : K
    pub is_owner : w.of_base58 owner ≡ ok owner_key
    pub mint_key : K
    pub is_mint : w.of_base58 mint ≡ ok mint_key
    pub token : K
    pub is_token :
        derive_associated_token_address w owner_key mint_key w.token_program_id ≡ ok token
    pub token_2022 : K
    pub is_token_2022 :
        derive_associated_token_address w owner_key mint_key w.token_2022_program_id ≡ ok token_2022
    pub each :
        EachResolved
          (w.to_base58 owner_key)
          (w.to_base58 token)
          (w.to_base58 token_2022)
          recipients
          out

  -- What `resolveAtaOwner` returns are the recipients in their order. A token destination is verified,
  -- and shown with the owner as its address, exactly if it is the associated token account of the
  -- owner and the mint under one of the two token programs; another is shown with its own account, not
  -- verified; everything else is as before.
  pub resolve_ata_owner-IsResolution :
      (recipients : List Recipient) (owner mint : Text) (out : List Recipient)
      → resolve_ata_owner w recipients owner mint ≡ ok out
      → IsResolution recipients owner mint out
  unfolding resolve_ata_owner
  resolve_ata_owner-IsResolution recipients owner mint out h =
      on_ok (w.of_base58 owner) _ h λ o e0 h0. on_ok (w.of_base58 mint) _ h0 λ m e1 h1.
        on_ok (derive_associated_token_address w o m w.token_program_id) _ h1 λ a e2 h2.
          on_ok (derive_associated_token_address w o m w.token_2022_program_id) _ h2 λ b e3 h3.
            record {
              owner_key = o;
              is_owner = e0;
              mint_key = m;
              is_mint = e1;
              token = a;
              is_token = e2;
              token_2022 = b;
              is_token_2022 = e3;
              each =
                  subst
                    (λ x. EachResolved (w.to_base58 o) (w.to_base58 a) (w.to_base58 b) recipients x)
                    (ok_injective h3)
                    (each-EachResolved (w.to_base58 o) (w.to_base58 a) (w.to_base58 b) recipients);
            }
