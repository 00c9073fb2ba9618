-- ===== src/Consumer/AtaCreates.antt =====
-- The token account that a bundle which the gate of sdk/src/decoder.ts passes may create.
use solana_multisig.Prelude.{
  ◌≡◌, refl, sym, ap, ◌∙◌, Bool, true, false, not, ◌&&◌, if◌then◌else◌, inl, inr, List, [], Option,
  Option-cases, both_true, not-eq-false, none, some, Text, Result-cases, ok, push_if, ◌++◌,
  push_unless-eq-nil,
}
use solana_multisig.Prelude.Strings.{text_eq, text_eq_iff, truthy, option_text_eq}
use solana_multisig.Web3.{Web3}
use solana_multisig.Classify.{Recipient}
use solana_multisig.FundFlows.{derived_ata}
use solana_multisig.FundFlows.Match.{truthy→eq, option_text_eq→eq}
use solana_multisig.Bundle.{ParsedAtaCreate}
use solana_multisig.Consumer.Outer.{ConsumerParams}
use solana_multisig.Consumer.Funds.{
  destination_of, fitting_ata, derived_messages, wrong_funder, ata_messages,
}

-- A create of the recipient's own account of the expected token, paid by the fee payer.
pub record IsRecipientAta {K : Type 0} (w : Web3 K) (params : ConsumerParams)
    (fee_payer : Option Text) (ata : ParsedAtaCreate) : Type 0 where
  pub plain : ata.data_ok ≡ true
  pub payer : Text
  pub present : fee_payer ≡ some payer
  pub funded : ata.funder ≡ some payer
  pub is_owner : ata.owner ≡ some params.expected.recipient
  pub mint : Text
  pub is_mint : ata.mint ≡ some mint
  pub expected_mint : params.expected.token_mint ≡ some mint
  pub program : Text
  pub is_program : ata.token_program ≡ some program
  pub address : Text
  pub is_derived : derived_ata w params.expected.recipient mint program ≡ ok address
  pub is_address : ata.ata ≡ some address

-- What fits the destination.
record IsFitting (params : ConsumerParams) (ata : ParsedAtaCreate) (owner mint program : Text)
    : Type 0 where
  has_owner : ata.owner ≡ some owner
  has_mint : ata.mint ≡ some mint
  has_program : ata.token_program ≡ some program
  is_recipient : owner ≡ params.expected.recipient
  is_expected : params.expected.token_mint ≡ some mint

option_text_eq-some : (t : Text) (o : Option Text) → option_text_eq (some t) o ≡ true → o ≡ some t
option_text_eq-some t none h = cc
option_text_eq-some t (some s) h = ap some (sym ((text_eq_iff t s).0 h))

some_parts :
    {a b c x y z : Text}
    → ◌≡◌ {A = Option (Text × Text × Text)} (some (a, b, c)) (some (x, y, z))
    → (a ≡ x) × (b ≡ y) × (c ≡ z)
some_parts e = (cc, cc, cc)

split :
    (m n : Text) (a b : Bool) (rest : List Text)
    → (push_if a m ++ (push_if b n ++ rest)) ≡ []
    → (a ≡ false) × (b ≡ false) × (rest ≡ [])
split m n true b rest h = cc
split m n false true rest h = cc
split m n false false rest h = (refl, refl, h)

module _ {K : Type 0} (w : Web3 K) (params : ConsumerParams) where
  fitting_ata-IsFitting :
      (destination : Option Recipient) (ata : ParsedAtaCreate) (owner mint program : Text)
      → fitting_ata w params destination ata ≡ some (owner, mint, program)
      → IsFitting params ata owner mint program
  unfolding fitting_ata
  fitting_ata-IsFitting none ata owner mint program h = cc
  fitting_ata-IsFitting (some d) ata owner mint program h = elim (Option-cases (truthy ata.owner)) [
    | inl e ↦ absurd (cc (rw (fitting_ata, e) at h))
    | inr (o, e) ↦ elim (Option-cases (truthy ata.mint)) [
      | inl e2 ↦ absurd (cc (rw (fitting_ata, e, e2) at h))
      | inr (m, e2) ↦ elim (Option-cases (truthy ata.token_program)) [
        | inl e3 ↦ absurd (cc (rw (fitting_ata, e, e2, e3) at h))
        | inr (p, e3) ↦
            fits o m p e e2 e3
              (text_eq o params.expected.recipient
                && (option_text_eq (some m) params.expected.token_mint
                    && option_text_eq d.token_program (some p)))
              refl (rw (fitting_ata, e, e2, e3) at h)
      ]
    ]
  ]
    where
      fits :
          (o m p : Text)
          → truthy ata.owner ≡ some o
          → truthy ata.mint ≡ some m
          → truthy ata.token_program ≡ some p
          → (b : Bool)
          → (text_eq o params.expected.recipient
              && (option_text_eq (some m) params.expected.token_mint
                  && option_text_eq d.token_program (some p)))
            ≡ b
          → if◌then◌else◌ {A = Option (Text × Text × Text)} b (some (o, m, p)) none
            ≡ some (owner, mint, program)
          → IsFitting params ata owner mint program
      fits o m p e e2 e3 false same k = cc
      fits o m p e e2 e3 true same k =
          let all = both_true _ _ same in
          let rest = both_true _ _ all.1 in
          let parts = some_parts k in
          rw (← parts.0, ← parts.1, ← parts.2)
            (record {
              has_owner = truthy→eq ata.owner o e;
              has_mint = truthy→eq ata.mint m e2;
              has_program = truthy→eq ata.token_program p e3;
              is_recipient = (text_eq_iff o params.expected.recipient).0 all.0;
              is_expected = option_text_eq-some m params.expected.token_mint rest.0;
            })

  derived_messages-address :
      (ata : Option Text) (owner mint program : Text)
      → derived_messages w ata (some (owner, mint, program)) ≡ []
      → (address : Text) × (derived_ata w owner mint program ≡ ok address) × (ata ≡ some address)
  unfolding derived_messages
  derived_messages-address ata owner mint program h =
      elim (Result-cases (derived_ata w owner mint program)) [
        | inl (address, e) ↦ (
          address,
          e,
          option_text_eq-some address ata (push_unless-eq-nil _ _ (rw (derived_messages, e) at h)),
        )
        | inr (message, e) ↦ absurd (cc (rw (derived_messages, e) at h))
      ]

  funded_by :
      (fee_payer funder : Option Text)
      → wrong_funder w fee_payer funder ≡ false
      → (payer : Text) × (fee_payer ≡ some payer) × (funder ≡ some payer)
  funded_by fee_payer funder h = elim (Option-cases (truthy fee_payer)) [
    | inl e ↦ absurd (cc (rw (wrong_funder, e) at h))
    | inr (payer, e) ↦ (
      payer,
      truthy→eq fee_payer payer e,
      option_text_eq→eq funder payer
          (not-eq-false (option_text_eq funder (some payer)) (rw (wrong_funder, e) at h)),
    )
  ]

  pub ata_messages-IsRecipientAta :
      (fee_payer : Option Text) (recipients : List Recipient) (ata : ParsedAtaCreate)
      → ata_messages w params fee_payer recipients ata ≡ []
      → IsRecipientAta w params fee_payer ata
  unfolding ata_messages
  ata_messages-IsRecipientAta fee_payer recipients ata h =
      let quiet =
        split _ _ (not ata.data_ok) (wrong_funder w fee_payer ata.funder)
          (derived_messages w ata.ata (fitting_ata w params (destination_of w recipients ata) ata))
          h in
      let paid = funded_by fee_payer ata.funder quiet.1 in
      elim (Option-cases (fitting_ata w params (destination_of w recipients ata) ata)) [
        | inl e ↦ absurd (cc (rw (e, derived_messages) at quiet.2))
        | inr ((owner, mint, program), e) ↦
            let fits =
              fitting_ata-IsFitting (destination_of w recipients ata) ata owner mint program e in
            let found = derived_messages-address ata.ata owner mint program (rw e at quiet.2) in
            record {
              plain = not-eq-false ata.data_ok quiet.0;
              payer = paid.0;
              present = paid.1;
              funded = paid.2;
              is_owner = fits.has_owner ∙ ap (λ t. some t) fits.is_recipient;
              mint = mint;
              is_mint = fits.has_mint;
              expected_mint = fits.is_expected;
              program = program;
              is_program = fits.has_program;
              address = found.0;
              is_derived = ap (λ o. derived_ata w o mint program) (sym fits.is_recipient) ∙ found.1;
              is_address = found.2;
            }
      ]
