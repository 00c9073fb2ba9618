-- ===== src/Consumer/Allowed.antt =====
-- What the fee payer and the outer instructions of a bundle without mismatches are.
use solana_multisig.Prelude.{
  ℕ, ◌≤◌, ◌≡◌, refl, false, List, [], ◌∷◌, Option, some, Text, All, length, inl, inr, Option-cases,
  append-eq-nil, push_if-eq-nil, push_unless-eq-nil, for_each-eq-nil, for_each, ltb, ==_iff, arith,
}
use solana_multisig.Prelude.Strings.{truthy, includes}
use solana_multisig.FundFlows.Match.{truthy→eq}
use solana_multisig.Bundle.{ParsedBundle, Foreign}
use solana_multisig.Compare.Accepts.{text_eq_of_push}
use solana_multisig.Consumer.Outer.{
  fee_payer_messages, outer_messages, foreign_message, nonce_message, named_messages,
}

-- The fee payer of an accepted bundle.
pub record IsPaymaster (fee_payer : Option Text) (members : List Text) (expected : Option Text)
    : Type 0 where
  pub payer : Text
  pub present : fee_payer ≡ some payer
  pub not_member : includes members payer ≡ false
  pub bound : (p : Text) → truthy expected ≡ some p → payer ≡ p

pub fee_payer_messages-IsPaymaster :
    (fee_payer : Option Text) (members : List Text) (expected : Option Text)
    → fee_payer_messages fee_payer members expected ≡ []
    → IsPaymaster fee_payer members expected
unfolding fee_payer_messages
fee_payer_messages-IsPaymaster fee_payer members expected h =
    elim (Option-cases (truthy fee_payer)) [
      | inl missing ↦ absurd (cc (rw (missing, fee_payer_messages) at h))
      | inr (payer, e) ↦
          let both = append-eq-nil _ _ (rw (e, fee_payer_messages) at h) in
          record {
            payer = payer;
            present = truthy→eq fee_payer payer e;
            not_member = push_if-eq-nil _ _ both.0;
            bound = λ p q. text_eq_of_push payer p _ (rw q at both.1);
          }
    ]

-- The two accounts that an execute or a close names are the multisig and the created proposal.
abbrev pub NamesBoth : Text → Text → List Text → Type 0
NamesBoth multisig target [] = ⊥
NamesBoth multisig target (m ∷ []) = ⊥
NamesBoth multisig target (m ∷ t ∷ rest) = (m ≡ multisig) × (t ≡ target)

pub named_messages-NamesBoth :
    (label multisig target : Text) (keys : List Text)
    → named_messages label multisig target keys ≡ []
    → NamesBoth multisig target keys
unfolding named_messages
named_messages-NamesBoth label multisig target [] h = cc
named_messages-NamesBoth label multisig target (m ∷ []) h = cc
named_messages-NamesBoth label multisig target (m ∷ t ∷ rest) h =
    let both = append-eq-nil _ _ h in
    (text_eq_of_push m multisig _ both.0, text_eq_of_push t target _ both.1)

foreign_none : (fs : List Foreign) → for_each foreign_message fs ≡ [] → fs ≡ []
unfolding foreign_message
foreign_none [] h = refl
foreign_none (f ∷ fs) h = cc

pub at_most_one : (n : ℕ) → ltb 1 n ≡ false → n ≤ 1
at_most_one n h = ground arith

-- The outer instructions besides those of the multisig program.
pub record IsAllowed {K : Type 0} (bundle : ParsedBundle K) : Type 0 where
  pub no_foreign : bundle.foreign ≡ []
  pub one_nonce : length bundle.nonce_advance_indexes ≤ 1
  pub nonce_first : All (λ i. i ≡ 0) bundle.nonce_advance_indexes

pub nonce_message-zero : (i : ℕ) → nonce_message i ≡ [] → i ≡ 0
unfolding nonce_message
nonce_message-zero i h = (==_iff i 0).0 (push_unless-eq-nil _ _ h)

pub outer_messages-IsAllowed :
    {K : Type 0} (bundle : ParsedBundle K) → outer_messages bundle ≡ [] → IsAllowed bundle
unfolding outer_messages
outer_messages-IsAllowed bundle h =
    let a = append-eq-nil (for_each foreign_message bundle.foreign) _ h in
    let b = append-eq-nil _ (for_each nonce_message bundle.nonce_advance_indexes) a.1 in
    record {
      no_foreign = foreign_none bundle.foreign a.0;
      one_nonce = at_most_one _ (push_if-eq-nil _ _ b.0);
      nonce_first =
          for_each-eq-nil _ nonce_message nonce_message-zero bundle.nonce_advance_indexes b.1;
    }
