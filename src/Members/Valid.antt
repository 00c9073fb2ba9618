-- ===== src/Members/Valid.antt =====
-- What `validateConfig` accepts, and the reason for each refusal.
use solana_multisig.Prelude.{
  ok_injective, ℕ, suc, ◌≤◌, ◌≡◌, ◌≢◌, ◌↔◌, refl, sym, ap, ◌∙◌, false, List, [], ◌∷◌, Text, ok,
  arith, All, length, Bool-cases, inl, inr,
}
use solana_multisig.Prelude.Strings.{includes, text_eq_iff}
use solana_multisig.Web3.{Web3, IsWeb3}
use solana_multisig.Members.{distinct_count, member_texts, validate_config}

-- No key stands behind an equal one.
abbrev pub IsDistinct {ℓ} : {A : Type ℓ} → List A → Type ℓ
IsDistinct [] = Unit
IsDistinct (a ∷ rest) = All (λ b. a ≢ b) rest × IsDistinct rest

distinct_count-le : (ts : List Text) → distinct_count ts ≤ length ts
unfolding distinct_count
distinct_count-le [] = omega arith
distinct_count-le (t ∷ ts) = ground (arith, distinct_count-le ts)

includes-false : (ts : List Text) (t : Text) → includes ts t ≡ false → All (λ s. t ≢ s) ts
unfolding includes
includes-false [] t h = tt
includes-false (s ∷ ts) t h =
    (λ e. ground (arith, text_eq_iff s t), includes-false ts t (ground arith))

All-includes : (ts : List Text) (t : Text) → All (λ s. t ≢ s) ts → includes ts t ≡ false
unfolding includes
All-includes [] t h = refl
All-includes (s ∷ ts) t (p, h) =
    ground (arith, text_eq_iff s t, All-includes ts t h, λ (e : s ≡ t). p (sym e))

-- A set as large as the list means that no text occurs twice, and the other way round.
distinct_count-full : (ts : List Text) → distinct_count ts ≡ length ts → IsDistinct ts
unfolding distinct_count
distinct_count-full [] h = tt
distinct_count-full (t ∷ ts) h = elim (Bool-cases (includes ts t)) [
  | inl again ↦ absurd (ground (arith, distinct_count-le ts))
  | inr new ↦ (includes-false ts t new, distinct_count-full ts (ground arith))
]

distinct_count_of : (ts : List Text) → IsDistinct ts → distinct_count ts ≡ length ts
unfolding distinct_count
distinct_count_of [] h = refl
distinct_count_of (t ∷ ts) (p, h) = rw (All-includes ts t p) (ap suc (distinct_count_of ts h))

module _ {K : Type 0} (w : Web3 K) (laws : IsWeb3 w) where
  base58_injective : (a b : K) → w.to_base58 a ≡ w.to_base58 b → a ≡ b
  base58_injective a b e =
      ok_injective
        (sym (laws.of_base58-to_base58 a) ∙ ap w.of_base58 e ∙ laws.of_base58-to_base58 b)

  All-member_texts :
      (a : K) (ms : List K) → All (λ b. a ≢ b) ms ↔ All (λ t. w.to_base58 a ≢ t) (member_texts w ms)
  unfolding member_texts
  All-member_texts a [] = (λ h. tt, λ h. tt)
  All-member_texts a (b ∷ ms) =
      let (to, from) = All-member_texts a ms in
      (
        λ (p, h). (λ e. p (base58_injective a b e), to h),
        λ (p, h). (λ e. p (ap w.to_base58 e), from h),
      )

  IsDistinct-member_texts : (ms : List K) → IsDistinct ms ↔ IsDistinct (member_texts w ms)
  unfolding member_texts
  IsDistinct-member_texts [] = (λ h. tt, λ h. tt)
  IsDistinct-member_texts (a ∷ ms) =
      let (to, from) = IsDistinct-member_texts ms in
      let (to', from') = All-member_texts a ms in
      (λ (p, h). (to' p, to h), λ (p, h). (from' p, from h))

  length-member_texts : (ms : List K) → length (member_texts w ms) ≡ length ms
  unfolding member_texts
  length-member_texts [] = refl
  length-member_texts (a ∷ ms) = ap suc (length-member_texts ms)

  -- `validateConfig` accepts exactly a threshold from 1 to the number of members, with no member
  -- twice; so it also refuses an empty list.
  pub validate_config_iff :
      (members : List K) (threshold : ℕ)
      → (validate_config w members threshold ≡ ok tt)
        ↔ ((1 ≤ threshold) × (threshold ≤ length members) × IsDistinct members)
  unfolding validate_config
  validate_config_iff members threshold =
      let (to, from) = IsDistinct-member_texts members in
      (
        λ e. (
          ground arith,
          ground arith,
          from (
              distinct_count-full (member_texts w members)
                (ground (arith, length-member_texts members))),
        ),
        λ (low, high, distinct). ground (
          arith,
          length-member_texts members,
          distinct_count_of (member_texts w members) (to distinct),
        ),
      )
