-- ===== src/Decode/Flags.antt =====
-- The outer programs that `decodeVaultSolanaTransaction` of sdk/src/decoder.ts flags.
use solana_multisig.Prelude.{
  ok_injective, ℕ, ◌≤◌, ◌≡◌, ◌≢◌, ◌⊎◌, refl, ap, ◌∙◌, Bool, true, false, Bool-cases, both_true,
  not-eq-false, inl, inr, List, [], ◌∷◌, ◌++◌, map, Option, Option-cases, none, some, Text, ok,
  arith, append-eq-nil, if◌then◌else◌, on_ok, All, leb,
}
use solana_multisig.Prelude.Strings.{text_eq_iff, truthy}
use solana_multisig.Web3.{Web3}
use solana_multisig.Numbers.{ℤ, JsNumber, Quantity, to_bigint, le_ℤ, to_bigint_or_null}
use solana_multisig.Bundle.{ParsedComputeBudget, ParsedAtaCreate, Foreign, ParsedBundle, is_some_eq}
use solana_multisig.Decode.{
  ComputeBudgetCaps, seen_tag, unit_limit_ok, unit_price_ok, compute_budget_ok, flagged_budgets,
  bad_funder, flagged_atas, insert_flag, sort_flags, unknown_outer_programs,
}

-- A value within the cap of its tag, where one is given: 2 is the unit limit, 3 the unit price.
abbrev pub WithinLimit : ℕ → Option JsNumber → Type 0
WithinLimit value none = Unit
WithinLimit value (some most) = (z : ℤ) × (to_bigint most ≡ ok z) × (le_ℤ value z ≡ true)

abbrev pub WithinPrice : ℕ → Option Quantity → Type 0
WithinPrice value none = Unit
WithinPrice value (some q) = (most : ℕ) × (to_bigint_or_null (some q) ≡ some most) × (value ≤ most)

-- A compute budget instruction that is allowed, behind those with the given tags.
pub record IsCapped (caps : ComputeBudgetCaps) (seen : List (Option ℕ)) (cb : ParsedComputeBudget)
    : Type 0 where
  pub value : ℕ
  pub has_value : cb.value ≡ some value
  pub first_of_tag : seen_tag seen cb.tag ≡ false
  pub capped :
      ((is_some_eq cb.tag 2 ≡ true) × WithinLimit value caps.max_unit_limit)
      ⊎ ((is_some_eq cb.tag 3 ≡ true) × WithinPrice value caps.max_unit_price_micro_lamports)

unit_limit_ok-WithinLimit :
    (caps : ComputeBudgetCaps) (value : ℕ)
    → unit_limit_ok caps value ≡ ok true
    → WithinLimit value caps.max_unit_limit
unfolding unit_limit_ok
unit_limit_ok-WithinLimit caps value h = elim (Option-cases caps.max_unit_limit) [
  | inl e ↦ rw e tt
  | inr (most, e) ↦
      rw e (on_ok (to_bigint most) _ (rw (unit_limit_ok, e) at h) λ z k p. (z, k, ok_injective p))
]

unit_price_ok-WithinPrice :
    (caps : ComputeBudgetCaps) (value : ℕ)
    → unit_price_ok caps value ≡ true
    → WithinPrice value caps.max_unit_price_micro_lamports
unfolding unit_price_ok
unit_price_ok-WithinPrice caps value h = elim (Option-cases caps.max_unit_price_micro_lamports) [
  | inl e ↦ rw e tt
  | inr (q, e) ↦ elim (Option-cases (to_bigint_or_null (some q))) [
    | inl bad ↦ absurd (cc (rw (unit_price_ok, e, bad) at h))
    | inr (most, known) ↦ rw e (most, known, within most (rw (unit_price_ok, e, known) at h))
  ]
]
  where
    within : (most : ℕ) → leb value most ≡ true → value ≤ most
    within most k = ground arith

compute_budget_ok-IsCapped :
    (caps : Option ComputeBudgetCaps) (seen : List (Option ℕ)) (cb : ParsedComputeBudget)
    → compute_budget_ok caps seen cb ≡ ok true
    → (given : ComputeBudgetCaps) × (caps ≡ some given) × IsCapped given seen cb
unfolding compute_budget_ok
compute_budget_ok-IsCapped none seen cb h = cc
compute_budget_ok-IsCapped (some caps) seen cb h = elim (Option-cases cb.value) [
  | inl e ↦ absurd (cc (rw (compute_budget_ok, e) at h))
  | inr (value, e) ↦ elim (Bool-cases (seen_tag seen cb.tag)) [
    | inl again ↦ absurd (cc (rw (compute_budget_ok, e, again) at h))
    | inr new ↦ elim (Bool-cases (is_some_eq cb.tag 2)) [
      | inl two ↦ (
        caps,
        refl,
        record {
          value = value;
          has_value = e;
          first_of_tag = new;
          capped = inl (
            two,
            unit_limit_ok-WithinLimit caps value (rw (compute_budget_ok, e, new, two) at h),
          );
        },
      )
      | inr other ↦
          let both = both_true _ _ (ok_injective (rw (compute_budget_ok, e, new, other) at h)) in
          (
            caps,
            refl,
            record {
              value = value;
              has_value = e;
              first_of_tag = new;
              capped = inr (both.0, unit_price_ok-WithinPrice caps value both.1);
            },
          )
    ]
  ]
]

-- Every compute budget instruction is allowed behind those before it; without caps there is none.
abbrev pub AllCapped :
    Option ComputeBudgetCaps → List (Option ℕ) → List ParsedComputeBudget → Type 0
AllCapped caps seen [] = Unit
AllCapped caps seen (cb ∷ rest) =
    ((given : ComputeBudgetCaps) × (caps ≡ some given) × IsCapped given seen cb)
    × AllCapped caps (seen ++ (cb.tag ∷ [])) rest

-- A token account create whose funder, where both are known, is the fee payer.
abbrev pub FundedBy : Option Text → ParsedAtaCreate → Type 0
FundedBy payer ata = (p f : Text) → truthy payer ≡ some p → truthy ata.funder ≡ some f → f ≡ p

-- What a bundle without flagged programs is.
pub record IsUnflagged {K : Type 0} (bundle : ParsedBundle K) (caps : Option ComputeBudgetCaps)
    : Type 0 where
  pub no_foreign : bundle.foreign ≡ []
  pub funded : All (FundedBy bundle.fee_payer) bundle.ata_creates
  pub capped : AllCapped caps [] bundle.compute_budget

module _ {K : Type 0} (w : Web3 K) where
  insert_flag-ne-nil : (f : Foreign) (fs : List Foreign) → insert_flag w f fs ≢ []
  unfolding insert_flag
  insert_flag-ne-nil f [] h = cc
  insert_flag-ne-nil f (g ∷ gs) h = elim (Bool-cases (leb f.index g.index)) [
    | inl e ↦ cc (rw (insert_flag, e) at h)
    | inr e ↦ cc (rw (insert_flag, e) at h)
  ]

  sort_flags-eq-nil :
      (fs : List Foreign) → map (λ (f : Foreign). f.program_id) (sort_flags w fs) ≡ [] → fs ≡ []
  unfolding sort_flags
  sort_flags-eq-nil [] h = refl
  sort_flags-eq-nil (f ∷ fs) h = absurd (insert_flag-ne-nil f (sort_flags w fs) (map_nil _ h))
    where
      map_nil : (l : List Foreign) → map (λ (f : Foreign). f.program_id) l ≡ [] → l ≡ []
      map_nil [] k = refl
      map_nil (g ∷ gs) k = cc

  flagged_budgets-AllCapped :
      (caps : Option ComputeBudgetCaps) (seen : List (Option ℕ)) (cbs : List ParsedComputeBudget)
      → flagged_budgets w caps seen cbs ≡ ok []
      → AllCapped caps seen cbs
  unfolding flagged_budgets
  flagged_budgets-AllCapped caps seen [] h = tt
  flagged_budgets-AllCapped caps seen (cb ∷ rest) h =
      on_ok (compute_budget_ok caps seen cb) _ h λ fine e h1.
        on_ok (flagged_budgets w caps (seen ++ (cb.tag ∷ [])) rest) _ h1 λ later e1 h2.
          let (is_fine, is_none) = quiet fine _ later h2 in
          (
            compute_budget_ok-IsCapped caps seen cb (e ∙ ap (λ b. ok b) is_fine),
            flagged_budgets-AllCapped caps (seen ++ (cb.tag ∷ [])) rest
                (e1 ∙ ap (λ l. ok l) is_none),
          )
    where
      quiet :
          (fine : Bool) (f : Foreign) (later : List Foreign)
          → ok (if fine then later else f ∷ later) ≡ ok []
          → (fine ≡ true) × (later ≡ [])
      quiet true f later k = (refl, cc)
      quiet false f later k = cc

  flagged_atas-FundedBy :
      (payer : Option Text) (atas : List ParsedAtaCreate)
      → flagged_atas w payer atas ≡ []
      → All (FundedBy payer) atas
  unfolding flagged_atas
  flagged_atas-FundedBy payer [] h = tt
  flagged_atas-FundedBy payer (ata ∷ rest) h = elim (Bool-cases (bad_funder w payer ata)) [
    | inl bad ↦ absurd (cc (rw (flagged_atas, bad) at h))
    | inr good ↦ (
      λ p f is_p is_f. (text_eq_iff f p).0 (not-eq-false _ (rw (bad_funder, is_p, is_f) at good)),
      flagged_atas-FundedBy payer rest (rw (flagged_atas, good) at h),
    )
  ]

  -- When the list of unknown outer programs is empty, the bundle has no foreign instruction; the
  -- funder of each token account create is the fee payer, where both are known; and caps are given
  -- unless there is no compute budget instruction, each of which sets a limit or a price within its
  -- cap, with no tag twice.
  pub unknown_outer_programs-IsUnflagged :
      (bundle : ParsedBundle K) (caps : Option ComputeBudgetCaps)
      → unknown_outer_programs w bundle caps ≡ ok []
      → IsUnflagged bundle caps
  unfolding unknown_outer_programs
  unknown_outer_programs-IsUnflagged bundle caps h =
      on_ok (flagged_budgets w caps [] bundle.compute_budget) _ h λ budgets e k.
        let none_flagged = sort_flags-eq-nil _ (ok_injective k) in
        let outer = append-eq-nil bundle.foreign _ none_flagged in
        let inner = append-eq-nil (flagged_atas w bundle.fee_payer bundle.ata_creates) _ outer.1 in
        record {
          no_foreign = outer.0;
          funded = flagged_atas-FundedBy bundle.fee_payer bundle.ata_creates inner.0;
          capped =
              flagged_budgets-AllCapped caps [] bundle.compute_budget (e ∙ ap (λ l. ok l) inner.1);
        }
