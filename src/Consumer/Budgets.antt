-- ===== src/Consumer/Budgets.antt =====
-- The compute budget of a bundle that the gate of sdk/src/decoder.ts passes.
use solana_multisig.Prelude.{
  ok_injective, ℕ, ◌≤◌, ◌≡◌, refl, sym, true, false, Bool-cases, inl, inr, List, [], ◌∷◌, Option,
  Option-cases, none, some, arith, ltb, push_if-eq-nil, push_if, push_unless-eq-nil, subst,
}
use solana_multisig.Numbers.{to_bigint, to_bigint_or_null}
use solana_multisig.Bundle.{ParsedComputeBudget, is_some_eq}
use solana_multisig.Decode.Flags.{WithinLimit, WithinPrice}
use solana_multisig.Consumer.Gate.{attempt, Passes, bind-Passes, push-Passes}
use solana_multisig.Consumer.Outer.{
  ConsumerParams, Budget, is_set, limit_messages, price_messages, budget_step, budget_loop,
}

module _ (params : ConsumerParams) where
  -- The instructions of the compute budget, with the values seen before: each sets a limit or a price,
  -- within its cap, that none before it has set.
  pub data Budgets : Budget → List ParsedComputeBudget → Budget → Type 0 where
    budget_done : (seen : Budget) → Budgets seen [] seen
    budget_limit :
        (seen end : Budget) (cb : ParsedComputeBudget) (rest : List ParsedComputeBudget) (value : ℕ)
        → cb.value ≡ some value
        → is_some_eq cb.tag 2 ≡ true
        → seen.limit ≡ none
        → WithinLimit value params.max_compute_unit_limit
        → Budgets (record seen { limit = some value }) rest end
        → Budgets seen (cb ∷ rest) end
    budget_price :
        (seen end : Budget) (cb : ParsedComputeBudget) (rest : List ParsedComputeBudget) (value : ℕ)
        → cb.value ≡ some value
        → is_some_eq cb.tag 2 ≡ false
        → seen.price ≡ none
        → WithinPrice value params.max_compute_unit_price_micro_lamports
        → Budgets (record seen { price = some value }) rest end
        → Budgets seen (cb ∷ rest) end

  is_set-false : (o : Option ℕ) → is_set o ≡ false → o ≡ none
  is_set-false none h = refl
  is_set-false (some n) h = cc

  limit_messages-WithinLimit :
      (value : ℕ) (u : Unit {0})
      → Passes (limit_messages params value) u
      → WithinLimit value params.max_compute_unit_limit
  unfolding limit_messages
  limit_messages-WithinLimit value u h = elim (Option-cases params.max_compute_unit_limit) [
    | inl e ↦ rw e tt
    | inr (cap, e) ↦ rw e (
        bind-Passes (attempt (to_bigint cap)) _ (rw e at h)
          λ z q k p. (z, k, push_unless-eq-nil _ _ p.0))
  ]

  price_messages-WithinPrice :
      (value : ℕ)
      → price_messages params value ≡ []
      → WithinPrice value params.max_compute_unit_price_micro_lamports
  unfolding price_messages
  price_messages-WithinPrice value h =
      elim (Option-cases params.max_compute_unit_price_micro_lamports) [
        | inl e ↦ rw e tt
        | inr (q, e) ↦ elim (Option-cases (to_bigint_or_null (some q))) [
          | inl bad ↦ absurd (cc (rw (e, price_messages, bad) at h))
          | inr (most, known) ↦ rw e (
            most,
            known,
            within value most (push_if-eq-nil _ _ (rw (e, price_messages, known) at h)),
          )
        ]
      ]
    where
      within : (value most : ℕ) → ltb most value ≡ false → value ≤ most
      within value most h = ground arith

  pub budget_loop-Budgets :
      (seen : Budget) (cbs : List ParsedComputeBudget) (end : Budget)
      → Passes (budget_loop params seen cbs) end
      → Budgets seen cbs end
  unfolding budget_loop budget_step
  budget_loop-Budgets seen [] end (h, k) =
      let e : seen ≡ end = cc in subst (λ x. Budgets seen [] x) e (budget_done seen)
  budget_loop-Budgets seen (cb ∷ rest) end p =
      bind-Passes (budget_step params seen cb) _ p λ next quiet done later.
        elim (Option-cases cb.value) [
          | inl e ↦ absurd (cc (rw e at quiet))
          | inr (value, e) ↦ elim (Bool-cases (is_some_eq cb.tag 2)) [
            | inl tag ↦
                let passed : Passes (budget_step params seen cb) next = (quiet, done) in
                push-Passes (push_if (is_set seen.limit) _) _ (rw (budget_step, e, tag) at passed)
                  λ first p1. bind-Passes (limit_messages params value) _ p1 λ u q k p2.
                    budget_limit seen end cb rest value e tag
                      (is_set-false seen.limit (push_if-eq-nil _ _ first))
                      (limit_messages-WithinLimit value u (q, k))
                      (subst (λ x. Budgets x rest end) (sym (ok_injective p2.1))
                        (budget_loop-Budgets next rest end later))
            | inr tag ↦
                let passed : Passes (budget_step params seen cb) next = (quiet, done) in
                push-Passes (push_if (is_set seen.price) _) _ (rw (budget_step, e, tag) at passed)
                  λ first p1. push-Passes (price_messages params value) _ p1 λ q p2.
                    budget_price seen end cb rest value e tag
                      (is_set-false seen.price (push_if-eq-nil _ _ first))
                      (price_messages-WithinPrice value q)
                      (subst (λ x. Budgets x rest end) (sym (ok_injective p2.1))
                        (budget_loop-Budgets next rest end later))
          ]
        ]
