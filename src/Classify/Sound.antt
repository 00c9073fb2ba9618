-- ===== src/Classify/Sound.antt =====
-- The loop of `classifyInnerMessage`: with no unknown instruction left over, the classification is
-- exactly what the instructions do.
use solana_multisig.Prelude.{
  ℕ, ◌+◌, ◌≤◌, ◌≡◌, refl, sym, ap, subst, ◌∙◌, inl, inr, Bool, List, [], ◌∷◌, ◌++◌, Option, some,
  Text, ok, arith, get_elem?, append_assoc, append-nil,
}
use solana_multisig.Web3.{Web3, IsWeb3}
use solana_multisig.Message.{CompiledInstruction, InnerMessage}
use solana_multisig.Classify.{
  InnerClassification, classify_step, classify_loop, classify_start, classify_keys,
  classify_inner_message,
}
use solana_multisig.Classify.Flows.{
  Flow, pays, reimburses, notes, apply, payments, reimbursed, noted, DoEach, none_left, one_more,
}
use solana_multisig.Classify.Steps.{Counted, classify_step-Counted}

-- A classification records these flows, on top of those of another.
pub record Records (c : InnerClassification) (fs : List Flow) (c' : InnerClassification)
    : Type 0 where
  pub paid : c'.recipients ≡ c.recipients ++ payments fs
  pub repaid : c'.fee_lamports ≡ c.fee_lamports + reimbursed fs
  pub noted_down : c'.memos ≡ c.memos ++ noted fs

Records-none : (c : InnerClassification) → Records c [] c
Records-none c = record {
  paid = sym (append-nil c.recipients);
  repaid = omega arith;
  noted_down = sym (append-nil c.memos);
}

Records-more :
    (f : Flow) (fs : List Flow) (c c' : InnerClassification)
    → Records (apply f c) fs c'
    → Records c (f ∷ fs) c'
Records-more (pays r) fs c c' h = record {
  paid = h.paid ∙ append_assoc c.recipients (r ∷ []) (payments fs);
  repaid = h.repaid;
  noted_down = h.noted_down;
}
Records-more (reimburses amount) fs c c' h = record {
  paid = h.paid;
  repaid = omega (arith, h.repaid);
  noted_down = h.noted_down;
}
Records-more (notes text) fs c c' h = record {
  paid = h.paid;
  repaid = h.repaid;
  noted_down = h.noted_down ∙ append_assoc c.memos (text ∷ []) (noted fs);
}

abbrev unknowns : InnerClassification → ℕ
unknowns c = c.unknown_inner_instruction_count

module _ {K : Type 0} (w : Web3 K) (laws : IsWeb3 w) where
  module _ (keys : List K) (vault : K) (fee_payer : Option Text) (allow_memo : Bool) where
    unknowns-apply : (f : Flow) (c : InnerClassification) → unknowns (apply f c) ≡ unknowns c
    unknowns-apply (pays r) c = refl
    unknowns-apply (reimburses n) c = refl
    unknowns-apply (notes t) c = refl

    unknowns-step :
        (c c' : InnerClassification) (cix : CompiledInstruction)
        → Counted w laws keys vault fee_payer allow_memo c cix c'
        → unknowns c ≤ unknowns c'
    unknowns-step c c' cix (inl e) = rw e (omega arith)
    unknowns-step c c' cix (inr (f, d, e)) = omega (arith, ap unknowns e, unknowns-apply f c)

    unknowns-loop :
        (ixs : List CompiledInstruction) (c : InnerClassification)
        → unknowns c ≤ unknowns (classify_loop w keys vault fee_payer allow_memo c ixs)
    unfolding classify_loop
    unknowns-loop [] c = omega arith
    unknowns-loop (cix ∷ rest) c = omega (
      arith,
      unknowns-step c _ cix (classify_step-Counted w laws keys vault fee_payer allow_memo c cix),
      unknowns-loop rest (classify_step w keys vault fee_payer allow_memo c cix),
    )

    loop-Records :
        (ixs : List CompiledInstruction) (c : InnerClassification)
        → unknowns (classify_loop w keys vault fee_payer allow_memo c ixs) ≡ unknowns c
        → (fs : List Flow) × DoEach w keys vault fee_payer ixs fs
          × Records c fs (classify_loop w keys vault fee_payer allow_memo c ixs)
    unfolding classify_loop
    loop-Records [] c e = ([], none_left, Records-none c)
    loop-Records (cix ∷ rest) c e =
        elim (classify_step-Counted w laws keys vault fee_payer allow_memo c cix) [
          | inl counted ↦ absurd (
              omega (
                arith,
                unknowns-loop rest (classify_step w keys vault fee_payer allow_memo c cix),
                ap unknowns counted,
              ))
          | inr (f, does, applied) ↦
              let c1 = classify_step w keys vault fee_payer allow_memo c cix in
              let c2 = classify_loop w keys vault fee_payer allow_memo c1 rest in
              let kept : unknowns c1 ≡ unknowns c = ap unknowns applied ∙ unknowns-apply f c in
              let later = loop-Records rest c1 (e ∙ sym kept) in
              (
                f ∷ later.0,
                one_more does later.1,
                Records-more f later.0 c c2 (subst (λ x. Records x later.0 c2) applied later.2),
              )
        ]

  -- The classification of a message that leaves nothing unclassified, as what its instructions do.
  pub record IsExact (inner : InnerMessage K) (fee_payer : Option Text) (c : InnerClassification)
      : Type 0 where
    pub vault : K
    pub first_key : get_elem? inner.account_keys 0 ≡ some vault
    pub no_lookups : inner.address_table_lookup_count ≡ 0
    pub flows : List Flow
    pub done : DoEach w inner.account_keys vault fee_payer inner.instructions flows
    pub paid : c.recipients ≡ payments flows
    pub repaid : c.fee_lamports ≡ reimbursed flows
    pub noted_down : c.memos ≡ noted flows

  keys-IsExact :
      (keys : List K) (inner : InnerMessage K) (fee_payer : Option Text) (allow_memo : Bool)
      (c : InnerClassification)
      → keys ≡ inner.account_keys
      → classify_keys w keys inner fee_payer allow_memo ≡ ok c
      → unknowns c ≡ 0
      → IsExact inner fee_payer c
  unfolding classify_keys
  keys-IsExact [] inner fee_payer allow_memo c k e u = cc
  keys-IsExact (vault ∷ keys) inner fee_payer allow_memo c k e u =
      let start = classify_start w inner.address_table_lookup_count in
      let c' = classify_loop w (vault ∷ keys) vault fee_payer allow_memo start inner.instructions in
      let same : c' ≡ c = cc in
      let low = unknowns-loop (vault ∷ keys) vault fee_payer allow_memo inner.instructions start in
      let none_known : unknowns c' ≡ 0 = ap unknowns same ∙ u in
      let zero_lookups : inner.address_table_lookup_count ≡ 0 = omega arith in
      let all =
        loop-Records (vault ∷ keys) vault fee_payer allow_memo inner.instructions start
          (none_known ∙ sym zero_lookups) in
      record {
        vault = vault;
        first_key = rw (← k);
        no_lookups = zero_lookups;
        flows = all.0;
        done = rw (← k) all.1;
        paid = ap (λ (x : InnerClassification). x.recipients) (sym same) ∙ all.2.paid;
        repaid = omega (arith, ap (λ (x : InnerClassification). x.fee_lamports) same, all.2.repaid);
        noted_down = ap (λ (x : InnerClassification). x.memos) (sym same) ∙ all.2.noted_down;
      }

  -- With no unknown instruction the recipients, the reimbursed lamports and the memos are exactly
  -- what the inner instructions do, each of which is a transfer or a TransferChecked by the vault, or
  -- a memo; and the message loads no address table.
  pub classify_inner_message-IsExact :
      (inner : InnerMessage K) (fee_payer : Option Text) (allow_memo : Bool)
      (c : InnerClassification)
      → classify_inner_message w inner fee_payer allow_memo ≡ ok c
      → c.unknown_inner_instruction_count ≡ 0
      → IsExact inner fee_payer c
  unfolding classify_inner_message
  classify_inner_message-IsExact inner fee_payer allow_memo c e u =
      keys-IsExact inner.account_keys inner fee_payer allow_memo c refl e u
