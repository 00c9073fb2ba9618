-- ===== src/Classify/Steps.antt =====
-- One round of the loop of `classifyInnerMessage`: it counts the instruction as unknown, or the
-- instruction does what is recorded.
use solana_multisig.Prelude.{
  ℕ, ◌≤◌, ◌≡◌, refl, sym, ap, ◌∙◌, ◌≢◌, ◌⊎◌, inl, inr, Bool, true, false, ◌&&◌, List, [], ◌∷◌,
  Option, none, some, Text, ok, arith, length, get_elem?, Bool-cases, Option-cases, Result-cases,
  on_ok, not, if◌then◌else◌, ◌>>=◌,
}
use solana_multisig.Prelude.Strings.{text_eq_iff}
use solana_multisig.Web3.{Web3, IsWeb3}
use solana_multisig.Bytes.{byte_at, read_u64_le, read_u32_le}
use solana_multisig.Message.{CompiledInstruction}
use solana_multisig.Classify.{
  InnerClassification, native_recipient, spl_recipient, push_recipient, add_fee, count_unknown,
  is_fee_payer, decode_utf8_strict, classify_native, classify_spl, classify_memo, classify_try,
  classify_step, resolve_in, is_native_transfer, is_transfer_checked, is_memo,
}
use solana_multisig.Classify.Flows.{
  Flow, pays, reimburses, notes, apply, IsNativeTransfer, Does, native_payment, reimbursement,
  token_payment, memo,
}

resolve_in-eq-ok :
    {K : Type 0} (keys : List K) (i : ℕ) (k : K)
    → resolve_in keys i ≡ ok k
    → get_elem? keys i ≡ some k
resolve_in-eq-ok keys i k e = elim (Option-cases (get_elem? keys i)) [
  | inl missing ↦ ground arith
  | inr (found, here) ↦ ground arith
]

is_fee_payer→eq : (fee : Option Text) (t : Text) → is_fee_payer fee t ≡ true → fee ≡ some t
is_fee_payer→eq none t h = cc
is_fee_payer→eq (some []) t h = cc
is_fee_payer→eq (some (x ∷ s)) t h = ap some (sym ((text_eq_iff t (x ∷ s)).0 h))

not_fee_payer : (fee : Option Text) (t : Text) → t ≢ [] → is_fee_payer fee t ≡ false → fee ≢ some t
not_fee_payer none t h p e = cc
not_fee_payer (some []) t h p e = h (cc)
not_fee_payer (some (x ∷ s)) t h p e = ground (arith, text_eq_iff t (x ∷ s))

and_true : (a b : Bool) → (a && b) ≡ true → (a ≡ true) × (b ≡ true)
and_true true true h = (refl, refl)
and_true true false h = cc
and_true false b h = cc

module _ {K : Type 0} (w : Web3 K) (laws : IsWeb3 w) where
  module _ (keys : List K) (vault : K) (fee_payer : Option Text) (allow_memo : Bool) where
    -- How a round ends.
    abbrev pub Counted : InnerClassification → CompiledInstruction → InnerClassification → Type 0
    Counted c cix c' =
        (c' ≡ count_unknown c) ⊎ ((f : Flow) × Does w keys vault fee_payer cix f × (c' ≡ apply f c))

    native-Counted :
        (c c' : InnerClassification) (cix : CompiledInstruction) (prog : K)
        → get_elem? keys cix.program_id_index ≡ some prog
        → is_native_transfer w prog cix ≡ true
        → classify_native w keys vault fee_payer allow_memo c cix ≡ ok c'
        → Counted c cix c'
    unfolding classify_native
    native-Counted c c' cix prog p t e =
        on_ok (resolve_in keys (byte_at cix.account_indexes 0)) _ e λ source s e1.
          on_ok (resolve_in keys (byte_at cix.account_indexes 1)) _ e1 λ dest d e2.
            on_ok (read_u64_le cix.payload 4) _ e2
              λ amount a e3. native_cases source dest amount s d a e3
      where
        facts :
            (prog ≡ w.system_program_id)
            × (length cix.payload ≡ 12)
            × (read_u32_le cix.payload 0 ≡ 2)
            × (2 ≤ length cix.account_indexes)
        facts = ground (arith, laws.equals_iff prog w.system_program_id)

        transfer :
            (source dest : K) (amount : ℕ)
            → resolve_in keys (byte_at cix.account_indexes 0) ≡ ok source
            → resolve_in keys (byte_at cix.account_indexes 1) ≡ ok dest
            → read_u64_le cix.payload 4 ≡ ok amount
            → source ≡ vault
            → IsNativeTransfer w keys vault fee_payer cix dest amount
        transfer source dest amount s d a e4 = record {
          program = p ∙ ap some facts.0;
          size = facts.1;
          tag = facts.2;
          amount_read = a;
          accounts = facts.3;
          source = resolve_in-eq-ok keys _ source s ∙ ap some e4;
          destination = resolve_in-eq-ok keys _ dest d;
        }

        native_cases :
            (source dest : K) (amount : ℕ)
            → resolve_in keys (byte_at cix.account_indexes 0) ≡ ok source
            → resolve_in keys (byte_at cix.account_indexes 1) ≡ ok dest
            → read_u64_le cix.payload 4 ≡ ok amount
            → ok (
                if not (w.equals source vault)
                then count_unknown c
                else if is_fee_payer fee_payer (w.to_base58 dest)
                then add_fee amount c
                else push_recipient (native_recipient (w.to_base58 dest) amount) c)
              ≡ ok c'
            → Counted c cix c'
        native_cases source dest amount s d a e3 = elim (Bool-cases (w.equals source vault)) [
          | inl same ↦ elim (Bool-cases (is_fee_payer fee_payer (w.to_base58 dest))) [
            | inl fee ↦ inr (
              reimburses amount,
              reimbursement dest amount
                  (transfer source dest amount s d a ((laws.equals_iff _ _).0 same))
                  (is_fee_payer→eq _ _ fee),
              ground arith,
            )
            | inr not_fee ↦ inr (
              pays (native_recipient (w.to_base58 dest) amount),
              native_payment dest amount
                  (transfer source dest amount s d a ((laws.equals_iff _ _).0 same))
                  (not_fee_payer _ _ (laws.to_base58-ne-nil dest) not_fee),
              ground arith,
            )
          ]
          | inr differs ↦ inl (ground arith)
        ]

    spl-Counted :
        (c c' : InnerClassification) (cix : CompiledInstruction) (prog : K)
        → get_elem? keys cix.program_id_index ≡ some prog
        → is_transfer_checked w prog cix ≡ true
        → classify_spl w keys vault fee_payer allow_memo prog c cix ≡ ok c'
        → Counted c cix c'
    unfolding classify_spl
    spl-Counted c c' cix prog p t e =
        on_ok (resolve_in keys (byte_at cix.account_indexes 3)) _ e λ authority s e1.
          elim (Bool-cases (w.equals authority vault)) [
            | inl same ↦ authorized authority s ((laws.equals_iff _ _).0 same) (rw same at e1)
            | inr differs ↦ inl (ground arith)
          ]
      where
        token : (prog ≡ w.token_program_id) ⊎ (prog ≡ w.token_2022_program_id)
        token = ground (
          arith,
          laws.equals_iff prog w.token_program_id,
          laws.equals_iff prog w.token_2022_program_id,
        )

        facts :
            (length cix.payload ≡ 10)
            × (byte_at cix.payload 0 ≡ 12)
            × (4 ≤ length cix.account_indexes)
        facts = ground arith

        authorized :
            (authority : K)
            → resolve_in keys (byte_at cix.account_indexes 3) ≡ ok authority
            → authority ≡ vault
            → (resolve_in keys (byte_at cix.account_indexes 2) >>= λ dest_key.
                read_u64_le cix.payload 1 >>= λ amount.
                resolve_in keys (byte_at cix.account_indexes 1) >>= λ mint_key. ok (
                  push_recipient
                    (spl_recipient
                      (w.to_base58 dest_key)
                      amount
                      (w.to_base58 mint_key)
                      (byte_at cix.payload 9)
                      (w.to_base58 prog))
                    c))
              ≡ ok c'
            → Counted c cix c'
        authorized authority s v e1 =
            on_ok (resolve_in keys (byte_at cix.account_indexes 2)) _ e1 λ dest d e2.
              on_ok (read_u64_le cix.payload 1) _ e2 λ amount a e3.
                on_ok (resolve_in keys (byte_at cix.account_indexes 1)) _ e3 λ mint m e4. inr (
                  _,
                  token_payment prog dest mint amount (byte_at cix.payload 9) (record {
                    program = p;
                    token = token;
                    size = facts.0;
                    tag = facts.1;
                    amount_read = a;
                    decimals_read = refl;
                    accounts = facts.2;
                    mint_account = resolve_in-eq-ok keys _ mint m;
                    destination = resolve_in-eq-ok keys _ dest d;
                    authority = resolve_in-eq-ok keys _ authority s ∙ ap some v;
                  }),
                  ground arith,
                )

    memo-Counted :
        (c : InnerClassification) (cix : CompiledInstruction) (prog : K)
        → get_elem? keys cix.program_id_index ≡ some prog
        → is_memo w allow_memo prog cix ≡ true
        → Counted c cix (classify_memo w keys vault fee_payer allow_memo c cix)
    unfolding classify_memo
    memo-Counted c cix prog p t = elim (Option-cases (decode_utf8_strict w cix.payload)) [
      | inl missing ↦ inl (rw (missing, classify_memo))
      | inr (text, read) ↦ inr (
        notes text,
        memo text (record { program = p ∙ ap some facts.0; accounts = facts.1; text_read = read }),
        rw (read, classify_memo),
      )
    ]
      where
        facts : (prog ≡ w.memo_program_id) × (length cix.account_indexes ≡ 0)
        facts = ground (arith, laws.equals_iff prog w.memo_program_id)

    try-Counted :
        (c c' : InnerClassification) (cix : CompiledInstruction)
        → classify_try w keys vault fee_payer allow_memo c cix ≡ ok c'
        → Counted c cix c'
    unfolding classify_try
    try-Counted c c' cix e =
        on_ok (resolve_in keys cix.program_id_index) _ e
          λ prog p e1. branch prog (resolve_in-eq-ok keys _ prog p) e1
      where
        branch :
            (prog : K)
            → get_elem? keys cix.program_id_index ≡ some prog
            → (if is_native_transfer w prog cix
                then classify_native w keys vault fee_payer allow_memo c cix
                else if is_transfer_checked w prog cix
                then classify_spl w keys vault fee_payer allow_memo prog c cix
                else if is_memo w allow_memo prog cix
                then ok (classify_memo w keys vault fee_payer allow_memo c cix)
                else ok (count_unknown c))
              ≡ ok c'
            → Counted c cix c'
        branch prog p e1 = elim (Bool-cases (is_native_transfer w prog cix)) [
          | inl native ↦ native-Counted c c' cix prog p native (rw native at e1)
          | inr other ↦ elim (Bool-cases (is_transfer_checked w prog cix)) [
            | inl spl ↦ spl-Counted c c' cix prog p spl (rw (other, spl) at e1)
            | inr rest ↦ elim (Bool-cases (is_memo w allow_memo prog cix)) [
              | inl noted ↦
                  let e2 : classify_memo w keys vault fee_payer allow_memo c cix ≡ c' =
                    cc (rw (other, rest, noted) at e1) in
                  rw e2 at (memo-Counted c cix prog p noted)
              | inr unknown ↦ inl (sym (cc (rw (other, rest, unknown) at e1)))
            ]
          ]
        ]

    -- A round counts the instruction as unknown, or the instruction does what is recorded.
    pub classify_step-Counted :
        (c : InnerClassification) (cix : CompiledInstruction)
        → Counted c cix (classify_step w keys vault fee_payer allow_memo c cix)
    unfolding classify_step
    classify_step-Counted c cix =
        elim (Result-cases (classify_try w keys vault fee_payer allow_memo c cix)) [
          | inl (c', done) ↦ rw done (try-Counted c c' cix done)
          | inr (message, thrown) ↦ inl (rw thrown)
        ]
