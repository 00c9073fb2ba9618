-- ===== src/Bundle/Told.antt =====
-- The tests of `parseBundle` of sdk/src/decoder.ts tell the kinds of instructions apart.
use solana_multisig.Prelude.{
  ◌≡◌, ◌≢◌, refl, ap, ◌∙◌, true, false, arith, Bool-cases, inl, inr, [], ◌∷◌, ◌++◌, take, drop,
  take-drop, if◌then◌else◌,
}
use solana_multisig.Web3.{Bytes, Web3, IsWeb3, TransactionInstruction}
use solana_multisig.Bytes.{bytes_equal, read_u32_le, le_value}
use solana_multisig.Bytes.LittleEndian.{bytes_equal_iff}
use solana_multisig.Bundle.{
  is_nonce_advance, create_transaction_discriminator, approve_transaction_discriminator,
  execute_transaction_discriminator, close_transaction_discriminator,
}
use solana_multisig.Bundle.Kinds.{
  foreign_kind, StartsWith, nonce_advance_tag, IsBehind, IsKind, nonce_advance, other_system,
  compute_budget, ata_create, create, approve, execute, close, unknown_own, other_program,
}
use solana_multisig.Bundle.Branches.{multisig_kind, outer_kind}

is_nonce_advance-StartsWith :
    (raw : Bytes) → is_nonce_advance raw ≡ true → StartsWith nonce_advance_tag raw
unfolding read_u32_le le_value
is_nonce_advance-StartsWith [] h = cc
is_nonce_advance-StartsWith (a ∷ []) h = cc
is_nonce_advance-StartsWith (a ∷ b ∷ []) h = cc
is_nonce_advance-StartsWith (a ∷ b ∷ c ∷ []) h = cc
is_nonce_advance-StartsWith (a ∷ b ∷ c ∷ d ∷ rest) h =
    let ea : a ≡ 4 = ground (arith, h) in
    let eb : b ≡ 0 = ground (arith, h) in
    let ec : c ≡ 0 = ground (arith, h) in
    let ed : d ≡ 0 = ground (arith, h) in (rest, λ i. ea i ∷ eb i ∷ ec i ∷ ed i ∷ rest)

StartsWith-is_nonce_advance :
    (raw : Bytes) → StartsWith nonce_advance_tag raw → is_nonce_advance raw ≡ true
unfolding read_u32_le le_value
StartsWith-is_nonce_advance raw (rest, e) = rw e (ground arith)

is_nonce_advance-other :
    (raw : Bytes) → is_nonce_advance raw ≡ false → ¬ StartsWith nonce_advance_tag raw
is_nonce_advance-other raw h s = absurd (cc (h, StartsWith-is_nonce_advance raw s))

module _ (disc : Bytes) (eight : (rest : Bytes) → take 8 (disc ++ rest) ≡ disc) (raw : Bytes) where
  disc-StartsWith : bytes_equal (take 8 raw) disc ≡ true → StartsWith disc raw
  disc-StartsWith h = (
    drop 8 raw,
    take-drop 8 raw ∙ ap (λ bs. bs ++ drop 8 raw) ((bytes_equal_iff (take 8 raw) disc).0 h),
  )

  disc-other : bytes_equal (take 8 raw) disc ≡ false → ¬ StartsWith disc raw
  disc-other h (rest, e) =
      let same = (bytes_equal_iff (take 8 raw) disc).1 (ap (take 8) e ∙ eight rest) in
      absurd (cc (h, same))

module _ {K : Type 0} (w : Web3 K) (laws : IsWeb3 w) (program_id : K) where
  equals→eq : (a b : K) → w.equals a b ≡ true → a ≡ b
  equals→eq a b h = (laws.equals_iff a b).0 h

  equals→ne : (a b : K) → w.equals a b ≡ false → a ≢ b
  equals→ne a b h e = absurd (cc (h, (laws.equals_iff a b).1 e))

  multisig_kind-IsKind :
      (ix : TransactionInstruction K)
      → IsBehind w program_id ix.program_id
      → ix.program_id ≡ program_id
      → IsKind w program_id ix (multisig_kind w program_id ix.payload)
  multisig_kind-IsKind ix behind own =
      let raw = ix.payload in
      elim (Bool-cases (bytes_equal (take 8 raw) create_transaction_discriminator)) [
        | inl e ↦ rw e (create behind own (disc-StartsWith _ (λ rest. refl) raw e))
        | inr e ↦ elim (Bool-cases (bytes_equal (take 8 raw) approve_transaction_discriminator)) [
          | inl e1 ↦ rw (e, e1) (approve behind own (disc-StartsWith _ (λ rest. refl) raw e1))
          | inr e1 ↦
              elim (Bool-cases (bytes_equal (take 8 raw) execute_transaction_discriminator)) [
                | inl e2 ↦
                    rw (e, e1, e2) (execute behind own (disc-StartsWith _ (λ rest. refl) raw e2))
                | inr e2 ↦
                    elim (Bool-cases (bytes_equal (take 8 raw) close_transaction_discriminator)) [
                      | inl e3 ↦
                          rw (e, e1, e2, e3)
                            (close behind own (disc-StartsWith _ (λ rest. refl) raw e3))
                      | inr e3 ↦
                          rw (e, e1, e2, e3)
                            (unknown_own behind own (disc-other _ (λ rest. refl) raw e)
                              (disc-other _ (λ rest. refl) raw e1)
                              (disc-other _ (λ rest. refl) raw e2)
                              (disc-other _ (λ rest. refl) raw e3))
                    ]
              ]
        ]
      ]

  behind-IsKind :
      (ix : TransactionInstruction K)
      → IsBehind w program_id ix.program_id
      → IsKind w program_id ix (
          if w.equals ix.program_id program_id
          then multisig_kind w program_id ix.payload
          else foreign_kind)
  behind-IsKind ix behind = elim (Bool-cases (w.equals ix.program_id program_id)) [
    | inl e ↦ rw e (multisig_kind-IsKind ix behind (equals→eq _ _ e))
    | inr e ↦ rw e (other_program behind (equals→ne _ _ e))
  ]

  pub outer_kind-IsKind :
      (ix : TransactionInstruction K) → IsKind w program_id ix (outer_kind w program_id ix)
  outer_kind-IsKind ix = elim (Bool-cases (w.equals ix.program_id w.system_program_id)) [
    | inl e ↦ elim (Bool-cases (is_nonce_advance ix.payload)) [
      | inl n ↦
          rw (e, n) (nonce_advance (equals→eq _ _ e) (is_nonce_advance-StartsWith ix.payload n))
      | inr n ↦ rw (e, n) (other_system (equals→eq _ _ e) (is_nonce_advance-other ix.payload n))
    ]
    | inr e ↦ elim (Bool-cases (w.equals ix.program_id w.compute_budget_program_id)) [
      | inl e1 ↦ rw (e, e1) (compute_budget (equals→ne _ _ e) (equals→eq _ _ e1))
      | inr e1 ↦ elim (Bool-cases (w.equals ix.program_id w.ata_program_id)) [
        | inl e2 ↦
            rw (e, e1, e2) (ata_create (equals→ne _ _ e) (equals→ne _ _ e1) (equals→eq _ _ e2))
        | inr e2 ↦
            rw (e, e1, e2)
              (behind-IsKind ix (record {
                not_system = equals→ne _ _ e;
                not_compute_budget = equals→ne _ _ e1;
                not_ata = equals→ne _ _ e2;
              }))
      ]
    ]
  ]
