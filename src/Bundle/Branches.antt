-- ===== src/Bundle/Branches.antt =====
-- The branches of `parseBundle` of sdk/src/decoder.ts, by the kind of the instruction.
use solana_multisig.Prelude.{
  ℕ, ◌≡◌, refl, Bool-cases, inl, inr, if◌then◌else◌, [], ◌∷◌, ◌++◌, map, Result, ok, ◌>>=◌, take,
}
use solana_multisig.Web3.{Bytes, Web3, AccountMeta, TransactionInstruction}
use solana_multisig.Bytes.{bytes_equal}
use solana_multisig.Message.{parse_create_transaction_data}
use solana_multisig.Bundle.{
  ParsedBundle, first_byte, is_nonce_advance, compute_budget_value, push_foreign, push_ata_create,
  parse_multisig, parse_outer, create_transaction_discriminator, approve_transaction_discriminator,
  execute_transaction_discriminator, close_transaction_discriminator,
}
use solana_multisig.Bundle.Kinds.{
  OuterKind, nonce_kind, budget_kind, ata_kind, create_kind, approve_kind, execute_kind, close_kind,
  foreign_kind, multisig_entry,
}

module _ {K : Type 0} (w : Web3 K) (program_id : K) where
  -- An instruction of the multisig program goes by its discriminator.
  abbrev pub multisig_kind : Bytes → OuterKind
  multisig_kind raw =
      if bytes_equal (take 8 raw) create_transaction_discriminator
      then create_kind
      else if bytes_equal (take 8 raw) approve_transaction_discriminator
      then approve_kind
      else if bytes_equal (take 8 raw) execute_transaction_discriminator
      then execute_kind
      else if bytes_equal (take 8 raw) close_transaction_discriminator
      then close_kind
      else foreign_kind

  abbrev pub outer_kind : TransactionInstruction K → OuterKind
  outer_kind ix =
      if w.equals ix.program_id w.system_program_id
      then (if is_nonce_advance ix.payload then nonce_kind else foreign_kind)
      else if w.equals ix.program_id w.compute_budget_program_id
      then budget_kind
      else if w.equals ix.program_id w.ata_program_id
      then ata_kind
      else if w.equals ix.program_id program_id
      then multisig_kind ix.payload
      else foreign_kind

  -- The branch of the parser for a kind.
  abbrev pub branch :
      OuterKind → ParsedBundle K → ℕ → TransactionInstruction K → Result (ParsedBundle K)
  branch nonce_kind parsed i ix =
      ok (record parsed { nonce_advance_indexes = parsed.nonce_advance_indexes ++ (i ∷ []) })
  branch budget_kind parsed i ix = compute_budget_value ix.payload >>= λ value. ok (record parsed {
    compute_budget =
        parsed.compute_budget
        ++ (record { index = i; tag = first_byte ix.payload; value = value } ∷ []);
  })
  branch ata_kind parsed i ix = ok (
      push_ata_create w program_id parsed i (map (λ (m : AccountMeta K). m.pubkey) ix.keys)
        ix.payload)
  branch create_kind parsed i ix = parse_create_transaction_data w ix.payload >>= λ inner.
      ok (record parsed {
        creates =
            parsed.creates
            ++ (record {
              index = i;
              keys = map (λ (m : AccountMeta K). m.pubkey) ix.keys;
              payload = ix.payload;
              inner = inner;
            }
                ∷ []);
      })
  branch approve_kind parsed i ix =
      ok (record parsed { approves = parsed.approves ++ (multisig_entry w program_id i ix ∷ []) })
  branch execute_kind parsed i ix =
      ok (record parsed { executes = parsed.executes ++ (multisig_entry w program_id i ix ∷ []) })
  branch close_kind parsed i ix =
      ok (record parsed { closes = parsed.closes ++ (multisig_entry w program_id i ix ∷ []) })
  branch foreign_kind parsed i ix = ok (push_foreign w program_id parsed i ix.program_id)

  parse_multisig-branch :
      (parsed : ParsedBundle K) (i : ℕ) (ix : TransactionInstruction K)
      → parse_multisig w program_id parsed i ix.program_id
          (map (λ (m : AccountMeta K). m.pubkey) ix.keys)
          ix.payload
        ≡ branch (multisig_kind ix.payload) parsed i ix
  unfolding parse_multisig
  parse_multisig-branch parsed i ix =
      elim (Bool-cases (bytes_equal (take 8 ix.payload) create_transaction_discriminator)) [
        | inl e ↦ rw e refl
        | inr e ↦
            elim (Bool-cases (bytes_equal (take 8 ix.payload) approve_transaction_discriminator)) [
              | inl e' ↦ rw (e, e') refl
              | inr e' ↦
                  elim (Bool-cases
                    (bytes_equal (take 8 ix.payload) execute_transaction_discriminator)) [
                      | inl e2 ↦ rw (e, e', e2) refl
                      | inr e2 ↦
                          elim (Bool-cases
                            (bytes_equal (take 8 ix.payload) close_transaction_discriminator)) [
                              | inl e3 ↦ rw (e, e', e2, e3) refl
                              | inr e3 ↦ rw (e, e', e2, e3) refl
                            ]
                    ]
            ]
      ]

  pub parse_outer-branch :
      (parsed : ParsedBundle K) (i : ℕ) (ix : TransactionInstruction K)
      → parse_outer w program_id parsed i ix ≡ branch (outer_kind ix) parsed i ix
  unfolding parse_outer
  parse_outer-branch parsed i ix = elim (Bool-cases (w.equals ix.program_id w.system_program_id)) [
    | inl e ↦ elim (Bool-cases (is_nonce_advance ix.payload)) [
      | inl n ↦ rw (e, n) refl
      | inr n ↦ rw (e, n) refl
    ]
    | inr e ↦ elim (Bool-cases (w.equals ix.program_id w.compute_budget_program_id)) [
      | inl e' ↦ rw (e, e') refl
      | inr e' ↦ elim (Bool-cases (w.equals ix.program_id w.ata_program_id)) [
        | inl e2 ↦ rw (e, e', e2) refl
        | inr e2 ↦ elim (Bool-cases (w.equals ix.program_id program_id)) [
          | inl e3 ↦ rw (e, e', e2, e3) (parse_multisig-branch parsed i ix)
          | inr e3 ↦ rw (e, e', e2, e3) refl
        ]
      ]
    ]
  ]
