-- ===== src/Bundle/Steps.antt =====
-- One outer instruction in `parseBundle` of sdk/src/decoder.ts: the list of its kind gets its entry.
use solana_multisig.Prelude.{
  ok_injective, ℕ, ◌≡◌, refl, sym, ap, ◌∙◌, ◌++◌, ◌∷◌, [], Bool, get_elem?, map, Option, ok, on_ok,
  All, All-append,
}
use mathlib.Core.List.{map-append}
use solana_multisig.Bundle.Values.{
  budget_value, compute_budget_value-eq, first_byte-eq, ata_data_ok-eq,
}
use solana_multisig.Web3.{Bytes, Web3, TransactionInstruction}
use solana_multisig.Message.{parse_create_transaction_data}
use solana_multisig.Bundle.{
  first_byte, ParsedBundle, ParsedCreate, ParsedMultisigIx, ParsedComputeBudget,
  compute_budget_value,
}
use solana_multisig.Bundle.Kinds.{
  OuterKind, nonce_kind, budget_kind, ata_kind, create_kind, approve_kind, execute_kind, close_kind,
  foreign_kind, multisig_entry, ata_entry, foreign_entry, budget_entry, pushed,
}
use solana_multisig.Bundle.Branches.{branch}

module _ {K : Type 0} (w : Web3 K) (program_id : K) where
  abbrev pub create_key : ParsedCreate K → ParsedMultisigIx K
  create_key c = record { index = c.index; keys = c.keys; payload = c.payload }

  -- The message of a create is what its payload reads as.
  abbrev pub IsRead : ParsedCreate K → Type 0
  IsRead c = parse_create_transaction_data w c.payload ≡ ok c.inner

  budget_entry-eq :
      (raw : Bytes) (i : ℕ) (value : Option ℕ)
      → compute_budget_value raw ≡ ok value
      → ◌≡◌ {A = ParsedComputeBudget}
          (record { index = i; tag = first_byte raw; value = value })
          (record { index = i; tag = get_elem? raw 0; value = budget_value raw })
  budget_entry-eq raw i value e =
      let same : budget_value raw ≡ value = ok_injective (sym (compute_budget_value-eq raw) ∙ e) in
      let tag = first_byte-eq raw in λ j. record { index = i; tag = tag j; value = sym same j }

  -- The lists after one instruction of kind k.
  pub record Step (k : OuterKind) (parsed next : ParsedBundle K) (i : ℕ)
      (ix : TransactionInstruction K) : Type 0 where
    pub payer : next.fee_payer ≡ parsed.fee_payer
    pub nonce :
        next.nonce_advance_indexes
        ≡ pushed w program_id nonce_kind (λ j a. j) k parsed.nonce_advance_indexes i ix
    pub budgets :
        next.compute_budget
        ≡ pushed w program_id budget_kind (budget_entry w program_id) k parsed.compute_budget i ix
    pub atas :
        next.ata_creates
        ≡ pushed w program_id ata_kind (ata_entry w program_id) k parsed.ata_creates i ix
    pub creates :
        map create_key next.creates
        ≡ pushed w program_id create_kind
            (multisig_entry w program_id)
            k
            (map create_key parsed.creates)
            i
            ix
    pub read : All IsRead parsed.creates → All IsRead next.creates
    pub approves :
        next.approves
        ≡ pushed w program_id approve_kind (multisig_entry w program_id) k parsed.approves i ix
    pub executes :
        next.executes
        ≡ pushed w program_id execute_kind (multisig_entry w program_id) k parsed.executes i ix
    pub closes :
        next.closes
        ≡ pushed w program_id close_kind (multisig_entry w program_id) k parsed.closes i ix
    pub foreign :
        next.foreign
        ≡ pushed w program_id foreign_kind (foreign_entry w program_id) k parsed.foreign i ix

  pub branch-Step :
      (k : OuterKind) (parsed next : ParsedBundle K) (i : ℕ) (ix : TransactionInstruction K)
      → branch w program_id k parsed i ix ≡ ok next
      → Step k parsed next i ix
  branch-Step nonce_kind parsed next i ix h = rw (← ok_injective h) (record {
    payer = refl;
    nonce = refl;
    budgets = refl;
    atas = refl;
    creates = refl;
    read = λ r. r;
    approves = refl;
    executes = refl;
    closes = refl;
    foreign = refl;
  })
  branch-Step budget_kind parsed next i ix h =
      on_ok (compute_budget_value ix.payload) _ h λ value e k. rw (← ok_injective k) (record {
        payer = refl;
        nonce = refl;
        budgets =
            ap (λ (b : ParsedComputeBudget). parsed.compute_budget ++ (b ∷ []))
              (budget_entry-eq ix.payload i value e);
        atas = refl;
        creates = refl;
        read = λ r. r;
        approves = refl;
        executes = refl;
        closes = refl;
        foreign = refl;
      })
  branch-Step ata_kind parsed next i ix h = rw (← ok_injective h) (record {
    payer = refl;
    nonce = refl;
    budgets = refl;
    atas =
        ap
          (λ (ok_data : Bool).
            parsed.ata_creates ++ (record (ata_entry w program_id i ix) { data_ok = ok_data } ∷ []))
          (ata_data_ok-eq ix.payload);
    creates = refl;
    read = λ r. r;
    approves = refl;
    executes = refl;
    closes = refl;
    foreign = refl;
  })
  branch-Step create_kind parsed next i ix h =
      on_ok (parse_create_transaction_data w ix.payload) _ h λ inner e k.
        rw (← ok_injective k) (record {
          payer = refl;
          nonce = refl;
          budgets = refl;
          atas = refl;
          creates = map-append create_key parsed.creates _;
          read = λ r. All-append IsRead parsed.creates _ r (e, tt);
          approves = refl;
          executes = refl;
          closes = refl;
          foreign = refl;
        })
  branch-Step approve_kind parsed next i ix h = rw (← ok_injective h) (record {
    payer = refl;
    nonce = refl;
    budgets = refl;
    atas = refl;
    creates = refl;
    read = λ r. r;
    approves = refl;
    executes = refl;
    closes = refl;
    foreign = refl;
  })
  branch-Step execute_kind parsed next i ix h = rw (← ok_injective h) (record {
    payer = refl;
    nonce = refl;
    budgets = refl;
    atas = refl;
    creates = refl;
    read = λ r. r;
    approves = refl;
    executes = refl;
    closes = refl;
    foreign = refl;
  })
  branch-Step close_kind parsed next i ix h = rw (← ok_injective h) (record {
    payer = refl;
    nonce = refl;
    budgets = refl;
    atas = refl;
    creates = refl;
    read = λ r. r;
    approves = refl;
    executes = refl;
    closes = refl;
    foreign = refl;
  })
  branch-Step foreign_kind parsed next i ix h = rw (← ok_injective h) (record {
    payer = refl;
    nonce = refl;
    budgets = refl;
    atas = refl;
    creates = refl;
    read = λ r. r;
    approves = refl;
    executes = refl;
    closes = refl;
    foreign = refl;
  })
