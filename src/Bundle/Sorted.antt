-- ===== src/Bundle/Sorted.antt =====
-- `parseBundle` of sdk/src/decoder.ts sorts every outer instruction by its kind.
use solana_multisig.Prelude.{
  ok_injective, ℕ, ◌+◌, ◌≡◌, refl, sym, ap, ◌∙◌, List, [], ◌∷◌, ◌++◌, map, append-nil, Text, ok,
  on_ok, All, throw_if, length, ◌==◌,
}
use solana_multisig.Web3.{Web3, IsWeb3, TransactionInstruction, Transaction}
use solana_multisig.Bundle.{ParsedBundle, parse_outer, parse_outer_loop, empty_bundle, parse_bundle}
use solana_multisig.Bundle.Kinds.{
  OuterKind, nonce_kind, budget_kind, ata_kind, create_kind, approve_kind, execute_kind, close_kind,
  foreign_kind, IsKind, of_kind, multisig_entry, ata_entry, foreign_entry, budget_entry, pushed,
  pushed-of_kind,
}
use solana_multisig.Bundle.Branches.{outer_kind, parse_outer-branch}
use solana_multisig.Bundle.Told.{outer_kind-IsKind}
use solana_multisig.Bundle.Steps.{create_key, IsRead, branch-Step}

module _ {K : Type 0} (w : Web3 K) (program_id : K) where
  -- The lists behind a run over instructions from a position on: those before, and behind them the
  -- entries of the instructions of their kind, in order.
  pub record Sorts (kind_of : TransactionInstruction K → OuterKind) (parsed : ParsedBundle K)
      (i : ℕ) (ixs : List (TransactionInstruction K)) (out : ParsedBundle K) : Type 0 where
    pub payer : out.fee_payer ≡ parsed.fee_payer
    pub nonce :
        out.nonce_advance_indexes
        ≡ parsed.nonce_advance_indexes ++ of_kind w program_id kind_of nonce_kind (λ j a. j) i ixs
    pub budgets :
        out.compute_budget
        ≡ parsed.compute_budget
          ++ of_kind w program_id kind_of budget_kind (budget_entry w program_id) i ixs
    pub atas :
        out.ata_creates
        ≡ parsed.ata_creates ++ of_kind w program_id kind_of ata_kind (ata_entry w program_id) i ixs
    pub creates :
        map (create_key w program_id) out.creates
        ≡ map (create_key w program_id) parsed.creates
          ++ of_kind w program_id kind_of create_kind (multisig_entry w program_id) i ixs
    pub read : All (IsRead w program_id) parsed.creates → All (IsRead w program_id) out.creates
    pub approves :
        out.approves
        ≡ parsed.approves
          ++ of_kind w program_id kind_of approve_kind (multisig_entry w program_id) i ixs
    pub executes :
        out.executes
        ≡ parsed.executes
          ++ of_kind w program_id kind_of execute_kind (multisig_entry w program_id) i ixs
    pub closes :
        out.closes
        ≡ parsed.closes
          ++ of_kind w program_id kind_of close_kind (multisig_entry w program_id) i ixs
    pub foreign :
        out.foreign
        ≡ parsed.foreign
          ++ of_kind w program_id kind_of foreign_kind (foreign_entry w program_id) i ixs

  onward {ℓ} :
      {X : Type ℓ} (kind : OuterKind) (f : ℕ → TransactionInstruction K → X) (xs : List X)
      {mid out : List X} (i : ℕ) (ix : TransactionInstruction K)
      (rest : List (TransactionInstruction K))
      → mid ≡ pushed w program_id kind f (outer_kind w program_id ix) xs i ix
      → out ≡ mid ++ of_kind w program_id (outer_kind w program_id) kind f (i + 1) rest
      → out ≡ xs ++ of_kind w program_id (outer_kind w program_id) kind f i (ix ∷ rest)
  onward kind f xs i ix rest step later =
      later
      ∙ ap (λ l. l ++ of_kind w program_id (outer_kind w program_id) kind f (i + 1) rest) step
      ∙ pushed-of_kind w program_id (outer_kind w program_id) kind f xs i ix rest

  parse_outer_loop-Sorts :
      (parsed : ParsedBundle K) (i : ℕ) (ixs : List (TransactionInstruction K))
      (out : ParsedBundle K)
      → parse_outer_loop w program_id parsed i ixs ≡ ok out
      → Sorts (outer_kind w program_id) parsed i ixs out
  unfolding parse_outer_loop
  parse_outer_loop-Sorts parsed i [] out h = rw (← ok_injective h) (record {
    payer = refl;
    nonce = sym (append-nil _);
    budgets = sym (append-nil _);
    atas = sym (append-nil _);
    creates = sym (append-nil _);
    read = λ r. r;
    approves = sym (append-nil _);
    executes = sym (append-nil _);
    closes = sym (append-nil _);
    foreign = sym (append-nil _);
  })
  parse_outer_loop-Sorts parsed i (ix ∷ rest) out h =
      on_ok (parse_outer w program_id parsed i ix) _ h λ mid e k.
        let step =
          branch-Step w program_id (outer_kind w program_id ix) parsed mid i ix
            (sym (parse_outer-branch w program_id parsed i ix) ∙ e) in
        let later = parse_outer_loop-Sorts mid (i + 1) rest out k in
        record {
          payer = later.payer ∙ step.payer;
          nonce = onward nonce_kind _ _ i ix rest step.nonce later.nonce;
          budgets = onward budget_kind _ _ i ix rest step.budgets later.budgets;
          atas = onward ata_kind _ _ i ix rest step.atas later.atas;
          creates = onward create_kind _ _ i ix rest step.creates later.creates;
          read = λ r. later.read (step.read r);
          approves = onward approve_kind _ _ i ix rest step.approves later.approves;
          executes = onward execute_kind _ _ i ix rest step.executes later.executes;
          closes = onward close_kind _ _ i ix rest step.closes later.closes;
          foreign = onward foreign_kind _ _ i ix rest step.foreign later.foreign;
        }

  -- What `parseBundle` makes of the bytes of a transaction.
  pub record IsSortedBundle (raw : Text) (bundle : ParsedBundle K) : Type 0 where
    pub transaction : Transaction K
    pub is_transaction : w.transaction_from (w.of_base64 raw) ≡ ok transaction
    pub kind_of : TransactionInstruction K → OuterKind
    pub is_kind : (ix : TransactionInstruction K) → IsKind w program_id ix (kind_of ix)
    pub sorts :
        Sorts kind_of
          (empty_bundle w program_id transaction.fee_payer)
          0
          transaction.instructions
          bundle
    pub read : All (IsRead w program_id) bundle.creates

  -- A bundle that `parseBundle` returns sorts all the outer instructions of the transaction: each
  -- list holds exactly the instructions of its kind, in their order, each with its position in the
  -- transaction, its accounts and its data, so that none is in two lists. An instruction is a nonce
  -- advance if its program is the system program and its data begin with 4 in four bytes; of the
  -- compute budget or the token account program by its program alone; a create, an approve, an execute
  -- or a close if its program is the multisig program and its data begin with that discriminator; and
  -- foreign if it is none of these. A compute budget entry has the first byte as its tag, and as its
  -- value the four bytes behind a 2 or the eight bytes behind a 3, lowest first, or none for any other
  -- data; the data of a token account create are fine if they are empty or one byte of 0 or 1. The
  -- message of each create is what its data reads as, and the fee payer is that of the transaction.
  pub parse_bundle-IsSortedBundle :
      IsWeb3 w
      → (raw : Text) (bundle : ParsedBundle K) → parse_bundle w program_id raw ≡ ok bundle
      → IsSortedBundle raw bundle
  unfolding parse_bundle
  parse_bundle-IsSortedBundle laws raw bundle h =
      on_ok (throw_if (length (w.of_base64 raw) == 0) _) _ h λ u filled h1.
        on_ok (w.transaction_from (w.of_base64 raw)) _ h1 λ tx e h2.
          let sorts =
            parse_outer_loop-Sorts (empty_bundle w program_id tx.fee_payer) 0 tx.instructions bundle
              h2 in
          record {
            transaction = tx;
            is_transaction = e;
            kind_of = outer_kind w program_id;
            is_kind = outer_kind-IsKind w laws program_id;
            sorts = sorts;
            read = sorts.read tt;
          }
