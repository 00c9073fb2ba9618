-- ===== src/FundFlows/Match.antt =====
-- The pool of `compareFundFlows`: expected recipients are matched one to one with decoded ones.
use solana_multisig.Prelude.{
  ℕ, ◌≡◌, refl, ap, ◌∙◌, inl, inr, Bool, true, false, not, ◌&&◌, List, [], ◌∷◌, ◌++◌, Option, none,
  some, Text, ok, arith, if◌then◌else◌, Bool-cases, Option-cases, Result-cases, ==_iff,
  append-eq-nil, push_if-eq-nil,
}
use solana_multisig.Prelude.Strings.{text_eq, text_eq_iff, truthy, option_text_eq}
use mathlib.Core.List.{Perm}
use mathlib.Core.List.Perm
use solana_multisig.Web3.{Web3}
use solana_multisig.Numbers.{amount_of}
use solana_multisig.Classify.{Recipient, spl}
use solana_multisig.FundFlows.{
  ExpectedRecipient, PoolEntry, use_first, leftover_messages, derived_ata, owner_matches,
  recipient_matches_address, recipient_fits, match_expected, pool_of,
}

abbrev pub unused : List PoolEntry → List Recipient
unused [] = []
unused (entry ∷ rest) = if entry.used then unused rest else entry.recipient ∷ unused rest

unused-used :
    (entry : PoolEntry) (rs : List Recipient)
    → not entry.used ≡ false
    → (if entry.used then rs else entry.recipient ∷ rs) ≡ rs
unused-used entry rs h = ground arith

pub unused-pool_of : (rs : List Recipient) → unused (pool_of rs) ≡ rs
unused-pool_of [] = refl
unused-pool_of (r ∷ rs) = ap (λ xs. r ∷ xs) (unused-pool_of rs)

-- A match takes one recipient out of the unused ones, and it passes the test.
record Taken (test : Recipient → Bool) (pool pool' : List PoolEntry) : Type 0 where
  recipient : Recipient
  passes : test recipient ≡ true
  rest : Perm (unused pool) (recipient ∷ unused pool')

behind :
    (b : Bool) (x r : Recipient) (xs ys : List Recipient)
    → Perm xs (r ∷ ys)
    → Perm (if b then xs else x ∷ xs) (r ∷ (if b then ys else x ∷ ys))
behind true x r xs ys p = p
behind false x r xs ys p = Perm.trans (Perm.cons x p) (Perm.swap r x ys)

use_first-Taken :
    (test : Recipient → Bool) (pool pool' : List PoolEntry)
    → use_first test pool ≡ some pool'
    → Taken test pool pool'
unfolding use_first
use_first-Taken test [] pool' h = cc
use_first-Taken test (entry ∷ pool) pool' h =
    elim (Bool-cases (not entry.used && test entry.recipient)) [
      | inl here ↦
          let e : record entry { used = true } ∷ pool ≡ pool' = ground arith in
          let f : entry.used ≡ false = ground arith in
          record {
            recipient = entry.recipient;
            passes = ground arith;
            rest = rw (← e, f) (Perm.refl (entry.recipient ∷ unused pool));
          }
      | inr other ↦ elim (Option-cases (use_first test pool)) [
        | inl missing ↦ absurd (ground arith)
        | inr (later, found) ↦
            let t = use_first-Taken test pool later found in
            let e : entry ∷ later ≡ pool' = ground arith in
            record {
              recipient = t.recipient;
              passes = t.passes;
              rest = rw (← e) (behind entry.used entry.recipient t.recipient _ _ t.rest);
            }
      ]
    ]

-- Does an address name a decoded recipient: as its address, as its token account, or as the owner
-- whose token account for its mint and token program it is.
pub data IsFor {K : Type 0} (w : Web3 K) (r : Recipient) (address : Text) : Type 0 where
  by_address : r.address ≡ address → IsFor w r address
  by_ata : r.ata ≡ some address → IsFor w r address
  by_owner :
      (ata mint program : Text)
      → r.asset ≡ spl
      → r.ata ≡ some ata
      → r.mint ≡ some mint
      → r.token_program ≡ some program
      → derived_ata w address mint program ≡ ok ata
      → IsFor w r address

-- A decoded recipient pays an expected one: it is named by the address, and the amounts are equal.
pub record Pays {K : Type 0} (w : Web3 K) (exp : ExpectedRecipient) (r : Recipient) : Type 0 where
  pub named : IsFor w r exp.address
  pub amount : ℕ
  pub expected_amount : amount_of exp.amount ≡ some amount
  pub decoded_amount : amount_of r.amount ≡ some amount

pub data PayEach {K : Type 0} (w : Web3 K) : List ExpectedRecipient → List Recipient → Type 0 where
  none_left : PayEach w [] []
  one_more :
      {exp : ExpectedRecipient} {r : Recipient} {exps : List ExpectedRecipient}
      {rs : List Recipient}
      → Pays w exp r
      → PayEach w exps rs
      → PayEach w (exp ∷ exps) (r ∷ rs)

pub truthy→eq : (o : Option Text) (t : Text) → truthy o ≡ some t → o ≡ some t
truthy→eq none t h = h
truthy→eq (some []) t h = cc
truthy→eq (some (c ∷ s)) t h = h

pub option_text_eq→eq : (o : Option Text) (t : Text) → option_text_eq o (some t) ≡ true → o ≡ some t
option_text_eq→eq none t h = cc
option_text_eq→eq (some s) t h = ap some ((text_eq_iff s t).0 h)

module _ {K : Type 0} (w : Web3 K) where
  owner_matches→IsFor :
      (r : Recipient) (a : Text) → r.asset ≡ spl → owner_matches w r a ≡ true → IsFor w r a
  unfolding owner_matches
  owner_matches→IsFor r a s h = elim (Option-cases (truthy r.ata)) [
    | inl n ↦ cc (rw (n, owner_matches) at h)
    | inr (ata, e) ↦ elim (Option-cases (truthy r.mint)) [
      | inl n ↦ ground arith
      | inr (mint, f) ↦ elim (Option-cases (truthy r.token_program)) [
        | inl n ↦ ground arith
        | inr (program, g) ↦ elim (Result-cases (derived_ata w a mint program)) [
          | inl (derived, d) ↦
              by_owner ata mint program s (truthy→eq _ _ e) (truthy→eq _ _ f) (truthy→eq _ _ g)
                (d ∙ ap ok ((text_eq_iff derived ata).0 (ground arith)))
          | inr (message, d) ↦ ground arith
        ]
      ]
    ]
  ]

  recipient_matches_address→IsFor :
      (r : Recipient) (a : Text) → recipient_matches_address w r a ≡ true → IsFor w r a
  unfolding recipient_matches_address
  recipient_matches_address→IsFor r a h = elim (Bool-cases (text_eq r.address a)) [
    | inl e ↦ by_address ((text_eq_iff r.address a).0 e)
    | inr other ↦ elim (Bool-cases (option_text_eq r.ata (some a))) [
      | inl e ↦ by_ata (option_text_eq→eq r.ata a e)
      | inr neither ↦ owner_matches→IsFor r a (ground arith) (ground arith)
    ]
  ]

  recipient_fits→Pays :
      (exp : ExpectedRecipient) (r : Recipient) → recipient_fits w exp r ≡ true → Pays w exp r
  unfolding recipient_fits
  recipient_fits→Pays exp r h = elim (Bool-cases (recipient_matches_address w r exp.address)) [
    | inr other ↦ cc (rw (other, recipient_fits) at h)
    | inl named ↦ elim (Option-cases (amount_of exp.amount)) [
      | inl n ↦ ground arith
      | inr (wanted, e) ↦ elim (Option-cases (amount_of r.amount)) [
        | inl n ↦ ground arith
        | inr (amount, d) ↦ record {
          named = recipient_matches_address→IsFor r exp.address named;
          amount = wanted;
          expected_amount = e;
          decoded_amount = d ∙ ap some ((==_iff amount wanted).0 (ground arith));
        }
      ]
    ]
  ]

  -- When no message is pushed, every expected recipient has taken a decoded one of its own.
  pub record AllTaken (exps : List ExpectedRecipient) (pool pool' : List PoolEntry) : Type 0 where
    pub taken : List Recipient
    pub paid : PayEach w exps taken
    pub split : Perm (unused pool) (taken ++ unused pool')

  pub match_expected-AllTaken :
      (exps : List ExpectedRecipient) (pool : List PoolEntry)
      → (match_expected w exps pool).0 ≡ []
      → AllTaken exps pool (match_expected w exps pool).1
  unfolding match_expected
  match_expected-AllTaken [] pool h = record {
    taken = [];
    paid = none_left;
    split = Perm.refl (unused pool);
  }
  match_expected-AllTaken (exp ∷ exps) pool h =
      elim (Option-cases (use_first (recipient_fits w exp) pool)) [
        | inl missing ↦ absurd (cc (rw (missing, match_expected) at h))
        | inr (pool', found) ↦
            let first = use_first-Taken (recipient_fits w exp) pool pool' found in
            let later = match_expected-AllTaken exps pool' (rw (found, match_expected) at h) in
            rw (found, match_expected)
              (record {
                taken = first.recipient ∷ later.taken;
                paid = one_more (recipient_fits→Pays exp first.recipient first.passes) later.paid;
                split = Perm.trans first.rest (Perm.cons first.recipient later.split);
              })
      ]

  pub leftover_messages-unused :
      (pool : List PoolEntry) → leftover_messages pool ≡ [] → unused pool ≡ []
  unfolding leftover_messages
  leftover_messages-unused [] h = refl
  leftover_messages-unused (entry ∷ pool) h =
      let (here, later) = append-eq-nil _ (leftover_messages pool) h in
      unused-used entry (unused pool) (push_if-eq-nil (not entry.used) _ here)
      ∙ leftover_messages-unused pool later
