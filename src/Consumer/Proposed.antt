-- ===== src/Consumer/Proposed.antt =====
-- What the create, the approvals, the executes and the inner message of a bundle without mismatches
-- are.
use solana_multisig.Prelude.{
  ok_injective, ◌≤◌, ◌≡◌, refl, ap, subst, Bool, true, false, List, [], ◌∷◌, ◌++◌, map, Option,
  none, some, Text, ok, All, length, append-eq-nil, push_if-eq-nil, push_unless-eq-nil,
  for_each-eq-nil, for_each, ==_iff,
}
use solana_multisig.Prelude.Strings.{includes, lit}
use solana_multisig.Web3.{Web3}
use solana_multisig.Message.{InnerMessage}
use solana_multisig.Classify.{Recipient, spl}
use solana_multisig.Bundle.{ParsedMultisigIx, ParsedCreate}
use solana_multisig.Decode.{three_keys, first_key}
use solana_multisig.Compare.Accepts.{text_eq_of_push}
use solana_multisig.Consumer.Gate.{Passes, bind-Passes, push-Passes, push, attempt}
use solana_multisig.Consumer.Outer.{
  ConsumerParams, Setup, Created, only_create, four_keys, named_messages,
}
use solana_multisig.Consumer.Funds.{destination_message, is_verified}
use solana_multisig.Consumer.Checks.{
  check_create, approve_messages, approve_loop, execute_messages, check_inner, index_messages,
  debit_messages,
}
use solana_multisig.Consumer.Allowed.{NamesBoth, named_messages-NamesBoth, at_most_one}

module _ {K : Type 0} (w : Web3 K) (s : Setup K) where
  -- The approvals, from those seen before to those seen at the end: each names the multisig and the
  -- created proposal, and its approver is a member who has not approved before.
  pub data Approves (target : Text)
      : List Text → List (ParsedMultisigIx K) → List Text → Type 0 where
    none_left : {seen : List Text} → Approves target seen [] seen
    one_more :
        {seen out : List Text} {a : ParsedMultisigIx K} {rest : List (ParsedMultisigIx K)}
        (multisig proposal approver : K)
        → three_keys w a.keys (lit "approve_transaction instruction has too few accounts")
          ≡ ok (multisig, proposal, approver)
        → w.to_base58 multisig ≡ s.multisig_pda
        → w.to_base58 proposal ≡ target
        → includes s.members (w.to_base58 approver) ≡ true
        → includes seen (w.to_base58 approver) ≡ false
        → Approves target (seen ++ (w.to_base58 approver ∷ [])) rest out
        → Approves target seen (a ∷ rest) out

  pub approve_loop-Approves :
      (target : Text) (seen : List Text) (approves : List (ParsedMultisigIx K)) (out : List Text)
      → Passes (approve_loop w s target seen approves) out
      → Approves target seen approves out
  unfolding approve_loop approve_messages
  approve_loop-Approves target seen [] out (h, k) =
      let e : seen ≡ out = cc in subst (λ x. Approves target seen [] x) e none_left
  approve_loop-Approves target seen (a ∷ rest) out p =
      bind-Passes
        (attempt (three_keys w a.keys (lit "approve_transaction instruction has too few accounts")))
        _ p
        λ keys q0 e p1.
          bind-Passes
            (push (
              approve_messages w s target seen (w.to_base58 keys.0) (w.to_base58 keys.1)
                (w.to_base58 keys.2)))
            _ p1
            λ u q e2 p2.
              let m = append-eq-nil _ _ q in
              let t = append-eq-nil _ _ m.1 in
              let c = append-eq-nil _ _ t.1 in
              one_more keys.0 keys.1 keys.2 e (text_eq_of_push _ _ _ m.0)
                (text_eq_of_push _ _ _ t.0) (push_unless-eq-nil _ _ c.0) (push_if-eq-nil _ _ c.1)
                (approve_loop-Approves target (seen ++ (w.to_base58 keys.2 ∷ [])) rest out p2)

  -- The only create of an accepted bundle.
  pub record IsOnlyCreate (created : Created K) : Type 0 where
    pub only : s.bundle.creates ≡ created.create ∷ []
    pub multisig : K
    pub proposal : K
    pub creator : K
    pub accounts : four_keys created.create.keys ≡ ok (multisig, proposal, creator)
    pub multisig_bound : w.to_base58 multisig ≡ s.multisig_pda
    pub target : w.to_base58 proposal ≡ created.transaction_pda
    pub creator_member : includes s.members (w.to_base58 creator) ≡ true

  pub only_create-eq :
      (creates : List (ParsedCreate K)) (c : ParsedCreate K)
      → only_create creates ≡ ok c
      → creates ≡ c ∷ []
  unfolding only_create
  only_create-eq [] c h = cc
  only_create-eq (a ∷ []) c h = cc
  only_create-eq (a ∷ b ∷ rest) c h = cc

  pub check_create-IsOnlyCreate :
      (created : Created K) → Passes (check_create w s) created → IsOnlyCreate created
  unfolding check_create
  check_create-IsOnlyCreate created p =
      bind-Passes (attempt (only_create s.bundle.creates)) _ p λ create q0 e p1.
        bind-Passes (attempt (four_keys create.keys)) _ p1 λ keys q1 f p2.
          let a = append-eq-nil _ _ p2.0 in
          let b = append-eq-nil _ _ a.1 in
          let same = ok_injective p2.1 in
          subst IsOnlyCreate same (record {
            only = only_create-eq s.bundle.creates create e;
            multisig = keys.0;
            proposal = keys.1;
            creator = keys.2;
            accounts = f;
            multisig_bound = text_eq_of_push _ _ _ a.0;
            target = refl;
            creator_member = push_unless-eq-nil _ _ b.0;
          })

  pub record IsSettled (target : Text) (seen : List Text) : Type 0 where
    pub signer_approved : includes seen s.signer ≡ true
    pub one_execute : length s.bundle.executes ≤ 1
    pub one_close : length s.bundle.closes ≤ 1
    pub executes_created :
        All
          (λ (ix : ParsedMultisigIx K). NamesBoth s.multisig_pda target (map w.to_base58 ix.keys))
          s.bundle.executes
    pub closes_created :
        All
          (λ (ix : ParsedMultisigIx K). NamesBoth s.multisig_pda target (map w.to_base58 ix.keys))
          s.bundle.closes

  pub execute_messages-IsSettled :
      (target : Text) (seen : List Text)
      → execute_messages w s target seen ≡ []
      → IsSettled target seen
  unfolding execute_messages
  execute_messages-IsSettled target seen h =
      let a = append-eq-nil _ _ h in
      let b = append-eq-nil _ _ a.1 in
      let c = append-eq-nil _ _ b.1 in
      let d =
        append-eq-nil
          (for_each
            (λ (ix : ParsedMultisigIx K).
              named_messages (lit "execute_transaction") s.multisig_pda target
                (map w.to_base58 ix.keys))
            s.bundle.executes)
          _ c.1 in
      record {
        signer_approved = push_unless-eq-nil _ _ a.0;
        one_execute = at_most_one _ (push_if-eq-nil _ _ b.0);
        one_close = at_most_one _ (push_if-eq-nil _ _ c.0);
        executes_created =
            for_each-eq-nil _ _ (λ ix. named_messages-NamesBoth _ _ _ (map w.to_base58 ix.keys))
              s.bundle.executes d.0;
        closes_created =
            for_each-eq-nil _ _ (λ ix. named_messages-NamesBoth _ _ _ (map w.to_base58 ix.keys))
              s.bundle.closes d.1;
      }

  -- The proposal debits the vault of the multisig.
  pub record DebitsVault (inner : InnerMessage K) : Type 0 where
    pub index_bound : inner.vault_index ≡ s.vault_index
    pub vault : K
    pub first :
        first_key w inner.account_keys (lit "create_transaction inner message has no account keys")
        ≡ ok vault
    pub vault_bound : w.to_base58 vault ≡ s.vault_pda

  pub index_messages-eq :
      (inner : InnerMessage K) → index_messages w s inner ≡ [] → inner.vault_index ≡ s.vault_index
  unfolding index_messages
  index_messages-eq inner q = (==_iff inner.vault_index s.vault_index).0 (push_unless-eq-nil _ _ q)

  pub debit_messages-eq :
      (first : K) → debit_messages w s first ≡ [] → w.to_base58 first ≡ s.vault_pda
  unfolding debit_messages
  debit_messages-eq first q = text_eq_of_push _ _ _ q

  pub check_inner-DebitsVault :
      (inner : InnerMessage K) (u : Unit {0}) → Passes (check_inner w s inner) u → DebitsVault inner
  unfolding check_inner
  check_inner-DebitsVault inner u p = push-Passes (index_messages w s inner) _ p λ q p1.
      bind-Passes
        (attempt (
          first_key w inner.account_keys
            (lit "create_transaction inner message has no account keys")))
        (λ vault. push (debit_messages w s vault)) p1
        λ vault q1 f p2. record {
          index_bound = index_messages-eq inner q;
          vault = vault;
          first = f;
          vault_bound = debit_messages-eq vault p2.0;
        }

-- Every token destination was found to be the recipient's own token account.
abbrev pub IsVerifiedAta : Recipient → Type 0
IsVerifiedAta r = r.asset ≡ spl → r.ata_verified ≡ some true

pub destination_message-IsVerifiedAta :
    {K : Type 0} (w : Web3 K) (params : ConsumerParams) (r : Recipient)
    → destination_message w params r ≡ []
    → IsVerifiedAta r
unfolding destination_message
destination_message-IsVerifiedAta w params r h s =
    verified_true r.ata_verified (push_unless-eq-nil (is_verified w r.ata_verified) _ (rw s at h))
  where
    verified_true : (o : Option Bool) → is_verified w o ≡ true → o ≡ some true
    verified_true none e = cc
    verified_true (some b) e = ap some e
