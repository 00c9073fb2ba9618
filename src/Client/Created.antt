-- ===== src/Client/Created.antt =====
-- The proposal that `createTransactionFromMessage` names, by the form of the fetched index.
use solana_multisig.Prelude.{
  ok_injective, ℕ, ◌+◌, ◌*◌, ◌^◌, ◌<◌, ◌≡◌, sym, ap, ◌∙◌, [], ◌∷◌, ◌++◌, Option, ok,
}
use solana_multisig.Prelude.Strings.{lit, decimal}
use solana_multisig.Prelude.Strings.Decimal.{is_numeral-decimal_one, numeral-decimal_one}
use solana_multisig.Web3.{Web3}
use solana_multisig.Message.{TransactionMessage}
use solana_multisig.Proposal.{derive_transaction_pda}
use solana_multisig.Client.World.{
  returned, World, attempt, or_null, MultisigAccount, anchor_bn, js_string, on_return,
}
use solana_multisig.Client.Index.{index_text, js_plus_one, transaction_address}
use solana_multisig.Client.Builders.{Client, create_call, priority_instructions, or_else_key}
use solana_multisig.Client.Methods.{
  CreateTransactionResult, or_throw, get_multisig, create_signers, create_transaction_from_message,
}
use solana_multisig.Client.Idl.{IsAnchor}
use solana_multisig.Client.Canonical.{transaction_address-eq}

module _ {K W V : Type 0} (w : Web3 K) (chain : World K W V) (client : Client K) (multisig : K)
    (vault_index : ℕ) (message : TransactionMessage K) (creator : K) (payer : Option K) where
  -- What the call returns comes from the fetched index plus one.
  pub record FromIndex (account : MultisigAccount K) (result : CreateTransactionResult K)
      : Type 0 where
    pub index : js_plus_one account.transaction_index ≡ ok result.transaction_index
    pub address :
        transaction_address w chain client.program_id multisig (index_text result.transaction_index)
        ≡ ok result.transaction_address

  create_transaction_from_message-FromIndex :
      (world end : W) (account : MultisigAccount K) (result : CreateTransactionResult K)
      → (chain.fetch_multisig multisig world).0 ≡ ok account
      → create_transaction_from_message w chain client multisig vault_index message creator payer
          world
        ≡ (ok result, end)
      → FromIndex account result
  unfolding create_transaction_from_message get_multisig
  create_transaction_from_message-FromIndex world end account result f h =
      on_return (get_multisig w chain client multisig) _ world h λ answer e1 h1.
        on_return (attempt (or_throw (lit "Multisig not found") answer)) _ _ h1 λ fetched e2 h2.
          on_return (attempt (js_plus_one fetched.transaction_index)) _ _ h2 λ index e3 h3.
            on_return
              (attempt (transaction_address w chain client.program_id multisig (index_text index)))
              _ _ h3
              λ address e4 h4.
                on_return
                  (chain.rpc
                    (create_call w chain client multisig address vault_index message creator
                      (or_else_key payer creator))
                    (priority_instructions w chain client)
                    (create_signers w chain client creator (or_else_key payer creator)))
                  _ _ h4
                  λ signature e5 h5.
                    let same : record {
                      signature = signature;
                      transaction_address = address;
                      transaction_index = index;
                    }
                        ≡ result =
                      (returned h5).0 in
                    let fetched_is : fetched ≡ account = the_account (rw f at e1) e2 in
                    record {
                      index =
                          ap (λ (a : MultisigAccount K). js_plus_one a.transaction_index)
                            (sym fetched_is)
                          ∙ e3
                          ∙ ap (λ (r : CreateTransactionResult K). ok r.transaction_index) same;
                      address = rw (← same) e4;
                    }
    where
      the_account :
          {answer : Option (MultisigAccount K)} {fetched account : MultisigAccount K}
          → or_null (ok account) ≡ ok answer
          → or_throw (lit "Multisig not found") answer ≡ ok fetched
          → fetched ≡ account
      the_account {answer} e k = cc

  -- A fetched index that is a `BN` of n, as Anchor decodes it, does not: the sum with a bigint is the
  -- text of n with a 1 behind it, so the proposal is the one of index 10 n + 1.
  pub create_transaction_from_message-skips :
      (anchor : IsAnchor w chain) (world end : W) (account : MultisigAccount K)
      (result : CreateTransactionResult K) (n : ℕ)
      → (chain.fetch_multisig multisig world).0 ≡ ok account
      → account.transaction_index ≡ anchor_bn n
      → n * 10 + 1 < 2 ^ 64
      → create_transaction_from_message w chain client multisig vault_index message creator payer
          world
        ≡ (ok result, end)
      → (result.transaction_index ≡ js_string (decimal n ++ lit "1"))
        × (derive_transaction_pda w multisig (n * 10 + 1) client.program_id
            ≡ ok result.transaction_address)
  unfolding js_plus_one index_text lit
  create_transaction_from_message-skips anchor world end account result n f i h k =
      let from = create_transaction_from_message-FromIndex world end account result f k in
      let index : js_string (decimal n ++ (49 ∷ [])) ≡ result.transaction_index =
        ok_injective (rw i at from.index) in
      (
        sym index,
        sym (
              transaction_address-eq w chain anchor client.program_id multisig
                (decimal n ++ (49 ∷ [])) (n * 10 + 1) (is_numeral-decimal_one n)
                (numeral-decimal_one n) h)
            ∙ (rw (← index) at from.address),
      )
