-- ===== src/Proposal/Stored.antt =====
-- The layout of the program's `VaultTransaction` account (programs/solana-multisig/src/lib.rs), written
-- out as an encoder, and `decodeVaultTransactionAccount` of sdk/src/decoder.ts on what it writes.
use solana_multisig.Prelude.{
  ℕ, ◌^◌, ◌<◌, ◌≡◌, refl, Bool, not, throw_if, append-nil, List, [], ◌∷◌, ◌++◌, map, Option, none,
  some, Text, Result, ok, length, All-always, if◌then◌else◌,
}
use solana_multisig.Prelude.Strings.{decimal}
use solana_multisig.Web3.{Bytes, Web3, IsWeb3}
use solana_multisig.Bytes.{bytes_equal}
use solana_multisig.Bytes.LittleEndian.{le_bytes, bytes_equal_iff}
use solana_multisig.Reader.{lift, pubkey}
use solana_multisig.Reader.Reads.{
  Reads, Reads-bind, Reads-return, Reads-u8, Reads-u32, Reads-u64, Reads-bool, Reads-bytes,
  Reads-pubkey, Reads-repeat, encode_all,
}
use solana_multisig.Message.{TransactionMessage}
use solana_multisig.Message.Layout.{encode_message, Fits, inner_of, Reads-parse_transaction_message}
use solana_multisig.Classify.{InnerClassification, classify_inner_message}
use solana_multisig.Proposal.{
  StoredProposal, DecodedProposal, proposal, vault_transaction_account_discriminator,
  derive_vault_pda, derive_transaction_pda, stored_proposal_reader,
  decode_vault_transaction_account,
}

-- The fields of the account.
pub record VaultTransaction (K : Type 0) : Type 0 where
  pub multisig : K
  pub transaction_index : ℕ
  pub creator : K
  pub payer : K
  pub bump : ℕ
  pub vault_index : ℕ
  pub vault_bump : ℕ
  pub executed : Bool
  pub approvals : List K
  pub message : TransactionMessage K

-- An index, a number of approvals and lengths that fit their types.
pub record FitsAccount {K : Type 0} (a : VaultTransaction K) : Type 0 where
  pub index : a.transaction_index < 2 ^ 64
  pub approvals : length a.approvals < 2 ^ 32
  pub message : Fits a.message

-- What the decoder keeps of an account.
abbrev pub stored_of : {K : Type 0} → VaultTransaction K → StoredProposal K
stored_of a = record {
  multisig = a.multisig;
  transaction_index = a.transaction_index;
  creator = a.creator;
  payer = a.payer;
  vault_index = a.vault_index;
  executed = a.executed;
  approvals = a.approvals;
  inner = inner_of a.vault_index a.message;
}

-- Nothing is read of a step that throws nothing.
Reads-lift {ℓ} : {A : Type ℓ} (r : Result A) (a : A) → r ≡ ok a → Reads (lift r) [] a
Reads-lift r a e = record { run = λ before after. rw (e, append-nil) refl }

-- The discriminator is found equal.
Reads-discriminator :
    (message : Text)
    → Reads
        (lift (
          throw_if
            (not (
              bytes_equal vault_transaction_account_discriminator
                vault_transaction_account_discriminator))
            message))
        []
        tt
Reads-discriminator message = Reads-lift _ tt (
    rw
      ((bytes_equal_iff vault_transaction_account_discriminator
          vault_transaction_account_discriminator).1
        refl)
      refl)

module _ {K : Type 0} (w : Web3 K) where
  abbrev pub encode_account : VaultTransaction K → Bytes
  encode_account a =
      vault_transaction_account_discriminator
      ++ ([]
          ++ (w.to_bytes a.multisig
              ++ (le_bytes 8 a.transaction_index
                  ++ (w.to_bytes a.creator
                      ++ (w.to_bytes a.payer
                          ++ ((a.bump ∷ [])
                              ++ ((a.vault_index ∷ [])
                                  ++ ((a.vault_bump ∷ [])
                                      ++ (((if a.executed then 1 else 0) ∷ [])
                                          ++ (le_bytes 4 (length a.approvals)
                                              ++ (encode_all w.to_bytes a.approvals
                                                  ++ (encode_message w a.message ++ []))))))))))))

  -- The report on an account at an address.
  abbrev pub report_of :
      VaultTransaction K → K → K → K → InnerClassification → Option Text → DecodedProposal
  report_of a address vault sender c fee_payer = proposal (record {
    transaction_pda = w.to_base58 address;
    multisig_pda = w.to_base58 a.multisig;
    transaction_index = decimal a.transaction_index;
    creator = w.to_base58 a.creator;
    payer = w.to_base58 a.payer;
    vault_index = a.vault_index;
    vault_pda = w.to_base58 vault;
    executed = a.executed;
    approvals = map w.to_base58 a.approvals;
    sender = w.to_base58 sender;
    recipients = c.recipients;
    fee_lamports = decimal c.fee_lamports;
    fee_payer = fee_payer;
    unknown_inner_instruction_count = c.unknown_inner_instruction_count;
    memos = c.memos;
  })

module _ {K : Type 0} (w : Web3 K) (laws : IsWeb3 w) where
  Reads-stored_proposal_reader :
      (a : VaultTransaction K)
      → FitsAccount a
      → Reads (stored_proposal_reader w) (encode_account w a) (stored_of a)
  unfolding stored_proposal_reader
  Reads-stored_proposal_reader a fits =
      Reads-bind _ (Reads-bytes vault_transaction_account_discriminator 8 refl) (
        Reads-bind _ (Reads-discriminator _) (
          Reads-bind _ (Reads-pubkey w laws a.multisig) (
            Reads-bind _ (Reads-u64 a.transaction_index fits.index) (
              Reads-bind _ (Reads-pubkey w laws a.creator) (
                Reads-bind _ (Reads-pubkey w laws a.payer) (
                  Reads-bind _ (Reads-u8 a.bump) (
                    Reads-bind _ (Reads-u8 a.vault_index) (
                      Reads-bind _ (Reads-u8 a.vault_bump) (
                        Reads-bind _ (Reads-bool a.executed) (
                          Reads-bind _ (Reads-u32 (length a.approvals) fits.approvals) (
                            Reads-bind _
                              (Reads-repeat (pubkey w) w.to_bytes a.approvals
                                (All-always (λ k. Reads-pubkey w laws k) a.approvals))
                              (Reads-bind _
                                (Reads-parse_transaction_message w laws a.vault_index a.message
                                  fits.message)
                                (Reads-return (stored_of a))))))))))))))

  -- `decodeVaultTransactionAccount` reads back every field of an account that the program has stored
  -- at its canonical address, whatever follows it, when no fee payer and no recipient owner is asked
  -- for: it reports the account, with the vault of its index, the payer as the fee payer, the first
  -- key of its message as the sender, and of the message what the classifier makes of it. The index,
  -- the number of approvals and the message fit their types, the message has a first key, and the
  -- classifier takes it.
  pub decode_vault_transaction_account-encode :
      (a : VaultTransaction K) (rest : Bytes) (address vault sender program_id : K) (keys : List K)
      (memo : Bool) (c : InnerClassification)
      → FitsAccount a
      → derive_transaction_pda w a.multisig a.transaction_index program_id ≡ ok address
      → derive_vault_pda w a.multisig a.vault_index program_id ≡ ok vault
      → a.message.account_keys ≡ sender ∷ keys
      → classify_inner_message w
          (inner_of a.vault_index a.message)
          (some (w.to_base58 a.payer))
          memo
        ≡ ok c
      → decode_vault_transaction_account w (encode_account w a ++ rest) address program_id (record {
        fee_payer = none;
        allow_memo = memo;
        expected_recipient_owner = none;
        expected_mint = none;
        commitment = none;
      })
        ≡ report_of w a address vault sender c (some (w.to_base58 a.payer))
  unfolding decode_vault_transaction_account
  decode_vault_transaction_account-encode a rest address vault sender program_id keys memo c fits
        derived vaulted first classified =
      rw
        (
          (Reads-stored_proposal_reader a fits).run [] rest,
          derived,
          (laws.equals_iff address address).1 refl,
          classified,
          vaulted,
          first,
        )
        refl
