-- ===== src/Tests/Sends.antt =====
-- The send of `Client.Sent` in the small cluster: the payment, created by 20 and approved by 20 and 21.
use solana_multisig.Prelude.{
  ℕ, suc, ◌≤◌, ◌≡◌, refl, true, false, List, [], ◌∷◌, ◌++◌, none, some, ok, arith, length,
}
use solana_multisig.Prelude.Strings.{lit, text_eq, decimal, numeral}
use solana_multisig.Web3.{Web3, IsWeb3, AccountMeta, TransactionInstruction}
use solana_multisig.Bytes.{bytes_equal, byte_at, read_u32_le, read_u64_le}
use solana_multisig.Bytes.LittleEndian.{le_bytes}
use solana_multisig.Message.Layout.{encode_message, inner_of}
use solana_multisig.Numbers.{pos, ℤ_text}
use solana_multisig.Classify.{
  InnerClassification, native_recipient, classify_inner_message, classify_loop, classify_step,
  classify_try, classify_native,
}
use solana_multisig.Decode.{decode_vault_solana_transaction}
use solana_multisig.Proposal.{derive_transaction_pda}
use solana_multisig.Client.World.{World, anchor_bn}
use solana_multisig.Client.Index.{to_big_int, predict_next_transaction_pda}
use solana_multisig.Client.Builders.{
  new_client, CreateOpts, onchain_message, build_create_transaction_instruction,
  build_approve_transaction_instruction, build_execute_transaction_instruction,
}
use solana_multisig.Client.Idl.{idl_accounts, idl_arguments, idl_discriminator, idl_metas}
use solana_multisig.Client.Decoded.{IsOrdinary}
use solana_multisig.Client.Built.{sent_report}
use solana_multisig.Client.Sent.{send_instructions, decode_vault_solana_transaction-sent}
use solana_multisig.Tests.World.{
  toy, toy-IsWeb3, payment, payment_bytes, payment-IsEncodable, meta, instruction, zeros,
}
use solana_multisig.Tests.Chain.{chain_at, chain_at-IsAnchor}

abbrev signer : ℕ → AccountMeta ℕ
signer k = record { pubkey = k; is_signer = true; is_writable = false }

abbrev writable : ℕ → AccountMeta ℕ
writable k = record { pubkey = k; is_signer = false; is_writable = true }

abbrev payer : ℕ → AccountMeta ℕ
payer k = record { pubkey = k; is_signer = true; is_writable = true }

abbrev approval : ℕ → TransactionInstruction ℕ
approval member =
    instruction 100 (meta 9 ∷ writable 182 ∷ signer member ∷ [])
      (224 ∷ 39 ∷ 88 ∷ 181 ∷ 36 ∷ 59 ∷ 155 ∷ 122 ∷ 7 ∷ zeros 7)

abbrev send : List (TransactionInstruction ℕ)
send =
    instruction 100 (writable 9 ∷ writable 182 ∷ signer 20 ∷ payer 40 ∷ meta 1 ∷ [])
      ((227 ∷ 193 ∷ 53 ∷ 239 ∷ 55 ∷ 126 ∷ 112 ∷ 105 ∷ 0 ∷ []) ++ payment_bytes)
    ∷ approval 20
    ∷ approval 21
    ∷ instruction 100 (meta 9 ∷ writable 182 ∷ signer 21 ∷ writable 53 ∷ writable 60 ∷ meta 1 ∷ [])
        (231 ∷ 173 ∷ 49 ∷ 91 ∷ 235 ∷ 24 ∷ 68 ∷ 19 ∷ 7 ∷ zeros 7)
    ∷ []

-- The instructions as `Transaction.from` reads them, with the flags of the whole message.
abbrev received : List (TransactionInstruction ℕ)
received =
    instruction 100 (writable 9 ∷ writable 182 ∷ signer 20 ∷ payer 40 ∷ meta 1 ∷ [])
      ((227 ∷ 193 ∷ 53 ∷ 239 ∷ 55 ∷ 126 ∷ 112 ∷ 105 ∷ 0 ∷ []) ++ payment_bytes)
    ∷ instruction 100 (writable 9 ∷ writable 182 ∷ signer 20 ∷ [])
        (224 ∷ 39 ∷ 88 ∷ 181 ∷ 36 ∷ 59 ∷ 155 ∷ 122 ∷ 7 ∷ zeros 7)
    ∷ instruction 100 (writable 9 ∷ writable 182 ∷ signer 21 ∷ [])
        (224 ∷ 39 ∷ 88 ∷ 181 ∷ 36 ∷ 59 ∷ 155 ∷ 122 ∷ 7 ∷ zeros 7)
    ∷ instruction 100
        (writable 9 ∷ writable 182 ∷ signer 21 ∷ writable 53 ∷ writable 60 ∷ meta 1 ∷ [])
        (231 ∷ 173 ∷ 49 ∷ 91 ∷ 235 ∷ 24 ∷ 68 ∷ 19 ∷ 7 ∷ zeros 7)
    ∷ []

abbrev sending : Web3 ℕ
sending = record toy {
  transaction_from = λ raw. ok (record { fee_payer = some 40; instructions = received });
}

sending-IsWeb3 : IsWeb3 sending
sending-IsWeb3 = record {
  equals_iff = toy-IsWeb3.equals_iff;
  of_bytes-to_bytes = λ a. refl;
  length-to_bytes = λ a. refl;
  of_base58-to_base58 = λ a. refl;
  to_base58-ne-nil = λ a e. cc;
}

sending-IsOrdinary : IsOrdinary sending 100
sending-IsOrdinary = record {
  not_system = λ e. omega arith;
  not_compute_budget = λ e. omega arith;
  not_ata = λ e. omega arith;
}

abbrev chain : World ℕ ℕ (List (TransactionInstruction ℕ))
chain = chain_at sending (anchor_bn 6)

abbrev opts : CreateOpts ℕ
opts = record {
  multisig_address = 9;
  current_transaction_index = anchor_bn 6;
  vault_index = 0;
  message = payment;
  creator = 20;
  payer = some 40;
}

abbrev paid : InnerClassification
paid = record {
  recipients = native_recipient (60 ∷ []) 5 ∷ [];
  fee_lamports = 0;
  unknown_inner_instruction_count = 0;
  memos = [];
}

abbrev time : ℕ
time = 0

index_six : to_big_int opts.current_transaction_index ≡ ok (pos 6)
unfolding to_big_int
index_six = refl

seven_derived : derive_transaction_pda sending 9 7 100 ≡ ok 182
unfolding derive_transaction_pda lit le_bytes
seven_derived = refl

short : suc (length (encode_message sending payment)) ≤ 2000
unfolding le_bytes
short = omega arith

classified : classify_inner_message sending (inner_of 0 payment) (some (40 ∷ [])) false ≡ ok paid
unfolding classify_inner_message classify_loop classify_step classify_try classify_native text_eq
    lit read_u32_le read_u64_le byte_at bytes_equal
classified = refl

send_run :
    send_instructions sending chain
      (new_client sending 100 none)
      opts
      20
      21
      (writable 53 ∷ writable 60 ∷ meta 1 ∷ [])
      0
    ≡ (ok send, 0)
unfolding build_create_transaction_instruction predict_next_transaction_pda
    build_approve_transaction_instruction build_execute_transaction_instruction new_client
    onchain_message idl_metas idl_accounts idl_arguments idl_discriminator text_eq lit numeral
    decimal ℤ_text le_bytes
send_run = refl

sent_example :
    (time ≡ time)
    × (decode_vault_solana_transaction sending (1 ∷ []) 100 (record {
      expected_recipient_owner = none;
      expected_mint = none;
      allow_compute_budget = none;
      allow_memo = false;
    })
        ≡ sent_report sending opts 182 20 21 53 40 paid)
sent_example =
    decode_vault_solana_transaction-sent sending sending-IsWeb3 chain
      (chain_at-IsAnchor sending (anchor_bn 6)) 100 none opts 6 182 20 21
      (writable 53 ∷ writable 60 ∷ meta 1 ∷ []) time time (1 ∷ []) 40 53 (60 ∷ 1 ∷ []) false paid
      send received sending-IsOrdinary index_six (omega arith) seven_derived (omega arith)
      payment-IsEncodable short refl classified refl send_run refl refl
