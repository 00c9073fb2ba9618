-- ===== src/Tests/Chain.antt =====
-- A small cluster for the tests: the world is a clock in milliseconds, with a slot in each.
use solana_multisig.Prelude.{
  ℕ, suc, ◌+◌, ◌≡◌, refl, List, [], ◌∷◌, ◌++◌, none, some, Text, Result, ok, err, if◌then◌else◌,
  ◌==◌, arith,
}
use solana_multisig.Prelude.Strings.{lit, numeral}
use solana_multisig.Web3.{Bytes, Web3, AccountMeta, TransactionInstruction}
use solana_multisig.Bytes.LittleEndian.{le_bytes}
use solana_multisig.Client.World.{World, Action, return, JsIndex, big_int, Call}
use solana_multisig.Client.Builders.{Client}
use solana_multisig.Numbers.{pos}
use solana_multisig.Client.Idl.{IsAnchor, idl_accounts, idl_arguments, idl_discriminator, idl_metas}
use solana_multisig.Client.Waits.{IsClocked}
use solana_multisig.Tests.World.{toy, meta, instruction}

-- A call that is done in a millisecond.
abbrev pub tick : {A : Type 0} → A → Action ℕ A
tick value world = (ok value, suc world)

abbrev pub toy_instruction : (w : Web3 ℕ) → Call ℕ → Action ℕ (TransactionInstruction ℕ)
toy_instruction w call world = elim (w.of_base58 call.address) [
  | err message ↦ (err message, world)
  | ok program ↦ elim (idl_metas (idl_accounts call.method) call.accounts) [
    | none ↦ (err (lit "account not provided"), world)
    | some metas ↦ (
      ok (record {
        program_id = program;
        keys = metas ++ call.remaining;
        payload = idl_discriminator call.method ++ idl_arguments w call.method;
      }),
      world,
    )
  ]
]

abbrev pub toy_nonce : Bytes → Result (ℕ × Text)
toy_nonce [] = err (lit "invalid account data")
toy_nonce (authority ∷ nonce) = ok (authority, nonce)

-- The multisig 9 of the members 20 and 21 has the given index; the table 70 holds the members and the
-- system program; the account 28 is the nonce account of the multisig, with the authority 40.
abbrev pub chain_at : Web3 ℕ → JsIndex → World ℕ ℕ (List (TransactionInstruction ℕ))
chain_at w index = record {
  get_slot = λ level time. (ok time, time);
  get_address_lookup_table =
      λ table time. (ok (if table == 70 then some (20 ∷ 21 ∷ 1 ∷ []) else none), time);
  get_latest_blockhash = return (lit "hash");
  get_account_info =
      λ account time. (ok (if account == 28 then some (40 ∷ 5 ∷ []) else none), time);
  get_nonce_and_context = λ account. return (some (5 ∷ []));
  send_transaction = λ tx. tick (lit "sent");
  confirm_transaction = λ signature level. tick tt;
  send_and_confirm_transaction = λ instructions signers level. tick (lit "sent");
  set_timeout = λ ms time. (ok tt, time + ms);
  now = λ time. (ok time, time);
  transfer = λ from to lamports. instruction 1 (meta from ∷ meta to ∷ []) (lamports ∷ []);
  set_compute_unit_price = λ price. instruction 5 [] (3 ∷ price ∷ []);
  create_lookup_table = λ authority payer slot. (instruction 7 (meta payer ∷ []) (0 ∷ []), 70);
  extend_lookup_table = λ payer authority table addresses. instruction 7 (meta table ∷ []) (2 ∷ []);
  compile_v0 = λ payer blockhash instructions table. ok instructions;
  sign = λ tx signers. ok tx;
  nonce_from_account_data = toy_nonce;
  sysvar_recent_blockhashes = 8;
  sysvar_rent = 10;
  bn_le_8 = λ t. ok (le_bytes 8 (numeral t));
  instruction = toy_instruction w;
  rpc = λ call before signers. tick (lit "sent");
  fetch_multisig = λ address.
      return
        (record { members = 20 ∷ 21 ∷ []; threshold = 2; transaction_index = index; bump = 255 });
  fetch_vault_transaction = λ address time. (err (lit "Account does not exist"), time);
}

toy_instruction-eq :
    (w : Web3 ℕ) (call : Call ℕ) (program : ℕ) (metas : List (AccountMeta ℕ)) (world : ℕ)
    → w.of_base58 call.address ≡ ok program
    → idl_metas (idl_accounts call.method) call.accounts ≡ some metas
    → toy_instruction w call world ≡ (
      ok (record {
        program_id = program;
        keys = metas ++ call.remaining;
        payload = idl_discriminator call.method ++ idl_arguments w call.method;
      }),
      world,
    )
toy_instruction-eq w call program metas world known named = rw (toy_instruction, known, named) refl

pub chain_at-IsAnchor : (w : Web3 ℕ) (index : JsIndex) → IsAnchor w (chain_at w index)
chain_at-IsAnchor w index = record {
  builds = λ call program metas known named fits short world.
      toy_instruction-eq w call program metas world known named;
  bn_bytes = λ t h. refl;
}

pub chain_at-IsClocked :
    (w : Web3 ℕ) (index : JsIndex) → IsClocked (chain_at w index) (λ time. time) (λ time. time) 1
chain_at-IsClocked w index = record {
  now_reads = λ world. refl;
  now_on = λ world. omega arith;
  slot_reads = λ world slot e. cc;
  slot_on = λ world. omega arith;
  table_on = λ table world. omega arith;
  timeout_on = λ ms world. omega arith;
  in_order = λ s t h. h;
  produces = λ t. omega arith;
}

abbrev pub chain : World ℕ ℕ (List (TransactionInstruction ℕ))
chain = chain_at toy (big_int (pos 6))

abbrev pub client : Client ℕ
client = record { program_id = 100; address = 100 ∷ []; priority_fee_micro_lamports = pos 3 }
