-- ===== src/Client/Index.antt =====
-- Transaction indexes at run time: `predictNextTransactionPda`, and the sum in
-- `createTransactionFromMessage` (sdk/src/client.ts).
use solana_multisig.Prelude.{if◌then◌else◌, zero, suc, [], ◌∷◌, ◌++◌, Text, Result, ok, err, ◌>>=◌}
use solana_multisig.Prelude.Strings.{lit, decimal, is_numeral, numeral}
use solana_multisig.Web3.{Web3}
use solana_multisig.Numbers.{ℤ, pos, negsuc, integer, other, ℤ_text, number_text}
use solana_multisig.Client.World.{World, JsIndex, big_int, js_number, anchor_bn, js_string}

-- `value.toString()`.
unfoldable pub index_text : JsIndex → Text
index_text (big_int z) = ℤ_text z
index_text (js_number x) = number_text x
index_text (anchor_bn n) = decimal n
index_text (js_string t) = t

-- `BigInt(currentTransactionIndex.toString())`: the text of an integral value is read back, that of
-- another number is refused. Of strings only decimal digits are taken, as a sum of indexes has them.
unfoldable pub to_big_int : JsIndex → Result ℤ
to_big_int (big_int z) = ok z
to_big_int (js_number (integer z)) = ok z
to_big_int (js_number (other t)) = err (lit "Cannot convert " ++ (t ++ lit " to a BigInt"))
to_big_int (anchor_bn n) = ok (pos n)
to_big_int (js_string t) =
    if is_numeral t
    then ok (pos (numeral t))
    else err (lit "Cannot convert " ++ (t ++ lit " to a BigInt"))

-- `z + BigInt(1)` on a bigint.
abbrev pub suc_ℤ : ℤ → ℤ
suc_ℤ (pos n) = pos (suc n)
suc_ℤ (negsuc zero) = pos 0
suc_ℤ (negsuc (suc n)) = negsuc n

-- `value + BigInt(1)` on any of the values: a BN turns into its text, and the sum is a string.
unfoldable pub js_plus_one : JsIndex → Result JsIndex
js_plus_one (big_int z) = ok (big_int (suc_ℤ z))
js_plus_one (js_number x) = err (lit "Cannot mix BigInt and other types, use explicit conversions")
js_plus_one (anchor_bn n) = ok (js_string (decimal n ++ lit "1"))
js_plus_one (js_string t) = ok (js_string (t ++ lit "1"))

module _ {K W V : Type 0} (w : Web3 K) (chain : World K W V) (program_id : K) where
  -- The address with the seeds "transaction", the multisig and the index in eight bytes.
  unfoldable pub transaction_address : K → Text → Result K
  transaction_address multisig index = chain.bn_le_8 index >>= λ bytes.
      w.find_program_address (lit "transaction" ∷ w.to_bytes multisig ∷ bytes ∷ []) program_id
      >>= λ found. ok found.0

  -- `predictNextTransactionPda`: the address and the index.
  unfoldable pub predict_next_transaction_pda : K → JsIndex → Result (K × ℤ)
  unfolding transaction_address to_big_int
  predict_next_transaction_pda multisig current = to_big_int current >>= λ current_big.
      transaction_address multisig (ℤ_text (suc_ℤ current_big)) >>= λ address.
      ok (address, suc_ℤ current_big)
