-- ===== src/Members.antt =====
-- Members and addresses of sdk/src/utils.ts: `sortMembers`, `hashMembers`, `validateConfig` and the
-- derivation of the multisig, vault and nonce addresses.
pub mod Order
pub mod Valid
use solana_multisig.Prelude.{
  ℕ, zero, suc, ◌+◌, ◌%◌, Bool, true, false, ◌&&◌, ◌||◌, not, List, [], ◌∷◌, ◌++◌, Text, Result, ok,
  err, ◌>>=◌, ◌>>◌, throw_if, leb, ltb, ◌==◌, if◌then◌else◌, length,
}
use solana_multisig.Prelude.Strings.{lit, decimal, includes}
use solana_multisig.Web3.{Bytes, Web3}

-- Whether the comparator is not positive: the first byte that differs decides, and no difference
-- is 0. Both keys have 32 bytes.
unfoldable pub bytes_le : Bytes → Bytes → Bool
bytes_le [] b = true
bytes_le (x ∷ a) [] = false
bytes_le (x ∷ a) (y ∷ b) = if x == y then bytes_le a b else ltb x y

-- How often a set counts each text: once.
unfoldable pub distinct_count : List Text → ℕ
distinct_count [] = 0
distinct_count (t ∷ ts) = if includes ts t then distinct_count ts else suc (distinct_count ts)

module _ {K : Type 0} (w : Web3 K) where
  abbrev pub key_le : K → K → Bool
  key_le a b = bytes_le (w.to_bytes a) (w.to_bytes b)

  unfoldable pub insert_member : K → List K → List K
  insert_member a [] = a ∷ []
  insert_member a (b ∷ rest) = if key_le a b then a ∷ b ∷ rest else b ∷ insert_member a rest

  -- `[...members].sort(comparator)`, a stable sort of a copy.
  unfoldable pub sort_members : List K → List K
  unfolding insert_member
  sort_members [] = []
  sort_members (a ∷ rest) = insert_member a (sort_members rest)

  -- The bytes that `hasher.update` is given, one member after the other.
  unfoldable pub member_bytes : List K → Bytes
  member_bytes [] = []
  member_bytes (a ∷ rest) = w.to_bytes a ++ member_bytes rest

  unfoldable pub hash_members : List K → Bytes
  unfolding member_bytes
  hash_members members = w.sha256 (member_bytes members)

  unfoldable pub derive_multisig_address : List K → ℕ → K → Result (K × ℕ)
  unfolding sort_members hash_members
  derive_multisig_address members threshold program_id =
      let sorted_members = sort_members members in
      let member_hash = hash_members sorted_members in
      w.find_program_address (lit "multisig" ∷ member_hash ∷ (threshold % 256 ∷ []) ∷ []) program_id

  unfoldable pub derive_vault_address : K → ℕ → K → Result (K × ℕ)
  derive_vault_address multisig vault_index program_id =
      w.find_program_address (lit "vault" ∷ w.to_bytes multisig ∷ (vault_index % 256 ∷ []) ∷ [])
        program_id

  unfoldable pub derive_nonce_account : K → Result K
  derive_nonce_account multisig_pda =
      w.create_with_seed multisig_pda (lit "nonce") w.system_program_id

  unfoldable pub member_texts : List K → List Text
  member_texts [] = []
  member_texts (a ∷ rest) = w.to_base58 a ∷ member_texts rest

  unfoldable pub validate_config : List K → ℕ → Result (Unit {0})
  unfolding distinct_count member_texts
  validate_config members threshold = do
    throw_if (threshold == 0) (lit "Threshold must be greater than 0")
    throw_if (ltb (length members) threshold) (
        lit "Threshold ("
        ++ (decimal threshold
            ++ (lit ") cannot exceed number of members ("
                ++ (decimal (length members) ++ lit ")"))))
    throw_if (length members == 0) (lit "Members array cannot be empty")
    throw_if (not (distinct_count (member_texts members) == length members))
        (lit "Duplicate members detected")
