-- ===== src/Members/Order.antt =====
-- The order of keys by their bytes, and sorting: the result does not depend on the order given.
use solana_multisig.Prelude.{
  ℕ, suc, length, ◌≡◌, refl, sym, ap, ◌∙◌, inl, inr, true, false, List, [], ◌∷◌, arith, Bool-cases,
  All,
}
use mathlib.Core.List.{Permᴰ, Perm}
use mathlib.Core.List.Perm
use mathlib.Core.Path.{ap₂}
use solana_multisig.Web3.{Bytes, Web3, IsWeb3}
use solana_multisig.Members.{bytes_le, key_le, insert_member, sort_members, derive_multisig_address}

bytes_le_total : (a b : Bytes) → bytes_le a b ≡ false → bytes_le b a ≡ true
unfolding bytes_le
bytes_le_total [] b h = cc
bytes_le_total (x ∷ a) [] h = refl
bytes_le_total (x ∷ a) (y ∷ b) h = ground (arith, bytes_le_total a b)

bytes_le_trans : (a b c : Bytes) → bytes_le a b ≡ true → bytes_le b c ≡ true → bytes_le a c ≡ true
unfolding bytes_le
bytes_le_trans [] b c h k = refl
bytes_le_trans (x ∷ a) [] c h k = cc
bytes_le_trans (x ∷ a) (y ∷ b) [] h k = cc
bytes_le_trans (x ∷ a) (y ∷ b) (z ∷ c) h k = ground (arith, bytes_le_trans a b c)

bytes_le_antisymm : (a b : Bytes) → bytes_le a b ≡ true → bytes_le b a ≡ true → a ≡ b
unfolding bytes_le
bytes_le_antisymm [] [] h k = refl
bytes_le_antisymm [] (y ∷ b) h k = cc
bytes_le_antisymm (x ∷ a) [] h k = cc
bytes_le_antisymm (x ∷ a) (y ∷ b) h k = ground (arith, bytes_le_antisymm a b)

module _ {K : Type 0} (w : Web3 K) (laws : IsWeb3 w) where
  key_le_antisymm : (a b : K) → key_le w a b ≡ true → key_le w b a ≡ true → a ≡ b
  key_le_antisymm a b h k =
      let e : w.to_bytes a ≡ w.to_bytes b = bytes_le_antisymm (w.to_bytes a) (w.to_bytes b) h k in
      sym (laws.of_bytes-to_bytes a) ∙ ap w.of_bytes e ∙ laws.of_bytes-to_bytes b

  -- Two insertions may be exchanged.
  insert_member_comm :
      (a b : K) (l : List K)
      → insert_member w a (insert_member w b l) ≡ insert_member w b (insert_member w a l)
  unfolding insert_member
  insert_member_comm a b [] =
      ground (arith, bytes_le_total (w.to_bytes a) (w.to_bytes b), key_le_antisymm a b)
  insert_member_comm a b (c ∷ l) = ground (
    arith,
    insert_member_comm a b l,
    bytes_le_total (w.to_bytes a) (w.to_bytes b),
    bytes_le_total (w.to_bytes a) (w.to_bytes c),
    bytes_le_total (w.to_bytes b) (w.to_bytes c),
    key_le_antisymm a b,
    bytes_le_trans (w.to_bytes a) (w.to_bytes b) (w.to_bytes c),
    bytes_le_trans (w.to_bytes b) (w.to_bytes a) (w.to_bytes c),
  )

  sort_members-insert_member :
      (a : K) (l : List K)
      → sort_members w (insert_member w a l) ≡ insert_member w a (sort_members w l)
  unfolding sort_members insert_member
  sort_members-insert_member a [] = refl
  sort_members-insert_member a (b ∷ l) = elim (Bool-cases (key_le w a b)) [
    | inl le ↦ rw le refl
    | inr gt ↦ rw gt (
        ap (insert_member w b) (sort_members-insert_member a l)
        ∙ insert_member_comm b a (sort_members w l))
  ]

  -- Sorted keys stay as they are.
  pub sort_members_idempotent : (l : List K) → sort_members w (sort_members w l) ≡ sort_members w l
  unfolding sort_members
  sort_members_idempotent [] = refl
  sort_members_idempotent (a ∷ l) =
      sort_members-insert_member a (sort_members w l)
      ∙ ap (insert_member w a) (sort_members_idempotent l)

  pub derive_multisig_address-sort_members :
      (l : List K) (threshold : ℕ) (program_id : K)
      → derive_multisig_address w (sort_members w l) threshold program_id
        ≡ derive_multisig_address w l threshold program_id
  unfolding derive_multisig_address
  derive_multisig_address-sort_members l threshold program_id =
      rw (derive_multisig_address, sort_members_idempotent l)

  pub sort_members-perm_eq : {xs ys : List K} → Permᴰ xs ys → sort_members w xs ≡ sort_members w ys
  unfolding sort_members
  sort_members-perm_eq Permᴰ.nil = refl
  sort_members-perm_eq (Permᴰ.cons e p) = ap₂ (insert_member w) e (sort_members-perm_eq p)
  sort_members-perm_eq (Permᴰ.swap {a' = a'} {b' = b'} {l = l} e f) =
      ap₂ (λ x y. insert_member w x (insert_member w y (sort_members w l))) e f
      ∙ insert_member_comm b' a' (sort_members w l)
  sort_members-perm_eq (Permᴰ.trans p q) = sort_members-perm_eq p ∙ sort_members-perm_eq q

  -- The multisig address, or the error, is the same for the members in any order.
  pub derive_multisig_address-perm :
      {xs ys : List K} (threshold : ℕ) (program_id : K)
      → Permᴰ xs ys
      → derive_multisig_address w xs threshold program_id
        ≡ derive_multisig_address w ys threshold program_id
  unfolding derive_multisig_address
  derive_multisig_address-perm threshold program_id p =
      rw (derive_multisig_address, sort_members-perm_eq p)

  length-insert_member : (a : K) (l : List K) → length (insert_member w a l) ≡ suc (length l)
  unfolding insert_member
  length-insert_member a [] = refl
  length-insert_member a (b ∷ l) = ground (arith, length-insert_member a l)

  pub length-sort_members : (l : List K) → length (sort_members w l) ≡ length l
  unfolding sort_members
  length-sort_members [] = refl
  length-sort_members (a ∷ l) =
      length-insert_member a (sort_members w l) ∙ ap suc (length-sort_members l)

  -- Each key is at most the one behind it.
  abbrev pub IsSorted : List K → Type 0
  IsSorted [] = Unit
  IsSorted (a ∷ rest) = All (λ b. key_le w a b ≡ true) rest × IsSorted rest
