-- ===== src/Prelude/Lists.antt =====
-- Lists measured and cut by native numbers, predicates on all entries, and empty appends.
use Prim.Native.Nat.{ℕ, zero, suc, ◌+◌}
use mathlib.Core.Path.{◌≡◌, refl, ap}
use mathlib.Core.Bool.{Bool, false, ◌||◌}
use mathlib.Core.List.{List, [], ◌∷◌, ◌++◌}
use mathlib.Core.Option.{Option, none, some}
use native.Mathlib.Omega.{arith}
use solana_multisig.Prelude.Tests.{if◌then◌else◌}

module _ {ℓ} {A : Type ℓ} where
  abbrev pub length : List A → ℕ
  length [] = 0
  length (x ∷ xs) = suc (length xs)

  abbrev pub get_elem? : List A → ℕ → Option A
  get_elem? [] i = none
  get_elem? (x ∷ xs) zero = some x
  get_elem? (x ∷ xs) (suc i) = get_elem? xs i

  abbrev pub take : ℕ → List A → List A
  take zero xs = []
  take (suc n) [] = []
  take (suc n) (x ∷ xs) = x ∷ take n xs

  abbrev pub drop : ℕ → List A → List A
  drop zero xs = xs
  drop (suc n) [] = []
  drop (suc n) (x ∷ xs) = drop n xs

  pub length-append : (xs ys : List A) → length (xs ++ ys) ≡ length xs + length ys
  length-append [] ys = omega arith
  length-append (x ∷ xs) ys = omega (arith, length-append xs ys)

  pub drop-append : (xs ys : List A) → drop (length xs) (xs ++ ys) ≡ ys
  drop-append [] ys = refl
  drop-append (x ∷ xs) ys = drop-append xs ys

  pub take-append : (xs ys : List A) → take (length xs) (xs ++ ys) ≡ xs
  take-append [] ys = refl
  take-append (x ∷ xs) ys = ap (λ zs. x ∷ zs) (take-append xs ys)

  pub take-all : (xs : List A) (n : ℕ) → length xs ≡ n → take n xs ≡ xs
  take-all [] zero h = refl
  take-all [] (suc n) h = refl
  take-all (x ∷ xs) zero h = cc
  take-all (x ∷ xs) (suc n) h = ap (λ zs. x ∷ zs) (take-all xs n (omega (arith, h)))

  pub take-drop : (n : ℕ) (xs : List A) → xs ≡ take n xs ++ drop n xs
  take-drop zero xs = refl
  take-drop (suc n) [] = refl
  take-drop (suc n) (x ∷ xs) = ap (λ zs. x ∷ zs) (take-drop n xs)

  -- The first entry that passes the test (`Array.prototype.find`).
  abbrev pub find : (A → Bool) → List A → Option A
  find p [] = none
  find p (x ∷ xs) = if p x then some x else find p xs

  -- `Array.prototype.some`.
  abbrev pub any : (A → Bool) → List A → Bool
  any p [] = false
  any p (x ∷ xs) = p x || any p xs

  -- `Array.prototype.filter` by a Boolean test.
  abbrev pub filter : (A → Bool) → List A → List A
  filter p [] = []
  filter p (x ∷ xs) = if p x then x ∷ filter p xs else filter p xs

  -- The messages that a loop over `xs` pushes, one call of `f` to each round.
  abbrev pub for_each {κ} : {B : Type κ} → (A → List B) → List A → List B
  for_each f [] = []
  for_each f (x ∷ xs) = f x ++ for_each f xs

  abbrev pub All {κ} : (A → Type κ) → List A → Type κ
  All P [] = Unit {κ}
  All P (x ∷ xs) = P x × All P xs

  pub append-eq-nil : (xs ys : List A) → xs ++ ys ≡ [] → (xs ≡ []) × (ys ≡ [])
  append-eq-nil [] ys h = (refl, h)
  append-eq-nil (x ∷ xs) ys h = cc

  pub All-append {κ} : (P : A → Type κ) (xs ys : List A) → All P xs → All P ys → All P (xs ++ ys)
  All-append P [] ys h k = k
  All-append P (x ∷ xs) ys (p, h) k = (p, All-append P xs ys h k)

  pub All-map {κ μ} :
      {P : A → Type κ} {Q : A → Type μ}
      → ((x : A) → P x → Q x)
      → (xs : List A) → All P xs
      → All Q xs
  All-map f [] h = tt
  All-map f (x ∷ xs) (p, h) = (f x p, All-map f xs h)

  pub All-always {κ} : {P : A → Type κ} → ((x : A) → P x) → (xs : List A) → All P xs
  All-always f [] = tt
  All-always f (x ∷ xs) = (f x, All-always f xs)

-- A loop that pushes no message passes its check at every entry.
pub for_each-eq-nil {ℓ κ μ} :
    {A : Type ℓ} {B : Type κ} (P : A → Type μ) (f : A → List B)
    → ((a : A) → f a ≡ [] → P a)
    → (xs : List A) → for_each f xs ≡ []
    → All P xs
for_each-eq-nil P f g [] h = tt
for_each-eq-nil P f g (x ∷ xs) h =
    let (here, later) = append-eq-nil (f x) (for_each f xs) h in
    (g x here, for_each-eq-nil P f g xs later)
