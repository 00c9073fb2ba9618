-- ===== src/Prelude/Outcome.antt =====
-- Code that may throw: a value, or the message of the error.
use mathlib.Core.Path.{◌≡◌, refl}
use mathlib.Core.Bool.{Bool, true, false, not}
use mathlib.Core.List.{List, [], ◌∷◌}
use mathlib.Core.Logic.{◌⊎◌, inl, inr}
use Prim.Native.Nat.{ℕ}

-- A JavaScript string, as its code units.
abbrev pub Text : Type 0
Text = List ℕ

pub data Result {ℓ} (A : Type ℓ) : Type ℓ where
  ok : A → Result A
  err : Text → Result A

-- The statements behind a call, which an error skips.
abbrev pub and_then {ℓ κ} : {A : Type ℓ} {B : Type κ} → (A → Result B) → Result A → Result B
and_then next (err message) = err message
and_then next (ok value) = next value

infixl 5 ◌>>=◌ ◌>>◌
abbrev pub ◌>>=◌ {ℓ κ} : {A : Type ℓ} → {B : Type κ} → Result A → (A → Result B) → Result B
call >>= next = and_then next call

abbrev pub ◌>>◌ {κ} : {B : Type κ} → Result (Unit {0}) → Result B → Result B
call >> rest = and_then (λ done. rest) call

-- `if (bad) throw new Error(message)`.
abbrev pub throw_if : Bool → Text → Result (Unit {0})
throw_if true e = err e
throw_if false e = ok tt

-- A `catch` that continues with another value.
abbrev pub catch {ℓ} : {A : Type ℓ} → Result A → (Text → A) → A
catch (ok a) f = a
catch (err e) f = f e

pub ok_injective {ℓ} : {A : Type ℓ} {a b : A} → ok a ≡ ok b → a ≡ b
ok_injective e = cc

pub Result-cases {ℓ} :
    {A : Type ℓ} (r : Result A) → ((a : A) × (r ≡ ok a)) ⊎ ((e : Text) × (r ≡ err e))
Result-cases (ok a) = inl (a, refl)
Result-cases (err e) = inr (e, refl)

-- `if (bad) mismatches.push(message)`: the messages that the statement adds.
abbrev pub push_if {ℓ} : {A : Type ℓ} → Bool → A → List A
push_if true m = m ∷ []
push_if false m = []

pub push_if-eq-nil {ℓ} : {A : Type ℓ} (b : Bool) (m : A) → push_if b m ≡ [] → b ≡ false
push_if-eq-nil true m h = cc
push_if-eq-nil false m h = refl

-- A sequence that returns, for a proof that goes on with the value of its first part.
pub on_ok {ℓ κ μ} :
    {A : Type ℓ} {B : Type κ} {C : Type μ} (m : Result A) (f : A → Result B) {b : B}
    → (m >>= f) ≡ ok b
    → ((a : A) → m ≡ ok a → f a ≡ ok b → C)
    → C
on_ok (ok a) f h k = k a refl h
on_ok (err e) f h k = cc

pub push_unless-eq-nil {ℓ} : {A : Type ℓ} (b : Bool) (m : A) → push_if (not b) m ≡ [] → b ≡ true
push_unless-eq-nil true m h = refl
push_unless-eq-nil false m h = cc

pub throw_unless-eq-ok : (b : Bool) (e : Text) (u : Unit {0}) → throw_if (not b) e ≡ ok u → b ≡ true
throw_unless-eq-ok true e u h = refl
throw_unless-eq-ok false e u h = cc
