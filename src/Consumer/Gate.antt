-- ===== src/Consumer/Gate.antt =====
-- Code that pushes mismatches and may throw: the messages pushed, and the value or the error.
use solana_multisig.Prelude.{◌≡◌, refl, List, [], ◌++◌, Text, Result, ok, err, append-eq-nil}

abbrev pub Gate {ℓ} : Type ℓ → Type ℓ
Gate A = List Text × Result A

abbrev pub return {ℓ} : {A : Type ℓ} → A → Gate A
return a = ([], ok a)

-- `mismatches.push(...)` for each of the messages.
abbrev pub push : List Text → Gate (Unit {0})
push ms = (ms, ok tt)

abbrev pub attempt {ℓ} : {A : Type ℓ} → Result A → Gate A
attempt r = ([], r)

abbrev pub continue {ℓ κ} : {A : Type ℓ} {B : Type κ} → List Text → Result A → (A → Gate B) → Gate B
continue ms (ok a) f = (ms ++ (f a).0, (f a).1)
continue ms (err e) f = (ms, err e)

infixl 5 ◌>>=◌ ◌>>◌
abbrev pub ◌>>=◌ {ℓ κ} : {A : Type ℓ} {B : Type κ} → Gate A → (A → Gate B) → Gate B
m >>= f = continue m.0 m.1 f

abbrev pub ◌>>◌ {ℓ} : {B : Type ℓ} → Gate (Unit {0}) → Gate B → Gate B
m >> k = m >>= λ _. k

-- A gate that is passed: nothing was pushed and nothing thrown.
abbrev pub Passes {ℓ} : {A : Type ℓ} → Gate A → A → Type ℓ
Passes m a = (m.0 ≡ []) × (m.1 ≡ ok a)

continue-Passes {ℓ κ μ} :
    {A : Type ℓ} {B : Type κ} {C : Type μ} (ms : List Text) (r : Result A) (f : A → Gate B) {b : B}
    → Passes (continue ms r f) b
    → ((a : A) → ms ≡ [] → r ≡ ok a → Passes (f a) b → C)
    → C
continue-Passes ms (ok a) f (h, k) next =
    let (here, later) = append-eq-nil ms (f a).0 h in next a here refl (later, k)
continue-Passes ms (err e) f (h, k) next = cc

-- What passes a sequence passes each part.
pub bind-Passes {ℓ κ μ} :
    {A : Type ℓ} {B : Type κ} {C : Type μ} (m : Gate A) (f : A → Gate B) {b : B}
    → Passes (m >>= f) b
    → ((a : A) → m.0 ≡ [] → m.1 ≡ ok a → Passes (f a) b → C)
    → C
bind-Passes m f h next = continue-Passes m.0 m.1 f h next

-- What passes after a push is passed, and nothing was pushed.
pub push-Passes {ℓ κ} :
    {B : Type ℓ} {C : Type κ} (ms : List Text) (g : Gate B) {b : B}
    → Passes (push ms >> g) b
    → (ms ≡ [] → Passes g b → C)
    → C
push-Passes ms g h next = let (here, later) = append-eq-nil ms g.0 h.0 in next here (later, h.1)
