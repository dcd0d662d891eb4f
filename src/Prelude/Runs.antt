-- ===== src/Prelude/Runs.antt =====
-- A run of C code that may not come to an end: `fault` is a call of `panic`, an access outside of an
-- object or through a null pointer; `blocked` waits for input that never comes.
use mathlib.Core.Path.{◌≡◌, refl}

pub data Exec {ℓ} (A : Type ℓ) : Type ℓ where
  done : A → Exec A
  fault : Exec A
  blocked : Exec A

infixl 5 ◌>>=◌ ◌>>◌
abbrev pub ◌>>=◌ {ℓ κ} : {A : Type ℓ} {B : Type κ} → Exec A → (A → Exec B) → Exec B
done a >>= f = f a
fault >>= f = fault
blocked >>= f = blocked

abbrev pub ◌>>◌ {ℓ} : {B : Type ℓ} → Exec (Unit {0}) → Exec B → Exec B
m >> k = m >>= λ _. k

pub bind-eq-done {ℓ κ} :
    {A : Type ℓ} {B : Type κ} (m : Exec A) (f : A → Exec B) {b : B}
    → (m >>= f) ≡ done b
    → (a : A) × (m ≡ done a) × (f a ≡ done b)
bind-eq-done (done a) f h = (a, refl, h)
bind-eq-done fault f h = cc
bind-eq-done blocked f h = cc

pub bind-done {ℓ κ} :
    {A : Type ℓ} {B : Type κ} {m : Exec A} {a : A} (f : A → Exec B) → m ≡ done a → (m >>= f) ≡ f a
bind-done f e = rw e
