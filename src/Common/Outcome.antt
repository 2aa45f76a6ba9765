-- ===== src/Common/Outcome.antt =====
-- The result of C code: a value, `exit` with a status, an access to memory that it must not touch,
-- or a loop whose fuel has run out.
use Prim.Native.Nat.{ℕ}
use mathlib.Core.Path.{◌≡◌, refl, ap}

pub data Outcome {ℓ} (A : Type ℓ) : Type ℓ where
  done : A → Outcome A
  exited : ℕ → Outcome A
  fault : Outcome A
  out_of_fuel : Outcome A

infixl 5 ◌>>=◌
abbrev pub ◌>>=◌ {ℓ κ} : {A : Type ℓ} {B : Type κ} → Outcome A → (A → Outcome B) → Outcome B
done a >>= f = f a
exited status >>= f = exited status
fault >>= f = fault
out_of_fuel >>= f = out_of_fuel

pub bind-eq-done {ℓ κ} :
    {A : Type ℓ} {B : Type κ} (x : Outcome A) (f : A → Outcome B) {b : B}
    → (x >>= f) ≡ done b
    → (a : A) × (x ≡ done a) × (f a ≡ done b)
bind-eq-done (done a) f h = (a, refl, h)
bind-eq-done (exited status) f h = cc
bind-eq-done fault f h = cc
bind-eq-done out_of_fuel f h = cc

pub bind_assoc {ℓ κ μ} :
    {A : Type ℓ} {B : Type κ} {C : Type μ} (x : Outcome A) (f : A → Outcome B) (g : B → Outcome C)
    → ((x >>= f) >>= g) ≡ (x >>= λ a. f a >>= g)
bind_assoc (done a) f g = refl
bind_assoc (exited status) f g = refl
bind_assoc fault f g = refl
bind_assoc out_of_fuel f g = refl

pub done-injective {ℓ} : {A : Type ℓ} {x y : A} → done x ≡ done y → x ≡ y
done-injective {A} {x} h = ap (λ (o : Outcome A). elim o [ done z ↦ z | _ ↦ x ]) h

-- The fuel has not run out.
abbrev pub Ends {ℓ} : {A : Type ℓ} → Outcome A → Type 0
Ends (done a) = Unit
Ends (exited status) = Unit
Ends fault = Unit
Ends out_of_fuel = ⊥

pub bind-Ends {ℓ κ} :
    {A : Type ℓ} {B : Type κ} (x : Outcome A) (f : A → Outcome B)
    → Ends x
    → ((a : A) → x ≡ done a → Ends (f a))
    → Ends (x >>= f)
bind-Ends (done a) f h k = k a refl
bind-Ends (exited status) f h k = tt
bind-Ends fault f h k = tt
bind-Ends out_of_fuel f h k = elim h [ ]
