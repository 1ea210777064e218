-- ===== src/Base/Faults.antt =====
-- Runs of the program's code that may end in a fault instead of a value.
use mathlib.Core.Path.{◌≡◌, refl}
use mathlib.Core.Bool.{Bool, true, false}

-- `exit_failure` is a call of `exit(1)`, `assert_failed` a failed `assert`; `division_by_zero` ends
-- the process; `null_pointer` and `out_of_bounds` are undefined behaviour or an exception that
-- nothing catches; `out_of_fuel` says that a loop has not ended yet.
pub data Fault : Type 0 where
  exit_failure assert_failed null_pointer out_of_bounds out_of_fuel division_by_zero : Fault

pub data Result {ℓ} (A : Type ℓ) : Type ℓ where
  ok : A → Result A
  err : Fault → Result A

abbrev pub require : Bool → Fault → Result (Unit {0})
require true fault = ok tt
require false fault = err fault

infixl 5 ◌>>=◌ ◌>>◌
abbrev pub ◌>>=◌ {ℓ κ} : {A : Type ℓ} {B : Type κ} → Result A → (A → Result B) → Result B
ok x >>= next = next x
err fault >>= next = err fault

abbrev pub ◌>>◌ {ℓ} : {B : Type ℓ} → Result (Unit {0}) → Result B → Result B
first >> rest = first >>= λ _. rest

-- The run ends normally, in a value that satisfies `P`.
abbrev pub Returns {ℓ κ} : {A : Type ℓ} → Result A → (A → Type κ) → Type (ℓ ⊔ κ)
Returns {A} r P = (a : A) × (r ≡ ok a) × P a

pub >>=-Returns {ℓ κ} :
    {A B : Type ℓ} {P : A → Type κ} {Q : B → Type κ} (r : Result A) (f : A → Result B)
    → Returns r P
    → ((a : A) → P a → Returns (f a) Q)
    → Returns (r >>= f) Q
>>=-Returns r f (a, e, p) k = rw e (k a p)

pub bind_assoc {ℓ} :
    {A B C : Type ℓ} (r : Result A) (f : A → Result B) (g : B → Result C)
    → r >>= f >>= g ≡ r >>= (λ a. f a >>= g)
bind_assoc (ok a) f g = refl
bind_assoc (err e) f g = refl

pub bind_congr {ℓ} :
    {A B : Type ℓ} (r : Result A) (f g : A → Result B) → ((a : A) → f a ≡ g a) → r >>= f ≡ r >>= g
bind_congr (ok a) f g h = h a
bind_congr (err e) f g h = refl
