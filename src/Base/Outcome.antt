-- ===== src/Base/Outcome.antt =====
-- How C code ends: with a value, by undefined behaviour, or not within the draws that it is given.
use mathlib.Core.Path.{◌≡◌, refl}
use mathlib.Core.Bool.{Bool, true, false}
use mbus.Base.Tests.{if◌then◌else◌}

-- `fault` is a read or a write through a NULL or dangling pointer, or past the end of an object,
-- or the increment of an int past its end.
-- `spin` is a loop that has used up the values which its environment supplied and goes on.
pub data Exec {ℓ} (A : Type ℓ) : Type ℓ where
  done : A → Exec A
  fault : Exec A
  spin : Exec A

infixl 5 ◌>>=◌
abbrev pub ◌>>=◌ {ℓ κ} : {A : Type ℓ} {B : Type κ} → Exec A → (A → Exec B) → Exec B
done a >>= f = f a
fault >>= f = fault
spin >>= f = spin

-- The return code of a C function: 0, or -1.
pub data Rc : Type 0 where
  ok : Rc
  fail : Rc

-- The run ends with a value that has the property.
abbrev pub Returns {ℓ} : {A : Type ℓ} → (A → Type 0) → Exec A → Type 0
Returns P (done a) = P a
Returns P fault = ⊥
Returns P spin = ⊥

pub Returns-map {ℓ} :
    {A : Type ℓ} (P Q : A → Type 0) (x : Exec A) → ((a : A) → P a → Q a) → Returns P x → Returns Q x
Returns-map P Q (done a) f p = f a p
Returns-map P Q fault f p = p
Returns-map P Q spin f p = p

-- A test in front of two runs.
pub if_Returns {ℓ} :
    {A : Type ℓ} (P : A → Type 0) (b : Bool) (x y : Exec A)
    → (b ≡ true → Returns P x)
    → (b ≡ false → Returns P y)
    → Returns P (if b then x else y)
if_Returns P true x y f g = f refl
if_Returns P false x y f g = g refl

pub bind_Returns {ℓ κ} :
    {A : Type ℓ} {B : Type κ} (P : A → Type 0) (Q : B → Type 0) (x : Exec A) (f : A → Exec B)
    → Returns P x
    → ((a : A) → P a → Returns Q (f a))
    → Returns Q (x >>= f)
bind_Returns P Q (done a) f h k = k a h
bind_Returns P Q fault f h k = elim h [ ]
bind_Returns P Q spin f h k = elim h [ ]
