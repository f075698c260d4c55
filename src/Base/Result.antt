-- ===== src/Base/Result.antt =====
-- The outcome of code that may raise: a value, the error raised, or a recursion that does not end
-- (Python's RecursionError), which the loader's fuel stands for.
use mathlib.Core.Path.{◌≡◌, refl}
use mathlib.Core.Bool.{Bool, true, false}
use mathlib.Core.Logic.{◌≢◌}
use tug.Base.Tests.{if◌then◌else◌}

pub data Result {ℓ κ} (E : Type ℓ) (A : Type κ) : Type (ℓ ⊔ κ) where
  ok : A → Result E A
  raised : E → Result E A
  too_deep : Result E A

infixl 10 ◌>>=◌
abbrev pub ◌>>=◌ {ℓ κ μ} :
    {E : Type ℓ} {A : Type κ} {B : Type μ} → Result E A → (A → Result E B) → Result E B
ok a >>= f = f a
raised e >>= f = raised e
too_deep >>= f = too_deep

module _ {ℓ κ μ} {E : Type ℓ} {A : Type κ} {B : Type μ} where
  -- The value that the first step of a successful chain has, and the rest of the chain on it.
  pub >>=-eq-ok :
      (first : Result E A) (next : A → Result E B) {last : B}
      → (first >>= next) ≡ ok last
      → (x : A) × (first ≡ ok x) × (next x ≡ ok last)
  >>=-eq-ok too_deep next chain = cc
  >>=-eq-ok (raised error) next chain = cc
  >>=-eq-ok (ok x) next chain = (x, refl, chain)

pub ok_injective {ℓ κ} :
    {E : Type ℓ} {A : Type κ} {x y : A} → Path (Result E A) (ok x) (ok y) → x ≡ y
ok_injective same = cc

-- A test whose other branch raises has passed if there is a value.
pub checked-eq-ok {ℓ κ} :
    {E : Type ℓ} {A : Type κ} (b : Bool) (r : Result E A) (e : E) {a : A}
    → (if b then r else raised e) ≡ ok a
    → (b ≡ true) × (r ≡ ok a)
checked-eq-ok true r e h = (refl, h)
checked-eq-ok false r e h = cc

module _ {ℓ κ μ} {E : Type ℓ} {A : Type κ} {B : Type μ} where
  -- A chain ends if its first step does, and the rest does on the value of the first step.
  pub >>=-ends :
      (m : Result E A) (f : A → Result E B)
      → m ≢ too_deep
      → ((a : A) → m ≡ ok a → f a ≢ too_deep)
      → (m >>= f) ≢ too_deep
  >>=-ends (ok a) f hm hf = hf a refl
  >>=-ends (raised e) f hm hf = λ h. cc
  >>=-ends too_deep f hm hf = λ h. hm refl
