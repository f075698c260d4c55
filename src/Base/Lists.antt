-- ===== src/Base/Lists.antt =====
-- Lists measured by native numbers, and the loops over lists that the tools share.
use Prim.Native.Nat.{ℕ, suc, ◌+◌}
use mathlib.Core.Path.{◌≡◌, refl}
use mathlib.Core.Bool.{Bool, true, false, ◌||◌}
use mathlib.Core.List.{List, [], ◌∷◌, ◌++◌, map}
use native.Mathlib.Omega.{arith}
use mathlib.Core.Logic.{inl, inr}
use tug.Base.Tests.{if◌then◌else◌, Bool-cases}

module _ {ℓ} {A : Type ℓ} where
  abbrev pub length : List A → ℕ
  length [] = 0
  length (x ∷ xs) = suc (length xs)

  pub length-append : (xs ys : List A) → length (xs ++ ys) ≡ length xs + length ys
  length-append [] ys = omega arith
  length-append (x ∷ xs) ys = omega (arith, length-append xs ys)

  -- [x for x in xs if p(x)]
  abbrev pub keep_if : (A → Bool) → List A → List A
  keep_if p [] = []
  keep_if p (x ∷ xs) = let rest = keep_if p xs in if p x then x ∷ rest else rest

  -- any(p(x) for x in xs)
  abbrev pub any : (A → Bool) → List A → Bool
  any p [] = false
  any p (x ∷ xs) = p x || any p xs

  -- Every element of the list has the property.
  abbrev pub All {κ} : (A → Type κ) → List A → Type κ
  All Holds [] = Unit
  All Holds (y ∷ ys) = Holds y × All Holds ys

  abbrev pub is_empty : List A → Bool
  is_empty [] = true
  is_empty (x ∷ xs) = false

pub All-append {ℓ κ} :
    {A : Type ℓ} (P : A → Type κ) (xs ys : List A) → All P xs → All P ys → All P (xs ++ ys)
All-append P [] ys hx hy = hy
All-append P (x ∷ xs) ys hx hy = (hx.0, All-append P xs ys hx.1 hy)

pub All-imp {ℓ κ μ} :
    {A : Type ℓ} (P : A → Type κ) (Q : A → Type μ) (xs : List A)
    → ((x : A) → P x → Q x)
    → All P xs
    → All Q xs
All-imp P Q [] f h = tt
All-imp P Q (x ∷ xs) f h = (f x h.0, All-imp P Q xs f h.1)

pub any-append {ℓ} :
    {A : Type ℓ} (p : A → Bool) (xs ys : List A) → any p (xs ++ ys) ≡ (any p xs || any p ys)
any-append p [] ys = refl
any-append p (x ∷ xs) ys = ground (arith, any-append p xs ys)

pub All-both {ℓ κ μ} :
    {A : Type ℓ} (P : A → Type κ) (Q : A → Type μ) (xs : List A)
    → All P xs
    → All Q xs
    → All (λ x. P x × Q x) xs
All-both P Q [] h k = tt
All-both P Q (x ∷ xs) (h, hs) (k, ks) = ((h, k), All-both P Q xs hs ks)

pub any-imp {ℓ} :
    {A : Type ℓ} (p q : A → Bool) (xs : List A)
    → ((x : A) → p x ≡ true → q x ≡ true)
    → any p xs ≡ true
    → any q xs ≡ true
any-imp p q [] f h = cc
any-imp p q (x ∷ xs) f h = ground (arith, f x, any-imp p q xs f)

-- What the elements that pass a filter give has a property, if each of them gives it.
module _ {ℓ κ μ} {A B : Type ℓ} {P : A → Type κ} (Q : B → Type μ) (p : A → Bool) (f : A → B) where
  pub All-map_keep_if :
      (xs : List A)
      → ((x : A) → P x → p x ≡ true → Q (f x))
      → All P xs
      → All Q (map f (keep_if p xs))
  All-map_keep_if [] h hs = tt
  All-map_keep_if (x ∷ xs) h (hx, hs) = elim (Bool-cases (p x)) [
    | inl passes ↦ rw passes (h x hx passes, All-map_keep_if xs h hs)
    | inr refused ↦ rw refused (All-map_keep_if xs h hs)
  ]

pub All-unfiltered {ℓ κ} :
    {A : Type ℓ} (Q : A → Type κ) (p : A → Bool) (xs : List A)
    → All Q (keep_if p xs)
    → All (λ x. p x ≡ true → Q x) xs
All-unfiltered Q p [] h = tt
All-unfiltered Q p (x ∷ xs) h = elim (Bool-cases (p x)) [
  | inl passes ↦ let (hx, hs) = rw passes at h in (λ passes'. hx, All-unfiltered Q p xs hs)
  | inr refused ↦ (λ passes. cc, All-unfiltered Q p xs (rw refused at h))
]
