-- ===== src/Base/SortedList.antt =====
-- What sorted() keeps of a list: what holds of all its elements, and what one of them satisfies.
use mathlib.Core.Path.{◌≡◌, refl, ◌∙◌}
use mathlib.Core.Bool.{Bool, ◌||◌}
use mathlib.Core.List.{List, [], ◌∷◌}
use mathlib.Core.Logic.{inl, inr}
use native.Mathlib.Omega.{arith}
use tug.Base.Tests.{Bool-cases}
use tug.Base.Lists.{All, any}
use tug.Base.Sort.{insert, sorted}

module _ {ℓ κ} {A : Type ℓ} (P : A → Type κ) (lt : A → A → Bool) where
  pub All-insert : (x : A) (ys : List A) → P x → All P ys → All P (insert lt x ys)
  unfolding insert
  All-insert x [] hx hs = (hx, hs)
  All-insert x (y ∷ ys) hx (hy, hs) = elim (Bool-cases (lt y x)) [
    | inl after ↦ rw after (hy, All-insert x ys hx hs)
    | inr here ↦ rw here (hx, (hy, hs))
  ]

  pub All-sorted : (xs : List A) → All P xs → All P (sorted lt xs)
  unfolding sorted
  All-sorted [] h = h
  All-sorted (x ∷ xs) (hx, hs) = All-insert x (sorted lt xs) hx (All-sorted xs hs)

  All-uninsert : (x : A) (ys : List A) → All P (insert lt x ys) → P x × All P ys
  unfolding insert
  All-uninsert x [] h = h
  All-uninsert x (y ∷ ys) h = elim (Bool-cases (lt y x)) [
    | inl after ↦
        let (hy, rest) : P y × All P (insert lt x ys) = rw after at h in
        let (hx, hs) = All-uninsert x ys rest in (hx, (hy, hs))
    | inr here ↦ rw here at h
  ]

  pub All-unsorted : (xs : List A) → All P (sorted lt xs) → All P xs
  unfolding sorted
  All-unsorted [] h = h
  All-unsorted (x ∷ xs) h =
      let (hx, hs) = All-uninsert x (sorted lt xs) h in (hx, All-unsorted xs hs)

module _ {ℓ} {A : Type ℓ} (p : A → Bool) (lt : A → A → Bool) where
  any-insert : (x : A) (ys : List A) → any p (insert lt x ys) ≡ (p x || any p ys)
  unfolding insert
  any-insert x [] = refl
  any-insert x (y ∷ ys) = ground (arith, any-insert x ys)

  pub any-sorted : (xs : List A) → any p (sorted lt xs) ≡ any p xs
  unfolding sorted
  any-sorted [] = refl
  any-sorted (x ∷ xs) = any-insert x (sorted lt xs) ∙ rw (any-sorted xs) refl
