-- ===== src/Base/Members.antt =====
-- `in` on lists of texts.
use mathlib.Core.Path.{◌≡◌, refl, sym, ◌∙◌, subst}
use mathlib.Core.Bool.{Bool, true, not, ◌||◌}
use mathlib.Core.List.{List, [], ◌∷◌, ◌++◌, map}
use mathlib.Core.Logic.{inl, inr}
use native.Mathlib.Omega.{arith}
use tug.Base.Tests.{Bool-cases}
use tug.Base.Lists.{any, keep_if}
use tug.Base.Text.{Text, text_eq, text_eq_iff, text_eq_refl, text_lt, mem_text}
use tug.Base.Sort.{sorted}
use tug.Base.SortedList.{any-sorted}

pub mem_text-any : (s : Text) (xs : List Text) → mem_text s xs ≡ any (text_eq s) xs
unfolding mem_text
mem_text-any s [] = refl
mem_text-any s (x ∷ xs) = rw (mem_text-any s xs) refl

pub mem_text-sorted : (s : Text) (xs : List Text) → mem_text s (sorted text_lt xs) ≡ mem_text s xs
mem_text-sorted s xs =
    mem_text-any s (sorted text_lt xs) ∙ any-sorted (text_eq s) text_lt xs ∙ sym (mem_text-any s xs)

pub mem_text-append :
    (s : Text) (xs ys : List Text) → mem_text s (xs ++ ys) ≡ (mem_text s xs || mem_text s ys)
unfolding mem_text
mem_text-append s [] ys = refl
mem_text-append s (x ∷ xs) ys = ground (arith, mem_text-append s xs ys)

pub mem_text-one : (s : Text) → mem_text s (s ∷ []) ≡ true
unfolding mem_text
mem_text-one s = rw (text_eq_refl s) refl

pub mem_text-none : (s : Text) → not (mem_text s []) ≡ true
unfolding mem_text
mem_text-none s = refl

pub mem_text-keep_if :
    (p : Text → Bool) (s : Text) (xs : List Text)
    → mem_text s xs ≡ true
    → p s ≡ true
    → mem_text s (keep_if p xs) ≡ true
unfolding mem_text
mem_text-keep_if p s [] h hp = cc
mem_text-keep_if p s (x ∷ xs) h hp = elim (Bool-cases (text_eq s x)) [
  | inl same ↦
      let hx : p x ≡ true = subst (λ t. p t ≡ true) ((text_eq_iff s x).0 same) hp in
      rw hx (rw same refl)
  | inr other ↦
      let later = mem_text-keep_if p s xs (ground (arith, h)) hp in
      elim (Bool-cases (p x)) [
        | inl kept ↦ rw kept (rw later (ground arith))
        | inr left ↦ rw left later
      ]
]

pub mem_text-map :
    (f : Text → Text) (s : Text) (xs : List Text)
    → mem_text s xs ≡ true
    → mem_text (f s) (map f xs) ≡ true
unfolding mem_text
mem_text-map f s [] h = cc
mem_text-map f s (x ∷ xs) h = elim (Bool-cases (text_eq s x)) [
  | inl same ↦ rw (sym ((text_eq_iff s x).0 same), text_eq_refl (f s)) refl
  | inr other ↦ rw (mem_text-map f s xs (ground (arith, h))) (ground arith)
]

-- An element of a mapped list is the image of one of the list.
pub mem_text-map_inv :
    (f : Text → Text) (s : Text) (xs : List Text)
    → mem_text s (map f xs) ≡ true
    → (x : Text) × (mem_text x xs ≡ true) × (s ≡ f x)
unfolding mem_text
mem_text-map_inv f s [] h = cc
mem_text-map_inv f s (x ∷ xs) h = elim (Bool-cases (text_eq s (f x))) [
  | inl same ↦ (x, rw (text_eq_refl x) refl, (text_eq_iff s (f x)).0 same)
  | inr other ↦
      let (y, mem, e) = mem_text-map_inv f s xs (ground (arith, h)) in (y, rw mem (ground arith), e)
]
