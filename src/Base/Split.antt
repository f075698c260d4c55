-- ===== src/Base/Split.antt =====
-- str.find and str.split(pattern, 1): a text at the first place of a pattern.
use mathlib.Core.Path.{◌≡◌, refl, sym, ap, ◌∙◌, subst}
use mathlib.Core.Bool.{Bool, true, false}
use mathlib.Core.List.{[], ◌∷◌, ◌++◌, append_assoc}
use mathlib.Core.Option.{Option, none, some}
use mathlib.Core.Logic.{◌≢◌, ◌⊎◌, inl, inr}
use Prim.Native.Nat.{ℕ, ◌≤◌}
use native.Mathlib.Omega.{arith}
use tug.Base.Tests.{if◌then◌else◌}
use tug.Base.Lists.{length, length-append}
use tug.Base.Text.{Text, starts_with}

unfoldable pub drop_prefix : Text → Text → Text
drop_prefix [] s = s
drop_prefix (c ∷ p) [] = []
drop_prefix (c ∷ p) (d ∷ s) = drop_prefix p s

-- text.split(pattern, 1), none where the pattern is not in the text
unfoldable pub split_once : Text → Text → Option (Text × Text)
split_once pattern [] = if starts_with pattern [] then some ([], []) else none
split_once pattern (c ∷ s) =
    let later = split_once pattern s in
    if starts_with pattern (c ∷ s)
    then some ([], drop_prefix pattern (c ∷ s))
    else elim later [ none ↦ none | some (head, tail) ↦ some (c ∷ head, tail) ]

pub starts_with-append : (p x : Text) → starts_with p (p ++ x) ≡ true
unfolding starts_with
starts_with-append [] x = refl
starts_with-append (c ∷ p) x = ground (arith, starts_with-append p x)

pub drop_prefix-append : (p x : Text) → drop_prefix p (p ++ x) ≡ x
unfolding drop_prefix
drop_prefix-append [] x = refl
drop_prefix-append (c ∷ p) x = drop_prefix-append p x

pub starts_with-split : (p s : Text) → starts_with p s ≡ true → p ++ drop_prefix p s ≡ s
unfolding starts_with drop_prefix
starts_with-split [] s h = refl
starts_with-split (c ∷ p) [] h = cc
starts_with-split (c ∷ p) (d ∷ s) h = ground (arith, starts_with-split p s)

-- What comes after a text that is long enough does not matter.
starts_with-long :
    (p s x y : Text) → length p ≤ length s → starts_with p (s ++ x) ≡ starts_with p (s ++ y)
unfolding starts_with
starts_with-long [] s x y h = refl
starts_with-long (c ∷ p) [] x y h = ground (arith, h)
starts_with-long (c ∷ p) (d ∷ s) x y h = rw (starts_with-long p s x y (omega (arith, h))) refl

split_once-starts :
    (p s : Text) → starts_with p s ≡ true → split_once p s ≡ some ([], drop_prefix p s)
unfolding split_once drop_prefix starts_with
split_once-starts [] [] h = refl
split_once-starts (c ∷ p) [] h = cc
split_once-starts p (c ∷ s) h = rw h refl

pub split_once-here : (p x : Text) → split_once p (p ++ x) ≡ some ([], x)
split_once-here p x =
    split_once-starts p (p ++ x) (starts_with-append p x) ∙ rw (drop_prefix-append p x) refl

abbrev SplitAt : Text → ℕ → Text → Text → Text → Type 0
SplitAt p c s h r =
    ((starts_with p (c ∷ s) ≡ true) × (h ≡ []) × (r ≡ drop_prefix p (c ∷ s)))
    ⊎ ((h' : Text) × (starts_with p (c ∷ s) ≡ false)
        × (split_once p s ≡ some (h', r))
        × (h ≡ c ∷ h'))

split_once-at :
    (p : Text) (c : ℕ) (s h r : Text) (b : Bool) (later : Option (Text × Text))
    → starts_with p (c ∷ s) ≡ b
    → split_once p s ≡ later
    → if◌then◌else◌ {A = Option (Text × Text)} b
        (some ([], drop_prefix p (c ∷ s)))
        (elim later [ none ↦ none | some (head, tail) ↦ some (c ∷ head, tail) ])
      ≡ some (h, r)
    → SplitAt p c s h r
split_once-at p c s h r true later eb el e = inl (eb, cc, cc)
split_once-at p c s h r false none eb el e = cc
split_once-at p c s h r false (some (head, tail)) eb el e = inr (head, eb, cc, cc)

-- The two ways in which a text that is not empty is split.
split_once-cons :
    (p : Text) (c : ℕ) (s h r : Text) → split_once p (c ∷ s) ≡ some (h, r) → SplitAt p c s h r
unfolding split_once
split_once-cons p c s h r e =
    split_once-at p c s h r (starts_with p (c ∷ s)) (split_once p s) refl refl e

pub split_once-append : (p t h r : Text) → split_once p t ≡ some (h, r) → h ++ (p ++ r) ≡ t
unfolding split_once starts_with
split_once-append [] [] h r e = ground arith
split_once-append (q ∷ p) [] h r e = cc
split_once-append p (c ∷ s) h r e = elim (split_once-cons p c s h r e) [
  | inl (at, eh, er) ↦ rw (eh, er) (starts_with-split p (c ∷ s) at)
  | inr (h', past, later, eh) ↦ rw eh (ap (λ z. c ∷ z) (split_once-append p s h' r later))
]

split_once-again_nil :
    (p h r x : Text) → split_once p [] ≡ some (h, r) → split_once p (h ++ (p ++ x)) ≡ some (h, x)
unfolding split_once starts_with
split_once-again_nil [] h r x e =
    subst (λ z. split_once [] (z ++ x) ≡ some (z, x)) {x = []} (cc) (split_once-here [] x)
split_once-again_nil (q ∷ p) h r x e = cc

-- A text is split at the same place whatever follows the pattern there.
pub split_once-again :
    (p t h r x : Text) → split_once p t ≡ some (h, r) → split_once p (h ++ (p ++ x)) ≡ some (h, x)
unfolding split_once
split_once-again p [] h r x e = split_once-again_nil p h r x e
split_once-again p (c ∷ s) h r x e = elim (split_once-cons p c s h r e) [
  | inl (at, eh, er) ↦ rw eh (split_once-here p x)
  | inr (h', past, later, eh) ↦
      let whole : c ∷ (h' ++ (p ++ r)) ≡ c ∷ s =
        ap (λ z. c ∷ z) (split_once-append p s h' r later) in
      let fits : length p ≤ length (c ∷ (h' ++ p)) = omega (arith, length-append h' p) in
      let before : starts_with p (c ∷ ((h' ++ p) ++ r)) ≡ false =
        rw (append_assoc h' p r, whole) past in
      let same : starts_with p (c ∷ (h' ++ (p ++ x))) ≡ false =
        rw (sym (append_assoc h' p x), starts_with-long p (c ∷ (h' ++ p)) x r fits) before in
      rw (eh, same, split_once-again p s h' r x later) refl
]

-- A text that has the pattern somewhere is split.
pub split_once-found : (p a b : Text) → split_once p (a ++ (p ++ b)) ≢ none
unfolding split_once
split_once-found p [] b = rw (split_once-here p b) (λ h. cc)
split_once-found p (c ∷ a) b = ground (arith, split_once-found p a b)
