-- ===== src/Base/SortedDict.antt =====
-- Sorting the entries of a dict by its keys: what a key stands for does not change.
use mathlib.Core.Path.{◌≡◌, refl, ◌∙◌}
use mathlib.Core.Bool.{Bool, false}
use mathlib.Core.List.{[], ◌∷◌}
use mathlib.Core.Option.{some}
use native.Mathlib.Omega.{arith}
use tug.Base.Tests.{if◌then◌else◌}
use tug.Base.Text.{Text, text_eq, text_eq_iff, text_lt}
use tug.Base.Sort.{insert, sorted}
use tug.Base.Dict
use tug.Base.Dict.{Dict}

pub text_lt_irrefl : (s : Text) → text_lt s s ≡ false
unfolding text_lt
text_lt_irrefl [] = refl
text_lt_irrefl (c ∷ s) = ground (arith, text_lt_irrefl s)

module _ {ℓ} {V : Type ℓ} (lt : Text → Text → Bool) (irrefl : (s : Text) → lt s s ≡ false) where
  abbrev pub by_key : Text × V → Text × V → Bool
  by_key a b = lt a.0 b.0

  pub get-insert :
      (k j : Text) (v : V) (d : Dict V)
      → Dict.get k (insert by_key (j, v) d) ≡ (if text_eq j k then some v else Dict.get k d)
  unfolding insert Dict.get
  get-insert k j v [] = refl
  get-insert k j v ((i, w) ∷ d) =
      ground
        (arith, get-insert k j v d, text_eq_iff i j, text_eq_iff j k, text_eq_iff i k, irrefl j)

  pub get-sorted : (k : Text) (d : Dict V) → Dict.get k (sorted by_key d) ≡ Dict.get k d
  unfolding sorted Dict.get
  get-sorted k [] = refl
  get-sorted k ((j, v) ∷ d) = get-insert k j v (sorted by_key d) ∙ rw (get-sorted k d) refl
