-- ===== src/Base/Dict.antt =====
-- Python's dict with string keys: an association list in insertion order, a key at most once.
use mathlib.Core.Path.{◌≡◌, refl, sym, subst}
use mathlib.Core.Bool.{Bool, ◌||◌}
use mathlib.Core.List.{List, [], ◌∷◌, ◌++◌, map}
use mathlib.Core.Option.{Option, none, some}
use native.Mathlib.Omega.{arith}
use tug.Base.Tests.{if◌then◌else◌, Bool-cases}
use tug.Base.Lists.{All, any}
use mathlib.Core.Logic.{inl, inr}
use tug.Base.Text.{Text, text_eq, text_eq_iff}

abbrev pub Dict {ℓ} : Type ℓ → Type ℓ
Dict V = List (Text × V)

module _ {ℓ} {V : Type ℓ} where
  -- d.get(k)
  unfoldable pub get : Text → Dict V → Option V
  get k [] = none
  get k ((j, v) ∷ d) = if text_eq j k then some v else get k d

  -- d[k] = f(d.get(k)): a new key goes to the end
  unfoldable pub update : Text → (Option V → V) → Dict V → Dict V
  update k f [] = (k, f none) ∷ []
  update k f ((j, v) ∷ d) = if text_eq j k then (j, f (some v)) ∷ d else (j, v) ∷ update k f d

  pub get-update :
      (k j : Text) (f : Option V → V) (d : Dict V)
      → get j (update k f d) ≡ (if text_eq k j then some (f (get k d)) else get j d)
  unfolding get update
  get-update k j f [] = refl
  get-update k j f ((i, v) ∷ d) =
      ground (arith, get-update k j f d, text_eq_iff i k, text_eq_iff i j, text_eq_iff k j)

  -- What holds of all entries holds of them after an update that keeps it.
  pub All-update {κ} :
      (P : Text × V → Type κ) (k : Text) (f : Option V → V) (d : Dict V)
      → P (k, f none)
      → ((v : V) → P (k, v) → P (k, f (some v)))
      → All P d
      → All P (update k f d)
  unfolding update
  All-update P k f [] new old h = (new, tt)
  All-update P k f ((j, v) ∷ d) new old (h, hs) = elim (Bool-cases (text_eq j k)) [
    | inl same ↦
        let e = (text_eq_iff j k).0 same in
        rw same (subst (λ i. P (i, f (some v))) (sym e) (old v (subst (λ i. P (i, v)) e h)), hs)
    | inr other ↦ rw other (h, All-update P k f d new old hs)
  ]

  -- Whether some entry passes a test, after an update that lets the entry of its key pass if `b`.
  pub any-update :
      (p : Text × V → Bool) (k : Text) (f : Option V → V) (b : Bool) (d : Dict V)
      → p (k, f none) ≡ b
      → ((v : V) → p (k, f (some v)) ≡ (p (k, v) || b))
      → any p (update k f d) ≡ (any p d || b)
  unfolding update
  any-update p k f b [] new old = ground (arith, new)
  any-update p k f b ((j, v) ∷ d) new old = elim (Bool-cases (text_eq j k)) [
    | inl same ↦
        let e = (text_eq_iff j k).0 same in
        let here : p (j, f (some v)) ≡ (p (j, v) || b) =
          subst (λ i. p (i, f (some v)) ≡ (p (i, v) || b)) (sym e) (old v) in
        rw (same, here) (ground arith)
    | inr other ↦ rw (other, any-update p k f b d new old) (ground arith)
  ]

  abbrev pub keys : Dict V → List Text
  keys d = map (λ (e : Text × V). e.0) d

  abbrev pub values : Dict V → List V
  values d = map (λ (e : Text × V). e.1) d

-- d.setdefault(k, []).append(x)
unfoldable pub append_to {ℓ} : {A : Type ℓ} → Text → A → Dict (List A) → Dict (List A)
append_to k x d = update k (λ o. elim o [ none ↦ x ∷ [] | some xs ↦ xs ++ x ∷ [] ]) d
