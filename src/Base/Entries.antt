-- ===== src/Base/Entries.antt =====
-- Entries of a dict by their keys: what a lookup finds, and dicts that hold a key at most once.
use mathlib.Core.Path.{◌≡◌, refl, sym, subst, ◌∙◌}
use mathlib.Core.Bool.{Bool, true, false, ◌||◌}
use mathlib.Core.List.{[], ◌∷◌}
use mathlib.Core.Option.{Option, some}
use mathlib.Core.Logic.{inl, inr}
use native.Mathlib.Omega.{arith}
use tug.Base.Tests.{Bool-cases}
use tug.Base.Lists.{All, All-both, All-imp, any}
use tug.Base.Text.{Text, text_eq, text_eq_iff, text_eq_refl, mem_text}
use tug.Base.Dict
use tug.Base.Dict.{Dict, keys, values}

module _ {ℓ} {V : Type ℓ} where
  -- What holds of all entries holds of the one that is found.
  pub All-get {κ} :
      (P : Text × V → Type κ) (k : Text) (d : Dict V) (v : V)
      → All P d
      → Dict.get k d ≡ some v
      → P (k, v)
  unfolding Dict.get
  All-get P k [] v h found = cc
  All-get P k ((j, w) ∷ d) v (h, hs) found = elim (Bool-cases (text_eq j k)) [
    | inl same ↦
        let e = (text_eq_iff j k).0 same in
        let value : w ≡ v = ground (arith, found, same) in
        subst (λ i. P (i, v)) e (subst (λ u. P (j, u)) value h)
    | inr other ↦
        let later : Dict.get k d ≡ some v = ground (arith, found, other) in All-get P k d v hs later
  ]

  -- An entry of a key that is in the dict; a value that passes a test is one of all values.
  pub entry_at {κ} :
      (P : Text × V → Type κ) (p : V → Bool) (k : Text) (d : Dict V)
      → mem_text k (keys d) ≡ true
      → All P d
      → (v : V) × P (k, v) × (any p (values d) ≡ false → p v ≡ false)
  unfolding mem_text
  entry_at P p k [] found h = cc
  entry_at P p k ((j, w) ∷ d) found (h, hs) = elim (Bool-cases (text_eq k j)) [
    | inl same ↦
        let e = (text_eq_iff k j).0 same in
        (w, subst (λ i. P (i, w)) (sym e) h, λ none_passes. ground arith)
    | inr other ↦
        let later : mem_text k (keys d) ≡ true = ground (arith, found, other) in
        let (v, hv, test) = entry_at P p k d later hs in
        (v, hv, λ none_passes. ground (arith, test))
  ]

  pub mem_text-update :
      (j k : Text) (f : Option V → V) (d : Dict V)
      → mem_text j (keys (Dict.update k f d)) ≡ (text_eq j k || mem_text j (keys d))
  unfolding mem_text Dict.update
  mem_text-update j k f [] = refl
  mem_text-update j k f ((i, v) ∷ d) =
      ground (arith, mem_text-update j k f d, text_eq_iff i k, text_eq_iff j i, text_eq_iff j k)

  -- No key twice.
  abbrev pub Distinct : Dict V → Type 0
  Distinct [] = Unit
  Distinct ((k, v) ∷ d) = (mem_text k (keys d) ≡ false) × Distinct d

  pub Distinct-update :
      (k : Text) (f : Option V → V) (d : Dict V) → Distinct d → Distinct (Dict.update k f d)
  unfolding Dict.update mem_text
  Distinct-update k f [] h = (refl, tt)
  Distinct-update k f ((j, v) ∷ d) (new, h) = elim (Bool-cases (text_eq j k)) [
    | inl same ↦ rw same (new, h)
    | inr other ↦ rw other (mem_text-update j k f d ∙ rw (other, new) refl, Distinct-update k f d h)
  ]

  not_a_key :
      (k : Text) (d : Dict V) → mem_text k (keys d) ≡ false → All (λ e. text_eq k e.0 ≡ false) d
  unfolding mem_text
  not_a_key k [] h = tt
  not_a_key k ((j, v) ∷ d) h = (ground (arith, h), not_a_key k d (ground (arith, h)))

  -- In a dict without repeated keys every entry is the one that its key finds.
  pub Distinct-All_get : (d : Dict V) → Distinct d → All (λ e. Dict.get e.0 d ≡ some e.1) d
  unfolding Dict.get
  Distinct-All_get [] h = tt
  Distinct-All_get ((k, v) ∷ d) (new, h) = (
    rw (text_eq_refl k) refl,
    All-imp _ _ d (λ e both. rw (both.0, both.1) refl)
        (All-both _ _ d (not_a_key k d new) (Distinct-All_get d h)),
  )

  -- The key finds a value of the property.
  abbrev pub Finds {κ} : (V → Type κ) → Text → Dict V → Type (ℓ ⊔ κ)
  Finds P k d = (v : V) × (Dict.get k d ≡ some v) × P v

  module _ {κ} (P : V → Type κ) where
    pub Finds-set :
        (k : Text) (f : Option V → V) (d : Dict V)
        → ((o : Option V) → P (f o))
        → Finds P k (Dict.update k f d)
    Finds-set k f d h =
        (f (Dict.get k d), Dict.get-update k k f d ∙ rw (text_eq_refl k) refl, h (Dict.get k d))

    pub Finds-update :
        (k j : Text) (f : Option V → V) (d : Dict V)
        → ((v : V) → P v → P (f (some v)))
        → Finds P k d
        → Finds P k (Dict.update j f d)
    Finds-update k j f d keeps (v, found, h) = elim (Bool-cases (text_eq j k)) [
      | inl same ↦
          let e = (text_eq_iff j k).0 same in
          let at : Dict.get j d ≡ some v = subst (λ i. Dict.get i d ≡ some v) (sym e) found in
          (f (some v), Dict.get-update j k f d ∙ rw (same, at) refl, keeps v h)
      | inr other ↦ (v, Dict.get-update j k f d ∙ rw (other, found) refl, h)
    ]
