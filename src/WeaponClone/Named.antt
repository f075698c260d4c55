-- ===== src/WeaponClone/Named.antt =====
-- The texts that tools/weapon-clone/generate.py retargets, which name the new weapon, and the list of what
-- is inserted.
use tug.Base.{
  false, List, [], ◌∷◌, ◌++◌, Option, none, some, is_empty, ◌≡◌, refl, sym, ap, ◌∙◌, inl, inr,
  Bool-cases, Option-cases, append_assoc,
}
use mathlib.Core.Path.{subst}
use tug.Base.Text.{Text}
use tug.Base.Sort.{insert, sorted}
use tug.Base.Result.{Result, ok, raised}
use tug.WeaponClone.{CloneError, key_at, retarget_key, value_at, retarget_from, retarget_value}
use tug.WeaponClone.Restate.{Insert, insert_lt}
use tug.WeaponClone.Weave.{texts_onto}

-- A text in which another stands.
abbrev pub Names : Text → Text → Type 0
Names new s = (x : Text) × (y : Text) × (s ≡ x ++ (new ++ y))

pub retarget_key-Names :
    (text old new copy : Text) → retarget_key text old new ≡ ok copy → Names new copy
unfolding retarget_key
retarget_key-Names text old new copy h = elim (Option-cases (key_at old text)) [
  | inl absent ↦
      let stop : Path (Result CloneError Text) (raised (CloneError.not_at_start text)) (ok copy) =
        rw (retarget_key, absent) at h in
      cc
  | inr ((q, (r, rest)), at) ↦
      let made : Path (Result CloneError Text) (ok (q ++ (new ++ (r ++ rest)))) (ok copy) =
        rw (retarget_key, at) at h in
      (q, r ++ rest, cc)
]

retarget_from-Names : (old new s t : Text) → retarget_from old new s ≡ some t → Names new t
unfolding retarget_from
retarget_from-Names old new [] t h = elim (Option-cases (value_at old [])) [
  | inl absent ↦ let stop : Path (Option Text) none (some t) = rw (retarget_from, absent) at h in cc
  | inr ((q, (r, space)), at) ↦
      let made : Path (Option Text) (some (q ++ (new ++ (r ++ space)))) (some t) =
        rw (retarget_from, at) at h in
      (q, r ++ space, cc)
]
retarget_from-Names old new (c ∷ s) t h = elim (Option-cases (value_at old (c ∷ s))) [
  | inr ((q, (r, space)), at) ↦
      let made : Path (Option Text) (some (q ++ (new ++ (r ++ space)))) (some t) =
        rw (retarget_from, at) at h in
      (q, r ++ space, cc)
  | inl absent ↦ elim (Option-cases (retarget_from old new s)) [
    | inl nowhere ↦
        let stop : Path (Option Text) none (some t) = rw (retarget_from, absent, nowhere) at h in cc
    | inr (later, at) ↦
        let made : Path (Option Text) (some (c ∷ later)) (some t) =
          rw (retarget_from, absent, at) at h in
        let (x, y, e) = retarget_from-Names old new s later at in
        let same : c ∷ later ≡ t = cc in (c ∷ x, y, sym same ∙ ap (λ z. c ∷ z) e)
  ]
]

pub retarget_value-Names :
    (text old new copy : Text) → retarget_value text old new ≡ ok copy → Names new copy
unfolding retarget_value
retarget_value-Names text old new copy h = elim (Option-cases (retarget_from old new text)) [
  | inl absent ↦
      let stop : Path (Result CloneError Text) (raised (CloneError.not_at_end text)) (ok copy) =
        rw (retarget_value, absent) at h in
      cc
  | inr (t, at) ↦
      let made : Path (Result CloneError Text) (ok t) (ok copy) = rw (retarget_value, at) at h in
      let same : t ≡ copy = cc in subst (Names new) same (retarget_from-Names old new text t at)
]

pub Names-after : (new x s : Text) → Names new s → Names new (x ++ s)
Names-after new x s (a, b, e) = (x ++ a, b, ap (λ t. x ++ t) e ∙ sym (append_assoc x a (new ++ b)))

insert-some : (x : Insert) (ys : List Insert) → is_empty (insert insert_lt x ys) ≡ false
unfolding insert
insert-some x [] = refl
insert-some x (y ∷ ys) = elim (Bool-cases (insert_lt y x)) [
  | inl later ↦ rw later refl
  | inr first ↦ rw first refl
]

pub sorted-some : (xs : List Insert) → is_empty xs ≡ false → is_empty (sorted insert_lt xs) ≡ false
unfolding sorted
sorted-some [] h = h
sorted-some (x ∷ xs) h = insert-some x (sorted insert_lt xs)

texts_onto-kept :
    (inserts : List Insert) (adds : List Text)
    → is_empty adds ≡ false
    → is_empty (texts_onto inserts adds) ≡ false
texts_onto-kept [] adds h = h
texts_onto-kept ((pos, add) ∷ inserts) adds h = texts_onto-kept inserts (add ∷ adds) refl

pub texts_onto-some :
    (inserts : List Insert) (adds : List Text)
    → is_empty inserts ≡ false
    → is_empty (texts_onto inserts adds) ≡ false
texts_onto-some [] adds h = cc
texts_onto-some ((pos, add) ∷ inserts) adds h = texts_onto-kept inserts (add ∷ adds) refl
