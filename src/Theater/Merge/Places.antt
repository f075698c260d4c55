-- ===== src/Theater/Merge/Places.antt =====
-- The places that merge() records: each is the place of the first child of its name, and stays so.
use tug.Base.{
  ℕ, zero, suc, true, List, [], ◌∷◌, ◌≡◌, refl, arith, some, All, All-append, Bool-cases,
  Option-cases, inl, inr, ◌∙◌, sym,
}
use tug.Base.Text.{Text, lower, text_eq_refl}
use tug.Theater.KeyValues.{Kv, Children, nil, cons, name_of, copy-id, same_name, first_named}
use tug.Theater.Merge.{
  absorb, position, merge_children-nil, merge_children-cons, mem_index, place, nth, merge,
  merge_children,
}
use tug.Theater.Merge.Names.{same_name-eq, same_name-of_eq, name_of-merge, first_named-absorb}

pub nth-position : (n : Text) (cs : Children) → nth cs (position n cs) ≡ first_named n cs
unfolding nth position first_named
nth-position n nil = refl
nth-position n (cons d ds) = ground (arith, nth-position n ds)

pub position-of_eq :
    (m n : Text) (cs : Children) → lower m ≡ lower n → position m cs ≡ position n cs
unfolding position
position-of_eq m n nil e = refl
position-of_eq m n (cons d ds) e = rw (same_name-of_eq m n d e, position-of_eq m n ds e) refl

pub first_named-same :
    (n : Text) (cs : Children) {c : Kv} → first_named n cs ≡ some c → same_name n c ≡ true
unfolding first_named
first_named-same n nil h = cc
first_named-same n (cons d ds) {c} h = ground (arith, first_named-same n ds {c = c})

-- Where the loop has a child of the name n afterwards, its place is the one it had before.
pub position-absorb :
    (n : Text) (b : Kv) (into : Kv → Kv) (cs : Children) (c : Kv)
    → ((d : Kv) → name_of (into d) ≡ name_of d)
    → first_named n (absorb b into cs) ≡ some c
    → position n (absorb b into cs) ≡ position n cs
unfolding first_named absorb position same_name
position-absorb n b into nil c keep h = ground (arith, copy-id b)
position-absorb n b into (cons d ds) c keep h =
    ground (arith, keep d, position-absorb n b into ds c keep)

-- A child keeps its place and its name.
pub nth-absorb :
    (b : Kv) (into : Kv → Kv) (cs : Children) (i : ℕ) (c : Kv)
    → ((d : Kv) → name_of (into d) ≡ name_of d)
    → nth cs i ≡ some c
    → (c' : Kv) × (nth (absorb b into cs) i ≡ some c') × (name_of c' ≡ name_of c)
unfolding nth absorb
nth-absorb b into nil i c keep h = cc
nth-absorb b into (cons d ds) zero c keep h = elim (Bool-cases (same_name (name_of b) d)) [
  | inl e ↦ (into d, rw e refl, keep d ∙ cc)
  | inr e ↦ (d, rw e refl, cc)
]
nth-absorb b into (cons d ds) (suc i) c keep h = elim (Bool-cases (same_name (name_of b) d)) [
  | inl e ↦ (c, rw e h, refl)
  | inr e ↦ let (c', at, named) = nth-absorb b into ds i c keep h in (c', rw e at, named)
]

-- i is the place of the first child that has its name.
pub record IsFirst (cs : Children) (i : ℕ) : Type 0 where
  pub here : Kv
  pub at : nth cs i ≡ some here
  pub first : position (name_of here) cs ≡ i

same_name_self : (c : Kv) → same_name (name_of c) c ≡ true
unfolding same_name
same_name_self c = text_eq_refl _

module _ (b : Kv) (into : Kv → Kv) (keep : (d : Kv) → name_of (into d) ≡ name_of d) where
  found-absorb :
      (n : Text) (cs : Children) (c : Kv)
      → first_named n cs ≡ some c
      → (d : Kv) × (first_named n (absorb b into cs) ≡ some d)
  found-absorb n cs c h = elim (Bool-cases (same_name n b)) [
    | inl e ↦ (into c, rw (first_named-absorb n b into cs keep, e, h) refl)
    | inr e ↦ (c, rw (first_named-absorb n b into cs keep, e) h)
  ]

  found-absorbed :
      (cs : Children) → (d : Kv) × (first_named (name_of b) (absorb b into cs) ≡ some d)
  found-absorbed cs = elim (Option-cases (first_named (name_of b) cs)) [
    | inl e ↦ (b, rw (first_named-absorb (name_of b) b into cs keep, same_name_self b, e) refl)
    | inr (c, e) ↦ found-absorb (name_of b) cs c e
  ]

  IsFirst-absorb : (cs : Children) (i : ℕ) → IsFirst cs i → IsFirst (absorb b into cs) i
  IsFirst-absorb cs i h =
      let n = name_of h.here in
      let (c', at, named) = nth-absorb b into cs i h.here keep h.at in
      let found = sym (nth-position n cs) ∙ rw h.first h.at in
      let (d, found') = found-absorb n cs h.here found in
      record {
        here = c';
        at = at;
        first = rw named (position-absorb n b into cs d keep found' ∙ h.first);
      }

  pub IsFirst-absorbed : (cs : Children) → IsFirst (absorb b into cs) (position (name_of b) cs)
  IsFirst-absorbed cs =
      let n = name_of b in
      let (d, found) = found-absorbed cs in
      let stays = position-absorb n b into cs d keep found in
      let same = same_name-eq n d (first_named-same n (absorb b into cs) found) in
      record {
        here = d;
        at = rw (← stays) (nth-position n (absorb b into cs) ∙ found);
        first = position-of_eq (name_of d) n (absorb b into cs) same ∙ stays;
      }

  pub name_of-absorbed :
      (cs : Children) → lower (name_of (IsFirst-absorbed cs).here) ≡ lower (name_of b)
  unfolding IsFirst-absorbed
  name_of-absorbed cs =
      let (d, found) = found-absorbed cs in
      same_name-eq (name_of b) d (first_named-same (name_of b) (absorb b into cs) found)

  pub All-IsFirst-absorb :
      (cs : Children) (placed : List ℕ)
      → All (IsFirst cs) placed
      → All (IsFirst (absorb b into cs)) placed
  All-IsFirst-absorb cs [] h = tt
  All-IsFirst-absorb cs (i ∷ is) h = (IsFirst-absorb cs i h.0, All-IsFirst-absorb cs is h.1)

pub All-place :
    (P : ℕ → Type 0) (i : ℕ) (placed : List ℕ) → P i → All P placed → All P (place i placed)
unfolding place
All-place P i placed hi h = elim (Bool-cases (mem_index i placed)) [
  | inl e ↦ rw e h
  | inr e ↦ rw e (All-append P placed (i ∷ []) h (hi, tt))
]

-- All places that the loop records are first places of the children that it ends with.
pub merge_children-IsFirst :
    (cs : Children) (placed : List ℕ) (bs : Children) (depth : ℕ)
    → All (IsFirst cs) placed
    → All (IsFirst (merge_children cs placed bs depth).0) (merge_children cs placed bs depth).1
merge_children-IsFirst cs placed nil depth h = rw merge_children-nil h
merge_children-IsFirst cs placed (cons b bs) depth h =
    let into = λ (d : Kv). merge d b depth in
    let keep = λ (d : Kv). name_of-merge d b depth in
    rw merge_children-cons (
      merge_children-IsFirst (absorb b into cs) (place (position (name_of b) cs) placed) bs depth (
        All-place _ (position (name_of b) cs) placed (IsFirst-absorbed b into keep cs)
          (All-IsFirst-absorb b into keep cs placed h)))
