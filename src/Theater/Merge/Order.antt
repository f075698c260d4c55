-- ===== src/Theater/Merge/Order.antt =====
-- The order of a merged block, and that the reordering of BASE_ORDER_SECTIONS moves definitions
-- without changing what any name stands for.
use tug.Base.{
  ℕ, suc, ◌+◌, Bool, true, false, List, [], ◌∷◌, if◌then◌else◌, ◌==◌, ◌≡◌, refl, arith, Option,
  none, some, All, Bool-cases, Option-cases, inl, inr, ◌∙◌, ap, sym, ==_iff,
}
use native.Mathlib.Nat.{add-zero, zero-add}
use tug.Base.Text.{Text}
use tug.Theater.KeyValues.{
  Kv, Children, block, nil, cons, ◌+++◌, name_of, same_name, first_named, child,
}
use tug.Theater.Merge.{
  position, merge-block, mem_index, nth, cons?, pick, unplaced, arrange, base_order, merge,
}
use tug.Theater.Merge.Names.{same_name-eq, merged_named, merge_children-named}
use tug.Theater.Merge.Places.{
  IsFirst, nth-position, position-of_eq, first_named-same, merge_children-IsFirst,
}

-- At a first place stands the child of the name n exactly if n's place is that one.
pub IsFirst-same_name :
    (n : Text) (cs : Children) (i : ℕ) (h : IsFirst cs i)
    → same_name n h.here ≡ (position n cs == i)
IsFirst-same_name n cs i h = elim (Bool-cases (same_name n h.here)) [
  | inl e ↦
      let same = position-of_eq (name_of h.here) n cs (same_name-eq n h.here e) in
      e ∙ sym ((==_iff (position n cs) i).1 (sym same ∙ h.first))
  | inr e ↦ elim (Bool-cases (position n cs == i)) [
    | inl e' ↦
        let at = (==_iff (position n cs) i).0 e' in
        let found = sym (nth-position n cs) ∙ ap (nth cs) at ∙ h.at in
        absurd (cc (first_named-same n cs found))
    | inr e' ↦ e ∙ sym e'
  ]
]

k_next : (k p : ℕ) → k + suc p ≡ suc k + p
k_next k p = omega arith

module _ (n : Text) where
  first_named-cons? :
      (o : Option Kv) (c : Kv) (ds : Children)
      → o ≡ some c
      → first_named n (cons? o ds) ≡ (if same_name n c then some c else first_named n ds)
  unfolding first_named
  first_named-cons? none c ds h = cc
  first_named-cons? (some d) c ds h = ground arith

  first_named-pick :
      (cs : Children) (placed : List ℕ)
      → All (IsFirst cs) placed
      → first_named n (pick placed cs)
        ≡ (if mem_index (position n cs) placed then first_named n cs else none)
  unfolding pick mem_index first_named
  first_named-pick cs [] h = refl
  first_named-pick cs (i ∷ is) h =
      let first = h.0 in
      rw
        (
          first_named-cons? (nth cs i) first.here (pick is cs) first.at,
          IsFirst-same_name n cs i first,
          first_named-pick cs is h.1,
        )
        (elim (Bool-cases (position n cs == i)) [
          | inl e ↦ rw e (sym first.at ∙ ap (nth cs) (sym ((==_iff _ i).0 e)) ∙ nth-position n cs)
          | inr e ↦ rw e refl
        ])

  first_named-unplaced :
      (k : ℕ) (placed : List ℕ) (cs : Children)
      → mem_index (k + position n cs) placed ≡ false
      → first_named n (unplaced k placed cs) ≡ first_named n cs
  unfolding first_named unplaced position
  first_named-unplaced k placed nil h = refl
  first_named-unplaced k placed (cons c cs) h =
      ground (arith, first_named-unplaced (suc k) placed cs, k_next k (position n cs), add-zero k)

  first_named-unplaced-none :
      (k : ℕ) (placed : List ℕ) (cs : Children)
      → first_named n cs ≡ none
      → first_named n (unplaced k placed cs) ≡ none
  unfolding first_named unplaced
  first_named-unplaced-none k placed nil h = refl
  first_named-unplaced-none k placed (cons c cs) h =
      ground (arith, first_named-unplaced-none (suc k) placed cs)

  first_named-append :
      (cs ds : Children) {c : Kv} → first_named n cs ≡ some c → first_named n (cs +++ ds) ≡ some c
  unfolding first_named ◌+++◌
  first_named-append nil ds h = cc
  first_named-append (cons d cs) ds {c} h = ground (arith, first_named-append cs ds {c = c})

  first_named-append_none :
      (cs ds : Children) → first_named n cs ≡ none → first_named n (cs +++ ds) ≡ first_named n ds
  unfolding first_named ◌+++◌
  first_named-append_none nil ds h = refl
  first_named-append_none (cons d cs) ds h = ground (arith, first_named-append_none cs ds)

  -- Reordering by first places changes the child of no name.
  pub first_named-arrange :
      (ordered : Bool) (cs : Children) (placed : List ℕ)
      → All (IsFirst cs) placed
      → first_named n (arrange ordered (cs, placed)) ≡ first_named n cs
  unfolding arrange
  first_named-arrange false cs placed h = refl
  first_named-arrange true cs placed h = elim (Bool-cases (mem_index (position n cs) placed)) [
    | inr e ↦
        let nothing = rw e at (first_named-pick cs placed h) in
        first_named-append_none (pick placed cs) _ nothing
        ∙ first_named-unplaced 0 placed cs (rw (zero-add) e)
    | inl e ↦
        let picked = rw e at (first_named-pick cs placed h) in
        elim (Option-cases (first_named n cs)) [
          | inl absent ↦
              first_named-append_none (pick placed cs) _ (picked ∙ absent)
              ∙ first_named-unplaced-none 0 placed cs absent
              ∙ sym absent
          | inr (c, found) ↦ first_named-append (pick placed cs) _ (picked ∙ found) ∙ sym found
        ]
  ]

-- The child of any name n of a merged block, at any depth and in a reordered section too: the
-- derived block's first child of that name, or none, with all the children of that name of the
-- base merged in, one after the other; where the derived block has none, the first of them.
pub child-merge :
    (n t u : Text) (cs bs : Children) (depth : ℕ)
    → child (merge (block t cs) (block u bs) depth) n
      ≡ merged_named n (child (block t cs) n) bs (suc depth)
unfolding child
child-merge n t u cs bs depth = rw merge-block (
    first_named-arrange n (base_order depth t) _ _ (merge_children-IsFirst cs [] bs (suc depth) tt)
    ∙ merge_children-named n cs [] bs (suc depth))
