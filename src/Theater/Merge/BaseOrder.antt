-- ===== src/Theater/Merge/BaseOrder.antt =====
-- In a section of BASE_ORDER_SECTIONS the definitions of the base come first, in the base's order,
-- and only definitions of the derived side follow.
use tug.Base.{
  ℕ, suc, true, List, [], ◌∷◌, ◌++◌, if◌then◌else◌, ◌≡◌, refl, arith, Option, none, some, All,
  Bool-cases, inl, inr, ◌∙◌, ap, sym,
}
use mathlib.Core.Path.{ap₂}
use tug.Base.Text.{Text, lower, mem_text, text_eq_sym}
use tug.Theater.KeyValues.{Kv, Children, block, nil, cons, ◌+++◌, name_of, children_of, same_name}
use tug.Theater.Merge.{
  absorb, position, merge_children-nil, merge_children-cons, merge-block, mem_index, place, nth,
  cons?, pick, unplaced, arrange, base_order, merge, merge_children,
}
use tug.Theater.Merge.Names.{name_of-merge}
use tug.Theater.Merge.Places.{
  IsFirst, nth-absorb, All-IsFirst-absorb, IsFirst-absorbed, name_of-absorbed, All-place,
}
use tug.Theater.Merge.Order.{IsFirst-same_name}

-- The lowered names of a list of children.
unfoldable pub names : Children → List Text
names nil = []
names (cons c cs) = lower (name_of c) ∷ names cs

unfoldable pub add_name : List Text → Text → List Text
add_name seen n = if mem_text n seen then seen else seen ++ n ∷ []

-- The names of the children, each once, in the order of their first occurrences.
unfoldable pub distinct_names : List Text → Children → List Text
unfolding add_name
distinct_names seen nil = seen
distinct_names seen (cons b bs) = distinct_names (add_name seen (lower (name_of b))) bs

names-append : (cs ds : Children) → names (cs +++ ds) ≡ names cs ++ names ds
unfolding names ◌+++◌
names-append nil ds = refl
names-append (cons c cs) ds = rw (names-append cs ds) refl

names-cons? :
    (o : Option Kv) (c : Kv) (ds : Children)
    → o ≡ some c
    → names (cons? o ds) ≡ lower (name_of c) ∷ names ds
unfolding names
names-cons? none c ds h = cc
names-cons? (some d) c ds h = cc

-- A place is recorded exactly if the name of the child that stands there is.
mem_index-names :
    (n : Text) (cs : Children) (placed : List ℕ)
    → All (IsFirst cs) placed
    → mem_index (position n cs) placed ≡ mem_text (lower n) (names (pick placed cs))
unfolding mem_index mem_text pick names same_name
mem_index-names n cs [] h = refl
mem_index-names n cs (i ∷ is) h =
    let first = h.0 in
    rw (names-cons? (nth cs i) first.here (pick is cs) first.at) (
      ground (
        arith,
        text_eq_sym (lower n) (lower (name_of first.here)),
        IsFirst-same_name n cs i first,
        mem_index-names n cs is h.1,
      ))

module _ (b : Kv) (into : Kv → Kv) (keep : (d : Kv) → name_of (into d) ≡ name_of d) where
  -- What the loop changes in the children already placed is not their names.
  names-pick-absorb :
      (cs : Children) (placed : List ℕ)
      → All (IsFirst cs) placed
      → names (pick placed (absorb b into cs)) ≡ names (pick placed cs)
  unfolding pick
  names-pick-absorb cs [] h = refl
  names-pick-absorb cs (i ∷ is) h =
      let first = h.0 in
      let (c', at, named) = nth-absorb b into cs i first.here keep first.at in
      names-cons? (nth (absorb b into cs) i) c' (pick is (absorb b into cs)) at
      ∙ rw (named, names-pick-absorb cs is h.1)
          (sym (names-cons? (nth cs i) first.here (pick is cs) first.at))

cons?-append : (o : Option Kv) (cs ds : Children) → cons? o (cs +++ ds) ≡ cons? o cs +++ ds
unfolding ◌+++◌
cons?-append none cs ds = refl
cons?-append (some c) cs ds = refl

pick-append : (is js : List ℕ) (cs : Children) → pick (is ++ js) cs ≡ pick is cs +++ pick js cs
unfolding pick ◌+++◌
pick-append [] js cs = refl
pick-append (i ∷ is) js cs =
    ap (cons? (nth cs i)) (pick-append is js cs) ∙ cons?-append (nth cs i) _ _

-- The place that the loop records holds, afterwards, a child of the base child's name.
names-new :
    (b : Kv) (into : Kv → Kv) (keep : (d : Kv) → name_of (into d) ≡ name_of d) (cs : Children)
    → names (pick (position (name_of b) cs ∷ []) (absorb b into cs)) ≡ lower (name_of b) ∷ []
unfolding pick names
names-new b into keep cs =
    let new = IsFirst-absorbed b into keep cs in
    names-cons? (nth (absorb b into cs) (position (name_of b) cs)) new.here nil new.at
    ∙ ap (λ (n : Text). n ∷ []) (name_of-absorbed b into keep cs)

-- One round of the loop: the names placed gain the name of the base's child, unless it is there.
names-place :
    (b : Kv) (into : Kv → Kv) (keep : (d : Kv) → name_of (into d) ≡ name_of d) (cs : Children)
    (placed : List ℕ)
    → All (IsFirst cs) placed
    → names (pick (place (position (name_of b) cs) placed) (absorb b into cs))
      ≡ add_name (names (pick placed cs)) (lower (name_of b))
unfolding place add_name
names-place b into keep cs placed h =
    let i = position (name_of b) cs in
    let known = mem_index-names (name_of b) cs placed h in
    let same = names-pick-absorb b into keep cs placed h in
    elim (Bool-cases (mem_index i placed)) [
      | inl e ↦ rw (e, sym known ∙ e) same
      | inr e ↦
          rw (e, sym known ∙ e, pick-append placed (i ∷ []) (absorb b into cs))
            (names-append (pick placed (absorb b into cs)) _
              ∙ ap₂ (λ (xs ys : List Text). xs ++ ys) same (names-new b into keep cs))
    ]

names-merge_children :
    (cs : Children) (placed : List ℕ) (bs : Children) (depth : ℕ)
    → All (IsFirst cs) placed
    → names (pick (merge_children cs placed bs depth).1 (merge_children cs placed bs depth).0)
      ≡ distinct_names (names (pick placed cs)) bs
unfolding distinct_names
names-merge_children cs placed nil depth h = rw merge_children-nil refl
names-merge_children cs placed (cons b bs) depth h =
    let into = λ (d : Kv). merge d b depth in
    let keep = λ (d : Kv). name_of-merge d b depth in
    let i = position (name_of b) cs in
    rw merge_children-cons (
      names-merge_children (absorb b into cs) (place i placed) bs depth (
        All-place _ i placed (IsFirst-absorbed b into keep cs)
          (All-IsFirst-absorb b into keep cs placed h))
      ∙ ap (λ seen. distinct_names seen bs) (names-place b into keep cs placed h))

-- In a section whose order is the base's (weapon_upgrades, at depth 1), the lowered names of the
-- merged definitions begin with those of the base, each once and in the order of their first
-- occurrences in the base, whatever the derived side restates.
pub names-merge :
    (t u : Text) (cs bs : Children) (depth : ℕ)
    → base_order depth t ≡ true
    → (rest : List Text) × (names (children_of (merge (block t cs) (block u bs) depth))
        ≡ distinct_names [] bs ++ rest)
unfolding arrange names pick
names-merge t u cs bs depth ordered =
    let done = merge_children cs [] bs (suc depth) in
    (
      names (unplaced 0 done.1 done.0),
      rw (merge-block, ordered)
          (names-append (pick done.1 done.0) (unplaced 0 done.1 done.0)
            ∙ ap (λ (ns : List Text). ns ++ names (unplaced 0 done.1 done.0))
                (names-merge_children cs [] bs (suc depth) tt)),
    )
