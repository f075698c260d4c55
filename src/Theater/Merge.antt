-- ===== src/Theater/Merge.antt =====
-- merge() of tools/theater-build/build.py. Python mutates `this` in place; here the merged block is
-- the result. A child of `this` never moves while the loop runs, so its index stands for its
-- identity, `id(d)`, in `placed` and `seen`.
pub mod Names
pub mod Places
pub mod Order
pub mod BaseOrder
pub mod DerivedWins
use tug.Base.{
  ℕ, zero, suc, ◌+◌, Bool, true, false, ◌&&◌, ◌||◌, List, [], ◌∷◌, ◌++◌, if◌then◌else◌, ◌==◌,
  Option, none, some, ◌≡◌, refl,
}
use tug.Base.Text.{Text, codes, lower, text_eq, mem_text}
use tug.Theater.KeyValues.{Kv, Children, leaf, block, nil, cons, ◌+++◌, name_of, copy, same_name}

-- {"weapon_upgrades"}
abbrev pub base_order_sections : List Text
base_order_sections = codes "weapon_upgrades" ∷ []

-- depth == 1 and this.name.lower() in BASE_ORDER_SECTIONS
unfoldable pub base_order : ℕ → Text → Bool
base_order depth n = depth == 1 && mem_text (lower n) base_order_sections

-- The inner loop with its else: b goes into the first child of its name, or a copy of it is added.
unfoldable pub absorb : Kv → (Kv → Kv) → Children → Children
absorb b into nil = cons (copy b) nil
absorb b into (cons d ds) =
    if same_name (name_of b) d then cons (into d) ds else cons d (absorb b into ds)

-- The index that `d` has when the inner loop is over: the first child of that name, or the end.
unfoldable pub position : Text → Children → ℕ
position n nil = 0
position n (cons d ds) = let after = position n ds in if same_name n d then 0 else suc after

unfoldable pub mem_index : ℕ → List ℕ → Bool
mem_index i [] = false
mem_index i (j ∷ js) = i == j || mem_index i js

-- if id(d) not in seen: placed.append(d); seen.add(id(d))
unfoldable pub place : ℕ → List ℕ → List ℕ
unfolding mem_index
place i placed = if mem_index i placed then placed else placed ++ i ∷ []

unfoldable pub nth : Children → ℕ → Option Kv
nth nil i = none
nth (cons c cs) zero = some c
nth (cons c cs) (suc i) = nth cs i

abbrev pub cons? : Option Kv → Children → Children
cons? none cs = cs
cons? (some c) cs = cons c cs

-- the children that `placed` holds, in its order
unfoldable pub pick : List ℕ → Children → Children
pick [] cs = nil
pick (i ∷ is) cs = cons? (nth cs i) (pick is cs)

-- [d for d in this.children if id(d) not in seen], from the index k on
unfoldable pub unplaced : ℕ → List ℕ → Children → Children
unplaced k placed nil = nil
unplaced k placed (cons c cs) =
    let rest = unplaced (suc k) placed cs in if mem_index k placed then rest else cons c rest

-- placed + the others, where the base's order counts
unfoldable pub arrange : Bool → Children × List ℕ → Children
unfolding pick unplaced nth mem_index ◌+++◌
arrange ordered (cs, placed) = if ordered then pick placed cs +++ unplaced 0 placed cs else cs

unfoldable mutual
  -- merge(this, base, depth)
  pub merge : Kv → Kv → ℕ → Kv
  merge (leaf n v) base depth = leaf n v
  merge (block n cs) (leaf m v) depth = block n (arrange (base_order depth n) (cs, []))
  merge (block n cs) (block m bs) depth =
      block n (arrange (base_order depth n) (merge_children cs [] bs (suc depth)))

  -- The loop over the base's children, with the children of `this` and `placed`.
  pub merge_children : Children → List ℕ → Children → ℕ → Children × List ℕ
  merge_children cs placed nil depth = (cs, placed)
  merge_children cs placed (cons b bs) depth =
      merge_children (absorb b (λ d. merge d b depth) cs) (place (position (name_of b) cs) placed)
        bs depth

pub merge_children-nil :
    (cs : Children) (placed : List ℕ) (depth : ℕ)
    → merge_children cs placed nil depth ≡ (cs, placed)
unfolding merge
merge_children-nil cs placed depth = refl

pub merge_children-cons :
    (cs : Children) (placed : List ℕ) (b : Kv) (bs : Children) (depth : ℕ)
    → merge_children cs placed (cons b bs) depth
      ≡ merge_children
          (absorb b (λ d. merge d b depth) cs)
          (place (position (name_of b) cs) placed)
          bs
          depth
unfolding merge
merge_children-cons cs placed b bs depth = refl

pub merge-leaf : (n v : Text) (base : Kv) (depth : ℕ) → merge (leaf n v) base depth ≡ leaf n v
unfolding merge
merge-leaf n v base depth = refl

pub merge-block_leaf :
    (n m v : Text) (cs : Children) (depth : ℕ)
    → merge (block n cs) (leaf m v) depth ≡ block n (arrange (base_order depth n) (cs, []))
unfolding merge
merge-block_leaf n m v cs depth = refl

pub merge-block :
    (n m : Text) (cs bs : Children) (depth : ℕ)
    → merge (block n cs) (block m bs) depth
      ≡ block n (arrange (base_order depth n) (merge_children cs [] bs (suc depth)))
unfolding merge
merge-block n m cs bs depth = refl
