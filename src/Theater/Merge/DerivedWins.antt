-- ===== src/Theater/Merge/DerivedWins.antt =====
-- A value that the derived side has is never overwritten by a base.
use tug.Base.{
  ℕ, suc, List, [], ◌∷◌, ◌≡◌, ◌≢◌, refl, Option, none, some, Bool-cases, Option-cases, inl, inr,
  ◌∙◌, ap,
}
use tug.Base.Text.{Text}
use tug.Theater.KeyValues.{Kv, Children, leaf, block, nil, cons, same_name, first_named, child}
use tug.Theater.Merge.{base_order, merge, merge-leaf, merge-block_leaf}
use tug.Theater.Merge.Names.{merged_named}
use tug.Theater.Merge.Order.{child-merge, first_named-arrange}

-- The value that a lookup by names finds, the first child of each name taken.
unfoldable pub value_at : List Text → Kv → Option Text
value_at [] (leaf n v) = some v
value_at [] (block n cs) = none
value_at (p ∷ ps) kv = elim (child kv p) [ none ↦ none | some c ↦ value_at ps c ]

abbrev Keeps : List Text → Text → Type 0
Keeps ps v =
    (d b : Kv) (depth : ℕ) → value_at ps d ≡ some v → value_at ps (merge d b depth) ≡ some v

merged_named-Keeps :
    (ps : List Text) (v p : Text)
    → Keeps ps v
    → (bs : Children) (c : Kv) (depth : ℕ) → value_at ps c ≡ some v
    → (c' : Kv) × (merged_named p (some c) bs depth ≡ some c') × (value_at ps c' ≡ some v)
unfolding merged_named
merged_named-Keeps ps v p keep nil c depth h = (c, refl, h)
merged_named-Keeps ps v p keep (cons b bs) c depth h = elim (Bool-cases (same_name p b)) [
  | inl e ↦ rw e (merged_named-Keeps ps v p keep bs (merge c b depth) depth (keep c b depth h))
  | inr e ↦ rw e (merged_named-Keeps ps v p keep bs c depth h)
]

false≢some : (v : Text) → none ≢ some v
false≢some v h = cc

value_at-child :
    (p : Text) (ps : List Text) (kv : Kv) {v : Text}
    → value_at (p ∷ ps) kv ≡ some v
    → (c : Kv) × (child kv p ≡ some c) × (value_at ps c ≡ some v)
unfolding value_at
value_at-child p ps kv {v} h = elim (Option-cases (child kv p)) [
  | inl e ↦ absurd (false≢some v (rw (e, value_at) at h))
  | inr (c, e) ↦ (c, e, rw (e, value_at) at h)
]

child-value_at :
    (p : Text) (ps : List Text) (kv c : Kv)
    → child kv p ≡ some c
    → value_at (p ∷ ps) kv ≡ value_at ps c
unfolding value_at
child-value_at p ps kv c e = rw (e, value_at) refl

-- What a lookup by names finds in the derived tree it finds, unchanged, after a merge with any
-- base at any depth.
pub value_at-merge :
    (ps : List Text) (this base : Kv) (depth : ℕ) (v : Text)
    → value_at ps this ≡ some v
    → value_at ps (merge this base depth) ≡ some v
unfolding value_at child first_named
value_at-merge [] (leaf n w) base depth v h = rw merge-leaf h
value_at-merge [] (block n cs) base depth v h = cc
value_at-merge (p ∷ ps) (leaf n w) base depth v h = cc
value_at-merge (p ∷ ps) (block n cs) (leaf m w) depth v h =
    rw (merge-block_leaf, value_at, first_named-arrange p (base_order depth n) cs [] tt) h
value_at-merge (p ∷ ps) (block n cs) (block m bs) depth v h =
    let (c, found, at) = value_at-child p ps (block n cs) h in
    let (c', merged, at') =
      merged_named-Keeps ps v p (λ d b k e. value_at-merge ps d b k v e) bs c (suc depth) at in
    let step = child-merge p n m cs bs depth ∙ ap (λ o. merged_named p o bs (suc depth)) found in
    child-value_at p ps (merge (block n cs) (block m bs) depth) c' (step ∙ merged) ∙ at'
