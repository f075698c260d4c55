-- ===== src/Theater/Merge/Names.antt =====
-- What a merge does to the child of a given name: merge() as a function of names, not of places.
use tug.Base.{ℕ, true, List, if◌then◌else◌, ◌≡◌, refl, arith, Option, none, some, ◌∙◌}
use tug.Base.Text.{Text, lower, text_eq_iff}
use tug.Theater.KeyValues.{
  Kv, Children, leaf, block, nil, cons, name_of, copy-id, same_name, first_named,
}
use tug.Theater.Merge.{
  absorb, position, merge_children-nil, merge_children-cons, place, merge, merge_children,
}

-- What the loop makes of the child that it has so far, `none` if there is no such child.
abbrev pub combine : Option Kv → Kv → ℕ → Option Kv
combine none b depth = some b
combine (some d) b depth = some (merge d b depth)

-- The children of the base with the name n, merged in one after the other.
unfoldable pub merged_named : Text → Option Kv → Children → ℕ → Option Kv
merged_named n o nil depth = o
merged_named n o (cons b bs) depth =
    merged_named n (if same_name n b then combine o b depth else o) bs depth

-- A merge keeps the name of the derived side.
pub name_of-merge : (this base : Kv) (depth : ℕ) → name_of (merge this base depth) ≡ name_of this
unfolding merge
name_of-merge (leaf n v) base depth = refl
name_of-merge (block n cs) (leaf m v) depth = refl
name_of-merge (block n cs) (block m bs) depth = refl

-- Sharing a name is an equality of lowered names.
pub same_name-eq : (n : Text) (c : Kv) → same_name n c ≡ true → lower (name_of c) ≡ lower n
unfolding same_name
same_name-eq n c h = (text_eq_iff _ _).0 h

pub same_name-of_eq : (m n : Text) (c : Kv) → lower m ≡ lower n → same_name m c ≡ same_name n c
unfolding same_name
same_name-of_eq m n c e = rw e

abbrev pub absorbed : Option Kv → Kv → (Kv → Kv) → Option Kv
absorbed none b into = some b
absorbed (some d) b into = some (into d)

pub first_named-absorb :
    (n : Text) (b : Kv) (into : Kv → Kv) (cs : Children)
    → ((d : Kv) → name_of (into d) ≡ name_of d)
    → first_named n (absorb b into cs)
      ≡ (if same_name n b then absorbed (first_named n cs) b into else first_named n cs)
unfolding first_named absorb same_name
first_named-absorb n b into nil keep = rw copy-id refl
first_named-absorb n b into (cons d ds) keep = ground (
  arith,
  keep d,
  first_named-absorb n b into ds keep,
  text_eq_iff (lower (name_of d)) (lower (name_of b)),
  text_eq_iff (lower (name_of d)) (lower n),
  text_eq_iff (lower (name_of b)) (lower n),
)

absorbed-combine :
    (o : Option Kv) (b : Kv) (depth : ℕ) → absorbed o b (λ d. merge d b depth) ≡ combine o b depth
absorbed-combine none b depth = refl
absorbed-combine (some d) b depth = refl

pub merge_children-named :
    (n : Text) (cs : Children) (placed : List ℕ) (bs : Children) (depth : ℕ)
    → first_named n (merge_children cs placed bs depth).0
      ≡ merged_named n (first_named n cs) bs depth
unfolding merged_named
merge_children-named n cs placed nil depth = rw merge_children-nil refl
merge_children-named n cs placed (cons b bs) depth =
    let into = λ (d : Kv). merge d b depth in
    rw merge_children-cons (
      merge_children-named n (absorb b into cs) (place (position (name_of b) cs) placed) bs depth
      ∙ rw
          (
            first_named-absorb n b into cs (λ d. name_of-merge d b depth),
            absorbed-combine (first_named n cs) b depth,
          )
          refl)
