-- ===== src/Theater/Attachments/Clean.antt =====
-- The clean-up of drop_orphan_attachments() is complete: what it leaves has nothing to drop.
use tug.Base.{List, [], ◌≡◌, refl, sym, ap, Bool-cases, inl, inr}
use tug.Base.Text.{Text, codes, lower, text_eq}
use tug.Base.Result.{ok, ◌>>=◌, >>=-eq-ok}
use tug.Theater.KeyValues.{Kv, Children, leaf, block, nil, cons, same_name, first_named, child}
use tug.Theater.Attachments.{
  Dropped, is_set, is_base, registered_in, weapons_of, registered, drop_unregistered, is_orphan,
  is_section, keep_attachments, walk, walk_child, walk_definitions, walk_sections,
  drop_orphan_attachments,
}

module _ (known : List Text) where
  keep-keep :
      (owner section : Text) (atts : Children)
      → keep_attachments known owner section (keep_attachments known owner section atts).0
        ≡ ((keep_attachments known owner section atts).0, [])
  unfolding keep_attachments
  keep-keep owner section nil = refl
  keep-keep owner section (cons a atts) = elim (Bool-cases (is_orphan known a)) [
    | inl e ↦ rw e (keep-keep owner section atts)
    | inr e ↦ rw e (rw (e, keep-keep owner section atts) refl)
  ]

  mutual
    unfolding walk

    walk-walk :
        (owner : Text) (cs : Children)
        → walk known owner (walk known owner cs).0 ≡ ((walk known owner cs).0, [])
    walk-walk owner nil = refl
    walk-walk owner (cons c cs) = rw (walk_child-walk_child owner c, walk-walk owner cs) refl

    walk_child-walk_child :
        (owner : Text) (c : Kv)
        → walk_child known owner (walk_child known owner c).0 ≡ ((walk_child known owner c).0, [])
    walk_child-walk_child owner (leaf n v) = refl
    walk_child-walk_child owner (block n cs) = elim (Bool-cases (is_section n)) [
      | inl e ↦ rw e (rw (keep-keep owner n cs) refl)
      | inr e ↦ rw e (rw (walk-walk owner cs) refl)
    ]

  definitions-definitions :
      (ds : Children)
      → walk_definitions known (walk_definitions known ds).0 ≡ ((walk_definitions known ds).0, [])
  unfolding walk_definitions
  definitions-definitions nil = refl
  definitions-definitions (cons (leaf n v) ds) = rw (definitions-definitions ds) refl
  definitions-definitions (cons (block n cs) ds) =
      rw (walk-walk n cs, definitions-definitions ds) refl

  sections-sections :
      (ss : Children)
      → walk_sections known (walk_sections known ss).0 ≡ ((walk_sections known ss).0, [])
  unfolding walk_sections
  sections-sections nil = refl
  sections-sections (cons (leaf n v) ss) = rw (sections-sections ss) refl
  sections-sections (cons (block n ds) ss) =
      rw (definitions-definitions ds, sections-sections ss) refl

  -- A walk changes no leaf and no name, so it registers the same weapons.
  is_set-walk :
      (owner key : Text) (cs : Children)
      → is_set (first_named key (walk known owner cs).0) ≡ is_set (first_named key cs)
  unfolding walk first_named same_name is_set
  is_set-walk owner key nil = refl
  is_set-walk owner key (cons (leaf n v) cs) = elim (Bool-cases (text_eq (lower n) (lower key))) [
    | inl e ↦ rw e refl
    | inr e ↦ rw e (is_set-walk owner key cs)
  ]
  is_set-walk owner key (cons (block n ds) cs) = elim (Bool-cases (text_eq (lower n) (lower key))) [
    | inl e ↦ rw e refl
    | inr e ↦ rw e (is_set-walk owner key cs)
  ]

  registered_in-definitions :
      (ds : Children) → registered_in (walk_definitions known ds).0 ≡ registered_in ds
  unfolding registered_in walk_definitions is_base child
  registered_in-definitions nil = refl
  registered_in-definitions (cons (leaf n v) ds) = rw (registered_in-definitions ds) refl
  registered_in-definitions (cons (block n cs) ds) =
      rw (is_set-walk n (codes "IsBase") cs, registered_in-definitions ds) refl

  registered_in-sections :
      (key : Text) (ss : Children)
      → (weapons_of (first_named key (walk_sections known ss).0) >>= λ ws. ok (registered_in ws))
        ≡ (weapons_of (first_named key ss) >>= λ ws. ok (registered_in ws))
  unfolding walk_sections first_named same_name weapons_of
  registered_in-sections key nil = refl
  registered_in-sections key (cons (leaf n v) ss) =
      elim (Bool-cases (text_eq (lower n) (lower key))) [
        | inl e ↦ rw e refl
        | inr e ↦ rw e (registered_in-sections key ss)
      ]
  registered_in-sections key (cons (block n ds) ss) =
      elim (Bool-cases (text_eq (lower n) (lower key))) [
        | inl e ↦ rw e (rw (registered_in-definitions ds) refl)
        | inr e ↦ rw e (registered_in-sections key ss)
      ]

-- The clean-up registers the same weapons before and after it.
registered-drop :
    (known : List Text) (root : Kv) → registered (drop_unregistered known root).0 ≡ registered root
unfolding registered drop_unregistered child
registered-drop known (leaf n v) = refl
registered-drop known (block n ss) = registered_in-sections known (codes "weapons") ss

unregistered-unregistered :
    (known : List Text) (root : Kv)
    → drop_unregistered known (drop_unregistered known root).0
      ≡ ((drop_unregistered known root).0, [])
unfolding drop_unregistered
unregistered-unregistered known (leaf n v) = refl
unregistered-unregistered known (block n ss) = rw (sections-sections known ss) refl

-- When the clean-up of a theater succeeds, cleaning up the result succeeds too, changes nothing and
-- reports nothing: no section that the clean-up visits is left with an attachment that names only
-- unregistered weapons.
pub drop-drop :
    (root kept : Kv) (report : List Dropped)
    → drop_orphan_attachments root ≡ ok (kept, report)
    → drop_orphan_attachments kept ≡ ok (kept, [])
unfolding drop_orphan_attachments
drop-drop root kept report h =
    let (known, e, done) = >>=-eq-ok (registered root) _ h in
    let pair : Path (Kv × List Dropped) (drop_unregistered known root) (kept, report) = cc in
    let same : (drop_unregistered known root).0 ≡ kept = ap (λ (p : Kv × List Dropped). p.0) pair in
    rw (sym same) (rw (registered-drop known root, e, unregistered-unregistered known root) refl)
