-- ===== src/Audit/Found.antt =====
-- What tools/bspaudit/audit.py finds of the materials that the entities of a map name.
use tug.Base.{
  ℕ, Bool, true, false, not, ◌&&◌, List, [], ◌∷◌, ◌++◌, if◌then◌else◌, Option, none, some, is_empty,
  ◌≡◌, refl, sym, ap, ◌∙◌, inl, inr, Bool-cases, Option-cases, arith,
}
use mathlib.Core.Path.{subst}
use tug.Base.Text.{
  Text, codes, text_eq, text_eq_iff, text_eq_refl, text_lt, mem_text, lower, starts_with,
}
use tug.Base.Members.{mem_text-sorted, mem_text-append, mem_text-one, mem_text-none}
use tug.Base.Sort.{sorted}
use tug.Base.Dict
use tug.Base.Dict.{Dict, append_to}
use tug.Workshop.Refresh.{first_seen, is_id}
use tug.Audit.{
  Refs, ends_with, vmt, normalise_material, material_keys, enum_material_classes, or_else, key_refs,
  entity_refs, entities_refs, face_refs, referenced_materials, is_missing, audit, materials_dir,
}
use tug.Audit.Missing.{entry_for, get-audit}

mem_text-first_seen :
    (s : Text) (seen xs : List Text)
    → mem_text s (first_seen seen xs) ≡ (mem_text s xs && not (mem_text s seen))
unfolding mem_text first_seen
mem_text-first_seen s seen [] = refl
mem_text-first_seen s seen (x ∷ xs) = elim (Bool-cases (text_eq s x)) [
  | inl same ↦
      let e = (text_eq_iff s x).0 same in
      elim (Bool-cases (mem_text s seen)) [
        | inl old ↦
            let seen' : mem_text x seen ≡ true = subst (λ t. mem_text t seen ≡ true) e old in
            rw (seen', mem_text-first_seen s seen xs, old) (ground arith)
        | inr new ↦
            let new' : mem_text x seen ≡ false = subst (λ t. mem_text t seen ≡ false) e new in
            rw (new', same, new) refl
      ]
  | inr other ↦ ground (arith, mem_text-first_seen s seen xs, mem_text-first_seen s (x ∷ seen) xs)
]

-- A reason that a material is referenced for.
abbrev pub HasReason : Text → Text → Refs → Type 0
HasReason mat reason refs =
    (reasons : List Text) × (Dict.get mat refs ≡ some reasons) × (mem_text reason reasons ≡ true)

-- A list that a key may have.
abbrev listed : Option (List Text) → List Text
listed none = []
listed (some xs) = xs

get-append_to :
    (k j x : Text) (d : Refs)
    → Dict.get j (append_to k x d)
      ≡ (if text_eq k j then some (listed (Dict.get k d) ++ x ∷ []) else Dict.get j d)
unfolding append_to
get-append_to k j x d = elim (Option-cases (Dict.get k d)) [
  | inl new ↦ Dict.get-update k j _ d ∙ rw new refl
  | inr (xs, old) ↦ Dict.get-update k j _ d ∙ rw old refl
]

append_to-HasReason :
    (mat reason : Text) (refs : Refs) → HasReason mat reason (append_to mat reason refs)
append_to-HasReason mat reason refs = (
  listed (Dict.get mat refs) ++ reason ∷ [],
  get-append_to mat mat reason refs ∙ rw (text_eq_refl mat) refl,
  mem_text-append reason (listed (Dict.get mat refs)) (reason ∷ [])
      ∙ rw (mem_text-one reason) (ground arith),
)

append_to-keeps :
    (mat reason n r : Text) (refs : Refs)
    → HasReason mat reason refs
    → HasReason mat reason (append_to n r refs)
append_to-keeps mat reason n r refs (reasons, has, mem) = elim (Bool-cases (text_eq n mat)) [
  | inl same ↦ (
    reasons ++ r ∷ [],
    get-append_to n mat r refs ∙ rw (same, (text_eq_iff n mat).0 same, has) refl,
    mem_text-append reason reasons (r ∷ []) ∙ rw mem refl,
  )
  | inr other ↦ (reasons, get-append_to n mat r refs ∙ rw other has, mem)
]

-- A step that appends or does not.
append_if-keeps :
    (b : Bool) (mat reason n r : Text) (refs : Refs)
    → HasReason mat reason refs
    → HasReason mat reason (if b then refs else append_to n r refs)
append_if-keeps true mat reason n r refs h = h
append_if-keeps false mat reason n r refs h = append_to-keeps mat reason n r refs h

key_refs-keeps :
    (kvs : Dict Text) (classname mat reason : Text) (ks : List Text) (refs : Refs)
    → HasReason mat reason refs
    → HasReason mat reason (key_refs kvs classname refs ks)
unfolding key_refs
key_refs-keeps kvs classname mat reason [] refs h = h
key_refs-keeps kvs classname mat reason (k ∷ ks) refs h =
    key_refs-keeps kvs classname mat reason ks _ (append_if-keeps _ mat reason _ _ refs h)

entity_refs-keeps :
    (mat reason : Text) (refs : Refs) (kvs : Dict Text)
    → HasReason mat reason refs
    → HasReason mat reason (entity_refs refs kvs)
unfolding entity_refs
entity_refs-keeps mat reason refs kvs h =
    let found =
      key_refs-keeps kvs (or_else (codes "?") (Dict.get (codes "classname") kvs)) mat reason
        material_keys refs h in
    elim (Bool-cases (ends_with vmt (lower (or_else [] (Dict.get (codes "model") kvs))))) [
      | inl sprite ↦ rw sprite (append_to-keeps mat reason _ _ _ found)
      | inr studio ↦ rw studio found
    ]

entities_refs-keeps :
    (mat reason : Text) (refs : Refs) (entities : List (Dict Text))
    → HasReason mat reason refs
    → HasReason mat reason (entities_refs refs entities)
unfolding entities_refs
entities_refs-keeps mat reason refs [] h = h
entities_refs-keeps mat reason refs (kvs ∷ entities) h =
    entities_refs-keeps mat reason (entity_refs refs kvs) entities
      (entity_refs-keeps mat reason refs kvs h)

-- A value that the audit takes for a material: not empty, neither an enum nor a number.
abbrev pub NamesMaterial : Text → Text → Text → Type 0
NamesMaterial classname key val =
    (is_empty val ≡ false)
    × ((text_eq key (codes "material") && mem_text classname enum_material_classes) ≡ false)
    × (is_empty (normalise_material val) ≡ false)
    × (is_id (normalise_material val) ≡ false)

key_refs-HasReason :
    (kvs : Dict Text) (classname key val : Text) (ks : List Text) (refs : Refs)
    → Dict.get key kvs ≡ some val
    → NamesMaterial classname key val
    → mem_text key ks ≡ true
    → HasReason (normalise_material val) (classname ++ (46 ∷ key)) (key_refs kvs classname refs ks)
unfolding key_refs mem_text
key_refs-HasReason kvs classname key val [] refs has names mem = cc
key_refs-HasReason kvs classname key val (k ∷ ks) refs has names mem =
    elim (Bool-cases (text_eq key k)) [
      | inl same ↦
          let e = (text_eq_iff key k).0 same in
          let (filled, material, norm, digits) = names in
          rw (sym e, has, filled, material, norm, digits)
            (key_refs-keeps kvs classname _ _ ks _ (append_to-HasReason _ _ refs))
      | inr other ↦ key_refs-HasReason kvs classname key val ks _ has names (ground (arith, mem))
    ]

-- A content index, where there is one, that does not list a material.
abbrev pub IsUnlisted : Text → Option (List Text) → Type 0
IsUnlisted mat none = Unit
IsUnlisted mat (some index) = mem_text mat index ≡ false

is_missing-true :
    (packed : List Text) (content : Option (List Text)) (mat : Text)
    → is_empty mat ≡ false
    → starts_with (codes "tools/") mat ≡ false
    → mem_text (materials_dir ++ (mat ++ vmt)) packed ≡ false
    → IsUnlisted mat content
    → is_missing packed content mat ≡ true
unfolding is_missing
is_missing-true packed none mat full rendered unpacked unlisted = rw (full, rendered, unpacked) refl
is_missing-true packed (some index) mat full rendered unpacked unlisted =
    rw (full, rendered, unpacked, unlisted) refl

entities_refs-append :
    (refs : Refs) (before after : List (Dict Text))
    → entities_refs refs (before ++ after) ≡ entities_refs (entities_refs refs before) after
unfolding entities_refs
entities_refs-append refs [] after = refl
entities_refs-append refs (kvs ∷ before) after =
    entities_refs-append (entity_refs refs kvs) before after

entity_refs-HasReason :
    (kvs : Dict Text) (classname key val : Text) (refs : Refs)
    → Dict.get (codes "classname") kvs ≡ some classname
    → mem_text key material_keys ≡ true
    → Dict.get key kvs ≡ some val
    → NamesMaterial classname key val
    → HasReason (normalise_material val) (classname ++ (46 ∷ key)) (entity_refs refs kvs)
unfolding entity_refs
entity_refs-HasReason kvs classname key val refs class mem has names =
    let found = key_refs-HasReason kvs classname key val material_keys refs has names mem in
    elim (Bool-cases (ends_with vmt (lower (or_else [] (Dict.get (codes "model") kvs))))) [
      | inl sprite ↦ rw (class, sprite) (append_to-keeps _ _ _ _ _ found)
      | inr studio ↦ rw (class, studio) found
    ]

-- Nothing that an entity names is overlooked: if an entity of a map has a class and, under one of the
-- keys for materials, a value that is taken for a material, and that is none of the materials under
-- tools/, which the audit passes over, and neither the map nor the content index has it, then the report
-- lists it with that class and key among its reasons.
pub audit-HasReason :
    (name : Text) (version : ℕ) (packed faces : List Text) (before after : List (Dict Text))
    (content : Option (List Text)) (kvs : Dict Text) (classname key val : Text)
    → Dict.get (codes "classname") kvs ≡ some classname
    → mem_text key material_keys ≡ true
    → Dict.get key kvs ≡ some val
    → NamesMaterial classname key val
    → starts_with (codes "tools/") (normalise_material val) ≡ false
    → mem_text (materials_dir ++ (normalise_material val ++ vmt)) packed ≡ false
    → IsUnlisted (normalise_material val) content
    → HasReason
        (normalise_material val)
        (classname ++ (46 ∷ key))
        (audit name version packed faces (before ++ kvs ∷ after) content).missing
unfolding referenced_materials entities_refs
audit-HasReason name version packed faces before after content kvs classname key val class mem has
      names rendered unpacked unlisted =
    let lost =
      is_missing-true packed content (normalise_material val) names.2 rendered unpacked unlisted in
    let entities = before ++ kvs ∷ after in
    let mat = normalise_material val in
    let reason = classname ++ (46 ∷ key) in
    let (reasons, listed_so, mem_reason) : HasReason mat reason
        (referenced_materials faces entities) =
      subst (HasReason mat reason)
        (sym (entities_refs-append (face_refs [] faces) before (kvs ∷ after)))
        (entities_refs-keeps mat reason _ after
          (entity_refs-HasReason kvs classname key val _ class mem has names)) in
    (
      sorted text_lt (first_seen [] reasons),
      get-audit name version packed faces entities content mat
          ∙ ap (entry_for packed content mat) listed_so
          ∙ rw lost refl,
      mem_text-sorted reason (first_seen [] reasons)
          ∙ mem_text-first_seen reason [] reasons
          ∙ rw mem_reason (mem_text-none reason),
    )
