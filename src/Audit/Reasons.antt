-- ===== src/Audit/Reasons.antt =====
-- The reasons that tools/bspaudit/audit.py gives, and that something is written for each of them.
use tug.Base.{
  ℕ, Bool, true, false, List, [], ◌∷◌, ◌++◌, if◌then◌else◌, Option, some, is_empty, ◌≡◌, refl, sym,
  ◌⊎◌, inl, inr, Bool-cases, Option-cases, All, All-append, arith,
}
use mathlib.Core.Path.{subst}
use tug.Base.Text.{Text, codes, text_eq, text_eq_iff, text_lt, mem_text, rsplit, lower}
use tug.Base.Sort.{sorted}
use tug.Base.SortedList.{All-sorted}
use tug.Base.Dict
use tug.Base.Dict.{Dict, append_to}
use tug.Base.Entries.{All-get}
use tug.Workshop.Refresh.{first_seen, All-first_seen}
use tug.Audit.{
  MapReport, Refs, ends_with, vmt, normalise_material, material_keys, brush_face, or_else, key_refs,
  entity_refs, entities_refs, face_refs, referenced_materials, is_missing, missing_of, refs_lt,
  audit,
}
use tug.Audit.Found.{HasReason}
use tug.Audit.Report.{rules_in, missing_lt}
use tug.Audit.Missing.{MayStrip, rules_in-MayStrip}
use tug.Audit.Remedy.{is_remedied, all-is_remedied}

-- A brush face, or a class and a key.
abbrev IsReason : Text → Type 0
IsReason reason = (reason ≡ brush_face) ⊎ ((parts : Text × Text) × (rsplit 46 reason ≡ some parts))

abbrev AllReasons : Refs → Type 0
AllReasons refs = All (λ (e : Text × List Text). All IsReason e.1) refs

rsplit-dot : (a b : Text) → (parts : Text × Text) × (rsplit 46 (a ++ (46 ∷ b)) ≡ some parts)
unfolding rsplit
rsplit-dot [] b = elim (Option-cases (rsplit 46 b)) [
  | inl nowhere ↦ (([], b), rw nowhere refl)
  | inr ((head, tail), at) ↦ ((46 ∷ head, tail), rw at refl)
]
rsplit-dot (c ∷ a) b = let ((head, tail), at) = rsplit-dot a b in ((c ∷ head, tail), rw at refl)

append_to-AllReasons :
    (mat reason : Text) (refs : Refs)
    → IsReason reason
    → AllReasons refs
    → AllReasons (append_to mat reason refs)
unfolding append_to
append_to-AllReasons mat reason refs h hs =
    Dict.All-update (λ e. All IsReason e.1) mat _ refs (h, tt)
      (λ v old. All-append IsReason v (reason ∷ []) old (h, tt)) hs

face_refs-AllReasons :
    (mats : List Text) (refs : Refs) → AllReasons refs → AllReasons (face_refs refs mats)
unfolding face_refs
face_refs-AllReasons [] refs h = h
face_refs-AllReasons (mat ∷ mats) refs h = elim (Bool-cases (is_empty (normalise_material mat))) [
  | inl none_left ↦ rw none_left (face_refs-AllReasons mats refs h)
  | inr named ↦ rw named (
      face_refs-AllReasons mats (append_to (normalise_material mat) brush_face refs)
        (append_to-AllReasons (normalise_material mat) brush_face refs (inl refl) h))
]

append_if-AllReasons :
    (b : Bool) (mat reason : Text) (refs : Refs)
    → IsReason reason
    → AllReasons refs
    → AllReasons (if b then refs else append_to mat reason refs)
append_if-AllReasons true mat reason refs h hs = hs
append_if-AllReasons false mat reason refs h hs = append_to-AllReasons mat reason refs h hs

key_refs-AllReasons :
    (kvs : Dict Text) (classname : Text) (ks : List Text) (refs : Refs)
    → AllReasons refs
    → AllReasons (key_refs kvs classname refs ks)
unfolding key_refs
key_refs-AllReasons kvs classname [] refs h = h
key_refs-AllReasons kvs classname (k ∷ ks) refs h =
    key_refs-AllReasons kvs classname ks _
      (append_if-AllReasons _ _ (classname ++ (46 ∷ k)) refs (inr (rsplit-dot classname k)) h)

entities_refs-AllReasons :
    (entities : List (Dict Text)) (refs : Refs)
    → AllReasons refs
    → AllReasons (entities_refs refs entities)
unfolding entities_refs entity_refs
entities_refs-AllReasons [] refs h = h
entities_refs-AllReasons (kvs ∷ entities) refs h =
    let classname = or_else (codes "?") (Dict.get (codes "classname") kvs) in
    let model = or_else [] (Dict.get (codes "model") kvs) in
    let found = key_refs-AllReasons kvs classname material_keys refs h in
    elim (Bool-cases (ends_with vmt (lower model))) [
      | inl sprite ↦ rw sprite (
          entities_refs-AllReasons entities _ (
            append_to-AllReasons (normalise_material model) (classname ++ codes ".model") _
              (inr (rsplit-dot classname (codes "model"))) found))
      | inr studio ↦ rw studio (entities_refs-AllReasons entities _ found)
    ]

missing_of-AllReasons :
    (packed : List Text) (content : Option (List Text)) (refs : Refs)
    → AllReasons refs
    → AllReasons (missing_of packed content refs)
unfolding missing_of
missing_of-AllReasons packed content [] h = h
missing_of-AllReasons packed content ((mat, reasons) ∷ refs) (h, hs) =
    elim (Bool-cases (is_missing packed content mat)) [
      | inl lost ↦ rw lost (
        All-sorted IsReason text_lt (first_seen [] reasons) (All-first_seen IsReason [] reasons h),
        missing_of-AllReasons packed content refs hs,
      )
      | inr found ↦ rw found (missing_of-AllReasons packed content refs hs)
    ]

mem_text-All :
    (reason : Text) (reasons : List Text)
    → mem_text reason reasons ≡ true
    → All IsReason reasons
    → IsReason reason
unfolding mem_text
mem_text-All reason [] mem h = cc
mem_text-All reason (r ∷ rs) mem (h, hs) = elim (Bool-cases (text_eq reason r)) [
  | inl same ↦ subst IsReason (sym ((text_eq_iff reason r).0 same)) h
  | inr other ↦ mem_text-All reason rs (ground (arith, mem)) hs
]

-- Every finding of an audit is dealt with: for each material that is reported for a map and each of its
-- reasons, the stubs that are written have a file for it, or the strip rules of that map have a rule for
-- it, or the reason is a key of worldspawn, which no rule strips.
pub audit-is_remedied :
    (name : Text) (version : ℕ) (packed faces : List Text) (entities : List (Dict Text))
    (content : Option (List Text)) (before after : List MapReport) (mat reason : Text)
    → HasReason mat reason (audit name version packed faces entities content).missing
    → (is_remedied
          (before ++ audit name version packed faces entities content ∷ after)
          (audit name version packed faces entities content)
          mat
          reason
        ≡ true)
      × All MayStrip
          (rules_in (sorted missing_lt (audit name version packed faces entities content).missing))
unfolding audit referenced_materials
audit-is_remedied name version packed faces entities content before after mat reason h =
    let r = audit name version packed faces entities content in
    let refs = referenced_materials faces entities in
    let all : AllReasons r.missing = missing_of-AllReasons packed content (sorted refs_lt refs) (
      All-sorted (λ (e : Text × List Text). All IsReason e.1) refs_lt refs
        (entities_refs-AllReasons entities (face_refs [] faces)
          (face_refs-AllReasons faces [] tt))) in
    let (reasons, has, mem) = h in
    (
      all-is_remedied before after r mat reason h (
          mem_text-All reason reasons mem
            (All-get (λ e. All IsReason e.1) mat r.missing reasons all has)),
      rules_in-MayStrip (sorted missing_lt r.missing),
    )
