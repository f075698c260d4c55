-- ===== src/Audit/Remedy.antt =====
-- What tools/bspaudit/audit.py writes about each material that it reports.
use tug.Base.{
  Bool, true, false, ◌&&◌, ◌||◌, List, [], ◌∷◌, ◌++◌, map, any, any-append, if◌then◌else◌, Option,
  none, some, ◌≡◌, refl, sym, ◌⊎◌, ◌∙◌, inl, inr, Bool-cases, Option-cases, arith,
}
use mathlib.Core.Path.{subst}
use tug.Base.Text.{Text, codes, text_eq, text_eq_iff, text_eq_refl, text_lt, mem_text, rsplit}
use tug.Base.Sort.{sorted}
use tug.Base.SortedList.{any-sorted}
use tug.Base.SortedDict.{get-sorted, text_lt_irrefl}
use tug.Base.Dict
use tug.Base.Dict.{Dict, append_to, keys}
use tug.Audit.{MapReport, Refs, brush_face}
use tug.Audit.Report.{
  never_strip, Rule, rules_of, rules_in, face_maps, all_face_maps, one_slash, write_stubs,
  missing_lt,
}
use tug.Audit.Found.{HasReason}

-- A rule of a material, class and key is among the rules.
unfoldable pub has_rule : Text → Text → Text → List Rule → Bool
has_rule mat classname key rules =
    any (λ (r : Rule). text_eq r.mat mat && text_eq r.classname classname && text_eq r.key key)
      rules

has_rule-append :
    (mat classname key : Text) (rs ss : List Rule)
    → has_rule mat classname key (rs ++ ss)
      ≡ (has_rule mat classname key rs || has_rule mat classname key ss)
unfolding has_rule
has_rule-append mat classname key rs ss = any-append _ rs ss

rules_of-has_rule :
    (mat reason classname key : Text) (reasons : List Text)
    → rsplit 46 reason ≡ some (classname, key)
    → mem_text classname never_strip ≡ false
    → mem_text reason reasons ≡ true
    → has_rule mat classname key (rules_of mat reasons) ≡ true
unfolding rules_of has_rule mem_text
rules_of-has_rule mat reason classname key [] parts may mem = cc
rules_of-has_rule mat reason classname key (r ∷ rs) parts may mem =
    elim (Bool-cases (text_eq reason r)) [
      | inl same ↦
          rw (sym ((text_eq_iff reason r).0 same), rules_of, parts, may)
            (rw (text_eq_refl mat, text_eq_refl classname, text_eq_refl key) refl)
      | inr other ↦
          let later =
            rules_of-has_rule mat reason classname key rs parts may (ground (arith, mem)) in
          elim (Option-cases (rsplit 46 r)) [
            | inl whole ↦ rw (rules_of, whole) later
            | inr ((class, k), at) ↦ elim (Bool-cases (mem_text class never_strip)) [
              | inl never ↦ rw (rules_of, at, never) later
              | inr strips ↦ rw (rules_of, at, strips) (rw later (ground arith))
            ]
          ]
    ]

-- A reason that is not a brush face is one of an entity: unless that is worldspawn, there is a rule that
-- strips it.
rules_in-has_rule :
    (mat reason classname key : Text) (missing : Refs)
    → rsplit 46 reason ≡ some (classname, key)
    → mem_text classname never_strip ≡ false
    → HasReason mat reason missing
    → has_rule mat classname key (rules_in missing) ≡ true
unfolding rules_in Dict.get
rules_in-has_rule mat reason classname key [] parts may (reasons, has, mem) = cc
rules_in-has_rule mat reason classname key ((m, rs) ∷ missing) parts may (reasons, has, mem) =
    has_rule-append mat classname key (rules_of m rs) (rules_in missing)
    ∙ elim (Bool-cases (text_eq m mat)) [
      | inl same ↦
          let e = (text_eq_iff m mat).0 same in
          let here : Path (Option (List Text)) (some rs) (some reasons) = rw same at has in
          let mem' : mem_text reason rs ≡ true =
            let found : rs ≡ reasons = cc in
            subst (λ l. mem_text reason l ≡ true) (sym found) mem in
          rw (e, rules_of-has_rule mat reason classname key rs parts may mem') refl
      | inr other ↦
          rw
            (rules_in-has_rule mat reason classname key missing parts may
              (reasons, rw other at has, mem))
            (ground arith)
    ]

-- A material has an entry.
abbrev HasFace : Text → Dict (List Text) → Type 0
HasFace mat face = any (λ (e : Text × List Text). text_eq mat e.0) face ≡ true

append_to-HasFace :
    (mat m name : Text) (face : Dict (List Text))
    → any (λ (e : Text × List Text). text_eq mat e.0) (append_to m name face)
      ≡ (any (λ (e : Text × List Text). text_eq mat e.0) face || text_eq mat m)
unfolding append_to
append_to-HasFace mat m name face =
    Dict.any-update (λ e. text_eq mat e.0) m _ (text_eq mat m) face refl (λ v. ground arith)

face_maps-keeps :
    (mat name : Text) (missing : Refs) (face : Dict (List Text))
    → HasFace mat face
    → HasFace mat (face_maps missing name face)
unfolding face_maps
face_maps-keeps mat name [] face h = h
face_maps-keeps mat name ((m, reasons) ∷ missing) face h =
    elim (Bool-cases (mem_text (codes "brush face") reasons)) [
      | inl brush ↦ rw brush (
          face_maps-keeps mat name missing (append_to m name face)
            (append_to-HasFace mat m name face ∙ rw h refl))
      | inr entity ↦ rw entity (face_maps-keeps mat name missing face h)
    ]

face_maps-HasFace :
    (mat name : Text) (missing : Refs) (face : Dict (List Text))
    → HasReason mat brush_face missing
    → HasFace mat (face_maps missing name face)
unfolding face_maps Dict.get
face_maps-HasFace mat name [] face (reasons, has, mem) = cc
face_maps-HasFace mat name ((m, rs) ∷ missing) face (reasons, has, mem) =
    elim (Bool-cases (text_eq m mat)) [
      | inl same ↦
          let e = (text_eq_iff m mat).0 same in
          let here : Path (Option (List Text)) (some rs) (some reasons) = rw same at has in
          let found : rs ≡ reasons = cc in
          let brush : mem_text (codes "brush face") rs ≡ true =
            subst (λ l. mem_text brush_face l ≡ true) (sym found) mem in
          rw brush (
            face_maps-keeps mat name missing (append_to m name face)
              (append_to-HasFace mat m name face ∙ rw (e, text_eq_refl mat) (ground arith)))
      | inr other ↦ face_maps-HasFace mat name missing _ (reasons, rw other at has, mem)
    ]

all_face_maps-keeps :
    (mat : Text) (reports : List MapReport) (face : Dict (List Text))
    → HasFace mat face
    → HasFace mat (all_face_maps reports face)
unfolding all_face_maps
all_face_maps-keeps mat [] face h = h
all_face_maps-keeps mat (r ∷ reports) face h =
    all_face_maps-keeps mat reports (face_maps r.missing r.map_name face)
      (face_maps-keeps mat r.map_name r.missing face h)

all_face_maps-HasFace :
    (mat : Text) (before after : List MapReport) (r : MapReport) (face : Dict (List Text))
    → HasReason mat brush_face r.missing
    → HasFace mat (all_face_maps (before ++ r ∷ after) face)
unfolding all_face_maps
all_face_maps-HasFace mat [] after r face h =
    all_face_maps-keeps mat after (face_maps r.missing r.map_name face)
      (face_maps-HasFace mat r.map_name r.missing face h)
all_face_maps-HasFace mat (b ∷ before) after r face h =
    all_face_maps-HasFace mat before after r (face_maps b.missing b.map_name face) h

-- Whether a file is among those that are written.
abbrev pub has_file : Text → Dict Text → Bool
has_file path files = mem_text path (keys files)

keys-has_file :
    (mat : Text) (body : Text × List Text → Text) (face : Dict (List Text))
    → HasFace mat face
    → has_file
        (one_slash mat ++ codes ".vmt")
        (map (λ (e : Text × List Text). (one_slash e.0 ++ codes ".vmt", body e)) face)
      ≡ true
unfolding mem_text
keys-has_file mat body [] h = h
keys-has_file mat body ((m, maps) ∷ face) h = elim (Bool-cases (text_eq mat m)) [
  | inl same ↦
      rw (sym ((text_eq_iff mat m).0 same), text_eq_refl (one_slash mat ++ codes ".vmt")) refl
  | inr other ↦ rw (keys-has_file mat body face (ground (arith, h))) (ground arith)
]

-- Whether something is written about a material for one of the reasons of a report: a stub file for a
-- brush face, and for an entity a strip rule, unless it is never stripped.
unfoldable pub is_remedied : List MapReport → MapReport → Text → Text → Bool
unfolding rsplit
is_remedied reports r mat reason =
    if text_eq reason brush_face
    then has_file (one_slash mat ++ codes ".vmt") (write_stubs reports)
    else elim (rsplit 46 reason) [
      | none ↦ false
      | some (classname, key) ↦
          mem_text classname never_strip
          || has_rule mat classname key (rules_in (sorted missing_lt r.missing))
    ]

-- For each material that is reported for a map, and each of its reasons that is a brush face or a class
-- and a key, either the stubs have a file for it, or the strip rules of that map have a rule for it or it
-- is a key of worldspawn.
pub all-is_remedied :
    (before after : List MapReport) (r : MapReport) (mat reason : Text)
    → HasReason mat reason r.missing
    → (reason ≡ brush_face) ⊎ ((parts : Text × Text) × (rsplit 46 reason ≡ some parts))
    → is_remedied (before ++ r ∷ after) r mat reason ≡ true
unfolding is_remedied write_stubs
all-is_remedied before after r mat reason h kind = elim (Bool-cases (text_eq reason brush_face)) [
  | inl brush ↦
      let e = (text_eq_iff reason brush_face).0 brush in
      rw brush (
        keys-has_file mat _ (sorted missing_lt (all_face_maps (before ++ r ∷ after) [])) (
          any-sorted (λ e. text_eq mat e.0) missing_lt (all_face_maps (before ++ r ∷ after) [])
          ∙ all_face_maps-HasFace mat before after r []
              (subst (λ t. HasReason mat t r.missing) e h)))
  | inr entity ↦ elim kind [
    | inl e ↦
        let stop : true ≡ false =
          sym (text_eq_refl brush_face) ∙ subst (λ t. text_eq t brush_face ≡ false) e entity in
        cc
    | inr ((classname, key), parts) ↦
        let (reasons, has, mem) = h in
        elim (Bool-cases (mem_text classname never_strip)) [
          | inl never ↦ rw (entity, parts, never) refl
          | inr strips ↦
              rw (entity, parts, strips)
                (rules_in-has_rule mat reason classname key (sorted missing_lt r.missing) parts
                  strips (reasons, get-sorted text_lt text_lt_irrefl mat r.missing ∙ has, mem))
        ]
  ]
]
