-- ===== src/Audit/Missing.antt =====
-- What a report says is missing, and what a strip rule may name.
use tug.Base.{
  ℕ, false, List, [], ◌∷◌, if◌then◌else◌, Option, none, some, All, All-append, ◌≡◌, refl, ◌∙◌, ap,
  Bool-cases, inl, inr,
}
use tug.Base.Text.{rsplit, Text, codes, text_eq, text_eq_iff, text_eq_refl, text_lt, mem_text}
use tug.Base.Sort.{sorted}
use tug.Base.Dict
use tug.Base.Dict.{Dict}
use tug.Base.SortedDict.{get-sorted, text_lt_irrefl}
use tug.Workshop.Refresh.{first_seen}
use tug.Audit.{Refs, referenced_materials, is_missing, missing_of, audit}
use tug.Audit.Report.{Rule, rules_of, rules_in}

-- The entry of a report for what refs says of a material.
abbrev pub entry_for :
    List Text → Option (List Text) → Text → Option (List Text) → Option (List Text)
entry_for packed content mat none = none
entry_for packed content mat (some reasons) =
    if is_missing packed content mat then some (sorted text_lt (first_seen [] reasons)) else none

entry_for-found :
    (packed : List Text) (content : Option (List Text)) (mat : Text) (o : Option (List Text))
    → is_missing packed content mat ≡ false
    → entry_for packed content mat o ≡ none
entry_for-found packed content mat none h = refl
entry_for-found packed content mat (some reasons) h = rw h refl

get-missing_of :
    (packed : List Text) (content : Option (List Text)) (mat : Text) (refs : Refs)
    → Dict.get mat (missing_of packed content refs)
      ≡ entry_for packed content mat (Dict.get mat refs)
unfolding missing_of Dict.get
get-missing_of packed content mat [] = refl
get-missing_of packed content mat ((m, reasons) ∷ refs) =
    let ih = get-missing_of packed content mat refs in
    elim (Bool-cases (text_eq m mat)) [
      | inl same ↦
          let q = (text_eq_iff m mat).0 same in
          elim (Bool-cases (is_missing packed content mat)) [
            | inl lost ↦ rw (q, lost, text_eq_refl mat) (rw lost refl)
            | inr found ↦
                rw (q, found, text_eq_refl mat)
                  (rw found (ih ∙ entry_for-found packed content mat (Dict.get mat refs) found))
          ]
      | inr other ↦ elim (Bool-cases (is_missing packed content m)) [
        | inl lost ↦ rw (lost, other) ih
        | inr found ↦ rw (found, other) ih
      ]
    ]

-- The report has the entries that entry_for() gives the materials of refs.
pub get-audit :
    (name : Text) (version : ℕ) (packed faces : List Text) (entities : List (Dict Text))
    (content : Option (List Text)) (mat : Text)
    → Dict.get mat (audit name version packed faces entities content).missing
      ≡ entry_for packed content mat (Dict.get mat (referenced_materials faces entities))
unfolding audit
get-audit name version packed faces entities content mat =
    get-missing_of packed content mat
      (sorted (λ a b. text_lt a.0 b.0) (referenced_materials faces entities))
    ∙ ap (entry_for packed content mat)
        (get-sorted text_lt text_lt_irrefl mat (referenced_materials faces entities))

-- A rule for an entity that may be removed.
abbrev pub MayStrip : Rule → Type 0
MayStrip rule = mem_text rule.classname (codes "worldspawn" ∷ []) ≡ false

rules_at-MayStrip :
    (m : Text) (rest : List Rule) (o : Option (Text × Text))
    → All MayStrip rest
    → All MayStrip (elim o [
      | none ↦ rest
      | some (class, k) ↦
          if mem_text class (codes "worldspawn" ∷ [])
          then rest
          else record { mat = m; classname = class; key = k } ∷ rest
    ])
rules_at-MayStrip m rest none h = h
rules_at-MayStrip m rest (some (class, k)) h =
    elim (Bool-cases (mem_text class (codes "worldspawn" ∷ []))) [
      | inl e ↦ rw e h
      | inr ne ↦ rw ne (ne, h)
    ]

rules_of-MayStrip : (m : Text) (reasons : List Text) → All MayStrip (rules_of m reasons)
unfolding rules_of
rules_of-MayStrip m [] = tt
rules_of-MayStrip m (reason ∷ reasons) =
    rules_at-MayStrip m (rules_of m reasons) (rsplit 46 reason) (rules_of-MayStrip m reasons)

-- No rule that is written for a map removes worldspawn.
pub rules_in-MayStrip : (missing : Refs) → All MayStrip (rules_in missing)
unfolding rules_in
rules_in-MayStrip [] = tt
rules_in-MayStrip ((m, reasons) ∷ missing) =
    All-append MayStrip (rules_of m reasons) (rules_in missing) (rules_of-MayStrip m reasons)
      (rules_in-MayStrip missing)
