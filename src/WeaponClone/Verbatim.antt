-- ===== src/WeaponClone/Verbatim.antt =====
-- What restate() of tools/weapon-clone/generate.py adds to an upgrade.
use tug.Base.{
  false, not, List, [], ◌∷◌, ◌++◌, any, Option, none, some, is_empty, ◌≡◌, refl, ◌⊎◌, inl, inr, All,
  All-append, Bool-cases, Option-cases, ◌==◌,
}
use mathlib.Core.Path.{subst}
use tug.Base.Text.{Text, codes, lower, text_eq}
use tug.Base.Sort.{sorted}
use tug.Base.SortedList.{All-sorted}
use tug.Base.Dict.{Dict}
use tug.Base.Result.{Result, ok, raised, >>=-eq-ok}
use tug.WeaponClone.{Node, head_of, CloneError, line_indent, insert_point, clone_attachment}
use tug.WeaponClone.Restate.{
  Insert, insert_lt, Progress, apply_inserts, has_value, listed_model, attach, attach_listed,
  children_at, attachment_sections, starts_before, attach_all, attach_sections, mem_id,
  copy_mention, mention_all, mentions, restate,
}
use tug.WeaponClone.Weave.{Weave, texts_onto, sorted-Falling, apply_inserts-Weave}
use tug.WeaponClone.Named.{
  Names, retarget_key-Names, retarget_value-Names, Names-after, sorted-some, texts_onto-some,
}

module _ (find : Node → Text → Option Node) (text_of : Node → Text → Text) (src new : Text) where
  -- What is added: a copy that names the new weapon, or an attachment that is copied for it alone.
  abbrev pub IsAddition : Text → Type 0
  IsAddition add =
      Names new add
      ⊎ ((att : Node) × (model : Text) × (copy : Text) × (clone_attachment find text_of src att new
              model
            ≡ ok copy)
          × (add ≡ 10 ∷ (10 ∷ (line_indent src (head_of att).start ++ copy))))

  abbrev AddsOnly : List Insert → Type 0
  AddsOnly inserts = All (λ (i : Insert). IsAddition i.1) inserts

  copy_mention-Names :
      (upgrade : Node) (source : Text) (n : Node) (copy : Text)
      → copy_mention find text_of src upgrade new source n ≡ ok copy
      → Names new copy
  unfolding copy_mention
  copy_mention-Names upgrade source n copy h =
      elim (Bool-cases (text_eq (lower (head_of n).key) source)) [
        | inl keyed ↦
            elim (Bool-cases
              (any (λ c. not ((head_of c).ident == (head_of n).ident)) (mentions n source))) [
                | inl again ↦
                    let stop : Path (Result CloneError Text)
                        (raised (CloneError.names_again (head_of n).key)) (ok copy) =
                      rw (copy_mention, keyed, again) at h in
                    cc
                | inr once ↦
                    retarget_key-Names (text_of n src) (head_of n).key new copy
                      (rw (copy_mention, keyed, once) at h)
              ]
        | inr valued ↦ elim (Option-cases ((head_of n).value)) [
          | inl absent ↦
              let stop : Path (Result CloneError Text) (raised CloneError.attribute_error)
                  (ok copy) =
                rw (copy_mention, valued, absent) at h in
              cc
          | inr (value, at) ↦
              retarget_value-Names (text_of n src) value new copy
                (rw (copy_mention, valued, at) at h)
        ]
      ]

  mention_all-AddsOnly :
      (upgrade : Node) (source : Text) (ns : List Node) (p q : Progress)
      → AddsOnly p.inserts
      → mention_all find text_of src upgrade new source p ns ≡ ok q
      → AddsOnly q.inserts
  unfolding mention_all
  mention_all-AddsOnly upgrade source [] p q h done =
      let same : p ≡ q = cc in subst (λ (r : Progress). AddsOnly r.inserts) same h
  mention_all-AddsOnly upgrade source (n ∷ ns) p q h done =
      elim (Bool-cases (mem_id (head_of n).ident p.handled)) [
        | inl seen ↦ mention_all-AddsOnly upgrade source ns p q h (rw (mention_all, seen) at done)
        | inr unseen ↦
            let (copy, copied, rest) =
              >>=-eq-ok (copy_mention find text_of src upgrade new source n) _
                (rw (mention_all, unseen) at done) in
            mention_all-AddsOnly upgrade source ns _ q
              (All-append (λ (i : Insert). IsAddition i.1) p.inserts _ h
                (
                  inl (
                      Names-after new (10 ∷ line_indent src (head_of n).start) copy
                        (copy_mention-Names upgrade source n copy copied)),
                  tt,
                ))
              rest
      ]

  attach_listed-AddsOnly :
      (source : Text) (p q : Progress) (att : Node) (found : Option (Option Text))
      → AddsOnly p.inserts
      → attach_listed find text_of src new source p att found ≡ ok q
      → AddsOnly q.inserts
  unfolding attach_listed
  attach_listed-AddsOnly source p q att none h done =
      let same : p ≡ q = cc in subst (λ (r : Progress). AddsOnly r.inserts) same h
  attach_listed-AddsOnly source p q att (some none) h done =
      let same : p.inserts ≡ q.inserts = cc in subst AddsOnly same h
  attach_listed-AddsOnly source p q att (some (some model)) h done =
      let (copy, cloned, last) =
        >>=-eq-ok (clone_attachment find text_of src att new model) _ done in
      let add : Text = 10 ∷ (10 ∷ (line_indent src (head_of att).start ++ copy)) in
      let same : p.inserts ++ (insert_point src att, add) ∷ [] ≡ q.inserts = cc in
      subst AddsOnly same (
        All-append (λ (i : Insert). IsAddition i.1) p.inserts ((insert_point src att, add) ∷ []) h
          (inr (att, model, copy, cloned, refl), tt))

  attach-AddsOnly :
      (source : Text) (attachments : Dict (Option Text)) (p q : Progress) (att : Node)
      → AddsOnly p.inserts
      → attach find text_of src new source attachments p att ≡ ok q
      → AddsOnly q.inserts
  unfolding attach
  attach-AddsOnly source attachments p q att h done =
      elim (Bool-cases
        (any (has_value source) (children_at find text_of (find att (codes "weapons"))))) [
          | inl fits ↦
              let (found, listed, rest) =
                >>=-eq-ok (listed_model find text_of attachments att) _
                  (rw (attach, fits) at done) in
              attach_listed-AddsOnly source p q att found h rest
          | inr other ↦
              let kept : Path (Result CloneError Progress) (ok p) (ok q) =
                rw (attach, other) at done in
              let same : p ≡ q = cc in subst (λ (r : Progress). AddsOnly r.inserts) same h
        ]

  attach_all-AddsOnly :
      (source : Text) (attachments : Dict (Option Text)) (p q : Progress) (atts : List Node)
      → AddsOnly p.inserts
      → attach_all find text_of src new source attachments p atts ≡ ok q
      → AddsOnly q.inserts
  unfolding attach_all
  attach_all-AddsOnly source attachments p q [] h done =
      let same : p ≡ q = cc in subst (λ (r : Progress). AddsOnly r.inserts) same h
  attach_all-AddsOnly source attachments p q (att ∷ atts) h done =
      let (r, first, rest) =
        >>=-eq-ok (attach find text_of src new source attachments p att) _ done in
      attach_all-AddsOnly source attachments r q atts
        (attach-AddsOnly source attachments p r att h first) rest

  attach_sections-AddsOnly :
      (upgrade : Node) (source : Text) (attachments : Dict (Option Text)) (p q : Progress)
      (sections : List Text)
      → AddsOnly p.inserts
      → attach_sections find text_of src upgrade new source attachments p sections ≡ ok q
      → AddsOnly q.inserts
  unfolding attach_sections
  attach_sections-AddsOnly upgrade source attachments p q [] h done =
      let same : p ≡ q = cc in subst (λ (r : Progress). AddsOnly r.inserts) same h
  attach_sections-AddsOnly upgrade source attachments p q (section ∷ sections) h done =
      let atts = children_at find text_of (find upgrade section) in
      let (r, first, rest) =
        >>=-eq-ok (attach_all find text_of src new source attachments p atts) _ done in
      attach_sections-AddsOnly upgrade source attachments r q sections
        (attach_all-AddsOnly source attachments p r atts h first) rest

  texts_onto-All :
      (inserts : List Insert) (adds : List Text)
      → AddsOnly inserts
      → All IsAddition adds
      → All IsAddition (texts_onto inserts adds)
  texts_onto-All [] adds h k = k
  texts_onto-All ((pos, add) ∷ inserts) adds (here, h) k =
      texts_onto-All inserts (add ∷ adds) h (here, k)

  -- An upgrade that is restated is its own text, character by character, with texts put in between that
  -- there is at least one of, and of which each names the new weapon or is the copy of an attachment
  -- that is made for it.
  pub restate-Weave :
      (upgrade : Node) (source : Text) (attachments : Dict (Option Text)) (text : Text)
      → restate find text_of src upgrade new source attachments ≡ ok (some text)
      → (adds : List Text) × Weave (text_of upgrade src) adds text
        × (is_empty adds ≡ false)
        × All IsAddition adds
  unfolding restate
  restate-Weave upgrade source attachments text h =
      let (p, attached, next) =
        >>=-eq-ok
          (attach_sections find text_of src upgrade new source attachments
            (record { inserts = []; handled = [] }) attachment_sections)
          _ h in
      let (q, mentioned, last) =
        >>=-eq-ok
          (mention_all find text_of src upgrade new source p
            (sorted (starts_before find text_of) (mentions upgrade source)))
          _ next in
      let only =
        mention_all-AddsOnly upgrade source _ p q
          (attach_sections-AddsOnly upgrade source attachments _ p attachment_sections tt attached)
          mentioned in
      elim (Bool-cases (is_empty q.inserts)) [
        | inl nothing ↦
            let stop : Path (Result CloneError (Option Text)) (ok none) (ok (some text)) =
              rw nothing at last in
            cc
        | inr something ↦
            let (t, applied, made) =
              >>=-eq-ok
                (apply_inserts (head_of upgrade).key (head_of upgrade).start (text_of upgrade src)
                  (sorted insert_lt q.inserts))
                _ (rw something at last) in
            let same : t ≡ text = cc in
            (
              texts_onto (sorted insert_lt q.inserts) [],
              subst (Weave (text_of upgrade src) (texts_onto (sorted insert_lt q.inserts) [])) same
                  (apply_inserts-Weave (head_of upgrade).key (head_of upgrade).start
                    (text_of upgrade src) (sorted insert_lt q.inserts) t (sorted-Falling q.inserts)
                    applied),
              texts_onto-some (sorted insert_lt q.inserts) [] (sorted-some q.inserts something),
              texts_onto-All (sorted insert_lt q.inserts) []
                  (All-sorted (λ (i : Insert). IsAddition i.1) insert_lt q.inserts only) tt,
            )
      ]
