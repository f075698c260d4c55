-- ===== src/Workshop/Rendered.antt =====
-- What render() of tools/workshop/workshop_lock.py leaves on disk, and what it writes.
use tug.Base.{
  Bool, not, keep_if, true, false, [], ◌∷◌, Option, none, some, ◌≡◌, refl, ap, ◌∙◌, inl, inr,
  Bool-cases, All, ℕ, arith,
}
use mathlib.Core.Path.{subst}
use tug.Base.Text.{Text, text_eq, text_eq_iff, text_eq_refl, text_eq_sym, mem_text}
use tug.Base.Sort.{sorted}
use tug.Base.Dict
use tug.Base.Dict.{Dict, keys}
use tug.Base.Entries.{Distinct}
use tug.Base.Result.{ok}
use tug.Workshop.Lock.{Lock}
use tug.Workshop.Render.Generated.{RenderedFiles, rendered}
use tug.Workshop.Fetch.{is_same, saved, write_changed, file_lt, files_of, render}

is_same-eq : (o : Option Text) (content : Text) → is_same o content ≡ true → o ≡ some content
is_same-eq none content h = cc
is_same-eq (some existing) content h = ap some ((text_eq_iff existing content).0 h)

get-saved :
    (disk : Dict Text) (path content : Text)
    → Dict.get path (saved disk path content) ≡ some content
get-saved disk path content = elim (Bool-cases (is_same (Dict.get path disk) content)) [
  | inl same ↦ rw same (is_same-eq (Dict.get path disk) content same)
  | inr other ↦
      rw other (Dict.get-update path path (λ old. content) disk ∙ rw (text_eq_refl path) refl)
]

get-saved_other :
    (disk : Dict Text) (path content k : Text)
    → text_eq k path ≡ false
    → Dict.get k (saved disk path content) ≡ Dict.get k disk
get-saved_other disk path content k h = elim (Bool-cases (is_same (Dict.get path disk) content)) [
  | inl same ↦ rw same refl
  | inr other ↦
      rw other (Dict.get-update path k (λ old. content) disk ∙ rw (text_eq_sym path k, h) refl)
]

write_changed-other :
    (k : Text) (disk files : Dict Text)
    → mem_text k (keys files) ≡ false
    → Dict.get k (write_changed disk files).0 ≡ Dict.get k disk
unfolding write_changed mem_text
write_changed-other k disk [] h = refl
write_changed-other k disk ((path, content) ∷ files) h =
    write_changed-other k (saved disk path content) files (ground (arith, h))
    ∙ get-saved_other disk path content k (ground (arith, h))

-- A path after a write of some files: the file's text if it is one of them, and what it was if not.
abbrev pub overlaid : Option Text → Option Text → Option Text
overlaid none old = old
overlaid (some content) old = some content

get-write_changed :
    (k : Text) (disk files : Dict Text)
    → Distinct files
    → Dict.get k (write_changed disk files).0 ≡ overlaid (Dict.get k files) (Dict.get k disk)
unfolding write_changed Dict.get
get-write_changed k disk [] distinct = refl
get-write_changed k disk ((path, content) ∷ files) (new, distinct) =
    let disk' = saved disk path content in
    elim (Bool-cases (text_eq path k)) [
      | inl same ↦ rw same (
          subst (λ j. Dict.get j (write_changed disk' files).0 ≡ some content)
            ((text_eq_iff path k).0 same)
            (write_changed-other path disk' files new ∙ get-saved disk path content))
      | inr other ↦ rw other (
          get-write_changed k disk' files distinct
          ∙ ap (overlaid (Dict.get k files))
              (get-saved_other disk path content k (text_eq_sym k path ∙ other)))
    ]

-- A file whose text on disk is another, or that is not there.
abbrev pub is_changed : Dict Text → Text × Text → Bool
is_changed disk e = not (is_same (Dict.get e.0 disk) e.1)

keep_if-saved :
    (disk : Dict Text) (path content : Text) (files : Dict Text)
    → mem_text path (keys files) ≡ false
    → keep_if (is_changed (saved disk path content)) files ≡ keep_if (is_changed disk) files
unfolding mem_text
keep_if-saved disk path content [] new = refl
keep_if-saved disk path content ((k, text) ∷ files) new =
    let apart : text_eq k path ≡ false = text_eq_sym k path ∙ ground (arith, new) in
    rw
      (
        get-saved_other disk path content k apart,
        keep_if-saved disk path content files (ground (arith, new)),
      )
      refl

changed-write_changed :
    (disk files : Dict Text)
    → Distinct files
    → (write_changed disk files).1 ≡ keep_if (is_changed disk) files
unfolding write_changed
changed-write_changed disk [] distinct = refl
changed-write_changed disk ((path, content) ∷ files) (new, distinct) =
    let rest =
      changed-write_changed (saved disk path content) files distinct
      ∙ keep_if-saved disk path content files new in
    elim (Bool-cases (is_same (Dict.get path disk) content)) [
      | inl same ↦ rw same (rw same at rest)
      | inr other ↦ rw other (ap (λ r. (path, content) ∷ r) (rw other at rest))
    ]

-- After the loop, every file has the text that is wanted.
write_changed-All :
    (disk files : Dict Text)
    → Distinct files
    → All (λ (e : Text × Text). Dict.get e.0 (write_changed disk files).0 ≡ some e.1) files
unfolding write_changed
write_changed-All disk [] h = tt
write_changed-All disk ((path, content) ∷ files) (new, h) =
    let disk' = saved disk path content in
    (
      write_changed-other path disk' files new ∙ get-saved disk path content,
      write_changed-All disk' files h,
    )

write_changed-none :
    (disk files : Dict Text)
    → All (λ (e : Text × Text). Dict.get e.0 disk ≡ some e.1) files
    → write_changed disk files ≡ (disk, [])
unfolding write_changed
write_changed-none disk [] h = refl
write_changed-none disk ((path, content) ∷ files) (h, hs) =
    rw (h, text_eq_refl content, write_changed-none disk files hs) refl

-- If the regions can be rendered into the Dockerfile on disk and no two files have one path, then render()
-- succeeds: every path then holds its rendered text if it is one of the files, and what it held before
-- if it is not; the files that are written are exactly those whose text was another or that were not
-- there; and going through the same files again would write nothing.
pub get-render :
    (digest : Text → ℕ) (dockerfile_path : Text) (manifest_path : Text → Text) (lock : Lock)
    (text : Text) (out : RenderedFiles) (disk : Dict Text) (k : Text)
    → Dict.get dockerfile_path disk ≡ some text
    → rendered digest lock text ≡ ok out
    → Distinct (sorted file_lt (files_of dockerfile_path manifest_path out))
    → let files = sorted file_lt (files_of dockerfile_path manifest_path out) in
      (disk' : Dict Text) × (render digest dockerfile_path manifest_path lock disk
        ≡ ok (disk', keep_if (is_changed disk) files))
      × (Dict.get k disk' ≡ overlaid (Dict.get k files) (Dict.get k disk))
      × (write_changed disk' files ≡ (disk', []))
unfolding render
get-render digest dockerfile_path manifest_path lock text out disk k at made distinct =
    let files = sorted file_lt (files_of dockerfile_path manifest_path out) in
    let disk' = (write_changed disk files).0 in
    (
      disk',
      rw (render, at, made)
          (ap (λ written. ok (disk', written)) (changed-write_changed disk files distinct)),
      get-write_changed k disk files distinct,
      write_changed-none disk' files (write_changed-All disk files distinct),
    )
