-- ===== src/Vpk/Collected.antt =====
-- Where collect() of tools/workshop/pack_vpk.py puts the files that it finds.
use tug.Base.{
  ℕ, true, List, [], ◌∷◌, ◌++◌, Option, none, some, All, All-append, ◌≡◌, refl, sym, ap, ◌∙◌, ◌⊎◌,
  inl, inr, Bool-cases, Option-cases, ==_iff, ◌==◌, is_empty,
}
use mathlib.Core.Path.{subst}
use tug.Base.Text.{Text, rsplit, starts_with, text_eq, text_eq_iff, text_lt}
use tug.Base.Sort.{sorted}
use tug.Base.Result.{Result, ok, raised, >>=-eq-ok}
use tug.Vpk.{
  Found, PackError, no_extension, no_files, split_path, or_space, found_at, collect_files,
  collect_walk, collect, path_in, relative,
}
use tug.Vpk.Stored.{IsStored}

rsplit-some :
    (c : ℕ) (s before after : Text) → rsplit c s ≡ some (before, after) → s ≡ before ++ c ∷ after
unfolding rsplit
rsplit-some c [] before after h = cc
rsplit-some c (d ∷ s) before after h = elim (Option-cases (rsplit c s)) [
  | inr ((b, a), at) ↦
      let same : Path (Option (Text × Text)) (some (d ∷ b, a)) (some (before, after)) =
        rw (rsplit, at) at h in
      let first : d ∷ b ≡ before = cc in
      let last : a ≡ after = cc in
      ap (λ t. d ∷ t) (rsplit-some c s b a at) ∙ rw (sym first, sym last) refl
  | inl absent ↦ elim (Bool-cases (d == c)) [
    | inl here ↦
        let same : Path (Option (Text × Text)) (some ([], s)) (some (before, after)) =
          rw (rsplit, absent, here) at h in
        let first : [] ≡ before = cc in
        let last : s ≡ after = cc in rw ((==_iff d c).0 here, sym first, sym last) refl
    | inr other ↦
        let no_place : Path (Option (Text × Text)) none (some (before, after)) =
          rw (rsplit, absent, other) at h in
        cc
  ]
]

-- A file stands under its own path, or its path begins with a slash or with a folder named by one
-- space.
abbrev pub IsPlaced : Found → Type 0
IsPlaced f =
    IsStored f
    ⊎ ((starts_with (47 ∷ []) f.full ≡ true) ⊎ (starts_with (32 ∷ 47 ∷ []) f.full ≡ true))

placed_in :
    (path base n e rel : Text)
    → rel ≡ path ++ 47 ∷ base
    → base ≡ n ++ 46 ∷ e
    → IsPlaced (record { ext = e; folder = or_space path; name = n; full = rel })
unfolding starts_with path_in
placed_in [] base n e rel at named = inr (inl (rw at refl))
placed_in (c ∷ s) base n e rel at named = elim (Bool-cases (text_eq (c ∷ s) (32 ∷ []))) [
  | inl space ↦
      let one : c ∷ s ≡ 32 ∷ [] = (text_eq_iff (c ∷ s) (32 ∷ [])).0 space in
      inr (inr (rw (at ∙ ap (λ p. p ++ 47 ∷ base) one) refl))
  | inr other ↦ inl (at ∙ rw (path_in, other, named) refl)
]

place_of :
    (path base : Text) (rel : Text)
    → (rel ≡ path ++ 47 ∷ base) ⊎ ((path ≡ []) × (base ≡ rel))
    → (n e : Text) → base ≡ n ++ 46 ∷ e
    → IsPlaced (record { ext = e; folder = or_space path; name = n; full = rel })
unfolding path_in text_eq
place_of path base rel (inl at) n e named = placed_in path base n e rel at named
place_of path base rel (inr (top, whole)) n e named =
    subst (λ p. IsPlaced (record { ext = e; folder = or_space p; name = n; full = rel })) (sym top)
      (inl (sym whole ∙ named))

split_path-place :
    (rel : Text) → let s = split_path rel in (rel ≡ s.0 ++ 47 ∷ s.1) ⊎ ((s.0 ≡ []) × (s.1 ≡ rel))
split_path-place rel = elim (Option-cases (rsplit 47 rel)) [
  | inl absent ↦ inr (rw (split_path, absent) refl, rw (split_path, absent) refl)
  | inr ((path, base), at) ↦ inl (rsplit-some 47 rel path base at ∙ rw (split_path, at) refl)
]

found_at-IsPlaced : (rel : Text) (f : Found) → found_at rel ≡ ok f → IsPlaced f
unfolding found_at
found_at-IsPlaced rel f h =
    let s = split_path rel in
    elim (Option-cases (rsplit 46 (s.1))) [
      | inl absent ↦
          let no_file : Path (Result PackError Found) (raised (no_extension rel)) (ok f) =
            rw (found_at, absent) at h in
          cc
      | inr ((n, e), at) ↦
          let file : Found = record { ext = e; folder = or_space (s.0); name = n; full = rel } in
          let made : Path (Result PackError Found) (ok file) (ok f) = rw (found_at, at) at h in
          let same : file ≡ f = cc in
          subst IsPlaced same
            (place_of (s.0) (s.1) rel (split_path-place rel) n e (rsplit-some 46 (s.1) n e at))
    ]

collect_files-IsPlaced :
    (root : Text) (files : List Text) (fs : List Found)
    → collect_files root files ≡ ok fs
    → All IsPlaced fs
unfolding collect_files
collect_files-IsPlaced root [] fs h =
    let none_found : [] ≡ fs = cc in subst (All IsPlaced) none_found tt
collect_files-IsPlaced root (f ∷ files) fs h =
    let (x, found, next) = >>=-eq-ok (found_at (relative root f)) _ h in
    let (rest, more, last) = >>=-eq-ok (collect_files root files) _ next in
    let same : x ∷ rest ≡ fs = cc in
    subst (All IsPlaced) same
      (found_at-IsPlaced (relative root f) x found, collect_files-IsPlaced root files rest more)

collect_walk-IsPlaced :
    (walk : List (Text × List Text)) (fs : List Found) → collect_walk walk ≡ ok fs → All IsPlaced fs
unfolding collect_walk
collect_walk-IsPlaced [] fs h = let none_found : [] ≡ fs = cc in subst (All IsPlaced) none_found tt
collect_walk-IsPlaced ((root, files) ∷ walk) fs h =
    let (here, found, next) = >>=-eq-ok (collect_files root (sorted text_lt files)) _ h in
    let (rest, more, last) = >>=-eq-ok (collect_walk walk) _ next in
    let same : here ++ rest ≡ fs = cc in
    subst (All IsPlaced) same (
      All-append IsPlaced here rest (collect_files-IsPlaced root (sorted text_lt files) here found)
        (collect_walk-IsPlaced walk rest more))

-- Each file that collect() finds stands in the tree under its own path, unless that path begins with
-- a slash or with a folder named by one space.
pub collect-IsPlaced :
    (walk : List (Text × List Text)) (fs : List Found) → collect walk ≡ ok fs → All IsPlaced fs
unfolding collect
collect-IsPlaced walk fs h =
    let (out, found, last) = >>=-eq-ok (collect_walk walk) _ h in
    elim (Bool-cases (is_empty out)) [
      | inl empty ↦
          let no_file : Path (Result PackError (List Found)) (raised no_files) (ok fs) =
            rw empty at last in
          cc
      | inr some_file ↦
          let made : Path (Result PackError (List Found)) (ok out) (ok fs) = rw some_file at last in
          let same : out ≡ fs = cc in
          subst (All IsPlaced) same (collect_walk-IsPlaced walk out found)
    ]
