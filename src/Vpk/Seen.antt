-- ===== src/Vpk/Seen.antt =====
-- The loops of verify() over a tree whose entries say what is true of the archive.
use tug.Base.{
  ℕ, ◌%◌, ◌^◌, Bool, true, false, List, [], ◌∷◌, if◌then◌else◌, some, ◌==◌, length, any, All, ◌≡◌,
  refl, arith, ◌∙◌, ap, Bool-cases, inl, inr,
}
use tug.Base.Bytes.{little_endian, slice}
use tug.Base.Text.{Text, text_eq, text_eq_iff, text_eq_refl}
use tug.Base.Dict
use tug.Base.Dict.{Dict, get-update}
use tug.Base.Result.{ok}
use tug.Content.{Entry}
use tug.Vpk.{Found, key_of, path_in, content_of, see, compare_all}
use tug.Vpk.Stored.{key_path}

-- The path under which an entry is seen.
abbrev pub entry_path : Entry → Text
entry_path e = path_in e.folder e.name e.ext

same_if : {A : Type 0} (b : Bool) (a : A) → (if b then a else a) ≡ a
same_if true a = refl
same_if false a = refl

module _ (disk : Text → List ℕ) (crc32 : List ℕ → ℕ) where
  -- What an entry says of the archive is true of its file.
  abbrev pub IsRight : List ℕ → Entry → Type 0
  IsRight arc e =
      (little_endian (slice 0 4 e.body) ≡ crc32 (content_of arc e) % 2 ^ 32)
      × (content_of arc e ≡ disk (entry_path e))

  -- What `seen` holds after the loops: every file of an entry, and what it held before.
  pub see-IsRight :
      (arc : List ℕ) (es : List Entry) (seen : Dict (List ℕ))
      → All (IsRight arc) es
      → (seen' : Dict (List ℕ)) × (see crc32 arc seen es ≡ ok seen')
        × ((k : Text)
            → Dict.get k seen'
              ≡ (if any (λ e. text_eq (entry_path e) k) es then some (disk k) else Dict.get k seen))
  unfolding see
  see-IsRight arc [] seen h = (seen, refl, λ k. refl)
  see-IsRight arc (e ∷ es) seen ((checked, held), hs) =
      let seen1 = Dict.update (entry_path e) (λ _. content_of arc e) seen in
      let (seen', run, holds) = see-IsRight arc es seen1 hs in
      let same : ((crc32 (content_of arc e) % 2 ^ 32) == little_endian (slice 0 4 e.body)) ≡ true =
        rw checked (ground arith) in
      (
        seen',
        rw same run,
        λ k.
            holds k
            ∙ rw (get-update (entry_path e) k (λ _. content_of arc e) seen) (
                let at_key : text_eq (entry_path e) k ≡ true → content_of arc e ≡ disk k =
                  λ found. held ∙ ap disk ((text_eq_iff (entry_path e) k).0 found) in
                elim (Bool-cases (text_eq (entry_path e) k)) [
                  | inl found ↦
                      rw (found, at_key found)
                        (same_if (any (λ x. text_eq (entry_path x) k) es) (some (disk k)))
                  | inr other ↦ rw other refl
                ]),
      )

  pub compare_all-ok :
      (seen : Dict (List ℕ)) (fs : List Found)
      → All (λ f. Dict.get (key_path (key_of f)) seen ≡ some (disk f.full)) fs
      → compare_all disk seen fs ≡ ok (length seen)
  unfolding compare_all
  compare_all-ok seen [] h = refl
  compare_all-ok seen (f ∷ fs) (h, hs) =
      rw (compare_all, h, text_eq_refl (disk f.full)) (compare_all-ok seen fs hs)
