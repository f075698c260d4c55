-- ===== src/Vpk/Accepts.antt =====
-- verify() accepts what build() writes.
use tug.Base.{
  ℕ, ◌^◌, ◌<◌, true, List, [], ◌∷◌, ◌++◌, if◌then◌else◌, none, some, length, any, All, All-imp,
  All-both, any-imp, ◌≡◌, refl, arith, ◌∙◌, ap,
}
use mathlib.Core.Path.{subst}
use tug.Base.Bytes.{drop, take, slice, little_endian-bytes_of_4}
use tug.Base.Text.{Text, text_eq, text_eq_refl}
use tug.Base.Dict
use tug.Base.Dict.{Dict, get-update}
use tug.Base.Result.{ok, raised, >>=-eq-ok, checked-eq-ok}
use tug.Content.{Entry}
use tug.Vpk.{
  Found, Place, Key, key_of, key_eq, Meta, place_at, body_of, pack_data, group, tree_bytes, seal,
  build, Packed, content_of, verify, fits, out_of_range,
}
use tug.Vpk.ReadBack.{IsName, entry_of, tree_entries, tree_bytes-read}
use tug.Vpk.Stored.{key_eq→≡, IsStored, Holds, key_path, is_found, pack_data-place_at}
use tug.Vpk.Grouped.{
  is_entry, tree_entries-any, FoldersHold, FoundHolds, group-FoldersHold, sorted_entries-All,
}
use tug.Vpk.Seen.{entry_path, IsRight, see-IsRight, compare_all-ok}
use tug.Vpk.Sealed.{body, seal-verify}

-- A file whose three names the tree can hold, found under its own path.
abbrev pub IsPackable : Found → Type 0
IsPackable f = IsName f.ext × IsName f.folder × IsName f.name × IsStored f

key_eq_refl : (k : Key) → key_eq k k ≡ true
key_eq_refl (e, f, n) = rw (text_eq_refl e, text_eq_refl f, text_eq_refl n) refl

pub All-found : (fs : List Found) → All (λ f. is_found (key_of f) fs ≡ true) fs
All-found [] = tt
All-found (x ∷ fs) = (
  rw (key_eq_refl (key_of x)) refl,
  All-imp (λ f. is_found (key_of f) fs ≡ true) (λ f. is_found (key_of f) (x ∷ fs) ≡ true) fs
      (λ f h. ground arith) (All-found fs),
)

-- The entry of a key is seen under the path of the key.
is_entry-path :
    (k : Key) (x : Entry) → is_entry k x ≡ true → text_eq (entry_path x) (key_path k) ≡ true
is_entry-path k x h =
    let e = key_eq→≡ (x.ext, x.folder, x.name) k h in rw (ap key_path e) (text_eq_refl (key_path k))

pub group-IsName :
    (entries : List Found)
    → All IsPackable entries
    → All (FoldersHold IsName IsName (λ k. IsName k.2)) (group [] entries)
group-IsName entries packable =
    group-FoldersHold IsName IsName (λ k. IsName k.2) [] entries
      (All-imp IsPackable (FoundHolds IsName IsName (λ k. IsName k.2)) entries
        (λ f h. (h.0, h.1, h.2)) packable)
      tt

module _ (disk : Text → List ℕ) (crc32 : List ℕ → ℕ) where
  entry_of-IsRight :
      (arc : List ℕ) (k : Key) (p : Place)
      → length arc < 2 ^ 32
      → Holds disk crc32 arc k p
      → IsRight disk crc32 arc (entry_of (k.0) (k.1) (k.2) p)
  unfolding body_of take drop
  entry_of-IsRight arc k p small h =
      let offset_ok = little_endian-bytes_of_4 p.offset (omega (arith, h.inside, small)) in
      let size_ok = little_endian-bytes_of_4 p.size (omega (arith, h.inside, small)) in
      let crc_ok = little_endian-bytes_of_4 p.crc (omega (arith, h.checked)) in
      let content : content_of arc (entry_of (k.0) (k.1) (k.2) p) ≡ disk (key_path k) =
        ◌∙◌ {b = slice p.offset p.size arc} (λ i. slice (offset_ok i) (size_ok i) arc) h.held in
      (crc_ok ∙ h.checked ∙ rw content refl, content)

  module _ (md5 : List ℕ → List ℕ) (entries : List Found) (packable : All IsPackable entries) where
    abbrev archive : List ℕ
    archive = (pack_data disk crc32 [] [] entries).0

    abbrev meta : Meta
    meta = (pack_data disk crc32 [] [] entries).1

    stored : All IsStored entries
    stored = All-imp IsPackable IsStored entries (λ f h. h.3) packable

    -- The keys of the groups are those of files that are found.
    abbrev OfFound : Key → Type 0
    OfFound k = is_found k entries ≡ true

    entries-IsRight :
        length archive < 2 ^ 32
        → All (IsRight disk crc32 archive) (tree_entries meta (group [] entries))
    entries-IsRight small =
        sorted_entries-All (λ e. Unit {0}) (λ f. Unit {0}) OfFound (IsRight disk crc32 archive)
          (λ e f n. place_at (e, f, n) meta)
          (λ e f n h.
            entry_of-IsRight archive (e, f, n) (place_at (e, f, n) meta) small
              (pack_data-place_at disk crc32 entries (e, f, n) stored h))
          (group [] entries)
          (group-FoldersHold (λ e. Unit {0}) (λ f. Unit {0}) OfFound [] entries
            (All-imp (λ f. OfFound (key_of f)) (FoundHolds (λ e. Unit {0}) (λ f. Unit {0}) OfFound)
              entries (λ f h. (tt, tt, h)) (All-found entries))
            tt)

    seen-stored :
        (seen : Dict (List ℕ))
        → ((k : Text)
            → Dict.get k seen ≡ (
                if any (λ e. text_eq (entry_path e) k) (tree_entries meta (group [] entries))
                then some (disk k)
                else none))
        → All (λ f. Dict.get (key_path (key_of f)) seen ≡ some (disk f.full)) entries
    seen-stored seen h =
        All-imp (λ f. OfFound (key_of f) × IsStored f)
          (λ f. Dict.get (key_path (key_of f)) seen ≡ some (disk f.full)) entries
          (λ f (found, own).
            h (key_path (key_of f))
            ∙ rw
                (
                  any-imp (is_entry (key_of f)) (λ e. text_eq (entry_path e) (key_path (key_of f)))
                      (tree_entries meta (group [] entries)) (is_entry-path (key_of f))
                      (tree_entries-any meta entries (key_of f) ∙ found),
                  own,
                )
                refl)
          (All-both (λ f. OfFound (key_of f)) IsStored entries (All-found entries) stored)

    -- The file that holds a sealed tree of the groups is accepted with the archive.
    sealed-accepted :
        (sums : (s : List ℕ) → length (md5 s) ≡ 16) (tree : List ℕ)
        → length tree < 2 ^ 32
        → length archive < 2 ^ 32
        → tree_bytes meta (group [] entries) ≡ ok tree
        → (n : ℕ) × (verify disk crc32 md5 (seal md5 tree) archive entries ≡ ok n)
    unfolding Dict.get
    sealed-accepted sums tree short small written =
        let read =
          tree_bytes-read meta (group [] entries) tree
            (md5 tree ++ (md5 [] ++ md5 (body md5 sums tree))) (group-IsName entries packable)
            written in
        let (seen, run, holds) =
          see-IsRight disk crc32 archive (tree_entries meta (group [] entries)) []
            (entries-IsRight small) in
        (
          length seen,
          seal-verify md5 sums tree disk crc32 archive entries
                (tree_entries meta (group [] entries)) short read
              ∙ rw run (compare_all-ok disk crc32 seen entries (seen-stored seen holds)),
        )

-- If MD5 has 16 bytes, every file that is found has three names that are neither empty nor hold a NUL
-- and stands under its own path, and the archive stays below 4 GiB, then verify() accepts what build()
-- writes: each of its checks passes for every file.
pub build-verify :
    (disk : Text → List ℕ) (crc32 : List ℕ → ℕ) (md5 : List ℕ → List ℕ) (entries : List Found)
    (packed : Packed)
    → ((s : List ℕ) → length (md5 s) ≡ 16)
    → All IsPackable entries
    → length packed.archive < 2 ^ 32
    → build disk crc32 md5 entries ≡ ok packed
    → (n : ℕ) × (verify disk crc32 md5 packed.dir packed.archive entries ≡ ok n)
unfolding build
build-verify disk crc32 md5 entries packed sums packable small h =
    let stored = pack_data disk crc32 [] [] entries in
    let (tree, written, h') =
      >>=-eq-ok (tree_bytes (stored.1) (group [] entries))
        (λ tree.
          if fits (length tree)
          then ok (record { dir = seal md5 tree; archive = stored.0 })
          else raised out_of_range)
        h in
    let (short, made) =
      checked-eq-ok (fits (length tree)) (ok (record { dir = seal md5 tree; archive = stored.0 }))
        out_of_range h' in
    let made_here : Packed = record { dir = seal md5 tree; archive = stored.0 } in
    let same : made_here ≡ packed = cc made in
    subst
      (λ (p : Packed).
        length p.archive < 2 ^ 32
        → (n : ℕ) × (verify disk crc32 md5 p.dir p.archive entries ≡ ok n))
      same
      (λ below.
        sealed-accepted disk crc32 md5 entries packable sums tree (ground (arith, short)) below
          written)
      small
