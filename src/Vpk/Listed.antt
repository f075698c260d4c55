-- ===== src/Vpk/Listed.antt =====
-- What the content index of tools/bspaudit/collect_content_index.py reads of a VPK that build() of
-- tools/workshop/pack_vpk.py wrote: one writes UTF-8 and the other reads latin-1.
use tug.Base.{
  ℕ, ◌+◌, ◌/◌, ◌%◌, ◌++◌, if◌then◌else◌, ltb, true, false, List, [], ◌∷◌, map, any, All, All-imp,
  All-both, length, is_empty, ◌≡◌, refl, sym, ap, ◌∙◌, arith, append-nil, Bool-cases, inl, inr,
}
use mathlib.Core.Path.{subst}
use tug.Base.Text.{Text, mem_text, text_eq, text_eq_refl}
use tug.Base.Result.{ok, >>=-eq-ok, checked-eq-ok}
use tug.Content.{Ending, Entry, at_ext, read_tree, closed, vpk_entries, path_of}
use tug.Vpk.{
  Found, Key, key_of, pack_data, group, tree_bytes, seal, build, Packed, fits, out_of_range,
  path_in,
}
use tug.Vpk.ReadBack.{IsName, tree_entries, tree_bytes-read}
use tug.Vpk.Stored.{key_eq→≡, key_path}
use tug.Vpk.Grouped.{is_entry, tree_entries-any}
use tug.Vpk.Accepts.{IsPackable, All-found, group-IsName}
use tug.Vpk.Sealed.{seal-vpk_entries}

not_empty : (s : Text) → is_empty s ≡ false → text_eq s [] ≡ false
unfolding text_eq
not_empty [] h = cc
not_empty (c ∷ s) h = refl

-- The two tools name an entry of a named folder alike.
path_of-path_in : (x : Entry) → IsName x.folder → path_of x ≡ path_in x.folder x.name x.ext
unfolding path_of path_in
path_of-path_in x named = rw (path_of, path_in, not_empty x.folder named.0) refl

entry-path_of : (k : Key) (x : Entry) → IsName k.1 → is_entry k x ≡ true → path_of x ≡ key_path k
entry-path_of k x named same =
    let e = key_eq→≡ (x.ext, x.folder, x.name) k same in
    path_of-path_in x (subst (λ (j : Key). IsName j.1) (sym e) named) ∙ ap key_path e

mem_text-path_of :
    (k : Key) (es : List Entry)
    → IsName k.1
    → any (is_entry k) es ≡ true
    → mem_text (key_path k) (map path_of es) ≡ true
unfolding mem_text
mem_text-path_of k [] named found = cc
mem_text-path_of k (x ∷ es) named found = elim (Bool-cases (is_entry k x)) [
  | inl same ↦ rw (entry-path_of k x named same, text_eq_refl (key_path k)) refl
  | inr other ↦
      let later = mem_text-path_of k es named (ground (arith, found, other)) in
      ground (arith, later)
]

-- str.encode(): UTF-8 of a code point
unfoldable pub utf8_char : ℕ → List ℕ
utf8_char c =
    if ltb c 128
    then c ∷ []
    else if ltb c 2048
    then (192 + c / 64) ∷ (128 + c % 64) ∷ []
    else if ltb c 65536
    then (224 + c / 4096) ∷ (128 + (c / 64) % 64) ∷ (128 + c % 64) ∷ []
    else (240 + c / 262144) ∷ (128 + (c / 4096) % 64) ∷ (128 + (c / 64) % 64) ∷ (128 + c % 64) ∷ []

unfoldable pub utf8 : Text → List ℕ
unfolding utf8_char
utf8 [] = []
utf8 (c ∷ s) = utf8_char c ++ utf8 s

abbrev pub IsAscii : Text → Type 0
IsAscii s = All (λ c. ltb c 128 ≡ true) s

-- The bytes of an ASCII text are its characters, also when they are read as latin-1.
utf8-ascii : (s : Text) → IsAscii s → utf8 s ≡ s
unfolding utf8
utf8-ascii [] h = refl
utf8-ascii (c ∷ s) (low, h) = rw low (ap (λ t. c ∷ t) (utf8-ascii s h))

-- The bytes of the path of a file.
abbrev pub full_of : Found → List ℕ
full_of f = f.full

abbrev Lists : List Text → Text → Type 0
Lists names path = mem_text path names ≡ true

Lists-full :
    (names : List Text) (fs : List Found)
    → All (λ f. Lists names f.full) fs
    → All (Lists names) (map full_of fs)
Lists-full names [] h = tt
Lists-full names (f ∷ fs) (here, h) = (here, Lists-full names fs h)

Lists-ascii :
    (names paths : List Text)
    → All IsAscii paths
    → All (Lists names) (map utf8 paths)
    → All (Lists names) paths
Lists-ascii names [] ascii h = tt
Lists-ascii names (p ∷ ps) (low, ascii) (here, h) =
    (subst (Lists names) (utf8-ascii p low) here, Lists-ascii names ps ascii h)

-- Every file found is listed under the bytes of its path.
build-listed :
    (disk : Text → List ℕ) (crc32 : List ℕ → ℕ) (md5 : List ℕ → List ℕ) (entries : List Found)
    (packed : Packed)
    → ((s : List ℕ) → length (md5 s) ≡ 16)
    → All IsPackable entries
    → build disk crc32 md5 entries ≡ ok packed
    → All (λ f. mem_text f.full (vpk_entries packed.dir) ≡ true) entries
unfolding build
build-listed disk crc32 md5 entries packed sums packable h =
    let stored = pack_data disk crc32 [] [] entries in
    let (tree, written, h') = >>=-eq-ok (tree_bytes (stored.1) (group [] entries)) _ h in
    let (short, made) =
      checked-eq-ok (fits (length tree)) (ok (record { dir = seal md5 tree; archive = stored.0 }))
        out_of_range h' in
    let same : seal md5 tree ≡ packed.dir = cc made in
    let es = tree_entries (stored.1) (group [] entries) in
    let read : read_tree 18 0 at_ext [] tree ≡ (es, closed) =
      subst (λ b. read_tree 18 0 at_ext [] b ≡ (es, closed)) (append-nil tree)
        (tree_bytes-read (stored.1) (group [] entries) tree [] (group-IsName entries packable)
          written) in
    let listed : vpk_entries packed.dir ≡ map path_of es =
      ap vpk_entries (sym same)
      ∙ seal-vpk_entries md5 sums tree (ground (arith, short))
      ∙ ap (λ (r : List Entry × Ending). map path_of r.0) read in
    All-imp _ _ entries
      (λ f (packs, found).
        subst (λ names. mem_text f.full names ≡ true) (sym listed)
          (subst (λ path. mem_text path (map path_of es) ≡ true) (sym packs.3)
            (mem_text-path_of (key_of f) es packs.1
              (tree_entries-any (stored.1) entries (key_of f) ∙ found))))
      (All-both IsPackable _ entries packable (All-found entries))

-- If MD5 has 16 bytes, every file found has three names that are neither empty nor hold a NUL and stands
-- under its own path, and these paths are the UTF-8 of ASCII texts, then the content index lists each of
-- the texts when it reads, as latin-1, the directory file that build() writes.
pub build-vpk_entries :
    (disk : Text → List ℕ) (crc32 : List ℕ → ℕ) (md5 : List ℕ → List ℕ) (entries : List Found)
    (paths : List Text) (packed : Packed)
    → ((s : List ℕ) → length (md5 s) ≡ 16)
    → All IsPackable entries
    → All IsAscii paths
    → map full_of entries ≡ map utf8 paths
    → build disk crc32 md5 entries ≡ ok packed
    → All (λ path. mem_text path (vpk_entries packed.dir) ≡ true) paths
build-vpk_entries disk crc32 md5 entries paths packed sums packable ascii encoded h =
    let names = vpk_entries packed.dir in
    Lists-ascii names paths ascii (
      subst (All (Lists names)) encoded
        (Lists-full names entries (build-listed disk crc32 md5 entries packed sums packable h)))
