-- ===== src/Vpk/ReadBack.antt =====
-- The tree that build() writes, read back by the loops over a tree.
use tug.Base.{
  ℕ, suc, false, ◌&&◌, List, [], ◌∷◌, ◌++◌, ltb, is_empty, length, ◌≡◌, refl, arith, ◌∙◌, sym, ap,
  append_assoc, append-nil, All,
}
use mathlib.Core.Path.{subst}
use tug.Base.Bytes.{little_endian, bytes_of, drop, take}
use tug.Base.Text.{Text, has_char, has_char-cons, text_lt}
use tug.Base.Sort.{sorted}
use tug.Base.SortedList.{All-sorted}
use tug.Base.Dict.{Dict}
use tug.Base.Result.{ok, ◌>>=◌, >>=-eq-ok, checked-eq-ok}
use tug.Content.{Entry, Level, at_ext, at_folder, at_name, Ending, closed, read_tree}
use tug.Vpk.{
  Place, Meta, Groups, body_of, pack_place, names_tree, folders_tree, exts_tree, folder_lt, ext_lt,
  tree_bytes, place_at, out_of_range, fits,
}

-- A string that the tree can hold: not empty, and without a NUL.
abbrev pub IsName : Text → Type 0
IsName s = (is_empty s ≡ false) × (has_char 0 s ≡ false)

-- The level below, when a string has been read.
abbrev below : Level → Text → Level
below at_ext s = at_folder s
below (at_folder e) s = at_name e s
below (at_name e f) s = at_name e f

-- A string of a folder or an extension is read up to its NUL.
read_tree-string :
    (level : Level) (read s rest : List ℕ)
    → has_char 0 s ≡ false
    → read_tree 18 0 level read (s ++ (0 ∷ rest)) ≡ read_tree 18 0 level (read ++ s) (0 ∷ rest)
unfolding read_tree
read_tree-string level read [] rest h = rw (append-nil read) refl
read_tree-string at_ext read (c ∷ s) rest h =
    let (char, h') = has_char-cons 0 c s h in
    rw char
      (read_tree-string at_ext (read ++ c ∷ []) s rest h' ∙ rw (append_assoc read (c ∷ []) s) refl)
read_tree-string (at_folder e) read (c ∷ s) rest h =
    let (char, h') = has_char-cons 0 c s h in
    rw char (
      read_tree-string (at_folder e) (read ++ c ∷ []) s rest h'
      ∙ rw (append_assoc read (c ∷ []) s) refl)
read_tree-string (at_name e f) read (c ∷ s) rest h =
    let (char, h') = has_char-cons 0 c s h in
    rw char (
      read_tree-string (at_name e f) (read ++ c ∷ []) s rest h'
      ∙ rw (append_assoc read (c ∷ []) s) refl)

read_tree-ext :
    (s rest : List ℕ)
    → IsName s
    → read_tree 18 0 at_ext [] (s ++ (0 ∷ rest)) ≡ read_tree 18 0 (at_folder s) [] rest
unfolding read_tree
read_tree-ext s rest (full, h) = read_tree-string at_ext [] s rest h ∙ rw full refl

read_tree-folder :
    (e s rest : List ℕ)
    → IsName s
    → read_tree 18 0 (at_folder e) [] (s ++ (0 ∷ rest)) ≡ read_tree 18 0 (at_name e s) [] rest
unfolding read_tree
read_tree-folder e s rest (full, h) = read_tree-string (at_folder e) [] s rest h ∙ rw full refl

abbrev pub entry_of : Text → Text → Text → Place → Entry
entry_of e f n p = record { ext = e; folder = f; name = n; body = body_of p }

abbrev cons_entry : Entry → List Entry × Ending → List Entry × Ending
cons_entry x read = (x ∷ read.0, read.1)

read_tree-name :
    (e f s : Text) (p : Place) (rest : List ℕ)
    → IsName s
    → read_tree 18 0 (at_name e f) [] (s ++ (0 ∷ (body_of p ++ rest)))
      ≡ cons_entry (entry_of e f s p) (read_tree 18 0 (at_name e f) [] rest)
unfolding read_tree body_of bytes_of take drop little_endian
read_tree-name e f s p rest (full, h) =
    read_tree-string (at_name e f) [] s (body_of p ++ rest) h
    ∙ rw full (
        let n = length rest in
        let long : ltb
              (suc (
                suc (
                  suc (
                    suc (
                      suc (
                        suc (
                          suc (
                            suc
                              (suc (suc (suc (suc (suc (suc (suc (suc (suc (suc n))))))))))))))))))
              18
            ≡ false =
          ground arith in
        rw long refl)

abbrev pub names_entries : Text → Text → (Text → Place) → List Text → List Entry
names_entries e f at [] = []
names_entries e f at (n ∷ ns) = entry_of e f n (at n) ∷ names_entries e f at ns

abbrev pub folders_entries : Text → (Text → Text → Place) → Dict (List Text) → List Entry
folders_entries e at [] = []
folders_entries e at ((f, ns) ∷ fs) =
    names_entries e f (at f) (sorted text_lt ns) ++ folders_entries e at fs

abbrev pub exts_entries : (Text → Text → Text → Place) → Groups → List Entry
exts_entries at [] = []
exts_entries at ((e, fs) ∷ es) =
    folders_entries e (at e) (sorted folder_lt fs) ++ exts_entries at es

-- What is read of a part of the tree, in front of what is read after it.
abbrev before : List Entry → List Entry × Ending → List Entry × Ending
before es read = (es ++ read.0, read.1)

pack_place-ok : (p : Place) (b : List ℕ) → pack_place p ≡ ok b → b ≡ body_of p
unfolding pack_place
pack_place-ok p b h =
    let packed =
      (checked-eq-ok (fits p.crc && (fits p.offset && fits p.size)) (ok (body_of p)) out_of_range
        h).1 in
    cc

names_tree-read :
    (e f : Text) (at : Text → Place) (ns : List Text) (b rest : List ℕ)
    → All IsName ns
    → names_tree at ns ≡ ok b
    → read_tree 18 0 (at_name e f) [] (b ++ rest)
      ≡ before (names_entries e f at ns) (read_tree 18 0 (at_folder e) [] rest)
unfolding names_tree read_tree
names_tree-read e f at [] b rest names h =
    let last : 0 ∷ [] ≡ b = cc in
    subst
      (λ b.
        read_tree 18 0 (at_name e f) [] (b ++ rest)
        ≡ before [] (read_tree 18 0 (at_folder e) [] rest))
      last refl
names_tree-read e f at (n ∷ ns) b rest (name, names) h =
    let (body, packed, h') =
      >>=-eq-ok (pack_place (at n))
        (λ body. names_tree at ns >>= λ more. ok (n ++ (0 ∷ (body ++ more)))) h in
    let (more, later, h'') =
      >>=-eq-ok (names_tree at ns) (λ more. ok (n ++ (0 ∷ (body ++ more)))) h' in
    let shape : n ++ (0 ∷ (body_of (at n) ++ more)) ≡ b = cc (pack_place-ok (at n) body packed) in
    let split : b ++ rest ≡ n ++ (0 ∷ (body_of (at n) ++ (more ++ rest))) =
      rw
        (
          sym shape,
          append_assoc n (0 ∷ (body_of (at n) ++ more)) rest,
          append_assoc (body_of (at n)) more rest,
        )
        refl in
    rw split (
      read_tree-name e f n (at n) (more ++ rest) name
      ∙ ap (cons_entry (entry_of e f n (at n))) (names_tree-read e f at ns more rest names later))

abbrev pub FolderNames : Text × List Text → Type 0
FolderNames (f, ns) = IsName f × All IsName ns

before_assoc :
    (xs ys : List Entry) (read : List Entry × Ending)
    → before xs (before ys read) ≡ before (xs ++ ys) read
before_assoc xs ys read = rw (append_assoc xs ys (read.0)) refl

folders_tree-read :
    (e : Text) (at : Text → Text → Place) (fs : Dict (List Text)) (b rest : List ℕ)
    → All FolderNames fs
    → folders_tree at fs ≡ ok b
    → read_tree 18 0 (at_folder e) [] (b ++ rest)
      ≡ before (folders_entries e at fs) (read_tree 18 0 at_ext [] rest)
unfolding folders_tree read_tree
folders_tree-read e at [] b rest names h =
    let last : 0 ∷ [] ≡ b = cc in
    subst
      (λ b. read_tree 18 0 (at_folder e) [] (b ++ rest) ≡ before [] (read_tree 18 0 at_ext [] rest))
      last refl
folders_tree-read e at ((f, ns) ∷ fs) b rest ((name, inside), names) h =
    let here = sorted text_lt ns in
    let (bytes, written, h') =
      >>=-eq-ok (names_tree (at f) here)
        (λ bytes. folders_tree at fs >>= λ more. ok (f ++ (0 ∷ (bytes ++ more)))) h in
    let (more, later, h'') =
      >>=-eq-ok (folders_tree at fs) (λ more. ok (f ++ (0 ∷ (bytes ++ more)))) h' in
    let shape : f ++ (0 ∷ (bytes ++ more)) ≡ b = cc in
    let split : b ++ rest ≡ f ++ (0 ∷ (bytes ++ (more ++ rest))) =
      rw (sym shape, append_assoc f (0 ∷ (bytes ++ more)) rest, append_assoc bytes more rest)
        refl in
    rw split (
      read_tree-folder e f (bytes ++ (more ++ rest)) name
      ∙ names_tree-read e f (at f) here bytes (more ++ rest) (All-sorted IsName text_lt ns inside)
          written
      ∙ ap (before (names_entries e f (at f) here))
          (folders_tree-read e at fs more rest names later)
      ∙ before_assoc (names_entries e f (at f) here) (folders_entries e at fs)
          (read_tree 18 0 at_ext [] rest))

abbrev pub ExtNames : Text × Dict (List Text) → Type 0
ExtNames (e, fs) = IsName e × All FolderNames fs

exts_tree-read :
    (at : Text → Text → Text → Place) (es : Groups) (b rest : List ℕ)
    → All ExtNames es
    → exts_tree at es ≡ ok b
    → read_tree 18 0 at_ext [] (b ++ rest) ≡ (exts_entries at es, closed)
unfolding exts_tree read_tree
exts_tree-read at [] b rest names h =
    let last : 0 ∷ [] ≡ b = cc in
    subst (λ b. read_tree 18 0 at_ext [] (b ++ rest) ≡ ([], closed)) last refl
exts_tree-read at ((e, fs) ∷ es) b rest ((name, inside), names) h =
    let here = sorted folder_lt fs in
    let (bytes, written, h') =
      >>=-eq-ok (folders_tree (at e) here)
        (λ bytes. exts_tree at es >>= λ more. ok (e ++ (0 ∷ (bytes ++ more)))) h in
    let (more, later, h'') =
      >>=-eq-ok (exts_tree at es) (λ more. ok (e ++ (0 ∷ (bytes ++ more)))) h' in
    let shape : e ++ (0 ∷ (bytes ++ more)) ≡ b = cc in
    let split : b ++ rest ≡ e ++ (0 ∷ (bytes ++ (more ++ rest))) =
      rw (sym shape, append_assoc e (0 ∷ (bytes ++ more)) rest, append_assoc bytes more rest)
        refl in
    rw split (
      read_tree-ext e (bytes ++ (more ++ rest)) name
      ∙ folders_tree-read e (at e) here bytes (more ++ rest)
          (All-sorted FolderNames folder_lt fs inside) written
      ∙ ap (before (folders_entries e (at e) here)) (exts_tree-read at es more rest names later))

-- The entries that build() puts into the tree, in its order.
abbrev pub tree_entries : Meta → Groups → List Entry
tree_entries meta groups = exts_entries (λ e p b. place_at (e, p, b) meta) (sorted ext_lt groups)

pub tree_bytes-read :
    (meta : Meta) (groups : Groups) (b rest : List ℕ)
    → All ExtNames groups
    → tree_bytes meta groups ≡ ok b
    → read_tree 18 0 at_ext [] (b ++ rest) ≡ (tree_entries meta groups, closed)
unfolding tree_bytes
tree_bytes-read meta groups b rest names h =
    exts_tree-read (λ e p b. place_at (e, p, b) meta) (sorted ext_lt groups) b rest
      (All-sorted ExtNames ext_lt groups names) h
