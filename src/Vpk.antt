-- ===== src/Vpk.antt =====
-- collect(), build() and verify() of tools/workshop/pack_vpk.py. A name is its UTF-8 bytes, which sort
-- as the text does. The walk over the directory, what the files hold, CRC-32 and MD5 are parameters.
pub mod ReadBack
pub mod Stored
pub mod Grouped
pub mod Seen
pub mod Sealed
pub mod Accepts
pub mod Listed
pub mod Collected
mod Examples
use tug.Base.{
  ℕ, zero, suc, ◌+◌, ◌%◌, ◌^◌, Bool, true, false, not, ◌&&◌, List, [], ◌∷◌, ◌++◌, map,
  if◌then◌else◌, Option, none, some, ltb, ◌==◌, is_empty, length,
}
use tug.Base.Bytes.{little_endian, bytes_of, drop, take, slice}
use tug.Base.Text.{Text, text_eq, text_lt, rsplit}
use tug.Base.Sort.{sorted}
use tug.Base.Dict
use tug.Base.Dict.{Dict, append_to}
use tug.Base.Result.{Result, ok, raised, too_deep, ◌>>=◌}
use tug.Content.{Entry, Ending, closed, cut_off, at_ext, read_tree}

-- (ext, path, basename, full); `full` is the path below the content directory
pub record Found : Type 0 where
  pub ext : Text
  pub folder : Text
  pub name : Text
  pub full : Text

pub data PackError : Type 0 where
  no_extension : Text → PackError
  no_files : PackError
  -- struct.error of pack() and of unpack_from(), and the ValueError of index()
  out_of_range cut_short : PackError
  -- the assertions of verify()
  bad_signature bad_tree_md5 bad_file_md5 : PackError
  crc_mismatch missing differs : Text → PackError

-- root and f, relative to the content directory; the top is the empty path
abbrev relative : Text → Text → Text
relative [] f = f
relative (c ∷ root) f = (c ∷ root) ++ (47 ∷ f)

abbrev pub split_path : Text → Text × Text
split_path rel = elim (rsplit 47 rel) [ none ↦ ([], rel) | some found ↦ found ]

-- path or " "
abbrev pub or_space : Text → Text
or_space [] = 32 ∷ []
or_space (c ∷ s) = c ∷ s

unfoldable pub found_at : Text → Result PackError Found
unfolding rsplit
found_at rel =
    let (path, base) = split_path rel in
    elim (rsplit 46 base) [
      | none ↦ raised (no_extension rel)
      | some (n, e) ↦ ok (record { ext = e; folder = or_space path; name = n; full = rel })
    ]

unfoldable pub collect_files : Text → List Text → Result PackError (List Found)
unfolding found_at
collect_files root [] = ok []
collect_files root (f ∷ files) = do
  x ← found_at (relative root f)
  rest ← collect_files root files
  ok (x ∷ rest)

unfoldable pub collect_walk : List (Text × List Text) → Result PackError (List Found)
unfolding collect_files
collect_walk [] = ok []
collect_walk ((root, files) ∷ walk) = do
  here ← collect_files root (sorted text_lt files)
  rest ← collect_walk walk
  ok (here ++ rest)

unfoldable pub collect : List (Text × List Text) → Result PackError (List Found)
unfolding collect_walk
collect walk = collect_walk walk >>= λ out. if is_empty out then raised no_files else ok out

-- (crc, offset, length)
pub record Place : Type 0 where
  pub crc : ℕ
  pub offset : ℕ
  pub size : ℕ

-- (ext, path, base)
abbrev pub Key : Type 0
Key = Text × Text × Text

abbrev pub key_of : Found → Key
key_of f = (f.ext, f.folder, f.name)

abbrev pub key_eq : Key → Key → Bool
key_eq (a, b, c) (d, e, f) = text_eq a d && (text_eq b e && text_eq c f)

abbrev pub Meta : Type 0
Meta = List (Key × Place)

-- meta[key], which is there for every key of by_ext
unfoldable pub place_at : Key → Meta → Place
place_at k [] = record { crc = 0; offset = 0; size = 0 }
place_at k ((j, p) ∷ meta) = if key_eq j k then p else place_at k meta

-- meta[key] = place
unfoldable pub set_place : Key → Place → Meta → Meta
set_place k p [] = (k, p) ∷ []
set_place k p ((j, q) ∷ meta) = if key_eq j k then (j, p) ∷ meta else (j, q) ∷ set_place k p meta

-- by_ext: extension -> path -> names
abbrev pub Groups : Type 0
Groups = Dict (Dict (List Text))

abbrev pub or_none : Option (Dict (List Text)) → Dict (List Text)
or_none none = []
or_none (some d) = d

unfoldable pub group : Groups → List Found → Groups
group groups [] = groups
group groups (f ∷ fs) =
    group (Dict.update f.ext (λ o. append_to f.folder f.name (or_none o)) groups) fs

-- struct.pack("<IHHIIH", crc, 0, ARCHIVE_INDEX, offset, length, ENTRY_TERMINATOR)
unfoldable pub body_of : Place → List ℕ
unfolding bytes_of
body_of p =
    bytes_of 4 p.crc
    ++ (bytes_of 2 0
        ++ (bytes_of 2 0 ++ (bytes_of 4 p.offset ++ (bytes_of 4 p.size ++ bytes_of 2 65535))))

abbrev pub fits : ℕ → Bool
fits n = ltb n (2 ^ 32)

unfoldable pub pack_place : Place → Result PackError (List ℕ)
unfolding body_of
pack_place p =
    if fits p.crc && (fits p.offset && fits p.size) then ok (body_of p) else raised out_of_range

unfoldable pub names_tree : (Text → Place) → List Text → Result PackError (List ℕ)
names_tree at [] = ok (0 ∷ [])
names_tree at (base ∷ bases) = do
  body ← pack_place (at base)
  rest ← names_tree at bases
  ok (base ++ (0 ∷ (body ++ rest)))

unfoldable pub folders_tree : (Text → Text → Place) → Dict (List Text) → Result PackError (List ℕ)
folders_tree at [] = ok (0 ∷ [])
folders_tree at ((path, bases) ∷ folders) = do
  names ← names_tree (at path) (sorted text_lt bases)
  rest ← folders_tree at folders
  ok (path ++ (0 ∷ (names ++ rest)))

abbrev pub folder_lt : Text × List Text → Text × List Text → Bool
folder_lt a b = text_lt a.0 b.0

abbrev pub ext_lt : Text × Dict (List Text) → Text × Dict (List Text) → Bool
ext_lt a b = text_lt a.0 b.0

unfoldable pub exts_tree : (Text → Text → Text → Place) → Groups → Result PackError (List ℕ)
exts_tree at [] = ok (0 ∷ [])
exts_tree at ((ext, folders) ∷ groups) = do
  here ← folders_tree (at ext) (sorted folder_lt folders)
  rest ← exts_tree at groups
  ok (ext ++ (0 ∷ (here ++ rest)))

unfoldable pub tree_bytes : Meta → Groups → Result PackError (List ℕ)
unfolding exts_tree
tree_bytes meta groups = exts_tree (λ e p b. place_at (e, p, b) meta) (sorted ext_lt groups)

pub record Packed : Type 0 where
  pub dir : List ℕ
  pub archive : List ℕ

-- The loop over the data: the archive and `meta`.
unfoldable pub pack_data :
    (Text → List ℕ) → (List ℕ → ℕ) → List ℕ → Meta → List Found → List ℕ × Meta
pack_data disk crc32 archive meta [] = (archive, meta)
pack_data disk crc32 archive meta (f ∷ fs) =
    let content = disk f.full in
    let place : Place = record {
      crc = crc32 content % 2 ^ 32;
      offset = length archive;
      size = length content;
    } in
    pack_data disk crc32 (archive ++ content) (set_place (key_of f) place meta) fs

-- VPK_SIGNATURE is 0x55AA1234.
unfoldable pub header : ℕ → List ℕ
unfolding bytes_of
header size =
    bytes_of 4 1437209140
    ++ (bytes_of 4 2
        ++ (bytes_of 4 size ++ (bytes_of 4 0 ++ (bytes_of 4 0 ++ (bytes_of 4 48 ++ bytes_of 4 0)))))

unfoldable pub seal : (List ℕ → List ℕ) → List ℕ → List ℕ
seal md5 tree =
    let body = header (length tree) ++ (tree ++ (md5 tree ++ md5 [])) in body ++ md5 body

unfoldable pub build :
    (Text → List ℕ) → (List ℕ → ℕ) → (List ℕ → List ℕ) → List Found → Result PackError Packed
build disk crc32 md5 entries =
    let stored = pack_data disk crc32 [] [] entries in
    tree_bytes (stored.1) (group [] entries) >>= λ tree.
    if fits (length tree)
    then ok (record { dir = seal md5 tree; archive = stored.0 })
    else raised out_of_range

-- '' if path == ' ' else path + '/', and base.ext
unfoldable pub path_in : Text → Text → Text → Text
path_in folder name ext =
    if text_eq folder (32 ∷ []) then name ++ (46 ∷ ext) else folder ++ (47 ∷ (name ++ (46 ∷ ext)))

-- arc[eoff:eoff + elen]
abbrev pub content_of : List ℕ → Entry → List ℕ
content_of arc e = slice (little_endian (slice 8 4 e.body)) (little_endian (slice 12 4 e.body)) arc

-- The loops over the tree: the CRC of each entry, and `seen`.
unfoldable pub see :
    (List ℕ → ℕ) → List ℕ → Dict (List ℕ) → List Entry → Result PackError (Dict (List ℕ))
see crc32 arc seen [] = ok seen
see crc32 arc seen (e ∷ es) =
    let rest =
      see crc32 arc (Dict.update (path_in e.folder e.name e.ext) (λ _. content_of arc e) seen) es in
    if (crc32 (content_of arc e) % 2 ^ 32) == little_endian (slice 0 4 e.body)
    then rest
    else raised (crc_mismatch (e.name ++ (46 ∷ e.ext)))

unfoldable pub compare_all : (Text → List ℕ) → Dict (List ℕ) → List Found → Result PackError ℕ
compare_all disk seen [] = ok (length seen)
compare_all disk seen (f ∷ fs) =
    let rest = compare_all disk seen fs in
    let key = path_in f.folder f.name f.ext in
    elim (Dict.get key seen) [
      | none ↦ raised (missing key)
      | some content ↦ if text_eq content (disk f.full) then rest else raised (differs key)
    ]

-- The integer at an offset of the header.
abbrev pub field : ℕ → List ℕ → ℕ
field at b = little_endian (slice at 4 b)

unfoldable pub verify :
    (Text → List ℕ)
    → (List ℕ → ℕ)
    → (List ℕ → List ℕ)
    → List ℕ
    → List ℕ
    → List Found
    → Result PackError ℕ
verify disk crc32 md5 b arc entries =
    let size = field 8 b in
    let off = 28 + size + field 12 b + field 16 b in
    if ltb (length b) 28
    then raised cut_short
    else if not (field 0 b == 1437209140 && field 4 b == 2)
    then raised bad_signature
    else if not (text_eq (md5 (slice 28 size b)) (slice off 16 b))
    then raised bad_tree_md5
    else if not (text_eq (md5 (take (off + 32) b)) (slice (off + 32) 16 b))
    then raised bad_file_md5
    else let read = read_tree 18 0 at_ext [] (drop 28 b) in
      see crc32 arc [] (read.0) >>= λ seen. elim (read.1) [
        | closed ↦ compare_all disk seen entries
        | cut_off ↦ raised cut_short
      ]

-- main(), of the walk over the content directory
unfoldable pub main :
    (Text → List ℕ)
    → (List ℕ → ℕ)
    → (List ℕ → List ℕ)
    → List (Text × List Text)
    → Result PackError ℕ
main disk crc32 md5 walk = do
  entries ← collect walk
  packed ← build disk crc32 md5 entries
  verify disk crc32 md5 packed.dir packed.archive entries
