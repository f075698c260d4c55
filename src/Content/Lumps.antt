-- ===== src/Content/Lumps.antt =====
-- class Bsp of tools/bspaudit/bsplib.py, and vpk_names() of fastdl/tools/mapvote_images.py. The names
-- in a zip file are a parameter; it is none where zipfile raises.
use tug.Base.{
  ℕ, ◌+◌, ◌*◌, not, List, [], ◌∷◌, ◌++◌, map, if◌then◌else◌, Option, none, some, ltb, ◌==◌,
  is_empty, length, keep_if,
}
use tug.Base.Bytes.{little_endian, slice, take}
use tug.Base.Text.{Text, codes, lower, text_lt, text_eq}
use tug.Base.Sort.{sorted}
use tug.Base.Result.{Result, ok, raised}
use tug.Workshop.Refresh.{first_seen}
use tug.Audit.{slashes}
use tug.Content.{
  closed, cut_off, VpkError, short_file, cut_tree, tree_of, read_tree, at_ext, lower_path,
}

-- ValueError of the magic, struct.error of a header that is cut off, OSError of open()
pub data BspError : Type 0 where
  not_vbsp short_header unreadable : BspError

-- Bsp(): the version, one below 2 ^ 31, of a file that has the magic and 64 lumps
unfoldable pub open_bsp : List ℕ → Result BspError ℕ
open_bsp file =
    if not (text_eq (take 4 file) (codes "VBSP"))
    then raised not_vbsp
    else if ltb (length file) 1032
    then raised short_header
    else ok (little_endian (slice 4 4 file))

-- data.split(b"\0"), with the part that is being read
unfoldable pub split_nul : Text → List ℕ → List Text
split_nul part [] = part ∷ []
split_nul part (c ∷ s) =
    let here = split_nul [] s in
    let on = split_nul (part ++ c ∷ []) s in if c == 0 then part ∷ here else on

-- (offset, length) of a lump; the file is one of an offset and a length below 2 ^ 31
unfoldable pub lump_at : List ℕ → ℕ → ℕ × ℕ
unfolding little_endian
lump_at file index =
    (little_endian (slice (8 + index * 16) 4 file), little_endian (slice (12 + index * 16) 4 file))

unfoldable pub lump : List ℕ → ℕ → List ℕ
lump file index = let at = lump_at file index in slice (at.0) (at.1) file

abbrev first_or_empty : List Text → Text
first_or_empty [] = []
first_or_empty (t ∷ ts) = t

unfoldable pub entities_text : List ℕ → Text
unfolding split_nul lump
entities_text file = first_or_empty (split_nul [] (lump file 0))

unfoldable pub face_materials : List ℕ → List Text
unfolding split_nul lump sorted
face_materials file = sorted text_lt (
    first_seen [] (
      map (λ s. slashes (lower s)) (keep_if (λ s. not (is_empty s)) (split_nul [] (lump file 43)))))

unfoldable pub packed : (List ℕ → Option (List Text)) → List ℕ → List Text
unfolding lump
packed names_in_zip file =
    let raw = lump file 40 in
    if is_empty raw
    then []
    else elim (names_in_zip raw) [ none ↦ [] | some names ↦ map (λ n. slashes (lower n)) names ]

-- vpk_names(), the set as a list
unfoldable pub vpk_names : List ℕ → Result VpkError (List Text)
unfolding read_tree lower_path
vpk_names file =
    if ltb (length file) 12
    then raised short_file
    else if not (little_endian (slice 0 4 file) == 1437209140)
    then ok []
    else let tree = read_tree 6 0 at_ext [] (tree_of file) in
      elim (tree.1) [ closed ↦ ok (map lower_path (tree.0)) | cut_off ↦ raised cut_tree ]
