-- ===== src/Content.antt =====
-- What a client can find: the VPK trees and the paths that tools/bspaudit/collect_content_index.py
-- reads, the same trees as fastdl/tools/mapvote_images.py reads them, and the lumps of
-- tools/bspaudit/bsplib.py. A file is the list of its bytes, and so is latin-1 text.
pub mod Lumps
pub mod CutOff
pub mod Collect
pub mod Indexed
pub mod Libraries
pub mod Searched
mod Examples
use tug.Base.{
  ℕ, zero, suc, ◌+◌, ◌*◌, ◌^◌, Bool, true, false, not, ◌&&◌, ◌||◌, List, [], ◌∷◌, ◌++◌, map,
  if◌then◌else◌, Option, none, some, ltb, ◌==◌, is_empty, length,
}
use tug.Base.Bytes.{little_endian, drop, take, slice}
use tug.Base.Text.{Text, codes, lower, text_eq, starts_with}
use tug.Workshop.Refresh.{strip, first_seen}
use tug.Audit.{slashes, strip_slashes, cut_prefix, cut_suffix, ends_with, materials_dir, vmt}

-- An entry of a tree; `body` is the 18 bytes that follow its name.
pub record Entry : Type 0 where
  pub ext : Text
  pub folder : Text
  pub name : Text
  pub body : List ℕ

-- The string that is read next: an extension, a folder of it, or a name in that.
pub data Level : Type 0 where
  at_ext : Level
  at_folder : Text → Level
  at_name : Text → Text → Level

-- Read to the empty extension, or to where a string or an entry is cut off.
pub data Ending : Type 0 where
  closed : Ending
  cut_off : Ending

-- The bytes of an entry that follow its name: its preload is at the offset 4.
abbrev pub preload_of : List ℕ → ℕ
preload_of s = little_endian (slice 4 2 s)

abbrev add_entry : Entry → List Entry × Ending → List Entry × Ending
add_entry e (es, end) = (e ∷ es, end)

-- The three loops over a tree: `skip` bytes of an entry are still to go, and `read` is what has been
-- read of a string. An entry needs `need` bytes: 18 where all of it is unpacked, 6 for the preload.
unfoldable pub read_tree : ℕ → ℕ → Level → Text → List ℕ → List Entry × Ending
read_tree need skip level read [] = ([], cut_off)
read_tree need (suc skip) level read (c ∷ s) = read_tree need skip level read s
read_tree need zero at_ext read (c ∷ s) =
    let on = read_tree need 0 at_ext (read ++ c ∷ []) s in
    let into = read_tree need 0 (at_folder read) [] s in
    if c == 0 then if is_empty read then ([], closed) else into else on
read_tree need zero (at_folder e) read (c ∷ s) =
    let on = read_tree need 0 (at_folder e) (read ++ c ∷ []) s in
    let out = read_tree need 0 at_ext [] s in
    let into = read_tree need 0 (at_name e read) [] s in
    if c == 0 then if is_empty read then out else into else on
read_tree need zero (at_name e f) read (c ∷ s) =
    let on = read_tree need 0 (at_name e f) (read ++ c ∷ []) s in
    let out = read_tree need 0 (at_folder e) [] s in
    let past = read_tree need (18 + preload_of s) (at_name e f) [] s in
    if c == 0
    then if is_empty read
      then out
      else if ltb (length s) need
      then ([], cut_off)
      else add_entry (record { ext = e; folder = f; name = read; body = take 18 s }) past
    else on

abbrev signature_of : List ℕ → ℕ
signature_of file = little_endian (slice 0 4 file)

abbrev tree_start : List ℕ → ℕ
tree_start file = if little_endian (slice 4 4 file) == 1 then 12 else 28

abbrev pub tree_of : List ℕ → List ℕ
tree_of file = slice (tree_start file) (little_endian (slice 8 4 file)) file

-- 0x55AA1234
abbrev vpk_signature : ℕ
vpk_signature = 1437209140

unfoldable pub path_of : Entry → Text
path_of e =
    if text_eq e.folder [] || text_eq e.folder (32 ∷ [])
    then e.name ++ (46 ∷ e.ext)
    else e.folder ++ (47 ∷ (e.name ++ (46 ∷ e.ext)))

-- vpk_entries(): what was parsed, however the tree ends. decode("latin1"): a byte is a character, also
-- where the names were written as UTF-8.
unfoldable pub vpk_entries : List ℕ → List Text
unfolding read_tree path_of
vpk_entries file =
    if ltb (length file) 12 || not (signature_of file == vpk_signature)
    then []
    else map path_of ((read_tree 18 0 at_ext [] (tree_of file)).0)

-- normalise()
unfoldable pub normalise : Text → Option Text
normalise p =
    let q = strip_slashes (slashes (lower p)) in
    if ends_with vmt q then some (cut_prefix materials_dir (cut_suffix vmt q)) else none

-- The paths of one VPK that scan_dir() adds.
unfoldable pub vpk_materials : List Text → List Text
vpk_materials [] = []
vpk_materials (p ∷ ps) =
    let rest = vpk_materials ps in
    elim (normalise p) [ none ↦ rest | some n ↦ if is_empty n then rest else n ∷ rest ]

-- struct.error or ValueError of a file or a tree that is cut off
pub data VpkError : Type 0 where
  short_file : VpkError
  cut_tree : VpkError

unfoldable pub lower_path : Entry → Text
lower_path e = lower (
    if is_empty (strip e.folder)
    then e.name ++ (46 ∷ e.ext)
    else e.folder ++ (47 ∷ (e.name ++ (46 ∷ e.ext))))
