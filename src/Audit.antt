-- ===== src/Audit.antt =====
-- tools/bspaudit/audit.py: which materials of a map a client cannot find, and what is written about
-- them. What the map file holds is an argument: the materials of its faces, its packed files, and
-- the key/value pairs of each of its entities. Text is lower-cased as latin-1.
pub mod Report
pub mod Run
pub mod Remedy
pub mod Reasons
pub mod Entities
pub mod Pairs
pub mod Lump
pub mod Missing
pub mod Found
mod Examples
use tug.Base.{
  ℕ, zero, suc, ◌+◌, Bool, true, false, not, ◌&&◌, ◌||◌, List, [], ◌∷◌, ◌++◌, map, if◌then◌else◌,
  Option, none, some, ◌==◌, is_empty, length, keep_if, any,
}
use mathlib.Core.List.{reverse}
use tug.Base.Text.{Text, codes, lower, text_eq, text_lt, starts_with, mem_text}
use tug.Base.Sort.{sorted}
use tug.Base.Dict
use tug.Base.Dict.{Dict, append_to}
use tug.Workshop.Refresh.{strip, first_seen, is_id}

-- s.replace("\\", "/")
unfoldable pub slashes : Text → Text
slashes s = map (λ c. if c == 92 then 47 else c) s

-- s.lstrip("/")
unfoldable pub strip_slashes : Text → Text
strip_slashes [] = []
strip_slashes (c ∷ s) = if c == 47 then strip_slashes s else c ∷ s

-- The text without a prefix that it has.
unfoldable pub without_prefix : Text → Text → Text
without_prefix [] s = s
without_prefix (c ∷ p) [] = []
without_prefix (c ∷ p) (d ∷ s) = without_prefix p s

abbrev pub cut_prefix : Text → Text → Text
cut_prefix p s = if starts_with p s then without_prefix p s else s

-- s.endswith(p)
abbrev pub ends_with : Text → Text → Bool
ends_with p s = starts_with (reverse p) (reverse s)

-- s[:-len(p)] where s ends with p
unfoldable pub cut_suffix : Text → Text → Text
unfolding without_prefix
cut_suffix p s = reverse (cut_prefix (reverse p) (reverse s))

abbrev pub materials_dir : Text
materials_dir = codes "materials/"

abbrev pub vmt : Text
vmt = codes ".vmt"

unfoldable pub normalise_material : Text → Text
unfolding slashes strip_slashes cut_suffix without_prefix
normalise_material value =
    cut_suffix vmt (cut_prefix materials_dir (strip_slashes (slashes (lower (strip value)))))

abbrev pub material_keys : List Text
material_keys =
    codes "texture" ∷ codes "material" ∷ codes "detailmaterial" ∷ codes "overlaymaterial" ∷ []

abbrev pub enum_material_classes : List Text
enum_material_classes =
    codes "func_breakable"
    ∷ codes "func_breakable_surf"
    ∷ codes "func_physbox"
    ∷ codes "prop_physics"
    ∷ codes "prop_physics_multiplayer"
    ∷ codes "prop_door_rotating"
    ∷ []

abbrev pub brush_face : Text
brush_face = codes "brush face"

-- Materials with the reasons for them: refs, a defaultdict(list)
abbrev pub Refs : Type 0
Refs = Dict (List Text)

unfoldable pub face_refs : Refs → List Text → Refs
face_refs refs [] = refs
face_refs refs (mat ∷ mats) =
    let norm = normalise_material mat in
    face_refs (if is_empty norm then refs else append_to norm brush_face refs) mats

abbrev pub or_else : Text → Option Text → Text
or_else d none = d
or_else d (some v) = v

-- The loop over MATERIAL_KEYS for one entity.
unfoldable pub key_refs : Dict Text → Text → Refs → List Text → Refs
key_refs kvs classname refs [] = refs
key_refs kvs classname refs (key ∷ rest) =
    let val = or_else [] (Dict.get key kvs) in
    let norm = normalise_material val in
    let skipped =
      is_empty val
      || (text_eq key (codes "material") && mem_text classname enum_material_classes)
      || is_empty norm
      || is_id norm in
    key_refs kvs classname (if skipped then refs else append_to norm (classname ++ (46 ∷ key)) refs)
      rest

unfoldable pub entity_refs : Refs → Dict Text → Refs
unfolding key_refs
entity_refs refs kvs =
    let classname = or_else (codes "?") (Dict.get (codes "classname") kvs) in
    let model = or_else [] (Dict.get (codes "model") kvs) in
    let found = key_refs kvs classname refs material_keys in
    if ends_with vmt (lower model)
    then append_to (normalise_material model) (classname ++ codes ".model") found
    else found

unfoldable pub entities_refs : Refs → List (Dict Text) → Refs
entities_refs refs [] = refs
entities_refs refs (kvs ∷ rest) = entities_refs (entity_refs refs kvs) rest

unfoldable pub referenced_materials : List Text → List (Dict Text) → Refs
unfolding face_refs entities_refs
referenced_materials faces entities = entities_refs (face_refs [] faces) entities

-- for line in f, of a file that is open as text: a line ends at \n, \r or \r\n. `line` is what has been
-- read of it, and `after_return` says that the last character was a \r. The end itself is left out.
unfoldable pub lines_from : Bool → Text → Text → List Text
lines_from after_return line [] = if is_empty line then [] else line ∷ []
lines_from after_return line (c ∷ s) =
    let next = lines_from false [] s in
    let next_return = lines_from true [] s in
    let on = lines_from false (line ++ c ∷ []) s in
    if c == 10
    then if after_return then next else line ∷ next
    else if c == 13
    then line ∷ next_return
    else on

-- The loop of load_content_index(), the set as a list.
unfoldable pub load_lines : List Text → List Text
load_lines [] = []
load_lines (l ∷ lines) =
    let line = slashes (lower (strip l)) in
    let rest = load_lines lines in
    if is_empty line || starts_with (35 ∷ []) line
    then rest
    else cut_suffix vmt (cut_prefix materials_dir line) ∷ rest

-- load_content_index(), of the text of the file
unfoldable pub load_content_index : Text → List Text
unfolding lines_from load_lines
load_content_index text = load_lines (lines_from false [] text)

-- The tests of audit()'s loop that a missing material passes. No content index is none.
unfoldable pub is_missing : List Text → Option (List Text) → Text → Bool
is_missing packed content mat =
    not (is_empty mat)
    && (not (starts_with (codes "tools/") mat)
        && (not (mem_text (materials_dir ++ (mat ++ vmt)) packed)
            && not (elim content [ none ↦ false | some index ↦ mem_text mat index ])))

abbrev pub refs_lt : Text × List Text → Text × List Text → Bool
refs_lt a b = text_lt a.0 b.0

-- {mat: sorted(set(reasons))} of what is missing, in the order of the materials
unfoldable pub missing_of : List Text → Option (List Text) → Refs → Refs
missing_of packed content [] = []
missing_of packed content ((mat, reasons) ∷ refs) =
    let rest = missing_of packed content refs in
    if is_missing packed content mat
    then (mat, sorted text_lt (first_seen [] reasons)) ∷ rest
    else rest

pub record MapReport : Type 0 where
  pub map_name : Text
  pub bsp_version : ℕ
  pub referenced : ℕ
  pub packed_files : ℕ
  pub missing : Refs

unfoldable pub audit :
    Text → ℕ → List Text → List Text → List (Dict Text) → Option (List Text) → MapReport
unfolding referenced_materials missing_of
audit name version packed faces entities content =
    let refs = referenced_materials faces entities in
    record {
      map_name = name;
      bsp_version = version;
      referenced = length refs;
      packed_files = length packed;
      missing = missing_of packed content (sorted refs_lt refs);
    }
