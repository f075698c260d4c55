-- ===== src/Content/Collect.antt =====
-- scan_dir() and the index that main() of tools/bspaudit/collect_content_index.py writes. A directory is the list of its files; the set
-- of materials is a list.
use tug.Base.{ℕ, Bool, not, ◌&&◌, ◌||◌, List, [], ◌∷◌, ◌++◌, if◌then◌else◌, is_empty}
use tug.Base.Text.{Text, codes, lower, starts_with, text_lt, nl}
use tug.Base.Sort.{sorted}
use tug.Workshop.Refresh.{first_seen}
use tug.Audit.{ends_with, vmt, materials_dir}
use tug.Content.{vpk_entries, vpk_materials}

-- A file that os.walk() finds: its path from the root, its name and its bytes.
pub record Scanned : Type 0 where
  pub rel : Text
  pub file : Text
  pub bytes : List ℕ

-- sub in s
unfoldable pub has_text : Text → Text → Bool
has_text sub [] = is_empty sub
has_text sub (c ∷ s) = starts_with sub (c ∷ s) || has_text sub s

-- rel[i:] at the first place of "materials/" in rel.lower(), or rel
unfoldable pub from_materials : Text → Text → Text
from_materials rel [] = rel
from_materials rel (c ∷ s) =
    let later = from_materials rel s in
    if starts_with materials_dir (lower (c ∷ s)) then c ∷ s else later

unfoldable pub is_vpk : Text → Bool
unfolding has_text
is_vpk low =
    ends_with (codes "_dir.vpk") low
    || (ends_with (codes ".vpk") low && not (has_text (codes "_0") low))

-- What one file adds to the index.
unfoldable pub file_materials : Scanned → List Text
unfolding is_vpk from_materials vpk_materials
file_materials f =
    let low = lower f.file in
    if is_vpk low
    then vpk_materials (vpk_entries f.bytes)
    else if ends_with vmt low
    then vpk_materials (from_materials f.rel f.rel ∷ [])
    else []

unfoldable pub scan_dir : List Text → List Scanned → List Text
unfolding file_materials
scan_dir out [] = out
scan_dir out (f ∷ files) = scan_dir (out ++ file_materials f) files

unfoldable pub scan_dirs : List Text → List (List Scanned) → List Text
unfolding scan_dir
scan_dirs out [] = out
scan_dirs out (root ∷ roots) = scan_dirs (scan_dir out root) roots

-- sorted(out)
unfoldable pub materials : List (List Scanned) → List Text
unfolding scan_dirs
materials roots = sorted text_lt (first_seen [] (scan_dirs [] roots))

abbrev pub index_comment : Text
index_comment =
    codes "# material paths resolvable by this client, no 'materials/' prefix, no '.vmt'"

-- f.write(line + "\n") for each line
unfoldable pub ended_lines : List Text → Text
ended_lines [] = []
ended_lines (l ∷ lines) = l ++ (nl ∷ ended_lines lines)

-- The text of the file that is written.
unfoldable pub index_text : List (List Scanned) → Text
unfolding materials ended_lines
index_text roots = ended_lines (index_comment ∷ materials roots)
