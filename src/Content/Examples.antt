-- ===== src/Content/Examples.antt =====
-- The theorems on VPK trees and on the content index at small inputs.
use tug.Content.Libraries.{Machine, autodetect, game_of, steam_roots, listed_in}
use tug.Content.Searched.{DistinctBy, IsFound, autodetect-IsFound}
use tug.Workshop.Refresh.{first_seen, strip}
use tug.Base.Sort.{sorted}
use tug.Base.{
  ℕ, List, [], ◌∷◌, ◌++◌, some, none, if◌then◌else◌, ◌≡◌, refl, sym, ap, ◌∙◌, All, arith,
}
use mathlib.Core.Path.{subst}
use tug.Audit.{load_content_index, strip_slashes, slashes, cut_suffix}
use tug.Content.Collect.{Scanned, materials, index_text}
use tug.Content.Indexed.{IsPlain, load_content_index-index_text}
use tug.Base.Text.{
  Text, lower_char, has_char, codes, starts_with, lower, mem_text, text_eq, text_lt, is_space,
}
use tug.Content.{at_ext, read_tree, normalise}
use tug.Content.CutOff.{Extends, read_tree-append}

abbrev eighteen_bytes : List ℕ
eighteen_bytes = 1 ∷ 2 ∷ 3 ∷ 4 ∷ 0 ∷ 0 ∷ 0 ∷ 0 ∷ 0 ∷ 0 ∷ 0 ∷ 0 ∷ 9 ∷ 0 ∷ 0 ∷ 0 ∷ 255 ∷ 255 ∷ []

abbrev part : List ℕ
part = codes "vmt" ++ (0 ∷ 97 ∷ 0 ∷ 98 ∷ 0 ∷ (eighteen_bytes ++ 99 ∷ 0 ∷ 1 ∷ 2 ∷ []))

abbrev later_bytes : List ℕ
later_bytes = 3 ∷ 4 ∷ 0 ∷ 0 ∷ (eighteen_bytes ++ 0 ∷ 0 ∷ 0 ∷ [])

read_tree-append_example :
    Extends (read_tree 18 0 at_ext [] part) (read_tree 18 0 at_ext [] (part ++ later_bytes))
read_tree-append_example = read_tree-append 18 part later_bytes (omega arith)

abbrev two_files : List Scanned
two_files =
    record { rel = codes "x/Materials/Wall/Brick.VMT"; file = codes "Brick.VMT"; bytes = [] }
    ∷ record { rel = codes "floor.vmt"; file = codes "floor.vmt"; bytes = [] }
    ∷ []

two_materials : materials (two_files ∷ []) ≡ codes "floor" ∷ codes "wall/brick" ∷ []
unfolding materials sorted first_seen starts_with lower normalise strip_slashes slashes cut_suffix
    mem_text text_eq text_lt
two_materials = refl

two-IsPlain : All IsPlain (materials (two_files ∷ []))
unfolding strip is_space starts_with has_char
two-IsPlain =
    subst (All IsPlain) (sym two_materials)
      ((refl, refl, refl, refl, refl, refl), ((refl, refl, refl, refl, refl, refl), tt))

load_content_index-index_text_example :
    load_content_index (index_text (two_files ∷ [])) ≡ materials (two_files ∷ [])
load_content_index-index_text_example = load_content_index-index_text (two_files ∷ []) two-IsPlain

lower-append : (s t : Text) → lower (s ++ t) ≡ lower s ++ lower t
unfolding lower
lower-append [] t = refl
lower-append (c ∷ s) t = ap (λ u. lower_char c ∷ u) (lower-append s t)

-- A machine with Steam in /s and the game in /g.
abbrev two_drives : Machine
two_drives = record {
  is_dir = λ path.
      mem_text (lower path)
        (codes "/s" ∷ codes "/g" ∷ codes "/g/steamapps/common/insurgency2" ∷ []);
  norm_path = λ path. path;
  norm_case = lower;
  join = λ a x. a ++ (47 ∷ x);
  text_of_file = λ path.
      if text_eq path (codes "/s/config/libraryfolders.vdf")
      then some (codes "\"1\" { \"path\"\t\t\"/G\" \"apps\" \"2\" }")
      else none;
  registry = [];
  guesses = codes "/s" ∷ codes "/S" ∷ [];
  walk = λ path. [];
}

joins_lower :
    (a b x : Text)
    → two_drives.norm_case a ≡ two_drives.norm_case b
    → two_drives.norm_case (two_drives.join a x) ≡ two_drives.norm_case (two_drives.join b x)
joins_lower a b x h =
    lower-append a (47 ∷ x) ∙ ap (λ t. t ++ lower (47 ∷ x)) h ∙ sym (lower-append b (47 ∷ x))

dirs_lower :
    (a b : Text)
    → two_drives.norm_case a ≡ two_drives.norm_case b
    → two_drives.is_dir a ≡ two_drives.is_dir b
dirs_lower a b h =
    ap (λ t. mem_text t (codes "/s" ∷ codes "/g" ∷ codes "/g/steamapps/common/insurgency2" ∷ [])) h

autodetect-IsFound_example :
    IsFound two_drives (game_of two_drives (codes "/G")) (autodetect two_drives).0
    × DistinctBy two_drives.norm_case (autodetect two_drives).0
unfolding mem_text steam_roots text_eq lower listed_in is_space
autodetect-IsFound_example =
    autodetect-IsFound two_drives joins_lower dirs_lower (codes "/s")
      (codes "/s/config/libraryfolders.vdf") (codes "/G") refl refl refl refl refl
