-- ===== src/MapVote.antt =====
-- The content that fastdl/tools/mapvote_images.py reads: which files are images, what a content directory
-- holds, and the .acf of a workshop directory. A file is a list of
-- lines, or of bytes where it is scanned; text is lower-cased as latin-1.
pub mod Config
pub mod Index
pub mod Survey
pub mod Decide
pub mod Surveyed
pub mod Outcomes
pub mod Chosen
pub mod Write
pub mod Reported
pub mod Batches
pub mod Inputs
pub mod Examples
pub mod Known
pub mod Fetched
pub mod Complete
pub mod Decides
pub mod Run
pub mod Finished
use tug.Base.{
  ℕ, zero, suc, ◌+◌, Bool, true, false, not, ◌&&◌, ◌||◌, List, [], ◌∷◌, ◌++◌, map, if◌then◌else◌,
  Option, none, some, ltb, leb, ◌==◌, is_empty, keep_if,
}
use mathlib.Core.List.{reverse}
use tug.Base.Text.{Text, codes, lower, is_space, text_eq, text_lt, starts_with, mem_text, rsplit}
use tug.Base.Sort.{sorted}
use tug.Base.Bytes.{slice}
use tug.Base.Dict
use tug.Base.Dict.{Dict}
use tug.Base.Result.{Result, ok, raised, too_deep, ◌>>=◌}
use tug.Workshop.Refresh.{strip, cut_comment, first_seen}
use tug.Loadouts.{digits, after}
use tug.Audit.{slashes, without_prefix, ends_with, cut_suffix, materials_dir, vmt}
use tug.Content.Lumps.{BspError, short_header, open_bsp, vpk_names, packed}

abbrev pub vote_dir : Text
vote_dir = codes "vgui/endroundlobby/maps/"

abbrev pub loading_dir : Text
loading_dir = codes "vgui/maps/"

abbrev pub vtf : Text
vtf = codes ".vtf"

unfoldable pub image_of : Text → Text → Option Text
unfolding slashes without_prefix cut_suffix
image_of ext path =
    let p = slashes (lower path) in
    let cut = cut_suffix ext (without_prefix materials_dir p) in
    if not (starts_with materials_dir p && ends_with ext p)
    then none
    else if starts_with vote_dir cut || starts_with loading_dir cut
    then some cut
    else none

abbrev pub is_digit : ℕ → Bool
is_digit c = leb 48 c && leb c 57

-- re.search(r"_\d{3}\.vpk$", low), on the reversed name without its extension
unfoldable pub ends_in_number : Text → Bool
ends_in_number (a ∷ b ∷ c ∷ d ∷ s) = is_digit a && (is_digit b && (is_digit c && d == 95))
ends_in_number _ = false

unfoldable pub is_archive : Text → Bool
unfolding ends_in_number
is_archive low = ends_in_number (without_prefix (reverse (codes ".vpk")) (reverse low))

-- A file of a content directory: its path there, its name, and its bytes.
pub record ContentFile : Type 0 where
  pub rel : Text
  pub file : Text
  pub bytes : List ℕ

-- The names in a VPK, none where it is unreadable.
unfoldable pub names_in_vpk : List ℕ → List Text
names_in_vpk bytes = elim (vpk_names bytes) [ ok names ↦ names | raised _ ↦ [] | too_deep ↦ [] ]

-- except (OSError, ValueError): the struct.error of a header that is cut off goes on
abbrev if_caught : BspError → Result BspError (List Text)
if_caught short_header = raised short_header
if_caught _ = ok []

-- Bsp(full).packed(), none where the file is no VBSP file
unfoldable pub names_in_bsp : (List ℕ → Option (List Text)) → List ℕ → Result BspError (List Text)
unfolding open_bsp
names_in_bsp names_in_zip bytes = elim (open_bsp bytes) [
  | ok version ↦ ok (packed names_in_zip bytes)
  | raised e ↦ if_caught e
  | too_deep ↦ too_deep
]

unfoldable pub names_of : (List ℕ → Option (List Text)) → ContentFile → Result BspError (List Text)
unfolding names_in_vpk names_in_bsp is_archive
names_of names_in_zip f =
    let low = lower f.file in
    let in_vpk =
      (if ends_with (codes ".vpk") low && not (is_archive low) then names_in_vpk f.bytes else []) in
    (if ends_with (codes ".bsp") low then names_in_bsp names_in_zip f.bytes else ok [])
    >>= λ in_bsp. ok (lower f.rel ∷ (in_vpk ++ in_bsp))

-- The names of all files, in the order of the walk.
unfoldable pub names_of_all :
    (List ℕ → Option (List Text)) → List ContentFile → Result BspError (List Text)
unfolding names_of
names_of_all names_in_zip [] = ok []
names_of_all names_in_zip (f ∷ files) = names_of names_in_zip f >>= λ names.
    names_of_all names_in_zip files >>= λ rest. ok (names ++ rest)

unfoldable pub keep_some {ℓ} : {A B : Type ℓ} → (A → Option B) → List A → List B
keep_some f [] = []
keep_some f (x ∷ xs) = let rest = keep_some f xs in elim (f x) [ none ↦ rest | some y ↦ y ∷ rest ]

abbrev pub sorted_set : List Text → List Text
sorted_set xs = sorted text_lt (first_seen [] xs)

unfoldable pub concat_map {ℓ} : {A B : Type ℓ} → (A → List B) → List A → List B
concat_map f [] = []
concat_map f (x ∷ xs) = f x ++ concat_map f xs

abbrev map_of : ContentFile → Option Text
map_of f =
    let low = lower f.file in
    if ends_with (codes ".bsp") low then some (cut_suffix (codes ".bsp") low) else none

-- What scan() finds, where it does not raise.
pub record Scan : Type 0 where
  pub maps : List Text
  pub images : List Text
  pub textures : List Text

unfoldable pub scan : (List ℕ → Option (List Text)) → List ContentFile → Result BspError Scan
unfolding names_of_all keep_some
scan names_in_zip files = names_of_all names_in_zip files >>= λ names. ok (record {
  maps = sorted_set (keep_some map_of files);
  images = sorted_set (keep_some (image_of vmt) names);
  textures = sorted_set (keep_some (image_of vtf) names);
})

-- s.strip('"')
unfoldable pub drop_quotes : Text → Text
drop_quotes [] = []
drop_quotes (c ∷ s) = if c == 34 then drop_quotes s else c ∷ s

abbrev strip_quotes : Text → Text
strip_quotes s = reverse (drop_quotes (reverse (drop_quotes s)))

abbrev is_letter : ℕ → Bool
is_letter c = (leb 65 c && leb c 90) || (leb 97 c && leb c 122)

-- re.match(r'^\t"[A-Za-z]', line)
unfoldable pub is_section : Text → Bool
is_section (a ∷ b ∷ c ∷ s) = a == 9 && (b == 34 && is_letter c)
is_section _ = false

-- "(\d+)" and what follows it
unfoldable pub quoted_number : Text → Option (Text × Text)
unfolding digits after
quoted_number s = elim (after (34 ∷ []) s) [
  | none ↦ none
  | some s1 ↦ elim (digits [] s1) [
    | none ↦ none
    | some (number, s2) ↦ elim (after (34 ∷ []) s2) [
      | none ↦ none
      | some rest ↦ some (number, rest)
    ]
  ]
]

-- re.match(r'^\t\t"(\d+)"\s*$', line)
unfoldable pub item_line : Text → Option Text
unfolding quoted_number
item_line line = elim (after (9 ∷ 9 ∷ []) line) [
  | none ↦ none
  | some s ↦ elim (quoted_number s) [
    | none ↦ none
    | some (item, rest) ↦ if is_empty (strip rest) then some item else none
  ]
]

unfoldable pub drop_spaces : Text → Text
drop_spaces [] = []
drop_spaces (c ∷ s) = if is_space c then drop_spaces s else c ∷ s

abbrev starts_with_space : Text → Bool
starts_with_space [] = false
starts_with_space (c ∷ s) = is_space c

-- "manifest"\s+"(\d+)" at the start of a text
unfoldable pub manifest_here : Text → Option Text
unfolding drop_spaces quoted_number
manifest_here s = elim (after (codes "\"manifest\"") s) [
  | none ↦ none
  | some rest ↦
      if starts_with_space rest
      then elim (quoted_number (drop_spaces rest)) [ none ↦ none | some (number, _) ↦ some number ]
      else none
]

-- re.search(r'"manifest"\s+"(\d+)"', line)
unfoldable pub manifest_in : Text → Option Text
unfolding manifest_here
manifest_in [] = none
manifest_in (c ∷ s) =
    let later = manifest_in s in
    elim (manifest_here (c ∷ s)) [ some number ↦ some number | none ↦ later ]

pub record AcfState : Type 0 where
  pub section : Text
  pub item : Option Text
  pub manifests : Dict Text

abbrev or_item : Option Text → Option Text → Option Text
or_item (some new) old = some new
or_item none old = old

abbrev record_manifest : Option Text → Option Text → Dict Text → Dict Text
record_manifest (some item) (some number) out = Dict.update item (λ _. number) out
record_manifest (some item) none out = out
record_manifest none number out = out

-- The loop body for one line.
unfoldable pub acf_line : AcfState → Text → AcfState
unfolding is_section item_line manifest_in
acf_line st line =
    let section' = if is_section line then strip_quotes (strip line) else st.section in
    let item' = or_item (item_line line) st.item in
    if not (text_eq section' (codes "WorkshopItemsInstalled"))
    then record { section = section'; item = st.item; manifests = st.manifests }
    else record {
      section = section';
      item = item';
      manifests = record_manifest item' (manifest_in line) st.manifests;
    }

unfoldable pub acf_lines : AcfState → List Text → AcfState
acf_lines st [] = st
acf_lines st (line ∷ lines) = acf_lines (acf_line st line) lines

unfoldable pub acf_manifests : List Text → Dict Text
unfolding acf_lines
acf_manifests lines =
    (acf_lines (record { section = []; item = none; manifests = [] }) lines).manifests
