-- ===== src/MapVote/Config.antt =====
-- The text files of fastdl/tools/mapvote_images.py: the map cycles, the overrides, and the names of the
-- outputs.
use tug.Base.{
  ℕ, ◌+◌, Bool, true, ◌&&◌, List, [], ◌∷◌, ◌++◌, if◌then◌else◌, Option, none, some, ◌==◌, is_empty,
}
use tug.Base.Text.{Text, codes, lower, is_space, text_eq, starts_with, mem_text, rsplit}
use tug.Base.Dict
use tug.Base.Dict.{Dict}
use tug.Base.Result.{Result, ok, raised}
use tug.Workshop.Refresh.{cut_comment}

-- s.split(), with the word that is being read
unfoldable pub words : Text → Text → List Text
words word [] = if is_empty word then [] else word ∷ []
words word (c ∷ s) =
    let next = words [] s in
    let on = words (word ++ c ∷ []) s in
    if is_space c then if is_empty word then next else word ∷ next else on

-- mapcycle(), of the lines of the file
unfoldable pub mapcycle_from : List Text → List Text → List Text
unfolding words cut_comment
mapcycle_from seen [] = []
mapcycle_from seen (line ∷ lines) =
    let skip = mapcycle_from seen lines in
    elim (words [] (cut_comment line)) [
      | [] ↦ skip
      | tok ∷ _ ↦
          let rest = mapcycle_from (lower tok ∷ seen) lines in
          if mem_text (lower tok) seen then skip else tok ∷ rest
    ]

abbrev pub mapcycle : List Text → List Text
mapcycle lines = mapcycle_from [] lines

-- re.sub(r"(^|\s)//.*", "", line), but for the space before the comment, which split() drops: `free`
-- says that a comment may start here
unfoldable pub cut_free_comment : Bool → Text → Text
cut_free_comment free [] = []
cut_free_comment free (c ∷ s) =
    let rest = cut_free_comment (is_space c) s in
    if free && starts_with (47 ∷ 47 ∷ []) (c ∷ s) then [] else c ∷ rest

-- tok[1:] of a line that is parsed
pub data Override : Type 0 where
  skip : Override
  item url alias : Text → Override

abbrev keyword : Text → Text → Option Override
keyword word what =
    if text_eq word (codes "item")
    then some (item what)
    else if text_eq word (codes "url")
    then some (url what)
    else if text_eq word (codes "alias")
    then some (alias what)
    else none

unfoldable pub parse_override : List Text → Option (Text × Override)
parse_override (m ∷ word ∷ []) = if text_eq word (codes "skip") then some (lower m, skip) else none
parse_override (m ∷ word ∷ what ∷ []) = elim (keyword word what) [
  | none ↦ none
  | some o ↦ some (lower m, o)
]
parse_override _ = none

-- The number of the line that cannot be parsed is the error.
unfoldable pub override_lines : ℕ → Dict Override → List Text → Result ℕ (Dict Override)
unfolding parse_override cut_free_comment words
override_lines n out [] = ok out
override_lines n out (line ∷ lines) =
    let tok = words [] (cut_free_comment true line) in
    let skipped = override_lines (n + 1) out lines in
    elim (parse_override tok) [
      | some (m, o) ↦ override_lines (n + 1) (Dict.update m (λ _. o) out) lines
      | none ↦ if is_empty tok then skipped else raised n
    ]

unfoldable pub read_overrides : List Text → Result ℕ (Dict Override)
unfolding override_lines
read_overrides lines = override_lines 1 [] lines

abbrev all_dots : Text → Bool
all_dots [] = true
all_dots (c ∷ s) = c == 46 && all_dots s

-- os.path.splitext of a file name
unfoldable pub split_ext : Text → Text × Text
split_ext f = elim (rsplit 46 f) [
  | none ↦ (f, [])
  | some (stem, ext) ↦ if all_dots stem then (f, []) else (stem, 46 ∷ ext)
]

unfoldable pub outputs : Dict Text → List Text → Dict Text
unfolding split_ext
outputs out [] = out
outputs out (f ∷ files) =
    let (stem, ext) = split_ext f in
    outputs
      (if mem_text (lower ext) (codes ".jpg" ∷ codes ".png" ∷ codes ".vmt" ∷ [])
        then Dict.update (lower stem) (λ _. f) out
        else out)
      files
