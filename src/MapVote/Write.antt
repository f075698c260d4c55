-- ===== src/MapVote/Write.antt =====
-- The end of main() in fastdl/tools/mapvote_images.py, which makes what was decided: write_image(), the side
-- files and the aliases. The output directory is a dict from file names to contents; a download is a
-- parameter, none where it fails, and so are the preview URLs that Steam answers.
use tug.Base.{
  ℕ, Bool, not, List, [], ◌∷◌, ◌++◌, if◌then◌else◌, Option, none, some, keep_if, is_empty,
}
use tug.Base.Text.{Text, codes, lower, text_eq, starts_with}
use tug.Base.Dict
use tug.Base.Dict.{Dict}
use tug.Base.Result.{Result, ok, raised, ◌>>=◌}
use tug.Workshop.Lock.{Item}
use tug.MapVote.Config.{Override}
use tug.MapVote.Index.{Index}
use tug.MapVote.Survey.{KeyError}
use tug.MapVote.Decide.{Why, Wanted, Plan, decide}

-- value or "-"
abbrev or_dash : Option Text → Text
or_dash none = codes "-"
or_dash (some t) = if is_empty t then codes "-" else t

unfoldable pub sidecar : Text → Option Text → Option Text → Text → Text
sidecar map_name item title url =
    codes "// Vote image for "
    ++ map_name
    ++ codes ". Workshop item "
    ++ or_dash item
    ++ codes " ("
    ++ or_dash title
    ++ codes "), preview:\n// "
    ++ url
    ++ codes
        "\n// Generated by fastdl/tools/mapvote_images.py. Move the crop with focusx/focusy (0-1).\n"
    ++ codes "\"format\"  \"DXT1\"\n\"nomip\"   \"1\"\n\"nolod\"   \"1\"\n\"fit\"     \"512x256\"\n"
    ++ codes "\"focusx\"  \"0.5\"\n\"focusy\"  \"0.5\"\n"

unfoldable pub alias_vmt : Text → Text → Text
alias_vmt map_name texture =
    codes "// Vote image for "
    ++ map_name
    ++ codes ": reuses "
    ++ texture
    ++ codes ", which clients already have.\n// Generated by fastdl/tools/mapvote_images.py.\n"
    ++ codes "\"UnlitGeneric\"\n{\n\t\"$basetexture\"\t\""
    ++ texture
    ++ codes "\"\n\t\"$vertexcolor\"\t1\n\t\"$vertexalpha\"\t1\n\t\"$ignorez\"\t\t1\n"
    ++ codes "\t\"$no_fullbright\"\t1\n\t\"$nolod\"\t\t\t1\n}\n"

-- The extension that the first bytes of a picture give it.
unfoldable pub image_ext : List ℕ → Option Text
image_ext picture =
    if starts_with (255 ∷ 216 ∷ 255 ∷ []) picture
    then some (codes ".jpg")
    else if starts_with (137 ∷ 80 ∷ 78 ∷ 71 ∷ 13 ∷ 10 ∷ 26 ∷ 10 ∷ []) picture
    then some (codes ".png")
    else none

unfoldable pub write_file : Text → List ℕ → Dict (List ℕ) → Dict (List ℕ)
write_file f content files = Dict.update f (λ _. content) files

-- The name of the image and the files, none where the download fails or is no picture.
unfoldable pub write_image :
    (Text → Option (List ℕ))
    → Text
    → Text
    → Option Text
    → Option Text
    → Dict (List ℕ)
    → Option (Text × Dict (List ℕ))
unfolding image_ext write_file sidecar
write_image http map_name url item title files = elim (http url) [
  | none ↦ none
  | some picture ↦ elim (image_ext picture) [
    | none ↦ none
    | some ext ↦
        let f = map_name ++ ext in
        some (
          f,
          write_file (f ++ codes ".txt") (sidecar map_name item title url)
              (write_file f picture files),
        )
  ]
]

unfoldable pub remove_file : Text → Dict (List ℕ) → Dict (List ℕ)
remove_file f files = keep_if (λ (e : Text × List ℕ). not (text_eq e.0 f)) files

unfoldable pub remove_output : Text → Dict (List ℕ) → Dict (List ℕ)
unfolding remove_file
remove_output existing files = remove_file (existing ++ codes ".txt") (remove_file existing files)

pub record Written : Type 0 where
  pub files : Dict (List ℕ)
  pub made : List Text
  pub unresolved : List (Text × Why)

abbrev pub to_made : Dict (List ℕ) → Text → Written → Written
to_made files message w = record {
  files = files;
  made = w.made ++ message ∷ [];
  unresolved = w.unresolved;
}

abbrev pub to_unresolved : Dict (List ℕ) → Text → Why → Written → Written
to_unresolved files m why w = record {
  files = files;
  made = w.made;
  unresolved = w.unresolved ++ (m, why) ∷ [];
}

abbrev pub url_of : (Text → Option Text) → Override → Option Text
url_of info (Override.url u) = some u
url_of info (Override.item i) = info i
url_of info (Override.alias t) = info t
url_of info Override.skip = none

abbrev pub what_of : Override → Text
what_of (Override.url u) = u
what_of (Override.item i) = i
what_of (Override.alias t) = t
what_of Override.skip = []

-- lock["items"][item]["title"] if item else None
unfoldable pub title_of : Dict Item → Option Text → Result KeyError (Option Text)
title_of items none = ok none
title_of items (some i) = elim (Dict.get i items) [
  | none ↦ raised (KeyError.missing_key i)
  | some item ↦ ok (some item.title)
]

abbrev pub cleared : Bool → Option Text → Dict (List ℕ) → Dict (List ℕ)
cleared dry_run none files = files
cleared dry_run (some f) files = if dry_run then files else remove_output f files

module _ (dry_run : Bool) (http : Text → Option (List ℕ)) (info : Text → Option Text) where
  -- The loop body for a map that is no alias.
  unfoldable pub make_image :
      Text → Text → Option Text → Option Text → Option Text → Dict (List ℕ) → Written → Written
  unfolding write_image
  make_image m what item title none files w = to_unresolved files m (Why.no_preview what) w
  make_image m what item title (some url) files w =
      if is_empty url
      then to_unresolved files m (Why.no_preview what) w
      else if dry_run
      then to_made files (m ++ codes " <- " ++ url) w
      else elim (write_image http m url item title files) [
        | none ↦ to_unresolved files m Why.download_failed w
        | some (f, files') ↦ to_made files' (f ++ codes " <- item " ++ or_dash item) w
      ]

  unfoldable pub make : Dict Text → Wanted → Option Text → Written → Written
  unfolding make_image remove_output alias_vmt write_file
  make have wanted title w =
      let m = wanted.spelling in
      let files = cleared dry_run (Dict.get (lower m) have) w.files in
      elim wanted.source [
        | Override.alias t ↦
            to_made
              (if dry_run then files else write_file (m ++ codes ".vmt") (alias_vmt m t) files)
              (m ++ codes ".vmt -> " ++ t) w
        | source ↦ make_image m (what_of source) wanted.item title (url_of info source) files w
      ]

  unfoldable pub make_all : Dict Item → Dict Text → List Wanted → Written → Result KeyError Written
  unfolding make title_of
  make_all items have [] w = ok w
  make_all items have (wanted ∷ more) w = do
    title ← title_of items wanted.item
    make_all items have more (make have wanted title w)

  -- main() after the index is complete: the plan and what was made of it.
  unfoldable pub generate :
      Index
      → Dict Item
      → (Text → List Text)
      → List Text
      → Dict Override
      → Dict Text
      → List Text
      → Dict (List ℕ)
      → Result KeyError (Plan × Written)
  unfolding make_all
  generate index items cycle_lines servers overrides have force files = do
    plan ← decide index items cycle_lines servers overrides have force
    written ←
        make_all items have plan.wanted_maps
          (record { files = files; made = []; unresolved = plan.unresolved_maps })
    ok (plan, written)
