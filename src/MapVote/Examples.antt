-- ===== src/MapVote/Examples.antt =====
-- Concrete runs of the model of fastdl/tools/mapvote_images.py.
use tug.Base.Bytes.{take, drop}
use tug.Workshop.Refresh.{first_seen}
use tug.Base.{map, ℕ, ◌+◌, true, List, [], ◌∷◌, ◌++◌, length, Option, none, some, ◌≡◌, refl, All}
use tug.Base.Text.{Text, codes, mem_text, text_eq, starts_with, is_space, lower, text_lt}
use tug.Base.Dict
use tug.Base.Dict.{Dict}
use tug.Base.Sort.{sorted}
use tug.Base.Result.{ok}
use tug.Workshop.Lock.{Item}
use tug.MapVote.{keep_some, vote_dir}
use tug.MapVote.Config.{mapcycle, read_overrides, Override, mapcycle_from}
use tug.MapVote.Index.{Index, Indexed, BaseGame, Root, refresh_index, batches, by_size}
use tug.MapVote.Survey.{Survey, survey, no_survey}
use tug.MapVote.Surveyed.{ImagesOn, TexturesOn}
use tug.MapVote.Decide.{Plan, Wanted, Why, decide, todo}
use tug.MapVote.Chosen.{IsDue, decide-wanted}
use tug.MapVote.Decides.{refresh_index-decide}
use tug.MapVote.Batches.{join, Fits, batches-Fits}
use tug.MapVote.Write.{Written, generate}
use tug.MapVote.Inputs.{first_word, last_about, mapcycle-first_seen, get-read_overrides}
use tug.MapVote.Reported.{generate-reported}
use tug.MapVote.Known.{Known}
use tug.MapVote.Run.{Inputs, save_index, main}
use tug.MapVote.Finished.{main-finished}

abbrev an_item : ℕ → Item
an_item size = record {
  title = codes "Town";
  manifest = codes "12";
  size = size;
  time_updated = 0;
  servers = codes "s" ∷ [];
}

abbrev items : Dict Item
items = (codes "7", an_item 5) ∷ []

abbrev town : Indexed
town = record {
  manifest = codes "12";
  maps = codes "town" ∷ [];
  images = [];
  textures = some ((vote_dir ++ codes "town") ∷ []);
}

abbrev base_game : BaseGame
base_game = record {
  maps = codes "old" ∷ [];
  images = (vote_dir ++ codes "old") ∷ [];
  textures = none;
}

abbrev index : Index
index = record { base = base_game; items = (codes "7", town) ∷ [] }

abbrev cycle_lines : Text → List Text
cycle_lines s = codes "Town // new" ∷ codes "old" ∷ codes "bay" ∷ []

abbrev servers : List Text
servers = codes "s" ∷ []

abbrev town_plan : Plan
town_plan = record {
  wanted_maps =
      record {
        spelling = codes "Town";
        source = Override.alias (vote_dir ++ codes "town");
        item = none;
      }
      ∷ [];
  skipped_maps = [];
  unresolved_maps = (codes "bay", Why.no_owner) ∷ [];
  kept_files = [];
}

decided_town : decide index items cycle_lines servers [] [] [] ≡ ok town_plan
unfolding decide mem_text text_eq Dict.get sorted mapcycle_from starts_with is_space lower
    Dict.update text_lt first_seen
decided_town = refl

decide-wanted_example :
    (images : List Text) × (textures : List Text) × ImagesOn index items (codes "s") images
    × TexturesOn index items (codes "s") textures
    × All
        (λ (w : Wanted).
          IsDue index items (codes "s") (codes "Town") images textures w.spelling w.source)
        town_plan.wanted_maps
unfolding mem_text text_eq mapcycle_from starts_with is_space
decide-wanted_example =
    decide-wanted index items cycle_lines servers [] [] [] town_plan (codes "s") (codes "Town")
      decided_town refl refl

abbrev no_zip : List ℕ → Option (List Text)
no_zip bytes = none

abbrev root : Root
root = record {
  acf = [];
  content =
      (codes "7", record { rel = codes "maps/town.bsp"; file = codes "town.bsp"; bytes = [] } ∷ [])
      ∷ [];
}

abbrev fresh_index : Index
fresh_index = record {
  base = base_game;
  items =
      (
        codes "7",
        record { manifest = codes "12"; maps = codes "town" ∷ []; images = []; textures = some [] },
      )
      ∷ [];
}

abbrev empty_index : Index
empty_index = record { base = base_game; items = (codes "9", town) ∷ [] }

refresh_index-decide_example :
    (p : Plan) × (decide fresh_index items cycle_lines servers [] [] [] ≡ ok p)
unfolding refresh_index Dict.get mem_text text_eq Dict.update sorted first_seen starts_with lower
    take drop
refresh_index-decide_example =
    refresh_index-decide no_zip none (root ∷ []) none 0 items empty_index fresh_index cycle_lines
      servers [] [] [] refl

abbrev json_of : Index → List ℕ
json_of _ = codes "{}\n"

abbrev town_written : Dict (List ℕ) → Written
town_written files = record {
  files = files;
  made = codes "Town.vmt -> vgui/endroundlobby/maps/town" ∷ [];
  unresolved = (codes "bay", Why.no_owner) ∷ [];
}

abbrev no_download : Text → Option (List ℕ)
no_download url = none

abbrev no_preview : Text → Option Text
no_preview i = none

generate-reported_example :
    (v : Survey) × (survey index items cycle_lines servers no_survey ≡ ok v)
    × (length (town_written []).made
          + length (town_written []).unresolved
          + length town_plan.skipped_maps
          + length town_plan.kept_files
        ≡ length (todo v.status))
unfolding generate decide mem_text text_eq Dict.get sorted mapcycle_from starts_with is_space lower
    Dict.update text_lt first_seen
generate-reported_example =
    generate-reported true no_download no_preview index items cycle_lines servers [] [] [] []
      town_plan (town_written []) refl

abbrev dry_inputs : Inputs
dry_inputs = record {
  game = none;
  roots = [];
  download = none;
  batch_bytes = 0;
  items = items;
  cycle_lines = cycle_lines;
  servers = servers;
  overrides = [];
  have = [];
  force = [];
  dry_run = true;
  previews_of = none;
}

abbrev saved_files : Dict (List ℕ)
saved_files = save_index json_of index []

main-finished_example :
    All (λ (e : Text × Item). Known index.items e.0) items
    × ((v : Survey) × (survey index items cycle_lines servers no_survey ≡ ok v)
        × (length (town_written saved_files).made
              + length (town_written saved_files).unresolved
              + length town_plan.skipped_maps
              + length town_plan.kept_files
            ≡ length (todo v.status)))
    × ((town_written saved_files).files ≡ saved_files)
unfolding main Dict.get mem_text text_eq sorted first_seen mapcycle_from starts_with is_space lower
    Dict.update text_lt
main-finished_example =
    main-finished no_zip no_download (λ i. none) (λ ids. none) json_of dry_inputs [] index index
      town_plan (town_written saved_files) refl

abbrev three_items : Dict Item
three_items = (codes "1", an_item 9) ∷ (codes "2", an_item 4) ∷ (codes "3", an_item 5) ∷ []

batches-Fits_example :
    (join (batches 9 three_items) ≡ sorted by_size three_items)
    × All (Fits 9) (batches 9 three_items)
batches-Fits_example = batches-Fits 9 three_items

mapcycle-first_seen_example :
    map lower (mapcycle (cycle_lines (codes "s")))
    ≡ first_seen [] (map lower (keep_some first_word (cycle_lines (codes "s"))))
mapcycle-first_seen_example = mapcycle-first_seen (cycle_lines (codes "s"))

abbrev override_file : List Text
override_file =
    codes "// map what"
    ∷ codes "bay skip"
    ∷ []
    ∷ codes "Bay url https://x/1 // new"
    ∷ codes "old item 7"
    ∷ []

abbrev overrides_read : Dict Override
overrides_read =
    (codes "bay", Override.url (codes "https://x/1"))
    ∷ (codes "old", Override.item (codes "7"))
    ∷ []

get-read_overrides_example :
    Dict.get (codes "bay") overrides_read ≡ last_about (codes "bay") override_file
unfolding read_overrides starts_with is_space text_eq Dict.update lower
get-read_overrides_example = get-read_overrides (codes "bay") override_file overrides_read refl
