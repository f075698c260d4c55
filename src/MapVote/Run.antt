-- ===== src/MapVote/Run.antt =====
-- previews() and main() of fastdl/tools/mapvote_images.py from its inputs to its outcome. The pages and the API of
-- Steam are parameters, none where a request raises.
use tug.Base.{
  ℕ, Bool, not, ◌&&◌, ◌||◌, List, [], ◌∷◌, ◌++◌, if◌then◌else◌, Option, none, some, leb, is_empty,
}
use tug.Base.Text.{Text, codes, text_lt, starts_with}
use tug.Base.Sort.{sorted}
use tug.Base.Dict
use tug.Base.Dict.{Dict}
use tug.Base.Split.{drop_prefix}
use tug.Base.Result.{ok, raised, too_deep}
use tug.Workshop.Lock.{Item}
use tug.Workshop.Refresh.{first_seen}
use tug.Audit.Entities.{findall}
use tug.MapVote.{is_digit}
use tug.MapVote.Config.{Override}
use tug.MapVote.Index.{Index, IndexError, Root, Game, refresh_index}
use tug.MapVote.Survey.{KeyError, subscriptions}
use tug.MapVote.Decide.{Wanted, Plan, owner, decide}
use tug.MapVote.Write.{Written, write_file, generate}

-- The longest start of a text whose characters pass a test, and the rest.
unfoldable pub span : (ℕ → Bool) → Text → Text × Text
span p [] = ([], [])
span p (c ∷ s) = let (inside, rest) = span p s in if p c then (c ∷ inside, rest) else ([], c ∷ s)

abbrev is_hex : ℕ → Bool
is_hex c = is_digit c || (leb 65 c && leb c 70)

-- One or more characters that pass a test, and a slash: with the slash, and the rest.
unfoldable pub path_part : (ℕ → Bool) → Text → Option (Text × Text)
unfolding span
path_part p s =
    let (part, rest) = span p s in
    if not (is_empty part) && starts_with (47 ∷ []) rest
    then some (part ++ 47 ∷ [], drop_prefix (47 ∷ []) rest)
    else none

abbrev image_host : Text
image_host = codes "https://images.steamusercontent.com/ugc/"

-- https://images\.steamusercontent\.com/ugc/\d+/[0-9A-F]+/
unfoldable pub image_url : Text → Option (Text × Text)
unfolding path_part
image_url s =
    if starts_with image_host s
    then elim (path_part is_digit (drop_prefix image_host s)) [
      | none ↦ none
      | some (number, rest) ↦ elim (path_part is_hex rest) [
        | none ↦ none
        | some (name, after) ↦ some (image_host ++ (number ++ name), after)
      ]
    ]
    else none

-- previews(), of the page of an item
unfoldable pub previews : Text → List Text
unfolding findall image_url
previews html = first_seen [] (findall image_url 0 html)

-- What --previews prints: each item with its title and its images.
unfoldable pub shown_for :
    Dict Item → (Text → Option Text) → List Text → Option (List (Text × (Text × List Text)))
unfolding previews
shown_for items page [] = some []
shown_for items page (i ∷ ids) =
    let rest = shown_for items page ids in
    elim (page i) [
      | none ↦ none
      | some html ↦ elim rest [
        | none ↦ none
        | some more ↦ some (
            (i, (elim (Dict.get i items) [ none ↦ [] | some item ↦ item.title ], previews html))
            ∷ more)
      ]
    ]

-- sorted({i for ids in per_server.values() for i in ids})
unfoldable pub subscribed_by : Dict Item → List Text → List Text
unfolding subscriptions
subscribed_by items [] = []
subscribed_by items (s ∷ servers) = subscriptions items s ++ subscribed_by items servers

-- need
unfoldable pub needed : List Wanted → List Text
needed [] = []
needed (w ∷ ws) = let rest = needed ws in elim w.source [ Override.item i ↦ i ∷ rest | _ ↦ rest ]

-- info.get(what, {}).get("preview_url")
abbrev pub preview_of : Dict (Option Text) → Text → Option Text
preview_of info what = elim (Dict.get what info) [ none ↦ none | some url ↦ url ]

pub data Ended : Type 0 where
  fails_indexing : IndexError → Ended
  fails_request : Ended
  fails_key : KeyError → Ended
  showed : List (Text × (Text × List Text)) → Ended
  unindexed : Dict Item → Ended
  finished : Plan → Written → Ended

-- What main() reads; `download` is none without --fetch, and `previews_of` without --previews.
pub record Inputs : Type 0 where
  pub game : Option Game
  pub roots : List Root
  pub download : Option (Dict Item → Root)
  pub batch_bytes : ℕ
  pub items : Dict Item
  pub cycle_lines : Text → List Text
  pub servers : List Text
  pub overrides : Dict Override
  pub have : Dict Text
  pub force : List Text
  pub dry_run : Bool
  pub previews_of : Option Text

-- save_index(), into the output directory
unfoldable pub save_index : (Index → List ℕ) → Index → Dict (List ℕ) → Dict (List ℕ)
unfolding write_file
save_index index_text index files = write_file (codes "index.json") (index_text index) files

module _ (names_in_zip : List ℕ → Option (List Text)) (http : Text → Option (List ℕ))
    (page : Text → Option Text) (details : List Text → Option (Dict (Option Text))) where
  -- main() from the plan on: the details of the items that are needed, and what is made of it.
  unfoldable pub make_plan : Inputs → Index → Dict (List ℕ) → Plan → Ended
  unfolding needed generate
  make_plan inputs index files plan =
      let need = sorted text_lt (first_seen [] (needed plan.wanted_maps)) in
      elim (if is_empty need then some [] else details need) [
        | none ↦ fails_request
        | some info ↦
            elim (generate inputs.dry_run http (preview_of info) index inputs.items
              inputs.cycle_lines inputs.servers inputs.overrides inputs.have inputs.force files) [
                | ok (plan', written) ↦ finished plan' written
                | raised e ↦ fails_key e
                | too_deep ↦ fails_request
              ]
      ]

  unfoldable pub generate_from : Inputs → Index → Dict (List ℕ) → Ended
  unfolding decide make_plan
  generate_from inputs index files =
      elim (decide index inputs.items inputs.cycle_lines inputs.servers inputs.overrides inputs.have
        inputs.force) [
          | ok plan ↦ make_plan inputs index files plan
          | raised e ↦ fails_key e
          | too_deep ↦ fails_request
        ]

  -- --previews
  unfoldable pub show_previews : Inputs → Index → Text → Ended
  unfolding shown_for subscribed_by owner
  show_previews inputs index name =
      let subscribed = sorted text_lt (first_seen [] (subscribed_by inputs.items inputs.servers)) in
      elim (shown_for inputs.items page (owner name index subscribed)) [
        | none ↦ fails_request
        | some items ↦ showed items
      ]

  -- main() with the refreshed index
  unfoldable pub conclude : Inputs → Dict (List ℕ) → Index → Dict Item → Ended
  unfolding generate_from show_previews
  conclude inputs files index missing = elim inputs.previews_of [
    | some name ↦ show_previews inputs index name
    | none ↦ if is_empty missing then generate_from inputs index files else unindexed missing
  ]

  -- main(), which saves the index in the output directory where refreshing it succeeds, whatever the
  -- other flags: that index, and the outcome. `index_text` is what json.dump() writes of it.
  unfoldable pub main : (Index → List ℕ) → Inputs → Index → Dict (List ℕ) → Option Index × Ended
  unfolding refresh_index conclude save_index
  main index_text inputs index files =
      elim (refresh_index names_in_zip inputs.game inputs.roots inputs.download inputs.batch_bytes
        inputs.items index) [
          | raised e ↦ (none, fails_indexing e)
          | too_deep ↦ (none, fails_request)
          | ok (index', missing) ↦
              (some index', conclude inputs (save_index index_text index' files) index' missing)
        ]
