-- ===== src/MapVote/Decide.antt =====
-- What main() of fastdl/tools/mapvote_images.py decides: which maps have no image on any server, and what
-- each of them gets. The lists that are only printed (mixed, superseded, orphaned) are kept, the
-- printing is not.
use tug.Base.{
  Bool, true, false, not, ◌&&◌, List, [], ◌∷◌, ◌++◌, map, if◌then◌else◌, Option, none, some,
  keep_if, any,
}
use tug.Base.Text.{Text, lower, text_lt, mem_text}
use tug.Base.Sort.{sorted}
use tug.Base.Dict
use tug.Base.Dict.{Dict, keys, values}
use tug.Base.Result.{Result, ok, ◌>>=◌}
use tug.Workshop.Lock.{Item}
use tug.MapVote.{vote_dir, sorted_set, concat_map, keep_some}
use tug.MapVote.Config.{Override}
use tug.MapVote.Index.{Index}
use tug.MapVote.Survey.{KeyError, Survey, survey, no_survey, subscriptions}

abbrev pub is_true : Bool → Bool
is_true b = b

abbrev pub all_true : List Bool → Bool
all_true bs = not (any not bs)

abbrev pub Row : Type 0
Row = Text × (Text × Dict Bool)

abbrev pub by_map : Row → Row → Bool
by_map a b = text_lt a.0 b.0

-- The maps that no server covers, and those that only some do.
unfoldable pub todo : Dict (Text × Dict Bool) → List Text
todo status =
    map (λ (e : Row). e.1.0)
      (keep_if (λ (e : Row). not (all_true (values e.1.1)) && not (any is_true (values e.1.1)))
        (sorted by_map status))

unfoldable pub mixed : Dict (Text × Dict Bool) → List (Text × Dict Bool)
mixed status =
    map (λ (e : Row). e.1)
      (keep_if (λ (e : Row). not (all_true (values e.1.1)) && any is_true (values e.1.1))
        (sorted by_map status))

abbrev if_covered : Dict (Text × Dict Bool) → Text × Text → Option Text
if_covered status (low, f) = elim (Dict.get low status) [
  | none ↦ none
  | some (spelling, cov) ↦ if all_true (values cov) then some f else none
]

abbrev if_unlisted : Dict (Text × Dict Bool) → Text × Text → Option Text
if_unlisted status (low, f) = elim (Dict.get low status) [ none ↦ some f | some _ ↦ none ]

unfoldable pub superseded : Dict (Text × Dict Bool) → Dict Text → List Text
unfolding keep_some
superseded status have = sorted text_lt (keep_some (if_covered status) have)

unfoldable pub orphaned : Dict (Text × Dict Bool) → Dict Text → List Text
unfolding keep_some
orphaned status have = sorted text_lt (keep_some (if_unlisted status) have)

-- owner()
unfoldable pub owner : Text → Index → List Text → List Text
owner name index subscribed =
    keep_if
      (λ i. elim (Dict.get i index.items) [
        | none ↦ false
        | some entry ↦ mem_text (lower name) entry.maps
      ])
      subscribed

-- Why a map stays without an image.
pub data Why : Type 0 where
  alias_lacking : Text → List Text → Why
  stock_without_image : Why
  no_owner : Why
  no_preview : Text → Why
  download_failed : Why

-- What is to be generated for a map: the kind with what it names, never `skip`, and the item.
pub record Wanted : Type 0 where
  pub spelling : Text
  pub source : Override
  pub item : Option Text

pub data Outcome : Type 0 where
  kept : Text → Outcome
  skipped : Outcome
  unresolved : Why → Outcome
  wanted : Override → Option Text → Outcome

abbrev first : List Text → Option Text
first [] = none
first (i ∷ ids) = some i

abbrev pub servers_of : Dict (Text × Dict Bool) → Text → List Text
servers_of status low = elim (Dict.get low status) [ none ↦ [] | some (spelling, cov) ↦ keys cov ]

abbrev pub all_orphan : Dict (Dict Bool) → Text → Bool
all_orphan orphan low = elim (Dict.get low orphan) [
  | none ↦ true
  | some cov ↦ all_true (values cov)
]

-- The servers without a texture.
unfoldable pub lacking : Dict (List Text) → Text → List Text → List Text
lacking textures t servers =
    keep_if (λ s. elim (Dict.get s textures) [ none ↦ true | some ts ↦ not (mem_text t ts) ])
      servers

abbrev pub from_owner : Bool → List Text → Outcome
from_owner is_stock [] = unresolved (if is_stock then stock_without_image else no_owner)
from_owner is_stock (i ∷ ids) = wanted (Override.item i) (some i)

abbrev pub alias_if : List Text → Text → Outcome
alias_if [] t = wanted (Override.alias t) none
alias_if (s ∷ lacking) t = unresolved (alias_lacking t (s ∷ lacking))

-- The branch for an override of a map; `hits` are the items that hold the map.
unfoldable pub by_override :
    Survey → Index → List Text → Text → List Text → Option Override → Outcome
unfolding lacking
by_override v index hits low servers none =
    if all_orphan v.orphan low
    then wanted (Override.alias (vote_dir ++ low)) none
    else from_owner (mem_text low index.base.maps) hits
by_override v index hits low servers (some Override.skip) = skipped
by_override v index hits low servers (some (Override.alias t)) =
    alias_if (lacking v.textures (lower t) servers) t
by_override v index hits low servers (some (Override.url u)) = wanted (Override.url u) (first hits)
by_override v index hits low servers (some (Override.item i)) = wanted (Override.item i) (some i)

-- The loop body for one map of todo.
unfoldable pub outcome :
    Survey → Index → Dict Item → Dict Override → Dict Text → List Text → Text → Outcome
unfolding by_override owner subscriptions concat_map
outcome v index items overrides have force m =
    let low = lower m in
    let servers = servers_of v.status low in
    let subscribed = sorted_set (concat_map (subscriptions items) servers) in
    let fresh =
      by_override v index (owner m index subscribed) low servers (Dict.get low overrides) in
    elim (Dict.get low have) [
      | none ↦ fresh
      | some f ↦ if mem_text low force then fresh else kept f
    ]

pub record Plan : Type 0 where
  pub wanted_maps : List Wanted
  pub skipped_maps : List Text
  pub unresolved_maps : List (Text × Why)
  pub kept_files : List Text

unfoldable pub add_outcome : Text → Outcome → Plan → Plan
add_outcome m (kept f) p = record {
  wanted_maps = p.wanted_maps;
  skipped_maps = p.skipped_maps;
  unresolved_maps = p.unresolved_maps;
  kept_files = p.kept_files ++ f ∷ [];
}
add_outcome m skipped p = record {
  wanted_maps = p.wanted_maps;
  skipped_maps = p.skipped_maps ++ m ∷ [];
  unresolved_maps = p.unresolved_maps;
  kept_files = p.kept_files;
}
add_outcome m (unresolved why) p = record {
  wanted_maps = p.wanted_maps;
  skipped_maps = p.skipped_maps;
  unresolved_maps = p.unresolved_maps ++ (m, why) ∷ [];
  kept_files = p.kept_files;
}
add_outcome m (wanted source item) p = record {
  wanted_maps = p.wanted_maps ++ record { spelling = m; source = source; item = item } ∷ [];
  skipped_maps = p.skipped_maps;
  unresolved_maps = p.unresolved_maps;
  kept_files = p.kept_files;
}

unfoldable pub plan_from : (Text → Outcome) → List Text → Plan → Plan
unfolding add_outcome
plan_from decide [] p = p
plan_from decide (m ∷ ms) p = plan_from decide ms (add_outcome m (decide m) p)

unfoldable pub plan : Survey → Index → Dict Item → Dict Override → Dict Text → List Text → Plan
unfolding plan_from todo outcome
plan v index items overrides have force =
    plan_from (outcome v index items overrides have (map lower force)) (todo v.status)
      (record { wanted_maps = []; skipped_maps = []; unresolved_maps = []; kept_files = [] })

-- main() from its inputs to the plan; `cycle_lines` are the lines of the map cycle of a server.
unfoldable pub decide :
    Index
    → Dict Item
    → (Text → List Text)
    → List Text
    → Dict Override
    → Dict Text
    → List Text
    → Result KeyError Plan
unfolding survey plan
decide index items cycle_lines servers overrides have force = do
  v ← survey index items cycle_lines servers no_survey
  ok (plan v index items overrides have force)
