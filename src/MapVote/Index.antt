-- ===== src/MapVote/Index.antt =====
-- The index of fastdl/tools/mapvote_images.py: refresh_index() and fetch_and_index(). The game directory, the
-- content directories and what steamcmd downloads for a batch are parameters; printing and saving the
-- index on the way are left out.
use tug.Base.{
  ℕ, ◌+◌, Bool, true, false, not, ◌&&◌, ◌||◌, List, [], ◌∷◌, ◌++◌, if◌then◌else◌, Option, none,
  some, ltb, keep_if, is_empty,
}
use tug.Base.Text.{Text, codes, lower, text_eq, text_lt, mem_text}
use tug.Base.Sort.{sorted}
use tug.Base.Dict
use tug.Base.Dict.{Dict, keys}
use tug.Base.Result.{Result, ok, raised, too_deep, ◌>>=◌}
use tug.Workshop.Lock.{Item}
use tug.Audit.{ends_with, cut_suffix, vmt}
use tug.Content.Lumps.{BspError, vpk_names}
use tug.MapVote.{ContentFile, Scan, scan, acf_manifests, keep_some, image_of, sorted_set, vtf}

-- `textures` is none where the key is missing.
pub record Indexed : Type 0 where
  pub manifest : Text
  pub maps : List Text
  pub images : List Text
  pub textures : Option (List Text)

pub record BaseGame : Type 0 where
  pub maps : List Text
  pub images : List Text
  pub textures : Option (List Text)

pub record Index : Type 0 where
  pub base : BaseGame
  pub items : Dict Indexed

pub data IndexError : Type 0 where
  no_base_game : IndexError
  unreadable_vpk : IndexError
  broken_map : BspError → IndexError

-- A workshop directory: the lines of its .acf, none where there is no such file, and the items it holds.
pub record Root : Type 0 where
  pub acf : List Text
  pub content : Dict (List ContentFile)

-- The game directory: its files with their bytes, and the files of its maps directory.
pub record Game : Type 0 where
  pub files : Dict (List ℕ)
  pub map_files : List Text

unfoldable pub game_names : Dict (List ℕ) → Result IndexError (List Text)
game_names [] = ok []
game_names ((f, bytes) ∷ files) =
    let rest = game_names files in
    if ends_with (codes "_dir.vpk") f
    then elim (vpk_names bytes) [
      | ok names ↦ elim rest [
        | ok more ↦ ok (names ++ more)
        | raised e ↦ raised e
        | too_deep ↦ too_deep
      ]
      | raised _ ↦ raised unreadable_vpk
      | too_deep ↦ too_deep
    ]
    else rest

abbrev map_name : Text → Option Text
map_name f = if ends_with (codes ".bsp") f then some (lower (cut_suffix (codes ".bsp") f)) else none

unfoldable pub base_of : Game → Result IndexError BaseGame
unfolding game_names keep_some image_of
base_of game = elim (game_names game.files) [
  | ok names ↦ ok (record {
    maps = sorted text_lt (keep_some map_name game.map_files);
    images = sorted_set (keep_some (image_of vmt) names);
    textures = some (sorted_set (keep_some (image_of vtf) names));
  })
  | raised e ↦ raised e
  | too_deep ↦ too_deep
]

-- The base of the index: the game directory's, where there is one with a gameinfo.txt.
unfoldable pub refresh_base : Option Game → BaseGame → Result IndexError BaseGame
unfolding base_of
refresh_base none base = if is_empty base.images then raised no_base_game else ok base
refresh_base (some game) base = base_of game

abbrev pub has_textures : Option (List Text) → Bool
has_textures none = false
has_textures (some ts) = true

unfoldable pub is_stale : Dict Indexed → Text × Item → Bool
is_stale idx (i, item) = elim (Dict.get i idx) [
  | none ↦ true
  | some entry ↦ not (text_eq entry.manifest item.manifest) || not (has_textures entry.textures)
]

-- The entry of what scan() finds.
unfoldable pub entry_of : Text → Result BspError Scan → Result IndexError Indexed
entry_of manifest (ok found) = ok (record {
  manifest = manifest;
  maps = found.maps;
  images = found.images;
  textures = some found.textures;
})
entry_of manifest (raised e) = raised (broken_map e)
entry_of manifest too_deep = too_deep

-- have and have != pinned
abbrev pub is_other : Option Text → Text → Bool
is_other none pinned = false
is_other (some got) pinned = not (is_empty got) && not (text_eq got pinned)

-- The batches: `cur` is the one being filled, of `size` bytes.
unfoldable pub batches_from : ℕ → Dict Item → ℕ → Dict Item → List (Dict Item)
batches_from batch_bytes cur size [] = if is_empty cur then [] else cur ∷ []
batches_from batch_bytes cur size ((i, item) ∷ ids) =
    let closed = batches_from batch_bytes ((i, item) ∷ []) item.size ids in
    let filled = batches_from batch_bytes (cur ++ (i, item) ∷ []) (size + item.size) ids in
    if not (is_empty cur) && ltb batch_bytes (size + item.size) then cur ∷ closed else filled

abbrev pub by_size : Text × Item → Text × Item → Bool
by_size a b = ltb a.1.size b.1.size

unfoldable pub batches : ℕ → Dict Item → List (Dict Item)
unfolding batches_from
batches batch_bytes ids = batches_from batch_bytes [] 0 (sorted by_size ids)

-- `names_in_zip` are the names in the pakfile of a map.
module _ (names_in_zip : List ℕ → Option (List Text)) where
  -- The first root that holds the item at its pinned version.
  unfoldable pub index_local : List Root → Text → Item → Result IndexError (Option Indexed)
  unfolding scan acf_manifests entry_of
  index_local [] i item = ok none
  index_local (root ∷ roots) i item =
      let next = index_local roots i item in
      elim (Dict.get i root.content) [
        | none ↦ next
        | some files ↦
            if is_other (Dict.get i (acf_manifests root.acf)) item.manifest
            then next
            else entry_of item.manifest (scan names_in_zip files) >>= λ entry. ok (some entry)
      ]

  -- The loop over the stale items: the index, and the items that are still missing.
  unfoldable pub refresh_items :
      List Root → Dict Indexed → Dict Item → Result IndexError (Dict Indexed × Dict Item)
  unfolding index_local
  refresh_items roots idx [] = ok (idx, [])
  refresh_items roots idx ((i, item) ∷ stale) = index_local roots i item >>= λ here. elim here [
    | some entry ↦ refresh_items roots (Dict.update i (λ _. entry) idx) stale
    | none ↦ refresh_items roots idx stale >>= λ rest. ok (rest.0, (i, item) ∷ rest.1)
  ]

  abbrev served : Option Text → Text
  served none = codes "?"
  served (some got) = if is_empty got then codes "?" else got

  unfoldable pub arrived : Root → Text → List ContentFile → Result IndexError Indexed
  unfolding scan acf_manifests entry_of
  arrived root i files =
      entry_of (served (Dict.get i (acf_manifests root.acf))) (scan names_in_zip files)

  -- The items of one batch, as they arrived; the second list is those that did not.
  unfoldable pub index_batch :
      Root → Dict Indexed → Dict Item → Result IndexError (Dict Indexed × Dict Item)
  unfolding arrived
  index_batch root idx [] = ok (idx, [])
  index_batch root idx ((i, item) ∷ batch) = elim (Dict.get i root.content) [
    | none ↦ index_batch root idx batch >>= λ rest. ok (rest.0, (i, item) ∷ rest.1)
    | some files ↦
        arrived root i files >>= λ entry. index_batch root (Dict.update i (λ _. entry) idx) batch
  ]

  unfoldable pub index_batches :
      (Dict Item → Root)
      → Dict Indexed
      → List (Dict Item)
      → Result IndexError (Dict Indexed × Dict Item)
  unfolding index_batch
  index_batches download idx [] = ok (idx, [])
  index_batches download idx (batch ∷ batches) = index_batch (download batch) idx batch >>= λ first.
      index_batches download (first.0) batches >>= λ rest. ok (rest.0, first.1 ++ rest.1)

  unfoldable pub fetch_and_index :
      (Dict Item → Root)
      → ℕ
      → Dict Indexed
      → Dict Item
      → Result IndexError (Dict Indexed × Dict Item)
  unfolding index_batches batches
  fetch_and_index download batch_bytes idx ids =
      index_batches download idx (batches batch_bytes ids)

  abbrev pub fetch_missing :
      Option (Dict Item → Root)
      → ℕ
      → Dict Indexed
      → Dict Item
      → Result IndexError (Dict Indexed × Dict Item)
  fetch_missing none batch_bytes idx missing = ok (idx, missing)
  fetch_missing (some download) batch_bytes idx missing =
      fetch_and_index download batch_bytes idx missing

  -- The index up to the lock's items, and those that are still unindexed. `download` is none without --fetch.
  unfoldable pub refresh_index :
      Option Game
      → List Root
      → Option (Dict Item → Root)
      → ℕ
      → Dict Item
      → Index
      → Result IndexError (Index × Dict Item)
  unfolding refresh_base is_stale refresh_items fetch_and_index
  refresh_index game roots download batch_bytes items index =
      let idx = keep_if (λ (e : Text × Indexed). mem_text e.0 (keys items)) index.items in
      do
        base ← refresh_base game index.base
        (idx1, missing) ← refresh_items roots idx (keep_if (is_stale idx) items)
        (idx2, left) ← fetch_missing download batch_bytes idx1 missing
        ok (record { base = base; items = idx2 }, left)
