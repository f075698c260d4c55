-- ===== src/Content/Libraries.antt =====
-- The search for the game in tools/bspaudit/collect_content_index.py: steam_roots(), library_folders() and
-- autodetect(), and what main() scans. The machine is a record of parameters.
use tug.Base.{
  Bool, true, false, not, ◌&&◌, ◌||◌, List, [], ◌∷◌, ◌++◌, map, keep_if, if◌then◌else◌, Option,
  none, some, ◌==◌, is_empty,
}
use tug.Base.Text.{Text, codes, text_eq, mem_text, starts_with}
use tug.Workshop.Refresh.{is_id}
use tug.Audit.Entities.{findall, pair_at}
use tug.Content.Collect.{Scanned, index_text}

-- os.path and the registry: isdir(), normpath(), normcase() and join(), the text of a file (none where
-- it is no file or open() raises), the paths that the registry has (none on other systems), the
-- usual places of Steam, and the files that os.walk() finds.
pub record Machine : Type 0 where
  pub is_dir : Text → Bool
  pub norm_path : Text → Text
  pub norm_case : Text → Text
  pub join : Text → Text → Text
  pub text_of_file : Text → Option Text
  pub registry : List Text
  pub guesses : List Text
  pub walk : Text → List Scanned

-- value.replace("\\\\", "\\"): the second of two backslashes is skipped.
unfoldable pub unescape_from : Bool → Text → Text
unescape_from skip [] = []
unescape_from true (c ∷ s) = unescape_from false s
unescape_from false (c ∷ s) = c ∷ unescape_from (c == 92 && starts_with (92 ∷ []) s) s

abbrev unescape : Text → Text
unescape s = unescape_from false s

-- key == "path" or key.isdigit()
abbrev is_library_key : Text → Bool
is_library_key key = text_eq key (codes "path") || is_id key

module _ (m : Machine) where
  -- The loop over paths with the set `seen` of their normcase()s; dedupe() of autodetect() too.
  unfoldable pub dedupe : List Text → List Text → List Text
  dedupe seen [] = []
  dedupe seen (p ∷ paths) =
      let again = mem_text (m.norm_case p) seen in
      let rest = dedupe (if again then seen else m.norm_case p ∷ seen) paths in
      if again then rest else p ∷ rest

  abbrev pub existing : List Text → List Text
  existing paths = map m.norm_path (keep_if m.is_dir paths)

  unfoldable pub steam_roots : List Text
  unfolding dedupe
  steam_roots =
      dedupe [] (existing (keep_if (λ path. not (is_empty path)) m.registry) ++ existing m.guesses)

  -- The paths that one libraryfolders.vdf lists.
  unfoldable pub listed_in : Option Text → List Text
  unfolding findall pair_at unescape_from
  listed_in none = []
  listed_in (some text) =
      map (λ (kv : Text × Text). unescape kv.1)
        (keep_if (λ (kv : Text × Text). is_library_key kv.0) (findall (pair_at true) 0 text))

  abbrev pub vdf_paths : Text → List Text
  vdf_paths steam_root =
      m.join (m.join steam_root (codes "steamapps")) (codes "libraryfolders.vdf")
      ∷ m.join steam_root (codes "config/libraryfolders.vdf")
      ∷ []

  unfoldable pub libraries_in : List Text → List Text
  unfolding listed_in
  libraries_in [] = []
  libraries_in (vdf ∷ vdfs) = existing (listed_in (m.text_of_file vdf)) ++ libraries_in vdfs

  unfoldable pub library_folders : Text → List Text
  unfolding dedupe libraries_in
  library_folders steam_root = dedupe [] (steam_root ∷ libraries_in (vdf_paths steam_root))

  unfoldable pub all_libraries : List Text → List Text
  unfolding library_folders
  all_libraries [] = []
  all_libraries (root ∷ roots) = library_folders root ++ all_libraries roots

  abbrev pub game_of : Text → Text
  game_of lib =
      m.join (m.join (m.join lib (codes "steamapps")) (codes "common")) (codes "insurgency2")

  abbrev pub shop_of : Text → Text
  shop_of lib =
      m.join (m.join (m.join (m.join lib (codes "steamapps")) (codes "workshop")) (codes "content"))
        (codes "222880")

  unfoldable pub autodetect : List Text × List Text
  unfolding all_libraries steam_roots dedupe
  autodetect =
      let libs = all_libraries steam_roots in
      (
        dedupe [] (keep_if m.is_dir (map game_of libs)),
        dedupe [] (keep_if m.is_dir (map shop_of libs)),
      )

  -- args.game_dir or auto_game
  abbrev given_or : List Text → List Text → List Text
  given_or given found = if is_empty given then found else given

  -- main(): the text of the index, none where the game is not found
  unfoldable pub main : List Text → List Text → Option Text
  unfolding autodetect index_text
  main game_dirs workshop_dirs =
      let (auto_game, auto_shop) =
        if is_empty game_dirs || is_empty workshop_dirs then autodetect else ([], []) in
      let game = given_or game_dirs auto_game in
      let shop = given_or workshop_dirs auto_shop in
      if is_empty game then none else some (index_text (map m.walk (game ++ shop)))
