-- ===== src/Audit/Run.antt =====
-- audit() on the bytes of a map, and main() of tools/bspaudit/audit.py. Files are read by a parameter, which is
-- none where open() raises, and the names in a zip file are one.
use tug.Base.{
  ℕ, suc, Bool, List, [], ◌∷◌, ◌++◌, map, if◌then◌else◌, Option, none, some, is_empty, keep_if,
}
use tug.Base.Text.{Text, codes, lower, text_lt, rsplit}
use tug.Base.Sort.{sorted}
use tug.Base.Dict.{Dict}
use tug.Base.Result.{Result, ok, raised, too_deep, ◌>>=◌}
use tug.Workshop.Refresh.{first_seen}
use tug.MapVote.Config.{split_ext}
use tug.Content.Lumps.{BspError, unreadable, open_bsp, entities_text, face_materials, packed}
use tug.Audit.{MapReport, ends_with, audit, load_content_index}
use tug.Audit.Entities.{entities_of}
use tug.Audit.Report.{write_strip_config, write_stubs}

abbrev base_of_path : Text → Text
base_of_path path = elim (rsplit 47 path) [ none ↦ path | some (folder, file) ↦ file ]

-- os.path.splitext(os.path.basename(path))[0]
unfoldable pub map_of_path : Text → Text
unfolding split_ext rsplit
map_of_path path = (split_ext (base_of_path path)).0

-- What main() is told: the walk over --maps-dir, the text of --content-index, and which files to write.
pub record Args : Type 0 where
  pub bsps : List Text
  pub maps_dir : List (Text × List Text)
  pub content_index : Option Text
  pub strip_config : Bool
  pub stub_dir : Bool

pub record Audited : Type 0 where
  pub reports : List MapReport
  pub bad : ℕ
  pub rules : Option Text
  pub stubs : Option (Dict Text)

-- os.path.join() with a file name
abbrev join_path : Text → Text → Text
join_path root f = if ends_with (47 ∷ []) root then root ++ f else root ++ (47 ∷ f)

unfoldable pub walked : List (Text × List Text) → List Text
walked [] = []
walked ((root, files) ∷ dirs) =
    map (join_path root) (keep_if (λ f. ends_with (codes ".bsp") (lower f)) files) ++ walked dirs

unfoldable pub count_bad : List MapReport → ℕ
count_bad [] = 0
count_bad (r ∷ reports) =
    let rest = count_bad reports in if is_empty r.missing then rest else suc rest

module _ (read : Text → Option (List ℕ)) (names_in_zip : List ℕ → Option (List Text)) where
  -- audit(path, content)
  unfoldable pub audit_path : Option (List Text) → Text → Result BspError MapReport
  unfolding open_bsp map_of_path packed entities_text face_materials
  audit_path content path = elim (read path) [
    | none ↦ raised unreadable
    | some file ↦ open_bsp file >>= λ version. ok (
        audit (map_of_path path) version (first_seen [] (packed names_in_zip file))
          (face_materials file) (entities_of (entities_text file)) content)
  ]

  -- The loop of main(): a map that raises is printed and left out.
  unfoldable pub audit_paths : Option (List Text) → List Text → List MapReport
  unfolding audit_path
  audit_paths content [] = []
  audit_paths content (path ∷ paths) =
      let rest = audit_paths content paths in
      elim (audit_path content path) [ ok r ↦ r ∷ rest | raised e ↦ rest | too_deep ↦ rest ]

  -- main(): none where no map is given
  unfoldable pub main : Args → Option Audited
  unfolding walked audit_paths count_bad
  main args =
      let paths = args.bsps ++ walked args.maps_dir in
      let content : Option (List Text) = elim args.content_index [
        | none ↦ none
        | some text ↦ some (load_content_index text)
      ] in
      let reports = audit_paths content (sorted text_lt paths) in
      if is_empty paths
      then none
      else some (record {
        reports = reports;
        bad = count_bad reports;
        rules = if args.strip_config then some (write_strip_config reports) else none;
        stubs = if args.stub_dir then some (write_stubs reports) else none;
      })
