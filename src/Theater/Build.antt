-- ===== src/Theater/Build.antt =====
-- entry_points(), build_all() and main() of tools/theater-build/build.py. The directories are
-- parameters: the sources are a `Disk` and the listing of `src`, the output is a folder of files.
pub mod Fresh
use tug.Base.{
  ℕ, Bool, true, false, not, ◌&&◌, ◌||◌, List, [], ◌∷◌, ◌++◌, if◌then◌else◌, Option, none, some,
  map, keep_if, is_empty,
}
use mathlib.Core.List.{reverse}
use tug.Base.Text.{Text, codes, text_eq, text_lt, mem_text, starts_with}
use tug.Base.Sort.{sorted}
use tug.Base.Result.{Result, ok, raised, too_deep, ◌>>=◌}
use tug.Theater.KeyValues.{Kv, Error, not_iterable}
use tug.Theater.Loader.{Disk, load}
use tug.Theater.Attachments.{Dropped, drop_orphan_attachments}
use tug.Theater.Writer.{render}

-- f.endswith(".theater")
unfoldable pub is_theater : Text → Bool
is_theater f = starts_with (reverse (codes ".theater")) (reverse f)

-- f.endswith(".theater") and not f.startswith("_")
unfoldable pub is_entry : Text → Bool
unfolding is_theater
is_entry f = is_theater f && not (starts_with (codes "_") f)

unfoldable pub entry_points : List Text → List Text
unfolding is_entry sorted
entry_points listing = sorted text_lt (keep_if is_entry listing)

-- A folder: file names and their content, a name at most once.
abbrev pub Folder : Type 0
Folder = List (Text × Text)

unfoldable pub lookup : Text → Folder → Option Text
lookup f [] = none
lookup f ((g, text) ∷ rest) = if text_eq g f then some text else lookup f rest

-- open(path, "w"): the file's old content is replaced
unfoldable pub save : Text → Text → Folder → Folder
save f text [] = (f, text) ∷ []
save f text ((g, old) ∷ rest) =
    let after = save f text rest in if text_eq g f then (g, text) ∷ rest else (g, old) ∷ after

-- What a run of build_all makes of one entry point: the text, and the report of what was dropped.
pub record Rendered : Type 0 where
  pub name : Text
  pub text : Text
  pub dropped : List Dropped

module _ (disk : Disk) (dirs : List Text) (fuel : ℕ) where
  unfoldable pub build_one : Text → Result Error Rendered
  build_one name = load disk dirs fuel name [] >>= λ (root, used).
      drop_orphan_attachments root >>= λ (kept, report).
      render name kept >>= λ text. ok (record { name = name; text = text; dropped = report })

  unfoldable pub build_names : List Text → Result Error (List Rendered)
  unfolding build_one
  build_names [] = ok []
  build_names (n ∷ ns) = build_one n >>= λ one. build_names ns >>= λ rest. ok (one ∷ rest)

  unfoldable pub build_all : List Text → Result Error (List Rendered)
  unfolding build_names entry_points
  build_all listing = build_names (entry_points listing)

abbrev option_eq : Option Text → Text → Bool
option_eq none text = false
option_eq (some current) text = text_eq current text

-- current == text
unfoldable pub is_current : Folder → Rendered → Bool
unfolding lookup
is_current out r = option_eq (lookup r.name out) r.text

-- The loop over `rendered`: the names that are stale, and the folder after the writes.
unfoldable pub update : Bool → Folder → List Rendered → List Text × Folder
update building out [] = ([], out)
update building out (r ∷ rs) =
    let kept = update building out rs in
    let rest = update building (if building then save r.name r.text out else out) rs in
    if is_current out r then kept else (r.name ∷ rest.0, rest.1)

-- sorted(f for f in os.listdir(out) if f.endswith(".theater") and f not in rendered)
unfoldable pub extra_files : Folder → List Rendered → List Text
unfolding is_theater sorted
extra_files out rs = sorted text_lt (
    keep_if (λ f. is_theater f && not (mem_text f (map (λ (r : Rendered). r.name) rs)))
      (map (λ (e : Text × Text). e.0) out))

pub data Command : Type 0 where
  build check : Command

-- How main ends. `refused`: sys.exit on a KeyValuesError of the build; `crashed`: a TypeError, which
-- main does not catch; `stale_exit`: sys.exit of a check.
pub data Outcome : Type 0 where
  refused : Error → Outcome
  crashed endless no_sources : Outcome
  stale_exit : List Text → List Text → Outcome
  up_to_date : Outcome
  written : List Text → List Text → Outcome

unfoldable pub finish : Command → List Text → List Text → Outcome
finish build stale extra = written stale extra
finish check stale extra =
    if is_empty stale && is_empty extra then up_to_date else stale_exit stale extra

abbrev pub is_build : Command → Bool
is_build build = true
is_build check = false

-- except KeyValuesError
unfoldable pub failed : Error → Outcome
failed not_iterable = crashed
failed e = refused e

-- main(), from the rendered theaters on.
unfoldable pub conclude : Command → Folder → Result Error (List Rendered) → Outcome × Folder
unfolding failed
conclude command out (raised e) = (failed e, out)
conclude command out too_deep = (endless, out)
conclude command out (ok []) = (no_sources, out)
conclude command out (ok (r ∷ rs)) =
    let done = update (is_build command) out (r ∷ rs) in
    (finish command done.0 (extra_files done.1 (r ∷ rs)), done.1)

unfoldable pub main : Disk → List Text → ℕ → Command → List Text → Folder → Outcome × Folder
main disk dirs fuel command listing out = conclude command out (build_all disk dirs fuel listing)
