-- ===== src/Theater/Loader.antt =====
-- class Loader of tools/theater-build/build.py. The file system is a parameter. A chain of #base
-- that never ends is Python's RecursionError; here it uses up the fuel.
pub mod Terminates
use tug.Base.{
  ℕ, zero, suc, Bool, true, false, List, [], ◌∷◌, ◌++◌, if◌then◌else◌, ◌==◌, Option, none, some,
  length, is_empty,
}
use tug.Base.Text.{Text, codes, lower, text_eq, mem_text}
use tug.Base.Result.{Result, ok, raised, too_deep, ◌>>=◌}
use tug.Theater.KeyValues.{
  Kv, Children, leaf, block, nil, cons, name_of, Error, base_not_found, stray_keys, top_blocks,
  base_name,
}
use tug.Theater.Lexer.{tokens}
use tug.Theater.Parser.{parse_children}
use tug.Theater.Merge.{merge}

-- `join` is os.path.join; `read` is the content of a file, none where os.path.isfile fails.
pub record Disk : Type 0 where
  pub join : Text → Text → Text
  pub read : Text → Option Text

abbrev base_key : Text
base_key = codes "#base"

-- kv.name.lower() == "#base"
unfoldable pub is_base_key : Text → Bool
is_base_key n = text_eq (lower n) base_key

-- The values of the top-level #base keys, the blocks, and the names of all other keys.
unfoldable pub bases_of : Children → List Text
unfolding is_base_key
bases_of nil = []
bases_of (cons (leaf n v) cs) = let rest = bases_of cs in if is_base_key n then v ∷ rest else rest
bases_of (cons (block n ds) cs) = bases_of cs

unfoldable pub blocks_of : Children → List Kv
blocks_of nil = []
blocks_of (cons (leaf n v) cs) = blocks_of cs
blocks_of (cons (block n ds) cs) = block n ds ∷ blocks_of cs

unfoldable pub stray_of : Children → List Text
unfolding is_base_key
stray_of nil = []
stray_of (cons (leaf n v) cs) = let rest = stray_of cs in if is_base_key n then rest else n ∷ rest
stray_of (cons (block n ds) cs) = stray_of cs

-- `len(blocks) != 1`
unfoldable pub only_block : Text → List Kv → Result Error Kv
only_block path (root ∷ []) = ok root
only_block path [] = raised (top_blocks path 0)
only_block path (a ∷ b ∷ rest) = raised (top_blocks path (length (a ∷ b ∷ rest)))

-- The two checks on the top level of a file, in their order.
unfoldable pub top_block : Text → List Text → List Kv → Result Error Kv
unfolding only_block
top_block path stray blocks =
    if is_empty stray then only_block path blocks else raised (stray_keys path stray)

-- The single block of a file, and the files that it bases itself on.
unfoldable pub read_top : Text → Text → Result Error (Kv × List Text)
unfolding bases_of blocks_of stray_of top_block tokens parse_children
read_top path text = do
  top ← parse_children path [] nil (tokens text path)
  root ← top_block path (stray_of top) (blocks_of top)
  ok (root, bases_of top)

-- self.used.add(path)
unfoldable pub add_used : Text → List Text → List Text
add_used path used = if mem_text path used then used else used ++ path ∷ []

module _ (disk : Disk) (dirs : List Text) where
  -- resolve, with the text that the file found holds
  unfoldable pub resolve_in : List Text → Text → Result Error (Text × Text)
  resolve_in [] name = raised (base_not_found name)
  resolve_in (d ∷ ds) name = elim (disk.read (disk.join d name)) [
    | some text ↦ ok (disk.join d name, text)
    | none ↦ resolve_in ds name
  ]

  unfoldable pub resolve : Text → Result Error (Text × Text)
  unfolding resolve_in
  resolve name = resolve_in dirs name

  -- `for b in bases`; `load_base` is self.load
  unfoldable pub merge_bases :
      (Text → List Text → Result Error (Kv × List Text))
      → Text
      → Kv
      → List Text
      → List Text
      → Result Error (Kv × List Text)
  merge_bases load_base path root [] used = ok (root, used)
  merge_bases load_base path root (b ∷ bs) used = load_base b used >>= λ (base, used').
      if text_eq (lower (name_of base)) (lower (name_of root))
      then merge_bases load_base path (merge root base 0) bs used'
      else raised (base_name path b (name_of base) (name_of root))

  -- load(name), with self.used passed on
  unfoldable pub load : ℕ → Text → List Text → Result Error (Kv × List Text)
  unfolding merge_bases read_top resolve add_used
  load zero name used = too_deep
  load (suc fuel) name used = resolve name >>= λ (path, text).
      read_top path text >>= λ (root, bases).
      merge_bases (λ b u. load fuel b u) path root bases (add_used path used)
