-- ===== src/Audit/Entities.antt =====
-- The regular expressions of referenced_materials() in tools/bspaudit/audit.py: the entities of a map as
-- the key/value pairs of the text of its entity lump.
use tug.Base.{
  ℕ, zero, suc, ◌-◌, Bool, false, not, ◌&&◌, List, [], ◌∷◌, map, if◌then◌else◌, Option, none, some,
  ◌==◌, is_empty, length,
}
use tug.Base.Text.{Text, is_space}
use tug.Base.Dict
use tug.Base.Dict.{Dict}
use tug.Workshop.Refresh.{strip_left}

-- re.findall() of a pattern that is never empty: `at` is the match at the start of a text and what comes
-- after it; characters of the last match are skipped.
module _ {ℓ} {A : Type ℓ} (at : Text → Option (A × Text)) where
  unfoldable pub findall : ℕ → Text → List A
  findall skip [] = []
  findall (suc skip) (c ∷ s) = findall skip s
  findall zero (c ∷ s) = elim (at (c ∷ s)) [
    | none ↦ findall zero s
    | some (found, rest) ↦ found ∷ findall (length s - length rest) s
  ]

-- [^q]*q
unfoldable pub before_char : ℕ → Text → Option (Text × Text)
before_char q [] = none
before_char q (c ∷ s) =
    let rest = before_char q s in
    if c == q
    then some ([], s)
    else elim rest [ none ↦ none | some (head, tail) ↦ some (c ∷ head, tail) ]

abbrev after_quote : Text → Option Text
after_quote [] = none
after_quote (c ∷ s) = if c == 34 then some s else none

-- \s+"
unfoldable pub spaces_quote : Text → Option Text
unfolding strip_left
spaces_quote [] = none
spaces_quote (c ∷ s) = if is_space c then after_quote (strip_left s) else none

-- "([^"]*)"\s+"([^"]*)", or with ([^"]+) for the key
unfoldable pub pair_at : Bool → Text → Option ((Text × Text) × Text)
unfolding before_char spaces_quote
pair_at empty_key [] = none
pair_at empty_key (c ∷ s) =
    if c == 34
    then elim (before_char 34 s) [
      | none ↦ none
      | some (key, rest) ↦
          if is_empty key && not empty_key then none else elim (spaces_quote rest) [
            | none ↦ none
            | some inner ↦ elim (before_char 34 inner) [
              | none ↦ none
              | some (value, after) ↦ some ((key, value), after)
            ]
          ]
    ]
    else none

-- [^{}]*}
unfoldable pub block_end : Text → Option (Text × Text)
block_end [] = none
block_end (c ∷ s) =
    let rest = block_end s in
    if c == 125
    then some (125 ∷ [], s)
    else if c == 123
    then none
    else elim rest [ none ↦ none | some (head, tail) ↦ some (c ∷ head, tail) ]

-- \{[^{}]*\}
unfoldable pub block_at : Text → Option (Text × Text)
unfolding block_end
block_at [] = none
block_at (c ∷ s) =
    if c == 123
    then elim (block_end s) [ none ↦ none | some (block, rest) ↦ some (c ∷ block, rest) ]
    else none

-- dict(pairs)
unfoldable pub dict_from : Dict Text → List (Text × Text) → Dict Text
dict_from d [] = d
dict_from d ((k, v) ∷ pairs) = dict_from (Dict.update k (λ old. v) d) pairs

-- kvs of each block
unfoldable pub entities_of : Text → List (Dict Text)
unfolding findall block_at pair_at dict_from
entities_of ents =
    map (λ block. dict_from [] (findall (pair_at false) 0 block)) (findall block_at 0 ents)
