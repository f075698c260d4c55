-- ===== src/Workshop/Splice.antt =====
-- splice(), the splices of rendered(), and check() of tools/workshop/workshop_lock.py.
pub mod Again
use tug.Base.{
  ℕ, zero, suc, Bool, true, false, not, ◌&&◌, ◌||◌, List, [], ◌∷◌, ◌++◌, map, if◌then◌else◌, Option,
  none, some,
}
use tug.Base.Text.{Text, codes, nl, text_lt, text_eq, starts_with}
use tug.Base.Split.{split_once}
use tug.Base.Result.{Result, ok, raised, too_deep, ◌>>=◌}

-- MARKER % (mark, region, mark)
unfoldable pub marker : Text → Text → Text
marker mark region = codes "# " ++ (mark ++ (codes " workshop-lock: " ++ (region ++ (32 ∷ mark))))

abbrev pub start_of : Text → Text
start_of region = marker (codes ">>>") region

abbrev pub end_of : Text → Text
end_of region = marker (codes "<<<") region

-- "\n".join(lines)
unfoldable pub join_lines : List Text → Text
join_lines [] = []
join_lines (l ∷ []) = l
join_lines (l ∷ m ∷ ls) = l ++ (nl ∷ join_lines (m ∷ ls))

pub data SpliceError : Type 0 where
  missing_markers : Text → SpliceError
  bad_split : Text → SpliceError

-- splice(text, region, lines). Where the end marker stands only before the start marker, the
-- second split has one part and Python raises ValueError.
unfoldable pub splice : Text → Text → List Text → Result SpliceError Text
unfolding join_lines
splice text region lines =
    let start = start_of region in
    let end = end_of region in
    elim (split_once start text) [
      | none ↦ raised (missing_markers region)
      | some (head, rest) ↦ elim (split_once end text) [
        | none ↦ raised (missing_markers region)
        | some _ ↦ elim (split_once end rest) [
          | none ↦ raised (bad_split region)
          | some (_, tail) ↦ ok (head ++ (join_lines (start ∷ (lines ++ end ∷ [])) ++ tail))
        ]
      ]
    ]

-- The regions of the Dockerfile, spliced in one after the other in the order of their names.
unfoldable pub splice_all : Text → List (Text × List Text) → Result SpliceError Text
splice_all text [] = ok text
splice_all text ((region, lines) ∷ regions) =
    splice text region lines >>= λ text'. splice_all text' regions

-- What check() finds: a stale Dockerfile, or one that is up to date. A splice is never `too_deep`.
pub data Checked : Type 0 where
  fails_splicing : SpliceError → Checked
  stale : Checked
  fresh : Checked

unfoldable pub check : Text → List (Text × List Text) → Checked
unfolding splice_all
check dockerfile regions = elim (splice_all dockerfile regions) [
  | ok content ↦ if text_eq dockerfile content then fresh else stale
  | raised e ↦ fails_splicing e
  | too_deep ↦ stale
]
