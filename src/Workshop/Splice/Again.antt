-- ===== src/Workshop/Splice/Again.antt =====
-- A region that is spliced in a second time: what render() writes, check() finds up to date.
use tug.Base.{
  List, [], ◌∷◌, ◌++◌, Option, none, some, ◌≡◌, refl, Option-cases, inl, inr, append_assoc,
}
use tug.Base.Text.{Text, nl}
use tug.Base.Result.{ok, raised}
use tug.Base.Split.{split_once, split_once-again, split_once-found}
use tug.Workshop.Splice.{start_of, end_of, join_lines, missing_markers, bad_split, splice}

-- What stands between the markers: a line break, and each line with one after it.
abbrev pub between : List Text → Text
between [] = nl ∷ []
between (l ∷ ls) = nl ∷ (l ++ between ls)

join_lines-between :
    (start end : Text) (lines : List Text)
    → join_lines (start ∷ (lines ++ end ∷ [])) ≡ start ++ (between lines ++ end)
unfolding join_lines
join_lines-between start end [] = refl
join_lines-between start end (l ∷ ls) =
    rw (join_lines-between l end ls, append_assoc l (between ls) end) refl

abbrev Spliced : Text → Text → List Text → Text → Type 0
Spliced text region lines text' =
    (head : Text) × (rest : Text) × (tail : Text) × (split_once (start_of region) text
      ≡ some (head, rest))
    × (text' ≡ head ++ (join_lines (start_of region ∷ (lines ++ end_of region ∷ [])) ++ tail))

abbrev pub spliced_region : Text → List Text → Text
spliced_region region lines = join_lines (start_of region ∷ (lines ++ end_of region ∷ []))

splice-tail :
    (text region : Text) (lines : List Text) (text' head rest : Text) (third : Option (Text × Text))
    → split_once (start_of region) text ≡ some (head, rest)
    → (elim third [
      | none ↦ raised (bad_split region)
      | some (_, tail) ↦ ok (head ++ (spliced_region region lines ++ tail))
    ])
      ≡ ok text'
    → Spliced text region lines text'
splice-tail text region lines text' head rest none e h = cc
splice-tail text region lines text' head rest (some (_, tail)) e h = (head, rest, tail, e, cc)

splice-at :
    (text region : Text) (lines : List Text) (text' : Text) (first second : Option (Text × Text))
    → split_once (start_of region) text ≡ first
    → (elim first [
      | none ↦ raised (missing_markers region)
      | some (head, rest) ↦ elim second [
        | none ↦ raised (missing_markers region)
        | some _ ↦ elim (split_once (end_of region) rest) [
          | none ↦ raised (bad_split region)
          | some (_, tail) ↦ ok (head ++ (spliced_region region lines ++ tail))
        ]
      ]
    ])
      ≡ ok text'
    → Spliced text region lines text'
splice-at text region lines text' none second e h = cc
splice-at text region lines text' (some (head, rest)) none e h = cc
splice-at text region lines text' (some (head, rest)) (some _) e h =
    splice-tail text region lines text' head rest (split_once (end_of region) rest) e h

splice-ok :
    (text region : Text) (lines : List Text) (text' : Text)
    → splice text region lines ≡ ok text'
    → Spliced text region lines text'
unfolding splice
splice-ok text region lines text' h =
    splice-at text region lines text' (split_once (start_of region) text)
      (split_once (end_of region) text) refl h

-- A text with the region in it is left as it is by a splice of the same lines.
pub splice-same :
    (region : Text) (lines : List Text) (head rest text tail : Text)
    → split_once (start_of region) text ≡ some (head, rest)
    → split_once (end_of region) (between lines ++ end_of region) ≡ some (between lines, [])
    → splice (head ++ (spliced_region region lines ++ tail)) region lines
      ≡ ok (head ++ (spliced_region region lines ++ tail))
unfolding splice
splice-same region lines head rest text tail e clean =
    let start = start_of region in
    let end = end_of region in
    let body = between lines in
    let shape : spliced_region region lines ++ tail ≡ start ++ (body ++ (end ++ tail)) =
      rw
        (
          join_lines-between start end lines,
          append_assoc start (body ++ end) tail,
          append_assoc body end tail,
        )
        refl in
    let whole : head ++ (start ++ (body ++ (end ++ tail)))
        ≡ (head ++ (start ++ body)) ++ (end ++ tail) =
      rw (append_assoc head (start ++ body) (end ++ tail), append_assoc start body (end ++ tail))
        refl in
    elim (Option-cases (split_once end ((head ++ (start ++ body)) ++ (end ++ tail)))) [
      | inl missing ↦ elim (split_once-found end (head ++ (start ++ body)) tail missing) [ ]
      | inr (q, found) ↦
          let first : split_once start (head ++ (spliced_region region lines ++ tail))
              ≡ some (head, body ++ (end ++ tail)) =
            rw shape (split_once-again start text head rest (body ++ (end ++ tail)) e) in
          let second : split_once end (head ++ (spliced_region region lines ++ tail)) ≡ some q =
            rw (shape, whole) found in
          let third : split_once end (body ++ (end ++ tail)) ≡ some (body, tail) =
            split_once-again end (body ++ end) body [] tail clean in
          rw (splice, first, second, third) refl
    ]

-- If the lines do not hold the end marker and a splice of them succeeds, a splice of the same lines
-- into its result leaves that as it is.
pub splice-again :
    (text region : Text) (lines : List Text) (text' : Text)
    → split_once (end_of region) (between lines ++ end_of region) ≡ some (between lines, [])
    → splice text region lines ≡ ok text'
    → splice text' region lines ≡ ok text'
splice-again text region lines text' clean h =
    let (head, rest, tail, e, at) = splice-ok text region lines text' h in
    rw at (splice-same region lines head rest text tail e clean)
