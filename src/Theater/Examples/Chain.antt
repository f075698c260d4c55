-- ===== src/Theater/Examples/Chain.antt =====
-- The theorems on loading and building at a disk with two files, one of which bases itself on the
-- other.
use tug.Base.{
  ℕ, ◌<◌, true, false, List, [], ◌∷◌, ◌++◌, if◌then◌else◌, some, ◌≡◌, ◌≢◌, refl, ap, sym, arith,
  All, Bool-cases, inl, inr, ◌∙◌, is_empty,
}
use mathlib.Core.Path.{subst}
use tug.Base.Text.{Text, codes, nl, text_eq, lower, is_space, has_char, starts_with, mem_text}
use tug.Base.Result.{Result, ok, raised, too_deep}
use tug.Theater.KeyValues.{Kv, Children, leaf, block, nil, cons, Error, ◌+++◌}
use tug.Theater.Loader.{Disk, load, resolve, resolve_in, read_top, add_used}
use tug.Theater.Loader.Terminates.{Descends, load-ends}
use tug.Theater.Writer.{render}
use tug.Theater.SelfContained.{load-render}
use tug.Theater.Build.{
  Rendered, Folder, build, check, conclude, finish, extra_files, up_to_date, stale_exit,
}
use tug.Theater.Build.Fresh.{conclude-build}

abbrev a_text : Text
a_text = codes "#base b" ++ nl ∷ codes "t{}"

abbrev b_text : Text
b_text = codes "t{k 1}"

abbrev disk : Disk
disk = record {
  join = λ d f. d ++ f;
  read = λ f. if text_eq f (codes "a") then some a_text else some b_text;
}

abbrev dirs : List Text
dirs = [] ∷ []

-- a above all others
abbrev rank : Text → ℕ
rank n = if text_eq n (codes "a") then 1 else 0

abbrev text_from : Result Error (Text × Text) → Text
text_from (ok (p, t)) = t
text_from (raised e) = []
text_from too_deep = []

abbrev bases_from : Result Error (Kv × List Text) → List Text
bases_from (ok (r, bs)) = bs
bases_from (raised e) = []
bases_from too_deep = []

found-a :
    (name : Text) → text_eq name (codes "a") ≡ true → text_from (resolve disk dirs name) ≡ a_text
unfolding resolve
found-a name e = rw (e, resolve_in) refl

found-other :
    (name : Text) → text_eq name (codes "a") ≡ false → text_from (resolve disk dirs name) ≡ b_text
unfolding resolve
found-other name e = rw (e, resolve_in) refl

bases-a : (path : Text) → bases_from (read_top path a_text) ≡ codes "b" ∷ []
unfolding read_top is_space starts_with text_eq lower ◌+++◌
bases-a path = refl

bases-b : (path : Text) → bases_from (read_top path b_text) ≡ []
unfolding read_top is_space starts_with text_eq lower ◌+++◌
bases-b path = refl

-- The bases of what a name leads to are those of the text found.
bases-found :
    (path s text : Text) (root : Kv) (bases want : List Text)
    → s ≡ text
    → read_top path text ≡ ok (root, bases)
    → bases_from (read_top path s) ≡ want
    → want ≡ bases
bases-found path s text root bases want e top h =
    sym h ∙ ap (λ t. bases_from (read_top path t)) e ∙ ap bases_from top

rank-a : (name : Text) → text_eq name (codes "a") ≡ true → rank (codes "b") < rank name
unfolding text_eq
rank-a name e = rw e (omega arith)

disk-Descends : Descends disk dirs rank
disk-Descends name path text root bases found top = elim (Bool-cases (text_eq name (codes "a"))) [
  | inl e ↦
      let t : a_text ≡ text = sym (found-a name e) ∙ ap text_from found in
      subst (All (λ b. rank b < rank name))
        (bases-found path a_text text root bases (codes "b" ∷ []) t top (bases-a path))
        (rank-a name e, tt)
  | inr e ↦
      let t : b_text ≡ text = sym (found-other name e) ∙ ap text_from found in
      subst (All (λ b. rank b < rank name))
        (bases-found path b_text text root bases [] t top (bases-b path)) tt
]

load-ends_example : load disk dirs 2 (codes "a") [] ≢ too_deep
unfolding text_eq
load-ends_example = load-ends disk dirs rank disk-Descends 2 (codes "a") [] (omega arith)

-- One file of fuel is too little for the chain.
too_little : load disk dirs 1 (codes "a") [] ≡ too_deep
unfolding load is_space starts_with text_eq lower ◌+++◌ mem_text
too_little = refl

abbrev tree : Children
tree = cons (leaf (codes "k") (codes "1")) nil

abbrev tree_text : Text
tree_text =
    unfold render in elim (render (codes "c") (block (codes "t") tree)) [ ok t ↦ t | _ ↦ [] ]

abbrev built : Disk
built = record { join = λ d f. d ++ f; read = λ f. some tree_text }

load-render_example :
    load built dirs 1 (codes "c") [] ≡ ok (block (codes "t") tree, add_used (codes "c") [])
unfolding has_char render
load-render_example =
    load-render built [] [] [] 0 (codes "c") tree_text (codes "t") tree refl refl refl

abbrev one : Rendered
one = record { name = codes "a.theater"; text = codes "x"; dropped = [] }

abbrev other : Rendered
other = record { name = codes "b.theater"; text = codes "y"; dropped = [] }

-- One theater is stale, one is missing.
abbrev out : Folder
out = (codes "a.theater", codes "old") ∷ []

abbrev out_after : Folder
out_after = (conclude build out (ok (one ∷ other ∷ []))).1

conclude-build_example :
    (conclude build out_after (ok (one ∷ other ∷ []))
      ≡ (finish build [] (extra_files out_after (one ∷ other ∷ [])), out_after))
    × (conclude check out_after (ok (one ∷ other ∷ [])) ≡ (
      (if is_empty (extra_files out_after (one ∷ other ∷ []))
          then up_to_date
          else stale_exit [] (extra_files out_after (one ∷ other ∷ []))),
      out_after,
    ))
unfolding mem_text text_eq
conclude-build_example = conclude-build out one (other ∷ []) (refl, (refl, tt))
