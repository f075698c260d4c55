-- ===== src/Theater/Loader/Terminates.antt =====
-- Loading ends where no chain of #base comes back to a file: the fuel is enough then.
use tug.Base.{
  ℕ, zero, suc, ◌<◌, List, [], ◌∷◌, ◌≡◌, ◌≢◌, arith, All, All-imp, Bool-cases, Option-cases, inl,
  inr,
}
use tug.Base.Text.{Text, lower, text_eq}
use tug.Base.Result.{Result, ok, too_deep, >>=-ends}
use tug.Theater.KeyValues.{Kv, Children, nil, Error, name_of}
use tug.Theater.Lexer.{Stream, done, fails, open_brace, close_brace, str, tokens}
use tug.Theater.Parser.{Frame, parse_children}
use tug.Theater.Merge.{merge}
use tug.Theater.Loader.{
  Disk, only_block, top_block, stray_of, blocks_of, read_top, resolve_in, resolve, merge_bases,
  load, add_used,
}

parse_children-ends :
    (path : Text) (frames : List Frame) (out : Children) (toks : Stream)
    → parse_children path frames out toks ≢ too_deep
unfolding parse_children
parse_children-ends path frames out (fails e) = λ h. cc
parse_children-ends path [] out done = λ h. cc
parse_children-ends path (f ∷ fs) out done = λ h. cc
parse_children-ends path [] out (close_brace l toks) = λ h. cc
parse_children-ends path (f ∷ fs) out (close_brace l toks) = parse_children-ends path fs _ toks
parse_children-ends path frames out (open_brace l toks) = λ h. cc
parse_children-ends path frames out (str k l done) = λ h. cc
parse_children-ends path frames out (str k l (fails e)) = λ h. cc
parse_children-ends path frames out (str k l (open_brace m toks)) =
    parse_children-ends path _ nil toks
parse_children-ends path frames out (str k l (str v m toks)) =
    parse_children-ends path frames _ toks
parse_children-ends path frames out (str k l (close_brace m toks)) = λ h. cc

top_block-ends :
    (path : Text) (stray : List Text) (bs : List Kv) → top_block path stray bs ≢ too_deep
unfolding top_block only_block
top_block-ends path (s ∷ ss) bs = λ h. cc
top_block-ends path [] [] = λ h. cc
top_block-ends path [] (a ∷ []) = λ h. cc
top_block-ends path [] (a ∷ b ∷ rest) = λ h. cc

read_top-ends : (path text : Text) → read_top path text ≢ too_deep
unfolding read_top
read_top-ends path text =
    >>=-ends (parse_children path [] nil (tokens text path)) _
      (parse_children-ends path [] nil (tokens text path))
      λ top _.
        >>=-ends (top_block path (stray_of top) (blocks_of top)) _ (top_block-ends path _ _)
          λ root _ h. cc

module _ (disk : Disk) (dirs : List Text) where
  resolve-ends : (ds : List Text) (name : Text) → resolve_in disk dirs ds name ≢ too_deep
  unfolding resolve_in
  resolve-ends [] name = λ h. cc
  resolve-ends (d ∷ ds) name = elim (Option-cases (disk.read (disk.join d name))) [
    | inl e ↦ rw (e, resolve_in) (resolve-ends ds name)
    | inr (text, e) ↦ rw (e, resolve_in) (λ h. cc)
  ]

  merge_bases-ends :
      (load_base : Text → List Text → Result Error (Kv × List Text)) (path : Text) (root : Kv)
      (bases used : List Text)
      → All (λ b. (u : List Text) → load_base b u ≢ too_deep) bases
      → merge_bases disk dirs load_base path root bases used ≢ too_deep
  unfolding merge_bases
  merge_bases-ends load_base path root [] used h = λ e. cc
  merge_bases-ends load_base path root (b ∷ bs) used h =
      >>=-ends (load_base b used) _ (h.0 used) λ (base, used') _.
        elim (Bool-cases (text_eq (lower (name_of base)) (lower (name_of root)))) [
          | inl e ↦ rw e (merge_bases-ends load_base path (merge root base 0) bs used' h.1)
          | inr e ↦ rw e (λ k. cc)
        ]

  -- Every #base of a file that a name resolves to has a lower rank than the name.
  abbrev pub Descends : (Text → ℕ) → Type 0
  Descends rank =
      (name path text : Text) (root : Kv) (bases : List Text)
      → resolve disk dirs name ≡ ok (path, text)
      → read_top path text ≡ ok (root, bases)
      → All (λ b. rank b < rank name) bases

  module _ (rank : Text → ℕ) (descends : Descends rank) where
    -- If every #base has a lower rank than the name that leads to it, loading with more fuel than
    -- the rank of the name ends, in a theater or in an error.
    pub load-ends :
        (fuel : ℕ) (name : Text) (used : List Text)
        → rank name < fuel
        → load disk dirs fuel name used ≢ too_deep
    unfolding load resolve
    load-ends zero name used h = absurd (omega arith)
    load-ends (suc fuel) name used h =
        >>=-ends (resolve disk dirs name) _ (resolve-ends dirs name) λ (path, text) found.
          >>=-ends (read_top path text) _ (read_top-ends path text) λ (root, bases) top.
            merge_bases-ends (λ b u. load disk dirs fuel b u) path root bases (add_used path used)
              (All-imp (λ (b : Text). rank b < rank name) _ bases
                (λ b lower_rank u. load-ends fuel b u (omega arith))
                (descends name path text root bases found top))
