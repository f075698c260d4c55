-- ===== src/Theater/Quotes/Reading.antt =====
-- The strings that the lexer, the parser and the loader of tools/theater-build/build.py produce.
use tug.Base.{
  ℕ, zero, suc, false, List, [], ◌∷◌, ◌++◌, ◌==◌, ◌≡◌, refl, arith, All, Bool-cases, inl, inr,
}
use mathlib.Core.Path.{subst}
use tug.Base.Text.{Text, nl, quote_mark, has_char, has_char-append, is_space, starts_with}
use tug.Base.Result.{Result, ok, >>=-eq-ok, checked-eq-ok}
use tug.Theater.KeyValues.{Kv, Children, leaf, block, nil, cons, Error}
use tug.Theater.Lexer.{
  Stream, open_brace, close_brace, str, Mode, between, comment, quoted, bare, at_char, ends_bare,
  lex, tokens,
}
use tug.Theater.Parser.{parse_children}
use tug.Theater.Merge.{merge}
use tug.Theater.Loader.{
  Disk, blocks_of, stray_of, bases_of, only_block, top_block, read_top, resolve, merge_bases,
  add_used, load,
}
use tug.Theater.Strings.{
  Strings, StringsAll, StreamStrings, parse_children-StringsAll, merge-Strings,
}

abbrev pub QuoteFree : Text → Type 0
QuoteFree s = has_char quote_mark s ≡ false

-- What a mode has read so far.
abbrev ModeFree : Mode → Type 0
ModeFree between = Unit
ModeFree comment = Unit
ModeFree (quoted s l) = QuoteFree s
ModeFree (bare s) = QuoteFree s

record IsFree (toks : Stream) : Type 0 where
  holds : StreamStrings QuoteFree toks

IsFree-str : (s : Text) (l : ℕ) {toks : Stream} → QuoteFree s → IsFree toks → IsFree (str s l toks)
IsFree-str s l hs h = record { holds = (hs, h.holds) }

IsFree-brace :
    (l : ℕ) {toks : Stream} → IsFree toks → IsFree (open_brace l toks) × IsFree (close_brace l toks)
IsFree-brace l h = (record { holds = h.holds }, record { holds = h.holds })

QuoteFree-one : (c : ℕ) → (c == quote_mark) ≡ false → QuoteFree (c ∷ [])
unfolding has_char
QuoteFree-one c h = rw h refl

QuoteFree-snoc :
    (s : Text) (c : ℕ) → QuoteFree s → (c == quote_mark) ≡ false → QuoteFree (s ++ c ∷ [])
QuoteFree-snoc s c hs hc = rw (has_char-append quote_mark s (c ∷ []), hs) (QuoteFree-one c hc)

ends_bare-quote : (c : ℕ) → ends_bare c ≡ false → (c == quote_mark) ≡ false
unfolding ends_bare
ends_bare-quote c h = ground arith

at_char-IsFree :
    (path : Text) (line c : ℕ) (text : Text) (go : Mode → ℕ → Stream)
    → ((m : Mode) (l : ℕ) → ModeFree m → IsFree (go m l))
    → IsFree (at_char path line c text go)
unfolding at_char has_char
at_char-IsFree path line c text go h = elim (Bool-cases (c == nl)) [
  | inl is ↦ rw is (h between _ tt)
  | inr ne ↦ rw ne (elim (Bool-cases (is_space c)) [
    | inl is ↦ rw is (h between _ tt)
    | inr ne ↦ rw ne (elim (Bool-cases (starts_with (47 ∷ 47 ∷ []) text)) [
      | inl is ↦ rw is (h comment _ tt)
      | inr ne ↦ rw ne (elim (Bool-cases (c == 123)) [
        | inl is ↦ rw is ((IsFree-brace line (h between _ tt)).0)
        | inr ne ↦ rw ne (elim (Bool-cases (c == 125)) [
          | inl is ↦ rw is ((IsFree-brace line (h between _ tt)).1)
          | inr ne ↦ rw ne (elim (Bool-cases (c == quote_mark)) [
            | inl is ↦ rw is (h (quoted [] line) _ refl)
            | inr mark ↦ rw mark (elim (Bool-cases (c == 91)) [
              | inl is ↦ rw is (record { holds = tt })
              | inr ne ↦ rw ne (h (bare (c ∷ [])) _ (QuoteFree-one c mark))
            ])
          ])
        ])
      ])
    ])
  ])
]

-- No token holds a double quote.
lex-IsFree :
    (path : Text) (m : Mode) (line : ℕ) (text : Text) → ModeFree m → IsFree (lex path m line text)
unfolding lex
lex-IsFree path between line [] h = record { holds = tt }
lex-IsFree path comment line [] h = record { holds = tt }
lex-IsFree path (quoted s l) line [] h = record { holds = tt }
lex-IsFree path (bare s) line [] h = record { holds = (h, tt) }
lex-IsFree path between line (c ∷ cs) h =
    at_char-IsFree path line c _ _ (λ m l k. lex-IsFree path m l cs k)
lex-IsFree path comment line (c ∷ cs) h = elim (Bool-cases (c == nl)) [
  | inl is ↦ rw is (lex-IsFree path between _ cs tt)
  | inr ne ↦ rw ne (lex-IsFree path comment _ cs tt)
]
lex-IsFree path (quoted s l) line (c ∷ cs) h = elim (Bool-cases (c == quote_mark)) [
  | inl is ↦ rw is (IsFree-str s l h (lex-IsFree path between _ cs tt))
  | inr ne ↦ rw ne (lex-IsFree path (quoted _ l) _ cs (QuoteFree-snoc s c h ne))
]
lex-IsFree path (bare s) line (c ∷ cs) h = elim (Bool-cases (ends_bare c)) [
  | inl is ↦
      rw is
        (IsFree-str s line h (at_char-IsFree path line c _ _ (λ m l k. lex-IsFree path m l cs k)))
  | inr ne ↦ rw ne (lex-IsFree path (bare _) _ cs (QuoteFree-snoc s c h (ends_bare-quote c ne)))
]

-- A tree in which no name and no value holds a double quote.
abbrev pub IsQuoteFree : Kv → Type 0
IsQuoteFree kv = Strings QuoteFree kv

blocks_of-free : (cs : Children) → StringsAll QuoteFree cs → All IsQuoteFree (blocks_of cs)
unfolding blocks_of
blocks_of-free nil h = tt
blocks_of-free (cons (leaf n v) cs) h = blocks_of-free cs h.1
blocks_of-free (cons (block n ds) cs) h = (h.0, blocks_of-free cs h.1)

only_block-free :
    (path : Text) (bs : List Kv) {root : Kv}
    → All IsQuoteFree bs
    → only_block path bs ≡ ok root
    → IsQuoteFree root
unfolding only_block
only_block-free path [] h e = cc
only_block-free path (a ∷ []) h e = subst IsQuoteFree (cc) h.0
only_block-free path (a ∷ b ∷ rest) h e = cc

top_block-free :
    (path : Text) (stray : List Text) (bs : List Kv) {root : Kv}
    → All IsQuoteFree bs
    → top_block path stray bs ≡ ok root
    → IsQuoteFree root
unfolding top_block
top_block-free path [] bs h e = only_block-free path bs h e
top_block-free path (s ∷ ss) bs h e = cc

parsed-free :
    (path text : Text) {top : Children}
    → parse_children path [] nil (tokens text path) ≡ ok top
    → StringsAll QuoteFree top
unfolding tokens
parsed-free path text h =
    parse_children-StringsAll QuoteFree path [] nil _ tt tt
      (lex-IsFree path between 1 text tt).holds h

-- The block that a file holds.
read_top-free :
    (path text : Text) {root : Kv} {bases : List Text}
    → read_top path text ≡ ok (root, bases)
    → IsQuoteFree root
unfolding read_top
read_top-free path text h =
    let (top, parsed, h') = >>=-eq-ok (parse_children path [] nil (tokens text path)) _ h in
    let (root', chosen, e) =
      >>=-eq-ok (top_block path (stray_of top) (blocks_of top))
        (λ (r : Kv). let v : Result Error (Kv × List Text) = ok (r, bases_of top) in v) h' in
    subst IsQuoteFree (cc) (
      top_block-free path (stray_of top) _ (blocks_of-free top (parsed-free path text parsed))
        chosen)

module _ (disk : Disk) (dirs : List Text) where
  abbrev Loads : (Text → List Text → Result Error (Kv × List Text)) → Type 0
  Loads load_base =
      (b : Text) (used : List Text) (base : Kv) (used' : List Text)
      → load_base b used ≡ ok (base, used')
      → IsQuoteFree base

  merge_bases-free :
      (load_base : Text → List Text → Result Error (Kv × List Text)) (path : Text) (root : Kv)
      (bases used : List Text) {merged : Kv} {used' : List Text}
      → Loads load_base
      → IsQuoteFree root
      → merge_bases disk dirs load_base path root bases used ≡ ok (merged, used')
      → IsQuoteFree merged
  unfolding merge_bases
  merge_bases-free load_base path root [] used hl hr h = subst IsQuoteFree (cc) hr
  merge_bases-free load_base path root (b ∷ bs) used hl hr h =
      let ((base, used₁), loaded, h') = >>=-eq-ok (load_base b used) _ h in
      let (named, h'') =
        checked-eq-ok _ (merge_bases disk dirs load_base path (merge root base 0) bs used₁) _ h' in
      merge_bases-free load_base path (merge root base 0) bs used₁ hl
        (merge-Strings QuoteFree root base 0 (hl b used base used₁ loaded) hr) h''

  -- A loaded theater, its bases merged in, holds no double quote.
  pub load-IsQuoteFree :
      (fuel : ℕ) (name : Text) (used : List Text) {root : Kv} {used' : List Text}
      → load disk dirs fuel name used ≡ ok (root, used')
      → IsQuoteFree root
  unfolding load
  load-IsQuoteFree zero name used h = cc
  load-IsQuoteFree (suc fuel) name used h =
      let ((path, text), found, h₁) = >>=-eq-ok (resolve disk dirs name) _ h in
      let ((root, bases), parsed, h₂) = >>=-eq-ok (read_top path text) _ h₁ in
      merge_bases-free (λ b u. load disk dirs fuel b u) path root bases (add_used path used)
        (λ b u base u' e. load-IsQuoteFree fuel b u e) (read_top-free path text parsed) h₂
