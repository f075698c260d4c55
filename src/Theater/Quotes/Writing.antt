-- ===== src/Theater/Quotes/Writing.antt =====
-- Trees without double quotes are written, and the build of a theater ends in a text.
use mathlib.Core.Path.{subst}
use tug.Base.{ap, ℕ, suc, false, List, [], ◌∷◌, ◌++◌, ◌≡◌, refl, Bool-cases, inl, inr}
use tug.Base.Text.{Text, nl, has_char}
use tug.Base.Result.{ok, >>=-eq-ok}
use tug.Theater.KeyValues.{Kv, Children, leaf, block, nil, cons}
use tug.Theater.Lexer.{tokens}
use tug.Theater.Parser.{parse_children}
use tug.Theater.Loader.{Disk, load}
use tug.Theater.Attachments.{
  is_orphan, is_section, keep_attachments, walk, walk_child, walk_definitions, walk_sections,
  Dropped, registered, drop_unregistered, drop_orphan_attachments,
}
use tug.Theater.Writer.{
  quote, quoted_text, leaf_line, block_lines, write, write_children, header, render,
}
use tug.Theater.Build.{build_one}
use tug.Theater.Strings.{Strings, StringsAll}
use tug.Theater.RoundTrip.{parse-render}
use tug.Theater.Quotes.Reading.{QuoteFree, IsQuoteFree, load-IsQuoteFree}

module _ (P : Text → Type 0) (known : List Text) where
  keep-StringsAll :
      (owner section : Text) (atts : Children)
      → StringsAll P atts
      → StringsAll P (keep_attachments known owner section atts).0
  unfolding keep_attachments
  keep-StringsAll owner section nil h = tt
  keep-StringsAll owner section (cons a atts) h = elim (Bool-cases (is_orphan known a)) [
    | inl e ↦ rw e (keep-StringsAll owner section atts h.1)
    | inr e ↦ rw e (h.0, keep-StringsAll owner section atts h.1)
  ]

  mutual
    unfolding walk

    walk-StringsAll :
        (owner : Text) (cs : Children) → StringsAll P cs → StringsAll P (walk known owner cs).0
    walk-StringsAll owner nil h = tt
    walk-StringsAll owner (cons c cs) h =
        (walk_child-Strings owner c h.0, walk-StringsAll owner cs h.1)

    walk_child-Strings :
        (owner : Text) (c : Kv) → Strings P c → Strings P (walk_child known owner c).0
    walk_child-Strings owner (leaf n v) h = h
    walk_child-Strings owner (block n cs) h = elim (Bool-cases (is_section n)) [
      | inl e ↦ rw e (h.0, keep-StringsAll owner n cs h.1)
      | inr e ↦ rw e (h.0, walk-StringsAll owner cs h.1)
    ]

  walk_definitions-StringsAll :
      (ds : Children) → StringsAll P ds → StringsAll P (walk_definitions known ds).0
  unfolding walk_definitions
  walk_definitions-StringsAll nil h = tt
  walk_definitions-StringsAll (cons (leaf n v) ds) h = (h.0, walk_definitions-StringsAll ds h.1)
  walk_definitions-StringsAll (cons (block n cs) ds) h =
      ((h.0.0, walk-StringsAll n cs h.0.1), walk_definitions-StringsAll ds h.1)

  walk_sections-StringsAll :
      (ss : Children) → StringsAll P ss → StringsAll P (walk_sections known ss).0
  unfolding walk_sections
  walk_sections-StringsAll nil h = tt
  walk_sections-StringsAll (cons (leaf n v) ss) h = (h.0, walk_sections-StringsAll ss h.1)
  walk_sections-StringsAll (cons (block n ds) ss) h =
      ((h.0.0, walk_definitions-StringsAll ds h.0.1), walk_sections-StringsAll ss h.1)

unregistered-IsQuoteFree :
    (known : List Text) (root : Kv)
    → IsQuoteFree root
    → IsQuoteFree (drop_unregistered known root).0
unfolding drop_unregistered
unregistered-IsQuoteFree known (leaf n v) h = h
unregistered-IsQuoteFree known (block n ss) h =
    (h.0, walk_sections-StringsAll QuoteFree known ss h.1)

drop-IsQuoteFree :
    (root kept : Kv) (report : List Dropped)
    → drop_orphan_attachments root ≡ ok (kept, report)
    → IsQuoteFree root
    → IsQuoteFree kept
unfolding drop_orphan_attachments
drop-IsQuoteFree root kept report h free =
    let (known, e, done) = >>=-eq-ok (registered root) _ h in
    let pair : Path (Kv × List Dropped) (drop_unregistered known root) (kept, report) = cc in
    subst IsQuoteFree (ap (λ (p : Kv × List Dropped). p.0) pair)
      (unregistered-IsQuoteFree known root free)

quote-ok : (s : Text) → QuoteFree s → quote s ≡ ok (quoted_text s)
unfolding quote
quote-ok s h = rw h

-- Both are written, at every depth.
mutual
  unfolding write

  write-ok : (kv : Kv) (d : ℕ) → IsQuoteFree kv → (text : Text) × (write kv d ≡ ok text)
  write-ok (leaf n v) d h =
      (leaf_line d (quoted_text n) (quoted_text v), rw (quote-ok n h.0, quote-ok v h.1))
  write-ok (block n cs) d h =
      let (body, e) = write_children-ok cs (suc d) h.1 in
      (block_lines d (quoted_text n) body, rw (quote-ok n h.0, e))

  write_children-ok :
      (cs : Children) (d : ℕ)
      → StringsAll QuoteFree cs
      → (text : Text) × (write_children cs d ≡ ok text)
  write_children-ok nil d h = ([], refl)
  write_children-ok (cons c cs) d h =
      let (s, e) = write-ok c d h.0 in
      let (t, e') = write_children-ok cs d h.1 in (s ++ t, rw (e, e'))

render-ok : (name : Text) (kv : Kv) → IsQuoteFree kv → (text : Text) × (render name kv ≡ ok text)
unfolding render
render-ok name kv h = let (body, e) = write-ok kv 0 h in (header name (nl ∷ body), rw e)

-- If loading an entry point succeeds, with any fuel, its file name has no newline, and the clean-up of
-- the loaded theater succeeds (it raises only where "weapons" is no block), then building it succeeds
-- too (quote() never raises): the text parses back, under any path, to exactly the theater that the
-- clean-up leaves, and the report is that of the clean-up.
pub build_one-load :
    (disk : Disk) (dirs : List Text) (fuel : ℕ) (name path : Text) (root : Kv) (used : List Text)
    (kept : Kv) (report : List Dropped)
    → has_char nl name ≡ false
    → load disk dirs fuel name [] ≡ ok (root, used)
    → drop_orphan_attachments root ≡ ok (kept, report)
    → (text : Text) × (build_one disk dirs fuel name
        ≡ ok (record { name = name; text = text; dropped = report }))
      × (parse_children path [] nil (tokens text path) ≡ ok (cons kept nil))
unfolding build_one
build_one-load disk dirs fuel name path root used kept report one_line h cleaned =
    let free =
      drop-IsQuoteFree root kept report cleaned (load-IsQuoteFree disk dirs fuel name [] h) in
    let (text, e) = render-ok name kept free in
    (text, rw (h, cleaned, e), parse-render path name kept text one_line e)
