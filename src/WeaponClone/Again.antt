-- ===== src/WeaponClone/Again.antt =====
-- A second run of tools/weapon-clone/generate.py on what the first one wrote.
use tug.Base.{
  List, [], ◌∷◌, ◌++◌, Option, some, length, ◌≡◌, refl, sym, ap, ◌∙◌, append_assoc, append-nil,
}
use mathlib.Core.Path.{subst}
use tug.Base.Text.{Text, nl}
use tug.Base.Bytes.{take, take-length_append}
use tug.Base.Split.{split_once, split_once-append, split_once-again}
use tug.Base.Result.{ok}
use tug.WeaponClone.{Node, line_indent, last_line}
use tug.WeaponClone.Generate.{
  Upgrades, Restated, clones, begin_mark, end_mark, build_clones, body_of, generate,
}

take-length : (s : Text) → take (length s) s ≡ s
take-length s = subst (λ t. take (length s) t ≡ s) (append-nil s) (take-length_append s [])

-- The indent of the begin mark is that of the text in front of it.
line_indent-prefix :
    (before rest : Text)
    → line_indent (before ++ rest) (length before) ≡ line_indent before (length before)
unfolding line_indent
line_indent-prefix before rest =
    ap last_line (take-length_append before rest ∙ sym (take-length before))

module _ (find : Node → Text → Option Node) (text_of : Node → Text → Text) where
  -- What a run writes up to the end mark.
  abbrev pub block_of : Text → List Restated → Text
  block_of before items =
      let indent = line_indent before (length before) in
      before
      ++ (begin_mark ++ (nl ∷ (nl ∷ (body_of find text_of indent items ++ (nl ∷ (nl ∷ indent))))))

  block_of-append :
      (before after : Text) (items : List Restated)
      → let indent = line_indent before (length before) in
        before
          ++ (begin_mark
              ++ (nl
                  ∷ (nl
                      ∷ (body_of find text_of indent items
                          ++ (nl ∷ (nl ∷ (indent ++ (end_mark ++ after))))))))
        ≡ block_of before items ++ (end_mark ++ after)
  block_of-append before after items =
      let indent = line_indent before (length before) in
      let body = body_of find text_of indent items in
      rw
        (
          append_assoc before (begin_mark ++ (nl ∷ (nl ∷ (body ++ (nl ∷ (nl ∷ indent))))))
              (end_mark ++ after),
          append_assoc body (nl ∷ (nl ∷ indent)) (end_mark ++ after),
        )
        refl

  generate-written :
      (theater : Text → Upgrades) (src before rest front after : Text) (items : List Restated)
      → split_once begin_mark src ≡ some (before, rest)
      → split_once end_mark src ≡ some (front, after)
      → build_clones find text_of clones (theater (before ++ after)) ≡ ok items
      → generate find text_of theater src ≡ ok (block_of before items ++ (end_mark ++ after))
  unfolding generate
  generate-written theater src before rest front after items begins ends built =
      let indented : line_indent src (length before) ≡ line_indent before (length before) =
        subst (λ t. line_indent t (length before) ≡ line_indent before (length before))
          (split_once-append begin_mark src before rest begins)
          (line_indent-prefix before (begin_mark ++ rest)) in
      rw (generate, begins, ends, built, indented) (ap ok (block_of-append before after items))

  -- Where a source has both marks, and the definitions read of it without the generated block are
  -- restated without an error, a run replaces that block and keeps all that is in front of the begin
  -- mark and behind the end mark. If what it writes before the end mark does not hold that mark, a
  -- second run reads the same definitions and writes the same text again.
  pub generate-again :
      (theater : Text → Upgrades) (src before rest front after : Text) (items : List Restated)
      → split_once begin_mark src ≡ some (before, rest)
      → split_once end_mark src ≡ some (front, after)
      → build_clones find text_of clones (theater (before ++ after)) ≡ ok items
      → split_once end_mark (block_of before items ++ end_mark) ≡ some (block_of before items, [])
      → let written = block_of before items ++ (end_mark ++ after) in
        (generate find text_of theater src ≡ ok written)
        × (generate find text_of theater written ≡ ok written)
  generate-again theater src before rest front after items begins ends built clean =
      let indent = line_indent before (length before) in
      let written = block_of before items ++ (end_mark ++ after) in
      let inner =
        nl
        ∷ (nl
            ∷ (body_of find text_of indent items
                ++ (nl ∷ (nl ∷ (indent ++ (end_mark ++ after)))))) in
      let begins' : split_once begin_mark written ≡ some (before, inner) =
        subst (λ t. split_once begin_mark t ≡ some (before, inner))
          (block_of-append before after items)
          (split_once-again begin_mark src before rest inner begins) in
      let ends' : split_once end_mark written ≡ some (block_of before items, after) =
        split_once-again end_mark (block_of before items ++ end_mark) (block_of before items) []
          after clean in
      (
        generate-written theater src before rest front after items begins ends built,
        generate-written theater written before inner (block_of before items) after items begins'
            ends' built,
      )
