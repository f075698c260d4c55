-- ===== src/Theater/Writer.antt =====
-- quote(), write() and render() of tools/theater-build/build.py.
use tug.Base.{ℕ, zero, suc, [], ◌∷◌, ◌++◌, if◌then◌else◌}
use tug.Base.Text.{Text, codes, nl, quote_mark, has_char}
use tug.Base.Result.{Result, ok, raised, ◌>>=◌}
use tug.Theater.KeyValues.{Kv, Children, leaf, block, nil, cons, Error, has_quote}

abbrev pub tab : ℕ
tab = 9

-- "\t" * depth
abbrev pub tabs : ℕ → Text
tabs zero = []
tabs (suc n) = tab ∷ tabs n

abbrev pub quoted_text : Text → Text
quoted_text s = quote_mark ∷ (s ++ quote_mark ∷ [])

unfoldable pub quote : Text → Result Error Text
quote s = if has_char quote_mark s then raised (has_quote s) else ok (quoted_text s)

-- "%s%s\t%s\n"
abbrev pub leaf_line : ℕ → Text → Text → Text
leaf_line depth n v = tabs depth ++ (n ++ (tab ∷ (v ++ nl ∷ [])))

-- "%s%s\n%s{\n", the children, "%s}\n"
abbrev pub block_lines : ℕ → Text → Text → Text
block_lines depth n body =
    tabs depth ++ (n ++ (nl ∷ (tabs depth ++ (123 ∷ nl ∷ (body ++ (tabs depth ++ 125 ∷ nl ∷ []))))))

-- What write() appends to `out`, joined.
unfoldable mutual
  pub write : Kv → ℕ → Result Error Text
  write (leaf n v) depth = do qn ← quote n; qv ← quote v; ok (leaf_line depth qn qv)
  write (block n cs) depth = do
    qn ← quote n
    body ← write_children cs (suc depth)
    ok (block_lines depth qn body)

  pub write_children : Children → ℕ → Result Error Text
  write_children nil depth = ok []
  write_children (cons c cs) depth = do
    text ← write c depth
    rest ← write_children cs depth
    ok (text ++ rest)

-- The comment lines of HEADER, without their "//" and their newline.
abbrev pub generated_line : Text
generated_line = codes " GENERATED by tools/theater-build/build.py - do not edit."

abbrev pub flattened_line : Text → Text
flattened_line name =
    codes " Flattened from theaters/src/"
    ++ (name ++ codes " and the vendored TUG theaters it #bases (theaters/vendor/).")

abbrev pub edit_line : Text
edit_line =
    codes
      " Edit the source and run `make theater-build`; `make theater-check` fails while this is stale."

abbrev pub comment_line : Text → Text → Text
comment_line s rest = 47 ∷ 47 ∷ (s ++ nl ∷ rest)

-- HEADER % name, and the text that follows it
unfoldable pub header : Text → Text → Text
header name rest =
    comment_line generated_line
      (comment_line [] (comment_line (flattened_line name) (comment_line edit_line rest)))

unfoldable pub render : Text → Kv → Result Error Text
unfolding write quote header
render name root = do text ← write root 0; ok (header name (nl ∷ text))
