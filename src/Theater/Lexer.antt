-- ===== src/Theater/Lexer.antt =====
-- tokens() of tools/theater-build/build.py. The generator is a lazy list: what it yields, and its
-- end or the error that it raises when the parser asks for more than it can give.
-- The index loop is one pass over the characters; `Mode` is the inner search that the loop is in
-- (text.find for a comment and a quoted string, the inner while for a bare string).
use tug.Base.{ℕ, ◌+◌, Bool, ◌||◌, [], ◌∷◌, ◌++◌, if◌then◌else◌, ◌==◌}
use tug.Base.Text.{Text, nl, quote_mark, is_space, starts_with}
use tug.Theater.KeyValues.{Error, unterminated, conditional}

pub data Stream : Type 0 where
  done : Stream
  fails : Error → Stream
  open_brace : ℕ → Stream → Stream
  close_brace : ℕ → Stream → Stream
  str : Text → ℕ → Stream → Stream

-- `quoted s l`: inside a quoted string that began on line l, s read so far.
pub data Mode : Type 0 where
  between comment : Mode
  quoted : Text → ℕ → Mode
  bare : Text → Mode

-- text[j].isspace() or text[j] in '{}"'
unfoldable pub ends_bare : ℕ → Bool
ends_bare c = is_space c || c == 123 || c == 125 || c == quote_mark

-- One round of the outer loop at the character c, with the text from it on; `go` reads on behind c.
unfoldable pub at_char : Text → ℕ → ℕ → Text → (Mode → ℕ → Stream) → Stream
at_char path line c text go =
    if c == nl
    then go between (line + 1)
    else if is_space c
    then go between line
    else if starts_with (47 ∷ 47 ∷ []) text
    then go comment line
    else if c == 123
    then open_brace line (go between line)
    else if c == 125
    then close_brace line (go between line)
    else if c == quote_mark
    then go (quoted [] line) line
    else if c == 91
    then fails (conditional path line)
    else go (bare (c ∷ [])) line

unfoldable pub lex : Text → Mode → ℕ → Text → Stream
unfolding at_char ends_bare
lex path between line [] = done
lex path comment line [] = done
lex path (quoted s l) line [] = fails (unterminated path l)
lex path (bare s) line [] = str s line done
lex path between line (c ∷ cs) = at_char path line c (c ∷ cs) (λ m l. lex path m l cs)
lex path comment line (c ∷ cs) =
    let here = lex path between (line + 1) cs in
    let on = lex path comment line cs in if c == nl then here else on
lex path (quoted s l) line (c ∷ cs) =
    let end = lex path between line cs in
    let on = lex path (quoted (s ++ c ∷ []) l) (if c == nl then line + 1 else line) cs in
    if c == quote_mark then str s l end else on
lex path (bare s) line (c ∷ cs) =
    let on = lex path (bare (s ++ c ∷ [])) line cs in
    if ends_bare c then str s line (at_char path line c (c ∷ cs) (λ m l. lex path m l cs)) else on

-- tokens(text, path)
unfoldable pub tokens : Text → Text → Stream
unfolding lex
tokens text path = lex path between 1 text
