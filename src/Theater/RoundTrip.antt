-- ===== src/Theater/RoundTrip.antt =====
-- What write() and render() put out is read back by the lexer and the parser as the same tree.
use tug.Base.{
  ℕ, suc, ◌+◌, false, List, [], ◌∷◌, ◌++◌, ◌≡◌, refl, append_assoc, append-nil, arith, ◌∙◌,
}
use mathlib.Core.Path.{subst}
use tug.Base.Text.{Text, nl, quote_mark, has_char, has_char-append}
use tug.Base.Result.{ok, >>=-eq-ok}
use tug.Theater.KeyValues
use tug.Theater.KeyValues.{Kv, Children, leaf, block, nil, cons, snoc, ◌+++◌, Error}
use tug.Theater.Lexer.{between, lex, tokens}
use tug.Theater.Parser.{Frame, parse_children}
use tug.Theater.Writer.{
  tabs, quoted_text, quote, leaf_line, block_lines, write, write_children, header, generated_line,
  flattened_line, edit_line, render,
}
use tug.Theater.Lexing.{
  end_line, lex-tabs, lex-tab, lex-newline, lex-open, lex-close, lex-quoted, lex-comment,
}

-- What quote() returns is the text between two marks, and the text has none itself.
pub quote-eq-ok :
    (s : Text) {q : Text} → quote s ≡ ok q → (has_char quote_mark s ≡ false) × (quoted_text s ≡ q)
unfolding quote
quote-eq-ok s h = ground arith

nil-append : (cs : Children) → nil +++ cs ≡ cs
unfolding ◌+++◌
nil-append cs = refl

module _ (path : Text) where
  -- From `text` on the parser reads `cs` and goes on with what follows, on some later line.
  abbrev ReadsAs : Children → Text → Type 0
  ReadsAs cs text =
      (frames : List Frame) (out : Children) (l : ℕ) (rest : Text)
      → (l' : ℕ) × (parse_children path frames out (lex path between l (text ++ rest))
          ≡ parse_children path frames (out +++ cs) (lex path between l' rest))

  ReadsAs-leaf :
      (d : ℕ) (n v : Text)
      → has_char quote_mark n ≡ false
      → has_char quote_mark v ≡ false
      → ReadsAs (cons (leaf n v) nil) (leaf_line d (quoted_text n) (quoted_text v))
  unfolding parse_children
  ReadsAs-leaf d n v hn hv frames out l rest = (
    end_line (end_line l n) v + 1,
    simp (
      append_assoc,
      lex-tabs,
      lex-quoted path n _ _ hn,
      lex-tab,
      lex-quoted path v _ _ hv,
      lex-newline,
    ),
  )

  ReadsAs-block :
      (d : ℕ) (n : Text) (cs : Children) (body : Text)
      → has_char quote_mark n ≡ false
      → ReadsAs cs body
      → ReadsAs (cons (block n cs) nil) (block_lines d (quoted_text n) body)
  unfolding parse_children
  ReadsAs-block d n cs body hn ih frames out l rest =
      let frame : Frame = record { key = n; out = out } in
      let (l', inner) =
        ih (frame ∷ frames) nil (end_line l n + 1 + 1) (tabs d ++ (125 ∷ nl ∷ rest)) in
      (
        l' + 1,
        simp (append_assoc, lex-tabs, lex-quoted path n _ _ hn, lex-newline, lex-open)
            (inner ∙ simp (nil-append, lex-tabs, lex-close, lex-newline)),
      )

  ReadsAs-nil : ReadsAs nil []
  ReadsAs-nil frames out l rest = (l, rw KeyValues.append_nil)

  ReadsAs-append :
      (cs ds : Children) (s t : Text) → ReadsAs cs s → ReadsAs ds t → ReadsAs (cs +++ ds) (s ++ t)
  ReadsAs-append cs ds s t hs ht frames out l rest =
      let (m, first) = hs frames out l (t ++ rest) in
      let (l', second) = ht frames (out +++ cs) m rest in
      (l', rw append_assoc (first ∙ second ∙ rw KeyValues.append_assoc))

  ReadsAs-cons :
      (c : Kv) (cs : Children) (s t : Text)
      → ReadsAs (cons c nil) s
      → ReadsAs cs t
      → ReadsAs (cons c cs) (s ++ t)
  unfolding ◌+++◌
  ReadsAs-cons c cs s t hs ht = ReadsAs-append (cons c nil) cs s t hs ht

mutual
  unfolding write

  write-ReadsAs :
      (path : Text) (kv : Kv) (d : ℕ) (text : Text)
      → write kv d ≡ ok text
      → ReadsAs path (cons kv nil) text
  write-ReadsAs path (leaf n v) d text h =
      let (qn, en, hv) = >>=-eq-ok (quote n) _ h in
      let (qv, ev, e) = >>=-eq-ok (quote v) _ hv in
      let (pn, tn) = quote-eq-ok n en in
      let (pv, tv) = quote-eq-ok v ev in
      subst (ReadsAs path (cons (leaf n v) nil)) (cc) (ReadsAs-leaf path d n v pn pv)
  write-ReadsAs path (block n cs) d text h =
      let (qn, en, hb) = >>=-eq-ok (quote n) _ h in
      let (body, eb, e) = >>=-eq-ok (write_children cs (suc d)) _ hb in
      let (pn, tn) = quote-eq-ok n en in
      let inner = write_children-ReadsAs path cs (suc d) body eb in
      subst (ReadsAs path (cons (block n cs) nil)) (cc) (ReadsAs-block path d n cs body pn inner)

  write_children-ReadsAs :
      (path : Text) (cs : Children) (d : ℕ) (text : Text)
      → write_children cs d ≡ ok text
      → ReadsAs path cs text
  write_children-ReadsAs path nil d text h =
      subst (ReadsAs path nil) {x = []} (cc) (ReadsAs-nil path)
  write_children-ReadsAs path (cons c cs) d text h =
      let (s, es, hr) = >>=-eq-ok (write c d) _ h in
      let (t, et, e) = >>=-eq-ok (write_children cs d) _ hr in
      subst (ReadsAs path (cons c cs)) (cc) (
        ReadsAs-cons path c cs s t (write-ReadsAs path c d s es)
          (write_children-ReadsAs path cs d t et))

-- The whole text parses to the one block, from any line.
write-parse :
    (path : Text) (kv : Kv) (d : ℕ) (text : Text) (l : ℕ)
    → write kv d ≡ ok text
    → parse_children path [] nil (lex path between l text) ≡ ok (cons kv nil)
unfolding lex parse_children ◌+++◌
write-parse path kv d text l h =
    let (l', e) = write-ReadsAs path kv d text h [] nil l [] in rw (append-nil) at e

-- A file name without a newline leaves its line of the header one line.
flattened_line-one_line :
    (name : Text) → has_char nl name ≡ false → has_char nl (flattened_line name) ≡ false
unfolding has_char
flattened_line-one_line name h = rw (has_char-append nl name _, h) refl

-- The header is comment lines, which leave no token.
lex-header :
    (path name text : Text)
    → has_char nl name ≡ false
    → lex path between 1 (header name (nl ∷ text)) ≡ lex path between 6 text
unfolding header has_char
lex-header path name text h =
    lex-comment path generated_line 1 _ refl
    ∙ lex-comment path [] 2 _ refl
    ∙ lex-comment path (flattened_line name) 3 _ (flattened_line-one_line name h)
    ∙ lex-comment path edit_line 4 _ refl
    ∙ lex-newline path 5 text

tokens-lex : (text path : Text) → tokens text path ≡ lex path between 1 text
unfolding tokens
tokens-lex text path = refl

-- If rendering a tree succeeds, under a file name without a newline, then the rendered text
-- parses, whatever the path, and the result is exactly that tree.
pub parse-render :
    (path name : Text) (kv : Kv) (text : Text)
    → has_char nl name ≡ false
    → render name kv ≡ ok text
    → parse_children path [] nil (tokens text path) ≡ ok (cons kv nil)
unfolding render
parse-render path name kv text one_line h =
    let (body, written, e) = >>=-eq-ok (write kv 0) _ h in
    let body_parses = write-parse path kv 0 body 6 written in
    subst (λ t. parse_children path [] nil (tokens t path) ≡ ok (cons kv nil))
      {x = header name (nl ∷ body)} (cc)
      (rw (tokens-lex, lex-header path name body one_line) body_parses)
