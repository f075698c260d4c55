-- ===== src/Theater/Lexing.antt =====
-- How the lexer reads the pieces that write() and HEADER put out.
use tug.Base.{
  ℕ, zero, suc, ◌+◌, false, [], ◌∷◌, ◌++◌, if◌then◌else◌, ◌==◌, ◌≡◌, refl, append_assoc, append-nil,
  arith, ◌∙◌,
}
use tug.Base.Text.{Text, nl, quote_mark, has_char, has_char-cons, is_space, starts_with}
use tug.Theater.Lexer.{between, comment, quoted, str, open_brace, close_brace, lex}
use tug.Theater.Writer.{tabs, tab}

-- The line that the lexer is on behind s.
abbrev pub end_line : ℕ → Text → ℕ
end_line l [] = l
end_line l (c ∷ s) = end_line (if c == nl then l + 1 else l) s

module _ (path : Text) where
  pub lex-tabs :
      (d l : ℕ) (rest : Text) → lex path between l (tabs d ++ rest) ≡ lex path between l rest
  unfolding lex is_space
  lex-tabs zero l rest = refl
  lex-tabs (suc d) l rest = lex-tabs d l rest

  pub lex-tab : (l : ℕ) (rest : Text) → lex path between l (tab ∷ rest) ≡ lex path between l rest
  unfolding lex is_space
  lex-tab l rest = refl

  pub lex-newline :
      (l : ℕ) (rest : Text) → lex path between l (nl ∷ rest) ≡ lex path between (l + 1) rest
  unfolding lex is_space
  lex-newline l rest = refl

  pub lex-open :
      (l : ℕ) (rest : Text)
      → lex path between l (123 ∷ rest) ≡ open_brace l (lex path between l rest)
  unfolding lex is_space starts_with
  lex-open l rest = refl

  pub lex-close :
      (l : ℕ) (rest : Text)
      → lex path between l (125 ∷ rest) ≡ close_brace l (lex path between l rest)
  unfolding lex is_space starts_with
  lex-close l rest = refl

  -- Up to the next double quote the string is taken raw.
  lex-inside :
      (s acc : Text) (k l : ℕ) (rest : Text)
      → has_char quote_mark s ≡ false
      → lex path (quoted acc k) l (s ++ quote_mark ∷ rest)
        ≡ str (acc ++ s) k (lex path between (end_line l s) rest)
  unfolding lex has_char
  lex-inside [] acc k l rest h = rw append-nil
  lex-inside (c ∷ s) acc k l rest h =
      let (other, inside) = has_char-cons quote_mark c s h in
      rw other (
        lex-inside s (acc ++ c ∷ []) k (if c == nl then l + 1 else l) rest inside ∙ rw append_assoc)

  pub lex-quoted :
      (s : Text) (l : ℕ) (rest : Text)
      → has_char quote_mark s ≡ false
      → lex path between l (quote_mark ∷ (s ++ quote_mark ∷ rest))
        ≡ str s l (lex path between (end_line l s) rest)
  unfolding lex is_space starts_with
  lex-quoted s l rest h = lex-inside s [] l l rest h

  -- A comment reaches to the end of its line.
  lex-in_comment :
      (s : Text) (l : ℕ) (rest : Text)
      → has_char nl s ≡ false
      → lex path comment l (s ++ nl ∷ rest) ≡ lex path between (l + 1) rest
  unfolding lex has_char
  lex-in_comment [] l rest h = refl
  lex-in_comment (c ∷ s) l rest h = ground (arith, lex-in_comment s l rest)

  pub lex-comment :
      (s : Text) (l : ℕ) (rest : Text)
      → has_char nl s ≡ false
      → lex path between l (47 ∷ 47 ∷ (s ++ nl ∷ rest)) ≡ lex path between (l + 1) rest
  unfolding lex is_space starts_with
  lex-comment s l rest h = lex-in_comment s l rest h
