-- ===== src/Audit/Pairs.antt =====
-- The key/value pairs that tools/bspaudit/audit.py reads of lines with a pair each.
use tug.Base.{
  ℕ, ◌-◌, false, List, [], ◌∷◌, ◌++◌, Option, none, some, ◌==◌, is_empty, length, length-append,
  ◌≡◌, refl, sym, ap, ◌∙◌, All, append_assoc, arith,
}
use tug.Base.Text.{Text, has_char, is_space}
use tug.Workshop.Refresh.{strip_left}
use tug.Audit.Entities.{findall, before_char, spaces_quote, pair_at}

-- A pair on a line of its own, in front of a text.
unfoldable pub pair_text : Text × Text → Text → Text
pair_text (k, v) x = 34 ∷ (k ++ (34 ∷ 32 ∷ 34 ∷ (v ++ (34 ∷ 10 ∷ x))))

unfoldable pub pairs_text : List (Text × Text) → Text → Text
unfolding pair_text
pairs_text [] x = x
pairs_text (kv ∷ kvs) x = pair_text kv (pairs_text kvs x)

-- No quotes and no braces.
abbrev pub Unquoted : Text → Type 0
Unquoted s = (has_char 34 s ≡ false) × (has_char 123 s ≡ false) × (has_char 125 s ≡ false)

abbrev pub IsPair : Text × Text → Type 0
IsPair (k, v) = (is_empty k ≡ false) × Unquoted k × Unquoted v

module _ {ℓ} {A : Type ℓ} (at : Text → Option (A × Text)) where
  findall-skip : (p s : Text) → findall at (length p) (p ++ s) ≡ findall at 0 s
  unfolding findall
  findall-skip [] [] = refl
  findall-skip [] (c ∷ s) = refl
  findall-skip (c ∷ p) s = findall-skip p s

  pub findall-found :
      (c : ℕ) (p : Text) (a : A) (rest : Text)
      → at (c ∷ (p ++ rest)) ≡ some (a, rest)
      → findall at 0 (c ∷ (p ++ rest)) ≡ a ∷ findall at 0 rest
  unfolding findall
  findall-found c p a rest h =
      let len : length (p ++ rest) - length rest ≡ length p = omega (arith, length-append p rest) in
      rw (findall, h, len) (ap (λ l. a ∷ l) (findall-skip p rest))

  pub findall-past : (c : ℕ) (s : Text) → at (c ∷ s) ≡ none → findall at 0 (c ∷ s) ≡ findall at 0 s
  unfolding findall
  findall-past c s h = rw (findall, h) refl

before_char-append :
    (q : ℕ) (k x : Text) → has_char q k ≡ false → before_char q (k ++ (q ∷ x)) ≡ some (k, x)
unfolding before_char has_char
before_char-append q [] x h = ground arith
before_char-append q (c ∷ k) x h = ground (arith, before_char-append q k x)

pair_at-text :
    (kv : Text × Text) (x : Text) → IsPair kv → pair_at false (pair_text kv x) ≡ some (kv, 10 ∷ x)
unfolding pair_at pair_text spaces_quote strip_left is_space
pair_at-text (k, v) x (filled, (quote_k, _, _), (quote_v, _, _)) =
    rw
      (
        before_char-append 34 k (32 ∷ 34 ∷ (v ++ (34 ∷ 10 ∷ x))) quote_k,
        filled,
        before_char-append 34 v (10 ∷ x) quote_v,
      )
      refl

pub pair_at-other : (c : ℕ) (s : Text) → (c == 34) ≡ false → pair_at false (c ∷ s) ≡ none
unfolding pair_at
pair_at-other c s h = rw h refl

pub findall-pairs_text :
    (kvs : List (Text × Text)) (x : Text)
    → All IsPair kvs
    → findall (pair_at false) 0 (pairs_text kvs x) ≡ kvs ++ findall (pair_at false) 0 x
unfolding pairs_text
findall-pairs_text [] x h = refl
findall-pairs_text ((k, v) ∷ kvs) x (h, hs) =
    let rest = 10 ∷ pairs_text kvs x in
    let p = k ++ (34 ∷ 32 ∷ 34 ∷ (v ++ (34 ∷ []))) in
    let whole : k ++ (34 ∷ 32 ∷ 34 ∷ (v ++ (34 ∷ rest))) ≡ p ++ rest = sym (
      append_assoc k (34 ∷ 32 ∷ 34 ∷ (v ++ (34 ∷ []))) rest
      ∙ ap (λ t. k ++ (34 ∷ 32 ∷ 34 ∷ t)) (append_assoc v (34 ∷ []) rest)) in
    ap (λ t. findall (pair_at false) 0 (34 ∷ t)) whole
    ∙ findall-found (pair_at false) 34 p (k, v) rest
        (ap (λ t. pair_at false (34 ∷ t)) (sym whole) ∙ pair_at-text (k, v) (pairs_text kvs x) h)
    ∙ ap (λ l. (k, v) ∷ l)
        (findall-past (pair_at false) 10 (pairs_text kvs x)
            (pair_at-other 10 (pairs_text kvs x) refl)
          ∙ findall-pairs_text kvs x hs)
