-- ===== src/Audit/Lump.antt =====
-- The entities that tools/bspaudit/audit.py reads of an entity lump as the map compiler writes it.
use tug.Base.{
  ℕ, false, List, [], ◌∷◌, ◌++◌, map, Option, none, some, ◌==◌, ◌≡◌, refl, sym, ap, ◌∙◌, inl, inr,
  All, Option-cases, append_assoc, append-nil, arith,
}
use tug.Base.Text.{Text, has_char, has_char-append}
use tug.Audit.Entities.{findall, pair_at, block_end, block_at, dict_from, entities_of}
use tug.Audit.Pairs.{
  pair_text, pairs_text, IsPair, findall-found, findall-past, pair_at-other, findall-pairs_text,
}

-- Entities, each between braces.
unfoldable pub lump_text : List (List (Text × Text)) → Text
unfolding pairs_text
lump_text [] = []
lump_text (kvs ∷ entities) = 123 ∷ 10 ∷ pairs_text kvs (125 ∷ 10 ∷ lump_text entities)

-- A text without braces.
abbrev Unbraced : Text → Type 0
Unbraced s = (has_char 123 s ≡ false) × (has_char 125 s ≡ false)

abbrev in_front : Text → Option (Text × Text) → Option (Text × Text)
in_front s none = none
in_front s (some (head, tail)) = some (s ++ head, tail)

in_front-in_front :
    (s t : Text) (o : Option (Text × Text)) → in_front s (in_front t o) ≡ in_front (s ++ t) o
in_front-in_front s t none = refl
in_front-in_front s t (some (head, tail)) = ap (λ h. some (h, tail)) (sym (append_assoc s t head))

block_end-cons :
    (c : ℕ) (s : Text)
    → (c == 123) ≡ false
    → (c == 125) ≡ false
    → block_end (c ∷ s) ≡ in_front (c ∷ []) (block_end s)
unfolding block_end
block_end-cons c s opened closed = elim (Option-cases (block_end s)) [
  | inl nowhere ↦ rw (block_end, closed, opened, nowhere) refl
  | inr (at, found) ↦ rw (block_end, closed, opened, found) refl
]

in_front-nil : (o : Option (Text × Text)) → o ≡ in_front [] o
in_front-nil none = refl
in_front-nil (some (head, tail)) = refl

block_end-append : (s x : Text) → Unbraced s → block_end (s ++ x) ≡ in_front s (block_end x)
unfolding has_char
block_end-append [] x h = in_front-nil (block_end x)
block_end-append (c ∷ s) x (opened, closed) =
    block_end-cons c (s ++ x) (ground (arith, opened)) (ground (arith, closed))
    ∙ ap (in_front (c ∷ [])) (block_end-append s x (ground (arith, opened), ground (arith, closed)))
    ∙ in_front-in_front (c ∷ []) s (block_end x)

pair_text-append : (kv : Text × Text) (x : Text) → pair_text kv x ≡ pair_text kv [] ++ x
unfolding pair_text
pair_text-append (k, v) x =
    ap (λ t. 34 ∷ t)
      (ap (λ t. k ++ (34 ∷ 32 ∷ 34 ∷ t)) (sym (append_assoc v (34 ∷ 10 ∷ []) x))
        ∙ sym (append_assoc k (34 ∷ 32 ∷ 34 ∷ (v ++ (34 ∷ 10 ∷ []))) x))

pair_text-Unbraced : (kv : Text × Text) → IsPair kv → Unbraced (pair_text kv [])
unfolding pair_text has_char
pair_text-Unbraced (k, v) (filled, (_, open_k, close_k), (_, open_v, close_v)) = (
  rw
      (
        has_char-append 123 k (34 ∷ 32 ∷ 34 ∷ (v ++ (34 ∷ 10 ∷ []))),
        open_k,
        has_char-append 123 v (34 ∷ 10 ∷ []),
        open_v,
      )
      refl,
  rw
      (
        has_char-append 125 k (34 ∷ 32 ∷ 34 ∷ (v ++ (34 ∷ 10 ∷ []))),
        close_k,
        has_char-append 125 v (34 ∷ 10 ∷ []),
        close_v,
      )
      refl,
)

pairs_text-append :
    (kvs : List (Text × Text)) (x : Text) → pairs_text kvs x ≡ pairs_text kvs [] ++ x
unfolding pairs_text
pairs_text-append [] x = refl
pairs_text-append (kv ∷ kvs) x =
    ap (pair_text kv) (pairs_text-append kvs x)
    ∙ pair_text-append kv (pairs_text kvs [] ++ x)
    ∙ sym (append_assoc (pair_text kv []) (pairs_text kvs []) x)
    ∙ ap (λ t. t ++ x) (sym (pair_text-append kv (pairs_text kvs [])))

block_end-pairs_text :
    (kvs : List (Text × Text)) (x : Text)
    → All IsPair kvs
    → block_end (pairs_text kvs (125 ∷ x)) ≡ some (pairs_text kvs (125 ∷ []), x)
unfolding pairs_text block_end
block_end-pairs_text [] x h = refl
block_end-pairs_text (kv ∷ kvs) x (h, hs) =
    ap block_end (pair_text-append kv (pairs_text kvs (125 ∷ x)))
    ∙ block_end-append (pair_text kv []) (pairs_text kvs (125 ∷ x)) (pair_text-Unbraced kv h)
    ∙ ap (in_front (pair_text kv [])) (block_end-pairs_text kvs x hs)
    ∙ ap (λ t. some (t, x)) (sym (pair_text-append kv (pairs_text kvs (125 ∷ []))))

block_at-entity :
    (kvs : List (Text × Text)) (x : Text)
    → All IsPair kvs
    → block_at (123 ∷ 10 ∷ pairs_text kvs (125 ∷ x))
      ≡ some (123 ∷ 10 ∷ pairs_text kvs (125 ∷ []), x)
unfolding block_at
block_at-entity kvs x h =
    rw (block_end-cons 10 (pairs_text kvs (125 ∷ x)) refl refl, block_end-pairs_text kvs x h) refl

block_at-other : (c : ℕ) (s : Text) → (c == 123) ≡ false → block_at (c ∷ s) ≡ none
unfolding block_at
block_at-other c s h = rw h refl

-- The text of an entity, as a block.
abbrev block_of : List (Text × Text) → Text
block_of kvs = 123 ∷ 10 ∷ pairs_text kvs (125 ∷ [])

findall-lump_text :
    (entities : List (List (Text × Text)))
    → All (All IsPair) entities
    → findall block_at 0 (lump_text entities) ≡ map block_of entities
unfolding lump_text findall
findall-lump_text [] h = refl
findall-lump_text (kvs ∷ entities) (h, hs) =
    let rest = 10 ∷ lump_text entities in
    let p = 10 ∷ (pairs_text kvs [] ++ (125 ∷ [])) in
    let whole : 10 ∷ pairs_text kvs (125 ∷ rest) ≡ p ++ rest =
      ap (λ t. 10 ∷ t)
        (pairs_text-append kvs (125 ∷ rest)
          ∙ sym (append_assoc (pairs_text kvs []) (125 ∷ []) rest)) in
    ap (λ t. findall block_at 0 (123 ∷ t)) whole
    ∙ findall-found block_at 123 p (block_of kvs) rest
        (ap (λ t. block_at (123 ∷ t)) (sym whole) ∙ block_at-entity kvs rest h)
    ∙ ap (λ l. block_of kvs ∷ l)
        (findall-past block_at 10 (lump_text entities) (block_at-other 10 (lump_text entities) refl)
          ∙ findall-lump_text entities hs)

pairs_of-block :
    (kvs : List (Text × Text)) → All IsPair kvs → findall (pair_at false) 0 (block_of kvs) ≡ kvs
unfolding findall
pairs_of-block kvs h =
    findall-past (pair_at false) 123 (10 ∷ pairs_text kvs (125 ∷ []))
      (pair_at-other 123 (10 ∷ pairs_text kvs (125 ∷ [])) refl)
    ∙ findall-past (pair_at false) 10 (pairs_text kvs (125 ∷ []))
        (pair_at-other 10 (pairs_text kvs (125 ∷ [])) refl)
    ∙ findall-pairs_text kvs (125 ∷ []) h
    ∙ ap (λ l. kvs ++ l) (findall-past (pair_at false) 125 [] (pair_at-other 125 [] refl))
    ∙ append-nil kvs

dicts_of-blocks :
    (entities : List (List (Text × Text)))
    → All (All IsPair) entities
    → map (λ block. dict_from [] (findall (pair_at false) 0 block)) (map block_of entities)
      ≡ map (dict_from []) entities
dicts_of-blocks [] h = refl
dicts_of-blocks (kvs ∷ entities) (h, hs) =
    rw (pairs_of-block kvs h) (ap (λ l. dict_from [] kvs ∷ l) (dicts_of-blocks entities hs))

-- From an entity lump in which every entity stands between braces, a pair a line, the audit reads exactly
-- those entities, each as the dict of its pairs, if no key is empty and no key or value holds a quote or
-- a brace.
pub entities_of-lump_text :
    (entities : List (List (Text × Text)))
    → All (All IsPair) entities
    → entities_of (lump_text entities) ≡ map (dict_from []) entities
unfolding entities_of
entities_of-lump_text entities h =
    ap (map (λ block. dict_from [] (findall (pair_at false) 0 block)))
      (findall-lump_text entities h)
    ∙ dicts_of-blocks entities h
