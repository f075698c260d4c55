-- ===== src/Workshop/Lock/Filling.antt =====
-- What the loops of partition() gather under a key, said of the items and not of the loops.
use tug.Base.{
  ℕ, Bool, false, List, [], ◌∷◌, ◌++◌, map, if◌then◌else◌, Option, none, some, keep_if, ◌≡◌, refl,
  arith, ◌∙◌, sym, Bool-cases, inl, inr, append_assoc, append-nil,
}
use tug.Base.Text.{Text, text_eq, text_eq_iff, text_lt}
use tug.Base.Sort.{sorted}
use tug.Base.Dict
use tug.Base.Dict.{Dict, append_to, get-update}
use tug.Base.SortedDict.{get-sorted, text_lt_irrefl}
use tug.Base.Result.{ok, raised, too_deep, >>=-eq-ok}
use tug.Workshop.Lock.{
  Item, group_of, key_of, group_items, fill_buckets, id_lt, sort_ids, sort_buckets,
}

-- d.get(k, [])
abbrev pub list_at {ℓ} : {A : Type ℓ} → Option (List A) → List A
list_at none = []
list_at (some xs) = xs

list_at-some :
    {A : Type 0} (x : A) (o : Option (List A))
    → elim o [ none ↦ x ∷ [] | some xs ↦ xs ++ x ∷ [] ] ≡ list_at o ++ x ∷ []
list_at-some x none = refl
list_at-some x (some xs) = refl

list_at-append_to :
    {A : Type 0} (k j : Text) (x : A) (d : Dict (List A))
    → list_at (Dict.get j (append_to k x d))
      ≡ list_at (Dict.get j d) ++ (if text_eq k j then x ∷ [] else [])
unfolding append_to
list_at-append_to k j x d =
    rw (get-update k j (λ o. elim o [ none ↦ x ∷ [] | some xs ↦ xs ++ x ∷ [] ]) d)
      (elim (Bool-cases (text_eq k j)) [
        | inl e ↦ rw (e, sym ((text_eq_iff k j).0 e)) (list_at-some x (Dict.get k d))
        | inr ne ↦ rw (ne, append-nil (list_at (Dict.get j d))) refl
      ])

-- The entries whose key is k.
unfoldable pub has_key : (Text → ℕ) → ℕ → ℕ → Text → Text × Item → Bool
has_key digest solo count k entry = elim (key_of digest solo count entry) [
  | ok key ↦ text_eq key k
  | raised _ ↦ false
  | too_deep ↦ false
]

abbrev pub id_of : Text × Item → Text
id_of e = e.0

has_key-at :
    (digest : Text → ℕ) (solo count : ℕ) (k key : Text) (entry : Text × Item)
    → key_of digest solo count entry ≡ ok key
    → has_key digest solo count k entry ≡ text_eq key k
unfolding has_key
has_key-at digest solo count k key entry at = rw (has_key, at) refl

fill_buckets-step :
    (digest : Text → ℕ) (solo count : ℕ) (k key : Text) (entry : Text × Item)
    (entries : List (Text × Item)) (d d' : Dict (List Text))
    → key_of digest solo count entry ≡ ok key
    → list_at (Dict.get k d')
      ≡ list_at (Dict.get k (append_to key (entry.0) d))
        ++ map id_of (keep_if (has_key digest solo count k) entries)
    → list_at (Dict.get k d')
      ≡ list_at (Dict.get k d)
        ++ map id_of (keep_if (has_key digest solo count k) (entry ∷ entries))
fill_buckets-step digest solo count k key entry entries d d' at ih =
    ih
    ∙ rw
        (
          list_at-append_to key k (entry.0) d,
          has_key-at digest solo count k key entry at,
          append_assoc (list_at (Dict.get k d)) (if text_eq key k then entry.0 ∷ [] else [])
              (map id_of (keep_if (has_key digest solo count k) entries)),
        )
        (elim (Bool-cases (text_eq key k)) [ inl e ↦ rw e refl | inr ne ↦ rw ne refl ])

pub fill_buckets-list_at :
    (digest : Text → ℕ) (solo count : ℕ) (k : Text) (entries : List (Text × Item))
    (d d' : Dict (List Text))
    → fill_buckets digest solo count d entries ≡ ok d'
    → list_at (Dict.get k d')
      ≡ list_at (Dict.get k d) ++ map id_of (keep_if (has_key digest solo count k) entries)
unfolding fill_buckets
fill_buckets-list_at digest solo count k [] d d' h =
    ground (arith, append-nil (list_at (Dict.get k d)))
fill_buckets-list_at digest solo count k (entry ∷ entries) d d' h =
    let (key, at, rest) =
      >>=-eq-ok (key_of digest solo count entry)
        (λ key. fill_buckets digest solo count (append_to key (entry.0) d) entries) h in
    fill_buckets-step digest solo count k key entry entries d d' at
      (fill_buckets-list_at digest solo count k entries (append_to key (entry.0) d) d' rest)

-- The entries whose item is in the group.
abbrev pub in_group : Text → Text × Item → Bool
in_group g e = text_eq (group_of (e.1).servers) g

pub group_items-list_at :
    (g : Text) (items : Dict Item) (groups : Dict (List (Text × Item)))
    → list_at (Dict.get g (group_items groups items))
      ≡ list_at (Dict.get g groups) ++ keep_if (in_group g) items
unfolding group_items
group_items-list_at g [] groups = sym (append-nil (list_at (Dict.get g groups)))
group_items-list_at g ((i, item) ∷ items) groups =
    group_items-list_at g items (append_to (group_of item.servers) (i, item) groups)
    ∙ rw
        (
          list_at-append_to (group_of item.servers) g (i, item) groups,
          append_assoc (list_at (Dict.get g groups))
              (if text_eq (group_of item.servers) g then (i, item) ∷ [] else [])
              (keep_if (in_group g) items),
        )
        (elim (Bool-cases (text_eq (group_of item.servers) g)) [
          | inl e ↦ rw e refl
          | inr ne ↦ rw ne refl
        ])

list_at-sort_ids :
    (k : Text) (d : Dict (List Text))
    → list_at (Dict.get k (sort_ids d)) ≡ sorted id_lt (list_at (Dict.get k d))
unfolding sort_ids sorted Dict.get
list_at-sort_ids k [] = refl
list_at-sort_ids k ((j, ids) ∷ d) = elim (Bool-cases (text_eq j k)) [
  | inl e ↦ rw e refl
  | inr ne ↦ rw ne (list_at-sort_ids k d)
]

pub get-sort_buckets :
    (k : Text) (d : Dict (List Text))
    → list_at (Dict.get k (sort_buckets d)) ≡ sorted id_lt (list_at (Dict.get k d))
unfolding sort_buckets
get-sort_buckets k d = rw (get-sorted text_lt text_lt_irrefl k (sort_ids d)) (list_at-sort_ids k d)
