-- ===== src/MapVote/Batches.antt =====
-- The batches of fetch_and_index() in fastdl/tools/mapvote_images.py: which items they hold, and how
-- much content is on disk at once.
use tug.Base.{
  ℕ, ◌+◌, ◌≤◌, true, false, not, ◌&&◌, List, [], ◌∷◌, ◌++◌, length, ltb, is_empty, ◌≡◌, refl, ap,
  ◌∙◌, ◌⊎◌, inl, inr, All, Bool-cases, arith, append_assoc,
}
use tug.Base.Text.{Text}
use tug.Base.Dict.{Dict}
use tug.Base.Sort.{sorted}
use tug.Workshop.Lock.{Item}
use tug.MapVote.Index.{batches_from, batches, by_size}

abbrev total : Dict Item → ℕ
total [] = 0
total ((i, item) ∷ items) = item.size + total items

total-append : (xs ys : Dict Item) → total (xs ++ ys) ≡ total xs + total ys
total-append [] ys = omega arith
total-append ((i, item) ∷ xs) ys = omega (arith, total-append xs ys)

abbrev pub join : List (Dict Item) → Dict Item
join [] = []
join (b ∷ bs) = b ++ join bs

-- A batch that may be fetched: some items, which fit into the bytes, or one item.
abbrev pub Fits : ℕ → Dict Item → Type 0
Fits n b = (is_empty b ≡ false) × ((total b ≤ n) ⊎ (length b ≡ 1))

batches_from-join :
    (n size : ℕ) (cur ids : Dict Item) → join (batches_from n cur size ids) ≡ cur ++ ids
unfolding batches_from
batches_from-join n size [] [] = refl
batches_from-join n size (c ∷ cur) [] = refl
batches_from-join n size cur ((i, item) ∷ ids) =
    elim (Bool-cases (not (is_empty cur) && ltb n (size + item.size))) [
      | inl full ↦ rw full (ap (λ b. cur ++ b) (batches_from-join n item.size ((i, item) ∷ []) ids))
      | inr room ↦ rw room (
          batches_from-join n (size + item.size) (cur ++ (i, item) ∷ []) ids
          ∙ append_assoc cur ((i, item) ∷ []) ids)
    ]

le_of : (n k : ℕ) → ltb n k ≡ false → k ≤ n
le_of n k h = ground arith

fits_if_any :
    (n : ℕ) (cur : Dict Item)
    → (is_empty cur ≡ true) ⊎ Fits n cur
    → is_empty cur ≡ false
    → Fits n cur
fits_if_any n cur (inl empty) some_item = cc
fits_if_any n cur (inr h) some_item = h

one_more :
    (n size : ℕ) (cur : Dict Item) (i : Text) (item : Item)
    → total cur ≡ size
    → (not (is_empty cur) && ltb n (size + item.size)) ≡ false
    → Fits n (cur ++ (i, item) ∷ [])
one_more n size [] i item sized room = (refl, inr refl)
one_more n size (c ∷ cur) i item sized room = (
  refl,
  inl (
      omega
        (arith, total-append (c ∷ cur) ((i, item) ∷ []), sized, le_of n (size + item.size) room)),
)

batches_from-Fits :
    (n size : ℕ) (cur ids : Dict Item)
    → total cur ≡ size
    → (is_empty cur ≡ true) ⊎ Fits n cur
    → All (Fits n) (batches_from n cur size ids)
unfolding batches_from
batches_from-Fits n size cur [] sized fits = elim fits [
  | inl empty ↦ rw empty tt
  | inr h ↦ rw (h.0) (h, tt)
]
batches_from-Fits n size cur ((i, item) ∷ ids) sized fits =
    elim (Bool-cases (not (is_empty cur) && ltb n (size + item.size))) [
      | inl full ↦ rw full (
        fits_if_any n cur fits (ground (arith, full)),
        batches_from-Fits n item.size ((i, item) ∷ []) ids (omega arith) (inr (refl, inr refl)),
      )
      | inr room ↦ rw room (
          batches_from-Fits n (size + item.size) (cur ++ (i, item) ∷ []) ids
            (total-append cur ((i, item) ∷ []) ∙ omega (arith, sized))
            (inr (one_more n size cur i item sized room)))
    ]

-- The items to fetch, by size, are fetched in batches: none is left out or comes twice, no batch is
-- empty, and a batch has at most the allowed number of bytes or is a single item.
pub batches-Fits :
    (n : ℕ) (ids : Dict Item)
    → (join (batches n ids) ≡ sorted by_size ids) × All (Fits n) (batches n ids)
unfolding batches
batches-Fits n ids = (
  batches_from-join n 0 [] (sorted by_size ids),
  batches_from-Fits n 0 [] (sorted by_size ids) refl (inl refl),
)
