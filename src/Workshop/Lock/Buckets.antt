-- ===== src/Workshop/Lock/Buckets.antt =====
-- What partition() puts into a bucket, said of the items and not of the loops.
use tug.Base.{
  ℕ, Bool, false, ◌&&◌, List, [], ◌∷◌, ◌++◌, map, if◌then◌else◌, Option, none, some, keep_if, ◌≡◌,
  refl, arith, ◌∙◌, sym, ap, Bool-cases, inl, inr,
}
use mathlib.Core.Path.{subst}
use tug.Base.Text.{Text, text_eq, text_eq_iff}
use tug.Base.Sort.{sorted}
use tug.Base.Dict
use tug.Base.Dict.{Dict, append_to, get-update}
use tug.Base.Result.{ok, raised, ◌>>=◌, >>=-eq-ok}
use tug.Workshop.Lock.{
  Item, Lock, no_bucket_count, solo_of, group_items, fill_buckets, id_lt, sort_buckets,
  partition_groups, partition,
}
use tug.Workshop.Lock.Filling.{
  list_at, has_key, id_of, in_group, fill_buckets-list_at, group_items-list_at, get-sort_buckets,
}

-- plan.get(g, {}).get(k, [])
abbrev pub bucket : Dict (Dict (List Text)) → Text → Text → List Text
bucket plan g k = elim (Dict.get g plan) [ none ↦ [] | some buckets ↦ list_at (Dict.get k buckets) ]

abbrev ConsAt :
    (Text → ℕ)
    → Lock
    → Text
    → List (Text × Item)
    → Dict (List (Text × Item))
    → Dict (Dict (List Text))
    → Type 0
ConsAt digest lock group entries groups plan =
    (count : ℕ) × (buckets : Dict (List Text)) × (rest : Dict (Dict (List Text))) × (Dict.get group
        lock.buckets
      ≡ some count)
    × (fill_buckets digest (solo_of lock) count [] entries ≡ ok buckets)
    × (partition_groups digest lock groups ≡ ok rest)
    × (plan ≡ (group, sort_buckets buckets) ∷ rest)

partition_groups-at :
    (digest : Text → ℕ) (lock : Lock) (group : Text) (entries : List (Text × Item))
    (groups : Dict (List (Text × Item))) (plan : Dict (Dict (List Text))) (o : Option ℕ)
    → Dict.get group lock.buckets ≡ o
    → (elim o [
      | none ↦ raised (no_bucket_count group)
      | some count ↦ fill_buckets digest (solo_of lock) count [] entries >>= λ buckets.
          partition_groups digest lock groups >>= λ rest. ok ((group, sort_buckets buckets) ∷ rest)
    ])
      ≡ ok plan
    → ConsAt digest lock group entries groups plan
partition_groups-at digest lock group entries groups plan none at h = cc
partition_groups-at digest lock group entries groups plan (some count) at h =
    let (buckets, filled, h') =
      >>=-eq-ok (fill_buckets digest (solo_of lock) count [] entries)
        (λ buckets.
          partition_groups digest lock groups >>= λ rest. ok ((group, sort_buckets buckets) ∷ rest))
        h in
    let (rest, later, h'') =
      >>=-eq-ok (partition_groups digest lock groups)
        (λ rest. ok ((group, sort_buckets buckets) ∷ rest)) h' in
    (count, buckets, rest, at, filled, later, cc)

partition_groups-cons :
    (digest : Text → ℕ) (lock : Lock) (group : Text) (entries : List (Text × Item))
    (groups : Dict (List (Text × Item))) (plan : Dict (Dict (List Text)))
    → partition_groups digest lock ((group, entries) ∷ groups) ≡ ok plan
    → ConsAt digest lock group entries groups plan
unfolding partition_groups
partition_groups-cons digest lock group entries groups plan h =
    partition_groups-at digest lock group entries groups plan (Dict.get group lock.buckets) refl h

bucket-cons :
    (g k group : Text) (buckets : Dict (List Text)) (rest : Dict (Dict (List Text)))
    → bucket ((group, buckets) ∷ rest) g k
      ≡ (if text_eq group g then list_at (Dict.get k buckets) else bucket rest g k)
unfolding Dict.get
bucket-cons g k group buckets rest = ground arith

list_at-cons :
    {A : Type 0} (g group : Text) (entries : List A) (groups : Dict (List A))
    → list_at (Dict.get g ((group, entries) ∷ groups))
      ≡ (if text_eq group g then entries else list_at (Dict.get g groups))
unfolding Dict.get
list_at-cons g group entries groups = elim (Bool-cases (text_eq group g)) [
  | inl e ↦ rw e refl
  | inr ne ↦ rw ne refl
]

partition_groups-bucket :
    (digest : Text → ℕ) (lock : Lock) (g k : Text) (count : ℕ) (groups : Dict (List (Text × Item)))
    (plan : Dict (Dict (List Text)))
    → Dict.get g lock.buckets ≡ some count
    → partition_groups digest lock groups ≡ ok plan
    → bucket plan g k
      ≡ sorted id_lt (
          map id_of (keep_if (has_key digest (solo_of lock) count k) (list_at (Dict.get g groups))))
unfolding partition_groups sorted Dict.get
partition_groups-bucket digest lock g k count [] plan known h =
    subst (λ p. bucket p g k ≡ []) {x = []} (cc) refl
partition_groups-bucket digest lock g k count ((group, entries) ∷ groups) plan known h =
    let (count', buckets, rest, at, filled, later, e) =
      partition_groups-cons digest lock group entries groups plan h in
    let ih = partition_groups-bucket digest lock g k count groups rest known later in
    rw (e, bucket-cons g k group (sort_buckets buckets) rest, list_at-cons g group entries groups)
      (elim (Bool-cases (text_eq group g)) [
        | inl same ↦
            let here = (text_eq_iff group g).0 same in
            let counted : count' ≡ count = cc in
            rw same (
              get-sort_buckets k buckets
              ∙ ap (sorted id_lt) (
                  subst
                    (λ n.
                      list_at (Dict.get k buckets)
                      ≡ map id_of (keep_if (has_key digest (solo_of lock) n k) entries))
                    counted
                    (fill_buckets-list_at digest (solo_of lock) count' k entries [] buckets
                      filled)))
        | inr ne ↦ rw ne ih
      ])

-- If a lock is partitioned and a group has a bucket count, the bucket of a key in that group holds
-- the ids of exactly the items of the group which have that key, sorted by their numbers.
pub partition-bucket :
    (digest : Text → ℕ) (lock : Lock) (g k : Text) (count : ℕ) (plan : Dict (Dict (List Text)))
    → Dict.get g lock.buckets ≡ some count
    → partition digest lock ≡ ok plan
    → bucket plan g k
      ≡ sorted id_lt (
          map id_of
            (keep_if (has_key digest (solo_of lock) count k) (keep_if (in_group g) lock.items)))
unfolding partition Dict.get
partition-bucket digest lock g k count plan known h =
    partition_groups-bucket digest lock g k count (group_items [] lock.items) plan known h
    ∙ ap
        (λ entries.
          sorted id_lt (map id_of (keep_if (has_key digest (solo_of lock) count k) entries)))
        (group_items-list_at g lock.items [])

keep_if-skip :
    {A : Type 0} (p q : A → Bool) (e : A) (xs ys : List A)
    → (q e && p e) ≡ false
    → keep_if p (keep_if q (xs ++ e ∷ ys)) ≡ keep_if p (keep_if q (xs ++ ys))
keep_if-skip p q e [] ys h = elim (Bool-cases (q e)) [
  | inl kept ↦ rw (kept, (let h' : p e ≡ false = ground arith in h')) refl
  | inr out ↦ rw out refl
]
keep_if-skip p q e (x ∷ xs) ys h =
    let ih = keep_if-skip p q e xs ys h in
    elim (Bool-cases (q x)) [ inl kept ↦ rw (kept, ih) refl | inr out ↦ rw out ih ]

abbrev pub lock_of : Option ℕ → Dict ℕ → Dict Item → Lock
lock_of solo counts items = record { solo_bytes = solo; buckets = counts; items = items }

-- If a lock and the same lock with one more item, wherever it stands, are both partitioned, a bucket
-- of a group with a bucket count is the same in both unless the item is one of that bucket.
pub bucket-insert :
    (digest : Text → ℕ) (solo : Option ℕ) (counts : Dict ℕ) (before after : Dict Item)
    (entry : Text × Item) (g k : Text) (count : ℕ) (plan plan' : Dict (Dict (List Text)))
    → Dict.get g counts ≡ some count
    → partition digest (lock_of solo counts (before ++ after)) ≡ ok plan
    → partition digest (lock_of solo counts (before ++ entry ∷ after)) ≡ ok plan'
    → (in_group g entry && has_key digest (solo_of (lock_of solo counts [])) count k entry) ≡ false
    → bucket plan' g k ≡ bucket plan g k
bucket-insert digest solo counts before after entry g k count plan plan' known h h' other =
    partition-bucket digest (lock_of solo counts (before ++ entry ∷ after)) g k count plan' known h'
    ∙ ap (λ entries. sorted id_lt (map id_of entries))
        (keep_if-skip (has_key digest (solo_of (lock_of solo counts [])) count k) (in_group g) entry
          before after other)
    ∙ sym (partition-bucket digest (lock_of solo counts (before ++ after)) g k count plan known h)
