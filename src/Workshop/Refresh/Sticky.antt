-- ===== src/Workshop/Refresh/Sticky.antt =====
-- The bucket counts that refresh() writes: one for each group of the new items, and the old one
-- where there is one.
use tug.Base.{
  ℕ, ◌+◌, Bool, true, false, List, [], ◌∷◌, if◌then◌else◌, Option, none, some, is_empty, ◌≡◌, refl,
  arith, ◌∙◌, sym, ap, Bool-cases, inl, inr,
}
use mathlib.Core.Path.{subst}
use tug.Base.Text.{Text, text_eq, text_eq_iff, text_eq_refl, text_lt}
use tug.Base.Sort.{sorted}
use tug.Base.Dict
use tug.Base.Dict.{Dict, keys, values, get-update}
use tug.Base.SortedDict.{get-sorted, text_lt_irrefl}
use tug.Base.Result.{Result, ok, raised, >>=-eq-ok, checked-eq-ok}
use tug.Workshop.Lock.{Item, Lock, group_of, id_lt}
use tug.Workshop.Refresh.{
  Details, ids_of, pinned_lock, no_servers, cannot_be_fetched, pin_all, count_groups, sticky_count,
  bucket_counts, new_lock, refresh,
}

get-bucket_counts :
    (old : Lock) (g : Text) (n : ℕ) (groups : Dict ℕ)
    → Dict.get g groups ≡ some n
    → Dict.get g (bucket_counts old groups) ≡ some (sticky_count old g n)
unfolding bucket_counts Dict.get
get-bucket_counts old g n [] h = cc
get-bucket_counts old g n ((group, size) ∷ groups) h =
    ground (arith, get-bucket_counts old g n groups, text_eq_iff group g)

abbrev one_more : Option ℕ → ℕ
one_more o = elim o [ none ↦ 1 | some n ↦ n + 1 ]

-- A group that has been counted stays counted.
counted-stays :
    (g : Text) (items : List Item) (groups : Dict ℕ) (n : ℕ)
    → Dict.get g groups ≡ some n
    → (m : ℕ) × (Dict.get g (count_groups groups items) ≡ some m)
unfolding count_groups
counted-stays g [] groups n h = (n, h)
counted-stays g (item ∷ items) groups n h = elim (Bool-cases (text_eq (group_of item.servers) g)) [
  | inl same ↦
      counted-stays g items (Dict.update (group_of item.servers) one_more groups)
        (one_more (Dict.get (group_of item.servers) groups))
        (get-update (group_of item.servers) g one_more groups ∙ rw same refl)
  | inr other ↦
      counted-stays g items (Dict.update (group_of item.servers) one_more groups) n
        (get-update (group_of item.servers) g one_more groups ∙ rw other h)
]

counted :
    (i : Text) (item : Item) (items : Dict Item) (groups : Dict ℕ)
    → Dict.get i items ≡ some item
    → (m : ℕ) × (Dict.get (group_of item.servers) (count_groups groups (values items)) ≡ some m)
unfolding count_groups Dict.get
counted i item [] groups h = cc
counted i item ((j, x) ∷ items) groups h = elim (Bool-cases (text_eq j i)) [
  | inl same ↦
      let here : x ≡ item = ground arith in
      rw (ap (λ (y : Item). group_of y.servers) (sym here)) (
        counted-stays (group_of x.servers) (values items)
          (Dict.update (group_of x.servers) one_more groups)
          (one_more (Dict.get (group_of x.servers) groups))
          (get-update (group_of x.servers) (group_of x.servers) one_more groups
            ∙ rw (text_eq_refl (group_of x.servers)) refl))
  | inr other ↦
      counted i item items (Dict.update (group_of x.servers) one_more groups) (ground arith)
]

id_lt_irrefl : (s : Text) → id_lt s s ≡ false
id_lt_irrefl s = ground arith

-- The count of a group: the old one if there is an old one.
abbrev pub Kept : Lock → Lock → Text → Type 0
Kept old new g =
    (count : ℕ) × (Dict.get g new.buckets ≡ some count)
    × ((before : ℕ) → Dict.get g old.buckets ≡ some before → count ≡ before)

new_lock-Kept :
    (old : Lock) (items : Dict Item) (i : Text) (item : Item)
    → Dict.get i (new_lock old items).items ≡ some item
    → Kept old (new_lock old items) (group_of item.servers)
unfolding new_lock sticky_count
new_lock-Kept old items i item h =
    let found : Dict.get i items ≡ some item = sym (get-sorted id_lt id_lt_irrefl i items) ∙ h in
    let (n, at) = counted i item items [] found in
    (
      sticky_count old (group_of item.servers) n,
      get-bucket_counts old (group_of item.servers) n
          (sorted (λ a b. text_lt a.0 b.0) (count_groups [] (values items)))
          (get-sorted text_lt text_lt_irrefl (group_of item.servers)
              (count_groups [] (values items))
            ∙ at),
      λ before e. rw (sticky_count, e) refl,
    )

only_ok :
    {E A : Type 0} (b : Bool) (r : Result E A) (new : A) (e : E)
    → (if b then raised e else r) ≡ ok new
    → r ≡ ok new
only_ok true r new e h = cc
only_ok false r new e h = h

-- After a refresh every item of the lock has a bucket count for its group, and it is the count that
-- the old lock has for that group where it has one.
pub refresh-Kept :
    (subscriptions : Dict (List Text)) (details : Dict Details) (old new : Lock) (i : Text)
    (item : Item)
    → refresh subscriptions details old ≡ ok new
    → Dict.get i new.items ≡ some item
    → Kept old new (group_of item.servers)
unfolding refresh
refresh-Kept subscriptions details old new i item h at =
    let (all_ids, numbers, made) =
      >>=-eq-ok (ids_of subscriptions) (λ ids. pinned_lock subscriptions details old ids)
        (only_ok (is_empty subscriptions) _ new no_servers h) in
    let pinned = pin_all (keys subscriptions) subscriptions details all_ids in
    let (none_broken, last) =
      checked-eq-ok (is_empty pinned.1) (ok (new_lock old pinned.0)) (cannot_be_fetched pinned.1)
        made in
    let same : new_lock old pinned.0 ≡ new = cc in
    subst (λ l. Dict.get i l.items ≡ some item → Kept old l (group_of item.servers)) same
      (new_lock-Kept old pinned.0 i item) at
