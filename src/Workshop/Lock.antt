-- ===== src/Workshop/Lock.antt =====
-- The lockfile of tools/workshop/workshop_lock.py and the bucketing of its items. The first eight
-- hex digits of the SHA-256 of an id are a parameter, `digest`.
pub mod Filling
pub mod Buckets
use tug.Base.{
  ℕ, zero, suc, ◌+◌, ◌*◌, ◌/◌, ◌%◌, Bool, true, false, not, ◌&&◌, List, [], ◌∷◌, ◌++◌,
  if◌then◌else◌, Option, none, some, ltb, leb, ◌==◌,
}
use Prim.Native.Nat.{min, max}
use tug.Base.Text.{Text, codes, text_lt}
use tug.Base.Sort.{sorted}
use tug.Base.Dict
use tug.Base.Dict.{Dict, append_to}
use tug.Base.Numbers.{two_digits, number, round_div}
use tug.Base.Result.{Result, ok, raised, ◌>>=◌}

pub record Item : Type 0 where
  pub title : Text
  pub manifest : Text
  pub size : ℕ
  pub time_updated : ℕ
  pub servers : List Text

-- `solo_bytes` may be missing.
pub record Lock : Type 0 where
  pub solo_bytes : Option ℕ
  pub buckets : Dict ℕ
  pub items : Dict Item

-- KeyError of lock["buckets"][group], ZeroDivisionError of `% count`
pub data LockError : Type 0 where
  no_bucket_count : Text → LockError
  zero_buckets : LockError

-- "-".join(parts)
unfoldable pub join_dash : List Text → Text
join_dash [] = []
join_dash (s ∷ []) = s
join_dash (s ∷ t ∷ ts) = s ++ (45 ∷ join_dash (t ∷ ts))

unfoldable pub group_of : List Text → Text
unfolding join_dash
group_of item_servers = join_dash (sorted text_lt item_servers)

unfoldable pub default_bucket_count : ℕ → ℕ
unfolding round_div
default_bucket_count size = max 1 (min 32 (round_div size 4))

-- int(digest[:8], 16) % count
unfoldable pub bucket_of : (Text → ℕ) → Text → ℕ → Result LockError ℕ
bucket_of digest item_id count =
    if count == 0 then raised zero_buckets else ok (digest item_id % count)

abbrev pub solo_of : Lock → ℕ
solo_of lock = elim lock.solo_bytes [ none ↦ 0 | some n ↦ n ]

-- `solo and size >= solo`
unfoldable pub is_solo : ℕ → ℕ → Bool
is_solo solo size = not (solo == 0) && leb solo size

-- The key of the bucket that an item goes into.
unfoldable pub key_of : (Text → ℕ) → ℕ → ℕ → Text × Item → Result LockError Text
unfolding is_solo
key_of digest solo count (item_id, item) =
    if is_solo solo item.size
    then ok item_id
    else bucket_of digest item_id count >>= λ b. ok (two_digits b)

-- by_group: the items of each group, in the order of the lockfile
unfoldable pub group_items : Dict (List (Text × Item)) → Dict Item → Dict (List (Text × Item))
group_items groups [] = groups
group_items groups ((item_id, item) ∷ items) =
    group_items (append_to (group_of item.servers) (item_id, item) groups) items

-- The loop over the ids of one group.
unfoldable pub fill_buckets :
    (Text → ℕ) → ℕ → ℕ → Dict (List Text) → List (Text × Item) → Result LockError (Dict (List Text))
fill_buckets digest solo count buckets [] = ok buckets
fill_buckets digest solo count buckets (entry ∷ entries) = key_of digest solo count entry >>= λ key.
    fill_buckets digest solo count (append_to key (entry.0) buckets) entries

-- key=int
abbrev pub id_lt : Text → Text → Bool
id_lt a b = ltb (number a) (number b)

abbrev pub key_lt : Text × List Text → Text × List Text → Bool
key_lt a b = text_lt a.0 b.0

unfoldable pub sort_ids : Dict (List Text) → Dict (List Text)
sort_ids [] = []
sort_ids ((key, ids) ∷ rest) = (key, sorted id_lt ids) ∷ sort_ids rest

-- {key: sorted(buckets[key], key=int) for key in sorted(buckets)}
unfoldable pub sort_buckets : Dict (List Text) → Dict (List Text)
unfolding sort_ids
sort_buckets buckets = sorted key_lt (sort_ids buckets)

unfoldable pub partition_groups :
    (Text → ℕ) → Lock → Dict (List (Text × Item)) → Result LockError (Dict (Dict (List Text)))
partition_groups digest lock [] = ok []
partition_groups digest lock ((group, entries) ∷ groups) = elim (Dict.get group lock.buckets) [
  | none ↦ raised (no_bucket_count group)
  | some count ↦ fill_buckets digest (solo_of lock) count [] entries >>= λ buckets.
      partition_groups digest lock groups >>= λ rest. ok ((group, sort_buckets buckets) ∷ rest)
]

unfoldable pub partition : (Text → ℕ) → Lock → Result LockError (Dict (Dict (List Text)))
unfolding partition_groups group_items
partition digest lock = partition_groups digest lock (group_items [] lock.items)
