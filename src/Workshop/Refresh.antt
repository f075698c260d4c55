-- ===== src/Workshop/Refresh.antt =====
-- The inputs and the refresh command of tools/workshop/workshop_lock.py. What Steam answers is a
-- parameter, the dict that published_file_details() returns; the files are lists of lines.
pub mod Sticky
use tug.Base.{
  ℕ, zero, suc, ◌+◌, ◌*◌, ◌^◌, Bool, true, false, not, ◌&&◌, ◌||◌, List, [], ◌∷◌, ◌++◌, map,
  if◌then◌else◌, Option, none, some, ltb, leb, ◌==◌, keep_if, any, is_empty, All, Bool-cases, inl,
  inr,
}
use mathlib.Core.List.{reverse}
use tug.Base.Text.{Text, codes, text_lt, text_eq, mem_text, starts_with, is_space}
use tug.Base.Sort.{sorted}
use tug.Base.Dict
use tug.Base.Dict.{Dict, keys, values}
use tug.Base.Numbers.{number}
use tug.Base.Result.{Result, ok, raised, too_deep, ◌>>=◌}
use tug.Workshop.Lock.{Item, Lock, group_of, default_bucket_count, id_lt}

-- {"base", "_template"}
abbrev not_servers : List Text
not_servers = codes "base" ∷ codes "_template" ∷ []

-- servers(): `is_server` is os.path.isfile of the subscription list
unfoldable pub servers : (Text → Bool) → List Text → List Text
unfolding sorted
servers is_server listing =
    keep_if (λ name. not (mem_text name not_servers) && is_server name) (sorted text_lt listing)

-- re.sub(r"//.*", "", line)
unfoldable pub cut_comment : Text → Text
cut_comment [] = []
cut_comment (c ∷ s) =
    let rest = cut_comment s in if starts_with (47 ∷ 47 ∷ []) (c ∷ s) then [] else c ∷ rest

unfoldable pub strip_left : Text → Text
strip_left [] = []
strip_left (c ∷ s) = if is_space c then strip_left s else c ∷ s

-- s.strip()
unfoldable pub strip : Text → Text
unfolding strip_left
strip s = reverse (strip_left (reverse (strip_left s)))

-- int() has a value for a text of 0-9, and none where isdigit() holds for a superscript.
unfoldable pub all_digits : Text → Bool
all_digits [] = true
all_digits (c ∷ s) = leb 48 c && leb c 57 && all_digits s

-- isdigit() of a character of latin-1: 0-9 and the superscripts
abbrev is_digit_char : ℕ → Bool
is_digit_char c = (leb 48 c && leb c 57) || c == 178 || c == 179 || c == 185

unfoldable pub all_isdigit : Text → Bool
all_isdigit [] = true
all_isdigit (c ∷ s) = is_digit_char c && all_isdigit s

-- line.isdigit()
unfoldable pub is_id : Text → Bool
unfolding all_isdigit
is_id s = not (is_empty s) && all_isdigit s

-- [i for i in ids if not (i in seen or seen.add(i))]
unfoldable pub first_seen : List Text → List Text → List Text
first_seen seen [] = []
first_seen seen (i ∷ ids) =
    let again = first_seen seen ids in
    let new = first_seen (i ∷ seen) ids in if mem_text i seen then again else i ∷ new

pub All-first_seen {κ} :
    (P : Text → Type κ) (seen xs : List Text) → All P xs → All P (first_seen seen xs)
unfolding first_seen
All-first_seen P seen [] h = tt
All-first_seen P seen (x ∷ xs) (hx, hs) = elim (Bool-cases (mem_text x seen)) [
  | inl again ↦ rw (first_seen, again) (All-first_seen P seen xs hs)
  | inr new ↦ rw (first_seen, new) (hx, All-first_seen P (x ∷ seen) xs hs)
]

-- subscribed_ids(), of the lines of the file
unfoldable pub subscribed_ids : List Text → List Text
unfolding first_seen strip cut_comment is_id
subscribed_ids lines = first_seen [] (keep_if is_id (map (λ l. strip (cut_comment l)) lines))

-- An entry of the API's answer; `result` is none where the key is missing.
pub record Details : Type 0 where
  pub result : Option ℕ
  pub consumer_app_id : Text
  pub title : Text
  pub hcontent_file : Text
  pub file_size : ℕ
  pub time_updated : ℕ

abbrev pub app_id : Text
app_id = codes "222880"

pub data Broken : Type 0 where
  not_available : Text → Option ℕ → Broken
  other_app : Text → Text → Broken

abbrev is_success : Option ℕ → Bool
is_success none = false
is_success (some r) = r == 1

abbrev pub subscribers : List Text → Dict (List Text) → Text → List Text
subscribers names subscriptions item_id = sorted text_lt (
    keep_if
      (λ name. elim (Dict.get name subscriptions) [
        | none ↦ false
        | some ids ↦ mem_text item_id ids
      ])
      names)

-- The loop body for one id: a pinned item, or why it cannot be fetched.
unfoldable pub pin : List Text → Dict (List Text) → Dict Details → Text → Result Broken Item
pin names subscriptions details item_id = elim (Dict.get item_id details) [
  | none ↦ raised (not_available item_id none)
  | some entry ↦
      if not (is_success entry.result)
      then raised (not_available item_id entry.result)
      else if not (text_eq entry.consumer_app_id app_id)
      then raised (other_app item_id entry.consumer_app_id)
      else ok (record {
        title = entry.title;
        manifest = entry.hcontent_file;
        size = entry.file_size;
        time_updated = entry.time_updated;
        servers = subscribers names subscriptions item_id;
      })
]

unfoldable pub pin_all :
    List Text → Dict (List Text) → Dict Details → List Text → Dict Item × List Broken
pin_all names subscriptions details [] = ([], [])
pin_all names subscriptions details (i ∷ ids) =
    let rest = pin_all names subscriptions details ids in
    elim (pin names subscriptions details i) [
      | ok item ↦ ((i, item) ∷ rest.0, rest.1)
      | raised why ↦ (rest.0, why ∷ rest.1)
      | too_deep ↦ rest
    ]

-- groups: how many items each group has
unfoldable pub count_groups : Dict ℕ → List Item → Dict ℕ
count_groups groups [] = groups
count_groups groups (item ∷ items) =
    count_groups
      (Dict.update (group_of item.servers) (λ o. elim o [ none ↦ 1 | some n ↦ n + 1 ]) groups) items

-- old.get("buckets", {}).get(group, default_bucket_count(size))
unfoldable pub sticky_count : Lock → Text → ℕ → ℕ
sticky_count old group size = elim (Dict.get group old.buckets) [
  | none ↦ default_bucket_count size
  | some count ↦ count
]

unfoldable pub bucket_counts : Lock → Dict ℕ → Dict ℕ
bucket_counts old [] = []
bucket_counts old ((group, size) ∷ groups) =
    (group, sticky_count old group size) ∷ bucket_counts old groups

-- The lock that is written. read_lock(missing_ok=True) gives one without keys if there is no file.
unfoldable pub new_lock : Lock → Dict Item → Lock
unfolding count_groups
new_lock old items = record {
  solo_bytes = some (elim old.solo_bytes [ none ↦ 512 * 2 ^ 20 | some n ↦ n ]);
  buckets = bucket_counts old (sorted (λ a b. text_lt a.0 b.0) (count_groups [] (values items)));
  items = sorted (λ a b. id_lt a.0 b.0) items;
}

pub data RefreshError : Type 0 where
  no_servers : RefreshError
  not_a_number : RefreshError
  cannot_be_fetched : List Broken → RefreshError

abbrev pub concat : List (List Text) → List Text
concat [] = []
concat (xs ∷ xss) = xs ++ concat xss

-- sorted({i for ids in subscriptions.values() for i in ids}, key=int): int() raises a ValueError for
-- an id that is no number
unfoldable pub ids_of : Dict (List Text) → Result RefreshError (List Text)
unfolding all_digits
ids_of subscriptions =
    let ids = first_seen [] (concat (values subscriptions)) in
    if any (λ i. not (all_digits i)) ids then raised not_a_number else ok (sorted id_lt ids)

-- refresh() from the sorted ids and their details on, up to write_lock
unfoldable pub pinned_lock :
    Dict (List Text) → Dict Details → Lock → List Text → Result RefreshError Lock
pinned_lock subscriptions details old all_ids =
    let pinned = pin_all (keys subscriptions) subscriptions details all_ids in
    if is_empty pinned.1 then ok (new_lock old pinned.0) else raised (cannot_be_fetched pinned.1)

-- refresh(), up to write_lock
unfoldable pub refresh : Dict (List Text) → Dict Details → Lock → Result RefreshError Lock
unfolding ids_of pinned_lock
refresh subscriptions details old =
    if is_empty subscriptions
    then raised no_servers
    else ids_of subscriptions >>= λ all_ids. pinned_lock subscriptions details old all_ids
