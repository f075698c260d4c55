-- ===== src/Loadouts.antt =====
-- tools/migrate_loadouts.py: the rows of a MySQL dump, gathered by player and class. A character is
-- a code point; `lower` and `is_space` are Python's on latin-1, where the keywords and the digits are.
pub mod Insert
pub mod Literal
pub mod Gathered
mod Examples
use tug.Base.{
  ℕ, zero, suc, ◌+◌, ◌-◌, Bool, true, false, not, ◌&&◌, ◌||◌, List, [], ◌∷◌, ◌++◌, map,
  if◌then◌else◌, Option, none, some, ltb, leb, ◌==◌, is_empty, length, keep_if,
}
use tug.Base.Text.{Text, codes, lower, text_eq, text_lt, starts_with, mem_text}
use tug.Base.Numbers.{number}
use tug.Workshop.Refresh.{strip}

-- What a row of the INSERT statement has, without its id. A NULL item is the empty text.
pub record Row : Type 0 where
  pub server_id : ℕ
  pub steamid : ℕ
  pub classname : Text
  pub type_val : Text
  pub itemid : Text

-- \d+ and what follows it; none where there is no digit
unfoldable pub digits : Text → Text → Option (Text × Text)
digits read [] = none
digits read (c ∷ s) =
    let more = digits (read ++ c ∷ []) s in
    if leb 48 c && leb c 57 then more else if is_empty read then none else some (read, c ∷ s)

-- [^']*' : what is before the next quote, and what follows it
unfoldable pub quoted_part : Text → Option (Text × Text)
quoted_part [] = none
quoted_part (c ∷ s) =
    let rest = quoted_part s in
    if c == 39
    then some ([], s)
    else elim rest [ none ↦ none | some (part, after) ↦ some (c ∷ part, after) ]

-- The text after a prefix.
unfoldable pub after : Text → Text → Option Text
after [] s = some s
after (c ∷ p) [] = none
after (c ∷ p) (d ∷ s) = let rest = after p s in if c == d then rest else none

-- Option's bind, for the chain of the row's parts
infixl 10 ◌then_try◌
abbrev ◌then_try◌ {ℓ κ} : {A : Type ℓ} {B : Type κ} → Option A → (A → Option B) → Option B
none then_try f = none
some a then_try f = f a

-- '([^']*)' or NULL
unfoldable pub item_part : Text → Option (Text × Text)
unfolding after quoted_part
item_part s = elim (after (codes "'") s then_try quoted_part) [
  | some found ↦ some found
  | none ↦ after (codes "NULL") s then_try λ rest. some ([], rest)
]

-- The regular expression row_pattern at the start of a text.
unfoldable pub match_row : Text → Option (Row × Text)
unfolding after digits quoted_part item_part
match_row s = after (codes "(") s then_try λ s1. digits [] s1 then_try λ (i, s2).
    after (codes ",") s2 then_try λ s3. digits [] s3 then_try λ (server, s4).
    after (codes ",") s4 then_try λ s5. digits [] s5 then_try λ (steam, s6).
    after (codes ",'") s6 then_try λ s7. quoted_part s7 then_try λ (class, s8).
    after (codes ",'") s8 then_try λ s9. quoted_part s9 then_try λ (kind, s10).
    after (codes ",") s10 then_try λ s11. item_part s11 then_try λ (item, s12).
    after (codes ")") s12 then_try λ rest. some (
      record {
        server_id = number server;
        steamid = number steam;
        classname = class;
        type_val = kind;
        itemid = item;
      },
      rest,
    )

-- re.findall: the matches from left to right, `skip` characters of the last one still to go
unfoldable pub find_rows : ℕ → Text → List Row
unfolding match_row
find_rows skip [] = []
find_rows (suc skip) (c ∷ s) = find_rows skip s
find_rows zero (c ∷ s) =
    let past = find_rows 0 s in
    elim (match_row (c ∷ s)) [
      | none ↦ past
      | some (row, rest) ↦ row ∷ find_rows (length s - length rest) s
    ]

-- p in s
unfoldable pub contains : Text → Text → Bool
contains p [] = starts_with p []
contains p (c ∷ s) = starts_with p (c ∷ s) || contains p s

unfoldable pub parse_mysql_insert : Text → List Row
unfolding find_rows contains
parse_mysql_insert line =
    if not (contains (codes "INSERT INTO") line) && not (contains (codes "saveloadout") line)
    then []
    else keep_if (λ row. row.server_id == 1 && not (is_empty row.itemid)) (find_rows 0 line)

pub data Slot : Type 0 where
  gear : Slot
  primary : Slot
  secondary : Slot
  explosive : Slot

-- The column where it is one of the four, and none for any other text.
unfoldable pub map_type_to_column : Text → Option Slot
map_type_to_column type_val =
    let t = strip (lower type_val) in
    if mem_text t (codes "gear" ∷ codes "gear_slot" ∷ [])
    then some gear
    else if mem_text t (codes "primary" ∷ codes "primary_weapon" ∷ [])
    then some primary
    else if mem_text t (codes "secondary" ∷ codes "secondary_weapon" ∷ [])
    then some secondary
    else if mem_text t (codes "explosive" ∷ codes "explosives" ∷ codes "explosive_weapon" ∷ [])
    then some explosive
    else none

-- (steamid, classname)
abbrev pub Key : Type 0
Key = ℕ × Text

abbrev pub key_eq : Key → Key → Bool
key_eq a b = a.0 == b.0 && text_eq a.1 b.1

abbrev pub key_lt : Key → Key → Bool
key_lt a b = ltb a.0 b.0 || (a.0 == b.0 && text_lt a.1 b.1)

pub record Slots : Type 0 where
  pub gear_items : List Text
  pub primary_items : List Text
  pub secondary_items : List Text
  pub explosive_items : List Text

abbrev pub no_slots : Slots
no_slots = record {
  gear_items = [];
  primary_items = [];
  secondary_items = [];
  explosive_items = [];
}

abbrev pub items_of : Slot → Slots → List Text
items_of gear slots = slots.gear_items
items_of primary slots = slots.primary_items
items_of secondary slots = slots.secondary_items
items_of explosive slots = slots.explosive_items

-- slots[column].append(itemid), nothing where the column is none of the four
unfoldable pub add_item : Option Slot → Text → Slots → Slots
add_item none i slots = slots
add_item (some gear) i slots = record {
  gear_items = slots.gear_items ++ i ∷ [];
  primary_items = slots.primary_items;
  secondary_items = slots.secondary_items;
  explosive_items = slots.explosive_items;
}
add_item (some primary) i slots = record {
  gear_items = slots.gear_items;
  primary_items = slots.primary_items ++ i ∷ [];
  secondary_items = slots.secondary_items;
  explosive_items = slots.explosive_items;
}
add_item (some secondary) i slots = record {
  gear_items = slots.gear_items;
  primary_items = slots.primary_items;
  secondary_items = slots.secondary_items ++ i ∷ [];
  explosive_items = slots.explosive_items;
}
add_item (some explosive) i slots = record {
  gear_items = slots.gear_items;
  primary_items = slots.primary_items;
  secondary_items = slots.secondary_items;
  explosive_items = slots.explosive_items ++ i ∷ [];
}

-- self.loadouts, a defaultdict
abbrev pub Loadouts : Type 0
Loadouts = List (Key × Slots)

-- self.loadouts[key]
unfoldable pub slots_at : Key → Loadouts → Slots
slots_at k [] = no_slots
slots_at k ((j, slots) ∷ d) = if key_eq j k then slots else slots_at k d

unfoldable pub change : Key → (Slots → Slots) → Loadouts → Loadouts
change k f [] = (k, f no_slots) ∷ []
change k f ((j, slots) ∷ d) = if key_eq j k then (j, f slots) ∷ d else (j, slots) ∷ change k f d

abbrev pub key_of : Row → Key
key_of row = (row.steamid, row.classname)

unfoldable pub add_row : Row → Loadouts → Loadouts
unfolding add_item change
add_row row loadouts =
    if is_empty (strip row.itemid)
    then loadouts
    else change (key_of row) (add_item (map_type_to_column row.type_val) row.itemid) loadouts

unfoldable pub add_rows : List Row → Loadouts → Loadouts
add_rows [] loadouts = loadouts
add_rows (row ∷ rows) loadouts = add_rows rows (add_row row loadouts)

-- str.upper on a-z; no other letter becomes one of INSERT on latin-1
unfoldable pub upper : Text → Text
upper s = map (λ c. if leb 97 c && leb c 122 then c - 32 else c) s

abbrev pub is_insert : Text → Bool
is_insert line = starts_with (codes "INSERT") (upper (strip line))

unfoldable pub process_file : List Text → Loadouts → Loadouts
unfolding add_rows
process_file [] loadouts = loadouts
process_file (line ∷ lines) loadouts =
    process_file lines
      (if is_insert line then add_rows (parse_mysql_insert line) loadouts else loadouts)
