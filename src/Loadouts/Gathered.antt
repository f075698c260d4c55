-- ===== src/Loadouts/Gathered.antt =====
-- What a migrated loadout holds, said of the rows of the dump and not of the loops over them.
use tug.Base.{
  Bool, true, false, not, ◌&&◌, ◌||◌, ◌==◌, List, [], ◌∷◌, ◌++◌, if◌then◌else◌, Option, none, some,
  is_empty,
}
use tug.Base.Text.{Text, codes}
use tug.Workshop.Refresh.{strip}
use tug.Loadouts.{
  Row, Slot, gear, primary, secondary, explosive, Key, Loadouts, key_eq, key_of, map_type_to_column,
  parse_mysql_insert, contains, find_rows, is_insert,
}

abbrev pub is_slot : Slot → Slot → Bool
is_slot gear gear = true
is_slot primary primary = true
is_slot secondary secondary = true
is_slot explosive explosive = true
is_slot _ _ = false

abbrev pub goes_to : Option Slot → Slot → Bool
goes_to none s = false
goes_to (some t) s = is_slot t s

-- A row of an item that is no NULL and no blank text.
abbrev for_slot : Key → Slot → Row → Bool
for_slot k s row =
    not (is_empty (strip row.itemid))
    && (key_eq (key_of row) k && goes_to (map_type_to_column row.type_val) s)

-- A row of the server 1 whose item, no NULL and no blank text, is for the slot s of the loadout k.
abbrev pub belongs : Key → Slot → Row → Bool
belongs k s row = row.server_id == 1 && for_slot k s row

abbrev pub itemid_of : Row → Text
itemid_of row = row.itemid

-- A line that begins with INSERT, in any case, and names the statement or the table.
abbrev pub has_rows : Text → Bool
has_rows line =
    is_insert line && (contains (codes "INSERT INTO") line || contains (codes "saveloadout") line)

-- The rows of a dump, whatever their server and their item: what the pattern matches in the lines that
-- have rows. In none of them does a string hold a quote.
abbrev pub dump_rows : List Text → List Row
dump_rows [] = []
dump_rows (line ∷ lines) = (if has_rows line then find_rows 0 line else []) ++ dump_rows lines

-- The rows that the migration adds.
abbrev rows_of : List Text → List Row
rows_of [] = []
rows_of (line ∷ lines) = (if is_insert line then parse_mysql_insert line else []) ++ rows_of lines
