-- ===== src/Loadouts/Examples.antt =====
-- The theorems on the migration at one value.
use tug.Workshop.Refresh.{strip}
use tug.Base.{List, [], ◌∷◌, some, ◌≡◌, refl}
use tug.Base.Text.{Text, codes, starts_with, is_space}
use tug.Loadouts.{contains, find_rows, upper}
use tug.Loadouts.Insert.{format_postgres_value}
use tug.Loadouts.Literal.{read_value, read_value-format}
use tug.Loadouts.Gathered.{dump_rows}

abbrev two_items : List Text
two_items = codes "it's" ∷ codes "b" ∷ []

read_value-format_example :
    read_value (codes "'it''s;b', NULL") ≡ some (some (codes "it's;b"), codes ", NULL")
unfolding read_value format_postgres_value starts_with
read_value-format_example = read_value-format two_items (codes ", NULL") refl

abbrev dump : List Text
dump =
    codes
      "INSERT INTO `saveloadout` VALUES (1,1,76,'medic','gear','a'),(2,2,76,'medic','gear','b'),(3,1,76,'medic','Gear_Slot','c'),(4,1,76,'medic','gear',NULL);"
    ∷ []

-- A string with an escaped quote: the pattern does not match the row.
escaped_quote :
    dump_rows (codes "INSERT INTO `saveloadout` VALUES (1,1,76,'medic','gear','it\\'s');" ∷ []) ≡ []
unfolding starts_with upper strip is_space contains find_rows
escaped_quote = refl
