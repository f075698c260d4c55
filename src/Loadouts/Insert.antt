-- ===== src/Loadouts/Insert.antt =====
-- The PostgreSQL statement that tools/migrate_loadouts.py writes.
use tug.Base.{ℕ, Bool, List, [], ◌∷◌, ◌++◌, map, if◌then◌else◌, ◌==◌, length}
use tug.Base.Text.{Text, codes, nl}
use tug.Base.Sort.{sorted}
use tug.Base.Numbers.{decimal}
use tug.Loadouts.{Key, Slots, Loadouts, key_lt}

-- s.replace("'", "''")
unfoldable pub escape : Text → Text
escape [] = []
escape (c ∷ s) = if c == 39 then 39 ∷ 39 ∷ escape s else c ∷ escape s

-- separator.join(parts)
unfoldable pub join_by : Text → List Text → Text
join_by separator [] = []
join_by separator (s ∷ []) = s
join_by separator (s ∷ t ∷ ts) = s ++ (separator ++ join_by separator (t ∷ ts))

unfoldable pub format_postgres_value : List Text → Text
unfolding escape join_by
format_postgres_value [] = codes "NULL"
format_postgres_value (i ∷ items) = 39 ∷ (escape (join_by (59 ∷ []) (i ∷ items)) ++ 39 ∷ [])

abbrev comma : Text
comma = codes ", "

unfoldable pub value_line : Key × Slots → Text
unfolding escape format_postgres_value
value_line ((steamid, classname), slots) =
    codes "    ("
    ++ (decimal steamid
        ++ (codes ", '"
            ++ (escape classname
                ++ (codes "', "
                    ++ (format_postgres_value slots.gear_items
                        ++ (comma
                            ++ (format_postgres_value slots.primary_items
                                ++ (comma
                                    ++ (format_postgres_value slots.secondary_items
                                        ++ (comma
                                            ++ (format_postgres_value slots.explosive_items
                                                ++ codes ")")))))))))))

abbrev lines_of : List Text → Text
lines_of [] = []
lines_of (l ∷ ls) = l ++ (nl ∷ lines_of ls)

abbrev entry_lt : Key × Slots → Key × Slots → Bool
entry_lt a b = key_lt a.0 b.0

unfoldable pub header_lines : Text → ℕ → List Text
header_lines input_file total =
    codes "-- ====================================================="
    ∷ codes "-- Migrated Loadout Data from MySQL saveloadout table"
    ∷ (codes "-- Source: " ++ input_file)
    ∷ codes "-- Filtered for server_id = 1 only"
    ∷ (codes "-- Total loadouts: " ++ decimal total)
    ∷ codes "-- ====================================================="
    ∷ []
    ∷ []

unfoldable pub statement_lines : Loadouts → List Text
unfolding value_line join_by
statement_lines loadouts =
    codes "BEGIN;"
    ∷ []
    ∷ codes
        "INSERT INTO loadouts (steam_id, class_template, gear, primary_weapon, secondary_weapon, explosive)"
    ∷ codes "VALUES"
    ∷ join_by (44 ∷ nl ∷ []) (map value_line (sorted entry_lt loadouts))
    ∷ codes "ON CONFLICT (steam_id, class_template) DO UPDATE SET"
    ∷ codes "    gear = EXCLUDED.gear,"
    ∷ codes "    primary_weapon = EXCLUDED.primary_weapon,"
    ∷ codes "    secondary_weapon = EXCLUDED.secondary_weapon,"
    ∷ codes "    explosive = EXCLUDED.explosive,"
    ∷ codes "    updated_at = CURRENT_TIMESTAMP,"
    ∷ codes "    update_count = loadouts.update_count + 1;"
    ∷ []
    ∷ codes "COMMIT;"
    ∷ []
    ∷ (codes "-- Successfully migrated " ++ (decimal (length loadouts) ++ codes " loadouts"))
    ∷ []

unfoldable pub generate_postgres_insert : Text → Loadouts → Text
unfolding header_lines statement_lines
generate_postgres_insert input_file loadouts = lines_of (
    header_lines input_file (length loadouts)
    ++ (if length loadouts == 0
        then codes "-- No loadouts found for server_id = 1" ∷ []
        else statement_lines loadouts))
