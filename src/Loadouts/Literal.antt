-- ===== src/Loadouts/Literal.antt =====
-- The SQL literals that the migration writes, read back as PostgreSQL reads them.
use tug.Base.{
  ℕ, false, ◌&&◌, List, [], ◌∷◌, ◌++◌, if◌then◌else◌, Option, none, some, ◌==◌, ◌≡◌, refl, arith,
  Bool-cases, inl, inr, append_assoc,
}
use tug.Base.Text.{Text, codes, starts_with}
use tug.Loadouts.Insert.{escape, join_by, format_postgres_value}

-- What follows the opening quote of a literal: a doubled quote is a quote, and one alone ends it.
unfoldable pub read_literal : Text → Option (Text × Text)
read_literal [] = none
read_literal (c ∷ []) = if c == 39 then some ([], []) else none
read_literal (c ∷ d ∷ s) =
    let after_two = read_literal s in
    let after_one = read_literal (d ∷ s) in
    if c == 39 && d == 39
    then elim after_two [ none ↦ none | some (t, rest) ↦ some (39 ∷ t, rest) ]
    else if c == 39
    then some ([], d ∷ s)
    else elim after_one [ none ↦ none | some (t, rest) ↦ some (c ∷ t, rest) ]

read_literal-other :
    (c : ℕ) (t : Text)
    → (c == 39) ≡ false
    → read_literal (c ∷ t)
      ≡ elim (read_literal t) [ none ↦ none | some (s, rest) ↦ some (c ∷ s, rest) ]
unfolding read_literal
read_literal-other c [] h = rw h refl
read_literal-other c (d ∷ t) h = rw h refl

read_literal-escape :
    (s rest : Text)
    → starts_with (39 ∷ []) rest ≡ false
    → read_literal (escape s ++ (39 ∷ rest)) ≡ some (s, rest)
unfolding read_literal escape starts_with
read_literal-escape [] [] h = refl
read_literal-escape [] (d ∷ rest) h = ground arith
read_literal-escape (c ∷ s) rest h = elim (Bool-cases (c == 39)) [
  | inl e ↦ let q : c ≡ 39 = ground arith in rw (e, read_literal-escape s rest h, q) refl
  | inr ne ↦
      rw (ne, read_literal-other c (escape s ++ 39 ∷ rest) ne, read_literal-escape s rest h) refl
]

-- A value of a slot, read as PostgreSQL reads it: NULL, or the text of the items between semicolons.
unfoldable pub read_value : Text → Option (Option Text × Text)
unfolding read_literal
read_value [] = none
read_value (c ∷ s) =
    if c == 39
    then elim (read_literal s) [ none ↦ none | some (t, rest) ↦ some (some t, rest) ]
    else if starts_with (codes "NULL") (c ∷ s)
    then some (none, drop_four (c ∷ s))
    else none
  where
    drop_four : Text → Text
    drop_four (a ∷ b ∷ d ∷ e ∷ rest) = rest
    drop_four _ = []

abbrev pub stored : List Text → Option Text
stored [] = none
stored (i ∷ items) = some (join_by (59 ∷ []) (i ∷ items))

-- In front of anything but a quote, the value written for a slot reads back, by the rules of SQL
-- literals, as the items between semicolons, and as NULL where there is none.
pub read_value-format :
    (items : List Text) (rest : Text)
    → starts_with (39 ∷ []) rest ≡ false
    → read_value (format_postgres_value items ++ rest) ≡ some (stored items, rest)
unfolding read_value format_postgres_value starts_with
read_value-format [] rest h = refl
read_value-format (i ∷ items) rest h =
    rw
      (
        append_assoc (escape (join_by (59 ∷ []) (i ∷ items))) (39 ∷ []) rest,
        read_literal-escape (join_by (59 ∷ []) (i ∷ items)) rest h,
      )
      refl
