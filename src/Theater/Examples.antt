-- ===== src/Theater/Examples.antt =====
-- The theorems on tools/theater-build/build.py at concrete inputs, and tests of the model.
mod Chain
use tug.Base.{
  ℕ, zero, suc, ◌<◌, Bool, true, false, List, [], ◌∷◌, ◌++◌, if◌then◌else◌, Option, none, some, ◌≡◌,
  ◌≢◌, refl, arith, All,
}
use tug.Base.Text.{
  Text, codes, nl, text_eq, lower, is_space, has_char, starts_with, mem_text, text_lt,
}
use tug.Base.Result.{Result, ok, raised, too_deep, ◌>>=◌}
use tug.Theater.KeyValues.{
  Kv, Children, leaf, block, nil, cons, child, Error, not_iterable, children_of, copy, ◌+++◌,
  same_name,
}
use tug.Theater.Lexer.{tokens, lex}
use tug.Theater.Parser.{parse_children}
use tug.Theater.Merge.{merge, absorb, position, place, base_order, arrange}
use tug.Theater.Loader.{Disk, load, resolve, resolve_in, read_top, add_used}
use tug.Theater.Writer.{render}
use tug.Theater.Attachments.{Dropped, drop_orphan_attachments, registered}
use tug.Theater.Build.{build_one}
use tug.Theater.RoundTrip.{parse-render}
use tug.Theater.Quotes.{build_one-load}
use tug.Theater.Merge.Names.{merged_named}
use tug.Theater.Merge.Order.{child-merge}
use tug.Theater.Merge.DerivedWins.{value_at, value_at-merge}
use tug.Theater.Merge.BaseOrder.{names, distinct_names, names-merge}
use tug.Theater.Attachments.Clean.{drop-drop}
use tug.Theater.Loader.Terminates.{Descends, load-ends}
use tug.Theater.Build.{
  Rendered, Folder, build, check, conclude, finish, extra_files, up_to_date, stale_exit,
}
use tug.Theater.Build.Fresh.{conclude-build}
use tug.Theater.SelfContained.{load-render}

abbrev join : Text → Text → Text
join d f = d ++ (47 ∷ f)

abbrev line : Text → Text
line s = s ++ nl ∷ []

-- A theater that restates one of its base's upgrades.
abbrev derived_text : Text
derived_text =
    line (codes "#base b.theater")
    ++ line (codes "theater { // sections")
    ++ line (codes " weapon_upgrades { optic_z { cost 1 } optic_b { cost 2 } } }")

abbrev base_text : Text
base_text =
    line (codes "\"Theater\" { \"weapon_upgrades\" {")
    ++ line (codes "optic_a { \"cost\" \"5\" } OPTIC_B { cost 6 class c } } }")

abbrev disk : Disk
disk = record {
  join = join;
  read = λ f.
      if text_eq f (codes "src/a.theater")
      then some derived_text
      else if text_eq f (codes "src/b.theater")
      then some base_text
      else none;
}

abbrev loaded : Kv
loaded = block (codes "theater") (
    cons
      (block (codes "weapon_upgrades") (
        cons (block (codes "optic_a") (cons (leaf (codes "cost") (codes "5")) nil)) (
          cons
            (block (codes "optic_b") (
              cons (leaf (codes "cost") (codes "2")) (cons (leaf (codes "class") (codes "c")) nil)))
            (cons (block (codes "optic_z") (cons (leaf (codes "cost") (codes "1")) nil)) nil))))
      nil)

-- The base's order, the derived values, and the keys that only the base has.
loads :
    load disk (codes "src" ∷ []) 3 (codes "a.theater") []
    ≡ ok (loaded, codes "src/a.theater" ∷ codes "src/b.theater" ∷ [])
unfolding load merge absorb position place base_order lower text_eq is_space starts_with mem_text
    copy ◌+++◌ arrange same_name
loads = refl

build_one-load_example :
    (text : Text) × (build_one disk (codes "src" ∷ []) 3 (codes "a.theater")
      ≡ ok (record { name = codes "a.theater"; text = text; dropped = [] }))
    × (parse_children (codes "out") [] nil (tokens text (codes "out")) ≡ ok (cons loaded nil))
unfolding has_char drop_orphan_attachments registered child same_name lower text_eq mem_text
build_one-load_example =
    build_one-load disk (codes "src" ∷ []) 3 (codes "a.theater") (codes "out") loaded
      (codes "src/a.theater" ∷ codes "src/b.theater" ∷ []) loaded [] refl loads refl

abbrev small : Kv
small = block (codes "theater") (cons (leaf (codes "a b") (codes "c\\d")) nil)

abbrev small_text : Text
small_text = unfold render in elim (render (codes "s") small) [ ok t ↦ t | _ ↦ [] ]

parse-render_example :
    parse_children (codes "p") [] nil (tokens small_text (codes "p")) ≡ ok (cons small nil)
unfolding render has_char
parse-render_example = parse-render (codes "p") (codes "s") small small_text refl refl

abbrev two : Children
two =
    cons (block (codes "X") (cons (leaf (codes "k") (codes "1")) nil))
      (cons (block (codes "y") nil) nil)

abbrev over : Children
over =
    cons (block (codes "Y") nil)
      (cons (block (codes "x") (cons (leaf (codes "k") (codes "2")) nil)) nil)

child-merge_example :
    child (merge (block (codes "t") over) (block (codes "t") two) 0) (codes "x")
    ≡ merged_named (codes "x") (child (block (codes "t") over) (codes "x")) two 1
child-merge_example = child-merge (codes "x") (codes "t") (codes "t") over two 0

value_at-merge_example :
    value_at (codes "x" ∷ codes "k" ∷ []) (merge (block (codes "t") over) (block (codes "t") two) 0)
    ≡ some (codes "2")
unfolding value_at child same_name lower text_eq
value_at-merge_example =
    value_at-merge (codes "x" ∷ codes "k" ∷ []) (block (codes "t") over) (block (codes "t") two) 0
      (codes "2") refl

names-merge_example :
    (rest : List Text) × (names (
        children_of
          (merge (block (codes "weapon_upgrades") over) (block (codes "Weapon_Upgrades") two) 1))
      ≡ distinct_names [] two ++ rest)
unfolding base_order lower text_eq mem_text
names-merge_example =
    names-merge (codes "weapon_upgrades") (codes "Weapon_Upgrades") over two 1 refl

-- An attachment for a weapon that is gone, beside one for a weapon that is there.
abbrev armed : Kv
armed = block (codes "theater") (
    cons (block (codes "weapons") (cons (block (codes "m4") nil) nil)) (
      cons
        (block (codes "weapon_upgrades") (
          cons
            (block (codes "rail") (
              cons
                (block (codes "viewmodel_attachments") (
                  cons
                    (block (codes "gone") (
                      cons
                        (block (codes "weapons") (cons (leaf (codes "weapon") (codes "l1a1")) nil))
                        nil))
                    (cons
                      (block (codes "kept") (
                        cons
                          (block (codes "weapons") (cons (leaf (codes "weapon") (codes "M4")) nil))
                          nil))
                      nil)))
                nil))
            nil))
        nil))

abbrev kept_of : Result Error (Kv × List Dropped) → Kv × List Dropped
kept_of (ok r) = r
kept_of e = (leaf [] [], [])

abbrev cleaned : Kv × List Dropped
cleaned = kept_of (drop_orphan_attachments armed)

drops :
    drop_orphan_attachments armed
    ≡ ok (
      cleaned.0,
      record {
        owner = codes "rail";
        section = codes "viewmodel_attachments";
        attachment = codes "gone";
        names = codes "l1a1" ∷ [];
      }
          ∷ [],
    )
unfolding drop_orphan_attachments registered lower text_eq mem_text child same_name
drops = refl

-- The list of weapons is no block: the code raises a TypeError.
drops_nothing_iterable :
    drop_orphan_attachments
      (block (codes "theater") (cons (leaf (codes "Weapons") (codes "x")) nil))
    ≡ raised not_iterable
unfolding drop_orphan_attachments registered lower text_eq mem_text child same_name
drops_nothing_iterable = refl

drop-drop_example : drop_orphan_attachments cleaned.0 ≡ ok (cleaned.0, [])
drop-drop_example = drop-drop armed cleaned.0 _ drops
