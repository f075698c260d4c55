-- ===== src/WeaponClone/Examples.antt =====
-- Concrete runs of the model of tools/weapon-clone/generate.py, with a reader of nodes that finds the first child
-- of a name.
use tug.Base.Sort.{sorted}
use tug.Base.{
  ◌-◌, false, List, [], ◌∷◌, ◌++◌, Option, none, some, keep_if, ◌≡◌, refl, All, is_empty,
  if◌then◌else◌,
}
use tug.Base.Text.{Text, codes, text_eq, lower, starts_with, is_space, mem_text}
use tug.Base.Bytes.{take, drop, slice}
use tug.Base.Split.{split_once, drop_prefix}
use tug.Base.Result.{ok}
use tug.WeaponClone.{
  Node, node, Nodes, no_nodes, more, head_of, children_of, retarget_value, insert_point,
  line_indent,
}
use tug.WeaponClone.Restate.{names, mentions, mentions_loop, count, restate, mem_id}
use tug.WeaponClone.Generate.{
  Upgrades, Restated, begin_mark, end_mark, generate, build_clones, body_of,
}
use tug.WeaponClone.Again.{block_of, generate-again}
use tug.WeaponClone.Weave.{Weave}
use tug.WeaponClone.Verbatim.{IsAddition, restate-Weave}
use tug.WeaponClone.Mentions.{nodes_of, mentions-keep_if}

abbrev first_of : Text → Nodes → Option Node
first_of name no_nodes = none
first_of name (more n ns) = if text_eq (head_of n).key name then some n else first_of name ns

abbrev find_child : Node → Text → Option Node
find_child n name = first_of name (children_of n)

abbrev text_at : Node → Text → Text
text_at n src = slice (head_of n).start ((head_of n).stop - (head_of n).start) src

-- the node of a word and a value that begins at 4
abbrev a_child : Node
a_child =
    node
      (record {
        key = codes "w";
        value = some (codes "weapon_galil_sar");
        start = 4;
        stop = 22;
        ident = 1;
      })
      no_nodes

abbrev an_upgrade : Node
an_upgrade =
    node (record { key = codes "u"; value = none; start = 0; stop = 24; ident = 0 })
      (more a_child no_nodes)

abbrev upgrade_text : Text
upgrade_text = codes "u { w weapon_galil_sar }"

abbrev restated_text : Text
restated_text = codes "u { w weapon_galil_sar\nu { w weapon_xm8 }"

restate-Weave_example :
    (adds : List Text) × Weave upgrade_text adds restated_text
    × (is_empty adds ≡ false)
    × All (IsAddition find_child text_at upgrade_text (codes "weapon_xm8")) adds
unfolding restate text_eq sorted lower mem_id retarget_value take drop starts_with drop_prefix
    insert_point is_space line_indent
restate-Weave_example =
    restate-Weave find_child text_at upgrade_text (codes "weapon_xm8") an_upgrade
      (codes "weapon_galil_sar") [] restated_text refl

mentions-keep_if_example :
    (mentions_loop (count an_upgrade) (codes "weapon_galil_sar") (an_upgrade ∷ []) []
      ≡ some (mentions an_upgrade (codes "weapon_galil_sar")))
    × (mentions an_upgrade (codes "weapon_galil_sar")
        ≡ keep_if (names (codes "weapon_galil_sar")) (nodes_of an_upgrade))
mentions-keep_if_example = mentions-keep_if an_upgrade (codes "weapon_galil_sar")

abbrev one_upgrade : Text → Upgrades
one_upgrade base =
    (
      codes "u",
      record { file = codes "tug.theater"; src = upgrade_text; upgrade = an_upgrade } ∷ [],
    )
    ∷ []

abbrev one_restated : List Restated
one_restated =
    record {
      file = codes "tug.theater";
      new = codes "weapon_xm8";
      source = codes "weapon_galil_sar";
      text = restated_text;
    }
    ∷ []

abbrev base_text : Text
base_text = codes "a\n\t" ++ (begin_mark ++ (codes "\nold\n" ++ (end_mark ++ codes "\nz")))

abbrev written : Text
written = block_of find_child text_at (codes "a\n\t") one_restated ++ (end_mark ++ codes "\nz")

generate-again_example :
    (generate find_child text_at one_upgrade base_text ≡ ok written)
    × (generate find_child text_at one_upgrade written ≡ ok written)
unfolding split_once starts_with drop_prefix build_clones sorted mem_text text_eq lower mem_id
    retarget_value take drop insert_point is_space line_indent body_of
generate-again_example =
    generate-again find_child text_at one_upgrade base_text (codes "a\n\t")
      (codes "\nold\n" ++ (end_mark ++ codes "\nz"))
      (codes "a\n\t" ++ (begin_mark ++ codes "\nold\n")) (codes "\nz") one_restated refl refl refl
      refl
