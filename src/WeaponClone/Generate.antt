-- ===== src/WeaponClone/Generate.antt =====
-- The tables, load(), build() and main() of tools/weapon-clone/generate.py, over the text of the base theater.
-- The reader of the chain of theaters is a parameter: from the base theater's text without the generated
-- block to the definitions of weapon_upgrades, each with its file and that file's text.
use tug.Base.{Bool, true, List, [], ◌∷◌, ◌++◌, any, if◌then◌else◌, Option, none, some, length}
use tug.Base.Text.{Text, codes, nl, text_eq, text_lt, mem_text}
use tug.Base.Sort.{sorted}
use tug.Base.Dict.{Dict}
use tug.Base.Split.{split_once}
use tug.Base.Result.{Result, ok, raised, ◌>>=◌}
use tug.WeaponClone.{Node, head_of, children_of, node_list, CloneError, line_indent}
use tug.WeaponClone.Restate.{restate, has_value}

abbrev pub base_name : Text
base_name = codes "theater_tug_nvg_default.theater"

abbrev pub begin_mark : Text
begin_mark =
    codes "// ===== BEGIN GENERATED by tools/weapon-clone/generate.py - do not edit by hand ====="

abbrev pub end_mark : Text
end_mark = codes "// ===== END GENERATED (weapon-clone) ====="

-- CLONES
abbrev pub clones : Dict Text
clones = (codes "weapon_xm8", codes "weapon_galil_sar") ∷ []

-- ATTACHMENTS.get(new, {}): only the XM8 has a table
abbrev pub attachments_of : Text → Dict (Option Text)
attachments_of new =
    if text_eq new (codes "weapon_xm8")
    then (codes "models/weapons/upgrades/a_mount_galil.mdl", none)
      ∷ (codes "models/weapons/upgrades/w_mount_galil.mdl", none)
      ∷ (codes "models/weapons/upgrades/a_standard_galil.mdl", none)
      ∷ (
        codes "models/weapons/upgrades/a_bipod_galil.mdl",
        some (codes "@@PATH(mdl,a_bipod_xm8.mdl)@@"),
      )
      ∷ (
        codes "models/weapons/upgrades/w_bipod_galil.mdl",
        some (codes "@@PATH(mdl,w_bipod_xm8.mdl)@@"),
      )
      ∷ []
    else []

-- SKIP_UPGRADES.get(new, ())
abbrev pub skipped_of : Text → List Text
skipped_of new = if text_eq new (codes "weapon_xm8") then codes "magazine_drum_75rd" ∷ [] else []

-- A definition: its file, the text of that, and its node.
pub record Definition : Type 0 where
  pub file : Text
  pub src : Text
  pub upgrade : Node

abbrev pub Upgrades : Type 0
Upgrades = Dict (List Definition)

-- What build() returns for one upgrade, without its key.
pub record Restated : Type 0 where
  pub file : Text
  pub new : Text
  pub source : Text
  pub text : Text

module _ (find : Node → Text → Option Node) (text_of : Node → Text → Text) where
  abbrev allows : Text → Option Node → Bool
  allows source none = true
  allows source (some allowed) = any (has_value source) (node_list (children_of allowed))

  -- The loop body for one upgrade: none where it is passed over.
  unfoldable pub build_upgrade : Text → Text → List Definition → Result CloneError (Option Restated)
  unfolding restate node_list
  build_upgrade new source [] = raised CloneError.index_error
  build_upgrade new source (d ∷ ds) =
      if allows source (find d.upgrade (codes "allowed_weapons"))
      then (restate find text_of d.src d.upgrade new source (attachments_of new) >>= λ found.
          elim found [
            | none ↦ ok none
            | some text ↦
                if text_eq d.file base_name
                then raised (CloneError.by_hand (head_of d.upgrade).key)
                else ok (some (record { file = d.file; new = new; source = source; text = text }))
          ])
      else ok none

  abbrev add_found : Option Restated → List Restated → List Restated
  add_found none items = items
  add_found (some item) items = item ∷ items

  unfoldable pub build_clone : Text → Text → Upgrades → Result CloneError (List Restated)
  unfolding build_upgrade
  build_clone new source [] = ok []
  build_clone new source ((name, definitions) ∷ upgrades) =
      let later = build_clone new source upgrades in
      if mem_text name (skipped_of new) then later else do
        found ← build_upgrade new source definitions
        items ← later
        ok (add_found found items)

  abbrev by_name : Text × List Definition → Text × List Definition → Bool
  by_name a b = text_lt a.0 b.0

  unfoldable pub build_clones : Dict Text → Upgrades → Result CloneError (List Restated)
  unfolding build_clone
  build_clones [] upgrades = ok []
  build_clones ((new, source) ∷ more) upgrades = do
    items ← build_clone new source (sorted by_name upgrades)
    rest ← build_clones more upgrades
    ok (items ++ rest)

  unfoldable pub item_text : Text → Restated → Text
  item_text indent item =
      indent
      ++ (codes "// from "
          ++ (item.file
              ++ (codes ": "
                  ++ (item.new
                      ++ (codes " added beside "
                          ++ (item.source ++ (nl ∷ (indent ++ item.text))))))))

  -- "\n\n".join()
  unfoldable pub body_of : Text → List Restated → Text
  unfolding item_text
  body_of indent [] = []
  body_of indent (item ∷ []) = item_text indent item
  body_of indent (item ∷ next ∷ items) =
      item_text indent item ++ (nl ∷ nl ∷ body_of indent (next ∷ items))

  -- main(): what is written to the base theater
  unfoldable pub generate : (Text → Upgrades) → Text → Result CloneError Text
  unfolding build_clones body_of line_indent
  generate theater src = elim (split_once begin_mark src) [
    | none ↦ raised CloneError.no_markers
    | some (before, _) ↦ elim (split_once end_mark src) [
      | none ↦ raised CloneError.no_markers
      | some (_, after) ↦ build_clones clones (theater (before ++ after)) >>= λ items.
          let indent = line_indent src (length before) in
          ok (
            before
            ++ (begin_mark
                ++ (nl
                    ∷ (nl
                        ∷ (body_of indent items
                            ++ (nl ∷ (nl ∷ (indent ++ (end_mark ++ after)))))))))
    ]
  ]
