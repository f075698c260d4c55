-- ===== src/Theater/Attachments.antt =====
-- drop_orphan_attachments() of tools/theater-build/build.py: an attachment whose "weapons" list
-- names only weapons that are not registered is removed and reported. A "weapons" entry of the theater
-- that is no block has no children to iterate: the code raises a TypeError.
pub mod Clean
use tug.Base.{
  ℕ, zero, suc, Bool, true, false, not, ◌&&◌, ◌||◌, List, [], ◌∷◌, ◌++◌, if◌then◌else◌, Option,
  none, some, any, is_empty,
}
use tug.Base.Text.{Text, codes, lower, text_eq, mem_text}
use tug.Base.Result.{Result, ok, raised, ◌>>=◌}
use tug.Theater.KeyValues.{
  Kv, Children, leaf, block, nil, cons, name_of, children_of, child, Error, not_iterable,
}

abbrev pub attachment_sections : List Text
attachment_sections = codes "viewmodel_attachments" ∷ codes "world_attachments" ∷ []

-- c.name.lower() in ATTACHMENT_SECTIONS
unfoldable pub is_section : Text → Bool
is_section n = mem_text (lower n) attachment_sections

-- b is not None and b.children is None and b.value not in ("0", "")
unfoldable pub is_set : Option Kv → Bool
is_set none = false
is_set (some (leaf n v)) = not (mem_text v (codes "0" ∷ [] ∷ []))
is_set (some (block n cs)) = false

unfoldable pub is_base : Kv → Bool
unfolding is_set
is_base kv = is_set (child kv (codes "IsBase"))

unfoldable pub registered_in : Children → List Text
unfolding is_base
registered_in nil = []
registered_in (cons w ws) =
    let rest = registered_in ws in if is_base w then rest else lower (name_of w) ∷ rest

-- weapons.children if weapons else (): the children of a leaf are None, which is not iterable
unfoldable pub weapons_of : Option Kv → Result Error Children
weapons_of none = ok nil
weapons_of (some (leaf n v)) = raised not_iterable
weapons_of (some (block n ws)) = ok ws

-- The lowered names of the weapons that are not bases.
unfoldable pub registered : Kv → Result Error (List Text)
unfolding registered_in weapons_of
registered root = weapons_of (child root (codes "weapons")) >>= λ ws. ok (registered_in ws)

-- ws.children or (), if there is a ws
abbrev children_of? : Option Kv → Children
children_of? none = nil
children_of? (some kv) = children_of kv

-- [w.value.lower() for w in (ws.children or ()) if w.children is None]
unfoldable pub leaf_values : Children → List Text
leaf_values nil = []
leaf_values (cons (leaf n v) ws) = lower v ∷ leaf_values ws
leaf_values (cons (block n cs) ws) = leaf_values ws

-- The weapon names that restrict an attachment.
unfoldable pub weapon_names : Kv → List Text
unfolding leaf_values
weapon_names (leaf n v) = []
weapon_names (block n cs) = leaf_values (children_of? (child (block n cs) (codes "weapons")))

-- names and not any(n in registered for n in names)
unfoldable pub is_orphan : List Text → Kv → Bool
unfolding weapon_names
is_orphan known att =
    not (is_empty (weapon_names att)) && not (any (λ n. mem_text n known) (weapon_names att))

-- A report line: definition, section, attachment, names.
pub record Dropped : Type 0 where
  pub owner : Text
  pub section : Text
  pub attachment : Text
  pub names : List Text

-- The loop over the attachments of one section: `keep`, and what was dropped.
unfoldable pub keep_attachments : List Text → Text → Text → Children → Children × List Dropped
unfolding is_orphan
keep_attachments known owner section nil = (nil, [])
keep_attachments known owner section (cons att atts) =
    let rest = keep_attachments known owner section atts in
    if is_orphan known att
    then (
      rest.0,
      record {
        owner = owner;
        section = section;
        attachment = name_of att;
        names = weapon_names att;
      }
          ∷ rest.1,
    )
    else (cons att rest.0, rest.1)

-- walk(kv, owner): the children of kv after the walk, and what it dropped.
unfoldable mutual
  pub walk : List Text → Text → Children → Children × List Dropped
  walk known owner nil = (nil, [])
  walk known owner (cons c cs) =
      let here = walk_child known owner c in
      let rest = walk known owner cs in (cons here.0 rest.0, here.1 ++ rest.1)

  pub walk_child : List Text → Text → Kv → Kv × List Dropped
  walk_child known owner (leaf n v) = (leaf n v, [])
  walk_child known owner (block n cs) =
      let inner = walk known owner cs in
      let kept = keep_attachments known owner n cs in
      let r = (if is_section n then kept else inner) in (block n r.0, r.1)

-- for definition in section.children: a definition is walked under its own name
unfoldable pub walk_definitions : List Text → Children → Children × List Dropped
unfolding walk keep_attachments is_section
walk_definitions known nil = (nil, [])
walk_definitions known (cons (leaf n v) ds) =
    let rest = walk_definitions known ds in (cons (leaf n v) rest.0, rest.1)
walk_definitions known (cons (block n cs) ds) =
    let here = walk known n cs in
    let rest = walk_definitions known ds in (cons (block n here.0) rest.0, here.1 ++ rest.1)

-- for section in root.children
unfoldable pub walk_sections : List Text → Children → Children × List Dropped
unfolding walk_definitions
walk_sections known nil = (nil, [])
walk_sections known (cons (leaf n v) ss) =
    let rest = walk_sections known ss in (cons (leaf n v) rest.0, rest.1)
walk_sections known (cons (block n ds) ss) =
    let here = walk_definitions known ds in
    let rest = walk_sections known ss in (cons (block n here.0) rest.0, here.1 ++ rest.1)

-- The root after the loop over its sections, and what was dropped.
unfoldable pub drop_unregistered : List Text → Kv → Kv × List Dropped
unfolding walk_sections
drop_unregistered known (leaf n v) = (leaf n v, [])
drop_unregistered known (block n ss) = let r = walk_sections known ss in (block n r.0, r.1)

unfoldable pub drop_orphan_attachments : Kv → Result Error (Kv × List Dropped)
unfolding registered drop_unregistered
drop_orphan_attachments root = registered root >>= λ known. ok (drop_unregistered known root)
