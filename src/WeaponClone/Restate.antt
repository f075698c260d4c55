-- ===== src/WeaponClone/Restate.antt =====
-- mentions() and restate() of tools/weapon-clone/generate.py.
use tug.Base.{
  ℕ, zero, suc, ◌+◌, ◌-◌, Bool, false, not, ◌&&◌, ◌||◌, List, [], ◌∷◌, ◌++◌, map, any,
  if◌then◌else◌, Option, none, some, ltb, leb, ◌==◌, is_empty, length,
}
use tug.Base.Text.{Text, codes, lower, text_eq, text_lt}
use tug.Base.Bytes.{take, drop}
use tug.Base.Sort.{sorted}
use tug.Base.Dict
use tug.Base.Dict.{Dict}
use tug.Base.Result.{Result, ok, raised, ◌>>=◌}
use tug.WeaponClone.{
  Node, node, Nodes, no_nodes, more, head_of, children_of, node_list, CloneError, line_indent,
  insert_point, retarget_key, retarget_value, clone_attachment,
}

-- (n.value or "").lower() == name
abbrev pub has_value : Text → Node → Bool
has_value name n = elim ((head_of n).value) [
  | none ↦ text_eq [] name
  | some value ↦ text_eq (lower value) name
]

abbrev pub names : Text → Node → Bool
names name n = text_eq (lower (head_of n).key) name || has_value name n

-- The stack, its last element first.
unfoldable pub push_all : Nodes → List Node → List Node
push_all no_nodes stack = stack
push_all (more n ns) stack = push_all ns (n ∷ stack)

-- The loop of mentions(); none where the fuel does not suffice.
unfoldable pub mentions_loop : ℕ → Text → List Node → List Node → Option (List Node)
unfolding push_all
mentions_loop fuel name [] out = some out
mentions_loop zero name (n ∷ stack) out = none
mentions_loop (suc fuel) name (n ∷ stack) out =
    mentions_loop fuel name (push_all (children_of n) stack)
      (if names name n then out ++ n ∷ [] else out)

-- How many nodes there are.
unfoldable mutual
  pub count : Node → ℕ
  count (node h children) = suc (count_all children)

  pub count_all : Nodes → ℕ
  count_all no_nodes = 0
  count_all (more n ns) = count n + count_all ns

unfoldable pub or_no_nodes : Option (List Node) → List Node
or_no_nodes none = []
or_no_nodes (some ns) = ns

-- mentions(), with as many rounds as there are nodes
unfoldable pub mentions : Node → Text → List Node
unfolding mentions_loop count or_no_nodes
mentions n name = or_no_nodes (mentions_loop (count n) name (n ∷ []) [])

-- An insert: its place and its text.
abbrev pub Insert : Type 0
Insert = ℕ × Text

-- x before y in sorted(inserts, reverse=True)
abbrev pub insert_lt : Insert → Insert → Bool
insert_lt x y = ltb y.0 x.0 || (y.0 == x.0 && text_lt y.1 x.1)

-- The last loop of restate(), on a text that starts at `start` of the source.
unfoldable pub apply_inserts : Text → ℕ → Text → List Insert → Result CloneError Text
apply_inserts key start text [] = ok text
apply_inserts key start text ((pos, add) ∷ inserts) =
    let rel = pos - start in
    if leb start pos && leb rel (length text)
    then apply_inserts key start (take rel text ++ (add ++ drop rel text)) inserts
    else raised (CloneError.outside key)

-- inserts and handled
pub record Progress : Type 0 where
  pub inserts : List Insert
  pub handled : List ℕ

unfoldable pub mem_id : ℕ → List ℕ → Bool
mem_id i [] = false
mem_id i (j ∷ js) = i == j || mem_id i js

abbrev pub attachment_sections : List Text
attachment_sections = codes "viewmodel_attachments" ∷ codes "world_attachments" ∷ []

-- .lower().replace("\\", "/")
unfoldable pub model_path : Text → Text
model_path s = map (λ c. if c == 92 then 47 else c) (lower s)

module _ (find : Node → Text → Option Node) (text_of : Node → Text → Text) where
  abbrev pub children_at : Option Node → List Node
  children_at none = []
  children_at (some n) = node_list (children_of n)

  -- The model that the table has for an attachment: none where it is not in the table.
  unfoldable pub listed_model : Dict (Option Text) → Node → Result CloneError (Option (Option Text))
  unfolding model_path
  listed_model attachments att = elim (find att (codes "model")) [
    | none ↦ ok none
    | some m ↦ elim ((head_of m).value) [
      | none ↦ raised CloneError.attribute_error
      | some value ↦ ok (Dict.get (model_path value) attachments)
    ]
  ]

  abbrev ids : List Node → List ℕ
  ids ns = map (λ n. (head_of n).ident) ns

  -- The rest of the loop body for an attachment that fits the source weapon.
  unfoldable pub attach_listed :
      Text → Text → Text → Progress → Node → Option (Option Text) → Result CloneError Progress
  unfolding mentions
  attach_listed src new source p att none = ok p
  attach_listed src new source p att (some none) =
      ok (record { inserts = p.inserts; handled = ids (mentions att source) ++ p.handled })
  attach_listed src new source p att (some (some model)) =
      clone_attachment find text_of src att new model >>= λ copy. ok (record {
        inserts =
            p.inserts
            ++ (insert_point src att, 10 ∷ (10 ∷ (line_indent src (head_of att).start ++ copy)))
              ∷ [];
        handled = ids (mentions att source) ++ p.handled;
      })

  -- The loop body for an attachment.
  unfoldable pub attach :
      Text → Text → Text → Dict (Option Text) → Progress → Node → Result CloneError Progress
  unfolding listed_model node_list attach_listed
  attach src new source attachments p att =
      if any (has_value source) (children_at (find att (codes "weapons")))
      then (listed_model attachments att >>= λ found. attach_listed src new source p att found)
      else ok p

  unfoldable pub attach_all :
      Text → Text → Text → Dict (Option Text) → Progress → List Node → Result CloneError Progress
  unfolding attach
  attach_all src new source attachments p [] = ok p
  attach_all src new source attachments p (att ∷ atts) = do
    q ← attach src new source attachments p att
    attach_all src new source attachments q atts

  unfoldable pub attach_sections :
      Text
      → Node
      → Text
      → Text
      → Dict (Option Text)
      → Progress
      → List Text
      → Result CloneError Progress
  unfolding attach_all
  attach_sections src upgrade new source attachments p [] = ok p
  attach_sections src upgrade new source attachments p (section ∷ sections) = do
    q ← attach_all src new source attachments p (children_at (find upgrade section))
    attach_sections src upgrade new source attachments q sections

  abbrev pub starts_before : Node → Node → Bool
  starts_before m n = ltb (head_of m).start (head_of n).start

  -- The copy of a mention with the new weapon in it.
  unfoldable pub copy_mention : Text → Node → Text → Text → Node → Result CloneError Text
  unfolding mentions
  copy_mention src upgrade new source n =
      if text_eq (lower (head_of n).key) source
      then if any (λ c. not ((head_of c).ident == (head_of n).ident)) (mentions n source)
        then raised (CloneError.names_again (head_of n).key)
        else retarget_key (text_of n src) (head_of n).key new
      else elim ((head_of n).value) [
        | none ↦ raised CloneError.attribute_error
        | some value ↦ retarget_value (text_of n src) value new
      ]

  unfoldable pub mention_all :
      Text → Node → Text → Text → Progress → List Node → Result CloneError Progress
  unfolding copy_mention
  mention_all src upgrade new source p [] = ok p
  mention_all src upgrade new source p (n ∷ ns) =
      let skipped = mention_all src upgrade new source p ns in
      if mem_id (head_of n).ident p.handled then skipped else do
        copy ← copy_mention src upgrade new source n
        mention_all src upgrade new source
            (record {
              inserts =
                  p.inserts
                  ++ (insert_point src n, 10 ∷ (line_indent src (head_of n).start ++ copy)) ∷ [];
              handled = (head_of n).ident ∷ p.handled;
            })
            ns

  -- restate(): none where nothing has changed
  unfoldable pub restate :
      Text → Node → Text → Text → Dict (Option Text) → Result CloneError (Option Text)
  unfolding attach_sections mention_all mentions apply_inserts
  restate src upgrade new source attachments = do
    p ←
        attach_sections src upgrade new source attachments (record { inserts = []; handled = [] })
          attachment_sections
    q ← mention_all src upgrade new source p (sorted starts_before (mentions upgrade source))
    if is_empty q.inserts
        then ok none
        else (apply_inserts (head_of upgrade).key (head_of upgrade).start (text_of upgrade src)
              (sorted insert_lt q.inserts)
            >>= λ text. ok (some text))
