-- ===== src/WeaponClone.antt =====
-- The texts of tools/weapon-clone/generate.py: nodes of a source with their places in it, and the edits that
-- put a new weapon beside another. Nodes come from the reader of another tool: of a node the model has
-- the attributes that the script reads, and find() and text() are parameters.
pub mod Restate
pub mod Generate
pub mod Again
pub mod Weave
pub mod Named
pub mod Verbatim
pub mod Mentions
mod Examples
use tug.Base.{
  ℕ, zero, suc, ◌+◌, ◌-◌, Bool, true, false, not, ◌&&◌, ◌||◌, List, [], ◌∷◌, ◌++◌, if◌then◌else◌,
  Option, none, some, ltb, leb, ◌==◌, is_empty, length,
}
use tug.Base.Text.{
  Text, codes, nl, lower, is_space, text_eq, text_lt, starts_with, has_char, rsplit,
}
use tug.Base.Bytes.{take, drop}
use tug.Base.Sort.{sorted}
use tug.Base.Split.{drop_prefix}
use tug.Base.Result.{Result, ok, raised, too_deep, ◌>>=◌}
use tug.Workshop.Refresh.{strip}

-- key, value (None for a block), start, end and id()
pub record Head : Type 0 where
  pub key : Text
  pub value : Option Text
  pub start : ℕ
  pub stop : ℕ
  pub ident : ℕ

-- A node with its children, none where they are None.
mutual
  pub data Node : Type 0 where
    node : Head → Nodes → Node

  pub data Nodes : Type 0 where
    no_nodes : Nodes
    more : Node → Nodes → Nodes

abbrev pub head_of : Node → Head
head_of (node h children) = h

abbrev pub children_of : Node → Nodes
children_of (node h children) = children

unfoldable pub node_list : Nodes → List Node
node_list no_nodes = []
node_list (more n ns) = n ∷ node_list ns

-- What sys.exit() reports, and the exceptions of a shape that the script does not expect.
pub data CloneError : Type 0 where
  not_at_start not_at_end names_again by_hand : Text → CloneError
  outside : Text → CloneError
  no_markers attribute_error index_error : CloneError

-- s[:k] and s[k:] for k = a - b, which counts from the end where it is negative
unfoldable pub take_to : ℕ → ℕ → Text → Text
take_to a b s = if leb b a then take (a - b) s else take (length s - (b - a)) s

unfoldable pub drop_to : ℕ → ℕ → Text → Text
drop_to a b s = if leb b a then drop (a - b) s else drop (length s - (b - a)) s

-- s[s.rfind("\n") + 1:]
unfoldable pub last_line : Text → Text
unfolding rsplit
last_line s = elim (rsplit nl s) [ none ↦ s | some (before, after) ↦ after ]

unfoldable pub line_indent : Text → ℕ → Text
unfolding last_line
line_indent src pos = last_line (take pos src)

-- src[pos:src.find("\n", pos)]
unfoldable pub rest_of_line : Text → Text
rest_of_line [] = []
rest_of_line (c ∷ s) = let rest = rest_of_line s in if c == nl then [] else c ∷ rest

unfoldable pub insert_point : Text → Node → ℕ
unfolding rest_of_line strip
insert_point src n =
    let after = drop (head_of n).stop src in
    let rest = rest_of_line after in
    let eol = if has_char nl after then (head_of n).stop + length rest else length src in
    if is_empty (strip rest) || starts_with (codes "//") (strip rest) then eol else (head_of n).stop

-- A text that begins with `old` in any case, without it.
abbrev without : Text → Text → Option Text
without old s = if starts_with (lower old) (lower s) then some (drop_prefix old s) else none

-- ("?) before a match, with the match that is tried first
abbrev quote_of : Text → Text × Text
quote_of [] = ([], [])
quote_of (c ∷ s) = if c == 34 then (34 ∷ [], s) else ([], c ∷ s)

-- ("?)old("?) at the start of a text: the two groups and the rest. No name begins with a quote.
unfoldable pub key_at : Text → Text → Option (Text × (Text × Text))
key_at old s =
    let (q, inner) = quote_of s in
    elim (without old inner) [
      | some rest ↦ some (q, quote_of rest)
      | none ↦ elim (without old s) [ some rest ↦ some ([], quote_of rest) | none ↦ none ]
    ]

unfoldable pub retarget_key : Text → Text → Text → Result CloneError Text
unfolding key_at
retarget_key text old new = elim (key_at old text) [
  | none ↦ raised (not_at_start text)
  | some (q, (r, rest)) ↦ ok (q ++ (new ++ (r ++ rest)))
]

-- ("?)old("?)(\s*)$ at the start of a text: the three groups
unfoldable pub value_at : Text → Text → Option (Text × (Text × Text))
unfolding key_at strip
value_at old s = elim (key_at old s) [
  | none ↦ none
  | some (q, (r, rest)) ↦ if is_empty (strip rest) then some (q, (r, rest)) else none
]

-- re.subn() with a count of 1: the first place that matches
unfoldable pub retarget_from : Text → Text → Text → Option Text
unfolding value_at
retarget_from old new [] = elim (value_at old []) [
  | none ↦ none
  | some (q, (r, space)) ↦ some (q ++ (new ++ (r ++ space)))
]
retarget_from old new (c ∷ s) =
    let later = retarget_from old new s in
    elim (value_at old (c ∷ s)) [
      | some (q, (r, space)) ↦ some (q ++ (new ++ (r ++ space)))
      | none ↦ elim later [ none ↦ none | some t ↦ some (c ∷ t) ]
    ]

unfoldable pub retarget_value : Text → Text → Text → Result CloneError Text
unfolding retarget_from
retarget_value text old new = elim (retarget_from old new text) [
  | none ↦ raised (not_at_end text)
  | some t ↦ ok t
]

-- s.replace(old, new), with as many steps as the text has characters; an empty old is found before
-- each character and at the end
unfoldable pub replace_from : ℕ → Text → Text → Text → Text
replace_from zero old new s = if is_empty old then new else s
replace_from (suc steps) old new [] = if is_empty old then new else []
replace_from (suc steps) old new (c ∷ s) =
    let found = starts_with old (c ∷ s) in
    let rest =
      replace_from steps old new
        (if found && not (is_empty old) then drop_prefix old (c ∷ s) else s) in
    if is_empty old then new ++ (c ∷ rest) else if found then new ++ rest else c ∷ rest

unfoldable pub replace : Text → Text → Text → Text
unfolding replace_from
replace s old new = replace_from (length s) old new s

-- A piece of a text that is replaced.
pub record Edit : Type 0 where
  pub from : ℕ
  pub to : ℕ
  pub by : Text

-- x before y in sorted(..., reverse=True)
abbrev edit_lt : Edit → Edit → Bool
edit_lt x y =
    ltb y.from x.from
    || (y.from == x.from && (ltb y.to x.to || (y.to == x.to && text_lt y.by x.by)))

unfoldable pub apply_edits : ℕ → Text → List Edit → Text
unfolding take_to drop_to
apply_edits start text [] = text
apply_edits start text (e ∷ es) =
    apply_edits start (take_to e.from start text ++ (e.by ++ drop_to e.to start text)) es

-- new[len("weapon_"):] if new.startswith("weapon_") else new
unfoldable pub suffix_of : Text → Text
suffix_of new = if starts_with (codes "weapon_") new then drop_prefix (codes "weapon_") new else new

module _ (find : Node → Text → Option Node) (text_of : Node → Text → Text) where
  abbrev weapons_text : Text → Text → Text
  weapons_text ind new =
      codes "\"weapons\"\n"
      ++ (ind
          ++ (codes "{\n"
              ++ (ind
                  ++ (codes "\t\"weapon\"\t\t\t\t\""
                      ++ (new ++ (codes "\"\n" ++ (ind ++ codes "}")))))))

  -- clone_attachment()
  unfoldable pub clone_attachment : Text → Node → Text → Text → Result CloneError Text
  unfolding line_indent apply_edits replace suffix_of retarget_key
  clone_attachment src att new model = elim (find att (codes "model")) [
    | none ↦ raised attribute_error
    | some m ↦ elim (find att (codes "weapons")) [
      | none ↦ raised attribute_error
      | some ws ↦ elim ((head_of m).value) [
        | none ↦ raised attribute_error
        | some value ↦
            let ind = line_indent src (head_of ws).start in
            let edits : List Edit =
              record {
                from = (head_of m).start;
                to = (head_of m).stop;
                by = replace (text_of m src) value model;
              }
              ∷ record {
                from = (head_of ws).start;
                to = (head_of ws).stop;
                by = weapons_text ind new;
              }
              ∷ [] in
            let text = apply_edits (head_of att).start (text_of att src) (sorted edit_lt edits) in
            retarget_key text (head_of att).key ((head_of att).key ++ (95 ∷ suffix_of new))
      ]
    ]
  ]
