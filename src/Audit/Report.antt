-- ===== src/Audit/Report.antt =====
-- write_strip_config() and write_stubs() of tools/bspaudit/audit.py: the text of the strip rules,
-- and the stub files by their paths.
use tug.Base.{
  ℕ, ◌+◌, Bool, ◌&&◌, List, [], ◌∷◌, ◌++◌, map, if◌then◌else◌, none, some, ◌==◌, is_empty,
}
use tug.Base.Text.{rsplit, Text, codes, text_lt, mem_text, starts_with}
use tug.Base.Sort.{sorted}
use tug.Base.Dict.{Dict, append_to}
use tug.Base.Numbers.{decimal}
use tug.Audit.{MapReport, Refs}
use tug.Workshop.Splice.{join_lines}
use tug.Workshop.Refresh.{first_seen}
use tug.Loadouts.Insert.{join_by}

abbrev pub never_strip : List Text
never_strip = codes "worldspawn" ∷ []

-- (mat, classname, key); `rsplit 46` is reason.rsplit(".", 1)
pub record Rule : Type 0 where
  pub mat : Text
  pub classname : Text
  pub key : Text

unfoldable pub rules_of : Text → List Text → List Rule
unfolding rsplit
rules_of m [] = []
rules_of m (reason ∷ reasons) =
    let rest = rules_of m reasons in
    elim (rsplit 46 reason) [
      | none ↦ rest
      | some (class, k) ↦
          if mem_text class never_strip
          then rest
          else record { mat = m; classname = class; key = k } ∷ rest
    ]

unfoldable pub rules_in : Refs → List Rule
unfolding rules_of
rules_in [] = []
rules_in ((m, reasons) ∷ missing) = rules_of m reasons ++ rules_in missing

abbrev pub missing_lt : Text × List Text → Text × List Text → Bool
missing_lt a b = text_lt a.0 b.0

abbrev tabs2 : Text
tabs2 = 9 ∷ 9 ∷ []

-- '\t\t\t"key"\t\t\t"value"'
unfoldable pub rule_pair : Text → Text → Text
rule_pair k v = 9 ∷ 9 ∷ 9 ∷ 34 ∷ (k ++ (34 ∷ 9 ∷ 9 ∷ (v ++ 34 ∷ [])))

unfoldable pub rule_lines : ℕ → List Rule → List Text
unfolding rule_pair
rule_lines i [] = []
rule_lines i (rule ∷ rules) =
    (tabs2 ++ (codes "\"rule" ++ (decimal i ++ 34 ∷ [])))
    ∷ (tabs2 ++ 123 ∷ [])
    ∷ rule_pair (codes "classname") (34 ∷ rule.classname)
    ∷ rule_pair (codes "key") (9 ∷ 34 ∷ rule.key)
    ∷ rule_pair (codes "value") (9 ∷ 34 ∷ rule.mat)
    ∷ rule_pair (codes "note") (
        9
        ∷ 34
        ∷ codes "Auto-generated: material not packed by the map and not resolvable by a client.")
    ∷ (tabs2 ++ 125 ∷ [])
    ∷ rule_lines (i + 1) rules

unfoldable pub strip_lines : List MapReport → List Text
unfolding rules_in rule_lines
strip_lines [] = []
strip_lines (r ∷ reports) =
    let rules = rules_in (sorted missing_lt r.missing) in
    let rest = strip_lines reports in
    if is_empty rules
    then rest
    else (9 ∷ 34 ∷ (r.map_name ++ 34 ∷ []))
      ∷ (9 ∷ 123 ∷ [])
      ∷ (rule_lines 0 rules ++ ((9 ∷ 125 ∷ []) ∷ rest))

abbrev report_lt : MapReport → MapReport → Bool
report_lt a b = text_lt a.map_name b.map_name

unfoldable pub write_strip_config : List MapReport → Text
unfolding strip_lines
write_strip_config reports = join_lines (
    (codes "// Generated by tools/bspaudit/audit.py - review before use."
      ∷ codes "//"
      ∷ codes
          "// One rule per material that is referenced by an entity and cannot be resolved by a client."
      ∷ codes
          "// Removing the entity removes the reference, which is what stops the failed-material retry"
      ∷ codes
          "// storm. Findings that came from brush faces are NOT here - there is no entity to remove and"
      ∷ codes "// they need a stub material shipped to clients instead."
      ∷ codes "\"StripEntities\""
      ∷ codes "{"
      ∷ strip_lines (sorted report_lt reports))
    ++ (codes "}" ∷ [] ∷ []))

-- face: the maps of each material that a brush face uses
unfoldable pub face_maps : Refs → Text → Dict (List Text) → Dict (List Text)
face_maps [] name face = face
face_maps ((m, reasons) ∷ missing) name face =
    face_maps missing name
      (if mem_text (codes "brush face") reasons then append_to m name face else face)

unfoldable pub all_face_maps : List MapReport → Dict (List Text) → Dict (List Text)
unfolding face_maps
all_face_maps [] face = face
all_face_maps (r ∷ reports) face = all_face_maps reports (face_maps r.missing r.map_name face)

-- re.sub(r"/{2,}", "/", mat)
unfoldable pub one_slash : Text → Text
one_slash [] = []
one_slash (c ∷ s) =
    let rest = one_slash s in if c == 47 && starts_with (47 ∷ []) s then rest else c ∷ rest

unfoldable pub stub_lines : Text → List Text → List Text
unfolding join_by
stub_lines m maps =
    codes "// STUB - generated by tools/bspaudit/audit.py"
    ∷ codes "//"
    ∷ (codes "// " ++ m)
    ∷ (codes "// Referenced by: " ++ join_by (codes ", ") (sorted text_lt maps))
    ∷ codes "//"
    ∷ codes
        "// This material is referenced by the map but is neither packed in its BSP nor resolvable by a"
    ∷ codes
        "// client. A failed VMT lookup is NOT cached, so the client retries it constantly and the"
    ∷ codes
        "// framerate collapses. This file exists so the lookup SUCCEEDS - it does not reproduce the"
    ∷ codes "// original art, and the surface renders as a placeholder grid."
    ∷ codes "//"
    ∷ codes
        "// LightmappedGeneric because every one of these is a brush face. Materials referenced by an"
    ∷ codes "// entity are handled by removing the entity instead - see gg2_strip_entities."
    ∷ codes "\"LightmappedGeneric\""
    ∷ codes "{"
    ∷ (9 ∷ codes "\"$basetexture\" \"dev/dev_measuregeneric01\"")
    ∷ (9 ∷ codes "\"$surfaceprop\" \"concrete\"")
    ∷ codes "}"
    ∷ []
    ∷ []

-- The files that write_stubs() writes, below its directory.
unfoldable pub write_stubs : List MapReport → Dict Text
unfolding all_face_maps one_slash stub_lines
write_stubs reports =
    map
      (λ (e : Text × List Text).
        (one_slash (e.0) ++ codes ".vmt", join_lines (stub_lines (e.0) (first_seen [] (e.1)))))
      (sorted missing_lt (all_face_maps reports []))
