-- ===== src/Audit/Examples.antt =====
-- The theorems on the audit at one map.
use tug.Base.Sort.{sorted}
use tug.Workshop.Refresh.{strip, is_id, first_seen}
use tug.Base.{none, true, map, refl, List, [], ◌∷◌, All, ◌≡◌}
use tug.Base.Text.{Text, codes, starts_with, lower, text_eq, is_space, mem_text, has_char}
use tug.Base.Dict
use tug.Base.Dict.{Dict}
use tug.Audit.{MapReport, audit, entity_refs, normalise_material, is_missing}
use tug.Audit.Report.{rules_in, missing_lt}
use tug.Audit.Lump.{lump_text, entities_of-lump_text}
use tug.Audit.Entities.{entities_of, dict_from}
use tug.Audit.Found.{HasReason, audit-HasReason}
use tug.Audit.Remedy.{is_remedied}
use tug.Audit.Reasons.{audit-is_remedied}
use tug.Audit.Missing.{MayStrip}

abbrev one_entity : List (Dict Text)
one_entity =
    ((codes "classname", codes "env_sprite") ∷ (codes "texture", codes "Lost.vmt") ∷ []) ∷ []

abbrev sprite_pairs : List (Text × Text)
sprite_pairs = (codes "classname", codes "env_sprite") ∷ (codes "texture", codes "Lost.vmt") ∷ []

abbrev world_pairs : List (Text × Text)
world_pairs = (codes "classname", codes "worldspawn") ∷ (codes "message", []) ∷ []

entities_of-lump_text_example :
    entities_of (lump_text (world_pairs ∷ sprite_pairs ∷ []))
    ≡ map (dict_from []) (world_pairs ∷ sprite_pairs ∷ [])
unfolding has_char
entities_of-lump_text_example = entities_of-lump_text (world_pairs ∷ sprite_pairs ∷ []) (
  (
    (refl, (refl, refl, refl), (refl, refl, refl)),
    ((refl, (refl, refl, refl), (refl, refl, refl)), tt),
  ),
  (
    (
      (refl, (refl, refl, refl), (refl, refl, refl)),
      ((refl, (refl, refl, refl), (refl, refl, refl)), tt),
    ),
    tt,
  ),
)

audit-HasReason_example :
    HasReason
      (codes "lost")
      (codes "env_sprite.texture")
      (audit (codes "m") 20 [] [] (world_pairs ∷ sprite_pairs ∷ []) none).missing
unfolding Dict.get text_eq mem_text normalise_material starts_with lower strip is_space is_id
    is_missing
audit-HasReason_example =
    audit-HasReason (codes "m") 20 [] [] (world_pairs ∷ []) [] none sprite_pairs
      (codes "env_sprite") (codes "texture") (codes "Lost.vmt") refl refl refl
      (refl, refl, refl, refl) refl refl tt

abbrev sprite_report : MapReport
sprite_report = audit (codes "m") 20 [] [] (sprite_pairs ∷ []) none

audit-is_remedied_example :
    (is_remedied (sprite_report ∷ []) sprite_report (codes "lost") (codes "env_sprite.texture")
      ≡ true)
    × All MayStrip (rules_in (sorted missing_lt sprite_report.missing))
unfolding Dict.get audit sorted entity_refs starts_with lower text_eq normalise_material strip
    is_space is_id Dict.append_to Dict.update is_missing mem_text first_seen
audit-is_remedied_example =
    audit-is_remedied (codes "m") 20 [] [] (sprite_pairs ∷ []) none [] [] (codes "lost")
      (codes "env_sprite.texture") (codes "env_sprite.texture" ∷ [], refl, refl)
