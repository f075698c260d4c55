-- ===== src/MapVote/Survey.antt =====
-- What main() of fastdl/tools/mapvote_images.py asks of each server: which of its maps have an image, which
-- have a vote texture of their own, and all its textures. The map cycles are lists of lines.
use tug.Base.{Bool, ◌||◌, List, [], ◌∷◌, ◌++◌, Option, none, some, keep_if}
use tug.Base.Text.{Text, codes, lower, mem_text}
use tug.Base.Dict
use tug.Base.Dict.{Dict, keys, values}
use tug.Base.Result.{Result, ok, raised, ◌>>=◌}
use tug.Workshop.Lock.{Item}
use tug.MapVote.{vote_dir, loading_dir}
use tug.MapVote.Config.{mapcycle}
use tug.MapVote.Index.{Indexed, Index}

unfoldable pub is_covered : Text → List Text → Bool
is_covered n images =
    mem_text (vote_dir ++ n) images
    || (mem_text (loading_dir ++ (n ++ codes "_large")) images
        || mem_text (loading_dir ++ (n ++ codes "_small")) images)

unfoldable pub covered : Text → List Text → Bool
unfolding is_covered
covered name images = is_covered (lower name) images

-- KeyError, with the key that is missing
pub data KeyError : Type 0 where
  missing_key : Text → KeyError

unfoldable pub field_of :
    (Indexed → Option (List Text)) → Dict Indexed → Text → Result KeyError (List Text)
field_of field items i = elim (Dict.get i items) [
  | none ↦ raised (missing_key i)
  | some entry ↦ elim (field entry) [
    | none ↦ raised (missing_key (codes "textures"))
    | some names ↦ ok names
  ]
]

-- The names that the items add to `names`.
unfoldable pub gathered :
    (Indexed → Option (List Text))
    → Dict Indexed
    → List Text
    → List Text
    → Result KeyError (List Text)
unfolding field_of
gathered field items names [] = ok names
gathered field items names (i ∷ ids) = do
  more ← field_of field items i
  gathered field items (names ++ more) ids

abbrev pub or_none : Option (List Text) → List Text
or_none none = []
or_none (some names) = names

unfoldable pub images_on : Index → List Text → Result KeyError (List Text)
unfolding gathered
images_on index ids = gathered (λ e. some e.images) index.items index.base.images ids

unfoldable pub textures_on : Index → List Text → Result KeyError (List Text)
unfolding gathered
textures_on index ids = gathered (λ e. e.textures) index.items (or_none index.base.textures) ids

-- per_server of one server
unfoldable pub subscriptions : Dict Item → Text → List Text
subscriptions items s = keys (keep_if (λ (e : Text × Item). mem_text s e.1.servers) items)

-- The dicts that main() fills: by the lower-cased map its spelling and which servers cover it, and
-- on which its own vote texture is; and the textures of each server.
pub record Survey : Type 0 where
  pub status : Dict (Text × Dict Bool)
  pub orphan : Dict (Dict Bool)
  pub textures : Dict (List Text)

abbrev pub set_covered : Text → Text → Bool → Option (Text × Dict Bool) → Text × Dict Bool
set_covered m s c none = (m, (s, c) ∷ [])
set_covered m s c (some (spelling, cov)) = (spelling, Dict.update s (λ _. c) cov)

abbrev pub set_orphan : Text → Bool → Option (Dict Bool) → Dict Bool
set_orphan s c none = (s, c) ∷ []
set_orphan s c (some cov) = Dict.update s (λ _. c) cov

unfoldable pub survey_maps : Text → List Text → List Text → List Text → Survey → Survey
unfolding covered
survey_maps s images textures [] v = v
survey_maps s images textures (m ∷ maps) v = survey_maps s images textures maps (record {
  status = Dict.update (lower m) (set_covered m s (covered m images)) v.status;
  orphan = Dict.update (lower m) (set_orphan s (mem_text (vote_dir ++ lower m) textures)) v.orphan;
  textures = v.textures;
})

-- The loop over the servers; `cycle_lines` are the lines of the map cycle of a server.
unfoldable pub survey :
    Index → Dict Item → (Text → List Text) → List Text → Survey → Result KeyError Survey
unfolding survey_maps images_on textures_on subscriptions
survey index items cycle_lines [] v = ok v
survey index items cycle_lines (s ∷ servers) v = do
  images ← images_on index (subscriptions items s)
  textures ← textures_on index (subscriptions items s)
  survey index items cycle_lines servers (
      survey_maps s images textures (mapcycle (cycle_lines s)) (record {
        status = v.status;
        orphan = v.orphan;
        textures = Dict.update s (λ _. textures) v.textures;
      }))

abbrev pub no_survey : Survey
no_survey = record { status = []; orphan = []; textures = [] }
