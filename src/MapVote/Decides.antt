-- ===== src/MapVote/Decides.antt =====
-- From a complete index to the decisions of main() in fastdl/tools/mapvote_images.py: no KeyError.
use tug.Base.{
  ℕ, List, [], ◌∷◌, ◌++◌, Option, some, ◌≡◌, refl, inl, inr, All, All-imp, All-map_keep_if,
  Option-cases, arith,
}
use tug.Base.Text.{Text}
use tug.Base.Dict
use tug.Base.Dict.{Dict, keys}
use tug.Base.Result.{ok}
use tug.Workshop.Lock.{Item}
use tug.MapVote.Config.{Override, mapcycle}
use tug.MapVote.Index.{Indexed, Index, Root, Game, refresh_index}
use tug.MapVote.Complete.{refresh_index-Settled}
use tug.MapVote.Known.{Known, Settled-nothing}
use tug.MapVote.Survey.{
  or_none, Survey, field_of, gathered, images_on, textures_on, subscriptions, survey_maps, survey,
  no_survey,
}
use tug.MapVote.Decide.{Plan, plan, decide}

-- What a field has for every item can be gathered.
gathered-ok :
    (field : Indexed → Option (List Text)) (idx : Dict Indexed) (names ids : List Text)
    → All (λ i. (found : List Text) × (field_of field idx i ≡ ok found)) ids
    → (all : List Text) × (gathered field idx names ids ≡ ok all)
unfolding gathered
gathered-ok field idx names [] h = (names, refl)
gathered-ok field idx names (i ∷ ids) ((found, at), h) =
    let (all, rest) = gathered-ok field idx (names ++ found) ids h in
    (all, rw (gathered, at, rest) refl)

Known-images :
    (idx : Dict Indexed) (i : Text)
    → Known idx i
    → (found : List Text) × (field_of (λ e. some e.images) idx i ≡ ok found)
unfolding field_of
Known-images idx i (entry, at, has) = (entry.images, rw (field_of, at) refl)

Known-textures :
    (idx : Dict Indexed) (i : Text)
    → Known idx i
    → (found : List Text) × (field_of (λ e. e.textures) idx i ≡ ok found)
unfolding field_of
Known-textures idx i (entry, at, has) = elim (Option-cases entry.textures) [
  | inl absent ↦ ground (arith, has, absent)
  | inr (found, at') ↦ (found, rw (field_of, at, at') refl)
]

module _ (index : Index) (items : Dict Item)
    (known : All (λ (e : Text × Item). Known index.items e.0) items) where
  subscriptions-Known : (s : Text) → All (Known index.items) (subscriptions items s)
  unfolding subscriptions
  subscriptions-Known s = All-map_keep_if _ _ _ items (λ e h here. h) known

  survey-ok :
      (cycle_lines : Text → List Text) (servers : List Text) (v : Survey)
      → (v' : Survey) × (survey index items cycle_lines servers v ≡ ok v')
  unfolding survey images_on textures_on
  survey-ok cycle_lines [] v = (v, refl)
  survey-ok cycle_lines (s ∷ servers) v =
      let h = subscriptions-Known s in
      let (images, hi) =
        gathered-ok (λ e. some e.images) index.items index.base.images (subscriptions items s)
          (All-imp _ _ (subscriptions items s) (λ i k. Known-images index.items i k) h) in
      let (textures, ht) =
        gathered-ok (λ e. e.textures) index.items (or_none index.base.textures)
          (subscriptions items s)
          (All-imp _ _ (subscriptions items s) (λ i k. Known-textures index.items i k) h) in
      let now : Survey = record {
        status = v.status;
        orphan = v.orphan;
        textures = Dict.update s (λ _. textures) v.textures;
      } in
      let (v', rest) =
        survey-ok cycle_lines servers
          (survey_maps s images textures (mapcycle (cycle_lines s)) now) in
      (v', rw (survey, images_on, textures_on, hi, ht, rest) refl)

-- When refresh_index() returns an index and leaves no item unindexed, main() decides what to generate
-- without a KeyError, whatever the servers, the map cycles, the overrides and the images made before.
pub refresh_index-decide :
    (names_in_zip : List ℕ → Option (List Text)) (game : Option Game) (roots : List Root)
    (download : Option (Dict Item → Root)) (n : ℕ) (items : Dict Item) (index index' : Index)
    (cycle_lines : Text → List Text) (servers : List Text) (overrides : Dict Override)
    (have : Dict Text) (force : List Text)
    → refresh_index names_in_zip game roots download n items index ≡ ok (index', [])
    → (p : Plan) × (decide index' items cycle_lines servers overrides have force ≡ ok p)
unfolding decide
refresh_index-decide names_in_zip game roots download n items index index' cycle_lines servers
      overrides have force done =
    let settled =
      refresh_index-Settled names_in_zip game roots download n items index index' [] done in
    let known =
      All-imp _ (λ (e : Text × Item). Known index'.items e.0) items
        (λ e h. Settled-nothing index'.items e h) settled in
    let (v, surveyed) = survey-ok index' items known cycle_lines servers no_survey in
    (plan v index' items overrides have force, rw (decide, surveyed) refl)
