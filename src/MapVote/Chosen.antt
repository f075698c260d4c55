-- ===== src/MapVote/Chosen.antt =====
-- What the plan of main() in fastdl/tools/mapvote_images.py generates: only images for maps that no
-- server shows, and aliases only to textures that the servers have.
use tug.Base.{
  Bool, true, false, not, ◌&&◌, List, ◌++◌, map, any, Option, some, ◌≡◌, sym, ◌∙◌, ◌⊎◌, inl, inr,
  All, All-both, All-map_keep_if, Bool-cases, arith,
}
use mathlib.Core.Path.{subst}
use tug.Base.Text.{Text, lower, mem_text, text_eq, text_eq_iff}
use tug.Base.Dict
use tug.Base.Dict.{Dict, keys, values}
use tug.Base.Entries.{All-get, entry_at, Distinct-All_get}
use tug.Base.SortedList.{All-sorted}
use tug.Base.Sort.{sorted}
use tug.Base.Result.{Result, ok, >>=-eq-ok}
use tug.Workshop.Lock.{Item}
use tug.MapVote.{vote_dir}
use tug.MapVote.Config.{mapcycle, Override}
use tug.MapVote.Index.{Index}
use tug.MapVote.Survey.{Survey, is_covered, KeyError, survey, no_survey}
use tug.MapVote.Decide.{
  Wanted, Plan, is_true, all_true, todo, outcome, plan, decide, by_map, all_orphan, servers_of, Row,
}
use tug.MapVote.Surveyed.{
  IsListed, ImagesOn, TexturesOn, IsShown, IsOwn, StatusHolds, OrphanHolds, TexturesHold, IsSurvey,
  survey-IsSurvey, survey-lists, no_survey-IsSurvey,
}
use tug.MapVote.Outcomes.{
  IsHeld, OutcomeHolds, OutcomeHolds-imp, OutcomeHolds-any, Facts, outcome-IsHeld, plan_from-All,
  all_true-at, lower-vote_dir,
}

abbrev is_todo : Row → Bool
is_todo e = not (all_true (values e.1.1)) && not (any is_true (values e.1.1))

module _ (index : Index) (items : Dict Item) (s m : Text) (images textures : List Text) where
  -- What the plan promises for a map of the server's map cycle.
  abbrev pub IsDue : Text → Override → Type 0
  IsDue spelling source =
      (text_eq (lower spelling) (lower m) ≡ false)
      ⊎ ((is_covered (lower m) images ≡ false) × IsHeld textures source)

  module _ (v : Survey) (h : IsSurvey index items v) (listed : IsListed s (lower m) v)
      (hi : ImagesOn index items s images) (ht : TexturesOn index items s textures) where
    same_textures : (other : List Text) → TexturesOn index items s other → other ≡ textures
    same_textures other theirs =
        let e : Path (Result KeyError (List Text)) (ok other) (ok textures) = sym theirs ∙ ht in cc

    own_texture :
        all_orphan v.orphan (lower m) ≡ true → mem_text (vote_dir ++ lower m) textures ≡ true
    own_texture all =
        let (cov, found, has) = listed.1 in
        let all' : all_true (values cov) ≡ true = ground (arith, all, found) in
        let (b, (theirs, ht', e), passes) =
          entry_at (IsOwn index items (lower m)) not s cov has
            (All-get (OrphanHolds index items) (lower m) v.orphan cov h.orphans found) in
        let is_b : b ≡ true = ground (arith, passes (all_true-at (values cov) all')) in
        subst (λ ts. mem_text (vote_dir ++ lower m) ts ≡ true) (same_textures theirs ht')
          (sym e ∙ is_b)

    survey-Facts : Facts v (lower m) s images textures
    survey-Facts =
        let (e, found, has) = listed.0 in
        record {
          at_server = rw (servers_of, found) has;
          same_textures = λ other at.
              same_textures other
                (All-get (TexturesHold index items) s v.textures other h.all_textures at);
          own = own_texture;
          lowered = lower-vote_dir m;
        }

    -- The map's own row is that of a map which no server shows.
    uncovered :
        (row : Row)
        → Dict.get (lower m) v.status ≡ some row.1
        → is_todo row ≡ true
        → is_covered (lower m) images ≡ false
    uncovered (low, e) found none_shows =
        let (e', found', has') = listed.0 in
        let same : Path (Option (Text × Dict Bool)) (some e') (some e) = sym found' ∙ found in
        let same_row : e' ≡ e = cc in
        let has : mem_text s (keys e.1) ≡ true =
          subst (λ (x : Text × Dict Bool). mem_text s (keys x.1) ≡ true) same_row has' in
        let shown = All-get (StatusHolds index items) (lower m) v.status e h.statuses found in
        let (b, (theirs, hi', is_b), hidden) =
          entry_at (IsShown index items (lower m)) is_true s e.1 has shown.1 in
        let not_b : b ≡ false = ground (arith, hidden, none_shows) in
        let same_images : Path (Result KeyError (List Text)) (ok theirs) (ok images) =
          sym hi' ∙ hi in
        let same_list : theirs ≡ images = cc in
        subst (λ is. is_covered (lower m) is ≡ false) same_list (sym is_b ∙ not_b)

    row-IsDue :
        (overrides : Dict Override) (have : Dict Text) (force : List Text) (row : Row)
        → StatusHolds index items row × (Dict.get row.0 v.status ≡ some row.1)
        → is_todo row ≡ true
        → OutcomeHolds (IsDue row.1.0) (outcome v index items overrides have force row.1.0)
    row-IsDue overrides have force (low, (spelling, cov)) ((lowered, shown), found) none_shows =
        elim (Bool-cases (text_eq (lower spelling) (lower m))) [
          | inr other ↦ OutcomeHolds-any (IsDue spelling) _ (λ source. inl other)
          | inl same ↦
              let e : lower spelling ≡ lower m = (text_eq_iff (lower spelling) (lower m)).0 same in
              let found' : Dict.get (lower m) v.status ≡ some (spelling, cov) =
                subst (λ i. Dict.get i v.status ≡ some (spelling, cov)) (sym lowered ∙ e) found in
              let facts = subst (λ i. Facts v i s images textures) (sym e) survey-Facts in
              OutcomeHolds-imp (IsHeld textures) (IsDue spelling) _
                (λ source held. inr (uncovered (low, (spelling, cov)) found' none_shows, held))
                (outcome-IsHeld v index items overrides have force spelling s images textures facts)
        ]

    plan-IsDue :
        (overrides : Dict Override) (have : Dict Text) (force : List Text)
        → All
            (λ (w : Wanted). IsDue w.spelling w.source)
            (plan v index items overrides have force).wanted_maps
    unfolding plan todo
    plan-IsDue overrides have force =
        plan_from-All IsDue (outcome v index items overrides have (map lower force)) (todo v.status)
          _
          (All-map_keep_if _ is_todo _ (sorted by_map v.status)
            (row-IsDue overrides have (map lower force))
            (All-sorted _ by_map v.status
              (All-both _ _ v.status h.statuses (Distinct-All_get v.status h.distinct))))
          tt

-- Let main() decide from an index, the items of a lock and the map cycles without an error. For each
-- server and each map of its map cycle, the images and the textures that the server has are known,
-- and whatever is wanted is for another map, or the server has no image of the map, and an alias
-- names a texture that the server has.
pub decide-wanted :
    (index : Index) (items : Dict Item) (cycle_lines : Text → List Text) (servers : List Text)
    (overrides : Dict Override) (have : Dict Text) (force : List Text) (p : Plan) (s m : Text)
    → decide index items cycle_lines servers overrides have force ≡ ok p
    → mem_text s servers ≡ true
    → mem_text m (mapcycle (cycle_lines s)) ≡ true
    → (images : List Text) × (textures : List Text) × ImagesOn index items s images
      × TexturesOn index items s textures
      × All
          (λ (w : Wanted). IsDue index items s m images textures w.spelling w.source)
          p.wanted_maps
unfolding decide
decide-wanted index items cycle_lines servers overrides have force p s m done hs hm =
    let (v, surveyed, planned) =
      >>=-eq-ok (survey index items cycle_lines servers no_survey) _ done in
    let (listed, (images, hi), (textures, ht)) =
      survey-lists index items cycle_lines s m servers no_survey v hs hm surveyed in
    let h =
      survey-IsSurvey index items cycle_lines servers no_survey v (no_survey-IsSurvey index items)
        surveyed in
    let same : plan v index items overrides have force ≡ p = cc in
    (
      images,
      textures,
      hi,
      ht,
      subst
          (λ (q : Plan).
            All (λ (w : Wanted). IsDue index items s m images textures w.spelling w.source)
              q.wanted_maps)
          same (plan-IsDue index items s m images textures v h listed hi ht overrides have force),
    )
