-- ===== src/MapVote/Finished.antt =====
-- What holds where main() of fastdl/tools/mapvote_images.py runs to its end.
use tug.Base.{
  ℕ, ◌+◌, List, [], ◌∷◌, if◌then◌else◌, Option, none, some, is_empty, length, ◌≡◌, refl, ap, ◌∙◌,
  ◌≢◌, inl, inr, Bool-cases, All, All-imp,
}
use mathlib.Core.Path.{subst}
use tug.Base.Text.{Text}
use tug.Base.Dict.{Dict}
use tug.Base.Result.{Result, ok, raised, too_deep}
use tug.Workshop.Lock.{Item}
use tug.MapVote.Index.{Index, IndexError}
use tug.MapVote.Known.{Known, Settled, Settled-nothing}
use tug.MapVote.Complete.{refresh_index-Settled}
use tug.MapVote.Survey.{KeyError, Survey, survey, no_survey}
use tug.MapVote.Decide.{Plan, todo}
use tug.MapVote.Write.{Written, generate}
use tug.MapVote.Reported.{generate-reported, generate-dry_run}
use tug.MapVote.Run.{
  Inputs, Ended, fails_request, fails_key, fails_indexing, showed, unindexed, finished, preview_of,
  save_index, show_previews, make_plan, generate_from, conclude, main,
}

module _ (names_in_zip : List ℕ → Option (List Text)) (http : Text → Option (List ℕ))
    (page : Text → Option Text) (details : List Text → Option (Dict (Option Text)))
    (inputs : Inputs) (files : Dict (List ℕ)) where
  abbrev Generated : Index → Plan → Written → Type 0
  Generated index p w =
      (info : Dict (Option Text)) × (generate inputs.dry_run http (preview_of info) index
          inputs.items inputs.cycle_lines inputs.servers inputs.overrides inputs.have inputs.force
          files
        ≡ ok (p, w))

  generate-at :
      (index : Index) (p : Plan) (w : Written) (info : Dict (Option Text))
      (r : Result KeyError (Plan × Written))
      → generate inputs.dry_run http
          (preview_of info)
          index
          inputs.items
          inputs.cycle_lines
          inputs.servers
          inputs.overrides
          inputs.have
          inputs.force
          files
        ≡ r
      → (elim r [
        | ok (plan', written) ↦ finished plan' written
        | raised e ↦ fails_key e
        | too_deep ↦ fails_request
      ])
        ≡ finished p w
      → Generated index p w
  generate-at index p w info (ok (plan', written)) e h =
      let same_p : plan' ≡ p = cc in
      let same_w : written ≡ w = cc in
      (info, e ∙ ap (λ (x : Plan). ok (x, written)) same_p ∙ ap (λ (x : Written). ok (p, x)) same_w)
  generate-at index p w info (raised error) e h = cc
  generate-at index p w info too_deep e h = cc

  make_plan-at :
      (index : Index) (p : Plan) (w : Written) (answer : Option (Dict (Option Text)))
      → (elim answer [
        | none ↦ fails_request
        | some info ↦
            elim (generate inputs.dry_run http
              (preview_of info)
              index
              inputs.items
              inputs.cycle_lines
              inputs.servers
              inputs.overrides
              inputs.have
              inputs.force
              files) [
                | ok (plan', written) ↦ finished plan' written
                | raised e ↦ fails_key e
                | too_deep ↦ fails_request
              ]
      ])
        ≡ finished p w
      → Generated index p w
  make_plan-at index p w none h = cc
  make_plan-at index p w (some info) h = generate-at index p w info _ refl h

  decided-at :
      (index : Index) (p : Plan) (w : Written) (r : Result KeyError Plan)
      → (elim r [
        | ok plan ↦ make_plan names_in_zip http page details inputs index files plan
        | raised e ↦ fails_key e
        | too_deep ↦ fails_request
      ])
        ≡ finished p w
      → Generated index p w
  unfolding make_plan
  decided-at index p w (ok plan) h = make_plan-at index p w _ h
  decided-at index p w (raised e) h = cc
  decided-at index p w too_deep h = cc

  shown-at :
      (shown : Option (List (Text × (Text × List Text)))) (p : Plan) (w : Written)
      → (elim shown [ none ↦ fails_request | some items ↦ showed items ]) ≢ finished p w
  shown-at none p w = λ h. cc
  shown-at (some items) p w = λ h. cc

  abbrev Completed : Index → Dict Item → Plan → Written → Type 0
  Completed index left p w = (left ≡ []) × Generated index p w

  conclude-at :
      (wanted : Option Text) (index : Index) (left : Dict Item) (p : Plan) (w : Written)
      → (elim wanted [
        | some name ↦ show_previews names_in_zip http page details inputs index name
        | none ↦
            if is_empty left
            then generate_from names_in_zip http page details inputs index files
            else unindexed left
      ])
        ≡ finished p w
      → Completed index left p w
  unfolding show_previews generate_from
  conclude-at (some name) index left p w h = elim (shown-at _ p w h) [ ]
  conclude-at none index [] p w h = (refl, decided-at index p w _ h)
  conclude-at none index (e ∷ left) p w h = cc

module _ (names_in_zip : List ℕ → Option (List Text)) (http : Text → Option (List ℕ))
    (page : Text → Option Text) (details : List Text → Option (Dict (Option Text)))
    (index_text : Index → List ℕ) (inputs : Inputs) (files : Dict (List ℕ)) where
  -- The output directory with the index in it.
  abbrev with_index : Index → Dict (List ℕ)
  with_index index = save_index index_text index files

  abbrev Made : Index → Plan → Written → Type 0
  Made index p w = Generated names_in_zip http page details inputs (with_index index) index p w

  refreshed-at :
      (r : Result IndexError (Index × Dict Item)) (index' : Index) (p : Plan) (w : Written)
      → Path
          (Option Index × Ended)
          (elim r [
            | raised e ↦ (none, fails_indexing e)
            | too_deep ↦ (none, fails_request)
            | ok (i, missing) ↦
                (some i, conclude names_in_zip http page details inputs (with_index i) i missing)
          ])
          (some index', finished p w)
      → (r ≡ ok (index', [])) × Made index' p w
  unfolding conclude
  refreshed-at (raised e) index' p w h = cc
  refreshed-at too_deep index' p w h = cc
  refreshed-at (ok (i, left)) index' p w h =
      let saved : Path (Option Index) (some i) (some index') =
        ap (λ (x : Option Index × Ended). x.0) h in
      let same : i ≡ index' = cc in
      let (nothing, made) =
        conclude-at names_in_zip http page details inputs (with_index i) inputs.previews_of i left p
          w (ap (λ (x : Option Index × Ended). x.1) h) in
      (
        ap (λ (l : Dict Item). ok (i, l)) nothing ∙ ap (λ (x : Index). ok (x, [])) same,
        subst (λ (x : Index). Made x p w) same made,
      )

  -- Where main() generates images, the index that it has saved has an entry with textures for every item
  -- of the lock; the numbers of maps made, unresolved, skipped and already generated add up to the
  -- number of maps that no server has an image of; and with --dry-run the output directory is left as
  -- it was but for that index in index.json.
  pub main-finished :
      (index index' : Index) (p : Plan) (w : Written)
      → main names_in_zip http page details index_text inputs index files
        ≡ (some index', finished p w)
      → All (λ (e : Text × Item). Known index'.items e.0) inputs.items
        × ((v : Survey) × (survey index' inputs.items inputs.cycle_lines inputs.servers no_survey
              ≡ ok v)
            × (length w.made + length w.unresolved + length p.skipped_maps + length p.kept_files
                ≡ length (todo v.status)))
        × (w.files ≡ (if inputs.dry_run then save_index index_text index' files else w.files))
  unfolding main
  main-finished index index' p w h =
      let (refreshed, (info, made)) = refreshed-at _ index' p w h in
      (
        All-imp (Settled index'.items []) (λ e. Known index'.items e.0) inputs.items
            (λ e s. Settled-nothing index'.items e s)
            (refresh_index-Settled names_in_zip inputs.game inputs.roots inputs.download
              inputs.batch_bytes inputs.items index index' [] refreshed),
        generate-reported inputs.dry_run http (preview_of info) index' inputs.items
            inputs.cycle_lines inputs.servers inputs.overrides inputs.have inputs.force
            (with_index index') p w made,
        elim (Bool-cases inputs.dry_run) [
          | inl dry ↦ rw dry (
              generate-dry_run inputs.dry_run http (preview_of info) index' inputs.items
                inputs.cycle_lines inputs.servers inputs.overrides inputs.have inputs.force
                (with_index index') p w dry made)
          | inr wet ↦ rw wet refl
        ],
      )
