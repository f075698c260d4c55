-- ===== src/MapVote/Reported.antt =====
-- What main() in fastdl/tools/mapvote_images.py reports and writes: every map without an image has one
-- verdict, and --dry-run writes nothing.
use tug.Base.{
  ℕ, ◌+◌, Bool, true, List, [], ◌∷◌, length, length-append, Option, none, some, ◌≡◌, refl, ◌∙◌, inl,
  inr, if◌then◌else◌, Bool-cases, Option-cases, arith, is_empty, map,
}
use mathlib.Core.Path.{subst}
use tug.Base.Text.{Text, lower}
use tug.Base.Dict
use tug.Base.Dict.{Dict}
use tug.Base.Result.{ok, >>=-eq-ok}
use tug.Workshop.Lock.{Item}
use tug.MapVote.Config.{Override}
use tug.MapVote.Index.{Index}
use tug.MapVote.Survey.{Survey, survey, no_survey}
use tug.MapVote.Decide.{
  Why, Wanted, Plan, Outcome, add_outcome, plan_from, plan, outcome, todo, decide,
}
use tug.MapVote.Write.{
  Written, to_made, to_unresolved, write_image, make_image, make, make_all, title_of, generate,
  cleared,
}

then-same {ℓ} : {A : Type ℓ} (b : Bool) (x y z : A) → b ≡ true → x ≡ z → (if b then x else y) ≡ z
then-same b x y z is_true h = rw is_true h

-- How many maps have been made or stayed unresolved.
reported : Written → ℕ
reported w = length w.made + length w.unresolved

module _ (dry_run : Bool) (http : Text → Option (List ℕ)) (info : Text → Option Text) where
  -- What holds of the two ways to report a map holds of the loop body; a dry run leaves the files.
  module _ {ℓ} (P : Written → Type ℓ) (w : Written)
      (if_made : (files : Dict (List ℕ)) (message : Text)
        → (dry_run ≡ true → files ≡ w.files)
        → P (to_made files message w))
      (if_unresolved : (files : Dict (List ℕ)) (m : Text) (why : Why)
        → (dry_run ≡ true → files ≡ w.files)
        → P (to_unresolved files m why w)) where
    make_image-any :
        (m what : Text) (item title url : Option Text) (files : Dict (List ℕ))
        → (dry_run ≡ true → files ≡ w.files)
        → P (make_image dry_run http info m what item title url files w)
    unfolding make_image
    make_image-any m what item title none files h = if_unresolved files m _ h
    make_image-any m what item title (some url) files h = elim (Bool-cases (is_empty url)) [
      | inl empty ↦ rw (make_image, empty) (if_unresolved files m (Why.no_preview what) h)
      | inr named ↦ elim (Bool-cases dry_run) [
        | inl dry ↦ rw (make_image, named, dry) (if_made files _ h)
        | inr wet ↦ elim (Option-cases (write_image http m url item title files)) [
          | inl failed ↦ rw (make_image, named, wet, failed) (if_unresolved files m _ h)
          | inr ((f, files'), done) ↦
              rw (make_image, named, wet, done) (if_made files' _ (λ dry. ground (arith, dry, wet)))
        ]
      ]
    ]

    cleared-same : (o : Option Text) → dry_run ≡ true → cleared dry_run o w.files ≡ w.files
    cleared-same none dry = refl
    cleared-same (some f) dry = rw dry refl

    make_source-any :
        (have : Dict Text) (m : Text) (item title : Option Text) (source : Override)
        → P (
            make dry_run http info have
              (record { spelling = m; source = source; item = item })
              title
              w)
    unfolding make
    make_source-any have m item title (Override.alias t) =
        let clear = cleared-same (Dict.get (lower m) have) in
        if_made _ _ (λ dry. then-same dry_run _ _ w.files dry (clear dry))
    make_source-any have m item title Override.skip =
        make_image-any m _ item title none _ (cleared-same (Dict.get (lower m) have))
    make_source-any have m item title (Override.url u) =
        make_image-any m u item title (some u) _ (cleared-same (Dict.get (lower m) have))
    make_source-any have m item title (Override.item i) =
        make_image-any m i item title (info i) _ (cleared-same (Dict.get (lower m) have))

    make-any :
        (have : Dict Text) (wanted : Wanted) (title : Option Text)
        → P (make dry_run http info have wanted title w)
    make-any have wanted title =
        make_source-any have wanted.spelling wanted.item title wanted.source

  make-reported :
      (have : Dict Text) (wanted : Wanted) (title : Option Text) (w : Written)
      → reported (make dry_run http info have wanted title w) ≡ reported w + 1
  unfolding reported
  make-reported have wanted title w =
      make-any (λ w'. reported w' ≡ reported w + 1) w
        (λ files message h. omega (arith, length-append w.made (message ∷ [])))
        (λ files m why h. omega (arith, length-append w.unresolved ((m, why) ∷ []))) have wanted
        title

  make_all-reported :
      (items : Dict Item) (have : Dict Text) (wanted : List Wanted) (w w' : Written)
      → make_all dry_run http info items have wanted w ≡ ok w'
      → reported w' ≡ reported w + length wanted
  unfolding make_all reported
  make_all-reported items have [] w w' done =
      let same : w ≡ w' = cc in subst (λ x. reported x ≡ reported w + 0) same (omega arith)
  make_all-reported items have (wanted ∷ more) w w' done =
      let (title, found, rest) = >>=-eq-ok (title_of items wanted.item) _ done in
      omega (
        arith,
        make-reported have wanted title w,
        make_all-reported items have more (make dry_run http info have wanted title w) w' rest,
      )

  make_all-dry_run :
      (items : Dict Item) (have : Dict Text) (wanted : List Wanted) (w w' : Written)
      → dry_run ≡ true
      → make_all dry_run http info items have wanted w ≡ ok w'
      → w'.files ≡ w.files
  unfolding make_all
  make_all-dry_run items have [] w w' dry done =
      let same : w ≡ w' = cc in subst (λ (x : Written). x.files ≡ w.files) same refl
  make_all-dry_run items have (wanted ∷ more) w w' dry done =
      let (title, found, rest) = >>=-eq-ok (title_of items wanted.item) _ done in
      make_all-dry_run items have more (make dry_run http info have wanted title w) w' dry rest
      ∙ make-any (λ (x : Written). x.files ≡ w.files) w (λ files message h. h dry)
          (λ files m why h. h dry) have wanted title

-- How many maps a plan has placed.
placed : Plan → ℕ
placed p =
    length p.wanted_maps + length p.skipped_maps + length p.unresolved_maps + length p.kept_files

add_outcome-placed : (m : Text) (o : Outcome) (p : Plan) → placed (add_outcome m o p) ≡ placed p + 1
unfolding placed add_outcome
add_outcome-placed m (Outcome.kept f) p = omega (arith, length-append p.kept_files (f ∷ []))
add_outcome-placed m Outcome.skipped p = omega (arith, length-append p.skipped_maps (m ∷ []))
add_outcome-placed m (Outcome.unresolved why) p =
    omega (arith, length-append p.unresolved_maps ((m, why) ∷ []))
add_outcome-placed m (Outcome.wanted source item) p = omega (
  arith,
  length-append p.wanted_maps (record { spelling = m; source = source; item = item } ∷ []),
)

plan_from-placed :
    (decided : Text → Outcome) (ms : List Text) (p : Plan)
    → placed (plan_from decided ms p) ≡ placed p + length ms
unfolding plan_from
plan_from-placed decided [] p = omega arith
plan_from-placed decided (m ∷ ms) p = omega (
  arith,
  plan_from-placed decided ms (add_outcome m (decided m) p),
  add_outcome-placed m (decided m) p,
)

module _ (dry_run : Bool) (http : Text → Option (List ℕ)) (info : Text → Option Text)
    (index : Index) (items : Dict Item) (cycle_lines : Text → List Text) (servers : List Text)
    (overrides : Dict Override) (have : Dict Text) (force : List Text) where
  plan-placed :
      (v : Survey) → placed (plan v index items overrides have force) ≡ length (todo v.status)
  unfolding plan placed
  plan-placed v =
      let decided = outcome v index items overrides have (map lower force) in
      let empty : Plan = record {
        wanted_maps = [];
        skipped_maps = [];
        unresolved_maps = [];
        kept_files = [];
      } in
      omega (arith, plan_from-placed decided (todo v.status) empty)

  decide-placed :
      (p : Plan)
      → decide index items cycle_lines servers overrides have force ≡ ok p
      → (v : Survey) × (survey index items cycle_lines servers no_survey ≡ ok v)
        × (placed p ≡ length (todo v.status))
  unfolding decide
  decide-placed p done =
      let (v, surveyed, planned) =
        >>=-eq-ok (survey index items cycle_lines servers no_survey) _ done in
      let same : plan v index items overrides have force ≡ p = cc in
      (v, surveyed, subst (λ q. placed q ≡ length (todo v.status)) same (plan-placed v))

  -- If main() ends without a KeyError, then every map that no server has an image of is reported
  -- exactly once: the numbers of those made, unresolved, skipped and already generated add up to the
  -- number of these maps.
  pub generate-reported :
      (files : Dict (List ℕ)) (p : Plan) (w : Written)
      → generate dry_run http info index items cycle_lines servers overrides have force files
        ≡ ok (p, w)
      → (v : Survey) × (survey index items cycle_lines servers no_survey ≡ ok v)
        × (length w.made + length w.unresolved + length p.skipped_maps + length p.kept_files
            ≡ length (todo v.status))
  unfolding generate reported placed
  generate-reported files p w done =
      let (q, decided, next) =
        >>=-eq-ok (decide index items cycle_lines servers overrides have force) _ done in
      let (w', written, last) =
        >>=-eq-ok
          (make_all dry_run http info items have q.wanted_maps
            (record { files = files; made = []; unresolved = q.unresolved_maps }))
          _ next in
      let (v, surveyed, count) = decide-placed q decided in
      let made = make_all-reported dry_run http info items have q.wanted_maps _ w' written in
      let same_p : q ≡ p = cc in
      let same_w : w' ≡ w = cc in
      let sum : reported w' + length q.skipped_maps + length q.kept_files ≡ length (todo v.status) =
        omega (arith, made, count) in
      (
        v,
        surveyed,
        subst
            (λ (x : Plan).
              length w.made + length w.unresolved + length x.skipped_maps + length x.kept_files
              ≡ length (todo v.status))
            same_p
            (subst
              (λ (x : Written).
                reported x + length q.skipped_maps + length q.kept_files ≡ length (todo v.status))
              same_w sum),
      )

  -- With --dry-run the output directory is left as it is, if main() ends without a KeyError.
  pub generate-dry_run :
      (files : Dict (List ℕ)) (p : Plan) (w : Written)
      → dry_run ≡ true
      → generate dry_run http info index items cycle_lines servers overrides have force files
        ≡ ok (p, w)
      → w.files ≡ files
  unfolding generate
  generate-dry_run files p w dry done =
      let (q, decided, next) =
        >>=-eq-ok (decide index items cycle_lines servers overrides have force) _ done in
      let (w', written, last) =
        >>=-eq-ok
          (make_all dry_run http info items have q.wanted_maps
            (record { files = files; made = []; unresolved = q.unresolved_maps }))
          _ next in
      let same_w : w' ≡ w = cc in
      subst (λ (x : Written). x.files ≡ files) same_w
        (make_all-dry_run dry_run http info items have q.wanted_maps _ w' dry written)
