-- ===== src/MapVote/Surveyed.antt =====
-- What the survey of main() in fastdl/tools/mapvote_images.py holds: each of its answers is the one that
-- the contents of the server give, and every map of every map cycle is in it.
use tug.Base.{
  Bool, true, List, [], ◌∷◌, ◌++◌, Option, none, some, ◌≡◌, refl, sym, ◌∙◌, inl, inr, All,
  Bool-cases, arith,
}
use tug.Base.Text.{Text, lower, mem_text, text_eq, text_eq_iff, text_eq_refl}
use tug.Base.Dict
use tug.Base.Dict.{Dict, keys}
use mathlib.Core.Path.{subst}
use tug.Base.Entries.{Distinct, Distinct-update, mem_text-update, Finds, Finds-set, Finds-update}
use tug.Base.Result.{ok, >>=-eq-ok}
use tug.Workshop.Lock.{Item}
use tug.MapVote.{vote_dir}
use tug.MapVote.Config.{mapcycle}
use tug.MapVote.Index.{Index}
use tug.MapVote.Survey.{
  is_covered, covered, images_on, textures_on, subscriptions, Survey, survey_maps, survey,
  set_covered, set_orphan, no_survey,
}

abbrev HasServer : Text → Dict Bool → Type 0
HasServer s cov = mem_text s (keys cov) ≡ true

-- A map is in the two dicts for a server.
abbrev pub IsListed : Text → Text → Survey → Type 0
IsListed s low v =
    Finds (λ (e : Text × Dict Bool). HasServer s e.1) low v.status
    × Finds (HasServer s) low v.orphan

set_covered-has :
    (m s : Text) (c : Bool) (o : Option (Text × Dict Bool)) → HasServer s (set_covered m s c o).1
unfolding mem_text
set_covered-has m s c none = rw (text_eq_refl s) refl
set_covered-has m s c (some (spelling, cov)) = mem_text-update s s _ cov ∙ rw (text_eq_refl s) refl

set_orphan-has : (s : Text) (c : Bool) (o : Option (Dict Bool)) → HasServer s (set_orphan s c o)
unfolding mem_text
set_orphan-has s c none = rw (text_eq_refl s) refl
set_orphan-has s c (some cov) = mem_text-update s s _ cov ∙ rw (text_eq_refl s) refl

update-HasServer :
    (s t : Text) (f : Option Bool → Bool) (cov : Dict Bool)
    → HasServer s cov
    → HasServer s (Dict.update t f cov)
update-HasServer s t f cov h = mem_text-update s t f cov ∙ ground (arith, h)

-- One map of a server keeps what is listed.
IsListed-set :
    (s t low m : Text) (b c : Bool) (v : Survey)
    → IsListed s low v
    → IsListed s low (record {
      status = Dict.update (lower m) (set_covered m t b) v.status;
      orphan = Dict.update (lower m) (set_orphan t c) v.orphan;
      textures = v.textures;
    })
IsListed-set s t low m b c v (h, k) = (
  Finds-update (λ (e : Text × Dict Bool). HasServer s e.1) low (lower m) (set_covered m t b)
      v.status (λ (e : Text × Dict Bool) has. update-HasServer s t _ e.1 has) h,
  Finds-update (HasServer s) low (lower m) (set_orphan t c) v.orphan
      (λ cov has. update-HasServer s t _ cov has) k,
)

survey_maps-keeps :
    (s t low : Text) (images textures maps : List Text) (v : Survey)
    → IsListed s low v
    → IsListed s low (survey_maps t images textures maps v)
unfolding survey_maps
survey_maps-keeps s t low images textures [] v h = h
survey_maps-keeps s t low images textures (m ∷ maps) v h =
    survey_maps-keeps s t low images textures maps _ (IsListed-set s t low m _ _ v h)

survey_maps-lists :
    (s m : Text) (images textures maps : List Text) (v : Survey)
    → mem_text m maps ≡ true
    → IsListed s (lower m) (survey_maps s images textures maps v)
unfolding survey_maps mem_text
survey_maps-lists s m images textures [] v found = cc
survey_maps-lists s m images textures (n ∷ maps) v found = elim (Bool-cases (text_eq m n)) [
  | inl same ↦
      let e = (text_eq_iff m n).0 same in
      survey_maps-keeps s s (lower m) images textures maps _ (
        subst
          (λ (i : Text). IsListed s (lower i) (record {
            status = Dict.update (lower n) (set_covered n s (covered n images)) v.status;
            orphan =
                Dict.update (lower n) (set_orphan s (mem_text (vote_dir ++ lower n) textures))
                  v.orphan;
            textures = v.textures;
          }))
          (sym e)
          (
            Finds-set (λ (e : Text × Dict Bool). HasServer s e.1) (lower n) _ v.status
                (set_covered-has n s _),
            Finds-set (HasServer s) (lower n) _ v.orphan (set_orphan-has s _),
          ))
  | inr other ↦ survey_maps-lists s m images textures maps _ (ground (arith, found, other))
]

module _ (index : Index) (items : Dict Item) where
  abbrev pub ImagesOn : Text → List Text → Type 0
  ImagesOn s images = images_on index (subscriptions items s) ≡ ok images

  abbrev pub TexturesOn : Text → List Text → Type 0
  TexturesOn s textures = textures_on index (subscriptions items s) ≡ ok textures

  abbrev pub IsShown : Text → Text × Bool → Type 0
  IsShown low (s, b) = (images : List Text) × ImagesOn s images × (b ≡ is_covered low images)

  abbrev pub IsOwn : Text → Text × Bool → Type 0
  IsOwn low (s, b) =
      (textures : List Text) × TexturesOn s textures × (b ≡ mem_text (vote_dir ++ low) textures)

  abbrev pub StatusHolds : Text × (Text × Dict Bool) → Type 0
  StatusHolds (low, (spelling, cov)) = (lower spelling ≡ low) × All (IsShown low) cov

  abbrev pub OrphanHolds : Text × Dict Bool → Type 0
  OrphanHolds (low, cov) = All (IsOwn low) cov

  abbrev pub TexturesHold : Text × List Text → Type 0
  TexturesHold (s, textures) = TexturesOn s textures

  pub record IsSurvey (v : Survey) : Type 0 where
    pub statuses : All StatusHolds v.status
    pub orphans : All OrphanHolds v.orphan
    pub all_textures : All TexturesHold v.textures
    pub distinct : Distinct v.status

  survey_maps-IsSurvey :
      (s : Text) (images textures maps : List Text) (v : Survey)
      → ImagesOn s images
      → TexturesOn s textures
      → IsSurvey v
      → IsSurvey (survey_maps s images textures maps v)
  unfolding survey_maps covered
  survey_maps-IsSurvey s images textures [] v hi ht h = h
  survey_maps-IsSurvey s images textures (m ∷ maps) v hi ht h =
      let shown : IsShown (lower m) (s, is_covered (lower m) images) = (images, hi, refl) in
      let own : IsOwn (lower m) (s, mem_text (vote_dir ++ lower m) textures) =
        (textures, ht, refl) in
      survey_maps-IsSurvey s images textures maps _ hi ht (record {
        statuses =
            Dict.All-update StatusHolds (lower m) _ v.status (refl, (shown, tt))
              (λ (e : Text × Dict Bool) old.
                (old.0, Dict.All-update (IsShown (lower m)) s _ e.1 shown (λ b was. shown) old.1))
              h.statuses;
        orphans =
            Dict.All-update OrphanHolds (lower m) _ v.orphan (own, tt)
              (λ cov old. Dict.All-update (IsOwn (lower m)) s _ cov own (λ b was. own) old)
              h.orphans;
        all_textures = h.all_textures;
        distinct = Distinct-update (lower m) _ v.status h.distinct;
      })

  pub survey-IsSurvey :
      (cycle_lines : Text → List Text) (servers : List Text) (v v' : Survey)
      → IsSurvey v
      → survey index items cycle_lines servers v ≡ ok v'
      → IsSurvey v'
  unfolding survey
  survey-IsSurvey cycle_lines [] v v' h done = let e : v ≡ v' = cc in subst IsSurvey e h
  survey-IsSurvey cycle_lines (s ∷ servers) v v' h done =
      let (images, hi, next) = >>=-eq-ok (images_on index (subscriptions items s)) _ done in
      let (textures, ht, rest) = >>=-eq-ok (textures_on index (subscriptions items s)) _ next in
      survey-IsSurvey cycle_lines servers _ v'
        (survey_maps-IsSurvey s images textures (mapcycle (cycle_lines s)) _ hi ht (record {
          statuses = h.statuses;
          orphans = h.orphans;
          all_textures =
              Dict.All-update TexturesHold s _ v.textures ht (λ ts was. ht) h.all_textures;
          distinct = h.distinct;
        }))
        rest

  pub no_survey-IsSurvey : IsSurvey no_survey
  no_survey-IsSurvey = record { statuses = tt; orphans = tt; all_textures = tt; distinct = tt }

  survey-keeps :
      (cycle_lines : Text → List Text) (s low : Text) (servers : List Text) (v v' : Survey)
      → IsListed s low v
      → survey index items cycle_lines servers v ≡ ok v'
      → IsListed s low v'
  unfolding survey
  survey-keeps cycle_lines s low [] v v' h done = let e : v ≡ v' = cc in subst (IsListed s low) e h
  survey-keeps cycle_lines s low (t ∷ servers) v v' h done =
      let (images, hi, next) = >>=-eq-ok (images_on index (subscriptions items t)) _ done in
      let (textures, ht, rest) = >>=-eq-ok (textures_on index (subscriptions items t)) _ next in
      survey-keeps cycle_lines s low servers _ v'
        (survey_maps-keeps s t low images textures (mapcycle (cycle_lines t)) _ h) rest

  -- A map of the map cycle of a server is listed for the server, whose contents are known.
  pub survey-lists :
      (cycle_lines : Text → List Text) (s m : Text) (servers : List Text) (v v' : Survey)
      → mem_text s servers ≡ true
      → mem_text m (mapcycle (cycle_lines s)) ≡ true
      → survey index items cycle_lines servers v ≡ ok v'
      → IsListed s (lower m) v'
        × ((images : List Text) × ImagesOn s images)
        × ((textures : List Text) × TexturesOn s textures)
  unfolding survey mem_text
  survey-lists cycle_lines s m [] v v' hs hm done = cc
  survey-lists cycle_lines s m (t ∷ servers) v v' hs hm done =
      let (images, hi, next) = >>=-eq-ok (images_on index (subscriptions items t)) _ done in
      let (textures, ht, rest) = >>=-eq-ok (textures_on index (subscriptions items t)) _ next in
      elim (Bool-cases (text_eq s t)) [
        | inl same ↦
            let e = (text_eq_iff s t).0 same in
            let hm' : mem_text m (mapcycle (cycle_lines t)) ≡ true =
              subst (λ i. mem_text m (mapcycle (cycle_lines i)) ≡ true) e hm in
            let at_t =
              survey-keeps cycle_lines t (lower m) servers _ v'
                (survey_maps-lists t m images textures (mapcycle (cycle_lines t)) _ hm') rest in
            subst
              (λ i.
                IsListed i (lower m) v'
                × ((images : List Text) × ImagesOn i images)
                × ((textures : List Text) × TexturesOn i textures))
              (sym e) (at_t, (images, hi), (textures, ht))
        | inr other ↦ survey-lists cycle_lines s m servers _ v' (ground (arith, hs, other)) hm rest
      ]
