-- ===== src/MapVote/Outcomes.antt =====
-- The outcome of the loop body of main() in fastdl/tools/mapvote_images.py for one map: an alias names a
-- texture that a server of the map has.
use tug.Base.{
  ℕ, Bool, true, false, not, List, [], ◌∷◌, ◌++◌, keep_if, any, Option, none, some, ◌≡◌, refl, sym,
  ap, ◌⊎◌, inl, inr, All, All-append, Bool-cases, Option-cases, arith,
}
use mathlib.Core.Path.{subst}
use tug.Base.Text.{Text, lower, lower_char, mem_text, text_eq, text_eq_iff}
use tug.Base.Dict
use tug.Base.Dict.{Dict, keys, values}
use tug.Workshop.Lock.{Item}
use tug.MapVote.{vote_dir}
use tug.MapVote.Config.{Override}
use tug.MapVote.Index.{Index}
use tug.MapVote.Survey.{Survey}
use tug.MapVote.Decide.{
  Wanted, Outcome, Plan, all_true, lacking, by_override, outcome, add_outcome, plan_from,
  from_owner, all_orphan, servers_of,
}

lower_char-twice : (c : ℕ) → lower_char (lower_char c) ≡ lower_char c
unfolding lower_char
lower_char-twice c = ground arith

lower-twice : (s : Text) → lower (lower s) ≡ lower s
unfolding lower
lower-twice [] = refl
lower-twice (c ∷ s) = rw (lower_char-twice c, lower-twice s) refl

pub lower-vote_dir : (s : Text) → lower (vote_dir ++ lower s) ≡ vote_dir ++ lower s
unfolding lower lower_char
lower-vote_dir s = ap (λ t. vote_dir ++ t) (lower-twice s)

-- An alias names a texture of the server.
abbrev pub IsHeld : List Text → Override → Type 0
IsHeld textures (Override.alias t) = mem_text (lower t) textures ≡ true
IsHeld textures _ = Unit

abbrev pub OutcomeHolds : (Override → Type 0) → Outcome → Type 0
OutcomeHolds P (Outcome.wanted source item) = P source
OutcomeHolds P _ = Unit

add_outcome-All :
    (P : Text → Override → Type 0) (m : Text) (o : Outcome) (p : Plan)
    → OutcomeHolds (P m) o
    → All (λ (w : Wanted). P w.spelling w.source) p.wanted_maps
    → All (λ (w : Wanted). P w.spelling w.source) (add_outcome m o p).wanted_maps
unfolding add_outcome
add_outcome-All P m (Outcome.kept f) p hm h = h
add_outcome-All P m Outcome.skipped p hm h = h
add_outcome-All P m (Outcome.unresolved why) p hm h = h
add_outcome-All P m (Outcome.wanted source item) p hm h = All-append _ p.wanted_maps _ h (hm, tt)

-- The lists of a plan's loop: what holds of every map's outcome holds of every image that is wanted.
pub plan_from-All :
    (P : Text → Override → Type 0) (decided : Text → Outcome) (ms : List Text) (p : Plan)
    → All (λ m. OutcomeHolds (P m) (decided m)) ms
    → All (λ (w : Wanted). P w.spelling w.source) p.wanted_maps
    → All (λ (w : Wanted). P w.spelling w.source) (plan_from decided ms p).wanted_maps
unfolding plan_from
plan_from-All P decided [] p hs h = h
plan_from-All P decided (m ∷ ms) p (hm, hs) h =
    plan_from-All P decided ms (add_outcome m (decided m) p) hs
      (add_outcome-All P m (decided m) p hm h)

pub all_true-at : (bs : List Bool) → all_true bs ≡ true → any not bs ≡ false
all_true-at bs h = ground (arith, h)

List-cases : (xs : List Text) → (xs ≡ []) ⊎ ((y : Text) × (ys : List Text) × (xs ≡ y ∷ ys))
List-cases [] = inl refl
List-cases (y ∷ ys) = inr (y, ys, refl)

-- A filter that leaves nothing has refused every element.
keep_if-none :
    (p : Text → Bool) (s : Text) (xs : List Text)
    → keep_if p xs ≡ []
    → mem_text s xs ≡ true
    → p s ≡ false
unfolding mem_text
keep_if-none p s [] nothing found = cc
keep_if-none p s (x ∷ xs) nothing found = elim (Bool-cases (p x)) [
  | inl passes ↦ ground (arith, nothing, passes)
  | inr refused ↦ elim (Bool-cases (text_eq s x)) [
    | inl same ↦ subst (λ i. p i ≡ false) (sym ((text_eq_iff s x).0 same)) refused
    | inr other ↦
        keep_if-none p s xs (ground (arith, nothing, refused)) (ground (arith, found, other))
  ]
]

lacking-none :
    (held : Dict (List Text)) (t s : Text) (servers ts : List Text)
    → lacking held t servers ≡ []
    → mem_text s servers ≡ true
    → ((found : List Text) → Dict.get s held ≡ some found → found ≡ ts)
    → mem_text t ts ≡ true
unfolding lacking
lacking-none held t s servers ts none_lacks listed same =
    let refused = keep_if-none _ s servers none_lacks listed in
    elim (Option-cases (Dict.get s held)) [
      | inl absent ↦ ground (arith, refused, absent)
      | inr (found, at) ↦
          let here : mem_text t found ≡ true = ground (arith, refused, at) in
          subst (λ x. mem_text t x ≡ true) (same found at) here
    ]

from_owner-IsHeld :
    (textures : List Text) (is_stock : Bool) (hits : List Text)
    → OutcomeHolds (IsHeld textures) (from_owner is_stock hits)
from_owner-IsHeld textures is_stock [] = tt
from_owner-IsHeld textures is_stock (i ∷ hits) = tt

module _ (v : Survey) (low s : Text) (images textures : List Text) where
  -- What the branches of the loop body need of a survey, a map and a server.
  pub record Facts : Type 0 where
    pub at_server : mem_text s (servers_of v.status low) ≡ true
    pub same_textures : (found : List Text) → Dict.get s v.textures ≡ some found → found ≡ textures
    pub own : all_orphan v.orphan low ≡ true → mem_text (vote_dir ++ low) textures ≡ true
    pub lowered : lower (vote_dir ++ low) ≡ vote_dir ++ low

  by_override-IsHeld :
      (index : Index) (hits : List Text) (o : Option Override)
      → Facts
      → OutcomeHolds (IsHeld textures) (by_override v index hits low (servers_of v.status low) o)
  unfolding by_override
  by_override-IsHeld index hits (some Override.skip) h = tt
  by_override-IsHeld index hits (some (Override.url u)) h = tt
  by_override-IsHeld index hits (some (Override.item i)) h = tt
  by_override-IsHeld index hits (some (Override.alias t)) h =
      elim (List-cases (lacking v.textures (lower t) (servers_of v.status low))) [
        | inl none_lacks ↦ rw none_lacks (
            lacking-none v.textures (lower t) s (servers_of v.status low) textures none_lacks
              h.at_server h.same_textures)
        | inr (x, xs, some_lack) ↦ rw some_lack tt
      ]
  by_override-IsHeld index hits none h = elim (Bool-cases (all_orphan v.orphan low)) [
    | inl all ↦ rw (all, h.lowered) (h.own all)
    | inr not_all ↦ rw not_all (from_owner-IsHeld textures (mem_text low index.base.maps) hits)
  ]

pub OutcomeHolds-imp :
    (P Q : Override → Type 0) (o : Outcome)
    → ((source : Override) → P source → Q source)
    → OutcomeHolds P o
    → OutcomeHolds Q o
OutcomeHolds-imp P Q (Outcome.kept f) imp h = tt
OutcomeHolds-imp P Q Outcome.skipped imp h = tt
OutcomeHolds-imp P Q (Outcome.unresolved why) imp h = tt
OutcomeHolds-imp P Q (Outcome.wanted source item) imp h = imp source h

pub OutcomeHolds-any :
    (P : Override → Type 0) (o : Outcome) → ((source : Override) → P source) → OutcomeHolds P o
OutcomeHolds-any P (Outcome.kept f) h = tt
OutcomeHolds-any P Outcome.skipped h = tt
OutcomeHolds-any P (Outcome.unresolved why) h = tt
OutcomeHolds-any P (Outcome.wanted source item) h = h source

pub outcome-IsHeld :
    (v : Survey) (index : Index) (items : Dict Item) (overrides : Dict Override) (have : Dict Text)
    (force : List Text) (m s : Text) (images textures : List Text)
    → Facts v (lower m) s images textures
    → OutcomeHolds (IsHeld textures) (outcome v index items overrides have force m)
unfolding outcome
outcome-IsHeld v index items overrides have force m s images textures h =
    let fresh =
      by_override-IsHeld v (lower m) s images textures index _ (Dict.get (lower m) overrides) h in
    elim (Option-cases (Dict.get (lower m) have)) [
      | inl absent ↦ rw (outcome, absent) fresh
      | inr (f, at) ↦ elim (Bool-cases (mem_text (lower m) force)) [
        | inl forced ↦ rw (outcome, at, forced) fresh
        | inr unforced ↦ rw (outcome, at, unforced) tt
      ]
    ]
