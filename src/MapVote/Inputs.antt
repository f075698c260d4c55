-- ===== src/MapVote/Inputs.antt =====
-- What the inputs of fastdl/tools/mapvote_images.py are read as: the map cycle and the overrides.
use tug.Base.{
  ℕ, ◌+◌, true, List, [], ◌∷◌, map, if◌then◌else◌, Option, none, some, ◌≡◌, refl, sym, ap, ◌∙◌, ◌⊎◌,
  inl, inr, Bool-cases, Option-cases, is_empty,
}
use tug.Base.Text.{Text, text_eq, lower, mem_text}
use tug.Base.Dict
use tug.Base.Dict.{Dict}
use tug.Base.Result.{Result, ok, raised}
use tug.Workshop.Refresh.{cut_comment, first_seen}
use tug.MapVote.{keep_some}
use tug.MapVote.Config.{
  words, mapcycle_from, mapcycle, cut_free_comment, Override, parse_override, override_lines,
  read_overrides,
}

abbrev head : List Text → Option Text
head [] = none
head (tok ∷ toks) = some tok

-- The first word of a line without its comment.
pub first_word : Text → Option Text
first_word line = head (words [] (cut_comment line))

words-cases :
    (toks : List Text) → (toks ≡ []) ⊎ ((tok : Text) × (rest : List Text) × (toks ≡ tok ∷ rest))
words-cases [] = inl refl
words-cases (tok ∷ rest) = inr (tok, rest, refl)

mapcycle_from-first_seen :
    (seen lines : List Text)
    → map lower (mapcycle_from seen lines)
      ≡ first_seen seen (map lower (keep_some first_word lines))
unfolding mapcycle_from first_seen keep_some first_word
mapcycle_from-first_seen seen [] = refl
mapcycle_from-first_seen seen (line ∷ lines) = elim (words-cases (words [] (cut_comment line))) [
  | inl none_here ↦ rw (mapcycle_from, keep_some, none_here) (mapcycle_from-first_seen seen lines)
  | inr (tok, toks, at) ↦ elim (Bool-cases (mem_text (lower tok) seen)) [
    | inl again ↦
        rw (mapcycle_from, keep_some, first_seen, at, again) (mapcycle_from-first_seen seen lines)
    | inr new ↦
        rw (mapcycle_from, keep_some, first_seen, at, new)
          (ap (λ rest. lower tok ∷ rest) (mapcycle_from-first_seen (lower tok ∷ seen) lines))
  ]
]

-- The map cycle, lower-cased, is the list of the lower-cased first words of its lines, with the
-- comments cut off, in their order and each once.
pub mapcycle-first_seen :
    (lines : List Text)
    → map lower (mapcycle lines) ≡ first_seen [] (map lower (keep_some first_word lines))
mapcycle-first_seen lines = mapcycle_from-first_seen [] lines

-- What a line says about a map.
abbrev says : Text → Option (Text × Override) → Option Override
says m none = none
says m (some (name, o)) = if text_eq name m then some o else none

abbrev or_earlier : Option Override → Option Override → Option Override
or_earlier (some o) earlier = some o
or_earlier none earlier = earlier

parsed : Text → Option (Text × Override)
parsed line = parse_override (words [] (cut_free_comment true line))

-- The last line that is about a map counts.
pub last_about : Text → List Text → Option Override
last_about m [] = none
last_about m (line ∷ lines) = or_earlier (last_about m lines) (says m (parsed line))

or_earlier-none : (a : Option Override) → or_earlier a none ≡ a
or_earlier-none none = refl
or_earlier-none (some o) = refl

or_earlier_assoc :
    (a b c : Option Override) → or_earlier a (or_earlier b c) ≡ or_earlier (or_earlier a b) c
or_earlier_assoc none b c = refl
or_earlier_assoc (some o) b c = refl

get-update-says :
    (m name : Text) (o : Override) (out : Dict Override)
    → Dict.get m (Dict.update name (λ _. o) out)
      ≡ or_earlier (says m (some (name, o))) (Dict.get m out)
get-update-says m name o out = elim (Bool-cases (text_eq name m)) [
  | inl same ↦ Dict.get-update name m (λ _. o) out ∙ rw same refl
  | inr other ↦ Dict.get-update name m (λ _. o) out ∙ rw other refl
]

override_lines-last_about :
    (m : Text) (n : ℕ) (out : Dict Override) (lines : List Text) (d : Dict Override)
    → override_lines n out lines ≡ ok d
    → Dict.get m d ≡ or_earlier (last_about m lines) (Dict.get m out)
unfolding override_lines last_about parsed
override_lines-last_about m n out [] d done = ap (Dict.get m) cc
override_lines-last_about m n out (line ∷ lines) d done =
    elim (Option-cases (parse_override (words [] (cut_free_comment true line)))) [
      | inr ((name, o), at) ↦
          let on : override_lines (n + 1) (Dict.update name (λ _. o) out) lines ≡ ok d =
            rw (override_lines, at) at done in
          let at' : parsed line ≡ some (name, o) = at in
          override_lines-last_about m (n + 1) _ lines d on
          ∙ rw at' (
              ap (or_earlier (last_about m lines)) (get-update-says m name o out)
              ∙ or_earlier_assoc (last_about m lines) (says m (some (name, o))) (Dict.get m out))
      | inl unparsed ↦
          let at' : parsed line ≡ none = unparsed in
          elim (Bool-cases (is_empty (words [] (cut_free_comment true line)))) [
            | inl blank ↦
                let on : override_lines (n + 1) out lines ≡ ok d =
                  rw (override_lines, unparsed, blank) at done in
                override_lines-last_about m (n + 1) out lines d on
                ∙ rw at' (
                    ap (λ a. or_earlier a (Dict.get m out))
                      (sym (or_earlier-none (last_about m lines))))
            | inr bad ↦
                let stop : Path (Result ℕ (Dict Override)) (raised n) (ok d) =
                  rw (override_lines, unparsed, bad) at done in
                cc
          ]
    ]

-- If the overrides are read, a map has the override of the last line about it, and none if no line is.
pub get-read_overrides :
    (m : Text) (lines : List Text) (d : Dict Override)
    → read_overrides lines ≡ ok d
    → Dict.get m d ≡ last_about m lines
unfolding read_overrides Dict.get
get-read_overrides m lines d done =
    override_lines-last_about m 1 [] lines d done ∙ or_earlier-none (last_about m lines)
