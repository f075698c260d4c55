-- ===== src/Workshop/Fetched.antt =====
-- What published_file_details() of tools/workshop/workshop_lock.py gathers from its requests.
use tug.Base.{
  ℕ, zero, suc, ◌+◌, List, [], ◌∷◌, ◌++◌, map, if◌then◌else◌, Option, none, some, length,
  length-append, ◌≡◌, refl, ap, ◌∙◌, inl, inr, Bool-cases, All, append_assoc, arith,
}
use Prim.Native.Nat.{◌≤◌}
use tug.Base.Text.{Text, text_eq, text_eq_iff, text_eq_sym, mem_text}
use tug.Base.Members.{mem_text-append}
use tug.Base.Dict
use tug.Base.Dict.{Dict}
use tug.Base.Result.{ok}
use tug.Workshop.Refresh.{Details, concat}
use tug.Workshop.Fetch.{
  chunks_with, chunks, Answer, add_entries, fetch_chunks, published_file_details,
}

concat-chunks_with :
    (room : ℕ) (part ids : List Text) → concat (chunks_with room part ids) ≡ part ++ ids
unfolding chunks_with
concat-chunks_with room [] [] = refl
concat-chunks_with room (i ∷ part) [] = refl
concat-chunks_with zero part (i ∷ ids) = ap (λ l. part ++ l) (concat-chunks_with 99 (i ∷ []) ids)
concat-chunks_with (suc room) part (i ∷ ids) =
    concat-chunks_with room (part ++ i ∷ []) ids ∙ append_assoc part (i ∷ []) ids

abbrev Fits : List Text → Type 0
Fits chunk = length chunk ≤ 100

chunks_with-Fits :
    (room : ℕ) (part ids : List Text)
    → length part + room ≤ 100
    → All Fits (chunks_with room part ids)
unfolding chunks_with
chunks_with-Fits room [] [] h = tt
chunks_with-Fits room (i ∷ part) [] h = (omega (arith, h), tt)
chunks_with-Fits zero part (i ∷ ids) h =
    (omega (arith, h), chunks_with-Fits 99 (i ∷ []) ids (omega arith))
chunks_with-Fits (suc room) part (i ∷ ids) h =
    chunks_with-Fits room (part ++ i ∷ []) ids (omega (arith, h, length-append part (i ∷ [])))

-- The requests for a list of ids are for all of them, in their order, and for at most a hundred each.
chunks-Fits : (ids : List Text) → (concat (chunks ids) ≡ ids) × All Fits (chunks ids)
unfolding chunks
chunks-Fits ids = (concat-chunks_with 100 [] ids, chunks_with-Fits 100 [] ids (omega arith))

module _ (ask : List Text → Option Answer) (answer : Text → Details) where
  abbrev entries_for : List Text → Answer
  entries_for ids = map (λ i. (i, answer i)) ids

  get-add_entries :
      (j : Text) (details : Dict Details) (ids : List Text)
      → Dict.get j (add_entries details (entries_for ids))
        ≡ (if mem_text j ids then some (answer j) else Dict.get j details)
  unfolding add_entries mem_text
  get-add_entries j details [] = refl
  get-add_entries j details (i ∷ ids) =
      let updated = Dict.update i (λ old. answer i) details in
      get-add_entries j updated ids ∙ elim (Bool-cases (mem_text j ids)) [
        | inl later ↦ rw later (ground arith)
        | inr here ↦
            let at = Dict.get-update i j (λ old. answer i) details in
            elim (Bool-cases (text_eq i j)) [
              | inl same ↦
                  rw (here, at, text_eq_sym j i, same)
                    (ap (λ k. some (answer k)) ((text_eq_iff i j).0 same))
              | inr other ↦ rw (here, at, text_eq_sym j i, other) refl
            ]
      ]

  fetch_chunks-get :
      (j : Text) (details : Dict Details) (cs : List (List Text))
      → ((chunk : List Text) → length chunk ≤ 100 → ask chunk ≡ some (entries_for chunk))
      → All Fits cs
      → (found : Dict Details) × (fetch_chunks ask details cs ≡ ok found)
        × (Dict.get j found
            ≡ (if mem_text j (concat cs) then some (answer j) else Dict.get j details))
  unfolding fetch_chunks mem_text
  fetch_chunks-get j details [] answers h = (details, refl, refl)
  fetch_chunks-get j details (c ∷ cs) answers (h, hs) =
      let (found, run, at) =
        fetch_chunks-get j (add_entries details (entries_for c)) cs answers hs in
      (
        found,
        rw (fetch_chunks, answers c h) run,
        at ∙ rw (get-add_entries j details c, mem_text-append j c (concat cs)) (ground arith),
      )

  -- If Steam answers every request of at most a hundred ids with an entry for each, the details of any
  -- number of ids are fetched without an error, and every id has its entry among them and no other id one.
  pub published_file_details-get :
      ((chunk : List Text) → length chunk ≤ 100 → ask chunk ≡ some (entries_for chunk))
      → (ids : List Text) (j : Text)
      → (found : Dict Details) × (published_file_details ask ids ≡ ok found)
        × (Dict.get j found ≡ (if mem_text j ids then some (answer j) else none))
  unfolding published_file_details Dict.get
  published_file_details-get answers ids j =
      let (all, fits) = chunks-Fits ids in
      let (found, run, at) = fetch_chunks-get j [] (chunks ids) answers fits in
      (found, run, at ∙ rw all refl)
