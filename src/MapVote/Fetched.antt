-- ===== src/MapVote/Fetched.antt =====
-- What fetch_and_index() of fastdl/tools/mapvote_images.py leaves behind: an entry with textures for
-- every item that arrived.
use tug.Base.{
  ℕ, List, [], ◌∷◌, ◌++◌, Option, none, some, ◌≡◌, inl, inr, All, All-imp, All-append, Option-cases,
}
use mathlib.Core.Path.{subst}
use tug.Base.Text.{Text}
use tug.Base.Dict
use tug.Base.Dict.{Dict, keys}
use tug.Base.Entries.{Finds-set}
use tug.Base.SortedList.{All-unsorted}
use tug.Workshop.Lock.{Item}
use tug.MapVote.Index.{
  Indexed, Root, arrived, index_batch, index_batches, batches, by_size, fetch_and_index,
  fetch_missing,
}
use tug.Base.Result.{ok, raised, too_deep}
use tug.MapVote.{ContentFile, scan}
use tug.MapVote.Batches.{join, batches-Fits}
use tug.MapVote.Known.{
  Has, Known, Settled, Settled-last, Settled-first, Known-set, All-own_key, entry_of-Has, Step,
  Keeps, Keeps-ok, Settles, Settles-ok, with_missing-Keeps, with_missing-Settles, Settles-indexed,
  >>=-Keeps, >>=-Settles,
}

sorted-Settles :
    (m : Step) (n : ℕ) (missing : Dict Item)
    → Settles m (join (batches n missing))
    → Settles m missing
sorted-Settles (ok r) n missing settled =
    All-unsorted _ by_size missing (subst (All _) (batches-Fits n missing).0 settled)
sorted-Settles (raised e) n missing settled = tt
sorted-Settles too_deep n missing settled = tt

module _ (names_in_zip : List ℕ → Option (List Text)) where
  arrived-Has :
      (root : Root) (i : Text) (files : List ContentFile) (entry : Indexed)
      → arrived names_in_zip root i files ≡ ok entry
      → Has entry
  unfolding arrived
  arrived-Has root i files entry made = entry_of-Has _ (scan names_in_zip files) entry made

  index_batch-Keeps :
      (root : Root) (i : Text) (batch : Dict Item) (idx : Dict Indexed)
      → Known idx i
      → Keeps (index_batch names_in_zip root idx batch) i
  unfolding index_batch
  index_batch-Keeps root i [] idx known = known
  index_batch-Keeps root i ((j, item) ∷ batch) idx known =
      elim (Option-cases (Dict.get j root.content)) [
        | inl absent ↦
            rw (index_batch, absent)
              (with_missing-Keeps (j, item) _ i (index_batch-Keeps root i batch idx known))
        | inr (files, at) ↦
            rw (index_batch, at)
              (>>=-Keeps (arrived names_in_zip root j files) _ i λ entry made.
                index_batch-Keeps root i batch _
                  (Known-set i j entry idx (arrived-Has root j files entry made) known))
      ]

  index_batch-Settles :
      (root : Root) (batch : Dict Item) (idx : Dict Indexed)
      → Settles (index_batch names_in_zip root idx batch) batch
  unfolding index_batch
  index_batch-Settles root [] idx = tt
  index_batch-Settles root ((j, item) ∷ batch) idx = elim (Option-cases (Dict.get j root.content)) [
    | inl absent ↦
        rw (index_batch, absent)
          (with_missing-Settles (j, item) _ batch (index_batch-Settles root batch idx))
    | inr (files, at) ↦
        rw (index_batch, at)
          (>>=-Settles (arrived names_in_zip root j files) _ ((j, item) ∷ batch) λ entry made.
            Settles-indexed (j, item) _ batch
              (index_batch-Keeps root j batch _
                (Finds-set Has j _ idx (λ o. arrived-Has root j files entry made)))
              (index_batch-Settles root batch _))
  ]

  index_batches-Keeps :
      (download : Dict Item → Root) (i : Text) (bs : List (Dict Item)) (idx : Dict Indexed)
      → Known idx i
      → Keeps (index_batches names_in_zip download idx bs) i
  unfolding index_batches
  index_batches-Keeps download i [] idx known = known
  index_batches-Keeps download i (b ∷ bs) idx known =
      >>=-Keeps (index_batch names_in_zip (download b) idx b) _ i λ first made.
        >>=-Keeps (index_batches names_in_zip download first.0 bs) _ i λ rest later.
          Keeps-ok _ rest i later (
            index_batches-Keeps download i bs first.0
              (Keeps-ok _ first i made (index_batch-Keeps (download b) i b idx known)))

  index_batches-Settles :
      (download : Dict Item → Root) (bs : List (Dict Item)) (idx : Dict Indexed)
      → Settles (index_batches names_in_zip download idx bs) (join bs)
  unfolding index_batches
  index_batches-Settles download [] idx = tt
  index_batches-Settles download (b ∷ bs) idx =
      >>=-Settles (index_batch names_in_zip (download b) idx b) _ (b ++ join bs) λ first made.
        >>=-Settles (index_batches names_in_zip download first.0 bs) _ (b ++ join bs) λ rest later.
          All-append (Settled rest.0 (first.1 ++ rest.1)) b (join bs)
            (All-imp _ _ b
              (λ e.
                Settled-first first.0 rest.0 e
                  (λ known.
                    Keeps-ok _ rest e.0 later (index_batches-Keeps download e.0 bs first.0 known))
                  first.1 rest.1)
              (Settles-ok _ first b made (index_batch-Settles (download b) b idx)))
            (All-imp _ _ (join bs) (λ e. Settled-last rest.0 e first.1 rest.1)
              (Settles-ok _ rest (join bs) later (index_batches-Settles download bs first.0)))

  pub fetch_missing-Keeps :
      (download : Option (Dict Item → Root)) (n : ℕ) (i : Text) (idx : Dict Indexed)
      (missing : Dict Item)
      → Known idx i
      → Keeps (fetch_missing names_in_zip download n idx missing) i
  unfolding fetch_and_index
  fetch_missing-Keeps none n i idx missing known = known
  fetch_missing-Keeps (some download) n i idx missing known =
      index_batches-Keeps download i (batches n missing) idx known

  pub fetch_missing-Settles :
      (download : Option (Dict Item → Root)) (n : ℕ) (idx : Dict Indexed) (missing : Dict Item)
      → Settles (fetch_missing names_in_zip download n idx missing) missing
  unfolding fetch_and_index
  fetch_missing-Settles none n idx missing =
      All-imp _ _ missing (λ (e : Text × Item) here. inr here) (All-own_key missing)
  fetch_missing-Settles (some download) n idx missing =
      sorted-Settles (index_batches names_in_zip download idx (batches n missing)) n missing
        (index_batches-Settles download (batches n missing) idx)
