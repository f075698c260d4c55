-- ===== src/Workshop/Fetch.antt =====
-- published_file_details() and render() of tools/workshop/workshop_lock.py. The Steam API is a parameter: what it
-- answers for the ids of one request, none where urlopen() or json.load() raises.
use tug.Base.{
  ℕ, zero, suc, List, [], ◌∷◌, ◌++◌, if◌then◌else◌, Option, none, some, is_empty, map, Bool, false,
}
use tug.Base.Text.{Text, text_eq, text_lt}
use tug.Base.Sort.{sorted}
use tug.Base.Dict
use tug.Base.Dict.{Dict, keys, values}
use tug.Base.Result.{Result, ok, raised, too_deep, ◌>>=◌}
use tug.Workshop.Lock.{Lock}
use tug.Workshop.Refresh.{Details, RefreshError, ids_of, pinned_lock}
use tug.Workshop.Render.Generated.{RenderError, RenderedFiles, rendered}

-- ids[start : start + BATCH] for each start: what is in the current chunk, and how many more may be.
unfoldable pub chunks_with : ℕ → List Text → List Text → List (List Text)
chunks_with room part [] = if is_empty part then [] else part ∷ []
chunks_with zero part (i ∷ ids) = part ∷ chunks_with 99 (i ∷ []) ids
chunks_with (suc room) part (i ∷ ids) = chunks_with room (part ++ i ∷ []) ids

unfoldable pub chunks : List Text → List (List Text)
unfolding chunks_with
chunks ids = chunks_with 100 [] ids

-- Entries by their publishedfileid.
abbrev pub Answer : Type 0
Answer = List (Text × Details)

unfoldable pub add_entries : Dict Details → Answer → Dict Details
add_entries details [] = details
add_entries details ((i, entry) ∷ entries) =
    add_entries (Dict.update i (λ old. entry) details) entries

pub data FetchError : Type 0 where
  request_failed : FetchError
  refresh_failed : RefreshError → FetchError

module _ (ask : List Text → Option Answer) where
  unfoldable pub fetch_chunks : Dict Details → List (List Text) → Result FetchError (Dict Details)
  unfolding add_entries
  fetch_chunks details [] = ok details
  fetch_chunks details (chunk ∷ rest) = elim (ask chunk) [
    | none ↦ raised request_failed
    | some entries ↦ fetch_chunks (add_entries details entries) rest
  ]

  unfoldable pub published_file_details : List Text → Result FetchError (Dict Details)
  unfolding fetch_chunks chunks
  published_file_details ids = fetch_chunks [] (chunks ids)

  abbrev or_failed {ℓ} : {A : Type ℓ} → Result RefreshError A → Result FetchError A
  or_failed (ok a) = ok a
  or_failed (raised e) = raised (refresh_failed e)
  or_failed too_deep = too_deep

  -- refresh() with its request; without a server nothing is asked.
  unfoldable pub refresh_online : Dict (List Text) → Lock → Result FetchError Lock
  unfolding published_file_details
  refresh_online subscriptions old =
      if is_empty subscriptions then raised (refresh_failed RefreshError.no_servers) else do
        all_ids ← or_failed (ids_of subscriptions)
        details ← published_file_details all_ids
        or_failed (pinned_lock subscriptions details old all_ids)

abbrev pub is_same : Option Text → Text → Bool
is_same none content = false
is_same (some existing) content = text_eq existing content

-- One round of the loop of render().
abbrev pub saved : Dict Text → Text → Text → Dict Text
saved disk path content =
    if is_same (Dict.get path disk) content then disk else Dict.update path (λ old. content) disk

-- The loop of render(): what is on disk afterwards, and the files that are written, those whose text is
-- another or that are not there.
unfoldable pub write_changed : Dict Text → Dict Text → Dict Text × Dict Text
write_changed disk [] = (disk, [])
write_changed disk ((path, content) ∷ files) =
    let (after, written) = write_changed (saved disk path content) files in
    (after, if is_same (Dict.get path disk) content then written else (path, content) ∷ written)

abbrev pub file_lt : Text × Text → Text × Text → Bool
file_lt a b = text_lt a.0 b.0

-- rendered() by path; `manifest_path` is where the .acf of a server is.
abbrev pub files_of : Text → (Text → Text) → RenderedFiles → Dict Text
files_of dockerfile_path manifest_path out =
    (dockerfile_path, out.dockerfile)
    ∷ map (λ (e : Text × Text). (manifest_path e.0, e.1)) out.manifests

-- render(): the result of its loop; a Dockerfile that is not there is read as
-- an empty one, which has no markers.
unfoldable pub render :
    (Text → ℕ)
    → Text
    → (Text → Text)
    → Lock
    → Dict Text
    → Result RenderError (Dict Text × Dict Text)
unfolding rendered write_changed
render digest dockerfile_path manifest_path lock disk =
    rendered digest lock (elim (Dict.get dockerfile_path disk) [ none ↦ [] | some text ↦ text ])
    >>= λ out. ok (write_changed disk (sorted file_lt (files_of dockerfile_path manifest_path out)))
