-- ===== src/MapVote/Complete.antt =====
-- What refresh_index() of fastdl/tools/mapvote_images.py leaves behind: an entry with textures for every
-- item of the lock that is not left unindexed.
use tug.Base.{
  ℕ, true, List, [], ◌∷◌, keep_if, Option, some, ◌≡◌, inl, inr, All, All-imp, All-unfiltered,
  Bool-cases, Option-cases,
}
use mathlib.Core.Path.{subst}
use tug.Base.Text.{Text, mem_text}
use tug.Base.Dict
use tug.Base.Dict.{Dict, keys}
use tug.Base.Entries.{Finds-set, entry_at}
use tug.Base.Result.{ok, ok_injective, >>=-eq-ok}
use tug.Workshop.Lock.{Item}
use tug.MapVote.{scan, acf_manifests}
use tug.MapVote.Index.{
  Indexed, Index, Root, Game, entry_of, is_other, is_stale, index_local, refresh_items,
  fetch_missing, refresh_index, refresh_base,
}
use tug.MapVote.Known.{
  Has, HasIfAny, Known, Settled, Known-set, fresh-Known, entry_of-Has, Keeps, Keeps-ok, Settles,
  Settles-ok, with_missing-Keeps, with_missing-Settles, Settles-indexed, >>=-Keeps, >>=-Settles,
}
use tug.MapVote.Fetched.{fetch_missing-Keeps, fetch_missing-Settles}

module _ (names_in_zip : List ℕ → Option (List Text)) where
  index_local-Has :
      (roots : List Root) (i : Text) (item : Item) (here : Option Indexed)
      → index_local names_in_zip roots i item ≡ ok here
      → HasIfAny here
  unfolding index_local
  index_local-Has [] i item here h = subst HasIfAny (ok_injective h) tt
  index_local-Has (root ∷ roots) i item here h = elim (Option-cases (Dict.get i root.content)) [
    | inl absent ↦ index_local-Has roots i item here (rw (index_local, absent) at h)
    | inr (files, at) ↦
        elim (Bool-cases (is_other (Dict.get i (acf_manifests root.acf)) item.manifest)) [
          | inl other ↦ index_local-Has roots i item here (rw (index_local, at, other) at h)
          | inr trusted ↦
              let (entry, made, last) =
                >>=-eq-ok (entry_of item.manifest (scan names_in_zip files)) (λ e. ok (some e))
                  (rw (index_local, at, trusted) at h) in
              subst HasIfAny (ok_injective last)
                (entry_of-Has item.manifest (scan names_in_zip files) entry made)
        ]
  ]

  refresh_items-Keeps :
      (roots : List Root) (i : Text) (stale : Dict Item) (idx : Dict Indexed)
      → Known idx i
      → Keeps (refresh_items names_in_zip roots idx stale) i
  unfolding refresh_items
  refresh_items-Keeps roots i [] idx known = known
  refresh_items-Keeps roots i ((j, item) ∷ stale) idx known =
      >>=-Keeps (index_local names_in_zip roots j item) _ i λ here at. elim (Option-cases here) [
        | inl absent ↦
            rw absent
              (with_missing-Keeps (j, item) _ i (refresh_items-Keeps roots i stale idx known))
        | inr (entry, same) ↦
            let has = index_local-Has roots j item here at in
            rw same
              (refresh_items-Keeps roots i stale _ (Known-set i j entry idx (rw same at has) known))
      ]

  refresh_items-Settles :
      (roots : List Root) (stale : Dict Item) (idx : Dict Indexed)
      → Settles (refresh_items names_in_zip roots idx stale) stale
  unfolding refresh_items
  refresh_items-Settles roots [] idx = tt
  refresh_items-Settles roots ((j, item) ∷ stale) idx =
      >>=-Settles (index_local names_in_zip roots j item) _ ((j, item) ∷ stale) λ here at.
        elim (Option-cases here) [
          | inl absent ↦
              rw absent
                (with_missing-Settles (j, item) _ stale (refresh_items-Settles roots stale idx))
          | inr (entry, same) ↦
              let has = index_local-Has roots j item here at in
              rw same (
                Settles-indexed (j, item) _ stale
                  (refresh_items-Keeps roots j stale _
                    (Finds-set Has j (λ _. entry) idx (λ o. rw same at has)))
                  (refresh_items-Settles roots stale _))
        ]

  -- An item after both steps, which is settled by the first one if it is stale.
  settle_item :
      (roots : List Root) (download : Option (Dict Item → Root)) (n : ℕ) (idx : Dict Indexed)
      (stale : Dict Item) (first r : Dict Indexed × Dict Item) (e : Text × Item)
      → refresh_items names_in_zip roots idx stale ≡ ok first
      → fetch_missing names_in_zip download n first.0 first.1 ≡ ok r
      → (is_stale idx e ≡ true → Settled first.0 first.1 e)
      → Settled r.0 r.1 e
  settle_item roots download n idx stale first r e refreshed fetched h =
      let keeps : Known first.0 e.0 → Known r.0 e.0 = λ known.
        Keeps-ok _ r e.0 fetched
          (fetch_missing-Keeps names_in_zip download n e.0 first.0 first.1 known) in
      elim (Bool-cases (is_stale idx e)) [
        | inr fresh ↦ inl (
            keeps (
              Keeps-ok _ first e.0 refreshed
                (refresh_items-Keeps roots e.0 stale idx (fresh-Known idx e fresh))))
        | inl is_old ↦ elim (h is_old) [
          | inl known ↦ inl (keeps known)
          | inr missing ↦
              (entry_at _ (λ item. true) e.0 first.1 missing
                (Settles-ok _ r first.1 fetched
                  (fetch_missing-Settles names_in_zip download n first.0 first.1))).1
        ]
      ]

  -- The index that refresh_index() returns has an entry with textures for every item that is not left.
  pub refresh_index-Settled :
      (game : Option Game) (roots : List Root) (download : Option (Dict Item → Root)) (n : ℕ)
      (items : Dict Item) (index index' : Index) (left : Dict Item)
      → refresh_index names_in_zip game roots download n items index ≡ ok (index', left)
      → All (Settled index'.items left) items
  unfolding refresh_index
  refresh_index-Settled game roots download n items index index' left done =
      let idx = keep_if (λ (e : Text × Indexed). mem_text e.0 (keys items)) index.items in
      let stale = keep_if (is_stale idx) items in
      let (base, found, step1) = >>=-eq-ok (refresh_base game index.base) _ done in
      let (first, refreshed, step2) =
        >>=-eq-ok (refresh_items names_in_zip roots idx stale) _ step1 in
      let (r, fetched, last) =
        >>=-eq-ok (fetch_missing names_in_zip download n first.0 first.1) _ step2 in
      let same_items : r.0 ≡ index'.items = cc in
      let same_left : r.1 ≡ left = cc in
      let settled = Settles-ok _ first stale refreshed (refresh_items-Settles roots stale idx) in
      let all =
        All-imp _ (Settled r.0 r.1) items
          (λ e h. settle_item roots download n idx stale first r e refreshed fetched h)
          (All-unfiltered _ (is_stale idx) items settled) in
      subst (λ d. All (Settled d left) items) same_items
        (subst (λ l. All (Settled r.0 l) items) same_left all)
