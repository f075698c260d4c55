-- ===== src/Vpk/Grouped.antt =====
-- The groups of build(): which entries the tree has for the files that are found.
use tug.Base.{
  Bool, ◌&&◌, ◌||◌, List, [], ◌∷◌, ◌++◌, none, some, any, any-append, All, All-append, ◌≡◌, refl,
  arith, ◌∙◌,
}
use tug.Base.Text.{Text, text_eq, text_lt}
use tug.Base.Sort.{sorted}
use tug.Base.SortedList.{All-sorted, any-sorted}
use tug.Base.Dict
use tug.Base.Dict.{Dict, append_to, All-update, any-update}
use tug.Content.{Entry}
use tug.Vpk.{
  Found, Place, Key, key_of, key_eq, Meta, place_at, Groups, group, folder_lt, ext_lt, or_none,
}
use tug.Vpk.ReadBack.{entry_of, names_entries, folders_entries, exts_entries, tree_entries}
use tug.Vpk.Stored.{is_found}

-- Properties of the extensions, the folders and the names of the groups.
module _ (OfExt OfFolder : Text → Type 0) (OfKey : Key → Type 0) where
  abbrev pub NamesHold : Text → Text × List Text → Type 0
  NamesHold e (f, ns) = OfFolder f × All (λ n. OfKey (e, f, n)) ns

  abbrev pub FoldersHold : Text × Dict (List Text) → Type 0
  FoldersHold (e, fs) = OfExt e × All (NamesHold e) fs

  abbrev pub FoundHolds : Found → Type 0
  FoundHolds f = OfExt f.ext × OfFolder f.folder × OfKey (key_of f)

  append_to-NamesHold :
      (e f n : Text) (fs : Dict (List Text))
      → OfFolder f
      → OfKey (e, f, n)
      → All (NamesHold e) fs
      → All (NamesHold e) (append_to f n fs)
  unfolding append_to
  append_to-NamesHold e f n fs hf hn hs =
      All-update (NamesHold e) f (λ o. elim o [ none ↦ n ∷ [] | some ns ↦ ns ++ n ∷ [] ]) fs
        (hf, (hn, tt)) (λ ns h. (hf, All-append (λ m. OfKey (e, f, m)) ns (n ∷ []) (h.1) (hn, tt)))
        hs

  pub group-FoldersHold :
      (groups : Groups) (fs : List Found)
      → All FoundHolds fs
      → All FoldersHold groups
      → All FoldersHold (group groups fs)
  unfolding group
  group-FoldersHold groups [] hs h = h
  group-FoldersHold groups (f ∷ fs) ((he, hf, hk), hs) h =
      group-FoldersHold (Dict.update f.ext (λ o. append_to f.folder f.name (or_none o)) groups) fs
        hs
        (All-update FoldersHold f.ext (λ o. append_to f.folder f.name (or_none o)) groups
          (he, append_to-NamesHold f.ext f.folder f.name [] hf hk tt)
          (λ d hd. (he, append_to-NamesHold f.ext f.folder f.name d hf hk (hd.1))) h)

-- What holds of the keys of the groups holds of the entries of the tree.
module _ (OfExt OfFolder : Text → Type 0) (OfKey : Key → Type 0) (OfEntry : Entry → Type 0)
    (at : Text → Text → Text → Place)
    (entry : (e f n : Text) → OfKey (e, f, n) → OfEntry (entry_of e f n (at e f n))) where
  names_entries-All :
      (e f : Text) (ns : List Text)
      → All (λ n. OfKey (e, f, n)) ns
      → All OfEntry (names_entries e f (at e f) ns)
  names_entries-All e f [] h = tt
  names_entries-All e f (n ∷ ns) (h, hs) = (entry e f n h, names_entries-All e f ns hs)

  folders_entries-All :
      (e : Text) (fs : Dict (List Text))
      → All (NamesHold OfExt OfFolder OfKey e) fs
      → All OfEntry (folders_entries e (at e) fs)
  folders_entries-All e [] h = tt
  folders_entries-All e ((f, ns) ∷ fs) (h, hs) =
      All-append OfEntry (names_entries e f (at e f) (sorted text_lt ns))
        (folders_entries e (at e) fs)
        (names_entries-All e f (sorted text_lt ns)
          (All-sorted (λ n. OfKey (e, f, n)) text_lt ns (h.1)))
        (folders_entries-All e fs hs)

  exts_entries-All :
      (es : Groups) → All (FoldersHold OfExt OfFolder OfKey) es → All OfEntry (exts_entries at es)
  exts_entries-All [] h = tt
  exts_entries-All ((e, fs) ∷ es) (h, hs) =
      All-append OfEntry (folders_entries e (at e) (sorted folder_lt fs)) (exts_entries at es)
        (folders_entries-All e (sorted folder_lt fs)
          (All-sorted (NamesHold OfExt OfFolder OfKey e) folder_lt fs (h.1)))
        (exts_entries-All es hs)

  pub sorted_entries-All :
      (es : Groups)
      → All (FoldersHold OfExt OfFolder OfKey) es
      → All OfEntry (exts_entries at (sorted ext_lt es))
  sorted_entries-All es h =
      exts_entries-All (sorted ext_lt es)
        (All-sorted (FoldersHold OfExt OfFolder OfKey) ext_lt es h)

-- Whether the groups have a key.
abbrev names_have : Key → Text × List Text → Bool
names_have (e, f, n) (g, ns) = text_eq g f && any (λ m. text_eq m n) ns

abbrev folders_have : Key → Text × Dict (List Text) → Bool
folders_have (e, f, n) (d, fs) = text_eq d e && any (names_have (e, f, n)) fs

abbrev pub groups_have : Key → Groups → Bool
groups_have k groups = any (folders_have k) groups

append_to-have :
    (e f n g m : Text) (fs : Dict (List Text))
    → any (names_have (e, f, n)) (append_to g m fs)
      ≡ (any (names_have (e, f, n)) fs || (text_eq g f && text_eq m n))
unfolding append_to
append_to-have e f n g m fs =
    any-update (names_have (e, f, n)) g (λ o. elim o [ none ↦ m ∷ [] | some ns ↦ ns ++ m ∷ [] ])
      (text_eq g f && text_eq m n) fs (ground arith)
      (λ ns. ground (arith, any-append (λ i. text_eq i n) ns (m ∷ [])))

or_swap : (a b c : Bool) → ((a || b) || c) ≡ (a || (b || c))
or_swap a b c = ground arith

group-have :
    (k : Key) (groups : Groups) (fs : List Found)
    → groups_have k (group groups fs) ≡ (groups_have k groups || is_found k fs)
unfolding group
group-have k groups [] = ground arith
group-have (e, f, n) groups (x ∷ fs) =
    group-have (e, f, n) (Dict.update x.ext (λ o. append_to x.folder x.name (or_none o)) groups) fs
    ∙ rw
        (any-update (folders_have (e, f, n)) x.ext (λ o. append_to x.folder x.name (or_none o))
          (key_eq (key_of x) (e, f, n)) groups
          (ground (arith, append_to-have e f n x.folder x.name []))
          (λ d. ground (arith, append_to-have e f n x.folder x.name d)))
        (or_swap (groups_have (e, f, n) groups) (key_eq (key_of x) (e, f, n))
          (is_found (e, f, n) fs))

-- Whether an entry of the tree is that of a key.
abbrev pub is_entry : Key → Entry → Bool
is_entry (e, f, n) x = key_eq (x.ext, x.folder, x.name) (e, f, n)

names_entries-any :
    (k : Key) (e f : Text) (at : Text → Place) (ns : List Text)
    → any (is_entry k) (names_entries e f at ns)
      ≡ (text_eq e k.0 && (text_eq f k.1 && any (λ m. text_eq m k.2) ns))
names_entries-any k e f at [] = ground arith
names_entries-any k e f at (n ∷ ns) = ground (arith, names_entries-any k e f at ns)

folders_entries-any :
    (k : Key) (e : Text) (at : Text → Text → Place) (fs : Dict (List Text))
    → any (is_entry k) (folders_entries e at fs) ≡ (text_eq e k.0 && any (names_have k) fs)
folders_entries-any k e at [] = ground arith
folders_entries-any k e at ((f, ns) ∷ fs) =
    any-append (is_entry k) (names_entries e f (at f) (sorted text_lt ns)) (folders_entries e at fs)
    ∙ rw
        (
          names_entries-any k e f (at f) (sorted text_lt ns),
          any-sorted (λ m. text_eq m k.2) text_lt ns,
          folders_entries-any k e at fs,
        )
        (ground arith)

exts_entries-any :
    (k : Key) (at : Text → Text → Text → Place) (es : Groups)
    → any (is_entry k) (exts_entries at es) ≡ groups_have k es
exts_entries-any k at [] = refl
exts_entries-any k at ((e, fs) ∷ es) =
    any-append (is_entry k) (folders_entries e (at e) (sorted folder_lt fs)) (exts_entries at es)
    ∙ rw
        (
          folders_entries-any k e (at e) (sorted folder_lt fs),
          any-sorted (names_have k) folder_lt fs,
          exts_entries-any k at es,
        )
        refl

-- A file that is found has its entry in the tree.
pub tree_entries-any :
    (meta : Meta) (fs : List Found) (k : Key)
    → any (is_entry k) (tree_entries meta (group [] fs)) ≡ is_found k fs
tree_entries-any meta fs k =
    exts_entries-any k (λ e p b. place_at (e, p, b) meta) (sorted ext_lt (group [] fs))
    ∙ any-sorted (folders_have k) ext_lt (group [] fs)
    ∙ group-have k [] fs
