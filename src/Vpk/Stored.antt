-- ===== src/Vpk/Stored.antt =====
-- What build() keeps of the files before it writes: where each lies in the archive, and the groups.
use tug.Base.{
  ℕ, zero, suc, ◌+◌, ◌%◌, ◌^◌, ◌≤◌, Bool, true, ◌||◌, List, [], ◌∷◌, ◌++◌, length, length-append,
  any, All, ◌≡◌, refl, arith, ◌∙◌, sym, ap, Bool-cases, inl, inr, append-nil,
}
use mathlib.Core.Path.{subst}
use tug.Base.Bytes.{drop, slice, take-append, slice-append}
use tug.Base.Text.{Text, text_eq_iff}
use tug.Vpk.{Found, Place, Key, key_of, key_eq, Meta, place_at, set_place, pack_data, path_in}

drop-append : (n : ℕ) (s t : List ℕ) → n ≤ length s → drop n (s ++ t) ≡ drop n s ++ t
unfolding drop
drop-append zero s t h = refl
drop-append (suc n) [] t h = absurd (omega (arith, h))
drop-append (suc n) (c ∷ s) t h = drop-append n s t (omega (arith, h))

length-drop : (n : ℕ) (s : List ℕ) → n ≤ length s → length (drop n s) + n ≡ length s
unfolding drop
length-drop zero s h = omega arith
length-drop (suc n) [] h = absurd (omega (arith, h))
length-drop (suc n) (c ∷ s) h = omega (arith, length-drop n s (omega (arith, h)))

slice-grow : (n m : ℕ) (s t : List ℕ) → n + m ≤ length s → slice n m (s ++ t) ≡ slice n m s
slice-grow n m s t h =
    let inside : n ≤ length s = omega (arith, h) in
    rw (drop-append n s t inside)
      (take-append m (drop n s) t (omega (arith, h, length-drop n s inside)))

pub key_eq→≡ : (j k : Key) → key_eq j k ≡ true → j ≡ k
key_eq→≡ (a, b, c) (d, e, f) h =
    let p : a ≡ d = ground (arith, text_eq_iff a d) in
    let q : b ≡ e = ground (arith, text_eq_iff b e) in
    let r : c ≡ f = ground (arith, text_eq_iff c f) in rw (p, q, r) refl

-- The path that a key stands for.
abbrev pub key_path : Key → Text
key_path (e, f, n) = path_in f n e

abbrev pub has_place : Key → Meta → Bool
has_place k meta = any (λ (e : Key × Place). key_eq e.0 k) meta

abbrev pub is_found : Key → List Found → Bool
is_found k fs = any (λ (f : Found). key_eq (key_of f) k) fs

or_assoc : (a b c : Bool) → ((a || b) || c) ≡ (a || (b || c))
or_assoc a b c = ground arith

set_place-has :
    (j k : Key) (p : Place) (meta : Meta)
    → has_place j (set_place k p meta) ≡ (has_place j meta || key_eq k j)
unfolding set_place
set_place-has j k p [] = ground arith
set_place-has j k p ((i, q) ∷ meta) = elim (Bool-cases (key_eq i k)) [
  | inl same ↦ rw same (
      let e = key_eq→≡ i k same in
      let f : key_eq i j ≡ key_eq k j = ap (λ x. key_eq x j) e in ground arith)
  | inr other ↦
      rw other (
        rw (set_place-has j k p meta) (sym (or_assoc (key_eq i j) (has_place j meta) (key_eq k j))))
]

-- The name under which a file is stored is its path.
abbrev pub IsStored : Found → Type 0
IsStored f = f.full ≡ key_path (key_of f)

module _ (disk : Text → List ℕ) (crc32 : List ℕ → ℕ) where
  -- The place holds the file that the key stands for.
  pub record Holds (archive : List ℕ) (k : Key) (p : Place) : Type 0 where
    pub checked : p.crc ≡ crc32 (disk (key_path k)) % 2 ^ 32
    pub held : slice p.offset p.size archive ≡ disk (key_path k)
    pub inside : p.offset + p.size ≤ length archive

  abbrev pub HoldsAt : List ℕ → Key × Place → Type 0
  HoldsAt archive e = Holds archive e.0 e.1

  Holds-grow :
      (archive more : List ℕ) (k : Key) (p : Place)
      → Holds archive k p
      → Holds (archive ++ more) k p
  Holds-grow archive more k p h = record {
    checked = h.checked;
    held = slice-grow p.offset p.size archive more h.inside ∙ h.held;
    inside = omega (arith, h.inside, length-append archive more);
  }

  All-grow :
      (archive more : List ℕ) (meta : Meta)
      → All (HoldsAt archive) meta
      → All (HoldsAt (archive ++ more)) meta
  All-grow archive more [] h = tt
  All-grow archive more ((k, p) ∷ meta) (h, hs) =
      (Holds-grow archive more k p h, All-grow archive more meta hs)

  set_place-Holds :
      (archive : List ℕ) (k : Key) (p : Place) (meta : Meta)
      → Holds archive k p
      → All (HoldsAt archive) meta
      → All (HoldsAt archive) (set_place k p meta)
  unfolding set_place
  set_place-Holds archive k p [] new h = (new, tt)
  set_place-Holds archive k p ((j, q) ∷ meta) new (h, hs) = elim (Bool-cases (key_eq j k)) [
    | inl same ↦ rw same (subst (λ i. Holds archive i p) (sym (key_eq→≡ j k same)) new, hs)
    | inr other ↦ rw other (h, set_place-Holds archive k p meta new hs)
  ]

  abbrev place_of : List ℕ → Found → Place
  place_of archive f = record {
    crc = crc32 (disk f.full) % 2 ^ 32;
    offset = length archive;
    size = length (disk f.full);
  }

  place_of-Holds :
      (archive : List ℕ) (f : Found)
      → IsStored f
      → Holds (archive ++ disk f.full) (key_of f) (place_of archive f)
  place_of-Holds archive f stored = record {
    checked = rw (sym stored) refl;
    held =
        subst (λ r. slice (length archive) (length (disk f.full)) (archive ++ r) ≡ disk f.full)
          (append-nil (disk f.full))
          (slice-append archive (disk f.full) [] (length archive) (length (disk f.full)) refl refl)
        ∙ ap disk stored;
    inside = omega (arith, length-append archive (disk f.full));
  }

  pub pack_data-Holds :
      (archive : List ℕ) (meta : Meta) (fs : List Found)
      → All IsStored fs
      → All (HoldsAt archive) meta
      → All
          (HoldsAt (pack_data disk crc32 archive meta fs).0)
          (pack_data disk crc32 archive meta fs).1
  unfolding pack_data
  pack_data-Holds archive meta [] stored h = h
  pack_data-Holds archive meta (f ∷ fs) (s, stored) h =
      pack_data-Holds (archive ++ disk f.full) (set_place (key_of f) (place_of archive f) meta) fs
        stored
        (set_place-Holds (archive ++ disk f.full) (key_of f) (place_of archive f) meta
          (place_of-Holds archive f s) (All-grow archive (disk f.full) meta h))

  place_at-Holds :
      (archive : List ℕ) (k : Key) (meta : Meta)
      → All (HoldsAt archive) meta
      → has_place k meta ≡ true
      → Holds archive k (place_at k meta)
  unfolding place_at
  place_at-Holds archive k [] h found = cc
  place_at-Holds archive k ((j, p) ∷ meta) (h, hs) found = elim (Bool-cases (key_eq j k)) [
    | inl same ↦ rw same (subst (λ i. Holds archive i p) (key_eq→≡ j k same) h)
    | inr other ↦ rw other (place_at-Holds archive k meta hs (ground arith))
  ]

  pack_data-has :
      (k : Key) (archive : List ℕ) (meta : Meta) (fs : List Found)
      → has_place k (pack_data disk crc32 archive meta fs).1 ≡ (has_place k meta || is_found k fs)
  unfolding pack_data
  pack_data-has k archive meta [] = ground arith
  pack_data-has k archive meta (f ∷ fs) =
      pack_data-has k (archive ++ disk f.full) (set_place (key_of f) (place_of archive f) meta) fs
      ∙ rw (set_place-has k (key_of f) (place_of archive f) meta)
          (or_assoc (has_place k meta) (key_eq (key_of f) k) (is_found k fs))

  -- Every file that is found has a place in the archive, and its content lies there.
  pub pack_data-place_at :
      (fs : List Found) (k : Key)
      → All IsStored fs
      → is_found k fs ≡ true
      → Holds (pack_data disk crc32 [] [] fs).0 k (place_at k (pack_data disk crc32 [] [] fs).1)
  pack_data-place_at fs k stored found =
      place_at-Holds (pack_data disk crc32 [] [] fs).0 k (pack_data disk crc32 [] [] fs).1
        (pack_data-Holds [] [] fs stored tt) (pack_data-has k [] [] fs ∙ found)
