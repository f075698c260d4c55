-- ===== src/Content/Indexed.antt =====
-- What load_content_index() of tools/bspaudit/audit.py reads of the index that
-- tools/bspaudit/collect_content_index.py writes.
use tug.Base.{
  ℕ, false, ◌==◌, List, [], ◌∷◌, ◌++◌, if◌then◌else◌, Option, none, some, ◌≡◌, refl, ap, ◌∙◌, inl,
  inr, is_empty, All, All-append, Bool-cases, Option-cases, arith, append-nil, append_assoc,
}
use mathlib.Core.List.{reverse, reverse_aux, reverse-reverse}
use tug.Base.Text.{
  is_space, Text, lower, lower_char, starts_with, text_lt, nl, has_char, has_char-cons,
}
use tug.Base.SortedList.{All-sorted}
use tug.Workshop.Refresh.{strip, first_seen, All-first_seen}
use tug.Audit.{
  slashes, strip_slashes, without_prefix, ends_with, vmt, materials_dir, cut_prefix, cut_suffix,
  lines_from, load_lines, load_content_index,
}
use tug.Content.{vpk_entries, normalise, vpk_materials}
use tug.Content.Collect.{
  Scanned, index_comment, from_materials, is_vpk, file_materials, scan_dir, scan_dirs, materials,
  ended_lines, index_text,
}

-- A character that lower() and replace("\\", "/") leave as it is.
abbrev IsLow : ℕ → Type 0
IsLow c = (lower_char c ≡ c) × ((c == 92) ≡ false)

slash_char-IsLow : (c : ℕ) → IsLow (if lower_char c == 92 then 47 else lower_char c)
unfolding lower_char
slash_char-IsLow c = (ground arith, ground arith)

slashes-IsLow : (s : Text) → All IsLow (slashes (lower s))
unfolding slashes lower
slashes-IsLow [] = tt
slashes-IsLow (c ∷ s) = (slash_char-IsLow c, slashes-IsLow s)

strip_slashes-IsLow : (s : Text) → All IsLow s → All IsLow (strip_slashes s)
unfolding strip_slashes
strip_slashes-IsLow [] h = tt
strip_slashes-IsLow (c ∷ s) (hc, hs) = elim (Bool-cases (c == 47)) [
  | inl slash ↦ rw (strip_slashes, slash) (strip_slashes-IsLow s hs)
  | inr other ↦ rw (strip_slashes, other) (hc, hs)
]

without_prefix-IsLow : (p s : Text) → All IsLow s → All IsLow (without_prefix p s)
unfolding without_prefix
without_prefix-IsLow [] s h = h
without_prefix-IsLow (c ∷ p) [] h = tt
without_prefix-IsLow (c ∷ p) (d ∷ s) (hd, hs) = without_prefix-IsLow p s hs

cut_prefix-IsLow : (p s : Text) → All IsLow s → All IsLow (cut_prefix p s)
cut_prefix-IsLow p s h = elim (Bool-cases (starts_with p s)) [
  | inl there ↦ rw there (without_prefix-IsLow p s h)
  | inr absent ↦ rw absent h
]

reverse_aux-IsLow : (s t : Text) → All IsLow s → All IsLow t → All IsLow (reverse_aux s t)
reverse_aux-IsLow [] t hs ht = ht
reverse_aux-IsLow (c ∷ s) t (hc, hs) ht = reverse_aux-IsLow s (c ∷ t) hs (hc, ht)

cut_suffix-IsLow : (p s : Text) → All IsLow s → All IsLow (cut_suffix p s)
unfolding cut_suffix
cut_suffix-IsLow p s h =
    reverse_aux-IsLow (cut_prefix (reverse p) (reverse s)) []
      (cut_prefix-IsLow (reverse p) (reverse s) (reverse_aux-IsLow s [] h tt)) tt

lower-IsLow : (s : Text) → All IsLow s → lower s ≡ s
unfolding lower
lower-IsLow [] h = refl
lower-IsLow (c ∷ s) (hc, hs) = rw (hc.0, lower-IsLow s hs) refl

slashes-keep : (s : Text) → All IsLow s → slashes s ≡ s
unfolding slashes
slashes-keep [] h = refl
slashes-keep (c ∷ s) (hc, hs) = rw (hc.1, slashes-keep s hs) refl

abbrev IsEntry : Text → Type 0
IsEntry m = (is_empty m ≡ false) × All IsLow m

abbrev NormalLow : Option Text → Type 0
NormalLow none = Unit
NormalLow (some m) = All IsLow m

normalise-NormalLow : (p : Text) → NormalLow (normalise p)
unfolding normalise
normalise-NormalLow p =
    let q = strip_slashes (slashes (lower p)) in
    elim (Bool-cases (ends_with vmt q)) [
      | inl there ↦
          rw (normalise, there)
            (cut_prefix-IsLow materials_dir (cut_suffix vmt q)
              (cut_suffix-IsLow vmt q (strip_slashes-IsLow (slashes (lower p)) (slashes-IsLow p))))
      | inr absent ↦ rw (normalise, absent) tt
    ]

vpk_materials-IsEntry : (ps : List Text) → All IsEntry (vpk_materials ps)
unfolding vpk_materials
vpk_materials-IsEntry [] = tt
vpk_materials-IsEntry (p ∷ ps) =
    let rest = vpk_materials-IsEntry ps in
    let here = normalise-NormalLow p in
    elim (Option-cases (normalise p)) [
      | inl absent ↦ rw (vpk_materials, absent) rest
      | inr (m, at) ↦ elim (Bool-cases (is_empty m)) [
        | inl empty ↦ rw (vpk_materials, at, empty) rest
        | inr full ↦ rw (vpk_materials, at, full) ((full, rw at at here), rest)
      ]
    ]

file_materials-IsEntry : (f : Scanned) → All IsEntry (file_materials f)
unfolding file_materials
file_materials-IsEntry f = elim (Bool-cases (is_vpk (lower f.file))) [
  | inl vpk ↦ rw (file_materials, vpk) (vpk_materials-IsEntry (vpk_entries f.bytes))
  | inr other ↦ elim (Bool-cases (ends_with vmt (lower f.file))) [
    | inl loose ↦
        rw (file_materials, other, loose) (vpk_materials-IsEntry (from_materials f.rel f.rel ∷ []))
    | inr unknown ↦ rw (file_materials, other, unknown) tt
  ]
]

scan_dir-IsEntry :
    (out : List Text) (files : List Scanned) → All IsEntry out → All IsEntry (scan_dir out files)
unfolding scan_dir
scan_dir-IsEntry out [] h = h
scan_dir-IsEntry out (f ∷ files) h =
    scan_dir-IsEntry (out ++ file_materials f) files
      (All-append IsEntry out (file_materials f) h (file_materials-IsEntry f))

scan_dirs-IsEntry :
    (out : List Text) (roots : List (List Scanned))
    → All IsEntry out
    → All IsEntry (scan_dirs out roots)
unfolding scan_dirs
scan_dirs-IsEntry out [] h = h
scan_dirs-IsEntry out (root ∷ roots) h =
    scan_dirs-IsEntry (scan_dir out root) roots (scan_dir-IsEntry out root h)

materials-IsEntry : (roots : List (List Scanned)) → All IsEntry (materials roots)
unfolding materials
materials-IsEntry roots =
    let out = scan_dirs [] roots in
    All-sorted IsEntry text_lt (first_seen [] out)
      (All-first_seen IsEntry [] out (scan_dirs-IsEntry [] roots tt))

-- A material whose line keeps its meaning: no space at its ends, no comment, neither the prefix nor
-- the extension left once they have been taken off, and no end of a line in it.
abbrev pub IsPlain : Text → Type 0
IsPlain m =
    (strip m ≡ m)
    × (starts_with (35 ∷ []) m ≡ false)
    × (starts_with materials_dir m ≡ false)
    × (ends_with vmt m ≡ false)
    × (has_char nl m ≡ false)
    × (has_char 13 m ≡ false)

load_lines-Plain : (ms : List Text) → All IsEntry ms → All IsPlain ms → load_lines ms ≡ ms
unfolding load_lines cut_suffix
load_lines-Plain [] entries plain = refl
load_lines-Plain (m ∷ ms) ((full, low), entries) ((stripped, text, no_dir, no_ext, _, _), plain) =
    let line : slashes (lower (strip m)) ≡ m =
      rw (stripped, lower-IsLow m low, slashes-keep m low) refl in
    rw (load_lines, line, full, text, no_dir, no_ext)
      (ap (λ first. first ∷ load_lines ms) (reverse-reverse m)
        ∙ ap (λ rest. m ∷ rest) (load_lines-Plain ms entries plain))

load_lines-comment : (ms : List Text) → load_lines (index_comment ∷ ms) ≡ load_lines ms
unfolding load_lines strip lower slashes starts_with is_space
load_lines-comment ms = refl

-- A line is read up to its end.
lines_from-line :
    (line m s : Text)
    → has_char nl m ≡ false
    → has_char 13 m ≡ false
    → lines_from false line (m ++ (nl ∷ s)) ≡ (line ++ m) ∷ lines_from false [] s
unfolding lines_from
lines_from-line line [] s no_end no_return = rw (append-nil line) refl
lines_from-line line (c ∷ m) s no_end no_return =
    let (here, later) = has_char-cons nl c m no_end in
    let (here', later') = has_char-cons 13 c m no_return in
    rw (here, here')
      (lines_from-line (line ++ c ∷ []) m s later later'
        ∙ ap (λ l. l ∷ lines_from false [] s) (append_assoc line (c ∷ []) m))

lines_from-ended_lines :
    (ms : List Text) → All IsPlain ms → lines_from false [] (ended_lines ms) ≡ ms
unfolding lines_from ended_lines
lines_from-ended_lines [] plain = refl
lines_from-ended_lines (m ∷ ms) ((_, _, _, _, no_end, no_return), plain) =
    lines_from-line [] m (ended_lines ms) no_end no_return
    ∙ ap (λ rest. m ∷ rest) (lines_from-ended_lines ms plain)

index_comment-line :
    (s : Text)
    → lines_from false [] (index_comment ++ (nl ∷ s)) ≡ index_comment ∷ lines_from false [] s
unfolding has_char
index_comment-line s = lines_from-line [] index_comment s refl refl

-- If every material that is found is plain - no space at its ends, no # at its start, neither
-- materials/ nor .vmt left on it, and no \n or \r in it - then the audit reads back from the text of the
-- index exactly the materials, each once and sorted.
pub load_content_index-index_text :
    (roots : List (List Scanned))
    → All IsPlain (materials roots)
    → load_content_index (index_text roots) ≡ materials roots
unfolding index_text load_content_index
load_content_index-index_text roots plain =
    ap load_lines (
      index_comment-line (ended_lines (materials roots))
      ∙ ap (λ rest. index_comment ∷ rest) (lines_from-ended_lines (materials roots) plain))
    ∙ load_lines-comment (materials roots)
    ∙ load_lines-Plain (materials roots) (materials-IsEntry roots) plain
