-- ===== src/Content/CutOff.antt =====
-- A tree that is cut off: what is parsed of it is the beginning of what the whole tree holds.
use tug.Base.{
  ℕ, zero, suc, ◌+◌, ◌-◌, ◌≤◌, false, List, [], ◌∷◌, ◌++◌, if◌then◌else◌, ltb, ◌==◌, is_empty,
  length, ◌≡◌, refl, arith, Bool-cases, inl, inr, length-append,
}
use mathlib.Core.Path.{subst}
use tug.Base.Bytes.{drop, take, take-append}
use tug.Base.Text.{Text}
use tug.Content.{
  Entry, Level, at_ext, at_folder, at_name, Ending, closed, cut_off, preload_of, read_tree,
}

-- The entries of a reading, and more after them unless it came to the end of the tree.
abbrev pub Extends : List Entry × Ending → List Entry × Ending → Type 0
Extends (es, closed) whole = whole ≡ (es, closed)
Extends (es, cut_off) whole = (more : List Entry) × (whole.0 ≡ es ++ more)

-- Six bytes hold the preload.
preload_of-append : (s t : List ℕ) → (ltb (length s) 6 ≡ false) → preload_of (s ++ t) ≡ preload_of s
unfolding drop take
preload_of-append (a ∷ b ∷ c ∷ d ∷ e ∷ f ∷ s) t h = refl
preload_of-append [] t h = cc
preload_of-append (a ∷ []) t h = cc
preload_of-append (a ∷ b ∷ []) t h = cc
preload_of-append (a ∷ b ∷ c ∷ []) t h = cc
preload_of-append (a ∷ b ∷ c ∷ d ∷ []) t h = cc
preload_of-append (a ∷ b ∷ c ∷ d ∷ e ∷ []) t h = cc

Extends-cons :
    (e : Entry) (part whole : List Entry × Ending)
    → Extends part whole
    → Extends (e ∷ part.0, part.1) (e ∷ whole.0, whole.1)
Extends-cons e (es, closed) whole h = rw h refl
Extends-cons e (es, cut_off) whole (more, h) = (more, rw h refl)

Extends-nil : (whole : List Entry × Ending) → Extends ([], cut_off) whole
Extends-nil whole = (whole.0, refl)

-- What is read of an entry, with the reading `past` of what follows it.
abbrev entry_at : ℕ → (List ℕ → Entry) → List ℕ → List Entry × Ending → List Entry × Ending
entry_at need e s past =
    if ltb (length s) need then ([], cut_off) else (e (take 18 s) ∷ past.0, past.1)

entry_at-Extends :
    (m : ℕ) (e : List ℕ → Entry) (s t : List ℕ) (level : Level)
    → Extends
        (read_tree (18 + m) (18 + preload_of s) level [] s)
        (read_tree (18 + m) (18 + preload_of s) level [] (s ++ t))
    → Extends (entry_at (18 + m) e s (read_tree (18 + m) (18 + preload_of s) level [] s)) (
        entry_at
          (18 + m)
          e
          (s ++ t)
          (read_tree (18 + m) (18 + preload_of (s ++ t)) level [] (s ++ t)))
entry_at-Extends m e s t level ih = elim (Bool-cases (ltb (length s) (18 + m))) [
  | inl short ↦ rw short (
      Extends-nil (
        entry_at (18 + m) e (s ++ t)
          (read_tree (18 + m) (18 + preload_of (s ++ t)) level [] (s ++ t))))
  | inr long ↦
      let six : ltb (length s) 6 ≡ false = ground arith in
      let longer : ltb (length (s ++ t)) (18 + m) ≡ false = ground (arith, length-append s t) in
      rw (long, longer, preload_of-append s t six, take-append 18 s t (ground (arith, long)))
        (Extends-cons (e (take 18 s)) (read_tree (18 + m) (18 + preload_of s) level [] s)
          (read_tree (18 + m) (18 + preload_of s) level [] (s ++ t)) ih)
]

read_tree-Extends :
    (more skip : ℕ) (level : Level) (read : Text) (s t : List ℕ)
    → Extends
        (read_tree (18 + more) skip level read s)
        (read_tree (18 + more) skip level read (s ++ t))
unfolding read_tree
read_tree-Extends m skip level read [] t = ((read_tree (18 + m) skip level read t).0, refl)
read_tree-Extends m (suc skip) level read (c ∷ s) t = read_tree-Extends m skip level read s t
read_tree-Extends m zero at_ext read (c ∷ s) t = elim (Bool-cases (c == 0)) [
  | inr char ↦ rw char (read_tree-Extends m 0 at_ext (read ++ c ∷ []) s t)
  | inl nul ↦ rw nul (elim (Bool-cases (is_empty read)) [
    | inl done ↦ rw done refl
    | inr text ↦ rw text (read_tree-Extends m 0 (at_folder read) [] s t)
  ])
]
read_tree-Extends m zero (at_folder e) read (c ∷ s) t = elim (Bool-cases (c == 0)) [
  | inr char ↦ rw char (read_tree-Extends m 0 (at_folder e) (read ++ c ∷ []) s t)
  | inl nul ↦ rw nul (elim (Bool-cases (is_empty read)) [
    | inl done ↦ rw done (read_tree-Extends m 0 at_ext [] s t)
    | inr text ↦ rw text (read_tree-Extends m 0 (at_name e read) [] s t)
  ])
]
read_tree-Extends m zero (at_name e f) read (c ∷ s) t = elim (Bool-cases (c == 0)) [
  | inr char ↦ rw char (read_tree-Extends m 0 (at_name e f) (read ++ c ∷ []) s t)
  | inl nul ↦ rw nul (elim (Bool-cases (is_empty read)) [
    | inl done ↦ rw done (read_tree-Extends m 0 (at_folder e) [] s t)
    | inr text ↦ rw text (
        entry_at-Extends m (λ b. record { ext = e; folder = f; name = read; body = b }) s t
          (at_name e f) (read_tree-Extends m (18 + preload_of s) (at_name e f) [] s t))
  ])
]

-- Where an entry needs at least eighteen bytes, the entries parsed of a tree that is cut off are the first
-- entries of the whole tree, and all of them if the tree ended before the cut.
pub read_tree-append :
    (need : ℕ) (s t : List ℕ)
    → 18 ≤ need
    → Extends (read_tree need 0 at_ext [] s) (read_tree need 0 at_ext [] (s ++ t))
read_tree-append need s t h =
    let back : 18 + (need - 18) ≡ need = omega (arith, h) in
    subst (λ n. Extends (read_tree n 0 at_ext [] s) (read_tree n 0 at_ext [] (s ++ t))) back
      (read_tree-Extends (need - 18) 0 at_ext [] s t)
