-- ===== src/WeaponClone/Weave.antt =====
-- What the last loop of restate() in tools/weapon-clone/generate.py makes of a text: the text with the inserts
-- between its characters.
use tug.Base.{
  ℕ, zero, suc, ◌+◌, ◌-◌, ◌≤◌, ◌&&◌, List, [], ◌∷◌, ◌++◌, length, leb, ◌≡◌, refl, sym, ap, ◌∙◌, inl,
  inr, All, All-imp, Bool-cases, append-nil, arith,
}
use mathlib.Core.Path.{subst}
use tug.Base.Text.{Text}
use tug.Base.Bytes.{take, drop}
use tug.Base.Sort.{insert, sorted}
use tug.Base.SortedList.{All-insert}
use tug.Base.Result.{Result, ok, raised}
use tug.WeaponClone.{CloneError, outside}
use tug.WeaponClone.Restate.{Insert, insert_lt, apply_inserts}

-- Weave s adds t: t is s with the texts `adds`, in this order, put between its characters.
pub data Weave : Text → List Text → Text → Type 0 where
  done : Weave [] [] []
  keep : {s t : Text} {adds : List Text} (c : ℕ) → Weave s adds t → Weave (c ∷ s) adds (c ∷ t)
  put :
      {s t u : Text} {adds : List Text} (add : Text)
      → u ≡ add ++ t
      → Weave s adds t
      → Weave s (add ∷ adds) u

keep_all : (x s t : Text) (adds : List Text) → Weave s adds t → Weave (x ++ s) adds (x ++ t)
keep_all [] s t adds w = w
keep_all (c ∷ x) s t adds w = Weave.keep c (keep_all x s t adds w)

-- The texts of the inserts, the last one first.
abbrev pub texts_onto : List Insert → List Text → List Text
texts_onto [] adds = adds
texts_onto ((pos, add) ∷ inserts) adds = texts_onto inserts (add ∷ adds)

take-take : (n k : ℕ) (s z : Text) → n ≤ k → k ≤ length s → take n (take k s ++ z) ≡ take n s
unfolding take
take-take zero k s z h hk = refl
take-take (suc n) zero s z h hk = absurd (omega (arith, h))
take-take (suc n) (suc k) [] z h hk = absurd (omega (arith, hk))
take-take (suc n) (suc k) (c ∷ s) z h hk =
    ap (λ t. c ∷ t) (take-take n k s z (omega (arith, h)) (omega (arith, hk)))

drop-take :
    (n k : ℕ) (s z : Text) → n ≤ k → k ≤ length s → drop n (take k s ++ z) ≡ drop n (take k s) ++ z
unfolding take drop
drop-take zero k s z h hk = refl
drop-take (suc n) zero s z h hk = absurd (omega (arith, h))
drop-take (suc n) (suc k) [] z h hk = absurd (omega (arith, hk))
drop-take (suc n) (suc k) (c ∷ s) z h hk = drop-take n k s z (omega (arith, h)) (omega (arith, hk))

drop-split : (n k : ℕ) (s : Text) → n ≤ k → k ≤ length s → drop n s ≡ drop n (take k s) ++ drop k s
unfolding take drop
drop-split zero zero s h hk = refl
drop-split zero (suc k) [] h hk = absurd (omega (arith, hk))
drop-split zero (suc k) (c ∷ s) h hk =
    ap (λ t. c ∷ t) (drop-split zero k s (omega arith) (omega (arith, hk)))
drop-split (suc n) zero s h hk = absurd (omega (arith, h))
drop-split (suc n) (suc k) [] h hk = absurd (omega (arith, hk))
drop-split (suc n) (suc k) (c ∷ s) h hk = drop-split n k s (omega (arith, h)) (omega (arith, hk))

take_all : (s : Text) → take (length s) s ≡ s
unfolding take
take_all [] = refl
take_all (c ∷ s) = ap (λ t. c ∷ t) (take_all s)

drop_all : (s : Text) → drop (length s) s ≡ []
unfolding drop
drop_all [] = refl
drop_all (c ∷ s) = drop_all s

-- The positions fall.
abbrev pub Falling : List Insert → Type 0
Falling [] = Unit
Falling ((pos, add) ∷ inserts) = All (λ (i : Insert). i.0 ≤ pos) inserts × Falling inserts

insert-Falling : (x : Insert) (ys : List Insert) → Falling ys → Falling (insert insert_lt x ys)
unfolding insert
insert-Falling x [] h = (tt, tt)
insert-Falling x (y ∷ ys) (below, h) = elim (Bool-cases (insert_lt y x)) [
  | inl later ↦ rw later (
    All-insert (λ (i : Insert). i.0 ≤ y.0) insert_lt x ys (ground (arith, later)) below,
    insert-Falling x ys h,
  )
  | inr first ↦
      let here : y.0 ≤ x.0 = ground (arith, first) in
      rw first (
        (
          here,
          All-imp (λ (i : Insert). i.0 ≤ y.0) (λ (i : Insert). i.0 ≤ x.0) ys
              (λ i hi. omega (arith, hi, here)) below,
        ),
        (below, h),
      )
]

pub sorted-Falling : (xs : List Insert) → Falling (sorted insert_lt xs)
unfolding sorted
sorted-Falling [] = tt
sorted-Falling (x ∷ xs) = insert-Falling x (sorted insert_lt xs) (sorted-Falling xs)

module _ (key : Text) (start : ℕ) (s : Text) where
  -- The text so far: s up to k, and then what has been woven.
  apply_inserts-from :
      (k : ℕ) (z : Text) (adds : List Text) (inserts : List Insert) (t : Text)
      → k ≤ length s
      → All (λ (i : Insert). i.0 ≤ start + k) inserts
      → Falling inserts
      → Weave (drop k s) adds z
      → apply_inserts key start (take k s ++ z) inserts ≡ ok t
      → Weave s (texts_onto inserts adds) t
  unfolding apply_inserts drop take
  apply_inserts-from k z adds [] t hk below falling w h =
      let whole : take k s ++ z ≡ t = cc in
      subst (Weave s adds) whole (
        subst (λ r. Weave r adds (take k s ++ z)) (sym (drop-split zero k s (omega arith) hk))
          (keep_all (take k s) (drop k s) z adds w))
  apply_inserts-from k z adds ((pos, add) ∷ inserts) t hk (here, below) (lower, falling) w h =
      let current = take k s ++ z in
      let rel = pos - start in
      let rest = add ++ (drop rel (take k s) ++ z) in
      elim (Bool-cases (leb start pos && leb rel (length current))) [
        | inr bad ↦
            let stop : Path (Result CloneError Text) (raised (outside key)) (ok t) =
              rw (apply_inserts, bad) at h in
            cc
        | inl fits ↦
            let from_start : start ≤ pos = ground (arith, fits) in
            let rel_k : rel ≤ k = omega (arith, from_start, here) in
            let rel_s : rel ≤ length s = omega (arith, rel_k, hk) in
            let step : apply_inserts key start (take rel current ++ (add ++ drop rel current))
                  inserts
                ≡ ok t =
              rw (apply_inserts, fits) at h in
            let step' : apply_inserts key start (take rel s ++ rest) inserts ≡ ok t =
              rw (sym (take-take rel k s z rel_k hk), sym (drop-take rel k s z rel_k hk)) step in
            let woven : Weave (drop rel s) adds (drop rel (take k s) ++ z) =
              subst (λ r. Weave r adds (drop rel (take k s) ++ z))
                (sym (drop-split rel k s rel_k hk))
                (keep_all (drop rel (take k s)) (drop k s) z adds w) in
            apply_inserts-from rel rest (add ∷ adds) inserts t rel_s
              (All-imp (λ (i : Insert). i.0 ≤ pos) (λ (i : Insert). i.0 ≤ start + rel) inserts
                (λ i hi. omega (arith, hi, from_start)) lower)
              falling (put add refl woven) step'
      ]

  -- Inserts in falling order are woven into the text, if there is an outcome.
  pub apply_inserts-Weave :
      (inserts : List Insert) (t : Text)
      → Falling inserts
      → apply_inserts key start s inserts ≡ ok t
      → Weave s (texts_onto inserts []) t
  unfolding apply_inserts take drop
  apply_inserts-Weave [] t falling h =
      let whole : s ≡ t = cc in
      subst (Weave s []) whole (rw (sym (append-nil s)) (keep_all s [] [] [] Weave.done))
  apply_inserts-Weave ((pos, add) ∷ inserts) t (lower, falling) h =
      elim (Bool-cases (leb start pos && leb (pos - start) (length s))) [
        | inr bad ↦
            let stop : Path (Result CloneError Text) (raised (outside key)) (ok t) =
              rw (apply_inserts, bad) at h in
            cc
        | inl fits ↦
            let inside : pos ≤ start + length s = ground (arith, fits) in
            let from_start : All (λ (i : Insert). i.0 ≤ start + length s) ((pos, add) ∷ inserts) = (
              inside,
              All-imp (λ (i : Insert). i.0 ≤ pos) (λ (i : Insert). i.0 ≤ start + length s) inserts
                  (λ i hi. omega (arith, hi, inside)) lower,
            ) in
            let all_taken : take (length s) s ++ [] ≡ s =
              append-nil (take (length s) s) ∙ take_all s in
            apply_inserts-from (length s) [] [] ((pos, add) ∷ inserts) t (omega arith) from_start
              (lower, falling) (rw (drop_all s) Weave.done)
              (subst (λ r. apply_inserts key start r ((pos, add) ∷ inserts) ≡ ok t) (sym all_taken)
                h)
      ]
