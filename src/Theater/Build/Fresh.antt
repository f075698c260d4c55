-- ===== src/Theater/Build/Fresh.antt =====
-- After a build the output is up to date: a check, or another build, finds nothing to write.
use tug.Base.{
  Bool, true, false, ◌||◌, List, [], ◌∷◌, if◌then◌else◌, some, map, ◌≡◌, refl, arith, ◌∙◌, sym, ap,
  Bool-cases, inl, inr, is_empty,
}
use mathlib.Core.Path.{subst}
use tug.Base.Text.{Text, text_eq, text_eq_iff, text_eq_refl, text_eq_sym, mem_text}
use tug.Base.Result.{ok}
use tug.Theater.Build.{
  Folder, Rendered, lookup, save, is_current, update, extra_files, build, check, finish, conclude,
  up_to_date, stale_exit,
}

lookup-save :
    (f g text : Text) (out : Folder)
    → lookup g (save f text out) ≡ (if text_eq f g then some text else lookup g out)
unfolding lookup save
lookup-save f g text [] = refl
lookup-save f g text ((h, old) ∷ rest) =
    ground (arith, lookup-save f g text rest, text_eq_iff h f, text_eq_iff h g, text_eq_iff f g)

or-false : (a b : Bool) → (a || b) ≡ false → (a ≡ false) × (b ≡ false)
or-false a b h = ground arith

abbrev pub names_of : List Rendered → List Text
names_of rs = map (λ (r : Rendered). r.name) rs

-- A directory lists a name once, so no two entry points share one.
abbrev pub Distinct : List Rendered → Type 0
Distinct [] = Unit
Distinct (r ∷ rs) = (mem_text r.name (names_of rs) ≡ false) × Distinct rs

after_build : Folder → List Rendered → Folder
after_build out rs = (update true out rs).1

update-current :
    (building : Bool) (out : Folder) (r : Rendered) (rs : List Rendered)
    → is_current out r ≡ true
    → update building out (r ∷ rs) ≡ update building out rs
unfolding update
update-current building out r rs e = rw e refl

update-nil : (building : Bool) (out : Folder) → update building out [] ≡ ([], out)
unfolding update
update-nil building out = refl

update-stale :
    (out : Folder) (r : Rendered) (rs : List Rendered)
    → is_current out r ≡ false
    → update true out (r ∷ rs)
      ≡ (let rest = update true (save r.name r.text out) rs in (r.name ∷ rest.0, rest.1))
unfolding update
update-stale out r rs e = rw e refl

after_build-nil : (out : Folder) → after_build out [] ≡ out
unfolding after_build update
after_build-nil out = refl

after_build-current :
    (out : Folder) (r : Rendered) (rs : List Rendered)
    → is_current out r ≡ true
    → after_build out (r ∷ rs) ≡ after_build out rs
unfolding after_build
after_build-current out r rs e =
    ap (λ (p : List Text × Folder). p.1) (update-current true out r rs e)

after_build-stale :
    (out : Folder) (r : Rendered) (rs : List Rendered)
    → is_current out r ≡ false
    → after_build out (r ∷ rs) ≡ after_build (save r.name r.text out) rs
unfolding after_build
after_build-stale out r rs e = ap (λ (p : List Text × Folder). p.1) (update-stale out r rs e)

-- The build leaves the files of other names alone.
lookup-update :
    (f : Text) (rs : List Rendered) (out : Folder)
    → mem_text f (names_of rs) ≡ false
    → lookup f (after_build out rs) ≡ lookup f out
unfolding mem_text
lookup-update f [] out h = rw after_build-nil refl
lookup-update f (r ∷ rs) out h =
    let (other, rest) = or-false (text_eq f r.name) _ h in
    elim (Bool-cases (is_current out r)) [
      | inl e ↦ rw (after_build-current out r rs e) (lookup-update f rs out rest)
      | inr e ↦ rw (after_build-stale out r rs e) (
          lookup-update f rs (save r.name r.text out) rest
          ∙ rw (lookup-save r.name f r.text out, text_eq_sym r.name f, other) refl)
    ]

-- Each theater that was rendered has its text.
abbrev HasAll : Folder → List Rendered → Type 0
HasAll out [] = Unit
HasAll out (r ∷ rs) = (is_current out r ≡ true) × HasAll out rs

-- The test reads only the file of that name.
is_current-of_eq :
    (out out' : Folder) (r : Rendered)
    → lookup r.name out ≡ lookup r.name out'
    → is_current out r ≡ is_current out' r
unfolding is_current
is_current-of_eq out out' r e = rw e refl

is_current-save : (out : Folder) (r : Rendered) → is_current (save r.name r.text out) r ≡ true
unfolding is_current
is_current-save out r =
    rw (lookup-save r.name r.name r.text out, text_eq_refl r.name) (text_eq_refl r.text)

HasAll-after_build :
    (rs : List Rendered) (out : Folder) → Distinct rs → HasAll (after_build out rs) rs
HasAll-after_build [] out h = tt
HasAll-after_build (r ∷ rs) out h = elim (Bool-cases (is_current out r)) [
  | inl e ↦
      subst (λ done. HasAll done (r ∷ rs)) (sym (after_build-current out r rs e))
        (
          is_current-of_eq _ _ r (lookup-update r.name rs out h.0) ∙ e,
          HasAll-after_build rs out h.1,
        )
  | inr e ↦
      subst (λ done. HasAll done (r ∷ rs)) (sym (after_build-stale out r rs e))
        (
          is_current-of_eq _ _ r (lookup-update r.name rs (save r.name r.text out) h.0)
              ∙ is_current-save out r,
          HasAll-after_build rs (save r.name r.text out) h.1,
        )
]

HasAll-update :
    (building : Bool) (rs : List Rendered) (out : Folder)
    → HasAll out rs
    → update building out rs ≡ ([], out)
HasAll-update building [] out h = update-nil building out
HasAll-update building (r ∷ rs) out h =
    update-current building out r rs h.0 ∙ HasAll-update building rs out h.1

-- When the entry points render, with distinct file names, the folder that `build` leaves is one that
-- a second run changes no more: another build writes nothing, and a check names no stale file; it
-- passes exactly if no theater without a source is in the folder.
pub conclude-build :
    (out : Folder) (r : Rendered) (rs : List Rendered)
    → Distinct (r ∷ rs)
    → let out' = (conclude build out (ok (r ∷ rs))).1 in
      (conclude build out' (ok (r ∷ rs)) ≡ (finish build [] (extra_files out' (r ∷ rs)), out'))
      × (conclude check out' (ok (r ∷ rs)) ≡ (
        (if is_empty (extra_files out' (r ∷ rs))
            then up_to_date
            else stale_exit [] (extra_files out' (r ∷ rs))),
        out',
      ))
unfolding conclude finish after_build
conclude-build out r rs h =
    let out' = after_build out (r ∷ rs) in
    let all = HasAll-after_build (r ∷ rs) out h in
    (
      rw (HasAll-update true (r ∷ rs) out' all) refl,
      rw (HasAll-update false (r ∷ rs) out' all) refl,
    )
