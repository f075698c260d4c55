-- ===== src/Vpk/Examples.antt =====
-- The theorem on the packer at a directory of two files.
use tug.Base.Sort.{sorted}
use tug.Base.{true, ℕ, ◌+◌, List, [], ◌∷◌, ◌≡◌, refl, arith, if◌then◌else◌, All}
use tug.Base.Dict
use tug.Base.Text.{mem_text, Text, codes, text_eq, has_char, text_lt}
use tug.Base.Result.{Result, ok, raised, too_deep}
use tug.Vpk.{
  Found, PackError, Packed, build, verify, collect, path_in, tree_bytes, group, folders_tree,
  names_tree, pack_place, place_at, pack_data, set_place,
}
use tug.Content.{vpk_entries}
use tug.Vpk.Collected.{IsPlaced, collect-IsPlaced}
use tug.Vpk.Listed.{utf8, IsAscii, build-vpk_entries}
use tug.Vpk.Accepts.{IsPackable, build-verify}

abbrev files : Text → List ℕ
files path = if text_eq path (codes "scripts/a.theater") then 7 ∷ 0 ∷ 9 ∷ [] else 5 ∷ []

abbrev sum_of : List ℕ → ℕ
sum_of [] = 1
sum_of (b ∷ bs) = b + sum_of bs

abbrev sixteen : List ℕ → List ℕ
sixteen s = sum_of s ∷ 0 ∷ 0 ∷ 0 ∷ 0 ∷ 0 ∷ 0 ∷ 0 ∷ 0 ∷ 0 ∷ 0 ∷ 0 ∷ 0 ∷ 0 ∷ 0 ∷ 0 ∷ []

abbrev two_found : List Found
two_found =
    record { ext = codes "txt"; folder = codes " "; name = codes "b.c"; full = codes "b.c.txt" }
    ∷ record {
      ext = codes "theater";
      folder = codes "scripts";
      name = codes "a";
      full = codes "scripts/a.theater";
    }
    ∷ []

two_collected :
    collect (([], codes "b.c.txt" ∷ []) ∷ (codes "scripts", codes "a.theater" ∷ []) ∷ [])
    ≡ ok two_found
unfolding collect sorted
two_collected = refl

abbrev packed_of : Result PackError Packed → Packed
packed_of (ok p) = p
packed_of (raised e) = record { dir = []; archive = [] }
packed_of too_deep = record { dir = []; archive = [] }

abbrev two_packed : Packed
two_packed = packed_of (build files sum_of sixteen two_found)

two-IsPackable : All IsPackable two_found
unfolding has_char path_in text_eq
two-IsPackable = (
  ((refl, refl), (refl, refl), (refl, refl), refl),
  (((refl, refl), (refl, refl), (refl, refl), refl), tt),
)

build-verify_example :
    (n : ℕ) × (verify files sum_of sixteen two_packed.dir two_packed.archive two_found ≡ ok n)
unfolding build tree_bytes sorted group Dict.update text_eq text_lt folders_tree Dict.append_to
    names_tree pack_place place_at pack_data set_place
build-verify_example =
    build-verify files sum_of sixteen two_found two_packed (λ s. refl) two-IsPackable (omega arith)
      refl

ascii : All IsAscii (codes "b.c.txt" ∷ codes "scripts/a.theater" ∷ [])
ascii = (
  (refl, (refl, (refl, (refl, (refl, (refl, (refl, tt))))))),
  (
    (
      refl,
      (
        refl,
        (
          refl,
          (
            refl,
            (
              refl,
              (
                refl,
                (
                  refl,
                  (
                    refl,
                    (refl, (refl, (refl, (refl, (refl, (refl, (refl, (refl, (refl, tt))))))))),
                  ),
                ),
              ),
            ),
          ),
        ),
      ),
    ),
    tt,
  ),
)

build-vpk_entries_example :
    All
      (λ (path : Text). mem_text path (vpk_entries two_packed.dir) ≡ true)
      (codes "b.c.txt" ∷ codes "scripts/a.theater" ∷ [])
unfolding utf8 build tree_bytes sorted group Dict.update text_eq text_lt folders_tree Dict.append_to
    names_tree pack_place place_at pack_data set_place
build-vpk_entries_example =
    build-vpk_entries files sum_of sixteen two_found
      (codes "b.c.txt" ∷ codes "scripts/a.theater" ∷ []) two_packed (λ s. refl) two-IsPackable ascii
      refl refl

collect-IsPlaced_example : All IsPlaced two_found
collect-IsPlaced_example =
    collect-IsPlaced (([], codes "b.c.txt" ∷ []) ∷ (codes "scripts", codes "a.theater" ∷ []) ∷ [])
      two_found two_collected
