-- ===== src/Content/Searched.antt =====
-- Which folders tools/bspaudit/collect_content_index.py finds by itself.
use tug.Base.{
  true, false, ◌||◌, List, [], ◌∷◌, map, keep_if, ◌≡◌, refl, sym, ◌∙◌, inl, inr, Bool-cases, arith,
}
use mathlib.Core.Path.{subst}
use tug.Base.Text.{Text, text_eq, text_eq_iff, text_eq_refl, mem_text}
use tug.Base.Members.{mem_text-append, mem_text-keep_if, mem_text-map, mem_text-map_inv}
use tug.Content.Libraries.{
  Machine, dedupe, existing, steam_roots, listed_in, vdf_paths, libraries_in, library_folders,
  all_libraries, game_of, autodetect,
}

-- No two texts have the same image.
abbrev pub DistinctBy : (Text → Text) → List Text → Type 0
DistinctBy f [] = Unit
DistinctBy f (s ∷ ss) = (mem_text (f s) (map f ss) ≡ false) × DistinctBy f ss

module _ (m : Machine) where
  dedupe-fresh :
      (paths seen : List Text) (s : Text)
      → mem_text s seen ≡ true
      → mem_text s (map m.norm_case (dedupe m seen paths)) ≡ false
  unfolding dedupe mem_text
  dedupe-fresh [] seen s h = refl
  dedupe-fresh (p ∷ paths) seen s h = elim (Bool-cases (mem_text (m.norm_case p) seen)) [
    | inl again ↦ rw again (dedupe-fresh paths seen s h)
    | inr new ↦
        let other : text_eq s (m.norm_case p) ≡ false =
          elim (Bool-cases (text_eq s (m.norm_case p))) [
            | inl same ↦
                let met =
                  subst (λ t. mem_text t seen ≡ true) ((text_eq_iff s (m.norm_case p)).0 same) h in
                cc
            | inr other ↦ other
          ] in
        rw (new, other) (dedupe-fresh paths (m.norm_case p ∷ seen) s (rw h (ground arith)))
  ]

  dedupe-DistinctBy : (paths seen : List Text) → DistinctBy m.norm_case (dedupe m seen paths)
  unfolding dedupe mem_text
  dedupe-DistinctBy [] seen = tt
  dedupe-DistinctBy (p ∷ paths) seen = elim (Bool-cases (mem_text (m.norm_case p) seen)) [
    | inl again ↦ rw again (dedupe-DistinctBy paths seen)
    | inr new ↦
        let seen' = m.norm_case p ∷ seen in
        rw new (
          dedupe-fresh paths seen' (m.norm_case p) (rw (text_eq_refl (m.norm_case p)) refl),
          dedupe-DistinctBy paths seen',
        )
  ]

  -- A path is in a list as far as normcase() tells.
  abbrev pub IsFound : Text → List Text → Type 0
  IsFound path found = mem_text (m.norm_case path) (map m.norm_case found) ≡ true

  dedupe-covers :
      (paths seen : List Text) (s : Text)
      → mem_text s (map m.norm_case paths) ≡ true
      → (mem_text s seen || mem_text s (map m.norm_case (dedupe m seen paths))) ≡ true
  unfolding dedupe mem_text
  dedupe-covers [] seen s h = cc
  dedupe-covers (p ∷ paths) seen s h = elim (Bool-cases (mem_text (m.norm_case p) seen)) [
    | inl again ↦ elim (Bool-cases (text_eq s (m.norm_case p))) [
      | inl same ↦
          let met =
            subst (λ t. mem_text t seen ≡ true) (sym ((text_eq_iff s (m.norm_case p)).0 same))
              again in
          rw (again, met) refl
      | inr other ↦ rw again (dedupe-covers paths seen s (ground (arith, h)))
    ]
    | inr new ↦ elim (Bool-cases (text_eq s (m.norm_case p))) [
      | inl same ↦ rw (new, same) (ground arith)
      | inr other ↦
          let later = dedupe-covers paths (m.norm_case p ∷ seen) s (ground (arith, h)) in
          rw (new, other) (rw other at later)
    ]
  ]

  dedupe-IsFound :
      (path : Text) (paths : List Text) → IsFound path paths → IsFound path (dedupe m [] paths)
  unfolding mem_text
  dedupe-IsFound path paths h = dedupe-covers paths [] (m.norm_case path) h

  libraries_in-mem :
      (vdf path : Text) (vdfs : List Text)
      → mem_text vdf vdfs ≡ true
      → mem_text path (listed_in m (m.text_of_file vdf)) ≡ true
      → m.is_dir path ≡ true
      → mem_text (m.norm_path path) (libraries_in m vdfs) ≡ true
  unfolding libraries_in mem_text
  libraries_in-mem vdf path [] h listed dir = cc
  libraries_in-mem vdf path (v ∷ vdfs) h listed dir = elim (Bool-cases (text_eq vdf v)) [
    | inl same ↦
        let here =
          mem_text-map m.norm_path path (keep_if m.is_dir (listed_in m (m.text_of_file vdf)))
            (mem_text-keep_if m.is_dir path (listed_in m (m.text_of_file vdf)) listed dir) in
        mem_text-append (m.norm_path path) (existing m (listed_in m (m.text_of_file v)))
          (libraries_in m vdfs)
        ∙ rw (sym ((text_eq_iff vdf v).0 same), here) refl
    | inr other ↦
        mem_text-append (m.norm_path path) (existing m (listed_in m (m.text_of_file v)))
          (libraries_in m vdfs)
        ∙ rw (libraries_in-mem vdf path vdfs (ground (arith, h)) listed dir) (ground arith)
  ]

  all_libraries-mem :
      (root lib : Text) (roots : List Text)
      → mem_text root roots ≡ true
      → mem_text lib (library_folders m root) ≡ true
      → mem_text lib (all_libraries m roots) ≡ true
  unfolding all_libraries mem_text
  all_libraries-mem root lib [] h mem = cc
  all_libraries-mem root lib (r ∷ roots) h mem = elim (Bool-cases (text_eq root r)) [
    | inl same ↦
        mem_text-append lib (library_folders m r) (all_libraries m roots)
        ∙ rw (sym ((text_eq_iff root r).0 same), mem) refl
    | inr other ↦
        mem_text-append lib (library_folders m r) (all_libraries m roots)
        ∙ rw (all_libraries-mem root lib roots (ground (arith, h)) mem) (ground arith)
  ]

  -- If join() and isdir() tell no paths apart that normcase() does not, then the game is found in every
  -- directory that a libraryfolders.vdf of a Steam root lists and that has the game in it, and nothing is
  -- found twice in other letters.
  pub autodetect-IsFound :
      ((a b x : Text)
        → m.norm_case a ≡ m.norm_case b
        → m.norm_case (m.join a x) ≡ m.norm_case (m.join b x))
      → ((a b : Text) → m.norm_case a ≡ m.norm_case b → m.is_dir a ≡ m.is_dir b)
      → (root vdf path : Text) → mem_text root (steam_roots m) ≡ true
      → mem_text vdf (vdf_paths m root) ≡ true
      → mem_text path (listed_in m (m.text_of_file vdf)) ≡ true
      → m.is_dir path ≡ true
      → m.is_dir (game_of m (m.norm_path path)) ≡ true
      → IsFound (game_of m (m.norm_path path)) (autodetect m).0
        × DistinctBy m.norm_case (autodetect m).0
  unfolding autodetect library_folders mem_text
  autodetect-IsFound joins dirs root vdf path at_root at_vdf listed dir game =
      let lib = m.norm_path path in
      let inside : mem_text lib (root ∷ libraries_in m (vdf_paths m root)) ≡ true =
        rw (libraries_in-mem vdf path (vdf_paths m root) at_vdf listed dir) (ground arith) in
      let (other, mem, same) =
        mem_text-map_inv m.norm_case (m.norm_case lib) (library_folders m root) (
          dedupe-IsFound lib (root ∷ libraries_in m (vdf_paths m root))
            (mem_text-map m.norm_case lib (root ∷ libraries_in m (vdf_paths m root)) inside)) in
      let games : m.norm_case (game_of m lib) ≡ m.norm_case (game_of m other) =
        joins _ _ _ (joins _ _ _ (joins lib other _ same)) in
      let libs = all_libraries m (steam_roots m) in
      let game_mem : mem_text (game_of m other) (keep_if m.is_dir (map (game_of m) libs)) ≡ true =
        mem_text-keep_if m.is_dir (game_of m other) (map (game_of m) libs)
          (mem_text-map (game_of m) other libs
            (all_libraries-mem root other (steam_roots m) at_root mem))
          (sym (dirs _ _ games) ∙ game) in
      (
        dedupe-IsFound (game_of m lib) (keep_if m.is_dir (map (game_of m) libs)) (
            rw games (
              mem_text-map m.norm_case (game_of m other) (keep_if m.is_dir (map (game_of m) libs))
                game_mem)),
        dedupe-DistinctBy (keep_if m.is_dir (map (game_of m) libs)) [],
      )
