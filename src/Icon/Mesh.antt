-- ===== src/Icon/Mesh.antt =====
-- What parse_smd() and main() of fastdl/tools/render_icon.py read is a mesh.
use tug.Base.{
  ℕ, zero, suc, ◌+◌, ◌*◌, ◌<◌, Bool, false, List, [], ◌∷◌, ◌++◌, map, Option, none, some, ◌==◌,
  is_empty, length, length-append, ◌≡◌, refl, sym, ap, ◌∙◌, inl, inr, Bool-cases, Option-cases, All,
  arith, ==_iff,
}
use mathlib.Core.Path.{subst}
use Prim.Native.Nat.{◌≤◌}
use tug.Base.Text.{Text, lower, text_eq, mem_text, codes}
use tug.Base.Result.{Result, ok, raised, >>=-eq-ok}
use tug.Workshop.Refresh.{strip}
use tug.MapVote.Config.{words}
use tug.Icon.{
  IconError, no_triangles, Face, Vertex, Model, SmdState, sections, is_triangles, shift, no_mesh,
  add_triangle, add_vertex, append_model, vertex_of, triangle_line, smd_line, smd_lines, parse_smd,
  read_from, read_models,
}

-- Triangles of consecutive vertices from one on.
unfoldable pub triangles : ℕ → ℕ → List Face
triangles base zero = []
triangles base (suc n) = (base, (base + 1, base + 2)) ∷ triangles (base + 3) n

triangles-append :
    (base m n : ℕ) → triangles base m ++ triangles (base + m * 3) n ≡ triangles base (m + n)
unfolding triangles
triangles-append base zero n =
    let start : base + zero * 3 ≡ base = omega arith in
    let count : n ≡ zero + n = omega arith in
    ap (λ b. triangles b n) start ∙ ap (triangles base) count
triangles-append base (suc m) n =
    let start : base + suc m * 3 ≡ base + 3 + m * 3 = omega arith in
    let count : suc (m + n) ≡ suc m + n = omega arith in
    ap (λ fs. (base, (base + 1, base + 2)) ∷ fs)
      (ap (λ b. triangles (base + 3) m ++ triangles b n) start ∙ triangles-append (base + 3) m n)
    ∙ ap (triangles base) count

shift-triangles : (off base n : ℕ) → shift off (triangles base n) ≡ triangles (base + off) n
unfolding shift triangles
shift-triangles off base zero = refl
shift-triangles off base (suc n) =
    let next : base + 3 + off ≡ base + off + 3 = omega arith in
    let second : base + 1 + off ≡ base + off + 1 = omega arith in
    let third : base + 2 + off ≡ base + off + 2 = omega arith in
    rw (second, third)
      (ap (λ fs. (base + off, (base + off + 1, base + off + 2)) ∷ fs)
        (shift-triangles off (base + 3) n ∙ ap (λ b. triangles b n) next))

length-triangles : (base n : ℕ) → length (triangles base n) ≡ n
unfolding triangles
length-triangles base zero = refl
length-triangles base (suc n) = ap suc (length-triangles (base + 3) n)

-- The three vertices of a face are among the first n.
abbrev pub IsBelow : ℕ → Face → Type 0
IsBelow n (a, (b, c)) = (a < n) × (b < n) × (c < n)

triangles-IsBelow : (base n top : ℕ) → base + n * 3 ≤ top → All (IsBelow top) (triangles base n)
unfolding triangles
triangles-IsBelow base zero top h = tt
triangles-IsBelow base (suc n) top h = (
  (omega (arith, h), omega (arith, h), omega (arith, h)),
  triangles-IsBelow (base + 3) n top (omega (arith, h)),
)

length-map : {A B : Type 0} (f : A → B) (xs : List A) → length (map f xs) ≡ length xs
length-map f [] = refl
length-map f (x ∷ xs) = ap suc (length-map f xs)

module _ {Float : Type 0} where
  -- Every vertex is one of one face, in order, and has a normal and a place in the texture.
  abbrev pub IsMesh : Model Float → Type 0
  IsMesh m =
      (length m.verts ≡ length m.faces * 3)
      × (length m.uvs ≡ length m.verts)
      × (length m.normals ≡ length m.verts)
      × (m.faces ≡ triangles 0 (length m.faces))

  joined-IsMesh :
      (m : Model Float) (vs : List (Float × (Float × Float))) (us : List (Float × Float))
      (ns : List (Float × (Float × Float))) (fs : List Face) (k : ℕ)
      → IsMesh m
      → length vs ≡ k * 3
      → length us ≡ k * 3
      → length ns ≡ k * 3
      → fs ≡ triangles (length m.verts) k
      → IsMesh (record {
        verts = m.verts ++ vs;
        faces = m.faces ++ fs;
        uvs = m.uvs ++ us;
        normals = m.normals ++ ns;
      })
  joined-IsMesh m vs us ns fs k (verts, uvs, normals, faces) hv hu hn e =
      let n = length m.faces in
      let start : length m.verts ≡ 0 + n * 3 = omega (arith, verts) in
      let new : length fs ≡ k = ap length e ∙ length-triangles (length m.verts) k in
      let count : n + k ≡ length (m.faces ++ fs) = omega (arith, new, length-append m.faces fs) in
      (
        omega (arith, verts, hv, count, length-append m.verts vs),
        omega (arith, uvs, hv, hu, length-append m.verts vs, length-append m.uvs us),
        omega (arith, normals, hv, hn, length-append m.verts vs, length-append m.normals ns),
        ap (λ l. l ++ fs) faces
            ∙ ap (λ l. triangles 0 n ++ l) (e ∙ ap (λ b. triangles b k) start)
            ∙ triangles-append 0 n k
            ∙ ap (triangles 0) count,
      )

  add_triangle-IsMesh :
      (m : Model Float) (pending : List (Vertex Float))
      → length pending ≡ 3
      → IsMesh m
      → IsMesh (add_triangle m pending)
  unfolding add_triangle triangles
  add_triangle-IsMesh m pending three h =
      joined-IsMesh m _ _ _ _ 1 h (length-map (λ (v : Vertex Float). v.point) pending ∙ three)
        (length-map (λ (v : Vertex Float). v.uv) pending ∙ three)
        (length-map (λ (v : Vertex Float). v.normal) pending ∙ three) refl

  append_model-IsMesh : (m n : Model Float) → IsMesh m → IsMesh n → IsMesh (append_model m n)
  unfolding append_model
  append_model-IsMesh m n h (verts, uvs, normals, faces) =
      let start : 0 + length m.verts ≡ length m.verts = omega arith in
      joined-IsMesh m n.verts n.uvs n.normals _ (length n.faces) h verts (uvs ∙ verts)
        (normals ∙ verts)
        (ap (shift (length m.verts)) faces
          ∙ shift-triangles (length m.verts) 0 (length n.faces)
          ∙ ap (λ b. triangles b (length n.faces)) start)

  -- The state of parse_smd().
  abbrev ReadsMesh : SmdState Float → Type 0
  ReadsMesh st = IsMesh st.model

  add_vertex-IsMesh :
      (st : SmdState Float) (v : Vertex Float) → ReadsMesh st → ReadsMesh (add_vertex st v)
  unfolding add_vertex
  add_vertex-IsMesh st v h = elim (Bool-cases (length (st.pending ++ v ∷ []) == 3)) [
    | inl full ↦ rw full (
        add_triangle-IsMesh st.model (st.pending ++ v ∷ [])
          ((==_iff (length (st.pending ++ v ∷ [])) 3).0 full) h)
    | inr open_yet ↦ rw open_yet h
  ]

module _ {Float : Type 0} (read : Text → Option Float) (flip : Float → Float) (flip_v : Bool) where
  found-IsMesh :
      (st next : SmdState Float) (found : Option (Vertex Float))
      → ReadsMesh st
      → Path
          (Result IconError (SmdState Float))
          (elim found [ none ↦ ok st | some v ↦ ok (add_vertex st v) ])
          (ok next)
      → ReadsMesh next
  found-IsMesh st next none h e = let same : st ≡ next = cc in subst ReadsMesh same h
  found-IsMesh st next (some v) h e =
      let same : add_vertex st v ≡ next = cc in subst ReadsMesh same (add_vertex-IsMesh st v h)

  triangle_line-IsMesh :
      (st next : SmdState Float) (parts : List Text)
      → ReadsMesh st
      → triangle_line read flip flip_v st parts ≡ ok next
      → ReadsMesh next
  unfolding triangle_line
  triangle_line-IsMesh st next [] h e =
      let same : record { section = st.section; pending = []; model = st.model } ≡ next = cc in
      subst ReadsMesh same h
  triangle_line-IsMesh st next (part ∷ parts) h e = elim (Option-cases (read part)) [
    | inl word ↦
        let made : Path (Result IconError (SmdState Float))
            (ok (record { section = st.section; pending = []; model = st.model })) (ok next) =
          rw (triangle_line, word) at e in
        let same : record { section = st.section; pending = []; model = st.model } ≡ next = cc in
        subst ReadsMesh same h
    | inr (bone, at) ↦
        let (found, _, last) =
          >>=-eq-ok (vertex_of read flip flip_v (part ∷ parts)) _ (rw (triangle_line, at) at e) in
        found-IsMesh st next found h last
  ]

  kept-IsMesh :
      (st next : SmdState Float) (section : Option Text) (pending : List (Vertex Float))
      → ReadsMesh st
      → Path
          (Result IconError (SmdState Float))
          (ok (record { section = section; pending = pending; model = st.model }))
          (ok next)
      → ReadsMesh next
  kept-IsMesh st next section pending h e =
      let same : record { section = section; pending = pending; model = st.model } ≡ next = cc in
      subst ReadsMesh same h

  smd_line-IsMesh :
      (st next : SmdState Float) (raw : Text)
      → ReadsMesh st
      → smd_line read flip flip_v st raw ≡ ok next
      → ReadsMesh next
  unfolding smd_line
  smd_line-IsMesh st next raw h e =
      let low = lower (strip raw) in
      elim (Bool-cases (is_empty (strip raw))) [
        | inl blank ↦ kept-IsMesh st next st.section st.pending h (rw (smd_line, blank) at e)
        | inr full ↦ elim (Bool-cases (mem_text low sections)) [
          | inl heads ↦
              kept-IsMesh st next (some low) st.pending h (rw (smd_line, full, heads) at e)
          | inr inside ↦ elim (Bool-cases (text_eq low (codes "end"))) [
            | inl ends ↦
                kept-IsMesh st next none st.pending h (rw (smd_line, full, inside, ends) at e)
            | inr on ↦ elim (Bool-cases (is_triangles st.section)) [
              | inl triangle ↦
                  triangle_line-IsMesh st next (words [] (strip raw)) h
                    (rw (smd_line, full, inside, on, triangle) at e)
              | inr other ↦
                  kept-IsMesh st next st.section st.pending h
                    (rw (smd_line, full, inside, on, other) at e)
            ]
          ]
        ]
      ]

  smd_lines-IsMesh :
      (st last : SmdState Float) (lines : List Text)
      → ReadsMesh st
      → smd_lines read flip flip_v st lines ≡ ok last
      → ReadsMesh last
  unfolding smd_lines
  smd_lines-IsMesh st last [] h e = kept-IsMesh st last st.section st.pending h e
  smd_lines-IsMesh st last (line ∷ lines) h e =
      let (next, step, rest) = >>=-eq-ok (smd_line read flip flip_v st line) _ e in
      smd_lines-IsMesh next last lines (smd_line-IsMesh st next line h step) rest

  parse_smd-IsMesh :
      (lines : List Text) (m : Model Float) → parse_smd read flip flip_v lines ≡ ok m → IsMesh m
  unfolding parse_smd triangles
  parse_smd-IsMesh lines m e =
      let (st, run, last) =
        >>=-eq-ok
          (smd_lines read flip flip_v (record { section = none; pending = []; model = no_mesh })
            lines)
          _ e in
      let same : st.model ≡ m = cc in
      subst IsMesh same (
        smd_lines-IsMesh (record { section = none; pending = []; model = no_mesh }) st lines
          (refl, refl, refl, refl) run)

  read_from-IsMesh :
      (m last : Model Float) (files : List (List Text))
      → IsMesh m
      → read_from read flip flip_v m files ≡ ok last
      → (is_empty last.faces ≡ false) × IsMesh last
  unfolding read_from
  read_from-IsMesh m last [] h e = elim (Bool-cases (is_empty m.faces)) [
    | inl nothing ↦
        let stop : Path (Result IconError (Model Float)) (raised no_triangles) (ok last) =
          rw (read_from, nothing) at e in
        cc
    | inr some_faces ↦
        let done : Path (Result IconError (Model Float)) (ok m) (ok last) =
          rw (read_from, some_faces) at e in
        let same : m ≡ last = cc in
        subst (λ (x : Model Float). (is_empty x.faces ≡ false) × IsMesh x) same (some_faces, h)
  ]
  read_from-IsMesh m last (lines ∷ files) h e =
      let (n, parsed, next) = >>=-eq-ok (parse_smd read flip flip_v lines) _ e in
      elim (Bool-cases (is_empty n.faces)) [
        | inl nothing ↦
            let stop : Path (Result IconError (Model Float)) (raised no_triangles) (ok last) =
              rw nothing at next in
            cc
        | inr some_faces ↦
            read_from-IsMesh (append_model m n) last files
              (append_model-IsMesh m n h (parse_smd-IsMesh lines n parsed)) (rw some_faces at next)
      ]

  -- If the models of an icon are read without an error, what is handed on has a face; its vertices are
  -- those of its faces, three for each and in order, each with a normal and a place in the texture; and
  -- no face refers to a vertex that is not there.
  pub read_models-IsMesh :
      (files : List (List Text)) (m : Model Float)
      → read_models read flip flip_v files ≡ ok m
      → (is_empty m.faces ≡ false) × IsMesh m × All (IsBelow (length m.verts)) m.faces
  unfolding read_models triangles
  read_models-IsMesh [] m e = cc
  read_models-IsMesh (lines ∷ files) m e =
      let (filled, mesh) = read_from-IsMesh no_mesh m (lines ∷ files) (refl, refl, refl, refl) e in
      let (verts, _, _, faces) = mesh in
      (
        filled,
        mesh,
        subst (All (IsBelow (length m.verts))) (sym faces)
            (triangles-IsBelow 0 (length m.faces) (length m.verts) (omega (arith, verts))),
      )
