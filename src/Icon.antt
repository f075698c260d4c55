-- ===== src/Icon.antt =====
-- parse_smd() of fastdl/tools/render_icon.py, and the part of its main() that joins the models. Python's floats
-- are a parameter: `read` is float(), none where it raises ValueError, and `flip` is 1.0 - v.
pub mod Mesh
mod Examples
use tug.Base.{
  ℕ, ◌+◌, Bool, true, false, List, [], ◌∷◌, ◌++◌, map, if◌then◌else◌, Option, none, some, ltb, ◌==◌,
  is_empty, length,
}
use tug.Base.Text.{Text, codes, lower, text_eq, mem_text}
use tug.Base.Result.{Result, ok, raised, too_deep, ◌>>=◌}
use tug.Workshop.Refresh.{strip}
use tug.MapVote.Config.{words}

-- ValueError of a number, and the exits of main()
pub data IconError : Type 0 where
  value_error no_model no_triangles : IconError

abbrev pub Face : Type 0
Face = ℕ × (ℕ × ℕ)

-- A point, a normal and a place in the texture.
pub record Vertex (Float : Type 0) : Type 0 where
  pub point : Float × (Float × Float)
  pub normal : Float × (Float × Float)
  pub uv : Float × Float

pub record Model (Float : Type 0) : Type 0 where
  pub verts : List (Float × (Float × Float))
  pub faces : List Face
  pub uvs : List (Float × Float)
  pub normals : List (Float × (Float × Float))

-- Where parse_smd() is: the section, the vertices of the triangle that is read, and what has been read.
pub record SmdState (Float : Type 0) : Type 0 where
  pub section : Option Text
  pub pending : List (Vertex Float)
  pub model : Model Float

abbrev sections : List Text
sections = codes "nodes" ∷ codes "skeleton" ∷ codes "triangles" ∷ codes "vertexanimation" ∷ []

abbrev is_triangles : Option Text → Bool
is_triangles none = false
is_triangles (some section) = text_eq section (codes "triangles")

-- [(a + off, b + off, c + off) for a, b, c in f]
unfoldable pub shift : ℕ → List Face → List Face
shift off [] = []
shift off ((a, (b, c)) ∷ faces) = (a + off, (b + off, c + off)) ∷ shift off faces

module _ {Float : Type 0} where
  abbrev pub no_mesh : Model Float
  no_mesh = record { verts = []; faces = []; uvs = []; normals = [] }

  -- The vertices of a triangle at the end of what has been read.
  unfoldable pub add_triangle : Model Float → List (Vertex Float) → Model Float
  add_triangle m pending =
      let base = length m.verts in
      record {
        verts = m.verts ++ map (λ (v : Vertex Float). v.point) pending;
        faces = m.faces ++ (base, (base + 1, base + 2)) ∷ [];
        uvs = m.uvs ++ map (λ (v : Vertex Float). v.uv) pending;
        normals = m.normals ++ map (λ (v : Vertex Float). v.normal) pending;
      }

  unfoldable pub add_vertex : SmdState Float → Vertex Float → SmdState Float
  unfolding add_triangle
  add_vertex st v =
      let pending = st.pending ++ v ∷ [] in
      if length pending == 3
      then record { section = st.section; pending = []; model = add_triangle st.model pending }
      else record { section = st.section; pending = pending; model = st.model }

  -- main(): a model after those that have been read
  unfoldable pub append_model : Model Float → Model Float → Model Float
  unfolding shift
  append_model m n = record {
    verts = m.verts ++ n.verts;
    faces = m.faces ++ shift (length m.verts) n.faces;
    uvs = m.uvs ++ n.uvs;
    normals = m.normals ++ n.normals;
  }

module _ {Float : Type 0} (read : Text → Option Float) (flip : Float → Float) (flip_v : Bool) where
  -- float(), which raises
  abbrev float_of : Text → Result IconError Float
  float_of s = elim (read s) [ none ↦ raised value_error | some x ↦ ok x ]

  -- A line of nine or more parts, the first a number.
  unfoldable pub vertex_of : List Text → Result IconError (Option (Vertex Float))
  vertex_of (bone ∷ x ∷ y ∷ z ∷ nx ∷ ny ∷ nz ∷ u ∷ v ∷ more) = do
    px ← float_of x
    py ← float_of y
    pz ← float_of z
    mx ← float_of nx
    my ← float_of ny
    mz ← float_of nz
    tu ← float_of u
    tv ← float_of v
    ok (
        some (record {
          point = (px, (py, pz));
          normal = (mx, (my, mz));
          uv = (tu, if flip_v then flip tv else tv);
        }))
  vertex_of _ = ok none

  -- A line of the triangles: a material has no number first.
  unfoldable pub triangle_line : SmdState Float → List Text → Result IconError (SmdState Float)
  unfolding vertex_of add_vertex
  triangle_line st [] = ok (record { section = st.section; pending = []; model = st.model })
  triangle_line st (part ∷ parts) = elim (read part) [
    | none ↦ ok (record { section = st.section; pending = []; model = st.model })
    | some bone ↦ vertex_of (part ∷ parts) >>= λ found. elim found [
      | none ↦ ok st
      | some v ↦ ok (add_vertex st v)
    ]
  ]

  -- The loop body of parse_smd() for one line.
  unfoldable pub smd_line : SmdState Float → Text → Result IconError (SmdState Float)
  unfolding triangle_line strip words
  smd_line st raw =
      let line = strip raw in
      let low = lower line in
      if is_empty line
      then ok st
      else if mem_text low sections
      then ok (record { section = some low; pending = st.pending; model = st.model })
      else if text_eq low (codes "end")
      then ok (record { section = none; pending = st.pending; model = st.model })
      else if is_triangles st.section
      then triangle_line st (words [] line)
      else ok st

  unfoldable pub smd_lines : SmdState Float → List Text → Result IconError (SmdState Float)
  unfolding smd_line
  smd_lines st [] = ok st
  smd_lines st (line ∷ lines) = smd_line st line >>= λ next. smd_lines next lines

  -- parse_smd(), of the lines of the file
  unfoldable pub parse_smd : List Text → Result IconError (Model Float)
  unfolding smd_lines
  parse_smd lines = do
    st ← smd_lines (record { section = none; pending = []; model = no_mesh }) lines
    ok st.model

  -- The loop of main() over the files of the models.
  unfoldable pub read_from : Model Float → List (List Text) → Result IconError (Model Float)
  unfolding parse_smd append_model
  read_from m [] = if is_empty m.faces then raised no_triangles else ok m
  read_from m (lines ∷ files) = parse_smd lines >>= λ n.
      if is_empty n.faces then raised no_triangles else read_from (append_model m n) files

  -- main() up to build_object()
  unfoldable pub read_models : List (List Text) → Result IconError (Model Float)
  unfolding read_from
  read_models [] = raised no_model
  read_models (lines ∷ files) = read_from no_mesh (lines ∷ files)
