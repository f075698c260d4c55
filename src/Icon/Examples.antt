-- ===== src/Icon/Examples.antt =====
-- The theorem on the meshes of icons at one small model; numbers without a sign or a point stand for the floats.
use tug.Base.{
  ℕ, false, List, [], ◌∷◌, if◌then◌else◌, Option, none, some, length, is_empty, ◌≡◌, refl, All,
}
use tug.Base.Text.{Text, codes, is_space, mem_text, text_eq, lower}
use tug.Base.Numbers.{number}
use tug.Base.Result.{Result, ok, raised, too_deep}
use tug.Workshop.Refresh.{is_id}
use tug.Icon.{IconError, Model, no_mesh, read_models}
use tug.Icon.Mesh.{IsMesh, IsBelow, read_models-IsMesh}

abbrev read_number : Text → Option ℕ
read_number s = if is_id s then some (number s) else none

abbrev smd : List Text
smd =
    codes "version 1"
    ∷ codes "triangles"
    ∷ codes "skin"
    ∷ codes "0 1 2 3  0 0 1  5 6"
    ∷ codes "0 4 5 6  0 0 1  5 7"
    ∷ codes "0 7 8 9  0 0 1  6 7"
    ∷ codes "end"
    ∷ []

abbrev or_no_mesh : Result IconError (Model ℕ) → Model ℕ
or_no_mesh (ok m) = m
or_no_mesh (raised e) = no_mesh
or_no_mesh too_deep = no_mesh

abbrev two_triangles : Model ℕ
two_triangles = or_no_mesh (read_models read_number (λ v. v) false (smd ∷ smd ∷ []))

read_models-IsMesh_example :
    (is_empty two_triangles.faces ≡ false)
    × IsMesh two_triangles
    × All (IsBelow (length two_triangles.verts)) two_triangles.faces
unfolding read_models is_space mem_text text_eq lower is_id
read_models-IsMesh_example =
    read_models-IsMesh read_number (λ v. v) false (smd ∷ smd ∷ []) two_triangles refl
