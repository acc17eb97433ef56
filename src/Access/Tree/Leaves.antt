-- ===== src/Access/Tree/Leaves.antt =====
-- The layers of a tree, each with the folders above it, and what `filter_layer_config` of
-- app/access.py leaves of them.
pub mod Keeps
use masterportal_admin.Base.{String, Bool, if◌then◌else◌, List, [], ◌∷◌, ◌++◌, ◌==◌}
use masterportal_admin.Json.{Value, arr, obj, Items, nil, cons, Fields, end, field}
use masterportal_admin.Json.Object.{remove}
use masterportal_admin.Access.Tree.{is_folder}

-- A layer's own entries under the entries of its folders (their `elements` left out), the
-- innermost first.
pub record Layer : Type 0 where
  pub folders : List Fields
  pub entries : Fields

unfoldable mutual
  pub leaves : List Fields → Items → List Layer
  leaves path nil = []
  leaves path (cons el vs) = leaves_element path el ++ leaves path vs

  pub leaves_element : List Fields → Value → List Layer
  leaves_element path (obj d) =
      if is_folder d
      then leaves_in (remove "elements" d ∷ path) d
      else record { folders = path; entries = d } ∷ []
  leaves_element path v = []

  pub leaves_in : List Fields → Fields → List Layer
  leaves_in path end = []
  leaves_in path (field k v d) = if k == "elements" then leaves_value path v else leaves_in path d

  pub leaves_value : List Fields → Value → List Layer
  leaves_value path (arr vs) = leaves path vs
  leaves_value path v = []

-- The layers of one group, `{"elements": [...]}`.
abbrev pub leaves_group : String → Value → List Layer
leaves_group name (obj g) = leaves_in (field name (obj end) end ∷ []) g
leaves_group name v = []

abbrev pub leaves_groups : Fields → List Layer
leaves_groups end = []
leaves_groups (field k v d) = leaves_group k v ++ leaves_groups d

-- The layers of a layerConfig, group by group; a group's name stands for its folder.
unfoldable pub leaves_of : Value → List Layer
leaves_of (obj d) = leaves_groups d
leaves_of v = []
