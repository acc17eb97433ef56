-- ===== src/Import/Check.antt =====
-- `walk_layers` and `validate` of import_portal.py: the warnings about broken references.
use masterportal_admin.Base.{
  String, not, ◌==◌, ◌&&◌, ◌||◌, Option, none, some, List, [], ◌∷◌, ◌++◌, contains, Result, ok, err,
  attribute_error, ◌>>=◌, if◌then◌else◌,
}
use masterportal_admin.Json.{Value, null, arr, obj, Items, nil, cons, Fields, end, field}
use masterportal_admin.Json.Object.{get, get_or, is_true, iterate}
use masterportal_admin.Json.Text.{to_text}
use masterportal_admin.Json.Update.{member, item}
use masterportal_admin.Access.Tree.{base_id, ids_of, is_folder}

unfoldable mutual
  -- The layers that `walk_layers(elements)` yields.
  pub walk_layers : Value → Result (List Fields)
  walk_layers (arr vs) = layers_of_items vs
  walk_layers v = if is_true v then (do xs ← iterate v; err attribute_error) else ok []

  pub layers_of_items : Items → Result (List Fields)
  layers_of_items nil = ok []
  layers_of_items (cons el vs) = do
    found ← layers_of_element el
    rest ← layers_of_items vs
    ok (found ++ rest)

  pub layers_of_element : Value → Result (List Fields)
  layers_of_element (obj d) = let below = layers_in d in if is_folder d then below else ok (d ∷ [])
  layers_of_element v = err attribute_error

  -- `walk_layers(el.get("elements"))`
  pub layers_in : Fields → Result (List Fields)
  layers_in end = ok []
  layers_in (field k v d) = if k == "elements" then walk_layers v else layers_in d

-- What `validate` prints: an id or a style that nobody declares.
pub data Warning : Type 0 where
  unknown_service unknown_style : Value → Warning

-- `{str(s[k]) for s in rows if k in s}`
unfoldable pub texts_at : String → List Value → Result (List String)
texts_at k [] = ok []
texts_at k (s ∷ rows) = do
  there ← member k s
  own ← (if there then (item k s >>= λ v. ok (to_text v ∷ [])) else ok [])
  rest ← texts_at k rows
  ok (own ++ rest)

unfoldable pub unknown_ids : List String → List Value → List Warning
unknown_ids known [] = []
unknown_ids known (lid ∷ ids) =
    let rest = unknown_ids known ids in
    if contains known (to_text lid) || contains known (base_id lid)
    then rest
    else Warning.unknown_service lid ∷ rest

unfoldable pub unknown_style_of : List String → Option Value → List Warning
unknown_style_of known none = []
unknown_style_of known (some v) =
    if is_true v && not (contains known (to_text v)) then Warning.unknown_style v ∷ [] else []

unfoldable pub layer_warnings : List String → List String → List Fields → List Warning
layer_warnings services styles [] = []
layer_warnings services styles (el ∷ layers) =
    unknown_ids services (ids_of el)
    ++ unknown_style_of styles (get "styleId" el)
    ++ layer_warnings services styles layers

-- The loop over the groups.
unfoldable pub group_warnings : List String → List String → Fields → Result (List Warning)
group_warnings services styles end = ok []
group_warnings services styles (field name group groups) = do
  elements ← get_or group "elements" null
  layers ← walk_layers elements
  rest ← group_warnings services styles groups
  ok (layer_warnings services styles layers ++ rest)

-- `.values()` of what is no dict is an error.
abbrev pub warnings_in : List String → List String → Value → Result (List Warning)
warnings_in services styles (obj groups) = group_warnings services styles groups
warnings_in services styles v = err attribute_error

unfoldable pub validate_config : Value → List Value → List Value → Result (List Warning)
validate_config config services styles = do
  service_ids ← texts_at "id" services
  style_ids ← texts_at "styleId" styles
  groups ← get_or config "layerConfig" (obj end)
  warnings_in service_ids style_ids groups
