-- ===== src/Admin/Tree.antt =====
-- The tree editor of app/admin.py: `_validate_tree`, `_strip_uids`, `_collect_ids` and `put_tree`.
pub mod Safe
use masterportal_admin.Base.{
  ℕ, suc, String, Bool, true, false, ◌==◌, ◌&&◌, ◌||◌, not, ltb, Option, none, some, List, [], ◌∷◌,
  ◌++◌, length, keep, map, all, contains, Result, ok, err, http, ◌>>=◌, if◌then◌else◌, guard,
}
use masterportal_admin.Base.Dict
use masterportal_admin.Base.Int.{pos}
use masterportal_admin.Base.Text.{truthy, strip, decimal, concat}
use masterportal_admin.Json.{
  Value, null, bool, int, float, obj, arr, str, Items, nil, cons, Fields, end, field, to_list,
  of_list,
}
use masterportal_admin.Json.Object.{get, is_true, keys, iterate}
use masterportal_admin.Json.Text.{repr}
use masterportal_admin.Db.{Db, Portal, Service}
use masterportal_admin.Db.Table.{find, alter}
use masterportal_admin.Access.Tree.{base_id, is_folder, ids_of}
use masterportal_admin.Admin.{portal_key, audit}

-- `isinstance(x, (str, int))`; a `bool` is an `int`.
abbrev pub is_id : Value → Bool
is_id (str _) = true
is_id (int _) = true
is_id (bool _) = true
is_id _ = false

-- `isinstance(el.get("name"), str) and el["name"].strip()`
abbrev pub has_name : Fields → Bool
has_name d = elim (get "name" d) [ some (str s) ↦ truthy (strip s) | _ ↦ false ]

-- The text of the position `here`, and the warning for an id that is not in the catalog.
abbrev warning : String → Value → String
warning here x = concat (here ∷ ": id " ∷ repr x ∷ " not in catalog (inline layer?)" ∷ [])

unfoldable pub warnings_of : List String → String → List Value → List String
warnings_of known here [] = []
warnings_of known here (x ∷ xs) =
    let rest = warnings_of known here xs in
    if contains known (base_id x) then rest else warning here x ∷ rest

-- The checks on a layer's ids.
abbrev pub check_ids : List String → String → List Value → Result (List String)
check_ids known here [] = err (http 422)
check_ids known here (x ∷ xs) =
    if all is_id (x ∷ xs) then ok (warnings_of known here (x ∷ xs)) else err (http 422)

-- `el_id is None`
abbrev pub is_missing : Option Value → Bool
is_missing none = true
is_missing (some null) = true
is_missing _ = false

abbrev pub check_layer : List String → String → Fields → Result (List String)
check_layer known here d =
    if is_missing (get "id" d) then err (http 422) else check_ids known here (ids_of d)

abbrev index : String → ℕ → String
index path i = concat (path ∷ "[" ∷ decimal i ∷ "]" ∷ [])

unfoldable pub max_tree_depth : ℕ
max_tree_depth = 12

unfoldable mutual
  unfolding max_tree_depth warnings_of

  -- `walk(elements, depth, path)`
  pub walk : List String → Value → ℕ → String → Result (List String)
  walk known (arr vs) depth path =
      let found = walk_items known vs 0 depth path in
      if ltb max_tree_depth depth then err (http 422) else found
  walk known v depth path = err (http 422)

  pub walk_items : List String → Items → ℕ → ℕ → String → Result (List String)
  walk_items known nil i depth path = ok []
  walk_items known (cons el vs) i depth path = do
    found ← walk_element known el depth (index path i)
    rest ← walk_items known vs (suc i) depth path
    ok (found ++ rest)

  pub walk_element : List String → Value → ℕ → String → Result (List String)
  walk_element known (obj d) depth here =
      let below = walk_in known d (suc depth) here in
      if is_folder d
      then (if has_name d then below else err (http 422))
      else check_layer known here d
  walk_element known v depth here = err (http 422)

  -- `walk(el.get("elements", []), depth, path)`
  pub walk_in : List String → Fields → ℕ → String → Result (List String)
  walk_in known end depth path = if ltb max_tree_depth depth then err (http 422) else ok []
  walk_in known (field k v d) depth path =
      if k == "elements" then walk known v depth path else walk_in known d depth path

-- One round of the loop over the groups.
unfoldable pub check_group : List String → String → Value → Result (List String)
check_group known group (obj g) = elim (get "elements" g) [
  | some (arr vs) ↦ walk known (arr vs) 1 group
  | _ ↦ err (http 422)
]
check_group known group v = err (http 422)

unfoldable pub check_groups : List String → Fields → Result (List String)
check_groups known end = ok []
check_groups known (field group v lc) = do
  found ← check_group known group v
  rest ← check_groups known lc
  ok (found ++ rest)

abbrev groups : List String
groups = "baselayer" ∷ "subjectlayer" ∷ []

unfoldable pub validate_tree : Value → List String → Result (List String)
validate_tree (obj lc) known =
    if all (contains groups) (keys lc) then check_groups known lc else err (http 422)
validate_tree v known = err (http 422)

unfoldable mutual
  -- `_strip_uids(node)`
  pub strip_uids : Value → Value
  strip_uids (obj d) = obj (strip_fields d)
  strip_uids (arr vs) = arr (strip_items vs)
  strip_uids v = v

  pub strip_items : Items → Items
  strip_items nil = nil
  strip_items (cons v vs) = cons (strip_uids v) (strip_items vs)

  pub strip_fields : Fields → Fields
  strip_fields end = end
  strip_fields (field k v d) =
      let rest = strip_fields d in if k == "_uid" then rest else field k (strip_uids v) rest

-- `for x in …: if x is not None: out.add(…)`
unfoldable pub add_ids : List Value → List String → List String
add_ids [] out = out
add_ids (null ∷ xs) out = add_ids xs out
add_ids (x ∷ xs) out = add_ids xs (Dict.insert (base_id x) out)

unfoldable mutual
  unfolding add_ids

  -- `_collect_ids(elements, out)`
  pub collect_ids : Value → List String → Result (List String)
  collect_ids (arr vs) out = collect_items vs out
  collect_ids v out = if is_true v then (do xs ← iterate v; ok out) else ok out

  pub collect_items : Items → List String → Result (List String)
  collect_items nil out = ok out
  collect_items (cons v vs) out = do out' ← collect_element v out; collect_items vs out'

  pub collect_element : Value → List String → Result (List String)
  collect_element (obj d) out =
      let below = collect_in d out in if is_folder d then below else ok (add_ids (ids_of d) out)
  collect_element v out = ok out

  -- `_collect_ids(el.get("elements"), out)`
  pub collect_in : Fields → List String → Result (List String)
  collect_in end out = ok out
  collect_in (field k v d) out = if k == "elements" then collect_ids v out else collect_in d out

abbrev pub put_layer_config : Value → Portal → Portal
put_layer_config lc p = record p { layer_config = lc }

-- The external ids of the portal's catalog.
abbrev pub catalog_ids : String → Db → List String
catalog_ids catalog db =
    map (λ (s : Service). s.external_id) (keep (λ s. s.catalog == catalog) db.services)

-- `_strip_uids(payload.get("layer_config"))`
abbrev pub tree_of : Fields → Value
tree_of payload = strip_uids (elim (get "layer_config" payload) [ none ↦ null | some v ↦ v ])

abbrev pub put_portal_tree : String → Fields → String → Fields → Portal → Db → Result (Value × Db)
put_portal_tree ts claims slug payload portal db = do
  let lc = tree_of payload
  warnings ← validate_tree lc (catalog_ids portal.catalog db)
  after ←
      audit ts claims "tree.save" slug (field "warnings" (int (pos (length warnings))) end)
        (record db { portals = alter portal_key slug (put_layer_config lc) db.portals })
  ok (obj (field "ok" (bool true) (field "warnings" (arr (of_list (map str warnings))) end)), after)

unfoldable pub put_tree : String → Fields → String → Fields → Db → Result (Value × Db)
put_tree ts claims slug payload db = elim (find portal_key slug db.portals) [
  | none ↦ err (http 404)
  | some portal ↦ put_portal_tree ts claims slug payload portal db
]
