-- ===== src/Access/Tree.antt =====
-- `filter_layer_config` of app/access.py.
pub mod Leaves
use masterportal_admin.Base.{
  String, Bool, true, false, not, ◌||◌, Option, none, some, List, [], ◌∷◌, Result, ok, err,
  attribute_error, ◌>>=◌, ◌==◌, if◌then◌else◌, contains, all,
}
use masterportal_admin.Base.Text.{before}
use masterportal_admin.Json.{
  Value, null, arr, obj, str, Items, nil, cons, Fields, end, field, to_list,
}
use masterportal_admin.Json.Object.{get, set, is_true, iterate}
use masterportal_admin.Json.Text.{to_text}

-- `str(lid).split(".")[0]`
unfoldable pub base_id : Value → String
unfolding before to_text
base_id lid = before b'.' (to_text lid)

unfoldable pub id_ok : List String → List String → Value → Bool
unfolding base_id
id_ok known allowed lid =
    let base = base_id lid in not (contains known base) || contains allowed base

-- `d.get("id")`, as a list of ids.
unfoldable pub ids_of : Fields → List Value
ids_of d = elim (get "id" d) [ none ↦ null ∷ [] | some (arr vs) ↦ to_list vs | some v ↦ v ∷ [] ]

-- `d.get("type") == "folder"`
unfoldable pub is_folder : Fields → Bool
is_folder d = elim (get "type" d) [ some (str t) ↦ t == "folder" | _ ↦ false ]

abbrev pub leaf_ok : (Value → Bool) → Fields → Bool
leaf_ok good d = all good (ids_of d)

-- `prune(v)` of what is no list: the round's `el.get` fails on a character or a key.
abbrev pub prune_other : Value → Result Items
prune_other v = if is_true v then (do xs ← iterate v; err attribute_error) else ok nil

abbrev pub folder_kept : Fields → Items → Option Value
folder_kept d nil = none
folder_kept d (cons v vs) = some (obj (set "elements" (arr (cons v vs)) d))

abbrev pub push : Option Value → Items → Items
push none vs = vs
push (some v) vs = cons v vs

unfoldable mutual
  -- `prune(elements)`
  pub prune : (Value → Bool) → Value → Result Items
  prune good (arr vs) = prune_items good vs
  prune good v = prune_other v

  pub prune_items : (Value → Bool) → Items → Result Items
  prune_items good nil = ok nil
  prune_items good (cons el vs) = do
    kept ← prune_element good el
    rest ← prune_items good vs
    ok (push kept rest)

  -- one round of the loop: what is appended to `kept`, if anything
  pub prune_element : (Value → Bool) → Value → Result (Option Value)
  prune_element good (obj d) =
      if is_folder d
      then (do children ← prune_in good d; ok (folder_kept d children))
      else ok (if leaf_ok good d then some (obj d) else none)
  prune_element good v = err attribute_error

  -- `prune(el.get("elements"))`
  pub prune_in : (Value → Bool) → Fields → Result Items
  prune_in good end = ok nil
  prune_in good (field k v d) = if k == "elements" then prune good v else prune_in good d

unfoldable pub prune_group : (Value → Bool) → Value → Result Value
prune_group good (obj g) = elim (get "elements" g) [
  | none ↦ ok (obj g)
  | some v ↦ do children ← prune good v; ok (obj (set "elements" (arr children) g))
]
prune_group good v = ok v

unfoldable pub prune_groups : (Value → Bool) → Fields → Result Fields
prune_groups good end = ok end
prune_groups good (field k v d) = do
  v' ← prune_group good v
  d' ← prune_groups good d
  ok (field k v' d')

unfoldable pub filter_layer_config : Value → List String → List String → Result Value
unfolding prune_groups prune_group
filter_layer_config (obj d) known allowed = do
  d' ← prune_groups (id_ok known allowed) d
  ok (obj d')
filter_layer_config v known allowed = err attribute_error
