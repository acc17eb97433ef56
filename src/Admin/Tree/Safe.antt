-- ===== src/Admin/Tree/Safe.antt =====
-- A tree that the editor accepts can be filtered for every caller.
use masterportal_admin.Base.{
  ℕ, suc, String, Bool, ◌==◌, ltb, none, some, List, [], ◌∷◌, all, contains, Result, ok, err, http,
  ◌>>=◌, >>=-eq-ok, if◌then◌else◌, ◌≡◌, refl, ap, ◌∙◌, Bool-cases, Option-cases, inl, inr,
}
use masterportal_admin.Json.{
  Value, null, bool, int, float, obj, arr, str, Items, nil, cons, Fields, end, field,
}
use masterportal_admin.Json.Object.{get, set, keys}
use masterportal_admin.Access.Tree.{
  prune, prune_items, prune_element, prune_in, prune_group, prune_groups, filter_layer_config,
  folder_kept, push, leaf_ok, is_folder, id_ok,
}
use masterportal_admin.Admin.Tree.{
  walk, walk_items, walk_element, walk_in, check_group, check_groups, validate_tree, index,
  max_tree_depth, has_name,
}

abbrev pub Returns {ℓ} : {A : Type ℓ} → Result A → Type ℓ
Returns {A = A} r = (a : A) × (r ≡ ok a)

>>=-Returns {ℓ κ} :
    {A : Type ℓ} {B : Type κ} (m : Result A) (f : A → Result B)
    → Returns m
    → ((a : A) → Returns (f a))
    → Returns (m >>= f)
>>=-Returns m f (a, e) k = let (b, e') = k a in (b, ap (λ r. r >>= f) e ∙ e')

module _ (known : List String) (good : Value → Bool) where
  mutual
    unfolding walk prune

    walk-Returns :
        (v : Value) (depth : ℕ) (path : String)
        → Returns (walk known v depth path)
        → Returns (prune good v)
    walk-Returns (arr vs) depth path (ws, h) = elim (Bool-cases (ltb max_tree_depth depth)) [
      | inl deep ↦ let h' : err (http 422) ≡ ok ws = rw deep at h in cc
      | inr fine ↦ items-Returns vs 0 depth path (ws, rw fine at h)
    ]
    walk-Returns null depth path (ws, h) = cc
    walk-Returns (bool b) depth path (ws, h) = cc
    walk-Returns (int n) depth path (ws, h) = cc
    walk-Returns (float r) depth path (ws, h) = cc
    walk-Returns (str s) depth path (ws, h) = cc
    walk-Returns (obj d) depth path (ws, h) = cc

    items-Returns :
        (vs : Items) (i depth : ℕ) (path : String)
        → Returns (walk_items known vs i depth path)
        → Returns (prune_items good vs)
    items-Returns nil i depth path h = (nil, refl)
    items-Returns (cons el vs) i depth path (ws, h) =
        let (found, h1, h2) = >>=-eq-ok (walk_element known el depth (index path i)) _ h in
        let (rest, h3, h4) = >>=-eq-ok (walk_items known vs (suc i) depth path) _ h2 in
        let (kept, e) = element-Returns el depth (index path i) (found, h1) in
        let (others, e') = items-Returns vs (suc i) depth path (rest, h3) in
        (push kept others, rw (e, e') refl)

    element-Returns :
        (v : Value) (depth : ℕ) (here : String)
        → Returns (walk_element known v depth here)
        → Returns (prune_element good v)
    element-Returns (obj d) depth here (ws, h) = elim (Bool-cases (is_folder d)) [
      | inr layer ↦ rw layer ((if leaf_ok good d then some (obj d) else none), refl)
      | inl folder ↦ elim (Bool-cases (has_name d)) [
        | inr nameless ↦ let h' : err (http 422) ≡ ok ws = rw (folder, nameless) at h in cc
        | inl named ↦
            let (children, e) = in-Returns d (suc depth) here (ws, rw (folder, named) at h) in
            rw folder (folder_kept d children, rw e refl)
      ]
    ]
    element-Returns null depth here (ws, h) = cc
    element-Returns (bool b) depth here (ws, h) = cc
    element-Returns (int n) depth here (ws, h) = cc
    element-Returns (float r) depth here (ws, h) = cc
    element-Returns (str s) depth here (ws, h) = cc
    element-Returns (arr vs) depth here (ws, h) = cc

    in-Returns :
        (d : Fields) (depth : ℕ) (path : String)
        → Returns (walk_in known d depth path)
        → Returns (prune_in good d)
    in-Returns end depth path h = (nil, refl)
    in-Returns (field k v d) depth path (ws, h) = elim (Bool-cases (k == "elements")) [
      | inl here ↦ rw here (walk-Returns v depth path (ws, rw here at h))
      | inr other ↦ rw other (in-Returns d depth path (ws, rw other at h))
    ]

  group-Returns :
      (group : String) (v : Value)
      → Returns (check_group known group v)
      → Returns (prune_group good v)
  unfolding check_group prune_group
  group-Returns group (obj g) (ws, h) = elim (Option-cases (get "elements" g)) [
    | inl missing ↦ let h' : err (http 422) ≡ ok ws = rw (missing, check_group) at h in cc
    | inr (v, here) ↦ elements-Returns group g v ws here (rw (here, check_group) at h)
  ]
    where
      elements-Returns :
          (group : String) (g : Fields) (v : Value) (ws : List String)
          → get "elements" g ≡ some v
          → (elim v [ arr vs ↦ walk known (arr vs) 1 group | _ ↦ err (http 422) ]) ≡ ok ws
          → Returns (prune_group good (obj g))
      elements-Returns group g (arr vs) ws here h =
          let (children, e) = walk-Returns (arr vs) 1 group (ws, h) in
          (obj (set "elements" (arr children) g), rw (here, prune_group) (rw e refl))
      elements-Returns group g null ws here h = cc
      elements-Returns group g (bool b) ws here h = cc
      elements-Returns group g (int n) ws here h = cc
      elements-Returns group g (float r) ws here h = cc
      elements-Returns group g (str s) ws here h = cc
      elements-Returns group g (obj d) ws here h = cc
  group-Returns group null (ws, h) = cc
  group-Returns group (bool b) (ws, h) = cc
  group-Returns group (int n) (ws, h) = cc
  group-Returns group (float r) (ws, h) = cc
  group-Returns group (str s) (ws, h) = cc
  group-Returns group (arr vs) (ws, h) = cc

  groups-Returns : (lc : Fields) → Returns (check_groups known lc) → Returns (prune_groups good lc)
  unfolding check_groups prune_groups
  groups-Returns end h = (end, refl)
  groups-Returns (field group v lc) (ws, h) =
      let (found, h1, h2) = >>=-eq-ok (check_group known group v) _ h in
      let (rest, h3, h4) = >>=-eq-ok (check_groups known lc) _ h2 in
      let (v', e) = group-Returns group v (found, h1) in
      let (lc', e') = groups-Returns lc (rest, h3) in (field group v' lc', rw (e, e') refl)

-- If the editor accepts a tree, then filtering it returns a tree for every set of ids that are known
-- and every set of ids that are allowed: a saved tree never makes the configuration fail.
pub filter_layer_config-validate_tree :
    (lc : Value) (catalog : List String) (warnings : List String)
    → validate_tree lc catalog ≡ ok warnings
    → (known allowed : List String)
    → (filtered : Value) × (filter_layer_config lc known allowed ≡ ok filtered)
unfolding validate_tree filter_layer_config
filter_layer_config-validate_tree (obj lc) catalog warnings h known allowed =
    elim (Bool-cases (all (contains ("baselayer" ∷ "subjectlayer" ∷ [])) (keys lc))) [
      | inr extra ↦ let h' : err (http 422) ≡ ok warnings = rw extra at h in cc
      | inl fine ↦
          let (lc', e) = groups-Returns catalog (id_ok known allowed) lc (warnings, rw fine at h) in
          (obj lc', rw e refl)
    ]
filter_layer_config-validate_tree null catalog warnings h known allowed = cc
filter_layer_config-validate_tree (bool b) catalog warnings h known allowed = cc
filter_layer_config-validate_tree (int n) catalog warnings h known allowed = cc
filter_layer_config-validate_tree (float r) catalog warnings h known allowed = cc
filter_layer_config-validate_tree (str s) catalog warnings h known allowed = cc
filter_layer_config-validate_tree (arr vs) catalog warnings h known allowed = cc
