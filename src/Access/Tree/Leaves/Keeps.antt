-- ===== src/Access/Tree/Leaves/Keeps.antt =====
-- `filter_layer_config` keeps exactly the layers all of whose ids are usable.
use masterportal_admin.Base.{
  String, Bool, true, ◌≡◌, refl, eq_iff, eq_refl, List, [], ◌∷◌, ◌++◌, all, keep, keep-append, ok,
  err, attribute_error, ◌>>=◌, arith, Option, none, some, >>=-eq-ok, ok-injective, Option-cases,
  Bool-cases, inl, inr, any, not, contains, ◌&&◌, ◌∙◌, ap, if◌then◌else◌, Bool,
}
use masterportal_admin.Base.Text.{before}
use masterportal_admin.Json.Text.{to_text}
use masterportal_admin.Json.{
  Value, null, bool, int, float, str, arr, obj, Items, nil, cons, Fields, end, field,
}
use masterportal_admin.Json.Object.{get, set, remove, is_true, iterate, get-set}
use masterportal_admin.Access.Tree.{
  id_ok, ids_of, is_folder, prune, prune_items, prune_element, prune_in, filter_layer_config,
  prune_group, prune_groups, folder_kept, push, leaf_ok, prune_other,
}
use masterportal_admin.Access.Tree.Leaves.{
  Layer, leaves, leaves_element, leaves_in, leaves_value, leaves_groups, leaves_group, leaves_of,
}

pub is_folder-set : (v : Value) (d : Fields) → is_folder (set "elements" v d) ≡ is_folder d
unfolding is_folder
is_folder-set v d = rw (get-set "elements" "type" v d, is_folder)

remove-set : (k : String) (v : Value) (d : Fields) → remove k (set k v d) ≡ remove k d
unfolding remove set
remove-set k v end = rw (eq_refl k) refl
remove-set k v (field j w d) = ground (arith, remove-set k v d, eq_iff j k)

leaves_in-set :
    (path : List Fields) (vs : Items) (d : Fields)
    → leaves_in path (set "elements" (arr vs) d) ≡ leaves path vs
unfolding leaves set
leaves_in-set path vs end = refl
leaves_in-set path vs (field k v d) = ground (arith, leaves_in-set path vs d)

abbrev option_leaves : List Fields → Option Value → List Layer
option_leaves path none = []
option_leaves path (some v) = leaves_element path v

leaves-push :
    (path : List Fields) (o : Option Value) (vs : Items)
    → leaves path (push o vs) ≡ option_leaves path o ++ leaves path vs
unfolding leaves
leaves-push path none vs = refl
leaves-push path (some v) vs = refl

leaves-folder_kept :
    (path : List Fields) (d : Fields) (vs : Items)
    → is_folder d ≡ true
    → option_leaves path (folder_kept d vs) ≡ leaves (remove "elements" d ∷ path) vs
unfolding leaves
leaves-folder_kept path d nil h = refl
leaves-folder_kept path d (cons v vs) h =
    rw (is_folder-set (arr (cons v vs)) d)
      (rw h (rw (remove-set "elements" (arr (cons v vs)) d) (leaves_in-set _ (cons v vs) d)))

prune_other-nil : (v : Value) (kept : Items) → prune_other v ≡ ok kept → kept ≡ nil
prune_other-nil v kept h = elim (Bool-cases (is_true v)) [
  | inl yes_true ↦
      let (xs, a, e) = >>=-eq-ok (iterate v) (λ xs. err attribute_error) (rw yes_true at h) in cc
  | inr falsy ↦ let e : ok nil ≡ ok kept = rw falsy at h in cc
]

module _ (good : Value → Bool) where
  abbrev usable : Layer → Bool
  usable l = leaf_ok good l.entries

  -- A list of a tree that is no list has no layers, and is pruned to none.
  keeps_other :
      (path : List Fields) (v : Value) (kept : Items)
      → prune_other v ≡ ok kept
      → leaves path kept ≡ []
  unfolding leaves
  keeps_other path v kept h = rw (prune_other-nil v kept h) refl

  mutual
    unfolding prune leaves

    keeps_value :
        (path : List Fields) (v : Value) (kept : Items)
        → prune good v ≡ ok kept
        → leaves path kept ≡ keep usable (leaves_value path v)
    keeps_value path (arr vs) kept h = keeps_items path vs kept h
    keeps_value path null kept h = keeps_other path null kept h
    keeps_value path (bool b) kept h = keeps_other path (bool b) kept h
    keeps_value path (int n) kept h = keeps_other path (int n) kept h
    keeps_value path (float r) kept h = keeps_other path (float r) kept h
    keeps_value path (str s) kept h = keeps_other path (str s) kept h
    keeps_value path (obj d) kept h = keeps_other path (obj d) kept h

    keeps_items :
        (path : List Fields) (vs : Items) (kept : Items)
        → prune_items good vs ≡ ok kept
        → leaves path kept ≡ keep usable (leaves path vs)
    keeps_items path nil kept h = ground arith
    keeps_items path (cons el vs) kept h =
        let (o, eo, h') =
          >>=-eq-ok (prune_element good el) (λ o. do rest ← prune_items good vs; ok (push o rest))
            h in
        let (rest, er, hk) = >>=-eq-ok (prune_items good vs) (λ rest. ok (push o rest)) h' in
        cc (
          keeps_element path el o eo,
          keeps_items path vs rest er,
          leaves-push path o rest,
          keep-append usable (leaves_element path el) (leaves path vs),
        )

    keeps_element :
        (path : List Fields) (el : Value) (kept : Option Value)
        → prune_element good el ≡ ok kept
        → option_leaves path kept ≡ keep usable (leaves_element path el)
    keeps_element path (obj d) kept h = elim (Bool-cases (is_folder d)) [
      | inl folder ↦
          let (children, ec, hk) =
            >>=-eq-ok (prune_in good d) (λ children. ok (folder_kept d children))
              (rw (folder, prune_element) at h) in
          rw folder (
            cc (
              keeps_in (remove "elements" d ∷ path) d children ec,
              leaves-folder_kept path d children folder,
            ))
      | inr layer ↦ rw layer (ground arith)
    ]
    keeps_element path _ kept h = cc

    keeps_in :
        (path : List Fields) (d : Fields) (kept : Items)
        → prune_in good d ≡ ok kept
        → leaves path kept ≡ keep usable (leaves_in path d)
    keeps_in path end kept h = ground arith
    keeps_in path (field k v d) kept h =
        ground (arith, keeps_value path v kept, keeps_in path d kept)

leaves_in-get :
    (path : List Fields) (d : Fields)
    → leaves_in path d ≡ elim (get "elements" d) [ none ↦ [] | some v ↦ leaves_value path v ]
unfolding leaves get
leaves_in-get path end = refl
leaves_in-get path (field k v d) = ground (arith, leaves_in-get path d)

group_keeps :
    (good : Value → Bool) (k : String) (v v' : Value)
    → prune_group good v ≡ ok v'
    → leaves_group k v' ≡ keep (usable good) (leaves_group k v)
unfolding prune_group
group_keeps good k (obj g) v' h = elim (Option-cases (get "elements" g)) [
  | inl e ↦ rw (← ok-injective (rw (e, prune_group) at h)) (rw (leaves_in-get _ g) (rw e refl))
  | inr (v, e) ↦
      let (children, ec, hv) =
        >>=-eq-ok (prune good v) (λ c. ok (obj (set "elements" (arr c) g)))
          (rw (e, prune_group) at h) in
      let path = field k (obj end) end ∷ [] in
      rw (← ok-injective hv) (
        cc (
          leaves_in-set path children g,
          keeps_value good path v children ec,
          leaves_in-get path g,
          e,
        ))
]
group_keeps good k _ v' h = rw (← ok-injective h) refl

groups_keep :
    (good : Value → Bool) (d d' : Fields)
    → prune_groups good d ≡ ok d'
    → leaves_groups d' ≡ keep (usable good) (leaves_groups d)
unfolding prune_groups
groups_keep good end d' h = ground arith
groups_keep good (field k v d) d' h =
    let (v', ev, h') =
      >>=-eq-ok (prune_group good v) (λ v'. do e ← prune_groups good d; ok (field k v' e)) h in
    let (e, ee, hd) = >>=-eq-ok (prune_groups good d) (λ e. ok (field k v' e)) h' in
    cc (
      ok-injective hd,
      group_keeps good k v v' ev,
      groups_keep good d e ee,
      keep-append (usable good) (leaves_group k v) (leaves_groups d),
    )

-- The part of the id before its first dot is in the catalog, and is not allowed.
abbrev pub is_blocked : List String → List String → Value → Bool
is_blocked known allowed id =
    contains known (before b'.' (to_text id)) && not (contains allowed (before b'.' (to_text id)))

all-blocked :
    (known allowed : List String) (ids : List Value)
    → all (id_ok known allowed) ids ≡ not (any (is_blocked known allowed) ids)
unfolding id_ok
all-blocked known allowed [] = refl
all-blocked known allowed (id ∷ ids) =
    elim (Bool-cases (contains known (before b'.' (to_text id)))) [
      | inr inline ↦ rw inline (all-blocked known allowed ids)
      | inl secured ↦ elim (Bool-cases (contains allowed (before b'.' (to_text id)))) [
        | inl granted ↦ rw (secured, granted) (all-blocked known allowed ids)
        | inr refused ↦ rw (secured, refused) refl
      ]
    ]

keep-same :
    (p q : Layer → Bool) (ls : List Layer) → ((l : Layer) → p l ≡ q l) → keep p ls ≡ keep q ls
keep-same p q [] same = refl
keep-same p q (l ∷ ls) same =
    rw (same l) (ap (λ r. if q l then l ∷ r else r) (keep-same p q ls same))

-- If `filter_layer_config` returns, the layers of what it returns, with the folders above each, are
-- those layers of the given tree that have no id whose part before its first dot is an id of the
-- catalog and is not allowed, in their order. An id that itself has a dot is looked up by that part
-- too.
pub leaves_of-filter_layer_config :
    (lc lc' : Value) (known allowed : List String)
    → filter_layer_config lc known allowed ≡ ok lc'
    → leaves_of lc'
      ≡ keep (λ l. not (any (is_blocked known allowed) (ids_of l.entries))) (leaves_of lc)
unfolding filter_layer_config leaves_of
leaves_of-filter_layer_config (obj d) lc' known allowed h =
    let (d', e, h') = >>=-eq-ok (prune_groups (id_ok known allowed) d) (λ d'. ok (obj d')) h in
    rw (← ok-injective h') (
      groups_keep (id_ok known allowed) d d' e
      ∙ keep-same (usable (id_ok known allowed)) _ (leaves_groups d)
          (λ l. all-blocked known allowed (ids_of l.entries)))
leaves_of-filter_layer_config _ lc' known allowed h = cc
