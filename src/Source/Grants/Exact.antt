-- ===== src/Source/Grants/Exact.antt =====
-- The sets that the queries build hold exactly the granted roles.
use masterportal_admin.Base.{
  String, Bool, true, false, ◌&&◌, ◌||◌, ◌==◌, eq_iff, List, [], ◌∷◌, ◌≡◌, refl, sym, ◌∙◌, ap,
  arith, contains, any, keep, map, intersects, Option, none, some,
}
use mathlib.Core.Bool.{or-false}
use masterportal_admin.Base.Dict
use masterportal_admin.Base.Dict.{Dict}
use masterportal_admin.Base.Text.{concat}
use masterportal_admin.Db.{Db, ServiceRole, scoped_key}
use masterportal_admin.Db.Query.{contains-sets_of}
use masterportal_admin.Access.{service_allowed}
use masterportal_admin.Source.Grants.{service_grants}

-- `{r.role for r in rows if r.service_key == key}`
abbrev pub roles_of : String → List ServiceRole → List String
roles_of key rows = map (λ (r : ServiceRole). r.role) (keep (λ r. r.service_key == key) rows)

-- `LIKE "<prefix>%"` holds of a text that begins with the prefix.
abbrev pub FindsPrefix : (String → String → Bool) → Type 0
FindsPrefix like =
    (catalog external_id : String)
    → like (scoped_key catalog external_id) (concat (catalog ∷ ":%" ∷ [])) ≡ true

any-keep :
    (p q : ServiceRole → Bool) (rows : List ServiceRole)
    → any q (keep p rows) ≡ any (λ r. p r && q r) rows
any-keep p q [] = refl
any-keep p q (r ∷ rows) = ground (arith, any-keep p q rows)

any_granted :
    (like : ServiceRole → Bool) (key role : String) (rows : List ServiceRole)
    → ((r : ServiceRole) → r.service_key ≡ key → like r ≡ true)
    → any (λ r. like r && (r.service_key == key && r.role == role)) rows
      ≡ contains (roles_of key rows) role
any_granted like key role [] h = refl
any_granted like key role (r ∷ rows) h =
    ground (arith, any_granted like key role rows h, h r, eq_iff r.service_key key)

-- For a key of the catalog the set that `service_grants` has, or the empty set if it has none, holds
-- exactly the roles that the table grants for the key.
pub contains-service_grants :
    (like : String → String → Bool) (db : Db) (catalog external_id role : String)
    → FindsPrefix like
    → contains
        (Dict.get_or (scoped_key catalog external_id) [] (service_grants like db catalog))
        role
      ≡ contains (roles_of (scoped_key catalog external_id) db.service_roles) role
unfolding service_grants Dict.get_or
contains-service_grants like db catalog external_id role h =
    let key = scoped_key catalog external_id in
    let pattern = concat (catalog ∷ ":%" ∷ []) in
    let rows = keep (λ (r : ServiceRole). like r.service_key pattern) db.service_roles in
    contains-sets_of (λ (r : ServiceRole). r.service_key) (λ r. r.role) [] rows key role
    ∙ or-false _
    ∙ any-keep (λ r. like r.service_key pattern) (λ r. r.service_key == key && r.role == role)
        db.service_roles
    ∙ any_granted (λ r. like r.service_key pattern) key role db.service_roles
        (λ r e. ap (λ k. like k pattern) e ∙ h catalog external_id)

intersects-cons :
    (a : String) (xs ys : List String)
    → intersects xs (a ∷ ys) ≡ (contains xs a || intersects xs ys)
intersects-cons a [] ys = refl
intersects-cons a (x ∷ xs) ys = ground (arith, intersects-cons a xs ys, eq_iff a x, eq_iff x a)

intersects-nil : (xs : List String) → intersects xs [] ≡ false
intersects-nil [] = refl
intersects-nil (x ∷ xs) = intersects-nil xs

-- Whether two sets meet depends on their members alone.
pub intersects_ext :
    (xs ys roles : List String)
    → ((a : String) → contains xs a ≡ contains ys a)
    → intersects xs roles ≡ intersects ys roles
intersects_ext xs ys [] h = intersects-nil xs ∙ sym (intersects-nil ys)
intersects_ext xs ys (a ∷ roles) h = ground (
  arith,
  intersects-cons a xs roles,
  intersects-cons a ys roles,
  h a,
  intersects_ext xs ys roles h,
)

pub service_allowed_ext :
    (p : Bool) (xs ys : List String) (uroles : Option (List String))
    → ((a : String) → contains xs a ≡ contains ys a)
    → service_allowed p xs uroles ≡ service_allowed p ys uroles
unfolding service_allowed
service_allowed_ext true xs ys uroles h = refl
service_allowed_ext false xs ys none h = refl
service_allowed_ext false xs ys (some roles) h = rw (intersects_ext xs ys roles h)
