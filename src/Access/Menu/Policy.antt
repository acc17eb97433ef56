-- ===== src/Access/Menu/Policy.antt =====
-- Who may use a module of the menus, said apart from the code of app/access.py.
use masterportal_admin.Base.{
  String, Bool, true, false, ◌||◌, Option, none, some, List, [], ◌∷◌, any, contains, intersects, ok,
  >>=-eq-ok, ok-injective, ◌≡◌, refl, sym, ap, ◌∙◌, Option-cases, inl, inr,
}
use masterportal_admin.Base.Dict
use masterportal_admin.Base.Dict.{Dict}
use masterportal_admin.Json.{Value, null, bool, int, float, str, arr, obj}
use masterportal_admin.Json.Object.{get, get_or}
use masterportal_admin.Access.{roles_satisfy}
use masterportal_admin.Access.Menu.{required_roles, module_ok}

-- The type of a menu's entry, or null.
abbrev pub type_of : Value → Value
type_of (obj d) = elim (get "type" d) [ none ↦ null | some v ↦ v ]
type_of v = null

-- The roles that are required for a type.
abbrev pub required_for : Dict (List String) → Value → List String
required_for restricted (str t) = Dict.get_or t [] restricted
required_for restricted v = []

abbrev pub is_open : List String → Bool
is_open [] = true
is_open (r ∷ required) = false

-- No role is required, or the caller is signed in and is an administrator or has one of the roles.
abbrev pub satisfies : List String → Option (List String) → Bool
satisfies required none = is_open required
satisfies required (some roles) =
    is_open required || (contains roles "admin" || any (contains roles) required)

abbrev pub may_use : Dict (List String) → Option (List String) → Value → Bool
may_use restricted uroles el = satisfies (required_for restricted (type_of el)) uroles

intersects-any :
    (required roles : List String) → intersects required roles ≡ any (contains roles) required
intersects-any [] roles = refl
intersects-any (r ∷ required) roles =
    ap (λ b. contains roles r || b) (intersects-any required roles)

roles_satisfy-satisfies :
    (required : List String) (uroles : Option (List String))
    → roles_satisfy required uroles ≡ satisfies required uroles
unfolding roles_satisfy
roles_satisfy-satisfies [] none = refl
roles_satisfy-satisfies [] (some roles) = refl
roles_satisfy-satisfies (r ∷ required) none = refl
roles_satisfy-satisfies (r ∷ required) (some roles) =
    ap (λ b. contains roles "admin" || b) (intersects-any (r ∷ required) roles)

required_roles-ok :
    (restricted : Dict (List String)) (t : Value) (required : List String)
    → required_roles restricted t ≡ ok required
    → required ≡ required_for restricted t
unfolding required_roles
required_roles-ok restricted (str t) required h = sym (ok-injective h)
required_roles-ok restricted null required h = sym (ok-injective h)
required_roles-ok restricted (bool b) required h = sym (ok-injective h)
required_roles-ok restricted (int n) required h = sym (ok-injective h)
required_roles-ok restricted (float r) required h = sym (ok-injective h)
required_roles-ok restricted (arr vs) required h = cc
required_roles-ok restricted (obj d) required h = cc

type_of-ok : (el t : Value) → get_or el "type" null ≡ ok t → t ≡ type_of el
unfolding get_or
type_of-ok (obj d) t h = elim (Option-cases (get "type" d)) [
  | inl missing ↦
      let e : ok null ≡ ok t = rw (missing, get_or) at h in
      rw (missing, type_of) (sym (ok-injective e))
  | inr (v, there) ↦
      let e : ok v ≡ ok t = rw (there, get_or) at h in rw (there, type_of) (sym (ok-injective e))
]
type_of-ok null t h = cc
type_of-ok (bool b) t h = cc
type_of-ok (int n) t h = cc
type_of-ok (float r) t h = cc
type_of-ok (str s) t h = cc
type_of-ok (arr vs) t h = cc

pub module_ok-may_use :
    (restricted : Dict (List String)) (uroles : Option (List String)) (el : Value) (b : Bool)
    → module_ok restricted uroles el ≡ ok b
    → b ≡ may_use restricted uroles el
unfolding module_ok
module_ok-may_use restricted uroles el b h =
    let (t, h1, h2) = >>=-eq-ok (get_or el "type" null) _ h in
    let (required, h3, h4) = >>=-eq-ok (required_roles restricted t) _ h2 in
    let e : required ≡ required_for restricted (type_of el) =
      required_roles-ok restricted t required h3
      ∙ ap (required_for restricted) (type_of-ok el t h1) in
    sym (ok-injective h4) ∙ roles_satisfy-satisfies required uroles ∙ ap (λ r. satisfies r uroles) e
