-- ===== src/Admin/Listings/Tests.antt =====
-- Pages of a list of services, and a listing of grants.
use masterportal_admin.Admin.Settings.{sorted}
use masterportal_admin.Auth.{roles}
use masterportal_admin.Json.Object.{get}
use masterportal_admin.Admin.{actor}
use masterportal_admin.Base.{
  ℕ, zero, suc, ◌≤◌, true, false, none, List, [], ◌∷◌, length, ok, ◌≡◌, refl,
}
use masterportal_admin.Base.Int.{pos, negsuc}
use masterportal_admin.Json.{str, arr, obj, nil, cons, end, field}
use masterportal_admin.Db.{Service}
use masterportal_admin.Admin.Listings.{page, me, slice}
use masterportal_admin.Admin.Listings.Page.{page_bound}

abbrev service : ℕ → Service
service n = record {
  key = "city:x";
  catalog = "city";
  external_id = "x";
  position = n;
  attrs = end;
  is_public = true;
  upstream_auth_env = none;
  allow_transactions = false;
}

abbrev rows : ℕ → List Service
rows zero = []
rows (suc n) = service n ∷ rows n

middle : page (pos 1) (pos 2) (rows 4) ≡ service 2 ∷ service 1 ∷ []
unfolding slice
middle = refl

-- A negative offset counts from the end.
last : page (negsuc 1) (pos 1) (rows 3) ≡ service 1 ∷ []
unfolding slice
last = refl

-- A negative limit leaves out rows at the end, and passes the cap of 200.
cap_passed : length (page (pos 0) (negsuc 0) (rows 202)) ≡ 201
unfolding slice
cap_passed = refl

page_bound_example :
    (length (page (pos 1) (pos 2) (rows 4)) ≤ 200) × (length (page (pos 1) (pos 2) (rows 4)) ≤ 2)
page_bound_example = page_bound (pos 1) 2 (rows 4)

roles_sorted :
    me (
      field "sub"
        (str "u1")
        (field "roles" (arr (cons (str "b") (cons (str "a") (cons (str "b") nil)))) end))
    ≡ ok (
        obj (
          field "username"
            (str "u1")
            (field "roles" (arr (cons (str "a") (cons (str "b") nil))) end)))
unfolding me actor get roles sorted
roles_sorted = refl
