-- ===== src/Admin/Edits/Roles.antt =====
-- What adding and removing a grant changes of the roles that the proxy reads.
use masterportal_admin.Base.{
  ℕ, String, Bool, true, false, not, ◌&&◌, ◌||◌, ◌==◌, eq_iff, List, [], ◌∷◌, ◌++◌, Result, ok,
  ok-injective, ◌≡◌, refl, sym, ap, ◌∙◌, arith, contains, any, keep,
}
use masterportal_admin.Json.{Value, Fields}
use masterportal_admin.Db.{Db, ServiceRole}
use masterportal_admin.Source.Grants.Exact.{roles_of}
use masterportal_admin.Admin.Grants.{
  Grant, add_grant, delete_grant, grant_row, put_grant, drop_grant, is_service_row, merge_row,
}
use masterportal_admin.Admin.Edits.{add_grant-ok, delete_grant-ok}

-- `role` is granted for the service `key`.
abbrev pub is_granted : String → String → Db → Bool
is_granted key role db = contains (roles_of key db.service_roles) role

contains-roles_of-append :
    (key role k a : String) (rows : List ServiceRole)
    → contains (roles_of k (rows ++ record { service_key = key; role = role } ∷ [])) a
      ≡ (contains (roles_of k rows) a || key == k && role == a)
contains-roles_of-append key role k a [] = ground arith
contains-roles_of-append key role k a (r ∷ rows) =
    ground (arith, contains-roles_of-append key role k a rows)

contains-roles_of-any :
    (key role k a : String) (rows : List ServiceRole)
    → any (is_service_row key role) rows ≡ true
    → (key == k && role == a) ≡ true
    → contains (roles_of k rows) a ≡ true
contains-roles_of-any key role k a [] h e = cc
contains-roles_of-any key role k a (r ∷ rows) h e = ground (
  arith,
  contains-roles_of-any key role k a rows,
  eq_iff key k,
  eq_iff role a,
  eq_iff r.service_key key,
  eq_iff r.role role,
  eq_iff r.service_key k,
  eq_iff r.role a,
)

pub contains-roles_of-merge_row :
    (key role k a : String) (rows : List ServiceRole)
    → contains
        (roles_of k
          (merge_row (is_service_row key role) (record { service_key = key; role = role }) rows))
        a
      ≡ (contains (roles_of k rows) a || key == k && role == a)
contains-roles_of-merge_row key role k a rows =
    ground
      (arith, contains-roles_of-append key role k a rows, contains-roles_of-any key role k a rows)

contains-roles_of-keep :
    (key role k a : String) (rows : List ServiceRole)
    → contains (roles_of k (keep (λ r. not (is_service_row key role r)) rows)) a
      ≡ (contains (roles_of k rows) a && not (key == k && role == a))
contains-roles_of-keep key role k a [] = refl
contains-roles_of-keep key role k a (r ∷ rows) = ground (
  arith,
  contains-roles_of-keep key role k a rows,
  eq_iff key k,
  eq_iff role a,
  eq_iff r.service_key key,
  eq_iff r.role role,
  eq_iff r.service_key k,
  eq_iff r.role a,
)

module _ (column : Value → Result String) (ts : String) (claims : Fields) (kind : String)
    (payload : Fields) (db after : Db) (reply : Value) (key role : String)
    (asked : grant_row column kind payload db ≡ ok (Grant.service_grant key role)) where
  never : Value → ℕ → Bool
  never v n = false

  -- If `add_grant` returns for a payload that names the role of a service, that role of that service
  -- is granted after it, and every other role of every service as before.
  pub is_granted-add_grant :
      add_grant column ts claims kind payload db ≡ ok (reply, after)
      → (k a : String) → is_granted k a after ≡ (is_granted k a db || key == k && role == a)
  is_granted-add_grant h k a =
      let (g, chosen, kept, roles) =
        add_grant-ok column never ts claims kind payload db after reply h in
      let e : g ≡ Grant.service_grant key role = ok-injective (sym chosen ∙ asked) in
      ap (λ rows. contains (roles_of k rows) a) (roles ∙ ap (λ g. (put_grant g db).service_roles) e)
      ∙ unfold put_grant in contains-roles_of-merge_row key role k a db.service_roles

  -- If `delete_grant` returns for a payload that names the role of a service, that role of that
  -- service is not granted after it, and every other role of every service as before.
  pub is_granted-delete_grant :
      delete_grant column ts claims kind payload db ≡ ok (reply, after)
      → (k a : String) → is_granted k a after ≡ (is_granted k a db && not (key == k && role == a))
  is_granted-delete_grant h k a =
      let (g, chosen, there, kept, roles) =
        delete_grant-ok column never ts claims kind payload db after reply h in
      let e : g ≡ Grant.service_grant key role = ok-injective (sym chosen ∙ asked) in
      ap (λ rows. contains (roles_of k rows) a)
        (roles ∙ ap (λ g. (drop_grant g db).service_roles) e)
      ∙ unfold drop_grant in contains-roles_of-keep key role k a db.service_roles
