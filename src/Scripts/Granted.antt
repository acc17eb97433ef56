-- ===== src/Scripts/Granted.antt =====
-- What `grant.py service` changes of the roles that the proxy reads.
use masterportal_admin.Base.{
  String, ◌==◌, ◌&&◌, ◌||◌, some, List, [], ◌∷◌, ok, ok-injective, contains, ◌≡◌, sym, ap, ◌∙◌,
  arith,
}
use masterportal_admin.Db.{Db, scoped_key}
use masterportal_admin.Admin.Grants.{Grant, put_grant}
use masterportal_admin.Admin.Edits.Roles.{is_granted, contains-roles_of-merge_row}
use masterportal_admin.Scripts.{merge_grants, grant_main}

is_granted-put_grant :
    (key role k a : String) (db : Db)
    → is_granted k a (put_grant (Grant.service_grant key role) db)
      ≡ (is_granted k a db || key == k && role == a)
unfolding put_grant
is_granted-put_grant key role k a db = contains-roles_of-merge_row key role k a db.service_roles

is_granted-merge_grants :
    (key : String) (roles : List String) (k a : String) (db : Db)
    → is_granted k a (merge_grants (Grant.service_grant key) roles db)
      ≡ (is_granted k a db || key == k && contains roles a)
unfolding merge_grants
is_granted-merge_grants key [] k a db = ground arith
is_granted-merge_grants key (role ∷ roles) k a db =
    is_granted-merge_grants key roles k a (put_grant (Grant.service_grant key role) db)
    ∙ rw (is_granted-put_grant key role k a db) (ground arith)

-- After `grant.py service`, exactly the roles that are named are granted for the service, besides
-- those that were, and no other service's roles have changed.
pub is_granted-grant_main :
    (catalog external_id : String) (roles : List String) (db after : Db) (k a : String)
    → grant_main ("service" ∷ catalog ∷ external_id ∷ roles) db ≡ ok (some after)
    → is_granted k a after
      ≡ (is_granted k a db || scoped_key catalog external_id == k && contains roles a)
unfolding grant_main
is_granted-grant_main catalog external_id roles db after k a h =
    let e : some (merge_grants (Grant.service_grant (scoped_key catalog external_id)) roles db)
        ≡ some after =
      ok-injective h in
    let e' : merge_grants (Grant.service_grant (scoped_key catalog external_id)) roles db ≡ after =
      cc in
    ap (is_granted k a) (sym e')
    ∙ is_granted-merge_grants (scoped_key catalog external_id) roles k a db
