-- ===== src/Scripts.antt =====
-- grant.py: the grants of roles from the command line. The arguments are those after the script's
-- name; `none` is an exit with the usage.
pub mod Granted
mod Tests
use masterportal_admin.Base.{
  String, Bool, true, false, ◌==◌, Option, none, some, List, [], ◌∷◌, Result, ok, err, index_error,
  if◌then◌else◌,
}
use masterportal_admin.Db.{Db, scoped_key}
use masterportal_admin.Admin.Grants.{Grant, put_grant}

-- `for role in roles: db.merge(…)`
unfoldable pub merge_grants : (String → Grant) → List String → Db → Db
merge_grants grant [] db = db
merge_grants grant (role ∷ roles) db = merge_grants grant roles (put_grant (grant role) db)

abbrev pub grant_service : List String → Db → Result (Option Db)
grant_service (catalog ∷ external_id ∷ roles) db =
    ok (some (merge_grants (Grant.service_grant (scoped_key catalog external_id)) roles db))
grant_service (catalog ∷ []) db = err index_error
grant_service [] db = err index_error

abbrev pub grant_module : List String → Db → Result (Option Db)
grant_module (slug ∷ type ∷ roles) db =
    ok (some (merge_grants (Grant.module_grant slug type) roles db))
grant_module (slug ∷ []) db = err index_error
grant_module [] db = err index_error

abbrev pub grant_portal : List String → Db → Result (Option Db)
grant_portal (slug ∷ roles) db = ok (some (merge_grants (Grant.portal_grant slug) roles db))
grant_portal [] db = err index_error

abbrev pub grant_command : String → List String → Db → Result (Option Db)
grant_command cmd args db =
    if cmd == "service"
    then grant_service args db
    else if cmd == "module"
    then grant_module args db
    else if cmd == "portal"
    then grant_portal args db
    else if cmd == "list"
    then ok (some db)
    else ok none

-- `main` of grant.py
unfoldable pub grant_main : List String → Db → Result (Option Db)
unfolding merge_grants
grant_main [] db = grant_command "help" [] db
grant_main (cmd ∷ args) db = grant_command cmd args db
