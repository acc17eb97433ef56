-- ===== src/Scripts/Tests.antt =====
-- Grants from the command line.
use masterportal_admin.Admin.Grants.{put_grant}
use masterportal_admin.Base.{
  ◌==◌, ◌&&◌, ◌||◌, none, some, [], ◌∷◌, ok, err, index_error, contains, ◌≡◌, refl,
}
use masterportal_admin.Db.{Db, scoped_key}
use masterportal_admin.Admin.Edits.Roles.{is_granted}
use masterportal_admin.Scripts.{grant_main}
use masterportal_admin.Scripts.Granted.{is_granted-grant_main}

abbrev tables : Db
tables = record {
  services = [];
  rest_services = [];
  styles = [];
  portals = [];
  snapshots = [];
  next_snapshot = 1;
  service_roles = record { service_key = "city:1"; role = "staff" } ∷ [];
  portal_roles = [];
  module_roles = [];
  audit_log = [];
  sessions = [];
  pending_logins = [];
}

abbrev granted : Db
granted = record tables {
  service_roles =
      record { service_key = "city:1"; role = "staff" }
      ∷ record { service_key = "city:1"; role = "guest" }
      ∷ [];
}

ran : grant_main ("service" ∷ "city" ∷ "1" ∷ "staff" ∷ "guest" ∷ []) tables ≡ ok (some granted)
unfolding grant_main put_grant scoped_key
ran = refl

without_arguments : grant_main [] tables ≡ ok none
unfolding grant_main
without_arguments = refl

without_service : grant_main ("service" ∷ "city" ∷ []) tables ≡ err index_error
unfolding grant_main
without_service = refl

is_granted-grant_main_example : is_granted "city:1" "guest" granted ≡ (
    is_granted "city:1" "guest" tables
    || scoped_key "city" "1" == "city:1" && contains ("staff" ∷ "guest" ∷ []) "guest")
is_granted-grant_main_example =
    is_granted-grant_main "city" "1" ("staff" ∷ "guest" ∷ []) tables granted "city:1" "guest" ran
