-- ===== src/Source/Grants.antt =====
-- `service_grants` and `module_restrictions` of app/configsrc.py. `like` is the database's `LIKE`,
-- on a text and a pattern.
pub mod Exact
use masterportal_admin.Base.{String, Bool, ◌==◌, List, [], ◌∷◌, keep}
use masterportal_admin.Base.Dict.{Dict}
use masterportal_admin.Base.Text.{concat}
use masterportal_admin.Db.{Db, ServiceRole, ModuleRole}
use masterportal_admin.Db.Query.{sets_of}

unfoldable pub service_grants : (String → String → Bool) → Db → String → Dict (List String)
service_grants like db catalog =
    sets_of (λ (r : ServiceRole). r.service_key) (λ r. r.role) []
      (keep (λ r. like r.service_key (concat (catalog ∷ ":%" ∷ []))) db.service_roles)

unfoldable pub module_restrictions : Db → String → Dict (List String)
module_restrictions db slug =
    sets_of (λ (r : ModuleRole). r.module_type) (λ r. r.role) []
      (keep (λ r. r.portal_slug == slug) db.module_roles)
