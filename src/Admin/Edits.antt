-- ===== src/Admin/Edits.antt =====
-- The administrator's changes as steps of the tables, and what they leave alone.
pub mod Portals
pub mod Forms
pub mod Catalog
pub mod Frozen
pub mod Roles
use masterportal_admin.Base.{
  ℕ, suc, String, Bool, true, false, not, ◌==◌, eq_iff, Option, none, some, List, [], ◌∷◌, ◌++◌,
  Result, ok, err, http, ◌>>=◌, >>=-eq-ok, ok-injective, if◌then◌else◌, ◌≡◌, ◌≢◌, refl, sym, ap,
  ◌∙◌, arith, Bool-cases, Option-cases, inl, inr,
}
use masterportal_admin.Json.{Value, Fields, obj}
use masterportal_admin.Json.Object.{get}
use masterportal_admin.Db.{Db, Portal, Snapshot, Service}
use masterportal_admin.Db.Table.{find, alter, find-alter}
use masterportal_admin.Source.{active_source, find_snapshot}
use masterportal_admin.Admin.{portal_key, audit}
use masterportal_admin.Admin.Audit.{logged, audited}
use masterportal_admin.Admin.Snapshots.{
  publish, activate, activate_portal, target_of, point_to, repoint, new_snapshot,
}
use masterportal_admin.Admin.Snapshots.Publish.{
  publish-ok, find-repoint, find_snapshot-append, active_source_found,
}
use masterportal_admin.Admin.Grants.{
  Grant, add_grant, delete_grant, grant_row, put_grant, drop_grant, has_grant,
}
use masterportal_admin.Admin.Portals.{create_portal, put_portal_config, delete_portal}
use masterportal_admin.Admin.Settings.{clone_portal, patch_settings, toggle_module}
use masterportal_admin.Admin.Services.{Patch, patch_service}
use masterportal_admin.Admin.Styles.{create_style, put_style, delete_style}
use masterportal_admin.Proxy.Upstream.{Address, HostCache}
use masterportal_admin.Admin.Capabilities.{Element, import_capabilities}
use masterportal_admin.Import.{Warning, import_portal}
use masterportal_admin.Admin.Tree.{
  put_tree, put_portal_tree, put_layer_config, validate_tree, tree_of,
}

-- The portal's row has this pointer, and the snapshot under it has this content.
abbrev pub IsPublished : String → ℕ → Snapshot → Db → Type 0
IsPublished slug id snap db =
    ((p : Portal) × (find portal_key slug db.portals ≡ some p) × (p.active_snapshot_id ≡ some id))
    × (find_snapshot id db.snapshots ≡ some snap)

-- Two tables with the same portals and snapshots.
abbrev pub SameServed : Db → Db → Type 0
SameServed db after = (after.portals ≡ db.portals) × (after.snapshots ≡ db.snapshots)

pub SameServed-IsPublished :
    (slug : String) (id : ℕ) (snap : Snapshot) (db after : Db)
    → SameServed db after
    → IsPublished slug id snap db
    → IsPublished slug id snap after
SameServed-IsPublished slug id snap db after (a, b) ((p, found, active), frozen) =
    ((p, ap (find portal_key slug) a ∙ found, active), ap (find_snapshot id) b ∙ frozen)

put_grant-SameServed : (g : Grant) (db : Db) → SameServed db (put_grant g db)
unfolding put_grant
put_grant-SameServed (Grant.service_grant key role) db = (refl, refl)
put_grant-SameServed (Grant.module_grant slug type role) db = (refl, refl)
put_grant-SameServed (Grant.portal_grant slug role) db = (refl, refl)

drop_grant-SameServed : (g : Grant) (db : Db) → SameServed db (drop_grant g db)
unfolding drop_grant
drop_grant-SameServed (Grant.service_grant key role) db = (refl, refl)
drop_grant-SameServed (Grant.module_grant slug type role) db = (refl, refl)
drop_grant-SameServed (Grant.portal_grant slug role) db = (refl, refl)

module _ (column : Value → Result String) (same : Value → ℕ → Bool) where
  -- One change by a handler, for the portal `slug`: not a publication or an activation of its own.
  pub data Edit (slug : String) : Db → Db → Type 0 where
    published :
        (created ts other : String) (claims : Fields) (reply : Value) (db after : Db)
        → (other == slug) ≡ false
        → publish created ts claims other db ≡ ok (reply, after)
        → Edit slug db after
    activated :
        (ts other : String) (claims payload : Fields) (reply : Value) (db after : Db)
        → (other == slug) ≡ false
        → activate same ts claims other payload db ≡ ok (reply, after)
        → Edit slug db after
    saved_tree :
        (ts other : String) (claims payload : Fields) (reply : Value) (db after : Db)
        → put_tree ts claims other payload db ≡ ok (reply, after)
        → Edit slug db after
    granted :
        (ts kind : String) (claims payload : Fields) (reply : Value) (db after : Db)
        → add_grant column ts claims kind payload db ≡ ok (reply, after)
        → Edit slug db after
    revoked :
        (ts kind : String) (claims payload : Fields) (reply : Value) (db after : Db)
        → delete_grant column ts claims kind payload db ≡ ok (reply, after)
        → Edit slug db after
    created_portal :
        (ts : String) (claims payload : Fields) (reply : Value) (db after : Db)
        → create_portal ts claims payload db ≡ ok (reply, after)
        → Edit slug db after
    cloned :
        (ts other : String) (claims payload : Fields) (reply : Value) (db after : Db)
        → clone_portal ts claims other payload db ≡ ok (reply, after)
        → Edit slug db after
    saved_config :
        (ts other : String) (claims payload : Fields) (reply : Value) (db after : Db)
        → put_portal_config ts claims other payload db ≡ ok (reply, after)
        → Edit slug db after
    saved_settings :
        (ts other : String) (claims payload : Fields) (db after : Db)
        → after ≡ (patch_settings ts claims other payload db).1
        → Edit slug db after
    switched_module :
        (ts other : String) (claims payload : Fields) (db after : Db)
        → after ≡ (toggle_module ts claims other payload db).1
        → Edit slug db after
    imported :
        (other catalog : String) (config : Value) (services rest styles : List Value)
        (warnings : List Warning) (db after : Db)
        → import_portal other catalog config services rest styles db ≡ ok (warnings, after)
        → Edit slug db after
    deleted :
        (ts other : String) (claims : Fields) (reply : Value) (db after : Db)
        → (other == slug) ≡ false
        → delete_portal ts claims other db ≡ ok (reply, after)
        → Edit slug db after
    patched_service :
        (bool_column : Value → Result Bool) (text_column : Value → Result (Option String))
        (other_field : String → Value → Patch → Result Patch) (ts key : String)
        (claims payload : Fields) (service : Service) (db after : Db)
        → patch_service bool_column text_column other_field ts claims key payload db
          ≡ ok (service, after)
        → Edit slug db after
    created_style :
        (ts : String) (claims payload : Fields) (reply : Value) (db after : Db)
        → create_style ts claims payload db ≡ ok (reply, after)
        → Edit slug db after
    saved_style :
        (ts key : String) (claims payload : Fields) (reply : Value) (db after : Db)
        → put_style ts claims key payload db ≡ ok (reply, after)
        → Edit slug db after
    deleted_style :
        (ts key : String) (claims : Fields) (reply : Value) (db after : Db)
        → delete_style ts claims key db ≡ ok (reply, after)
        → Edit slug db after
    imported_capabilities :
        (second : ℕ) (allow_private : Bool) (resolve : String → Option (List Address))
        (hostname : String → Option String) (cache : HostCache) (now : ℕ)
        (base_of : String → String) (fetch : String → Option (List (List ℕ)))
        (parse : List ℕ → Option Element) (ts : String) (claims payload : Fields) (reply : Value)
        (db after : Db)
        → import_capabilities column second allow_private resolve hostname cache now base_of fetch
            parse ts claims payload db
          ≡ ok (reply, after)
        → Edit slug db after

  pub data Edits (slug : String) : Db → Db → Type 0 where
    done : {db : Db} → Edits slug db db
    step : {db next after : Db} → Edit slug db next → Edits slug next after → Edits slug db after

  activate-ok :
      (ts other : String) (claims payload : Fields) (db after : Db) (reply : Value)
      → activate same ts claims other payload db ≡ ok (reply, after)
      → (id : Option ℕ) × (target_of same other (get "version" payload) db.snapshots ≡ ok id)
        × SameServed (repoint id other db) after
  unfolding activate
  activate-ok ts other claims payload db after reply h =
      elim (Option-cases (find portal_key other db.portals)) [
        | inl missing ↦
            let h' : err (http 404) ≡ ok (reply, after) = rw (missing, activate) at h in cc
        | inr (portal, found) ↦
            let h' : activate_portal same ts claims other payload db ≡ ok (reply, after) =
              rw (found, activate) at h in
            let (id, chosen, h1) =
              >>=-eq-ok (target_of same other (get "version" payload) db.snapshots) _ h' in
            let (who, named, e) =
              audited ts claims "portal.activate" other _ (repoint id other db) after reply _ h1 in
            (id, chosen, (ap (λ d. d.portals) e, ap (λ d. d.snapshots) e))
      ]

  put_tree-ok :
      (ts other : String) (claims payload : Fields) (db after : Db) (reply : Value)
      → put_tree ts claims other payload db ≡ ok (reply, after)
      → (lc : Value) × SameServed
          (record db { portals = alter portal_key other (put_layer_config lc) db.portals })
          after
  unfolding put_tree
  put_tree-ok ts other claims payload db after reply h =
      elim (Option-cases (find portal_key other db.portals)) [
        | inl missing ↦
            let h' : err (http 404) ≡ ok (reply, after) = rw (missing, put_tree) at h in cc
        | inr (portal, found) ↦
            let h' : put_portal_tree ts claims other payload portal db ≡ ok (reply, after) =
              rw (found, put_tree) at h in
            let (warnings, valid, h1) = >>=-eq-ok (validate_tree _ _) _ h' in
            let (who, named, e) = audited ts claims "tree.save" other _ _ after reply _ h1 in
            (tree_of payload, (ap (λ d. d.portals) e, ap (λ d. d.snapshots) e))
      ]

  add_grant-ok :
      (ts : String) (claims : Fields) (kind : String) (payload : Fields) (db after : Db)
      (reply : Value)
      → add_grant column ts claims kind payload db ≡ ok (reply, after)
      → (g : Grant) × (grant_row column kind payload db ≡ ok g)
        × SameServed db after
        × (after.service_roles ≡ (put_grant g db).service_roles)
  unfolding add_grant
  add_grant-ok ts claims kind payload db after reply h =
      let (g, chosen, h1) = >>=-eq-ok (grant_row column kind payload db) _ h in
      let (who, named, e) = audited ts claims _ _ _ (put_grant g db) after reply _ h1 in
      let (a, b) = put_grant-SameServed g db in
      (
        g,
        chosen,
        (ap (λ d. d.portals) e ∙ a, ap (λ d. d.snapshots) e ∙ b),
        ap (λ d. d.service_roles) e,
      )

  delete_grant-ok :
      (ts : String) (claims : Fields) (kind : String) (payload : Fields) (db after : Db)
      (reply : Value)
      → delete_grant column ts claims kind payload db ≡ ok (reply, after)
      → (g : Grant) × (grant_row column kind payload db ≡ ok g)
        × (has_grant g db ≡ true)
        × SameServed db after
        × (after.service_roles ≡ (drop_grant g db).service_roles)
  unfolding delete_grant
  delete_grant-ok ts claims kind payload db after reply h =
      let (g, chosen, h1) = >>=-eq-ok (grant_row column kind payload db) _ h in
      elim (Bool-cases (has_grant g db)) [
        | inr missing ↦ let h' : err (http 404) ≡ ok (reply, after) = rw missing at h1 in cc
        | inl there ↦
            let (who, named, e) =
              audited ts claims _ _ _ (drop_grant g db) after reply _ (rw there at h1) in
            let (a, b) = drop_grant-SameServed g db in
            (
              g,
              chosen,
              there,
              (ap (λ d. d.portals) e ∙ a, ap (λ d. d.snapshots) e ∙ b),
              ap (λ d. d.service_roles) e,
            )
      ]
