-- ===== src/Admin/Edits/Frozen.antt =====
-- A published portal serves the same source whatever is edited.
use masterportal_admin.Base.{
  ℕ, String, Bool, false, ◌==◌, Option, some, [], ◌∷◌, Result, ◌≡◌, refl, ◌∙◌,
}
use masterportal_admin.Json.{Value}
use masterportal_admin.Db.{Db, Portal, Snapshot}
use masterportal_admin.Db.Table.{find, alter}
use masterportal_admin.Source.{active_source}
use masterportal_admin.Admin.{portal_key}
use masterportal_admin.Admin.Snapshots.{new_snapshot, repoint}
use masterportal_admin.Admin.Snapshots.Publish.{
  publish-ok, find-repoint, find_snapshot-append, active_source_found,
}
use masterportal_admin.Admin.Tree.{put_layer_config}
use masterportal_admin.Admin.Edits.{
  IsPublished, Edit, published, activated, saved_tree, granted, revoked, created_portal, cloned,
  saved_config, saved_settings, switched_module, imported, deleted, patched_service, created_style,
  saved_style, deleted_style, imported_capabilities, Edits, done, step, activate-ok, put_tree-ok,
  add_grant-ok, delete_grant-ok, SameServed-IsPublished,
}
use masterportal_admin.Admin.Services.Keeps.{identity-patch_service}
use masterportal_admin.Admin.Edits.Catalog.{
  delete_portal-IsPublished, create_style-SameServed, put_style-SameServed, delete_style-SameServed,
  import_capabilities-SameServed,
}
use masterportal_admin.Admin.Edits.Portals.{
  alter-IsPublished, create_portal-IsPublished, clone_portal-IsPublished,
  put_portal_config-IsPublished, import_portal-IsPublished,
}
use masterportal_admin.Admin.Edits.Forms.{patch_settings-IsPublished, toggle_module-IsPublished}

-- The pointer of another portal was moved.
repoint-IsPublished :
    (slug other : String) (to : Option ℕ) (id : ℕ) (snap : Snapshot) (db : Db)
    → (other == slug) ≡ false
    → IsPublished slug id snap db
    → IsPublished slug id snap (repoint to other db)
repoint-IsPublished slug other to id snap db apart ((p, found, active), frozen) =
    ((p, find-repoint to other slug db.portals p found ∙ rw apart refl, active), frozen)

module _ (column : Value → Result String) (same : Value → ℕ → Bool) (slug : String) (id : ℕ)
    (snap : Snapshot) (own : snap.portal_slug ≡ slug) where
  Edit-IsPublished :
      {db after : Db}
      → Edit column same slug db after
      → IsPublished slug id snap db
      → IsPublished slug id snap after
  Edit-IsPublished (published created ts other claims reply db after apart h) p =
      let (draft, who, version, found, e) = publish-ok created ts claims other db after reply h in
      let fresh = new_snapshot created who other draft db in
      let ((row, there, active), frozen) =
        repoint-IsPublished slug other (some fresh.id) id snap db apart p in
      rw e ((row, there, active), find_snapshot-append id snap db.snapshots (fresh ∷ []) frozen)
  Edit-IsPublished (activated ts other claims payload reply db after apart h) p =
      let (to, chosen, kept) = activate-ok column same ts other claims payload db after reply h in
      SameServed-IsPublished slug id snap (repoint to other db) after kept
        (repoint-IsPublished slug other to id snap db apart p)
  Edit-IsPublished (saved_tree ts other claims payload reply db after h) p =
      let (lc, kept) = put_tree-ok column same ts other claims payload db after reply h in
      SameServed-IsPublished slug id snap
        (record db { portals = alter portal_key other (put_layer_config lc) db.portals }) after kept
        (alter-IsPublished slug id snap (put_layer_config lc) (λ r. refl) (λ r. refl) other db p)
  Edit-IsPublished (granted ts kind claims payload reply db after h) p =
      let (g, chosen, kept, roles) =
        add_grant-ok column same ts claims kind payload db after reply h in
      SameServed-IsPublished slug id snap db after kept p
  Edit-IsPublished (revoked ts kind claims payload reply db after h) p =
      let (g, chosen, there, kept, roles) =
        delete_grant-ok column same ts claims kind payload db after reply h in
      SameServed-IsPublished slug id snap db after kept p
  Edit-IsPublished (created_portal ts claims payload reply db after h) p =
      create_portal-IsPublished slug id snap ts claims payload db after reply h p
  Edit-IsPublished (cloned ts other claims payload reply db after h) p =
      clone_portal-IsPublished slug id snap ts claims other payload db after reply h p
  Edit-IsPublished (saved_config ts other claims payload reply db after h) p =
      put_portal_config-IsPublished slug id snap ts claims other payload db after reply h p
  Edit-IsPublished (saved_settings ts other claims payload db after h) p =
      rw h (patch_settings-IsPublished slug id snap ts claims other payload db p)
  Edit-IsPublished (switched_module ts other claims payload db after h) p =
      rw h (toggle_module-IsPublished slug id snap ts claims other payload db p)
  Edit-IsPublished (imported other catalog config services rest styles warnings db after h) p =
      import_portal-IsPublished slug id snap other catalog config services rest styles db after
        warnings h p
  Edit-IsPublished (deleted ts other claims reply db after apart h) p =
      delete_portal-IsPublished slug id snap ts other claims db after reply own apart h p
  Edit-IsPublished
        (patched_service bool_column text_column other_field ts key claims payload s db after h) p =
      let (old, found, kept, there, portals, snapshots) =
        identity-patch_service bool_column text_column other_field ts claims key payload db after s
          key h in
      SameServed-IsPublished slug id snap db after (portals, snapshots) p
  Edit-IsPublished (created_style ts claims payload reply db after h) p =
      SameServed-IsPublished slug id snap db after
        (create_style-SameServed ts claims payload db after reply h) p
  Edit-IsPublished (saved_style ts key claims payload reply db after h) p =
      SameServed-IsPublished slug id snap db after
        (put_style-SameServed ts key claims payload db after reply h) p
  Edit-IsPublished (deleted_style ts key claims reply db after h) p =
      SameServed-IsPublished slug id snap db after
        (delete_style-SameServed ts key claims db after reply h) p
  Edit-IsPublished
        (imported_capabilities second allow_private resolve hostname cache now base_of fetch parse
          ts claims payload reply db after h)
        p =
      SameServed-IsPublished slug id snap db after
        (import_capabilities-SameServed column second allow_private resolve hostname cache now
          base_of fetch parse ts claims payload db after reply h)
        p

  Edits-IsPublished :
      {db after : Db}
      → Edits column same slug db after
      → IsPublished slug id snap db
      → IsPublished slug id snap after
  Edits-IsPublished done p = p
  Edits-IsPublished (step e es) p = Edits-IsPublished es (Edit-IsPublished e p)

  -- Whatever sequence of changes the handlers and the import script make (publications, activations
  -- and deletions of other portals, saved trees, settings, modules and raw configurations, grants, new
  -- and copied portals, patched services, created, saved and deleted styles, imported capabilities,
  -- imported portals, this one's included): if the pointer of a portal is to a snapshot of this portal
  -- that is there, the portal still exists and serves the snapshot's content.
  pub active_source_frozen :
      (db after : Db)
      → Edits column same slug db after
      → IsPublished slug id snap db
      → (p : Portal) × (find portal_key slug after.portals ≡ some p)
        × (active_source p after ≡ snap.content)
  active_source_frozen db after es p =
      let ((row, found, active), frozen) = Edits-IsPublished es p in
      (row, found, active_source_found row after id snap active frozen)
