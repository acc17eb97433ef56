-- ===== src/Admin/Edits/Forms.antt =====
-- What the settings form and the module switch leave of a published portal.
use masterportal_admin.Base.{
  ℕ, String, ◌==◌, eq_iff, Option, none, some, Result, ok, err, >>=-eq-ok, ok-injective, ◌≡◌, refl,
  sym, ap, ◌∙◌, Bool-cases, Option-cases, inl, inr,
}
use masterportal_admin.Json.{Value, Fields}
use masterportal_admin.Json.Object.{get}
use masterportal_admin.Db.{Db, Portal, Snapshot}
use masterportal_admin.Db.Table.{find, find-alter_row, key-find}
use masterportal_admin.Admin.{portal_key, actor, audit}
use masterportal_admin.Admin.Portals.{text_or}
use masterportal_admin.Admin.Settings.{
  with_row, check_mode, described, patched, patch_tables, answered_row, patch_settings, toggled,
  as_unprocessable, toggle_detail, toggle_tables, toggle_module,
}
use masterportal_admin.PortalConfig.Form.{apply_settings}
use masterportal_admin.Admin.Edits.{IsPublished, SameServed, SameServed-IsPublished}

-- What the audit log adds to the tables serves the same.
audit-SameServed :
    (ts : String) (claims : Fields) (action target : String) (detail : Fields) (db after : Db)
    → audit ts claims action target detail db ≡ ok after
    → SameServed db after
unfolding audit
audit-SameServed ts claims action target detail db after h =
    let (who, named, h1) = >>=-eq-ok (actor claims) _ h in
    (ap (λ d. d.portals) (sym (ok-injective h1)), ap (λ d. d.snapshots) (sym (ok-injective h1)))

-- The changed row has the slug and the pointer that it had.
abbrev KeepsPointer : Portal → Portal → Type 0
KeepsPointer row q = (q.slug ≡ row.slug) × (q.active_snapshot_id ≡ row.active_snapshot_id)

some-injective : {a b : Portal} → some a ≡ some b → a ≡ b
some-injective h = cc

described-KeepsPointer :
    (o : Option Value) (row q : Portal) → described o row ≡ ok q → KeepsPointer row q
described-KeepsPointer none row q h = rw (sym (ok-injective h)) (refl, refl)
described-KeepsPointer (some v) row q h =
    let (text, h1, h2) = >>=-eq-ok (text_or "" (some v)) _ h in
    rw (sym (ok-injective h2)) (refl, refl)

patched-KeepsPointer :
    (payload : Fields) (row q : Portal) → patched payload row ≡ ok q → KeepsPointer row q
unfolding patched
patched-KeepsPointer payload row q h =
    let (checked, h1, h2) = >>=-eq-ok (check_mode payload) _ h in
    let (noted, h3, h4) = >>=-eq-ok (described (get "description" payload) row) _ h2 in
    let (config, h5, h6) = >>=-eq-ok (apply_settings noted.portal_config payload) _ h4 in
    rw (sym (ok-injective h6)) (described-KeepsPointer (get "description" payload) row noted h3)

module _ (slug : String) (id : ℕ) (snap : Snapshot) where
  -- The row of a portal that a form changed, with its slug and its pointer.
  with_row-IsPublished :
      (other : String) (q row : Portal) (db : Db)
      → find portal_key other db.portals ≡ some row
      → KeepsPointer row q
      → IsPublished slug id snap db
      → IsPublished slug id snap (with_row other q db)
  with_row-IsPublished other q row db there (named, pointer) ((p, found, active), frozen) =
      let moved =
        find-alter_row portal_key q other slug db.portals
          (named ∙ key-find portal_key other db.portals row there) in
      elim (Bool-cases (other == slug)) [
        | inr apart ↦ ((p, moved ∙ rw (apart, found) refl, active), frozen)
        | inl own ↦
            let same : some row ≡ some p =
              sym there
              ∙ ap (λ k. find portal_key k db.portals) ((eq_iff other slug).0 own)
              ∙ found in
            (
              (
                q,
                moved ∙ rw (own, found) refl,
                pointer ∙ ap (λ r. r.active_snapshot_id) (some-injective same) ∙ active,
              ),
              frozen,
            )
      ]

  -- The answer of a form that was saved, or was not.
  answered_row-IsPublished :
      (other : String) (row : Portal) (r : Result (Portal × Db)) (db : Db)
      → find portal_key other db.portals ≡ some row
      → ((q : Portal) (next : Db)
          → r ≡ ok (q, next)
          → KeepsPointer row q × SameServed (with_row other q db) next)
      → IsPublished slug id snap db
      → IsPublished slug id snap (answered_row db r).1
  answered_row-IsPublished other row (err e) db there saved p = p
  answered_row-IsPublished other row (ok (q, next)) db there saved p =
      let (kept, same) = saved q next refl in
      SameServed-IsPublished slug id snap (with_row other q db) next same
        (with_row-IsPublished other q row db there kept p)

  pub patch_settings-IsPublished :
      (ts : String) (claims : Fields) (other : String) (payload : Fields) (db : Db)
      → IsPublished slug id snap db
      → IsPublished slug id snap (patch_settings ts claims other payload db).1
  unfolding patch_settings
  patch_settings-IsPublished ts claims other payload db p =
      elim (Option-cases (find portal_key other db.portals)) [
        | inl missing ↦ rw (missing, patch_settings) p
        | inr (row, found) ↦
            rw (found, patch_settings)
              (answered_row-IsPublished other row (patch_tables ts claims other payload row db) db
                found
                (λ q next h.
                  let (q', h1, h2) = >>=-eq-ok (patched payload row) _ h in
                  let (next', h3, h4) =
                    >>=-eq-ok (audit ts claims "portal.settings" other _ (with_row other q' db)) _
                      h2 in
                  let kept =
                    audit-SameServed ts claims "portal.settings" other _ (with_row other q' db)
                      next' h3 in
                  rw (sym (ap (λ x. x.0) (ok-injective h4)), sym (ap (λ x. x.1) (ok-injective h4)))
                    (patched-KeepsPointer payload row q' h1, kept))
                p)
      ]

  pub toggle_module-IsPublished :
      (ts : String) (claims : Fields) (other : String) (payload : Fields) (db : Db)
      → IsPublished slug id snap db
      → IsPublished slug id snap (toggle_module ts claims other payload db).1
  unfolding toggle_module
  toggle_module-IsPublished ts claims other payload db p =
      elim (Option-cases (find portal_key other db.portals)) [
        | inl missing ↦ rw (missing, toggle_module) p
        | inr (row, found) ↦
            rw (found, toggle_module)
              (answered_row-IsPublished other row (toggle_tables ts claims other payload row db) db
                found
                (λ q next h.
                  let (config, h1, h2) =
                    >>=-eq-ok (as_unprocessable (toggled payload row.portal_config)) _ h in
                  let (detail, h3, h4) = >>=-eq-ok (toggle_detail payload) _ h2 in
                  let changed : Portal = record row { portal_config = config } in
                  let (next', h5, h6) =
                    >>=-eq-ok
                      (audit ts claims "portal.module" other detail (with_row other changed db)) _
                      h4 in
                  let kept =
                    audit-SameServed ts claims "portal.module" other detail
                      (with_row other changed db) next' h5 in
                  rw (sym (ap (λ x. x.0) (ok-injective h6)), sym (ap (λ x. x.1) (ok-injective h6)))
                    ((refl, refl), kept))
                p)
      ]
