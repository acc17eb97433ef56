-- ===== src/Admin/Edits/Portals.antt =====
-- What the editing of portals leaves of a published one.
use masterportal_admin.Base.{
  ℕ, String, not, ◌==◌, eq_iff, none, some, List, ok, err, http, >>=-eq-ok, ◌≡◌, refl, sym, ap, ◌∙◌,
  Bool-cases, Option-cases, inl, inr,
}
use masterportal_admin.Json.{Value, Fields}
use masterportal_admin.Json.Object.{get}
use masterportal_admin.Db.{Db, Portal, Snapshot}
use masterportal_admin.Db.Table.{find, alter, add, find-alter, find-add}
use masterportal_admin.Source.{find_snapshot}
use masterportal_admin.Admin.{portal_key}
use masterportal_admin.Admin.Audit.{audited}
use masterportal_admin.Admin.Portals.{
  is_slug, text_or, check_slug, new_portal, create_portal, put_config, config_of,
  validate_portal_config, put_known_config, put_portal_config,
}
use masterportal_admin.Admin.Settings.{copied, retitled, clone_known, clone_portal}
use masterportal_admin.Import.{Warning, import_portal}
use masterportal_admin.Import.Keeps.{import_portal-ok, merge_portal-pointer}
use masterportal_admin.Admin.Edits.{IsPublished, SameServed-IsPublished}

check_slug-ok :
    (slug : String) (db : Db) → check_slug slug db ≡ ok tt → find portal_key slug db.portals ≡ none
check_slug-ok slug db h = elim (Bool-cases (not (is_slug slug))) [
  | inl bad ↦ let h' : err (http 422) ≡ ok tt = rw bad at h in cc
  | inr good ↦ elim (Option-cases (find portal_key slug db.portals)) [
    | inl free ↦ free
    | inr (p, taken) ↦ let h' : err (http 409) ≡ ok tt = rw (good, taken) at h in cc
  ]
]

module _ (slug : String) (id : ℕ) (snap : Snapshot) where
  -- Rows of one slug that are changed, but for their key and their pointer.
  pub alter-IsPublished :
      (f : Portal → Portal)
      → ((r : Portal) → portal_key (f r) ≡ portal_key r)
      → ((r : Portal) → (f r).active_snapshot_id ≡ r.active_snapshot_id)
      → (other : String) (db : Db) → IsPublished slug id snap db
      → IsPublished slug id snap (record db { portals = alter portal_key other f db.portals })
  alter-IsPublished f key_kept pointer_kept other db ((p, found, active), frozen) =
      let moved = find-alter portal_key f key_kept other slug db.portals in
      elim (Bool-cases (other == slug)) [
        | inr apart ↦ ((p, moved ∙ rw (apart, found) refl, active), frozen)
        | inl own ↦ ((f p, moved ∙ rw (own, found) refl, pointer_kept p ∙ active), frozen)
      ]

  -- A row under a slug that is free.
  add-IsPublished :
      (q : Portal) (db : Db)
      → find portal_key q.slug db.portals ≡ none
      → IsPublished slug id snap db
      → IsPublished slug id snap (record db { portals = add portal_key q db.portals })
  add-IsPublished q db free ((p, found, active), frozen) =
      let moved = find-add portal_key slug q db.portals free in
      elim (Bool-cases (q.slug == slug)) [
        | inr apart ↦ ((p, moved ∙ rw (apart, found) refl, active), frozen)
        | inl own ↦
            let taken : none ≡ some p =
              sym free
              ∙ ap (λ k. find portal_key k db.portals) ((eq_iff q.slug slug).0 own)
              ∙ found in
            cc
      ]

  pub create_portal-IsPublished :
      (ts : String) (claims payload : Fields) (db after : Db) (reply : Value)
      → create_portal ts claims payload db ≡ ok (reply, after)
      → IsPublished slug id snap db
      → IsPublished slug id snap after
  unfolding create_portal
  create_portal-IsPublished ts claims payload db after reply h p =
      let (s, h1, h2) = >>=-eq-ok (text_or "" (get "slug" payload)) _ h in
      let (title, h3, h4) = >>=-eq-ok (text_or s (get "title" payload)) _ h2 in
      let (catalog, h5, h6) = >>=-eq-ok (text_or s (get "catalog" payload)) _ h4 in
      let (free, h7, h8) = >>=-eq-ok (check_slug s db) _ h6 in
      let (note, h9, h10) = >>=-eq-ok (text_or "" (get "description" payload)) _ h8 in
      let q = new_portal s catalog title note in
      let added : Db = record db { portals = add portal_key q db.portals } in
      let (who, named, e) = audited ts claims "portal.create" s _ added after reply _ h10 in
      SameServed-IsPublished slug id snap added after
        (ap (λ d. d.portals) e, ap (λ d. d.snapshots) e)
        (add-IsPublished q db (check_slug-ok s db h7) p)

  pub clone_portal-IsPublished :
      (ts : String) (claims : Fields) (other : String) (payload : Fields) (db after : Db)
      (reply : Value)
      → clone_portal ts claims other payload db ≡ ok (reply, after)
      → IsPublished slug id snap db
      → IsPublished slug id snap after
  unfolding clone_portal
  clone_portal-IsPublished ts claims other payload db after reply h p =
      elim (Option-cases (find portal_key other db.portals)) [
        | inl missing ↦
            let h' : err (http 404) ≡ ok (reply, after) = rw (missing, clone_portal) at h in cc
        | inr (source, found) ↦
            let h' : clone_known ts claims other payload source db ≡ ok (reply, after) =
              rw (found, clone_portal) at h in
            let (s, h1, h2) = >>=-eq-ok (text_or "" (get "slug" payload)) _ h' in
            let (free, h3, h4) = >>=-eq-ok (check_slug s db) _ h2 in
            let (config, h5, h6) =
              >>=-eq-ok (retitled (get "title" payload) source.portal_config) _ h4 in
            let q = copied s config source in
            let added : Db = record db { portals = add portal_key q db.portals } in
            let (who, named, e) = audited ts claims "portal.clone" s _ added after reply _ h6 in
            SameServed-IsPublished slug id snap added after
              (ap (λ d. d.portals) e, ap (λ d. d.snapshots) e)
              (add-IsPublished q db (check_slug-ok s db h3) p)
      ]

  pub put_portal_config-IsPublished :
      (ts : String) (claims : Fields) (other : String) (payload : Fields) (db after : Db)
      (reply : Value)
      → put_portal_config ts claims other payload db ≡ ok (reply, after)
      → IsPublished slug id snap db
      → IsPublished slug id snap after
  unfolding put_portal_config
  put_portal_config-IsPublished ts claims other payload db after reply h p =
      elim (Option-cases (find portal_key other db.portals)) [
        | inl missing ↦
            let h' : err (http 404) ≡ ok (reply, after) = rw (missing, put_portal_config) at h in cc
        | inr (row, found) ↦
            let h' : put_known_config ts claims other payload db ≡ ok (reply, after) =
              rw (found, put_portal_config) at h in
            let (warnings, valid, h1) =
              >>=-eq-ok (validate_portal_config (config_of payload)) _ h' in
            let changed : Db = record db {
              portals = alter portal_key other (put_config (config_of payload)) db.portals;
            } in
            let (who, named, e) =
              audited ts claims "portal.rawconfig" other _ changed after reply _ h1 in
            SameServed-IsPublished slug id snap changed after
              (ap (λ d. d.portals) e, ap (λ d. d.snapshots) e)
              (alter-IsPublished (put_config (config_of payload)) (λ r. refl) (λ r. refl) other db
                p)
      ]

  pub import_portal-IsPublished :
      (other catalog : String) (config : Value) (services rest styles : List Value) (db after : Db)
      (warnings : List Warning)
      → import_portal other catalog config services rest styles db ≡ ok (warnings, after)
      → IsPublished slug id snap db
      → IsPublished slug id snap after
  import_portal-IsPublished other catalog config services rest styles db after warnings h
        ((p, found, active), frozen) =
      let (pc, lc, ran, portals, snapshots) =
        import_portal-ok other catalog config services rest styles db after warnings h in
      let (q, there, pointer, note) =
        merge_portal-pointer other catalog slug pc lc p db.portals found in
      (
        (q, ap (find portal_key slug) portals ∙ there, pointer ∙ active),
        ap (find_snapshot id) snapshots ∙ frozen,
      )
