-- ===== src/Admin/Edits/Catalog.antt =====
-- What the deletion of another portal and the edits of services and styles leave of a published portal.
use masterportal_admin.Base.{
  ℕ, String, Bool, true, false, not, ◌==◌, eq_iff, leb, length, keep, Option, some, List, [], ◌∷◌,
  Result, ok, err, http, >>=-eq-ok, ok-injective, ◌≡◌, refl, sym, ap, ◌∙◌, arith, Bool-cases,
  Option-cases, inl, inr,
}
use masterportal_admin.Json.{Value, Fields}
use masterportal_admin.Json.Object.{get}
use masterportal_admin.Db.{Db, Snapshot, scoped_key}
use masterportal_admin.Db.Table.{find, find-delete}
use masterportal_admin.Source.{find_snapshot}
use masterportal_admin.Proxy.Upstream.{Address, HostCache, assert_allowed_upstream}
use masterportal_admin.Admin.{portal_key, actor, audit, item}
use masterportal_admin.Admin.Audit.{audited}
use masterportal_admin.Admin.Portals.{text_or, without_portal, delete_known, delete_portal}
use masterportal_admin.Admin.Styles.{
  style_key, value_or_null, sid, check_new, validate_style, attrs_or_template, create_style,
  put_known_style, put_style, delete_known_style, delete_style,
}
use masterportal_admin.Admin.Capabilities.{
  Element, check_url, fetch_document, saved, dry_run_of, layer_entries, version_of,
  import_capabilities,
}
use masterportal_admin.Admin.Edits.{IsPublished, SameServed}

find_snapshot-keep :
    (p : Snapshot → Bool) (id : ℕ) (rows : List Snapshot) (s : Snapshot)
    → find_snapshot id rows ≡ some s
    → p s ≡ true
    → find_snapshot id (keep p rows) ≡ some s
unfolding find_snapshot
find_snapshot-keep p id [] s h kept = cc
find_snapshot-keep p id (r ∷ rows) s h kept = ground (arith, find_snapshot-keep p id rows s)

logged-SameServed :
    (ts : String) (claims : Fields) (action target : String) (detail : Fields) (db after : Db)
    → audit ts claims action target detail db ≡ ok after
    → SameServed db after
unfolding audit
logged-SameServed ts claims action target detail db after h =
    let (who, named, h1) = >>=-eq-ok (actor claims) _ h in
    (ap (λ d. d.portals) (sym (ok-injective h1)), ap (λ d. d.snapshots) (sym (ok-injective h1)))

-- The snapshots of a portal have its slug.
pub delete_portal-IsPublished :
    (slug : String) (id : ℕ) (snap : Snapshot) (ts other : String) (claims : Fields) (db after : Db)
    (reply : Value)
    → snap.portal_slug ≡ slug
    → (other == slug) ≡ false
    → delete_portal ts claims other db ≡ ok (reply, after)
    → IsPublished slug id snap db
    → IsPublished slug id snap after
unfolding delete_portal
delete_portal-IsPublished slug id snap ts other claims db after reply own apart h
      ((p, there, active), frozen) =
    elim (Option-cases (find portal_key other db.portals)) [
      | inl missing ↦
          let h' : err (http 404) ≡ ok (reply, after) = rw (missing, delete_portal) at h in cc
      | inr (row, found) ↦
          let h1 : delete_known ts claims other db ≡ ok (reply, after) =
            rw (found, delete_portal) at h in
          elim (Bool-cases (leb (length db.portals) 1)) [
            | inl last ↦
                let h' : err (http 409) ≡ ok (reply, after) = rw (last, delete_known) at h1 in cc
            | inr more ↦
                let (who, named, e) =
                  audited ts claims "portal.delete" other _ (without_portal other db) after reply _
                    (rw (more, delete_known) at h1) in
                let foreign : (snap.portal_slug == other) ≡ false =
                  rw own (ground (arith, eq_iff other slug, eq_iff slug other)) in
                (
                  (
                    p,
                    ap (λ d. find portal_key slug d.portals) e
                        ∙ find-delete portal_key other slug db.portals
                        ∙ rw (apart, there) refl,
                    active,
                  ),
                  ap (λ d. find_snapshot id d.snapshots) e
                      ∙ find_snapshot-keep (λ s. not (s.portal_slug == other)) id db.snapshots snap
                          frozen (rw foreign refl),
                )
          ]
    ]

pub create_style-SameServed :
    (ts : String) (claims payload : Fields) (db after : Db) (reply : Value)
    → create_style ts claims payload db ≡ ok (reply, after)
    → SameServed db after
unfolding create_style
create_style-SameServed ts claims payload db after reply h =
    let (catalog, h1, h2) = >>=-eq-ok (text_or "" (get "catalog" payload)) _ h in
    let (style_id, h3, h4) = >>=-eq-ok (text_or "" (get "styleId" payload)) _ h2 in
    let (free, h5, h6) = >>=-eq-ok (check_new catalog style_id db) _ h4 in
    let (attrs, h7, h8) = >>=-eq-ok (validate_style (attrs_or_template style_id payload) _) _ h6 in
    let (who, named, e) =
      audited ts claims "style.create" (scoped_key catalog style_id) _ _ after reply _ h8 in
    (ap (λ d. d.portals) e, ap (λ d. d.snapshots) e)

pub put_style-SameServed :
    (ts key : String) (claims payload : Fields) (db after : Db) (reply : Value)
    → put_style ts claims key payload db ≡ ok (reply, after)
    → SameServed db after
unfolding put_style
put_style-SameServed ts key claims payload db after reply h =
    elim (Option-cases (find style_key key db.styles)) [
      | inl missing ↦
          let h' : err (http 404) ≡ ok (reply, after) = rw (missing, put_style) at h in cc
      | inr (style, found) ↦
          let h1 : put_known_style ts claims key payload db style ≡ ok (reply, after) =
            rw (found, put_style) at h in
          let (attrs, h2, h3) =
            >>=-eq-ok (validate_style (value_or_null (get "attrs" payload)) (sid style)) _ h1 in
          let (who, named, e) = audited ts claims "style.update" key _ _ after reply _ h3 in
          (ap (λ d. d.portals) e, ap (λ d. d.snapshots) e)
    ]

pub delete_style-SameServed :
    (ts key : String) (claims : Fields) (db after : Db) (reply : Value)
    → delete_style ts claims key db ≡ ok (reply, after)
    → SameServed db after
unfolding delete_style
delete_style-SameServed ts key claims db after reply h =
    elim (Option-cases (find style_key key db.styles)) [
      | inl missing ↦
          let h' : err (http 404) ≡ ok (reply, after) = rw (missing, delete_style) at h in cc
      | inr (style, found) ↦
          let h1 : delete_known_style ts claims key db style ≡ ok (reply, after) =
            rw (found, delete_style) at h in
          let (who, named, e) = audited ts claims "style.delete" key _ _ after reply _ h1 in
          (ap (λ d. d.portals) e, ap (λ d. d.snapshots) e)
    ]

module _ (column : Value → Result String) (second : ℕ) (allow_private : Bool)
    (resolve : String → Option (List Address)) (hostname : String → Option String)
    (cache : HostCache) (now : ℕ) (base_of : String → String)
    (fetch : String → Option (List (List ℕ))) (parse : List ℕ → Option Element) where
  saved-SameServed :
      (ts : String) (claims : Fields) (dry : Bool) (base : String) (catalog : Value)
      (entries : List (String × Fields)) (db after : Db)
      → saved column second allow_private resolve hostname cache now base_of fetch parse ts claims
          dry base catalog entries db
        ≡ ok after
      → SameServed db after
  saved-SameServed ts claims true base catalog entries db after h =
      (ap (λ d. d.portals) (sym (ok-injective h)), ap (λ d. d.snapshots) (sym (ok-injective h)))
  saved-SameServed ts claims false base catalog entries db after h =
      let (text, read, h1) = >>=-eq-ok (column catalog) _ h in
      logged-SameServed ts claims "capabilities.import" base _ _ after h1

  pub import_capabilities-SameServed :
      (ts : String) (claims payload : Fields) (db after : Db) (reply : Value)
      → import_capabilities column second allow_private resolve hostname cache now base_of fetch
          parse ts claims payload db
        ≡ ok (reply, after)
      → SameServed db after
  unfolding import_capabilities
  import_capabilities-SameServed ts claims payload db after reply h =
      let (address, h1, h2) = >>=-eq-ok (item "url" payload) _ h in
      let (catalog, h3, h4) = >>=-eq-ok (item "catalog" payload) _ h2 in
      let (url, h5, h6) = >>=-eq-ok (check_url address) _ h4 in
      let (public, h7, h8) =
        >>=-eq-ok ((assert_allowed_upstream second allow_private resolve hostname cache now url).0)
          _ h6 in
      let (root, h9, h10) =
        >>=-eq-ok
          (fetch_document column second allow_private resolve hostname cache now base_of fetch parse
            (base_of url))
          _ h8 in
      let (next, h11, h12) =
        >>=-eq-ok
          (saved column second allow_private resolve hostname cache now base_of fetch parse ts
            claims (dry_run_of payload) (base_of url) catalog
            (layer_entries _ (base_of url) (version_of root) root) db)
          _ h10 in
      let e : next ≡ after = ap (λ r. r.1) (ok-injective h12) in
      saved-SameServed ts claims (dry_run_of payload) (base_of url) catalog _ db after
        (h11 ∙ ap ok e)
