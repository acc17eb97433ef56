-- ===== src/Admin/Snapshots/Publish.antt =====
-- What publishing and activating make a portal serve.
use masterportal_admin.Base.{
  ℕ, suc, ◌<◌, String, ◌==◌, eq_refl, Option, some, List, [], ◌∷◌, ◌++◌, length, All, All-append,
  ok, err, http, >>=-eq-ok, ok-injective, if◌then◌else◌, ◌≡◌, refl, sym, ◌∙◌, arith, Option-cases,
  inl, inr,
}
use masterportal_admin.Base.Int.{pos}
use masterportal_admin.Json.{Value, int, Fields, end, field}
use masterportal_admin.Db.{Db, Portal, Snapshot}
use masterportal_admin.Db.Table.{find, alter, find-alter}
use masterportal_admin.Source.{live_source, active_source, find_snapshot}
use masterportal_admin.Admin.{portal_key, actor}
use masterportal_admin.Admin.Audit.{logged, audited}
use masterportal_admin.Admin.Snapshots.{
  of_portal, point_to, new_snapshot, with_snapshot, publish_portal, publish,
}

-- No snapshot has an id that the sequence has still to give.
abbrev pub IsNumbered : Db → Type 0
IsNumbered db = All (λ (s : Snapshot). s.id < db.next_snapshot) db.snapshots

pub find_snapshot-append :
    (id : ℕ) (snap : Snapshot) (rows more : List Snapshot)
    → find_snapshot id rows ≡ some snap
    → find_snapshot id (rows ++ more) ≡ some snap
unfolding find_snapshot
find_snapshot-append id snap [] more h = cc
find_snapshot-append id snap (s ∷ rows) more h =
    ground (arith, find_snapshot-append id snap rows more)

find_snapshot_new :
    (snap : Snapshot) (rows : List Snapshot)
    → All (λ (s : Snapshot). s.id < snap.id) rows
    → find_snapshot snap.id (rows ++ snap ∷ []) ≡ some snap
unfolding find_snapshot
find_snapshot_new snap [] h = ground arith
find_snapshot_new snap (s ∷ rows) (p, h) = ground (arith, find_snapshot_new snap rows h)

All-later :
    (n : ℕ) (rows : List Snapshot)
    → All (λ (s : Snapshot). s.id < n) rows
    → All (λ (s : Snapshot). s.id < suc n) rows
All-later n [] h = tt
All-later n (s ∷ rows) (p, h) = (omega arith, All-later n rows h)

pub active_source_found :
    (p : Portal) (db : Db) (id : ℕ) (snap : Snapshot)
    → p.active_snapshot_id ≡ some id
    → find_snapshot id db.snapshots ≡ some snap
    → active_source p db ≡ snap.content
unfolding active_source
active_source_found p db id snap e found = rw (e, active_source) (rw found refl)

-- The portal's row after its pointer was set.
pub find-repoint :
    (id : Option ℕ) (slug other : String) (portals : List Portal) (p : Portal)
    → find portal_key other portals ≡ some p
    → find portal_key other (alter portal_key slug (point_to id) portals)
      ≡ some (if slug == other then point_to id p else p)
find-repoint id slug other portals p found =
    find-alter portal_key (point_to id) (λ r. refl) slug other portals ∙ rw found (ground arith)

-- The tables that a publication leaves.
pub publish-ok :
    (created ts : String) (claims : Fields) (slug : String) (db after : Db) (reply : Value)
    → publish created ts claims slug db ≡ ok (reply, after)
    → (portal : Portal) × (who : Value) × (version : Fields) × (find portal_key slug db.portals
        ≡ some portal)
      × (after
          ≡ logged ts who "portal.publish" slug version
              (with_snapshot (new_snapshot created who slug portal db) slug db))
unfolding publish
publish-ok created ts claims slug db after reply h =
    elim (Option-cases (find portal_key slug db.portals)) [
      | inl missing ↦ let h' : err (http 404) ≡ ok (reply, after) = rw (missing, publish) at h in cc
      | inr (portal, found) ↦
          let h' : publish_portal created ts claims slug portal db ≡ ok (reply, after) =
            rw (found, publish) at h in
          let (who, named, h1) = >>=-eq-ok (actor claims) _ h' in
          let (who', named', e) = audited ts claims "portal.publish" slug _ _ after reply _ h1 in
          let same : who' ≡ who = ok-injective (sym named' ∙ named) in
          (
            portal,
            who,
            field "version" (int (pos (suc (length (of_portal slug db.snapshots))))) end,
            found,
            rw same at e,
          )
    ]

-- After a publication, the portal serves what its draft and catalog were before it, and the numbering
-- of the snapshots still holds.
pub active_source-publish :
    (created ts : String) (claims : Fields) (slug : String) (db after : Db) (reply : Value)
    → publish created ts claims slug db ≡ ok (reply, after)
    → IsNumbered db
    → (draft : Portal) × (published : Portal) × (find portal_key slug db.portals ≡ some draft)
      × (find portal_key slug after.portals ≡ some published)
      × (active_source published after ≡ live_source draft db)
      × IsNumbered after
active_source-publish created ts claims slug db after reply h numbered =
    let (draft, who, version, found, e) = publish-ok created ts claims slug db after reply h in
    let snap = new_snapshot created who slug draft db in
    let moved : find portal_key slug (alter portal_key slug (point_to (some snap.id)) db.portals)
        ≡ some (point_to (some snap.id) draft) =
      find-repoint (some snap.id) slug slug db.portals draft found ∙ rw (eq_refl slug) refl in
    let there : find_snapshot snap.id (db.snapshots ++ snap ∷ []) ≡ some snap =
      find_snapshot_new snap db.snapshots numbered in
    rw e (
      draft,
      point_to (some snap.id) draft,
      found,
      moved,
      active_source_found (point_to (some snap.id) draft) _ snap.id snap refl there,
      All-append (λ (s : Snapshot). s.id < suc db.next_snapshot) db.snapshots (snap ∷ [])
          (All-later db.next_snapshot db.snapshots numbered) (omega arith, tt),
    )
