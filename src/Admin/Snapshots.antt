-- ===== src/Admin/Snapshots.antt =====
-- `publish`, `activate` and `list_snapshots` of app/admin.py.
pub mod Publish
use masterportal_admin.Base.{
  ℕ, suc, String, Bool, true, false, ◌==◌, ◌&&◌, not, eqb, Option, none, some, List, [], ◌∷◌, ◌++◌,
  length, keep, map, Result, ok, err, http, ◌>>=◌, if◌then◌else◌,
}
use masterportal_admin.Base.Int.{pos}
use masterportal_admin.Json.{Value, null, bool, int, obj, arr, str, Fields, end, field, of_list}
use masterportal_admin.Json.Object.{get}
use masterportal_admin.Db.{Db, Portal, Snapshot, Source}
use masterportal_admin.Db.Table.{find, alter}
use masterportal_admin.Source.{live_source, find_snapshot}
use masterportal_admin.Admin.{portal_key, actor, audit}

abbrev pub of_portal : String → List Snapshot → List Snapshot
of_portal slug rows = keep (λ (s : Snapshot). s.portal_slug == slug) rows

-- `portal.active_snapshot_id = id`
abbrev pub point_to : Option ℕ → Portal → Portal
point_to id p = record p { active_snapshot_id = id }

-- `Snapshot(…)`, with the id that the flush gives it.
abbrev pub new_snapshot : String → Value → String → Portal → Db → Snapshot
new_snapshot created who slug portal db = record {
  id = db.next_snapshot;
  portal_slug = slug;
  version = suc (length (of_portal slug db.snapshots));
  created_ts = created;
  created_by = who;
  content = live_source portal db;
}

-- The tables after `db.add(snap)`, the flush and the assignment of the pointer.
abbrev pub with_snapshot : Snapshot → String → Db → Db
with_snapshot snap slug db = record db {
  snapshots = db.snapshots ++ snap ∷ [];
  next_snapshot = suc db.next_snapshot;
  portals = alter portal_key slug (point_to (some snap.id)) db.portals;
}

abbrev pub publish_portal : String → String → Fields → String → Portal → Db → Result (Value × Db)
publish_portal created ts claims slug portal db = do
  who ← actor claims
  let snap = new_snapshot created who slug portal db
  let version = int (pos snap.version)
  after ←
      audit ts claims "portal.publish" slug (field "version" version end)
        (with_snapshot snap slug db)
  ok (obj (field "version" version (field "active" (bool true) end)), after)

unfoldable pub publish : String → String → Fields → String → Db → Result (Value × Db)
publish created ts claims slug db = elim (find portal_key slug db.portals) [
  | none ↦ err (http 404)
  | some portal ↦ publish_portal created ts claims slug portal db
]

-- `.filter(…).first()`; `same` is the database's comparison of a version with a value.
unfoldable pub find_version : (Value → ℕ → Bool) → String → Value → List Snapshot → Option Snapshot
find_version same slug version [] = none
find_version same slug version (s ∷ rows) =
    if s.portal_slug == slug && same version s.version
    then some s
    else find_version same slug version rows

-- The pointer that `payload.get("version")` asks for: none for no version or a null.
unfoldable pub target_of :
    (Value → ℕ → Bool) → String → Option Value → List Snapshot → Result (Option ℕ)
target_of same slug none rows = ok none
target_of same slug (some null) rows = ok none
target_of same slug (some version) rows = elim (find_version same slug version rows) [
  | none ↦ err (http 404)
  | some snap ↦ ok (some snap.id)
]

abbrev pub or_null : Option Value → Value
or_null none = null
or_null (some v) = v

abbrev pub repoint : Option ℕ → String → Db → Db
repoint id slug db = record db { portals = alter portal_key slug (point_to id) db.portals }

abbrev pub activate_portal :
    (Value → ℕ → Bool) → String → Fields → String → Fields → Db → Result (Value × Db)
activate_portal same ts claims slug payload db = do
  id ← target_of same slug (get "version" payload) db.snapshots
  let version = or_null (get "version" payload)
  after ← audit ts claims "portal.activate" slug (field "version" version end) (repoint id slug db)
  ok (obj (field "active_version" version end), after)

unfoldable pub activate :
    (Value → ℕ → Bool) → String → Fields → String → Fields → Db → Result (Value × Db)
activate same ts claims slug payload db = elim (find portal_key slug db.portals) [
  | none ↦ err (http 404)
  | some portal ↦ activate_portal same ts claims slug payload db
]

-- `.order_by(version.desc())`
insert_newest : Snapshot → List Snapshot → List Snapshot
insert_newest s [] = s ∷ []
insert_newest s (q ∷ rows) =
    let rest = insert_newest s rows in
    elim (Prim.Native.Nat.compare q.version s.version) [
      | Prim.Native.Nat.Ordering.gt ↦ q ∷ rest
      | _ ↦ s ∷ q ∷ rows
    ]

unfoldable pub newest_first : List Snapshot → List Snapshot
unfolding insert_newest
newest_first [] = []
newest_first (s ∷ rows) = insert_newest s (newest_first rows)

-- `s.id == portal.active_snapshot_id`
abbrev pub is_active : Portal → Snapshot → Bool
is_active portal s = elim portal.active_snapshot_id [ none ↦ false | some id ↦ eqb s.id id ]

unfoldable pub first_active : Portal → List Snapshot → Option Snapshot
first_active portal [] = none
first_active portal (s ∷ rows) = if is_active portal s then some s else first_active portal rows

-- The response; `differs` is `!=` of two sources.
unfoldable pub list_snapshots : (Source → Source → Bool) → String → Db → Result Value
unfolding first_active newest_first
list_snapshots differs slug db = elim (find portal_key slug db.portals) [
  | none ↦ err (http 404)
  | some portal ↦
      let snaps = newest_first (of_portal slug db.snapshots) in
      let active = first_active portal snaps in
      ok (
        obj (
          field "active_version" (elim active [ none ↦ null | some s ↦ int (pos s.version) ])
            (field "draft_dirty"
              (bool
                (elim active [ none ↦ true | some s ↦ differs s.content (live_source portal db) ]))
              (field "snapshots"
                (arr (
                  of_list (
                    map
                      (λ (s : Snapshot). obj (
                        field "version" (int (pos s.version)) (
                          field "created_ts" (str s.created_ts) (
                            field "created_by" s.created_by
                              (field "active" (bool (is_active portal s)) end)))))
                      snaps)))
                end))))
]
