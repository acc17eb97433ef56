-- ===== src/Source.antt =====
-- app/configsrc.py: the draft or the active snapshot of a portal, and what a caller gets of it.
pub mod Legend
pub mod Grants
pub mod Render
mod Tests
use masterportal_admin.Base.{
  ℕ, String, Bool, ◌==◌, eqb, Option, none, some, List, [], ◌∷◌, map, keep, if◌then◌else◌,
}
use masterportal_admin.Base.Dict
use masterportal_admin.Json.{obj}
use masterportal_admin.Db.{Service, RestService, Style, Portal, Snapshot, SourceService, Source, Db}
use masterportal_admin.Db.Query.{order_by, dict_of}

abbrev pub frozen_service : Service → SourceService
frozen_service s = record {
  key = s.key;
  external_id = s.external_id;
  attrs = s.attrs;
  is_public = s.is_public;
}

-- The portal's current draft and catalog, in the form that a snapshot freezes.
unfoldable pub live_source : Portal → Db → Source
live_source portal db = record {
  portal_config = portal.portal_config;
  layer_config = portal.layer_config;
  services =
      map frozen_service
        (order_by (λ s. s.position) (keep (λ s. s.catalog == portal.catalog) db.services));
  styles =
      map (λ (s : Style). obj s.attrs)
        (order_by (λ s. s.position) (keep (λ s. s.catalog == portal.catalog) db.styles));
  rest_services =
      map (λ (r : RestService). r.attrs)
        (order_by (λ r. r.position) (keep (λ r. r.catalog == portal.catalog) db.rest_services));
}

-- `db.get(Snapshot, id)`
unfoldable pub find_snapshot : ℕ → List Snapshot → Option Snapshot
find_snapshot id [] = none
find_snapshot id (s ∷ rows) = if eqb s.id id then some s else find_snapshot id rows

-- What portal users receive: the active snapshot, or the live draft. A pointer to a snapshot that
-- is gone falls back to the draft.
unfoldable pub active_source : Portal → Db → Source
unfolding find_snapshot
active_source portal db = elim portal.active_snapshot_id [
  | none ↦ live_source portal db
  | some id ↦ elim (find_snapshot id db.snapshots) [
    | none ↦ live_source portal db
    | some snap ↦ snap.content
  ]
]

-- Overlays the live `is_public` of each service of the catalog onto a source.
unfoldable pub with_live_access : Source → Db → String → Source
with_live_access source db catalog =
    let live =
      dict_of (λ (s : Service). s.key) (λ s. s.is_public) []
        (keep (λ s. s.catalog == catalog) db.services) in
    record source {
      services =
          map (λ (s : SourceService). record s { is_public = Dict.get_or s.key s.is_public live })
            source.services;
    }
