-- ===== src/Source/Render.antt =====
-- `build_services` and `build_config` of app/configsrc.py.
use masterportal_admin.Base.{
  String, Bool, Option, List, [], ◌&&◌, map, keep, all, contains, Result, ok, ◌>>=◌, if◌then◌else◌,
}
use masterportal_admin.Base.Dict
use masterportal_admin.Base.Dict.{Dict}
use masterportal_admin.Json.{Value, obj, Fields, field, end}
use masterportal_admin.Db.{SourceService, Source}
use masterportal_admin.Access.{service_allowed}
use masterportal_admin.Access.Tree.{filter_layer_config}
use masterportal_admin.Access.Menu.{filter_portal_config}
use masterportal_admin.Source.Legend.{public_service_attrs}

-- The condition of both comprehensions.
abbrev pub usable : Dict (List String) → Option (List String) → SourceService → Bool
usable grants uroles s = service_allowed s.is_public (Dict.get_or s.key [] grants) uroles

unfoldable pub build_services :
    String → Source → Dict (List String) → Option (List String) → List Fields
build_services base source grants uroles =
    map (λ (s : SourceService). public_service_attrs base s.key s.attrs s.is_public)
      (keep (usable grants uroles) source.services)

abbrev pub known_ids : Source → List String
known_ids source = map (λ (s : SourceService). s.external_id) source.services

abbrev pub allowed_ids : Source → Dict (List String) → Option (List String) → List String
allowed_ids source grants uroles =
    map (λ (s : SourceService). s.external_id) (keep (usable grants uroles) source.services)

-- `a == b` of two sets.
abbrev pub same_set : List String → List String → Bool
same_set a b = all (contains b) a && all (contains a) b

unfoldable pub build_config :
    Source → Dict (List String) → Dict (List String) → Option (List String) → Result Value
build_config source grants restricted uroles = do
  let known = known_ids source
  let allowed = allowed_ids source grants uroles
  layer_config ←
      (if same_set allowed known
        then ok source.layer_config
        else filter_layer_config source.layer_config known allowed)
  portal_config ← filter_portal_config source.portal_config restricted uroles
  ok (obj (field "portalConfig" portal_config (field "layerConfig" layer_config end)))
