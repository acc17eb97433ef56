-- ===== src/Portals/Tests.antt =====
-- A client that revalidates a document it holds.
use masterportal_admin.Base.{String, false, ◌==◌, some, none, if◌then◌else◌, ◌≡◌, refl}
use masterportal_admin.Base.Text.{has_char}
use masterportal_admin.Json.{Value, null, str, obj, end}
use masterportal_admin.Db.{Portal}
use masterportal_admin.Portals.{etag_of, caching_headers, serve_config}
use masterportal_admin.Portals.Revalidate.{serve_config_revalidated}

abbrev portal : Portal
portal = record {
  slug = "p";
  catalog = "city";
  description = none;
  portal_config = obj end;
  layer_config = obj end;
  active_snapshot_id = some 7;
}

abbrev digest : Value → String
digest null = "00"
digest v = "ff"

-- The tag stands among others in the header.
not_modified :
    serve_config digest null "\"x\", W/\"00\"" portal
    ≡ record { status = 304; body = none; headers = caching_headers (etag_of "00") }
unfolding serve_config
not_modified = refl

no_comma : has_char b',' (digest null) ≡ false
unfolding has_char
no_comma = refl

serve_config_revalidated_example :
    serve_config digest (str "new") (etag_of (digest null)) portal ≡ (
      if digest null == digest (str "new")
      then record {
        status = 304;
        body = none;
        headers = caching_headers (etag_of (digest (str "new")));
      }
      else record {
        status = 200;
        body = some (str "new");
        headers = caching_headers (etag_of (digest (str "new")));
      })
serve_config_revalidated_example =
    serve_config_revalidated digest null (str "new") portal 7 refl no_comma
