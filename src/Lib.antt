-- ===== src/Lib.antt =====
-- A verification library for masterportal-admin, a backend that stores Masterportal configurations
-- per portal, serves them filtered by the caller's roles, proxies the map services behind them, and
-- lets administrators edit, publish and roll back what is served.
--
-- The parts, and the modules that model them:
--   * app/db.py: `Db` has one record per table's row, with the source's columns, and the tables as
--     lists; `Db.Table` and `Db.Query` are what the program asks of a session.
--   * app/auth.py: `Auth` (`roles`) and `Auth.Token` (`_get_jwks_client`, `validate_token`,
--     `current_user`).
--   * app/access.py: `Access` (`user_roles`, `service_allowed`, `roles_satisfy`), `Access.Tree`
--     (`filter_layer_config`, with `prune` as a mutual block over the JSON document) and `Access.Menu`
--     (`filter_portal_config`).
--   * app/configsrc.py: `Source` (`live_source`, `active_source`, `with_live_access`),
--     `Source.Grants`, `Source.Legend` (`legend_urls_of`, `public_service_attrs`), `Source.Render`
--     (`build_services`, `build_config`).
--   * app/main.py: `Portals` (`serve_config`, `get_portal` and the endpoints that serve a portal).
--   * app/proxy.py: `Proxy.Authorize` (`_load_service`), `Proxy.Secret` (`_upstream_auth_header`,
--     `_upstream_base`), `Proxy.Subpath` (`_join_subpath`), `Proxy.Upstream` (`_host_is_public`,
--     `_assert_allowed_upstream` with its cache), `Proxy.Body` (`_is_transaction`, the size caps),
--     `Proxy.Handler` (`proxy` and `legend`, up to the request that is sent) and `Proxy.Relay`
--     (`_relay`, from the upstream's answer on).
--   * app/ratelimit.py: `RateLimit`, a window with one queue of times for each caller.
--   * app/metrics.py: `Metrics`, with `Metrics.Render`.
--   * app/portalcfg.py: `PortalConfig` (`MODULES`, `module_catalog`), `PortalConfig.Modules`
--     (`set_module`) and `PortalConfig.Form` (`extract_settings`, `apply_settings`).
--   * app/admin.py: `Admin` (`_audit`), `Admin.Session` (`require_admin`), `Admin.Login`
--     (`admin_login`, `admin_callback`, `admin_logout`), `Admin.Portals`, `Admin.Settings` (the form,
--     the module switch and the copy of a portal), `Admin.Services` (`patch_service`), `Admin.Grants`,
--     `Admin.Snapshots` (`publish`, `activate`, `list_snapshots`), `Admin.Tree` (the tree editor),
--     `Admin.Styles`, `Admin.StyleList`, `Admin.Capabilities` (`import_capabilities`) and
--     `Admin.Listings` (the endpoints that only read). `Admin.Edits` has the handlers as steps of the tables.
--   * import_portal.py and app/seed.py: `Import`; grant.py: `Scripts`.
--   * `Json` has the JSON documents as Python sees them, with `str`, truth values, iteration and
--     dictionaries; `Base` has texts, lists, dictionaries and Python's exceptions.
--
-- Conventions. A handler gets the tables, and returns its answer and the tables after its commit, or
-- an error and no tables: a request that raises before its commit changes nothing. A handler that may
-- raise after a commit returns its answer and the tables apart. The text of an
-- exception is not kept, only its class or its HTTP status. A set of texts is a list. Readings of the
-- clock are whole numbers of ticks, `second` of them to a second, and are arguments. A JSON float is
-- kept as its `repr`. Rows of one position stand in the order of the table.
--
-- Parameters: SQL's LIKE, the conversion of a JSON value by a column, the comparison of a version
-- with a JSON value, the name resolver and the classes of ipaddress, urlsplit, os.environ, the JWT
-- library, the discovery of its keys, the token endpoint, the digest of a served document, and what
-- `getattr` and `setattr` do with an attribute of a service that is not patchable. All loops of the
-- source that are modelled run over a list or a document, and recur on it. Fuel is in one helper only,
-- `str(n)` (`decimal`): it takes a digit in each round and has n + 1 rounds, which are more than
-- the digits of n.
--
-- Not modelled: the HTTP server and its middleware, logging, migrations and the HTML pages, which are
-- input and output or generated; the reading of the files that are imported; of `_relay`, the closing
-- of the connection and an upstream that breaks off in the middle.
pub mod Access
pub mod Admin
pub mod Auth
pub mod Base
pub mod Db
pub mod Import
pub mod Json
pub mod Metrics
pub mod PortalConfig
pub mod Portals
pub mod Proxy
pub mod RateLimit
pub mod Scripts
pub mod Source
