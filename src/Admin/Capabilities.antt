-- ===== src/Admin/Capabilities.antt =====
-- `import_capabilities` of app/admin.py. The upstream's answer is an argument: the chunks of its body,
-- or nothing where the request fails. The parser of XML, `urlsplit` and the name resolver are
-- parameters. The host guard reads the cache of allowed hosts; the cache that it leaves is that of
-- `assert_allowed_upstream`.
pub mod Document
pub mod Policy
mod Tests
use Prim.Native.Char.{Char, code}
use Prim.Native.String
use masterportal_admin.Base.{
  ℕ, suc, ◌+◌, String, Bool, true, false, not, ◌==◌, eqb, ltb, Option, none, some, List, [], ◌∷◌,
  ◌++◌, length, keep, map, Result, ok, err, http, attribute_error, type_error, ◌>>=◌, if◌then◌else◌,
}
use masterportal_admin.Base.Int.{pos}
use masterportal_admin.Base.Text.{concat, has_char, strip, truthy, is_http}
use masterportal_admin.Json.{Value, null, bool, arr, obj, str, Fields, end, field, of_list}
use masterportal_admin.Json.Object.{get, is_true}
use masterportal_admin.Json.Text.{to_text}
use masterportal_admin.Json.Update.{value_or}
use masterportal_admin.Db.{Db, Service, scoped_key}
use masterportal_admin.Db.Table.{find, merge}
use masterportal_admin.Proxy.Authorize.{service_key}
use masterportal_admin.Proxy.Upstream.{Address, HostCache, assert_allowed_upstream}
use masterportal_admin.Admin.{item, audit}
unfoldable pub use Document.*

-- The body, unless it passes the limit.
unfoldable pub read_body : ℕ → ℕ → List (List ℕ) → Result (List ℕ)
read_body limit total [] = ok []
read_body limit total (chunk ∷ chunks) =
    let rest = read_body limit (total + length chunk) chunks in
    if ltb limit (total + length chunk) then err (http 502) else rest >>= λ body. ok (chunk ++ body)

-- The row of an entry: `db.merge` leaves what the import does not name, and a new row has the
-- columns' defaults.
abbrev pub entry_row : String → ℕ → String → Fields → Option Service → Service
entry_row catalog position id attrs none = record {
  key = scoped_key catalog id;
  catalog = catalog;
  external_id = id;
  position = position;
  attrs = attrs;
  is_public = true;
  upstream_auth_env = none;
  allow_transactions = false;
}
entry_row catalog position id attrs (some s) = record s {
  key = scoped_key catalog id;
  catalog = catalog;
  external_id = id;
  position = position;
  attrs = attrs;
}

abbrev pub merge_entry : String → ℕ → String × Fields → List Service → List Service
merge_entry catalog position (id, attrs) rows =
    merge service_key
      (entry_row catalog position id attrs (find service_key (scoped_key catalog id) rows)) rows

-- `for n, attrs in enumerate(entries)`
unfoldable pub merge_entries : String → ℕ → List (String × Fields) → List Service → List Service
merge_entries catalog position [] rows = rows
merge_entries catalog position (e ∷ entries) rows =
    merge_entries catalog (suc position) entries (merge_entry catalog position e rows)

abbrev pub count_catalog : String → List Service → ℕ
count_catalog catalog rows = length (keep (λ (s : Service). s.catalog == catalog) rows)

abbrev pub attrs_of : List (String × Fields) → List Value
attrs_of entries = map (λ (e : String × Fields). obj e.1) entries

-- `if not dry_run: …`
abbrev pub save_entries :
    String → Fields → String → String → List (String × Fields) → Db → Result Db
save_entries ts claims base catalog entries db =
    audit ts claims "capabilities.import" base
      (field "catalog" (str catalog)
        (field "layers" (arr (of_list (map (λ (e : String × Fields). str e.0) entries))) end))
      (record db {
        services = merge_entries catalog (count_catalog catalog db.services) entries db.services;
      })

-- `url.startswith(("http://", "https://"))`
abbrev pub check_url : Value → Result String
check_url (str url) = if is_http url then ok url else err (http 422)
check_url v = err attribute_error

-- `payload.get("dry_run", True)`, as a condition.
abbrev pub dry_run_of : Fields → Bool
dry_run_of payload = is_true (value_or (bool true) (get "dry_run" payload))

-- A failed request and a document that is refused are both 502.
abbrev pub or_bad_gateway {ℓ} : {A : Type ℓ} → Option A → Result A
or_bad_gateway none = err (http 502)
or_bad_gateway (some v) = ok v

module _ (column : Value → Result String) (second : ℕ) (allow_private : Bool)
    (resolve : String → Option (List Address)) (hostname : String → Option String)
    (cache : HostCache) (now : ℕ) (base_of : String → String)
    (fetch : String → Option (List (List ℕ))) (parse : List ℕ → Option Element) where
  -- The document behind an address.
  unfoldable pub fetch_document : String → Result Element
  unfolding read_body caps_max_bytes
  fetch_document base = do
    chunks ← or_bad_gateway (fetch base)
    body ← read_body caps_max_bytes 0 chunks
    or_bad_gateway (parse body)

  -- The catalog reaches a column only where the entries are saved.
  abbrev pub saved :
      String → Fields → Bool → String → Value → List (String × Fields) → Db → Result Db
  saved ts claims true base catalog entries db = ok db
  saved ts claims false base catalog entries db = do
    text ← column catalog
    save_entries ts claims base text entries db

  unfoldable pub import_capabilities : String → Fields → Fields → Db → Result (Value × Db)
  unfolding layer_entries merge_entries
  import_capabilities ts claims payload db = do
    address ← item "url" payload
    catalog ← item "catalog" payload
    let id_prefix = to_text (value_or (str "imp") (get "id_prefix" payload))
    url ← check_url address
    public ← (assert_allowed_upstream second allow_private resolve hostname cache now url).0
    root ← fetch_document (base_of url)
    let base = base_of url
    let entries = layer_entries id_prefix base (version_of root) root
    after ← saved ts claims (dry_run_of payload) base catalog entries db
    ok (
      obj (
          field "url" (str base) (
            field "version" (str (version_of root)) (
              field "dry_run" (value_or (bool true) (get "dry_run" payload))
                (field "layers" (arr (of_list (attrs_of entries))) end)))),
      after,
    )
