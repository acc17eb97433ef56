-- ===== src/Admin/Services.antt =====
-- `patch_service` of app/admin.py. What a column of Booleans and a column of texts make of a JSON
-- value are the parameters `bool_column` and `text_column`; what `getattr` and `setattr` of the
-- mapped object do with any other attribute is the parameter `other_field`.
pub mod Keeps
use text.Mathlib.Text.{starts_with}
use Prim.Native.Nat.{zero, suc}
use masterportal_admin.Base.{
  ℕ, String, Bool, true, false, not, ◌==◌, ◌&&◌, Option, none, some, List, [], ◌∷◌, all, contains,
  Result, ok, err, http, attribute_error, ◌>>=◌, if◌then◌else◌,
}
use masterportal_admin.Base.Int.{pos}
use masterportal_admin.Json.{Value, null, bool, int, float, str, arr, obj, Fields, end, field}
use masterportal_admin.Json.Object.{get, set, is_true, keys}
use masterportal_admin.Db.{Db, Service}
use masterportal_admin.Db.Table.{find, alter}
use masterportal_admin.Proxy.Authorize.{service_key}
use masterportal_admin.Proxy.Secret.{secret_prefix}
use masterportal_admin.Admin.{audit}

abbrev pub patchable : List String
patchable = "is_public" ∷ "allow_transactions" ∷ "upstream_auth_env" ∷ []

-- `env and not env.startswith(…)`, for `payload.get("upstream_auth_env")`.
abbrev pub check_env : Option Value → Result (Unit {0})
check_env none = ok tt
check_env (some (str s)) =
    if not (s == "") && not (starts_with s secret_prefix) then err (http 422) else ok tt
check_env (some v) = if is_true v then err attribute_error else ok tt

-- `old == value` for a Boolean; Python's 0, 1, 0.0 and 1.0 equal one.
abbrev pub equals_bool : Bool → Value → Bool
equals_bool true (bool b) = b
equals_bool false (bool b) = not b
equals_bool true (int (pos (suc zero))) = true
equals_bool false (int (pos zero)) = true
equals_bool true (float r) = r == "1.0"
equals_bool false (float r) = contains ("0.0" ∷ "-0.0" ∷ []) r
equals_bool old v = false

abbrev pub equals_text : Option String → Value → Bool
equals_text none null = true
equals_text (some s) (str t) = s == t
equals_text old v = false

abbrev pub text_value : Option String → Value
text_value none = null
text_value (some s) = str s

-- `{"old": old, "new": value}`
abbrev pub change : Value → Value → Value
change old new = obj (field "old" old (field "new" new end))

abbrev pub Patch : Type 0
Patch = Service × Fields

module _ (bool_column : Value → Result Bool) (text_column : Value → Result (Option String))
    (other_field : String → Value → Patch → Result Patch) where
  abbrev pub patch_public : Value → Patch → Result Patch
  patch_public v (s, changes) =
      if equals_bool s.is_public v
      then ok (s, changes)
      else bool_column v >>= λ b.
          ok (record s { is_public = b }, set "is_public" (change (bool s.is_public) v) changes)

  abbrev pub patch_transactions : Value → Patch → Result Patch
  patch_transactions v (s, changes) =
      if equals_bool s.allow_transactions v
      then ok (s, changes)
      else bool_column v >>= λ b. ok (
        record s { allow_transactions = b },
        set "allow_transactions" (change (bool s.allow_transactions) v) changes,
      )

  abbrev pub patch_env : Value → Patch → Result Patch
  patch_env v (s, changes) =
      if equals_text s.upstream_auth_env v
      then ok (s, changes)
      else text_column v >>= λ env. ok (
        record s { upstream_auth_env = env },
        set "upstream_auth_env" (change (text_value s.upstream_auth_env) v) changes,
      )

  -- One round of the loop over `payload.items()`.
  abbrev pub patch_field : String → Value → Patch → Result Patch
  patch_field k v p =
      if k == "is_public"
      then patch_public v p
      else if k == "allow_transactions"
      then patch_transactions v p
      else if k == "upstream_auth_env"
      then patch_env v p
      else other_field k v p

  unfoldable pub patch_fields : Fields → Patch → Result Patch
  patch_fields end p = ok p
  patch_fields (field k v payload) p = do q ← patch_field k v p; patch_fields payload q

  -- `if changes: …`
  abbrev pub save_patch : String → Fields → String → Db → Patch → Result (Service × Db)
  save_patch ts claims key db (s, end) = ok (s, db)
  save_patch ts claims key db (s, field k v changes) =
      audit ts claims "service.patch" key (field k v changes)
        (record db { services = alter service_key key (λ old. s) db.services })
      >>= λ after. ok (s, after)

  abbrev pub patch_known : String → Fields → String → Fields → Db → Service → Result (Service × Db)
  patch_known ts claims key payload db s =
      if all (contains patchable) (keys payload)
      then (do
        checked ← check_env (get "upstream_auth_env" payload)
        patched ← patch_fields payload (s, end)
        save_patch ts claims key db patched)
      else err (http 422)

  -- The service after the patch, of which the response is the row, and the tables.
  unfoldable pub patch_service : String → Fields → String → Fields → Db → Result (Service × Db)
  patch_service ts claims key payload db = elim (find service_key key db.services) [
    | none ↦ err (http 404)
    | some s ↦ patch_known ts claims key payload db s
  ]
