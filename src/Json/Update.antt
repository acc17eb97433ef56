-- ===== src/Json/Update.antt =====
-- What Python's statements on a value that may be no `dict` do: `in`, `v[k]`, `v[k] = w`, `v.pop(k,
-- None)` and `v.setdefault(k, w)`.
use masterportal_admin.Base.{
  String, Bool, true, false, ◌==◌, Option, none, some, any, Result, ok, err, attribute_error,
  type_error, key_error, ◌>>=◌,
}
use masterportal_admin.Base.Text.{has_text}
use masterportal_admin.Json.{Value, arr, obj, str, Fields, to_list}
use masterportal_admin.Json.Object.{get, set, remove}

-- `v == t`, for a text `t`.
abbrev pub is_text : String → Value → Bool
is_text t (str s) = s == t
is_text t v = false

abbrev pub has_key : String → Fields → Bool
has_key k d = elim (get k d) [ none ↦ false | some v ↦ true ]

-- `k in v`, for a text `k`.
abbrev pub member : String → Value → Result Bool
member k (obj d) = ok (has_key k d)
member k (arr vs) = ok (any (is_text k) (to_list vs))
member k (str s) = ok (has_text k s)
member k v = err type_error

-- `v[k]`
abbrev pub item : String → Value → Result Value
item k (obj d) = elim (get k d) [ none ↦ err key_error | some v ↦ ok v ]
item k v = err type_error

-- `v[k] = w`
abbrev pub put : String → Value → Value → Result Value
put k w (obj d) = ok (obj (set k w d))
put k w v = err type_error

-- `v.pop(k, None)`; a list takes one argument.
abbrev pub pop : String → Value → Result Value
pop k (obj d) = ok (obj (remove k d))
pop k (arr vs) = err type_error
pop k v = err attribute_error

-- `d.get(k, default)`
abbrev pub value_or : Value → Option Value → Value
value_or default none = default
value_or default (some v) = v

-- `f` on the value that `v.setdefault(k, default)` returns, which it changes in place.
abbrev pub with_default : String → Value → (Value → Result Value) → Value → Result Value
with_default k default f (obj d) = do w ← f (value_or default (get k d)); ok (obj (set k w d))
with_default k default f v = err attribute_error
