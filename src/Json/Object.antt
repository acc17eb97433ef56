-- ===== src/Json/Object.antt =====
-- A `dict` of JSON values: reading, writing and removing an entry, and what Python's truth value,
-- iteration and attribute lookup make of a value that is no `dict`.
use Prim.Native.Nat.{zero}
use masterportal_admin.Base.{
  ℕ, String, Bool, true, false, not, ◌≡◌, refl, ◌≢◌, Option, none, some, List, [], ◌∷◌, arith, ◌==◌,
  eq_iff, eq_refl, if◌then◌else◌, Result, ok, err, attribute_error, type_error, ◌&&◌, ◌||◌,
  contains,
}
use masterportal_admin.Base.Int.{pos}
use masterportal_admin.Base.Text.{truthy}
use masterportal_admin.Json.{
  Value, null, bool, int, float, str, arr, obj, nil, cons, Fields, end, field, to_list,
}

-- `d.get(k)`
unfoldable pub get : String → Fields → Option Value
get k end = none
get k (field j v d) = if j == k then some v else get k d

-- `d[k] = v`: a new key goes to the end.
unfoldable pub set : String → Value → Fields → Fields
set k v end = field k v end
set k v (field j w d) = if j == k then field j v d else field j w (set k v d)

-- `d.pop(k, None)`
unfoldable pub remove : String → Fields → Fields
remove k end = end
remove k (field j w d) = let rest = remove k d in if j == k then rest else field j w rest

-- `list(d)`
abbrev pub keys : Fields → List String
keys end = []
keys (field j v d) = j ∷ keys d

-- `list(d.items())`
abbrev pub entries : Fields → List (String × Value)
entries end = []
entries (field j v d) = (j, v) ∷ entries d

-- `{**d, **e}`
unfoldable pub update : Fields → Fields → Fields
update d end = d
update d (field k v e) = update (set k v d) e

abbrev pub IsDict : Fields → Type 0
IsDict end = Unit
IsDict (field j v d) = (contains (keys d) j ≡ false) × IsDict d

-- `bool(v)`
unfoldable pub is_true : Value → Bool
is_true null = false
is_true (bool b) = b
is_true (int (pos zero)) = false
is_true (int _) = true
is_true (float r) = not (r == "0.0" || r == "-0.0")
is_true (str s) = truthy s
is_true (arr nil) = false
is_true (arr (cons _ _)) = true
is_true (obj end) = false
is_true (obj (field _ _ _)) = true

-- `d.get(k, default)` on a value that may be no `dict`.
unfoldable pub get_or : Value → String → Value → Result Value
get_or (obj d) k default = elim (get k d) [ none ↦ ok default | some v ↦ ok v ]
get_or _ k default = err attribute_error

-- `v or default`
unfoldable pub or_else : Value → Value → Value
or_else v default = if is_true v then v else default

abbrev chars : String → List Value
chars String.[] = []
chars (String.◌∷◌ c s) = str (String.◌∷◌ c String.[]) ∷ chars s

abbrev key_values : Fields → List Value
key_values end = []
key_values (field j v d) = str j ∷ key_values d

-- What `for x in v` runs through.
unfoldable pub iterate : Value → Result (List Value)
iterate (arr vs) = ok (to_list vs)
iterate (str s) = ok (chars s)
iterate (obj d) = ok (key_values d)
iterate _ = err type_error

-- `isinstance(v, dict)`, `isinstance(v, list)`, `isinstance(v, str)`
abbrev pub is_dict : Value → Bool
is_dict (obj _) = true
is_dict _ = false

abbrev pub is_list : Value → Bool
is_list (arr _) = true
is_list _ = false

abbrev pub is_str : Value → Bool
is_str (str _) = true
is_str _ = false

-- The laws of a `dict`.
pub get-set :
    (k j : String) (v : Value) (d : Fields)
    → get j (set k v d) ≡ (if k == j then some v else get j d)
unfolding get set
get-set k j v end = refl
get-set k j v (field i w d) = ground (arith, eq_iff k j, eq_iff i k, eq_iff i j, get-set k j v d)

pub get-remove :
    (k j : String) (d : Fields) → get j (remove k d) ≡ (if k == j then none else get j d)
unfolding get remove
get-remove k j end = ground arith
get-remove k j (field i w d) = ground (arith, eq_iff k j, eq_iff i k, eq_iff i j, get-remove k j d)

pub ruleset dict_laws = (get-set, get-remove, eq_refl)
