-- ===== src/Json/Text.antt =====
-- `str(v)` and `repr(v)` of a JSON value. Characters beyond ASCII are taken to be printable.
use Prim.Native.Char.{Char, code}
use Prim.Native.String
use masterportal_admin.Base.{
  ℕ, ◌+◌, ◌/◌, ◌%◌, String, Bool, true, false, not, ◌&&◌, ◌||◌, if◌then◌else◌, ltb, eqb, ◌≡◌, refl,
  [], ◌∷◌,
}
use masterportal_admin.Base.Int.{ℤ, pos, negsuc}
use masterportal_admin.Base.Text.{concat, decimal, has_char}
use masterportal_admin.Json.{
  Value, null, bool, int, float, str, arr, obj, Items, nil, cons, Fields, end, field,
}

-- `str(n)` of an integer.
unfoldable pub int_text : ℤ → String
unfolding decimal
int_text (pos n) = decimal n
int_text (negsuc n) = concat ("-" ∷ decimal (n + 1) ∷ [])

hex_digit : ℕ → String
unfolding decimal
hex_digit n =
    if ltb n 10
    then decimal n
    else if eqb n 10
    then "a"
    else if eqb n 11
    then "b"
    else if eqb n 12
    then "c"
    else if eqb n 13
    then "d"
    else if eqb n 14
    then "e"
    else "f"

-- One character inside a quoted text, `q` the quote.
escaped : ℕ → Char → String
unfolding hex_digit
escaped q c =
    let n = code c in
    if eqb n b'\\' || eqb n q
    then concat ("\\" ∷ String.◌∷◌ c "" ∷ [])
    else if eqb n 9
    then "\\t"
    else if eqb n 10
    then "\\n"
    else if eqb n 13
    then "\\r"
    else if ltb n 32 || eqb n 127
    then concat ("\\x" ∷ hex_digit (n / 16) ∷ hex_digit (n % 16) ∷ [])
    else String.◌∷◌ c ""

escape : ℕ → String → String
unfolding escaped
escape q String.[] = ""
escape q (String.◌∷◌ c s) = String.◌++◌ (escaped q c) (escape q s)

-- Python quotes by `'`, unless the text holds a `'` and no `"`.
unfoldable pub quoted : String → String
unfolding escape has_char
quoted s =
    if has_char 39 s && not (has_char 34 s)
    then concat ("\"" ∷ escape 34 s ∷ "\"" ∷ [])
    else concat ("'" ∷ escape 39 s ∷ "'" ∷ [])

abbrev bool_text : Bool → String
bool_text true = "True"
bool_text false = "False"

unfoldable mutual
  -- `repr(v)`
  pub repr : Value → String
  repr null = "None"
  repr (bool b) = bool_text b
  repr (int n) = int_text n
  repr (float r) = r
  repr (str s) = quoted s
  repr (arr vs) = concat ("[" ∷ repr_items vs ∷ "]" ∷ [])
  repr (obj d) = concat ("{" ∷ repr_fields d ∷ "}" ∷ [])

  pub repr_items : Items → String
  repr_items nil = ""
  repr_items (cons v vs) = String.◌++◌ (repr v) (repr_more vs)

  pub repr_more : Items → String
  repr_more nil = ""
  repr_more (cons v vs) = concat (", " ∷ repr v ∷ repr_more vs ∷ [])

  pub repr_fields : Fields → String
  repr_fields end = ""
  repr_fields (field k v d) = concat (quoted k ∷ ": " ∷ repr v ∷ repr_entries d ∷ [])

  pub repr_entries : Fields → String
  repr_entries end = ""
  repr_entries (field k v d) = concat (", " ∷ quoted k ∷ ": " ∷ repr v ∷ repr_entries d ∷ [])

-- `str(v)`
unfoldable pub to_text : Value → String
unfolding int_text repr quoted
to_text (str s) = s
to_text v = repr v

text_of_list :
    to_text (arr (cons (str "it's") (cons null (cons (int (negsuc 6)) (cons (bool true) nil)))))
    ≡ "[\"it's\", None, -7, True]"
unfolding to_text
text_of_list = refl
