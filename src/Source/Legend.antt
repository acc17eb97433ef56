-- ===== src/Source/Legend.antt =====
-- `legend_urls_of` and `public_service_attrs` of app/configsrc.py: a service's entry as clients see
-- it. `base` is `settings.PUBLIC_BASE_URL`.
pub mod Index
pub mod Entry
use masterportal_admin.Base.{
  ℕ, ◌+◌, String, Bool, Option, none, some, List, [], ◌∷◌, ◌++◌, if◌then◌else◌,
}
use masterportal_admin.Base.Text.{concat, decimal, is_http}
use masterportal_admin.Json.{Value, bool, str, arr, Items, nil, cons, Fields}
use masterportal_admin.Json.Object.{get, set}
use masterportal_admin.Base.{true}

-- `isinstance(v, str) and v.startswith(("http://", "https://"))`
abbrev pub http_text : Value → Option String
http_text (str u) = if is_http u then some u else none
http_text _ = none

abbrev pub urls_in : Items → List String
urls_in nil = []
urls_in (cons v vs) = elim (http_text v) [ none ↦ urls_in vs | some u ↦ u ∷ urls_in vs ]

abbrev pub first_url : Option Value → List String
first_url none = []
first_url (some v) = elim (http_text v) [ none ↦ [] | some u ↦ u ∷ [] ]

abbrev pub list_urls : Option Value → List String
list_urls (some (arr vs)) = urls_in vs
list_urls _ = []

-- The upstream legend URLs in the order of their numbers.
unfoldable pub legend_urls_of : Fields → List String
legend_urls_of attrs = first_url (get "legendURL" attrs) ++ list_urls (get "legend" attrs)

unfoldable pub geo_url : String → String → String
geo_url base key = concat (base ∷ "/geo/" ∷ key ∷ [])

unfoldable pub legend_url : String → String → ℕ → String
legend_url base key n = concat (base ∷ "/legends/" ∷ key ∷ "/" ∷ decimal n ∷ [])

-- The loop over `out["legend"]`, from the number `n` on.
unfoldable pub rewrite_legend : String → String → ℕ → Items → Items
rewrite_legend base key n nil = nil
rewrite_legend base key n (cons v vs) = elim (http_text v) [
  | none ↦ cons v (rewrite_legend base key n vs)
  | some u ↦ cons (str (legend_url base key n)) (rewrite_legend base key (n + 1) vs)
]

-- `if isinstance(out.get("url"), str): …`, on what `out.get("url")` is.
abbrev put_url : String → String → Fields → Option Value → Fields
put_url base key out (some (str u)) = set "url" (str (geo_url base key)) out
put_url base key out _ = out

-- `if isinstance(out.get("legend"), list): …`, from the number `n` on.
abbrev put_list : String → String → ℕ → Fields → Option Value → Fields
put_list base key n out (some (arr vs)) = set "legend" (arr (rewrite_legend base key n vs)) out
put_list base key n out _ = out

-- The branch of `legendURL`, on its URL if it has one, and then the one of `legend`, whose numbers
-- go on from there.
abbrev put_legends : String → String → Fields → List String → Fields
put_legends base key out [] = put_list base key 0 out (get "legend" out)
put_legends base key out (_ ∷ _) =
    let out' = set "legendURL" (str (legend_url base key 0)) out in
    put_list base key 1 out' (get "legend" out')

-- `if legend_urls_of(attrs): …`
abbrev rewrite_if : List String → String → String → Fields → Fields
rewrite_if [] base key out = out
rewrite_if (_ ∷ _) base key out = put_legends base key out (first_url (get "legendURL" out))

abbrev secure : Bool → Fields → Fields
secure is_public out = if is_public then out else set "isSecured" (bool true) out

unfoldable pub public_service_attrs : String → String → Fields → Bool → Fields
unfolding legend_urls_of rewrite_legend
public_service_attrs base key attrs is_public =
    secure is_public
      (rewrite_if (legend_urls_of attrs) base key (put_url base key attrs (get "url" attrs)))
