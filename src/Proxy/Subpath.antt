-- ===== src/Proxy/Subpath.antt =====
-- `_join_subpath` of app/proxy.py: the client's sub-path under the pinned base.
pub mod Quote
pub mod Inside
use Prim.Native.String
use masterportal_admin.Base.{
  ℕ, String, Bool, ◌≡◌, refl, ◌&&◌, ◌||◌, not, ◌==◌, eqb, if◌then◌else◌, List, [], ◌∷◌, map, keep,
  contains, Result, ok, err, http,
}
use masterportal_admin.Base.Text.{split, concat, has_char}
use masterportal_admin.Base.Bytes.{quote}

-- `"/".join(parts)`
unfoldable pub join : List String → String
join [] = ""
join (s ∷ []) = s
join (s ∷ t ∷ rest) = concat (s ∷ "/" ∷ join (t ∷ rest) ∷ [])

-- `[s for s in subpath.split("/") if s not in ("", ".")]`
unfoldable pub segments_of : String → List String
unfolding split
segments_of subpath = keep (λ s. not (s == "" || s == ".")) (split b'/' subpath)

-- The characters of `safe="~!$&'()*+,;=:@-._"`.
unfoldable pub is_safe : ℕ → Bool
unfolding has_char
is_safe c = has_char c "~!$&'()*+,;=:@-._"

abbrev pub joined : String → List String → String
joined base [] = base
joined base (s ∷ segments) = concat (base ∷ "/" ∷ join (map (quote is_safe) (s ∷ segments)) ∷ [])

unfoldable pub join_subpath : String → String → Result String
unfolding segments_of has_char
join_subpath base subpath =
    if contains (segments_of subpath) ".." || has_char b'\\' subpath
    then err (http 400)
    else ok (joined base (segments_of subpath))

traversal_refused : join_subpath "https://up/x" "a/../b" ≡ err (http 400)
unfolding join_subpath
traversal_refused = refl

joined_known : join_subpath "https://up/x" "a//./b c/%2e%2e" ≡ ok "https://up/x/a/b%20c/%252e%252e"
unfolding join_subpath join quote is_safe
joined_known = refl
