-- ===== src/Proxy/Body.antt =====
-- `_is_transaction`, `_read_capped_body` and `_capped_stream` of app/proxy.py. A body is the list of
-- its bytes, a stream the list of its chunks.
use masterportal_admin.Base.{
  ℕ, ◌+◌, Bool, true, false, ◌&&◌, ◌||◌, not, ltb, leb, eqb, List, [], ◌∷◌, ◌++◌, length, keep, any,
  Result, ok, err, http, if◌then◌else◌,
}

-- `\s` of a bytes pattern.
abbrev pub is_blank : ℕ → Bool
is_blank c = leb 9 c && leb c 13 || eqb c b' '

-- `\w` of a bytes pattern.
abbrev pub is_word : ℕ → Bool
is_word c =
    leb b'0' c && leb c b'9' || leb b'A' c && leb c b'Z' || leb b'a' c && leb c b'z' || eqb c b'_'

abbrev lower : ℕ → ℕ
lower c = if leb b'A' c && leb c b'Z' then c + 32 else c

-- `Transaction[\s>]`, in any case.
unfoldable pub names_transaction : List ℕ → List ℕ → Bool
names_transaction [] [] = false
names_transaction [] (c ∷ bytes) = is_blank c || eqb c b'>'
names_transaction (n ∷ name) [] = false
names_transaction (n ∷ name) (c ∷ bytes) = eqb (lower c) n && names_transaction name bytes

unfoldable pub transaction_name : List ℕ
transaction_name = b't' ∷ b'r' ∷ b'a' ∷ b'n' ∷ b's' ∷ b'a' ∷ b'c' ∷ b't' ∷ b'i' ∷ b'o' ∷ b'n' ∷ []

-- `\w*:Transaction[\s>]`, behind the first character of the prefix.
unfoldable pub after_prefix : List ℕ → Bool
unfolding names_transaction
after_prefix [] = false
after_prefix (c ∷ bytes) =
    let rest = after_prefix bytes in
    eqb c b':' && names_transaction transaction_name bytes || is_word c && rest

-- `(\w+:)?Transaction[\s>]`
unfoldable pub matches_tag : List ℕ → Bool
unfolding names_transaction after_prefix
matches_tag [] = false
matches_tag (c ∷ bytes) =
    names_transaction transaction_name (c ∷ bytes) || is_word c && after_prefix bytes

-- `\s*(\w+:)?Transaction[\s>]`
unfoldable pub matches_blank_tag : List ℕ → Bool
matches_blank_tag [] = false
matches_blank_tag (c ∷ bytes) =
    let rest = matches_blank_tag bytes in matches_tag (c ∷ bytes) || is_blank c && rest

-- `TRANSACTION_RE.search(body)`
unfoldable pub search_transaction : List ℕ → Bool
unfolding matches_blank_tag
search_transaction [] = false
search_transaction (c ∷ bytes) =
    let rest = search_transaction bytes in eqb c b'<' && matches_blank_tag bytes || rest

unfoldable pub is_transaction : List ℕ → Bool
unfolding search_transaction
is_transaction body =
    search_transaction body
    || any (λ c. eqb c 0) body && search_transaction (keep (λ c. not (eqb c 0)) body)

-- `_read_capped_body`, with the bytes read so far.
unfoldable pub read_capped : ℕ → List ℕ → List (List ℕ) → Result (List ℕ)
read_capped max_bytes body [] = ok body
read_capped max_bytes body (chunk ∷ chunks) =
    let rest = read_capped max_bytes (body ++ chunk) chunks in
    if ltb max_bytes (length (body ++ chunk)) then err (http 413) else rest

unfoldable pub read_capped_body : ℕ → List (List ℕ) → Result (List ℕ)
read_capped_body max_bytes chunks = read_capped max_bytes [] chunks

-- `_capped_stream`: the chunks that it yields, and whether it ends with the error 502.
unfoldable pub capped_stream : ℕ → ℕ → List (List ℕ) → List (List ℕ) × Bool
capped_stream max_bytes received [] = ([], false)
capped_stream max_bytes received (chunk ∷ chunks) =
    let rest = capped_stream max_bytes (received + length chunk) chunks in
    if ltb max_bytes (received + length chunk) then ([], true) else (chunk ∷ rest.0, rest.1)
