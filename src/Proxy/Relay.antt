-- ===== src/Proxy/Relay.antt =====
-- `_relay` of app/proxy.py: the answer of the upstream on its way to the client.
pub mod Capped
pub mod Faithful
mod Tests
use masterportal_admin.Base.{
  ℕ, zero, suc, ◌+◌, ◌-◌, String, Bool, true, false, ◌&&◌, not, ltb, eqb, Option, none, some, List,
  [], ◌∷◌, ◌++◌, length, keep, any, contains, Result, ok, err, http, if◌then◌else◌,
}
use masterportal_admin.Base.Dict
use masterportal_admin.Base.Dict.{Dict}
use masterportal_admin.Base.Text.{has_text}
use masterportal_admin.Proxy.Body.{capped_stream}

-- The upstream's answer; the names of its headers are in lower case, as the client library gives them.
pub record UpstreamResponse : Type 0 where
  pub status : ℕ
  pub headers : Dict String
  pub chunks : List (List ℕ)

-- A whole body, or a stream that may end with an error.
pub data Body : Type 0 where
  whole : List ℕ → Body
  stream : List (List ℕ) → Bool → Body

pub record Relayed : Type 0 where
  pub status : ℕ
  pub headers : Dict String
  pub body : Body

-- `RELAY_HEADERS`
unfoldable pub relay_headers : List String
relay_headers = "content-type" ∷ "content-disposition" ∷ "cache-control" ∷ []

-- `TEXTUAL_TYPES`
unfoldable pub textual_types : List String
textual_types = "xml" ∷ "json" ∷ "text" ∷ "html" ∷ []

unfoldable pub is_textual : String → Bool
unfolding textual_types has_text
is_textual content_type = any (λ t. has_text t content_type) textual_types

-- `b"".join(chunks)`
unfoldable pub joined_chunks : List (List ℕ) → List ℕ
joined_chunks [] = []
joined_chunks (chunk ∷ chunks) = chunk ++ joined_chunks chunks

unfoldable pub begins : List ℕ → List ℕ → Bool
begins [] body = true
begins (c ∷ old) [] = false
begins (c ∷ old) (d ∷ body) = eqb c d && begins old body

-- `body.replace(old, new)`, for an `old` that is not empty; `skip` bytes of an occurrence are left.
unfoldable pub replace_from : List ℕ → List ℕ → ℕ → List ℕ → List ℕ
replace_from old new skip [] = []
replace_from old new (suc skip) (c ∷ body) = replace_from old new skip body
replace_from old new zero (c ∷ body) =
    let after = replace_from old new (length old - 1) body in
    let rest = replace_from old new zero body in
    if begins old (c ∷ body) then new ++ after else c ∷ rest

unfoldable pub rewrite_all : List (List ℕ × List ℕ) → List ℕ → List ℕ
rewrite_all [] body = body
rewrite_all ((old, new) ∷ rewrites) body = rewrite_all rewrites (replace_from old new 0 body)

-- The chunks that are buffered, the chunks that are left, and whether the limit was passed.
pub record Buffered : Type 0 where
  pub read : List (List ℕ)
  pub left : List (List ℕ)
  pub size : ℕ
  pub overflow : Bool

unfoldable pub buffer : ℕ → ℕ → List (List ℕ) → Buffered
buffer limit size [] = record { read = []; left = []; size = size; overflow = false }
buffer limit size (chunk ∷ chunks) =
    let rest = buffer limit (size + length chunk) chunks in
    if ltb limit (size + length chunk)
    then record { read = chunk ∷ []; left = chunks; size = size + length chunk; overflow = true }
    else record rest { read = chunk ∷ rest.read }

-- `passthrough()`
abbrev pub pass_through : ℕ → Buffered → Body
pass_through max_bytes b =
    let (sent, failed) = capped_stream max_bytes b.size b.left in stream (b.read ++ sent) failed

abbrev pub buffered_body : ℕ → List (List ℕ × List ℕ) → Buffered → Body
buffered_body max_bytes rewrites b =
    if not b.overflow
    then whole (rewrite_all rewrites (joined_chunks b.read))
    else pass_through max_bytes b

abbrev pub streamed : ℕ → List (List ℕ) → Body
streamed max_bytes chunks =
    let (sent, failed) = capped_stream max_bytes 0 chunks in stream sent failed

abbrev pub has_rewrites : List (List ℕ × List ℕ) → Bool
has_rewrites [] = false
has_rewrites (r ∷ rewrites) = true

-- `{k: v for k, v in headers.items() if k.lower() in RELAY_HEADERS}`
unfoldable pub kept_headers : Dict String → Dict String
unfolding relay_headers
kept_headers headers = keep (λ (h : String × String). contains relay_headers h.0) headers

module _ (rewrite_limit max_bytes : ℕ) where
  unfoldable pub relay_body : String → List (List ℕ × List ℕ) → List (List ℕ) → Body
  unfolding is_textual buffer
  relay_body content_type rewrites chunks =
      if has_rewrites rewrites && is_textual content_type
      then buffered_body max_bytes rewrites (buffer rewrite_limit 0 chunks)
      else streamed max_bytes chunks

  -- The answer for the client; the upstream may be unreachable.
  unfoldable pub relay : Option UpstreamResponse → List (List ℕ × List ℕ) → Result Relayed
  unfolding kept_headers
  relay none rewrites = err (http 502)
  relay (some upstream) rewrites = ok record {
    status = upstream.status;
    headers = kept_headers upstream.headers;
    body = relay_body (Dict.get_or "content-type" "" upstream.headers) rewrites upstream.chunks;
  }
