-- ===== src/Proxy/Relay/Tests.antt =====
-- An answer of the upstream whose address is rewritten, and one that is too large.
use masterportal_admin.Proxy.Body.{capped_stream}
use masterportal_admin.Base.Dict
use masterportal_admin.Base.Dict.{get_or}
use masterportal_admin.Base.{
  ℕ, Bool, true, false, none, some, List, [], ◌∷◌, ok, length, ◌&&◌, ◌≤◌, ◌≡◌, refl, contains,
  if◌then◌else◌,
}
use masterportal_admin.Base.Bytes.{encode}
use masterportal_admin.Proxy.Relay.{
  UpstreamResponse, Relayed, relay, relay_body, has_rewrites, is_textual, whole, stream,
  joined_chunks, rewrite_all, replace_from, begins, relay_headers,
}
use masterportal_admin.Proxy.Relay.Capped.{IsDelivered}
use masterportal_admin.Proxy.Relay.Faithful.{
  OnlyRelayed, is_rewritten, relay-IsDelivered, relay_body_bound,
}

abbrev capabilities : UpstreamResponse
capabilities = record {
  status = 200;
  headers = ("content-type", "text/xml") ∷ ("set-cookie", "a=b") ∷ [];
  chunks = encode "<a>http://u" ∷ encode "p/wms</a>" ∷ [];
}

abbrev rewrites : List (List ℕ × List ℕ)
rewrites = (encode "http://up/wms", encode "/geo/x") ∷ []

-- The address is found although it lies across two chunks, and the cookie is dropped.
abbrev rewritten : Relayed
rewritten = record {
  status = 200;
  headers = ("content-type", "text/xml") ∷ [];
  body = whole (encode "<a>/geo/x</a>");
}

relayed : relay 100 100 (some capabilities) rewrites ≡ ok rewritten
unfolding relay encode relay_body get_or rewrite_all replace_from joined_chunks begins
relayed = refl

relay-IsDelivered_example :
    (u : UpstreamResponse) × (some capabilities ≡ some u)
    × (rewritten.status ≡ u.status)
    × OnlyRelayed rewritten.headers
    × (Dict.get "content-type" rewritten.headers ≡ (
        if contains relay_headers "content-type" then Dict.get "content-type" u.headers else none))
    × IsDelivered 100 100 (is_rewritten rewrites u) rewrites u.chunks rewritten.body
relay-IsDelivered_example =
    relay-IsDelivered 100 100 (some capabilities) rewrites rewritten "content-type" relayed

-- A picture of three chunks, with a limit of five bytes.
abbrev picture : List (List ℕ)
picture = encode "ab" ∷ encode "cd" ∷ encode "ef" ∷ []

not_textual : (has_rewrites rewrites && is_textual "image/png") ≡ false
unfolding is_textual
not_textual = refl

picture_cut :
    relay_body 100 5 "image/png" rewrites picture ≡ stream (encode "ab" ∷ encode "cd" ∷ []) true
unfolding relay_body capped_stream encode
picture_cut = refl

relay_body_bound_example :
    (sent : List (List ℕ)) × (failed : Bool) × (relay_body 100 5 "image/png" rewrites picture
      ≡ stream sent failed)
    × (length (joined_chunks sent) ≤ 5)
relay_body_bound_example = relay_body_bound 100 5 "image/png" rewrites picture not_textual

-- A textual answer that passes both limits with its last chunk is sent whole, beyond the limit of
-- the proxy and without an error.
limit_passed :
    relay_body 4 5 "text/xml" rewrites picture
    ≡ stream (encode "ab" ∷ encode "cd" ∷ encode "ef" ∷ []) false
unfolding relay_body encode capped_stream
limit_passed = refl
