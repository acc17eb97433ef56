-- ===== src/Proxy/Relay/Faithful.antt =====
-- What reaches the client of `_relay` in app/proxy.py.
use masterportal_admin.Base.{
  ℕ, ◌+◌, ◌≤◌, ◌<◌, String, Bool, true, false, ◌&&◌, ◌==◌, eq_iff, if◌then◌else◌, ltb, Option, none,
  some, List, [], ◌∷◌, ◌++◌, length, length-append, keep, All, contains, ok, ◌≡◌, refl, sym, ap,
  ◌∙◌, ◌⊎◌, inl, inr, arith, ok-injective, Bool-cases,
}
use masterportal_admin.Base.Dict
use masterportal_admin.Base.Dict.{Dict}
use masterportal_admin.Proxy.Body.{capped_stream}
use masterportal_admin.Proxy.Relay.{
  UpstreamResponse, stream, Relayed, relay_headers, kept_headers, is_textual, joined_chunks,
  rewrite_all, Buffered, buffer, buffered_body, has_rewrites, relay_body, relay,
}
use masterportal_admin.Proxy.Relay.Capped.{
  SentOf-append, capped_stream-SentOf, IsDelivered, ltb→lt, ltb_false→le, append_nil,
}

-- What the buffer holds after `size` bytes: it was left because the limit was passed, or it has all.
abbrev IsSplit : ℕ → ℕ → List (List ℕ) → Buffered → Type 0
IsSplit limit size chunks b =
    (b.read ++ b.left ≡ chunks)
    × (b.size ≡ size + length (joined_chunks b.read))
    × (((b.overflow ≡ true) × (limit < size + length (joined_chunks chunks)))
        ⊎ ((b.overflow ≡ false) × (b.left ≡ []) × (size + length (joined_chunks chunks) ≤ limit)))

IsSplit-more :
    (limit size : ℕ) (chunk : List ℕ) (chunks : List (List ℕ)) (b : Buffered)
    → IsSplit limit (size + length chunk) chunks b
    → IsSplit limit size (chunk ∷ chunks) (record b { read = chunk ∷ b.read })
unfolding joined_chunks
IsSplit-more limit size chunk chunks b (parts, total, inl (over, passed)) = (
  ap (λ r. chunk ∷ r) parts,
  omega (arith, total, length-append chunk (joined_chunks b.read)),
  inl (over, omega (arith, passed, length-append chunk (joined_chunks chunks))),
)
IsSplit-more limit size chunk chunks b (parts, total, inr (within, ends, fits)) = (
  ap (λ r. chunk ∷ r) parts,
  omega (arith, total, length-append chunk (joined_chunks b.read)),
  inr (within, ends, omega (arith, fits, length-append chunk (joined_chunks chunks))),
)

buffer-IsSplit :
    (limit size : ℕ) (chunks : List (List ℕ))
    → size ≤ limit
    → IsSplit limit size chunks (buffer limit size chunks)
unfolding buffer joined_chunks
buffer-IsSplit limit size [] fits = (refl, omega arith, inr (refl, refl, omega arith))
buffer-IsSplit limit size (chunk ∷ chunks) fits =
    elim (Bool-cases (ltb limit (size + length chunk))) [
      | inr within ↦ rw within (
          IsSplit-more limit size chunk chunks (buffer limit (size + length chunk) chunks) (
            buffer-IsSplit limit (size + length chunk) chunks
              (ltb_false→le limit (size + length chunk) within)))
      | inl over ↦ rw over (
        refl,
        ap (λ r. size + length r) (sym (append_nil chunk)),
        inl (
          refl,
          omega (
            arith,
            ltb→lt limit (size + length chunk) over,
            length-append chunk (joined_chunks chunks),
          ),
        ),
      )
    ]

module _ (rewrite_limit max_bytes : ℕ) (rewrites : List (List ℕ × List ℕ))
    (chunks : List (List ℕ)) where
  buffered_body-IsDelivered :
      (b : Buffered)
      → IsSplit rewrite_limit 0 chunks b
      → IsDelivered rewrite_limit max_bytes true rewrites chunks
          (buffered_body max_bytes rewrites b)
  buffered_body-IsDelivered b (parts, total, inl (over, passed)) = rw over (
    inr (omega (arith, passed)),
    rw (sym parts) (
        SentOf-append max_bytes b.size b.read b.left (capped_stream max_bytes b.size b.left) total
          (capped_stream-SentOf max_bytes b.size b.left)),
  )
  buffered_body-IsDelivered b (parts, total, inr (within, ends, fits)) = rw within (
    refl,
    omega (arith, fits),
    ap (λ r. rewrite_all rewrites (joined_chunks r))
        (sym (append_nil b.read) ∙ ap (λ r. b.read ++ r) (sym ends) ∙ parts),
  )

  relay_body-IsDelivered :
      (content_type : String)
      → IsDelivered rewrite_limit max_bytes
          (has_rewrites rewrites && is_textual content_type)
          rewrites
          chunks
          (relay_body rewrite_limit max_bytes content_type rewrites chunks)
  unfolding relay_body
  relay_body-IsDelivered content_type =
      elim (Bool-cases (has_rewrites rewrites && is_textual content_type)) [
        | inl rewritten ↦ rw rewritten (
            buffered_body-IsDelivered (buffer rewrite_limit 0 chunks)
              (buffer-IsSplit rewrite_limit 0 chunks (omega arith)))
        | inr plain ↦ rw plain (inl refl, capped_stream-SentOf max_bytes 0 chunks)
      ]

-- Only headers of the list, which has no cookie and no authentication header.
abbrev pub OnlyRelayed : Dict String → Type 0
OnlyRelayed headers = All (λ (h : String × String). contains relay_headers h.0 ≡ true) headers

keep-All {ℓ} : {A : Type ℓ} (p : A → Bool) (xs : List A) → All (λ x. p x ≡ true) (keep p xs)
keep-All p [] = tt
keep-All p (x ∷ xs) = elim (Bool-cases (p x)) [
  | inl kept ↦ rw kept (kept, keep-All p xs)
  | inr dropped ↦ rw dropped (keep-All p xs)
]

-- A dict whose keys were tested has the entries of the keys that pass.
get-keep :
    (p : String → Bool) (k : String) (d : Dict String)
    → Dict.get k (keep (λ (h : String × String). p h.0) d) ≡ (if p k then Dict.get k d else none)
unfolding Dict.get
get-keep p k [] = ground arith
get-keep p k ((j, v) ∷ d) = elim (Bool-cases (j == k)) [
  | inl own ↦
      let e : p j ≡ p k = ap p ((eq_iff j k).0 own) in
      elim (Bool-cases (p j)) [
        | inl kept ↦ rw (kept, own, sym e ∙ kept) refl
        | inr dropped ↦ rw dropped (get-keep p k d ∙ rw (sym e ∙ dropped) refl)
      ]
  | inr apart ↦ elim (Bool-cases (p j)) [
    | inl kept ↦ rw (kept, apart) (get-keep p k d)
    | inr dropped ↦ rw (dropped, apart) (get-keep p k d)
  ]
]

-- There is a rewrite, and the content type of the answer is a textual one.
abbrev pub is_rewritten : List (List ℕ × List ℕ) → UpstreamResponse → Bool
is_rewritten rewrites u =
    has_rewrites rewrites && is_textual (Dict.get_or "content-type" "" u.headers)

-- An answer of `_relay` is an answer that the upstream gave, with its status; its headers are the
-- upstream's content type, disposition and cache control, with their values, and no others. If there
-- is a rewrite and the content type is textual, its body is the upstream's with every rewrite applied
-- to the whole of it, where that is within the limit of rewriting. Beyond that limit, and for every
-- other answer, it is a stream of all of the upstream's bytes in order, or of a part from their
-- beginning that ends with an error because they pass the limit of the proxy.
pub relay-IsDelivered :
    (rewrite_limit max_bytes : ℕ) (upstream : Option UpstreamResponse)
    (rewrites : List (List ℕ × List ℕ)) (answer : Relayed) (k : String)
    → relay rewrite_limit max_bytes upstream rewrites ≡ ok answer
    → (u : UpstreamResponse) × (upstream ≡ some u)
      × (answer.status ≡ u.status)
      × OnlyRelayed answer.headers
      × (Dict.get k answer.headers
          ≡ (if contains relay_headers k then Dict.get k u.headers else none))
      × IsDelivered rewrite_limit max_bytes (is_rewritten rewrites u) rewrites u.chunks answer.body
unfolding relay kept_headers
relay-IsDelivered rewrite_limit max_bytes none rewrites answer k h = cc
relay-IsDelivered rewrite_limit max_bytes (some u) rewrites answer k h =
    let e : _ ≡ answer = ok-injective h in
    rw (sym e) (
      u,
      refl,
      refl,
      keep-All (λ (h : String × String). contains relay_headers h.0) u.headers,
      get-keep (contains relay_headers) k u.headers,
      relay_body-IsDelivered rewrite_limit max_bytes rewrites u.chunks
          (Dict.get_or "content-type" "" u.headers),
    )

module _ (max_bytes : ℕ) where
  capped_stream_bound :
      (received : ℕ) (chunks : List (List ℕ))
      → received ≤ max_bytes
      → received + length (joined_chunks (capped_stream max_bytes received chunks).0) ≤ max_bytes
  unfolding capped_stream joined_chunks
  capped_stream_bound received [] within = omega (arith, within)
  capped_stream_bound received (chunk ∷ chunks) within =
      elim (Bool-cases (ltb max_bytes (received + length chunk))) [
        | inl over ↦ rw over (omega (arith, within))
        | inr fits ↦
            let later =
              capped_stream_bound (received + length chunk) chunks
                (ltb_false→le max_bytes (received + length chunk) fits) in
            rw fits (
              omega (
                arith,
                later,
                length-append chunk
                    (joined_chunks (capped_stream max_bytes (received + length chunk) chunks).0),
              ))
      ]

-- An answer that is not rewritten (there is no rewrite, or its content type is not textual) gives
-- the client a stream of at most the limit's bytes, however much the upstream sends.
pub relay_body_bound :
    (rewrite_limit max_bytes : ℕ) (content_type : String) (rewrites : List (List ℕ × List ℕ))
    (chunks : List (List ℕ))
    → (has_rewrites rewrites && is_textual content_type) ≡ false
    → (sent : List (List ℕ)) × (failed : Bool) × (relay_body rewrite_limit max_bytes content_type
          rewrites chunks
        ≡ stream sent failed)
      × (length (joined_chunks sent) ≤ max_bytes)
unfolding relay_body
relay_body_bound rewrite_limit max_bytes content_type rewrites chunks plain =
    let s = capped_stream max_bytes 0 chunks in
    (s.0, s.1, rw plain refl, omega (arith, capped_stream_bound max_bytes 0 chunks (omega arith)))
