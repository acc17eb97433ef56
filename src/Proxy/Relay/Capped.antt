-- ===== src/Proxy/Relay/Capped.antt =====
-- What the capped stream of app/proxy.py sends of its chunks.
use masterportal_admin.Base.{
  ℕ, ◌+◌, ◌≤◌, ◌<◌, Bool, true, false, ltb, List, [], ◌∷◌, ◌++◌, length, length-append, ◌≡◌, refl,
  sym, ap, ◌∙◌, ◌⊎◌, inl, inr, arith, Bool-cases,
}
use masterportal_admin.Proxy.Body.{capped_stream}
use masterportal_admin.Proxy.Relay.{Body, whole, stream, joined_chunks, rewrite_all}

-- What a stream that begins after `received` bytes sent of its chunks: all of them, or a part of
-- chunks that pass the limit.
abbrev pub SentOf : ℕ → ℕ → List (List ℕ) → List (List ℕ) × Bool → Type 0
SentOf max_bytes received chunks (sent, failed) =
    ((failed ≡ false) × (joined_chunks sent ≡ joined_chunks chunks))
    ⊎ ((failed ≡ true)
        × (max_bytes < received + length (joined_chunks chunks))
        × (rest : List ℕ) × (joined_chunks sent ++ rest ≡ joined_chunks chunks))

-- What is delivered of an answer that is to be rewritten, or not: the rewritten whole within the
-- limit of rewriting, and a stream beyond it and of every other answer.
abbrev pub IsDelivered : ℕ → ℕ → Bool → List (List ℕ × List ℕ) → List (List ℕ) → Body → Type 0
IsDelivered rewrite_limit max_bytes rewritten rewrites chunks (whole body) =
    (rewritten ≡ true)
    × (length (joined_chunks chunks) ≤ rewrite_limit)
    × (body ≡ rewrite_all rewrites (joined_chunks chunks))
IsDelivered rewrite_limit max_bytes rewritten rewrites chunks (stream sent failed) =
    ((rewritten ≡ false) ⊎ (rewrite_limit < length (joined_chunks chunks)))
    × SentOf max_bytes 0 chunks (sent, failed)

pub ltb→lt : (a b : ℕ) → ltb a b ≡ true → a < b
ltb→lt a b h = ground arith

pub ltb_false→le : (a b : ℕ) → ltb a b ≡ false → b ≤ a
ltb_false→le a b h = ground arith

append_assoc : (xs ys zs : List ℕ) → (xs ++ ys) ++ zs ≡ xs ++ (ys ++ zs)
append_assoc [] ys zs = refl
append_assoc (x ∷ xs) ys zs = ap (λ r. x ∷ r) (append_assoc xs ys zs)

pub append_nil {ℓ} : {A : Type ℓ} (xs : List A) → xs ++ [] ≡ xs
append_nil [] = refl
append_nil (x ∷ xs) = ap (λ r. x ∷ r) (append_nil xs)

joined_chunks-append :
    (xs ys : List (List ℕ)) → joined_chunks (xs ++ ys) ≡ joined_chunks xs ++ joined_chunks ys
unfolding joined_chunks
joined_chunks-append [] ys = refl
joined_chunks-append (x ∷ xs) ys =
    ap (λ r. x ++ r) (joined_chunks-append xs ys)
    ∙ sym (append_assoc x (joined_chunks xs) (joined_chunks ys))

module _ (max_bytes : ℕ) where
  SentOf-cons :
      (received : ℕ) (chunk : List ℕ) (chunks : List (List ℕ)) (s : List (List ℕ) × Bool)
      → SentOf max_bytes (received + length chunk) chunks s
      → SentOf max_bytes received (chunk ∷ chunks) (chunk ∷ s.0, s.1)
  unfolding joined_chunks
  SentOf-cons received chunk chunks (sent, failed) (inl (ends, all)) =
      inl (ends, ap (λ r. chunk ++ r) all)
  SentOf-cons received chunk chunks (sent, failed) (inr (ends, passed, rest, part)) = inr (
    ends,
    omega (arith, passed, length-append chunk (joined_chunks chunks)),
    rest,
    append_assoc chunk (joined_chunks sent) rest ∙ ap (λ r. chunk ++ r) part,
  )

  pub capped_stream-SentOf :
      (received : ℕ) (chunks : List (List ℕ))
      → SentOf max_bytes received chunks (capped_stream max_bytes received chunks)
  unfolding capped_stream joined_chunks
  capped_stream-SentOf received [] = inl (refl, refl)
  capped_stream-SentOf received (chunk ∷ chunks) =
      let later = capped_stream-SentOf (received + length chunk) chunks in
      elim (Bool-cases (ltb max_bytes (received + length chunk))) [
        | inr within ↦ rw within (
            SentOf-cons received chunk chunks
              (capped_stream max_bytes (received + length chunk) chunks) later)
        | inl over ↦ rw over (
            inr (
              refl,
              omega (
                arith,
                ltb→lt max_bytes (received + length chunk) over,
                length-append chunk (joined_chunks chunks),
              ),
              joined_chunks (chunk ∷ chunks),
              refl,
            ))
      ]

  -- The bytes before the stream belong to what is sent.
  pub SentOf-append :
      (size : ℕ) (read left : List (List ℕ)) (s : List (List ℕ) × Bool)
      → size ≡ 0 + length (joined_chunks read)
      → SentOf max_bytes size left s
      → SentOf max_bytes 0 (read ++ left) (read ++ s.0, s.1)
  SentOf-append size read left (sent, failed) total (inl (ends, all)) = inl (
    ends,
    joined_chunks-append read sent
        ∙ ap (λ r. joined_chunks read ++ r) all
        ∙ sym (joined_chunks-append read left),
  )
  SentOf-append size read left (sent, failed) total (inr (ends, passed, rest, part)) = inr (
    ends,
    omega (
      arith,
      passed,
      total,
      length-append (joined_chunks read) (joined_chunks left),
      ap (λ r. length r) (joined_chunks-append read left),
    ),
    rest,
    ap (λ r. r ++ rest) (joined_chunks-append read sent)
        ∙ append_assoc (joined_chunks read) (joined_chunks sent) rest
        ∙ ap (λ r. joined_chunks read ++ r) part
        ∙ sym (joined_chunks-append read left),
  )
