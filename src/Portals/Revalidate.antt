-- ===== src/Portals/Revalidate.antt =====
-- The revalidation of a served document by the tag that was served with it.
use Prim.Native.Char.{code}
use Prim.Native.String
use text.Mathlib.TextLemmas.{
  cons-append, nil-append, append_assoc, append_cancel_left, append_cancel_right,
}
use masterportal_admin.Base.{
  ℕ, String, true, false, ◌==◌, eq_iff, eq_refl, eqb, [], ◌∷◌, none, some, contains, map,
  if◌then◌else◌, ◌≡◌, refl, sym, ap, ◌∙◌, Bool-cases, inl, inr,
}
use masterportal_admin.Base.Text.{
  split, strip, strip_left, strip_right, drop_end, is_space, has_char,
}
use masterportal_admin.Json.{Value}
use masterportal_admin.Db.{Portal}
use masterportal_admin.Proxy.Subpath.Quote.{has_char-append}
use masterportal_admin.Portals.{etag_of, caching_headers, tags_of, answer, serve_config}

-- A text without the separator is one part.
split_free : (c : ℕ) (s : String) → has_char c s ≡ false → split c s ≡ s ∷ []
unfolding split has_char
split_free c String.[] h = refl
split_free c (String.◌∷◌ d s) h = elim (Bool-cases (eqb (code d) c)) [
  | inl same ↦ let h' : true ≡ false = rw same at h in cc
  | inr other ↦ rw other (rw (split_free c s (rw other at h)) refl)
]

-- A closing quote is no blank, so nothing is stripped before it.
strip_right_quoted : (s : String) → strip_right is_space (String.◌++◌ s "\"") ≡ String.◌++◌ s "\""
unfolding strip_right is_space
strip_right_quoted String.[] = refl
strip_right_quoted (String.◌∷◌ d String.[]) = rw (cons-append d "" "\"", nil-append "\"") refl
strip_right_quoted (String.◌∷◌ d (String.◌∷◌ e s)) =
    let later : strip_right is_space (String.◌∷◌ e (String.◌++◌ s "\""))
        ≡ String.◌∷◌ e (String.◌++◌ s "\"") =
      rw (cons-append e s "\"") at (strip_right_quoted (String.◌∷◌ e s)) in
    rw (cons-append d (String.◌∷◌ e s) "\"", cons-append e s "\"") (ap (drop_end is_space d) later)

strip_left_tag : (s : String) → strip_left is_space (String.◌++◌ "W/\"" s) ≡ String.◌++◌ "W/\"" s
unfolding strip_left is_space
strip_left_tag s = rw (cons-append _ _ s) refl

strip-etag_of : (d : String) → strip (etag_of d) ≡ etag_of d
unfolding strip
strip-etag_of d =
    ap (strip_right is_space) (strip_left_tag (String.◌++◌ d "\""))
    ∙ (ap (strip_right is_space) (sym (append_assoc "W/\"" d "\""))
        ∙ strip_right_quoted (String.◌++◌ "W/\"" d)
        ∙ append_assoc "W/\"" d "\"")

has_char-etag_of : (d : String) → has_char b',' d ≡ false → has_char b',' (etag_of d) ≡ false
unfolding has_char
has_char-etag_of d free =
    has_char-append b',' "W/\"" (String.◌++◌ d "\"") ∙ rw (has_char-append b',' d "\"", free) refl

tags_of-etag_of : (d : String) → has_char b',' d ≡ false → tags_of (etag_of d) ≡ etag_of d ∷ []
unfolding tags_of
tags_of-etag_of d free =
    ap (map strip) (split_free b',' (etag_of d) (has_char-etag_of d free))
    ∙ ap (λ t. t ∷ []) (strip-etag_of d)

etag_of-injective : (c d : String) → etag_of c ≡ etag_of d → c ≡ d
etag_of-injective c d h =
    append_cancel_right c d "\""
      (append_cancel_left "W/\"" (String.◌++◌ c "\"") (String.◌++◌ d "\"") h)

contains_one : (c d : String) → contains (etag_of c ∷ []) (etag_of d) ≡ (c == d)
contains_one c d = elim (Bool-cases (c == d)) [
  | inl same ↦ let e : c ≡ d = (eq_iff c d).0 same in rw (e, eq_refl (etag_of d), eq_refl d) refl
  | inr apart ↦ elim (Bool-cases (etag_of c == etag_of d)) [
    | inr other ↦ rw (other, apart) refl
    | inl equal ↦
        let e : c ≡ d = etag_of-injective c d ((eq_iff (etag_of c) (etag_of d)).0 equal) in
        let h : true ≡ false = sym ((eq_iff c d).1 e) ∙ apart in cc
  ]
]

-- A client that sends back the tag that it got with a document of a published portal gets 304 and no
-- body if the document it asks for has the same digest, and the document with 200 otherwise; in both
-- cases with the tag of the document that is served now. The digest is one without a comma, as a
-- hexadecimal one is.
pub serve_config_revalidated :
    (digest : Value → String) (held content : Value) (portal : Portal) (id : ℕ)
    → portal.active_snapshot_id ≡ some id
    → has_char b',' (digest held) ≡ false
    → serve_config digest content (etag_of (digest held)) portal ≡ (
        if digest held == digest content
        then record {
          status = 304;
          body = none;
          headers = caching_headers (etag_of (digest content));
        }
        else record {
          status = 200;
          body = some content;
          headers = caching_headers (etag_of (digest content));
        })
unfolding serve_config
serve_config_revalidated digest held content portal id active free =
    rw (active, serve_config)
      (ap (answer content (etag_of (digest content))) (tags_of-etag_of (digest held) free)
        ∙ rw (contains_one (digest held) (digest content)) refl)
