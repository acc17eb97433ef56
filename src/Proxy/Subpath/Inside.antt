-- ===== src/Proxy/Subpath/Inside.antt =====
-- The sub-path never leaves the pinned base.
use Prim.Native.String
use text.Mathlib.TextLemmas.{cons-append, nil-append, append-nil}
use masterportal_admin.Base.{
  ℕ, String, false, ◌≡◌, refl, ◌∙◌, ap, ◌||◌, not, ◌==◌, eq_iff, List, [], ◌∷◌, map, keep, All,
  contains, ok, err, http, ◌⊎◌, inl, inr, arith, Bool-cases, ok-injective,
}
use masterportal_admin.Base.Text.{split, concat, has_char}
use masterportal_admin.Base.Bytes.{quote}
use masterportal_admin.Proxy.Subpath.{join, segments_of, is_safe, joined, join_subpath}
use masterportal_admin.Proxy.Subpath.Quote.{IsPlain, quote_free, quote-IsPlain}

split_free : (c : ℕ) (s : String) → has_char c s ≡ false → split c s ≡ s ∷ []
unfolding split has_char
split_free c String.[] h = refl
split_free c (String.◌∷◌ d s) h = ground (arith, split_free c s)

split_first :
    (s t : String)
    → has_char b'/' s ≡ false
    → split b'/' (String.◌++◌ s (String.◌++◌ "/" t)) ≡ s ∷ split b'/' t
unfolding split has_char
split_first String.[] t h =
    rw (nil-append (String.◌++◌ "/" t)) (rw (cons-append _ "" t) (rw (nil-append t) refl))
split_first (String.◌∷◌ d s) t h =
    rw (cons-append d s (String.◌++◌ "/" t)) (ground (arith, split_first s t))

-- Splitting undoes joining, for parts without a slash.
split-join :
    (s : String) (segments : List String)
    → All (λ s. has_char b'/' s ≡ false) (s ∷ segments)
    → split b'/' (join (s ∷ segments)) ≡ s ∷ segments
unfolding join
split-join s [] (h, _) = split_free b'/' s h
split-join s (t ∷ rest) (h, k) =
    ap (λ r. split b'/' (String.◌++◌ s (String.◌++◌ "/" r))) (append-nil (join (t ∷ rest)))
    ∙ split_first s (join (t ∷ rest)) h
    ∙ ap (◌∷◌ s) (split-join t rest k)

segments-IsPlain :
    (segments : List String)
    → contains (keep (λ s. not (s == "" || s == ".")) segments) ".." ≡ false
    → All IsPlain (keep (λ s. not (s == "" || s == ".")) segments)
segments-IsPlain [] h = tt
segments-IsPlain (s ∷ segments) h = elim (Bool-cases (s == "" || s == ".")) [
  | inl dropped ↦ rw dropped (segments-IsPlain segments (rw dropped at h))
  | inr kept ↦
      let h' : (s == ".." || contains (keep (λ s. not (s == "" || s == ".")) segments) "..")
          ≡ false =
        rw kept at h in
      rw kept (
        ground (arith, eq_iff s "", eq_iff s ".", eq_iff s ".."),
        segments-IsPlain segments (ground arith),
      )
]

All-quote :
    (segments : List String) → All IsPlain segments → All IsPlain (map (quote is_safe) segments)
All-quote [] h = tt
All-quote (s ∷ segments) (p, h) = (quote-IsPlain s p, All-quote segments h)

All-free :
    (segments : List String) → All (λ s. has_char b'/' s ≡ false) (map (quote is_safe) segments)
All-free [] = tt
All-free (s ∷ segments) = (quote_free s, All-free segments)

joined_inside :
    (base : String) (segments : List String)
    → All IsPlain segments
    → (joined base segments ≡ base)
      ⊎ ((rest : String) × (joined base segments ≡ concat (base ∷ "/" ∷ rest ∷ []))
          × All IsPlain (split b'/' rest))
joined_inside base [] h = inl refl
joined_inside base (s ∷ segments) h = inr (
  join (map (quote is_safe) (s ∷ segments)),
  refl,
  rw (split-join (quote is_safe s) (map (quote is_safe) segments) (All-free (s ∷ segments)))
      (All-quote (s ∷ segments) h),
)

-- If `_join_subpath` returns a target, it is the base, or the base with a slash and a path behind it
-- none of whose parts between slashes is empty, `.` or `..`.
pub join_subpath_inside :
    (base subpath target : String)
    → join_subpath base subpath ≡ ok target
    → (target ≡ base)
      ⊎ ((rest : String) × (target ≡ concat (base ∷ "/" ∷ rest ∷ []))
          × All IsPlain (split b'/' rest))
unfolding join_subpath
join_subpath_inside base subpath target h =
    elim (Bool-cases (contains (segments_of subpath) ".." || has_char b'\\' subpath)) [
      | inl refused ↦ let h' : err (http 400) ≡ ok target = rw refused at h in cc
      | inr fine ↦ rw (← ok-injective (rw fine at h)) (
          joined_inside base (segments_of subpath)
            (unfold segments_of in segments-IsPlain (split b'/' subpath) (ground arith)))
    ]
