-- ===== src/Proxy/Subpath/Quote.antt =====
-- What `quote` of a segment cannot be: it holds no slash, and is no run of dots unless the segment is.
use Prim.Native.Char.{Char, code}
use Prim.Native.String
use text.Mathlib.TextLemmas.{cons-append, nil-append, cons-eq-cons, nil≢cons}
use mathlib.Core.Logic.{◌≢◌}
use masterportal_admin.Base.{
  ℕ, zero, suc, ◌/◌, ◌%◌, String, true, false, ◌≡◌, refl, sym, ◌∙◌, ap, ◌||◌, eqb, if◌then◌else◌,
  List, [], ◌∷◌, ◌⊎◌, inl, inr, arith, Bool-cases, List-cases,
}
use masterportal_admin.Base.Text.{has_char}
use masterportal_admin.Base.Bytes.{quote, percent, percents, hex_upper, pick, utf8, is_unreserved}
use masterportal_admin.Proxy.Subpath.{is_safe}

pub has_char-append :
    (c : ℕ) (s t : String) → has_char c (String.◌++◌ s t) ≡ (has_char c s || has_char c t)
unfolding has_char
has_char-append c String.[] t = rw (nil-append t) refl
has_char-append c (String.◌∷◌ d s) t =
    rw (cons-append d s t) (ground (arith, has_char-append c s t))

has_char-pick : (c n : ℕ) (s : String) → has_char c s ≡ false → has_char c (pick n s) ≡ false
unfolding has_char pick
has_char-pick c n String.[] h = refl
has_char-pick c zero (String.◌∷◌ d s) h = ground arith
has_char-pick c (suc n) (String.◌∷◌ d s) h = ground (arith, has_char-pick c n s)

percent_free : (b : ℕ) → has_char b'/' (percent b) ≡ false
unfolding percent hex_upper
percent_free b =
    has_char-append b'/' "%" _
    ∙ rw (has_char-append b'/' (hex_upper (b / 16)) _) (
        rw (has_char-append b'/' (hex_upper (b % 16)) "") (
          unfold has_char pick in
          ground (
            arith,
            has_char-pick b'/' (b / 16) "0123456789ABCDEF" refl,
            has_char-pick b'/' (b % 16) "0123456789ABCDEF" refl,
          )))

nil_free : (c : ℕ) → has_char c "" ≡ false
unfolding has_char
nil_free c = refl

percents_free : (bytes : List ℕ) → has_char b'/' (percents bytes) ≡ false
unfolding percents
percents_free [] = nil_free b'/'
percents_free (b ∷ bytes) =
    has_char-append b'/' (percent b) (percents bytes) ∙ cc (percent_free b, percents_free bytes)

slash_kept : (c : ℕ) → (is_unreserved c || is_safe c) ≡ true → eqb c b'/' ≡ false
unfolding is_unreserved is_safe
slash_kept c h = elim (Bool-cases (eqb c b'/')) [
  | inr other ↦ other
  | inl slash ↦
      let e : c ≡ b'/' = ground arith in
      let h' : (is_unreserved b'/' || is_safe b'/') ≡ true = rw e at h in cc
]

-- What `quote` makes of one character before a quoted text.
quoted_char : Char → String → String
quoted_char c rest =
    if is_unreserved (code c) || is_safe (code c)
    then String.◌∷◌ c rest
    else String.◌++◌ (percents (utf8 (code c))) rest

quote-cons :
    (c : Char) (s : String) → quote is_safe (String.◌∷◌ c s) ≡ quoted_char c (quote is_safe s)
unfolding quote quoted_char
quote-cons c s = refl

quoted_char_free :
    (c : Char) (rest : String)
    → has_char b'/' rest ≡ false
    → has_char b'/' (quoted_char c rest) ≡ false
unfolding quoted_char
quoted_char_free c rest h = elim (Bool-cases (is_unreserved (code c) || is_safe (code c))) [
  | inl plain ↦ rw plain (unfold has_char in rw (slash_kept (code c) plain) h)
  | inr other ↦
      rw other (
        has_char-append b'/' (percents (utf8 (code c))) rest
        ∙ cc (percents_free (utf8 (code c)), h))
]

pub quote_free : (s : String) → has_char b'/' (quote is_safe s) ≡ false
quote_free String.[] = empty
  where
    empty : has_char b'/' (quote is_safe "") ≡ false
    empty = unfold has_char quote in refl
quote_free (String.◌∷◌ c s) =
    rw (quote-cons c s) (quoted_char_free c (quote is_safe s) (quote_free s))

-- A part that can stand between two slashes without leaving the directory above it.
abbrev pub IsPlain : String → Type 0
IsPlain s = (s ≢ "") × (s ≢ ".") × (s ≢ "..")

abbrev first_code : String → ℕ
first_code String.[] = 0
first_code (String.◌∷◌ c s) = code c

utf8-ne-nil : (n : ℕ) → utf8 n ≢ []
unfolding utf8
utf8-ne-nil n e = ground arith

utf8_cons : (n : ℕ) → (b : ℕ) × (bytes : List ℕ) × (utf8 n ≡ b ∷ bytes)
utf8_cons n = elim (List-cases (utf8 n)) [ inl e ↦ absurd (utf8-ne-nil n e) | inr found ↦ found ]

abbrev percent_sign : Char
percent_sign = "%"

percent_cons : (b : ℕ) → (t : String) × (percent b ≡ String.◌∷◌ percent_sign t)
unfolding percent
percent_cons b = (_, cons-append percent_sign "" _)

-- What is encoded begins with `%`.
percent_first :
    (c : Char) (rest : String)
    → (t : String) × (String.◌++◌ (percents (utf8 (code c))) rest ≡ String.◌∷◌ percent_sign t)
percent_first c rest =
    let (b, bytes, e) = utf8_cons (code c) in
    let (t, first) = percent_cons b in
    (
      String.◌++◌ (String.◌++◌ t (percents bytes)) rest,
      rw e (unfold percents in rw first (rw cons-append (rw cons-append refl))),
    )

quoted_char_cases :
    (c : Char) (rest : String)
    → (quoted_char c rest ≡ String.◌∷◌ c rest)
      ⊎ ((t : String) × (quoted_char c rest ≡ String.◌∷◌ percent_sign t))
unfolding quoted_char
quoted_char_cases c rest = elim (Bool-cases (is_unreserved (code c) || is_safe (code c))) [
  | inl plain ↦ inl (rw plain refl)
  | inr other ↦ inr (rw other (percent_first c rest))
]

-- A text of dots is quoted from itself alone.
quote-nil : (s : String) → quote is_safe s ≡ "" → s ≡ ""
quote-nil String.[] h = refl
quote-nil (String.◌∷◌ c s) h = elim (quoted_char_cases c (quote is_safe s)) [
  | inl e ↦ absurd (nil≢cons (sym h ∙ quote-cons c s ∙ e))
  | inr (t, e) ↦ absurd (nil≢cons (sym h ∙ quote-cons c s ∙ e))
]

abbrev dot_char : Char
dot_char = "."

percent_not_dot : ¬ (percent_sign ≡ dot_char)
percent_not_dot e = absurd (omega (arith, ap code e))

quote-dot :
    (s u : String)
    → quote is_safe s ≡ String.◌∷◌ dot_char u
    → (r : String) × (s ≡ String.◌∷◌ dot_char r) × (quote is_safe r ≡ u)
quote-dot String.[] u h = absurd (nil≢cons (empty ∙ h))
  where
    empty : Path String "" (quote is_safe "")
    empty = unfold quote in refl
quote-dot (String.◌∷◌ c s) u h = elim (quoted_char_cases c (quote is_safe s)) [
  | inl e ↦
      let (head, tail) = cons-eq-cons.0 (sym e ∙ sym (quote-cons c s) ∙ h) in
      (s, ap (λ d. String.◌∷◌ d s) head, tail)
  | inr (t, e) ↦ absurd (percent_not_dot ((cons-eq-cons.0 (sym e ∙ sym (quote-cons c s) ∙ h)).0))
]

pub quote-IsPlain : (s : String) → IsPlain s → IsPlain (quote is_safe s)
quote-IsPlain s (n0, n1, n2) = (
  λ h. n0 (quote-nil s h),
  λ h. let (r, e, hr) = quote-dot s "" h in n1 (e ∙ ap (String.◌∷◌ dot_char) (quote-nil r hr)),
  λ h.
      let (r, e, hr) = quote-dot s "." h in
      let (q, e', hq) = quote-dot r "" hr in
      n2 (e ∙ ap (String.◌∷◌ dot_char) (e' ∙ ap (String.◌∷◌ dot_char) (quote-nil q hq))),
)
