-- ===== src/Source/Legend/Index.antt =====
-- Each legend URL that a client sees carries the number of the upstream URL that it stands for.
use masterportal_admin.Base.{
  ℕ, ◌+◌, String, Bool, true, Option, none, some, List, [], ◌∷◌, ◌++◌, ◌≡◌, refl, inl, inr, eq_iff,
  ◌≢◌, get_elem?, length, length-append, arith, Option-cases, ◌∙◌, ap, sym,
}
use masterportal_admin.Json.{Value, bool, str, arr, Items, nil, cons, Fields}
use masterportal_admin.Json.Object.{get, set, get-set}
use masterportal_admin.Source.Legend.{
  http_text, urls_in, first_url, legend_urls_of, geo_url, legend_url, rewrite_legend, put_url,
  put_list, put_legends, rewrite_if, secure,
}

-- What stands in the served entry for the value `v` of the stored one: `v` itself, unless it is an
-- upstream URL, or else the proxy's URL with the number of `v` among the upstream URLs.
pub data Served (base key : String) (urls : List String) (v w : Value) : Type 0 where
  as_is : http_text v ≡ none → w ≡ v → Served base key urls v w
  numbered :
      (u : String) (n : ℕ)
      → http_text v ≡ some u
      → w ≡ str (legend_url base key n)
      → get_elem? urls n ≡ some u
      → Served base key urls v w

abbrev pub AllServed : String → String → List String → Items → Items → Type 0
AllServed base key urls nil nil = Unit
AllServed base key urls (cons v vs) (cons w ws) =
    Served base key urls v w × AllServed base key urls vs ws
AllServed base key urls nil (cons _ _) = ⊥
AllServed base key urls (cons _ _) nil = ⊥

get_elem?-append :
    (xs ys : List String) (y : String) → get_elem? (xs ++ y ∷ ys) (length xs) ≡ some y
get_elem?-append [] ys y = refl
get_elem?-append (x ∷ xs) ys y = get_elem?-append xs ys y

append_one :
    (xs : List String) (y : String) (ys : List String) → (xs ++ y ∷ []) ++ ys ≡ xs ++ y ∷ ys
append_one [] y ys = refl
append_one (x ∷ xs) y ys = ap (◌∷◌ x) (append_one xs y ys)

-- The loop started behind the URLs `before`, over the rest of the list.
pub rewrite_legend-AllServed :
    (base key : String) (urls before : List String) (vs : Items) (n : ℕ)
    → n ≡ length before
    → urls ≡ before ++ urls_in vs
    → AllServed base key urls vs (rewrite_legend base key n vs)
unfolding rewrite_legend
rewrite_legend-AllServed base key urls before nil n e h = tt
rewrite_legend-AllServed base key urls before (cons v vs) n e h =
    elim (Option-cases (http_text v)) [
      | inl plain ↦
          rw (plain, rewrite_legend)
            (
              as_is plain refl,
              rewrite_legend-AllServed base key urls before vs n e (rw (plain, urls_in) at h),
            )
      | inr (u, url) ↦
          let h' : urls ≡ before ++ u ∷ urls_in vs = rw (url, urls_in) at h in
          let found : get_elem? urls n ≡ some u =
            rw (h', e) (get_elem?-append before (urls_in vs) u) in
          rw (url, rewrite_legend)
            (
              numbered u n url refl found,
              rewrite_legend-AllServed base key urls (before ++ u ∷ []) vs (n + 1)
                  (omega (arith, length-append before (u ∷ []), e))
                  (h' ∙ sym (append_one before u (urls_in vs))),
            )
    ]

rewrite_legend_none :
    (base key : String) (n : ℕ) (vs : Items) → urls_in vs ≡ [] → rewrite_legend base key n vs ≡ vs
unfolding rewrite_legend
rewrite_legend_none base key n nil h = refl
rewrite_legend_none base key n (cons v vs) h = elim (Option-cases (http_text v)) [
  | inl plain ↦
      rw (plain, rewrite_legend)
        (ap (cons v) (rewrite_legend_none base key n vs (rw (plain, urls_in) at h)))
  | inr (u, url) ↦ let h' : u ∷ urls_in vs ≡ [] = rw (url, urls_in) at h in cc
]

pub get-secure :
    (k : String) (p : Bool) (out : Fields) → k ≢ "isSecured" → get k (secure p out) ≡ get k out
get-secure k p out ne = ground (arith, get-set "isSecured" k (bool true) out, eq_iff "isSecured" k)

pub get-put_url :
    (base key k : String) (out : Fields) (o : Option Value)
    → k ≢ "url"
    → get k (put_url base key out o) ≡ get k out
get-put_url base key k out o ne =
    ground (arith, get-set "url" k (str (geo_url base key)) out, eq_iff "url" k)

pub get-put_list :
    (base key k : String) (n : ℕ) (out : Fields) (o : Option Value)
    → k ≢ "legend"
    → get k (put_list base key n out o) ≡ get k out
get-put_list base key k n out (some (arr vs)) ne =
    ground (arith, get-set "legend" k (arr (rewrite_legend base key n vs)) out, eq_iff "legend" k)
get-put_list base key k n out o ne = ground arith

pub legend-put_list :
    (base key : String) (n : ℕ) (out : Fields) (vs : Items)
    → get "legend" out ≡ some (arr vs)
    → get "legend" (put_list base key n out (get "legend" out))
      ≡ some (arr (rewrite_legend base key n vs))
legend-put_list base key n out vs h = rw (h, put_list) (get-set "legend" "legend" _ out)

-- The entry after the branches of `url`, `legendURL` and `legend`.
abbrev rewritten : String → String → Fields → Fields
rewritten base key attrs =
    rewrite_if (legend_urls_of attrs) base key (put_url base key attrs (get "url" attrs))

pub same_legend_url :
    (base key : String) (attrs : Fields)
    → get "legendURL" (put_url base key attrs (get "url" attrs)) ≡ get "legendURL" attrs
same_legend_url base key attrs =
    get-put_url base key "legendURL" attrs (get "url" attrs)
      (ground (arith, eq_iff "legendURL" "url"))

pub same_legend :
    (base key : String) (attrs : Fields)
    → get "legend" (put_url base key attrs (get "url" attrs)) ≡ get "legend" attrs
same_legend base key attrs =
    get-put_url base key "legend" attrs (get "url" attrs) (ground (arith, eq_iff "legend" "url"))

-- Without a `legendURL` the numbers of `legend` start at 0; a list without URLs stays as it is.
legend_from_zero :
    (base key : String) (out : Fields) (vs : Items) (urls : List String)
    → get "legend" out ≡ some (arr vs)
    → first_url (get "legendURL" out) ≡ []
    → urls ≡ urls_in vs
    → get "legend" (rewrite_if urls base key out) ≡ some (arr (rewrite_legend base key 0 vs))
legend_from_zero base key out vs [] h e same = rw (rewrite_legend_none base key 0 vs (sym same)) h
legend_from_zero base key out vs (u ∷ us) h e same =
    rw (e, put_legends) (legend-put_list base key 0 out vs h)

-- After a `legendURL` they start at 1.
legend_from_one :
    (base key : String) (out : Fields) (vs : Items) (u : String) (us : List String)
    → get "legend" out ≡ some (arr vs)
    → first_url (get "legendURL" out) ≡ u ∷ us
    → get "legend" (rewrite_if (u ∷ us ++ urls_in vs) base key out)
      ≡ some (arr (rewrite_legend base key 1 vs))
legend_from_one base key out vs u us h e =
    rw (e, put_legends)
      (legend-put_list base key 1 (set "legendURL" (str (legend_url base key 0)) out) vs (
        ground (
          arith,
          h,
          get-set "legendURL" "legend" (str (legend_url base key 0)) out,
          eq_iff "legendURL" "legend",
        )))

pub legend-rewrite_if :
    (base key : String) (out : Fields) (vs : Items) (o : Option Value)
    → get "legend" out ≡ some (arr vs)
    → get "legendURL" out ≡ o
    → get "legend" (rewrite_if (first_url o ++ urls_in vs) base key out)
      ≡ some (arr (rewrite_legend base key (length (first_url o)) vs))
legend-rewrite_if base key out vs none h e =
    legend_from_zero base key out vs (urls_in vs) h (ap first_url e) refl
legend-rewrite_if base key out vs (some v) h e = elim (Option-cases (http_text v)) [
  | inl plain ↦
      rw (plain, first_url)
        (legend_from_zero base key out vs (urls_in vs) h (rw (e) (rw (plain, first_url) refl)) refl)
  | inr (u, url) ↦
      rw (url, first_url)
        (legend_from_one base key out vs u [] h (rw (e) (rw (url, first_url) refl)))
]
