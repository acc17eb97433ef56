-- ===== src/Source/Legend/Entry.antt =====
-- What `public_service_attrs` of app/configsrc.py serves for a stored entry.
use masterportal_admin.Base.{
  String, Bool, true, false, some, List, [], ◌∷◌, ◌++◌, ◌≡◌, refl, inl, inr, eq_iff, ◌≢◌, length,
  arith, Option-cases, List-cases, ◌∙◌,
}
use masterportal_admin.Json.{Value, bool, str, arr, Items, Fields}
use masterportal_admin.Json.Object.{get, set, get-set}
use masterportal_admin.Source.Legend.{
  http_text, urls_in, first_url, list_urls, legend_urls_of, geo_url, legend_url, rewrite_legend,
  put_url, put_legends, rewrite_if, public_service_attrs,
}
use masterportal_admin.Source.Legend.Index.{
  Served, as_is, numbered, AllServed, get-put_url, get-put_list, get-secure, same_legend_url,
  same_legend, legend-rewrite_if, rewrite_legend-AllServed,
}

get-rewrite_if :
    (base key k : String) (urls : List String) (out : Fields)
    → k ≢ "legendURL"
    → k ≢ "legend"
    → get k (rewrite_if urls base key out) ≡ get k out
get-rewrite_if base key k [] out n1 n2 = refl
get-rewrite_if base key k (_ ∷ _) out n1 n2 = elim (List-cases (first_url (get "legendURL" out))) [
  | inl e ↦ rw (e, put_legends) (get-put_list base key k 0 out (get "legend" out) n2)
  | inr (u, us, e) ↦
      let out' = set "legendURL" (str (legend_url base key 0)) out in
      rw (e, put_legends)
        (get-put_list base key k 1 out' (get "legend" out') n2
          ∙ ground (
            arith,
            get-set "legendURL" k (str (legend_url base key 0)) out,
            eq_iff "legendURL" k,
          ))
]

legend_url_plain :
    (base key : String) (out : Fields) (urls : List String)
    → first_url (get "legendURL" out) ≡ []
    → get "legendURL" (rewrite_if urls base key out) ≡ get "legendURL" out
legend_url_plain base key out [] h = refl
legend_url_plain base key out (_ ∷ _) h =
    rw (h, put_legends)
      (get-put_list base key "legendURL" 0 out (get "legend" out)
        (ground (arith, eq_iff "legendURL" "legend")))

legend_url_numbered :
    (base key : String) (out : Fields) (u : String) (us rest : List String)
    → first_url (get "legendURL" out) ≡ u ∷ us
    → get "legendURL" (rewrite_if (u ∷ rest) base key out) ≡ some (str (legend_url base key 0))
legend_url_numbered base key out u us rest h =
    let out' = set "legendURL" (str (legend_url base key 0)) out in
    rw (h, put_legends)
      (get-put_list base key "legendURL" 1 out' (get "legend" out')
          (ground (arith, eq_iff "legendURL" "legend"))
        ∙ get-set "legendURL" "legendURL" (str (legend_url base key 0)) out)

-- The `legend` list of the served entry has, for each value of the stored list, that value, or the
-- proxy's URL with the number under which `legend_urls_of` has it, if the value is an upstream URL.
pub legend-public_service_attrs :
    (base key : String) (attrs : Fields) (is_public : Bool) (vs : Items)
    → get "legend" attrs ≡ some (arr vs)
    → (ws : Items) × (get "legend" (public_service_attrs base key attrs is_public) ≡ some (arr ws))
      × AllServed base key (legend_urls_of attrs) vs ws
unfolding public_service_attrs
legend-public_service_attrs base key attrs is_public vs h =
    let first = first_url (get "legendURL" attrs) in
    let urls : legend_urls_of attrs ≡ first ++ urls_in vs = rw (h, legend_urls_of) refl in
    (
      rewrite_legend base key (length first) vs,
      get-secure "legend" is_public _ (ground (arith, eq_iff "legend" "isSecured"))
          ∙ rw urls (
              legend-rewrite_if base key (put_url base key attrs (get "url" attrs)) vs
                (get "legendURL" attrs) (same_legend base key attrs ∙ h)
                (same_legend_url base key attrs)),
      rewrite_legend-AllServed base key (legend_urls_of attrs) first vs (length first) refl urls,
    )

-- The `legendURL` of the served entry is the stored one, or the proxy's URL with the number under
-- which `legend_urls_of` has it, if it is an upstream URL.
pub legend_url-public_service_attrs :
    (base key : String) (attrs : Fields) (is_public : Bool) (v : Value)
    → get "legendURL" attrs ≡ some v
    → (w : Value) × (get "legendURL" (public_service_attrs base key attrs is_public) ≡ some w)
      × Served base key (legend_urls_of attrs) v w
unfolding public_service_attrs
legend_url-public_service_attrs base key attrs is_public v h =
    let out = put_url base key attrs (get "url" attrs) in
    let same : get "legendURL" out ≡ some v = same_legend_url base key attrs ∙ h in
    let unsecured = λ (o : Fields).
      get-secure "legendURL" is_public o (ground (arith, eq_iff "legendURL" "isSecured")) in
    elim (Option-cases (http_text v)) [
      | inl plain ↦ (
        v,
        unsecured _
            ∙ legend_url_plain base key out (legend_urls_of attrs)
                (rw (same, first_url) (rw plain refl))
            ∙ same,
        as_is plain refl,
      )
      | inr (u, url) ↦
          let urls : legend_urls_of attrs ≡ u ∷ list_urls (get "legend" attrs) =
            rw (h, legend_urls_of) (rw (url, first_url) refl) in
          (
            str (legend_url base key 0),
            unsecured _
                ∙ rw urls (
                    legend_url_numbered base key out u [] (list_urls (get "legend" attrs))
                      (rw (same, first_url) (rw url refl))),
            numbered u 0 url refl (rw urls refl),
          )
    ]

-- No entry but `url`, `legendURL`, `legend` and `isSecured` changes; a textual `url` becomes the
-- proxy's; and an entry that is not public is marked.
pub get-public_service_attrs :
    (base key : String) (attrs : Fields) (is_public : Bool)
    → ((k : String)
        → k ≢ "url"
        → k ≢ "legendURL"
        → k ≢ "legend"
        → k ≢ "isSecured"
        → get k (public_service_attrs base key attrs is_public) ≡ get k attrs)
      × ((u : String)
          → get "url" attrs ≡ some (str u)
          → get "url" (public_service_attrs base key attrs is_public)
            ≡ some (str (geo_url base key)))
      × (is_public ≡ false
          → get "isSecured" (public_service_attrs base key attrs is_public) ≡ some (bool true))
unfolding public_service_attrs
get-public_service_attrs base key attrs is_public = (
  λ k n1 n2 n3 n4.
      get-secure k is_public _ n4
      ∙ get-rewrite_if base key k (legend_urls_of attrs) _ n2 n3
      ∙ get-put_url base key k attrs (get "url" attrs) n1,
  λ u h.
      get-secure "url" is_public _ (ground (arith, eq_iff "url" "isSecured"))
      ∙ get-rewrite_if base key "url" (legend_urls_of attrs) _
          (ground (arith, eq_iff "url" "legendURL")) (ground (arith, eq_iff "url" "legend"))
      ∙ rw (h, put_url) (get-set "url" "url" _ attrs),
  λ h. rw h (get-set "isSecured" "isSecured" _ _),
)
