-- ===== src/PortalConfig/Form/Roundtrip.antt =====
-- What the settings form reads after a patch is what the patch wrote.
use masterportal_admin.Base.{
  String, true, ◌==◌, eq_iff, Option, none, some, List, [], ◌∷◌, contains, Result, ok, ◌>>=◌,
  >>=-eq-ok, ok-injective, if◌then◌else◌, ◌≡◌, refl, sym, ap, ◌∙◌, arith, Bool-cases, Option-cases,
  inl, inr,
}
use masterportal_admin.Json.{Value, null, bool, int, float, arr, obj, str, Fields, end}
use masterportal_admin.Json.Object.{get, set, get_or, is_true, get-set}
use masterportal_admin.Json.Update.{value_or, with_default}
use masterportal_admin.Access.Menu.Keeps.{entry}
use masterportal_admin.PortalConfig.{controls}
use masterportal_admin.PortalConfig.Form.{
  dict_at, title_keys, texts_of, title_of, extract_settings, footer_of, map_of, switches_of,
  menu_types_of, put_texts, apply_title, when_patched, apply_settings,
}
use masterportal_admin.PortalConfig.Form.Frame.{with_default-ok, apply_settings-ok}
use masterportal_admin.PortalConfig.Form.Title.{text_of, title_shown, read_back, text_of-put_texts}

abbrev menu_text : String → Value → Result Value
menu_text k main = do title ← dict_at "title" main; get_or title k (str "")

get_or_dict :
    (k : String) (default : Value) (d : Fields)
    → get_or (obj d) k default ≡ ok (value_or default (get k d))
unfolding get_or
get_or_dict k default d = elim (Option-cases (get k d)) [
  | inl e ↦ rw (e, get_or) refl
  | inr (w, e) ↦ rw (e, get_or) refl
]

menu_text_dict :
    (k : String) (m : Fields) → menu_text k (obj m) ≡ text_of k (value_or (obj end) (get "title" m))
menu_text_dict k m = rw (get_or_dict "title" (obj end) m) refl

-- The title of a menu.
menu_text-written :
    (k : String) (t : Fields) (main changed : Value)
    → contains title_keys k ≡ true
    → with_default "title" (obj end) (put_texts title_keys (obj t)) main ≡ ok changed
    → menu_text k changed ≡ read_back (get k t) (menu_text k main)
menu_text-written k t (obj m) changed listed h =
    let (w, h1, h2) =
      >>=-eq-ok (put_texts title_keys (obj t) (value_or (obj end) (get "title" m))) _ h in
    let placed : value_or (obj end) (get "title" (set "title" w m)) ≡ w =
      let e : get "title" (set "title" w m) ≡ some w = get-set "title" "title" w m in
      ap (value_or (obj end)) e in
    ap (menu_text k) (sym (ok-injective h2))
    ∙ menu_text_dict k (set "title" w m)
    ∙ ap (text_of k) placed
    ∙ text_of-put_texts k t (value_or (obj end) (get "title" m)) w listed h1
    ∙ ap (read_back (get k t)) (sym (menu_text_dict k m))
menu_text-written k t (arr vs) changed listed h = cc
menu_text-written k t (str s) changed listed h = cc
menu_text-written k t null changed listed h = cc
menu_text-written k t (bool b) changed listed h = cc
menu_text-written k t (int n) changed listed h = cc
menu_text-written k t (float r) changed listed h = cc

title_shown-entry :
    (k : String) (pc w : Value) → entry "mainMenu" pc ≡ some w → title_shown k pc ≡ menu_text k w
unfolding get_or
title_shown-entry k (obj d) w e = rw (get_or_dict "mainMenu" (obj end) d) (rw e refl)
title_shown-entry k (arr vs) w e = cc
title_shown-entry k (str s) w e = cc
title_shown-entry k null w e = cc
title_shown-entry k (bool b) w e = cc
title_shown-entry k (int n) w e = cc
title_shown-entry k (float r) w e = cc

title_shown-written :
    (k : String) (t : Fields) (pc titled : Value)
    → contains title_keys k ≡ true
    → apply_title (obj t) pc ≡ ok titled
    → (w : Value) × (entry "mainMenu" titled ≡ some w)
      × (menu_text k w ≡ read_back (get k t) (title_shown k pc))
unfolding apply_title
title_shown-written k t (obj d) titled listed h =
    let main = value_or (obj end) (get "mainMenu" d) in
    let (w, ran, placed, kept) =
      with_default-ok "mainMenu" (obj end)
        (with_default "title" (obj end) (put_texts title_keys (obj t))) (obj d) titled h in
    (
      w,
      placed,
      menu_text-written k t main w listed ran ∙ rw (get_or_dict "mainMenu" (obj end) d) refl,
    )
title_shown-written k t (arr vs) titled listed h = cc
title_shown-written k t (str s) titled listed h = cc
title_shown-written k t null titled listed h = cc
title_shown-written k t (bool b) titled listed h = cc
title_shown-written k t (int n) titled listed h = cc
title_shown-written k t (float r) titled listed h = cc

title_shown-apply_settings :
    (pc changed : Value) (patch t : Fields) (k : String)
    → apply_settings pc patch ≡ ok changed
    → get "title" patch ≡ some (obj t)
    → contains title_keys k ≡ true
    → title_shown k changed ≡ read_back (get k t) (title_shown k pc)
title_shown-apply_settings pc changed patch t k h given listed =
    let (titled, first, rest) = apply_settings-ok pc changed patch h in
    let (w, placed, written_back) =
      title_shown-written k t pc titled listed (rw (given, when_patched) at first) in
    title_shown-entry k changed w (rest "mainMenu" (ground arith) (ground arith) ∙ placed)
    ∙ written_back

-- A text of the form that `extract_settings` returns.
abbrev pub form_text : String → Value → Option Value
form_text k form = elim (entry "title" form) [ some title ↦ entry k title | none ↦ none ]

get-texts_of :
    (title : Value) (ks : List String) (d : Fields) (k : String)
    → texts_of title ks ≡ ok d
    → contains ks k ≡ true
    → (x : Value) × (get_or title k (str "") ≡ ok x) × (get k d ≡ some x)
unfolding texts_of get
get-texts_of title [] d k h listed = cc
get-texts_of title (j ∷ ks) d k h listed =
    let (v, h1, h2) = >>=-eq-ok (get_or title j (str "")) _ h in
    let (rest, h3, h4) = >>=-eq-ok (texts_of title ks) _ h2 in
    elim (Bool-cases (j == k)) [
      | inl here ↦
          let e : j ≡ k = (eq_iff j k).0 here in
          (v, rw e at h1, ap (get k) (sym (ok-injective h4)) ∙ rw (here, get) refl)
      | inr later ↦
          let (x, got, found) = get-texts_of title ks rest k h3 (rw later at listed) in
          (x, got, ap (get k) (sym (ok-injective h4)) ∙ rw (later, get) found)
    ]

form_text-extract_settings :
    (pc form : Value) (k : String)
    → extract_settings pc ≡ ok form
    → contains title_keys k ≡ true
    → (x : Value) × (title_shown k pc ≡ ok x) × (form_text k form ≡ some x)
unfolding extract_settings title_of get
form_text-extract_settings pc form k h listed =
    let (title, h1, r1) = >>=-eq-ok (title_of pc) _ h in
    let (mapc, h2, r2) = >>=-eq-ok (get_or pc "map" (obj end)) _ r1 in
    let (view, h3, r3) = >>=-eq-ok (dict_at "mapView" mapc) _ r2 in
    let (switch_config, h4, r4) = >>=-eq-ok (dict_at "controls" mapc) _ r3 in
    let (urls, h5, r5) = >>=-eq-ok (footer_of pc) _ r4 in
    let (map_settings, h6, r6) = >>=-eq-ok (map_of mapc view) _ r5 in
    let (switches, h7, r7) = >>=-eq-ok (switches_of switch_config controls) _ r6 in
    let (main, h8, r8) = >>=-eq-ok (menu_types_of "mainMenu" pc) _ r7 in
    let (secondary, h9, r9) = >>=-eq-ok (menu_types_of "secondaryMenu" pc) _ r8 in
    let (menu, t1, t2) = >>=-eq-ok (get_or pc "mainMenu" (obj end)) _ h1 in
    let (shown, t3, t4) = >>=-eq-ok (dict_at "title" menu) _ t2 in
    let (x, got, found) = get-texts_of shown title_keys title k t4 listed in
    (x, rw (t1, t3) got, ap (form_text k) (sym (ok-injective r9)) ∙ found)

-- The text that the form is to show: the given one, the empty text for an empty value, and the text
-- that it showed before for a key that is not given.
abbrev pub shown_after : Option Value → Option Value → Option Value
shown_after none before = before
shown_after (some v) before = some (if is_true v then v else str "")

shown_after-read_back :
    (o : Option Value) (r : Result Value) (old x : Value) (before after : Option Value)
    → r ≡ ok old
    → before ≡ some old
    → ok x ≡ read_back o r
    → after ≡ some x
    → after ≡ shown_after o before
shown_after-read_back none r old x before after e f g h = cc
shown_after-read_back (some v) r old x before after e f g h = h ∙ ap some (ok-injective g)

-- If a patch with a title is applied, and the form is read before and after it, then each text of the
-- title reads as the patch gives it, as the empty text where the patch gives an empty value, and as
-- before where the patch does not give it.
pub form_text-apply_settings :
    (pc changed before after : Value) (patch t : Fields) (k : String)
    → apply_settings pc patch ≡ ok changed
    → get "title" patch ≡ some (obj t)
    → extract_settings pc ≡ ok before
    → extract_settings changed ≡ ok after
    → contains title_keys k ≡ true
    → form_text k after ≡ shown_after (get k t) (form_text k before)
form_text-apply_settings pc changed before after patch t k h given read read' listed =
    let (old, e, f) = form_text-extract_settings pc before k read listed in
    let (x, e', f') = form_text-extract_settings changed after k read' listed in
    shown_after-read_back (get k t) (title_shown k pc) old x (form_text k before)
      (form_text k after) e f
      (sym e' ∙ title_shown-apply_settings pc changed patch t k h given listed) f'
