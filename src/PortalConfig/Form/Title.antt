-- ===== src/PortalConfig/Form/Title.antt =====
-- What the form does to the title's own texts.
use masterportal_admin.Base.{
  String, true, false, ◌||◌, ◌==◌, eq_iff, Option, none, some, List, [], ◌∷◌, contains, Result, ok,
  err, Error, ◌>>=◌, >>=-eq-ok, ok-injective, if◌then◌else◌, ◌≡◌, refl, sym, ap, ◌∙◌, arith,
  Bool-cases, Option-cases, inl, inr,
}
use masterportal_admin.Json.{Value, null, bool, int, float, arr, obj, str, Fields, end, field}
use masterportal_admin.Json.Object.{
  get, set, remove, get_or, or_else, is_true, is_dict, get-set, get-remove,
}
use masterportal_admin.Json.Update.{value_or}
use masterportal_admin.PortalConfig.Form.{dict_at, title_keys, when_member, put_or_pop, put_texts}

-- What a key of the title has after the form: nothing given keeps it, an empty value removes it.
abbrev pub written : Option Value → Option Value → Option Value
written none old = old
written (some v) old = if is_true v then some v else none

-- `if k in t: f(t[k])` for a dict, by what it has there.
abbrev at_key : (Value → Value → Result Value) → Value → Option Value → Result Value
at_key f target o =
    if (elim o [ none ↦ false | some v ↦ true ])
    then elim o [ none ↦ err Error.key_error | some v ↦ ok v ] >>= (λ v. f v target)
    else ok target

when_member_dict :
    (k : String) (t : Fields) (f : Value → Value → Result Value) (target : Value) (o : Option Value)
    → get k t ≡ o
    → when_member k (obj t) f target ≡ at_key f target o
when_member_dict k t f target o e = ap (at_key f target) e

-- One key of a title that is a dict.
put_key-get :
    (k : String) (t d : Fields) (changed : Value)
    → when_member k (obj t) (put_or_pop k) (obj d) ≡ ok changed
    → (d' : Fields) × (changed ≡ obj d')
      × ((j : String) → get j d' ≡ (if k == j then written (get k t) (get k d) else get j d))
put_key-get k t d changed h = elim (Option-cases (get k t)) [
  | inl missing ↦ (
    d,
    sym (ok-injective (sym (when_member_dict k t (put_or_pop k) (obj d) none missing) ∙ h)),
    λ j. rw missing (ground (arith, eq_iff k j)),
  )
  | inr (v, there) ↦ elim (Bool-cases (is_true v)) [
    | inl full ↦ (
      set k v d,
      sym (
          ok-injective
            (rw full at (sym (when_member_dict k t (put_or_pop k) (obj d) (some v) there) ∙ h))),
      λ j. get-set k j v d ∙ rw (there, full) refl,
    )
    | inr empty ↦ (
      remove k d,
      sym (
          ok-injective
            (rw empty at (sym (when_member_dict k t (put_or_pop k) (obj d) (some v) there) ∙ h))),
      λ j. get-remove k j d ∙ rw (there, empty) refl,
    )
  ]
]

written_twice : (o old : Option Value) → written o (written o old) ≡ written o old
written_twice none old = refl
written_twice (some v) old = refl

put_twice :
    (k : String) (ks : List String) (t d : Fields) (j : String) (now : Option Value)
    → now ≡ (if k == j then written (get k t) (get k d) else get j d)
    → (if contains ks j then written (get j t) now else now)
      ≡ (if k == j || contains ks j then written (get j t) (get j d) else get j d)
put_twice k ks t d j now e = elim (Bool-cases (k == j)) [
  | inr other ↦ rw (e, other) refl
  | inl same ↦
      let own : now ≡ written (get j t) (get j d) =
        e ∙ rw same (ap (λ i. written (get i t) (get i d)) ((eq_iff k j).0 same)) in
      rw (own, same)
        (elim (Bool-cases (contains ks j)) [
          | inl again ↦ rw again (written_twice (get j t) (get j d))
          | inr once ↦ rw once refl
        ])
]

-- All keys of the form, on a title that is a dict.
put_texts-get :
    (ks : List String) (t d : Fields) (changed : Value)
    → put_texts ks (obj t) (obj d) ≡ ok changed
    → (d' : Fields) × (changed ≡ obj d')
      × ((j : String) → get j d' ≡ (if contains ks j then written (get j t) (get j d) else get j d))
unfolding put_texts
put_texts-get [] t d changed h = (d, sym (ok-injective h), λ j. refl)
put_texts-get (k ∷ ks) t d changed h =
    let (next, h1, h2) = >>=-eq-ok (when_member k (obj t) (put_or_pop k) (obj d)) _ h in
    let (d1, same, first) = put_key-get k t d next h1 in
    let (d2, same', rest) = put_texts-get ks t d1 changed (rw same at h2) in
    (d2, same', λ j. rest j ∙ put_twice k ks t d j (get j d1) (first j))

put_or_pop_scalar :
    (v changed : Value)
    → (if is_true v then err Error.type_error else err Error.attribute_error) ≡ ok changed
    → false ≡ true
put_or_pop_scalar v changed h = elim (Bool-cases (is_true v)) [
  | inl e ↦ let h' : err Error.type_error ≡ ok changed = rw e at h in cc
  | inr e ↦ let h' : err Error.attribute_error ≡ ok changed = rw e at h in cc
]

put_or_pop_other :
    (k : String) (v title changed : Value)
    → is_dict title ≡ false
    → put_or_pop k v title ≡ ok changed
    → false ≡ true
put_or_pop_other k v (obj d) changed o h = sym o
put_or_pop_other k v (arr vs) changed o h = elim (Bool-cases (is_true v)) [
  | inl e ↦ let h' : err Error.type_error ≡ ok changed = rw e at h in cc
  | inr e ↦ let h' : err Error.type_error ≡ ok changed = rw e at h in cc
]
put_or_pop_other k v (str s) changed o h = put_or_pop_scalar v changed h
put_or_pop_other k v null changed o h = put_or_pop_scalar v changed h
put_or_pop_other k v (bool b) changed o h = put_or_pop_scalar v changed h
put_or_pop_other k v (int n) changed o h = put_or_pop_scalar v changed h
put_or_pop_other k v (float r) changed o h = put_or_pop_scalar v changed h

-- A title that is no dict passes only if the form gives none of the keys.
put_texts_other :
    (ks : List String) (t : Fields) (title changed : Value)
    → is_dict title ≡ false
    → put_texts ks (obj t) title ≡ ok changed
    → (title ≡ changed) × ((j : String) → contains ks j ≡ true → get j t ≡ none)
unfolding put_texts
put_texts_other [] t title changed o h = (ok-injective h, λ j none_left. cc)
put_texts_other (k ∷ ks) t title changed o h =
    let (next, h1, h2) = >>=-eq-ok (when_member k (obj t) (put_or_pop k) title) _ h in
    elim (Option-cases (get k t)) [
      | inr (v, there) ↦
          let ran : put_or_pop k v title ≡ ok next =
            sym (when_member_dict k t (put_or_pop k) title (some v) there) ∙ h1 in
          let no = put_or_pop_other k v title next o ran in cc
      | inl missing ↦
          let same : title ≡ next =
            ok-injective (sym (when_member_dict k t (put_or_pop k) title none missing) ∙ h1) in
          let (same', rest) = put_texts_other ks t title changed o (rw (← same) at h2) in
          (same', λ j listed. ground (arith, eq_iff k j, rest j, missing))
    ]

-- One text of a title, as the form reads it.
abbrev pub text_of : String → Value → Result Value
text_of k title = get_or (or_else title (obj end)) k (str "")

abbrev pub title_shown : String → Value → Result Value
title_shown k pc = do
  main ← get_or pc "mainMenu" (obj end)
  title ← dict_at "title" main
  get_or title k (str "")

-- What the form is to read: the given text, the empty text for an empty value, and what it read
-- before for a key that is not given.
abbrev pub read_back : Option Value → Result Value → Result Value
read_back none before = before
read_back (some v) before = ok (if is_true v then v else str "")

text_of_dict : (k : String) (d : Fields) → text_of k (obj d) ≡ ok (value_or (str "") (get k d))
unfolding or_else is_true get_or get
text_of_dict k end = refl
text_of_dict k (field j v d) = elim (Option-cases (get k (field j v d))) [
  | inl e ↦ rw (e, get_or) refl
  | inr (w, e) ↦ rw (e, get_or) refl
]

read_back-written :
    (o old : Option Value)
    → ok (value_or (str "") (written o old)) ≡ read_back o (ok (value_or (str "") old))
read_back-written none old = refl
read_back-written (some v) old = elim (Bool-cases (is_true v)) [
  | inl e ↦ rw e refl
  | inr e ↦ rw e refl
]

text_of_other :
    (k : String) (t : Fields) (title changed : Value)
    → is_dict title ≡ false
    → contains title_keys k ≡ true
    → put_texts title_keys (obj t) title ≡ ok changed
    → text_of k changed ≡ read_back (get k t) (text_of k title)
text_of_other k t title changed o listed h =
    let (same, missing) = put_texts_other title_keys t title changed o h in
    ap (text_of k) (sym same) ∙ sym (ap (λ v. read_back v (text_of k title)) (missing k listed))

pub text_of-put_texts :
    (k : String) (t : Fields) (title changed : Value)
    → contains title_keys k ≡ true
    → put_texts title_keys (obj t) title ≡ ok changed
    → text_of k changed ≡ read_back (get k t) (text_of k title)
text_of-put_texts k t (obj d) changed listed h =
    let (d', same, got) = put_texts-get title_keys t d changed h in
    let now : get k d' ≡ written (get k t) (get k d) =
      got k ∙ ap (λ b. if b then written (get k t) (get k d) else get k d) listed in
    ap (text_of k) same
    ∙ text_of_dict k d'
    ∙ ap (λ o. ok (value_or (str "") o)) now
    ∙ read_back-written (get k t) (get k d)
    ∙ ap (read_back (get k t)) (sym (text_of_dict k d))
text_of-put_texts k t (arr vs) changed listed h = text_of_other k t (arr vs) changed refl listed h
text_of-put_texts k t (str s) changed listed h = text_of_other k t (str s) changed refl listed h
text_of-put_texts k t null changed listed h = text_of_other k t null changed refl listed h
text_of-put_texts k t (bool b) changed listed h = text_of_other k t (bool b) changed refl listed h
text_of-put_texts k t (int n) changed listed h = text_of_other k t (int n) changed refl listed h
text_of-put_texts k t (float r) changed listed h = text_of_other k t (float r) changed refl listed h
