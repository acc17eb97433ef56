-- ===== src/Db/Query.antt =====
-- Queries over the rows of a table: `filter`, `order_by`, and dicts and sets built from rows.
use Prim.Native.Nat.{ℕ}
use masterportal_admin.Base.{
  String, Bool, ◌&&◌, ◌||◌, ◌==◌, eq_iff, if◌then◌else◌, Option, none, some, List, [], ◌∷◌, ◌≡◌,
  refl, arith, contains, any, All, keep, leb,
}
use masterportal_admin.Base.Dict
use masterportal_admin.Base.Dict.{Dict}
use masterportal_admin.Db.Table.{find, IsKeyed}

module _ {R : Type 0} where
  insert_by : (R → ℕ) → R → List R → List R
  insert_by f r [] = r ∷ []
  insert_by f r (q ∷ rows) =
      let rest = insert_by f r rows in if leb (f r) (f q) then r ∷ q ∷ rows else q ∷ rest

  -- `order_by(f)`. SQL leaves open how rows of one value stand; here they stay in the order of the
  -- table.
  unfoldable pub order_by : (R → ℕ) → List R → List R
  unfolding insert_by
  order_by f [] = []
  order_by f (r ∷ rows) = insert_by f r (order_by f rows)

  -- `{k(r): v(r) for r in rows}`
  unfoldable pub dict_of {ℓ} : {V : Type ℓ} → (R → String) → (R → V) → Dict V → List R → Dict V
  dict_of k v d [] = d
  dict_of k v d (r ∷ rows) = dict_of k v (Dict.set (k r) (v r) d) rows

  -- `d.setdefault(k(r), set()).add(v(r))` for each row.
  unfoldable pub sets_of :
      (R → String) → (R → String) → Dict (List String) → List R → Dict (List String)
  sets_of k v d [] = d
  sets_of k v d (r ∷ rows) =
      sets_of k v (Dict.set (k r) (Dict.insert (v r) (Dict.get_or (k r) [] d)) d) rows

  any-insert_by :
      (f : R → ℕ) (p : R → Bool) (r : R) (rows : List R)
      → any p (insert_by f r rows) ≡ (p r || any p rows)
  unfolding insert_by
  any-insert_by f p r [] = refl
  any-insert_by f p r (q ∷ rows) = ground (arith, any-insert_by f p r rows)

  pub any-order_by :
      (f : R → ℕ) (p : R → Bool) (rows : List R) → any p (order_by f rows) ≡ any p rows
  unfolding order_by
  any-order_by f p [] = refl
  any-order_by f p (r ∷ rows) =
      ground (arith, any-insert_by f p r (order_by f rows), any-order_by f p rows)

  All-insert_by {ℓ} :
      (P : R → Type ℓ) (f : R → ℕ) (r : R) (rows : List R)
      → P r
      → All P rows
      → All P (insert_by f r rows)
  unfolding insert_by
  All-insert_by P f r [] p h = (p, tt)
  All-insert_by P f r (q ∷ rows) p h = ground (arith, All-insert_by P f r rows p)

  pub All-order_by {ℓ} :
      (P : R → Type ℓ) (f : R → ℕ) (rows : List R) → All P rows → All P (order_by f rows)
  unfolding order_by
  All-order_by P f [] h = tt
  All-order_by P f (r ∷ rows) (p, h) =
      All-insert_by P f r (order_by f rows) p (All-order_by P f rows h)

  pub contains-sets_of :
      (k v : R → String) (d : Dict (List String)) (rows : List R) (j a : String)
      → contains (Dict.get_or j [] (sets_of k v d rows)) a
        ≡ (any (λ r. k r == j && v r == a) rows || contains (Dict.get_or j [] d) a)
  unfolding sets_of
  contains-sets_of k v d [] j a = refl
  contains-sets_of k v d (r ∷ rows) j a =
      let s = Dict.insert (v r) (Dict.get_or (k r) [] d) in
      ground (
        arith,
        contains-sets_of k v (Dict.set (k r) s d) rows j a,
        Dict.get_or-set (k r) j [] s d,
        Dict.contains-insert (v r) a (Dict.get_or (k r) [] d),
        eq_iff (k r) j,
      )

-- The value that a row gives, if there is a row.
abbrev pub value_or {ℓ} : {R : Type 0} {V : Type ℓ} → (R → V) → V → Option R → V
value_or f v none = v
value_or f v (some r) = f r

module _ {R : Type 0} {V : Type 0} (key : R → String) (v : R → V) where
  get_or-dict_of_missing :
      (j : String) (u : V) (d : Dict V) (rows : List R)
      → find key j rows ≡ none
      → Dict.get_or j u (dict_of key v d rows) ≡ Dict.get_or j u d
  unfolding dict_of find
  get_or-dict_of_missing j u d [] h = refl
  get_or-dict_of_missing j u d (r ∷ rows) h = ground (
    arith,
    get_or-dict_of_missing j u (Dict.set (key r) (v r) d) rows,
    Dict.get_or-set (key r) j u (v r) d,
  )

  -- Over a primary key, the dict gives what the row with the key gives.
  pub get_or-dict_of :
      (j : String) (u : V) (d : Dict V) (rows : List R)
      → IsKeyed key rows
      → Dict.get_or j u (dict_of key v d rows) ≡ value_or v (Dict.get_or j u d) (find key j rows)
  unfolding dict_of find
  get_or-dict_of j u d [] h = refl
  get_or-dict_of j u d (r ∷ rows) (new, h) = ground (
    arith,
    get_or-dict_of j u (Dict.set (key r) (v r) d) rows h,
    get_or-dict_of_missing (key r) u (Dict.set (key r) (v r) d) rows new,
    Dict.get_or-set (key r) j u (v r) d,
    eq_iff (key r) j,
  )

module _ {R : Type 0} (key : R → String) (p : R → Bool) where
  pub find-keep_missing :
      (k : String) (rows : List R) → find key k rows ≡ none → find key k (keep p rows) ≡ none
  unfolding find
  find-keep_missing k [] h = refl
  find-keep_missing k (r ∷ rows) h = ground (arith, find-keep_missing k rows)

  -- `filter(p)` over a primary key.
  pub find-keep :
      (k : String) (rows : List R)
      → IsKeyed key rows
      → find key k (keep p rows)
        ≡ elim (find key k rows) [ none ↦ none | some r ↦ if p r then some r else none ]
  unfolding find
  find-keep k [] h = refl
  find-keep k (r ∷ rows) (new, h) =
      ground (arith, find-keep k rows h, find-keep_missing (key r) rows new, eq_iff (key r) k)

  pub keep-IsKeyed : (rows : List R) → IsKeyed key rows → IsKeyed key (keep p rows)
  keep-IsKeyed [] h = tt
  keep-IsKeyed (r ∷ rows) (new, h) =
      ground (arith, keep-IsKeyed rows h, find-keep_missing (key r) rows new)
