-- ===== src/Db/Table.antt =====
-- What the program asks of one table with a text for its primary key: `db.get`, `db.add`,
-- `db.merge`, `db.delete`, an update of the row that `db.get` returned, and `filter(…).all()`.
use masterportal_admin.Base.{
  String, ◌==◌, eq_iff, if◌then◌else◌, Option, none, some, List, [], ◌∷◌, ◌++◌, ◌≡◌, refl, ap,
  arith,
}

module _ {R : Type 0} (key : R → String) where
  -- `db.get(R, k)`
  unfoldable pub find : String → List R → Option R
  find k [] = none
  find k (r ∷ rows) = if key r == k then some r else find k rows

  -- `db.add(r)`, for a key that is not there.
  abbrev pub add : R → List R → List R
  add r rows = rows ++ r ∷ []

  -- `db.merge(r)`: replaces the row of that key, or adds one.
  unfoldable pub merge : R → List R → List R
  merge r [] = r ∷ []
  merge r (q ∷ rows) = if key q == key r then r ∷ rows else q ∷ merge r rows

  -- `db.delete` of the row of that key.
  unfoldable pub delete : String → List R → List R
  delete k [] = []
  delete k (r ∷ rows) = let rest = delete k rows in if key r == k then rest else r ∷ rest

  -- An update of the row that `db.get(R, k)` returned, by a function that keeps its key.
  unfoldable pub alter : String → (R → R) → List R → List R
  alter k f [] = []
  alter k f (r ∷ rows) = if key r == k then f r ∷ rows else r ∷ alter k f rows

  -- The primary key: no two rows have one key.
  abbrev pub IsKeyed : List R → Type 0
  IsKeyed [] = Unit
  IsKeyed (r ∷ rows) = (find (key r) rows ≡ none) × IsKeyed rows

  pub find-add :
      (k : String) (r : R) (rows : List R)
      → find (key r) rows ≡ none
      → find k (add r rows) ≡ (if key r == k then some r else find k rows)
  unfolding find
  find-add k r [] h = refl
  find-add k r (q ∷ rows) h =
      ground (arith, find-add k r rows, eq_iff (key q) (key r), eq_iff (key q) k, eq_iff (key r) k)

  pub find-merge :
      (k : String) (r : R) (rows : List R)
      → find k (merge r rows) ≡ (if key r == k then some r else find k rows)
  unfolding find merge
  find-merge k r [] = refl
  find-merge k r (q ∷ rows) =
      ground
        (arith, find-merge k r rows, eq_iff (key q) (key r), eq_iff (key q) k, eq_iff (key r) k)

  pub find-delete :
      (k j : String) (rows : List R)
      → find j (delete k rows) ≡ (if k == j then none else find j rows)
  unfolding find delete
  find-delete k j [] = ground arith
  find-delete k j (q ∷ rows) =
      ground (arith, find-delete k j rows, eq_iff (key q) k, eq_iff (key q) j, eq_iff k j)

  pub key-find : (k : String) (rows : List R) (r : R) → find k rows ≡ some r → key r ≡ k
  unfolding find
  key-find k [] r h = cc
  key-find k (q ∷ rows) r h = ground (arith, key-find k rows r, eq_iff (key q) k)

  pub merge-IsKeyed : (r : R) (rows : List R) → IsKeyed rows → IsKeyed (merge r rows)
  unfolding merge find
  merge-IsKeyed r [] h = ground arith
  merge-IsKeyed r (q ∷ rows) h = ground (
    arith,
    merge-IsKeyed r rows,
    find-merge (key q) r rows,
    eq_iff (key q) (key r),
    eq_iff (key r) (key q),
  )

  pub delete-IsKeyed : (k : String) (rows : List R) → IsKeyed rows → IsKeyed (delete k rows)
  unfolding delete find
  delete-IsKeyed k [] h = tt
  delete-IsKeyed k (q ∷ rows) h =
      ground (
        arith,
        delete-IsKeyed k rows,
        find-delete k (key q) rows,
        eq_iff (key q) k,
        eq_iff k (key q),
      )

  pub add-IsKeyed :
      (r : R) (rows : List R) → find (key r) rows ≡ none → IsKeyed rows → IsKeyed (add r rows)
  unfolding find
  add-IsKeyed r [] h k = ground arith
  add-IsKeyed r (q ∷ rows) h k = ground (
    arith,
    add-IsKeyed r rows,
    find-add (key q) r rows,
    eq_iff (key q) (key r),
    eq_iff (key r) (key q),
  )

-- An update of one row is a row with its key in its place.
pub find-alter_row :
    {R : Type 0} (key : R → String) (s : R) (k j : String) (rows : List R)
    → key s ≡ k
    → find key j (alter key k (λ r. s) rows) ≡ (
        if k == j
        then elim (find key j rows) [ none ↦ none | some r ↦ some s ]
        else find key j rows)
unfolding find alter
find-alter_row key s k j [] own = ground arith
find-alter_row key s k j (q ∷ rows) own = ground (
  arith,
  find-alter_row key s k j rows own,
  ap (λ i. i == j) own,
  eq_iff (key q) k,
  eq_iff (key q) j,
  eq_iff k j,
)

module _ {R : Type 0} (key : R → String) (f : R → R) (keeps : (r : R) → key (f r) ≡ key r) where
  pub find-alter :
      (k j : String) (rows : List R)
      → find key j (alter key k f rows) ≡ (
          if k == j
          then elim (find key j rows) [ none ↦ none | some r ↦ some (f r) ]
          else find key j rows)
  unfolding find alter
  find-alter k j [] = ground arith
  find-alter k j (q ∷ rows) =
      ground (arith, find-alter k j rows, keeps q, eq_iff (key q) k, eq_iff (key q) j, eq_iff k j)

  pub alter-IsKeyed :
      (k : String) (rows : List R) → IsKeyed key rows → IsKeyed key (alter key k f rows)
  unfolding alter find
  alter-IsKeyed k [] h = tt
  alter-IsKeyed k (q ∷ rows) h = ground (
    arith,
    alter-IsKeyed k rows,
    find-alter k (key q) rows,
    keeps q,
    eq_iff (key q) k,
    eq_iff k (key q),
  )
