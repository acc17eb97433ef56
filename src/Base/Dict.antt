-- ===== src/Base/Dict.antt =====
-- Python's `dict` with text keys, in its order, and sets of texts.
use Prim.Native.String.{String}
use mathlib.Core.Path.{◌≡◌, refl}
use mathlib.Core.Bool.{◌||◌}
use mathlib.Core.Option.{Option, none, some}
use mathlib.Core.List.{List, [], ◌∷◌}
use native.Mathlib.Omega.{arith}
use text.Mathlib.Text.{◌==◌}
use text.Mathlib.TextEquality.{eq_iff}
use masterportal_admin.Base.Tests.{if◌then◌else◌}
use masterportal_admin.Base.Lists.{contains}

abbrev pub Dict {ℓ} : Type ℓ → Type ℓ
Dict V = List (String × V)

module _ {ℓ} {V : Type ℓ} where
  -- `d.get(k)`
  unfoldable pub get : String → Dict V → Option V
  get k [] = none
  get k ((j, v) ∷ d) = if j == k then some v else get k d

  -- `d.get(k, default)`
  unfoldable pub get_or : String → V → Dict V → V
  get_or k v [] = v
  get_or k v ((j, w) ∷ d) = if j == k then w else get_or k v d

  -- `d[k] = v`
  unfoldable pub set : String → V → Dict V → Dict V
  set k v [] = (k, v) ∷ []
  set k v ((j, w) ∷ d) = if j == k then (j, v) ∷ d else (j, w) ∷ set k v d

  -- `del d[k]`, `d.pop(k, None)`
  unfoldable pub remove : String → Dict V → Dict V
  remove k [] = []
  remove k ((j, w) ∷ d) = let rest = remove k d in if j == k then rest else (j, w) ∷ rest

  pub get-set :
      (k j : String) (v : V) (d : Dict V) → get j (set k v d) ≡ (if k == j then some v else get j d)
  unfolding get set
  get-set k j v [] = refl
  get-set k j v ((i, w) ∷ d) = ground (arith, eq_iff k j, eq_iff i k, eq_iff i j, get-set k j v d)

  pub get_or-set :
      (k j : String) (u v : V) (d : Dict V)
      → get_or j u (set k v d) ≡ (if k == j then v else get_or j u d)
  unfolding get_or set
  get_or-set k j u v [] = refl
  get_or-set k j u v ((i, w) ∷ d) =
      ground (arith, eq_iff k j, eq_iff i k, eq_iff i j, get_or-set k j u v d)

  pub get-remove :
      (k j : String) (d : Dict V) → get j (remove k d) ≡ (if k == j then none else get j d)
  unfolding get remove
  get-remove k j [] = ground arith
  get-remove k j ((i, w) ∷ d) = ground (arith, eq_iff k j, eq_iff i k, eq_iff i j, get-remove k j d)

  pub get_or-get :
      (k : String) (u : V) (d : Dict V) → get_or k u d ≡ elim (get k d) [ none ↦ u | some v ↦ v ]
  unfolding get get_or
  get_or-get k u [] = refl
  get_or-get k u ((i, w) ∷ d) = ground (arith, get_or-get k u d)

-- `s.add(a)`
unfoldable pub insert : String → List String → List String
insert a s = if contains s a then s else a ∷ s

pub contains-insert :
    (a b : String) (s : List String) → contains (insert a s) b ≡ (a == b || contains s b)
unfolding insert
contains-insert a b s = ground (arith, eq_iff a b)

pub get_or-remove {ℓ} :
    {V : Type ℓ} (k j : String) (u : V) (d : Dict V)
    → get_or j u (remove k d) ≡ (if k == j then u else get_or j u d)
unfolding get_or remove
get_or-remove k j u [] = ground arith
get_or-remove k j u ((i, w) ∷ d) =
    ground (arith, eq_iff k j, eq_iff i k, eq_iff i j, get_or-remove k j u d)
