-- ===== src/Base/Errors.antt =====
-- Python's exceptions as values. The text of an exception is not kept.
use mathlib.Core.Path.{◌≡◌, refl}
use mathlib.Core.Logic.{◌⊎◌, inl, inr}
use mathlib.Core.Bool.{Bool, true, false}
use mathlib.Core.List.{List, [], ◌∷◌}
use Prim.Native.Nat.{ℕ}

pub data Error : Type 0 where
  -- `HTTPException(status, …)`
  http : ℕ → Error
  attribute_error type_error key_error value_error index_error runtime_error : Error
  -- `jwt.PyJWTError` and `httpx.HTTPError`
  jwt_error transport_error : Error

pub data Result {ℓ} (A : Type ℓ) : Type ℓ where
  ok : A → Result A
  err : Error → Result A

infixl 5 ◌>>=◌ ◌>>◌
abbrev pub ◌>>=◌ {ℓ κ} : {A : Type ℓ} {B : Type κ} → Result A → (A → Result B) → Result B
err raised >>= body = err raised
ok value >>= body = body value

-- `if not test: raise e`
abbrev pub guard : Bool → Error → Result (Unit {0})
guard test e = elim test [ true ↦ ok tt | false ↦ err e ]

-- One statement after another.
abbrev pub ◌>>◌ {ℓ} : {B : Type ℓ} → Result (Unit {0}) → Result B → Result B
first >> second = first >>= λ done. second

module _ {ℓ κ} {A : Type ℓ} {B : Type κ} where
  -- A chain that returns has a first part that returned.
  pub >>=-eq-ok :
      (m : Result A) (body : A → Result B) {b : B}
      → (m >>= body) ≡ ok b
      → (a : A) × (m ≡ ok a) × (body a ≡ ok b)
  >>=-eq-ok (err raised) body returned = cc
  >>=-eq-ok (ok value) body returned = (value, refl, returned)

-- A loop `for x in xs` whose body may raise, collecting what each round yields.
unfoldable pub map_result {ℓ κ} :
    {A : Type ℓ} {B : Type κ} → (A → Result B) → List A → Result (List B)
map_result f [] = ok []
map_result f (x ∷ xs) = do y ← f x; ys ← map_result f xs; ok (y ∷ ys)

pub ok-injective {ℓ} : {A : Type ℓ} {a b : A} → ok a ≡ ok b → a ≡ b
ok-injective h = cc

-- `[x for x in xs if p(x)]`, where the test may raise.
unfoldable pub keep_result {ℓ} : {A : Type ℓ} → (A → Result Bool) → List A → Result (List A)
keep_result p [] = ok []
keep_result p (x ∷ xs) = do
  b ← p x
  rest ← keep_result p xs
  ok (elim b [ true ↦ x ∷ rest | false ↦ rest ])

pub Result-cases {ℓ} :
    {A : Type ℓ} (r : Result A) → ((a : A) × (r ≡ ok a)) ⊎ ((e : Error) × (r ≡ err e))
Result-cases (ok a) = inl (a, refl)
Result-cases (err e) = inr (e, refl)
