-- ===== src/Json.antt =====
-- The JSON documents that the database and the request bodies hold, as Python sees them.
pub mod Text
pub mod Object
pub mod Update
use masterportal_admin.Base.{ap, ◌≡◌, refl, ℕ, String, Bool, true, false, List, [], ◌∷◌}
use masterportal_admin.Base.Int.{ℤ}

-- A `float` is kept as its `repr`. The entries of an object stand in the order of the `dict`, and
-- no key stands twice (`IsDict` of `Json.Object`).
mutual
  pub data Value : Type 0 where
    null : Value
    bool : Bool → Value
    int : ℤ → Value
    float : String → Value
    str : String → Value
    arr : Items → Value
    obj : Fields → Value

  pub data Fields : Type 0 where
    end : Fields
    field : String → Value → Fields → Fields

  pub data Items : Type 0 where
    nil : Items
    cons : Value → Items → Items

abbrev pub to_list : Items → List Value
to_list nil = []
to_list (cons v vs) = v ∷ to_list vs

abbrev pub of_list : List Value → Items
of_list [] = nil
of_list (v ∷ vs) = cons v (of_list vs)

pub to_list-of_list : (vs : List Value) → to_list (of_list vs) ≡ vs
to_list-of_list [] = refl
to_list-of_list (v ∷ vs) = ap (◌∷◌ v) (to_list-of_list vs)
